-- ===== src/Buckets/Tests.antt =====
-- The theorems on the page of the buckets at concrete states.
use light_oss.Base.{
  number_key, ℕ, ◌≡◌, refl, true, false, ◌&&◌, ◌||◌, none, some, List, [], ◌∷◌, if◌then◌else◌,
}
use light_oss.Base.Text.{text_key, Text, codes}
use light_oss.Base.JsSet.{has}
use light_oss.Base.JsObject.{inherited_names}
use light_oss.Api.Types.{Bucket, Site}
use light_oss.Pins.Unary.{unary, home, pinned, pinned-IsCoherent}
use light_oss.Buckets.{BucketsQuery, BucketsPage, ids_of_buckets, reconcile_effect, shown_sites}
use light_oss.Buckets.Groups.{some_inherited, sites_of, shown_sites_lem}
use light_oss.Buckets.Reconciled.{reconcile_effect_lem}

abbrev bucket_of : ℕ → Text → Bucket
bucket_of id name = record { id = id; name = name; created_at = []; updated_at = [] }

abbrev two_buckets : List Bucket
two_buckets = bucket_of 5 (codes "docs") ∷ bucket_of 9 (codes "music") ∷ []

abbrev loaded : BucketsQuery
loaded = record {
  is_success = true;
  is_fetched_after_mount = true;
  is_fetching = false;
  items = some two_buckets;
  snapshot = codes "1";
}

abbrev page : BucketsPage
page = record {
  reconciled_snapshot = [];
  hook = pinned;
  removed_entries = [];
  toasts = [];
  buckets_invalidations = 0;
  sites_invalidations = 0;
}

reconcile_effect_lem_example :
    (has 3 (reconcile_effect unary home loaded page).hook.state.ids
      ≡ (has 3 page.hook.state.ids && has 3 (ids_of_buckets two_buckets)))
    × (reconcile_effect unary home loaded (reconcile_effect unary home loaded page)
        ≡ reconcile_effect unary home loaded page)
reconcile_effect_lem_example =
    reconcile_effect_lem unary home page pinned-IsCoherent refl loaded two_buckets 3 refl refl refl

abbrev site : Text → Site
site bucket = record {
  id = 1;
  bucket = bucket;
  root_prefix = [];
  enabled = true;
  index_document = [];
  error_document = [];
  spa_fallback = false;
  domains = [];
  created_at = [];
  updated_at = [];
}

-- One site of a bucket with an inherited name is enough.
abbrev three_sites : List Site
three_sites = site (codes "docs") ∷ site (codes "constructor") ∷ site (codes "docs") ∷ []

shown_sites_lem_example : shown_sites (codes "docs") three_sites ≡ (
    if has (codes "docs") inherited_names || some_inherited three_sites
    then none
    else some (sites_of (codes "docs") three_sites))
shown_sites_lem_example = shown_sites_lem (codes "docs") three_sites
