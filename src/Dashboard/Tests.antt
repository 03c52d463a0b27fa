-- ===== src/Dashboard/Tests.antt =====
-- The theorems on the dashboard at concrete states.
use light_oss.Base.{number_key, ℕ, ◌≡◌, refl, not, ◌&&◌, Option, some, [], ◌∷◌, ◌==◌, length}
use light_oss.Base.Text.{Text, codes}
use light_oss.Base.JsSet.{has}
use light_oss.Api.Types.{Bucket}
use light_oss.Pins.Unary.{unary, home, pinned, pinned-IsCoherent}
use light_oss.Buckets.{BucketsPage, delete_succeeded}
use light_oss.Dashboard.{latest_bucket}
use light_oss.Dashboard.Latest.{IsLatest, latest_bucket_lem}
use light_oss.Dashboard.Pinned.{shown_ids, deleted-shown}

abbrev bucket_of : ℕ → Text → Text → Bucket
bucket_of id name at = record { id = id; name = name; created_at = []; updated_at = at }

abbrev docs : Bucket
docs = bucket_of 5 (codes "docs") (codes "1")

abbrev music : Bucket
music = bucket_of 9 (codes "music") (codes "2020")

-- The length of a text as its time.
abbrev by_length : Text → Option ℕ
by_length text = some (length text)

latest_bucket_lem_example :
    (latest : Bucket) × (latest_bucket by_length (docs ∷ (music ∷ [])) ≡ some latest)
    × IsLatest by_length (docs ∷ (music ∷ [])) latest
latest_bucket_lem_example = latest_bucket_lem by_length docs (music ∷ []) (refl, (refl, tt))

abbrev page : BucketsPage
page = record {
  reconciled_snapshot = [];
  hook = pinned;
  removed_entries = [];
  toasts = [];
  buckets_invalidations = 0;
  sites_invalidations = 0;
}

deleted-shown_example :
    has 5 (shown_ids (delete_succeeded unary home (codes "docs") (some 5) page) (docs ∷ []))
    ≡ (has 5 (shown_ids page (docs ∷ [])) && not (5 == 5))
deleted-shown_example =
    deleted-shown unary home page pinned-IsCoherent refl (docs ∷ []) (codes "docs") 5 5
