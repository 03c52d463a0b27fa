-- ===== src/Buckets.antt =====
-- frontend/src/pages/BucketsPage.tsx and features/buckets/useDeleteBucket.ts: the search, the pins
-- against the list of all buckets, the sites of each bucket, and the deletion of a bucket.
pub mod Card
pub mod Create
pub mod Groups
pub mod Reconciled
mod Tests
use light_oss.Base.{
  number_key, ℕ, ◌+◌, ◌==◌, Bool, true, false, not, ◌&&◌, ◌||◌, Option, none, some, List, [], ◌∷◌,
  ◌++◌, map, if◌then◌else◌, or_else, is_empty, keep,
}
use mathlib.Core.Option
use light_oss.Base.Text.{text_key, Text, codes, text_eq, trim}
use light_oss.Base.JsSet.{has}
use light_oss.Base.JsObject.{inherited_names}
use light_oss.Api.Types.{Bucket, Site}
use light_oss.Pins.Storage.{Codec}
use light_oss.Pins.{Hook, remove_pin, reconcile_pins}

-- `normalizeBucketSearch`
unfoldable pub normalize_bucket_search : Option Text → Text
normalize_bucket_search value = trim (or_else value [])

-- The parameter `search` of the address after `updateSearchParams`.
unfoldable pub update_search_params : Text → Option Text
update_search_params next_search = if is_empty next_search then none else some next_search

unfoldable pub handle_search_submit : Text → Option Text
unfolding update_search_params
handle_search_submit search_input = update_search_params (trim search_input)

-- A query of buckets, as the page looks at it; `snapshot` is the JSON of its key and its time.
pub record BucketsQuery : Type 0 where
  pub is_success : Bool
  pub is_fetched_after_mount : Bool
  pub is_fetching : Bool
  pub items : Option (List Bucket)
  pub snapshot : Text

-- Without a search the shown list is the full one.
unfoldable pub full_buckets_query : Text → BucketsQuery → BucketsQuery → BucketsQuery
full_buckets_query search buckets_query pinned_buckets_query =
    if is_empty search then buckets_query else pinned_buckets_query

pub data Toast : Type 0 where
  bucket_deleted : Toast
  failure : Text → Toast

pub record BucketsPage : Type 0 where
  pub reconciled_snapshot : Text
  pub hook : Hook
  pub removed_entries : List Text
  pub toasts : List Toast
  pub buckets_invalidations : ℕ
  pub sites_invalidations : ℕ

abbrev pub ids_of_buckets : List Bucket → List ℕ
ids_of_buckets buckets = map (λ b. b.id) buckets

abbrev pub is_settled : BucketsQuery → Bool
is_settled q = q.is_success && q.is_fetched_after_mount && not q.is_fetching

abbrev pub reconciled_with : Codec → Text → Option (List Bucket) → Text → BucketsPage → BucketsPage
reconciled_with codec key none snapshot page = page
reconciled_with codec key (some full_buckets) snapshot page =
    if text_eq page.reconciled_snapshot snapshot then page else record page {
      reconciled_snapshot = snapshot;
      hook = reconcile_pins codec key (ids_of_buckets full_buckets) page.hook;
    }

-- The effect on a change of the full list; `key` is the storage key of the service.
unfoldable pub reconcile_effect : Codec → Text → BucketsQuery → BucketsPage → BucketsPage
reconcile_effect codec key q page =
    if is_settled q then reconciled_with codec key q.items q.snapshot page else page

abbrev pub find_bucket : Text → List Bucket → Option Bucket
find_bucket name [] = none
find_bucket name (b ∷ buckets) =
    let rest = find_bucket name buckets in if text_eq b.name name then some b else rest

abbrev found_in : Text → Option (List Bucket) → Option Bucket
found_in name none = none
found_in name (some buckets) = find_bucket name buckets

abbrev first_found : Option Bucket → Option Bucket → Option ℕ
first_found (some b) other = some b.id
first_found none (some b) = some b.id
first_found none none = none

-- The id that `handleDeleteBucket` hands on.
unfoldable pub handle_delete_bucket : Text → BucketsQuery → BucketsQuery → Option ℕ
handle_delete_bucket bucket_name full_query buckets_query =
    first_found (found_in bucket_name full_query.items) (found_in bucket_name buckets_query.items)

abbrev pub unpinned : Codec → Text → Option ℕ → Hook → Hook
unpinned codec key none h = h
unpinned codec key (some id) h = remove_pin codec key id h

-- `onSuccess` and `onError` of the deletion
unfoldable pub delete_succeeded : Codec → Text → Text → Option ℕ → BucketsPage → BucketsPage
delete_succeeded codec key name id page = record page {
  hook = unpinned codec key id page.hook;
  removed_entries = page.removed_entries ++ name ∷ [];
  toasts = page.toasts ++ bucket_deleted ∷ [];
  buckets_invalidations = page.buckets_invalidations + 1;
  sites_invalidations = page.sites_invalidations + 1;
}

unfoldable pub delete_failed : Text → BucketsPage → BucketsPage
delete_failed message page = record page { toasts = page.toasts ++ failure message ∷ [] }

abbrev pub last_or : Option Bucket → Option Bucket → Option Bucket
last_or none first = first
last_or (some b) first = some b

-- `new Map(...)` by id: the last bucket of an id.
abbrev pub bucket_by_id : ℕ → List Bucket → Option Bucket
bucket_by_id id [] = none
bucket_by_id id (b ∷ buckets) =
    let rest = bucket_by_id id buckets in last_or rest (if b.id == id then some b else none)

abbrev cons_found : Option Bucket → List Bucket → List Bucket
cons_found none buckets = buckets
cons_found (some b) buckets = b ∷ buckets

-- `pinnedBuckets`
unfoldable pub pinned_buckets : List ℕ → List Bucket → List Bucket
pinned_buckets [] full_buckets = []
pinned_buckets (id ∷ ids) full_buckets =
    cons_found (bucket_by_id id full_buckets) (pinned_buckets ids full_buckets)

abbrev pub Groups : Type 0
Groups = List (Text × List Site)

-- The sites of the own member of `sitesByBucket`, if there is one.
abbrev pub group_of : Text → Groups → List Site
group_of bucket [] = []
group_of bucket ((name, sites) ∷ groups) =
    let rest = group_of bucket groups in if text_eq name bucket then sites else rest

-- A new group where there is none yet, and `push`.
abbrev pub put_site : Site → Groups → Groups
put_site site [] = (site.bucket, site ∷ []) ∷ []
put_site site ((name, sites) ∷ groups) =
    let rest = put_site site groups in
    if text_eq name site.bucket then (name, sites ++ site ∷ []) ∷ groups else (name, sites) ∷ rest

abbrev pub is_inherited : Site → Bool
is_inherited site = has site.bucket inherited_names

abbrev pub group_sites : List Site → Groups → Option Groups
group_sites [] groups = some groups
group_sites (site ∷ sites) groups =
    let rest = group_sites sites (put_site site groups) in if is_inherited site then none else rest

-- `sitesByBucket`; `none` is the exception where `push` is no function.
unfoldable pub sites_by_bucket : List Site → Option Groups
sites_by_bucket sites = group_sites sites []

-- `sitesByBucket[bucket.name] ?? []` of a card; `none` is what is no array.
unfoldable pub shown_sites : Text → List Site → Option (List Site)
unfolding sites_by_bucket
shown_sites bucket sites =
    let groups = sites_by_bucket sites in
    if has bucket inherited_names then none else Option.map (group_of bucket) groups
