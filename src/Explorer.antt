-- ===== src/Explorer.antt =====
-- frontend/src/lib/explorer.ts: prefixes, search parameters and sorting of the object browser.
-- A value that may be null or undefined is an `Option`.
pub mod Prefix
pub mod Segments
pub mod Tree
pub mod Parent
pub mod Sorting
mod Tests
use light_oss.Base.{
  ℕ, suc, ◌+◌, ◌≡◌, Bool, true, false, not, Option, none, some, List, [], ◌∷◌, ◌++◌, leb, ◌==◌,
  if◌then◌else◌, or_else, is_empty, keep, take, length, drop_last,
}
use light_oss.Base.Text.{
  Text, codes, slash, text_eq, is_slash, strip_start, strip_end, trim, starts_with,
}
use light_oss.Base.Split.{split, join}

-- The values of `explorerPageSizes`.
abbrev pub page_sizes : List ℕ
page_sizes = 10 ∷ 20 ∷ 50 ∷ 100 ∷ 200 ∷ []

pub data SortBy : Type 0 where
  name size created_at : SortBy

pub data SortOrder : Type 0 where
  asc desc : SortOrder

-- What `.trim()` and the two `.replace` calls leave.
abbrev pub strip_slashes : Text → Text
strip_slashes s = strip_end is_slash (strip_start is_slash s)

unfoldable pub normalize_prefix : Option Text → Text
normalize_prefix value =
    let trimmed = strip_slashes (trim (or_else value [])) in
    if is_empty trimmed then [] else trimmed ++ slash ∷ []

unfoldable pub normalize_search : Option Text → Text
normalize_search value = trim (or_else value [])

pub includes : List ℕ → ℕ → Bool
includes [] n = false
includes (m ∷ ms) n = if m == n then true else includes ms n

-- `number` is the value of `Number(…)` where that is a natural number.
unfoldable pub parse_limit : (number : Text → Option ℕ) → Option Text → ℕ
unfolding includes
parse_limit number value = elim (number (or_else value [])) [
  | none ↦ 20
  | some limit ↦ if includes page_sizes limit then limit else 20
]

-- `explorerSortByValues` and `explorerSortOrderValues`
abbrev pub sort_by_text : SortBy → Text
sort_by_text name = codes "name"
sort_by_text size = codes "size"
sort_by_text created_at = codes "created_at"

abbrev pub sort_order_text : SortOrder → Text
sort_order_text asc = codes "asc"
sort_order_text desc = codes "desc"

unfoldable pub normalize_sort_by : Option Text → Option SortBy
normalize_sort_by none = none
normalize_sort_by (some value) =
    if text_eq value (sort_by_text name)
    then some name
    else if text_eq value (sort_by_text size)
    then some size
    else if text_eq value (sort_by_text created_at)
    then some created_at
    else none

unfoldable pub normalize_sort_order : Option Text → Option SortOrder
normalize_sort_order none = none
normalize_sort_order (some value) =
    if text_eq value (sort_order_text asc)
    then some asc
    else if text_eq value (sort_order_text desc)
    then some desc
    else none

abbrev pub same_sort_by : SortBy → SortBy → Bool
same_sort_by name name = true
same_sort_by size size = true
same_sort_by created_at created_at = true
same_sort_by _ _ = false

pub record Sort : Type 0 where
  pub sort_by : Option SortBy
  pub sort_order : Option SortOrder

abbrev targets : Option SortBy → SortBy → Bool
targets none target = false
targets (some current) target = same_sort_by current target

abbrev is_asc : Option SortOrder → Bool
is_asc (some asc) = true
is_asc _ = false

unfoldable pub next_sort : Option SortBy → Option SortOrder → SortBy → Sort
next_sort current order target =
    if not (targets current target)
    then record { sort_by = some target; sort_order = some asc }
    else if is_asc order
    then record { sort_by = some target; sort_order = some desc }
    else record { sort_by = none; sort_order = none }

pub record Breadcrumb : Type 0 where
  pub label : Text
  pub prefix : Text

-- `normalized.split("/").filter(Boolean)`
unfoldable pub segments_of : Text → List Text
segments_of normalized = keep (λ w. not (is_empty w)) (split slash normalized)

-- The callback of `segments.map`, from an index on.
crumbs_from : List Text → ℕ → List Text → List Breadcrumb
crumbs_from segments index [] = []
crumbs_from segments index (w ∷ ws) =
    record { label = w; prefix = join slash (take (index + 1) segments) ++ slash ∷ [] }
    ∷ crumbs_from segments (index + 1) ws

unfoldable pub breadcrumbs : Text → List Breadcrumb
unfolding crumbs_from
breadcrumbs prefix =
    let normalized = normalize_prefix (some prefix) in
    if is_empty normalized
    then []
    else let segments = segments_of normalized in crumbs_from segments 0 segments

unfoldable pub parent_prefix : Text → Text
parent_prefix prefix =
    let normalized = normalize_prefix (some prefix) in
    if is_empty normalized
    then []
    else let segments = segments_of normalized in
      if leb (length segments) 1 then [] else join slash (drop_last segments) ++ slash ∷ []

unfoldable pub join_path : Text → Text → Text
join_path prefix file_name =
    let normalized_prefix = normalize_prefix (some prefix) in
    let normalized_name = strip_slashes (trim file_name) in
    if is_empty normalized_name then normalized_prefix else normalized_prefix ++ normalized_name

unfoldable pub is_prefix_ancestor : Text → Text → Bool
is_prefix_ancestor ancestor current =
    let normalized_ancestor = normalize_prefix (some ancestor) in
    let normalized_current = normalize_prefix (some current) in
    if is_empty normalized_ancestor
    then true
    else starts_with normalized_current normalized_ancestor
