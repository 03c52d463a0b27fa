-- ===== src/Explorer/Sorting.antt =====
-- The sort parameters: parsing, and what repeated clicks on one column header do.
use light_oss.Base.{◌≢◌, [], or_else, true, ◌≡◌, Option, none, some, ◌↔◌, arith, ℕ}
use light_oss.Base.Text.{Text, text_eq_iff}
use light_oss.Explorer.{
  includes, SortBy, name, size, created_at, SortOrder, asc, desc, sort_by_text, normalize_sort_by,
  Sort, next_sort, parse_limit, page_sizes,
}

-- A sort parameter is read as a column exactly when it is the text of that column.
pub normalize_sort_by_iff :
    (value : Option Text) (column : SortBy)
    → (normalize_sort_by value ≡ some column) ↔ (value ≡ some (sort_by_text column))
unfolding normalize_sort_by
normalize_sort_by_iff none column = ground arith
normalize_sort_by_iff (some v) name = ground (
  arith,
  text_eq_iff v (sort_by_text name),
  text_eq_iff v (sort_by_text size),
  text_eq_iff v (sort_by_text created_at),
)
normalize_sort_by_iff (some v) size = ground (
  arith,
  text_eq_iff v (sort_by_text name),
  text_eq_iff v (sort_by_text size),
  text_eq_iff v (sort_by_text created_at),
)
normalize_sort_by_iff (some v) created_at = ground (
  arith,
  text_eq_iff v (sort_by_text name),
  text_eq_iff v (sort_by_text size),
  text_eq_iff v (sort_by_text created_at),
)

abbrev pub click : SortBy → Sort → Sort
click column s = next_sort s.sort_by s.sort_order column

abbrev pub sorted : SortBy → SortOrder → Sort
sorted column order = record { sort_by = some column; sort_order = some order }

abbrev pub unsorted : Sort
unsorted = record { sort_by = none; sort_order = none }

abbrev OnColumn : SortBy → Sort → Type 0
OnColumn column s = s.sort_by ≡ some column

-- From a state that is not sorted by a column, one click on its header sorts by it ascending, the
-- second descending, and the third clears the sort.
pub next_sort_cycle :
    (column : SortBy) (s : Sort)
    → (s.sort_by ≡ some column → ⊥)
    → (click column s ≡ sorted column asc)
      × (click column (click column s) ≡ sorted column desc)
      × (click column (click column (click column s)) ≡ unsorted)
unfolding next_sort
next_sort_cycle name s other = ground arith
next_sort_cycle size s other = ground arith
next_sort_cycle created_at s other = ground arith

-- A number other than the default 20 is the limit exactly when the parameter reads as that number
-- and it is one of the page sizes.
pub parse_limit_iff :
    (number : Text → Option ℕ) (value : Option Text) (n : ℕ)
    → n ≢ 20
    → (parse_limit number value ≡ n)
      ↔ ((number (or_else value []) ≡ some n) × (includes page_sizes n ≡ true))
unfolding parse_limit
parse_limit_iff number value n h = ground arith

-- The limit is one of the page sizes, whatever the parameter.
pub includes-parse_limit :
    (number : Text → Option ℕ) (value : Option Text)
    → includes page_sizes (parse_limit number value) ≡ true
unfolding parse_limit
includes-parse_limit number value = ground arith
