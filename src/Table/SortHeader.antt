-- ===== src/Table/SortHeader.antt =====
-- ExplorerSortHeader: the header of a column, with the order that its popover drafts, over the
-- handlers of the page.
use light_oss.Base.{
  ℕ, suc, ◌≡◌, refl, Bool, true, false, Option, none, some, [], if◌then◌else◌, or_else, is_empty,
}
use light_oss.Base.Text.{Text}
use light_oss.Explorer.{
  SortBy, name, size, created_at, SortOrder, asc, desc, same_sort_by, sort_by_text, sort_order_text,
  normalize_sort_by, normalize_sort_order,
}
use light_oss.Browser.Params.{get-write, update_search_params}
use light_oss.Browser.{Page, view_of, prefix_of, cursor_of, handle_sort_apply, handle_sort_clear}

-- The state of the header of one column; `is_open` is that of the table.
pub record SortHeader : Type 0 where
  pub draft_sort_order : Option SortOrder
  pub is_open : Bool
  pub required_errors : ℕ

-- What the header is given: the active column and order, and its own column.
pub record HeaderProps : Type 0 where
  pub active_sort_by : Option SortBy
  pub sort_order : Option SortOrder
  pub sort_by : SortBy

abbrev is_active : HeaderProps → Bool
is_active props = elim props.active_sort_by [
  | none ↦ false
  | some active ↦ same_sort_by active props.sort_by
]

abbrev pub drafted : HeaderProps → Option SortOrder
drafted props = if is_active props then some (or_else props.sort_order asc) else none

-- The effect of an open popover.
unfoldable pub open_header : HeaderProps → SortHeader → SortHeader
open_header props h = if h.is_open then record h { draft_sort_order = drafted props } else h

abbrev confirmed : Option SortOrder → SortBy → SortHeader → Page → SortHeader × Page
confirmed none sort_by h p = (record h { required_errors = suc h.required_errors }, p)
confirmed (some order) sort_by h p =
    (record h { is_open = false }, handle_sort_apply sort_by order p)

unfoldable pub handle_confirm : HeaderProps → SortHeader → Page → SortHeader × Page
handle_confirm props h p = confirmed h.draft_sort_order props.sort_by h p

abbrev cleared : Option SortBy → SortHeader → Page → SortHeader × Page
cleared none h p = (record h { is_open = false }, p)
cleared (some active) h p = (record h { is_open = false }, handle_sort_clear p)

unfoldable pub handle_clear : HeaderProps → SortHeader → Page → SortHeader × Page
handle_clear props h p = cleared props.active_sort_by h p

-- The header of a column for what the page shows.
abbrev pub props_of : (Text → Option ℕ) → SortBy → Page → HeaderProps
props_of number sort_by p = record {
  active_sort_by = some (view_of number p).sort_by;
  sort_order = some (view_of number p).sort_order;
  sort_by = sort_by;
}

sort_by_text-given : (b : SortBy) → is_empty (sort_by_text b) ≡ false
sort_by_text-given name = refl
sort_by_text-given size = refl
sort_by_text-given created_at = refl

sort_order_text-given : (o : SortOrder) → is_empty (sort_order_text o) ≡ false
sort_order_text-given asc = refl
sort_order_text-given desc = refl

normalize-sort_by_text : (b : SortBy) → normalize_sort_by (some (sort_by_text b)) ≡ some b
unfolding normalize_sort_by
normalize-sort_by_text name = refl
normalize-sort_by_text size = refl
normalize-sort_by_text created_at = refl

normalize-sort_order_text :
    (o : SortOrder) → normalize_sort_order (some (sort_order_text o)) ≡ some o
unfolding normalize_sort_order
normalize-sort_order_text asc = refl
normalize-sort_order_text desc = refl

view_of-sort_apply :
    (number : Text → Option ℕ) (b : SortBy) (o : SortOrder) (p : Page)
    → view_of number (handle_sort_apply b o p)
      ≡ record (view_of number p) { cursor = []; sort_by = b; sort_order = o }
unfolding handle_sort_apply view_of prefix_of cursor_of update_search_params
view_of-sort_apply number b o p = simp (
  get-write,
  sort_by_text-given b,
  sort_order_text-given o,
  normalize-sort_by_text b,
  normalize-sort_order_text o,
)

same_sort_by_refl : (b : SortBy) → same_sort_by b b ≡ true
same_sort_by_refl name = refl
same_sort_by_refl size = refl
same_sort_by_refl created_at = refl

-- The header of a column as it opens again on a page.
abbrev pub reopened : (Text → Option ℕ) → SortBy → Page → SortHeader → SortHeader
reopened number sort_by p h = open_header (props_of number sort_by p) (record h { is_open = true })

reopened-sort_apply :
    (number : Text → Option ℕ) (b : SortBy) (o : SortOrder) (p : Page) (h : SortHeader)
    → (reopened number b (handle_sort_apply b o p) h).draft_sort_order ≡ some o
unfolding open_header
reopened-sort_apply number b o p h = simp (view_of-sort_apply number b o p, same_sort_by_refl b)

-- For any reading of numbers and any page: confirming a drafted order in the header of a column
-- makes the page show its first part by that column in that order, the rest of what it shows
-- unchanged, and the header then opens again with that order.
handle_confirm_lem :
    (number : Text → Option ℕ) (props : HeaderProps) (h : SortHeader) (p : Page) (order : SortOrder)
    → h.draft_sort_order ≡ some order
    → (view_of number (handle_confirm props h p).1
        ≡ record (view_of number p) { cursor = []; sort_by = props.sort_by; sort_order = order })
      × ((reopened number props.sort_by (handle_confirm props h p).1 h).draft_sort_order
          ≡ some order)
unfolding handle_confirm open_header
handle_confirm_lem number props h p order e = rw e (
  view_of-sort_apply number props.sort_by order p,
  reopened-sort_apply number props.sort_by order p h,
)
