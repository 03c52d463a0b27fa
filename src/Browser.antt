-- ===== src/Browser.antt =====
-- frontend/src/pages/BucketObjectsPage.tsx: the object browser of one bucket. The page is a record
-- of its React states; a handler returns the page that its setters ask for, and `settle` runs the
-- effects whose dependencies have changed.
pub mod Params
pub mod Histories
pub mod Paging
pub mod Events
pub mod Invariants
pub mod Stability
mod Tests
use light_oss.Base.{
  ℕ, ◌≡◌, Bool, true, false, not, ◌&&◌, Option, none, some, List, [], ◌∷◌, ◌++◌, ◌==◌,
  if◌then◌else◌, or_else, is_empty, last_of, drop_last, keep,
}
use light_oss.Base.Text.{Text, codes, text_eq, trim}
use light_oss.Explorer.{
  SortBy, created_at, SortOrder, desc, asc, same_sort_by, sort_by_text, sort_order_text,
  normalize_prefix, normalize_search, normalize_sort_by, normalize_sort_order, parse_limit,
  parent_prefix,
}
use Params.{SearchParams, get, update_search_params}

pub record Page : Type 0 where
  pub bucket : Text
  pub params : SearchParams
  pub search_input : Text
  pub cursor_history : List Text
  pub back_history : List Text
  pub forward_history : List Text
  pub selected_paths : List Text

-- The values that the page derives from its parameters on each render.
pub record View : Type 0 where
  pub bucket : Text
  pub prefix : Text
  pub search : Text
  pub cursor : Text
  pub limit : ℕ
  pub sort_by : SortBy
  pub sort_order : SortOrder

unfoldable pub prefix_of : Page → Text
prefix_of p = normalize_prefix (get (codes "prefix") p.params)

unfoldable pub cursor_of : Page → Text
cursor_of p = or_else (get (codes "cursor") p.params) []

abbrev same_order : SortOrder → SortOrder → Bool
same_order asc asc = true
same_order desc desc = true
same_order _ _ = false

-- Whether two renders agree on [bucket, prefix, search, limit, sortBy, sortOrder].
pub same_list : View → View → Bool
same_list v w =
    text_eq v.bucket w.bucket
    && (text_eq v.prefix w.prefix
        && (text_eq v.search w.search
            && (v.limit == w.limit
                && (same_sort_by v.sort_by w.sort_by && same_order v.sort_order w.sort_order))))

-- `number` is `Number(…)`, see `parse_limit`.
module _ (number : Text → Option ℕ) where
  unfoldable pub view_of : Page → View
  view_of p = record {
    bucket = p.bucket;
    prefix = prefix_of p;
    search = normalize_search (get (codes "search") p.params);
    cursor = cursor_of p;
    limit = parse_limit number (get (codes "limit") p.params);
    sort_by = or_else (normalize_sort_by (get (codes "sort_by") p.params)) created_at;
    sort_order = or_else (normalize_sort_order (get (codes "sort_order") p.params)) desc;
  }

  -- The effects of the render after an event.
  pub settle : Page → Page → Page
  settle old new =
      let v = view_of old in
      let w = view_of new in
      record new {
        search_input = if text_eq v.search w.search then new.search_input else w.search;
        cursor_history = if same_list v w then new.cursor_history else [];
        back_history = if text_eq v.bucket w.bucket then new.back_history else [];
        forward_history = if text_eq v.bucket w.bucket then new.forward_history else [];
        selected_paths =
            if same_list v w && text_eq v.cursor w.cursor then new.selected_paths else [];
      }

  -- An event and the effects after it.
  pub act : (Page → Page) → Page → Page
  act handler p = settle p (handler p)

abbrev updated : List (Text × Text) → Page → Page
updated updates p = record p { params = update_search_params updates p.params }

pub apply_prefix_navigation : Text → Page → Page
apply_prefix_navigation next_prefix p =
    updated ((codes "prefix", next_prefix) ∷ (codes "search", []) ∷ (codes "cursor", []) ∷ [])
      (record p { cursor_history = []; search_input = [] })

pub record NavigateOptions : Type 0 where
  pub clear_forward_history : Option Bool
  pub record_history : Option Bool

-- The call sites pass no options.
abbrev pub no_options : NavigateOptions
no_options = record { clear_forward_history = none; record_history = none }

unfoldable pub handle_navigate_prefix : Text → NavigateOptions → Page → Page
handle_navigate_prefix next_prefix options p =
    let normalized_next_prefix = normalize_prefix (some next_prefix) in
    let moved = not (text_eq normalized_next_prefix (prefix_of p)) in
    apply_prefix_navigation normalized_next_prefix (record p {
      back_history =
          if moved && or_else options.record_history true
          then p.back_history ++ prefix_of p ∷ []
          else p.back_history;
      forward_history =
          if moved && or_else options.clear_forward_history true then [] else p.forward_history;
    })

unfoldable pub handle_prefix_back : Page → Page
handle_prefix_back p =
    if not (is_empty p.back_history)
    then apply_prefix_navigation (or_else (last_of p.back_history) []) (record p {
      back_history = drop_last p.back_history;
      forward_history = p.forward_history ++ prefix_of p ∷ [];
    })
    else let parent = parent_prefix (prefix_of p) in
      if text_eq parent (prefix_of p)
      then p
      else apply_prefix_navigation parent
          (record p { forward_history = p.forward_history ++ prefix_of p ∷ [] })

unfoldable pub handle_prefix_forward : Page → Page
handle_prefix_forward p =
    if is_empty p.forward_history
    then p
    else apply_prefix_navigation (or_else (last_of p.forward_history) []) (record p {
      forward_history = drop_last p.forward_history;
      back_history = p.back_history ++ prefix_of p ∷ [];
    })

unfoldable pub handle_search_submit : Page → Page
handle_search_submit p =
    updated ((codes "search", trim p.search_input) ∷ (codes "cursor", []) ∷ [])
      (record p { cursor_history = [] })

unfoldable pub handle_sort_apply : SortBy → SortOrder → Page → Page
handle_sort_apply next_sort_by next_sort_order p =
    updated
      ((codes "sort_by", sort_by_text next_sort_by)
        ∷ (codes "sort_order", sort_order_text next_sort_order)
        ∷ (codes "cursor", [])
        ∷ [])
      (record p { cursor_history = [] })

unfoldable pub handle_sort_clear : Page → Page
handle_sort_clear p =
    updated ((codes "sort_by", []) ∷ (codes "sort_order", []) ∷ (codes "cursor", []) ∷ [])
      (record p { cursor_history = [] })

-- `next_cursor` is that of the query's data, or null while there is none.
unfoldable pub handle_next_page : Option Text → Page → Page
handle_next_page next_cursor p =
    if is_empty (or_else next_cursor [])
    then p
    else updated ((codes "cursor", or_else next_cursor []) ∷ [])
        (record p { cursor_history = p.cursor_history ++ cursor_of p ∷ [] })

unfoldable pub handle_prev_page : Page → Page
handle_prev_page p =
    if is_empty p.cursor_history
    then p
    else updated ((codes "cursor", or_else (last_of p.cursor_history) []) ∷ [])
        (record p { cursor_history = drop_last p.cursor_history })

-- The `onValueChange` of the page size.
unfoldable pub handle_limit_change : Text → Page → Page
handle_limit_change value p = updated ((codes "limit", value) ∷ (codes "cursor", []) ∷ []) p
