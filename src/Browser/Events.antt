-- ===== src/Browser/Events.antt =====
-- The events of the page's controls, and runs of them. The address changes only through them here:
-- the history buttons of the browser itself are not events of the page.
use light_oss.Base.{ℕ, Option, List, [], ◌∷◌}
use light_oss.Base.Text.{Text}
use light_oss.Explorer.{SortBy, SortOrder}
use light_oss.Browser.{
  Page, act, no_options, handle_navigate_prefix, handle_prefix_back, handle_prefix_forward,
  handle_search_submit, handle_sort_apply, handle_sort_clear, handle_next_page, handle_prev_page,
  handle_limit_change,
}

pub data Event : Type 0 where
  open_directory : Text → Event
  go_back go_forward : Event
  type_search : Text → Event
  submit_search : Event
  apply_sort : SortBy → SortOrder → Event
  clear_sort : Event
  next_page : Option Text → Event
  prev_page : Event
  choose_limit : Text → Event

unfoldable pub handler_of : Event → Page → Page
handler_of (open_directory q) p = handle_navigate_prefix q no_options p
handler_of go_back p = handle_prefix_back p
handler_of go_forward p = handle_prefix_forward p
handler_of (type_search value) p = record p { search_input = value }
handler_of submit_search p = handle_search_submit p
handler_of (apply_sort sort_by order) p = handle_sort_apply sort_by order p
handler_of clear_sort p = handle_sort_clear p
handler_of (next_page next_cursor) p = handle_next_page next_cursor p
handler_of prev_page p = handle_prev_page p
handler_of (choose_limit value) p = handle_limit_change value p

unfoldable pub run : (Text → Option ℕ) → List Event → Page → Page
run number [] p = p
run number (e ∷ es) p = run number es (act number (handler_of e) p)
