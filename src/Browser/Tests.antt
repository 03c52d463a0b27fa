-- ===== src/Browser/Tests.antt =====
-- The theorems on the object browser at concrete pages.
use light_oss.Base.{ℕ, ◌≡◌, refl, Option, none, some, List, [], ◌∷◌, ◌≢◌}
use light_oss.Base.Text.{Text, codes, trim, text_ne}
use light_oss.Explorer.{name, asc, normalize_prefix}
use light_oss.Explorer.Parent.{IsStable}
use light_oss.Browser.Params.{get}
use light_oss.Browser.{Page, prefix_of, cursor_of, act, handle_prefix_back, handle_prefix_forward}
use light_oss.Browser.Histories.{trail_of, forward-back}
use light_oss.Browser.Events.{
  Event, open_directory, go_back, go_forward, apply_sort, next_page, prev_page, choose_limit, run,
}
use light_oss.Browser.Invariants.{IsRooted, run-IsRooted}
use light_oss.Browser.Stability.{IsTidy, run-IsTidy}

abbrev no_number : Text → Option ℕ
no_number text = none

abbrev page_at : Text → List Text → List Text → Page
page_at prefix back forward = record {
  bucket = codes "assets";
  params = (codes "prefix", prefix) ∷ (codes "limit", codes "50") ∷ [];
  search_input = [];
  cursor_history = [];
  back_history = back;
  forward_history = forward;
  selected_paths = [];
}

abbrev deep : Page
deep = page_at (codes "b/") (codes "a/" ∷ []) (codes "c/" ∷ [])

a-IsStable : IsStable (codes "a/")
unfolding normalize_prefix trim
a-IsStable = refl

c-IsStable : IsStable (codes "c/")
unfolding normalize_prefix trim
c-IsStable = refl

deep_shown : prefix_of deep ≡ codes "b/"
unfolding prefix_of get normalize_prefix trim
deep_shown = refl

deep-IsStable : IsStable (prefix_of deep)
unfolding prefix_of get normalize_prefix trim
deep-IsStable = refl

forward-back_example :
    trail_of (act no_number handle_prefix_forward (act no_number handle_prefix_back deep))
    ≡ trail_of deep
forward-back_example = forward-back no_number deep [] (codes "a/") refl a-IsStable deep-IsStable

opened-IsStable : IsStable (normalize_prefix (some (codes "c")))
unfolding normalize_prefix trim
opened-IsStable = refl

moved : normalize_prefix (some (codes "c")) ≢ prefix_of deep
unfolding prefix_of get normalize_prefix trim
moved = text_ne (codes "c/") (codes "b/") refl

abbrev script : List Event
script =
    next_page (some (codes "t1"))
    ∷ open_directory (codes "/c")
    ∷ apply_sort name asc
    ∷ go_back
    ∷ go_forward
    ∷ choose_limit (codes "20")
    ∷ prev_page
    ∷ []

deep-IsRooted : IsRooted deep
unfolding cursor_of get
deep-IsRooted = refl

run-IsRooted_example : IsRooted (run no_number script deep)
run-IsRooted_example = run-IsRooted no_number script deep deep-IsRooted

slash_c-IsStable : IsStable (normalize_prefix (some (codes "/c")))
unfolding normalize_prefix trim
slash_c-IsStable = refl

run-IsTidy_example : IsTidy (trail_of (run no_number script deep))
run-IsTidy_example =
    run-IsTidy no_number script deep (tt, (slash_c-IsStable, (tt, (tt, (tt, (tt, (tt, tt)))))))
      (record { shown = deep-IsStable; behind = (a-IsStable, tt); ahead = (c-IsStable, tt) })
