-- ===== src/Browser/Invariants.antt =====
-- What every run of events keeps.
use light_oss.Base.{
  ℕ, ◌≡◌, ◌⊎◌, refl, true, Option, none, some, List, [], ◌∷◌, ◌++◌, Bool-cases, inl, inr, or_else,
  is_empty, last_of, drop_last,
}
use light_oss.Base.Text.{Text, text_eq}
use light_oss.Explorer.{SortBy, SortOrder, normalize_prefix, parent_prefix}
use light_oss.Browser.Params.{update_search_params, get-write}
use light_oss.Browser.{
  Page, prefix_of, cursor_of, view_of, same_list, settle, act, handle_next_page, handle_prev_page,
  no_options, handle_navigate_prefix, handle_prefix_back, handle_prefix_forward,
  apply_prefix_navigation, handle_search_submit, handle_sort_apply, handle_sort_clear,
  handle_limit_change,
}
use light_oss.Browser.Events.{
  Event, open_directory, go_back, go_forward, type_search, submit_search, apply_sort, clear_sort,
  next_page, prev_page, choose_limit, handler_of, run,
}
use light_oss.Browser.Paging.{
  cursor_of-settle, same_list_refl, act-with_cursor, handle_next_page-some, with_cursor,
}

-- The first of the pages that led here, the present one last, is the start of the list.
abbrev pub StartsFirst : List Text → Text → Type 0
StartsFirst [] c = c ≡ []
StartsFirst (h ∷ hs) c = h ≡ []

abbrev pub IsRooted : Page → Type 0
IsRooted p = StartsFirst p.cursor_history (cursor_of p)

StartsFirst-start : (hs : List Text) (c : Text) → StartsFirst hs c → StartsFirst hs []
StartsFirst-start [] c h = refl
StartsFirst-start (x ∷ hs) c h = h

StartsFirst-snoc : (hs : List Text) (c d : Text) → StartsFirst hs c → StartsFirst (hs ++ c ∷ []) d
StartsFirst-snoc [] c d h = h
StartsFirst-snoc (x ∷ hs) c d h = h

StartsFirst-prev :
    (hs : List Text) (c : Text)
    → StartsFirst hs c
    → StartsFirst (drop_last hs) (or_else (last_of hs) [])
StartsFirst-prev [] c h = refl
StartsFirst-prev (x ∷ []) c h = h
StartsFirst-prev (x ∷ (y ∷ hs)) c h = h

-- The page shows the start of its list, with nothing to go back to.
abbrev IsReset : Page → Type 0
IsReset p = (cursor_of p ≡ []) × (p.cursor_history ≡ [])

apply-IsReset : (q : Text) (p : Page) → IsReset (apply_prefix_navigation q p)
unfolding apply_prefix_navigation cursor_of update_search_params
apply-IsReset q p = (simp get-write, refl)

navigate-IsReset : (q : Text) (p : Page) → IsReset (handle_navigate_prefix q no_options p)
unfolding handle_navigate_prefix
navigate-IsReset q p = apply-IsReset (normalize_prefix (some q)) _

back_cases : (p : Page) → (handle_prefix_back p ≡ p) ⊎ IsReset (handle_prefix_back p)
unfolding handle_prefix_back
back_cases p = elim (Bool-cases (is_empty p.back_history)) [
  | inl empty ↦ rw empty (elim (Bool-cases (text_eq (parent_prefix (prefix_of p)) (prefix_of p))) [
    | inl top ↦ rw top (inl refl)
    | inr up ↦ rw up (inr (apply-IsReset (parent_prefix (prefix_of p)) _))
  ])
  | inr more ↦ rw more (inr (apply-IsReset (or_else (last_of p.back_history) []) _))
]

forward_cases : (p : Page) → (handle_prefix_forward p ≡ p) ⊎ IsReset (handle_prefix_forward p)
unfolding handle_prefix_forward
forward_cases p = elim (Bool-cases (is_empty p.forward_history)) [
  | inl empty ↦ rw empty (inl refl)
  | inr more ↦ rw more (inr (apply-IsReset (or_else (last_of p.forward_history) []) _))
]

search-IsReset : (p : Page) → IsReset (handle_search_submit p)
unfolding handle_search_submit cursor_of update_search_params
search-IsReset p = (simp get-write, refl)

sort-IsReset : (b : SortBy) (o : SortOrder) (p : Page) → IsReset (handle_sort_apply b o p)
unfolding handle_sort_apply cursor_of update_search_params
sort-IsReset b o p = (simp get-write, refl)

sort_clear-IsReset : (p : Page) → IsReset (handle_sort_clear p)
unfolding handle_sort_clear cursor_of update_search_params
sort_clear-IsReset p = (simp get-write, refl)

cursor_of-limit : (value : Text) (p : Page) → cursor_of (handle_limit_change value p) ≡ []
unfolding handle_limit_change cursor_of update_search_params
cursor_of-limit value p = simp get-write

module _ (number : Text → Option ℕ) where
  -- The effects keep the root of a page that shows the start of its list.
  settle_start :
      (p q : Page)
      → cursor_of q ≡ []
      → StartsFirst q.cursor_history []
      → IsRooted (settle number p q)
  settle_start p q e h = rw (cursor_of-settle number p q) (
      rw e (
        unfold settle in
        elim (Bool-cases (same_list (view_of number p) (view_of number q))) [
          | inl same ↦ rw same h
          | inr other ↦ rw other refl
        ]))

  -- So do they where only what is no parameter of the list has changed.
  settle_same :
      (p q : Page)
      → same_list (view_of number p) (view_of number q) ≡ true
      → IsRooted q
      → IsRooted (settle number p q)
  settle_same p q same h = rw (cursor_of-settle number p q) (unfold settle in rw same h)

  act_reset :
      (handler : Page → Page) (p : Page) → IsReset (handler p) → IsRooted (act number handler p)
  unfolding act
  act_reset handler p h = settle_start p (handler p) h.0 (rw h.1 refl)

  act_idle :
      (handler : Page → Page) (p : Page)
      → handler p ≡ p
      → IsRooted p
      → IsRooted (act number handler p)
  unfolding act
  act_idle handler p e h = rw e (settle_same p p (same_list_refl (view_of number p)) h)

  act_cases :
      (handler : Page → Page) (p : Page)
      → (handler p ≡ p) ⊎ IsReset (handler p)
      → IsRooted p
      → IsRooted (act number handler p)
  act_cases handler p (inl e) h = act_idle handler p e h
  act_cases handler p (inr r) h = act_reset handler p r

  act_cursor :
      (handler : Page → Page) (c : Text) (hs : List Text) (p : Page)
      → handler p ≡ with_cursor c hs p
      → StartsFirst hs c
      → IsRooted (act number handler p)
  act_cursor handler c hs p e h =
      let (shown, kept) = act-with_cursor number handler c hs p e in rw (shown, kept) h

  next-IsRooted :
      (next_cursor : Option Text) (p : Page)
      → IsRooted p
      → IsRooted (act number (handle_next_page next_cursor) p)
  next-IsRooted none p h = act_idle (handle_next_page none) p (unfold handle_next_page in refl) h
  next-IsRooted (some []) p h =
      act_idle (handle_next_page (some [])) p (unfold handle_next_page in refl) h
  next-IsRooted (some (d ∷ c)) p h =
      act_cursor (handle_next_page (some (d ∷ c))) (d ∷ c) (p.cursor_history ++ cursor_of p ∷ []) p
        (handle_next_page-some number (d ∷ c) p (λ e. cc e))
        (StartsFirst-snoc p.cursor_history (cursor_of p) (d ∷ c) h)

  prev-IsRooted : (p : Page) → IsRooted p → IsRooted (act number handle_prev_page p)
  prev-IsRooted p h = elim (Bool-cases (is_empty p.cursor_history)) [
    | inl empty ↦ act_idle handle_prev_page p (unfold handle_prev_page in rw empty) h
    | inr more ↦
        act_cursor handle_prev_page (or_else (last_of p.cursor_history) [])
          (drop_last p.cursor_history) p (unfold handle_prev_page in rw more)
          (StartsFirst-prev p.cursor_history (cursor_of p) h)
  ]

  typed-IsRooted :
      (value : Text) (p : Page)
      → IsRooted p
      → IsRooted (settle number p (record p { search_input = value }))
  unfolding view_of prefix_of cursor_of
  typed-IsRooted value p h =
      settle_same p (record p { search_input = value }) (same_list_refl (view_of number p)) h

  step-IsRooted : (e : Event) (p : Page) → IsRooted p → IsRooted (act number (handler_of e) p)
  unfolding handler_of act handle_limit_change
  step-IsRooted (open_directory q) p h =
      act_reset (handle_navigate_prefix q no_options) p (navigate-IsReset q p)
  step-IsRooted go_back p h = act_cases handle_prefix_back p (back_cases p) h
  step-IsRooted go_forward p h = act_cases handle_prefix_forward p (forward_cases p) h
  step-IsRooted (type_search value) p h = typed-IsRooted value p h
  step-IsRooted submit_search p h = act_reset handle_search_submit p (search-IsReset p)
  step-IsRooted (apply_sort b o) p h = act_reset (handle_sort_apply b o) p (sort-IsReset b o p)
  step-IsRooted clear_sort p h = act_reset handle_sort_clear p (sort_clear-IsReset p)
  step-IsRooted (next_page next_cursor) p h = next-IsRooted next_cursor p h
  step-IsRooted prev_page p h = prev-IsRooted p h
  step-IsRooted (choose_limit value) p h =
      settle_start p (handle_limit_change value p) (cursor_of-limit value p)
        (StartsFirst-start p.cursor_history (cursor_of p) h)

  -- A page of which the cursor history, with the cursor added, starts with the empty cursor of
  -- the first page keeps that over every run of events.
  pub run-IsRooted : (es : List Event) (p : Page) → IsRooted p → IsRooted (run number es p)
  unfolding run
  run-IsRooted [] p h = h
  run-IsRooted (e ∷ es) p h = run-IsRooted es (act number (handler_of e) p) (step-IsRooted e p h)
