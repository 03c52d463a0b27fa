-- ===== src/Browser/Stability.antt =====
-- The directories on the stacks can all be returned to.
use light_oss.Base.{
  ℕ, ◌≡◌, refl, Option, some, List, [], ◌∷◌, ◌++◌, Bool-cases, arith, All, All-append, inl, inr,
  or_else, is_empty, last_of, drop_last,
}
use light_oss.Base.Text.{Text, text_eq}
use light_oss.Explorer.{normalize_prefix, parent_prefix}
use light_oss.Explorer.Parent.{IsStable, parent_prefix-IsStable}
use light_oss.Explorer.Segments.{normalize_prefix-path_of}
use light_oss.Browser.Params.{update_search_params, get-write}
use light_oss.Browser.{
  Page, prefix_of, act, no_options, handle_navigate_prefix, handle_prefix_back,
  handle_prefix_forward, apply_prefix_navigation, handle_search_submit, handle_sort_apply,
  handle_sort_clear, handle_limit_change, handle_next_page, handle_prev_page,
}
use light_oss.Browser.Events.{
  Event, open_directory, go_back, go_forward, type_search, submit_search, apply_sort, clear_sort,
  next_page, prev_page, choose_limit, handler_of, run,
}
use light_oss.Browser.Histories.{Trail, trail_of, trail_of-act, trail_of-apply}

-- The directory that is shown and those on the stacks are shown as they are written.
pub record IsTidy (t : Trail) : Type 0 where
  pub shown : IsStable t.prefix
  pub behind : All IsStable t.back
  pub ahead : All IsStable t.forward

-- An event that opens a directory opens one that can be shown.
abbrev pub IsSound : Event → Type 0
IsSound (open_directory q) = IsStable (normalize_prefix (some q))
IsSound _ = Unit

last_of-IsStable : (hs : List Text) → All IsStable hs → IsStable (or_else (last_of hs) [])
last_of-IsStable [] h = normalize_prefix-path_of [] (tt, refl)
last_of-IsStable (x ∷ []) (h, _) = h
last_of-IsStable (x ∷ (y ∷ hs)) (_, h) = last_of-IsStable (y ∷ hs) h

drop_last-IsStable : (hs : List Text) → All IsStable hs → All IsStable (drop_last hs)
drop_last-IsStable [] h = tt
drop_last-IsStable (x ∷ []) h = tt
drop_last-IsStable (x ∷ (y ∷ hs)) (h, hs') = (h, drop_last-IsStable (y ∷ hs) hs')

IsTidy-apply :
    (q : Text) (p : Page)
    → IsStable q
    → All IsStable p.back_history
    → All IsStable p.forward_history
    → IsTidy (trail_of (apply_prefix_navigation q p))
IsTidy-apply q p h b f = rw (trail_of-apply q p h) (record { shown = h; behind = b; ahead = f })

push-IsStable :
    (hs : List Text) (x : Text) → All IsStable hs → IsStable x → All IsStable (hs ++ x ∷ [])
push-IsStable hs x h k = All-append IsStable hs (x ∷ []) h (k, tt)

navigate-IsTidy :
    (q : Text) (p : Page)
    → IsStable (normalize_prefix (some q))
    → IsTidy (trail_of p)
    → IsTidy (trail_of (handle_navigate_prefix q no_options p))
unfolding handle_navigate_prefix
navigate-IsTidy q p h t = elim (Bool-cases (text_eq (normalize_prefix (some q)) (prefix_of p))) [
  | inl same ↦ rw same (IsTidy-apply (normalize_prefix (some q)) _ h t.behind t.ahead)
  | inr moved ↦
      rw moved
        (IsTidy-apply (normalize_prefix (some q)) _ h (push-IsStable _ _ t.behind t.shown) tt)
]

back-IsTidy : (p : Page) → IsTidy (trail_of p) → IsTidy (trail_of (handle_prefix_back p))
unfolding handle_prefix_back
back-IsTidy p t = elim (Bool-cases (is_empty p.back_history)) [
  | inl empty ↦ rw empty (elim (Bool-cases (text_eq (parent_prefix (prefix_of p)) (prefix_of p))) [
    | inl top ↦ rw top t
    | inr up ↦ rw up (
        IsTidy-apply (parent_prefix (prefix_of p)) _ (parent_prefix-IsStable (prefix_of p) t.shown)
          t.behind (push-IsStable _ _ t.ahead t.shown))
  ])
  | inr more ↦ rw more (
      IsTidy-apply (or_else (last_of p.back_history) []) _
        (last_of-IsStable p.back_history t.behind) (drop_last-IsStable p.back_history t.behind)
        (push-IsStable _ _ t.ahead t.shown))
]

forward-IsTidy : (p : Page) → IsTidy (trail_of p) → IsTidy (trail_of (handle_prefix_forward p))
unfolding handle_prefix_forward
forward-IsTidy p t = elim (Bool-cases (is_empty p.forward_history)) [
  | inl empty ↦ rw empty t
  | inr more ↦ rw more (
      IsTidy-apply (or_else (last_of p.forward_history) []) _
        (last_of-IsStable p.forward_history t.ahead) (push-IsStable _ _ t.behind t.shown)
        (drop_last-IsStable p.forward_history t.ahead))
]

-- The other handlers keep the trail.
search-trail : (p : Page) → trail_of (handle_search_submit p) ≡ trail_of p
unfolding handle_search_submit prefix_of update_search_params
search-trail p = simp get-write

next-trail : (c : Option Text) (p : Page) → trail_of (handle_next_page c p) ≡ trail_of p
unfolding handle_next_page prefix_of update_search_params
next-trail c p = elim (Bool-cases (is_empty (or_else c []))) [
  | inl end ↦ rw end
  | inr more ↦ rw more (simp get-write)
]

prev-trail : (p : Page) → trail_of (handle_prev_page p) ≡ trail_of p
unfolding handle_prev_page prefix_of update_search_params
prev-trail p = elim (Bool-cases (is_empty p.cursor_history)) [
  | inl end ↦ rw end
  | inr more ↦ rw more (simp get-write)
]

step-trail :
    (e : Event) (p : Page) → IsSound e → IsTidy (trail_of p) → IsTidy (trail_of (handler_of e p))
unfolding handler_of
step-trail (open_directory q) p s t = navigate-IsTidy q p s t
step-trail go_back p s t = back-IsTidy p t
step-trail go_forward p s t = forward-IsTidy p t
step-trail (type_search value) p s t = unfold prefix_of in t
step-trail submit_search p s t = rw (search-trail p) t
step-trail (apply_sort b o) p s t =
    unfold handle_sort_apply prefix_of update_search_params in simp get-write t
step-trail clear_sort p s t =
    unfold handle_sort_clear prefix_of update_search_params in simp get-write t
step-trail (next_page c) p s t = rw (next-trail c p) t
step-trail prev_page p s t = rw (prev-trail p) t
step-trail (choose_limit value) p s t =
    unfold handle_limit_change prefix_of update_search_params in simp get-write t

step-bucket : (e : Event) (p : Page) → p.bucket ≡ (handler_of e p).bucket
unfolding handler_of apply_prefix_navigation handle_navigate_prefix handle_prefix_back
    handle_prefix_forward handle_search_submit handle_sort_apply handle_sort_clear
    handle_limit_change handle_next_page handle_prev_page
step-bucket (open_directory q) p = refl
step-bucket go_back p = ground arith
step-bucket go_forward p = ground arith
step-bucket (next_page c) p = ground arith
step-bucket prev_page p = ground arith
step-bucket _ p = refl

-- From a page whose directory and histories hold prefixes that normalising leaves alone, a run of
-- events whose opened directories are such prefixes leads to a page of that kind.
pub run-IsTidy :
    (number : Text → Option ℕ) (es : List Event) (p : Page)
    → All IsSound es
    → IsTidy (trail_of p)
    → IsTidy (trail_of (run number es p))
unfolding run
run-IsTidy number [] p s t = t
run-IsTidy number (e ∷ es) p (s, ss) t =
    run-IsTidy number es (act number (handler_of e) p) ss
      (rw (trail_of-act number (handler_of e) p (step-bucket e p)) (step-trail e p s t))
