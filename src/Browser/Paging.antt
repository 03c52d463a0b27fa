-- ===== src/Browser/Paging.antt =====
-- Paging through a listing.
use light_oss.Base.{
  ℕ, ◌≡◌, refl, ap, ◌∙◌, ◌≢◌, true, false, Option, none, some, List, [], ◌∷◌, ◌++◌, arith,
  last_of-append, drop_last-append, if◌then◌else◌, or_else, is_empty, last_of, drop_last,
}
use light_oss.Base.Text.{Text, codes, text_eq_refl}
use light_oss.Explorer.{SortBy, name, size, created_at, SortOrder, asc, desc, same_sort_by}
use light_oss.Browser.Params.{update_search_params, get-write}
use light_oss.Browser.{
  Page, View, prefix_of, cursor_of, view_of, same_order, same_list, settle, act, handle_next_page,
  handle_prev_page,
}

snoc_empty : (hs : List Text) (x : Text) → is_empty (hs ++ x ∷ []) ≡ false
snoc_empty [] x = refl
snoc_empty (h ∷ hs) x = refl

or_else-cursor : (c : Text) → or_else (if is_empty c then none else some c) [] ≡ c
or_else-cursor [] = refl
or_else-cursor (d ∷ c) = refl

abbrev pub with_cursor : Text → List Text → Page → Page
with_cursor c hs p = record p {
  params = update_search_params ((codes "cursor", c) ∷ []) p.params;
  cursor_history = hs;
}

cursor_of-with_cursor : (c : Text) (hs : List Text) (p : Page) → cursor_of (with_cursor c hs p) ≡ c
unfolding cursor_of update_search_params
cursor_of-with_cursor c hs p = simp get-write (or_else-cursor c)

same_sort_by_refl : (s : SortBy) → same_sort_by s s ≡ true
same_sort_by_refl name = refl
same_sort_by_refl size = refl
same_sort_by_refl created_at = refl

same_order_refl : (s : SortOrder) → same_order s s ≡ true
same_order_refl asc = refl
same_order_refl desc = refl

pub same_list_refl : (v : View) → same_list v v ≡ true
unfolding same_list
same_list_refl v = ground (
  arith,
  text_eq_refl v.bucket,
  text_eq_refl v.prefix,
  text_eq_refl v.search,
  same_sort_by_refl v.sort_by,
  same_order_refl v.sort_order,
)

module _ (number : Text → Option ℕ) where
  -- Another cursor is another page of the same list.
  same_list-with_cursor :
      (c : Text) (hs : List Text) (p : Page)
      → same_list (view_of number p) (view_of number (with_cursor c hs p)) ≡ true
  unfolding same_list view_of prefix_of update_search_params
  same_list-with_cursor c hs p = simp get-write (same_list_refl (view_of number p))

  history-with_cursor :
      (c : Text) (hs : List Text) (p : Page)
      → (settle number p (with_cursor c hs p)).cursor_history ≡ hs
  unfolding settle
  history-with_cursor c hs p = rw (same_list-with_cursor c hs p)

  pub cursor_of-settle : (p q : Page) → cursor_of (settle number p q) ≡ cursor_of q
  unfolding settle view_of cursor_of
  cursor_of-settle p q = refl

  pub act-with_cursor :
      (handler : Page → Page) (c : Text) (hs : List Text) (p : Page)
      → handler p ≡ with_cursor c hs p
      → (cursor_of (act number handler p) ≡ c) × ((act number handler p).cursor_history ≡ hs)
  unfolding act
  act-with_cursor handler c hs p e = (
    cursor_of-settle p (handler p) ∙ ap cursor_of e ∙ cursor_of-with_cursor c hs p,
    ap (λ q. (settle number p q).cursor_history) e ∙ history-with_cursor c hs p,
  )

  pub handle_next_page-some :
      (c : Text) (p : Page)
      → c ≢ []
      → handle_next_page (some c) p ≡ with_cursor c (p.cursor_history ++ cursor_of p ∷ []) p
  unfolding handle_next_page
  handle_next_page-some [] p h = absurd (h refl)
  handle_next_page-some (d ∷ c) p h = refl

  handle_prev_page-snoc :
      (p : Page) (hs : List Text) (c : Text)
      → p.cursor_history ≡ hs ++ c ∷ []
      → handle_prev_page p ≡ with_cursor c hs p
  unfolding handle_prev_page
  handle_prev_page-snoc p hs c e =
      rw (ap is_empty e ∙ snoc_empty hs c)
        (rw (ap last_of e ∙ last_of-append hs c) (rw (ap drop_last e ∙ drop_last-append hs c)))

  -- Next shows the page of the cursor, and the page number grows by one; the list stays the same.
  pub act-next :
      (p : Page) (c : Text)
      → c ≢ []
      → (cursor_of (act number (handle_next_page (some c)) p) ≡ c)
        × ((act number (handle_next_page (some c)) p).cursor_history
            ≡ p.cursor_history ++ cursor_of p ∷ [])
  act-next p c h =
      act-with_cursor (handle_next_page (some c)) c (p.cursor_history ++ cursor_of p ∷ []) p
        (handle_next_page-some c p h)

  pub act-prev :
      (p : Page) (hs : List Text) (c : Text)
      → p.cursor_history ≡ hs ++ c ∷ []
      → (cursor_of (act number handle_prev_page p) ≡ c)
        × ((act number handle_prev_page p).cursor_history ≡ hs)
  act-prev p hs c e = act-with_cursor handle_prev_page c hs p (handle_prev_page-snoc p hs c e)

  -- With a next cursor that is not empty, the next page followed by the previous page gives the
  -- cursor and the cursor history back.
  pub prev-next :
      (p : Page) (c : Text)
      → c ≢ []
      → (cursor_of (act number handle_prev_page (act number (handle_next_page (some c)) p))
          ≡ cursor_of p)
        × ((act number handle_prev_page (act number (handle_next_page (some c)) p)).cursor_history
            ≡ p.cursor_history)
  prev-next p c h =
      act-prev (act number (handle_next_page (some c)) p) p.cursor_history (cursor_of p)
        ((act-next p c h).1)
