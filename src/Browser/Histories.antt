-- ===== src/Browser/Histories.antt =====
-- Going into directories, back and forward.
use light_oss.Base.{
  ℕ, ◌≡◌, refl, sym, ap, ◌∙◌, ◌≢◌, true, false, Option, none, some, List, [], ◌∷◌, ◌++◌, arith,
  last_of-append, drop_last-append, if◌then◌else◌, is_empty, last_of, drop_last,
}
use light_oss.Base.Text.{Text, text_eq, text_eq_iff}
use light_oss.Explorer.{normalize_prefix}
use light_oss.Explorer.Parent.{IsStable}
use light_oss.Browser.Params.{update_search_params, get-write}
use light_oss.Browser.{
  Page, prefix_of, view_of, settle, act, apply_prefix_navigation, no_options,
  handle_navigate_prefix, handle_prefix_back, handle_prefix_forward,
}

-- The directory that is shown, and the two stacks.
pub record Trail : Type 0 where
  pub prefix : Text
  pub back : List Text
  pub forward : List Text

abbrev pub trail_of : Page → Trail
trail_of p = record { prefix = prefix_of p; back = p.back_history; forward = p.forward_history }

abbrev pub trail : Text → List Text → List Text → Trail
trail q back forward = record { prefix = q; back = back; forward = forward }

stable_param : (q : Text) → IsStable q → normalize_prefix (if is_empty q then none else some q) ≡ q
unfolding normalize_prefix
stable_param [] h = h
stable_param (c ∷ q) h = h

-- Whatever the parameters were, the page then shows the directory that it was sent to.
prefix_of-apply : (q : Text) (p : Page) → IsStable q → prefix_of (apply_prefix_navigation q p) ≡ q
unfolding prefix_of apply_prefix_navigation update_search_params
prefix_of-apply q p h = simp get-write (stable_param q h)

pub trail_of-apply :
    (q : Text) (p : Page)
    → IsStable q
    → trail_of (apply_prefix_navigation q p) ≡ trail q p.back_history p.forward_history
trail_of-apply q p h = rw (prefix_of-apply q p h) (unfold apply_prefix_navigation in refl)

snoc_empty : (hs : List Text) (x : Text) → is_empty (hs ++ x ∷ []) ≡ false
snoc_empty [] x = refl
snoc_empty (h ∷ hs) x = refl

handle_prefix_back-snoc :
    (p : Page) (hs : List Text) (x : Text)
    → p.back_history ≡ hs ++ x ∷ []
    → handle_prefix_back p
      ≡ apply_prefix_navigation x
          (record p { back_history = hs; forward_history = p.forward_history ++ prefix_of p ∷ [] })
unfolding handle_prefix_back
handle_prefix_back-snoc p hs x e =
    rw (ap is_empty e ∙ snoc_empty hs x)
      (rw (ap last_of e ∙ last_of-append hs x) (rw (ap drop_last e ∙ drop_last-append hs x)))

handle_prefix_forward-snoc :
    (p : Page) (fs : List Text) (x : Text)
    → p.forward_history ≡ fs ++ x ∷ []
    → handle_prefix_forward p
      ≡ apply_prefix_navigation x
          (record p { forward_history = fs; back_history = p.back_history ++ prefix_of p ∷ [] })
unfolding handle_prefix_forward
handle_prefix_forward-snoc p fs x e =
    rw (ap is_empty e ∙ snoc_empty fs x)
      (rw (ap last_of e ∙ last_of-append fs x) (rw (ap drop_last e ∙ drop_last-append fs x)))

handle_navigate_prefix-moved :
    (p : Page) (q : Text)
    → normalize_prefix (some q) ≢ prefix_of p
    → handle_navigate_prefix q no_options p
      ≡ apply_prefix_navigation
          (normalize_prefix (some q))
          (record p { back_history = p.back_history ++ prefix_of p ∷ []; forward_history = [] })
unfolding handle_navigate_prefix
handle_navigate_prefix-moved p q other =
    let e : text_eq (normalize_prefix (some q)) (prefix_of p) ≡ false =
      ground (arith, text_eq_iff (normalize_prefix (some q)) (prefix_of p)) in
    rw e

-- No handler of a trail changes the bucket.
bucket-apply : (q : Text) (p : Page) → p.bucket ≡ (apply_prefix_navigation q p).bucket
unfolding apply_prefix_navigation
bucket-apply q p = refl

module _ (number : Text → Option ℕ) where
  trail_of-settle : (p q : Page) → p.bucket ≡ q.bucket → trail_of (settle number p q) ≡ trail_of q
  unfolding settle view_of prefix_of
  trail_of-settle p q same =
      let e : text_eq p.bucket q.bucket ≡ true = (text_eq_iff p.bucket q.bucket).1 same in rw e

  -- An event that keeps the bucket has the stacks and the directory of its handler.
  pub trail_of-act :
      (handler : Page → Page) (p : Page)
      → p.bucket ≡ (handler p).bucket
      → trail_of (act number handler p) ≡ trail_of (handler p)
  unfolding act
  trail_of-act handler p same = trail_of-settle p (handler p) same

  trail_of-act-apply :
      (handler : Page → Page) (p p' : Page) (q : Text)
      → handler p ≡ apply_prefix_navigation q p'
      → p.bucket ≡ p'.bucket
      → IsStable q
      → trail_of (act number handler p) ≡ trail q p'.back_history p'.forward_history
  trail_of-act-apply handler p p' q e same h =
      trail_of-act handler p (same ∙ bucket-apply q p' ∙ ap (λ r. r.bucket) (sym e))
      ∙ ap trail_of e
      ∙ trail_of-apply q p' h

  -- Back pops the last directory, and remembers the present one for forward.
  pub trail_of-back :
      (p : Page) (hs : List Text) (x : Text)
      → p.back_history ≡ hs ++ x ∷ []
      → IsStable x
      → trail_of (act number handle_prefix_back p)
        ≡ trail x hs (p.forward_history ++ prefix_of p ∷ [])
  trail_of-back p hs x e h =
      trail_of-act-apply handle_prefix_back p _ x (handle_prefix_back-snoc p hs x e) refl h

  -- Forward pops the last directory that was left by going back.
  pub trail_of-forward :
      (p : Page) (fs : List Text) (x : Text)
      → p.forward_history ≡ fs ++ x ∷ []
      → IsStable x
      → trail_of (act number handle_prefix_forward p)
        ≡ trail x (p.back_history ++ prefix_of p ∷ []) fs
  trail_of-forward p fs x e h =
      trail_of-act-apply handle_prefix_forward p _ x (handle_prefix_forward-snoc p fs x e) refl h

  -- Going into another directory pushes the present one and clears what forward would lead to.
  pub trail_of-navigate :
      (p : Page) (q : Text)
      → IsStable (normalize_prefix (some q))
      → normalize_prefix (some q) ≢ prefix_of p
      → trail_of (act number (handle_navigate_prefix q no_options) p)
        ≡ trail (normalize_prefix (some q)) (p.back_history ++ prefix_of p ∷ []) []
  trail_of-navigate p q h other =
      trail_of-act-apply (handle_navigate_prefix q no_options) p
        (record p { back_history = p.back_history ++ prefix_of p ∷ []; forward_history = [] })
        (normalize_prefix (some q)) (handle_navigate_prefix-moved p q other) refl h

  -- Where the back history is not empty, and its last prefix and the shown one are left alone by
  -- normalising, going back and then forward gives the directory and both histories back.
  pub forward-back :
      (p : Page) (hs : List Text) (x : Text)
      → p.back_history ≡ hs ++ x ∷ []
      → IsStable x
      → IsStable (prefix_of p)
      → trail_of (act number handle_prefix_forward (act number handle_prefix_back p)) ≡ trail_of p
  forward-back p hs x e h k =
      let back = trail_of-back p hs x e h in
      trail_of-forward (act number handle_prefix_back p) p.forward_history (prefix_of p)
        (ap (λ t. t.forward) back) k
      ∙ (λ i. trail (prefix_of p) ((back i).back ++ (back i).prefix ∷ []) p.forward_history)
      ∙ ap (λ bs. trail (prefix_of p) bs p.forward_history) (sym e)

  -- Where the forward history is not empty, and its last prefix and the shown one are left alone
  -- by normalising, going forward and then back gives the directory and both histories back.
  pub back-forward :
      (p : Page) (fs : List Text) (x : Text)
      → p.forward_history ≡ fs ++ x ∷ []
      → IsStable x
      → IsStable (prefix_of p)
      → trail_of (act number handle_prefix_back (act number handle_prefix_forward p)) ≡ trail_of p
  back-forward p fs x e h k =
      let forth = trail_of-forward p fs x e h in
      trail_of-back (act number handle_prefix_forward p) p.back_history (prefix_of p)
        (ap (λ t. t.back) forth) k
      ∙ (λ i. trail (prefix_of p) p.back_history ((forth i).forward ++ (forth i).prefix ∷ []))
      ∙ ap (λ fs'. trail (prefix_of p) p.back_history fs') (sym e)

  -- Opening another directory and going back, where both prefixes are left alone by normalising,
  -- shows the old directory with the old back history, and forward leads to the opened directory
  -- alone.
  pub back-navigate :
      (p : Page) (q : Text)
      → IsStable (normalize_prefix (some q))
      → IsStable (prefix_of p)
      → normalize_prefix (some q) ≢ prefix_of p
      → trail_of
          (act number handle_prefix_back (act number (handle_navigate_prefix q no_options) p))
        ≡ trail (prefix_of p) p.back_history (normalize_prefix (some q) ∷ [])
  back-navigate p q h k other =
      let there = trail_of-navigate p q h other in
      trail_of-back (act number (handle_navigate_prefix q no_options) p) p.back_history
        (prefix_of p) (ap (λ t. t.back) there) k
      ∙ (λ i. trail (prefix_of p) p.back_history ((there i).forward ++ (there i).prefix ∷ []))
