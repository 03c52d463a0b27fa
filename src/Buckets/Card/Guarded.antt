-- ===== src/Buckets/Card/Guarded.antt =====
-- At most one deletion runs at a time, and each one was confirmed by the name of its bucket.
use light_oss.Base.{
  ℕ, ◌≡◌, ◌≢◌, refl, sym, ◌∙◌, Bool, true, false, not, ◌||◌, List, [], ◌∷◌, ◌++◌, ◌==◌, ==_iff,
  is_empty, All, All-append, arith, Bool-cases, ◌⊎◌, inl, inr,
}
use light_oss.Base.Reach.{Reach, invariant}
use light_oss.Base.Text.{Text, text_eq, text_eq_iff, text_eq_refl, trim}
use light_oss.Api.Requests.{delete_bucket}
use light_oss.Buckets.Card.{
  DeleteDialog, Deletion, Cards, is_match, put, handle_open_change, type_confirmation,
  delete_disabled, delete_pending, confirm_disabled, handle_delete, deleted, deletion_failed, land,
  NoneOpen, Step, open_dialog, close_dialog, write, confirm, succeed, fail,
}

module _ (name : ℕ → Text) where
  abbrev pub IsConfirmed : Deletion → Type 0
  IsConfirmed d = (trim d.typed ≡ name d.card) × (d.request ≡ delete_bucket (name d.card))

  -- Every open dialog is that of the card.
  abbrev pub OnlyOpen : (ℕ → DeleteDialog) → ℕ → Type 0
  OnlyOpen dialogs card = (other : ℕ) → (dialogs other).is_open ≡ true → other ≡ card

  -- No deletion runs, or one does: that of the only dialog that may be open.
  abbrev pub Runs : Text → (ℕ → DeleteDialog) → List ℕ → Type 0
  Runs deleting dialogs [] = deleting ≡ []
  Runs deleting dialogs (card ∷ []) = (deleting ≡ name card) × OnlyOpen dialogs card
  Runs deleting dialogs (card ∷ (other ∷ cards)) = ⊥

  pub record IsGuarded (c : Cards) : Type 0 where
    pub one_open : (i j : ℕ) → (c.dialogs i).is_open ≡ true → (c.dialogs j).is_open ≡ true → i ≡ j
    pub runs : Runs c.deleting_bucket_name c.dialogs c.flights
    pub confirmed : All IsConfirmed c.deletions

  -- A dialog that is put in leaves those of the other cards.
  open-put :
      (dialogs : ℕ → DeleteDialog) (card other : ℕ) (d : DeleteDialog)
      → (put card d dialogs other).is_open ≡ true
      → ((other ≡ card) × (d.is_open ≡ true)) ⊎ ((dialogs other).is_open ≡ true)
  open-put dialogs card other d h = elim (Bool-cases (card == other)) [
    | inl same ↦ inl (sym ((==_iff card other).0 same), rw same at h)
    | inr apart ↦ inr (rw apart at h)
  ]

  -- A dialog that was open already, or that closes, opens no other.
  still_open :
      (dialogs : ℕ → DeleteDialog) (card other : ℕ) (d : DeleteDialog)
      → (d.is_open ≡ true → (dialogs card).is_open ≡ true)
      → (put card d dialogs other).is_open ≡ true
      → (dialogs other).is_open ≡ true
  still_open dialogs card other d was h = elim (open-put dialogs card other d h) [
    | inl (same, k) ↦ rw same (was k)
    | inr k ↦ k
  ]

  fewer_open :
      (deleting : Text) (dialogs next : ℕ → DeleteDialog) (cards : List ℕ)
      → ((other : ℕ) → (next other).is_open ≡ true → (dialogs other).is_open ≡ true)
      → Runs deleting dialogs cards
      → Runs deleting next cards
  fewer_open deleting dialogs next [] less h = h
  fewer_open deleting dialogs next (card ∷ []) less (h, only) =
      (h, λ other k. only other (less other k))
  fewer_open deleting dialogs next (card ∷ (other ∷ cards)) less h = h

  -- Changes of a dialog that do not open it.
  kept_closed :
      (c : Cards) (card : ℕ) (d : DeleteDialog)
      → (d.is_open ≡ true → (c.dialogs card).is_open ≡ true)
      → IsGuarded c
      → IsGuarded (record c { dialogs = put card d c.dialogs })
  kept_closed c card d was h =
      let less : (other : ℕ)
          → (put card d c.dialogs other).is_open ≡ true
          → (c.dialogs other).is_open ≡ true =
        λ other. still_open c.dialogs card other d was in
      record {
        one_open = λ i j p q. h.one_open i j (less i p) (less j q);
        runs =
            fewer_open c.deleting_bucket_name c.dialogs (put card d c.dialogs) c.flights less
              h.runs;
        confirmed = h.confirmed;
      }

  -- Where no bucket is being deleted, no deletion runs.
  nil_of_Runs :
      ((card : ℕ) → name card ≢ [])
      → (deleting : Text) (dialogs : ℕ → DeleteDialog) (cards : List ℕ) → deleting ≡ []
      → Runs deleting dialogs cards
      → cards ≡ []
  nil_of_Runs named deleting dialogs [] e h = refl
  nil_of_Runs named deleting dialogs (card ∷ []) e (h, only) = absurd (named card (sym h ∙ e))
  nil_of_Runs named deleting dialogs (card ∷ (other ∷ cards)) e h = absurd h

  -- The card of an open dialog whose bucket is not being deleted finds no deletion running.
  nil_of_Runs_at :
      (deleting : Text) (dialogs : ℕ → DeleteDialog) (cards : List ℕ) (card : ℕ)
      → (dialogs card).is_open ≡ true
      → text_eq deleting (name card) ≡ false
      → Runs deleting dialogs cards
      → cards ≡ []
  nil_of_Runs_at deleting dialogs [] card o e h = refl
  nil_of_Runs_at deleting dialogs (other ∷ []) card o e (h, only) =
      cc (rw (only card o) at e, h, text_eq_refl (name other))
  nil_of_Runs_at deleting dialogs (a ∷ (b ∷ cards)) card o e h = absurd h

  -- The deletion that is answered is the only one.
  answered_only :
      (deleting : Text) (dialogs : ℕ → DeleteDialog) (fs gs : List ℕ) (card : ℕ)
      → Runs deleting dialogs (fs ++ card ∷ gs)
      → fs ++ gs ≡ []
  answered_only deleting dialogs [] [] card h = refl
  answered_only deleting dialogs [] (x ∷ gs) card h = absurd h
  answered_only deleting dialogs (x ∷ []) gs card h = absurd h
  answered_only deleting dialogs (x ∷ (y ∷ fs)) gs card h = absurd h

  Runs-nil :
      (deleting : Text) (dialogs : ℕ → DeleteDialog) (cards : List ℕ)
      → deleting ≡ []
      → cards ≡ []
      → Runs deleting dialogs cards
  Runs-nil deleting dialogs cards e k = rw k e

  Runs-single :
      (dialogs : ℕ → DeleteDialog) (cards : List ℕ) (card : ℕ)
      → OnlyOpen dialogs card
      → cards ≡ []
      → Runs (name card) dialogs (cards ++ card ∷ [])
  Runs-single dialogs cards card only k = rw k (refl, only)

  nothing_deleted : (b : Bool) (t : Text) → (b || not (is_empty t)) ≡ false → t ≡ []
  nothing_deleted b [] h = refl
  nothing_deleted true (x ∷ t) h = cc h
  nothing_deleted false (x ∷ t) h = cc h

  open-IsGuarded :
      ((card : ℕ) → name card ≢ [])
      → (c : Cards) (card : ℕ) (sites_unknown : Bool) → NoneOpen c
      → delete_disabled sites_unknown c ≡ false
      → IsGuarded c
      → IsGuarded (handle_open_change card true c)
  unfolding handle_open_change delete_disabled
  open-IsGuarded named c card sites_unknown closed enabled h =
      let only : OnlyOpen (put card (record { confirmation_value = []; is_open = true }) c.dialogs)
          card =
        λ other k. elim (open-put c.dialogs card other _ k) [
          | inl (same, _) ↦ same
          | inr was ↦ cc (closed other, was)
        ] in
      record {
        one_open = λ i j p q. only i p ∙ sym (only j q);
        runs =
            let nothing : c.deleting_bucket_name ≡ [] =
              nothing_deleted sites_unknown c.deleting_bucket_name enabled in
            Runs-nil c.deleting_bucket_name
              (put card (record { confirmation_value = []; is_open = true }) c.dialogs) c.flights
              nothing (nil_of_Runs named c.deleting_bucket_name c.dialogs c.flights nothing h.runs);
        confirmed = h.confirmed;
      }

  confirm-IsGuarded :
      (c : Cards) (card : ℕ)
      → (c.dialogs card).is_open ≡ true
      → confirm_disabled (name card) card c ≡ false
      → IsGuarded c
      → IsGuarded (handle_delete (name card) card c)
  unfolding handle_delete confirm_disabled is_match delete_pending
  confirm-IsGuarded c card o enabled h = elim (Bool-cases (is_match (name card) (c.dialogs card))) [
    | inl match ↦ simp match (record {
      one_open = h.one_open;
      runs =
          Runs-single c.dialogs c.flights card (λ other k. h.one_open other card k o)
            (nil_of_Runs_at c.deleting_bucket_name c.dialogs c.flights card o
              (ground (arith, enabled)) h.runs);
      confirmed =
          All-append IsConfirmed c.deletions _ h.confirmed
            (((text_eq_iff _ (name card)).0 match, refl), tt);
    })
    | inr other ↦ simp other h
  ]

  answered-IsGuarded :
      (c : Cards) (fs gs : List ℕ) (card : ℕ)
      → c.flights ≡ fs ++ card ∷ gs
      → IsGuarded c
      → IsGuarded (deletion_failed (land (fs ++ gs) c))
  unfolding deletion_failed
  answered-IsGuarded c fs gs card e h = record {
    one_open = h.one_open;
    runs =
        Runs-nil [] c.dialogs (fs ++ gs) refl
          (answered_only c.deleting_bucket_name c.dialogs fs gs card (rw e at h.runs));
    confirmed = h.confirmed;
  }

  Step-IsGuarded :
      ((card : ℕ) → name card ≢ []) → {c d : Cards} → Step name c d → IsGuarded c → IsGuarded d
  unfolding handle_open_change type_confirmation deleted deletion_failed
  Step-IsGuarded named (open_dialog c card sites_unknown closed enabled) h =
      open-IsGuarded named c card sites_unknown closed enabled h
  Step-IsGuarded named (close_dialog c card o) h = kept_closed c card _ (λ k. o) h
  Step-IsGuarded named (write c card value o) h = kept_closed c card _ (λ k. o) h
  Step-IsGuarded named (confirm c card o enabled) h = confirm-IsGuarded c card o enabled h
  Step-IsGuarded named (succeed c fs gs card e) h =
      kept_closed _ card _ (λ k. cc k) (answered-IsGuarded c fs gs card e h)
  Step-IsGuarded named (fail c fs gs card e) h = answered-IsGuarded c fs gs card e h

  -- Where each card has a bucket with a name, and an open dialog keeps the other cards from being
  -- reached: after any order of opening, closing, typing, confirming and answers, at most one
  -- deletion runs and at most one dialog is open, and each deletion ever asked for is that of the
  -- bucket of its card, whose name was the typed text without outer spaces.
  pub Reach-IsGuarded :
      ((card : ℕ) → name card ≢ [])
      → {c d : Cards} → IsGuarded c
      → Reach (Step name) c d
      → IsGuarded d
  Reach-IsGuarded named h r =
      invariant (Step name) IsGuarded (λ s t k p. Step-IsGuarded named k p) _ _ h r
