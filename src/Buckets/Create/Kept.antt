-- ===== src/Buckets/Create/Kept.antt =====
-- The dialog keeps the name of the bucket that is being created.
use light_oss.Base.{
  ◌≡◌, ◌≢◌, refl, Bool, true, false, not, ◌&&◌, List, [], ◌∷◌, ◌++◌, if◌then◌else◌, is_empty, All,
  All-append, arith, Bool-cases, inl, inr,
}
use light_oss.Base.Reach.{Reach, invariant}
use light_oss.Base.Text.{Text, trim}
use light_oss.Api.Requests.{RequestConfig, create_bucket}
use light_oss.Buckets.Create.{
  Flight, running, refreshing, Creation, is_pending, handle_open_change, write_name,
  submit_disabled, handle_submit, created, finished, creation_failed, Step, change_open, write,
  submit, succeed, settle, fail,
}

abbrev pub IsCreation : RequestConfig → Type 0
IsCreation request = (name : Text) × (name ≢ []) × (request ≡ create_bucket name)

abbrev pub name_of : Flight → Text
name_of (running name) = name
name_of (refreshing name) = name

-- At most one creation, of the name in the dialog.
abbrev pub Holds : Text → List Flight → Type 0
Holds name [] = Unit
Holds name (f ∷ []) = name_of f ≡ name
Holds name (f ∷ (g ∷ fs)) = ⊥

pub record IsKept (c : Creation) : Type 0 where
  pub holds : Holds (trim c.name) c.flights
  pub asked : All IsCreation c.requests

ne_of_empty : (s : Text) → is_empty s ≡ false → s ≢ []
ne_of_empty [] h = cc h
ne_of_empty (c ∷ s) h = λ e. cc e

Holds-nil : (name : Text) (fs : List Flight) → is_empty fs ≡ true → Holds name fs
Holds-nil name [] h = tt
Holds-nil name (f ∷ fs) h = cc h

Holds-single :
    (name : Text) (fs : List Flight) (f : Flight)
    → is_empty fs ≡ true
    → name_of f ≡ name
    → Holds name (fs ++ f ∷ [])
Holds-single name [] f h e = e
Holds-single name (g ∷ fs) f h e = cc h

-- Without the flight that is answered nothing is left.
answered :
    (name : Text) (fs gs : List Flight) (f : Flight)
    → Holds name (fs ++ f ∷ gs)
    → is_empty (fs ++ gs) ≡ true
answered name [] [] f h = refl
answered name [] (g ∷ gs) f h = absurd h
answered name (x ∷ []) gs f h = absurd h
answered name (x ∷ (y ∷ fs)) gs f h = absurd h

replaced :
    (name : Text) (fs gs : List Flight) (f g : Flight)
    → name_of f ≡ name_of g
    → Holds name (fs ++ f ∷ gs)
    → Holds name (fs ++ g ∷ gs)
replaced name [] [] f g e h = cc (e, h)
replaced name [] (x ∷ gs) f g e h = h
replaced name (x ∷ []) gs f g e h = absurd h
replaced name (x ∷ (y ∷ fs)) gs f g e h = absurd h

opened-IsKept :
    (next_open : Bool) (c : Creation) → IsKept c → IsKept (handle_open_change next_open c)
unfolding handle_open_change is_pending
opened-IsKept next_open c h = elim (Bool-cases (is_empty c.flights)) [
  | inl nothing ↦ record { holds = Holds-nil _ c.flights nothing; asked = h.asked }
  | inr runs ↦
      let kept : (if not next_open && not (not (is_empty c.flights)) then [] else c.name) ≡ c.name =
        ground (arith, runs) in
      record { holds = rw kept h.holds; asked = h.asked }
]

Step-IsKept : {c d : Creation} → Step c d → IsKept c → IsKept d
unfolding write_name is_pending handle_submit submit_disabled created finished creation_failed
Step-IsKept (change_open c next_open) h = opened-IsKept next_open c h
Step-IsKept (write c name quiet) h = record {
  holds = Holds-nil (trim name) c.flights (ground (arith, quiet));
  asked = h.asked;
}
Step-IsKept (submit c enabled) h =
    let named : is_empty (trim c.name) ≡ false = ground (arith, enabled) in
    simp named (record {
      holds =
          Holds-single (trim c.name) c.flights (running (trim c.name)) (ground (arith, enabled))
            refl;
      asked =
          All-append IsCreation c.requests _ h.asked
            ((trim c.name, ne_of_empty (trim c.name) named, refl), tt);
    })
Step-IsKept (succeed c fs gs name e) h = record {
  holds = replaced (trim c.name) fs gs (running name) (refreshing name) refl (rw e at h.holds);
  asked = h.asked;
}
Step-IsKept (settle c fs gs name e) h = record {
  holds = Holds-nil _ (fs ++ gs) (answered (trim c.name) fs gs (refreshing name) (rw e at h.holds));
  asked = h.asked;
}
Step-IsKept (fail c fs gs name message e) h = record {
  holds = Holds-nil _ (fs ++ gs) (answered (trim c.name) fs gs (running name) (rw e at h.holds));
  asked = h.asked;
}

-- Where the input is disabled while a creation is pending: after any order of opening, closing,
-- typing, submitting and answers, at most one creation is under way, its name is still that of
-- the dialog without outer spaces, also where the dialog was closed, and each request ever sent
-- creates a bucket with a nonempty name.
pub Reach-IsKept : {c d : Creation} → IsKept c → Reach Step c d → IsKept d
Reach-IsKept h r = invariant Step IsKept (λ s t k p. Step-IsKept k p) _ _ h r
