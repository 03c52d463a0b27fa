-- ===== src/Pins/Refinement.antt =====
-- The hook implements the sets of ids of all services.
use light_oss.Base.{
  number_key, ℕ, ◌≡◌, refl, ap, sym, ◌∙◌, Bool, true, false, not, ◌&&◌, some, List, [], ◌∷◌, ◌==◌,
  inl, inr, Bool-cases, Option-cases, All,
}
use light_oss.Base.Text.{Text, text_eq, text_eq_iff}
use light_oss.Base.JsSet.{
  has, remove, has-remove, has-keep, has-set_of, set_of, IsDistinct-remove, remove-eq-keep,
  All-keep,
}
use light_oss.Pins.Storage.{Codec, get_item, set_item, IsId}
use light_oss.Pins.Reading.{IsPins}
use light_oss.Pins.Updates.{IsCoherent, update_pins_lem, update_pins-writable, ids-IsPins}
use light_oss.Pins.Toggles.{has-toggled, toggled-IsPins, reconciled-IsPins}
use light_oss.Pins.{
  Hook, read_pinned_ids, load_pins, storage_key_of, render, update_pins, same_ids, toggled,
  reconciled, toggle_pin, remove_pin, reconcile_pins,
}
use light_oss.Pins.Services.{
  Command, toggle, drop, reconcile, perform, visit, Visits, visit_all, Pinned, spec_of, visit_spec,
  visit_all_spec, last_key, IsCommand, Implements,
}

abbrev change_of : Command → List ℕ → List ℕ
change_of (toggle id) = toggled id
change_of (drop id) = remove id
change_of (reconcile existing) = reconciled existing

perform-update_pins :
    (codec : Codec) (key : Text) (command : Command) (h : Hook)
    → perform codec key command h ≡ update_pins codec key (change_of command) h
perform-update_pins codec key (toggle id) h = unfold toggle_pin in refl
perform-update_pins codec key (drop id) h = unfold remove_pin in refl
perform-update_pins codec key (reconcile existing) h = unfold reconcile_pins in refl

change-IsPins :
    (command : Command) (ids : List ℕ)
    → IsCommand command
    → IsPins ids
    → IsPins (change_of command ids)
change-IsPins (toggle id) ids k h = toggled-IsPins id ids k h
change-IsPins (drop id) ids k (distinct, valid) = (
  IsDistinct-remove id ids distinct,
  rw (remove-eq-keep id ids) (All-keep IsId (λ x. not (x == id)) ids valid),
)
change-IsPins (reconcile existing) ids k h = reconciled-IsPins existing ids h

has-change :
    (command : Command) (ids : List ℕ) (j : ℕ)
    → has j (change_of command ids) ≡ spec_of command (λ i. has i ids) j
has-change (toggle id) ids j = has-toggled id j ids
has-change (drop id) ids j = has-remove id j ids
has-change (reconcile existing) ids j =
    has-keep (λ id. has id (set_of existing)) j ids
    ∙ ap (λ b. has j ids && b) (has-set_of j existing)

spec_same :
    (command : Command) (p q : ℕ → Bool) (j : ℕ)
    → ((i : ℕ) → p i ≡ q i)
    → spec_of command p j ≡ spec_of command q j
spec_same (toggle id) p q j e = rw (e id) (rw (e j) refl)
spec_same (drop id) p q j e = rw (e j) refl
spec_same (reconcile existing) p q j e = rw (e j) refl

module _ (codec : Codec) where
  get-update_pins-other :
      (key k : Text) (update : List ℕ → List ℕ) (h : Hook)
      → text_eq key k ≡ false
      → get_item k (update_pins codec key update h).storage ≡ get_item k h.storage
  unfolding update_pins set_item get_item
  get-update_pins-other key k update h apart =
      elim (Option-cases (read_pinned_ids codec key h.storage)) [
        | inl thrown ↦ rw thrown refl
        | inr (current, got) ↦ rw got (elim (Bool-cases (same_ids (update current) current)) [
          | inl same ↦ rw same refl
          | inr differ ↦ rw differ (elim (Bool-cases h.storage.writable) [
            | inl writes ↦ rw writes (rw apart refl)
            | inr shut ↦ rw shut refl
          ])
        ])
      ]

  render-IsCoherent :
      (key url : Text) (h : Hook) (pinned : Pinned)
      → Implements codec key h pinned
      → IsCoherent codec (storage_key_of url) (render codec url h)
        × ((render codec url h).storage ≡ h.storage)
  unfolding render load_pins
  render-IsCoherent key url h pinned i =
      elim (Bool-cases (text_eq h.state.storage_key (storage_key_of url))) [
        | inl same ↦
            let e : h.state.storage_key ≡ storage_key_of url =
              (text_eq_iff h.state.storage_key (storage_key_of url)).0 same in
            simp same (
              record {
                key_shown = e;
                no_failure = i.coherent.no_failure;
                stored =
                    ap (λ k. read_pinned_ids codec k h.storage) (sym e ∙ i.coherent.key_shown)
                    ∙ i.coherent.stored;
              },
              refl,
            )
        | inr other ↦
            let (ids, got, seen) = i.stored (storage_key_of url) in
            simp (other, got) (record { key_shown = refl; no_failure = refl; stored = got }, refl)
      ]

  module _ (key : Text) (command : Command) (k : IsCommand command) (h : Hook) (pinned : Pinned)
      (c : IsCoherent codec key h) (writable : h.storage.writable ≡ true) where
    new_ids :
        ((perform codec key command h).state.ids ≡ change_of command h.state.ids)
        × IsCoherent codec key (perform codec key command h)
    new_ids = rw (perform-update_pins codec key command h) (
        let (ids, coherent) =
          update_pins_lem codec key (change_of command) h c
            (change-IsPins command h.state.ids k (ids-IsPins codec key h c)) in
        (ids ∙ rw writable, coherent))

    own_ids :
        (k' : Text) (j : ℕ)
        → key ≡ k'
        → (ids : List ℕ) × (read_pinned_ids codec k' h.storage ≡ some ids)
          × ((i : ℕ) → has i ids ≡ pinned k' i)
        → has j (change_of command h.state.ids) ≡ spec_of command (pinned k') j
    own_ids k' j e (ids, got, seen) =
        let same : ids ≡ h.state.ids = cc (got, c.stored, e) in
        has-change command h.state.ids j
        ∙ spec_same command (λ i. has i h.state.ids) (pinned k') j
            (λ i. ap (has i) (sym same) ∙ seen i)

    kept_ids :
        (k' : Text)
        → text_eq key k' ≡ false
        → read_pinned_ids codec k' (perform codec key command h).storage
          ≡ read_pinned_ids codec k' h.storage
    unfolding read_pinned_ids
    kept_ids k' apart =
        rw (perform-update_pins codec key command h)
          (rw (get-update_pins-other key k' (change_of command) h apart) refl)

    perform-Implements :
        ((k' : Text)
          → (ids : List ℕ) × (read_pinned_ids codec k' h.storage ≡ some ids)
            × ((i : ℕ) → has i ids ≡ pinned k' i))
        → Implements codec key (perform codec key command h) (visit_spec key command pinned)
    perform-Implements all = record {
      coherent = new_ids.1;
      writable =
          rw (perform-update_pins codec key command h)
            (update_pins-writable codec key (change_of command) h writable);
      stored = λ k'. elim (Bool-cases (text_eq key k')) [
        | inl same ↦
            let e : key ≡ k' = (text_eq_iff key k').0 same in
            (
              change_of command h.state.ids,
              ap (λ x. read_pinned_ids codec x (perform codec key command h).storage) (sym e)
                  ∙ new_ids.1.stored
                  ∙ ap some new_ids.0,
              λ j. rw same (own_ids k' j e (all k')),
            )
        | inr other ↦
            let (ids, got, seen) = all k' in (ids, kept_ids k' other ∙ got, λ j. rw other (seen j))
      ];
    }

  visit-Implements :
      (key url : Text) (command : Command) (h : Hook) (pinned : Pinned)
      → IsCommand command
      → Implements codec key h pinned
      → Implements codec
          (storage_key_of url)
          (visit codec url command h)
          (visit_spec (storage_key_of url) command pinned)
  unfolding visit
  visit-Implements key url command h pinned k i =
      let (c, same) = render-IsCoherent key url h pinned i in
      perform-Implements (storage_key_of url) command k (render codec url h) pinned c
        (rw same i.writable) (rw same i.stored)

  -- Shown next for a service, the hook has the ids of that service.
  render-Implements :
      (key url : Text) (h : Hook) (pinned : Pinned)
      → Implements codec key h pinned
      → Implements codec (storage_key_of url) (render codec url h) pinned
  render-Implements key url h pinned i =
      let (c, same) = render-IsCoherent key url h pinned i in
      record { coherent = c; writable = rw same i.writable; stored = rw same i.stored }

  visits-Implements :
      (visits : Visits) (key : Text) (h : Hook) (pinned : Pinned)
      → All (λ (url, command). IsCommand command) visits
      → Implements codec key h pinned
      → Implements codec
          (last_key key visits)
          (visit_all codec visits h)
          (visit_all_spec visits pinned)
  unfolding visit_all
  visits-Implements [] key h pinned k i = i
  visits-Implements ((url, command) ∷ visits) key h pinned (k, ks) i =
      visits-Implements visits (storage_key_of url) (visit codec url command h)
        (visit_spec (storage_key_of url) command pinned) ks
        (visit-Implements key url command h pinned k i)

  -- Where the hook implements a set of ids for each storage key, with a storage that can be
  -- written: after any list of visits, each of which renders the page of a service and toggles a
  -- valid id, removes one, or reconciles the pins with the existing ids, the hook implements the
  -- sets that the specification gives and shows the ids of the service visited last; rendered
  -- next for any service, it implements the same sets and shows the ids of that service.
  pub visit_all-Implements :
      (visits : Visits) (key next : Text) (h : Hook) (pinned : Pinned)
      → All (λ (url, command). IsCommand command) visits
      → Implements codec key h pinned
      → Implements codec
          (last_key key visits)
          (visit_all codec visits h)
          (visit_all_spec visits pinned)
        × Implements codec
            (storage_key_of next)
            (render codec next (visit_all codec visits h))
            (visit_all_spec visits pinned)
  visit_all-Implements visits key next h pinned k i =
      let after = visits-Implements visits key h pinned k i in
      (after, render-Implements (last_key key visits) next _ _ after)
