-- ===== src/Pins/Services.antt =====
-- The pins of all services: the hook implements a set of ids for each storage key.
use light_oss.Base.{
  number_key, ℕ, ◌≡◌, Bool, true, not, ◌&&◌, some, List, [], ◌∷◌, ◌==◌, if◌then◌else◌,
}
use light_oss.Base.Text.{Text, text_eq}
use light_oss.Base.JsSet.{has}
use light_oss.Pins.Storage.{Codec, IsId}
use light_oss.Pins.Updates.{IsCoherent}
use light_oss.Pins.{
  Hook, read_pinned_ids, storage_key_of, render, toggle_pin, remove_pin, reconcile_pins,
}

-- What the hook is asked for.
pub data Command : Type 0 where
  toggle drop : ℕ → Command
  reconcile : List ℕ → Command

-- The page of a service is rendered, then the command runs.
abbrev pub perform : Codec → Text → Command → Hook → Hook
perform codec key (toggle id) h = toggle_pin codec key id h
perform codec key (drop id) h = remove_pin codec key id h
perform codec key (reconcile existing) h = reconcile_pins codec key existing h

unfoldable pub visit : Codec → Text → Command → Hook → Hook
visit codec api_base_url command h =
    perform codec (storage_key_of api_base_url) command (render codec api_base_url h)

abbrev pub Visits : Type 0
Visits = List (Text × Command)

unfoldable pub visit_all : Codec → Visits → Hook → Hook
unfolding visit
visit_all codec [] h = h
visit_all codec ((url, command) ∷ visits) h = visit_all codec visits (visit codec url command h)

-- The specification: for each storage key the set of its ids.
abbrev pub Pinned : Type 0
Pinned = Text → ℕ → Bool

abbrev pub spec_of : Command → (ℕ → Bool) → ℕ → Bool
spec_of (toggle id) p j = if id == j then not (p id) else p j
spec_of (drop id) p j = p j && not (id == j)
spec_of (reconcile existing) p j = p j && has j existing

abbrev pub visit_spec : Text → Command → Pinned → Pinned
visit_spec key command pinned k j =
    if text_eq key k then spec_of command (pinned k) j else pinned k j

abbrev pub visit_all_spec : Visits → Pinned → Pinned
visit_all_spec [] pinned = pinned
visit_all_spec ((url, command) ∷ visits) pinned =
    visit_all_spec visits (visit_spec (storage_key_of url) command pinned)

-- The key of the service that was visited last.
abbrev pub last_key : Text → Visits → Text
last_key key [] = key
last_key key ((url, command) ∷ visits) = last_key (storage_key_of url) visits

-- A pinned id is a number that the storage accepts.
abbrev pub IsCommand : Command → Type 0
IsCommand (toggle id) = IsId id
IsCommand (drop id) = Unit
IsCommand (reconcile existing) = Unit

module _ (codec : Codec) where
  -- The ids under each key are those of the specification, and the state is that of this key.
  pub record Implements (key : Text) (h : Hook) (pinned : Pinned) : Type 0 where
    pub coherent : IsCoherent codec key h
    pub writable : h.storage.writable ≡ true
    pub stored :
        (other : Text)
        → (ids : List ℕ) × (read_pinned_ids codec other h.storage ≡ some ids)
          × ((j : ℕ) → has j ids ≡ pinned other j)
