-- ===== src/Table/Selection.antt =====
-- The checkbox in the header of the table, over the selection of the page.
use light_oss.Base.{
  ℕ, ◌≤◌, ◌≡◌, refl, ap, ◌∙◌, Bool, true, false, not, ◌&&◌, ◌||◌, List, [], ◌∷◌, ◌==◌, ltb,
  if◌then◌else◌, is_empty, length, keep, all, map, arith,
}
use light_oss.Base.Text.{Text, text_key, text_eq_refl}
use light_oss.Base.JsSet.{has, set_of, has-set_of}
use light_oss.Api.Types.{ExplorerEntry}
use light_oss.Recycle.{Checked, checked, unchecked, indeterminate}
use light_oss.Bulk.{Selection, entry_path, bulk_actions_pending, is_checked, handle_select_all}

-- `selectedPaths.has(entry.path)`
abbrev pub is_selected : List Text → ExplorerEntry → Bool
is_selected paths entry = has (entry_path entry) paths

unfoldable pub selected_count : List ExplorerEntry → List Text → ℕ
selected_count entries paths = length (keep (is_selected paths) entries)

unfoldable pub all_selected : List ExplorerEntry → List Text → Bool
unfolding selected_count
all_selected entries paths =
    ltb 0 (length entries) && selected_count entries paths == length entries

unfoldable pub partially_selected : List ExplorerEntry → List Text → Bool
unfolding selected_count all_selected
partially_selected entries paths =
    ltb 0 (selected_count entries paths) && not (all_selected entries paths)

-- What the checkbox shows.
unfoldable pub header_state : List ExplorerEntry → List Text → Checked
unfolding all_selected partially_selected
header_state entries paths =
    if all_selected entries paths
    then checked
    else if partially_selected entries paths
    then indeterminate
    else unchecked

-- A click on a checkbox asks for the other state, from a partial one for the checked one.
abbrev pub clicked : Checked → Checked
clicked checked = unchecked
clicked unchecked = checked
clicked indeterminate = checked

abbrev pub any : (ExplorerEntry → Bool) → List ExplorerEntry → Bool
any p [] = false
any p (x ∷ xs) = p x || any p xs

length-keep-le :
    (p : ExplorerEntry → Bool) (xs : List ExplorerEntry) → length (keep p xs) ≤ length xs
length-keep-le p [] = omega arith
length-keep-le p (x ∷ xs) = ground (arith, length-keep-le p xs)

length-keep-all :
    (p : ExplorerEntry → Bool) (xs : List ExplorerEntry)
    → (length (keep p xs) == length xs) ≡ all p xs
length-keep-all p [] = refl
length-keep-all p (x ∷ xs) = ground (arith, length-keep-all p xs, length-keep-le p xs)

length-keep-any :
    (p : ExplorerEntry → Bool) (xs : List ExplorerEntry) → ltb 0 (length (keep p xs)) ≡ any p xs
length-keep-any p [] = refl
length-keep-any p (x ∷ xs) = ground (arith, length-keep-any p xs)

header_state-cases :
    (entries : List ExplorerEntry) (paths : List Text)
    → header_state entries paths ≡ (
        if is_empty entries
        then unchecked
        else if all (is_selected paths) entries
        then checked
        else if any (is_selected paths) entries
        then indeterminate
        else unchecked)
unfolding header_state all_selected partially_selected selected_count
header_state-cases [] paths = refl
header_state-cases (x ∷ entries) paths = ground (
  arith,
  length-keep-all (is_selected paths) (x ∷ entries),
  length-keep-any (is_selected paths) (x ∷ entries),
)

has-map :
    (entries : List ExplorerEntry) (path : Text)
    → has path (map entry_path entries)
      ≡ any (λ entry. text_key.same (entry_path entry) path) entries
has-map [] path = refl
has-map (x ∷ entries) path = ap (λ b. text_key.same (entry_path x) path || b) (has-map entries path)

-- All entries are among themselves.
all-has :
    (entries more : List ExplorerEntry)
    → ((path : Text)
        → has path (map entry_path entries) ≡ true
        → has path (map entry_path more) ≡ true)
    → all (is_selected (set_of (map entry_path more))) entries ≡ true
all-has [] more within = refl
all-has (x ∷ entries) more within =
    let own : has (entry_path x) (set_of (map entry_path more)) ≡ true =
      has-set_of (entry_path x) (map entry_path more)
      ∙ within (entry_path x) (ground (arith, text_eq_refl (entry_path x))) in
    rw own (all-has entries more (λ path h. within path (ground (arith, h))))

any-none : (entries : List ExplorerEntry) → any (is_selected []) entries ≡ false
any-none [] = refl
any-none (x ∷ entries) = any-none entries

all-none :
    (x : ExplorerEntry) (entries : List ExplorerEntry) → all (is_selected []) (x ∷ entries) ≡ false
all-none x entries = refl

checked_state :
    (x : ExplorerEntry) (entries : List ExplorerEntry)
    → header_state (x ∷ entries) (set_of (map entry_path (x ∷ entries))) ≡ checked
checked_state x entries =
    let paths = set_of (map entry_path (x ∷ entries)) in
    header_state-cases (x ∷ entries) paths
    ∙ ap
        (λ b.
          if b
          then checked
          else if any (is_selected paths) (x ∷ entries)
          then indeterminate
          else unchecked)
        (all-has (x ∷ entries) (x ∷ entries) (λ path h. h))

selected_state :
    (x : ExplorerEntry) (entries : List ExplorerEntry) (c : Checked)
    → header_state
        (x ∷ entries)
        (if is_checked (clicked c) then set_of (map entry_path (x ∷ entries)) else [])
      ≡ clicked c
selected_state x entries checked = header_state-cases (x ∷ entries) [] ∙ rw (any-none entries) refl
selected_state x entries unchecked = checked_state x entries
selected_state x entries indeterminate = checked_state x entries

-- While no bulk action is pending, a click on the checkbox of a table with entries leaves it in
-- the state that it asked for: checked, or unchecked where it was checked before.
pub header_state-clicked :
    (x : ExplorerEntry) (entries : List ExplorerEntry) (s : Selection)
    → bulk_actions_pending s ≡ false
    → header_state
        (x ∷ entries)
        (handle_select_all
          (x ∷ entries)
          (clicked (header_state (x ∷ entries) s.selected_paths))
          s).selected_paths
      ≡ clicked (header_state (x ∷ entries) s.selected_paths)
unfolding handle_select_all
header_state-clicked x entries s idle =
    rw idle (selected_state x entries (header_state (x ∷ entries) s.selected_paths))
