-- ===== src/Table/Lookup.antt =====
-- The entries that the dialogs of the table are about, and the effect that closes the dialog of an
-- entry that is gone.
use light_oss.Base.{
  ◌≡◌, refl, sym, not, ◌⊎◌, Option-cases, Bool, false, Option, none, some, List, [], ◌∷◌,
  if◌then◌else◌, is_empty, Bool-cases, inl, inr, ap, ◌∙◌,
}
use light_oss.Base.Text.{Text, text_eq, text_eq_iff}
use light_oss.Api.Types.{ExplorerEntry, directory, file, ExplorerDirectoryEntry, ExplorerFileEntry}

abbrev find_file : Text → List ExplorerEntry → Option ExplorerFileEntry
find_file path [] = none
find_file path (directory entry ∷ entries) = find_file path entries
find_file path (file entry ∷ entries) =
    let rest = find_file path entries in if text_eq entry.path path then some entry else rest

abbrev find_directory : Text → List ExplorerEntry → Option ExplorerDirectoryEntry
find_directory path [] = none
find_directory path (directory entry ∷ entries) =
    let rest = find_directory path entries in if text_eq entry.path path then some entry else rest
find_directory path (file entry ∷ entries) = find_directory path entries

-- No path and the empty path find nothing.
unfoldable pub find_file_entry : List ExplorerEntry → Option Text → Option ExplorerFileEntry
find_file_entry entries none = none
find_file_entry entries (some path) = if is_empty path then none else find_file path entries

unfoldable pub find_directory_entry :
    List ExplorerEntry → Option Text → Option ExplorerDirectoryEntry
find_directory_entry entries none = none
find_directory_entry entries (some path) =
    if is_empty path then none else find_directory path entries

pub record Dialogs : Type 0 where
  pub details_path : Option Text
  pub delete_file_path : Option Text
  pub delete_folder_path : Option Text
  pub publish_file_path : Option Text
  pub publish_folder_path : Option Text

-- `if (path && !entry) setPath(null)`: an empty path is falsy and stays.
abbrev pub kept_path {ℓ} : {A : Type ℓ} → Option Text → Option A → Option Text
kept_path none entry = none
kept_path (some path) (some entry) = some path
kept_path (some path) none = if is_empty path then some path else none

unfoldable pub close_missing : List ExplorerEntry → Dialogs → Dialogs
unfolding find_file_entry find_directory_entry
close_missing entries d = record {
  details_path = kept_path d.details_path (find_file_entry entries d.details_path);
  delete_file_path = kept_path d.delete_file_path (find_file_entry entries d.delete_file_path);
  delete_folder_path =
      kept_path d.delete_folder_path (find_directory_entry entries d.delete_folder_path);
  publish_file_path = kept_path d.publish_file_path (find_file_entry entries d.publish_file_path);
  publish_folder_path =
      kept_path d.publish_folder_path (find_directory_entry entries d.publish_folder_path);
}

-- Whether a dialog has a path but no entry to show.
abbrev pub dangles {ℓ} : {A : Type ℓ} → Option Text → Option A → Bool
dangles none entry = false
dangles (some path) none = not (is_empty path)
dangles (some path) (some entry) = false

kept_file :
    (entries : List ExplorerEntry) (path : Option Text)
    → (find_file_entry entries (kept_path path (find_file_entry entries path))
        ≡ find_file_entry entries path)
      × (dangles
            (kept_path path (find_file_entry entries path))
            (find_file_entry entries (kept_path path (find_file_entry entries path)))
          ≡ false)
unfolding find_file_entry
kept_file entries none = (refl, refl)
kept_file entries (some []) = (refl, refl)
kept_file entries (some (c ∷ s)) = elim (Option-cases (find_file (c ∷ s) entries)) [
  | inl gone ↦ rw gone (refl, refl)
  | inr (entry, there) ↦ rw there (rw there (refl, refl))
]

kept_directory :
    (entries : List ExplorerEntry) (path : Option Text)
    → (find_directory_entry entries (kept_path path (find_directory_entry entries path))
        ≡ find_directory_entry entries path)
      × (dangles
            (kept_path path (find_directory_entry entries path))
            (find_directory_entry entries (kept_path path (find_directory_entry entries path)))
          ≡ false)
unfolding find_directory_entry
kept_directory entries none = (refl, refl)
kept_directory entries (some []) = (refl, refl)
kept_directory entries (some (c ∷ s)) = elim (Option-cases (find_directory (c ∷ s) entries)) [
  | inl gone ↦ rw gone (refl, refl)
  | inr (entry, there) ↦ rw there (rw there (refl, refl))
]

-- After the effect that closes the dialogs of missing entries, the details dialog shows the same
-- entry as before, and none of the five dialogs keeps a path without an entry, but the empty
-- path.
close_missing_lem :
    (entries : List ExplorerEntry) (d : Dialogs)
    → (find_file_entry entries (close_missing entries d).details_path
        ≡ find_file_entry entries d.details_path)
      × (dangles
            (close_missing entries d).details_path
            (find_file_entry entries (close_missing entries d).details_path)
          ≡ false)
      × (dangles
            (close_missing entries d).delete_file_path
            (find_file_entry entries (close_missing entries d).delete_file_path)
          ≡ false)
      × (dangles
            (close_missing entries d).publish_file_path
            (find_file_entry entries (close_missing entries d).publish_file_path)
          ≡ false)
      × (dangles
            (close_missing entries d).delete_folder_path
            (find_directory_entry entries (close_missing entries d).delete_folder_path)
          ≡ false)
      × (dangles
            (close_missing entries d).publish_folder_path
            (find_directory_entry entries (close_missing entries d).publish_folder_path)
          ≡ false)
unfolding close_missing
close_missing_lem entries d = (
  (kept_file entries d.details_path).0,
  (kept_file entries d.details_path).1,
  (kept_file entries d.delete_file_path).1,
  (kept_file entries d.publish_file_path).1,
  (kept_directory entries d.delete_folder_path).1,
  (kept_directory entries d.publish_folder_path).1,
)

-- A file that is found stands in the list under the path that was sought.
abbrev pub Holds : ExplorerEntry → List ExplorerEntry → Type 0
Holds e [] = ⊥
Holds e (x ∷ xs) = (x ≡ e) ⊎ Holds e xs

find_file-Holds :
    (path : Text) (entries : List ExplorerEntry) (entry : ExplorerFileEntry)
    → find_file path entries ≡ some entry
    → (entry.path ≡ path) × Holds (file entry) entries
find_file-Holds path [] entry h = cc
find_file-Holds path (directory x ∷ entries) entry h =
    let (same, there) = find_file-Holds path entries entry h in (same, inr there)
find_file-Holds path (file x ∷ entries) entry h = elim (Bool-cases (text_eq x.path path)) [
  | inl same ↦
      let e : x ≡ entry = cc (rw same at h) in
      (ap (λ y. y.path) (sym e) ∙ (text_eq_iff x.path path).0 same, inl (ap (λ y. file y) e))
  | inr other ↦
      let (same, there) = find_file-Holds path entries entry (rw other at h) in (same, inr there)
]

-- A file that is found has the path that was sought, and stands in the list.
find_file_entry-Holds :
    (entries : List ExplorerEntry) (path : Text) (entry : ExplorerFileEntry)
    → find_file_entry entries (some path) ≡ some entry
    → (entry.path ≡ path) × Holds (file entry) entries
unfolding find_file_entry
find_file_entry-Holds entries [] entry h = cc
find_file_entry-Holds entries (c ∷ s) entry h = find_file-Holds (c ∷ s) entries entry h
