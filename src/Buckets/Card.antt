-- ===== src/Buckets/Card.antt =====
-- frontend/src/features/buckets/BucketCard.tsx: the card of a bucket and the dialog that deletes
-- the bucket, with the mutation of features/buckets/useDeleteBucket.ts that all cards share. A card
-- is a number; a pinned bucket has a card in each of the two lists.
pub mod Guarded
mod Tests
use light_oss.Base.{
  ℕ, ◌≡◌, Bool, true, false, not, ◌&&◌, ◌||◌, Option, none, some, List, [], ◌∷◌, ◌++◌, ◌==◌, map,
  if◌then◌else◌, is_empty,
}
use light_oss.Base.Text.{Text, text_eq, trim}
use light_oss.Api.Requests.{RequestConfig, delete_bucket}

-- The state of `DeleteBucketButton`.
pub record DeleteDialog : Type 0 where
  pub confirmation_value : Text
  pub is_open : Bool

-- What a card asked for: the text that was typed there, and the request.
pub record Deletion : Type 0 where
  pub card : ℕ
  pub typed : Text
  pub request : Option RequestConfig

pub record Cards : Type 0 where
  pub dialogs : ℕ → DeleteDialog
  pub deleting_bucket_name : Text
  pub deletions : List Deletion
  pub flights : List ℕ

unfoldable pub is_match : Text → DeleteDialog → Bool
is_match name d = text_eq (trim d.confirmation_value) name

abbrev pub put : ℕ → DeleteDialog → (ℕ → DeleteDialog) → ℕ → DeleteDialog
put card d dialogs = λ other. if card == other then d else dialogs other

-- `handleOpenChange`
unfoldable pub handle_open_change : ℕ → Bool → Cards → Cards
handle_open_change card next_open c = record c {
  dialogs = put card (record { confirmation_value = []; is_open = next_open }) c.dialogs;
}

-- `setConfirmationValue`
unfoldable pub type_confirmation : ℕ → Text → Cards → Cards
type_confirmation card value c = record c {
  dialogs =
      put card (record { confirmation_value = value; is_open = (c.dialogs card).is_open })
        c.dialogs;
}

-- `deleteDisabled` of a card, with the state of the query of the sites.
unfoldable pub delete_disabled : Bool → Cards → Bool
delete_disabled sites_unknown c = sites_unknown || not (is_empty c.deleting_bucket_name)

-- `deletePending`
unfoldable pub delete_pending : Text → Cards → Bool
delete_pending name c = text_eq c.deleting_bucket_name name

-- The button that confirms.
unfoldable pub confirm_disabled : Text → ℕ → Cards → Bool
unfolding is_match delete_pending
confirm_disabled name card c = not (is_match name (c.dialogs card)) || delete_pending name c

-- `handleDelete` up to the answer
unfoldable pub handle_delete : Text → ℕ → Cards → Cards
unfolding is_match
handle_delete name card c =
    if is_match name (c.dialogs card)
    then record c {
      deleting_bucket_name = name;
      deletions =
          c.deletions
          ++ record {
            card = card;
            typed = (c.dialogs card).confirmation_value;
            request = delete_bucket name;
          }
            ∷ [];
      flights = c.flights ++ card ∷ [];
    }
    else c

-- `setOpen(false)` after `onDelete`, which leaves the typed text.
unfoldable pub deleted : ℕ → Cards → Cards
deleted card c = record c {
  deleting_bucket_name = [];
  dialogs =
      put card
        (record { confirmation_value = (c.dialogs card).confirmation_value; is_open = false })
        c.dialogs;
}

unfoldable pub deletion_failed : Cards → Cards
deletion_failed c = record c { deleting_bucket_name = [] }

abbrev pub land : List ℕ → Cards → Cards
land flights c = record c { flights = flights }

-- The open dialog is modal: while it is open no other card is reached.
abbrev pub NoneOpen : Cards → Type 0
NoneOpen c = (card : ℕ) → (c.dialogs card).is_open ≡ false

-- `name` gives the bucket of each card.
module _ (name : ℕ → Text) where
  pub data Step : Cards → Cards → Type 0 where
    open_dialog :
        (c : Cards) (card : ℕ) (sites_unknown : Bool)
        → NoneOpen c
        → delete_disabled sites_unknown c ≡ false
        → Step c (handle_open_change card true c)
    close_dialog :
        (c : Cards) (card : ℕ)
        → (c.dialogs card).is_open ≡ true
        → Step c (handle_open_change card false c)
    write :
        (c : Cards) (card : ℕ) (value : Text)
        → (c.dialogs card).is_open ≡ true
        → Step c (type_confirmation card value c)
    confirm :
        (c : Cards) (card : ℕ)
        → (c.dialogs card).is_open ≡ true
        → confirm_disabled (name card) card c ≡ false
        → Step c (handle_delete (name card) card c)
    succeed :
        (c : Cards) (fs gs : List ℕ) (card : ℕ)
        → c.flights ≡ fs ++ card ∷ gs
        → Step c (deleted card (land (fs ++ gs) c))
    fail :
        (c : Cards) (fs gs : List ℕ) (card : ℕ)
        → c.flights ≡ fs ++ card ∷ gs
        → Step c (deletion_failed (land (fs ++ gs) c))
