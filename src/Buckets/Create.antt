-- ===== src/Buckets/Create.antt =====
-- frontend/src/features/buckets/CreateBucketForm.tsx, with `createBucketMutation` of
-- frontend/src/pages/BucketsPage.tsx: the dialog that creates a bucket.
pub mod Kept
mod Tests
use light_oss.Base.{
  ℕ, ◌+◌, ◌≡◌, Bool, true, false, not, ◌&&◌, ◌||◌, Option, none, some, List, [], ◌∷◌, ◌++◌,
  if◌then◌else◌, is_empty,
}
use light_oss.Base.Text.{Text, trim}
use light_oss.Api.Requests.{RequestConfig, create_bucket}

pub data Toast : Type 0 where
  bucket_created : Toast
  failure : Text → Toast

-- A creation waits for its answer, and after a success for the lists of buckets.
pub data Flight : Type 0 where
  running refreshing : Text → Flight

-- The dialog, and what the page keeps of its mutation.
pub record Creation : Type 0 where
  pub is_open : Bool
  pub name : Text
  pub requests : List RequestConfig
  pub flights : List Flight
  pub toasts : List Toast
  pub buckets_invalidations : ℕ

-- `createBucketMutation.isPending`
unfoldable pub is_pending : Creation → Bool
is_pending c = not (is_empty c.flights)

-- `handleOpenChange`
unfoldable pub handle_open_change : Bool → Creation → Creation
unfolding is_pending
handle_open_change next_open c = record c {
  is_open = next_open;
  name = if not next_open && not (is_pending c) then [] else c.name;
}

-- `setName`
unfoldable pub write_name : Text → Creation → Creation
write_name name c = record c { name = name }

-- The button that submits.
unfoldable pub submit_disabled : Creation → Bool
unfolding is_pending
submit_disabled c = is_pending c || is_empty (trim c.name)

-- `handleSubmit` up to the answer
unfoldable pub handle_submit : Creation → Creation
handle_submit c = if is_empty (trim c.name) then c else record c {
  requests = c.requests ++ create_bucket (trim c.name) ∷ [];
  flights = c.flights ++ running (trim c.name) ∷ [];
}

-- `onSuccess`
unfoldable pub created : Creation → Creation
created c = record c {
  toasts = c.toasts ++ bucket_created ∷ [];
  buckets_invalidations = c.buckets_invalidations + 1;
}

-- `handleSubmit` after `onSubmit`
unfoldable pub finished : Creation → Creation
finished c = record c { name = []; is_open = false }

-- `onError`; the dialog stays as it is.
unfoldable pub creation_failed : Text → Creation → Creation
creation_failed message c = record c { toasts = c.toasts ++ failure message ∷ [] }

abbrev pub land : List Flight → Creation → Creation
land flights c = record c { flights = flights }

-- The input is disabled while a creation is pending.
pub data Step : Creation → Creation → Type 0 where
  change_open : (c : Creation) (next_open : Bool) → Step c (handle_open_change next_open c)
  write : (c : Creation) (name : Text) → is_pending c ≡ false → Step c (write_name name c)
  submit : (c : Creation) → submit_disabled c ≡ false → Step c (handle_submit c)
  succeed :
      (c : Creation) (fs gs : List Flight) (name : Text)
      → c.flights ≡ fs ++ running name ∷ gs
      → Step c (created (land (fs ++ refreshing name ∷ gs) c))
  settle :
      (c : Creation) (fs gs : List Flight) (name : Text)
      → c.flights ≡ fs ++ refreshing name ∷ gs
      → Step c (finished (land (fs ++ gs) c))
  fail :
      (c : Creation) (fs gs : List Flight) (name message : Text)
      → c.flights ≡ fs ++ running name ∷ gs
      → Step c (creation_failed message (land (fs ++ gs) c))
