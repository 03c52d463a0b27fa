-- ===== src/Dashboard/Pinned.antt =====
-- The deletion of a bucket from the dashboard.
use light_oss.Base.{number_key, ℕ, ◌≡◌, ap, ◌∙◌, true, not, ◌&&◌, some, List, ◌==◌, arith}
use light_oss.Base.Text.{Text}
use light_oss.Base.JsSet.{has, has-keep}
use light_oss.Api.Types.{Bucket}
use light_oss.Pins.Storage.{Codec}
use light_oss.Pins.Updates.{IsCoherent}
use light_oss.Buckets.{BucketsPage, ids_of_buckets, pinned_buckets, delete_succeeded}
use light_oss.Buckets.Groups.{pinned_buckets_lem}
use light_oss.Buckets.Reconciled.{delete_succeeded_lem}

abbrev pub shown_ids : BucketsPage → List Bucket → List ℕ
shown_ids page buckets = ids_of_buckets (pinned_buckets page.hook.state.ids buckets)

-- For pins that show what is stored and a storage that can be written: after the deletion of a
-- bucket from the dashboard has succeeded, the dashboard shows the same pinned buckets but for
-- the deleted one.
pub deleted-shown :
    (codec : Codec) (key : Text) (page : BucketsPage)
    → IsCoherent codec key page.hook
    → page.hook.storage.writable ≡ true
    → (buckets : List Bucket) (name : Text) (id j : ℕ)
    → has j (shown_ids (delete_succeeded codec key name (some id) page) buckets)
      ≡ (has j (shown_ids page buckets) && not (id == j))
deleted-shown codec key page c writable buckets name id j =
    ap (has j) (pinned_buckets_lem _ buckets)
    ∙ has-keep (λ i. has i (ids_of_buckets buckets)) j _
    ∙ ground (
      arith,
      (delete_succeeded_lem codec key page c writable name id j).0,
      ap (has j) (pinned_buckets_lem page.hook.state.ids buckets),
      has-keep (λ i. has i (ids_of_buckets buckets)) j page.hook.state.ids,
    )
