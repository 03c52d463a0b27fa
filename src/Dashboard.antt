-- ===== src/Dashboard.antt =====
-- frontend/src/pages/DashboardPage.tsx, with lib/connection.ts: what the dashboard asks for and
-- what it shows. The pins and the sites of each bucket are those of the page of the buckets. Times
-- are an argument: `new Date(text).getTime()`, or none where the text is no date.
pub mod Latest
pub mod Panels
pub mod Pinned
mod Tests
use light_oss.Base.{
  ℕ, ◌+◌, ◌*◌, Bool, true, false, not, ◌&&◌, ◌||◌, Option, none, some, List, [], ◌∷◌, ltb, leb,
  if◌then◌else◌, or_else, is_empty, length,
}
use light_oss.Base.Text.{Text, codes, trim}
use light_oss.Api.Types.{
  Bucket, ApiHostOs, windows, linux, macos, other, Fraction, SystemDiskStats, StorageLimitStatus,
  limit_ok, limit_warning, limit_exceeded, SystemStorageStats, SystemStatsResult,
}
use light_oss.Api.Requests.{AppSettings}
use light_oss.Buckets.{find_bucket}

-- `getApiHostLabel`; `host` is `new URL(text).host`, or none where that throws.
unfoldable pub get_api_host_label : (host : Text → Option Text) → Text → Text
get_api_host_label host api_base_url =
    let trimmed = trim api_base_url in
    if is_empty trimmed then codes "-" else or_else (host trimmed) trimmed

unfoldable pub has_bearer_token : Text → Bool
has_bearer_token value = not (is_empty (trim value))

-- The `enabled` of the query of the buckets, and of that of the sites.
unfoldable pub buckets_enabled : AppSettings → Bool
buckets_enabled settings = not (is_empty (trim settings.api_base_url))

unfoldable pub sites_enabled : AppSettings → List ℕ → Bool
sites_enabled settings pinned_ids =
    not (is_empty (trim settings.api_base_url)) && not (is_empty pinned_ids)

unfoldable pub system_stats_enabled : AppSettings → Bool
unfolding has_bearer_token
system_stats_enabled settings =
    not (is_empty (trim settings.api_base_url)) && has_bearer_token settings.bearer_token

abbrev id_of : Option Bucket → Option ℕ
id_of none = none
id_of (some bucket) = some bucket.id

-- The id that `handleDeleteBucket` hands on.
unfoldable pub handle_delete_bucket : Text → List Bucket → Option ℕ
handle_delete_bucket name buckets = id_of (find_bucket name buckets)

-- `>` on times, where what is no date compares as false.
abbrev pub later : Option ℕ → Option ℕ → Bool
later none u = false
later (some t) none = false
later (some t) (some u) = ltb u t

abbrev pub time_of : (Text → Option ℕ) → Bucket → Option ℕ
time_of time bucket = time bucket.updated_at

abbrev pub latest_from : (Text → Option ℕ) → Bucket → List Bucket → Bucket
latest_from time latest [] = latest
latest_from time latest (current ∷ buckets) =
    latest_from time
      (if later (time_of time current) (time_of time latest) then current else latest) buckets

-- `latestBucket`
unfoldable pub latest_bucket : (Text → Option ℕ) → List Bucket → Option Bucket
latest_bucket time [] = none
latest_bucket time (bucket ∷ buckets) = some (latest_from time bucket buckets)

-- The texts of the system part.
pub data Message : Type 0 where
  not_available missing loading no_data disks_empty : Message
  os_windows os_linux os_macos os_other : Message
  status_ok status_warning status_exceeded : Message
  alert_warning_title alert_exceeded_title no_title : Message
  alert_warning_description alert_exceeded_description : (used max : ℕ) → Message
  no_description : Message

-- A query of the statistics, as the page looks at it.
pub record StatsQuery : Type 0 where
  pub is_pending : Bool
  pub is_error : Bool
  pub stats : Option SystemStatsResult

unfoldable pub get_system_fallback_text :
    (token_configured enabled is_pending is_error : Bool) → Message
get_system_fallback_text token_configured enabled is_pending is_error =
    if not enabled
    then if token_configured then not_available else missing
    else if is_pending
    then loading
    else if is_error
    then not_available
    else no_data

unfoldable pub get_os_label : ApiHostOs → Message
get_os_label windows = os_windows
get_os_label linux = os_linux
get_os_label macos = os_macos
get_os_label other = os_other

-- `Math.max(0, Math.min(100, value))`
unfoldable pub clamp_percent : Fraction → Fraction
clamp_percent value =
    if value.negative
    then record { negative = false; numerator = 0; denominator = 1 }
    else if leb value.numerator (100 * value.denominator)
    then value
    else record { negative = false; numerator = 100; denominator = 1 }

unfoldable pub get_storage_status_label : StorageLimitStatus → Message
get_storage_status_label limit_warning = status_warning
get_storage_status_label limit_exceeded = status_exceeded
get_storage_status_label limit_ok = status_ok

pub data Variant : Type 0 where
  secondary destructive outline default : Variant

unfoldable pub get_storage_status_badge_variant : StorageLimitStatus → Variant
get_storage_status_badge_variant limit_warning = secondary
get_storage_status_badge_variant limit_exceeded = destructive
get_storage_status_badge_variant limit_ok = outline

unfoldable pub get_storage_alert_title : StorageLimitStatus → Message
get_storage_alert_title limit_warning = alert_warning_title
get_storage_alert_title limit_exceeded = alert_exceeded_title
get_storage_alert_title limit_ok = no_title

abbrev pub description_for : StorageLimitStatus → ℕ → ℕ → Message
description_for limit_warning used max = alert_warning_description used max
description_for limit_exceeded used max = alert_exceeded_description used max
description_for limit_ok used max = no_description

unfoldable pub get_storage_alert_description : SystemStorageStats → Message
get_storage_alert_description stats =
    description_for stats.limit_status stats.used_bytes stats.max_bytes

-- The alert of the storage card.
pub record StorageAlert : Type 0 where
  pub variant : Variant
  pub title : Message
  pub description : Message

unfoldable pub alert_for : StorageLimitStatus → Variant → SystemStorageStats → Option StorageAlert
unfolding get_storage_alert_title get_storage_alert_description
alert_for limit_ok variant stats = none
alert_for status variant stats = some (record {
  variant = variant;
  title = get_storage_alert_title status;
  description = get_storage_alert_description stats;
})

abbrev alert_variant : StorageLimitStatus → Variant
alert_variant limit_exceeded = destructive
alert_variant limit_warning = default
alert_variant limit_ok = default

-- The badge and the alert of the storage card, which is there once there are statistics.
pub record StorageCard : Type 0 where
  pub badge_variant : Variant
  pub badge : Message
  pub progress : Fraction
  pub alert : Option StorageAlert

unfoldable pub storage_card : SystemStorageStats → StorageCard
unfolding clamp_percent get_storage_status_label get_storage_status_badge_variant
storage_card stats = record {
  badge_variant = get_storage_status_badge_variant stats.limit_status;
  badge = get_storage_status_label stats.limit_status;
  progress = clamp_percent stats.used_percent;
  alert = alert_for stats.limit_status (alert_variant stats.limit_status) stats;
}

-- The card of the disks.
pub data DisksPanel : Type 0 where
  skeleton : DisksPanel
  disk_table : List SystemDiskStats → DisksPanel
  note : Message → DisksPanel

abbrev pub disks_of : Option SystemStatsResult → List SystemDiskStats
disks_of none = []
disks_of (some stats) = stats.disks

unfoldable pub disks_panel : AppSettings → StatsQuery → DisksPanel
unfolding system_stats_enabled has_bearer_token get_system_fallback_text
disks_panel settings query =
    let enabled = system_stats_enabled settings in
    if enabled && query.is_pending
    then skeleton
    else if not (is_empty (disks_of query.stats))
    then disk_table (disks_of query.stats)
    else if enabled
    then note disks_empty
    else note (
        get_system_fallback_text (has_bearer_token settings.bearer_token) enabled query.is_pending
          query.is_error)

-- The value of the card of the host's system.
unfoldable pub os_value : AppSettings → StatsQuery → Message
unfolding system_stats_enabled has_bearer_token get_system_fallback_text get_os_label
os_value settings query = elim query.stats [
  | some stats ↦ get_os_label stats.os
  | none ↦
      get_system_fallback_text (has_bearer_token settings.bearer_token)
        (system_stats_enabled settings) query.is_pending query.is_error
]
