-- ===== src/Api/Types.antt =====
-- frontend/src/api/types.ts: what the server sends and receives. An optional member, and one that
-- may be null, is an `Option`; numbers are naturals, but for the percentages, which are fractions.
use light_oss.Base.{ℕ, Bool, Option, List}
use light_oss.Base.Text.{Text}

pub data ObjectVisibility : Type 0 where
  public private : ObjectVisibility

pub record ApiErrorBody : Type 0 where
  pub code : Text
  pub message : Text

pub record ApiEnvelope {ℓ} (T : Type ℓ) : Type ℓ where
  pub request_id : Text
  pub payload : T
  pub error : Option ApiErrorBody

pub record Bucket : Type 0 where
  pub id : ℕ
  pub name : Text
  pub created_at : Text
  pub updated_at : Text

pub record BucketListResult : Type 0 where
  pub items : List Bucket

pub record ObjectItem : Type 0 where
  pub id : ℕ
  pub bucket_name : Text
  pub object_key : Text
  pub original_filename : Text
  pub size : ℕ
  pub content_type : Text
  pub etag : Text
  pub visibility : ObjectVisibility
  pub created_at : Text
  pub updated_at : Text

pub record ObjectListResult : Type 0 where
  pub items : List ObjectItem
  pub next_cursor : Text

pub record ExplorerDirectoryEntry : Type 0 where
  pub path : Text
  pub name : Text
  pub is_empty : Option Bool

pub record ExplorerFileEntry : Type 0 where
  pub path : Text
  pub name : Text
  pub object_key : Text
  pub original_filename : Text
  pub size : ℕ
  pub content_type : Text
  pub etag : Text
  pub visibility : ObjectVisibility
  pub created_at : Text
  pub updated_at : Text

-- The members that are null for one of the two kinds are those of the other kind.
pub data ExplorerEntry : Type 0 where
  directory : ExplorerDirectoryEntry → ExplorerEntry
  file : ExplorerFileEntry → ExplorerEntry

pub record ExplorerEntriesResult : Type 0 where
  pub items : List ExplorerEntry
  pub next_cursor : Text

pub data EntryType : Type 0 where
  file_entry directory_entry : EntryType

pub record DeleteExplorerEntriesBatchItem : Type 0 where
  pub entry_type : EntryType
  pub path : Text

pub record DeleteExplorerEntriesBatchFailedItem : Type 0 where
  pub item : DeleteExplorerEntriesBatchItem
  pub open item use *
  pub code : Text
  pub message : Text

pub record DeleteExplorerEntriesBatchResult : Type 0 where
  pub deleted_count : ℕ
  pub failed_count : ℕ
  pub failed_items : List DeleteExplorerEntriesBatchFailedItem

pub record RecycleBinObjectItem : Type 0 where
  pub id : ℕ
  pub entry_type : EntryType
  pub bucket_name : Text
  pub path : Text
  pub name : Text
  pub object_key : Text
  pub original_filename : Text
  pub size : ℕ
  pub content_type : Text
  pub etag : Text
  pub visibility : ObjectVisibility
  pub created_at : Text
  pub deleted_at : Text

pub record RecycleBinObjectListResult : Type 0 where
  pub items : List RecycleBinObjectItem
  pub next_cursor : Text

pub record RecycleBinFailedItem : Type 0 where
  pub id : ℕ
  pub bucket_name : Text
  pub path : Text
  pub code : Text
  pub message : Text

pub record RestoreRecycleBinObjectsResult : Type 0 where
  pub restored_count : ℕ
  pub failed_count : ℕ
  pub failed_items : List RecycleBinFailedItem

pub record DeleteRecycleBinObjectsResult : Type 0 where
  pub deleted_count : ℕ
  pub failed_count : ℕ
  pub failed_items : List RecycleBinFailedItem

pub record BatchUploadResult : Type 0 where
  pub uploaded_count : ℕ
  pub items : List ObjectItem

pub record Site : Type 0 where
  pub id : ℕ
  pub bucket : Text
  pub root_prefix : Text
  pub enabled : Bool
  pub index_document : Text
  pub error_document : Text
  pub spa_fallback : Bool
  pub domains : List Text
  pub created_at : Text
  pub updated_at : Text

pub record SiteListResult : Type 0 where
  pub items : List Site

pub record CreateSiteRequest : Type 0 where
  pub bucket : Text
  pub root_prefix : Text
  pub enabled : Bool
  pub index_document : Text
  pub error_document : Text
  pub spa_fallback : Bool
  pub domains : List Text

pub record PublishSiteResult : Type 0 where
  pub uploaded_count : ℕ
  pub site : Site

pub record SignedDownloadPathResult : Type 0 where
  pub path : Text
  pub expires_at : ℕ

pub data HealthState : Type 0 where
  ok error : HealthState

pub record HealthStatus : Type 0 where
  pub service : HealthState
  pub db : HealthState

pub record HealthStatusResult : Type 0 where
  pub status : HealthStatus
  pub version : Text

pub data ApiHostOs : Type 0 where
  windows linux macos other : ApiHostOs

-- A number of an answer that may have a fraction.
pub record Fraction : Type 0 where
  pub negative : Bool
  pub numerator : ℕ
  pub denominator : ℕ

pub record SystemCpuStats : Type 0 where
  pub used_percent : Fraction

pub record SystemMemoryStats : Type 0 where
  pub total_bytes : ℕ
  pub used_bytes : ℕ
  pub available_bytes : ℕ
  pub used_percent : Fraction

pub record SystemDiskStats : Type 0 where
  pub label : Text
  pub mount_point : Text
  pub filesystem : Text
  pub total_bytes : ℕ
  pub used_bytes : ℕ
  pub free_bytes : ℕ
  pub used_percent : Fraction
  pub contains_storage_root : Bool

pub data StorageLimitStatus : Type 0 where
  limit_ok limit_warning limit_exceeded : StorageLimitStatus

pub record SystemStorageStats : Type 0 where
  pub root_path : Text
  pub used_bytes : ℕ
  pub max_bytes : ℕ
  pub remaining_bytes : ℕ
  pub used_percent : Fraction
  pub limit_status : StorageLimitStatus

pub record SystemStatsResult : Type 0 where
  pub os : ApiHostOs
  pub cpu : SystemCpuStats
  pub memory : SystemMemoryStats
  pub disks : List SystemDiskStats
  pub storage : SystemStorageStats
