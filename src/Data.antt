-- ===== src/Data.antt =====
-- The records that the program reads and writes as JSON: src/snapshot.rs, src/lock.rs,
-- src/health.rs, src/browser/cdp.rs and src/workload/chatgpt_chats.rs. A `DateTime<Utc>` is a number
-- of nanoseconds since the epoch, and `F` stands for f64.
use repossess.Prelude.{ℕ, Text, Bool, Option, List}

pub data SnapshotFormat : Type 0 where
  storage_state_v1 user_data_dir_v1 : SnapshotFormat

pub record LatestPointer : Type 0 where
  pub version : Text
  pub object : Text
  pub object_sha256 : Text
  pub signature_object : Text
  pub created_at : ℕ
  pub format : SnapshotFormat

pub record Lock : Type 0 where
  pub run_id : Text
  pub created_at : ℕ
  pub expires_at : ℕ

pub data HealthStatus : Type 0 where
  ok canary_failed error : HealthStatus

pub record HealthRecord : Type 0 where
  pub run_id : Text
  pub started_at : ℕ
  pub ended_at : ℕ
  pub status : HealthStatus
  pub snapshot_version : Option Text
  pub canary_status : Option ℕ
  pub canary_observed : Option Text
  pub error : Option Text

pub record StoredCookie (F : Type 0) : Type 0 where
  pub name : Text
  pub value : Text
  pub domain : Text
  pub path : Text
  pub expires : Option F
  pub http_only : Bool
  pub secure : Bool
  pub same_site : Option Text

pub record Kv : Type 0 where
  pub name : Text
  pub value : Text

pub record Origin : Type 0 where
  pub origin : Text
  pub local_storage : List Kv

pub record StorageState (F : Type 0) : Type 0 where
  pub cookies : List (StoredCookie F)
  pub origins : List Origin

pub record ChatsIndexEntry (F : Type 0) : Type 0 where
  pub update_time : Option F
  pub title : Option Text
  pub object_key : Text
  pub sha256 : Text
  pub bytes : ℕ
  pub stored_at : ℕ

-- `entries`, a HashMap, is an association list with the newest binding of a key first.
pub record ChatsIndex (F : Type 0) : Type 0 where
  pub schema_version : ℕ
  pub updated_at : ℕ
  pub entries : List (Text × ChatsIndexEntry F)
