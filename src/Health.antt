-- ===== src/Health.antt =====
-- src/health.rs: one object under health/ for every run, written as far as possible.
pub mod Audit
use repossess.Prelude.{
  ℕ, Text, Bool, true, false, Option, none, some, List, [], ◌∷◌, ◌++◌, codes, map, leb,
  if◌then◌else◌, ◌==◌, ◌&&◌, ◌||◌,
}
use repossess.Effect.{Result, ok, err, Report}
use repossess.Data.{HealthStatus, HealthRecord}
use repossess.Host.{Host}
use repossess.Stores.{SnapshotStore}

-- `char::is_ascii_alphanumeric`.
abbrev pub is_ascii_alphanumeric : ℕ → Bool
is_ascii_alphanumeric c =
    (leb b'0' c && leb c b'9') || (leb b'a' c && leb c b'z') || (leb b'A' c && leb c b'Z')

unfoldable pub sanitize_char : ℕ → ℕ
sanitize_char c = if is_ascii_alphanumeric c || c == b'-' then c else b'-'

unfoldable pub sanitize_run_id : Text → Text
sanitize_run_id id = map sanitize_char id

module _ (h : Host) where
  unfoldable pub health_key : HealthRecord → Text
  health_key record' =
      codes "health/"
      ++ (h.format_ts record'.started_at
          ++ (codes "-" ++ (sanitize_run_id record'.run_id ++ codes ".json")))

  put_record : SnapshotStore h → Text → Result h.Bytes → h.World → h.World
  put_record store key (ok body) w = (store.put key body w).1
  put_record store key (err e) w = w

  -- A failure to serialise or to store the record is only logged.
  unfoldable pub write : SnapshotStore h → HealthRecord → h.World → h.World
  unfolding put_record
  write store record' w = put_record store (health_key record') (h.health_json.to_vec record') w

  -- The three records, each with the time at which it is made.
  unfoldable pub healthy : Text → ℕ → Text → h.World → HealthRecord × h.World
  healthy run_id started version w = (
    record {
      run_id = run_id;
      started_at = started;
      ended_at = (h.now w).0;
      status = HealthStatus.ok;
      snapshot_version = some version;
      canary_status = none;
      canary_observed = none;
      error = none;
    },
    (h.now w).1,
  )

  unfoldable pub canary_failed : Text → ℕ → ℕ → Option Text → h.World → HealthRecord × h.World
  canary_failed run_id started status observed w = (
    record {
      run_id = run_id;
      started_at = started;
      ended_at = (h.now w).0;
      status = HealthStatus.canary_failed;
      snapshot_version = none;
      canary_status = some status;
      canary_observed = observed;
      error = none;
    },
    (h.now w).1,
  )

  unfoldable pub failed : Text → ℕ → Text → h.World → HealthRecord × h.World
  failed run_id started message w = (
    record {
      run_id = run_id;
      started_at = started;
      ended_at = (h.now w).0;
      status = HealthStatus.error;
      snapshot_version = none;
      canary_status = none;
      canary_observed = none;
      error = some message;
    },
    (h.now w).1,
  )
