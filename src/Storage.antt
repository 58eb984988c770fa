-- ===== src/Storage.antt =====
-- backend/src/modules/storage/state-store.ts: the records that the state store takes and gives.
-- An optional field, and `undefined`, is an `Option`; times are milliseconds.
use personal_carbon_footprin.Prelude.{ℕ, String, Option, Bool}

pub data OracleJobKind : Type 0 where
  submit_verified_footprint sync_sbt_state fund_treasury : OracleJobKind

pub data OracleJobStatus : Type 0 where
  pending running retryable failed completed : OracleJobStatus

pub data JobAttemptOutcome : Type 0 where
  running retryable failed completed : JobAttemptOutcome

pub record ReserveNonceInput : Type 0 where
  pub nonce : String
  pub issuer : String
  pub audience : String
  pub subject : String
  pub expires_at_ms : ℕ
  pub reserved_at_ms : ℕ

abbrev pub UsedNonceRecord : Type 0
UsedNonceRecord = ReserveNonceInput

-- The fields of a job that depend on its kind.
pub record OracleJobInput : Type 0 where
  pub kind : OracleJobKind
  pub idempotency_key : String
  pub user_pubkey : Option String
  pub user_profile_pubkey : Option String
  pub period_key : Option ℕ
  pub commitment_hash : Option String
  pub metadata_uri_hash : Option String
  pub metadata_version : Option ℕ
  pub source_kind : Option String
  pub emission_delta_grams : Option ℕ
  pub reduction_delta_grams : Option ℕ
  pub reward_delta_lamports : Option ℕ
  pub amount_lamports : Option ℕ
  pub run_after_ms : ℕ
  pub created_at_ms : ℕ

pub record OracleJobRecord : Type 0 where
  pub id : ℕ
  pub kind : OracleJobKind
  pub idempotency_key : String
  pub user_pubkey : Option String
  pub user_profile_pubkey : Option String
  pub period_key : Option ℕ
  pub commitment_hash : Option String
  pub metadata_uri_hash : Option String
  pub metadata_version : Option ℕ
  pub source_kind : Option String
  pub emission_delta_grams : Option ℕ
  pub reduction_delta_grams : Option ℕ
  pub reward_delta_lamports : Option ℕ
  pub amount_lamports : Option ℕ
  pub run_after_ms : ℕ
  pub status : OracleJobStatus
  pub claimed_by : Option String
  pub claimed_at_ms : Option ℕ
  pub completed_at_ms : Option ℕ
  pub last_error_code : Option String
  pub last_error_message : Option String
  pub created_at_ms : ℕ
  pub updated_at_ms : ℕ

-- `interface ClaimedOracleJob extends OracleJobRecord`.
pub record ClaimedOracleJob : Type 0 where
  pub job : OracleJobRecord
  pub open job use *
  pub lock_key : String

pub record JobAttemptStartInput : Type 0 where
  pub job_id : ℕ
  pub attempt_number : ℕ
  pub started_at_ms : ℕ

pub record JobAttemptRecord : Type 0 where
  pub id : ℕ
  pub job_id : ℕ
  pub attempt_number : ℕ
  pub started_at_ms : ℕ
  pub finished_at_ms : Option ℕ
  pub outcome : JobAttemptOutcome
  pub error_code : Option String
  pub error_message : Option String
  pub transaction_signature : Option String

pub record CompleteOracleJobInput : Type 0 where
  pub job_id : ℕ
  pub lock_key : String
  pub finished_at_ms : ℕ
  pub transaction_signature : Option String

pub record FailOracleJobInput : Type 0 where
  pub job_id : ℕ
  pub lock_key : String
  pub finished_at_ms : ℕ
  pub next_run_after_ms : Option ℕ
  pub error_code : String
  pub error_message : String
  pub retryable : Bool

pub record AcquireServiceLockInput : Type 0 where
  pub lock_key : String
  pub owner_id : String
  pub acquired_at_ms : ℕ
  pub expires_at_ms : ℕ

pub record ServiceLockRecord : Type 0 where
  pub lock_key : String
  pub owner_id : String
  pub acquired_at_ms : ℕ
  pub expires_at_ms : ℕ
