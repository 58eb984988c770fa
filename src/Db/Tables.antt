-- ===== src/Db/Tables.antt =====
-- backend/src/db/index.ts: the tables of `migrate`, their rows, and the functions from rows to
-- records. NULL and `undefined` are both `none`, so `x ?? undefined` and `x ?? null` are `x`.
use personal_carbon_footprin.Prelude.{ℕ, String, ◌+++◌, Option, none, List, [], number_to_string}
use personal_carbon_footprin.Storage.{
  OracleJobKind, OracleJobStatus, JobAttemptOutcome, UsedNonceRecord, OracleJobInput,
  OracleJobRecord, JobAttemptRecord, ServiceLockRecord,
}

pub record NonceRow : Type 0 where
  pub nonce : String
  pub issuer : String
  pub audience : String
  pub subject : String
  pub expires_at_ms : ℕ
  pub reserved_at_ms : ℕ

pub record OracleJobRow : Type 0 where
  pub id : ℕ
  pub kind : OracleJobKind
  pub idempotency_key : String
  pub user_pubkey : Option String
  pub user_profile_pubkey : Option String
  pub period_key : Option ℕ
  pub commitment_hash : Option String
  pub metadata_uri_hash : Option String
  pub metadata_version : Option ℕ
  pub source_kind : Option String
  pub emission_delta_grams : Option ℕ
  pub reduction_delta_grams : Option ℕ
  pub reward_delta_lamports : Option ℕ
  pub amount_lamports : Option ℕ
  pub status : OracleJobStatus
  pub claimed_by : Option String
  pub claimed_at_ms : Option ℕ
  pub completed_at_ms : Option ℕ
  pub last_error_code : Option String
  pub last_error_message : Option String
  pub run_after_ms : ℕ
  pub created_at_ms : ℕ
  pub updated_at_ms : ℕ

pub record AttemptRow : Type 0 where
  pub id : ℕ
  pub job_id : ℕ
  pub attempt_number : ℕ
  pub started_at_ms : ℕ
  pub finished_at_ms : Option ℕ
  pub outcome : JobAttemptOutcome
  pub error_code : Option String
  pub error_message : Option String
  pub transaction_signature : Option String

pub record LockRow : Type 0 where
  pub lock_key : String
  pub owner_id : String
  pub acquired_at_ms : ℕ
  pub expires_at_ms : ℕ

-- The connection. `job_sequence` and `attempt_sequence` are the last ids that AUTOINCREMENT gave.
pub record Db : Type 0 where
  pub used_nonces : List NonceRow
  pub oracle_jobs : List OracleJobRow
  pub job_attempts : List AttemptRow
  pub service_locks : List LockRow
  pub job_sequence : ℕ
  pub attempt_sequence : ℕ

-- `migrate` on a new file: every table is empty.
abbrev pub migrated : Db
migrated = record {
  used_nonces = [];
  oracle_jobs = [];
  job_attempts = [];
  service_locks = [];
  job_sequence = 0;
  attempt_sequence = 0;
}

unfoldable pub map_nonce : NonceRow → UsedNonceRecord
map_nonce row = record {
  nonce = row.nonce;
  issuer = row.issuer;
  audience = row.audience;
  subject = row.subject;
  expires_at_ms = row.expires_at_ms;
  reserved_at_ms = row.reserved_at_ms;
}

unfoldable pub map_oracle_job : OracleJobRow → OracleJobRecord
map_oracle_job row = record {
  id = row.id;
  kind = row.kind;
  idempotency_key = row.idempotency_key;
  user_pubkey = row.user_pubkey;
  user_profile_pubkey = row.user_profile_pubkey;
  period_key = row.period_key;
  commitment_hash = row.commitment_hash;
  metadata_uri_hash = row.metadata_uri_hash;
  metadata_version = row.metadata_version;
  source_kind = row.source_kind;
  emission_delta_grams = row.emission_delta_grams;
  reduction_delta_grams = row.reduction_delta_grams;
  reward_delta_lamports = row.reward_delta_lamports;
  amount_lamports = row.amount_lamports;
  run_after_ms = row.run_after_ms;
  status = row.status;
  claimed_by = row.claimed_by;
  claimed_at_ms = row.claimed_at_ms;
  completed_at_ms = row.completed_at_ms;
  last_error_code = row.last_error_code;
  last_error_message = row.last_error_message;
  created_at_ms = row.created_at_ms;
  updated_at_ms = row.updated_at_ms;
}

unfoldable pub map_attempt : AttemptRow → JobAttemptRecord
map_attempt row = record {
  id = row.id;
  job_id = row.job_id;
  attempt_number = row.attempt_number;
  started_at_ms = row.started_at_ms;
  finished_at_ms = row.finished_at_ms;
  outcome = row.outcome;
  error_code = row.error_code;
  error_message = row.error_message;
  transaction_signature = row.transaction_signature;
}

unfoldable pub map_lock : LockRow → ServiceLockRecord
map_lock row = record {
  lock_key = row.lock_key;
  owner_id = row.owner_id;
  acquired_at_ms = row.acquired_at_ms;
  expires_at_ms = row.expires_at_ms;
}

-- `normalizeOracleJobInput` and the columns that `insertOracleJob` sets.
unfoldable pub normalize_oracle_job_input : ℕ → OracleJobInput → OracleJobRow
normalize_oracle_job_input id input = record {
  id = id;
  kind = input.kind;
  idempotency_key = input.idempotency_key;
  user_pubkey = input.user_pubkey;
  user_profile_pubkey = input.user_profile_pubkey;
  period_key = input.period_key;
  commitment_hash = input.commitment_hash;
  metadata_uri_hash = input.metadata_uri_hash;
  metadata_version = input.metadata_version;
  source_kind = input.source_kind;
  emission_delta_grams = input.emission_delta_grams;
  reduction_delta_grams = input.reduction_delta_grams;
  reward_delta_lamports = input.reward_delta_lamports;
  amount_lamports = input.amount_lamports;
  status = OracleJobStatus.pending;
  claimed_by = none;
  claimed_at_ms = none;
  completed_at_ms = none;
  last_error_code = none;
  last_error_message = none;
  run_after_ms = input.run_after_ms;
  created_at_ms = input.created_at_ms;
  updated_at_ms = input.created_at_ms;
}

abbrev pub job_lock_prefix : String
job_lock_prefix = "oracle_job:"

-- `${JOB_LOCK_PREFIX}${row.id}`.
unfoldable pub job_lock_key : ℕ → String
job_lock_key id = job_lock_prefix +++ number_to_string id

-- The parameters of `insertLock`.
abbrev pub new_lock : String → String → ℕ → ℕ → LockRow
new_lock lock_key owner_id acquired_at_ms expires_at_ms = record {
  lock_key = lock_key;
  owner_id = owner_id;
  acquired_at_ms = acquired_at_ms;
  expires_at_ms = expires_at_ms;
}
