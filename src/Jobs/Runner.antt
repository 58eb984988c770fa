-- ===== src/Jobs/Runner.antt =====
-- backend/src/modules/jobs/runner.ts: `OracleRetryRunner`. The clock, the oracle client and what
-- other processes do to the store while a call is awaited are fields of the runner; each takes the
-- number of the event, so that they may answer differently every time.
pub mod Execution
pub mod Loop
pub mod Locking
use personal_carbon_footprin.Prelude.{
  ℕ, zero, suc, ◌+◌, String, Option, none, some, List, [], ◌∷◌, ◌++◌, length, if◌then◌else◌,
  Outcome, ◌>>=◌, ok, throw, JsError,
}
use personal_carbon_footprin.Storage.{
  OracleJobKind, submit_verified_footprint, sync_sbt_state, fund_treasury, OracleJobRecord,
  ClaimedOracleJob, FailOracleJobInput, CompleteOracleJobInput, JobAttemptRecord, ServiceLockRecord,
  AcquireServiceLockInput,
}
use personal_carbon_footprin.Db.Tables.{Db}
use personal_carbon_footprin.Db.Store.{
  claim_pending_job, claim_oracle_job_by_id, start_job_attempt, complete_oracle_job,
  fail_oracle_job, list_job_attempts, acquire_service_lock, release_lock,
}
use personal_carbon_footprin.Jobs.Errors.{classify_job_error}
use personal_carbon_footprin.Jobs.Payloads.{
  NewPublicKey, SubmitVerifiedFootprintJobPayload, SyncSbtStatePayload, invalid_job_payload,
  parse_public_key, parse_metadata_uri_hash, parse_submit_verified_footprint_job,
}

pub record MetadataSyncPreparationResult : Type 0 where
  pub metadata_uri_hash : List ℕ
  pub metadata_version : ℕ

-- `RetryRunnerDependencies`, with the defaults of the constructor filled in. A call of the oracle
-- client gives the signature of its transaction.
pub record Runner : Type 0 where
  pub now : ℕ → ℕ
  pub others : ℕ → Db → Db
  pub new_public_key : NewPublicKey
  pub submit_verified_footprint_job_call : ℕ → SubmitVerifiedFootprintJobPayload → Outcome String
  pub sync_sbt_state_call : ℕ → SyncSbtStatePayload → Outcome String
  pub fund_treasury_call : ℕ → ℕ → Outcome String
  pub prepare_metadata_sync : Option (ℕ → OracleJobRecord → Outcome MetadataSyncPreparationResult)
  pub worker_id : String
  pub runner_lock_key : String
  pub runner_lock_duration_ms : ℕ
  pub job_lock_duration_ms : ℕ
  pub backoff_ms : ℕ → OracleJobRecord → ℕ

-- The shared store, and the number of events so far.
pub record World : Type 0 where
  pub db : Db
  pub events : ℕ

abbrev pub with_db : World → Db → World
with_db w db = record w { db = db }

abbrev pub tick : World → World
tick w = record w { events = suc w.events }

-- The prepared payload, if there is a function that prepares it.
prepared_sync : Runner → ℕ → OracleJobRecord → Outcome (Option MetadataSyncPreparationResult)
prepared_sync r n job = elim r.prepare_metadata_sync [
  | none ↦ ok none
  | some prepare ↦ elim (prepare n job) [ throw e ↦ throw e | ok payload ↦ ok (some payload) ]
]

sync_hash : Option MetadataSyncPreparationResult → OracleJobRecord → Outcome (List ℕ)
sync_hash none job = parse_metadata_uri_hash job.metadata_uri_hash
sync_hash (some payload) job = ok payload.metadata_uri_hash

sync_version : Option MetadataSyncPreparationResult → OracleJobRecord → Option ℕ
sync_version none job = job.metadata_version
sync_version (some payload) job = some payload.metadata_version

sync_payload : Runner → ℕ → OracleJobRecord → Outcome SyncSbtStatePayload
unfolding prepared_sync sync_hash sync_version
sync_payload r n job = do
  prepared ← prepared_sync r n job
  hash ← sync_hash prepared job
  elim (sync_version prepared job) [
    | none ↦ throw (invalid_job_payload "Missing metadata version for sync_sbt_state job.")
    | some version ↦ do
      user ← parse_public_key r.new_public_key job.user_pubkey "user pubkey for sync_sbt_state job"
      ok (record { user = user; metadata_version = version; metadata_uri_hash = hash })
  ]

dispatch_kind : OracleJobKind → Runner → ℕ → OracleJobRecord → Outcome String
unfolding sync_payload
dispatch_kind submit_verified_footprint r n job = do
  payload ← parse_submit_verified_footprint_job r.new_public_key job
  r.submit_verified_footprint_job_call n payload
dispatch_kind sync_sbt_state r n job = do
  payload ← sync_payload r n job
  r.sync_sbt_state_call n payload
dispatch_kind fund_treasury r n job = elim job.amount_lamports [
  | none ↦ throw (invalid_job_payload "Missing amountLamports for fund_treasury job.")
  | some amount ↦ r.fund_treasury_call n amount
]

-- `#dispatchJob`: the signature, or what is thrown.
unfoldable pub dispatch_job : Runner → ℕ → OracleJobRecord → Outcome String
unfolding dispatch_kind
dispatch_job r n job = dispatch_kind job.kind r n job

-- What the `catch` block records of an error. The clock is read again for the next run.
abbrev pub failure : Runner → ClaimedOracleJob → ℕ → JsError → World → FailOracleJobInput
failure r claimed attempt_number e w =
    let details = classify_job_error e in
    record {
      job_id = claimed.id;
      lock_key = claimed.lock_key;
      finished_at_ms = r.now w.events;
      next_run_after_ms =
          if details.retryable
          then some (r.now (suc w.events) + r.backoff_ms attempt_number claimed.job)
          else none;
      error_code = details.code;
      error_message = details.message;
      retryable = details.retryable;
    }

-- What is recorded of a dispatch that succeeds.
abbrev pub success : Runner → ClaimedOracleJob → String → World → CompleteOracleJobInput
success r claimed signature w = record {
  job_id = claimed.id;
  lock_key = claimed.lock_key;
  finished_at_ms = r.now w.events;
  transaction_signature = some signature;
}

-- The `catch` block of `#executeClaimedJob`.
unfoldable pub fail_claimed_job :
    Runner → ClaimedOracleJob → ℕ → JsError → World → Outcome OracleJobRecord × World
fail_claimed_job r claimed attempt_number e w =
    let clocked = if (classify_job_error e).retryable then tick (tick w) else tick w in
    let (result, db) = fail_oracle_job (failure r claimed attempt_number e w) w.db in
    (result, with_db clocked db)

-- The `try` block after the job is dispatched; what `completeOracleJob` throws is caught too.
unfoldable pub settle_claimed_job :
    Runner → ClaimedOracleJob → ℕ → Outcome String → World → Outcome OracleJobRecord × World
settle_claimed_job r claimed attempt_number (throw e) w =
    fail_claimed_job r claimed attempt_number e w
settle_claimed_job r claimed attempt_number (ok signature) w =
    let (result, db) = complete_oracle_job (success r claimed signature w) w.db in
    elim result [
      | ok job ↦ (ok job, with_db (tick w) db)
      | throw e ↦ fail_claimed_job r claimed attempt_number e (with_db (tick w) db)
    ]

-- `await`: the others' calls come in between.
abbrev pub awaited : Runner → World → World
awaited r w = record { db = r.others w.events w.db; events = suc w.events }

-- The rest of `#executeClaimedJob` once `startJobAttempt` gave back this.
unfoldable pub after_start :
    Runner
    → ClaimedOracleJob
    → ℕ
    → World
    → Outcome JobAttemptRecord × Db
    → Outcome OracleJobRecord × World
after_start r claimed attempt_number w (throw e, db) = (throw e, with_db w db)
after_start r claimed attempt_number w (ok attempt, db) =
    settle_claimed_job r claimed attempt_number (dispatch_job r w.events claimed.job)
      (awaited r (with_db w db))

-- `#executeClaimedJob`.
unfoldable pub execute_claimed_job :
    Runner → ClaimedOracleJob → World → Outcome OracleJobRecord × World
execute_claimed_job r claimed w =
    let attempt_number = length (list_job_attempts claimed.id w.db) + 1 in
    after_start r claimed attempt_number (tick w) (
      start_job_attempt
        (record {
          job_id = claimed.id;
          attempt_number = attempt_number;
          started_at_ms = r.now w.events;
        })
        w.db)

-- `executeJob`; `none` is `undefined`.
unfoldable pub execute_job : Runner → ℕ → World → Outcome (Option OracleJobRecord) × World
execute_job r job_id w =
    let (claimed, db) =
      claim_oracle_job_by_id job_id r.worker_id (r.now w.events) r.job_lock_duration_ms w.db in
    let clocked = with_db (tick w) db in
    elim claimed [
      | none ↦ (ok none, clocked)
      | some c ↦
          let (result, after) = execute_claimed_job r c clocked in
          (elim result [ throw e ↦ throw e | ok job ↦ ok (some job) ], after)
    ]

-- One turn of the loop once `claimPendingJob` gave back this; `rest` is the turns that follow.
unfoldable pub run_claimed :
    Runner
    → (List ℕ → World → Outcome (List ℕ) × World)
    → List ℕ
    → World
    → Option ClaimedOracleJob × Db
    → Outcome (List ℕ) × World
run_claimed r rest processed w (none, db) = (ok processed, with_db w db)
run_claimed r rest processed w (some c, db) =
    let (result, after) = execute_claimed_job r c (with_db w db) in
    elim result [ throw e ↦ (throw e, after) | ok job ↦ rest (processed ++ c.id ∷ []) after ]

-- The `while` loop of `runDueJobs`. The first argument is how many jobs it may still process.
unfoldable pub run_loop : Runner → ℕ → List ℕ → World → Outcome (List ℕ) × World
run_loop r zero processed w = (ok processed, w)
run_loop r (suc left) processed w =
    run_claimed r (run_loop r left) processed (tick w)
      (claim_pending_job r.worker_id (r.now w.events) r.job_lock_duration_ms w.db)

-- The rest of `runDueJobs` once `acquireServiceLock` gave back this. The lock is released in the
-- `finally` block.
unfoldable pub run_locked :
    Runner → ℕ → World → Option ServiceLockRecord × Db → Outcome (List ℕ) × World
run_locked r max_jobs w (none, db) = (ok [], with_db w db)
run_locked r max_jobs w (some lock, db) =
    let (result, after) = run_loop r max_jobs [] (with_db w db) in
    (result, with_db after (release_lock r.runner_lock_key after.db))

-- What `runDueJobs` asks for first.
abbrev pub runner_lock : Runner → World → AcquireServiceLockInput
runner_lock r w = record {
  lock_key = r.runner_lock_key;
  owner_id = r.worker_id;
  acquired_at_ms = r.now w.events;
  expires_at_ms = r.now w.events + r.runner_lock_duration_ms;
}

-- `runDueJobs` for a finite `maxJobs`.
unfoldable pub run_due_jobs : Runner → ℕ → World → Outcome (List ℕ) × World
run_due_jobs r max_jobs w =
    run_locked r max_jobs (tick w) (acquire_service_lock (runner_lock r w) w.db)
