-- ===== src/Db/Store.antt =====
-- backend/src/db/index.ts: the operations of the state store. An operation gives back its result
-- and the tables. A transaction that throws is rolled back, so it gives back the old tables.
use mathlib.Core.Option
use personal_carbon_footprin.Prelude.{
  ℕ, ◌+◌, String, ◌+++◌, Option, none, some, List, map, if◌then◌else◌, or_else, ◌==◌, find_where,
  number_to_string, error, Outcome, ok, throw,
}
use personal_carbon_footprin.Storage.{
  OracleJobStatus, JobAttemptOutcome, ReserveNonceInput, UsedNonceRecord, OracleJobInput,
  OracleJobRecord, ClaimedOracleJob, JobAttemptStartInput, JobAttemptRecord, CompleteOracleJobInput,
  FailOracleJobInput, AcquireServiceLockInput, ServiceLockRecord,
}
use personal_carbon_footprin.Db.Tables.{
  NonceRow, OracleJobRow, Db, new_lock, map_nonce, map_oracle_job, map_attempt, map_lock,
  job_lock_key,
}
use personal_carbon_footprin.Db.Statements.{
  insert_nonce, select_nonce, insert_oracle_job, select_oracle_job_by_id,
  select_oracle_job_by_idempotency_key, select_claimable_job, select_claimable_job_by_id,
  update_claimed_job, insert_lock, delete_expired_lock, select_lock, delete_lock, insert_attempt,
  update_attempt, select_attempts, update_job_completed, update_job_failed,
}

-- `insertNonce.run(input)`.
abbrev pub nonce_row : ReserveNonceInput → NonceRow
nonce_row input = record {
  nonce = input.nonce;
  issuer = input.issuer;
  audience = input.audience;
  subject = input.subject;
  expires_at_ms = input.expires_at_ms;
  reserved_at_ms = input.reserved_at_ms;
}

unfoldable pub reserve_nonce : ReserveNonceInput → Db → Outcome UsedNonceRecord × Db
reserve_nonce input db = elim (insert_nonce (nonce_row input) db) [
  | throw e ↦ (throw e, db)
  | ok db' ↦ (ok input, db')
]

unfoldable pub find_nonce : String → Db → Option UsedNonceRecord
find_nonce nonce db = Option.map map_nonce (select_nonce nonce db)

-- The rest of both claiming transactions, once a row is selected. A taken lock is caught, so what
-- `deleteExpiredLock` did is kept.
unfoldable pub claim_row : OracleJobRow → String → ℕ → ℕ → Db → Option ClaimedOracleJob × Db
claim_row row worker_id now_ms lock_duration_ms db =
    let lock_key = job_lock_key row.id in
    let cleared = delete_expired_lock lock_key now_ms db in
    let lock = new_lock lock_key worker_id now_ms (now_ms + lock_duration_ms) in
    elim (insert_lock lock cleared) [
      | throw e ↦ (none, cleared)
      | ok locked ↦
          let claimed = update_claimed_job worker_id now_ms row.id locked in
          (
            Option.map
                (λ (r : OracleJobRow). record { job = map_oracle_job r; lock_key = lock_key })
                (select_oracle_job_by_id row.id claimed),
            claimed,
          )
    ]

unfoldable pub claim_pending_job : String → ℕ → ℕ → Db → Option ClaimedOracleJob × Db
claim_pending_job worker_id now_ms lock_duration_ms db = elim (select_claimable_job now_ms db) [
  | none ↦ (none, db)
  | some row ↦ claim_row row worker_id now_ms lock_duration_ms db
]

unfoldable pub claim_oracle_job_by_id : ℕ → String → ℕ → ℕ → Db → Option ClaimedOracleJob × Db
claim_oracle_job_by_id job_id worker_id now_ms lock_duration_ms db =
    elim (select_claimable_job_by_id job_id now_ms db) [
      | none ↦ (none, db)
      | some row ↦ claim_row row worker_id now_ms lock_duration_ms db
    ]

-- The end of a transaction: the job's row, or a throw that rolls back to `old`.
unfoldable pub commit_job : ℕ → Db → Db → Outcome OracleJobRecord × Db
commit_job job_id old new = elim (select_oracle_job_by_id job_id new) [
  | none ↦ (throw (error ("Missing job " +++ number_to_string job_id)), old)
  | some row ↦ (ok (map_oracle_job row), new)
]

unfoldable pub complete_oracle_job : CompleteOracleJobInput → Db → Outcome OracleJobRecord × Db
complete_oracle_job input db = elim (select_lock input.lock_key db) [
  | none ↦ (throw (error ("Missing lock for " +++ input.lock_key)), db)
  | some _ ↦
      let completed = update_job_completed input.job_id input.finished_at_ms db in
      let recorded =
        update_attempt input.job_id
          (record {
            finished_at_ms = input.finished_at_ms;
            outcome = JobAttemptOutcome.completed;
            error_code = none;
            error_message = none;
            transaction_signature = input.transaction_signature;
          })
          completed in
      commit_job input.job_id db (delete_lock input.lock_key recorded)
]

unfoldable pub fail_oracle_job : FailOracleJobInput → Db → Outcome OracleJobRecord × Db
fail_oracle_job input db = elim (select_lock input.lock_key db) [
  | none ↦ (throw (error ("Missing lock for " +++ input.lock_key)), db)
  | some _ ↦
      let next_status =
        if input.retryable then OracleJobStatus.retryable else OracleJobStatus.failed in
      let failed =
        update_job_failed input.job_id next_status
          (or_else input.next_run_after_ms input.finished_at_ms) input.finished_at_ms
          input.error_code input.error_message db in
      let recorded =
        update_attempt input.job_id
          (record {
            finished_at_ms = input.finished_at_ms;
            outcome =
                if input.retryable then JobAttemptOutcome.retryable else JobAttemptOutcome.failed;
            error_code = some input.error_code;
            error_message = some input.error_message;
            transaction_signature = none;
          })
          failed in
      commit_job input.job_id db (delete_lock input.lock_key recorded)
]

unfoldable pub acquire_service_lock : AcquireServiceLockInput → Db → Option ServiceLockRecord × Db
acquire_service_lock input db =
    let cleared = delete_expired_lock input.lock_key input.acquired_at_ms db in
    let lock = new_lock input.lock_key input.owner_id input.acquired_at_ms input.expires_at_ms in
    elim (insert_lock lock cleared) [
      | throw e ↦ (none, cleared)
      | ok locked ↦ (Option.map map_lock (select_lock input.lock_key locked), locked)
    ]

unfoldable pub release_lock : String → Db → Db
release_lock lock_key db = delete_lock lock_key db

-- The insertion is its own statement: a throw after it does not undo it.
unfoldable pub enqueue_oracle_job : OracleJobInput → Db → Outcome OracleJobRecord × Db
enqueue_oracle_job input db = elim (insert_oracle_job input db) [
  | throw e ↦ (throw e, db)
  | ok (id, inserted) ↦ elim (select_oracle_job_by_id id inserted) [
    | none ↦ (throw (error "Failed to create oracle job"), inserted)
    | some row ↦ (ok (map_oracle_job row), inserted)
  ]
]

unfoldable pub find_oracle_job_by_id : ℕ → Db → Option OracleJobRecord
find_oracle_job_by_id id db = Option.map map_oracle_job (select_oracle_job_by_id id db)

unfoldable pub find_oracle_job_by_idempotency_key : String → Db → Option OracleJobRecord
find_oracle_job_by_idempotency_key key db =
    Option.map map_oracle_job (select_oracle_job_by_idempotency_key key db)

unfoldable pub start_job_attempt : JobAttemptStartInput → Db → Outcome JobAttemptRecord × Db
start_job_attempt input db =
    elim (insert_attempt input.job_id input.attempt_number input.started_at_ms db) [
      | throw e ↦ (throw e, db)
      | ok (id, inserted) ↦
          elim (find_where (λ row. row.id == id) (select_attempts input.job_id inserted)) [
            | none ↦ (
              throw (
                  error
                    ("Failed to create job attempt for job " +++ number_to_string input.job_id)),
              inserted,
            )
            | some row ↦ (ok (map_attempt row), inserted)
          ]
    ]

unfoldable pub list_job_attempts : ℕ → Db → List JobAttemptRecord
list_job_attempts job_id db = map map_attempt (select_attempts job_id db)
