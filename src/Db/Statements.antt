-- ===== src/Db/Statements.antt =====
-- backend/src/db/index.ts: the prepared statements of `createStateStore`, each a function of the
-- tables. A statement that breaks a constraint throws and changes nothing.
use personal_carbon_footprin.Prelude.{
  ℕ, suc, String, Bool, true, false, not, ◌&&◌, ◌||◌, Option, none, some, List, [], ◌∷◌, ◌++◌, max,
  ltb, leb, ◌==◌, str_eq, if◌then◌else◌, find_where, select_where, update_where, delete_where,
  exists_where, JsError, error, Outcome, ok, throw,
}
use personal_carbon_footprin.Storage.{OracleJobStatus, JobAttemptOutcome, OracleJobInput}
use personal_carbon_footprin.Db.Tables.{
  NonceRow, OracleJobRow, AttemptRow, LockRow, Db, normalize_oracle_job_input,
}

-- The errors of better-sqlite3: "UNIQUE constraint failed: " and the column.
abbrev pub nonce_taken : JsError
nonce_taken = error "UNIQUE constraint failed: used_nonces.nonce"

abbrev pub idempotency_key_taken : JsError
idempotency_key_taken = error "UNIQUE constraint failed: oracle_jobs.idempotency_key"

abbrev pub lock_key_taken : JsError
lock_key_taken = error "UNIQUE constraint failed: service_locks.lock_key"

abbrev pub attempt_taken : JsError
attempt_taken = error "UNIQUE constraint failed: job_attempts.job_id, job_attempts.attempt_number"

abbrev pub job_missing : JsError
job_missing = error "FOREIGN KEY constraint failed"

abbrev pub has_nonce : String → NonceRow → Bool
has_nonce nonce row = str_eq row.nonce nonce

unfoldable pub insert_nonce : NonceRow → Db → Outcome Db
insert_nonce row db =
    if exists_where (has_nonce row.nonce) db.used_nonces
    then throw nonce_taken
    else ok (record db { used_nonces = db.used_nonces ++ row ∷ [] })

unfoldable pub select_nonce : String → Db → Option NonceRow
select_nonce nonce db = find_where (has_nonce nonce) db.used_nonces

abbrev pub has_id : ℕ → OracleJobRow → Bool
has_id id row = row.id == id

abbrev pub has_idempotency_key : String → OracleJobRow → Bool
has_idempotency_key key row = str_eq row.idempotency_key key

-- With the new row's id, `lastInsertRowid`.
unfoldable pub insert_oracle_job : OracleJobInput → Db → Outcome (ℕ × Db)
insert_oracle_job input db =
    let id = suc db.job_sequence in
    if exists_where (has_idempotency_key input.idempotency_key) db.oracle_jobs
    then throw idempotency_key_taken
    else ok (
      id,
      record db {
        oracle_jobs = db.oracle_jobs ++ normalize_oracle_job_input id input ∷ [];
        job_sequence = id;
      },
    )

unfoldable pub select_oracle_job_by_id : ℕ → Db → Option OracleJobRow
select_oracle_job_by_id id db = find_where (has_id id) db.oracle_jobs

unfoldable pub select_oracle_job_by_idempotency_key : String → Db → Option OracleJobRow
select_oracle_job_by_idempotency_key key db = find_where (has_idempotency_key key) db.oracle_jobs

-- `status IN ('pending', 'retryable')`.
abbrev pub is_waiting : OracleJobStatus → Bool
is_waiting OracleJobStatus.pending = true
is_waiting OracleJobStatus.retryable = true
is_waiting _ = false

abbrev pub is_claimable : ℕ → OracleJobRow → Bool
is_claimable now_ms row = is_waiting row.status && leb row.run_after_ms now_ms

-- `ORDER BY created_at_ms ASC, id ASC`.
abbrev pub before : OracleJobRow → OracleJobRow → Bool
before a b =
    ltb a.created_at_ms b.created_at_ms || (a.created_at_ms == b.created_at_ms && ltb a.id b.id)

abbrev pub sooner : OracleJobRow → Option OracleJobRow → OracleJobRow
sooner a none = a
sooner a (some b) = if before b a then b else a

-- `ORDER BY … LIMIT 1`.
unfoldable pub first_in_order : List OracleJobRow → Option OracleJobRow
first_in_order [] = none
first_in_order (row ∷ rows) = some (sooner row (first_in_order rows))

unfoldable pub select_claimable_job : ℕ → Db → Option OracleJobRow
select_claimable_job now_ms db = first_in_order (select_where (is_claimable now_ms) db.oracle_jobs)

unfoldable pub select_claimable_job_by_id : ℕ → ℕ → Db → Option OracleJobRow
select_claimable_job_by_id id now_ms db =
    find_where (λ row. has_id id row && is_claimable now_ms row) db.oracle_jobs

abbrev pub update_job : ℕ → (OracleJobRow → OracleJobRow) → Db → Db
update_job id change db = record db { oracle_jobs = update_where (has_id id) change db.oracle_jobs }

abbrev pub set_claimed : String → ℕ → OracleJobRow → OracleJobRow
set_claimed worker_id now_ms row = record row {
  status = OracleJobStatus.running;
  claimed_by = some worker_id;
  claimed_at_ms = some now_ms;
  updated_at_ms = now_ms;
}

unfoldable pub update_claimed_job : String → ℕ → ℕ → Db → Db
update_claimed_job worker_id now_ms job_id = update_job job_id (set_claimed worker_id now_ms)

abbrev pub has_lock_key : String → LockRow → Bool
has_lock_key key row = str_eq row.lock_key key

unfoldable pub insert_lock : LockRow → Db → Outcome Db
insert_lock row db =
    if exists_where (has_lock_key row.lock_key) db.service_locks
    then throw lock_key_taken
    else ok (record db { service_locks = db.service_locks ++ row ∷ [] })

unfoldable pub delete_expired_lock : String → ℕ → Db → Db
delete_expired_lock key now_ms db = record db {
  service_locks =
      delete_where (λ row. has_lock_key key row && leb row.expires_at_ms now_ms) db.service_locks;
}

unfoldable pub select_lock : String → Db → Option LockRow
select_lock key db = find_where (has_lock_key key) db.service_locks

unfoldable pub delete_lock : String → Db → Db
delete_lock key db = record db { service_locks = delete_where (has_lock_key key) db.service_locks }

abbrev pub of_job : ℕ → AttemptRow → Bool
of_job job_id row = row.job_id == job_id

abbrev pub is_attempt : ℕ → ℕ → AttemptRow → Bool
is_attempt job_id number row = row.job_id == job_id && row.attempt_number == number

abbrev pub new_attempt : ℕ → ℕ → ℕ → ℕ → AttemptRow
new_attempt id job_id attempt_number started_at_ms = record {
  id = id;
  job_id = job_id;
  attempt_number = attempt_number;
  started_at_ms = started_at_ms;
  finished_at_ms = none;
  outcome = JobAttemptOutcome.running;
  error_code = none;
  error_message = none;
  transaction_signature = none;
}

-- With the new row's id. The foreign key is checked, since `applyPragmas` turns that on.
unfoldable pub insert_attempt : ℕ → ℕ → ℕ → Db → Outcome (ℕ × Db)
insert_attempt job_id number started_at_ms db =
    let id = suc db.attempt_sequence in
    if exists_where (is_attempt job_id number) db.job_attempts
    then throw attempt_taken
    else if not (exists_where (has_id job_id) db.oracle_jobs)
    then throw job_missing
    else ok (
      id,
      record db {
        job_attempts = db.job_attempts ++ new_attempt id job_id number started_at_ms ∷ [];
        attempt_sequence = id;
      },
    )

-- `SELECT MAX(attempt_number) … WHERE job_id = …`; attempts are numbered from 1, and with no row
-- there is no attempt that the update could match.
unfoldable pub max_attempt_number : List AttemptRow → ℕ
max_attempt_number [] = 0
max_attempt_number (row ∷ rows) = max row.attempt_number (max_attempt_number rows)

-- The columns that `updateAttempt` sets.
pub record AttemptResult : Type 0 where
  pub finished_at_ms : ℕ
  pub outcome : JobAttemptOutcome
  pub error_code : Option String
  pub error_message : Option String
  pub transaction_signature : Option String

abbrev pub set_result : AttemptResult → AttemptRow → AttemptRow
set_result result row = record row {
  finished_at_ms = some result.finished_at_ms;
  outcome = result.outcome;
  error_code = result.error_code;
  error_message = result.error_message;
  transaction_signature = result.transaction_signature;
}

unfoldable pub update_attempt : ℕ → AttemptResult → Db → Db
update_attempt job_id result db =
    let last = max_attempt_number (select_where (of_job job_id) db.job_attempts) in
    record db {
      job_attempts = update_where (is_attempt job_id last) (set_result result) db.job_attempts;
    }

-- `ORDER BY attempt_number ASC`, by insertion.
unfoldable pub insert_in_order : AttemptRow → List AttemptRow → List AttemptRow
insert_in_order row [] = row ∷ []
insert_in_order row (other ∷ rows) =
    let later = other ∷ insert_in_order row rows in
    if leb row.attempt_number other.attempt_number then row ∷ other ∷ rows else later

unfoldable pub order_by_attempt_number : List AttemptRow → List AttemptRow
order_by_attempt_number [] = []
order_by_attempt_number (row ∷ rows) = insert_in_order row (order_by_attempt_number rows)

unfoldable pub select_attempts : ℕ → Db → List AttemptRow
select_attempts job_id db = order_by_attempt_number (select_where (of_job job_id) db.job_attempts)

abbrev pub set_completed : ℕ → OracleJobRow → OracleJobRow
set_completed finished_at_ms row = record row {
  status = OracleJobStatus.completed;
  completed_at_ms = some finished_at_ms;
  updated_at_ms = finished_at_ms;
  last_error_code = none;
  last_error_message = none;
}

unfoldable pub update_job_completed : ℕ → ℕ → Db → Db
update_job_completed job_id finished_at_ms = update_job job_id (set_completed finished_at_ms)

abbrev pub set_failed : OracleJobStatus → ℕ → ℕ → String → String → OracleJobRow → OracleJobRow
set_failed status run_after_ms finished_at_ms code message row = record row {
  status = status;
  run_after_ms = run_after_ms;
  updated_at_ms = finished_at_ms;
  last_error_code = some code;
  last_error_message = some message;
}

unfoldable pub update_job_failed : ℕ → OracleJobStatus → ℕ → ℕ → String → String → Db → Db
update_job_failed job_id status run_after_ms finished_at_ms code message =
    update_job job_id (set_failed status run_after_ms finished_at_ms code message)
