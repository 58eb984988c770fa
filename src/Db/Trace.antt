-- ===== src/Db/Trace.antt =====
-- backend/src/db/index.ts: the calls that change the store as one data type, and what follows from
-- any sequence of them. Each call is one transaction, so the interleaved calls of any number of
-- workers and requests are such a sequence.
pub mod Step
pub mod Lives
pub mod Nonces
use personal_carbon_footprin.Prelude.{ℕ, String, Option, none, some, ◌≡◌, ◌≢◌, List, [], ◌∷◌}
use personal_carbon_footprin.Storage.{
  ReserveNonceInput, OracleJobInput, JobAttemptStartInput, CompleteOracleJobInput,
  FailOracleJobInput, AcquireServiceLockInput,
}
use personal_carbon_footprin.Db.Tables.{Db, job_lock_key}
use personal_carbon_footprin.Db.Store.{
  reserve_nonce, enqueue_oracle_job, claim_pending_job, claim_oracle_job_by_id, start_job_attempt,
  complete_oracle_job, fail_oracle_job, acquire_service_lock, release_lock,
}

pub data StoreCall : Type 0 where
  reserve : ReserveNonceInput → StoreCall
  enqueue : OracleJobInput → StoreCall
  claim : (worker_id : String) (now_ms lock_duration_ms : ℕ) → StoreCall
  claim_by_id : (job_id : ℕ) (worker_id : String) (now_ms lock_duration_ms : ℕ) → StoreCall
  start : JobAttemptStartInput → StoreCall
  complete : CompleteOracleJobInput → StoreCall
  fail : FailOracleJobInput → StoreCall
  acquire : AcquireServiceLockInput → StoreCall
  release : (lock_key : String) → StoreCall

unfoldable pub apply : StoreCall → Db → Db
apply (reserve input) db = (reserve_nonce input db).1
apply (enqueue input) db = (enqueue_oracle_job input db).1
apply (claim worker_id now_ms lock_duration_ms) db =
    (claim_pending_job worker_id now_ms lock_duration_ms db).1
apply (claim_by_id job_id worker_id now_ms lock_duration_ms) db =
    (claim_oracle_job_by_id job_id worker_id now_ms lock_duration_ms db).1
apply (start input) db = (start_job_attempt input db).1
apply (complete input) db = (complete_oracle_job input db).1
apply (fail input) db = (fail_oracle_job input db).1
apply (acquire input) db = (acquire_service_lock input db).1
apply (release lock_key) db = release_lock lock_key db

unfoldable pub run_calls : List StoreCall → Db → Db
run_calls [] db = db
run_calls (call ∷ calls) db = run_calls calls (apply call db)

-- How the program calls the store: a job is finished under its own lock, and the locks that are
-- acquired and released by name are never those of jobs.
abbrev pub IsDisciplined : StoreCall → Type 0
IsDisciplined (complete input) = input.lock_key ≡ job_lock_key input.job_id
IsDisciplined (fail input) = input.lock_key ≡ job_lock_key input.job_id
IsDisciplined (acquire input) = (id : ℕ) → job_lock_key id ≢ input.lock_key
IsDisciplined (release lock_key) = (id : ℕ) → job_lock_key id ≢ lock_key
IsDisciplined _ = Unit

-- The job that a call may finish.
abbrev pub finishes : StoreCall → Option ℕ
finishes (complete input) = some input.job_id
finishes (fail input) = some input.job_id
finishes _ = none
