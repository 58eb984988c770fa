-- ===== src/Examples/Claims.antt =====
-- The theorems on the store, at the store with one job.
use personal_carbon_footprin.Prelude.{
  ℕ, suc, ◌+◌, some, none, ◌≡◌, ◌≢◌, ◌⊎◌, refl, true, false, [], ◌∷◌, Memᴰ, if◌then◌else◌, leb, ok,
  throw, error, ◌+++◌, is_some, exists_where, find_where, delete_where,
}
use personal_carbon_footprin.Storage.{
  running, completed, failed, ClaimedOracleJob, ReserveNonceInput, JobAttemptStartInput,
  AcquireServiceLockInput,
}
use personal_carbon_footprin.Db.Tables.{
  Db, OracleJobRow, migrated, job_lock_key, map_oracle_job, map_attempt, map_lock,
  normalize_oracle_job_input,
}
use personal_carbon_footprin.Db.Statements.{
  set_completed, select_oracle_job_by_id, idempotency_key_taken, nonce_taken, attempt_taken,
  job_missing, is_attempt, has_id, select_nonce, new_attempt, delete_expired_lock, insert_lock,
  select_lock,
}
use personal_carbon_footprin.Db.Store.{
  claim_pending_job, claim_oracle_job_by_id, complete_oracle_job, fail_oracle_job,
  enqueue_oracle_job, start_job_attempt, reserve_nonce, find_nonce, acquire_service_lock,
  release_lock, find_oracle_job_by_id, find_oracle_job_by_idempotency_key,
}
use personal_carbon_footprin.Db.Views.{status_of, is_running}
use personal_carbon_footprin.Db.Invariant.{Inv, migrated-Inv}
use personal_carbon_footprin.Db.Claiming.{
  IsDue, IsNext, claimed_db, claimed_job, claim_pending_job-IsNext,
}
use personal_carbon_footprin.Db.Keeps.{inserted_job}
use personal_carbon_footprin.Db.Finishing.{
  completed_db, failed_db, failed_change, complete_oracle_job_lem, fail_oracle_job_lem,
}
use personal_carbon_footprin.Db.Enqueueing.{new_job, enqueue_oracle_job_lem}
use personal_carbon_footprin.Db.Attempts.{started_attempt, started_db, start_job_attempt_lem}
use personal_carbon_footprin.Db.Locks.{lock_record, acquire_excludes, release_lock_unowned}
use personal_carbon_footprin.Db.Trace.{enqueue, claim, claim_by_id, complete, run_calls}
use personal_carbon_footprin.Db.Trace.Lives.{
  ◌⟶*◌, run_calls-Inv, run_calls-⟶*, run_calls-final, run_calls-running, claim_excludes,
}
use personal_carbon_footprin.Db.Trace.Nonces.{reserve_nonce_once}
use personal_carbon_footprin.Examples.Stores.{
  a_job, one_job, one_running, one_job-Inv, one_running-Inv, completion, failing,
  one_running-running,
}

run_calls-Inv_example : Inv (run_calls (enqueue a_job ∷ claim "worker" 10 1000 ∷ []) migrated)
run_calls-Inv_example =
    run_calls-Inv (enqueue a_job ∷ claim "worker" 10 1000 ∷ []) migrated (tt, (tt, tt)) migrated-Inv

run_calls-⟶*_example :
    status_of 1 one_running ⟶* status_of 1 (run_calls (complete completion ∷ []) one_running)
run_calls-⟶*_example =
    run_calls-⟶* (complete completion ∷ []) one_running (refl, tt) one_running-Inv 1

run_calls-final_example :
    let after = run_calls (claim "other" 5000 1000 ∷ []) one_running in
    ((status_of 1 one_running ≡ some completed) → status_of 1 after ≡ some completed)
    × ((status_of 1 one_running ≡ some failed) → status_of 1 after ≡ some failed)
run_calls-final_example =
    run_calls-final (claim "other" 5000 1000 ∷ []) one_running 1 (tt, tt) one_running-Inv

-- Long after its lock has expired, the job still runs.
run_calls-running_example :
    status_of 1
      (run_calls (claim "other" 5000 1000 ∷ claim_by_id 1 "other" 6000 1000 ∷ []) one_running)
    ≡ some running
run_calls-running_example =
    run_calls-running (claim "other" 5000 1000 ∷ claim_by_id 1 "other" 6000 1000 ∷ []) one_running 1
      (tt, (tt, tt)) ((λ e. cc), ((λ e. cc), tt)) one_running-Inv one_running-running

abbrev a_claim : ClaimedOracleJob
a_claim = claimed_job (normalize_oracle_job_input 1 a_job) "other" 5000

claim_excludes_example :
    ((claim_pending_job "other" 5000 1000 one_running).0 ≡ some a_claim → a_claim.id ≢ 1)
    × ((claim_oracle_job_by_id 1 "other" 5000 1000 one_running).0 ≡ none)
claim_excludes_example =
    claim_excludes one_running 1 "other" 5000 1000 a_claim one_running-Inv one_running-running

claim_pending_job-IsNext_example :
    ((claim_pending_job "worker" 10 1000 one_job ≡ (none, one_job))
      × ((row : OracleJobRow) → Memᴰ row one_job.oracle_jobs → ¬ IsDue 10 row))
    ⊎ ((row : OracleJobRow) × IsNext 10 one_job row
        × (claim_pending_job "worker" 10 1000 one_job
            ≡ (some (claimed_job row "worker" 10), claimed_db row "worker" 10 1000 one_job)))
claim_pending_job-IsNext_example = claim_pending_job-IsNext "worker" 10 1000 one_job one_job-Inv

complete_oracle_job_lem_example :
    ((is_running 1 one_running ≡ true)
      × ((row : OracleJobRow) × (select_oracle_job_by_id 1 one_running ≡ some row)
          × (complete_oracle_job completion one_running
              ≡ (ok (map_oracle_job (set_completed 20 row)), completed_db completion one_running))))
    ⊎ ((is_running 1 one_running ≡ false)
        × (complete_oracle_job completion one_running
            ≡ (throw (error ("Missing lock for " +++ job_lock_key 1)), one_running)))
complete_oracle_job_lem_example =
    complete_oracle_job_lem completion one_running one_running-Inv refl

fail_oracle_job_lem_example :
    ((is_running 1 one_running ≡ true)
      × ((row : OracleJobRow) × (select_oracle_job_by_id 1 one_running ≡ some row)
          × (fail_oracle_job failing one_running
              ≡ (ok (map_oracle_job (failed_change failing row)), failed_db failing one_running))))
    ⊎ ((is_running 1 one_running ≡ false)
        × (fail_oracle_job failing one_running
            ≡ (throw (error ("Missing lock for " +++ job_lock_key 1)), one_running)))
fail_oracle_job_lem_example = fail_oracle_job_lem failing one_running one_running-Inv refl

enqueue_oracle_job_lem_example :
    (is_some (find_oracle_job_by_idempotency_key "fund:1" one_job) ≡ true)
      × (enqueue_oracle_job a_job one_job ≡ (throw idempotency_key_taken, one_job))
    ⊎ (find_oracle_job_by_idempotency_key "fund:1" one_job ≡ none)
      × (enqueue_oracle_job a_job one_job
          ≡ (ok (new_job a_job one_job), inserted_job a_job one_job))
      × (find_oracle_job_by_id (suc one_job.job_sequence) (inserted_job a_job one_job)
          ≡ some (new_job a_job one_job))
      × (find_oracle_job_by_idempotency_key "fund:1" (inserted_job a_job one_job)
          ≡ some (new_job a_job one_job))
enqueue_oracle_job_lem_example = enqueue_oracle_job_lem a_job one_job one_job-Inv

abbrev an_attempt : JobAttemptStartInput
an_attempt = record { job_id = 1; attempt_number = 1; started_at_ms = 10 }

start_job_attempt_lem_example : start_job_attempt an_attempt one_running ≡ (
    if exists_where (is_attempt 1 1) one_running.job_attempts
    then (throw attempt_taken, one_running)
    else if exists_where (has_id 1) one_running.oracle_jobs
    then (
      ok (map_attempt (started_attempt an_attempt one_running)),
      started_db an_attempt one_running,
    )
    else (throw job_missing, one_running))
start_job_attempt_lem_example = start_job_attempt_lem an_attempt one_running one_running-Inv

abbrev attempted : Db
attempted = record migrated { job_attempts = new_attempt 1 1 1 10 ∷ []; attempt_sequence = 1 }

abbrev seven : ℕ
seven = 7

abbrev a_nonce : ReserveNonceInput
a_nonce = record {
  nonce = "n";
  issuer = "i";
  audience = "a";
  subject = "s";
  expires_at_ms = 100;
  reserved_at_ms = 1;
}

reserve_nonce_once_example :
    let later = run_calls (enqueue a_job ∷ []) (reserve_nonce a_nonce migrated).1 in
    (reserve_nonce a_nonce later ≡ (throw nonce_taken, later))
    × (find_nonce "n" later ≡ some a_nonce)
unfolding find_nonce select_nonce find_where
reserve_nonce_once_example =
    reserve_nonce_once a_nonce a_nonce (enqueue a_job ∷ []) migrated refl refl

abbrev service_lock : ℕ → AcquireServiceLockInput
service_lock now_ms = record {
  lock_key = "runner";
  owner_id = "worker";
  acquired_at_ms = now_ms;
  expires_at_ms = now_ms + 100;
}

first_acquired :
    (acquire_service_lock (service_lock 0) migrated).0 ≡ some (lock_record (service_lock 0))
unfolding acquire_service_lock delete_expired_lock insert_lock exists_where delete_where select_lock
    find_where map_lock
first_acquired = refl

acquire_excludes_example :
    (acquire_service_lock (service_lock 50) (acquire_service_lock (service_lock 0) migrated).1).0
    ≡ (if leb 100 50 then some (lock_record (service_lock 50)) else none)
acquire_excludes_example =
    acquire_excludes (service_lock 0) (service_lock 50) migrated first_acquired refl

release_lock_unowned_example :
    (acquire_service_lock
      (service_lock 50)
      (release_lock "runner" (acquire_service_lock (service_lock 0) migrated).1)).0
    ≡ some (lock_record (service_lock 50))
release_lock_unowned_example = release_lock_unowned (service_lock 0) (service_lock 50) migrated refl
