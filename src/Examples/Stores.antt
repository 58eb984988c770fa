-- ===== src/Examples/Stores.antt =====
-- backend/src/db/index.ts: stores with one job, before and while it runs.
use mathlib.Core.Path.{subst}
use text.Mathlib.TextPositions.{starts_with_of_prefix}
use personal_carbon_footprin.Prelude.{
  ℕ, some, none, ◌≡◌, ◌≢◌, sym, refl, true, [], ◌∷◌, number_to_string, exists_where, find_where,
  update_where, delete_where, select_where,
}
use personal_carbon_footprin.Storage.{
  OracleJobInput, CompleteOracleJobInput, FailOracleJobInput, fund_treasury, pending, running,
  completed,
}
use personal_carbon_footprin.Db.Statements.{
  select_oracle_job_by_id, insert_oracle_job, select_claimable_job_by_id, update_claimed_job,
  insert_lock, delete_expired_lock, update_job_completed, update_attempt, delete_lock, select_lock,
  of_job, max_attempt_number,
}
use personal_carbon_footprin.Db.Store.{
  enqueue_oracle_job, claim_oracle_job_by_id, claim_row, complete_oracle_job, commit_job,
}
use personal_carbon_footprin.Db.Views.{status_of}
use personal_carbon_footprin.Db.Tables.{Db, migrated, job_lock_key, normalize_oracle_job_input}
use personal_carbon_footprin.Db.Invariant.{Inv, migrated-Inv}
use personal_carbon_footprin.Db.Numbering.{Counted}
use personal_carbon_footprin.Db.Numbering.Keeps.{AllNumbered}
use personal_carbon_footprin.Jobs.Runner.Execution.{IsSound}
use personal_carbon_footprin.Db.Trace.{enqueue, claim_by_id, complete, apply, run_calls}
use personal_carbon_footprin.Db.Trace.Lives.{run_calls-Inv}

abbrev pub a_job : OracleJobInput
a_job = record {
  kind = fund_treasury;
  idempotency_key = "fund:1";
  user_pubkey = none;
  user_profile_pubkey = none;
  period_key = none;
  commitment_hash = none;
  metadata_uri_hash = none;
  metadata_version = none;
  source_kind = none;
  emission_delta_grams = none;
  reduction_delta_grams = none;
  reward_delta_lamports = none;
  amount_lamports = some 500;
  run_after_ms = 5;
  created_at_ms = 5;
}

-- The store after one job is enqueued, and after it is claimed.
abbrev pub one_job : Db
one_job = run_calls (enqueue a_job ∷ []) migrated

abbrev pub one_running : Db
one_running = run_calls (claim_by_id 1 "worker" 10 1000 ∷ []) one_job

-- What completes the job.
abbrev pub completion : CompleteOracleJobInput
completion = record {
  job_id = 1;
  lock_key = job_lock_key 1;
  finished_at_ms = 20;
  transaction_signature = some "signature";
}

abbrev pub failing : FailOracleJobInput
failing = record {
  job_id = 1;
  lock_key = job_lock_key 1;
  finished_at_ms = 20;
  next_run_after_ms = some 40;
  error_code = "rpc_timeout";
  error_message = "timeout";
  retryable = true;
}

pub one_job-Inv : Inv one_job
one_job-Inv = run_calls-Inv (enqueue a_job ∷ []) migrated (tt, tt) migrated-Inv

pub one_running-Inv : Inv one_running
one_running-Inv = run_calls-Inv (claim_by_id 1 "worker" 10 1000 ∷ []) one_job (tt, tt) one_job-Inv

one_job-pending : status_of 1 one_job ≡ some pending
unfolding run_calls apply status_of select_oracle_job_by_id enqueue_oracle_job insert_oracle_job
    claim_oracle_job_by_id select_claimable_job_by_id claim_row update_claimed_job insert_lock
    delete_expired_lock job_lock_key number_to_string normalize_oracle_job_input exists_where
    find_where update_where delete_where select_where complete_oracle_job commit_job
    update_job_completed update_attempt delete_lock select_lock max_attempt_number
one_job-pending = refl

-- The job runs once it is claimed.
pub one_running-running : status_of 1 one_running ≡ some running
unfolding run_calls apply status_of select_oracle_job_by_id enqueue_oracle_job insert_oracle_job
    claim_oracle_job_by_id select_claimable_job_by_id claim_row update_claimed_job insert_lock
    delete_expired_lock job_lock_key number_to_string normalize_oracle_job_input exists_where
    find_where update_where delete_where select_where complete_oracle_job commit_job
    update_job_completed update_attempt delete_lock select_lock max_attempt_number
one_running-running = refl

pub one_running-completed :
    status_of 1 (run_calls (complete completion ∷ []) one_running) ≡ some completed
unfolding run_calls apply status_of select_oracle_job_by_id enqueue_oracle_job insert_oracle_job
    claim_oracle_job_by_id select_claimable_job_by_id claim_row update_claimed_job insert_lock
    delete_expired_lock job_lock_key number_to_string normalize_oracle_job_input exists_where
    find_where update_where delete_where select_where complete_oracle_job commit_job
    update_job_completed update_attempt delete_lock select_lock max_attempt_number
one_running-completed = refl

-- No attempt has been made in either store.
one_job-attempts : one_job.job_attempts ≡ []
unfolding run_calls apply status_of select_oracle_job_by_id enqueue_oracle_job insert_oracle_job
    claim_oracle_job_by_id select_claimable_job_by_id claim_row update_claimed_job insert_lock
    delete_expired_lock job_lock_key number_to_string normalize_oracle_job_input exists_where
    find_where update_where delete_where select_where complete_oracle_job commit_job
    update_job_completed update_attempt delete_lock select_lock max_attempt_number
one_job-attempts = refl

one_running-attempts : one_running.job_attempts ≡ []
unfolding run_calls apply status_of select_oracle_job_by_id enqueue_oracle_job insert_oracle_job
    claim_oracle_job_by_id select_claimable_job_by_id claim_row update_claimed_job insert_lock
    delete_expired_lock job_lock_key number_to_string normalize_oracle_job_input exists_where
    find_where update_where delete_where select_where complete_oracle_job commit_job
    update_job_completed update_attempt delete_lock select_lock max_attempt_number
one_running-attempts = refl

no_attempts-AllNumbered : (db : Db) → db.job_attempts ≡ [] → AllNumbered db
unfolding select_where
no_attempts-AllNumbered db e id =
    subst (λ rows. Counted 0 (select_where (of_job id) rows)) (sym e) tt

pub one_job-IsSound : IsSound one_job
one_job-IsSound = record {
  inv = one_job-Inv;
  numbered = no_attempts-AllNumbered one_job one_job-attempts;
}

pub one_running-IsSound : IsSound one_running
one_running-IsSound = record {
  inv = one_running-Inv;
  numbered = no_attempts-AllNumbered one_running one_running-attempts;
}

-- The runner's lock is no job's lock.
pub runner_lock-apart : (id : ℕ) → job_lock_key id ≢ "oracle-job-runner"
unfolding job_lock_key
runner_lock-apart id h =
    let begins = starts_with_of_prefix "oracle_job:" "oracle-job-runner" (number_to_string id, h) in
    cc
