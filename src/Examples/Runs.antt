-- ===== src/Examples/Runs.antt =====
-- The theorems on the runner, with an oracle client that answers at once.
use personal_carbon_footprin.Prelude.{
  IsByte, ℕ, ◌+◌, ◌*◌, ◌≤◌, min, some, none, ◌≡◌, ◌⊎◌, refl, true, false, List, [], ◌∷◌, All, ok,
  arith,
}
use personal_carbon_footprin.Storage.{ClaimedOracleJob}
use personal_carbon_footprin.Db.Tables.{Db, normalize_oracle_job_input, map_oracle_job}
use personal_carbon_footprin.Db.Views.{is_locked}
use personal_carbon_footprin.Db.Claiming.{claimed_job}
use personal_carbon_footprin.Db.Locks.{cleared, locked_db}
use personal_carbon_footprin.Jobs.Errors.{default_backoff_ms}
use personal_carbon_footprin.Jobs.Errors.Backoff.{default_backoff_ms_lem}
use personal_carbon_footprin.Jobs.Runner.{
  Runner, World, with_db, tick, runner_lock, dispatch_job, execute_claimed_job, run_due_jobs,
}
use personal_carbon_footprin.Jobs.Runner.Execution.{
  IsSettled, IsPolite, settled_status, execute_claimed_job-IsSettled,
}
use personal_carbon_footprin.Jobs.Runner.Locking.{RunEnds, run_due_jobs_lem}
use personal_carbon_footprin.Examples.Stores.{
  a_job, one_job, one_running, one_running-running, runner_lock-apart, one_job-IsSound,
  one_running-IsSound,
}

abbrev a_runner : Runner
a_runner = record {
  now = λ n. 100 + n;
  others = λ n db. db;
  new_public_key = λ text. some (record { base58 = text });
  submit_verified_footprint_job_call = λ n payload. ok "submitted";
  sync_sbt_state_call = λ n payload. ok "synced";
  fund_treasury_call = λ n amount. ok "funded";
  prepare_metadata_sync = none;
  worker_id = "worker";
  runner_lock_key = "oracle-job-runner";
  runner_lock_duration_ms = 30000;
  job_lock_duration_ms = 60000;
  backoff_ms = λ attempt_number job. default_backoff_ms attempt_number;
}

a_runner-IsPolite : IsPolite a_runner
a_runner-IsPolite n db sound = (sound, λ id runs. runs)

abbrev the_claim : ClaimedOracleJob
the_claim = claimed_job (normalize_oracle_job_input 1 a_job) "worker" 10

abbrev at : Db → World
at db = record { db = db; events = 0 }

execute_claimed_job-IsSettled_example :
    let (result, after) = execute_claimed_job a_runner the_claim (at one_running) in
    IsSettled the_claim.id (settled_status (dispatch_job a_runner 1 the_claim.job)) result after
unfolding normalize_oracle_job_input map_oracle_job
execute_claimed_job-IsSettled_example =
    execute_claimed_job-IsSettled a_runner the_claim (at one_running) one_running-IsSound refl
      one_running-running a_runner-IsPolite

run_due_jobs_lem_example :
    let held =
      is_locked "oracle-job-runner" (cleared (runner_lock a_runner (at one_job)) one_job) in
    ((held ≡ true)
      × (run_due_jobs a_runner 5 (at one_job) ≡ (
        ok [],
        with_db (tick (at one_job)) (cleared (runner_lock a_runner (at one_job)) one_job),
      )))
    ⊎ ((held ≡ false)
        × let (result, after) = run_due_jobs a_runner 5 (at one_job) in
          let start =
            locked_db
              (runner_lock a_runner (at one_job))
              (cleared (runner_lock a_runner (at one_job)) one_job) in
          RunEnds a_runner (with_db (tick (at one_job)) start) 5 result after)
run_due_jobs_lem_example =
    run_due_jobs_lem a_runner 5 (at one_job) one_job-IsSound runner_lock-apart a_runner-IsPolite

default_backoff_ms_lem_example :
    (default_backoff_ms 1 ≡ 1000)
    × (default_backoff_ms 5 ≡ min 60000 (2 * default_backoff_ms 4))
    × (1000 ≤ default_backoff_ms 3)
    × (default_backoff_ms 3 ≤ 60000)
default_backoff_ms_lem_example = default_backoff_ms_lem 3

-- A hash whose bytes are all 171.
abbrev a_hash : List ℕ
a_hash =
    171 ∷ 171 ∷ 171 ∷ 171 ∷ 171 ∷ 171 ∷ 171 ∷ 171 ∷ 171 ∷ 171 ∷ 171 ∷ 171 ∷ 171 ∷ 171 ∷ 171 ∷ 171
    ∷ 171 ∷ 171 ∷ 171 ∷ 171 ∷ 171 ∷ 171 ∷ 171 ∷ 171 ∷ 171 ∷ 171 ∷ 171 ∷ 171 ∷ 171 ∷ 171 ∷ 171 ∷ 171
    ∷ []

a_hash-IsByte : All IsByte a_hash
a_hash-IsByte = ground arith
