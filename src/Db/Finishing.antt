-- ===== src/Db/Finishing.antt =====
-- backend/src/db/index.ts: the transactions that finish a job, `completeOracleJob` and
-- `failOracleJob`, called with the job's own lock key.
use personal_carbon_footprin.Prelude.{
  ℕ, String, ◌+++◌, some, none, ◌≡◌, refl, sym, ap, ◌∙◌, ◌⊎◌, inl, inr, true, false, arith,
  Option-cases, ==_refl, if◌then◌else◌, is_some, or_else, exists_where-find_where, ok, throw, error,
}
use personal_carbon_footprin.Storage.{
  OracleJobStatus, JobAttemptOutcome, CompleteOracleJobInput, FailOracleJobInput,
}
use personal_carbon_footprin.Db.Tables.{OracleJobRow, Db, job_lock_key, map_oracle_job}
use personal_carbon_footprin.Db.Statements.{
  has_lock_key, select_oracle_job_by_id, select_lock, set_completed, set_failed, update_job,
  update_job_completed, update_job_failed, AttemptResult, update_attempt, delete_lock,
}
use personal_carbon_footprin.Db.Store.{commit_job, complete_oracle_job, fail_oracle_job}
use personal_carbon_footprin.Db.Views.{status_of, is_running, is_locked, select-update}
use personal_carbon_footprin.Db.Invariant.{Inv}
use personal_carbon_footprin.Db.Transitions.{finished_db}

abbrev pub completed_result : CompleteOracleJobInput → AttemptResult
completed_result input = record {
  finished_at_ms = input.finished_at_ms;
  outcome = JobAttemptOutcome.completed;
  error_code = none;
  error_message = none;
  transaction_signature = input.transaction_signature;
}

abbrev pub next_status : FailOracleJobInput → OracleJobStatus
next_status input = if input.retryable then OracleJobStatus.retryable else OracleJobStatus.failed

abbrev pub failed_change : FailOracleJobInput → OracleJobRow → OracleJobRow
failed_change input =
    set_failed (next_status input) (or_else input.next_run_after_ms input.finished_at_ms)
      input.finished_at_ms input.error_code input.error_message

abbrev pub failed_result : FailOracleJobInput → AttemptResult
failed_result input = record {
  finished_at_ms = input.finished_at_ms;
  outcome = if input.retryable then JobAttemptOutcome.retryable else JobAttemptOutcome.failed;
  error_code = some input.error_code;
  error_message = some input.error_message;
  transaction_signature = none;
}

abbrev pub completed_db : CompleteOracleJobInput → Db → Db
completed_db input =
    finished_db input.job_id (set_completed input.finished_at_ms) (completed_result input)

abbrev pub failed_db : FailOracleJobInput → Db → Db
failed_db input = finished_db input.job_id (failed_change input) (failed_result input)

running_row :
    (id : ℕ) (db : Db)
    → is_running id db ≡ true
    → (row : OracleJobRow) × (select_oracle_job_by_id id db ≡ some row)
unfolding status_of
running_row id db h = ground arith

-- A job's lock is there exactly while the job runs.
lock_of_running :
    (id : ℕ) (db : Db) → Inv db → is_some (select_lock (job_lock_key id) db) ≡ is_running id db
unfolding select_lock
lock_of_running id db inv =
    sym (exists_where-find_where (has_lock_key (job_lock_key id)) db.service_locks)
    ∙ unfold is_locked in inv.locks_match id

commit_job-finished :
    (id : ℕ) (change : OracleJobRow → OracleJobRow) (result : AttemptResult) (old db : Db)
    (row : OracleJobRow)
    → ((r : OracleJobRow) → (change r).id ≡ r.id)
    → select_oracle_job_by_id id db ≡ some row
    → commit_job id old (finished_db id change result db)
      ≡ (ok (map_oracle_job (change row)), finished_db id change result db)
unfolding commit_job
commit_job-finished id change result old db row keeps found =
    let same : select_oracle_job_by_id id (finished_db id change result db)
        ≡ select_oracle_job_by_id id (update_job id change db) =
      unfold select_oracle_job_by_id delete_lock update_attempt in refl in
    rw (same, commit_job) (rw (select-update change id id db keeps, ==_refl id, found) refl)

commit_job-own_key :
    (key : String) (id : ℕ) (change : OracleJobRow → OracleJobRow) (result : AttemptResult)
    (db : Db) (row : OracleJobRow)
    → ((r : OracleJobRow) → (change r).id ≡ r.id)
    → key ≡ job_lock_key id
    → select_oracle_job_by_id id db ≡ some row
    → commit_job id db (delete_lock key (update_attempt id result (update_job id change db)))
      ≡ (ok (map_oracle_job (change row)), finished_db id change result db)
commit_job-own_key key id change result db row keeps own found =
    ap (λ k. commit_job id db (delete_lock k (update_attempt id result (update_job id change db))))
      own
    ∙ commit_job-finished id change result db db row keeps found

running-lock :
    (key : String) (id : ℕ) (db : Db)
    → Inv db
    → key ≡ job_lock_key id
    → is_running id db ≡ is_some (select_lock key db)
running-lock key id db inv own =
    sym (lock_of_running id db inv) ∙ ap (λ k. is_some (select_lock k db)) (sym own)

-- In a consistent store, completing a job that runs, under its own lock, records it as completed; completing any other
-- job throws and changes nothing.
pub complete_oracle_job_lem :
    (input : CompleteOracleJobInput) (db : Db)
    → Inv db
    → input.lock_key ≡ job_lock_key input.job_id
    → ((is_running input.job_id db ≡ true)
        × ((row : OracleJobRow) × (select_oracle_job_by_id input.job_id db ≡ some row)
            × (complete_oracle_job input db ≡ (
              ok (map_oracle_job (set_completed input.finished_at_ms row)),
              completed_db input db,
            ))))
      ⊎ ((is_running input.job_id db ≡ false)
          × (complete_oracle_job input db
              ≡ (throw (error ("Missing lock for " +++ input.lock_key)), db)))
unfolding complete_oracle_job update_job_completed
complete_oracle_job_lem input db inv own =
    let runs = running-lock input.lock_key input.job_id db inv own in
    elim (Option-cases (select_lock input.lock_key db)) [
      | inl e ↦ inr (runs ∙ ap is_some e, rw (e, complete_oracle_job) refl)
      | inr (lock, e) ↦
          let running : is_running input.job_id db ≡ true = runs ∙ ap is_some e in
          let (row, found) = running_row input.job_id db running in
          inl (
            running,
            (
              row,
              found,
              rw (e, complete_oracle_job)
                  (commit_job-own_key input.lock_key input.job_id
                    (set_completed input.finished_at_ms) (completed_result input) db row (λ r. refl)
                    own found),
            ),
          )
    ]

-- In a consistent store, failing a job that runs, under its own lock, records it as retryable or failed, with the time
-- of the next run; failing any other job throws and changes nothing.
pub fail_oracle_job_lem :
    (input : FailOracleJobInput) (db : Db)
    → Inv db
    → input.lock_key ≡ job_lock_key input.job_id
    → ((is_running input.job_id db ≡ true)
        × ((row : OracleJobRow) × (select_oracle_job_by_id input.job_id db ≡ some row)
            × (fail_oracle_job input db
                ≡ (ok (map_oracle_job (failed_change input row)), failed_db input db))))
      ⊎ ((is_running input.job_id db ≡ false)
          × (fail_oracle_job input db
              ≡ (throw (error ("Missing lock for " +++ input.lock_key)), db)))
unfolding fail_oracle_job update_job_failed
fail_oracle_job_lem input db inv own =
    let runs = running-lock input.lock_key input.job_id db inv own in
    elim (Option-cases (select_lock input.lock_key db)) [
      | inl e ↦ inr (runs ∙ ap is_some e, rw (e, fail_oracle_job) refl)
      | inr (lock, e) ↦
          let running : is_running input.job_id db ≡ true = runs ∙ ap is_some e in
          let (row, found) = running_row input.job_id db running in
          inl (
            running,
            (
              row,
              found,
              rw (e, fail_oracle_job)
                  (commit_job-own_key input.lock_key input.job_id (failed_change input)
                    (failed_result input) db row (λ r. refl) own found),
            ),
          )
    ]
