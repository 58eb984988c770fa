-- ===== src/Jobs/Runner/Execution.antt =====
-- backend/src/modules/jobs/runner.ts: what becomes of a claimed job.
use mathlib.Core.Path.{subst}
use mathlib.Core.Option
use personal_carbon_footprin.Prelude.{
  find_where_sound, ==_iff, ℕ, suc, ◌+◌, String, some, ◌≡◌, refl, sym, ap, ◌∙◌, inl, inr, true,
  arith, length, if◌then◌else◌, ==_refl, exists_where, exists_where-find_where, Ids-append, Outcome,
  ok, throw, JsError,
}
use personal_carbon_footprin.Storage.{
  OracleJobStatus, running, retryable, failed, completed, OracleJobRecord, ClaimedOracleJob,
  CompleteOracleJobInput, FailOracleJobInput, JobAttemptStartInput,
}
use personal_carbon_footprin.Db.Tables.{Db, OracleJobRow, job_lock_key, map_oracle_job, map_attempt}
use personal_carbon_footprin.Db.Statements.{
  set_completed, has_id, select_oracle_job_by_id, AttemptResult,
}
use personal_carbon_footprin.Db.Store.{
  complete_oracle_job, fail_oracle_job, start_job_attempt, list_job_attempts, find_oracle_job_by_id,
}
use personal_carbon_footprin.Db.Views.{status_of}
use personal_carbon_footprin.Db.Invariant.{Inv, attempt_id}
use personal_carbon_footprin.Db.Transitions.{status_of-finished_db, select-finished_db, finished_db}
use personal_carbon_footprin.Db.Finishing.{
  complete_oracle_job_lem, fail_oracle_job_lem, completed_result, failed_change, failed_result,
  next_status, completed_db, failed_db,
}
use personal_carbon_footprin.Db.Attempts.{start_job_attempt_lem, started_attempt, started_db}
use personal_carbon_footprin.Db.Keeps.{Inv-attempts}
use personal_carbon_footprin.Db.Trace.Step.{complete-Goes, fail-Goes}
use personal_carbon_footprin.Db.Numbering.{IsNumbered, next_number-free}
use personal_carbon_footprin.Db.Numbering.Keeps.{
  AllNumbered, started_db-AllNumbered, finished_db-AllNumbered,
}
use personal_carbon_footprin.Jobs.Errors.{classify_job_error}
use personal_carbon_footprin.Jobs.Runner.{
  Runner, World, with_db, tick, awaited, dispatch_job, failure, success, fail_claimed_job,
  settle_claimed_job, after_start, execute_claimed_job,
}

-- The status that an attempt ends with, by what its dispatch gave.
abbrev pub settled_status : Outcome String → OracleJobStatus
settled_status (ok signature) = completed
settled_status (throw e) = if (classify_job_error e).retryable then retryable else failed

-- The job is done with: the call gives its record, which has this status and is the one that is stored.
pub record IsSettled (id : ℕ) (status : OracleJobStatus) (result : Outcome OracleJobRecord)
    (after : World) : Type 0 where
  pub job : OracleJobRecord
  pub returned : result ≡ ok job
  pub job_id : job.id ≡ id
  pub job_status : job.status ≡ status
  pub found : find_oracle_job_by_id id after.db ≡ some job
  pub stored : status_of id after.db ≡ some status
  pub inv : Inv after.db
  pub numbered : AllNumbered after.db

-- The row has this id, and looking the id up gives its record.
abbrev IsFound : ℕ → OracleJobRow → Db → Type 0
IsFound id row db = (row.id ≡ id) × (find_oracle_job_by_id id db ≡ some (map_oracle_job row))

finished-IsFound :
    (id : ℕ) (change : OracleJobRow → OracleJobRow) (status : OracleJobStatus)
    (result : AttemptResult) (db : Db) (row : OracleJobRow)
    → ((row : OracleJobRow) → (change row).id ≡ row.id)
    → ((row : OracleJobRow) → (change row).status ≡ status)
    → select_oracle_job_by_id id db ≡ some row
    → IsFound id (change row) (finished_db id change result db)
unfolding find_oracle_job_by_id select_oracle_job_by_id
finished-IsFound id change status result db row keeps sets found =
    let (named, listed) = find_where_sound (has_id id) db.oracle_jobs row found in
    let selected = select-finished_db id change status result db keeps sets in
    (
      keeps row ∙ (==_iff row.id id).0 named,
      ap (Option.map map_oracle_job) (selected ∙ ap (Option.map change) found),
    )

-- A job that runs is completed.
complete_running :
    (input : CompleteOracleJobInput) (db : Db)
    → Inv db
    → input.lock_key ≡ job_lock_key input.job_id
    → status_of input.job_id db ≡ some running
    → (row : OracleJobRow) × (complete_oracle_job input db
        ≡ (ok (map_oracle_job (set_completed input.finished_at_ms row)), completed_db input db))
      × (status_of input.job_id (completed_db input db) ≡ some completed)
      × IsFound input.job_id (set_completed input.finished_at_ms row) (completed_db input db)
complete_running input db inv own r = elim (complete_oracle_job_lem input db inv own) [
  | inr (stopped, _) ↦ absurd (ground (arith, stopped, r))
  | inl (_, (row, found, e)) ↦ (
    row,
    e,
    ground (
      arith,
      status_of-finished_db input.job_id (set_completed input.finished_at_ms) completed
          (completed_result input) db (λ x. refl) (λ x. refl) input.job_id,
      ==_refl input.job_id,
      r,
    ),
    finished-IsFound input.job_id (set_completed input.finished_at_ms) completed
        (completed_result input) db row (λ x. refl) (λ x. refl) found,
  )
]

-- A job that runs is failed, for good or until its next run.
fail_running :
    (input : FailOracleJobInput) (db : Db)
    → Inv db
    → input.lock_key ≡ job_lock_key input.job_id
    → status_of input.job_id db ≡ some running
    → (row : OracleJobRow) × (fail_oracle_job input db
        ≡ (ok (map_oracle_job (failed_change input row)), failed_db input db))
      × (status_of input.job_id (failed_db input db) ≡ some (next_status input))
      × IsFound input.job_id (failed_change input row) (failed_db input db)
fail_running input db inv own r = elim (fail_oracle_job_lem input db inv own) [
  | inr (stopped, _) ↦ absurd (ground (arith, stopped, r))
  | inl (_, (row, found, e)) ↦ (
    row,
    e,
    ground (
      arith,
      status_of-finished_db input.job_id (failed_change input) (next_status input)
          (failed_result input) db (λ x. refl) (λ x. refl) input.job_id,
      ==_refl input.job_id,
      r,
    ),
    finished-IsFound input.job_id (failed_change input) (next_status input) (failed_result input) db
        row (λ x. refl) (λ x. refl) found,
  )
]

module _ (r : Runner) (claimed : ClaimedOracleJob) (attempt_number : ℕ)
    (own : claimed.lock_key ≡ job_lock_key claimed.id) where
  fail_claimed_job-IsSettled :
      (e : JsError) (w : World)
      → Inv w.db
      → AllNumbered w.db
      → status_of claimed.id w.db ≡ some running
      → let (result, after) = fail_claimed_job r claimed attempt_number e w in
        IsSettled claimed.id (settled_status (throw e)) result after
  unfolding fail_claimed_job map_oracle_job
  fail_claimed_job-IsSettled e w inv numbered runs =
      let input = failure r claimed attempt_number e w in
      let (row, done, stored, known) = fail_running input w.db inv own runs in
      let goes = fail-Goes input w.db inv own in
      record {
        job = map_oracle_job (failed_change input row);
        returned = ap (λ p. p.0) done;
        job_id = known.0;
        job_status = refl;
        found = ap (λ p. find_oracle_job_by_id claimed.id p.1) done ∙ known.1;
        stored = ap (λ p. status_of claimed.id p.1) done ∙ stored;
        inv = goes.inv;
        numbered =
            subst (λ p. AllNumbered p.1) (sym done)
              (finished_db-AllNumbered claimed.id (failed_change input) (failed_result input) w.db
                numbered);
      }

  settle_claimed_job-IsSettled :
      (outcome : Outcome String) (w : World)
      → Inv w.db
      → AllNumbered w.db
      → status_of claimed.id w.db ≡ some running
      → let (result, after) = settle_claimed_job r claimed attempt_number outcome w in
        IsSettled claimed.id (settled_status outcome) result after
  unfolding settle_claimed_job map_oracle_job
  settle_claimed_job-IsSettled (throw e) w inv numbered runs =
      fail_claimed_job-IsSettled e w inv numbered runs
  settle_claimed_job-IsSettled (ok signature) w inv numbered runs =
      let input = success r claimed signature w in
      let (row, done, stored, known) = complete_running input w.db inv own runs in
      let goes = complete-Goes input w.db inv own in
      rw (ap (λ p. p.0) done, settle_claimed_job)
        (record {
          job = map_oracle_job (set_completed (r.now w.events) row);
          returned = refl;
          job_id = known.0;
          job_status = refl;
          found = ap (λ p. find_oracle_job_by_id claimed.id p.1) done ∙ known.1;
          stored = ap (λ p. status_of claimed.id p.1) done ∙ stored;
          inv = goes.inv;
          numbered =
              subst (λ p. AllNumbered p.1) (sym done)
                (finished_db-AllNumbered claimed.id (set_completed input.finished_at_ms)
                  (completed_result input) w.db numbered);
        })

-- What holds of the store between two calls.
pub record IsSound (db : Db) : Type 0 where
  pub inv : Inv db
  pub numbered : AllNumbered db

-- What the runner relies on while it awaits the oracle: what others do to the store leaves it
-- sound, and does not finish a job that runs.
abbrev pub IsPolite : Runner → Type 0
IsPolite r =
    (n : ℕ) (db : Db)
    → IsSound db
    → IsSound (r.others n db)
      × ((id : ℕ) → status_of id db ≡ some running → status_of id (r.others n db) ≡ some running)

known_job :
    (id : ℕ) (db : Db)
    → status_of id db ≡ some running
    → exists_where (has_id id) db.oracle_jobs ≡ true
unfolding status_of select_oracle_job_by_id
known_job id db runs = ground (arith, exists_where-find_where (has_id id) db.oracle_jobs, runs)

-- The next attempt of a job that is there starts.
start_next_attempt :
    (id started_at_ms : ℕ) (db : Db)
    → Inv db
    → status_of id db ≡ some running
    → IsNumbered id db
    → let input : JobAttemptStartInput = record {
      job_id = id;
      attempt_number = length (list_job_attempts id db) + 1;
      started_at_ms = started_at_ms;
    } in
      start_job_attempt input db
      ≡ (ok (map_attempt (started_attempt input db)), started_db input db)
start_next_attempt id started_at_ms db inv runs numbered =
    let input : JobAttemptStartInput = record {
      job_id = id;
      attempt_number = length (list_job_attempts id db) + 1;
      started_at_ms = started_at_ms;
    } in
    ground (
      arith,
      start_job_attempt_lem input db inv,
      next_number-free id db numbered,
      known_job id db runs,
    )

started_db-status :
    (input : JobAttemptStartInput) (db : Db) (id : ℕ)
    → status_of id (started_db input db) ≡ status_of id db
unfolding status_of select_oracle_job_by_id
started_db-status input db id = refl

started_db-Inv : (input : JobAttemptStartInput) (db : Db) → Inv db → Inv (started_db input db)
started_db-Inv input db inv =
    Inv-attempts db _ _
      (Ids-append attempt_id 0 db.attempt_sequence db.job_attempts _ inv.attempt_ids refl) inv

-- Let the store be sound and the job run under its own lock, and let others keep the store sound
-- and finish no running job meanwhile. Then the claimed job is settled: the call throws
-- nothing and returns the record that is stored under the job's id, and the job is completed if the dispatch gave a signature, and else
-- retryable or failed as the error is classified.
pub execute_claimed_job-IsSettled :
    (r : Runner) (claimed : ClaimedOracleJob) (w : World)
    → IsSound w.db
    → claimed.lock_key ≡ job_lock_key claimed.id
    → status_of claimed.id w.db ≡ some running
    → IsPolite r
    → let (result, after) = execute_claimed_job r claimed w in
      IsSettled claimed.id (settled_status (dispatch_job r (suc w.events) claimed.job)) result after
unfolding execute_claimed_job after_start
execute_claimed_job-IsSettled r claimed w sound own runs polite =
    let number = length (list_job_attempts claimed.id w.db) + 1 in
    let input : JobAttemptStartInput = record {
      job_id = claimed.id;
      attempt_number = number;
      started_at_ms = r.now w.events;
    } in
    let started = started_db input w.db in
    let (sound', keeps) = polite (suc w.events) started (record {
      inv = started_db-Inv input w.db sound.inv;
      numbered = started_db-AllNumbered claimed.id (r.now w.events) w.db sound.numbered;
    }) in
    let runs' = keeps claimed.id (started_db-status input w.db claimed.id ∙ runs) in
    subst
      (λ p.
        let (result, after) = after_start r claimed number (tick w) p in
        IsSettled claimed.id (settled_status (dispatch_job r (suc w.events) claimed.job)) result
          after)
      (sym (
        start_next_attempt claimed.id (r.now w.events) w.db sound.inv runs
          (sound.numbered claimed.id)))
      (settle_claimed_job-IsSettled r claimed number own (dispatch_job r (suc w.events) claimed.job)
        (awaited r (with_db (tick w) started)) sound'.inv sound'.numbered runs')
