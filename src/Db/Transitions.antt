-- ===== src/Db/Transitions.antt =====
-- backend/src/db/index.ts: what claiming and finishing a job do to the statuses, the locks and the
-- invariant.
use mathlib.Core.Option
use personal_carbon_footprin.Prelude.{
  ℕ, ◌+◌, String, some, ◌≡◌, refl, true, false, arith, ◌==◌, if◌then◌else◌, Ids-update, is_some, ap,
  find_where-update_self,
}
use personal_carbon_footprin.Storage.{OracleJobStatus}
use personal_carbon_footprin.Db.Tables.{OracleJobRow, Db, new_lock, job_lock_key}
use personal_carbon_footprin.Db.Statements.{
  has_id, select_oracle_job_by_id, set_claimed, update_job, update_attempt, delete_lock,
  delete_expired_lock, set_result, AttemptResult,
}
use personal_carbon_footprin.Db.Views.{
  status_of, is_running, is_running_status, is_locked, is_locked-insert, is_locked-delete_other,
  is_locked-delete_self, is_locked-delete_expired_other, job_lock_key-eq, status_of-update,
  job_lock_key-injective,
}
use personal_carbon_footprin.Db.Invariant.{Inv, job_id, attempt_id}
use personal_carbon_footprin.Db.Claiming.{claimed_db}

module _ (row : OracleJobRow) (worker_id : String) (now_ms lock_duration_ms : ℕ) (db : Db) where
  pub is_locked-claimed_db :
      (n : ℕ)
      → is_locked (job_lock_key n) (claimed_db row worker_id now_ms lock_duration_ms db)
        ≡ (if row.id == n then true else is_locked (job_lock_key n) db)
  unfolding is_locked
  is_locked-claimed_db n =
      let key = job_lock_key row.id in
      let cleared = delete_expired_lock key now_ms db in
      let lock = new_lock key worker_id now_ms (now_ms + lock_duration_ms) in
      ground (
        arith,
        is_locked-insert (job_lock_key n) lock cleared,
        job_lock_key-eq row.id n,
        job_lock_key-injective row.id n,
        is_locked-delete_expired_other (job_lock_key n) key now_ms db,
        job_lock_key-injective n row.id,
      )

  pub status_of-claimed_db :
      (n : ℕ)
      → status_of n (claimed_db row worker_id now_ms lock_duration_ms db) ≡ (
          if row.id == n
          then Option.map (λ _. OracleJobStatus.running) (status_of n db)
          else status_of n db)
  unfolding status_of select_oracle_job_by_id delete_expired_lock
  status_of-claimed_db n =
      status_of-update (set_claimed worker_id now_ms) OracleJobStatus.running n row.id db
        (λ r. refl) (λ r. refl)

  locks_match-claimed_db :
      Inv db
      → is_some (status_of row.id db) ≡ true
      → (n : ℕ)
      → is_locked (job_lock_key n) (claimed_db row worker_id now_ms lock_duration_ms db)
        ≡ is_running n (claimed_db row worker_id now_ms lock_duration_ms db)
  locks_match-claimed_db inv known n =
      ground (arith, is_locked-claimed_db n, status_of-claimed_db n, inv.locks_match n, known)

  -- A claim locks the job that it sets running.
  pub Inv-claimed_db :
      Inv db
      → is_some (status_of row.id db) ≡ true
      → Inv (claimed_db row worker_id now_ms lock_duration_ms db)
  unfolding delete_expired_lock
  Inv-claimed_db inv known = record {
    job_ids =
        Ids-update job_id (has_id row.id) (set_claimed worker_id now_ms) 0 db.job_sequence
          db.oracle_jobs (λ r. refl) inv.job_ids;
    attempt_ids = inv.attempt_ids;
    locks_match = locks_match-claimed_db inv known;
  }

-- What `completeOracleJob` and `failOracleJob` write.
abbrev pub finished_db : ℕ → (OracleJobRow → OracleJobRow) → AttemptResult → Db → Db
finished_db id change result db =
    delete_lock (job_lock_key id) (update_attempt id result (update_job id change db))

module _ (id : ℕ) (change : OracleJobRow → OracleJobRow) (status : OracleJobStatus)
    (result : AttemptResult) (db : Db) (keeps : (row : OracleJobRow) → (change row).id ≡ row.id)
    (sets : (row : OracleJobRow) → (change row).status ≡ status) where
  pub is_locked-finished_db :
      (n : ℕ)
      → is_locked (job_lock_key n) (finished_db id change result db)
        ≡ (if id == n then false else is_locked (job_lock_key n) db)
  unfolding is_locked delete_lock update_attempt
  is_locked-finished_db n = ground (
    arith,
    is_locked-delete_other (job_lock_key n) (job_lock_key id) db,
    is_locked-delete_self (job_lock_key id) db,
    job_lock_key-injective n id,
  )

  pub status_of-finished_db :
      (n : ℕ)
      → status_of n (finished_db id change result db)
        ≡ (if id == n then Option.map (λ _. status) (status_of n db) else status_of n db)
  unfolding status_of select_oracle_job_by_id delete_lock update_attempt
  status_of-finished_db n = status_of-update change status n id db keeps sets

  -- Looking a job up finds its finished row.
  pub select-finished_db :
      select_oracle_job_by_id id (finished_db id change result db)
      ≡ Option.map change (select_oracle_job_by_id id db)
  unfolding select_oracle_job_by_id delete_lock update_attempt
  select-finished_db =
      find_where-update_self (has_id id) change (λ row. ap (λ n. n == id) (keeps row))
        db.oracle_jobs

  locks_match-finished_db :
      Inv db
      → is_running_status (some status) ≡ false
      → (n : ℕ)
      → is_locked (job_lock_key n) (finished_db id change result db)
        ≡ is_running n (finished_db id change result db)
  locks_match-finished_db inv stopped n =
      ground (arith, is_locked-finished_db n, status_of-finished_db n, inv.locks_match n, stopped)

  -- Finishing a job unlocks it.
  pub Inv-finished_db :
      Inv db → is_running_status (some status) ≡ false → Inv (finished_db id change result db)
  unfolding delete_lock update_attempt
  Inv-finished_db inv stopped = record {
    job_ids =
        Ids-update job_id (has_id id) change 0 db.job_sequence db.oracle_jobs keeps inv.job_ids;
    attempt_ids =
        Ids-update attempt_id _ (set_result result) 0 db.attempt_sequence db.job_attempts
          (λ r. refl) inv.attempt_ids;
    locks_match = locks_match-finished_db inv stopped;
  }
