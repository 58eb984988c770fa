-- ===== src/Db/Invariant.antt =====
-- backend/src/db/index.ts: what holds of the tables between two operations.
use personal_carbon_footprin.Prelude.{
  ℕ, some, ◌≡◌, refl, arith, Ids, Memᴰ, find-Memᴰ, exists_where, find_where,
}
use personal_carbon_footprin.Db.Tables.{OracleJobRow, AttemptRow, Db, migrated, job_lock_key}
use personal_carbon_footprin.Db.Statements.{select_oracle_job_by_id}
use personal_carbon_footprin.Db.Views.{status_of, is_running, is_locked}

abbrev pub job_id : OracleJobRow → ℕ
job_id row = row.id

abbrev pub attempt_id : AttemptRow → ℕ
attempt_id row = row.id

-- Ids grow with the sequences, and a job's lock is held exactly while the job runs.
pub record Inv (db : Db) : Type 0 where
  pub job_ids : Ids job_id 0 db.job_sequence db.oracle_jobs
  pub attempt_ids : Ids attempt_id 0 db.attempt_sequence db.job_attempts
  pub locks_match : (id : ℕ) → is_locked (job_lock_key id) db ≡ is_running id db

-- The invariant holds of the tables that `migrate` makes.
pub migrated-Inv : Inv migrated
unfolding is_locked exists_where status_of select_oracle_job_by_id find_where
migrated-Inv = record { job_ids = omega arith; attempt_ids = omega arith; locks_match = λ id. refl }

-- A row of the table is what its id selects.
pub select-Memᴰ :
    {db : Db} (row : OracleJobRow)
    → Inv db
    → Memᴰ row db.oracle_jobs
    → select_oracle_job_by_id row.id db ≡ some row
unfolding select_oracle_job_by_id
select-Memᴰ {db} row inv m = find-Memᴰ job_id 0 db.job_sequence db.oracle_jobs row inv.job_ids m
