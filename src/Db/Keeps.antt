-- ===== src/Db/Keeps.antt =====
-- backend/src/db/index.ts: every call of the store keeps the invariant.
use personal_carbon_footprin.Prelude.{
  ℕ, suc, ◌<◌, some, none, ◌≡◌, refl, ◌∙◌, inl, inr, arith, List, [], ◌∷◌, ◌++◌, Bool-cases, ◌==◌,
  if◌then◌else◌, Ids, Ids-append, find-above, find_where-append, exists_where-find_where,
  find_where,
}
use personal_carbon_footprin.Storage.{OracleJobStatus, OracleJobInput}
use personal_carbon_footprin.Db.Tables.{
  NonceRow, AttemptRow, LockRow, Db, job_lock_key, normalize_oracle_job_input,
}
use personal_carbon_footprin.Db.Statements.{has_id, select_oracle_job_by_id}
use personal_carbon_footprin.Db.Views.{status_of, is_locked}
use personal_carbon_footprin.Db.Invariant.{Inv, job_id, attempt_id}

-- The parts of the tables that a statement leaves alone.
pub Inv-used_nonces :
    (db : Db) (rows : List NonceRow) → Inv db → Inv (record db { used_nonces = rows })
unfolding is_locked status_of select_oracle_job_by_id
Inv-used_nonces db rows inv = record {
  job_ids = inv.job_ids;
  attempt_ids = inv.attempt_ids;
  locks_match = inv.locks_match;
}

-- A lock of another kind does not show at the jobs' keys.
pub Inv-locks :
    (db : Db) (rows : List LockRow)
    → ((id : ℕ)
        → is_locked (job_lock_key id) (record db { service_locks = rows })
          ≡ is_locked (job_lock_key id) db)
    → Inv db
    → Inv (record db { service_locks = rows })
unfolding status_of select_oracle_job_by_id
Inv-locks db rows same inv = record {
  job_ids = inv.job_ids;
  attempt_ids = inv.attempt_ids;
  locks_match = λ id. same id ∙ inv.locks_match id;
}

abbrev pub inserted_job : OracleJobInput → Db → Db
inserted_job input db = record db {
  oracle_jobs = db.oracle_jobs ++ normalize_oracle_job_input (suc db.job_sequence) input ∷ [];
  job_sequence = suc db.job_sequence;
}

-- A new row shows at its id alone, which no older row has.
pub select-inserted_job :
    (input : OracleJobInput) (db : Db) (n : ℕ)
    → Inv db
    → select_oracle_job_by_id n (inserted_job input db) ≡ (
        if suc db.job_sequence == n
        then some (normalize_oracle_job_input (suc db.job_sequence) input)
        else select_oracle_job_by_id n db)
unfolding select_oracle_job_by_id normalize_oracle_job_input find_where
select-inserted_job input db n inv =
    let row = normalize_oracle_job_input (suc db.job_sequence) input in
    elim (Bool-cases (suc db.job_sequence == n)) [
      | inl e ↦
          let above =
            find-above job_id 0 db.job_sequence n db.oracle_jobs inv.job_ids (ground arith) in
          ground (
            arith,
            e,
            find_where-append (has_id n) db.oracle_jobs (row ∷ []),
            exists_where-find_where (has_id n) db.oracle_jobs,
            above,
          )
      | inr e ↦ ground (
        arith,
        e,
        find_where-append (has_id n) db.oracle_jobs (row ∷ []),
        exists_where-find_where (has_id n) db.oracle_jobs,
      )
    ]

pub status_of-inserted_job :
    (input : OracleJobInput) (db : Db) (n : ℕ)
    → Inv db
    → status_of n (inserted_job input db)
      ≡ (if suc db.job_sequence == n then some OracleJobStatus.pending else status_of n db)
unfolding status_of normalize_oracle_job_input
status_of-inserted_job input db n inv = ground (arith, select-inserted_job input db n inv)

pub status_of-above : (db : Db) (n : ℕ) → Inv db → db.job_sequence < n → status_of n db ≡ none
unfolding status_of select_oracle_job_by_id
status_of-above db n inv lt =
    ground (arith, find-above job_id 0 db.job_sequence n db.oracle_jobs inv.job_ids lt)

pub Inv-inserted_job : (input : OracleJobInput) (db : Db) → Inv db → Inv (inserted_job input db)
unfolding is_locked normalize_oracle_job_input
Inv-inserted_job input db inv = record {
  job_ids = Ids-append job_id 0 db.job_sequence db.oracle_jobs _ inv.job_ids refl;
  attempt_ids = inv.attempt_ids;
  locks_match = λ n.
      ground
        (arith, inv.locks_match n, status_of-inserted_job input db n inv, status_of-above db n inv);
}

pub Inv-attempts :
    (db : Db) (rows : List AttemptRow) (n : ℕ)
    → Ids attempt_id 0 n rows
    → Inv db
    → Inv (record db { job_attempts = rows; attempt_sequence = n })
unfolding is_locked status_of select_oracle_job_by_id
Inv-attempts db rows n ids inv = record {
  job_ids = inv.job_ids;
  attempt_ids = ids;
  locks_match = inv.locks_match;
}
