-- ===== src/Db/Enqueueing.antt =====
-- backend/src/db/index.ts: `enqueueOracleJob`, and the lookups after it.
use mathlib.Core.Option
use personal_carbon_footprin.Prelude.{
  suc, some, none, ◌≡◌, refl, ap, ◌⊎◌, inl, inr, true, false, arith, Bool-cases, ==_refl,
  str_eq_refl, find_where, exists_where, find_where-append, ok, throw, is_some,
  exists_where-find_where,
}
use personal_carbon_footprin.Storage.{OracleJobInput, OracleJobRecord}
use personal_carbon_footprin.Db.Tables.{Db, map_oracle_job, normalize_oracle_job_input}
use personal_carbon_footprin.Db.Statements.{
  has_idempotency_key, idempotency_key_taken, insert_oracle_job,
  select_oracle_job_by_idempotency_key,
}
use personal_carbon_footprin.Db.Store.{
  enqueue_oracle_job, find_oracle_job_by_id, find_oracle_job_by_idempotency_key,
}
use personal_carbon_footprin.Db.Invariant.{Inv}
use personal_carbon_footprin.Db.Keeps.{inserted_job, select-inserted_job}

abbrev pub new_job : OracleJobInput → Db → OracleJobRecord
new_job input db = map_oracle_job (normalize_oracle_job_input (suc db.job_sequence) input)

select-new_key :
    (input : OracleJobInput) (db : Db)
    → exists_where (has_idempotency_key input.idempotency_key) db.oracle_jobs ≡ false
    → select_oracle_job_by_idempotency_key input.idempotency_key (inserted_job input db)
      ≡ some (normalize_oracle_job_input (suc db.job_sequence) input)
unfolding select_oracle_job_by_idempotency_key find_where normalize_oracle_job_input
select-new_key input db e =
    rw (find_where-append (has_idempotency_key input.idempotency_key) db.oracle_jobs _, e)
      (rw (str_eq_refl input.idempotency_key) refl)

-- In a consistent store a job with a new idempotency key is stored as pending under the next id, and both lookups give
-- it back. With a key that is taken the call throws and changes nothing.
pub enqueue_oracle_job_lem :
    (input : OracleJobInput) (db : Db)
    → Inv db
    → (is_some (find_oracle_job_by_idempotency_key input.idempotency_key db) ≡ true)
        × (enqueue_oracle_job input db ≡ (throw idempotency_key_taken, db))
      ⊎ (find_oracle_job_by_idempotency_key input.idempotency_key db ≡ none)
        × (enqueue_oracle_job input db ≡ (ok (new_job input db), inserted_job input db))
        × (find_oracle_job_by_id (suc db.job_sequence) (inserted_job input db)
            ≡ some (new_job input db))
        × (find_oracle_job_by_idempotency_key input.idempotency_key (inserted_job input db)
            ≡ some (new_job input db))
unfolding enqueue_oracle_job insert_oracle_job find_oracle_job_by_id
    find_oracle_job_by_idempotency_key select_oracle_job_by_idempotency_key
enqueue_oracle_job_lem input db inv =
    let test = has_idempotency_key input.idempotency_key in
    let found = select-inserted_job input db (suc db.job_sequence) inv in
    let seen = exists_where-find_where test db.oracle_jobs in
    elim (Bool-cases (exists_where test db.oracle_jobs)) [
      | inl e ↦ inl (ground (arith, e, seen), rw (e, enqueue_oracle_job) refl)
      | inr e ↦ inr (
        ground (arith, e, seen),
        rw (e, enqueue_oracle_job) (rw (found, ==_refl (suc db.job_sequence)) refl),
        rw (found, ==_refl (suc db.job_sequence)) refl,
        ap (Option.map map_oracle_job) (select-new_key input db e),
      )
    ]
