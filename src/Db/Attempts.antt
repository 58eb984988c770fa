-- ===== src/Db/Attempts.antt =====
-- backend/src/db/index.ts: `startJobAttempt` and `listJobAttempts`.
use personal_carbon_footprin.Prelude.{
  suc, some, ◌≡◌, refl, ◌∙◌, inl, inr, Bool, true, false, arith, List, [], ◌∷◌, ◌++◌, Bool-cases,
  ==_refl, ◌==◌, if◌then◌else◌, find_where, exists_where, select_where, ok, throw,
  exists_where-find_where, find-above,
}
use personal_carbon_footprin.Storage.{JobAttemptStartInput}
use personal_carbon_footprin.Db.Tables.{AttemptRow, Db, map_attempt}
use personal_carbon_footprin.Db.Statements.{
  has_id, of_job, is_attempt, new_attempt, attempt_taken, job_missing, insert_attempt,
  insert_in_order, order_by_attempt_number, select_attempts,
}
use personal_carbon_footprin.Db.Store.{start_job_attempt}
use personal_carbon_footprin.Db.Invariant.{Inv, attempt_id}

module _ (test : AttemptRow → Bool) where
  find-insert_in_order :
      (row : AttemptRow) (rows : List AttemptRow)
      → exists_where test rows ≡ false
      → test row ≡ true
      → find_where test (insert_in_order row rows) ≡ some row
  unfolding find_where exists_where insert_in_order
  find-insert_in_order row [] h t = ground arith
  find-insert_in_order row (r ∷ rows) h t = ground (arith, find-insert_in_order row rows)

  find-insert_other :
      (row : AttemptRow) (rows : List AttemptRow)
      → test row ≡ false
      → find_where test (insert_in_order row rows) ≡ find_where test rows
  unfolding find_where insert_in_order
  find-insert_other row [] t = ground arith
  find-insert_other row (r ∷ rows) t = ground (arith, find-insert_other row rows t)

  -- The one row that passes the test is found in the selected and ordered rows.
  find-select-order :
      (keep : AttemptRow → Bool) (rows : List AttemptRow) (row : AttemptRow)
      → exists_where test rows ≡ false
      → test row ≡ true
      → keep row ≡ true
      → find_where test (order_by_attempt_number (select_where keep (rows ++ row ∷ []))) ≡ some row
  unfolding find_where exists_where select_where order_by_attempt_number insert_in_order
  find-select-order keep [] row h t k = ground arith
  find-select-order keep (r ∷ rows) row h t k = elim (Bool-cases (keep r)) [
    | inl e ↦ rw e (
        find-insert_other r (order_by_attempt_number (select_where keep (rows ++ row ∷ [])))
          (ground arith)
        ∙ find-select-order keep rows row (ground arith) t k)
    | inr e ↦ rw e (find-select-order keep rows row (ground arith) t k)
  ]

abbrev pub started_attempt : JobAttemptStartInput → Db → AttemptRow
started_attempt input db =
    new_attempt (suc db.attempt_sequence) input.job_id input.attempt_number input.started_at_ms

abbrev pub started_db : JobAttemptStartInput → Db → Db
started_db input db = record db {
  job_attempts = db.job_attempts ++ started_attempt input db ∷ [];
  attempt_sequence = suc db.attempt_sequence;
}

-- In a consistent store, starting an attempt that is new, of a job that is there, records it as running and gives it
-- back. A second attempt with the same number, and one of an unknown job, throw and change nothing.
pub start_job_attempt_lem :
    (input : JobAttemptStartInput) (db : Db)
    → Inv db
    → let taken = exists_where (is_attempt input.job_id input.attempt_number) db.job_attempts in
      let known = exists_where (has_id input.job_id) db.oracle_jobs in
      start_job_attempt input db ≡ (
        if taken
        then (throw attempt_taken, db)
        else if known
        then (ok (map_attempt (started_attempt input db)), started_db input db)
        else (throw job_missing, db))
unfolding start_job_attempt insert_attempt select_attempts
start_job_attempt_lem input db inv =
    let fresh =
      find-above attempt_id 0 db.attempt_sequence (suc db.attempt_sequence) db.job_attempts
        inv.attempt_ids (omega arith) in
    let test = λ (row : AttemptRow). row.id == suc db.attempt_sequence in
    let absent = exists_where-find_where test db.job_attempts in
    let found =
      find-select-order test (of_job input.job_id) db.job_attempts (started_attempt input db)
        (rw (absent, fresh) refl) (==_refl (suc db.attempt_sequence)) (==_refl input.job_id) in
    elim (Bool-cases
      (exists_where (is_attempt input.job_id input.attempt_number) db.job_attempts)) [
        | inl e ↦ rw (e, start_job_attempt) refl
        | inr e ↦ elim (Bool-cases (exists_where (has_id input.job_id) db.oracle_jobs)) [
          | inl k ↦ rw (e, k, start_job_attempt) (rw found refl)
          | inr k ↦ rw (e, k, start_job_attempt) refl
        ]
      ]
