-- ===== src/Db/Numbering/Keeps.antt =====
-- backend/src/db/index.ts: starting and finishing an attempt keeps the numbers 1, 2, ….
use personal_carbon_footprin.Prelude.{
  ℕ, suc, ◌+◌, ◌≡◌, refl, Bool, arith, List, [], ◌∷◌, ◌++◌, length, Bool-cases, inl, inr, ◌==◌,
  select_where, update_where,
}
use personal_carbon_footprin.Db.Tables.{AttemptRow, Db}
use personal_carbon_footprin.Db.Statements.{
  of_job, new_attempt, set_result, AttemptResult, update_attempt, delete_lock,
}
use personal_carbon_footprin.Db.Store.{list_job_attempts}
use personal_carbon_footprin.Db.Attempts.{started_db}
use personal_carbon_footprin.Db.Transitions.{finished_db}
use personal_carbon_footprin.Db.Numbering.{Counted, IsNumbered, length-list_job_attempts}

abbrev pub AllNumbered : Db → Type 0
AllNumbered db = (id : ℕ) → IsNumbered id db

Counted-append :
    (k : ℕ) (rows : List AttemptRow) (row : AttemptRow)
    → Counted k rows
    → row.attempt_number ≡ k + length rows + 1
    → Counted k (rows ++ row ∷ [])
Counted-append k [] row h e = (omega (arith, e), tt)
Counted-append k (r ∷ rows) row (h, hs) e =
    (h, Counted-append (suc k) rows row hs (omega (arith, e)))

select_where-append :
    (test : AttemptRow → Bool) (xs ys : List AttemptRow)
    → select_where test (xs ++ ys) ≡ select_where test xs ++ select_where test ys
unfolding select_where
select_where-append test [] ys = refl
select_where-append test (x ∷ xs) ys = ground (arith, select_where-append test xs ys)

-- An attempt whose number is one more than there are attempts of its job.
pub started_db-AllNumbered :
    (id started_at_ms : ℕ) (db : Db)
    → AllNumbered db
    → AllNumbered (
        started_db
          (record {
            job_id = id;
            attempt_number = length (list_job_attempts id db) + 1;
            started_at_ms = started_at_ms;
          })
          db)
unfolding select_where
started_db-AllNumbered id started_at_ms db h j =
    let row =
      new_attempt (suc db.attempt_sequence) id (length (list_job_attempts id db) + 1)
        started_at_ms in
    rw (select_where-append (of_job j) db.job_attempts (row ∷ [])) (elim (Bool-cases (id == j)) [
      | inl e ↦
          let same : id ≡ j = ground (arith, e) in
          rw e (
            Counted-append 0 (select_where (of_job j) db.job_attempts) row (h j)
              (ground (arith, same, length-list_job_attempts id db)))
      | inr e ↦ rw e (Counted-append_nil 0 (select_where (of_job j) db.job_attempts) (h j))
    ])
  where
    Counted-append_nil : (k : ℕ) (rows : List AttemptRow) → Counted k rows → Counted k (rows ++ [])
    Counted-append_nil k [] h = h
    Counted-append_nil k (r ∷ rows) (h, hs) = (h, Counted-append_nil (suc k) rows hs)

Counted-update :
    (k j : ℕ) (test : AttemptRow → Bool) (result : AttemptResult) (rows : List AttemptRow)
    → Counted k (select_where (of_job j) rows)
    → Counted k (select_where (of_job j) (update_where test (set_result result) rows))
unfolding select_where update_where
Counted-update k j test result [] h = h
Counted-update k j test result (row ∷ rows) h = elim (Bool-cases (test row)) [
  | inl t ↦ rw t (elim (Bool-cases (row.job_id == j)) [
    | inl e ↦
        let h' : Counted k (row ∷ select_where (of_job j) rows) = rw e at h in
        rw e (h'.0, Counted-update (suc k) j test result rows h'.1)
    | inr e ↦ rw e (Counted-update k j test result rows (rw e at h))
  ])
  | inr t ↦ rw t (elim (Bool-cases (row.job_id == j)) [
    | inl e ↦
        let h' : Counted k (row ∷ select_where (of_job j) rows) = rw e at h in
        rw e (h'.0, Counted-update (suc k) j test result rows h'.1)
    | inr e ↦ rw e (Counted-update k j test result rows (rw e at h))
  ])
]

pub finished_db-AllNumbered :
    (id : ℕ) (change : _) (result : AttemptResult) (db : Db)
    → AllNumbered db
    → AllNumbered (finished_db id change result db)
unfolding update_attempt delete_lock
finished_db-AllNumbered id change result db h j = Counted-update 0 j _ result db.job_attempts (h j)
