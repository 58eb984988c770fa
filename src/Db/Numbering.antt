-- ===== src/Db/Numbering.antt =====
-- backend/src/db/index.ts: the attempts of a job are numbered 1, 2, … in the order of the table.
pub mod Keeps
use personal_carbon_footprin.Prelude.{
  ℕ, suc, ◌+◌, ◌<◌, ◌≡◌, refl, ap, ◌∙◌, false, arith, List, [], ◌∷◌, map, length, Bool-cases, inl,
  inr, select_where, exists_where,
}
use personal_carbon_footprin.Db.Tables.{AttemptRow, Db}
use personal_carbon_footprin.Db.Statements.{
  of_job, is_attempt, insert_in_order, order_by_attempt_number, select_attempts,
}
use personal_carbon_footprin.Db.Store.{list_job_attempts}
use personal_carbon_footprin.Db.Tables.{map_attempt}

abbrev pub Counted : ℕ → List AttemptRow → Type 0
Counted k [] = Unit
Counted k (row ∷ rows) = (row.attempt_number ≡ suc k) × Counted (suc k) rows

abbrev pub IsNumbered : ℕ → Db → Type 0
IsNumbered id db = Counted 0 (select_where (of_job id) db.job_attempts)

length-map : {A B : Type 0} (f : A → B) (xs : List A) → length (map f xs) ≡ length xs
length-map f [] = refl
length-map f (x ∷ xs) = ap suc (length-map f xs)

length-insert_in_order :
    (row : AttemptRow) (rows : List AttemptRow)
    → length (insert_in_order row rows) ≡ suc (length rows)
unfolding insert_in_order
length-insert_in_order row [] = refl
length-insert_in_order row (r ∷ rows) = ground (arith, length-insert_in_order row rows)

length-order : (rows : List AttemptRow) → length (order_by_attempt_number rows) ≡ length rows
unfolding order_by_attempt_number
length-order [] = refl
length-order (row ∷ rows) = length-insert_in_order row _ ∙ ap suc (length-order rows)

pub length-list_job_attempts :
    (id : ℕ) (db : Db)
    → length (list_job_attempts id db) ≡ length (select_where (of_job id) db.job_attempts)
unfolding list_job_attempts select_attempts
length-list_job_attempts id db = length-map map_attempt _ ∙ length-order _

exists-above :
    (id n k : ℕ) (rows : List AttemptRow)
    → Counted k (select_where (of_job id) rows)
    → k + length (select_where (of_job id) rows) < n
    → exists_where (is_attempt id n) rows ≡ false
unfolding select_where exists_where
exists-above id n k [] h lt = refl
exists-above id n k (row ∷ rows) h lt = elim (Bool-cases (of_job id row)) [
  | inl e ↦
      let h' : Counted k (row ∷ select_where (of_job id) rows) = rw e at h in
      let lt' : k + length (row ∷ select_where (of_job id) rows) < n = rw e at lt in
      ground (arith, e, h'.0, lt', exists-above id n (suc k) rows h'.1 (omega arith))
  | inr e ↦
      let h' : Counted k (select_where (of_job id) rows) = rw e at h in
      let lt' : k + length (select_where (of_job id) rows) < n = rw e at lt in
      ground (arith, e, exists-above id n k rows h' lt')
]

-- If the attempts of a job are numbered 1, 2, … then their number and one more is a new number.
pub next_number-free :
    (id : ℕ) (db : Db)
    → IsNumbered id db
    → exists_where (is_attempt id (length (list_job_attempts id db) + 1)) db.job_attempts ≡ false
next_number-free id db h =
    exists-above id (length (list_job_attempts id db) + 1) 0 db.job_attempts h
      (omega (arith, length-list_job_attempts id db))
