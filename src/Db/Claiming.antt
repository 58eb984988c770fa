-- ===== src/Db/Claiming.antt =====
-- backend/src/db/index.ts: which job a claim takes, and what it leaves behind.
use mathlib.Core.Path.{subst}
use personal_carbon_footprin.Prelude.{
  ℕ, ◌+◌, ◌≤◌, String, some, none, ◌≡◌, refl, sym, ◌∙◌, ◌⊎◌, inl, inr, true, false, ◌&&◌, arith,
  Memᴰ, List, [], ◌∷◌, ◌++◌, Bool-cases, Option-cases, All, All-weaken, All-Memᴰ,
  select_where_sound, select_where_complete, ==_refl, find_where, find_where_sound, find_where-none,
  and-left, and-right,
}
use personal_carbon_footprin.Storage.{OracleJobStatus, ClaimedOracleJob}
use personal_carbon_footprin.Db.Tables.{OracleJobRow, Db, new_lock, job_lock_key, map_oracle_job}
use personal_carbon_footprin.Db.Statements.{
  has_id, is_waiting, is_claimable, before, sooner, first_in_order, select_claimable_job,
  select_claimable_job_by_id, select_oracle_job_by_id, set_claimed, update_job, update_claimed_job,
  delete_expired_lock,
}
use personal_carbon_footprin.Db.Store.{claim_row, claim_pending_job, claim_oracle_job_by_id}
use personal_carbon_footprin.Db.Views.{
  status_of, is_running, is_locked, insert_lock-free, is_locked-delete_expired_free, select-update,
}
use personal_carbon_footprin.Db.Invariant.{Inv, select-Memᴰ}

-- A waiting job whose time has come.
pub record IsDue (now_ms : ℕ) (row : OracleJobRow) : Type 0 where
  pub waiting : (row.status ≡ OracleJobStatus.pending) ⊎ (row.status ≡ OracleJobStatus.retryable)
  pub due : row.run_after_ms ≤ now_ms

-- Oldest first, and by id among jobs of one age.
pub record ComesFirst (a b : OracleJobRow) : Type 0 where
  pub older : a.created_at_ms ≤ b.created_at_ms
  pub tie : a.created_at_ms ≡ b.created_at_ms → a.id ≤ b.id

-- The job that a claim at `now_ms` has to take.
pub record IsNext (now_ms : ℕ) (db : Db) (row : OracleJobRow) : Type 0 where
  pub listed : Memᴰ row db.oracle_jobs
  pub is_due : IsDue now_ms row
  pub first :
      (other : OracleJobRow) → Memᴰ other db.oracle_jobs → IsDue now_ms other → ComesFirst row other

is_claimable→IsDue :
    (now_ms : ℕ) (row : OracleJobRow) → is_claimable now_ms row ≡ true → IsDue now_ms row
is_claimable→IsDue now_ms row h = record { waiting = ground arith; due = ground arith }

IsDue→is_claimable :
    (now_ms : ℕ) (row : OracleJobRow) → IsDue now_ms row → is_claimable now_ms row ≡ true
IsDue→is_claimable now_ms row h = ground arith

ComesFirst-of_not-before : (a b : OracleJobRow) → before b a ≡ false → ComesFirst a b
ComesFirst-of_not-before a b h = record { older = ground arith; tie = λ e. ground arith }

ComesFirst-of_before : (a b : OracleJobRow) → before a b ≡ true → ComesFirst a b
ComesFirst-of_before a b h = record { older = ground arith; tie = λ e. ground arith }

ComesFirst-trans : {a b c : OracleJobRow} → ComesFirst a b → ComesFirst b c → ComesFirst a c
ComesFirst-trans h k = record { older = omega arith; tie = λ e. ground arith }

ComesFirst-refl : (a : OracleJobRow) → ComesFirst a a
ComesFirst-refl a = record { older = omega arith; tie = λ e. omega arith }

-- `ORDER BY … LIMIT 1` gives a row that comes first.
first_in_order_sound :
    (rows : List OracleJobRow) (row : OracleJobRow)
    → first_in_order rows ≡ some row
    → Memᴰ row rows × All (ComesFirst row) rows
unfolding first_in_order
first_in_order_sound [] row h = cc
first_in_order_sound (r ∷ []) row h =
    let same : r ≡ row = cc in (Memᴰ.head (sym same), (rw same (ComesFirst-refl row), tt))
first_in_order_sound (r ∷ r' ∷ rows) row h =
    let best = sooner r' (first_in_order rows) in
    let (m, all) = first_in_order_sound (r' ∷ rows) best refl in
    elim (Bool-cases (before best r)) [
      | inl e ↦
          let same : best ≡ row = ground (arith, e, h) in
          subst Next same (Memᴰ.tail m, (ComesFirst-of_before best r e, all))
      | inr e ↦
          let same : r ≡ row = ground (arith, e, h) in
          subst Next same (
            Memᴰ.head refl,
            (
              ComesFirst-refl r,
              All-weaken (ComesFirst best) (ComesFirst r) (r' ∷ rows)
                  (λ o k. ComesFirst-trans (ComesFirst-of_not-before r best e) k) all,
            ),
          )
    ]
  where
    Next : OracleJobRow → Type 0
    Next x = Memᴰ x (r ∷ r' ∷ rows) × All (ComesFirst x) (r ∷ r' ∷ rows)

first_in_order-none : (rows : List OracleJobRow) → first_in_order rows ≡ none → rows ≡ []
unfolding first_in_order
first_in_order-none [] h = refl
first_in_order-none (r ∷ rows) h = cc

select_claimable_job-IsNext :
    (now_ms : ℕ) (db : Db) (row : OracleJobRow)
    → select_claimable_job now_ms db ≡ some row
    → IsNext now_ms db row
unfolding select_claimable_job
select_claimable_job-IsNext now_ms db row h =
    let (m, all) = first_in_order_sound _ row h in
    let (good, there) = select_where_sound (is_claimable now_ms) db.oracle_jobs row m in
    record {
      listed = there;
      is_due = is_claimable→IsDue now_ms row good;
      first = λ other o d. All-Memᴰ (ComesFirst row) _ all (
          select_where_complete (is_claimable now_ms) db.oracle_jobs other
            (IsDue→is_claimable now_ms other d) o);
    }

select_claimable_job-none :
    (now_ms : ℕ) (db : Db)
    → select_claimable_job now_ms db ≡ none
    → (row : OracleJobRow) → Memᴰ row db.oracle_jobs
    → ¬ IsDue now_ms row
unfolding select_claimable_job
select_claimable_job-none now_ms db h row m d = not_in_nil (
    subst (λ rows. Memᴰ row rows) (first_in_order-none _ h)
      (select_where_complete (is_claimable now_ms) db.oracle_jobs row
        (IsDue→is_claimable now_ms row d) m))
  where
    not_in_nil : Memᴰ row [] → ⊥
    not_in_nil m = elim m [ ]

-- The table after a claim.
abbrev pub claimed_db : OracleJobRow → String → ℕ → ℕ → Db → Db
claimed_db row worker_id now_ms lock_duration_ms db =
    let cleared = delete_expired_lock (job_lock_key row.id) now_ms db in
    let lock = new_lock (job_lock_key row.id) worker_id now_ms (now_ms + lock_duration_ms) in
    update_job row.id (set_claimed worker_id now_ms)
      (record cleared { service_locks = cleared.service_locks ++ lock ∷ [] })

abbrev pub claimed_job : OracleJobRow → String → ℕ → ClaimedOracleJob
claimed_job row worker_id now_ms = record {
  job = map_oracle_job (set_claimed worker_id now_ms row);
  lock_key = job_lock_key row.id;
}

not_running :
    (row : OracleJobRow) (db : Db)
    → select_oracle_job_by_id row.id db ≡ some row
    → is_waiting row.status ≡ true
    → is_running row.id db ≡ false
unfolding status_of
not_running row db found w = rw found (ground arith)

-- In a consistent store a waiting job's lock is free, so claiming its row always succeeds.
pub claim_row_ok :
    (row : OracleJobRow) (worker_id : String) (now_ms lock_duration_ms : ℕ) (db : Db)
    → Inv db
    → Memᴰ row db.oracle_jobs
    → is_waiting row.status ≡ true
    → claim_row row worker_id now_ms lock_duration_ms db ≡ (
      some (claimed_job row worker_id now_ms),
      claimed_db row worker_id now_ms lock_duration_ms db,
    )
unfolding claim_row update_claimed_job
claim_row_ok row worker_id now_ms lock_duration_ms db inv m w =
    let found : select_oracle_job_by_id row.id db ≡ some row = select-Memᴰ row inv m in
    let free : is_locked (job_lock_key row.id) db ≡ false =
      inv.locks_match row.id ∙ not_running row db found w in
    let cleared = delete_expired_lock (job_lock_key row.id) now_ms db in
    let still : is_locked (job_lock_key row.id) cleared ≡ false =
      is_locked-delete_expired_free (job_lock_key row.id) (job_lock_key row.id) now_ms db free in
    let lock = new_lock (job_lock_key row.id) worker_id now_ms (now_ms + lock_duration_ms) in
    let locked : Db = record cleared { service_locks = cleared.service_locks ++ lock ∷ [] } in
    let same : select_oracle_job_by_id row.id locked ≡ some row =
      unfold select_oracle_job_by_id delete_expired_lock in found in
    rw (insert_lock-free lock cleared still, claim_row)
      (rw
        (
          select-update (set_claimed worker_id now_ms) row.id row.id locked (λ r. refl),
          ==_refl row.id,
          same,
        )
        refl)

-- In a consistent store a claim takes the job that is next and leaves it running under its lock. Only where no job is
-- due does it give nothing, and then it changes nothing.
pub claim_pending_job-IsNext :
    (worker_id : String) (now_ms lock_duration_ms : ℕ) (db : Db)
    → Inv db
    → ((claim_pending_job worker_id now_ms lock_duration_ms db ≡ (none, db))
        × ((row : OracleJobRow) → Memᴰ row db.oracle_jobs → ¬ IsDue now_ms row))
      ⊎ ((row : OracleJobRow) × IsNext now_ms db row
          × (claim_pending_job worker_id now_ms lock_duration_ms db ≡ (
            some (claimed_job row worker_id now_ms),
            claimed_db row worker_id now_ms lock_duration_ms db,
          )))
unfolding claim_pending_job
claim_pending_job-IsNext worker_id now_ms lock_duration_ms db inv =
    elim (Option-cases (select_claimable_job now_ms db)) [
      | inl e ↦ inl (rw (e, claim_pending_job) refl, select_claimable_job-none now_ms db e)
      | inr (row, e) ↦
          let next = select_claimable_job-IsNext now_ms db row e in
          inr (
            row,
            next,
            rw (e, claim_pending_job)
                (claim_row_ok row worker_id now_ms lock_duration_ms db inv next.listed
                  (and-left _ _ (IsDue→is_claimable now_ms row next.is_due))),
          )
    ]

-- The same for a claim by id: it takes the job with that id if that is due, and else gives nothing.
pub claim_oracle_job_by_id_lem :
    (job_id : ℕ) (worker_id : String) (now_ms lock_duration_ms : ℕ) (db : Db)
    → Inv db
    → ((claim_oracle_job_by_id job_id worker_id now_ms lock_duration_ms db ≡ (none, db))
        × ((row : OracleJobRow) → Memᴰ row db.oracle_jobs → row.id ≡ job_id → ¬ IsDue now_ms row))
      ⊎ ((row : OracleJobRow) × (row.id ≡ job_id)
          × Memᴰ row db.oracle_jobs
          × IsDue now_ms row
          × (claim_oracle_job_by_id job_id worker_id now_ms lock_duration_ms db ≡ (
            some (claimed_job row worker_id now_ms),
            claimed_db row worker_id now_ms lock_duration_ms db,
          )))
unfolding claim_oracle_job_by_id select_claimable_job_by_id
claim_oracle_job_by_id_lem job_id worker_id now_ms lock_duration_ms db inv =
    let test = λ (row : OracleJobRow). has_id job_id row && is_claimable now_ms row in
    elim (Option-cases (find_where test db.oracle_jobs)) [
      | inl e ↦ inl (
        rw (e, claim_oracle_job_by_id) refl,
        λ row m same d.
            ground
              (arith, find_where-none test db.oracle_jobs row e m, IsDue→is_claimable now_ms row d),
      )
      | inr (row, e) ↦
          let (good, there) = find_where_sound test db.oracle_jobs row e in
          inr (
            row,
            ground (arith, good),
            there,
            is_claimable→IsDue now_ms row (and-right _ _ good),
            rw (e, claim_oracle_job_by_id)
                (claim_row_ok row worker_id now_ms lock_duration_ms db inv there
                  (ground (arith, good))),
          )
    ]
