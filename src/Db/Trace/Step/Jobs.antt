-- ===== src/Db/Trace/Step/Jobs.antt =====
-- backend/src/db/index.ts: the calls that change the status of a job.
use personal_carbon_footprin.Prelude.{
  ℕ, suc, String, Option, some, none, ◌≡◌, refl, ◌∙◌, ◌≢◌, inl, inr, true, arith, Memᴰ, Bool-cases,
  ◌==◌, if◌then◌else◌,
}
use personal_carbon_footprin.Storage.{
  OracleJobStatus, running, completed, OracleJobInput, CompleteOracleJobInput, FailOracleJobInput,
}
use personal_carbon_footprin.Db.Tables.{OracleJobRow, Db, job_lock_key}
use personal_carbon_footprin.Db.Statements.{set_completed}
use personal_carbon_footprin.Db.Store.{
  enqueue_oracle_job, claim_pending_job, claim_oracle_job_by_id, complete_oracle_job,
  fail_oracle_job,
}
use personal_carbon_footprin.Db.Views.{status_of, is_running}
use personal_carbon_footprin.Db.Invariant.{Inv}
use personal_carbon_footprin.Db.Claiming.{
  IsDue, claimed_db, claim_pending_job-IsNext, claim_oracle_job_by_id_lem,
}
use personal_carbon_footprin.Db.Keeps.{Inv-inserted_job, status_of-above, status_of-inserted_job}
use personal_carbon_footprin.Db.Enqueueing.{enqueue_oracle_job_lem}
use personal_carbon_footprin.Db.Transitions.{
  Inv-claimed_db, status_of-claimed_db, Inv-finished_db, status_of-finished_db,
}
use personal_carbon_footprin.Db.Finishing.{
  complete_oracle_job_lem, fail_oracle_job_lem, completed_result, failed_change, failed_result,
  next_status,
}
use personal_carbon_footprin.Db.Trace.Step.Edges.{
  ◌⟶◌, succeed, retry, give_up, Goes, Goes-stay, create_step, move_step, claim_edge, status_of-same,
  status_of-Memᴰ,
}

-- The calls that make a job, or move one job.
pub enqueue-Goes :
    (input : OracleJobInput) (db : Db) → Inv db → Goes none db (enqueue_oracle_job input db).1
enqueue-Goes input db inv = elim (enqueue_oracle_job_lem input db inv) [
  | inl (_, e) ↦ rw e (Goes-stay inv)
  | inr (_, e, _, _) ↦ rw e (record {
    inv = Inv-inserted_job input db inv;
    step = λ id.
        create_step (suc db.job_sequence == id) (λ e. status_of-above db id inv (ground arith))
          (status_of-inserted_job input db id inv);
    keeps = λ id f r.
        ground (arith, status_of-inserted_job input db id inv, status_of-above db id inv, r);
  })
]

pub claimed-Goes :
    (row : OracleJobRow) (worker_id : String) (now_ms lock_duration_ms : ℕ) (db : Db)
    → Inv db
    → Memᴰ row db.oracle_jobs
    → IsDue now_ms row
    → Goes none db (claimed_db row worker_id now_ms lock_duration_ms db)
claimed-Goes row worker_id now_ms lock_duration_ms db inv m d =
    let known = status_of-Memᴰ row db inv m in
    record {
      inv = Inv-claimed_db row worker_id now_ms lock_duration_ms db inv (rw known refl);
      step = λ id.
          move_step (row.id == id) row.status running (claim_edge row.status d.waiting)
            (λ e. status_of-same row.id id db (ground arith) ∙ known)
            (status_of-claimed_db row worker_id now_ms lock_duration_ms db id);
      keeps = λ id f r.
          ground (arith, status_of-claimed_db row worker_id now_ms lock_duration_ms db id, r);
    }

pub claim-Goes :
    (worker_id : String) (now_ms lock_duration_ms : ℕ) (db : Db)
    → Inv db
    → Goes none db (claim_pending_job worker_id now_ms lock_duration_ms db).1
claim-Goes worker_id now_ms lock_duration_ms db inv =
    elim (claim_pending_job-IsNext worker_id now_ms lock_duration_ms db inv) [
      | inl (e, _) ↦ rw e (Goes-stay inv)
      | inr (row, next, e) ↦
          rw e (claimed-Goes row worker_id now_ms lock_duration_ms db inv next.listed next.is_due)
    ]

pub claim_by_id-Goes :
    (job_id : ℕ) (worker_id : String) (now_ms lock_duration_ms : ℕ) (db : Db)
    → Inv db
    → Goes none db (claim_oracle_job_by_id job_id worker_id now_ms lock_duration_ms db).1
claim_by_id-Goes job_id worker_id now_ms lock_duration_ms db inv =
    elim (claim_oracle_job_by_id_lem job_id worker_id now_ms lock_duration_ms db inv) [
      | inl (e, _) ↦ rw e (Goes-stay inv)
      | inr (row, _, m, d, e) ↦ rw e (claimed-Goes row worker_id now_ms lock_duration_ms db inv m d)
    ]

pub keeps_other :
    (k id : ℕ) (s : Option OracleJobStatus) {t u : Option OracleJobStatus}
    → some k ≢ some id
    → t ≡ (if k == id then s else u)
    → u ≡ some running
    → t ≡ some running
keeps_other k id s f e r = ground (arith, e, r)

pub running-status : (id : ℕ) (db : Db) → is_running id db ≡ true → status_of id db ≡ some running
running-status id db h = ground arith

pub complete-Goes :
    (input : CompleteOracleJobInput) (db : Db)
    → Inv db
    → input.lock_key ≡ job_lock_key input.job_id
    → Goes (some input.job_id) db (complete_oracle_job input db).1
complete-Goes input db inv own = elim (complete_oracle_job_lem input db inv own) [
  | inr (_, e) ↦ rw e (Goes-stay inv)
  | inl (runs, (row, _, e)) ↦
      let change = set_completed input.finished_at_ms in
      let result = completed_result input in
      rw e (record {
        inv =
            Inv-finished_db input.job_id change completed result db (λ r. refl) (λ r. refl) inv
              refl;
        step = λ id.
            move_step (input.job_id == id) running completed succeed
              (λ b.
                status_of-same input.job_id id db (ground arith)
                ∙ running-status input.job_id db runs)
              (status_of-finished_db input.job_id change completed result db (λ r. refl) (λ r. refl)
                id);
        keeps = λ id f r.
            keeps_other input.job_id id _ f
              (status_of-finished_db input.job_id change completed result db (λ x. refl) (λ x. refl)
                id)
              r;
      })
]

pub fail_edge : (input : FailOracleJobInput) → some running ⟶ some (next_status input)
fail_edge input = elim (Bool-cases input.retryable) [ inl e ↦ rw e retry | inr e ↦ rw e give_up ]

pub fail-Goes :
    (input : FailOracleJobInput) (db : Db)
    → Inv db
    → input.lock_key ≡ job_lock_key input.job_id
    → Goes (some input.job_id) db (fail_oracle_job input db).1
fail-Goes input db inv own = elim (fail_oracle_job_lem input db inv own) [
  | inr (_, e) ↦ rw e (Goes-stay inv)
  | inl (runs, (row, _, e)) ↦
      let change = failed_change input in
      let result = failed_result input in
      rw e (record {
        inv =
            Inv-finished_db input.job_id change (next_status input) result db (λ r. refl)
              (λ r. refl) inv (ground arith);
        step = λ id.
            move_step (input.job_id == id) running (next_status input) (fail_edge input)
              (λ b.
                status_of-same input.job_id id db (ground arith)
                ∙ running-status input.job_id db runs)
              (status_of-finished_db input.job_id change (next_status input) result db (λ r. refl)
                (λ r. refl) id);
        keeps = λ id f r.
            keeps_other input.job_id id _ f
              (status_of-finished_db input.job_id change (next_status input) result db (λ x. refl)
                (λ x. refl) id)
              r;
      })
]
