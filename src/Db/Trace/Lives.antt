-- ===== src/Db/Trace/Lives.antt =====
-- backend/src/db/index.ts: the lives of jobs over any sequence of store calls.
use personal_carbon_footprin.Prelude.{
  ℕ, String, Option, some, none, ◌≡◌, refl, ◌≢◌, inl, inr, arith, List, [], ◌∷◌, All, Memᴰ,
}
use personal_carbon_footprin.Storage.{OracleJobStatus, running, failed, completed, ClaimedOracleJob}
use personal_carbon_footprin.Db.Tables.{Db, OracleJobRow, map_oracle_job}
use personal_carbon_footprin.Db.Store.{claim_pending_job, claim_oracle_job_by_id}
use personal_carbon_footprin.Db.Views.{status_of}
use personal_carbon_footprin.Db.Invariant.{Inv}
use personal_carbon_footprin.Db.Trace.{StoreCall, finishes, apply, run_calls, IsDisciplined}
use personal_carbon_footprin.Db.Claiming.{
  claim_pending_job-IsNext, claim_oracle_job_by_id_lem, IsDue,
}
use personal_carbon_footprin.Db.Trace.Step.{
  status_of-Memᴰ, ◌⟶◌, stay, create, first_claim, claim_again, succeed, retry, give_up, apply-Goes,
}

infix 40 ◌⟶*◌
pub data ◌⟶*◌ : Option OracleJobStatus → Option OracleJobStatus → Type 0 where
  here : {s : Option OracleJobStatus} → s ⟶* s
  then : {s t u : Option OracleJobStatus} → s ⟶ t → t ⟶* u → s ⟶* u

-- Any calls that finish jobs under their own locks, and acquire and release no job's lock by name,
-- keep consistent tables consistent.
pub run_calls-Inv :
    (calls : List StoreCall) (db : Db) → All IsDisciplined calls → Inv db → Inv (run_calls calls db)
unfolding run_calls
run_calls-Inv [] db d inv = inv
run_calls-Inv (call ∷ calls) db (d, ds) inv =
    run_calls-Inv calls (apply call db) ds (apply-Goes call db d inv).inv

-- From a consistent store, whatever disciplined calls are made, in whatever order, each job moves
-- along the edges of its life: from pending to running, from there to completed, retryable or failed, and from retryable
-- to running again.
pub run_calls-⟶* :
    (calls : List StoreCall) (db : Db)
    → All IsDisciplined calls
    → Inv db
    → (id : ℕ) → status_of id db ⟶* status_of id (run_calls calls db)
unfolding run_calls
run_calls-⟶* [] db d inv id = here
run_calls-⟶* (call ∷ calls) db (d, ds) inv id =
    let goes = apply-Goes call db d inv in
    then (goes.step id) (run_calls-⟶* calls (apply call db) ds goes.inv id)

completed-step : {s t : Option OracleJobStatus} → s ≡ some completed → s ⟶ t → t ≡ some completed
completed-step h stay = h
completed-step h create = cc
completed-step h first_claim = cc
completed-step h claim_again = cc
completed-step h succeed = cc
completed-step h retry = cc
completed-step h give_up = cc

failed-step : {s t : Option OracleJobStatus} → s ≡ some failed → s ⟶ t → t ≡ some failed
failed-step h stay = h
failed-step h create = cc
failed-step h first_claim = cc
failed-step h claim_again = cc
failed-step h succeed = cc
failed-step h retry = cc
failed-step h give_up = cc

completed-absorbs :
    {s t : Option OracleJobStatus} → s ≡ some completed → s ⟶* t → t ≡ some completed
completed-absorbs h here = h
completed-absorbs h (then e r) = completed-absorbs (completed-step h e) r

failed-absorbs : {s t : Option OracleJobStatus} → s ≡ some failed → s ⟶* t → t ≡ some failed
failed-absorbs h here = h
failed-absorbs h (then e r) = failed-absorbs (failed-step h e) r

-- From a consistent store, a job that is completed, or has failed, stays so under any disciplined
-- calls.
pub run_calls-final :
    (calls : List StoreCall) (db : Db) (id : ℕ)
    → All IsDisciplined calls
    → Inv db
    → ((status_of id db ≡ some completed) → status_of id (run_calls calls db) ≡ some completed)
      × ((status_of id db ≡ some failed) → status_of id (run_calls calls db) ≡ some failed)
run_calls-final calls db id d inv =
    let path = run_calls-⟶* calls db d inv id in
    (λ h. completed-absorbs h path, λ h. failed-absorbs h path)

-- From a consistent store, a running job goes on running under any disciplined calls that do not
-- finish that job: whatever the clock says, and whoever claims.
pub run_calls-running :
    (calls : List StoreCall) (db : Db) (id : ℕ)
    → All IsDisciplined calls
    → All (λ call. finishes call ≢ some id) calls
    → Inv db
    → status_of id db ≡ some running
    → status_of id (run_calls calls db) ≡ some running
unfolding run_calls
run_calls-running [] db id d f inv r = r
run_calls-running (call ∷ calls) db id (d, ds) (f, fs) inv r =
    let goes = apply-Goes call db d inv in
    run_calls-running calls (apply call db) id ds fs goes.inv (goes.keeps id f r)

due-not_running :
    (row : OracleJobRow) (db : Db) (id now_ms : ℕ)
    → Inv db
    → Memᴰ row db.oracle_jobs
    → IsDue now_ms row
    → row.id ≡ id
    → status_of id db ≢ some running
due-not_running row db id now_ms inv m d same r =
    let known = status_of-Memᴰ row db inv m in
    let here : status_of row.id db ≡ some running = rw same r in
    ground (arith, known, here, d.waiting)

-- In a consistent store, while a job runs no worker can claim it, by its id or as the next job.
pub claim_excludes :
    (db : Db) (id : ℕ) (worker_id : String) (now_ms lock_duration_ms : ℕ) (job : ClaimedOracleJob)
    → Inv db
    → status_of id db ≡ some running
    → ((claim_pending_job worker_id now_ms lock_duration_ms db).0 ≡ some job → job.id ≢ id)
      × ((claim_oracle_job_by_id id worker_id now_ms lock_duration_ms db).0 ≡ none)
unfolding map_oracle_job
claim_excludes db id worker_id now_ms lock_duration_ms job inv r = (
  λ claimed same. elim (claim_pending_job-IsNext worker_id now_ms lock_duration_ms db inv) [
    | inl (e, _) ↦ ground (arith, e, claimed)
    | inr (row, next, e) ↦
        due-not_running row db id now_ms inv next.listed next.is_due
          (ground (arith, e, claimed, same)) r
  ],
  elim (claim_oracle_job_by_id_lem id worker_id now_ms lock_duration_ms db inv) [
    | inl (e, _) ↦ rw e refl
    | inr (row, same, m, d, e) ↦ absurd (due-not_running row db id now_ms inv m d same r)
  ],
)
