-- ===== src/Db/Trace/Step.antt =====
-- backend/src/db/index.ts: what one call of the store does to the status of each job.
mod Edges
mod Locks
mod Jobs
pub use Edges.*
pub use Locks.*
pub use Jobs.*
use mathlib.Core.Option
use personal_carbon_footprin.Db.Tables.{Db}
use personal_carbon_footprin.Db.Invariant.{Inv}
use personal_carbon_footprin.Db.Trace.{
  StoreCall, reserve, enqueue, claim, claim_by_id, start, complete, fail, acquire, release, apply,
  IsDisciplined, finishes,
}

-- Every disciplined call keeps the tables consistent, and moves each job along its life by at
-- most one step.
pub apply-Goes :
    (call : StoreCall) (db : Db)
    → IsDisciplined call
    → Inv db
    → Goes (finishes call) db (apply call db)
unfolding apply
apply-Goes (reserve input) db d inv = reserve-Goes input db inv
apply-Goes (enqueue input) db d inv = enqueue-Goes input db inv
apply-Goes (claim worker_id now_ms lock_duration_ms) db d inv =
    claim-Goes worker_id now_ms lock_duration_ms db inv
apply-Goes (claim_by_id job_id worker_id now_ms lock_duration_ms) db d inv =
    claim_by_id-Goes job_id worker_id now_ms lock_duration_ms db inv
apply-Goes (start input) db d inv = start-Goes input db inv
apply-Goes (complete input) db d inv = complete-Goes input db inv d
apply-Goes (fail input) db d inv = fail-Goes input db inv d
apply-Goes (acquire input) db d inv = acquire-Goes input db inv d
apply-Goes (release lock_key) db d inv = release-Goes lock_key db inv d
