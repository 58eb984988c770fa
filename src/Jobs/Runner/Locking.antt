-- ===== src/Jobs/Runner/Locking.antt =====
-- backend/src/modules/jobs/runner.ts: `runDueJobs` and its runner lock.
use mathlib.Core.Path.{subst}
use personal_carbon_footprin.Prelude.{
  ℕ, ◌≡◌, refl, sym, ◌≢◌, ◌≤◌, ◌⊎◌, inl, inr, true, false, List, [], length, Bool-cases, Outcome,
  ok,
}
use personal_carbon_footprin.Db.Tables.{job_lock_key}
use personal_carbon_footprin.Db.Statements.{delete_expired_lock, delete_lock}
use personal_carbon_footprin.Db.Store.{release_lock}
use personal_carbon_footprin.Db.Views.{is_locked, is_locked-delete_self}
use personal_carbon_footprin.Db.Invariant.{Inv}
use personal_carbon_footprin.Db.Locks.{
  cleared, locked_db, acquire_service_lock-free, acquire_service_lock-taken,
}
use personal_carbon_footprin.Db.Trace.Step.{acquire-Goes, release-Goes}
use personal_carbon_footprin.Jobs.Runner.{
  Runner, World, with_db, tick, runner_lock, run_locked, run_due_jobs,
}
use personal_carbon_footprin.Jobs.Runner.Execution.{IsSound, IsPolite}
use personal_carbon_footprin.Jobs.Runner.Loop.{LoopEnds, Processes, IsDrained, run_loop-LoopEnds}

-- The runner's lock is no job's lock.
abbrev pub IsApart : Runner → Type 0
IsApart r = (id : ℕ) → job_lock_key id ≢ r.runner_lock_key

-- What `runDueJobs` is to give from this world, where it has its lock: the ids of the jobs that it
-- claimed, executed and settled in its turns, at most so many, fewer only if none is due, with the lock
-- free, which is all that is done after the turns, and the store sound.
pub record RunEnds (r : Runner) (start : World) (max_jobs : ℕ) (result : Outcome (List ℕ))
    (after : World) : Type 0 where
  pub ids : List ℕ
  pub returned : result ≡ ok ids
  pub last : World
  pub processes : Processes r start max_jobs ids last
  pub released : after ≡ with_db last (release_lock r.runner_lock_key last.db)
  pub bounded : (length ids ≡ max_jobs) ⊎ ((length ids ≤ max_jobs) × IsDrained r after)
  pub unlocked : is_locked r.runner_lock_key after.db ≡ false
  pub sound : IsSound after.db

released-RunEnds :
    (r : Runner) (start : World) (max_jobs : ℕ) (result : Outcome (List ℕ)) (after : World)
    → IsApart r
    → LoopEnds r start max_jobs [] result after
    → RunEnds r start max_jobs result (with_db after (release_lock r.runner_lock_key after.db))
unfolding release_lock delete_lock
released-RunEnds r start max_jobs result after apart ends = record {
  ids = ends.ids;
  returned = ends.returned;
  last = after;
  processes = ends.processes;
  released = refl;
  bounded = ends.bounded;
  unlocked = is_locked-delete_self r.runner_lock_key after.db;
  sound = record {
    inv = (release-Goes r.runner_lock_key after.db ends.sound.inv apart).inv;
    numbered = ends.sound.numbered;
  };
}

-- Let the store be sound, the runner's lock no job's lock, and let others keep the store sound and
-- finish no running job meanwhile. While somebody holds the runner lock and it is not expired,
-- `runDueJobs` processes nothing and only clears expired locks of that key. Else it throws nothing and
-- returns the ids of its turns, in each of which the job that is next is claimed, executed and settled;
-- as many as it may, or fewer and then no job was due when the clock was read last. The lock is
-- free afterwards and the store sound.
pub run_due_jobs_lem :
    (r : Runner) (max_jobs : ℕ) (w : World)
    → IsSound w.db
    → IsApart r
    → IsPolite r
    → let held = is_locked r.runner_lock_key (cleared (runner_lock r w) w.db) in
      ((held ≡ true)
        × (run_due_jobs r max_jobs w ≡ (ok [], with_db (tick w) (cleared (runner_lock r w) w.db))))
      ⊎ ((held ≡ false)
          × let (result, after) = run_due_jobs r max_jobs w in
            let start = locked_db (runner_lock r w) (cleared (runner_lock r w) w.db) in
            RunEnds r (with_db (tick w) start) max_jobs result after)
unfolding run_due_jobs run_locked
run_due_jobs_lem r max_jobs w sound apart polite =
    let lock = runner_lock r w in
    elim (Bool-cases (is_locked r.runner_lock_key (cleared lock w.db))) [
      | inl e ↦ inl (e, rw (acquire_service_lock-taken lock w.db e, run_due_jobs) refl)
      | inr e ↦
          let got = acquire_service_lock-free lock w.db e in
          let db = locked_db lock (cleared lock w.db) in
          let sound' : IsSound db = record {
            inv = subst (λ p. Inv p.1) got (acquire-Goes lock w.db sound.inv apart).inv;
            numbered = unfold delete_expired_lock in sound.numbered;
          } in
          inr (
            e,
            subst
                (λ p.
                  let (result, after) = run_locked r max_jobs (tick w) p in
                  RunEnds r (with_db (tick w) db) max_jobs result after)
                (sym got)
                (released-RunEnds r (with_db (tick w) db) max_jobs _ _ apart
                  (run_loop-LoopEnds r max_jobs [] (with_db (tick w) db) sound' polite)),
          )
    ]
