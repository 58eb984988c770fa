-- ===== src/Jobs/Runner/Loop.antt =====
-- backend/src/modules/jobs/runner.ts: the loop of `runDueJobs`.
use mathlib.Core.Path.{subst}
use personal_carbon_footprin.Prelude.{
  ℕ, zero, suc, ◌≤◌, String, Option, some, ◌≡◌, refl, sym, ap, ◌∙◌, ◌⊎◌, inl, inr, arith, List,
  Memᴰ, [], ◌∷◌, ◌++◌, length, ==_refl, is_some, Outcome, ok,
}
use personal_carbon_footprin.Storage.{running, ClaimedOracleJob, OracleJobRecord}
use personal_carbon_footprin.Db.Tables.{Db, OracleJobRow, map_oracle_job}
use personal_carbon_footprin.Db.Statements.{delete_expired_lock}
use personal_carbon_footprin.Db.Views.{status_of}
use personal_carbon_footprin.Db.Claiming.{
  IsDue, IsNext, claimed_db, claimed_job, claim_pending_job-IsNext,
}
use personal_carbon_footprin.Db.Transitions.{Inv-claimed_db, status_of-claimed_db}
use personal_carbon_footprin.Db.Trace.Step.{status_of-Memᴰ}
use personal_carbon_footprin.Jobs.Runner.{
  Runner, World, with_db, tick, execute_claimed_job, run_claimed, run_loop, dispatch_job,
}
use personal_carbon_footprin.Jobs.Runner.Execution.{
  IsSound, IsPolite, IsSettled, settled_status, execute_claimed_job-IsSettled,
}

-- No job is due at the last event, when the clock was read.
abbrev pub IsDrained : Runner → World → Type 0
IsDrained r w =
    (n : ℕ) × (w.events ≡ suc n)
    × ((row : OracleJobRow) → Memᴰ row w.db.oracle_jobs → ¬ IsDue (r.now n) row)

-- The claim of this job, and the world once it is claimed.
abbrev pub claim_of : Runner → World → OracleJobRow → ClaimedOracleJob
claim_of r w row = claimed_job row r.worker_id (r.now w.events)

abbrev pub claimed_world : Runner → World → OracleJobRow → World
claimed_world r w row =
    with_db (tick w) (claimed_db row r.worker_id (r.now w.events) r.job_lock_duration_ms w.db)

-- A run of the loop: from a world, with so many jobs that it may still process, the ids that it gives and
-- the world after it. In each turn the job that is next is claimed, executed and so settled, with the status
-- that its dispatch calls for, and its id is given.
pub data Processes (r : Runner) : World → ℕ → List ℕ → World → Type 0 where
  full : (w : World) → Processes r w 0 [] w
  drained :
      (w : World) (left : ℕ)
      → ((row : OracleJobRow) → Memᴰ row w.db.oracle_jobs → ¬ IsDue (r.now w.events) row)
      → Processes r w (suc left) [] (tick w)
  turn :
      (w after last : World) (left : ℕ) (row : OracleJobRow) (ids : List ℕ)
      (result : Outcome OracleJobRecord)
      → IsNext (r.now w.events) w.db row
      → execute_claimed_job r (claim_of r w row) (claimed_world r w row) ≡ (result, after)
      → IsSettled row.id
          (settled_status (dispatch_job r (suc (suc w.events)) (claim_of r w row).job))
          result
          after
      → Processes r after left ids last
      → Processes r w (suc left) (row.id ∷ ids) last

-- The loop gives the ids that it processed, no more than it may, and fewer only if none is left.
pub record LoopEnds (r : Runner) (w : World) (left : ℕ) (processed : List ℕ)
    (result : Outcome (List ℕ)) (after : World) : Type 0 where
  pub ids : List ℕ
  pub returned : result ≡ ok (processed ++ ids)
  pub processes : Processes r w left ids after
  pub bounded : (length ids ≡ left) ⊎ ((length ids ≤ left) × IsDrained r after)
  pub sound : IsSound after.db

claimed-IsSound :
    (row : OracleJobRow) (worker_id : String) (now_ms lock_duration_ms : ℕ) (db : Db)
    → IsSound db
    → Memᴰ row db.oracle_jobs
    → IsSound (claimed_db row worker_id now_ms lock_duration_ms db)
unfolding delete_expired_lock
claimed-IsSound row worker_id now_ms lock_duration_ms db sound m = record {
  inv =
      Inv-claimed_db row worker_id now_ms lock_duration_ms db sound.inv
        (ap is_some (status_of-Memᴰ row db sound.inv m));
  numbered = sound.numbered;
}

claimed-running :
    (row : OracleJobRow) (worker_id : String) (now_ms lock_duration_ms : ℕ) (db : Db)
    → IsSound db
    → Memᴰ row db.oracle_jobs
    → status_of row.id (claimed_db row worker_id now_ms lock_duration_ms db) ≡ some running
claimed-running row worker_id now_ms lock_duration_ms db sound m =
    rw
      (
        status_of-claimed_db row worker_id now_ms lock_duration_ms db row.id,
        ==_refl row.id,
        status_of-Memᴰ row db sound.inv m,
      )
      refl

append_assoc : (xs : List ℕ) (x : ℕ) (ys : List ℕ) → (xs ++ x ∷ []) ++ ys ≡ xs ++ x ∷ ys
append_assoc [] x ys = refl
append_assoc (z ∷ xs) x ys = ap (λ l. z ∷ l) (append_assoc xs x ys)

append_nil : (xs : List ℕ) → xs ++ [] ≡ xs
append_nil [] = refl
append_nil (z ∷ xs) = ap (λ l. z ∷ l) (append_nil xs)

-- One more turn in front of what a shorter loop gives.
LoopEnds-turn :
    (r : Runner) (w after : World) (left : ℕ) (processed : List ℕ) (row : OracleJobRow)
    (job : Outcome OracleJobRecord) (result : Outcome (List ℕ)) (last : World)
    → IsNext (r.now w.events) w.db row
    → execute_claimed_job r (claim_of r w row) (claimed_world r w row) ≡ (job, after)
    → IsSettled row.id
        (settled_status (dispatch_job r (suc (suc w.events)) (claim_of r w row).job))
        job
        after
    → LoopEnds r after left (processed ++ row.id ∷ []) result last
    → LoopEnds r w (suc left) processed result last
LoopEnds-turn r w after left processed row job result last next executed settled ends = record {
  ids = row.id ∷ ends.ids;
  returned = ends.returned ∙ ap ok (append_assoc processed row.id ends.ids);
  processes = turn w after last left row ends.ids job next executed settled ends.processes;
  bounded = elim ends.bounded [
    | inl e ↦ inl (ap suc e)
    | inr (le, none_due) ↦ inr (omega (arith, le), none_due)
  ];
  sound = ends.sound;
}

pub run_loop-LoopEnds :
    (r : Runner) (left : ℕ) (processed : List ℕ) (w : World)
    → IsSound w.db
    → IsPolite r
    → let (result, after) = run_loop r left processed w in LoopEnds r w left processed result after
unfolding run_loop run_claimed map_oracle_job
run_loop-LoopEnds r zero processed w sound polite = record {
  ids = [];
  returned = ap ok (sym (append_nil processed));
  processes = full w;
  bounded = inl refl;
  sound = sound;
}
run_loop-LoopEnds r (suc left) processed w sound polite =
    elim (claim_pending_job-IsNext r.worker_id (r.now w.events) r.job_lock_duration_ms w.db
      sound.inv) [
        | inl (e, idle) ↦ subst Turn (sym e) (record {
          ids = [];
          returned = ap ok (sym (append_nil processed));
          processes = drained w left idle;
          bounded = inr (omega arith, (w.events, refl, idle));
          sound = sound;
        })
        | inr (row, next, e) ↦
            let claimed = claimed_job row r.worker_id (r.now w.events) in
            let db = claimed_db row r.worker_id (r.now w.events) r.job_lock_duration_ms w.db in
            let settled =
              execute_claimed_job-IsSettled r claimed (with_db (tick w) db)
                (claimed-IsSound row _ _ _ w.db sound next.listed) refl
                (claimed-running row _ _ _ w.db sound next.listed) polite in
            let (result, after) = execute_claimed_job r claimed (with_db (tick w) db) in
            subst Turn (sym e) (
              rw (settled.returned, run_claimed)
                (LoopEnds-turn r w after left processed row result _ _ next refl settled (
                  run_loop-LoopEnds r left (processed ++ row.id ∷ []) after
                    (record { inv = settled.inv; numbered = settled.numbered }) polite)))
      ]
  where
    Turn : Option ClaimedOracleJob × Db → Type 0
    Turn p =
        let (result, after) = run_claimed r (run_loop r left) processed (tick w) p in
        LoopEnds r w (suc left) processed result after
