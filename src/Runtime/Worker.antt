-- ===== src/Runtime/Worker.antt =====
-- backend/src/runtime/create-worker.ts: `OracleWorkerLoop`. `runDueJobs` is asynchronous, so a tick is a
-- run that begins and one that ends later; in between come other events. `isRunning` is whether there is an
-- interval, and `waitForCurrentTick` changes nothing.
use personal_carbon_footprin.Prelude.{
  ℕ, suc, ◌+◌, ◌-◌, ◌==◌, Option, Bool, true, false, List, [], ◌∷◌, ◌++◌, if◌then◌else◌, ◌≡◌,
  Outcome, ok, throw, JsError,
}

-- Whether there is an interval, whether a tick is in flight, and how many runs of `runDueJobsOnce` are.
pub record WorkerLoop : Type 0 where
  pub interval_handle : Bool
  pub tick_in_flight : Bool
  pub once_in_flight : ℕ

pub data WorkerEvent : Type 0 where
  start stop : WorkerEvent
  -- the interval's timer
  fire : WorkerEvent
  -- the tick in flight gives back its result, or throws
  settle : Outcome (List ℕ) → WorkerEvent
  -- `runDueJobsOnce`, and that a run of it gives back its result, or throws
  run_due_jobs_once : (max_jobs : Option ℕ) → WorkerEvent
  settle_once : Outcome (List ℕ) → WorkerEvent

-- What the loop does on an event, as the others see it.
pub data WorkerOutput : Type 0 where
  begin_run : WorkerOutput
  on_tick : List ℕ → WorkerOutput
  on_error : JsError → WorkerOutput
  -- a run for the caller, of so many jobs if it says so, and what the caller gets
  begin_once : (max_jobs : Option ℕ) → WorkerOutput
  give_once : Outcome (List ℕ) → WorkerOutput

abbrev pub new_loop : WorkerLoop
new_loop = record { interval_handle = false; tick_in_flight = false; once_in_flight = 0 }

unfoldable pub schedule_tick : WorkerLoop → WorkerLoop × List WorkerOutput
schedule_tick w =
    if w.tick_in_flight then (w, []) else (record w { tick_in_flight = true }, begin_run ∷ [])

-- What `start` does after `scheduleTick`.
abbrev with_interval : WorkerLoop × List WorkerOutput → WorkerLoop × List WorkerOutput
with_interval (w, outputs) = (record w { interval_handle = true }, outputs)

abbrev settled : Outcome (List ℕ) → WorkerOutput
settled (ok processed) = on_tick processed
settled (throw e) = on_error e

-- No timer fires without an interval, and nothing settles that is not in flight.
unfoldable pub on_event : WorkerEvent → WorkerLoop → WorkerLoop × List WorkerOutput
on_event start w = if w.interval_handle then (w, []) else with_interval (schedule_tick w)
on_event stop w = (record w { interval_handle = false }, [])
on_event fire w = if w.interval_handle then schedule_tick w else (w, [])
on_event (settle result) w =
    if w.tick_in_flight then (record w { tick_in_flight = false }, settled result ∷ []) else (w, [])
-- It does not look whether a tick or another run is in flight.
on_event (run_due_jobs_once max_jobs) w =
    (record w { once_in_flight = suc w.once_in_flight }, begin_once max_jobs ∷ [])
on_event (settle_once result) w =
    if w.once_in_flight == 0
    then (w, [])
    else (record w { once_in_flight = w.once_in_flight - 1 }, give_once result ∷ [])

-- The loop after the events, and all that it did.
unfoldable pub run_events : List WorkerEvent → WorkerLoop → WorkerLoop × List WorkerOutput
run_events [] w = (w, [])
run_events (event ∷ events) w =
    let (next, outputs) = on_event event w in
    let (last, later) = run_events events next in (last, outputs ++ later)

-- How many outputs are of this sort.
abbrev pub count_outputs : (WorkerOutput → Bool) → List WorkerOutput → ℕ
count_outputs test [] = 0
count_outputs test (output ∷ outputs) = (if test output then 1 else 0) + count_outputs test outputs

abbrev pub is_begun : WorkerOutput → Bool
is_begun begin_run = true
is_begun _ = false

abbrev pub is_ended : WorkerOutput → Bool
is_ended (on_tick processed) = true
is_ended (on_error e) = true
is_ended _ = false

abbrev pub is_begun_once : WorkerOutput → Bool
is_begun_once (begin_once max_jobs) = true
is_begun_once _ = false

abbrev pub is_given_once : WorkerOutput → Bool
is_given_once (give_once result) = true
is_given_once _ = false

abbrev pub ticks_in_flight : WorkerLoop → ℕ
ticks_in_flight w = if w.tick_in_flight then 1 else 0

-- What begins and ends accounts for what is in flight.
IsBalanced : WorkerLoop → WorkerLoop × List WorkerOutput → Type 0
IsBalanced w (last, outputs) =
    (ticks_in_flight w + count_outputs is_begun outputs
      ≡ ticks_in_flight last + count_outputs is_ended outputs)
    × (w.once_in_flight + count_outputs is_begun_once outputs
        ≡ last.once_in_flight + count_outputs is_given_once outputs)
