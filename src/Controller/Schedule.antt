-- ===== src/Controller/Schedule.antt =====
-- controller/controller.go: when the next run is due. Points in time and durations are numbers of
-- one unit; the state is the field nextRunAt.
use dns_sync.Base.{ℕ, Bool, true, false, List, [], ◌∷◌, ◌+◌, not, ltb, if◌then◌else◌}

-- What the schedule reads of the controller
pub record Times : Type 0 where
  pub interval : ℕ
  pub min_event_sync_interval : ℕ

-- `c.ShouldRunOnce(now)`: whether to run, and nextRunAt afterwards.
unfoldable pub should_run_once : Times → ℕ → ℕ → Bool × ℕ
should_run_once c now next_run_at =
    if ltb now next_run_at then (false, next_run_at) else (true, now + c.interval)

-- `c.ScheduleRunOnce(now)`
unfoldable pub schedule_run_once : Times → ℕ → ℕ → ℕ
schedule_run_once c now next_run_at =
    if not (ltb next_run_at (now + c.min_event_sync_interval))
    then now + c.min_event_sync_interval
    else next_run_at

-- What reaches the schedule, each with its time: a tick of the loop in `Run`, an event of a source.
pub data Event : Type 0 where
  tick event : ℕ → Event

-- The times of the runs that a sequence of events leads to
unfoldable pub run : Times → ℕ → List Event → List ℕ
unfolding should_run_once schedule_run_once
run c next [] = []
run c next (tick now ∷ es) =
    let (due, next') = should_run_once c now next in
    let rest = run c next' es in if due then now ∷ rest else rest
run c next (event now ∷ es) = run c (schedule_run_once c now next) es
