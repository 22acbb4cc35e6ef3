-- ===== src/Execution/Scheduler/Worker.antt =====
-- The scheduler's worker, `_run`: it takes the request at the front, runs the driver, and answers.
use embodi_run.Base.{
  ℕ, ◌-◌, Bool, true, false, not, ◌&&◌, ◌||◌, Option, none, some, List, [], ◌∷◌, String, same_id,
  if◌then◌else◌,
}
use embodi_run.Execution.Io.{
  IoStatus, completed, cancelled, expired, failed, Operation, is_stop, is_read, DriverValue,
  nothing, IoResult, immediate, stop_confirmation,
}
use embodi_run.Execution.Scheduler.State.{Request, State}
use embodi_run.Execution.Scheduler.Admit.{deadline_passed}

-- The driver raises or returns.
pub data DriverAnswer : Type 0 where
  raised : String → DriverAnswer
  returned : DriverValue → DriverAnswer

-- The request out of the queue, with the two counters that follow the queue.
abbrev pub pop_front : Request → List Request → State → State
pop_front r rs s = record s {
  queue = rs;
  queued_reads = if is_read r.operation then s.queued_reads - 1 else s.queued_reads;
  queued_stop = if same_id (some r.id) s.queued_stop then none else s.queued_stop;
}

start_front : Request → State → State
start_front r s =
    if r.cancelled
    then record s {
      answered = record r { result = some (immediate r.operation cancelled false) } ∷ s.answered;
    }
    else record s { active = some (record r { started = true }) }

take_front : List Request → State → State
unfolding start_front
take_front [] s = s
take_front (r ∷ rs) s = start_front r (pop_front r rs s)

-- The first lock of a turn, where the worker does not wait: a closed scheduler drains its queue even
-- beside a preemptive stop.
unfoldable pub take_request : State → State
unfolding take_front
take_request s = if s.preemptive_active && not s.closed then s else take_front s.queue s

abbrev pub event_is_set : Option ℕ → (ℕ → Bool) → Bool
event_is_set none events = false
event_is_set (some e) events = events e

driver_result : Operation → DriverAnswer → IoResult
driver_result op (raised e) = record {
  operation = op;
  status = failed;
  driver_returned = false;
  driver_value = nothing;
  stop_confirmed = none;
  error = some e;
  quarantined = false;
}
driver_result op (returned v) = record {
  operation = op;
  status = completed;
  driver_returned = true;
  driver_value = v;
  stop_confirmed = if is_stop op then stop_confirmation v else none;
  error = none;
  quarantined = false;
}

-- What a request is answered: the driver is called only if its deadline is not past and its event
-- not set.
unfoldable pub run_request : ℕ → (ℕ → Bool) → DriverAnswer → Request → IoResult
unfolding driver_result stop_confirmation
run_request now events answer r =
    if deadline_passed r.deadline_s now
    then immediate r.operation expired false
    else if event_is_set r.cancel_event events
    then immediate r.operation cancelled false
    else driver_result r.operation answer

abbrev is_failed : IoStatus → Bool
is_failed failed = true
is_failed _ = false

abbrev is_denied : Option Bool → Bool
is_denied (some false) = true
is_denied (some true) = false
is_denied none = false

-- A stop that failed, or that the driver denies.
abbrev pub stop_went_wrong : IoResult → Bool
stop_went_wrong r = is_failed r.status || is_denied r.stop_confirmed

finish_stop : Request → IoResult → State → State
finish_stop r result s =
    let q = stop_went_wrong result || s.quarantined in
    let noted = record result { quarantined = q } in
    record s {
      active = none;
      quarantined = q;
      last_stop_result = some noted;
      answered = record r { result = some noted } ∷ s.answered;
    }

finish_other : Request → IoResult → State → State
finish_other r result s = record s {
  active = none;
  answered = record r { result = some result } ∷ s.answered;
}

finish_active : Option Request → (Request → IoResult) → State → State
unfolding finish_stop finish_other
finish_active none run s = s
finish_active (some r) run s =
    if is_stop r.operation then finish_stop r (run r) s else finish_other r (run r) s

-- The last lock of a turn, with the driver's answer.
unfoldable pub finish_request : ℕ → (ℕ → Bool) → DriverAnswer → State → State
unfolding finish_active run_request
finish_request now events answer s = finish_active s.active (run_request now events answer) s
