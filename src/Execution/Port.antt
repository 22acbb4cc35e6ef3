-- ===== src/Execution/Port.antt =====
-- `RobotAdapterCommandPort` of src/embodirun/devices/execution/arbitration.py, from the scheduler's
-- result up to what the arbiter sees.
use embodi_run.Base.{
  ℕ, ◌≡◌, ◌⊎◌, ◌↔◌, Bool, true, false, none, some, String, arith, Result, ok, err, if◌then◌else◌,
}
use embodi_run.Execution.Io.{IoStatus, is_stop, boolean, IoResult}
use embodi_run.Execution.Scheduler.State
use embodi_run.Execution.Scheduler.State.{Request}
use embodi_run.Execution.Scheduler.Worker.{returned, run_request, finish_request}
use embodi_run.Execution.Arbiter.Stops
use embodi_run.Execution.Arbiter.Stops.{PortAnswer, stop_error, stop_result_is_uncertain}

-- `IOUnknownError`, the driver's own exception, `IOOperationError`.
pub data PortError : Type 0 where
  unknown_error : IoResult → PortError
  driver_error : String → PortError
  operation_error : IoResult → PortError

-- The last tests of `_raise_io_failure`.
raise_by_status : IoStatus → IoResult → Result PortError Unit
raise_by_status IoStatus.unknown r = err (unknown_error r)
raise_by_status IoStatus.rejected r = if is_stop r.operation then ok tt else err (operation_error r)
raise_by_status IoStatus.expired r = err (operation_error r)
raise_by_status IoStatus.failed r = elim r.error [ some e ↦ err (driver_error e) | none ↦ ok tt ]
raise_by_status _ r = ok tt

-- `_raise_io_failure`
unfoldable pub raise_io_failure : IoResult → Result PortError Unit
unfolding raise_by_status
raise_io_failure r = raise_by_status r.status r

abbrev pub error_text : PortError → String
error_text (driver_error e) = e
error_text (unknown_error r) = "stop I/O unknown"
error_text (operation_error r) = "I/O error"

abbrev answer_of : IoResult → Result PortError Unit → PortAnswer
answer_of r (ok u) = Stops.returned (some r)
answer_of r (err e) = Stops.raised (error_text e)

-- `hold` and `emergency_stop`: the arbiter's view of the scheduler's result of a stop.
unfoldable pub stop_answer : IoResult → PortAnswer
unfolding raise_io_failure
stop_answer r = answer_of r (raise_io_failure r)

-- The arbiter takes a stop for done, with no error, exactly when the scheduler's result is
-- completed, cancelled, or failed with no exception: an unknown, rejected, expired or raised stop
-- never passes.
pub stop_accepted_iff :
    (r : IoResult)
    → is_stop r.operation ≡ true
    → (stop_error (stop_answer r) ≡ none) ↔ (
        (r.status ≡ IoStatus.completed)
        ⊎ ((r.status ≡ IoStatus.cancelled) ⊎ ((r.status ≡ IoStatus.failed) × (r.error ≡ none))))
unfolding stop_answer stop_error
stop_accepted_iff r st = ground arith

-- A stop that the driver denies by returning `False` quarantines the bus, and yet the arbiter takes
-- it for done.
pub denied_stop_accepted :
    (now : ℕ) (events : ℕ → Bool) (r : Request) (s : State.State)
    → s.active ≡ some r
    → is_stop r.operation ≡ true
    → r.deadline_s ≡ none
    → r.cancel_event ≡ none
    → let answer = returned (boolean false) in
      ((finish_request now events answer s).quarantined ≡ true)
      × (stop_error (stop_answer (run_request now events answer r)) ≡ none)
unfolding finish_request run_request stop_answer stop_error
denied_stop_accepted now events r s a st d c = ground arith
