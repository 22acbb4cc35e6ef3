-- ===== src/Execution/PortTests.antt =====
-- The port's theorems at concrete results.
use embodi_run.Base.{◌≡◌, ◌⊎◌, ◌↔◌, refl, true, false, none, some, []}
use embodi_run.Execution.Io.{IoStatus, stop, boolean, immediate}
use embodi_run.Execution.Scheduler.State.{Request, State}
use embodi_run.Execution.Scheduler.Worker.{returned, run_request, finish_request}
use embodi_run.Execution.Arbiter.Stops.{stop_error}
use embodi_run.Execution.Port.{stop_answer, stop_accepted_iff, denied_stop_accepted}

abbrev stop_request : Request
stop_request = record {
  id = 0;
  operation = stop;
  cancel_event = none;
  deadline_s = none;
  started = true;
  cancelled = false;
  detached = false;
  result = none;
}

abbrev stopping : State
stopping = record {
  max_pending_operations = 2;
  max_pending_reads = 1;
  queue = [];
  queued_reads = 0;
  active = some stop_request;
  queued_stop = none;
  closed = false;
  quarantined = false;
  last_stop_result = none;
  preemptive_active = false;
  next_id = 1;
  answered = [];
}

stop_accepted_iff_example :
    let r = immediate stop IoStatus.rejected false in
    (stop_error (stop_answer r) ≡ none) ↔ (
      (r.status ≡ IoStatus.completed)
      ⊎ ((r.status ≡ IoStatus.cancelled) ⊎ ((r.status ≡ IoStatus.failed) × (r.error ≡ none))))
stop_accepted_iff_example = stop_accepted_iff (immediate stop IoStatus.rejected false) refl

denied_stop_accepted_example :
    let answer = returned (boolean false) in
    ((finish_request 0 (λ _. false) answer stopping).quarantined ≡ true)
    × (stop_error (stop_answer (run_request 0 (λ _. false) answer stop_request)) ≡ none)
denied_stop_accepted_example =
    denied_stop_accepted 0 (λ _. false) stop_request stopping refl refl refl refl
