-- ===== src/Execution/Scheduler/Tests.antt =====
-- The scheduler's theorems at concrete states.
use embodi_run.Base.{ℕ, ◌≡◌, refl, true, false, none, some, [], ◌∷◌}
use embodi_run.Execution.Io.{IoStatus, Operation, execute, stop, boolean, IoResult}
use embodi_run.Execution.Scheduler.State.{Request, State, create}
use embodi_run.Execution.Scheduler.Admit.{admit, admitted}
use embodi_run.Execution.Scheduler.Worker.{DriverAnswer, take_request, finish_request}
use embodi_run.Execution.Scheduler.Steps.{Step, Reach, Inv}
use embodi_run.Execution.Scheduler.Preserved.{scheduler_Inv}
use embodi_run.Execution.Scheduler.Quarantine.{
  Unrecovered, Refused, quarantine_refuses_motion, failed_stop_runs_motion,
}
use embodi_run.Execution.Scheduler.Accounting.{places, no_request_lost}

abbrev request : ℕ → Operation → Request
request id op = record {
  id = id;
  operation = op;
  cancel_event = none;
  deadline_s = none;
  started = false;
  cancelled = false;
  detached = false;
  result = none;
}

-- A new scheduler with room for two operations and one read.
abbrev fresh : State
fresh = record {
  max_pending_operations = 2;
  max_pending_reads = 1;
  queue = [];
  queued_reads = 0;
  active = none;
  queued_stop = none;
  closed = false;
  quarantined = false;
  last_stop_result = none;
  preemptive_active = false;
  next_id = 0;
  answered = [];
}

abbrev one_queued : State
one_queued = record fresh { queue = request 0 execute ∷ []; next_id = 1 }

abbrev one_active : State
one_active = record fresh {
  active = some (record (request 0 execute) { started = true });
  next_id = 1;
}

-- A stop stands before the action.
abbrev stop_queued : State
stop_queued = record one_queued {
  queue = request 1 stop ∷ request 0 execute ∷ [];
  queued_stop = some 1;
  next_id = 2;
}

-- The worker runs the stop, and the action waits.
abbrev stopping : State
stopping = record one_queued {
  active = some (record (request 1 stop) { started = true });
  next_id = 2;
}

abbrev confirmed_stop : IoResult
confirmed_stop = record {
  operation = stop;
  status = IoStatus.completed;
  driver_returned = true;
  driver_value = boolean true;
  stop_confirmed = some true;
  error = none;
  quarantined = true;
}

abbrev quarantined_bus : State
quarantined_bus = record fresh { quarantined = true; last_stop_result = some confirmed_stop }

admitted_lem : admit 0 execute none none fresh ≡ admitted one_queued
unfolding admit
admitted_lem = refl

taken_lem : one_active ≡ take_request one_queued
unfolding take_request
taken_lem = refl

fresh_lem : create 2 1 ≡ fresh
unfolding create
fresh_lem = refl

scheduler_Inv_example : Inv one_active
unfolding create
scheduler_Inv_example = scheduler_Inv 2 1 one_active (
    Reach.next (Reach.next Reach.here (Step.admit_request 0 execute none none admitted_lem))
      (Step.take refl taken_lem))

no_request_lost_example : (places 0 one_queued ≡ 1) × (places 0 one_active ≡ 1)
unfolding create
no_request_lost_example =
    no_request_lost 2 1 0 execute none none fresh one_queued one_active Reach.here admitted_lem
      (Reach.next Reach.here (Step.take refl taken_lem))

quarantine_refuses_motion_example :
    (quarantined_bus.quarantined ≡ true) × Refused (admit 0 execute none none quarantined_bus)
quarantine_refuses_motion_example =
    quarantine_refuses_motion 0 execute none none quarantined_bus quarantined_bus refl
      Unrecovered.here refl

failed_stop_runs_motion_example :
    let u = finish_request 0 (λ _. false) (DriverAnswer.raised "no link") stopping in
    (u.quarantined ≡ true)
    × ((take_request u).active ≡ some (record (request 0 execute) { started = true }))
failed_stop_runs_motion_example =
    failed_stop_runs_motion 0 (λ _. false) "no link" (record (request 1 stop) { started = true })
      (request 0 execute) [] stopping refl refl refl refl refl refl refl
