-- ===== src/Execution/Arbiter/Tests/States.antt =====
-- Concrete states of the arbiter. An action is a number here.
use embodi_run.Base.{ℕ, ◌≡◌, refl, true, false, Option, none, some, [], ◌∷◌, ok}
use embodi_run.Execution.Ticket.{Ticket, model, manual, queued, running, cleared, new_ticket}
use embodi_run.Execution.Arbiter.State.{
  State, model_authority, manual_authority, estop_latched, create,
}
use embodi_run.Execution.Arbiter.Queue.{submit, enqueue_automatic}
use embodi_run.Execution.Arbiter.Invariant.{Inv}
use embodi_run.Execution.Arbiter.Preserved.{create-Inv, submit-Inv}

-- A new arbiter with room for two commands and a deadman of a hundred units.
abbrev pub fresh : State ℕ
fresh = record {
  model_queue_capacity = 2;
  manual_deadman_timeout = 100;
  authority = model_authority;
  deadman_active = false;
  manual_heartbeat = none;
  model_queue = [];
  manual_pending = none;
  active = none;
  hold_in_progress = false;
  hold_error = none;
  estop_generation = 0;
  last_stop_error = none;
  last_command_error = none;
  last_event_error = none;
  model_task_cancel = none;
  closed = false;
  token_set = λ _. false;
  next_id = 0;
  settled = [];
}

abbrev pub waiting : Ticket ℕ
waiting = record {
  envelope = record { source = model; action = 7; deadline_s = some 50; task_cancel = none };
  action_id = 0;
  cancel_event = false;
  status = queued;
  error = none;
  result = none;
}

abbrev pub by_hand : ℕ → Ticket ℕ
by_hand id = record {
  envelope = record { source = manual; action = 9; deadline_s = none; task_cancel = none };
  action_id = id;
  cancel_event = false;
  status = queued;
  error = none;
  result = none;
}

abbrev pub one_queued : State ℕ
one_queued = record fresh { model_queue = waiting ∷ []; next_id = 1 }

abbrev pub one_active : State ℕ
one_active = record fresh { active = some (record waiting { status = running }); next_id = 1 }

abbrev pub one_cleared : State ℕ
one_cleared = record fresh { settled = record waiting { status = cleared } ∷ []; next_id = 1 }

abbrev pub stopped : State ℕ
stopped = record one_cleared { authority = estop_latched; estop_generation = 1 }

pub fresh_lem : create 2 100 ≡ ok fresh
unfolding create
fresh_lem = refl

pub one_queued_lem : submit 0 model 7 (some 50) none fresh ≡ ok one_queued
unfolding submit enqueue_automatic new_ticket
one_queued_lem = refl

pub one_queued-Inv : Inv one_queued
one_queued-Inv = submit-Inv 0 model 7 (some 50) none (create-Inv 2 100 fresh_lem) one_queued_lem

-- An operator holds the robot and its deadman.
abbrev pub held : State ℕ
held = record fresh {
  authority = manual_authority;
  deadman_active = true;
  manual_heartbeat = some 1;
}

abbrev pub no_task : Option ℕ
no_task = none

abbrev pub by_hand_pending : State ℕ
by_hand_pending = record held {
  manual_pending = some (by_hand 0);
  next_id = 1;
  manual_heartbeat = some 2;
}
