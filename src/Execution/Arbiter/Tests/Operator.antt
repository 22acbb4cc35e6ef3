-- ===== src/Execution/Arbiter/Tests/Operator.antt =====
-- The theorems on the operator's methods and on tasks at concrete states.
use embodi_run.Base.{ℕ, ◌≡◌, refl, false, Option, none, some, [], ◌∷◌, String}
use embodi_run.Execution.Ticket.{cleared, settle}
use embodi_run.Execution.Arbiter.State.{
  State, model_authority, manual_authority, estop_latched, cancel_active,
  cancel_active_automatic_ticket, clear_model_queue, clear_manual, set_token,
}
use embodi_run.Execution.Arbiter.Tasks.{finish_automatic_begin, finish_automatic_end}
use embodi_run.Execution.Arbiter.Stops.{returned, finish_hold, stop_error, stop_result_is_uncertain}
use embodi_run.Execution.Arbiter.Authority.{acquire_manual, acquire_manual_begin}
use embodi_run.Execution.Arbiter.Methods.{finish_automatic_work}
use embodi_run.Execution.Arbiter.Takeover.{
  IsCleared, held_authority, acquire_manual_outcome, finish_task_outcome,
}
use embodi_run.Execution.Arbiter.Tests.States.{fresh, by_hand, one_queued, one_cleared}

-- The state that a hold leaves which the port did not confirm.
abbrev latched_by : State ℕ → State ℕ
latched_by s = record s {
  authority = estop_latched;
  estop_generation = 1;
  deadman_active = false;
  manual_heartbeat = none;
  hold_error = some "lost";
  last_stop_error = some "lost";
}

acquire_manual_outcome_example :
    let u = record one_cleared { authority = manual_authority } in
    let e : Option String = none in
    IsCleared u × (u.active ≡ none) × (u.authority ≡ held_authority e manual_authority)
unfolding acquire_manual acquire_manual_begin cancel_active clear_model_queue clear_manual
    finish_hold stop_error stop_result_is_uncertain settle
acquire_manual_outcome_example =
    acquire_manual_outcome (returned none) one_queued
      (record one_cleared { authority = manual_authority }) none refl refl

abbrev by_hand_cleared : State ℕ
by_hand_cleared = record fresh {
  settled = record (by_hand 0) { status = cleared } ∷ [];
  next_id = 1;
}

-- A task with the event 3 owns the robot, and its command waits.
abbrev tasked : State ℕ
tasked = record one_queued { model_task_cancel = some 3 }

abbrev untasked : State ℕ
untasked = record one_cleared { model_task_cancel = none }

finish_task_outcome_example :
    let e : Option String = none in
    (untasked.model_queue ≡ [])
    × (untasked.hold_in_progress ≡ false)
    × (untasked.model_task_cancel ≡ none)
    × (untasked.token_set 3 ≡ false)
    × (untasked.authority ≡ held_authority e model_authority)
unfolding finish_automatic_work finish_automatic_begin finish_automatic_end
    cancel_active_automatic_ticket clear_model_queue finish_hold stop_error stop_result_is_uncertain
    settle
finish_task_outcome_example =
    finish_task_outcome 3 (returned none) tasked untasked none refl refl refl refl

abbrev task_cancelled : State ℕ
task_cancelled = record one_cleared {
  model_task_cancel = some 3;
  token_set = set_token 3 (λ _. false);
}
