-- ===== src/Execution/Arbiter/Tests/Commands.antt =====
-- The theorems on commands and on the emergency stop at concrete states.
use embodi_run.Base.{ℕ, ◌≡◌, ◌≢◌, refl, true, false, none, some, [], ◌∷◌, All}
use embodi_run.Execution.Ticket.{
  Ticket, is_automatic, model, manual, running, failed, settle, mark_running,
}
use embodi_run.Execution.Arbiter.State.{
  estop_latched, cancel_active, clear_model_queue, clear_manual, optional_token_set,
}
use embodi_run.Execution.Arbiter.Stops.{returned, latch, emergency_stop_begin, emergency_stop_end}
use embodi_run.Execution.Arbiter.Worker.{
  take_turn, next_ticket, dispatched, past_deadline, map_port_result,
}
use embodi_run.Execution.Arbiter.Completion.{ExecuteAnswer, outcome, completion, complete}
use embodi_run.Execution.Arbiter.Methods.{acquire, deadman, submit_call, run_calls}
use embodi_run.Execution.Arbiter.Steps.{Step, Reach}
use embodi_run.Execution.Arbiter.Invariant.{Inv}
use embodi_run.Execution.Arbiter.Preserved.{arbiter_Inv}
use embodi_run.Execution.Arbiter.Latch.{NoReset, IsLatched, estop_blocks_dispatch}
use embodi_run.Execution.Arbiter.Dispatch.{
  MayRun, first_settled, is_failure, dispatch_authorized, failure_latches,
}
use embodi_run.Execution.Arbiter.Accounting.{places, no_ticket_lost}
use embodi_run.Execution.Arbiter.Serial.{Quiet, serial_Quiet}
use embodi_run.Execution.Arbiter.Tests.States.{
  fresh, waiting, one_queued, one_active, stopped, fresh_lem, one_queued_lem, one_queued-Inv,
}

estop_blocks_dispatch_example : IsLatched stopped × ((take_turn 9 stopped).1 ≢ dispatched)
unfolding emergency_stop_begin emergency_stop_end latch cancel_active clear_model_queue clear_manual
    settle
estop_blocks_dispatch_example =
    estop_blocks_dispatch 9 one_queued (record stopped { hold_in_progress = true }) stopped refl
      (NoReset.next NoReset.here (Step.estop_done none refl) refl)

dispatch_authorized_example :
    (t : Ticket ℕ) × (one_active.active ≡ some t)
    × (t.status ≡ running)
    × MayRun one_queued (is_automatic t.envelope.source)
    × (one_queued.hold_in_progress ≡ false)
    × (one_queued.closed ≡ false)
    × (optional_token_set t.envelope.task_cancel one_queued.token_set ≡ false)
    × (past_deadline t.envelope.deadline_s 20 ≡ false)
unfolding take_turn next_ticket mark_running settle
dispatch_authorized_example = dispatch_authorized 20 one_queued one_active one_queued-Inv refl

no_ticket_lost_example :
    (places 0 fresh ≡ 0) × (places 0 one_queued ≡ 1) × (places 0 one_active ≡ 1)
unfolding take_turn next_ticket mark_running settle
no_ticket_lost_example =
    no_ticket_lost 2 100 0 model 7 (some 50) none fresh fresh one_queued one_active fresh_lem
      Reach.here one_queued_lem (Reach.next Reach.here (Step.take 20 refl refl))

arbiter_Inv_example : Inv one_queued
arbiter_Inv_example =
    arbiter_Inv 2 100 fresh one_queued fresh_lem
      (Reach.next Reach.here (Step.submitted 0 model 7 (some 50) none one_queued_lem))

serial_Quiet_example : Quiet (
    run_calls
      (acquire (returned none)
        ∷ deadman 1 true (returned none)
        ∷ submit_call 2 manual 9 none none
        ∷ [])
      fresh)
serial_Quiet_example =
    serial_Quiet 2 100
      (acquire (returned none)
        ∷ deadman 1 true (returned none)
        ∷ submit_call 2 manual 9 none none
        ∷ [])
      fresh fresh_lem

failure_latches_example :
    let u = complete (ExecuteAnswer.raised "lost" none) (returned none) one_active in
    All
      (λ v. is_failure v.active ≡ true → v.authority ≡ estop_latched)
      (completion
        (ExecuteAnswer.raised "lost" none)
        (returned none)
        (record waiting { status = running })
        one_active)
    × (u.authority ≡ estop_latched)
    × (u.active ≡ none)
    × (u.hold_in_progress ≡ false)
    × (first_settled u.settled ≡ some (0, failed))
unfolding outcome map_port_result
failure_latches_example =
    failure_latches (ExecuteAnswer.raised "lost" none) (returned none)
      (record waiting { status = running }) one_active refl refl refl refl
