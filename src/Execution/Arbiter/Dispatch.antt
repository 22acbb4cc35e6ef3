-- ===== src/Execution/Arbiter/Dispatch.antt =====
-- What the worker may start, what a port's answer becomes, and what `submit` accepts.
use embodi_run.Base.{
  ℕ, ◌≡◌, ◌⊎◌, ◌↔◌, Bool, true, false, Option, none, some, List, [], ◌∷◌, arith, inl, inr,
  Option-cases, All,
}
use embodi_run.Execution.Io.{IoStatus}
use embodi_run.Execution.Ticket.{executed, failed, running, is_automatic, CommandStatus, Ticket}
use embodi_run.Execution.Arbiter.State.{
  State, model_authority, manual_authority, estop_latched, optional_token_set,
}
use embodi_run.Execution.Arbiter.Stops.{PortAnswer}
use embodi_run.Execution.Arbiter.Worker.{take_turn, dispatched, past_deadline}
use embodi_run.Execution.Arbiter.Completion.{
  ExecuteAnswer, outcome, completion, complete, is_failed,
}
use embodi_run.Execution.Arbiter.Invariant.{Inv}

-- The authority's rule: a manual command under manual authority with the deadman held, and an
-- automatic one under model authority.
abbrev pub MayRun : {A : Type 0} → State A → Bool → Type 0
MayRun s automatic =
    ((s.authority ≡ manual_authority) × (s.deadman_active ≡ true) × (automatic ≡ false))
    ⊎ ((s.authority ≡ model_authority) × (automatic ≡ true))

-- The port returned without failing: no result, or a completed one.
abbrev pub Succeeded : ExecuteAnswer → Type 0
Succeeded (ExecuteAnswer.raised e r) = ⊥
Succeeded (ExecuteAnswer.returned none) = Unit
Succeeded (ExecuteAnswer.returned (some r)) = r.status ≡ IoStatus.completed

-- The worker's verdict on a port's answer is "executed" exactly when the port returned without
-- failing and the ticket had not been cancelled.
pub executed_iff :
    (answer : ExecuteAnswer) (was_cancelled : Bool)
    → ((outcome answer was_cancelled).0 ≡ executed) ↔ ((was_cancelled ≡ false) × Succeeded answer)
unfolding outcome
executed_iff (ExecuteAnswer.raised e r) was_cancelled = ground arith
executed_iff (ExecuteAnswer.returned none) was_cancelled = ground arith
executed_iff (ExecuteAnswer.returned (some r)) was_cancelled = ground arith

-- The ticket that was handed back last.
abbrev pub first_settled : {A : Type 0} → List (Ticket A) → Option (ℕ × CommandStatus)
first_settled [] = none
first_settled (t ∷ ts) = some (t.action_id, t.status)

module _ {A : Type 0} where
  -- Whatever the worker makes active is running, was let through by the authority, at a moment with
  -- no hold in progress and the arbiter open, and neither its task was cancelled nor its deadline
  -- past.
  pub dispatch_authorized :
      (now : ℕ) (s u : State A)
      → Inv s
      → take_turn now s ≡ (u, dispatched)
      → (t : Ticket A) × (u.active ≡ some t)
        × (t.status ≡ running)
        × MayRun s (is_automatic t.envelope.source)
        × (s.hold_in_progress ≡ false)
        × (s.closed ≡ false)
        × (optional_token_set t.envelope.task_cancel s.token_set ≡ false)
        × (past_deadline t.envelope.deadline_s now ≡ false)
  unfolding take_turn
  dispatch_authorized now s u v h = elim (Option-cases u.active) [
    | inl nothing_active ↦ ground arith
    | inr (t, e) ↦
        (t, e, ground arith, ground arith, ground arith, ground arith, ground arith, ground arith)
  ]

  -- Is the active ticket published as failed?
  abbrev pub is_failure : Option (Ticket A) → Bool
  is_failure none = false
  is_failure (some t) = is_failed t.status

  -- When the port fails, or raises for a ticket that was not cancelled, and the arbiter is open: in
  -- each state that the worker's calls leave in turn, the active ticket is not failed or the arbiter is
  -- latched, so the failure is not published before the emergency stop; and in the end the arbiter is
  -- latched, idle and holds nothing, and the ticket is handed back as failed.
  pub failure_latches :
      (answer : ExecuteAnswer) (stop : PortAnswer) (t : Ticket A) (s : State A)
      → s.active ≡ some t
      → t.status ≡ running
      → s.closed ≡ false
      → (outcome answer t.cancel_event).0 ≡ failed
      → All
          (λ u. is_failure u.active ≡ true → u.authority ≡ estop_latched)
          (completion answer stop t s)
        × ((complete answer stop s).authority ≡ estop_latched)
        × ((complete answer stop s).active ≡ none)
        × ((complete answer stop s).hold_in_progress ≡ false)
        × (first_settled (complete answer stop s).settled ≡ some (t.action_id, failed))
  unfolding complete completion
  failure_latches answer stop t s a r o f =
      (ground arith, ground arith, ground arith, ground arith, ground arith)
