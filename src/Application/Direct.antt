-- ===== src/Application/Direct.antt =====
-- `DirectExecutionRunner.run` of src/embodirun/application/direct_execution.py.
use embodi_run.Base.{
  ℕ, suc, Bool, true, false, ◌&&◌, not, Option, some, List, [], ◌∷◌, ◌++◌, String, Result, ok, err,
  length, ltb, ◌==◌, if◌then◌else◌,
}
use embodi_run.Execution.Ticket.{CommandSource, agent, replay, CommandStatus, executed, cancelled}
use embodi_run.Jobs.Types.{PhysicalStatus, stop_requested, stop_unconfirmed}
use embodi_run.Application.Effects.{
  Run, answered, refuse_if, pure, raise_if, ask, lift, ◌>>=◌, ◌>>◌,
}

pub data DirectFault : Type 0 where
  unsupported_source no_actions too_many_actions bad_rate too_long bad_event : DirectFault
  segment_cancelled over_time not_robot_action no_token command_cancelled : DirectFault
  command_failed : CommandStatus → DirectFault
  arbiter_raised begin_raised submit_raised hold_unconfirmed : String → DirectFault

-- The calls of the arbiter, a command with its answer.
pub data DirectCall (A : Type 0) : Type 0 where
  begin_task release_task : DirectCall A
  submit : A → Result String CommandStatus → DirectCall A

-- What the arbiter and the clock answer; the functions are for the turns of the loop. `own_token`
-- says whether the segment's token still stands under its cancellation event, and `overdue` whether
-- the clock is past the longest duration. A ticket is `err` also where its outcome cannot be copied.
pub record World : Type 0 where
  pub max_steps : ℕ
  pub good_rate : Bool
  pub short_enough : Bool
  pub good_event : Bool
  pub arbiter : Result String Unit
  pub beginning : Result String Unit
  pub cancelled_before : ℕ → Bool
  pub overdue : ℕ → Bool
  pub is_action : ℕ → Bool
  pub own_token : ℕ → Bool
  pub ticket : ℕ → Result String CommandStatus
  pub waits : ℕ → Bool
  pub cancelled_in_wait : ℕ → Bool
  pub releasing : Result String Bool

-- The counts of `DirectExecutionResult`.
pub record DirectResult : Type 0 where
  pub requested_steps : ℕ
  pub dispatched_steps : ℕ
  pub executed_steps : ℕ
  pub physical_status : PhysicalStatus

-- `_automatic_source`
abbrev pub automatic_source : Option CommandSource → Result DirectFault CommandSource
automatic_source (some agent) = ok agent
automatic_source (some replay) = ok replay
automatic_source _ = err unsupported_source

abbrev pub check_ticket : CommandStatus → Result DirectFault Unit
check_ticket executed = ok tt
check_ticket cancelled = err command_cancelled
check_ticket status = err (command_failed status)

infixl 5 ◌>>>◌
abbrev pub ◌>>>◌ : Result DirectFault Unit → Result DirectFault Unit → Result DirectFault Unit
ok u >>> r = r
err e >>> r = err e

-- The checks of one turn, up to the command.
abbrev pub before_command : World → ℕ → Result DirectFault Unit
before_command w k =
    refuse_if (w.cancelled_before k) segment_cancelled
    >>> refuse_if (w.overdue k) over_time
    >>> refuse_if (not (w.is_action k)) not_robot_action
    >>> refuse_if (not (w.own_token k)) no_token

abbrev pub physical_of : Bool → PhysicalStatus
physical_of true = stop_requested
physical_of false = stop_unconfirmed

abbrev pub is_executed : CommandStatus → Bool
is_executed executed = true
is_executed _ = false

abbrev pub count_executed : List CommandStatus → ℕ
count_executed [] = 0
count_executed (x ∷ xs) = let rest = count_executed xs in if is_executed x then suc rest else rest

module _ {A : Type 0} where
  -- The wait to the next tick, if actions are left.
  abbrev pub pace : World → ℕ → List A → Result DirectFault Unit
  pace w k [] = ok tt
  pace w k (a ∷ xs) = refuse_if (w.waits k && w.cancelled_in_wait k) segment_cancelled

  -- The loop of `run`, from the action number `k`.
  unfoldable pub run_actions : World → ℕ → List A → Run (DirectCall A) DirectFault Unit
  run_actions w k [] = pure tt
  run_actions w k (a ∷ xs) = do
    lift (before_command w k)
    status ← (submit a (w.ticket k) ∷ [], answered submit_raised (w.ticket k))
    lift (check_ticket status >>> pace w k xs)
    run_actions w (suc k) xs

  -- The statuses of the tickets that returned.
  abbrev pub outcomes : List (DirectCall A) → List CommandStatus
  outcomes [] = []
  outcomes (submit a (ok status) ∷ t) = status ∷ outcomes t
  outcomes (_ ∷ t) = outcomes t

  abbrev pub segment_result : List A → List CommandStatus → Bool → DirectResult
  segment_result xs statuses released = record {
    requested_steps = length xs;
    dispatched_steps = length statuses;
    executed_steps = count_executed statuses;
    physical_status = physical_of released;
  }

  -- After the `finally` part: an error of the segment stays the outcome whatever the release answers.
  abbrev pub release_result :
      List A
      → List CommandStatus
      → Result DirectFault Unit
      → Result String Bool
      → Result DirectFault DirectResult
  release_result xs statuses (err e) released = err e
  release_result xs statuses (ok u) (err e) = err (hold_unconfirmed e)
  release_result xs statuses (ok u) (ok released) = ok (segment_result xs statuses released)

  -- From the new token to its release.
  abbrev pub segment : World → List A → Run (DirectCall A) DirectFault DirectResult
  segment w xs =
      let loop = run_actions w 0 xs in
      (
        begin_task ∷ loop.0 ++ release_task ∷ [],
        release_result xs (outcomes loop.0) loop.1 w.releasing,
      )

  unfoldable pub run :
      World → Option CommandSource → List A → Run (DirectCall A) DirectFault DirectResult
  run w source xs = do
    lift (automatic_source source)
    raise_if (length xs == 0) no_actions
    raise_if (ltb w.max_steps (length xs)) too_many_actions
    raise_if (not w.good_rate) bad_rate
    raise_if (not w.short_enough) too_long
    raise_if (not w.good_event) bad_event
    ask arbiter_raised w.arbiter
    ask begin_raised w.beginning
    segment w xs
