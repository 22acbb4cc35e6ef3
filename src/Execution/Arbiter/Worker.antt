-- ===== src/Execution/Arbiter/Worker.antt =====
-- The command worker: `_next_ticket`, `_map_port_result`, and the turns of `_run`.
use embodi_run.Base.{ℕ, Bool, false, not, Option, none, some, [], ◌∷◌, String, ltb, if◌then◌else◌}
use embodi_run.Execution.Io.{IoStatus, IoResult}
use embodi_run.Execution.Ticket.{
  CommandStatus, executed, cancelled, expired, failed, Ticket, mark_running, settle,
}
use embodi_run.Execution.Arbiter.State.{
  State, AuthorityState, model_authority, manual_authority, estop_latched, optional_token_set,
}

-- The text of an `IOOperationError` or `IOUnknownError`, up to its wording.
abbrev pub io_error_text : Option String → String
io_error_text (some e) = e
io_error_text none = "I/O error"

-- `_map_port_result`, by the status of the port's result.
map_status : IoStatus → Option String → Bool → CommandStatus × Option String
map_status IoStatus.completed e was_cancelled =
    (if was_cancelled then cancelled else executed, none)
map_status IoStatus.cancelled e was_cancelled = (cancelled, none)
map_status IoStatus.expired e was_cancelled = (expired, none)
map_status IoStatus.unknown e was_cancelled = (failed, some (io_error_text e))
map_status IoStatus.failed e was_cancelled = (failed, some (io_error_text e))
map_status IoStatus.rejected e was_cancelled = (failed, some (io_error_text e))

unfoldable pub map_port_result : Option IoResult → Bool → CommandStatus × Option String
unfolding map_status
map_port_result none was_cancelled = (if was_cancelled then cancelled else executed, none)
map_port_result (some r) was_cancelled = map_status r.status r.error was_cancelled

-- What a turn of the worker does with the ticket that it took.
pub data Turn : Type 0 where
  idle dispatched ended_early worker_stopped : Turn

abbrev pub past_deadline : Option ℕ → ℕ → Bool
past_deadline none now = false
past_deadline (some d) now = ltb d now

module _ {A : Type 0} where
  next_by_authority : AuthorityState → State A → Option (Ticket A) × State A
  next_by_authority estop_latched s = (none, s)
  next_by_authority manual_authority s =
      if s.deadman_active then (s.manual_pending, record s { manual_pending = none }) else (none, s)
  next_by_authority model_authority s = elim s.model_queue [
    | [] ↦ (none, s)
    | t ∷ ts ↦ (some t, record s { model_queue = ts })
  ]

  -- `_next_ticket`
  unfoldable pub next_ticket : State A → Option (Ticket A) × State A
  unfolding next_by_authority
  next_ticket s = if s.hold_in_progress then (none, s) else next_by_authority s.authority s

  -- The ticket, once marked running: ended by its task's event or by its deadline, or made active.
  start_marked : ℕ → Ticket A × Bool → State A → State A × Turn
  start_marked now (t, marked) s =
      if not marked
      then (record s { settled = t ∷ s.settled }, ended_early)
      else if optional_token_set t.envelope.task_cancel s.token_set
      then (record s { settled = settle cancelled none none t ∷ s.settled }, ended_early)
      else if past_deadline t.envelope.deadline_s now
      then (
        record s { settled = settle expired none none t ∷ s.settled; active = none },
        ended_early,
      )
      else (record s { active = some t }, dispatched)

  start_ticket : ℕ → Option (Ticket A) × State A → State A × Turn
  unfolding start_marked mark_running settle
  start_ticket now (none, s) = (s, if s.closed then worker_stopped else idle)
  start_ticket now (some t, s) =
      if s.closed then (s, worker_stopped) else start_marked now (mark_running t) s

  -- The locked part of one turn of `_run`; where it is `idle` the worker waits.
  unfoldable pub take_turn : ℕ → State A → State A × Turn
  unfolding start_ticket next_ticket
  take_turn now s = start_ticket now (next_ticket s)

  abbrev settle_active :
      CommandStatus → Option String → Option IoResult → Option (Ticket A) → Option (Ticket A)
  settle_active st e r none = none
  settle_active st e r (some t) = some (settle st e r t)

  -- `ticket._finish(...)` of the ticket that the worker runs.
  unfoldable pub publish : CommandStatus → Option String → Option IoResult → State A → State A
  unfolding settle
  publish st e r s = record s { active = settle_active st e r s.active }

  unfoldable pub record_command_error : String → State A → State A
  record_command_error e s = record s { last_command_error = some e }

  abbrev retire_ticket : Option (Ticket A) → State A → State A
  retire_ticket none s = s
  retire_ticket (some t) s = record s { active = none; settled = t ∷ s.settled }

  -- The `finally` of `_run`.
  unfoldable pub retire : State A → State A
  retire s = retire_ticket s.active s
