-- ===== src/Execution/Ticket.antt =====
-- `CommandSource`, `CommandStatus`, `CommandEnvelope` and `CommandTicket`, of
-- src/embodirun/devices/execution/arbitration.py. The action is a parameter: the arbiter passes it
-- on to the port and reads nothing of it.
use embodi_run.Base.{
  ℕ, Bool, true, false, Option, none, some, String, Result, ok, err, if◌then◌else◌,
}
use embodi_run.Execution.Io.{IoResult}

pub data CommandSource : Type 0 where
  model agent replay manual : CommandSource

-- `_AUTOMATIC_SOURCES`
abbrev pub is_automatic : CommandSource → Bool
is_automatic model = true
is_automatic agent = true
is_automatic replay = true
is_automatic manual = false

pub data CommandStatus : Type 0 where
  queued running executed cancelled cleared replaced expired failed : CommandStatus

-- `_TERMINAL_STATUSES`
abbrev pub is_terminal : CommandStatus → Bool
is_terminal queued = false
is_terminal running = false
is_terminal executed = true
is_terminal cancelled = true
is_terminal cleared = true
is_terminal replaced = true
is_terminal expired = true
is_terminal failed = true

abbrev is_queued : CommandStatus → Bool
is_queued queued = true
is_queued _ = false

-- `task_cancel` is the identity of the task's event, and `deadline_s` a reading of the clock.
pub record Envelope (A : Type 0) : Type 0 where
  pub source : CommandSource
  pub action : A
  pub deadline_s : Option ℕ
  pub task_cancel : Option ℕ

-- `cancel_event` is whether the ticket's event is set; `_done` is set exactly when the status is
-- terminal, so it is not kept apart.
pub record Ticket (A : Type 0) : Type 0 where
  pub envelope : Envelope A
  pub action_id : ℕ
  pub cancel_event : Bool
  pub status : CommandStatus
  pub error : Option String
  pub result : Option IoResult

-- What the calls of this file may raise.
pub data TicketError : Type 0 where
  not_terminal : CommandStatus → TicketError
  ended_without_execution : CommandStatus → TicketError
  failed_with : String → TicketError
  failed_without_error : TicketError

raise_failed : Option String → Result TicketError Unit
raise_failed (some e) = err (failed_with e)
raise_failed none = err failed_without_error

raise_by_status : CommandStatus → Option String → Result TicketError Unit
unfolding raise_failed
raise_by_status failed e = raise_failed e
raise_by_status executed e = ok tt
raise_by_status st e = err (ended_without_execution st)

module _ {A : Type 0} where
  unfoldable pub new_ticket : ℕ → Envelope A → Ticket A
  new_ticket id e = record {
    envelope = e;
    action_id = id;
    cancel_event = false;
    status = queued;
    error = none;
    result = none;
  }

  -- `_mark_running`
  unfoldable pub mark_running : Ticket A → Ticket A × Bool
  mark_running t = if is_queued t.status then (record t { status = running }, true) else (t, false)

  -- The locked part of `_finish`: the first terminal status stays.
  unfoldable pub settle : CommandStatus → Option String → Option IoResult → Ticket A → Ticket A
  settle st e r t =
      if is_terminal t.status then t else record t { status = st; error = e; result = r }

  -- `_finish`. The arbiter passes terminal statuses only, and there it is `settle`.
  unfoldable pub finish :
      CommandStatus → Option String → Option IoResult → Ticket A → Result TicketError (Ticket A)
  finish st e r t = if is_terminal st then ok (settle st e r t) else err (not_terminal st)

  unfoldable pub set_cancel_event : Ticket A → Ticket A
  set_cancel_event t = record t { cancel_event = true }

  -- `raise_for_failure`
  unfoldable pub raise_for_failure : Ticket A → Result TicketError Unit
  unfolding raise_by_status
  raise_for_failure t = raise_by_status t.status t.error
