-- ===== src/Execution/Arbiter/State.antt =====
-- The fields of `RobotControlArbiter`, its constructor's checks, and the helpers that its methods
-- share: `_require_open`, `_cancel_active…`, `_clear_model_queue`, `_clear_manual`.
use embodi_run.Base.{
  ℕ, Bool, true, false, Option, none, some, List, [], ◌∷◌, ◌++◌, map, String, Result, ok, err, ◌||◌,
  ltb, ◌==◌, if◌then◌else◌,
}
use embodi_run.Execution.Ticket.{is_automatic, CommandStatus, Ticket, settle, set_cancel_event}

pub data AuthorityState : Type 0 where
  model_authority manual_authority estop_latched : AuthorityState

abbrev pub is_latched : AuthorityState → Bool
is_latched estop_latched = true
is_latched _ = false

abbrev pub is_manual_authority : AuthorityState → Bool
is_manual_authority manual_authority = true
is_manual_authority _ = false

abbrev pub is_model_authority : AuthorityState → Bool
is_model_authority model_authority = true
is_model_authority _ = false

-- What a method may raise: `CommandRejected` by its message, `CommandCancelled`, `ValueError`,
-- the error of a closed arbiter, and an error of the port.
pub data Fault : Type 0 where
  arbiter_closed : Fault
  model_not_available estop_is_latched manual_not_acquired deadman_not_active : Fault
  manual_owns_robot model_queue_full estop_not_latched estop_retriggered : Fault
  task_not_current task_was_cancelled manual_with_task_token : Fault
  bad_capacity bad_deadman_timeout : Fault
  port_error : String → Fault

abbrev pub raise_if : Bool → Fault → Result Fault Unit
raise_if true e = err e
raise_if false e = ok tt

-- The clock's readings are natural numbers of one unit. `token_set` says which task events are
-- set, `next_id` supplies identities, and `settled` holds the tickets that have left the arbiter:
-- only their submitters can still see them.
pub record State (A : Type 0) : Type 0 where
  pub model_queue_capacity : ℕ
  pub manual_deadman_timeout : ℕ
  pub authority : AuthorityState
  pub deadman_active : Bool
  pub manual_heartbeat : Option ℕ
  pub model_queue : List (Ticket A)
  pub manual_pending : Option (Ticket A)
  pub active : Option (Ticket A)
  pub hold_in_progress : Bool
  pub hold_error : Option String
  pub estop_generation : ℕ
  pub last_stop_error : Option String
  pub last_command_error : Option String
  pub last_event_error : Option String
  pub model_task_cancel : Option ℕ
  pub closed : Bool
  pub token_set : ℕ → Bool
  pub next_id : ℕ
  pub settled : List (Ticket A)

-- `event.set()` on the task event `t`.
abbrev pub set_token : ℕ → (ℕ → Bool) → ℕ → Bool
set_token t f u = f u || u == t

abbrev pub set_optional_token : Option ℕ → (ℕ → Bool) → ℕ → Bool
set_optional_token none f = f
set_optional_token (some t) f = set_token t f

abbrev pub optional_token_set : Option ℕ → (ℕ → Bool) → Bool
optional_token_set none f = false
optional_token_set (some t) f = f t

module _ {A : Type 0} where
  -- `__init__`, up to the start of the two threads.
  unfoldable pub create : ℕ → ℕ → Result Fault (State A)
  create capacity timeout =
      if ltb capacity 1
      then err bad_capacity
      else if timeout == 0
      then err bad_deadman_timeout
      else ok (record {
        model_queue_capacity = capacity;
        manual_deadman_timeout = timeout;
        authority = model_authority;
        deadman_active = false;
        manual_heartbeat = none;
        model_queue = [];
        manual_pending = none;
        active = none;
        hold_in_progress = false;
        hold_error = none;
        estop_generation = 0;
        last_stop_error = none;
        last_command_error = none;
        last_event_error = none;
        model_task_cancel = none;
        closed = false;
        token_set = λ _. false;
        next_id = 0;
        settled = [];
      })

  -- `_require_open`
  abbrev pub require_open : State A → Result Fault Unit
  require_open s = raise_if s.closed arbiter_closed

  abbrev pub cancel_ticket : Option (Ticket A) → Option (Ticket A)
  cancel_ticket none = none
  cancel_ticket (some t) = some (set_cancel_event t)

  abbrev pub has_automatic_source : Option (Ticket A) → Bool
  has_automatic_source none = false
  has_automatic_source (some t) = is_automatic t.envelope.source

  abbrev pub has_manual_source : Option (Ticket A) → Bool
  has_manual_source none = false
  has_manual_source (some t) = if is_automatic t.envelope.source then false else true

  -- `_cancel_active(None)`
  unfoldable pub cancel_active : State A → State A
  unfolding set_cancel_event
  cancel_active s = record s {
    token_set = set_optional_token s.model_task_cancel s.token_set;
    active = cancel_ticket s.active;
  }

  -- `_cancel_active(CommandSource.MANUAL)`
  unfoldable pub cancel_active_manual : State A → State A
  unfolding set_cancel_event
  cancel_active_manual s = record s {
    active = if has_manual_source s.active then cancel_ticket s.active else s.active;
  }

  -- `_cancel_active_automatic_ticket_locked`
  unfoldable pub cancel_active_automatic_ticket : State A → State A
  unfolding set_cancel_event
  cancel_active_automatic_ticket s = record s {
    active = if has_automatic_source s.active then cancel_ticket s.active else s.active;
  }

  -- `_cancel_active_automatic_locked`
  unfoldable pub cancel_active_automatic : State A → State A
  unfolding set_cancel_event
  cancel_active_automatic s = record s {
    token_set = set_optional_token s.model_task_cancel s.token_set;
    active = if has_automatic_source s.active then cancel_ticket s.active else s.active;
  }

  -- `_clear_model_queue`: every waiting ticket gets the status, and leaves.
  unfoldable pub clear_model_queue : CommandStatus → State A → State A
  clear_model_queue st s = record s {
    model_queue = [];
    settled = map (settle st none none) s.model_queue ++ s.settled;
  }

  abbrev pub settle_pending : CommandStatus → Option (Ticket A) → List (Ticket A) → List (Ticket A)
  settle_pending st none out = out
  settle_pending st (some t) out = settle st none none t ∷ out

  -- `_clear_manual`
  unfoldable pub clear_manual : CommandStatus → State A → State A
  clear_manual st s = record s {
    manual_pending = none;
    settled = settle_pending st s.manual_pending s.settled;
  }
