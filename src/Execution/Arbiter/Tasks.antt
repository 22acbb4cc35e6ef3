-- ===== src/Execution/Arbiter/Tasks.antt =====
-- `begin_automatic_task`, `finish_automatic_work` and `cancel_automatic_work`: the identity of the
-- automatic task that owns the arbiter.
use embodi_run.Base.{
  ℕ, suc, Bool, true, false, not, ◌&&◌, ◌||◌, Option, none, some, Result, ok, ◌>>◌, is_some,
  same_id, if◌then◌else◌,
}
use embodi_run.Execution.Ticket.{cleared, is_automatic, Ticket}
use embodi_run.Execution.Arbiter.State.{
  State, Fault, raise_if, require_open, is_model_authority, optional_token_set, set_optional_token,
  model_not_available, task_was_cancelled, cancel_active_automatic, cancel_active_automatic_ticket,
  clear_model_queue, cancel_ticket,
}

abbrev pub chosen_token : Option ℕ → ℕ → ℕ
chosen_token (some t) fresh = t
chosen_token none fresh = fresh

-- Is the task that ends not the current one?
abbrev pub foreign_finish : Option ℕ → Option ℕ → Bool
foreign_finish none current = is_some current
foreign_finish (some t) current = not (same_id (some t) current)

module _ {A : Type 0} where
  -- Returns the event of the new task: the one given, or a fresh one.
  unfoldable pub begin_automatic_task : Option ℕ → State A → Result Fault (State A × ℕ)
  unfolding cancel_active_automatic clear_model_queue
  begin_automatic_task token s = do
    raise_if (optional_token_set token s.token_set) task_was_cancelled
    require_open s
    raise_if (not (is_model_authority s.authority)) model_not_available
    let q = clear_model_queue cleared (cancel_active_automatic s)
    let t = chosen_token token s.next_id
    ok (record q { model_task_cancel = some t; next_id = suc s.next_id }, t)

  -- The first lock of `finish_automatic_work`: `none` where the call returns `False`, and otherwise
  -- the state and whether the task's event was set.
  unfoldable pub finish_automatic_begin :
      Option ℕ → State A → Result Fault (Option (State A × Bool))
  unfolding cancel_active_automatic_ticket clear_model_queue
  finish_automatic_begin token s = do
    require_open s
    let q = clear_model_queue cleared (cancel_active_automatic_ticket s)
    let held : State A × Bool =
        (record q { hold_in_progress = true }, optional_token_set token s.token_set)
    let foreign = foreign_finish token s.model_task_cancel || not (is_model_authority s.authority)
    if foreign then ok none else ok (some held)

  -- The last lock, after the hold: `current` is the task that the first lock saw.
  unfoldable pub finish_automatic_end : Option ℕ → Option ℕ → Bool → State A → State A
  finish_automatic_end token current was_cancelled s =
      if not was_cancelled && (not (is_some token) || same_id s.model_task_cancel current)
      then record s { model_task_cancel = none }
      else s

  abbrev is_of_task : Option ℕ → Ticket A → Bool
  is_of_task none t = is_automatic t.envelope.source
  is_of_task (some c) t = is_automatic t.envelope.source && same_id t.envelope.task_cancel (some c)

  abbrev cancel_of_task : Option ℕ → Option (Ticket A) → Option (Ticket A)
  cancel_of_task token none = none
  cancel_of_task token (some t) = if is_of_task token t then cancel_ticket (some t) else some t

  -- The lock of `cancel_automatic_work`: the state, whether the call goes on to hold the robot, and
  -- whether it returns `True`.
  unfoldable pub cancel_automatic_begin : Option ℕ → State A → Result Fault (State A × Bool × Bool)
  unfolding clear_model_queue
  cancel_automatic_begin token s = do
    require_open s
    let should_hold = is_model_authority s.authority
    let q = clear_model_queue cleared s
    let c = record q {
      token_set = set_optional_token s.model_task_cancel s.token_set;
      active = cancel_of_task token s.active;
      hold_in_progress = should_hold || s.hold_in_progress;
    }
    let foreign = is_some token && not (same_id token s.model_task_cancel)
    if foreign then ok (s, false, false) else ok (c, should_hold, true)
