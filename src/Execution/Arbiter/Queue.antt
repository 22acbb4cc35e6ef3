-- ===== src/Execution/Arbiter/Queue.antt =====
-- `submit` and its four wrappers `submit_model`, `submit_agent`, `submit_replay`, `submit_manual`.
-- Waiting for the ticket and the recorder's "queued" event follow outside the lock and are not
-- part of it.
use embodi_run.Base.{
  ℕ, suc, Bool, not, ◌&&◌, Option, none, some, ◌∷◌, [], ◌++◌, Result, ok, leb, ◌>>◌, is_some,
  same_id, length, if◌then◌else◌,
}
use embodi_run.Execution.Ticket.{
  CommandSource, model, agent, replay, manual, is_automatic, replaced, Ticket, new_ticket, settle,
}
use embodi_run.Execution.Arbiter.State.{
  State, Fault, raise_if, require_open, is_latched, is_manual_authority, optional_token_set,
  settle_pending, estop_is_latched, manual_not_acquired, deadman_not_active, manual_owns_robot,
  model_queue_full, task_not_current, task_was_cancelled, manual_with_task_token,
}

module _ {A : Type 0} where
  -- A manual command is also a heartbeat, and replaces the one that waits.
  unfoldable pub enqueue_manual : ℕ → Ticket A → State A → Result Fault (State A)
  unfolding settle
  enqueue_manual now t s = do
    raise_if (not (is_manual_authority s.authority)) manual_not_acquired
    raise_if (not s.deadman_active) deadman_not_active
    ok (record s {
      manual_heartbeat = some now;
      manual_pending = some t;
      settled = settle_pending replaced s.manual_pending s.settled;
    })

  unfoldable pub enqueue_automatic : Ticket A → State A → Result Fault (State A)
  enqueue_automatic t s = do
    raise_if (is_manual_authority s.authority) manual_owns_robot
    raise_if (leb s.model_queue_capacity (length s.model_queue)) model_queue_full
    ok (record s { model_queue = s.model_queue ++ t ∷ [] })

  abbrev pub submitted_ticket : CommandSource → A → Option ℕ → Option ℕ → State A → Ticket A
  unfolding new_ticket
  submitted_ticket source action deadline token s =
      new_ticket s.next_id
        (record { source = source; action = action; deadline_s = deadline; task_cancel = token })

  abbrev pub stale_token : Option ℕ → State A → Bool
  stale_token token s = is_some token && not (same_id token s.model_task_cancel)

  unfoldable pub submit :
      ℕ → CommandSource → A → Option ℕ → Option ℕ → State A → Result Fault (State A)
  unfolding submitted_ticket
  submit now source action deadline token s = do
    raise_if (not (is_automatic source) && is_some token) manual_with_task_token
    require_open s
    raise_if (stale_token token s) task_not_current
    raise_if (optional_token_set token s.token_set) task_was_cancelled
    raise_if (is_latched s.authority) estop_is_latched
    let t = submitted_ticket source action deadline token s
    let s' = record s { next_id = suc s.next_id }
    if is_automatic source then enqueue_automatic t s' else enqueue_manual now t s'

  unfoldable pub submit_model : ℕ → A → Option ℕ → Option ℕ → State A → Result Fault (State A)
  unfolding submit
  submit_model now = submit now model

  unfoldable pub submit_agent : ℕ → A → Option ℕ → Option ℕ → State A → Result Fault (State A)
  unfolding submit
  submit_agent now = submit now agent

  unfoldable pub submit_replay : ℕ → A → Option ℕ → Option ℕ → State A → Result Fault (State A)
  unfolding submit
  submit_replay now = submit now replay

  unfoldable pub submit_manual : ℕ → A → Option ℕ → State A → Result Fault (State A)
  unfolding submit
  submit_manual now action deadline = submit now manual action deadline none
