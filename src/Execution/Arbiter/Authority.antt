-- ===== src/Execution/Arbiter/Authority.antt =====
-- `acquire_manual`, `release_manual`, `set_deadman`, `hold` and the deadman watchdog: the locked
-- part of each, and the whole method as a sequential caller runs it.
use embodi_run.Base.{
  ℕ, ◌+◌, Bool, true, false, not, ◌&&◌, Option, none, some, String, Result, ok, leb, ◌>>=◌, ◌>>◌,
  if◌then◌else◌,
}
use embodi_run.Execution.Ticket.{cleared}
use embodi_run.Execution.Arbiter.State.{
  State, AuthorityState, model_authority, manual_authority, is_latched, is_manual_authority, Fault,
  raise_if, require_open, estop_is_latched, manual_not_acquired, cancel_active,
  cancel_active_manual, clear_model_queue, clear_manual,
}
use embodi_run.Execution.Arbiter.Stops.{PortAnswer, stop_error, finish_hold}

-- How a method goes on after its lock.
pub data Next : Type 0 where
  join_hold start_hold finished : Next

-- Has the heartbeat run out at `now`?
abbrev pub heartbeat_expired : ℕ → Option ℕ → ℕ → Bool
heartbeat_expired timeout none now = false
heartbeat_expired timeout (some beat) now = leb (beat + timeout) now

module _ {A : Type 0} where
  unfoldable pub acquire_manual_begin : State A → Result Fault (State A × Next)
  unfolding cancel_active clear_model_queue clear_manual
  acquire_manual_begin s = do
    require_open s
    raise_if (is_latched s.authority) estop_is_latched
    let m = record s {
      authority = manual_authority;
      deadman_active = false;
      manual_heartbeat = none;
    }
    let c = clear_manual cleared (clear_model_queue cleared (cancel_active m))
    let own = record c { hold_error = none; hold_in_progress = true }
    if s.hold_in_progress then ok (c, join_hold) else ok (own, start_hold)

  unfoldable pub release_manual_begin : State A → Result Fault (State A)
  unfolding cancel_active_manual clear_manual
  release_manual_begin s = do
    require_open s
    raise_if (is_latched s.authority) estop_is_latched
    let m = record s { deadman_active = false; manual_heartbeat = none }
    let c = clear_manual cleared (cancel_active_manual m)
    ok (record c { hold_in_progress = true })

  unfoldable pub set_deadman_begin : ℕ → Bool → State A → Result Fault (State A × Next)
  unfolding cancel_active_manual clear_manual
  set_deadman_begin now on s = do
    require_open s
    raise_if (not (is_manual_authority s.authority)) manual_not_acquired
    let c = clear_manual cleared (cancel_active_manual s)
    let off = record c { deadman_active = false; manual_heartbeat = none; hold_in_progress = true }
    let held = record s { deadman_active = true; manual_heartbeat = some now }
    if on then ok (held, finished) else ok (off, start_hold)

  unfoldable pub hold_begin : State A → Result Fault (State A)
  unfolding cancel_active clear_model_queue clear_manual
  hold_begin s = do
    require_open s
    let c = clear_manual cleared (clear_model_queue cleared (cancel_active s))
    ok (record c { hold_in_progress = true })

  -- One turn of `_watch_deadman` at the reading `now`: the state, and whether it goes on to hold.
  unfoldable pub watch_deadman : ℕ → State A → State A × Bool
  unfolding cancel_active_manual clear_manual
  watch_deadman now s =
      let m = record s { deadman_active = false; manual_heartbeat = none } in
      let c = clear_manual cleared (cancel_active_manual m) in
      if not s.closed
        && is_manual_authority s.authority
        && s.deadman_active
        && heartbeat_expired s.manual_deadman_timeout s.manual_heartbeat now
      then (record c { hold_in_progress = true }, true)
      else (s, false)

  -- The methods as one caller runs them, with no other critical section in between: the state
  -- after them, and the error of the hold.
  abbrev hold_with : Option AuthorityState → PortAnswer → State A → State A × Option String
  hold_with next answer s = (finish_hold next (stop_error answer) s, stop_error answer)

  abbrev after_acquire : PortAnswer → State A × Next → State A × Option String
  after_acquire answer (s, start_hold) = hold_with none answer s
  after_acquire answer (s, join_hold) = (s, s.hold_error)
  after_acquire answer (s, finished) = (s, none)

  unfoldable pub acquire_manual : PortAnswer → State A → Result Fault (State A × Option String)
  unfolding acquire_manual_begin finish_hold stop_error
  acquire_manual answer s = do r ← acquire_manual_begin s; ok (after_acquire answer r)

  unfoldable pub release_manual : PortAnswer → State A → Result Fault (State A × Option String)
  unfolding release_manual_begin finish_hold stop_error
  release_manual answer s = do
    s' ← release_manual_begin s
    ok (hold_with (some model_authority) answer s')

  unfoldable pub set_deadman :
      ℕ → Bool → PortAnswer → State A → Result Fault (State A × Option String)
  unfolding set_deadman_begin finish_hold stop_error
  set_deadman now on answer s = do r ← set_deadman_begin now on s; ok (after_acquire answer r)

  unfoldable pub hold : PortAnswer → State A → Result Fault (State A × Option String)
  unfolding hold_begin finish_hold stop_error
  hold answer s = do s' ← hold_begin s; ok (hold_with none answer s')
