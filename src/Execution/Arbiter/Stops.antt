-- ===== src/Execution/Arbiter/Stops.antt =====
-- `_finish_hold`, `_wait_for_hold`, `emergency_stop`, `reset_emergency_stop` and the locked part
-- of `close`, with the port's answer to a stop as an argument.
use embodi_run.Base.{
  ℕ, suc, Bool, true, false, not, Option, none, some, String, Result, ok, err, ◌==◌, ◌>>=◌, ◌>>◌,
  if◌then◌else◌,
}
use embodi_run.Execution.Io.{IoStatus, IoResult}
use embodi_run.Execution.Ticket.{cleared}
use embodi_run.Execution.Arbiter.State.{
  State, AuthorityState, manual_authority, estop_latched, is_latched, Fault, raise_if, require_open,
  estop_not_latched, estop_retriggered, port_error, cancel_active, clear_model_queue, clear_manual,
}

-- The port raises, or returns an `IOResult`, or something that is none.
pub data PortAnswer : Type 0 where
  raised : String → PortAnswer
  returned : Option IoResult → PortAnswer

abbrev is_uncertain_status : IoStatus → Bool
is_uncertain_status IoStatus.unknown = true
is_uncertain_status IoStatus.rejected = true
is_uncertain_status _ = false

-- `stop_result_is_uncertain`
unfoldable pub stop_result_is_uncertain : Option IoResult → Bool
stop_result_is_uncertain none = false
stop_result_is_uncertain (some r) = is_uncertain_status r.status

-- The text of the `IOUnknownError` that an uncertain stop raises, up to its wording.
abbrev pub uncertain_text : String
uncertain_text = "stop I/O uncertain"

-- The error of a stop: what the port raised, or that its result is uncertain.
unfoldable pub stop_error : PortAnswer → Option String
unfolding stop_result_is_uncertain
stop_error (raised e) = some e
stop_error (returned r) = if stop_result_is_uncertain r then some uncertain_text else none

abbrev pub raise_port : Option String → Result Fault Unit
raise_port none = ok tt
raise_port (some e) = err (port_error e)

abbrev next_or_same : Option AuthorityState → AuthorityState → AuthorityState
next_or_same none a = a
next_or_same (some b) a = if is_latched a then a else b

module _ {A : Type 0} where
  -- The arbiter latched and emptied, as `emergency_stop` and a failed hold leave it.
  unfoldable pub latch : State A → State A
  unfolding cancel_active clear_model_queue clear_manual
  latch s = clear_manual cleared (
      clear_model_queue cleared (
        cancel_active (record s {
          estop_generation = suc s.estop_generation;
          authority = estop_latched;
          deadman_active = false;
          manual_heartbeat = none;
        })))

  -- `_finish_hold`, after the port has answered.
  unfoldable pub finish_hold : Option AuthorityState → Option String → State A → State A
  unfolding latch
  finish_hold next (some e) s =
      let l = latch s in
      record l { hold_in_progress = false; hold_error = some e; last_stop_error = some e }
  finish_hold next none s = record s {
    authority = next_or_same next s.authority;
    hold_in_progress = false;
    hold_error = none;
    last_stop_error = if is_latched s.authority then s.last_stop_error else none;
  }

  -- `_wait_for_hold`, when its wait ends.
  unfoldable pub wait_for_hold : State A → Result Fault Unit
  wait_for_hold s = raise_port s.hold_error

  unfoldable pub emergency_stop_begin : State A → Result Fault (State A)
  unfolding latch
  emergency_stop_begin s = do
    require_open s
    let l = latch s
    ok (record l { hold_in_progress = true })

  unfoldable pub emergency_stop_end : Option String → State A → State A
  emergency_stop_end (some e) s = record s { last_stop_error = some e; hold_in_progress = false }
  emergency_stop_end none s = record s { hold_in_progress = false }

  -- The state after `emergency_stop`, and whether it raises.
  unfoldable pub emergency_stop : PortAnswer → State A → Result Fault (State A × Option String)
  unfolding emergency_stop_begin emergency_stop_end stop_error
  emergency_stop answer s = do
    s' ← emergency_stop_begin s
    ok (emergency_stop_end (stop_error answer) s', stop_error answer)

  -- `reset_emergency_stop`: the first lock reads the generation.
  unfoldable pub reset_begin : State A → Result Fault ℕ
  reset_begin s = do
    require_open s
    raise_if (not (is_latched s.authority)) estop_not_latched
    ok s.estop_generation

  unfoldable pub reset_fail : String → State A → State A
  reset_fail e s = record s { last_stop_error = some e }

  -- The second lock, after a hold that was confirmed.
  unfoldable pub reset_commit : ℕ → State A → Result Fault (State A)
  reset_commit generation s = do
    require_open s
    raise_if (not (s.estop_generation == generation)) estop_retriggered
    ok (record s {
      authority = manual_authority;
      deadman_active = false;
      manual_heartbeat = none;
      last_stop_error = none;
      last_command_error = none;
    })

  -- The first lock of `close`; a second call changes nothing.
  unfoldable pub close_begin : State A → State A
  unfolding cancel_active clear_model_queue clear_manual
  close_begin s =
      if s.closed
      then s
      else clear_manual cleared (
          clear_model_queue cleared (
            cancel_active
              (record s { closed = true; deadman_active = false; manual_heartbeat = none })))
