-- ===== src/Execution/Arbiter/Completion.antt =====
-- The rest of a turn of `_run`: what the port's answer does to the active ticket. A failure is
-- published only after the emergency stop.
use embodi_run.Base.{
  Bool, true, false, Option, none, some, String, Result, ok, err, if◌then◌else◌, List, [], ◌∷◌,
}
use embodi_run.Execution.Io.{IoResult}
use embodi_run.Execution.Ticket.{CommandStatus, cancelled, failed, Ticket}
use embodi_run.Execution.Arbiter.State.{State, Fault}
use embodi_run.Execution.Arbiter.Stops.{PortAnswer, emergency_stop}
use embodi_run.Execution.Arbiter.Worker.{
  io_error_text, map_port_result, publish, record_command_error, retire,
}

-- The port raises (with the `IOResult` that the exception carries, if any), or returns.
pub data ExecuteAnswer : Type 0 where
  raised : String → Option IoResult → ExecuteAnswer
  returned : Option IoResult → ExecuteAnswer

abbrev pub is_failed : CommandStatus → Bool
is_failed failed = true
is_failed _ = false

-- The status, the error and the result that the ticket gets.
unfoldable pub outcome : ExecuteAnswer → Bool → CommandStatus × Option String × Option IoResult
unfolding map_port_result
outcome (raised e r) was_cancelled = (if was_cancelled then cancelled else failed, some e, r)
outcome (returned r) was_cancelled = let (st, e) = map_port_result r was_cancelled in (st, e, r)

module _ {A : Type 0} where
  -- `with contextlib.suppress(Exception): self.emergency_stop()`
  abbrev after_stop : State A → Result Fault (State A × Option String) → State A
  after_stop s (ok (s', e)) = s'
  after_stop s (err f) = s

  stop_after : String → PortAnswer → State A → State A
  unfolding emergency_stop record_command_error
  stop_after text stop s =
      let s' = record_command_error text s in after_stop s' (emergency_stop stop s')

  -- An exception's text is kept also where the ticket had been cancelled.
  note_exception : ExecuteAnswer → State A → State A
  unfolding record_command_error
  note_exception (raised e r) s = record_command_error e s
  note_exception (returned r) s = s

  -- The states that the calls of the turn leave, in order: the exception's text, for a failure the
  -- emergency stop, the ticket's publication, and the end of its activity.
  unfoldable pub completion : ExecuteAnswer → PortAnswer → Ticket A → State A → List (State A)
  unfolding outcome stop_after note_exception publish retire
  completion answer stop t s =
      let (st, e, r) = outcome answer t.cancel_event in
      let noted = note_exception answer s in
      let stopped = if is_failed st then stop_after (io_error_text e) stop noted else noted in
      let published = publish st e r stopped in noted ∷ stopped ∷ published ∷ retire published ∷ []

  abbrev pub last_or : State A → List (State A) → State A
  last_or s [] = s
  last_or s (u ∷ us) = last_or u us

  unfoldable pub complete : ExecuteAnswer → PortAnswer → State A → State A
  unfolding completion
  complete answer stop s = elim s.active [
    | none ↦ s
    | some t ↦ last_or s (completion answer stop t s)
  ]
