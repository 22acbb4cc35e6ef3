-- ===== src/Execution/Arbiter/Serial.antt =====
-- What holds in addition where methods run one after the other.
use embodi_run.Base.{ℕ, ◌≡◌, ◌⊎◌, Bool, true, false, Option, none, List, [], ◌∷◌, arith, ok}
use embodi_run.Execution.Arbiter.State.{State, model_authority, manual_authority, create}
use embodi_run.Execution.Arbiter.Queue.{submit, enqueue_automatic, enqueue_manual}
use embodi_run.Execution.Arbiter.Tasks.{begin_automatic_task}
use embodi_run.Execution.Arbiter.Authority.{
  acquire_manual, release_manual, set_deadman, hold, watch_deadman,
}
use embodi_run.Execution.Arbiter.Stops.{
  PortAnswer, raised, returned, emergency_stop, close_begin, finish_hold, stop_error,
}
use embodi_run.Execution.Arbiter.Worker.{take_turn}
use embodi_run.Execution.Arbiter.Completion.{ExecuteAnswer, complete}
use embodi_run.Execution.Arbiter.Methods.{
  reset_emergency_stop, cancel_automatic_work, finish_automatic_work, Call, begin_task, finish_task,
  cancel_task, submit_call, acquire, release, hold_call, estop, reset, deadman, watch, worker_turn,
  close_call, run_call, run_calls,
}

-- Each waiting command is of the authority's kind, no hold is left open, and nothing is active
-- between two calls.
pub record Quiet {A : Type 0} (s : State A) : Type 0 where
  pub queue_of_model : (s.model_queue ≡ []) ⊎ (s.authority ≡ model_authority)
  pub pending_of_deadman : (s.manual_pending ≡ none) ⊎ (s.deadman_active ≡ true)
  pub deadman_of_manual : (s.deadman_active ≡ false) ⊎ (s.authority ≡ manual_authority)
  pub no_hold : s.hold_in_progress ≡ false
  pub no_active : s.active ≡ none

module _ {A : Type 0} where
  acquire-Quiet :
      (answer : PortAnswer) (s : State A) → Quiet s → Quiet (run_call (acquire answer) s)
  unfolding run_call acquire_manual
  acquire-Quiet (raised e) s q = ground arith
  acquire-Quiet (returned r) s q = ground arith

  release-Quiet :
      (answer : PortAnswer) (s : State A) → Quiet s → Quiet (run_call (release answer) s)
  unfolding run_call release_manual
  release-Quiet (raised e) s q = ground arith
  release-Quiet (returned r) s q = ground arith

  deadman-Quiet :
      (now : ℕ) (on : Bool) (answer : PortAnswer) (s : State A)
      → Quiet s
      → Quiet (run_call (deadman now on answer) s)
  unfolding run_call set_deadman
  deadman-Quiet now on (raised e) s q = ground arith
  deadman-Quiet now on (returned r) s q = ground arith

  hold-Quiet : (answer : PortAnswer) (s : State A) → Quiet s → Quiet (run_call (hold_call answer) s)
  unfolding run_call hold
  hold-Quiet (raised e) s q = ground arith
  hold-Quiet (returned r) s q = ground arith

  estop-Quiet : (answer : PortAnswer) (s : State A) → Quiet s → Quiet (run_call (estop answer) s)
  unfolding run_call emergency_stop
  estop-Quiet (raised e) s q = ground arith
  estop-Quiet (returned r) s q = ground arith

  reset-Quiet : (answer : PortAnswer) (s : State A) → Quiet s → Quiet (run_call (reset answer) s)
  unfolding run_call reset_emergency_stop
  reset-Quiet (raised e) s q = ground arith
  reset-Quiet (returned r) s q = ground arith

  cancel-Quiet :
      (token : Option ℕ) (answer : PortAnswer) (s : State A)
      → Quiet s
      → Quiet (run_call (cancel_task token answer) s)
  unfolding run_call cancel_automatic_work
  cancel-Quiet token (raised e) s q = ground arith
  cancel-Quiet token (returned r) s q = ground arith

  finish-Quiet :
      (token : Option ℕ) (answer : PortAnswer) (s : State A)
      → Quiet s
      → Quiet (run_call (finish_task token answer) s)
  unfolding run_call finish_automatic_work
  finish-Quiet token (raised e) s q = ground arith
  finish-Quiet token (returned r) s q = ground arith

  watch-Quiet :
      (now : ℕ) (answer : PortAnswer) (s : State A)
      → Quiet s
      → Quiet (run_call (watch now answer) s)
  unfolding run_call watch_deadman finish_hold stop_error
  watch-Quiet now (raised e) s q = ground arith
  watch-Quiet now (returned r) s q = ground arith

  submit-Quiet :
      (now : ℕ) (source : _) (a : A) (deadline token : Option ℕ) (s : State A)
      → Quiet s
      → Quiet (run_call (submit_call now source a deadline token) s)
  unfolding run_call submit enqueue_automatic enqueue_manual
  submit-Quiet now source a deadline token s q = ground arith

  begin-Quiet : (token : Option ℕ) (s : State A) → Quiet s → Quiet (run_call (begin_task token) s)
  unfolding run_call begin_automatic_task
  begin-Quiet token s q = ground arith

  close-Quiet : (s : State A) → Quiet s → Quiet (run_call close_call s)
  unfolding run_call close_begin
  close-Quiet s q = ground arith

  -- The taking of a ticket leaves everything quiet but the active place.
  record Taken (s : State A) : Type 0 where
    queue_of_model : (s.model_queue ≡ []) ⊎ (s.authority ≡ model_authority)
    pending_of_deadman : (s.manual_pending ≡ none) ⊎ (s.deadman_active ≡ true)
    deadman_of_manual : (s.deadman_active ≡ false) ⊎ (s.authority ≡ manual_authority)
    no_hold : s.hold_in_progress ≡ false

  take_turn-Taken : (now : ℕ) (s : State A) → Quiet s → Taken (take_turn now s).0
  unfolding take_turn
  take_turn-Taken now s q = ground arith

  complete-Quiet :
      (answer : ExecuteAnswer) (stop : PortAnswer) (s : State A)
      → Taken s
      → Quiet (complete answer stop s)
  unfolding complete
  complete-Quiet answer (raised e) s q = ground arith
  complete-Quiet answer (returned r) s q = ground arith

  run_call-Quiet : (c : Call A) (s : State A) → Quiet s → Quiet (run_call c s)
  run_call-Quiet (begin_task token) s q = begin-Quiet token s q
  run_call-Quiet (finish_task token answer) s q = finish-Quiet token answer s q
  run_call-Quiet (cancel_task token answer) s q = cancel-Quiet token answer s q
  run_call-Quiet (submit_call now source a deadline token) s q =
      submit-Quiet now source a deadline token s q
  run_call-Quiet (acquire answer) s q = acquire-Quiet answer s q
  run_call-Quiet (release answer) s q = release-Quiet answer s q
  run_call-Quiet (hold_call answer) s q = hold-Quiet answer s q
  run_call-Quiet (estop answer) s q = estop-Quiet answer s q
  run_call-Quiet (reset answer) s q = reset-Quiet answer s q
  run_call-Quiet (deadman now on answer) s q = deadman-Quiet now on answer s q
  run_call-Quiet (watch now answer) s q = watch-Quiet now answer s q
  run_call-Quiet (worker_turn now answer stop) s q =
      unfold run_call in complete-Quiet answer stop (take_turn now s).0 (take_turn-Taken now s q)
  run_call-Quiet close_call s q = close-Quiet s q

  create-Quiet : (capacity timeout : ℕ) {s : State A} → create capacity timeout ≡ ok s → Quiet s
  unfolding create
  create-Quiet capacity timeout h = ground arith

  run_calls-Quiet : (cs : List (Call A)) (s : State A) → Quiet s → Quiet (run_calls cs s)
  unfolding run_calls
  run_calls-Quiet [] s q = q
  run_calls-Quiet (c ∷ cs) s q = run_calls-Quiet cs (run_call c s) (run_call-Quiet c s q)

  -- After any sequence of calls from a new arbiter, whatever the port answers: a queued automatic
  -- command means model authority, a pending manual command means that the deadman is held, a held
  -- deadman means manual authority, and no hold or active ticket is left over.
  pub serial_Quiet :
      (capacity timeout : ℕ) (cs : List (Call A)) (s : State A)
      → create capacity timeout ≡ ok s
      → Quiet (run_calls cs s)
  serial_Quiet capacity timeout cs s h = run_calls-Quiet cs s (create-Quiet capacity timeout h)
