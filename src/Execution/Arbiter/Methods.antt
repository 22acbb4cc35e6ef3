-- ===== src/Execution/Arbiter/Methods.antt =====
-- The remaining methods as one caller runs them from start to end: `reset_emergency_stop`,
-- `cancel_automatic_work` and `finish_automatic_work`; and the calls of such a caller, between which
-- the worker and the watchdog take their turns.
use embodi_run.Base.{
  ℕ, Bool, true, false, Option, none, some, List, [], ◌∷◌, String, Result, ok, err, ◌>>=◌,
}
use embodi_run.Execution.Ticket.{CommandSource}
use embodi_run.Execution.Arbiter.State.{State, Fault}
use embodi_run.Execution.Arbiter.Queue.{submit}
use embodi_run.Execution.Arbiter.Tasks.{
  begin_automatic_task, finish_automatic_begin, finish_automatic_end, cancel_automatic_begin,
}
use embodi_run.Execution.Arbiter.Authority.{
  acquire_manual, release_manual, set_deadman, hold, watch_deadman,
}
use embodi_run.Execution.Arbiter.Stops.{
  PortAnswer, stop_error, finish_hold, emergency_stop, reset_begin, reset_fail, reset_commit,
  close_begin,
}
use embodi_run.Execution.Arbiter.Worker.{take_turn}
use embodi_run.Execution.Arbiter.Completion.{ExecuteAnswer, complete}

module _ {A : Type 0} where
  reset_with : ℕ → Option String → State A → Result Fault (State A × Option String)
  reset_with g (some e) s = ok (reset_fail e s, some e)
  reset_with g none s = do u ← reset_commit g s; ok (u, none)

  unfoldable pub reset_emergency_stop :
      PortAnswer → State A → Result Fault (State A × Option String)
  unfolding reset_with reset_begin reset_fail reset_commit stop_error
  reset_emergency_stop answer s = do g ← reset_begin s; reset_with g (stop_error answer) s

  abbrev held_after_cancel : PortAnswer → State A × Bool × Bool → State A × Option String
  held_after_cancel answer (s, false, r) = (s, none)
  held_after_cancel answer (s, true, r) =
      (finish_hold none (stop_error answer) s, stop_error answer)

  unfoldable pub cancel_automatic_work :
      Option ℕ → PortAnswer → State A → Result Fault (State A × Option String)
  unfolding cancel_automatic_begin finish_hold stop_error
  cancel_automatic_work token answer s = do
    r ← cancel_automatic_begin token s
    ok (held_after_cancel answer r)

  abbrev finished_with :
      Option ℕ → Option ℕ → Option String → State A × Bool → State A × Option String
  finished_with token current (some e) (s, c) = (finish_hold none (some e) s, some e)
  finished_with token current none (s, c) =
      (finish_automatic_end token current c (finish_hold none none s), none)

  abbrev held_after_finish :
      Option ℕ → PortAnswer → State A → Option (State A × Bool) → State A × Option String
  held_after_finish token answer s none = (s, none)
  held_after_finish token answer s (some r) =
      finished_with token s.model_task_cancel (stop_error answer) r

  unfoldable pub finish_automatic_work :
      Option ℕ → PortAnswer → State A → Result Fault (State A × Option String)
  unfolding finish_automatic_begin finish_automatic_end finish_hold stop_error
  finish_automatic_work token answer s = do
    r ← finish_automatic_begin token s
    ok (held_after_finish token answer s r)

-- The calls, with the answers that the port gives to them.
pub data Call (A : Type 0) : Type 0 where
  begin_task : Option ℕ → Call A
  finish_task cancel_task : Option ℕ → PortAnswer → Call A
  submit_call : ℕ → CommandSource → A → Option ℕ → Option ℕ → Call A
  acquire release hold_call estop reset : PortAnswer → Call A
  deadman : ℕ → Bool → PortAnswer → Call A
  watch : ℕ → PortAnswer → Call A
  worker_turn : ℕ → ExecuteAnswer → PortAnswer → Call A
  close_call : Call A

module _ {A : Type 0} where
  -- A call that raises before it changes anything leaves the state.
  abbrev kept_or : {B : Type 0} → State A → (B → State A) → Result Fault B → State A
  kept_or s f (ok b) = f b
  kept_or s f (err e) = s

  abbrev state_of : {B : Type 0} → State A × B → State A
  state_of r = r.0

  abbrev held_after_watch : PortAnswer → State A × Bool → State A
  held_after_watch answer (s, true) = finish_hold none (stop_error answer) s
  held_after_watch answer (s, false) = s

  unfoldable pub run_call : Call A → State A → State A
  run_call (begin_task token) s = kept_or s state_of (begin_automatic_task token s)
  run_call (finish_task token answer) s = kept_or s state_of (finish_automatic_work token answer s)
  run_call (cancel_task token answer) s = kept_or s state_of (cancel_automatic_work token answer s)
  run_call (submit_call now source a deadline token) s =
      kept_or s (λ u. u) (submit now source a deadline token s)
  run_call (acquire answer) s = kept_or s state_of (acquire_manual answer s)
  run_call (release answer) s = kept_or s state_of (release_manual answer s)
  run_call (hold_call answer) s = kept_or s state_of (hold answer s)
  run_call (estop answer) s = kept_or s state_of (emergency_stop answer s)
  run_call (reset answer) s = kept_or s state_of (reset_emergency_stop answer s)
  run_call (deadman now on answer) s = kept_or s state_of (set_deadman now on answer s)
  run_call (watch now answer) s = held_after_watch answer (watch_deadman now s)
  run_call (worker_turn now answer stop) s = complete answer stop (take_turn now s).0
  run_call close_call s = close_begin s

  unfoldable pub run_calls : List (Call A) → State A → State A
  run_calls [] s = s
  run_calls (c ∷ cs) s = run_calls cs (run_call c s)
