-- ===== src/Execution/Arbiter/Latch.antt =====
-- The emergency stop over the interleavings of the arbiter's threads.
use embodi_run.Base.{ℕ, suc, ◌≡◌, ◌≢◌, Bool, true, false, none, some, [], arith, ok}
use embodi_run.Execution.Arbiter.State.{State, estop_latched, optional_token_set, cancel_ticket}
use embodi_run.Execution.Arbiter.Queue.{submit}
use embodi_run.Execution.Arbiter.Tasks.{
  begin_automatic_task, finish_automatic_begin, finish_automatic_end, cancel_automatic_begin,
}
use embodi_run.Execution.Arbiter.Authority.{
  acquire_manual_begin, release_manual_begin, set_deadman_begin, hold_begin, watch_deadman,
}
use embodi_run.Execution.Arbiter.Stops.{
  finish_hold, emergency_stop_begin, emergency_stop_end, reset_fail, close_begin,
}
use embodi_run.Execution.Arbiter.Worker.{
  take_turn, publish, record_command_error, retire, dispatched,
}
use embodi_run.Execution.Arbiter.Steps.{Step}

-- Interleavings in which no reset commits.
abbrev pub is_reset : {A : Type 0} {s u : State A} → Step s u → Bool
is_reset (Step.reset g h) = true
is_reset _ = false

pub data NoReset {A : Type 0} (s : State A) : State A → Type 0 where
  here : NoReset s s
  next : {t u : State A} → NoReset s t → (st : Step t u) → is_reset st ≡ false → NoReset s u

abbrev pub IsLatched : {A : Type 0} → State A → Type 0
IsLatched s = s.authority ≡ estop_latched

module _ {A : Type 0} where
  -- Every critical section but the last of a reset keeps the latch.
  Step-IsLatched : {s u : State A} (st : Step s u) → is_reset st ≡ false → IsLatched s → IsLatched u
  unfolding begin_automatic_task finish_automatic_begin finish_automatic_end cancel_automatic_begin
      submit acquire_manual_begin release_manual_begin set_deadman_begin hold_begin watch_deadman
      finish_hold emergency_stop_begin emergency_stop_end reset_fail close_begin take_turn publish
      record_command_error retire
  Step-IsLatched (Step.begin_task token t h) n l = ground arith
  Step-IsLatched (Step.finish_task token c h) n l = ground arith
  Step-IsLatched (Step.finished_task token current c h) n l = ground arith
  Step-IsLatched (Step.cancel_task token h r e) n l = ground arith
  Step-IsLatched (Step.submitted now source a deadline token h) n l = ground arith
  Step-IsLatched (Step.acquire m h) n l = ground arith
  Step-IsLatched (Step.release h) n l = ground arith
  Step-IsLatched (Step.deadman now on m h) n l = ground arith
  Step-IsLatched (Step.hold h) n l = ground arith
  Step-IsLatched (Step.watch now h) n l = ground arith
  Step-IsLatched (Step.hold_done to_model none h) n l = ground arith
  Step-IsLatched (Step.hold_done to_model (some e) h) n l = ground arith
  Step-IsLatched (Step.estop h) n l = ground arith
  Step-IsLatched (Step.estop_done none h) n l = ground arith
  Step-IsLatched (Step.estop_done (some e) h) n l = ground arith
  Step-IsLatched (Step.reset_failed e h) n l = ground arith
  Step-IsLatched (Step.reset g h) n l = cc
  Step-IsLatched (Step.close h) n l = ground arith
  Step-IsLatched (Step.set_event t h) n l = ground arith
  Step-IsLatched (Step.take now idle h) n l = ground arith
  Step-IsLatched (Step.command_error e h) n l = ground arith
  Step-IsLatched (Step.published st e r end h) n l = ground arith
  Step-IsLatched (Step.retired t a end h) n l = ground arith

  NoReset-IsLatched : {s u : State A} → IsLatched s → NoReset s u → IsLatched u
  NoReset-IsLatched l NoReset.here = l
  NoReset-IsLatched l (NoReset.next r st n) = Step-IsLatched st n (NoReset-IsLatched l r)

  take_turn_latched : (now : ℕ) (s : State A) → IsLatched s → (take_turn now s).1 ≢ dispatched
  unfolding take_turn
  take_turn_latched now s l = ground arith

  latch-IsLatched : (s u : State A) → emergency_stop_begin s ≡ ok u → IsLatched u
  unfolding emergency_stop_begin
  latch-IsLatched s u h = ground arith

  -- Once `emergency_stop` has taken the lock, then whatever critical sections the other threads run,
  -- in any order, as long as no reset commits, the arbiter is latched and the worker's next turn
  -- dispatches nothing.
  pub estop_blocks_dispatch :
      (now : ℕ) (s t u : State A)
      → emergency_stop_begin s ≡ ok t
      → NoReset t u
      → IsLatched u × ((take_turn now u).1 ≢ dispatched)
  estop_blocks_dispatch now s t u h r =
      let l = NoReset-IsLatched (latch-IsLatched s t h) r in (l, take_turn_latched now u l)

  -- An open arbiter's `emergency_stop` leaves, under its lock, the latch set, a new generation, no
  -- waiting command, the deadman off, the active ticket's event and the current task's event set,
  -- and a hold in progress; a closed one raises.
  pub estop_effects :
      (s u : State A)
      → emergency_stop_begin s ≡ ok u
      → (s.closed ≡ false)
        × IsLatched u
        × (u.estop_generation ≡ suc s.estop_generation)
        × (u.model_queue ≡ [])
        × (u.manual_pending ≡ none)
        × (u.deadman_active ≡ false)
        × (u.active ≡ cancel_ticket s.active)
        × (s.model_task_cancel ≢ none → optional_token_set s.model_task_cancel u.token_set ≡ true)
        × (u.hold_in_progress ≡ true)
  unfolding emergency_stop_begin
  estop_effects s u h = ground arith
