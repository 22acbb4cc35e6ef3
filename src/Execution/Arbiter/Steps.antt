-- ===== src/Execution/Arbiter/Steps.antt =====
-- The interleavings of the arbiter's threads: one step for each critical section, in any order.
use embodi_run.Base.{ℕ, ◌≡◌, Bool, true, Option, none, some, String, ok}
use embodi_run.Execution.Io.{IoResult}
use embodi_run.Execution.Ticket.{CommandSource, CommandStatus, is_terminal, Ticket}
use embodi_run.Execution.Arbiter.State.{State, AuthorityState, model_authority, set_token}
use embodi_run.Execution.Arbiter.Queue.{submit}
use embodi_run.Execution.Arbiter.Tasks.{
  begin_automatic_task, finish_automatic_begin, finish_automatic_end, cancel_automatic_begin,
}
use embodi_run.Execution.Arbiter.Authority.{
  Next, acquire_manual_begin, release_manual_begin, set_deadman_begin, hold_begin, watch_deadman,
}
use embodi_run.Execution.Arbiter.Stops.{
  finish_hold, emergency_stop_begin, emergency_stop_end, reset_fail, reset_commit, close_begin,
}
use embodi_run.Execution.Arbiter.Worker.{take_turn, publish, record_command_error, retire}

-- The two ways in which the code calls `_finish_hold`.
abbrev pub hold_target : Bool → Option AuthorityState
hold_target true = some model_authority
hold_target _ = none

-- The worker takes a ticket only after it has dropped the last one, and drops one only after it has
-- published its end.
pub data Step {A : Type 0} (s u : State A) : Type 0 where
  begin_task : (token : Option ℕ) (t : ℕ) → begin_automatic_task token s ≡ ok (u, t) → Step s u
  finish_task :
      (token : Option ℕ) (c : Bool) → finish_automatic_begin token s ≡ ok (some (u, c)) → Step s u
  finished_task :
      (token current : Option ℕ) (c : Bool) → u ≡ finish_automatic_end token current c s → Step s u
  cancel_task :
      (token : Option ℕ) (h r : Bool) → cancel_automatic_begin token s ≡ ok (u, h, r) → Step s u
  submitted :
      (now : ℕ) (source : CommandSource) (a : A) (deadline token : Option ℕ)
      → submit now source a deadline token s ≡ ok u
      → Step s u
  acquire : (n : Next) → acquire_manual_begin s ≡ ok (u, n) → Step s u
  release : release_manual_begin s ≡ ok u → Step s u
  deadman : (now : ℕ) (on : Bool) (n : Next) → set_deadman_begin now on s ≡ ok (u, n) → Step s u
  hold : hold_begin s ≡ ok u → Step s u
  watch : (now : ℕ) → u ≡ (watch_deadman now s).0 → Step s u
  hold_done :
      (to_model : Bool) (e : Option String) → u ≡ finish_hold (hold_target to_model) e s → Step s u
  estop : emergency_stop_begin s ≡ ok u → Step s u
  estop_done : (e : Option String) → u ≡ emergency_stop_end e s → Step s u
  reset_failed : (e : String) → u ≡ reset_fail e s → Step s u
  reset : (generation : ℕ) → reset_commit generation s ≡ ok u → Step s u
  close : u ≡ close_begin s → Step s u
  set_event : (t : ℕ) → u ≡ record s { token_set = set_token t s.token_set } → Step s u
  take : (now : ℕ) → s.active ≡ none → u ≡ (take_turn now s).0 → Step s u
  command_error : (e : String) → u ≡ record_command_error e s → Step s u
  published :
      (st : CommandStatus) (e : Option String) (r : Option IoResult)
      → is_terminal st ≡ true
      → u ≡ publish st e r s
      → Step s u
  retired :
      (t : Ticket A) → s.active ≡ some t → is_terminal t.status ≡ true → u ≡ retire s → Step s u

pub data Reach {A : Type 0} (s : State A) : State A → Type 0 where
  here : Reach s s
  next : {t u : State A} → Reach s t → Step t u → Reach s u
