-- ===== src/Execution/Scheduler/Steps.antt =====
-- The interleavings of the scheduler's callers, its worker and a preemptive stop's thread, and the
-- invariant of its queue.
use embodi_run.Base.{
  ℕ, ◌+◌, ◌≤◌, ◌≡◌, Bool, false, Option, none, some, List, [], ◌∷◌, All, if◌then◌else◌,
}
use embodi_run.Execution.Io.{Operation, is_stop, is_read}
use embodi_run.Execution.Scheduler.State.{Request, State, recover}
use embodi_run.Execution.Scheduler.Admit.{admit, admitted, find_request, timed_out}
use embodi_run.Execution.Scheduler.Worker.{DriverAnswer, take_request, finish_request}
use embodi_run.Execution.Scheduler.Preemptive.{
  preemptive_begin, preemptive_return, preemptive_timeout, preemptive_finish, close_begin,
}

-- The caller that gives up names its own request.
abbrev pub IsOf : Operation → Option Request → Type 0
IsOf op none = Unit
IsOf op (some r) = r.operation ≡ op

pub data Step (s u : State) : Type 0 where
  admit_request :
      (now : ℕ) (op : Operation) (cancel deadline : Option ℕ)
      → admit now op cancel deadline s ≡ admitted u
      → Step s u
  give_up :
      (id : ℕ) (op : Operation) (has_cancel started : Bool)
      → IsOf op (find_request id s.queue)
      → u ≡ (timed_out id op has_cancel started s).0
      → Step s u
  take : s.active ≡ none → u ≡ take_request s → Step s u
  finish :
      (now : ℕ) (events : ℕ → Bool) (answer : DriverAnswer)
      → u ≡ finish_request now events answer s
      → Step s u
  preempt : preemptive_begin s ≡ admitted u → Step s u
  preempt_return : u ≡ preemptive_return s → Step s u
  preempt_timeout : u ≡ preemptive_timeout s → Step s u
  preempt_finish : (answer : DriverAnswer) → u ≡ preemptive_finish answer s → Step s u
  recovered : (confirmed : Bool) → u ≡ (recover confirmed s).0 → Step s u
  close : u ≡ close_begin s → Step s u

pub data Reach (s : State) : State → Type 0 where
  here : Reach s s
  next : {t u : State} → Reach s t → Step t u → Reach s u

abbrev pub count_reads : List Request → ℕ
count_reads [] = 0
count_reads (r ∷ rs) = (if is_read r.operation then 1 else 0) + count_reads rs

-- How many requests are no stops.
abbrev pub count_motion : List Request → ℕ
count_motion [] = 0
count_motion (r ∷ rs) = (if is_stop r.operation then 0 else 1) + count_motion rs

abbrev pub IsMotion : Request → Type 0
IsMotion r = is_stop r.operation ≡ false

abbrev pub StopFirst : List Request → Type 0
StopFirst [] = Unit
StopFirst (r ∷ rs) = All IsMotion rs

-- The identity of the stop at the front.
abbrev pub front_stop : List Request → Option ℕ
front_stop [] = none
front_stop (r ∷ rs) = if is_stop r.operation then some r.id else none

pub record Inv (s : State) : Type 0 where
  pub reads_counted : s.queued_reads ≡ count_reads s.queue
  pub reads_bounded : s.queued_reads ≤ s.max_pending_reads
  pub motion_bounded : count_motion s.queue ≤ s.max_pending_operations
  pub stop_first : StopFirst s.queue
  pub stop_known : s.queued_stop ≡ front_stop s.queue
