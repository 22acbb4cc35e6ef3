-- ===== src/Jobs/Steps.antt =====
-- The interleavings of the registry's clients and workers, and the invariant of each key.
use embodi_run.Base.{
  ℕ, ◌+◌, ◌≤◌, ◌≡◌, ◌⊎◌, Bool, true, false, Option, none, some, List, [], ◌∷◌, String, ok, length,
  is_some, if◌then◌else◌,
}
use embodi_run.Base.Dict.{lookup}
use embodi_run.Jobs.Types.{JobStatus, DispatchStatus, JobKey, key_eq, job_key_eq, Row, is_terminal}
use embodi_run.Jobs.Rows.{CallbackAnswer, CancelAnswer}
use embodi_run.Jobs.Registry.{Runtime, Registry, submit, cancel, record_stage, close}
use embodi_run.Jobs.Worker.{run_begin, run_end, cancel_result}

-- How often the key stands in a list.
abbrev pub count_key : JobKey → List JobKey → ℕ
count_key k [] = 0
count_key k (j ∷ js) = (if key_eq j k then 1 else 0) + count_key k js

-- A key's one worker takes its first lock outside the callback, and its second one inside.
pub data Step (s u : Registry) : Type 0 where
  submitted :
      (key : JobKey) (parameters : String) (inference has_cancel : Bool) (now : ℕ)
      (fresh id : String)
      → submit key parameters inference has_cancel now fresh s ≡ ok (u, id)
      → Step s u
  cancelled : (key : JobKey) (now : ℕ) (c : Bool) → cancel key now s ≡ ok (u, c) → Step s u
  staged :
      (key : JobKey) (stage : String) (duration : ℕ) (detail : Option String) (now : ℕ)
      → record_stage key stage duration detail now s ≡ ok u
      → Step s u
  began :
      (key : JobKey) (now : ℕ)
      → lookup key s.in_callback ≡ none
      → u ≡ (run_begin key now s).0
      → Step s u
  ended :
      (key : JobKey) (now : ℕ) (answer : CallbackAnswer)
      → lookup key s.in_callback ≡ some tt
      → u ≡ run_end key now answer s
      → Step s u
  reported :
      (key : JobKey) (now : ℕ) (answer : CancelAnswer)
      → u ≡ cancel_result key now answer s
      → Step s u
  closed : (now : ℕ) → u ≡ close now s → Step s u

pub data Reach (s : Registry) : Registry → Type 0 where
  here : Reach s s
  next : {t u : Registry} → Reach s t → Step t u → Reach s u

abbrev pub dispatch_of : JobStatus → DispatchStatus
dispatch_of JobStatus.accepted = DispatchStatus.accepted
dispatch_of JobStatus.running = DispatchStatus.running
dispatch_of JobStatus.completed = DispatchStatus.completed
dispatch_of JobStatus.failed = DispatchStatus.failed
dispatch_of JobStatus.cancel_requested = DispatchStatus.cancel_requested
dispatch_of JobStatus.cancelled = DispatchStatus.cancelled
dispatch_of JobStatus.unknown = DispatchStatus.unknown

-- The statuses that a worker writes at the end of a job.
abbrev pub is_finished : JobStatus → Bool
is_finished JobStatus.completed = true
is_finished JobStatus.failed = true
is_finished JobStatus.cancelled = true
is_finished _ = false

abbrev pub is_completed : JobStatus → Bool
is_completed JobStatus.completed = true
is_completed _ = false

-- What the status says of the cancellation flag.
abbrev pub FlagFits : JobStatus → Bool → Type 0
FlagFits JobStatus.cancel_requested flag = flag ≡ true
FlagFits JobStatus.cancelled flag = Unit
FlagFits JobStatus.unknown flag = Unit
FlagFits _ flag = flag ≡ false

pub record RowInv (max_events : ℕ) (row : Row) : Type 0 where
  pub coherent : row.dispatch_status ≡ dispatch_of row.status
  pub events_bounded : length row.events ≤ max_events
  pub finished_dated : is_some row.finished_at_s ≡ is_finished row.status
  pub result_of_completed : is_some row.result_json ≡ is_completed row.status
  pub flag_fits : FlagFits row.status row.cancel_requested

-- Inside the callback the row is running or has been asked to cancel, unless the registry closed.
abbrev pub Executing : Bool → Row → Type 0
Executing is_closed row =
    (is_closed ≡ true)
    ⊎ ((row.status ≡ JobStatus.running) ⊎ (row.status ≡ JobStatus.cancel_requested))

-- What the registry holds for one key: its row, its runtime, whether its worker is in the callback,
-- and how often the callback has been called.
abbrev pub KeyInv : ℕ → Bool → Option Row → Option Runtime → Option (Unit {0}) → ℕ → Type 0
KeyInv max_events is_closed none runtime inside n = (runtime ≡ none) × (inside ≡ none) × (n ≡ 0)
KeyInv max_events is_closed (some row) runtime inside n =
    RowInv max_events row
    × (inside ≡ some tt → Executing is_closed row)
    × (n ≤ 1)
    × (n ≡ 0 → inside ≡ none)
    × (row.status ≡ JobStatus.accepted → n ≡ 0)
    × (is_closed ≡ true → is_terminal row.status ≡ true)

pub record Inv (s : Registry) : Type 0 where
  pub capacity : length s.table ≤ s.max_jobs
  pub some_events : 1 ≤ s.max_events
  pub at_key :
      (k : JobKey)
      → KeyInv s.max_events s.closed
          (lookup k s.table)
          (lookup k s.runtimes)
          (lookup k s.in_callback)
          (count_key k s.executed)
