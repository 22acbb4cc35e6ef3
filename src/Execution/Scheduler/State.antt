-- ===== src/Execution/Scheduler/State.antt =====
-- `_Request`, the fields of `RobotIOScheduler`, `_drop_queued_motion_locked` and `recover`.
use embodi_run.Base.{
  ℕ, ◌-◌, Bool, true, false, not, ◌||◌, Option, none, some, List, [], ◌∷◌, if◌then◌else◌, is_some,
}
use embodi_run.Execution.Io.{
  IoStatus, unknown, Operation, is_stop, is_read, IoResult, immediate, is_true,
}

-- `cancel_event` is the identity of the caller's event, if it passed one. The driver call itself is
-- not kept: its answer is given when the worker runs it. `done` is set exactly when there is a
-- result and the request is not detached.
pub record Request : Type 0 where
  pub id : ℕ
  pub operation : Operation
  pub cancel_event : Option ℕ
  pub deadline_s : Option ℕ
  pub started : Bool
  pub cancelled : Bool
  pub detached : Bool
  pub result : Option IoResult

-- `answered` holds the requests that have left the scheduler with a result, or were taken out of the
-- queue by a caller that gave up.
pub record State : Type 0 where
  pub max_pending_operations : ℕ
  pub max_pending_reads : ℕ
  pub queue : List Request
  pub queued_reads : ℕ
  pub active : Option Request
  pub queued_stop : Option ℕ
  pub closed : Bool
  pub quarantined : Bool
  pub last_stop_result : Option IoResult
  pub preemptive_active : Bool
  pub next_id : ℕ
  pub answered : List Request

unfoldable pub create : ℕ → ℕ → State
create max_operations max_reads = record {
  max_pending_operations = max_operations;
  max_pending_reads = max_reads;
  queue = [];
  queued_reads = 0;
  active = none;
  queued_stop = none;
  closed = false;
  quarantined = false;
  last_stop_result = none;
  preemptive_active = false;
  next_id = 0;
  answered = [];
}

-- A queued request that is ended without being run.
abbrev pub drop_request : IoStatus → Bool → Request → Request
drop_request st q r = record r { cancelled = true; result = some (immediate r.operation st q) }

-- The loop of `_drop_queued_motion_locked`, and of `close`: stops stay, all else is answered.
abbrev pub retained : List Request → List Request
retained [] = []
retained (r ∷ rs) = if is_stop r.operation then r ∷ retained rs else retained rs

abbrev pub dropped : IoStatus → Bool → List Request → List Request → List Request
dropped st q [] out = out
dropped st q (r ∷ rs) out =
    dropped st q rs (if is_stop r.operation then out else drop_request st q r ∷ out)

abbrev pub reads_left : List Request → ℕ → ℕ
reads_left [] n = n
reads_left (r ∷ rs) n = reads_left rs (if is_read r.operation then n - 1 else n)

unfoldable pub drop_queue : IoStatus → Bool → State → State
drop_queue st q s = record s {
  queue = retained s.queue;
  queued_reads = reads_left s.queue s.queued_reads;
  answered = dropped st q s.queue s.answered;
}

-- `_drop_queued_motion_locked`
unfoldable pub drop_queued_motion : State → State
drop_queued_motion s = drop_queue unknown true s

abbrev pub stop_was_confirmed : Option IoResult → Bool
stop_was_confirmed none = false
stop_was_confirmed (some r) = is_true r.stop_confirmed

-- `recover`: the state, and whether the bus is free of quarantine.
unfoldable pub recover : Bool → State → State × Bool
recover confirmed s =
    if not confirmed || is_some s.active || s.preemptive_active
    then (s, false)
    else if not s.quarantined
    then (s, true)
    else if stop_was_confirmed s.last_stop_result
    then (record s { quarantined = false }, true)
    else (s, false)
