-- ===== src/Execution/Scheduler/Admit.antt =====
-- `_submit`: the admission under the lock, and what a caller does whose wait has timed out.
use embodi_run.Base.{
  ℕ, suc, ◌+◌, ◌-◌, Bool, true, false, not, ◌&&◌, ◌||◌, Option, none, some, List, [], ◌∷◌, ◌++◌,
  leb, ◌==◌, is_some, length, if◌then◌else◌,
}
use embodi_run.Execution.Io.{
  cancelled, expired, rejected, unknown, Operation, is_stop, is_read, IoResult, immediate,
}
use embodi_run.Execution.Scheduler.State.{Request, State, drop_queued_motion}

-- The request is admitted, or answered at once.
pub data Admission : Type 0 where
  admitted : State → Admission
  answered : IoResult → Admission

abbrev pub active_is_stop : Option Request → Bool
active_is_stop none = false
active_is_stop (some r) = is_stop r.operation

abbrev pub new_request : Operation → Option ℕ → Option ℕ → ℕ → Request
new_request op cancel deadline id = record {
  id = id;
  operation = op;
  cancel_event = cancel;
  deadline_s = deadline;
  started = false;
  cancelled = false;
  detached = false;
  result = none;
}

abbrev pub deadline_passed : Option ℕ → ℕ → Bool
deadline_passed none now = false
deadline_passed (some d) now = leb d now

-- A stop goes to the front of the queue.
abbrev pub enqueue : Request → State → State
enqueue r s = record s {
  queued_reads = if is_read r.operation then s.queued_reads + 1 else s.queued_reads;
  queued_stop = if is_stop r.operation then some r.id else s.queued_stop;
  queue = if is_stop r.operation then r ∷ s.queue else s.queue ++ r ∷ [];
  next_id = suc s.next_id;
}

unfoldable pub admit : ℕ → Operation → Option ℕ → Option ℕ → State → Admission
admit now op cancel deadline s =
    if deadline_passed deadline now
    then answered (immediate op expired false)
    else if s.closed
    then answered (immediate op rejected false)
    else if not (is_stop op) && s.preemptive_active
    then answered (immediate op unknown s.quarantined)
    else if s.quarantined && not (is_stop op)
    then answered (immediate op unknown true)
    else if is_read op && leb s.max_pending_reads s.queued_reads
    then answered (immediate op rejected false)
    else if is_stop op && (is_some s.queued_stop || active_is_stop s.active)
    then answered (immediate op rejected false)
    else if not (is_stop op) && leb s.max_pending_operations (length s.queue)
    then answered (immediate op rejected false)
    else admitted (enqueue (new_request op cancel deadline s.next_id) s)

-- `self._queue.remove(request)`, of the request with the identity.
abbrev pub take_out : ℕ → List Request → List Request
take_out id [] = []
take_out id (r ∷ rs) = if r.id == id then rs else r ∷ take_out id rs

abbrev pub find_request : ℕ → List Request → Option Request
find_request id [] = none
find_request id (r ∷ rs) = if r.id == id then some r else find_request id rs

abbrev pub detach_active : ℕ → Option Request → Option Request
detach_active id none = none
detach_active id (some r) = if r.id == id then some (record r { detached = true }) else some r

abbrev pub detach_queued : ℕ → List Request → List Request
detach_queued id [] = []
detach_queued id (r ∷ rs) =
    if r.id == id then record r { detached = true } ∷ rs else r ∷ detach_queued id rs

abbrev withdraw_found : ℕ → Option Request → State → State
withdraw_found id none s = s
withdraw_found id (some r) s = record s {
  queue = take_out id s.queue;
  queued_reads = if is_read r.operation then s.queued_reads - 1 else s.queued_reads;
  answered = record r { cancelled = true } ∷ s.answered;
}

-- A request that has not started is withdrawn, if it still waits.
unfoldable pub withdraw : ℕ → State → State
withdraw id s = withdraw_found id (find_request id s.queue) s

-- The bus is quarantined, its queued motion dropped, and the request left to run out unheard.
unfoldable pub abandon : ℕ → State → State
abandon id s =
    let q = drop_queued_motion (record s { quarantined = true }) in
    record q { queue = detach_queued id q.queue; active = detach_active id q.active }

-- After `request.done.wait` has timed out: `started` is the request's flag at that moment.
unfoldable pub timed_out : ℕ → Operation → Bool → Bool → State → State × IoResult
timed_out id op has_cancel started s =
    if not started && not (is_stop op)
    then (withdraw id s, immediate op (if has_cancel then cancelled else unknown) false)
    else (abandon id s, immediate op unknown true)
