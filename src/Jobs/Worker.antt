-- ===== src/Jobs/Worker.antt =====
-- `_run_job`, before and after the execution callback, and `_run_cancel_callback_impl`.
use embodi_run.Base.{Bool, true, false, Option, none, some, ℕ, ◌∷◌, if◌then◌else◌}
use embodi_run.Base.Dict.{lookup, insert, update, erase}
use embodi_run.Jobs.Types.{JobStatus, JobKey, job_key_eq, Row}
use embodi_run.Jobs.Rows.{
  CallbackAnswer, CancelAnswer, cancelled_before_row, running_row, finished_row, cancel_result_row,
}
use embodi_run.Jobs.Registry.{Runtime, Registry}

-- By the row's status: the registry, and whether the worker goes on to call the callback.
start_by_status : JobStatus → JobKey → ℕ → Runtime → Registry → Registry × Bool
start_by_status JobStatus.cancel_requested key now r s = (
  record s {
    table = update key (cancelled_before_row s.max_events now r.has_cancel) s.table;
    runtimes = erase key s.runtimes;
  },
  false,
)
start_by_status JobStatus.accepted key now r s = (
  record s {
    table = update key (running_row s.max_events now) s.table;
    executed = key ∷ s.executed;
    in_callback = insert key tt s.in_callback;
  },
  true,
)
start_by_status _ key now r s = (s, false)

start_row : Option Row → JobKey → ℕ → Runtime → Registry → Registry × Bool
unfolding start_by_status
start_row none key now r s = (s, false)
start_row (some row) key now r s = start_by_status row.status key now r s

start_runtime : Option Runtime → JobKey → ℕ → Registry → Registry × Bool
unfolding start_row
start_runtime none key now s = (s, false)
start_runtime (some r) key now s =
    if s.closed then (s, false) else start_row (lookup key s.table) key now r s

-- The first lock of `_run_job`.
unfoldable pub run_begin : JobKey → ℕ → Registry → Registry × Bool
unfolding start_runtime
run_begin key now s = start_runtime (lookup key s.runtimes) key now s

abbrev pub event_is_set : Option Runtime → Bool
event_is_set none = false
event_is_set (some r) = r.cancel_event

-- The second lock of `_run_job`. A closed registry keeps its rows.
unfoldable pub run_end : JobKey → ℕ → CallbackAnswer → Registry → Registry
run_end key now answer s =
    let runtimes = erase key s.runtimes in
    let set = event_is_set (lookup key s.runtimes) in
    let finished = update key (finished_row s.max_events now set answer) s.table in
    let left = record s { runtimes = runtimes; in_callback = erase key s.in_callback } in
    if s.closed then left else record left { table = finished }

abbrev pub may_report : JobStatus → Bool
may_report JobStatus.cancel_requested = true
may_report JobStatus.cancelled = true
may_report _ = false

report : Option Row → JobKey → ℕ → CancelAnswer → Registry → Registry
report none key now answer s = s
report (some row) key now answer s =
    if may_report row.status
    then record s { table = update key (cancel_result_row s.max_events now answer) s.table }
    else s

-- The lock of `_run_cancel_callback_impl`.
unfoldable pub cancel_result : JobKey → ℕ → CancelAnswer → Registry → Registry
unfolding report
cancel_result key now answer s =
    if s.closed then s else report (lookup key s.table) key now answer s
