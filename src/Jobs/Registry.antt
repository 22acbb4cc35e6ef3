-- ===== src/Jobs/Registry.antt =====
-- `JobRegistry`: the calls of its clients, each under the registry's lock.
use embodi_run.Base.{
  ℕ, Bool, true, false, not, ◌&&◌, ◌||◌, Option, none, some, List, [], ◌∷◌, String, length, leb,
  str_eq, Result, ok, err, ◌>>=◌, ◌>>◌, if◌then◌else◌,
}
use embodi_run.Base.Dict.{Dict, lookup, insert, update, map_values}
use embodi_run.Jobs.Types.{
  JobStatus, JobKey, job_key_eq, Row, JobError, job_conflict, job_capacity_exceeded, job_not_found,
  job_ownership_error, job_closed, job_unknown_error, job_cancelled_error, job_not_terminal,
  job_execution_error, is_terminal,
}
use embodi_run.Jobs.Rows.{accepted_row, cancel_requested_row, with_event, unknown_if_unfinished}

-- `_Runtime`: whether there is a cancellation callback, whether the event is set, and whether the
-- callback has been called.
pub record Runtime : Type 0 where
  pub has_cancel : Bool
  pub cancel_event : Bool
  pub cancel_invoked : Bool

-- `executed` lists the keys whose execution callback a worker has called, the last one first, and
-- `in_callback` holds the keys whose worker is inside it.
pub record Registry : Type 0 where
  pub max_jobs : ℕ
  pub max_events : ℕ
  pub table : Dict JobKey Row
  pub runtimes : Dict JobKey Runtime
  pub closed : Bool
  pub executed : List JobKey
  pub in_callback : Dict JobKey Unit

abbrev pub raise_if : Bool → JobError → Result JobError Unit
raise_if true e = err e
raise_if false e = ok tt

abbrev pub require_open : Registry → Result JobError Unit
require_open s = raise_if s.closed job_closed

abbrev pub new_runtime : Bool → Runtime
new_runtime has_cancel = record {
  has_cancel = has_cancel;
  cancel_event = false;
  cancel_invoked = false;
}

-- The transaction of `submit` for a key that has no row. Its second look at the table is under the
-- same lock and sees the same, since the database has one owner.
unfoldable pub accept :
    JobKey → String → Bool → Bool → ℕ → String → Registry → Result JobError Registry
accept key parameters_json inference has_cancel now run_id s =
    if leb s.max_jobs (length s.table)
    then err job_capacity_exceeded
    else ok (record s {
      table = insert key (accepted_row run_id parameters_json inference now) s.table;
      runtimes = insert key (new_runtime has_cancel) s.runtimes;
    })

-- The answer to a request that has a row.
abbrev reuse : String → Row → Registry → Result JobError (Registry × String)
reuse parameters_json row s =
    if str_eq row.parameters_json parameters_json then ok (s, row.run_id) else err job_conflict

-- `submit`: the registry, and the run identity that the handle carries. A worker is started exactly
-- where a row is made. `run_id` is the fresh identity.
unfoldable pub submit :
    JobKey → String → Bool → Bool → ℕ → String → Registry → Result JobError (Registry × String)
unfolding accept
submit key parameters_json inference has_cancel now run_id s = do
  require_open s
  elim (lookup key s.table) [
    | some row ↦ reuse parameters_json row s
    | none ↦ accept key parameters_json inference has_cancel now run_id s >>= λ u. ok (u, run_id)
  ]

-- Does any caller or session have a row for the request?
unfoldable pub has_owner : String → Dict JobKey Row → Bool
has_owner request_id [] = false
has_owner request_id ((k, row) ∷ t) = str_eq k.request_id request_id || has_owner request_id t

-- `_owned_row_locked`
unfoldable pub owned_row : JobKey → Registry → Result JobError Row
owned_row key s = elim (lookup key s.table) [
  | some row ↦ ok row
  | none ↦ err (if has_owner key.request_id s.table then job_ownership_error else job_not_found)
]

-- `inspect`
unfoldable pub inspect : JobKey → Registry → Result JobError Row
unfolding owned_row
inspect key s = do require_open s; owned_row key s

abbrev pub request_cancel : Runtime → Runtime
request_cancel r = record r { cancel_event = true; cancel_invoked = true }

-- The cancellation of a job that is not terminal.
abbrev cancel_live : JobKey → ℕ → Option Runtime → Registry → Registry × Bool
cancel_live key now none s = (s, false)
cancel_live key now (some r) s = (
  record s {
    table = update key (cancel_requested_row s.max_events now) s.table;
    runtimes = update key request_cancel s.runtimes;
  },
  not r.cancel_invoked && r.has_cancel,
)

-- `cancel`: the registry, and whether the cancellation callback is to be called.
unfoldable pub cancel : JobKey → ℕ → Registry → Result JobError (Registry × Bool)
cancel key now s = do
  require_open s
  row ← owned_row key s
  let live = cancel_live key now (lookup key s.runtimes) s
  if is_terminal row.status then ok (s, false) else ok live

-- `record_stage`, once its arguments have been checked.
unfoldable pub record_stage :
    JobKey → String → ℕ → Option String → ℕ → Registry → Result JobError Registry
record_stage key stage duration detail now s = do
  require_open s
  owned_row key s >>= λ row. ok (record s {
    table =
        update key
          (with_event s.max_events now
            (record { name = stage; at_s = now; duration_s = some duration; detail = detail }))
          s.table;
  })

-- `_result_or_raise`
unfoldable pub result_or_raise : Row → Result JobError (Option String)
result_or_raise row = elim row.status [
  | JobStatus.completed ↦ ok row.result_json
  | JobStatus.unknown ↦ err job_unknown_error
  | JobStatus.cancelled ↦ err job_cancelled_error
  | JobStatus.failed ↦ err (job_execution_error row.error)
  | JobStatus.accepted ↦ err job_not_terminal
  | JobStatus.running ↦ err job_not_terminal
  | JobStatus.cancel_requested ↦ err job_not_terminal
]

abbrev pub set_event : Runtime → Runtime
set_event r = record r { cancel_event = true }

-- The first lock of `close`.
unfoldable pub close : ℕ → Registry → Registry
close now s = if s.closed then s else record s {
  table = map_values (unknown_if_unfinished "closed_unknown" s.max_events now) s.table;
  runtimes = map_values set_event s.runtimes;
  closed = true;
}

-- `__init__` over the table that the last owner left: `_recover_inflight_locked`.
unfoldable pub recover : ℕ → ℕ → ℕ → Dict JobKey Row → Registry
recover max_jobs max_events now table = record {
  max_jobs = max_jobs;
  max_events = max_events;
  table = map_values (unknown_if_unfinished "recovered_unknown" max_events now) table;
  runtimes = [];
  closed = false;
  executed = [];
  in_callback = [];
}
