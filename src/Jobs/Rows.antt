-- ===== src/Jobs/Rows.antt =====
-- What each transaction writes into a row: the calls of `SQLiteJobStore.update` and `insert` in
-- src/embodirun/application/jobs.py, and `append_event` of src/embodirun/application/job_store.py.
use embodi_run.Base.{
  ℕ, Bool, true, false, ◌||◌, Option, none, some, List, [], ◌∷◌, ◌++◌, String, length, leb,
  if◌then◌else◌,
}
use embodi_run.Jobs.Types.{
  JobStatus, DispatchStatus, InferenceStatus, PhysicalStatus, JobEvent, Row, is_terminal,
}

-- `append_event`
unfoldable pub append_event : ℕ → JobEvent → Row → List JobEvent × Bool
append_event max_events event row =
    if leb max_events (length row.events)
    then (row.events, true)
    else (row.events ++ event ∷ [], row.events_truncated)

abbrev pub event_named : String → ℕ → JobEvent
event_named name now = record { name = name; at_s = now; duration_s = none; detail = none }

-- The columns `events_json`, `events_truncated` and `updated_at_s`, which every transaction writes.
unfoldable pub with_event : ℕ → ℕ → JobEvent → Row → Row
with_event max_events now event row =
    let (events, truncated) = append_event max_events event row in
    record row { events = events; events_truncated = truncated; updated_at_s = now }

abbrev pub is_not_requested : InferenceStatus → Bool
is_not_requested InferenceStatus.not_requested = true
is_not_requested _ = false

-- `NOT_REQUESTED` stays, and all else becomes the given status.
abbrev pub inference_to : InferenceStatus → InferenceStatus → InferenceStatus
inference_to st old = if is_not_requested old then InferenceStatus.not_requested else st

unfoldable pub accepted_row : String → String → Bool → ℕ → Row
accepted_row run_id parameters_json inference_requested now = record {
  run_id = run_id;
  parameters_json = parameters_json;
  status = JobStatus.accepted;
  dispatch_status = DispatchStatus.accepted;
  inference_status =
      if inference_requested then InferenceStatus.not_started else InferenceStatus.not_requested;
  physical_status = PhysicalStatus.not_requested;
  cancel_requested = false;
  result_json = none;
  error = none;
  events = event_named "accepted" now ∷ [];
  events_truncated = false;
  created_at_s = now;
  updated_at_s = now;
  started_at_s = none;
  finished_at_s = none;
}

-- The update of `cancel`.
unfoldable pub cancel_requested_row : ℕ → ℕ → Row → Row
unfolding with_event
cancel_requested_row max_events now row =
    let w = with_event max_events now (event_named "cancel_requested" now) row in
    record w {
      status = JobStatus.cancel_requested;
      dispatch_status = DispatchStatus.cancel_requested;
      inference_status = InferenceStatus.cancel_requested;
      physical_status = PhysicalStatus.stop_requested;
      cancel_requested = true;
    }

-- The update of `_run_job` for a job that was cancelled before its callback ran.
unfoldable pub cancelled_before_row : ℕ → ℕ → Bool → Row → Row
unfolding with_event
cancelled_before_row max_events now has_cancel row =
    let w = with_event max_events now (event_named "cancelled_before_dispatch" now) row in
    record w {
      status = JobStatus.cancelled;
      dispatch_status = DispatchStatus.cancelled;
      inference_status = inference_to InferenceStatus.cancelled row.inference_status;
      physical_status =
          if has_cancel then PhysicalStatus.stop_requested else PhysicalStatus.stop_unconfirmed;
      finished_at_s = some now;
    }

-- The update of `_run_job` before it calls the callback.
unfoldable pub running_row : ℕ → ℕ → Row → Row
unfolding with_event
running_row max_events now row =
    let w = with_event max_events now (event_named "running" now) row in
    record w {
      status = JobStatus.running;
      dispatch_status = DispatchStatus.running;
      inference_status = inference_to InferenceStatus.running row.inference_status;
      started_at_s = some now;
    }

-- The callback raised (the text is `_error_text`), or returned: then `physical` is the valid
-- "physical_status" of a mapping, and `encoded` the text of `encode_result`.
pub data CallbackAnswer : Type 0 where
  raised : String → CallbackAnswer
  returned : (physical : Option PhysicalStatus) (encoded : String) → CallbackAnswer

-- `_physical_from_value`
unfoldable pub physical_from_value : Option PhysicalStatus → PhysicalStatus
physical_from_value none = PhysicalStatus.unknown
physical_from_value (some p) = p

abbrev unconfirmed : PhysicalStatus → PhysicalStatus
unconfirmed PhysicalStatus.stop_requested = PhysicalStatus.stop_unconfirmed
unconfirmed p = p

abbrev error_text : CallbackAnswer → Option String
error_text (raised e) = some e
error_text (returned p x) = none

finish_cancelled : ℕ → ℕ → CallbackAnswer → Row → Row
finish_cancelled max_events now answer row =
    let w = with_event max_events now (event_named "cancelled" now) row in
    record w {
      status = JobStatus.cancelled;
      dispatch_status = DispatchStatus.cancelled;
      inference_status = inference_to InferenceStatus.cancelled row.inference_status;
      physical_status = unconfirmed row.physical_status;
      result_json = none;
      error = error_text answer;
      finished_at_s = some now;
    }

finish_by_answer : ℕ → ℕ → CallbackAnswer → Row → Row
unfolding physical_from_value
finish_by_answer max_events now (raised e) row =
    let w = with_event max_events now (event_named "failed" now) row in
    record w {
      status = JobStatus.failed;
      dispatch_status = DispatchStatus.failed;
      inference_status = inference_to InferenceStatus.failed row.inference_status;
      physical_status = PhysicalStatus.unknown;
      result_json = none;
      error = some e;
      finished_at_s = some now;
    }
finish_by_answer max_events now (returned physical encoded) row =
    let w = with_event max_events now (event_named "completed" now) row in
    record w {
      status = JobStatus.completed;
      dispatch_status = DispatchStatus.completed;
      inference_status = inference_to InferenceStatus.completed row.inference_status;
      physical_status = physical_from_value physical;
      result_json = some encoded;
      error = none;
      finished_at_s = some now;
    }

-- The last update of `_run_job`: `event_set` is whether the runtime's cancel event is set.
unfoldable pub finished_row : ℕ → ℕ → Bool → CallbackAnswer → Row → Row
unfolding finish_cancelled finish_by_answer with_event
finished_row max_events now event_set answer row =
    if event_set || row.cancel_requested
    then finish_cancelled max_events now answer row
    else finish_by_answer max_events now answer row

-- What a cancellation callback returned, as `_physical_from_cancel` reads it: a mapping with its
-- valid "physical_status" and its Boolean "stop_confirmed", a `bool`, or anything else.
pub data CancelAnswer : Type 0 where
  raised : String → CancelAnswer
  mapping : Option PhysicalStatus → Option Bool → CancelAnswer
  boolean : Bool → CancelAnswer
  other : CancelAnswer

abbrev confirmed_to_physical : Bool → PhysicalStatus
confirmed_to_physical true = PhysicalStatus.stopped
confirmed_to_physical false = PhysicalStatus.stop_unconfirmed

-- `_physical_from_cancel`, and what `_run_cancel_callback_impl` takes where the callback raised.
unfoldable pub physical_from_cancel : CancelAnswer → PhysicalStatus
physical_from_cancel (raised e) = PhysicalStatus.stop_unconfirmed
physical_from_cancel (mapping (some p) c) = p
physical_from_cancel (mapping none (some c)) = confirmed_to_physical c
physical_from_cancel (mapping none none) = PhysicalStatus.stop_unconfirmed
physical_from_cancel (boolean b) = confirmed_to_physical b
physical_from_cancel other = PhysicalStatus.stop_unconfirmed

abbrev pub cancel_detail : CancelAnswer → Option String
cancel_detail (raised e) = some e
cancel_detail _ = none

abbrev first_some : Option String → Option String → Option String
first_some (some e) old = some e
first_some none old = old

-- The update of `_run_cancel_callback_impl`.
unfoldable pub cancel_result_row : ℕ → ℕ → CancelAnswer → Row → Row
unfolding with_event physical_from_cancel
cancel_result_row max_events now answer row =
    let e : JobEvent = record {
      name = "cancel_result";
      at_s = now;
      duration_s = none;
      detail = cancel_detail answer;
    } in
    let w = with_event max_events now e row in
    record w {
      physical_status = physical_from_cancel answer;
      error = first_some (cancel_detail answer) row.error;
    }

-- The update of `close` and of `_recover_inflight_locked`, which differ in the event's name. The
-- clock's two readings there, for the event and for the row, are one here.
unfoldable pub unknown_row : String → ℕ → ℕ → Row → Row
unfolding with_event
unknown_row name max_events now row =
    let w = with_event max_events now (event_named name now) row in
    record w {
      status = JobStatus.unknown;
      dispatch_status = DispatchStatus.unknown;
      inference_status = inference_to InferenceStatus.unknown row.inference_status;
      physical_status =
          if row.cancel_requested then PhysicalStatus.stop_unconfirmed else PhysicalStatus.unknown;
    }

-- Only rows that are not terminal are selected for it.
unfoldable pub unknown_if_unfinished : String → ℕ → ℕ → Row → Row
unfolding unknown_row
unknown_if_unfinished name max_events now row =
    if is_terminal row.status then row else unknown_row name max_events now row
