-- ===== src/Jobs/Tests.antt =====
-- The registry's theorems at concrete states.
use embodi_run.Base.{
  ℕ, ◌≡◌, ◌⊎◌, refl, true, false, none, some, [], ◌∷◌, String, ok, err, arith, if◌then◌else◌,
  str_eq,
}
use embodi_run.Base.Dict.{Dict, lookup, insert, update, erase, map_values}
use embodi_run.Jobs.Types.{
  JobStatus, DispatchStatus, InferenceStatus, PhysicalStatus, JobKey, job_key_eq, JobEvent, Row,
  job_closed, job_conflict,
}
use embodi_run.Jobs.Rows.{
  accepted_row, cancel_requested_row, cancelled_before_row, with_event, append_event,
}
use embodi_run.Jobs.Registry.{
  Runtime, Registry, submit, accept, cancel, owned_row, recover, close, inspect, record_stage,
}
use embodi_run.Jobs.Worker.{run_begin}
use embodi_run.Jobs.Steps.{Step, Reach, Inv, count_key}
use embodi_run.Jobs.Preserved.{Step-Inv}
use embodi_run.Jobs.Lifecycle.{
  Lives, new_database, restarted, registry_Inv, row_Evolves, submit_idempotent,
}
use embodi_run.Jobs.Evolution.Sections.{HasEvolved}
use embodi_run.Jobs.Cancellation.{HasNoResult, cancelled_job_HasNoResult}
use embodi_run.Jobs.Closing.{IsTerminalRow, Recovered, close_is_final, recover_outcome}

abbrev key : JobKey
key = record { caller_id = "ui"; session_id = "s1"; request_id = "r1" }

abbrev fresh : Registry
fresh = record {
  max_jobs = 2;
  max_events = 8;
  table = [];
  runtimes = [];
  closed = false;
  executed = [];
  in_callback = [];
}

abbrev new_row : Row
new_row = record {
  run_id = "run-1";
  parameters_json = "{}";
  status = JobStatus.accepted;
  dispatch_status = DispatchStatus.accepted;
  inference_status = InferenceStatus.not_started;
  physical_status = PhysicalStatus.not_requested;
  cancel_requested = false;
  result_json = none;
  error = none;
  events = record { name = "accepted"; at_s = 5; duration_s = none; detail = none } ∷ [];
  events_truncated = false;
  created_at_s = 5;
  updated_at_s = 5;
  started_at_s = none;
  finished_at_s = none;
}

abbrev live : Runtime
live = record { has_cancel = true; cancel_event = false; cancel_invoked = false }

abbrev accepted : Registry
accepted = record fresh { table = (key, new_row) ∷ []; runtimes = (key, live) ∷ [] }

abbrev event_at : String → ℕ → JobEvent
event_at name now = record { name = name; at_s = now; duration_s = none; detail = none }

abbrev requested_row : Row
requested_row = record new_row {
  status = JobStatus.cancel_requested;
  dispatch_status = DispatchStatus.cancel_requested;
  inference_status = InferenceStatus.cancel_requested;
  physical_status = PhysicalStatus.stop_requested;
  cancel_requested = true;
  events = event_at "accepted" 5 ∷ event_at "cancel_requested" 7 ∷ [];
  updated_at_s = 7;
}

abbrev cancelling : Registry
cancelling = record accepted {
  table = (key, requested_row) ∷ [];
  runtimes = (key, record { has_cancel = true; cancel_event = true; cancel_invoked = true }) ∷ [];
}

abbrev dropped_row : Row
dropped_row = record requested_row {
  status = JobStatus.cancelled;
  dispatch_status = DispatchStatus.cancelled;
  inference_status = InferenceStatus.cancelled;
  physical_status = PhysicalStatus.stop_requested;
  events =
      event_at "accepted" 5
      ∷ event_at "cancel_requested" 7
      ∷ event_at "cancelled_before_dispatch" 8
      ∷ [];
  updated_at_s = 8;
  finished_at_s = some 8;
}

abbrev dropped : Registry
dropped = record accepted { table = (key, dropped_row) ∷ []; runtimes = [] }

recovered_lem : recover 2 8 1 [] ≡ fresh
unfolding recover map_values
recovered_lem = refl

submitted_lem : submit key "{}" true true 5 "run-1" fresh ≡ ok (accepted, "run-1")
unfolding submit accept accepted_row lookup insert
submitted_lem = refl

cancelled_lem : cancel key 7 accepted ≡ ok (cancelling, true)
unfolding cancel owned_row cancel_requested_row with_event append_event lookup update
cancelled_lem = refl

dropped_lem : dropped ≡ (run_begin key 8 cancelling).0
unfolding run_begin cancelled_before_row with_event append_event lookup update erase
dropped_lem = refl

in_callback_lem : lookup key cancelling.in_callback ≡ none
unfolding lookup
in_callback_lem = refl

lookup_lem : (row : Row) → lookup key ((key, row) ∷ []) ≡ some row
unfolding lookup
lookup_lem row = refl

runtime_lem : lookup key accepted.runtimes ≡ some live
unfolding lookup
runtime_lem = refl

accepted-Lives : Lives accepted
unfolding recover map_values
accepted-Lives =
    new_database 2 8 1 (ground arith)
      (Reach.next Reach.here (Step.submitted key "{}" true true 5 "run-1" "run-1" submitted_lem))

-- The owner that submitted the job goes, and the next one recovers its row.
registry_Inv_example : Inv (recover 2 8 9 accepted.table)
registry_Inv_example =
    registry_Inv (restarted 2 8 9 accepted-Lives (ground arith) (ground arith) Reach.here)

fresh-Inv : Inv fresh
unfolding recover map_values
fresh-Inv = registry_Inv (new_database 2 8 1 (ground arith) Reach.here)

accepted-Inv : Inv accepted
accepted-Inv =
    Step-Inv (Step.submitted key "{}" true true 5 "run-1" "run-1" submitted_lem) fresh-Inv

row_Evolves_example : HasEvolved cancelling.table key new_row
row_Evolves_example =
    row_Evolves key new_row accepted-Inv
      (Reach.next Reach.here (Step.cancelled key 7 true cancelled_lem)) (lookup_lem new_row)

submit_idempotent_example :
    submit key "[]" false false 9 "run-2" cancelling
    ≡ (if str_eq "{}" "[]" then ok (cancelling, "run-1") else err job_conflict)
submit_idempotent_example =
    submit_idempotent key "{}" true true 5 "run-1" "run-1" fresh-Inv submitted_lem
      (Reach.next Reach.here (Step.cancelled key 7 true cancelled_lem)) refl "[]" false false 9
      "run-2"

cancelled_job_HasNoResult_example :
    ((new : Row) × (lookup key dropped.table ≡ some new) × HasNoResult new)
    × (count_key key dropped.executed ≡ count_key key accepted.executed)
cancelled_job_HasNoResult_example =
    cancelled_job_HasNoResult key 7 true new_row live accepted-Inv (lookup_lem new_row) refl
      runtime_lem cancelled_lem
      (Reach.next Reach.here (Step.began key 8 in_callback_lem dropped_lem))

close_is_final_example :
    let u = close 9 accepted in
    (u.table ≡ u.table)
    × (u.executed ≡ accepted.executed)
    × IsTerminalRow (lookup key u.table)
    × (submit key "{}" true true 10 "run-2" u ≡ err job_closed)
    × (inspect key u ≡ err job_closed)
    × (cancel key 10 u ≡ err job_closed)
    × (record_stage key "plan" 1 none 10 u ≡ err job_closed)
close_is_final_example =
    close_is_final 9 10 1 key "{}" "run-2" "plan" true true none accepted-Inv Reach.here

recover_outcome_example :
    let t : Dict JobKey Row = (key, new_row) ∷ [] in
    let s = recover 2 8 20 t in
    (run_begin key 21 s ≡ (s, false))
    × (((lookup key t ≡ none) × (lookup key s.table ≡ none))
        ⊎ ((old new : Row) × (lookup key t ≡ some old)
            × (lookup key s.table ≡ some new)
            × Recovered old new))
recover_outcome_example = recover_outcome 2 8 20 21 ((key, new_row) ∷ []) key
