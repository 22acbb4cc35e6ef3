-- ===== src/Jobs/RowLaws.antt =====
-- Every transaction keeps the invariant of the row that it writes.
use embodi_run.Base.{ℕ, ◌≤◌, ◌≡◌, Bool, false, none, [], ◌∷◌, String, arith, length, length-append}
use embodi_run.Jobs.Types.{JobStatus, job_key_eq, JobEvent, Row, is_terminal}
use embodi_run.Jobs.Rows.{
  CallbackAnswer, CancelAnswer, with_event, accepted_row, cancel_requested_row,
  cancelled_before_row, running_row, finished_row, cancel_result_row, unknown_if_unfinished,
  append_event, event_named, cancel_detail,
}
use embodi_run.Jobs.Steps.{RowInv}

-- One lemma for each transaction's row.
module _ (max_events now : ℕ) where
  length-append_event :
      (event : JobEvent) (row : Row)
      → length row.events ≤ max_events
      → length (append_event max_events event row).0 ≤ max_events
  unfolding append_event
  length-append_event event row h = ground (arith, length-append row.events (event ∷ []))

  pub with_event-RowInv :
      (event : JobEvent) (row : Row)
      → RowInv max_events row
      → RowInv max_events (with_event max_events now event row)
  unfolding with_event
  with_event-RowInv event row v = ground (arith, length-append_event event row)

  pub accepted_row-RowInv :
      (run_id parameters : String) (inference : Bool)
      → 1 ≤ max_events
      → RowInv max_events (accepted_row run_id parameters inference now)
  unfolding accepted_row
  accepted_row-RowInv run_id parameters inference h = ground arith

  pub cancel_requested_row-RowInv :
      (row : Row)
      → RowInv max_events row
      → is_terminal row.status ≡ false
      → RowInv max_events (cancel_requested_row max_events now row)
  unfolding cancel_requested_row
  cancel_requested_row-RowInv row v t =
      ground (arith, length-append_event (event_named "cancel_requested" now) row)

  pub cancelled_before_row-RowInv :
      (b : Bool) (row : Row)
      → RowInv max_events row
      → row.status ≡ JobStatus.cancel_requested
      → RowInv max_events (cancelled_before_row max_events now b row)
  unfolding cancelled_before_row
  cancelled_before_row-RowInv b row v t =
      ground (arith, length-append_event (event_named "cancelled_before_dispatch" now) row)

  pub running_row-RowInv :
      (row : Row)
      → RowInv max_events row
      → row.status ≡ JobStatus.accepted
      → RowInv max_events (running_row max_events now row)
  unfolding running_row
  running_row-RowInv row v t = ground (arith, length-append_event (event_named "running" now) row)

  pub finished_row-RowInv :
      (set : Bool) (answer : CallbackAnswer) (row : Row)
      → RowInv max_events row
      → RowInv max_events (finished_row max_events now set answer row)
  unfolding finished_row
  finished_row-RowInv set (CallbackAnswer.raised e) row v = ground (
    arith,
    length-append_event (event_named "cancelled" now) row,
    length-append_event (event_named "failed" now) row,
  )
  finished_row-RowInv set (CallbackAnswer.returned p x) row v = ground (
    arith,
    length-append_event (event_named "cancelled" now) row,
    length-append_event (event_named "completed" now) row,
  )

  pub cancel_result_row-RowInv :
      (answer : CancelAnswer) (row : Row)
      → RowInv max_events row
      → RowInv max_events (cancel_result_row max_events now answer row)
  unfolding cancel_result_row
  cancel_result_row-RowInv answer row v =
      let e : JobEvent = record {
        name = "cancel_result";
        at_s = now;
        duration_s = none;
        detail = cancel_detail answer;
      } in
      ground (arith, length-append_event e row)

  pub unknown_if_unfinished-RowInv :
      (name : String) (row : Row)
      → RowInv max_events row
      → RowInv max_events (unknown_if_unfinished name max_events now row)
  unfolding unknown_if_unfinished
  unknown_if_unfinished-RowInv name row v =
      ground (arith, length-append_event (event_named name now) row)
