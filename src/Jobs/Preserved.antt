-- ===== src/Jobs/Preserved.antt =====
-- Every critical section of the registry keeps the invariant of each key.
use embodi_run.Base.{
  ℕ, suc, ◌+◌, ◌≤◌, ◌≡◌, ◌⊎◌, ◌≢◌, refl, Bool, true, false, Option, none, some, List, [], ◌∷◌,
  String, arith, ok, length, inl, inr, Option-cases, Bool-cases, subst,
}
use embodi_run.Base.Dict.{
  Dict, lookup, insert, update, erase, map_values, lookup-insert, lookup-map_values, length-update,
  length-insert_new, length-map_values,
}
use embodi_run.Jobs.Types.{
  JobStatus, JobKey, key_eq, key_eq_iff, job_key_eq, JobEvent, Row, is_terminal,
}
use embodi_run.Jobs.Rows.{
  CallbackAnswer, CancelAnswer, with_event, accepted_row, cancel_requested_row,
  cancelled_before_row, running_row, finished_row, cancel_result_row, unknown_row,
  unknown_if_unfinished,
}
use embodi_run.Jobs.Registry.{
  Runtime, Registry, submit, accept, cancel, owned_row, record_stage, close, recover, set_event,
  new_runtime, request_cancel,
}
use embodi_run.Jobs.Worker.{run_begin, run_end, cancel_result, event_is_set, may_report}
use embodi_run.Jobs.Steps.{Step, Reach, RowInv, KeyInv, Inv, count_key, is_finished}
use embodi_run.Jobs.RowLaws.{
  with_event-RowInv, accepted_row-RowInv, cancel_requested_row-RowInv, cancelled_before_row-RowInv,
  running_row-RowInv, finished_row-RowInv, cancel_result_row-RowInv, unknown_if_unfinished-RowInv,
}
use embodi_run.Jobs.Keys.{
  HoldsAt, Same, HoldsAt-split, update_self, update_other, insert_self, insert_other, erase_self,
  erase_other,
}
use embodi_run.Jobs.Preserved.Clients.{
  submit-Inv, cancel-cases, cancelled_registry-Inv, record_stage-Inv,
}
use embodi_run.Jobs.Preserved.Begin.{run_begin-Inv}
use embodi_run.Jobs.Preserved.End.{run_end-Inv, cancel_result-Inv, close-Inv}
pub mod Clients
pub mod Begin
pub mod End

-- One critical section of any thread keeps the invariant.
pub Step-Inv : {s u : Registry} → Step s u → Inv s → Inv u
Step-Inv {s} {u} (Step.submitted key parameters inference has_cancel now fresh id h) v =
    submit-Inv v key parameters inference has_cancel now fresh id u h
Step-Inv {s} {u} (Step.cancelled key now c h) v = elim (cancel-cases v key now c u h) [
  | inl same ↦ rw same v
  | inr (row, e, t, same) ↦ rw same (cancelled_registry-Inv v key now row e t)
]
Step-Inv {s} {u} (Step.staged key stage duration detail now h) v =
    record_stage-Inv v key stage duration detail now u h
Step-Inv (Step.began key now z h) v = rw h (run_begin-Inv v key now z)
Step-Inv (Step.ended key now answer i h) v = rw h (run_end-Inv v key now answer i)
Step-Inv (Step.reported key now answer h) v = rw h (cancel_result-Inv v key now answer)
Step-Inv (Step.closed now h) v = rw h (close-Inv v now)

pub Reach-Inv : {s u : Registry} → Inv s → Reach s u → Inv u
Reach-Inv v Reach.here = v
Reach-Inv v (Reach.next r st) = Step-Inv st (Reach-Inv v r)
