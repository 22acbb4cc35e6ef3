-- ===== src/Jobs/Evolution.antt =====
-- How one row may change, and that every critical section changes a key's row in such a way.
use embodi_run.Base.{
  ℕ, ◌≡◌, ◌⊎◌, refl, Bool, true, false, ◌||◌, Option, none, some, String, arith, ok, inl, inr,
  Option-cases, Bool-cases,
}
use embodi_run.Base.Dict.{lookup, insert, update, lookup-insert, lookup-update, lookup-map_values}
use embodi_run.Jobs.Types.{
  JobStatus, JobKey, key_eq, key_eq_iff, job_key_eq, JobEvent, Row, is_terminal,
}
use embodi_run.Jobs.Rows.{
  CallbackAnswer, CancelAnswer, with_event, accepted_row, cancel_requested_row,
  cancelled_before_row, running_row, finished_row, cancel_result_row, unknown_row,
  unknown_if_unfinished,
}
use embodi_run.Jobs.Registry.{Registry, submit, accept, record_stage, owned_row, close, new_runtime}
use embodi_run.Jobs.Worker.{run_begin, run_end, cancel_result, event_is_set}
use embodi_run.Jobs.Steps.{Step, RowInv, KeyInv, Inv, Executing, FlagFits}
use embodi_run.Jobs.Preserved.Clients.{cancelled_registry, cancel-cases, staged_registry}
use embodi_run.Jobs.Preserved.Begin.{Begins, started_registry, dropped_registry, run_begin-cases}
use embodi_run.Jobs.Preserved.End.{
  left_registry, ended_registry, reported_registry, closed_registry, run_end-cases,
  cancel_result-cases,
}
pub mod Sections

-- The order of the statuses: a job that has been asked to cancel never completes, and a terminal
-- status is the last.
abbrev pub may_become : JobStatus → JobStatus → Bool
may_become JobStatus.accepted b = true
may_become JobStatus.running JobStatus.accepted = false
may_become JobStatus.running b = true
may_become JobStatus.cancel_requested JobStatus.cancel_requested = true
may_become JobStatus.cancel_requested JobStatus.cancelled = true
may_become JobStatus.cancel_requested JobStatus.unknown = true
may_become JobStatus.cancel_requested b = false
may_become JobStatus.completed JobStatus.completed = true
may_become JobStatus.completed b = false
may_become JobStatus.failed JobStatus.failed = true
may_become JobStatus.failed b = false
may_become JobStatus.cancelled JobStatus.cancelled = true
may_become JobStatus.cancelled b = false
may_become JobStatus.unknown JobStatus.unknown = true
may_become JobStatus.unknown b = false

pub record Evolves (old new : Row) : Type 0 where
  pub same_run : new.run_id ≡ old.run_id
  pub same_parameters : new.parameters_json ≡ old.parameters_json
  pub same_creation : new.created_at_s ≡ old.created_at_s
  pub status_follows : may_become old.status new.status ≡ true

may_become_refl : (a : JobStatus) → may_become a a ≡ true
may_become_refl a = ground arith

may_become_trans :
    (a b c : JobStatus) → may_become a b ≡ true → may_become b c ≡ true → may_become a c ≡ true
may_become_trans a b c = ground arith

pub Evolves-refl : (row : Row) → Evolves row row
Evolves-refl row = record {
  same_run = refl;
  same_parameters = refl;
  same_creation = refl;
  status_follows = may_become_refl row.status;
}

pub Evolves-trans : {a b c : Row} → Evolves a b → Evolves b c → Evolves a c
Evolves-trans {a} {b} {c} p q = record {
  same_run = ground (arith, p.same_run, q.same_run);
  same_parameters = ground (arith, p.same_parameters, q.same_parameters);
  same_creation = ground (arith, p.same_creation, q.same_creation);
  status_follows = may_become_trans a.status b.status c.status p.status_follows q.status_follows;
}

module _ (max_events now : ℕ) (row : Row) where
  pub with_event-Evolves : (event : JobEvent) → Evolves row (with_event max_events now event row)
  unfolding with_event
  with_event-Evolves event = record {
    same_run = refl;
    same_parameters = refl;
    same_creation = refl;
    status_follows = may_become_refl row.status;
  }

  pub cancel_result_row-Evolves :
      (answer : CancelAnswer) → Evolves row (cancel_result_row max_events now answer row)
  unfolding cancel_result_row with_event
  cancel_result_row-Evolves answer = record {
    same_run = refl;
    same_parameters = refl;
    same_creation = refl;
    status_follows = may_become_refl row.status;
  }

  pub cancel_requested_row-Evolves :
      is_terminal row.status ≡ false → Evolves row (cancel_requested_row max_events now row)
  unfolding cancel_requested_row with_event
  cancel_requested_row-Evolves t = record {
    same_run = refl;
    same_parameters = refl;
    same_creation = refl;
    status_follows = ground arith;
  }

  pub cancelled_before_row-Evolves :
      (b : Bool)
      → row.status ≡ JobStatus.cancel_requested
      → Evolves row (cancelled_before_row max_events now b row)
  unfolding cancelled_before_row with_event
  cancelled_before_row-Evolves b e = record {
    same_run = refl;
    same_parameters = refl;
    same_creation = refl;
    status_follows = ground arith;
  }

  pub running_row-Evolves :
      row.status ≡ JobStatus.accepted → Evolves row (running_row max_events now row)
  unfolding running_row with_event
  running_row-Evolves e = record {
    same_run = refl;
    same_parameters = refl;
    same_creation = refl;
    status_follows = ground arith;
  }

  pub unknown_if_unfinished-Evolves :
      (name : String) → Evolves row (unknown_if_unfinished name max_events now row)
  unfolding unknown_if_unfinished unknown_row with_event
  unknown_if_unfinished-Evolves name = record {
    same_run = ground arith;
    same_parameters = ground arith;
    same_creation = ground arith;
    status_follows = ground (arith, may_become_refl row.status);
  }

  pub finished_row-Evolves :
      (set : Bool) (answer : CallbackAnswer)
      → FlagFits row.status row.cancel_requested
      → (row.status ≡ JobStatus.running) ⊎ (row.status ≡ JobStatus.cancel_requested)
      → Evolves row (finished_row max_events now set answer row)
  unfolding finished_row with_event
  finished_row-Evolves set (CallbackAnswer.raised e) f st = record {
    same_run = ground arith;
    same_parameters = ground arith;
    same_creation = ground arith;
    status_follows = ground arith;
  }
  finished_row-Evolves set (CallbackAnswer.returned p x) f st = record {
    same_run = ground arith;
    same_parameters = ground arith;
    same_creation = ground arith;
    status_follows = ground arith;
  }
