-- ===== src/Jobs/Cancellation.antt =====
-- What a cancellation of src/embodirun/application/jobs.py promises for the rest of a registry's
-- life.
use embodi_run.Base.{
  ℕ, ◌≡◌, ◌≢◌, ◌⊎◌, refl, Bool, true, false, some, arith, ok, err, inl, inr, Option-cases,
}
use embodi_run.Base.Dict.{lookup}
use embodi_run.Jobs.Types.{
  JobStatus, JobKey, job_key_eq, key_eq_iff, Row, is_terminal, job_unknown_error,
  job_cancelled_error, job_not_terminal,
}
use embodi_run.Jobs.Rows.{cancel_requested_row}
use embodi_run.Jobs.Registry.{
  Runtime, Registry, submit, accept, cancel, owned_row, result_or_raise, record_stage, close,
}
use embodi_run.Jobs.Worker.{run_begin, run_end, cancel_result}
use embodi_run.Jobs.Steps.{Step, Reach, Inv, count_key}
use embodi_run.Jobs.Keys.{update_self}
use embodi_run.Jobs.Preserved.{Step-Inv, Reach-Inv}
use embodi_run.Jobs.Preserved.Begin.{Begins, started_registry, dropped_registry, run_begin-cases}
use embodi_run.Jobs.Evolution.{Evolves, may_become}
use embodi_run.Jobs.Lifecycle.{row_Evolves}

module _ {s : Registry} (v : Inv s) (k : JobKey) (old : Row) (e : lookup k s.table ≡ some old) where
  Begins-executed :
      (key : JobKey) (now : ℕ) (r : Registry × Bool)
      → old.status ≢ JobStatus.accepted
      → Begins v key now r
      → count_key k r.0.executed ≡ count_key k s.executed
  unfolding Begins started_registry dropped_registry
  Begins-executed key now r n (inl (same, d)) = ground arith
  Begins-executed key now r n (inr (inl (row, d, a, c, b, same))) = ground (arith, key_eq_iff key k)
  Begins-executed key now r n (inr (inr (row, b, d, a, c, same))) = ground arith

-- Only an accepted job's callback is called.
Step-executed :
    {s u : Registry} (k : JobKey) (old : Row)
    → Step s u
    → Inv s
    → lookup k s.table ≡ some old
    → old.status ≢ JobStatus.accepted
    → count_key k u.executed ≡ count_key k s.executed
unfolding submit accept cancel owned_row record_stage run_end cancel_result close
Step-executed {s} k old (Step.submitted key p i c now fresh id h) v e n =
    elim (Option-cases (lookup key s.table)) [ inl d ↦ ground arith | inr (row, d) ↦ ground arith ]
Step-executed {s} k old (Step.cancelled key now c h) v e n =
    elim (Option-cases (lookup key s.table)) [
      | inl d ↦ ground arith
      | inr (row, d) ↦ elim (Option-cases (lookup key s.runtimes)) [
        | inl g ↦ ground arith
        | inr (r, g) ↦ ground arith
      ]
    ]
Step-executed {s} k old (Step.staged key stage duration detail now h) v e n =
    elim (Option-cases (lookup key s.table)) [ inl d ↦ ground arith | inr (row, d) ↦ ground arith ]
Step-executed {s} k old (Step.began key now i h) v e n =
    rw h (Begins-executed v k old e key now (run_begin key now s) n (run_begin-cases v key now))
Step-executed k old (Step.ended key now answer i h) v e n = ground arith
Step-executed {s} k old (Step.reported key now answer h) v e n =
    elim (Option-cases (lookup key s.table)) [ inl d ↦ ground arith | inr (row, d) ↦ ground arith ]
Step-executed k old (Step.closed now h) v e n = ground arith

not_accepted_again :
    (a b : JobStatus) → may_become a b ≡ true → a ≢ JobStatus.accepted → b ≢ JobStatus.accepted
not_accepted_again a b h n = ground arith

Reach-executed :
    {s u : Registry} (k : JobKey) (old : Row)
    → Inv s
    → Reach s u
    → lookup k s.table ≡ some old
    → old.status ≢ JobStatus.accepted
    → count_key k u.executed ≡ count_key k s.executed
Reach-executed k old v Reach.here e n = refl
Reach-executed k old v (Reach.next r st) e n =
    let (row, d, evolved) = row_Evolves k old v r e in
    let still = not_accepted_again old.status row.status evolved.status_follows n in
    ground (arith, Reach-executed k old v r e n, Step-executed k row st (Reach-Inv v r) d still)

-- What `result` raises.
abbrev pub HasNoResult : Row → Type 0
HasNoResult row =
    (result_or_raise row ≡ err job_cancelled_error)
    ⊎ ((result_or_raise row ≡ err job_unknown_error) ⊎ (result_or_raise row ≡ err job_not_terminal))

requested-HasNoResult :
    (old new : Row) → old.status ≡ JobStatus.cancel_requested → Evolves old new → HasNoResult new
unfolding result_or_raise
requested-HasNoResult old new h evolved = ground (arith, evolved.status_follows)

-- The cancellation of a job that is not terminal and whose runtime is still there holds for the rest
-- of the registry's life: in every later state the job has a row, reading its result raises
-- (cancelled, unknown, or not yet terminal), whatever its callback returned; and its execution
-- callback is not called any more: not at all, if it had not been.
pub cancelled_job_HasNoResult :
    (key : JobKey) (now : ℕ) (c : Bool) (row : Row) (r : Runtime) {s u w : Registry}
    → Inv s
    → lookup key s.table ≡ some row
    → is_terminal row.status ≡ false
    → lookup key s.runtimes ≡ some r
    → cancel key now s ≡ ok (u, c)
    → Reach u w
    → ((new : Row) × (lookup key w.table ≡ some new) × HasNoResult new)
      × (count_key key w.executed ≡ count_key key s.executed)
unfolding cancel owned_row cancel_requested_row
cancelled_job_HasNoResult key now c row r {s} {u} {w} v e t g h reach =
    let inv : Inv u = Step-Inv (Step.cancelled key now c h) v in
    let f = cancel_requested_row s.max_events now in
    let d : lookup key u.table ≡ some (f row) = ground (arith, update_self key f s.table row e) in
    let (new, found, evolved) = row_Evolves key (f row) inv reach d in
    (
      (new, found, requested-HasNoResult (f row) new refl evolved),
      ground (arith, Reach-executed key (f row) inv reach d),
    )
