-- ===== src/Jobs/Closing.antt =====
-- What the closing and the recovery of src/embodirun/application/jobs.py promise.
use embodi_run.Base.{
  ℕ, ◌≡◌, ◌⊎◌, refl, Bool, true, false, Option, none, some, String, arith, err, inl, inr,
  Option-cases, if◌then◌else◌,
}
use embodi_run.Base.Dict.{Dict, lookup, lookup-map_values}
use embodi_run.Jobs.Types.{JobStatus, JobKey, job_key_eq, Row, is_terminal, job_closed}
use embodi_run.Jobs.Rows.{unknown_row, unknown_if_unfinished}
use embodi_run.Jobs.Registry.{
  Registry, submit, accept, cancel, owned_row, record_stage, close, inspect, recover,
}
use embodi_run.Jobs.Worker.{run_begin, run_end, cancel_result}
use embodi_run.Jobs.Steps.{Step, Reach, Inv}
use embodi_run.Jobs.Preserved.{Reach-Inv, Step-Inv}

begins-closed :
    {s : Registry} (v : Inv s) (key : JobKey) (now : ℕ)
    → s.closed ≡ true
    → (run_begin key now s).0 ≡ s
unfolding run_begin
begins-closed {s} v key now c = elim (Option-cases (lookup key s.runtimes)) [
  | inl n ↦ ground arith
  | inr (r, n) ↦ ground arith
]

-- What a closed registry keeps.
record Frozen (s u : Registry) : Type 0 where
  still_closed : u.closed ≡ true
  same_table : u.table ≡ s.table
  same_executed : u.executed ≡ s.executed

Step-Frozen : {s u : Registry} → Inv s → s.closed ≡ true → Step s u → Frozen s u
unfolding submit accept cancel owned_row record_stage run_end cancel_result close
Step-Frozen {s} v c (Step.submitted key p i d now fresh id h) = ground arith
Step-Frozen {s} v c (Step.cancelled key now d h) = ground arith
Step-Frozen {s} v c (Step.staged key stage duration detail now h) = ground arith
Step-Frozen {s} v c (Step.began key now i h) =
    rw (h, begins-closed v key now c)
      (record { still_closed = c; same_table = refl; same_executed = refl })
Step-Frozen v c (Step.ended key now answer i h) = rw h (record {
  still_closed = ground arith;
  same_table = ground arith;
  same_executed = ground arith;
})
Step-Frozen {s} v c (Step.reported key now answer h) = rw h (record {
  still_closed = ground arith;
  same_table = ground arith;
  same_executed = ground arith;
})
Step-Frozen v c (Step.closed now h) = rw h (record {
  still_closed = ground arith;
  same_table = ground arith;
  same_executed = ground arith;
})

Reach-Frozen : {s u : Registry} → Inv s → s.closed ≡ true → Reach s u → Frozen s u
Reach-Frozen v c Reach.here = record { still_closed = c; same_table = refl; same_executed = refl }
Reach-Frozen v c (Reach.next r st) =
    let before = Reach-Frozen v c r in
    let after = Step-Frozen (Reach-Inv v r) before.still_closed st in
    record {
      still_closed = after.still_closed;
      same_table = ground (arith, before.same_table, after.same_table);
      same_executed = ground (arith, before.same_executed, after.same_executed);
    }

close-closed : (now : ℕ) (s : Registry) → (close now s).closed ≡ true
unfolding close
close-closed now s = ground arith

abbrev pub IsTerminalRow : Option Row → Type 0
IsTerminalRow none = Unit
IsTerminalRow (some row) = is_terminal row.status ≡ true

every_row_terminal :
    {s : Registry} (k : JobKey) → Inv s → s.closed ≡ true → IsTerminalRow (lookup k s.table)
every_row_terminal {s} k v c = elim (Option-cases (lookup k s.table)) [
  | inl e ↦ ground arith
  | inr (row, e) ↦ ground (arith, v.at_key k)
]

-- After `close`, whatever calls and whatever late ends of callbacks follow: the table stays as
-- `close` left it, every row in it is terminal, no further execution callback is called, and
-- `submit`, `inspect`, `cancel` and `record_stage` raise the error of a closed registry.
pub close_is_final :
    (now later d : ℕ) (k : JobKey) (p fresh stage : String) (i c : Bool) (detail : Option String)
    {s u : Registry}
    → Inv s
    → Reach (close now s) u
    → (u.table ≡ (close now s).table)
      × (u.executed ≡ s.executed)
      × IsTerminalRow (lookup k u.table)
      × (submit k p i c later fresh u ≡ err job_closed)
      × (inspect k u ≡ err job_closed)
      × (cancel k later u ≡ err job_closed)
      × (record_stage k stage d detail later u ≡ err job_closed)
unfolding submit inspect cancel record_stage close
close_is_final now later d k p fresh stage i c detail {s} {u} v r =
    let inv = Step-Inv (Step.closed now refl) v in
    let frozen = Reach-Frozen inv (close-closed now s) r in
    (
      frozen.same_table,
      ground (arith, frozen.same_executed),
      every_row_terminal k (Reach-Inv inv r) frozen.still_closed,
      ground (arith, frozen.still_closed),
      ground (arith, frozen.still_closed),
      ground (arith, frozen.still_closed),
      ground (arith, frozen.still_closed),
    )

-- What the recovery makes of a row.
pub record Recovered (old new : Row) : Type 0 where
  pub same_run : new.run_id ≡ old.run_id
  pub same_parameters : new.parameters_json ≡ old.parameters_json
  pub same_result : new.result_json ≡ old.result_json
  pub same_error : new.error ≡ old.error
  pub same_finish : new.finished_at_s ≡ old.finished_at_s
  pub status_after : new.status ≡ (if is_terminal old.status then old.status else JobStatus.unknown)

-- A registry that opens the table of an earlier owner has a row for exactly the keys that the table
-- has; each row keeps its run identity, its parameters and what its run left; a terminal status
-- stays, and any other is unknown; and no callback runs for any of them: a worker's first lock
-- changes nothing.
pub recover_outcome :
    (max_jobs max_events now later : ℕ) (t : Dict JobKey Row) (k : JobKey)
    → let s = recover max_jobs max_events now t in
      (run_begin k later s ≡ (s, false))
      × (((lookup k t ≡ none) × (lookup k s.table ≡ none))
          ⊎ ((old new : Row) × (lookup k t ≡ some old)
              × (lookup k s.table ≡ some new)
              × Recovered old new))
unfolding recover unknown_if_unfinished unknown_row run_begin lookup
recover_outcome max_jobs max_events now later t k =
    let f = unknown_if_unfinished "recovered_unknown" max_events now in
    (
      refl,
      elim (Option-cases (lookup k t)) [
        | inl e ↦ inl (e, ground (arith, lookup-map_values k f t))
        | inr (old, e) ↦ inr (
          old,
          f old,
          e,
          ground (arith, lookup-map_values k f t),
          record {
            same_run = ground arith;
            same_parameters = ground arith;
            same_result = ground arith;
            same_error = ground arith;
            same_finish = ground arith;
            status_after = ground arith;
          },
        )
      ],
    )
