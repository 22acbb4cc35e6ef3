-- ===== src/Jobs/Lifecycle.antt =====
-- The life of a job in src/embodirun/application/jobs.py, over every interleaving of the registry's
-- clients and workers.
use embodi_run.Base.{
  ℕ, ◌≤◌, ◌≡◌, refl, Bool, false, some, String, arith, ok, err, inl, inr, length, Option-cases, [],
  str_eq, eq_iff, if◌then◌else◌,
}
use embodi_run.Base.Dict.{Dict, lookup, lookup-map_values, length-map_values, lookup-insert}
use embodi_run.Jobs.Types.{JobKey, job_key_eq, key_eq_iff, Row, job_conflict}
use embodi_run.Jobs.Rows.{accepted_row, unknown_if_unfinished}
use embodi_run.Jobs.Registry.{Registry, submit, accept, recover}
use embodi_run.Jobs.Steps.{Step, Reach, RowInv, Inv}
use embodi_run.Jobs.RowLaws.{unknown_if_unfinished-RowInv}
use embodi_run.Jobs.Preserved.{Step-Inv, Reach-Inv}
use embodi_run.Jobs.Preserved.End.{unknown_if_unfinished_lem}
use embodi_run.Jobs.Evolution.{Evolves-refl, Evolves-trans}
use embodi_run.Jobs.Evolution.Sections.{HasEvolved, Step-HasEvolved}

-- A table that an owner may leave.
record TableInv (max_jobs max_events : ℕ) (t : Dict JobKey Row) : Type 0 where
  fits : length t ≤ max_jobs
  rows : (k : JobKey) (row : Row) → lookup k t ≡ some row → RowInv max_events row

recover-Inv :
    (max_jobs max_events now : ℕ) (t : Dict JobKey Row)
    → 1 ≤ max_events
    → TableInv max_jobs max_events t
    → Inv (recover max_jobs max_events now t)
unfolding recover lookup
recover-Inv max_jobs max_events now t m v =
    let f = unknown_if_unfinished "recovered_unknown" max_events now in
    record {
      capacity = ground (arith, length-map_values f t, v.fits);
      some_events = m;
      at_key = λ k. elim (Option-cases (lookup k t)) [
        | inl e ↦ ground (arith, lookup-map_values k f t)
        | inr (row, e) ↦ ground (
          arith,
          lookup-map_values k f t,
          unknown_if_unfinished-RowInv max_events now "recovered_unknown" row (v.rows k row e),
          unknown_if_unfinished_lem "recovered_unknown" max_events now row,
        )
      ];
    }

-- The registries of the owners that one database has had in turn: the first finds it empty, and each
-- later one, with limits that are not smaller, recovers what the one before had in its table at some
-- moment, closed or not.
pub data Lives : Registry → Type 0 where
  new_database :
      (max_jobs max_events now : ℕ) {u : Registry}
      → 1 ≤ max_events
      → Reach (recover max_jobs max_events now []) u
      → Lives u
  restarted :
      (max_jobs max_events now : ℕ) {s u : Registry}
      → Lives s
      → s.max_jobs ≤ max_jobs
      → s.max_events ≤ max_events
      → Reach (recover max_jobs max_events now s.table) u
      → Lives u

empty-TableInv : (max_jobs max_events : ℕ) → TableInv max_jobs max_events []
unfolding lookup
empty-TableInv max_jobs max_events = record { fits = omega arith; rows = λ k row e. ground arith }

left-TableInv :
    (max_jobs max_events : ℕ) (s : Registry)
    → Inv s
    → s.max_jobs ≤ max_jobs
    → s.max_events ≤ max_events
    → TableInv max_jobs max_events s.table
left-TableInv max_jobs max_events s v a b = record {
  fits = omega (arith, v.capacity);
  rows = λ k row e. ground (arith, v.at_key k);
}

-- For every registry of a database that began empty, through any number of restarts, each after any
-- sequence of critical sections of clients and workers: the table never exceeds its capacity; no
-- key's execution callback has been called twice by this registry; and each row's dispatch status
-- agrees with its status, its events stay within their bound, it has a finishing time exactly when a
-- worker finished it, and a result exactly when it is completed. The limits may grow at a restart.
pub registry_Inv : {u : Registry} → Lives u → Inv u
registry_Inv (new_database max_jobs max_events now m r) =
    Reach-Inv (recover-Inv max_jobs max_events now [] m (empty-TableInv max_jobs max_events)) r
registry_Inv (restarted max_jobs max_events now {s} l a b r) =
    let v = registry_Inv l in
    Reach-Inv
      (recover-Inv max_jobs max_events now s.table (omega (arith, v.some_events))
        (left-TableInv max_jobs max_events s v a b))
      r

-- Once a key has a row, every later state of the registry has one for it, with the same run
-- identity, parameters and time of creation, and with a status that may follow: a terminal status
-- stays, and a job that has been asked to cancel neither completes nor fails.
pub row_Evolves :
    {s u : Registry} (k : JobKey) (old : Row)
    → Inv s
    → Reach s u
    → lookup k s.table ≡ some old
    → HasEvolved u.table k old
row_Evolves {s} k old v Reach.here e = (old, e, Evolves-refl old)
row_Evolves k old v (Reach.next r st) e =
    let (row, d, first) = row_Evolves k old v r e in
    let (new, g, second) = Step-HasEvolved k row st (Reach-Inv v r) d in
    (new, g, Evolves-trans first second)

-- What `submit` leaves for its key.
Submitted : JobKey → String → Registry → String → Type 0
Submitted key p u id =
    (row : Row) × (lookup key u.table ≡ some row) × (row.run_id ≡ id) × (row.parameters_json ≡ p)

submit-Submitted :
    (key : JobKey) (p : String) (i c : Bool) (now : ℕ) (fresh id : String) (s u : Registry)
    → submit key p i c now fresh s ≡ ok (u, id)
    → Submitted key p u id
unfolding Submitted submit accept accepted_row
submit-Submitted key p i c now fresh id s u h = elim (Option-cases (lookup key s.table)) [
  | inl n ↦ (
    accepted_row fresh p i now,
    ground (arith, lookup-insert key key (accepted_row fresh p i now) s.table, key_eq_iff key key),
    ground arith,
    refl,
  )
  | inr (row, d) ↦ (row, ground arith, ground arith, ground (arith, eq_iff row.parameters_json p))
]

-- A submission that was taken is idempotent for the registry's life: in every later state that is
-- not closed, submitting the same key with the same parameters changes nothing and answers with the
-- run identity of the first one, and submitting it with others is a conflict.
pub submit_idempotent :
    (key : JobKey) (p : String) (i c : Bool) (now : ℕ) (fresh id : String) {s u w : Registry}
    → Inv s
    → submit key p i c now fresh s ≡ ok (u, id)
    → Reach u w
    → w.closed ≡ false
    → (q : String) (j d : Bool) (later : ℕ) (other : String)
    → submit key q j d later other w ≡ (if str_eq p q then ok (w, id) else err job_conflict)
unfolding submit Submitted
submit_idempotent key p i c now fresh id {s} {u} {w} v h r o q j d later other =
    let (row, e, run, params) = submit-Submitted key p i c now fresh id s u h in
    let inv : Inv u = Step-Inv (Step.submitted key p i c now fresh id h) v in
    let (new, g, evolved) = row_Evolves key row inv r e in
    ground (arith, g, run, params, evolved.same_run, evolved.same_parameters)
