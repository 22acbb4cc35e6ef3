-- ===== src/Jobs/Evolution/Sections.antt =====
-- Every critical section of the registry evolves each key's row.
use embodi_run.Base.{
  ℕ, ◌≡◌, ◌⊎◌, Bool, false, Option, none, some, String, arith, ok, inl, inr, Option-cases,
  Bool-cases, subst,
}
use embodi_run.Base.Dict.{
  Dict, lookup, insert, update, map_values, lookup-insert, lookup-update, lookup-map_values,
}
use embodi_run.Jobs.Types.{
  JobStatus, JobKey, key_eq, key_eq_iff, job_key_eq, JobEvent, Row, is_terminal,
}
use embodi_run.Jobs.Rows.{
  CallbackAnswer, CancelAnswer, with_event, accepted_row, cancel_requested_row,
  cancelled_before_row, running_row, finished_row, cancel_result_row, unknown_if_unfinished,
}
use embodi_run.Jobs.Registry.{Registry, submit, accept, record_stage, owned_row, close}
use embodi_run.Jobs.Worker.{run_begin, run_end, cancel_result, event_is_set}
use embodi_run.Jobs.Steps.{Step, Inv, FlagFits}
use embodi_run.Jobs.Preserved.Clients.{cancelled_registry, cancel-cases}
use embodi_run.Jobs.Preserved.Begin.{Begins, started_registry, dropped_registry, run_begin-cases}
use embodi_run.Jobs.Preserved.End.{
  left_registry, ended_registry, reported_registry, run_end-cases, cancel_result-cases,
}
use embodi_run.Jobs.Evolution.{
  Evolves, Evolves-refl, with_event-Evolves, cancel_result_row-Evolves,
  cancel_requested_row-Evolves, cancelled_before_row-Evolves, running_row-Evolves,
  unknown_if_unfinished-Evolves, finished_row-Evolves,
}

-- The key's row is in the table, and has evolved from the given one.
abbrev pub HasEvolved : Dict JobKey Row → JobKey → Row → Type 0
HasEvolved t k row = (new : Row) × (lookup k t ≡ some new) × Evolves row new

module _ (k : JobKey) (row : Row) where
  pub same-HasEvolved : (t : Dict JobKey Row) → lookup k t ≡ some row → HasEvolved t k row
  same-HasEvolved t e = (row, e, Evolves-refl row)

  update-HasEvolved :
      (key : JobKey) (f : Row → Row) (t : Dict JobKey Row)
      → lookup k t ≡ some row
      → (key ≡ k → Evolves row (f row))
      → HasEvolved (update key f t) k row
  update-HasEvolved key f t e evolves = elim (Bool-cases (key_eq key k)) [
    | inl c ↦ (f row, ground (arith, lookup-update key k f t), evolves ((key_eq_iff key k).0 c))
    | inr c ↦ (row, ground (arith, lookup-update key k f t), Evolves-refl row)
  ]

  insert-HasEvolved :
      (key : JobKey) (x : Row) (t : Dict JobKey Row)
      → lookup k t ≡ some row
      → lookup key t ≡ none
      → HasEvolved (insert key x t) k row
  insert-HasEvolved key x t e n =
      (row, ground (arith, lookup-insert key k x t, key_eq_iff key k), Evolves-refl row)

  map-HasEvolved :
      (f : Row → Row) (t : Dict JobKey Row)
      → lookup k t ≡ some row
      → Evolves row (f row)
      → HasEvolved (map_values f t) k row
  map-HasEvolved f t e evolves = (f row, ground (arith, lookup-map_values k f t), evolves)

-- One key has one row.
same_row :
    (t : Dict JobKey Row) (key k : JobKey) (row old : Row)
    → lookup k t ≡ some old
    → lookup key t ≡ some row
    → key ≡ k
    → row ≡ old
same_row t key k row old e d h = ground arith

module _ {s : Registry} (v : Inv s) (k : JobKey) (old : Row) (e : lookup k s.table ≡ some old) where
  submit-HasEvolved :
      (key : JobKey) (p : String) (i c : Bool) (now : ℕ) (fresh id : String) (u : Registry)
      → submit key p i c now fresh s ≡ ok (u, id)
      → HasEvolved u.table k old
  unfolding submit accept
  submit-HasEvolved key p i c now fresh id u h = elim (Option-cases (lookup key s.table)) [
    | inl n ↦
        let same : insert key (accepted_row fresh p i now) s.table ≡ u.table = ground arith in
        subst (λ t. HasEvolved t k old) same
          (insert-HasEvolved k old key (accepted_row fresh p i now) s.table e n)
    | inr (row, d) ↦
        let same : s.table ≡ u.table = ground arith in
        subst (λ t. HasEvolved t k old) same (same-HasEvolved k old s.table e)
  ]

  cancelled_registry-HasEvolved :
      (key : JobKey) (now : ℕ) (row : Row)
      → lookup key s.table ≡ some row
      → is_terminal row.status ≡ false
      → HasEvolved (cancelled_registry v key now).table k old
  unfolding cancelled_registry
  cancelled_registry-HasEvolved key now row d t =
      update-HasEvolved k old key (cancel_requested_row s.max_events now) s.table e (λ h.
        cancel_requested_row-Evolves s.max_events now old
          (ground (arith, same_row s.table key k row old e d h)))

  record_stage-HasEvolved :
      (key : JobKey) (stage : String) (duration : ℕ) (detail : Option String) (now : ℕ)
      (u : Registry)
      → record_stage key stage duration detail now s ≡ ok u
      → HasEvolved u.table k old
  unfolding record_stage owned_row
  record_stage-HasEvolved key stage duration detail now u h =
      elim (Option-cases (lookup key s.table)) [
        | inl n ↦ ground arith
        | inr (row, d) ↦
            let event : JobEvent = record {
              name = stage;
              at_s = now;
              duration_s = some duration;
              detail = detail;
            } in
            let same : update key (with_event s.max_events now event) s.table ≡ u.table =
              ground arith in
            subst (λ t. HasEvolved t k old) same
              (update-HasEvolved k old key (with_event s.max_events now event) s.table e
                (λ _. with_event-Evolves s.max_events now old event))
      ]

  Begins-HasEvolved :
      (key : JobKey) (now : ℕ) (r : Registry × Bool)
      → Begins v key now r
      → HasEvolved r.0.table k old
  unfolding Begins started_registry dropped_registry
  Begins-HasEvolved key now r (inl (same, d)) = rw same (same-HasEvolved k old s.table e)
  Begins-HasEvolved key now r (inr (inl (row, d, a, c, b, same))) = rw same (
      update-HasEvolved k old key (running_row s.max_events now) s.table e (λ h.
        running_row-Evolves s.max_events now old
          (ground (arith, same_row s.table key k row old e d h))))
  Begins-HasEvolved key now r (inr (inr (row, b, d, a, c, same))) = rw same (
      update-HasEvolved k old key (cancelled_before_row s.max_events now b) s.table e (λ h.
        cancelled_before_row-Evolves s.max_events now old b
          (ground (arith, same_row s.table key k row old e d h))))

  executing_row :
      s.closed ≡ false
      → lookup k s.in_callback ≡ some tt
      → ((old.status ≡ JobStatus.running) ⊎ (old.status ≡ JobStatus.cancel_requested))
        × FlagFits old.status old.cancel_requested
  executing_row o i = ground (arith, v.at_key k)

  run_end-HasEvolved :
      (key : JobKey) (now : ℕ) (answer : CallbackAnswer)
      → lookup key s.in_callback ≡ some tt
      → HasEvolved (run_end key now answer s).table k old
  unfolding ended_registry left_registry
  run_end-HasEvolved key now answer i = elim (run_end-cases v key now answer) [
    | inl (c, same) ↦ rw same (same-HasEvolved k old s.table e)
    | inr (c, same) ↦
        let set = event_is_set (lookup key s.runtimes) in
        rw same (
          update-HasEvolved k old key (finished_row s.max_events now set answer) s.table e (λ h.
            let (st, flag) = executing_row c (ground (arith, i, h)) in
            finished_row-Evolves s.max_events now old set answer flag st))
  ]

  cancel_result-HasEvolved :
      (key : JobKey) (now : ℕ) (answer : CancelAnswer)
      → HasEvolved (cancel_result key now answer s).table k old
  unfolding reported_registry
  cancel_result-HasEvolved key now answer = elim (cancel_result-cases v key now answer) [
    | inl same ↦ rw same (same-HasEvolved k old s.table e)
    | inr (row, d, same) ↦ rw same (
        update-HasEvolved k old key (cancel_result_row s.max_events now answer) s.table e
          (λ _. cancel_result_row-Evolves s.max_events now old answer))
  ]

  close-HasEvolved : (now : ℕ) → HasEvolved (close now s).table k old
  unfolding close
  close-HasEvolved now = elim (Bool-cases s.closed) [
    | inl c ↦
        let same : s.table ≡ (close now s).table = ground arith in
        subst (λ t. HasEvolved t k old) same (same-HasEvolved k old s.table e)
    | inr c ↦
        let f = unknown_if_unfinished "closed_unknown" s.max_events now in
        let same : map_values f s.table ≡ (close now s).table = ground arith in
        subst (λ t. HasEvolved t k old) same
          (map-HasEvolved k old f s.table e
            (unknown_if_unfinished-Evolves s.max_events now old "closed_unknown"))
  ]

pub Step-HasEvolved :
    {s u : Registry} (k : JobKey) (old : Row)
    → Step s u
    → Inv s
    → lookup k s.table ≡ some old
    → HasEvolved u.table k old
unfolding cancelled_registry
Step-HasEvolved {s} {u} k old (Step.submitted key p i c now fresh id h) v e =
    submit-HasEvolved v k old e key p i c now fresh id u h
Step-HasEvolved {s} {u} k old (Step.cancelled key now c h) v e =
    elim (cancel-cases v key now c u h) [
      | inl same ↦ rw same (same-HasEvolved k old s.table e)
      | inr (row, d, t, same) ↦ rw same (cancelled_registry-HasEvolved v k old e key now row d t)
    ]
Step-HasEvolved {s} {u} k old (Step.staged key stage duration detail now h) v e =
    record_stage-HasEvolved v k old e key stage duration detail now u h
Step-HasEvolved {s} k old (Step.began key now i h) v e =
    rw h (Begins-HasEvolved v k old e key now (run_begin key now s) (run_begin-cases v key now))
Step-HasEvolved k old (Step.ended key now answer i h) v e =
    rw h (run_end-HasEvolved v k old e key now answer i)
Step-HasEvolved k old (Step.reported key now answer h) v e =
    rw h (cancel_result-HasEvolved v k old e key now answer)
Step-HasEvolved k old (Step.closed now h) v e = rw h (close-HasEvolved v k old e now)
