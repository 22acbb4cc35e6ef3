-- ===== src/Jobs/Preserved/End.antt =====
-- A worker's last lock, the cancellation callback's and `close` keep the invariant of each key.
use embodi_run.Base.{
  ℕ, ◌≡◌, ◌≢◌, refl, Bool, true, false, some, String, arith, inl, inr, ◌⊎◌, ◌||◌, not, Option-cases,
  Bool-cases,
}
use embodi_run.Base.Dict.{
  lookup, update, erase, map_values, lookup-map_values, length-update, length-map_values,
}
use embodi_run.Jobs.Types.{JobStatus, JobKey, job_key_eq, Row, is_terminal}
use embodi_run.Jobs.Rows.{
  CallbackAnswer, CancelAnswer, finished_row, cancel_result_row, unknown_if_unfinished,
}
use embodi_run.Jobs.Registry.{Registry, close, set_event}
use embodi_run.Jobs.Worker.{run_end, cancel_result, event_is_set, may_report}
use embodi_run.Jobs.Steps.{Inv, is_finished}
use embodi_run.Jobs.RowLaws.{
  finished_row-RowInv, cancel_result_row-RowInv, unknown_if_unfinished-RowInv,
}
use embodi_run.Jobs.Keys.{
  HoldsAt, HoldsAt-split, update_self, update_other, erase_self, erase_other,
}

pub finished_row-is_finished :
    (max_events now : ℕ) (set : Bool) (answer : CallbackAnswer) (row : Row)
    → is_finished (finished_row max_events now set answer row).status ≡ true
unfolding finished_row
finished_row-is_finished max_events now set (CallbackAnswer.raised e) row = ground arith
finished_row-is_finished max_events now set (CallbackAnswer.returned p x) row = ground arith

pub unknown_if_unfinished_lem :
    (name : String) (max_events now : ℕ) (row : Row)
    → let r = unknown_if_unfinished name max_events now row in
      (is_terminal r.status ≡ true) × (r.status ≢ JobStatus.accepted)
unfolding unknown_if_unfinished
unknown_if_unfinished_lem name max_events now row = ground arith

module _ {s : Registry} (v : Inv s) where
  unfoldable pub ended_registry : JobKey → ℕ → CallbackAnswer → Bool → Registry
  ended_registry key now answer set = record s {
    runtimes = erase key s.runtimes;
    in_callback = erase key s.in_callback;
    table = update key (finished_row s.max_events now set answer) s.table;
  }

  unfoldable pub left_registry : JobKey → Registry
  left_registry key = record s {
    runtimes = erase key s.runtimes;
    in_callback = erase key s.in_callback;
  }

  left_registry-Inv : (key : JobKey) → Inv (left_registry key)
  unfolding left_registry
  left_registry-Inv key = record {
    capacity = ground arith;
    some_events = ground arith;
    at_key = λ k.
        HoldsAt-split s (left_registry key) key k refl refl
          (ground (arith, erase_self key s.runtimes, erase_self key s.in_callback, v.at_key key))
          (λ n. (refl, erase_other key s.runtimes k n, erase_other key s.in_callback k n, refl))
          (v.at_key k);
  }

  ended-HoldsAt :
      (key : JobKey) (now : ℕ) (answer : CallbackAnswer) (set : Bool)
      → s.closed ≡ false
      → lookup key s.in_callback ≡ some tt
      → HoldsAt (ended_registry key now answer set) key
  unfolding ended_registry
  ended-HoldsAt key now answer set o i = elim (Option-cases (lookup key s.table)) [
    | inl e ↦ ground (arith, v.at_key key)
    | inr (row, e) ↦ ground (
      arith,
      update_self key (finished_row s.max_events now set answer) s.table row e,
      erase_self key s.in_callback,
      finished_row-RowInv s.max_events now set answer row,
      finished_row-is_finished s.max_events now set answer row,
      v.at_key key,
    )
  ]

  ended_registry-Inv :
      (key : JobKey) (now : ℕ) (answer : CallbackAnswer) (set : Bool)
      → s.closed ≡ false
      → lookup key s.in_callback ≡ some tt
      → Inv (ended_registry key now answer set)
  unfolding ended_registry
  ended_registry-Inv key now answer set o i =
      let f = finished_row s.max_events now set answer in
      record {
        capacity = ground (arith, length-update key f s.table);
        some_events = ground arith;
        at_key = λ k.
            HoldsAt-split s (ended_registry key now answer set) key k refl refl
              (ended-HoldsAt key now answer set o i)
              (λ n. (
                update_other key f s.table k n,
                erase_other key s.runtimes k n,
                erase_other key s.in_callback k n,
                refl,
              ))
              (v.at_key k);
      }

  pub run_end-cases :
      (key : JobKey) (now : ℕ) (answer : CallbackAnswer)
      → ((s.closed ≡ true) × (run_end key now answer s ≡ left_registry key))
        ⊎ ((s.closed ≡ false)
            × (run_end key now answer s
                ≡ ended_registry key now answer (event_is_set (lookup key s.runtimes))))
  unfolding run_end ended_registry left_registry
  run_end-cases key now answer = elim (Bool-cases s.closed) [
    | inl c ↦ inl (c, ground arith)
    | inr c ↦ inr (c, ground arith)
  ]

  pub run_end-Inv :
      (key : JobKey) (now : ℕ) (answer : CallbackAnswer)
      → lookup key s.in_callback ≡ some tt
      → Inv (run_end key now answer s)
  run_end-Inv key now answer i = elim (run_end-cases key now answer) [
    | inl (c, same) ↦ rw same (left_registry-Inv key)
    | inr (c, same) ↦
        rw same (ended_registry-Inv key now answer (event_is_set (lookup key s.runtimes)) c i)
  ]

  unfoldable pub reported_registry : JobKey → ℕ → CancelAnswer → Registry
  reported_registry key now answer = record s {
    table = update key (cancel_result_row s.max_events now answer) s.table;
  }

  reported_registry-Inv :
      (key : JobKey) (now : ℕ) (answer : CancelAnswer) (row : Row)
      → lookup key s.table ≡ some row
      → Inv (reported_registry key now answer)
  unfolding reported_registry cancel_result_row
  reported_registry-Inv key now answer row e =
      let f = cancel_result_row s.max_events now answer in
      record {
        capacity = ground (arith, length-update key f s.table);
        some_events = ground arith;
        at_key = λ k.
            HoldsAt-split s (reported_registry key now answer) key k refl refl
              (ground (
                arith,
                update_self key f s.table row e,
                cancel_result_row-RowInv s.max_events now answer row,
                v.at_key key,
              ))
              (λ n. (update_other key f s.table k n, refl, refl, refl)) (v.at_key k);
      }

  pub cancel_result-cases :
      (key : JobKey) (now : ℕ) (answer : CancelAnswer)
      → (cancel_result key now answer s ≡ s)
        ⊎ ((row : Row) × (lookup key s.table ≡ some row)
            × (cancel_result key now answer s ≡ reported_registry key now answer))
  unfolding cancel_result reported_registry
  cancel_result-cases key now answer = elim (Option-cases (lookup key s.table)) [
    | inl e ↦ inl (ground arith)
    | inr (row, e) ↦ elim (Bool-cases (s.closed || not (may_report row.status))) [
      | inl m ↦ inl (ground arith)
      | inr m ↦ inr (row, e, ground arith)
    ]
  ]

  pub cancel_result-Inv :
      (key : JobKey) (now : ℕ) (answer : CancelAnswer) → Inv (cancel_result key now answer s)
  cancel_result-Inv key now answer = elim (cancel_result-cases key now answer) [
    | inl same ↦ rw same v
    | inr (row, e, same) ↦ rw same (reported_registry-Inv key now answer row e)
  ]

  unfoldable pub closed_registry : ℕ → Registry
  closed_registry now = record s {
    table = map_values (unknown_if_unfinished "closed_unknown" s.max_events now) s.table;
    runtimes = map_values set_event s.runtimes;
    closed = true;
  }

  closed_registry-Inv : (now : ℕ) → Inv (closed_registry now)
  unfolding closed_registry
  closed_registry-Inv now =
      let f = unknown_if_unfinished "closed_unknown" s.max_events now in
      record {
        capacity = ground (arith, length-map_values f s.table);
        some_events = ground arith;
        at_key = λ k. elim (Option-cases (lookup k s.table)) [
          | inl e ↦ ground (
            arith,
            lookup-map_values k f s.table,
            lookup-map_values k set_event s.runtimes,
            v.at_key k,
          )
          | inr (row, e) ↦ ground (
            arith,
            lookup-map_values k f s.table,
            unknown_if_unfinished-RowInv s.max_events now "closed_unknown" row,
            unknown_if_unfinished_lem "closed_unknown" s.max_events now row,
            v.at_key k,
          )
        ];
      }

  pub close-Inv : (now : ℕ) → Inv (close now s)
  unfolding close closed_registry
  close-Inv now = elim (Bool-cases s.closed) [
    | inl c ↦ simp c v
    | inr c ↦ simp c (closed_registry-Inv now)
  ]
