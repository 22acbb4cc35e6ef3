-- ===== src/Jobs/Preserved/Clients.antt =====
-- The calls of a client keep the invariant of each key.
use embodi_run.Base.{
  ℕ, ◌≡◌, ◌⊎◌, refl, Bool, false, Option, none, some, String, arith, ok, inl, inr, Option-cases,
  Bool-cases, subst,
}
use embodi_run.Base.Dict.{lookup, update, lookup-insert, length-update, length-insert_new}
use embodi_run.Jobs.Types.{JobKey, key_eq_iff, job_key_eq, JobEvent, Row, is_terminal}
use embodi_run.Jobs.Rows.{with_event, accepted_row, cancel_requested_row}
use embodi_run.Jobs.Registry.{
  Registry, submit, accept, cancel, owned_row, record_stage, new_runtime, request_cancel,
}
use embodi_run.Jobs.Steps.{Inv}
use embodi_run.Jobs.RowLaws.{with_event-RowInv, accepted_row-RowInv, cancel_requested_row-RowInv}
use embodi_run.Jobs.Keys.{HoldsAt-split, update_self, update_other}

module _ {s : Registry} (v : Inv s) where
  pub accept-Inv :
      (key : JobKey) (parameters : String) (inference has_cancel : Bool) (now : ℕ) (fresh : String)
      (u : Registry)
      → s.closed ≡ false
      → lookup key s.table ≡ none
      → accept key parameters inference has_cancel now fresh s ≡ ok u
      → Inv u
  unfolding accept
  accept-Inv key parameters inference has_cancel now fresh u o n h =
      let row = accepted_row fresh parameters inference now in
      record {
        capacity = ground (arith, length-insert_new key row s.table n);
        some_events = ground arith;
        at_key = λ k. ground (
          arith,
          key_eq_iff key k,
          lookup-insert key k row s.table,
          lookup-insert key k (new_runtime has_cancel) s.runtimes,
          accepted_row-RowInv s.max_events now fresh parameters inference v.some_events,
          v.at_key k,
        );
      }

  pub submit-Inv :
      (key : JobKey) (parameters : String) (inference has_cancel : Bool) (now : ℕ)
      (fresh id : String) (u : Registry)
      → submit key parameters inference has_cancel now fresh s ≡ ok (u, id)
      → Inv u
  unfolding submit
  submit-Inv key parameters inference has_cancel now fresh id u h =
      elim (Option-cases (lookup key s.table)) [
        | inl e ↦
            accept-Inv key parameters inference has_cancel now fresh u (ground arith) e
              (ground arith)
        | inr (row, e) ↦ ground arith
      ]

  unfoldable pub cancelled_registry : JobKey → ℕ → Registry
  cancelled_registry key now = record s {
    table = update key (cancel_requested_row s.max_events now) s.table;
    runtimes = update key request_cancel s.runtimes;
  }

  pub cancel-cases :
      (key : JobKey) (now : ℕ) (c : Bool) (u : Registry)
      → cancel key now s ≡ ok (u, c)
      → (u ≡ s)
        ⊎ ((row : Row) × (lookup key s.table ≡ some row)
            × (is_terminal row.status ≡ false)
            × (u ≡ cancelled_registry key now))
  unfolding cancel owned_row cancelled_registry
  cancel-cases key now c u h = elim (Option-cases (lookup key s.table)) [
    | inl e ↦ ground arith
    | inr (row, e) ↦ elim (Bool-cases (is_terminal row.status)) [
      | inl t ↦ ground arith
      | inr t ↦ elim (Option-cases (lookup key s.runtimes)) [
        | inl n ↦ ground arith
        | inr (r, n) ↦ inr (row, e, t, ground arith)
      ]
    ]
  ]

  pub cancelled_registry-Inv :
      (key : JobKey) (now : ℕ) (row : Row)
      → lookup key s.table ≡ some row
      → is_terminal row.status ≡ false
      → Inv (cancelled_registry key now)
  unfolding cancelled_registry cancel_requested_row
  cancelled_registry-Inv key now row e t =
      let f = cancel_requested_row s.max_events now in
      record {
        capacity = ground (arith, length-update key f s.table);
        some_events = ground arith;
        at_key = λ k.
            HoldsAt-split s (cancelled_registry key now) key k refl refl
              (ground (
                arith,
                update_self key f s.table row e,
                cancel_requested_row-RowInv s.max_events now row,
                v.at_key key,
              ))
              (λ n. (
                update_other key f s.table k n,
                update_other key request_cancel s.runtimes k n,
                refl,
                refl,
              ))
              (v.at_key k);
      }

module _ {s : Registry} (v : Inv s) where
  unfoldable pub staged_registry : JobKey → JobEvent → ℕ → Registry
  staged_registry key event now = record s {
    table = update key (with_event s.max_events now event) s.table;
  }

  staged_registry-Inv :
      (key : JobKey) (event : JobEvent) (now : ℕ) (row : Row)
      → lookup key s.table ≡ some row
      → Inv (staged_registry key event now)
  unfolding staged_registry with_event
  staged_registry-Inv key event now row e =
      let f = with_event s.max_events now event in
      record {
        capacity = ground (arith, length-update key f s.table);
        some_events = ground arith;
        at_key = λ k.
            HoldsAt-split s (staged_registry key event now) key k refl refl
              (ground (
                arith,
                update_self key f s.table row e,
                with_event-RowInv s.max_events now event row,
                v.at_key key,
              ))
              (λ n. (update_other key f s.table k n, refl, refl, refl)) (v.at_key k);
      }

  pub record_stage-Inv :
      (key : JobKey) (stage : String) (duration : ℕ) (detail : Option String) (now : ℕ)
      (u : Registry)
      → record_stage key stage duration detail now s ≡ ok u
      → Inv u
  unfolding record_stage owned_row staged_registry
  record_stage-Inv key stage duration detail now u h = elim (Option-cases (lookup key s.table)) [
    | inl e ↦ ground arith
    | inr (row, e) ↦
        let event : JobEvent = record {
          name = stage;
          at_s = now;
          duration_s = some duration;
          detail = detail;
        } in
        let same : staged_registry key event now ≡ u = ground arith in
        subst Inv same (staged_registry-Inv key event now row e)
  ]
