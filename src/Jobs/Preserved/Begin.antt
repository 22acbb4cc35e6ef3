-- ===== src/Jobs/Preserved/Begin.antt =====
-- What a worker's first lock does, and that it keeps the invariant of each key.
use embodi_run.Base.{
  ℕ, ◌≡◌, ◌⊎◌, refl, Bool, true, false, none, some, ◌∷◌, arith, inl, inr, Option-cases, Bool-cases,
}
use embodi_run.Base.Dict.{lookup, insert, update, erase, length-update}
use embodi_run.Jobs.Types.{JobStatus, JobKey, key_eq_iff, job_key_eq, Row}
use embodi_run.Jobs.Rows.{cancelled_before_row, running_row}
use embodi_run.Jobs.Registry.{Registry}
use embodi_run.Jobs.Worker.{run_begin}
use embodi_run.Jobs.Steps.{Inv}
use embodi_run.Jobs.RowLaws.{cancelled_before_row-RowInv, running_row-RowInv}
use embodi_run.Jobs.Keys.{
  HoldsAt-split, update_self, update_other, insert_self, insert_other, erase_other,
}

abbrev is_startable : JobStatus → Bool
is_startable JobStatus.accepted = true
is_startable JobStatus.cancel_requested = true
is_startable _ = false

status-cases :
    (st : JobStatus)
    → (st ≡ JobStatus.accepted) ⊎ ((st ≡ JobStatus.cancel_requested) ⊎ (is_startable st ≡ false))
status-cases JobStatus.accepted = inl refl
status-cases JobStatus.cancel_requested = inr (inl refl)
status-cases _ = inr (inr refl)

module _ {s : Registry} (v : Inv s) where
  -- The two ways in which a worker's first lock changes the registry.
  unfoldable pub dropped_registry : JobKey → ℕ → Bool → Registry
  dropped_registry key now has_cancel = record s {
    table = update key (cancelled_before_row s.max_events now has_cancel) s.table;
    runtimes = erase key s.runtimes;
  }

  unfoldable pub started_registry : JobKey → ℕ → Registry
  started_registry key now = record s {
    table = update key (running_row s.max_events now) s.table;
    executed = key ∷ s.executed;
    in_callback = insert key tt s.in_callback;
  }

  dropped_registry-Inv :
      (key : JobKey) (now : ℕ) (b : Bool) (row : Row)
      → lookup key s.table ≡ some row
      → row.status ≡ JobStatus.cancel_requested
      → lookup key s.in_callback ≡ none
      → Inv (dropped_registry key now b)
  unfolding dropped_registry cancelled_before_row
  dropped_registry-Inv key now b row e t i =
      let f = cancelled_before_row s.max_events now b in
      record {
        capacity = ground (arith, length-update key f s.table);
        some_events = ground arith;
        at_key = λ k.
            HoldsAt-split s (dropped_registry key now b) key k refl refl
              (ground (
                arith,
                update_self key f s.table row e,
                cancelled_before_row-RowInv s.max_events now b row,
                v.at_key key,
              ))
              (λ n. (update_other key f s.table k n, erase_other key s.runtimes k n, refl, refl))
              (v.at_key k);
      }

  started_registry-Inv :
      (key : JobKey) (now : ℕ) (row : Row)
      → s.closed ≡ false
      → lookup key s.table ≡ some row
      → row.status ≡ JobStatus.accepted
      → Inv (started_registry key now)
  unfolding started_registry running_row
  started_registry-Inv key now row o e t =
      let f = running_row s.max_events now in
      record {
        capacity = ground (arith, length-update key f s.table);
        some_events = ground arith;
        at_key = λ k.
            HoldsAt-split s (started_registry key now) key k refl refl
              (ground (
                arith,
                key_eq_iff key key,
                update_self key f s.table row e,
                insert_self key tt s.in_callback,
                running_row-RowInv s.max_events now row,
                v.at_key key,
              ))
              (λ n. (
                update_other key f s.table k n,
                refl,
                insert_other key tt s.in_callback k n,
                ground arith,
              ))
              (v.at_key k);
      }

  -- What a worker's first lock does.
  unfoldable pub Begins : JobKey → ℕ → Registry × Bool → Type 0
  Begins key now (u, dispatch) =
      ((u ≡ s) × (dispatch ≡ false))
      ⊎ (((row : Row) × (lookup key s.table ≡ some row)
            × (row.status ≡ JobStatus.accepted)
            × (s.closed ≡ false)
            × (dispatch ≡ true)
            × (u ≡ started_registry key now))
          ⊎ ((row : Row) × (b : Bool) × (lookup key s.table ≡ some row)
              × (row.status ≡ JobStatus.cancel_requested)
              × (dispatch ≡ false)
              × (u ≡ dropped_registry key now b)))

  pub run_begin-cases : (key : JobKey) (now : ℕ) → Begins key now (run_begin key now s)
  unfolding Begins run_begin started_registry dropped_registry
  run_begin-cases key now = elim (Option-cases (lookup key s.runtimes)) [
    | inl n ↦ ground arith
    | inr (r, n) ↦ elim (Bool-cases s.closed) [
      | inl c ↦ ground arith
      | inr c ↦ elim (Option-cases (lookup key s.table)) [
        | inl e ↦ ground arith
        | inr (row, e) ↦ elim (status-cases row.status) [
          | inl a ↦ inr (inl (row, e, a, c, ground arith, ground arith))
          | inr (inl a) ↦ inr (inr (row, r.has_cancel, e, a, ground arith, ground arith))
          | inr (inr a) ↦ ground arith
        ]
      ]
    ]
  ]

  Begins-Inv :
      (key : JobKey) (now : ℕ) (r : Registry × Bool)
      → lookup key s.in_callback ≡ none
      → Begins key now r
      → Inv r.0
  unfolding Begins
  Begins-Inv key now r i (inl (same, d)) = rw same v
  Begins-Inv key now r i (inr (inl (row, e, a, c, d, same))) =
      rw same (started_registry-Inv key now row c e a)
  Begins-Inv key now r i (inr (inr (row, b, e, a, d, same))) =
      rw same (dropped_registry-Inv key now b row e a i)

  pub run_begin-Inv :
      (key : JobKey) (now : ℕ) → lookup key s.in_callback ≡ none → Inv (run_begin key now s).0
  run_begin-Inv key now i = Begins-Inv key now (run_begin key now s) i (run_begin-cases key now)
