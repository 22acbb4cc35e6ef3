-- ===== src/Application/Segments.antt =====
-- The segments of src/embodirun/application/direct_execution.py.
use embodi_run.Base.{
  ℕ, suc, ◌+◌, ◌≤◌, ◌≡◌, refl, ap, ◌∙◌, ◌⊎◌, inl, inr, Bool, false, not, Option, List, [], ◌∷◌,
  ◌++◌, String, arith, Result, ok, err, length, ltb, ◌==◌, IsPrefix,
}
use mathlib.Core.List.{append-nil}
use embodi_run.Execution.Ticket.{CommandSource}
use embodi_run.Application.Effects.{Run, answered, refuse_if, lift, ◌>>◌}
use embodi_run.Application.Loops.{marked-append}
use embodi_run.Application.Direct.{
  DirectFault, arbiter_raised, begin_raised, no_actions, too_many_actions, bad_rate, too_long,
  bad_event, DirectCall, begin_task, release_task, World, DirectResult, automatic_source,
  run_actions, outcomes, physical_of, release_result, segment, run,
}
use embodi_run.Application.Submissions.{
  Done, was_executed, submitted, submissions, actions-IsPrefix, AreSubmits, actions-AreSubmits,
  actions-Done, actions-bound,
}

module _ {A : Type 0} where
  -- The calls of a run: none, or a task that begins, then only commands, and its release.
  abbrev pub Framed : List A → List (DirectCall A) → Type 0
  Framed xs t =
      (t ≡ [])
      ⊎ ((u : List (DirectCall A)) × AreSubmits u
          × (IsPrefix (submissions u) xs)
          × (t ≡ begin_task ∷ u ++ release_task ∷ []))

  -- A result of a run whose actions all went through.
  abbrev pub full_result : List A → Bool → DirectResult
  full_result xs released = record {
    requested_steps = length xs;
    dispatched_steps = length xs;
    executed_steps = length xs;
    physical_status = physical_of released;
  }

  pub record Settled (w : World) (xs : List A) (m : Run (DirectCall A) DirectFault DirectResult)
      : Type 0 where
    pub framed : Framed xs m.0
    pub outcome :
        ((e : DirectFault) × (m.1 ≡ err e))
        ⊎ ((released : Bool) × (w.releasing ≡ ok released)
            × (m.1 ≡ ok (full_result xs released))
            × (submissions m.0 ≡ xs))

  release-cases :
      (xs : List A) (t : List (DirectCall A)) (r : Result DirectFault Unit) (b : Result String Bool)
      → ((r ≡ ok tt) → Done xs t)
      → ((e : DirectFault) × (release_result xs (outcomes t) r b ≡ err e))
        ⊎ ((released : Bool) × (b ≡ ok released)
            × (release_result xs (outcomes t) r b ≡ ok (full_result xs released))
            × (submissions (begin_task ∷ t ++ release_task ∷ []) ≡ xs))
  release-cases xs t (err e) b d = inl (e, refl)
  release-cases xs t (ok u) (err e) d = inl (_, refl)
  release-cases xs t (ok tt) (ok released) d =
      let all = d refl in
      inr (
        released,
        refl,
        rw (all.dispatched, all.counted) refl,
        marked-append submitted t (release_task ∷ [])
            ∙ append-nil (submissions t)
            ∙ all.all_submitted,
      )

  segment-Settled : (w : World) (xs : List A) → Settled w xs (segment w xs)
  segment-Settled w xs =
      let loop = run_actions w 0 xs in
      record {
        framed = inr (loop.0, actions-AreSubmits w 0 xs, actions-IsPrefix w 0 xs, refl);
        outcome = release-cases xs loop.0 loop.1 w.releasing (λ h. actions-Done w 0 xs h);
      }

  refused-Settled : (w : World) (xs : List A) (e : DirectFault) → Settled w xs ([], err e)
  refused-Settled w xs e = record { framed = inl refl; outcome = inl (e, refl) }

  -- The checks before the task.
  abbrev checked :
      {X : Type 0}
      → Result DirectFault X
      → Run (DirectCall A) DirectFault DirectResult
      → Run (DirectCall A) DirectFault DirectResult
  checked r rest = lift r >> rest

  checked-Settled :
      {X : Type 0} (w : World) (xs : List A) (r : Result DirectFault X)
      (rest : Run (DirectCall A) DirectFault DirectResult)
      → Settled w xs rest
      → Settled w xs (checked r rest)
  checked-Settled w xs (ok u) rest h = record { framed = h.framed; outcome = h.outcome }
  checked-Settled w xs (err e) rest h = refused-Settled w xs e

  -- Whatever the arbiter, the clock and the cancellation event do: a run either begins no task and
  -- hands over nothing, or it begins one task, then only hands over commands, a first part of the
  -- actions in order, and releases the task once, last. A run that returns a result has handed over
  -- every action, and reports as many requested, dispatched and executed steps as there are actions;
  -- the release returned, and its answer is the physical status.
  pub direct_Settled :
      (w : World) (source : Option CommandSource) (xs : List A) → Settled w xs (run w source xs)
  unfolding run
  direct_Settled w source xs = checked-Settled w xs (automatic_source source) _ (
      checked-Settled w xs (refuse_if (length xs == 0) no_actions) _ (
        checked-Settled w xs (refuse_if (ltb w.max_steps (length xs)) too_many_actions) _ (
          checked-Settled w xs (refuse_if (not w.good_rate) bad_rate) _ (
            checked-Settled w xs (refuse_if (not w.short_enough) too_long) _ (
              checked-Settled w xs (refuse_if (not w.good_event) bad_event) _ (
                checked-Settled w xs (answered arbiter_raised w.arbiter) _ (
                  checked-Settled w xs (answered begin_raised w.beginning) _
                    (segment-Settled w xs))))))))

  checked-bound :
      {X : Type 0} (r : Result DirectFault X) (rest : Run (DirectCall A) DirectFault DirectResult)
      (j : ℕ)
      → length (submissions rest.0) ≤ j
      → length (submissions (checked r rest).0) ≤ j
  checked-bound (ok u) rest j h = h
  checked-bound (err e) rest j h = omega arith

  segment-bound :
      (w : World) (xs : List A) (j : ℕ)
      → was_executed (w.ticket j) ≡ false
      → length (submissions (segment w xs).0) ≤ suc j
  segment-bound w xs j h =
      let loop = run_actions w 0 xs in
      let bound =
        actions-bound w j 0 xs
          (ap (λ n. was_executed (w.ticket n)) {x = 0 + j} {y = j} (omega arith) ∙ h) in
      let same =
        marked-append submitted loop.0 (release_task ∷ []) ∙ append-nil (submissions loop.0) in
      omega (arith, bound, ap length same)

  -- A run hands over no action after one whose command was not executed.
  pub direct_stops :
      (w : World) (source : Option CommandSource) (xs : List A) (j : ℕ)
      → was_executed (w.ticket j) ≡ false
      → length (submissions (run w source xs).0) ≤ suc j
  unfolding run
  direct_stops w source xs j h = checked-bound (automatic_source source) _ (suc j) (
      checked-bound (refuse_if (length xs == 0) no_actions) _ (suc j) (
        checked-bound (refuse_if (ltb w.max_steps (length xs)) too_many_actions) _ (suc j) (
          checked-bound (refuse_if (not w.good_rate) bad_rate) _ (suc j) (
            checked-bound (refuse_if (not w.short_enough) too_long) _ (suc j) (
              checked-bound (refuse_if (not w.good_event) bad_event) _ (suc j) (
                checked-bound (answered arbiter_raised w.arbiter) _ (suc j) (
                  checked-bound (answered begin_raised w.beginning) _ (suc j)
                    (segment-bound w xs j h))))))))
