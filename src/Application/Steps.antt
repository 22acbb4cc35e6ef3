-- ===== src/Application/Steps.antt =====
-- One step of the model loop of src/embodirun/application/model_loop.py.
use embodi_run.Base.{
  ℕ, ◌≤◌, ◌≡◌, refl, sym, subst, ap, ◌∙◌, ◌⊎◌, inl, inr, Bool, true, false, ◌||◌, List, [], ◌∷◌,
  ◌++◌, String, arith, Result, ok, err, length, take, IsPrefix,
}
use embodi_run.Application.Effects.{Run}
use embodi_run.Application.ModelLoop.{
  LoopFault, LoopCall, stop, reset_session, World, Runtime, run_step, reset, reset_calls, step,
  advance, prepend, step_after, stop_raised, reset_raised,
}
use embodi_run.Application.Loops.{marked-append}
use embodi_run.Application.Chunks.{executed, executions}
use embodi_run.Application.Plans.{mapped_actions, Safe, run_step-Safe, run_step-cancelled}

module _ {A : Type 0} where
  -- A step after some calls that execute nothing.
  prefixed-Safe :
      (w : World A) (n : ℕ) (t : List (LoopCall A)) (m : Run (LoopCall A) LoopFault Unit)
      → executions t ≡ []
      → Safe w n m
      → Safe w n (t ++ m.0, m.1)
  prefixed-Safe w n t m h s =
      let same : executions m.0 ≡ executions (t ++ m.0) =
        sym (marked-append executed t m.0 ∙ ap (λ l. l ++ executions m.0) h) in
      record {
        in_order = subst (λ l. IsPrefix l (take n (mapped_actions w.mapping))) same s.in_order;
        complete =
            subst
              (λ l.
                ((e : LoopFault) × (m.1 ≡ err e))
                ⊎ ((l ≡ take n (mapped_actions w.mapping)) × (length l ≡ n)))
              same s.complete;
        uncancelled =
            subst (λ l. (w.cancelled_at_start || w.cancelled_after_inference ≡ false) ⊎ (l ≡ []))
              same s.uncancelled;
      }

  stopped-Safe :
      (w : World A) (n : ℕ) (t : List (LoopCall A)) (e : LoopFault)
      → executions t ≡ []
      → Safe w n (t, err e)
  stopped-Safe w n t e h = record {
    in_order =
        (take n (mapped_actions w.mapping), ap (λ l. l ++ take n (mapped_actions w.mapping)) h);
    complete = inl (e, refl);
    uncancelled = inr h;
  }

  advance-Safe :
      (w : World A) (n : ℕ) (r : Runtime) (t : List (LoopCall A))
      (m : Run (LoopCall A) LoopFault Unit)
      → executions t ≡ []
      → Safe w n m
      → Safe w n (prepend t (advance r m)).1
  advance-Safe w n r t (u, ok z) h s = prefixed-Safe w n t (u, ok z) h s
  advance-Safe w n r t (u, err e) h s = prefixed-Safe w n t (u, err e) h s

  reset-Safe :
      (w : World A) (n : ℕ) (r : Runtime) (a : Result String Unit) (b : Result String ℕ)
      → Safe w n (step_after w n r (reset_calls r a b)).1
  reset-Safe w n r (err e) b = stopped-Safe w n (stop ∷ []) (stop_raised e) refl
  reset-Safe w n r (ok u) (err e) =
      stopped-Safe w n (stop ∷ reset_session r.session ∷ []) (reset_raised e) refl
  reset-Safe w n r (ok u) (ok session) =
      let fresh : Runtime = record { session = session; step_id = 0 } in
      advance-Safe w n fresh (stop ∷ reset_session r.session ∷ []) (run_step w n fresh) refl
        (run_step-Safe w n fresh)

  -- Whatever the robot, the policy and the binding answer, and whether or not the step resets first:
  -- the actions that a step executes are a first part, in order, of the first `chunk_steps` actions
  -- of the binding; a step that returns has executed all `chunk_steps` of them; and one that was
  -- cancelled at its start or after the inference executes none.
  pub step_Safe :
      (w : World A) (chunk_steps : ℕ) (with_reset : Bool) (r : Runtime)
      → Safe w chunk_steps (step w chunk_steps with_reset r).1
  unfolding step reset
  step_Safe w n true r = reset-Safe w n r w.stopping w.resetting
  step_Safe w n false r = advance-Safe w n r [] (run_step w n r) refl (run_step-Safe w n r)

  advance-bound :
      (r : Runtime) (j : ℕ) (t : List (LoopCall A)) (m : Run (LoopCall A) LoopFault Unit)
      → executions t ≡ []
      → length (executions m.0) ≤ j
      → length (executions (prepend t (advance r m)).1.0) ≤ j
  advance-bound r j t (u, ok z) h b = rw (marked-append executed t u, h) b
  advance-bound r j t (u, err e) h b = rw (marked-append executed t u, h) b

  reset-bound :
      (w : World A) (n j : ℕ) (r : Runtime) (a : Result String Unit) (b : Result String ℕ)
      → w.cancelled_before j ≡ true
      → length (executions (step_after w n r (reset_calls r a b)).1.0) ≤ j
  reset-bound w n j r (err e) b h = omega arith
  reset-bound w n j r (ok u) (err e) h = omega arith
  reset-bound w n j r (ok u) (ok session) h =
      let fresh : Runtime = record { session = session; step_id = 0 } in
      advance-bound fresh j (stop ∷ reset_session r.session ∷ []) (run_step w n fresh) refl
        (run_step-cancelled w n j fresh h)

  -- A step that finds the task cancelled before its action number `j`, counted from 0, executes at
  -- most `j` actions.
  pub step_cancelled :
      (w : World A) (chunk_steps j : ℕ) (with_reset : Bool) (r : Runtime)
      → w.cancelled_before j ≡ true
      → length (executions (step w chunk_steps with_reset r).1.0) ≤ j
  unfolding step reset
  step_cancelled w n j true r h = reset-bound w n j r w.stopping w.resetting h
  step_cancelled w n j false r h =
      advance-bound r j [] (run_step w n r) refl (run_step-cancelled w n j r h)
