-- ===== src/Application/Chunks.antt =====
-- What the model loop of src/embodirun/application/model_loop.py executes.
use embodi_run.Base.{
  ℕ, zero, suc, ◌+◌, ◌≤◌, ◌≡◌, refl, ap, ◌∙◌, true, Option, none, some, List, [], ◌∷◌, arith, ok,
  length, IsPrefix,
}
use embodi_run.Application.Effects.{answered, refuse_if}
use embodi_run.Application.Loops.{marked, turn-IsPrefix, turn_complete, turn-bound}
use embodi_run.Application.ModelLoop.{
  cancelled, LoopCall, execute, World, execute_chunk, pace, execute_raised,
}

module _ {A : Type 0} where
  abbrev pub executed : LoopCall A → Option A
  executed (execute a) = some a
  executed _ = none

  -- The actions that calls execute, in order.
  abbrev pub executions : List (LoopCall A) → List A
  executions t = marked executed t

  pub chunk-IsPrefix :
      (w : World A) (k : ℕ) (xs : List A) → IsPrefix (executions (execute_chunk w k xs).0) xs
  unfolding execute_chunk
  chunk-IsPrefix w k [] = ([], refl)
  chunk-IsPrefix w k (a ∷ xs) =
      turn-IsPrefix executed (execute a) a refl (refuse_if (w.cancelled_before k) cancelled)
        (answered execute_raised (w.executing k)) (λ _. pace w k xs) (execute_chunk w (suc k) xs) xs
        (chunk-IsPrefix w (suc k) xs)

  pub chunk_complete :
      (w : World A) (k : ℕ) (xs : List A)
      → (execute_chunk w k xs).1 ≡ ok tt
      → executions (execute_chunk w k xs).0 ≡ xs
  unfolding execute_chunk
  chunk_complete w k [] h = refl
  chunk_complete w k (a ∷ xs) h =
      let rest = execute_chunk w (suc k) xs in
      let both =
        turn_complete executed (execute a) a refl (refuse_if (w.cancelled_before k) cancelled)
          (answered execute_raised (w.executing k)) (λ _. pace w k xs) rest h in
      both.1 ∙ ap (λ l. a ∷ l) (chunk_complete w (suc k) xs both.0)

  pub chunk-cancelled :
      (w : World A) (j k : ℕ) (xs : List A)
      → w.cancelled_before (k + j) ≡ true
      → length (executions (execute_chunk w k xs).0) ≤ j
  unfolding execute_chunk
  chunk-cancelled w j k [] h = omega arith
  chunk-cancelled w zero k (a ∷ xs) h =
      let now : w.cancelled_before k ≡ true =
        ap w.cancelled_before {x = k} {y = k + 0} (omega arith) ∙ h in
      rw now (omega arith)
  chunk-cancelled w (suc j) k (a ∷ xs) h =
      let later : w.cancelled_before (suc k + j) ≡ true =
        ap w.cancelled_before {x = suc k + j} {y = k + suc j} (omega arith) ∙ h in
      turn-bound executed (execute a) a refl (refuse_if (w.cancelled_before k) cancelled)
        (answered execute_raised (w.executing k)) (λ _. pace w k xs) (execute_chunk w (suc k) xs) j
        (chunk-cancelled w j (suc k) xs later)
