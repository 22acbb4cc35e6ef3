-- ===== src/Application/Plans.antt =====
-- How far a step of src/embodirun/application/model_loop.py comes.
use embodi_run.Base.{
  ℕ, zero, suc, ◌+◌, ◌≤◌, ◌≡◌, refl, sym, ap, ◌∙◌, ◌⊎◌, inl, inr, Bool, true, false, ◌||◌, Option,
  none, some, List, [], ◌∷◌, ◌++◌, String, arith, Result, ok, err, length, take, ltb, IsPrefix,
  Bool-cases, Result-cases,
}
use embodi_run.Application.Effects.{Run, raise_if, call, ask, ◌>>=◌, ◌>>◌}
use embodi_run.Application.ModelLoop.{
  LoopFault, cancelled, empty_chunk, not_robot_action, short_chunk, observe_raised, request_raised,
  inference_raised, mapping_raised, LoopCall, observe, infer, World, Runtime, execute_chunk,
  run_step, robot_actions, all_robot_actions, chunk_of,
}
use embodi_run.Application.Chunks.{executions, chunk-IsPrefix, chunk_complete, chunk-cancelled}

module _ {A : Type 0} where
  abbrev pub some_actions : Option (List A) → List A
  some_actions none = []
  some_actions (some xs) = xs

  -- The actions that the binding made of the policy's result.
  abbrev pub mapped_actions : Result String (List (Option A)) → List A
  mapped_actions (err e) = []
  mapped_actions (ok os) = some_actions (robot_actions os)

  abbrev IsEmpty : Run (LoopCall A) LoopFault Unit → Type 0
  IsEmpty m = (executions m.0 ≡ []) × ((e : LoopFault) × (m.1 ≡ err e))

  -- What a step does with the actions, if it gets to them.
  record Goes (n : ℕ) (xs : List A) (k : List A → Run (LoopCall A) LoopFault Unit)
      (m : Run (LoopCall A) LoopFault Unit) : Type 0 where
    enough : ltb (length xs) n ≡ false
    same_executions : executions m.0 ≡ executions (k xs).0
    same_result : m.1 ≡ (k xs).1

  abbrev chosen :
      ℕ → (List A → Run (LoopCall A) LoopFault Unit) → List A → Run (LoopCall A) LoopFault Unit
  chosen n k xs = do raise_if (ltb (length xs) n) short_chunk; k xs

  chosen-cases :
      (n : ℕ) (k : List A → Run (LoopCall A) LoopFault Unit) (xs : List A)
      → IsEmpty (chosen n k xs) ⊎ Goes n xs k (chosen n k xs)
  chosen-cases n k xs = elim (Bool-cases (ltb (length xs) n)) [
    | inl s ↦ inl (rw s (refl, (short_chunk, refl)))
    | inr s ↦ inr (record { enough = s; same_executions = rw s refl; same_result = rw s refl })
  ]

  optional-cases :
      (n : ℕ) (k : List A → Run (LoopCall A) LoopFault Unit) (o : Option (List A))
      → IsEmpty (all_robot_actions o >>= chosen n k)
        ⊎ Goes n (some_actions o) k (all_robot_actions o >>= chosen n k)
  optional-cases n k none = inl (refl, (not_robot_action, refl))
  optional-cases n k (some xs) = chosen-cases n k xs

  mapped-cases :
      (n : ℕ) (k : List A → Run (LoopCall A) LoopFault Unit) (m : Result String (List (Option A)))
      → IsEmpty (ask mapping_raised m >>= λ os. chunk_of os >>= chosen n k)
        ⊎ Goes n (mapped_actions m) k (ask mapping_raised m >>= λ os. chunk_of os >>= chosen n k)
  mapped-cases n k (err e) = inl (refl, (mapping_raised e, refl))
  mapped-cases n k (ok []) = inl (refl, (empty_chunk, refl))
  mapped-cases n k (ok (o ∷ os)) = optional-cases n k (robot_actions (o ∷ os))

  abbrev planned :
      Bool
      → Result String Unit
      → Result String Unit
      → Result String Unit
      → Bool
      → Runtime
      → Run (LoopCall A) LoopFault Unit
      → Run (LoopCall A) LoopFault Unit
  planned c o q i d r rest = do
    raise_if c cancelled
    call observe observe_raised o
    ask request_raised q
    call (infer r.session r.step_id) inference_raised i
    raise_if d cancelled
    rest

  planned-cases :
      (n : ℕ) (xs : List A) (k : List A → Run (LoopCall A) LoopFault Unit) (c : Bool)
      (o q i : Result String Unit) (d : Bool) (r : Runtime) (rest : Run (LoopCall A) LoopFault Unit)
      → IsEmpty rest ⊎ Goes n xs k rest
      → IsEmpty (planned c o q i d r rest)
        ⊎ ((c || d ≡ false) × Goes n xs k (planned c o q i d r rest))
  planned-cases n xs k true o q i d r rest h = inl (refl, (cancelled, refl))
  planned-cases n xs k false (err e) q i d r rest h = inl (refl, (observe_raised e, refl))
  planned-cases n xs k false (ok u) (err e) i d r rest h = inl (refl, (request_raised e, refl))
  planned-cases n xs k false (ok u) (ok v) (err e) d r rest h =
      inl (refl, (inference_raised e, refl))
  planned-cases n xs k false (ok u) (ok v) (ok z) true r rest h = inl (refl, (cancelled, refl))
  planned-cases n xs k false (ok u) (ok v) (ok z) false r rest h = elim h [
    | inl e ↦ inl e
    | inr g ↦ inr (
      refl,
      record {
        enough = g.enough;
        same_executions = g.same_executions;
        same_result = g.same_result;
      },
    )
  ]

  run_step-cases :
      (w : World A) (n : ℕ) (r : Runtime)
      → IsEmpty (run_step w n r)
        ⊎ ((w.cancelled_at_start || w.cancelled_after_inference ≡ false)
            × Goes n
                (mapped_actions w.mapping)
                (λ xs. execute_chunk w 0 (take n xs))
                (run_step w n r))
  unfolding run_step
  run_step-cases w n r =
      let k : List A → Run (LoopCall A) LoopFault Unit = λ xs. execute_chunk w 0 (take n xs) in
      planned-cases n (mapped_actions w.mapping) k w.cancelled_at_start w.observing w.requesting
        w.inferring w.cancelled_after_inference r
        (ask mapping_raised w.mapping >>= λ os. chunk_of os >>= chosen n k)
        (mapped-cases n k w.mapping)

  length-take : (n : ℕ) (xs : List A) → ltb (length xs) n ≡ false → length (take n xs) ≡ n
  length-take zero xs h = refl
  length-take (suc n) [] h = absurd (ground arith)
  length-take (suc n) (x ∷ xs) h = ap suc (length-take n xs (ground arith))

  -- What an execution may be, for any outcome.
  pub record Safe (w : World A) (n : ℕ) (m : Run (LoopCall A) LoopFault Unit) : Type 0 where
    pub in_order : IsPrefix (executions m.0) (take n (mapped_actions w.mapping))
    pub complete :
        ((e : LoopFault) × (m.1 ≡ err e))
        ⊎ ((executions m.0 ≡ take n (mapped_actions w.mapping)) × (length (executions m.0) ≡ n))
    pub uncancelled :
        (w.cancelled_at_start || w.cancelled_after_inference ≡ false) ⊎ (executions m.0 ≡ [])

  pub run_step-Safe : (w : World A) (n : ℕ) (r : Runtime) → Safe w n (run_step w n r)
  run_step-Safe w n r = elim (run_step-cases w n r) [
    | inl e ↦ record {
      in_order =
          (take n (mapped_actions w.mapping), ap (λ l. l ++ take n (mapped_actions w.mapping)) e.0);
      complete = inl e.1;
      uncancelled = inr e.0;
    }
    | inr (c, g) ↦
        let xs = take n (mapped_actions w.mapping) in
        let begins = chunk-IsPrefix w 0 xs in
        record {
          in_order = (begins.0, ap (λ l. l ++ begins.0) g.same_executions ∙ begins.1);
          complete = elim (Result-cases (run_step w n r).1) [
            | inr e ↦ inl e
            | inl (u, h) ↦
                let all = g.same_executions ∙ chunk_complete w 0 xs (sym g.same_result ∙ h) in
                inr (all, ap length all ∙ length-take n (mapped_actions w.mapping) g.enough)
          ];
          uncancelled = inl c;
        }
  ]

  pub run_step-cancelled :
      (w : World A) (n j : ℕ) (r : Runtime)
      → w.cancelled_before j ≡ true
      → length (executions (run_step w n r).0) ≤ j
  run_step-cancelled w n j r h = elim (run_step-cases w n r) [
    | inl e ↦ rw e.0 (omega arith)
    | inr (c, g) ↦
        let bound =
          chunk-cancelled w j 0 (take n (mapped_actions w.mapping))
            (ap w.cancelled_before {x = 0 + j} {y = j} (omega arith) ∙ h) in
        rw g.same_executions bound
  ]
