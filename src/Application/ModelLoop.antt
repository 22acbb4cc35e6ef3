-- ===== src/Application/ModelLoop.antt =====
-- `ControlRuntime` of src/embodirun/application/model_loop.py.
use embodi_run.Base.{
  ℕ, suc, Bool, ◌&&◌, Option, none, some, List, [], ◌∷◌, ◌++◌, String, Result, ok, err, length,
  take, ltb, if◌then◌else◌,
}
use embodi_run.Application.Effects.{
  Run, pure, raise, raise_if, call, ask, ◌>>=◌, ◌>>◌, finally, lift,
}

pub data LoopFault : Type 0 where
  cancelled empty_chunk not_robot_action short_chunk : LoopFault
  stop_raised reset_raised observe_raised request_raised inference_raised mapping_raised :
      String → LoopFault
  execute_raised finish_raised close_raised : String → LoopFault

-- The calls of the robot (or its command sink) and of the inference client.
pub data LoopCall (A : Type 0) : Type 0 where
  stop finish observe : LoopCall A
  reset_session close_session : ℕ → LoopCall A
  infer : ℕ → ℕ → LoopCall A
  execute : A → LoopCall A

pub record Runtime : Type 0 where
  pub session : ℕ
  pub step_id : ℕ

-- What the calls of one step answer, and what each reading of the cancellation event finds: before
-- the step, after the inference, before an action, and after a wait between two actions. Without the
-- event each reading is false. `mapping` has `none` for what is not a `RobotAction`.
pub record World (A : Type 0) : Type 0 where
  pub stopping : Result String Unit
  pub resetting : Result String ℕ
  pub observing : Result String Unit
  pub requesting : Result String Unit
  pub inferring : Result String Unit
  pub mapping : Result String (List (Option A))
  pub executing : ℕ → Result String Unit
  pub cancelled_at_start : Bool
  pub cancelled_after_inference : Bool
  pub cancelled_before : ℕ → Bool
  pub waits : ℕ → Bool
  pub cancelled_after_wait : ℕ → Bool

module _ {A : Type 0} where
  -- The actions, if each is one.
  abbrev pub robot_actions : List (Option A) → Option (List A)
  robot_actions [] = some []
  robot_actions (none ∷ os) = none
  robot_actions (some a ∷ os) = elim (robot_actions os) [ some xs ↦ some (a ∷ xs) | none ↦ none ]

  abbrev pub all_robot_actions : Option (List A) → Run (LoopCall A) LoopFault (List A)
  all_robot_actions none = raise not_robot_action
  all_robot_actions (some xs) = pure xs

  abbrev pub chunk_of : List (Option A) → Run (LoopCall A) LoopFault (List A)
  chunk_of [] = raise empty_chunk
  chunk_of (o ∷ os) = all_robot_actions (robot_actions (o ∷ os))

  -- The wait before the next action, if there is one.
  abbrev pub pace : World A → ℕ → List A → Result LoopFault Unit
  pace w k [] = ok tt
  pace w k (a ∷ xs) = if w.waits k && w.cancelled_after_wait k then err cancelled else ok tt

  -- The loop over the chunk, from its `k`th action.
  unfoldable pub execute_chunk : World A → ℕ → List A → Run (LoopCall A) LoopFault Unit
  execute_chunk w k [] = pure tt
  execute_chunk w k (a ∷ xs) = do
    raise_if (w.cancelled_before k) cancelled
    call (execute a) execute_raised (w.executing k)
    lift (pace w k xs)
    execute_chunk w (suc k) xs

  -- `step` after its reset.
  unfoldable pub run_step : World A → ℕ → Runtime → Run (LoopCall A) LoopFault Unit
  run_step w chunk_steps r = do
    raise_if w.cancelled_at_start cancelled
    call observe observe_raised w.observing
    ask request_raised w.requesting
    call (infer r.session r.step_id) inference_raised w.inferring
    raise_if w.cancelled_after_inference cancelled
    mapped ← ask mapping_raised w.mapping
    actions ← chunk_of mapped
    raise_if (ltb (length actions) chunk_steps) short_chunk
    execute_chunk w 0 (take chunk_steps actions)

  abbrev pub reset_calls :
      Runtime → Result String Unit → Result String ℕ → Run (LoopCall A) LoopFault Runtime
  reset_calls r stopping resetting = do
    call stop stop_raised stopping
    session ← call (reset_session r.session) reset_raised resetting
    pure (record { session = session; step_id = 0 })

  -- `reset`
  unfoldable pub reset : World A → Runtime → Run (LoopCall A) LoopFault Runtime
  reset w r = reset_calls r w.stopping w.resetting

  abbrev pub advance :
      Runtime → Run (LoopCall A) LoopFault Unit → Runtime × Run (LoopCall A) LoopFault Unit
  advance r (t, ok u) = (record r { step_id = suc r.step_id }, (t, ok u))
  advance r (t, err e) = (r, (t, err e))

  abbrev pub prepend :
      List (LoopCall A)
      → Runtime × Run (LoopCall A) LoopFault Unit
      → Runtime × Run (LoopCall A) LoopFault Unit
  prepend t (r, (u, o)) = (r, (t ++ u, o))

  abbrev pub step_after :
      World A
      → ℕ
      → Runtime
      → Run (LoopCall A) LoopFault Runtime
      → Runtime × Run (LoopCall A) LoopFault Unit
  step_after w n old (t, ok r) = prepend t (advance r (run_step w n r))
  step_after w n old (t, err e) = (old, (t, err e))

  -- `step`: the runtime after it, its calls, and its outcome.
  unfoldable pub step : World A → ℕ → Bool → Runtime → Runtime × Run (LoopCall A) LoopFault Unit
  step w chunk_steps with_reset r =
      step_after w chunk_steps r (if with_reset then reset w r else pure r)

  -- `close`; the first argument says whether the command sink has `finish`.
  unfoldable pub close :
      Bool → Result String Unit → Result String Unit → Runtime → Run (LoopCall A) LoopFault Unit
  close has_finish holding closing r =
      finally
        (if has_finish then call finish finish_raised holding else call stop stop_raised holding)
        (call (close_session r.session) close_raised closing)
