-- ===== src/Application/Submissions.antt =====
-- The loop of src/embodirun/application/direct_execution.py.
use embodi_run.Base.{
  ℕ, zero, suc, ◌+◌, ◌≤◌, ◌≡◌, refl, ap, ◌∙◌, Bool, true, false, Option, none, some, List, [], ◌∷◌,
  String, arith, Result, ok, err, length, IsPrefix, All,
}
use embodi_run.Execution.Ticket.{
  CommandStatus, queued, running, executed, cancelled, cleared, replaced, expired, failed,
}
use embodi_run.Application.Effects.{Run, answered}
use embodi_run.Application.Loops.{marked, turn, turn-All, turn-IsPrefix, turn-bound}
use embodi_run.Application.Direct.{
  DirectFault, submit_raised, DirectCall, submit, World, check_ticket, before_command, pace,
  run_actions, outcomes, count_executed, is_executed, ◌>>>◌,
}

-- Was the command executed?
abbrev pub was_executed : Result String CommandStatus → Bool
was_executed (err e) = false
was_executed (ok status) = is_executed status

module _ {A : Type 0} where
  abbrev pub submitted : DirectCall A → Option A
  submitted (submit a answer) = some a
  submitted _ = none

  -- The actions that the calls hand to the arbiter, in order.
  abbrev pub submissions : List (DirectCall A) → List A
  submissions t = marked submitted t

  pub actions-IsPrefix :
      (w : World) (k : ℕ) (xs : List A) → IsPrefix (submissions (run_actions w k xs).0) xs
  unfolding run_actions
  actions-IsPrefix w k [] = ([], refl)
  actions-IsPrefix w k (a ∷ xs) =
      turn-IsPrefix submitted (submit a (w.ticket k)) a refl (before_command w k)
        (answered submit_raised (w.ticket k)) (λ status. check_ticket status >>> pace w k xs)
        (run_actions w (suc k) xs) xs (actions-IsPrefix w (suc k) xs)

  abbrev pub is_submit : DirectCall A → Bool
  is_submit (submit a answer) = true
  is_submit _ = false

  -- The calls of the loop, which neither begins nor releases a task.
  abbrev pub AreSubmits : List (DirectCall A) → Type 0
  AreSubmits t = All (λ c. is_submit c ≡ true) t

  pub actions-AreSubmits : (w : World) (k : ℕ) (xs : List A) → AreSubmits (run_actions w k xs).0
  unfolding run_actions
  actions-AreSubmits w k [] = tt
  actions-AreSubmits w k (a ∷ xs) =
      turn-All (λ c. is_submit c ≡ true) (before_command w k) (submit a (w.ticket k))
        (answered submit_raised (w.ticket k)) (λ status. check_ticket status >>> pace w k xs)
        (run_actions w (suc k) xs) refl (actions-AreSubmits w (suc k) xs)

  -- Every ticket was executed, one for each action.
  pub record Done (xs : List A) (t : List (DirectCall A)) : Type 0 where
    pub all_submitted : submissions t ≡ xs
    pub dispatched : length (outcomes t) ≡ length xs
    pub counted : count_executed (outcomes t) ≡ length xs

  turn-Done :
      (pre : Result DirectFault Unit) (a : A) (r : Result String CommandStatus)
      (next : Result DirectFault Unit) (rest : Run (DirectCall A) DirectFault Unit) (xs : List A)
      → (turn pre (submit a r) (answered submit_raised r) (λ s. check_ticket s >>> next) rest).1
        ≡ ok tt
      → (rest.1 ≡ ok tt)
        × ((Done xs rest.0)
            → Done
                (a ∷ xs)
                (turn pre
                  (submit a r)
                  (answered submit_raised r)
                  (λ s. check_ticket s >>> next)
                  rest).0)
  turn-Done (err e) a r next rest xs h = absurd (ground arith)
  turn-Done (ok u) a (err e) next rest xs h = absurd (ground arith)
  turn-Done (ok u) a (ok executed) (err e) rest xs h = absurd (ground arith)
  turn-Done (ok u) a (ok executed) (ok v) rest xs h = (
    h,
    λ d. record {
      all_submitted = ap (λ l. a ∷ l) d.all_submitted;
      dispatched = ap suc d.dispatched;
      counted = ap suc d.counted;
    },
  )
  turn-Done (ok u) a (ok queued) next rest xs h = absurd (ground arith)
  turn-Done (ok u) a (ok running) next rest xs h = absurd (ground arith)
  turn-Done (ok u) a (ok cancelled) next rest xs h = absurd (ground arith)
  turn-Done (ok u) a (ok cleared) next rest xs h = absurd (ground arith)
  turn-Done (ok u) a (ok replaced) next rest xs h = absurd (ground arith)
  turn-Done (ok u) a (ok expired) next rest xs h = absurd (ground arith)
  turn-Done (ok u) a (ok failed) next rest xs h = absurd (ground arith)

  pub actions-Done :
      (w : World) (k : ℕ) (xs : List A)
      → (run_actions w k xs).1 ≡ ok tt
      → Done xs (run_actions w k xs).0
  unfolding run_actions
  actions-Done w k [] h = record { all_submitted = refl; dispatched = refl; counted = refl }
  actions-Done w k (a ∷ xs) h =
      let rest = run_actions w (suc k) xs in
      let both = turn-Done (before_command w k) a (w.ticket k) (pace w k xs) rest xs h in
      both.1 (actions-Done w (suc k) xs both.0)

  turn-failed :
      (pre : Result DirectFault Unit) (a : A) (r : Result String CommandStatus)
      (next : Result DirectFault Unit) (rest : Run (DirectCall A) DirectFault Unit)
      → was_executed r ≡ false
      → length (
          submissions
            (turn pre
              (submit a r)
              (answered submit_raised r)
              (λ s. check_ticket s >>> next)
              rest).0)
        ≤ 1
  turn-failed (err e) a r next rest h = omega arith
  turn-failed (ok u) a (err e) next rest h = omega arith
  turn-failed (ok u) a (ok executed) next rest h = absurd (ground arith)
  turn-failed (ok u) a (ok queued) next rest h = omega arith
  turn-failed (ok u) a (ok running) next rest h = omega arith
  turn-failed (ok u) a (ok cancelled) next rest h = omega arith
  turn-failed (ok u) a (ok cleared) next rest h = omega arith
  turn-failed (ok u) a (ok replaced) next rest h = omega arith
  turn-failed (ok u) a (ok expired) next rest h = omega arith
  turn-failed (ok u) a (ok failed) next rest h = omega arith

  pub actions-bound :
      (w : World) (j k : ℕ) (xs : List A)
      → was_executed (w.ticket (k + j)) ≡ false
      → length (submissions (run_actions w k xs).0) ≤ suc j
  unfolding run_actions
  actions-bound w j k [] h = omega arith
  actions-bound w zero k (a ∷ xs) h =
      let now : was_executed (w.ticket k) ≡ false =
        ap (λ n. was_executed (w.ticket n)) {x = k} {y = k + 0} (omega arith) ∙ h in
      turn-failed (before_command w k) a (w.ticket k) (pace w k xs) (run_actions w (suc k) xs) now
  actions-bound w (suc j) k (a ∷ xs) h =
      let later : was_executed (w.ticket (suc k + j)) ≡ false =
        ap (λ n. was_executed (w.ticket n)) {x = suc k + j} {y = k + suc j} (omega arith) ∙ h in
      turn-bound submitted (submit a (w.ticket k)) a refl (before_command w k)
        (answered submit_raised (w.ticket k)) (λ status. check_ticket status >>> pace w k xs)
        (run_actions w (suc k) xs) (suc j) (actions-bound w j (suc k) xs later)
