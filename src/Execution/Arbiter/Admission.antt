-- ===== src/Execution/Arbiter/Admission.antt =====
-- What `submit` accepts, and what it does with what it accepts.
use embodi_run.Base.{
  ℕ, ◌≡◌, ◌<◌, ◌↔◌, Bool, true, false, Option, none, some, [], ◌∷◌, ◌++◌, arith, Result, ok, err,
  length,
}
use embodi_run.Execution.Ticket.{CommandSource, is_automatic, replaced}
use embodi_run.Execution.Arbiter.State.{
  State, Fault, model_authority, manual_authority, optional_token_set, settle_pending,
}
use embodi_run.Execution.Arbiter.Queue.{
  submit, enqueue_automatic, enqueue_manual, submitted_ticket, stale_token,
}

abbrev pub is_ok : {B : Type 0} → Result Fault B → Bool
is_ok (ok b) = true
is_ok (err f) = false

module _ {A : Type 0} (now : ℕ) (source : CommandSource) (a : A) (deadline token : Option ℕ)
    (s : State A) where
  -- An automatic command is accepted exactly when the arbiter is open under model authority, its
  -- task, if it names one, is the current one and not cancelled, and the queue has room.
  pub submit_automatic_iff :
      is_automatic source ≡ true
      → (is_ok (submit now source a deadline token s) ≡ true) ↔ (
          (s.closed ≡ false)
          × (stale_token token s ≡ false)
          × (optional_token_set token s.token_set ≡ false)
          × (s.authority ≡ model_authority)
          × (length s.model_queue < s.model_queue_capacity))
  unfolding submit enqueue_automatic
  submit_automatic_iff auto = ground arith

  -- A manual command is accepted exactly when the arbiter is open under manual authority, the
  -- deadman is held, and the command names no task.
  pub submit_manual_iff :
      is_automatic source ≡ false
      → (is_ok (submit now source a deadline token s) ≡ true) ↔ (
          (s.closed ≡ false)
          × (token ≡ none)
          × (s.authority ≡ manual_authority)
          × (s.deadman_active ≡ true))
  unfolding submit enqueue_manual
  submit_manual_iff by_hand = ground arith

  -- An accepted automatic command stands last in the queue, and touches no other command; an
  -- accepted manual one waits alone, is a heartbeat, and the one that it replaces is handed back
  -- as replaced.
  pub submit_effects :
      (u : State A)
      → submit now source a deadline token s ≡ ok u
      → let t = submitted_ticket source a deadline token s in
        ((is_automatic source ≡ true)
          → (u.model_queue ≡ s.model_queue ++ t ∷ [])
            × (u.manual_pending ≡ s.manual_pending)
            × (u.settled ≡ s.settled)
            × (u.manual_heartbeat ≡ s.manual_heartbeat))
        × ((is_automatic source ≡ false)
            → (u.model_queue ≡ s.model_queue)
              × (u.manual_pending ≡ some t)
              × (u.settled ≡ settle_pending replaced s.manual_pending s.settled)
              × (u.manual_heartbeat ≡ some now))
  unfolding submit enqueue_automatic enqueue_manual
  submit_effects u h = ground arith
