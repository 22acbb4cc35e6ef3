-- ===== src/Execution/Arbiter/Races.antt =====
-- Interleavings of two methods in which the arbiter ends in a state that neither method, run alone,
-- would leave.
use embodi_run.Base.{ℕ, ◌≡◌, refl, ◌≢◌, true, Option, none, some, List, [], ◌∷◌, ◌++◌, arith, ok}
use embodi_run.Execution.Arbiter.State.{State, model_authority, manual_authority}
use embodi_run.Execution.Ticket.{model}
use embodi_run.Execution.Arbiter.Queue.{submit, submit_model, submit_manual, enqueue_manual}
use embodi_run.Execution.Arbiter.Admission.{submit_effects}
use embodi_run.Execution.Arbiter.Authority.{
  Next, join_hold, acquire_manual_begin, release_manual_begin, set_deadman_begin,
}
use embodi_run.Execution.Arbiter.Stops.{finish_hold, wait_for_hold, reset_begin, reset_commit}

append-ne-nil : {B : Type 0} (xs : List B) (x : B) → xs ++ x ∷ [] ≢ []
append-ne-nil [] x h = cc
append-ne-nil (y ∷ xs) x h = cc

module _ {A : Type 0} where
  commit_effects :
      (g : ℕ) (d e : State A)
      → reset_commit g d ≡ ok e
      → (e.authority ≡ manual_authority) × (e.model_queue ≡ d.model_queue)
  unfolding reset_commit
  commit_effects g d e k = ground arith

  -- An `acquire_manual` that comes while a release waits for its hold joins that hold and returns
  -- normally, and yet the authority is then the model's.
  pub acquire_during_release :
      (s a b : State A) (n : Next)
      → release_manual_begin s ≡ ok a
      → acquire_manual_begin a ≡ ok (b, n)
      → s.hold_error ≡ none
      → (n ≡ join_hold)
        × (wait_for_hold (finish_hold (some model_authority) none b) ≡ ok tt)
        × ((finish_hold (some model_authority) none b).authority ≡ model_authority)
  unfolding release_manual_begin acquire_manual_begin finish_hold wait_for_hold
  acquire_during_release s a b n r q e = ground arith

  -- A deadman that is taken up again, and a manual command, while a release waits for its hold, are
  -- left behind under model authority.
  pub deadman_during_release :
      (now later : ℕ) (action : A) (deadline : Option ℕ) (s a b c : State A) (n : Next)
      → release_manual_begin s ≡ ok a
      → set_deadman_begin now true a ≡ ok (b, n)
      → submit_manual later action deadline b ≡ ok c
      → let d = finish_hold (some model_authority) none c in
        (d.authority ≡ model_authority) × (d.deadman_active ≡ true) × (d.manual_pending ≢ none)
  unfolding release_manual_begin set_deadman_begin submit_manual submit enqueue_manual finish_hold
  deadman_during_release now later action deadline s a b c n r d m = ground arith

  -- A second reset that was begun under the same latch commits late: after the first reset, a
  -- release, and an accepted model command, it takes the authority and leaves that command queued.
  pub late_reset_keeps_queue :
      (g now : ℕ) (action : A) (deadline token : Option ℕ) (s a b d e : State A)
      → reset_begin s ≡ ok g
      → reset_commit g s ≡ ok a
      → release_manual_begin a ≡ ok b
      → submit_model now action deadline token (finish_hold (some model_authority) none b) ≡ ok d
      → reset_commit g d ≡ ok e
      → (e.authority ≡ manual_authority) × (e.model_queue ≢ [])
  unfolding submit_model
  late_reset_keeps_queue g now action deadline token s a b d e p q r m k =
      let f = finish_hold (some model_authority) none b in
      let queued : d.model_queue ≡ f.model_queue ++ _ ∷ [] =
        ((submit_effects now model action deadline token f d m).0 refl).0 in
      let (manual_now, same_queue) = commit_effects g d e k in
      (manual_now, rw (same_queue, queued) (append-ne-nil f.model_queue _))
