-- ===== src/Execution/Arbiter/Preserved.antt =====
-- Every critical section keeps the invariant.
use embodi_run.Base.{
  ℕ, suc, ◌≡◌, refl, inl, inr, Bool, true, false, Option, none, some, [], ◌∷◌, ◌++◌, map, String,
  arith, ok, length-append, All, All-append, Bool-cases,
}
use embodi_run.Execution.Io.{IoResult}
use embodi_run.Execution.Ticket.{
  CommandSource, CommandStatus, cleared, replaced, is_automatic, is_terminal, Ticket, settle,
}
use embodi_run.Execution.Arbiter.State.{State, is_latched, create, settle_pending}
use embodi_run.Execution.Arbiter.Queue.{submit, submitted_ticket, enqueue_automatic, enqueue_manual}
use embodi_run.Execution.Arbiter.Tasks.{
  begin_automatic_task, finish_automatic_begin, finish_automatic_end, cancel_automatic_begin,
}
use embodi_run.Execution.Arbiter.Authority.{
  Next, acquire_manual_begin, release_manual_begin, set_deadman_begin, hold_begin, watch_deadman,
}
use embodi_run.Execution.Arbiter.Stops.{
  finish_hold, emergency_stop_begin, emergency_stop_end, reset_fail, reset_commit, close_begin,
  latch,
}
use embodi_run.Execution.Arbiter.Worker.{take_turn, publish, record_command_error, retire}
use embodi_run.Execution.Arbiter.Invariant.{
  Waits, Ended, Inv, map-settle-Ended, settle_pending-Ended,
}
use embodi_run.Execution.Arbiter.Steps.{Step, Reach, hold_target}

module _ {A : Type 0} {s : State A} (v : Inv s) where
  -- The tickets that a clearing of the queue, or of the pending command, hands back.
  cleared_queue : All Ended (map (settle cleared none none) s.model_queue ++ s.settled)
  cleared_queue = map-settle-Ended cleared s.model_queue s.settled refl v.settled_ended

  cleared_pending : All Ended (settle_pending cleared s.manual_pending s.settled)
  cleared_pending = settle_pending-Ended cleared s.manual_pending s.settled refl v.settled_ended

  cleared_both : All Ended (
      settle_pending cleared s.manual_pending
        (map (settle cleared none none) s.model_queue ++ s.settled))
  cleared_both =
      settle_pending-Ended cleared s.manual_pending
        (map (settle cleared none none) s.model_queue ++ s.settled) refl cleared_queue

  latch-Inv : Inv (latch s)
  unfolding latch
  latch-Inv = ground (arith, cleared_both)

  begin_automatic_task-Inv :
      (token : Option ℕ) (t : ℕ) {u : State A} → begin_automatic_task token s ≡ ok (u, t) → Inv u
  unfolding begin_automatic_task
  begin_automatic_task-Inv token t h = ground (arith, cleared_queue)

  finish_automatic_begin-Inv :
      (token : Option ℕ) (c : Bool) {u : State A}
      → finish_automatic_begin token s ≡ ok (some (u, c))
      → Inv u
  unfolding finish_automatic_begin
  finish_automatic_begin-Inv token c h = ground (arith, cleared_queue)

  finish_automatic_end-Inv :
      (token current : Option ℕ) (c : Bool) → Inv (finish_automatic_end token current c s)
  unfolding finish_automatic_end
  finish_automatic_end-Inv token current c = ground arith

  cancel_automatic_begin-Inv :
      (token : Option ℕ) (h r : Bool) {u : State A}
      → cancel_automatic_begin token s ≡ ok (u, h, r)
      → Inv u
  unfolding cancel_automatic_begin
  cancel_automatic_begin-Inv token c r h = ground (arith, cleared_queue)

  acquire_manual_begin-Inv : (n : Next) {u : State A} → acquire_manual_begin s ≡ ok (u, n) → Inv u
  unfolding acquire_manual_begin
  acquire_manual_begin-Inv n h = ground (arith, cleared_both)

  release_manual_begin-Inv : {u : State A} → release_manual_begin s ≡ ok u → Inv u
  unfolding release_manual_begin
  release_manual_begin-Inv h = ground (arith, cleared_pending)

  set_deadman_begin-Inv :
      (now : ℕ) (on : Bool) (n : Next) {u : State A}
      → set_deadman_begin now on s ≡ ok (u, n)
      → Inv u
  unfolding set_deadman_begin
  set_deadman_begin-Inv now on n h = ground (arith, cleared_pending)

  hold_begin-Inv : {u : State A} → hold_begin s ≡ ok u → Inv u
  unfolding hold_begin
  hold_begin-Inv h = ground (arith, cleared_both)

  watch_deadman-Inv : (now : ℕ) → Inv (watch_deadman now s).0
  unfolding watch_deadman
  watch_deadman-Inv now = ground (arith, cleared_pending)

  finish_hold-Inv :
      (to_model : Bool) (e : Option String) → Inv (finish_hold (hold_target to_model) e s)
  unfolding finish_hold
  finish_hold-Inv to_model (some e) = ground (arith, latch-Inv)
  finish_hold-Inv to_model none = ground arith

  emergency_stop_begin-Inv : {u : State A} → emergency_stop_begin s ≡ ok u → Inv u
  unfolding emergency_stop_begin
  emergency_stop_begin-Inv h = ground (arith, latch-Inv)

  emergency_stop_end-Inv : (e : Option String) → Inv (emergency_stop_end e s)
  unfolding emergency_stop_end
  emergency_stop_end-Inv (some e) = ground arith
  emergency_stop_end-Inv none = ground arith

  record_command_error-Inv : (e : String) → Inv (record_command_error e s)
  unfolding record_command_error
  record_command_error-Inv e = ground arith

  reset_fail-Inv : (e : String) → Inv (reset_fail e s)
  unfolding reset_fail
  reset_fail-Inv e = ground arith

  reset_commit-Inv : (g : ℕ) {u : State A} → reset_commit g s ≡ ok u → Inv u
  unfolding reset_commit
  reset_commit-Inv g h = ground arith

  close_begin-Inv : Inv (close_begin s)
  unfolding close_begin
  close_begin-Inv = ground (arith, cleared_both)

  take_turn-Inv : (now : ℕ) → Inv (take_turn now s).0
  unfolding take_turn
  take_turn-Inv now = ground arith

  publish-Inv :
      (st : CommandStatus) (e : Option String) (r : Option IoResult) → Inv (publish st e r s)
  unfolding publish
  publish-Inv st e r = ground arith

  retire-Inv : (t : Ticket A) → s.active ≡ some t → is_terminal t.status ≡ true → Inv (retire s)
  unfolding retire
  retire-Inv t a h = ground arith

  replaced_pending : All Ended (settle_pending replaced s.manual_pending s.settled)
  replaced_pending = settle_pending-Ended replaced s.manual_pending s.settled refl v.settled_ended

  enqueue_automatic-Inv :
      (t : Ticket A) (u : State A)
      → Waits true t
      → is_latched s.authority ≡ false
      → s.closed ≡ false
      → enqueue_automatic t s ≡ ok u
      → Inv u
  unfolding enqueue_automatic
  enqueue_automatic-Inv t u w unlatched opened h = ground (
    arith,
    length-append s.model_queue (t ∷ []),
    All-append (Waits true) s.model_queue (t ∷ []) v.queue_waits (w, tt),
  )

  enqueue_manual-Inv :
      (now : ℕ) (t : Ticket A) (u : State A)
      → Waits false t
      → s.closed ≡ false
      → enqueue_manual now t s ≡ ok u
      → Inv u
  unfolding enqueue_manual
  enqueue_manual-Inv now t u w opened h = ground (arith, replaced_pending)

  renumbered-Inv : Inv (record s { next_id = suc s.next_id })
  renumbered-Inv = ground arith

module _ {A : Type 0} where
  automatic-Inv :
      (now : ℕ) (source : CommandSource) (a : A) (deadline token : Option ℕ) {s u : State A}
      → Inv s
      → is_automatic source ≡ true
      → submit now source a deadline token s ≡ ok u
      → Inv u
  unfolding submit
  automatic-Inv now source a deadline token {s} {u} v auto h = ground (
    arith,
    enqueue_automatic-Inv (renumbered-Inv v) (submitted_ticket source a deadline token s) u
        (refl, auto),
  )

  manual-Inv :
      (now : ℕ) (source : CommandSource) (a : A) (deadline token : Option ℕ) {s u : State A}
      → Inv s
      → is_automatic source ≡ false
      → submit now source a deadline token s ≡ ok u
      → Inv u
  unfolding submit
  manual-Inv now source a deadline token {s} {u} v auto h = ground (
    arith,
    enqueue_manual-Inv (renumbered-Inv v) now (submitted_ticket source a deadline token s) u
        (refl, auto),
  )

  pub submit-Inv :
      (now : ℕ) (source : CommandSource) (a : A) (deadline token : Option ℕ) {s u : State A}
      → Inv s
      → submit now source a deadline token s ≡ ok u
      → Inv u
  submit-Inv now source a deadline token v h = elim (Bool-cases (is_automatic source)) [
    | inl auto ↦ automatic-Inv now source a deadline token v auto h
    | inr by_hand ↦ manual-Inv now source a deadline token v by_hand h
  ]

  -- One critical section of any thread keeps the invariant.
  pub Step-Inv : {s u : State A} → Step s u → Inv s → Inv u
  Step-Inv (Step.begin_task token t h) v = begin_automatic_task-Inv v token t h
  Step-Inv (Step.finish_task token c h) v = finish_automatic_begin-Inv v token c h
  Step-Inv (Step.finished_task token current c h) v =
      rw h (finish_automatic_end-Inv v token current c)
  Step-Inv (Step.cancel_task token h r e) v = cancel_automatic_begin-Inv v token h r e
  Step-Inv (Step.submitted now source a deadline token h) v =
      submit-Inv now source a deadline token v h
  Step-Inv (Step.acquire n h) v = acquire_manual_begin-Inv v n h
  Step-Inv (Step.release h) v = release_manual_begin-Inv v h
  Step-Inv (Step.deadman now on n h) v = set_deadman_begin-Inv v now on n h
  Step-Inv (Step.hold h) v = hold_begin-Inv v h
  Step-Inv (Step.watch now h) v = rw h (watch_deadman-Inv v now)
  Step-Inv (Step.hold_done to_model e h) v = rw h (finish_hold-Inv v to_model e)
  Step-Inv (Step.estop h) v = emergency_stop_begin-Inv v h
  Step-Inv (Step.estop_done e h) v = rw h (emergency_stop_end-Inv v e)
  Step-Inv (Step.reset_failed e h) v = rw h (reset_fail-Inv v e)
  Step-Inv (Step.reset g h) v = reset_commit-Inv v g h
  Step-Inv (Step.close h) v = rw h (close_begin-Inv v)
  Step-Inv {s} (Step.set_event t h) v = rw h (ground arith)
  Step-Inv (Step.take now idle h) v = rw h (take_turn-Inv v now)
  Step-Inv (Step.command_error e h) v = rw h (record_command_error-Inv v e)
  Step-Inv (Step.published st e r end h) v = rw h (publish-Inv v st e r)
  Step-Inv (Step.retired t a end h) v = rw h (retire-Inv v t a end)

  pub create-Inv : (capacity timeout : ℕ) {s : State A} → create capacity timeout ≡ ok s → Inv s
  unfolding create
  create-Inv capacity timeout h = ground arith

  pub Reach-Inv : {s u : State A} → Inv s → Reach s u → Inv u
  Reach-Inv v Reach.here = v
  Reach-Inv v (Reach.next r st) = Step-Inv st (Reach-Inv v r)

  -- From a new arbiter, in every interleaving of the critical sections of its callers, its worker and
  -- its watchdog: the queue keeps to its capacity; a latched or closed arbiter has no waiting command
  -- and no held deadman; the deadman is held exactly when there is a heartbeat; each waiting ticket
  -- is queued and of its place's kind; and each ticket that was handed back has ended.
  pub arbiter_Inv :
      (capacity timeout : ℕ) (s u : State A) → create capacity timeout ≡ ok s → Reach s u → Inv u
  arbiter_Inv capacity timeout s u h r = Reach-Inv (create-Inv capacity timeout h) r
