-- ===== src/Execution/Arbiter/Accounting.antt =====
-- No ticket is lost and none is duplicated: every ticket that `submit` accepted is in exactly one
-- place of the arbiter, or handed back once.
use embodi_run.Base.{
  ℕ, suc, ◌+◌, ◌≤◌, ◌≡◌, ◌⊎◌, inr, Option, none, some, List, [], ◌∷◌, ◌++◌, map, arith, ok, ◌==◌,
  if◌then◌else◌,
}
use embodi_run.Execution.Ticket.{CommandSource, CommandStatus, cleared, Ticket, settle}
use embodi_run.Execution.Arbiter.State.{State, create}
use embodi_run.Execution.Arbiter.Queue.{submit, enqueue_automatic, enqueue_manual, submitted_ticket}
use embodi_run.Execution.Arbiter.Tasks.{
  begin_automatic_task, finish_automatic_begin, finish_automatic_end, cancel_automatic_begin,
}
use embodi_run.Execution.Arbiter.Authority.{
  acquire_manual_begin, release_manual_begin, set_deadman_begin, hold_begin, watch_deadman,
}
use embodi_run.Execution.Arbiter.Stops.{
  finish_hold, emergency_stop_begin, emergency_stop_end, reset_fail, reset_commit, close_begin,
  latch,
}
use embodi_run.Execution.Arbiter.Worker.{take_turn, publish, record_command_error, retire}
use embodi_run.Execution.Arbiter.Invariant.{Inv}
use embodi_run.Execution.Arbiter.Preserved.{Step-Inv, create-Inv}
use embodi_run.Execution.Arbiter.Steps.{Step, Reach}

module _ {A : Type 0} (id : ℕ) where
  abbrev pub is_id : Ticket A → ℕ
  is_id t = if t.action_id == id then 1 else 0

  abbrev pub count_list : List (Ticket A) → ℕ
  count_list [] = 0
  count_list (t ∷ ts) = is_id t + count_list ts

  abbrev pub count_option : Option (Ticket A) → ℕ
  count_option none = 0
  count_option (some t) = is_id t

  -- In how many places the ticket `id` stands.
  abbrev pub places : State A → ℕ
  places s =
      count_list s.model_queue
      + count_option s.manual_pending
      + count_option s.active
      + count_list s.settled

  count-settle :
      (st : CommandStatus) (q out : List (Ticket A))
      → count_list (map (settle st none none) q ++ out) ≡ count_list q + count_list out
  unfolding settle
  count-settle st [] out = omega arith
  count-settle st (t ∷ q) out = ground (arith, count-settle st q out)

  count-append : (q r : List (Ticket A)) → count_list (q ++ r) ≡ count_list q + count_list r
  count-append [] r = omega arith
  count-append (t ∷ q) r = omega (arith, count-append q r)

  latch-places : (s : State A) → places (latch s) ≡ places s
  unfolding latch settle
  latch-places s = ground (arith, count-settle cleared s.model_queue s.settled)

  -- A section that accepts no command moves tickets between places; one that accepts a command adds
  -- it, under the identity that `next_id` gives.
  abbrev pub Accounts : State A → State A → Type 0
  Accounts s u =
      ((places u ≡ places s) × (s.next_id ≤ u.next_id))
      ⊎ ((places u ≡ places s + (if s.next_id == id then 1 else 0)) × (u.next_id ≡ suc s.next_id))

  enqueue_automatic-places :
      (t : Ticket A) (s u : State A)
      → enqueue_automatic t s ≡ ok u
      → (places u ≡ places s + is_id t) × (u.next_id ≡ s.next_id)
  unfolding enqueue_automatic
  enqueue_automatic-places t s u h = ground (arith, count-append s.model_queue (t ∷ []))

  enqueue_manual-places :
      (now : ℕ) (t : Ticket A) (s u : State A)
      → enqueue_manual now t s ≡ ok u
      → (places u ≡ places s + is_id t) × (u.next_id ≡ s.next_id)
  unfolding enqueue_manual settle
  enqueue_manual-places now t s u h = ground arith

  submit-places :
      (now : ℕ) (source : CommandSource) (a : A) (deadline token : Option ℕ) (s u : State A)
      → submit now source a deadline token s ≡ ok u
      → (places u ≡ places s + (if s.next_id == id then 1 else 0)) × (u.next_id ≡ suc s.next_id)
  unfolding submit
  submit-places now source a deadline token s u h =
      let t = submitted_ticket source a deadline token s in
      let s' = record s { next_id = suc s.next_id } in
      ground (arith, enqueue_automatic-places t s' u, enqueue_manual-places now t s' u)

  take_turn-places :
      (now : ℕ) (s : State A)
      → Inv s
      → s.active ≡ none
      → (places (take_turn now s).0 ≡ places s) × ((take_turn now s).0.next_id ≡ s.next_id)
  unfolding take_turn
  take_turn-places now s v idle = ground arith

  pub Step-Accounts : {s u : State A} → Inv s → Step s u → Accounts s u
  unfolding begin_automatic_task finish_automatic_begin finish_automatic_end cancel_automatic_begin
      acquire_manual_begin release_manual_begin set_deadman_begin hold_begin watch_deadman
      finish_hold emergency_stop_begin emergency_stop_end reset_fail reset_commit close_begin
      publish record_command_error retire settle
  Step-Accounts {s} v (Step.begin_task token t h) =
      ground (arith, count-settle cleared s.model_queue s.settled)
  Step-Accounts {s} v (Step.finish_task token c h) =
      ground (arith, count-settle cleared s.model_queue s.settled)
  Step-Accounts v (Step.finished_task token current c h) = ground arith
  Step-Accounts {s} v (Step.cancel_task token h r e) =
      ground (arith, count-settle cleared s.model_queue s.settled)
  Step-Accounts {s} {u} v (Step.submitted now source a deadline token h) =
      inr (submit-places now source a deadline token s u h)
  Step-Accounts {s} v (Step.acquire m h) =
      ground (arith, count-settle cleared s.model_queue s.settled)
  Step-Accounts v (Step.release h) = ground arith
  Step-Accounts v (Step.deadman now on m h) = ground arith
  Step-Accounts {s} v (Step.hold h) = ground (arith, count-settle cleared s.model_queue s.settled)
  Step-Accounts v (Step.watch now h) = ground arith
  Step-Accounts v (Step.hold_done to_model none h) = ground arith
  Step-Accounts {s} v (Step.hold_done to_model (some e) h) =
      ground (arith, count-settle cleared s.model_queue s.settled)
  Step-Accounts {s} v (Step.estop h) = ground (arith, count-settle cleared s.model_queue s.settled)
  Step-Accounts v (Step.estop_done none h) = ground arith
  Step-Accounts v (Step.estop_done (some e) h) = ground arith
  Step-Accounts v (Step.reset_failed e h) = ground arith
  Step-Accounts v (Step.reset g h) = ground arith
  Step-Accounts {s} v (Step.close h) = ground (arith, count-settle cleared s.model_queue s.settled)
  Step-Accounts v (Step.set_event t h) = ground arith
  Step-Accounts {s} v (Step.take now idle h) = ground (arith, take_turn-places now s v idle)
  Step-Accounts v (Step.command_error e h) = ground arith
  Step-Accounts v (Step.published st e r end h) = ground arith
  Step-Accounts v (Step.retired t a end h) = ground arith

-- Identities from `next_id` on are unused, and every other one is in one place at most.
abbrev pub IsAccounted : {A : Type 0} → State A → Type 0
IsAccounted s = Inv s × ((id : ℕ) → (s.next_id ≤ id → places id s ≡ 0) × (places id s ≤ 1))

module _ {A : Type 0} where
  Step-IsAccounted : {s u : State A} → Step s u → IsAccounted s → IsAccounted u
  Step-IsAccounted {s} {u} st v =
      (Step-Inv st v.0, λ id. ground (arith, Step-Accounts id v.0 st, v.1 id))

  kept : {s u : State A} → Step s u → IsAccounted s → (id : ℕ) → places id s ≡ 1 → places id u ≡ 1
  kept {s} {u} st v id p =
      ground (arith, Step-Accounts id v.0 st, v.1 id, (Step-IsAccounted st v).1 id)

  Reach-IsAccounted : {s u : State A} → IsAccounted s → Reach s u → IsAccounted u
  Reach-IsAccounted v Reach.here = v
  Reach-IsAccounted v (Reach.next r st) = Step-IsAccounted st (Reach-IsAccounted v r)

  Reach-kept :
      {s u : State A} → IsAccounted s → Reach s u → (id : ℕ) → places id s ≡ 1 → places id u ≡ 1
  Reach-kept v Reach.here id p = p
  Reach-kept v (Reach.next r st) id p = kept st (Reach-IsAccounted v r) id (Reach-kept v r id p)

  create-IsAccounted :
      (capacity timeout : ℕ) {s : State A} → create capacity timeout ≡ ok s → IsAccounted s
  unfolding create
  create-IsAccounted capacity timeout h = (create-Inv capacity timeout h, λ id. ground arith)

  -- From a new arbiter, through any interleaving, a command that is accepted is in exactly one place
  -- then and after any further interleaving: waiting in the queue or as the pending manual command,
  -- active, or handed back once.
  pub no_ticket_lost :
      (capacity timeout now : ℕ) (source : CommandSource) (a : A) (deadline token : Option ℕ)
      (n s u w : State A)
      → create capacity timeout ≡ ok n
      → Reach n s
      → submit now source a deadline token s ≡ ok u
      → Reach u w
      → (places s.next_id s ≡ 0) × (places s.next_id u ≡ 1) × (places s.next_id w ≡ 1)
  no_ticket_lost capacity timeout now source a deadline token n s u w c r h q =
      let v = Reach-IsAccounted (create-IsAccounted capacity timeout c) r in
      let st : Step s u = Step.submitted now source a deadline token h in
      let p : places s.next_id u ≡ 1 =
        ground (arith, submit-places s.next_id now source a deadline token s u h, v.1 s.next_id) in
      ((v.1 s.next_id).0 (omega arith), p, Reach-kept (Step-IsAccounted st v) q s.next_id p)
