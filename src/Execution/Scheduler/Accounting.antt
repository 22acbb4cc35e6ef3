-- ===== src/Execution/Scheduler/Accounting.antt =====
-- No request is lost: each admitted request waits, runs, or has been answered or withdrawn, and only
-- one of these.
use embodi_run.Base.{
  ℕ, suc, ◌+◌, ◌≤◌, ◌≡◌, ◌⊎◌, inl, inr, refl, Bool, true, false, Option, none, some, List, [], ◌∷◌,
  ◌++◌, arith, ◌==◌, if◌then◌else◌, Option-cases, Bool-cases,
}
use embodi_run.Execution.Io.{Operation, IoStatus, is_stop}
use embodi_run.Execution.Scheduler.State.{
  Request, State, create, recover, drop_queue, drop_queued_motion, dropped, retained,
}
use embodi_run.Execution.Scheduler.Admit.{
  admit, admitted, new_request, find_request, take_out, detach_queued, timed_out, withdraw, abandon,
}
use embodi_run.Execution.Scheduler.Worker.{take_request, finish_request}
use embodi_run.Execution.Scheduler.Preemptive.{
  preemptive_begin, preemptive_return, preemptive_timeout, preemptive_finish, close_begin,
}
use embodi_run.Execution.Scheduler.Steps.{Step, Reach}

module _ (id : ℕ) where
  abbrev pub is_id : Request → ℕ
  is_id r = if r.id == id then 1 else 0

  abbrev pub count_list : List Request → ℕ
  count_list [] = 0
  count_list (r ∷ rs) = is_id r + count_list rs

  abbrev pub count_option : Option Request → ℕ
  count_option none = 0
  count_option (some r) = is_id r

  -- In how many places the request `id` stands.
  abbrev pub places : State → ℕ
  places s = count_list s.queue + count_option s.active + count_list s.answered

  count-append : (q r : List Request) → count_list (q ++ r) ≡ count_list q + count_list r
  count-append [] r = omega arith
  count-append (x ∷ q) r = omega (arith, count-append q r)

  count-dropped :
      (st : IoStatus) (b : Bool) (q out : List Request)
      → count_list (retained q) + count_list (dropped st b q out) ≡ count_list q + count_list out
  count-dropped st b [] out = omega arith
  count-dropped st b (r ∷ rs) out = elim (Bool-cases (is_stop r.operation)) [
    | inl e ↦ rw e (omega (arith, count-dropped st b rs out))
    | inr e ↦ rw e (omega (arith, count-dropped st b rs (_ ∷ out)))
  ]

  count-take_out :
      (k : ℕ) (q : List Request) (r : Request)
      → find_request k q ≡ some r
      → count_list q ≡ count_list (take_out k q) + is_id r
  count-take_out k [] r f = cc
  count-take_out k (x ∷ q) r f = ground (arith, count-take_out k q r)

  count-detach_queued : (k : ℕ) (q : List Request) → count_list (detach_queued k q) ≡ count_list q
  count-detach_queued k [] = refl
  count-detach_queued k (r ∷ rs) = ground (arith, count-detach_queued k rs)

  drop_queue-places :
      (st : IoStatus) (b : Bool) (s : State)
      → (places (drop_queue st b s) ≡ places s) × ((drop_queue st b s).next_id ≡ s.next_id)
  unfolding drop_queue
  drop_queue-places st b s = (omega (arith, count-dropped st b s.queue s.answered), refl)

  drop_queued_motion-places :
      (s : State)
      → (places (drop_queued_motion s) ≡ places s) × ((drop_queued_motion s).next_id ≡ s.next_id)
  unfolding drop_queued_motion
  drop_queued_motion-places s = drop_queue-places IoStatus.unknown true s

  timed_out-places :
      (k : ℕ) (op : Operation) (c started : Bool) (s : State)
      → (places (timed_out k op c started s).0 ≡ places s)
        × ((timed_out k op c started s).0.next_id ≡ s.next_id)
  unfolding timed_out withdraw abandon
  timed_out-places k op c started s =
      let q = drop_queued_motion (record s { quarantined = true }) in
      elim (Option-cases (find_request k s.queue)) [
        | inl e ↦ ground (
          arith,
          drop_queued_motion-places (record s { quarantined = true }),
          count-detach_queued k q.queue,
        )
        | inr (r, e) ↦ ground (
          arith,
          drop_queued_motion-places (record s { quarantined = true }),
          count-detach_queued k q.queue,
          count-take_out k s.queue r e,
        )
      ]

  -- A section that admits no request moves requests between places; one that admits a request adds
  -- it, under the identity that `next_id` gives.
  abbrev pub Accounts : State → State → Type 0
  Accounts s u =
      ((places u ≡ places s) × (u.next_id ≡ s.next_id))
      ⊎ ((places u ≡ places s + (if s.next_id == id then 1 else 0)) × (u.next_id ≡ suc s.next_id))

  admit-places :
      (now : ℕ) (op : Operation) (cancel deadline : Option ℕ) (s u : State)
      → admit now op cancel deadline s ≡ admitted u
      → (places u ≡ places s + (if s.next_id == id then 1 else 0)) × (u.next_id ≡ suc s.next_id)
  unfolding admit
  admit-places now op cancel deadline s u h =
      ground (arith, count-append s.queue (new_request op cancel deadline s.next_id ∷ []))

  take_request-places :
      (s : State)
      → s.active ≡ none
      → (places (take_request s) ≡ places s) × ((take_request s).next_id ≡ s.next_id)
  unfolding take_request
  take_request-places s idle = ground arith

  pub Step-Accounts : {s u : State} → Step s u → Accounts s u
  unfolding finish_request preemptive_begin preemptive_return preemptive_timeout preemptive_finish
      close_begin recover
  Step-Accounts {s} {u} (Step.admit_request now op cancel deadline h) =
      inr (admit-places now op cancel deadline s u h)
  Step-Accounts {s} (Step.give_up k op c started f h) =
      ground (arith, timed_out-places k op c started s)
  Step-Accounts {s} (Step.take idle h) = ground (arith, take_request-places s idle)
  Step-Accounts (Step.finish now events answer h) = ground arith
  Step-Accounts (Step.preempt h) = ground arith
  Step-Accounts (Step.preempt_return h) = ground arith
  Step-Accounts {s} (Step.preempt_timeout h) =
      ground (arith, drop_queued_motion-places (record s { quarantined = true }))
  Step-Accounts {s} (Step.preempt_finish answer h) =
      ground (arith, drop_queued_motion-places (record s { quarantined = true }))
  Step-Accounts (Step.recovered confirmed h) = ground arith
  Step-Accounts {s} (Step.close h) =
      ground (arith, drop_queue-places IoStatus.cancelled false (record s { closed = true }))

-- Identities from `next_id` on are unused.
abbrev pub IsAccounted : State → Type 0
IsAccounted s = (id : ℕ) → (s.next_id ≤ id → places id s ≡ 0) × (places id s ≤ 1)

Step-IsAccounted : {s u : State} → Step s u → IsAccounted s → IsAccounted u
Step-IsAccounted {s} {u} st v id = ground (arith, Step-Accounts id st, v id)

kept : {s u : State} → Step s u → IsAccounted s → (id : ℕ) → places id s ≡ 1 → places id u ≡ 1
kept {s} {u} st v id p = ground (arith, Step-Accounts id st, v id, Step-IsAccounted st v id)

Reach-IsAccounted : {s u : State} → IsAccounted s → Reach s u → IsAccounted u
Reach-IsAccounted v Reach.here = v
Reach-IsAccounted v (Reach.next r st) = Step-IsAccounted st (Reach-IsAccounted v r)

Reach-kept :
    {s u : State} → IsAccounted s → Reach s u → (id : ℕ) → places id s ≡ 1 → places id u ≡ 1
Reach-kept v Reach.here id p = p
Reach-kept v (Reach.next r st) id p = kept st (Reach-IsAccounted v r) id (Reach-kept v r id p)

create-IsAccounted : (m n : ℕ) → IsAccounted (create m n)
unfolding create
create-IsAccounted m n id = ground arith

-- From a new scheduler, through any interleaving, a request that is admitted is then, and after any
-- further interleaving, in exactly one place: queued, active, or answered or withdrawn once.
pub no_request_lost :
    (m n now : ℕ) (op : Operation) (cancel deadline : Option ℕ) (s u w : State)
    → Reach (create m n) s
    → admit now op cancel deadline s ≡ admitted u
    → Reach u w
    → (places s.next_id u ≡ 1) × (places s.next_id w ≡ 1)
no_request_lost m n now op cancel deadline s u w r h q =
    let v = Reach-IsAccounted (create-IsAccounted m n) r in
    let st : Step s u = Step.admit_request now op cancel deadline h in
    let p : places s.next_id u ≡ 1 =
      ground (arith, admit-places s.next_id now op cancel deadline s u h, v s.next_id) in
    (p, Reach-kept (Step-IsAccounted st v) q s.next_id p)
