-- ===== src/Execution/Scheduler/Preserved.antt =====
-- Every critical section of the scheduler keeps the invariant of the queue.
use embodi_run.Base.{
  ℕ, ◌≡◌, refl, Bool, true, false, Option, List, [], ◌∷◌, arith, inl, inr, Option-cases, Bool-cases,
  All,
}
use embodi_run.Execution.Io.{Operation, IoStatus, is_stop, IoResult}
use embodi_run.Execution.Scheduler.State.{
  Request, State, create, recover, drop_queue, drop_queued_motion,
}
use embodi_run.Execution.Scheduler.Admit.{
  admit, admitted, new_request, find_request, detach_queued, detach_active, timed_out, withdraw,
  abandon,
}
use embodi_run.Execution.Scheduler.Worker.{DriverAnswer, take_request, finish_request}
use embodi_run.Execution.Scheduler.Preemptive.{
  preemptive_begin, preemptive_return, preemptive_timeout, preemptive_finish, close_begin,
}
use embodi_run.Execution.Scheduler.Steps.{Step, Reach, Inv, IsOf, IsMotion}
use embodi_run.Execution.Scheduler.Queue.{
  reads_left-eq-sub, count_reads-retained, count_motion-retained, retained-StopFirst,
  count_reads-append, count_motion-append, count_motion-le-length, append-StopFirst,
  IsMotion-of_no_stop, front_stop-of-motion, is_read-is_stop, take_out_lem, take_out-StopFirst,
  detach_queued_lem, detach_queued-StopFirst,
}

module _ {s : State} (v : Inv s) where
  drop_queue-Inv : (st : IoStatus) (q : Bool) → Inv (drop_queue st q s)
  unfolding drop_queue
  drop_queue-Inv st q = ground (
    arith,
    reads_left-eq-sub s.queue s.queued_reads,
    count_reads-retained s.queue,
    count_motion-retained s.queue,
    retained-StopFirst s.queue v.stop_first,
  )

  admit-Inv :
      (now : ℕ) (op : Operation) (cancel deadline : Option ℕ) {u : State}
      → admit now op cancel deadline s ≡ admitted u
      → Inv u
  unfolding admit
  admit-Inv now op cancel deadline h =
      let r = new_request op cancel deadline s.next_id in
      ground (
        arith,
        count_reads-append s.queue r,
        count_motion-append s.queue r,
        count_motion-le-length s.queue,
        append-StopFirst s.queue r v.stop_first,
        IsMotion-of_no_stop s.queue v.stop_first,
      )

  withdraw-Inv :
      (id : ℕ) (op : Operation)
      → is_stop op ≡ false
      → IsOf op (find_request id s.queue)
      → Inv (withdraw id s)
  unfolding withdraw
  withdraw-Inv id op m f = elim (Option-cases (find_request id s.queue)) [
    | inl e ↦ rw e v
    | inr (r, e) ↦
        ground (arith, take_out_lem id s.queue r e, take_out-StopFirst id s.queue r v.stop_first e)
  ]

  closed-Inv : Inv (record s { closed = true })
  closed-Inv = ground arith

  quarantined-Inv : Inv (record s { quarantined = true })
  quarantined-Inv = ground arith

  detached-Inv :
      (id : ℕ) (a : Option Request)
      → Inv (record s { queue = detach_queued id s.queue; active = a })
  detached-Inv id a =
      ground (arith, detach_queued_lem id s.queue, detach_queued-StopFirst id s.queue v.stop_first)

  take_front-Inv : (q : List Request) → s.queue ≡ q → Inv (take_request s)
  unfolding take_request
  take_front-Inv [] e = ground arith
  take_front-Inv (r ∷ rs) e =
      let rest : All IsMotion rs = rw e at v.stop_first in
      ground (arith, front_stop-of-motion rs rest, is_read-is_stop r.operation)

  finish_request-Inv :
      (now : ℕ) (events : ℕ → Bool) (answer : DriverAnswer)
      → Inv (finish_request now events answer s)
  unfolding finish_request
  finish_request-Inv now events answer = ground arith

  preemptive_begin-Inv : {u : State} → preemptive_begin s ≡ admitted u → Inv u
  unfolding preemptive_begin
  preemptive_begin-Inv h = ground arith

  recover-Inv : (confirmed : Bool) → Inv (recover confirmed s).0
  unfolding recover
  recover-Inv confirmed = ground arith

drop_queued_motion-Inv : {s : State} → Inv s → Inv (drop_queued_motion s)
unfolding drop_queued_motion
drop_queued_motion-Inv v = drop_queue-Inv v IoStatus.unknown true

abandon-Inv : (id : ℕ) {s : State} → Inv s → Inv (abandon id s)
unfolding abandon
abandon-Inv id {s} v =
    let q = drop_queued_motion (record s { quarantined = true }) in
    detached-Inv (drop_queued_motion-Inv (quarantined-Inv v)) id (detach_active id q.active)

timed_out-Inv :
    (id : ℕ) (op : Operation) (has_cancel started : Bool) (s : State)
    → Inv s
    → IsOf op (find_request id s.queue)
    → Inv (timed_out id op has_cancel started s).0
unfolding timed_out
timed_out-Inv id op has_cancel true s v f = abandon-Inv id v
timed_out-Inv id op has_cancel false s v f = elim (Bool-cases (is_stop op)) [
  | inl e ↦ rw e (abandon-Inv id v)
  | inr e ↦ rw e (withdraw-Inv v id op e f)
]

noted-Inv : (r : Option IoResult) {s : State} → Inv s → Inv (record s { last_stop_result = r })
noted-Inv r v = ground arith

preemptive_return-Inv : (s : State) → Inv s → Inv (preemptive_return s)
unfolding preemptive_return
preemptive_return-Inv s v = ground arith

preemptive_timeout-Inv : (s : State) → Inv s → Inv (preemptive_timeout s)
unfolding preemptive_timeout
preemptive_timeout-Inv s v = noted-Inv _ (drop_queued_motion-Inv (quarantined-Inv v))

preemptive_finish-Inv :
    (answer : DriverAnswer) (s : State) → Inv s → Inv (preemptive_finish answer s)
unfolding preemptive_finish
preemptive_finish-Inv answer s v = ground (arith, v, drop_queued_motion-Inv (quarantined-Inv v))

close_begin-Inv : (s : State) → Inv s → Inv (close_begin s)
unfolding close_begin
close_begin-Inv s v = ground (arith, v, drop_queue-Inv (closed-Inv v) IoStatus.cancelled false)

-- One critical section of any thread keeps the invariant.
pub Step-Inv : {s u : State} → Step s u → Inv s → Inv u
Step-Inv (Step.admit_request now op cancel deadline h) v = admit-Inv v now op cancel deadline h
Step-Inv {s} (Step.give_up id op has_cancel started f h) v =
    rw h (timed_out-Inv id op has_cancel started s v f)
Step-Inv {s} (Step.take idle h) v = rw h (take_front-Inv v s.queue refl)
Step-Inv (Step.finish now events answer h) v = rw h (finish_request-Inv v now events answer)
Step-Inv (Step.preempt h) v = preemptive_begin-Inv v h
Step-Inv {s} (Step.preempt_return h) v = rw h (preemptive_return-Inv s v)
Step-Inv {s} (Step.preempt_timeout h) v = rw h (preemptive_timeout-Inv s v)
Step-Inv {s} (Step.preempt_finish answer h) v = rw h (preemptive_finish-Inv answer s v)
Step-Inv (Step.recovered confirmed h) v = rw h (recover-Inv v confirmed)
Step-Inv {s} (Step.close h) v = rw h (close_begin-Inv s v)

create-Inv : (max_operations max_reads : ℕ) → Inv (create max_operations max_reads)
unfolding create
create-Inv max_operations max_reads = ground arith

Reach-Inv : {s u : State} → Inv s → Reach s u → Inv u
Reach-Inv v Reach.here = v
Reach-Inv v (Reach.next r st) = Step-Inv st (Reach-Inv v r)

-- In every interleaving from a new scheduler: the read counter is the number of queued reads and
-- keeps to its limit, the queued reads and actions keep to theirs, a stop stands only at the front
-- of the queue, and the pending-stop mark names exactly that stop.
pub scheduler_Inv :
    (max_operations max_reads : ℕ) (u : State) → Reach (create max_operations max_reads) u → Inv u
scheduler_Inv max_operations max_reads u r = Reach-Inv (create-Inv max_operations max_reads) r
