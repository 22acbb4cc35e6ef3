-- ===== src/Execution/Scheduler/Quarantine.antt =====
-- Quarantine and stops: what the scheduler refuses, what a stop precedes, and what counts as a
-- confirmed stop.
use embodi_run.Base.{
  ℕ, ◌≡◌, ◌≢◌, ◌⊎◌, ◌↔◌, Bool, true, false, Option, none, some, List, [], ◌∷◌, String, arith, All,
}
use embodi_run.Execution.Io.{Operation, IoStatus, is_stop, DriverValue, boolean, mapping}
use embodi_run.Execution.Scheduler.State.{
  Request, State, recover, drop_queue, drop_queued_motion, stop_was_confirmed, retained,
}
use embodi_run.Execution.Scheduler.Admit.{
  Admission, admit, admitted, answered, new_request, timed_out, withdraw, abandon, deadline_passed,
  detach_queued,
}
use embodi_run.Execution.Scheduler.Worker.{
  DriverAnswer, raised, returned, take_request, run_request, finish_request, event_is_set,
}
use embodi_run.Execution.Scheduler.Preemptive.{
  preemptive_begin, preemptive_return, preemptive_timeout, preemptive_finish, close_begin,
}
use embodi_run.Execution.Scheduler.Steps.{Step}

abbrev pub is_recovery : {s u : State} → Step s u → Bool
is_recovery (Step.recovered c h) = true
is_recovery _ = false

pub data Unrecovered (s : State) : State → Type 0 where
  here : Unrecovered s s
  next :
      {t u : State} → Unrecovered s t → (st : Step t u) → is_recovery st ≡ false → Unrecovered s u

Step-quarantined :
    {s u : State} (st : Step s u)
    → is_recovery st ≡ false
    → s.quarantined ≡ true
    → u.quarantined ≡ true
unfolding admit timed_out withdraw abandon drop_queued_motion drop_queue take_request finish_request
    preemptive_begin preemptive_return preemptive_timeout preemptive_finish close_begin
Step-quarantined (Step.admit_request now op cancel deadline h) n q = ground arith
Step-quarantined (Step.give_up id op has_cancel started f h) n q = ground arith
Step-quarantined (Step.take idle h) n q = ground arith
Step-quarantined (Step.finish now events answer h) n q = ground arith
Step-quarantined (Step.preempt h) n q = ground arith
Step-quarantined (Step.preempt_return h) n q = ground arith
Step-quarantined (Step.preempt_timeout h) n q = ground arith
Step-quarantined (Step.preempt_finish answer h) n q = ground arith
Step-quarantined (Step.recovered confirmed h) n q = cc
Step-quarantined (Step.close h) n q = ground arith

Unrecovered-quarantined :
    {s u : State} → s.quarantined ≡ true → Unrecovered s u → u.quarantined ≡ true
Unrecovered-quarantined q Unrecovered.here = q
Unrecovered-quarantined q (Unrecovered.next r st n) =
    Step-quarantined st n (Unrecovered-quarantined q r)

abbrev pub Refused : Admission → Type 0
Refused (admitted u) = ⊥
Refused (answered r) = (r.status ≢ IoStatus.completed) × (r.driver_returned ≡ false)

refuses :
    (now : ℕ) (op : Operation) (cancel deadline : Option ℕ) (s : State)
    → s.quarantined ≡ true
    → is_stop op ≡ false
    → Refused (admit now op cancel deadline s)
unfolding admit
refuses now op cancel deadline s q m = ground arith

-- From a quarantined bus, through every interleaving without a call of `recover`, the bus stays
-- quarantined, and each action or read that is submitted is refused at once: nothing is queued, and
-- the answer claims neither completion nor a driver's return.
pub quarantine_refuses_motion :
    (now : ℕ) (op : Operation) (cancel deadline : Option ℕ) (s u : State)
    → s.quarantined ≡ true
    → Unrecovered s u
    → is_stop op ≡ false
    → (u.quarantined ≡ true) × Refused (admit now op cancel deadline u)
quarantine_refuses_motion now op cancel deadline s u q r m =
    let q' = Unrecovered-quarantined q r in (q', refuses now op cancel deadline u q' m)

-- `recover` lifts a quarantine exactly when its caller confirms the stop, nothing is in flight, and
-- the last stop was confirmed by the driver.
pub recover_iff :
    (confirmed : Bool) (s : State)
    → s.quarantined ≡ true
    → ((recover confirmed s).0.quarantined ≡ false) ↔ (
        (confirmed ≡ true)
        × (s.active ≡ none)
        × (s.preemptive_active ≡ false)
        × (stop_was_confirmed s.last_stop_result ≡ true))
unfolding recover
recover_iff confirmed s q = ground arith

-- The driver's word for a stop.
abbrev pub Confirms : DriverAnswer → Type 0
Confirms (raised e) = ⊥
Confirms (returned (boolean b)) = b ≡ true
Confirms (returned (mapping c)) = c ≡ some true
Confirms (returned _) = ⊥

-- A stop that the worker runs counts as confirmed exactly when the driver was called and returned
-- `True`, or a mapping whose "stop_confirmed" is `True`; no other operation is ever a confirmed stop.
pub confirmed_iff :
    (now : ℕ) (events : ℕ → Bool) (answer : DriverAnswer) (r : Request)
    → ((run_request now events answer r).stop_confirmed ≡ some true) ↔ (
        (is_stop r.operation ≡ true)
        × (deadline_passed r.deadline_s now ≡ false)
        × (event_is_set r.cancel_event events ≡ false)
        × Confirms answer)
unfolding run_request
confirmed_iff now events (raised e) r = ground arith
confirmed_iff now events (returned (boolean b)) r = ground arith
confirmed_iff now events (returned (mapping c)) r = ground arith
confirmed_iff now events (returned DriverValue.nothing) r = ground arith
confirmed_iff now events (returned DriverValue.opaque) r = ground arith

-- A stop that is admitted is the request that an idle worker takes next, before all that was queued.
pub stop_is_next :
    (now : ℕ) (op : Operation) (cancel deadline : Option ℕ) (s u : State)
    → is_stop op ≡ true
    → s.preemptive_active ≡ false
    → admit now op cancel deadline s ≡ admitted u
    → let r = new_request op cancel deadline s.next_id in
      ((take_request u).active ≡ some (record r { started = true }))
      × ((take_request u).queue ≡ s.queue)
unfolding admit take_request
stop_is_next now op cancel deadline s u st p h = ground arith

abbrev pub IsStop : Request → Type 0
IsStop r = is_stop r.operation ≡ true

retained-IsStop : (q : List Request) → All IsStop (retained q)
retained-IsStop [] = tt
retained-IsStop (r ∷ rs) = ground (arith, retained-IsStop rs)

detach_queued-IsStop : (id : ℕ) (q : List Request) → All IsStop q → All IsStop (detach_queued id q)
detach_queued-IsStop id [] h = tt
detach_queued-IsStop id (r ∷ rs) h = ground (arith, detach_queued-IsStop id rs h.1)

-- A caller whose wait times out on a request that has started, or on a stop, is told that the
-- outcome is unknown; the bus is then quarantined and only stops are left in the queue.
pub timeout_quarantines :
    (id : ℕ) (op : Operation) (has_cancel started : Bool) (s : State)
    → (started ≡ true) ⊎ (is_stop op ≡ true)
    → let (u, r) = timed_out id op has_cancel started s in
      (r.status ≡ IoStatus.unknown)
      × (r.quarantined ≡ true)
      × (u.quarantined ≡ true)
      × All IsStop u.queue
unfolding timed_out abandon drop_queued_motion drop_queue
timeout_quarantines id op has_cancel started s h =
    ground (arith, detach_queued-IsStop id (retained s.queue) (retained-IsStop s.queue))

-- A serialized stop whose driver call raises quarantines the bus, but an action that was queued
-- behind it is not dropped: the worker starts it next.
pub failed_stop_runs_motion :
    (now : ℕ) (events : ℕ → Bool) (e : String) (r m : Request) (rest : List Request) (s : State)
    → s.active ≡ some r
    → is_stop r.operation ≡ true
    → r.deadline_s ≡ none
    → r.cancel_event ≡ none
    → s.queue ≡ m ∷ rest
    → m.cancelled ≡ false
    → s.preemptive_active ≡ false
    → let u = finish_request now events (raised e) s in
      (u.quarantined ≡ true) × ((take_request u).active ≡ some (record m { started = true }))
unfolding finish_request take_request
failed_stop_runs_motion now events e r m rest s a st d c q n p = ground arith
