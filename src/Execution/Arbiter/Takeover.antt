-- ===== src/Execution/Arbiter/Takeover.antt =====
-- What the operator's methods and the task methods achieve, by the port's answer to the hold.
use embodi_run.Base.{
  ℕ, ◌≡◌, ◌≢◌, ◌↔◌, if◌then◌else◌, ◌++◌, map, true, false, Option, none, some, [], String, arith,
  ok, is_some, same_id,
}
use embodi_run.Execution.Arbiter.State.{
  State, AuthorityState, model_authority, manual_authority, estop_latched, cancel_ticket,
  has_manual_source, settle_pending,
}
use embodi_run.Execution.Ticket.{cleared, settle}
use embodi_run.Execution.Arbiter.Authority.{
  acquire_manual, release_manual, set_deadman, watch_deadman, heartbeat_expired,
}
use embodi_run.Execution.Arbiter.Stops.{PortAnswer, raised, returned}
use embodi_run.Execution.Arbiter.Worker.{take_turn, dispatched}
use embodi_run.Execution.Arbiter.Methods.{cancel_automatic_work, finish_automatic_work}

-- Nothing waits and nobody holds the deadman.
abbrev pub IsCleared : {A : Type 0} → State A → Type 0
IsCleared s =
    (s.model_queue ≡ [])
    × (s.manual_pending ≡ none)
    × (s.deadman_active ≡ false)
    × (s.hold_in_progress ≡ false)

-- The authority after a hold with the error `e`.
abbrev pub held_authority : Option String → AuthorityState → AuthorityState
held_authority none a = a
held_authority (some e) a = estop_latched

module _ {A : Type 0} where
  -- A takeover with no other hold in flight ends with every waiting command cleared and the active
  -- ticket's event set; the authority is manual if the port confirmed the hold, and the emergency
  -- stop is latched if it did not.
  pub acquire_manual_outcome :
      (answer : PortAnswer) (s u : State A) (e : Option String)
      → s.hold_in_progress ≡ false
      → acquire_manual answer s ≡ ok (u, e)
      → IsCleared u
        × (u.active ≡ cancel_ticket s.active)
        × (u.authority ≡ held_authority e manual_authority)
  unfolding acquire_manual
  acquire_manual_outcome (raised x) s u e free h = ground arith
  acquire_manual_outcome (returned r) s u e free h = ground arith

  -- A release gives the robot back to the model only if the port confirmed the hold; otherwise the
  -- emergency stop is latched. In both cases no manual command is left and the deadman is off.
  pub release_manual_outcome :
      (answer : PortAnswer) (s u : State A) (e : Option String)
      → release_manual answer s ≡ ok (u, e)
      → (u.manual_pending ≡ none)
        × (u.deadman_active ≡ false)
        × (u.hold_in_progress ≡ false)
        × (u.authority ≡ held_authority e model_authority)
        × (u.model_queue ≡ (if is_some e then [] else s.model_queue))
  unfolding release_manual
  release_manual_outcome (raised x) s u e h = ground arith
  release_manual_outcome (returned r) s u e h = ground arith

  -- Letting the deadman go clears the waiting manual command and hands it back as cleared; with the
  -- hold confirmed the authority stays manual, and otherwise the emergency stop is latched and the
  -- automatic commands are cleared, too.
  pub deadman_release_outcome :
      (now : ℕ) (answer : PortAnswer) (s u : State A) (e : Option String)
      → set_deadman now false answer s ≡ ok (u, e)
      → (u.manual_pending ≡ none)
        × (u.deadman_active ≡ false)
        × (u.hold_in_progress ≡ false)
        × (u.authority ≡ held_authority e manual_authority)
        × (u.settled
            ≡ map (settle cleared none none) (if is_some e then s.model_queue else [])
              ++ settle_pending cleared s.manual_pending s.settled)
  unfolding set_deadman
  deadman_release_outcome now (raised x) s u e h = ground arith
  deadman_release_outcome now (returned r) s u e h = ground arith

  -- The watchdog acts exactly when an open arbiter under manual authority has a held deadman whose
  -- heartbeat is a whole timeout old.
  pub watchdog_iff :
      (now : ℕ) (s : State A)
      → ((watch_deadman now s).1 ≡ true) ↔ (
          (s.closed ≡ false)
          × (s.authority ≡ manual_authority)
          × (s.deadman_active ≡ true)
          × (heartbeat_expired s.manual_deadman_timeout s.manual_heartbeat now ≡ true))
  unfolding watch_deadman
  watchdog_iff now s = ground arith

  -- When the watchdog acts, it drops the deadman, hands the waiting manual command back as cleared,
  -- and sets the event of an active manual one; the worker's next turn then dispatches nothing.
  pub watchdog_effects :
      (now later : ℕ) (s u : State A)
      → watch_deadman now s ≡ (u, true)
      → (u.deadman_active ≡ false)
        × (u.manual_pending ≡ none)
        × (u.settled ≡ settle_pending cleared s.manual_pending s.settled)
        × (u.active ≡ (if has_manual_source s.active then cancel_ticket s.active else s.active))
        × ((take_turn later u).1 ≢ dispatched)
  unfolding watch_deadman take_turn
  watchdog_effects now later s u h = ground arith

  -- A cleanup that names a task other than the current one changes nothing, whether it cancels or
  -- finishes, and holds nothing.
  pub stale_cleanup :
      (t : ℕ) (answer : PortAnswer) (s : State A)
      → s.closed ≡ false
      → same_id (some t) s.model_task_cancel ≡ false
      → (cancel_automatic_work (some t) answer s ≡ ok (s, none))
        × (finish_automatic_work (some t) answer s ≡ ok (s, none))
  unfolding cancel_automatic_work finish_automatic_work
  stale_cleanup t (raised x) s o n = ground arith
  stale_cleanup t (returned r) s o n = ground arith

  -- A task that finishes under model authority with its hold confirmed is detached, and its event is
  -- not set by that; with the hold not confirmed it stays attached, its event is set, and the
  -- emergency stop is latched.
  pub finish_task_outcome :
      (t : ℕ) (answer : PortAnswer) (s u : State A) (e : Option String)
      → s.authority ≡ model_authority
      → s.model_task_cancel ≡ some t
      → s.token_set t ≡ false
      → finish_automatic_work (some t) answer s ≡ ok (u, e)
      → (u.model_queue ≡ [])
        × (u.hold_in_progress ≡ false)
        × (u.model_task_cancel ≡ (if is_some e then some t else none))
        × (u.token_set t ≡ is_some e)
        × (u.authority ≡ held_authority e model_authority)
  unfolding finish_automatic_work
  finish_task_outcome t (raised x) s u e m c f h = ground arith
  finish_task_outcome t (returned r) s u e m c f h = ground arith

  -- A cancellation of the current task under model authority sets the task's event and clears the
  -- queue, whatever the port answers.
  pub cancel_task_outcome :
      (t : ℕ) (answer : PortAnswer) (s u : State A) (e : Option String)
      → s.authority ≡ model_authority
      → s.model_task_cancel ≡ some t
      → cancel_automatic_work (some t) answer s ≡ ok (u, e)
      → (u.token_set t ≡ true)
        × (u.model_queue ≡ [])
        × (u.hold_in_progress ≡ false)
        × (u.authority ≡ held_authority e model_authority)
  unfolding cancel_automatic_work
  cancel_task_outcome t (raised x) s u e m c h = ground arith
  cancel_task_outcome t (returned r) s u e m c h = ground arith
