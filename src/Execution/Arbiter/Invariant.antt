-- ===== src/Execution/Arbiter/Invariant.antt =====
-- What holds of the arbiter between any two critical sections, however they interleave.
use embodi_run.Base.{
  ◌≤◌, ◌≡◌, Bool, true, false, Option, none, some, List, [], ◌∷◌, ◌++◌, map, String, arith, length,
  All, is_some,
}
use embodi_run.Execution.Io.{IoResult}
use embodi_run.Execution.Ticket.{CommandStatus, queued, is_automatic, is_terminal, Ticket, settle}
use embodi_run.Execution.Arbiter.State.{State, estop_latched, settle_pending}

-- A waiting ticket has not started, and has the kind of source of its place.
abbrev pub Waits : {A : Type 0} → Bool → Ticket A → Type 0
Waits automatic t = (t.status ≡ queued) × (is_automatic t.envelope.source ≡ automatic)

abbrev pub Ended : {A : Type 0} → Ticket A → Type 0
Ended t = is_terminal t.status ≡ true

abbrev pub IsEmpty : {A : Type 0} → State A → Type 0
IsEmpty s = (s.model_queue ≡ []) × (s.manual_pending ≡ none) × (s.deadman_active ≡ false)

abbrev pub PendingWaits : {A : Type 0} → Option (Ticket A) → Type 0
PendingWaits none = Unit
PendingWaits (some t) = Waits false t

pub record Inv {A : Type 0} (s : State A) : Type 0 where
  pub fits : length s.model_queue ≤ s.model_queue_capacity
  pub latched_empty : s.authority ≡ estop_latched → IsEmpty s
  pub closed_empty : s.closed ≡ true → IsEmpty s
  pub beats : s.deadman_active ≡ is_some s.manual_heartbeat
  pub queue_waits : All (Waits true) s.model_queue
  pub pending_waits : PendingWaits s.manual_pending
  pub settled_ended : All Ended s.settled

module _ {A : Type 0} where
  settle-Ended :
      (st : CommandStatus) (e : Option String) (r : Option IoResult) (t : Ticket A)
      → is_terminal st ≡ true
      → Ended (settle st e r t)
  unfolding settle
  settle-Ended st e r t h = ground arith

  pub map-settle-Ended :
      (st : CommandStatus) (q out : List (Ticket A))
      → is_terminal st ≡ true
      → All Ended out
      → All Ended (map (settle st none none) q ++ out)
  map-settle-Ended st [] out h k = k
  map-settle-Ended st (t ∷ q) out h k =
      (settle-Ended st none none t h, map-settle-Ended st q out h k)

  pub settle_pending-Ended :
      (st : CommandStatus) (p : Option (Ticket A)) (out : List (Ticket A))
      → is_terminal st ≡ true
      → All Ended out
      → All Ended (settle_pending st p out)
  settle_pending-Ended st none out h k = k
  settle_pending-Ended st (some t) out h k = (settle-Ended st none none t h, k)
