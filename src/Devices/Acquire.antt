-- ===== src/Devices/Acquire.antt =====
-- `DeviceManager.acquire` and `_prepare_record` of src/embodirun/devices/lifecycle.py.
use embodi_run.Base.{
  ℕ, suc, Bool, true, false, ◌&&◌, ◌||◌, not, Option, none, some, List, [], ◌∷◌, String, ◌==◌,
  is_some, if◌then◌else◌,
}
use embodi_run.Base.Dict.{Dict, lookup, insert}
use embodi_run.Devices.Types.{
  Identity, identity_eq, identity_beq, PhysicalKey, Entry, Resource, identities, DeviceState,
  opened, external, uncertain, is_uncertain, DeviceFault, manager_closed, busy_closing, busy_locked,
  conflicting_owner, conflicting_components, still_held, state_unreadable, unresolved_state,
  prepare_refused, prepare_failed, open_failed, Answer, done, failed, PrepareAnswer, prepared,
  refused, prepare_raised, closer_pending,
}
use embodi_run.Devices.Ledger.{is_readable, error_of, mark_all, reason_of, insert_all}
use embodi_run.Devices.Manager.{Manager, take_locks, refresh_unresolved}

-- The arguments of one call, with the answers of the resource's callbacks. `value_unprepared` is the
-- flag `prepared` of an existing value being `False`; `free` says which locks no other process holds.
pub record Request : Type 0 where
  pub resource : Resource
  pub prepare : Bool
  pub value_unprepared : Bool
  pub free : PhysicalKey → Bool
  pub opening : Answer
  pub preparing : PrepareAnswer
  pub cleanup : Answer

pub data Outcome : Type 0 where
  leased : ℕ → Outcome
  raised : DeviceFault → Outcome

abbrev pub same_flag : Bool → Bool → Bool
same_flag true b = b
same_flag false b = not b

abbrev pub same_identities : List Identity → List Identity → Bool
same_identities [] [] = true
same_identities [] (j ∷ js) = false
same_identities (i ∷ is) [] = false
same_identities (i ∷ is) (j ∷ js) = identity_beq i j && same_identities is js

abbrev pub settled_state : Bool → DeviceState
settled_state true = external
settled_state false = opened

-- One more lease on a record.
abbrev pub grant : Identity → Entry → Manager → Manager × Outcome
grant i e m = (
  record m {
    records =
        insert i (record e { references = suc e.references; leases = m.next_token ∷ e.leases })
          m.records;
    next_token = suc m.next_token;
  },
  leased m.next_token,
)

-- `_prepare_record`, then the lease.
abbrev pub prepare_record : PrepareAnswer → Identity → Entry → Manager → Manager × Outcome
prepare_record prepared i e m =
    let state = settled_state e.resource.external_owner in
    grant i (record e { prepared = true; error = none; state = state }) m
prepare_record (refused why) i e m = (m, raised (prepare_refused why))
prepare_record (prepare_raised why) i e m =
    let e' = record e { state = uncertain; error = some why; uncertain_before = true } in
    (
      record m {
        records = insert i e' m.records;
        ledger = mark_all (identities e.resource) why m.ledger;
      },
      raised (prepare_failed why),
    )

abbrev pub needs_prepare : Request → Entry → Bool
needs_prepare r e =
    r.prepare && (not e.prepared || (e.resource.external_owner && r.value_unprepared))

abbrev pub unless_fault : Option DeviceFault → Manager → Manager × Outcome → Manager × Outcome
unless_fault (some fault) m next = (m, raised fault)
unless_fault none m next = next

-- Both guards of an explicit preparation.
abbrev pub unresolved_fault : List Identity → Manager → Option DeviceFault
unresolved_fault is m = elim (error_of m.ledger) [
  | some why ↦ some (state_unreadable why)
  | none ↦ elim (reason_of is m.unresolved) [ some why ↦ some (unresolved_state why) | none ↦ none ]
]

unfoldable pub acquire_existing : Request → Entry → Manager → Manager × Outcome
acquire_existing r e m =
    let i = r.resource.identity in
    if e.closing
    then (m, raised busy_closing)
    else if not (same_flag e.resource.external_owner r.resource.external_owner)
    then (m, raised conflicting_owner)
    else if not (same_identities e.resource.components r.resource.components)
    then (m, raised conflicting_components)
    else if (e.references == 0) && is_uncertain e.state
    then (m, raised still_held)
    else if needs_prepare r e
    then unless_fault (unresolved_fault (identities e.resource) m) m
        (prepare_record r.preparing i e m)
    else grant i e m

-- The opener or the preparer failed; `opened` says that there is a value to close.
abbrev pub abandon : Answer → Request → List PhysicalKey → String → Manager → Manager × Outcome
abandon done r locks why m = (m, raised (open_failed why))
abandon (failed reason) r locks why m =
    let is = identities r.resource in
    (
      record m {
        unresolved = insert_all is reason m.unresolved;
        ledger = mark_all is reason m.ledger;
        records =
            insert r.resource.identity
              (record {
                serial = m.next_serial;
                resource = r.resource;
                locks = locks;
                references = 0;
                prepared = false;
                state = uncertain;
                error = some reason;
                uncertain_before = true;
                leases = [];
                closing = false;
                close_error = none;
                closing_end = closer_pending;
              })
              m.records;
        next_serial = suc m.next_serial;
      },
      raised (open_failed why),
    )

abbrev pub is_suspect : List Identity → Manager → Bool
is_suspect is m = is_some (reason_of is m.unresolved) || not (is_readable m.ledger)

-- The first lease of a new record.
abbrev pub keep_open : Request → List PhysicalKey → Manager → Manager × Outcome
keep_open r locks m =
    let suspect = is_suspect (identities r.resource) m in
    (
      record m {
        records =
            insert r.resource.identity
              (record {
                serial = m.next_serial;
                resource = r.resource;
                locks = locks;
                references = 1;
                prepared = r.prepare;
                state = if suspect then uncertain else settled_state r.resource.external_owner;
                error = none;
                uncertain_before = suspect;
                leases = m.next_token ∷ [];
                closing = false;
                close_error = none;
                closing_end = closer_pending;
              })
              m.records;
        next_token = suc m.next_token;
        next_serial = suc m.next_serial;
      },
      leased m.next_token,
    )

abbrev pub prepare_value : PrepareAnswer → Request → List PhysicalKey → Manager → Manager × Outcome
prepare_value prepared r locks m = keep_open r locks m
prepare_value (refused why) r locks m = abandon r.cleanup r locks why m
prepare_value (prepare_raised why) r locks m = abandon r.cleanup r locks why m

-- With the locks: an opener that failed leaves no value, and the locks are released.
abbrev pub open_value : Answer → Request → List PhysicalKey → Manager → Manager × Outcome
open_value (failed why) r locks m = (m, raised (open_failed why))
open_value done r locks m =
    if r.prepare then prepare_value r.preparing r locks m else keep_open r locks m

abbrev pub open_locked : Option (List PhysicalKey) → Request → Manager → Manager × Outcome
open_locked none r m = (m, raised busy_locked)
open_locked (some locks) r m = open_value r.opening r locks m

abbrev pub locks_for : Request → Dict Identity Entry → Option (List PhysicalKey)
locks_for r d =
    if r.resource.external_owner then some [] else take_locks r.free (identities r.resource) [] d

-- The locks are tried in the order of the keys, and on a failure the ones taken are released, so the
-- order shows in no outcome.
unfoldable pub open_new : Request → Manager → Manager × Outcome
open_new r m =
    unless_fault (if r.prepare then unresolved_fault (identities r.resource) m else none) m
      (open_locked (locks_for r m.records) r m)

abbrev pub acquire_open : Option Entry → Request → Manager → Manager × Outcome
acquire_open (some e) r m = acquire_existing r e m
acquire_open none r m = open_new r m

-- `acquire`
unfoldable pub acquire : Request → Manager → Manager × Outcome
acquire r m =
    if m.closed
    then (m, raised manager_closed)
    else acquire_open (lookup r.resource.identity m.records) r (refresh_unresolved m)
