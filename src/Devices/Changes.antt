-- ===== src/Devices/Changes.antt =====
-- What an event may do to the records of a device manager (src/embodirun/devices/lifecycle.py), less the
-- reasons: the invariants are proved for each of these changes.
use embodi_run.Base.{
  ℕ, suc, ◌-◌, ◌≡◌, ◌⊎◌, Bool, true, false, ◌&&◌, Option, none, some, List, [], ◌∷◌, String, ◌==◌,
  length,
}
use embodi_run.Base.Dict.{Dict, lookup, insert, erase}
use embodi_run.Devices.Types.{
  Identity, identity_eq, PhysicalKey, Entry, DeviceState, uncertain, is_uncertain, DeviceFault,
  closer_pending, is_released,
}
use embodi_run.Devices.Manager.{Manager}
use embodi_run.Devices.Acquire.{Request, locks_for}
use embodi_run.Devices.Close.{has_token, remove_token, release_locks}
use embodi_run.Devices.Events.{Event, is_end}

-- What stays of a record that no lease begins or ends on.
pub record SameLeases (e e' : Entry) : Type 0 where
  pub serial : e'.serial ≡ e.serial
  pub resource : e'.resource ≡ e.resource
  pub locks : e'.locks ≡ e.locks
  pub references : e'.references ≡ e.references
  pub leases : e'.leases ≡ e.leases
  pub still_closing : e.closing ≡ true → e'.closing ≡ true
  pub closing_end : is_released e'.closing_end ≡ is_released e.closing_end
  pub doubt : (e'.state ≡ uncertain) ⊎ (e'.state ≡ e.state)

abbrev pub held_over : Entry → Bool
held_over e = (e.references == 0) && is_uncertain e.state

-- The entries that the changes leave.
abbrev pub with_lease : ℕ → Bool → Bool → DeviceState → Option String → Entry → Entry
with_lease nt p c s x e = record e {
  prepared = p;
  state = s;
  error = x;
  closing = c;
  references = suc e.references;
  leases = nt ∷ e.leases;
}

abbrev pub without_lease : ℕ → Entry → Entry
without_lease token e = record e {
  leases = remove_token token e.leases;
  references = e.references - 1;
}

abbrev pub stuck_entry : Option DeviceFault → Entry → Entry
stuck_entry y e = record e {
  references = 0;
  leases = [];
  state = uncertain;
  closing = false;
  close_error = y;
  closing_end = closer_pending;
}

abbrev pub new_entry :
    ℕ → Request → List PhysicalKey → List ℕ → Bool → DeviceState → Option String → Bool → Entry
new_entry ns r ls leases p s x b = record {
  serial = ns;
  resource = r.resource;
  locks = ls;
  references = length leases;
  prepared = p;
  state = s;
  error = x;
  uncertain_before = b;
  leases = leases;
  closing = false;
  close_error = none;
  closing_end = closer_pending;
}

-- The records, the next token and the next serial after an event.
pub data Change (ev : Event) (d : Dict Identity Entry) (nt ns : ℕ)
    : Dict Identity Entry → ℕ → ℕ → Type 0 where
  kept : Change ev d nt ns d nt ns
  altered :
      (i : Identity) (e e' : Entry)
      → lookup i d ≡ some e
      → SameLeases e e'
      → Change ev d nt ns (insert i e' d) nt ns
  granted :
      (i : Identity) (e : Entry) (p c : Bool) (s : DeviceState) (x : Option String)
      → lookup i d ≡ some e
      → e.closing ≡ false
      → held_over e ≡ false
      → Change ev d nt ns (insert i (with_lease nt p c s x e) d) (suc nt) ns
  dropped :
      (i : Identity) (e : Entry) (token : ℕ)
      → lookup i d ≡ some e
      → has_token token e.leases ≡ true
      → Change ev d nt ns (insert i (without_lease token e) d) nt ns
  stuck :
      (i : Identity) (e : Entry) (y : Option DeviceFault)
      → lookup i d ≡ some e
      → is_released e.closing_end ≡ false
      → Change ev d nt ns (insert i (stuck_entry y e) d) nt ns
  unlocked :
      (i : Identity) (e : Entry)
      → lookup i d ≡ some e
      → e.closing ≡ true
      → is_end i ev ≡ true
      → Change ev d nt ns (insert i (release_locks e) d) nt ns
  ended :
      (i : Identity) (e : Entry)
      → lookup i d ≡ some e
      → is_released e.closing_end ≡ true
      → Change ev d nt ns (erase i d) nt ns
  first_lease :
      (r : Request) (ls : List PhysicalKey) (s : DeviceState) (p b : Bool)
      → lookup r.resource.identity d ≡ none
      → locks_for r d ≡ some ls
      → Change ev d nt ns
          (insert r.resource.identity (new_entry ns r ls (nt ∷ []) p s none b) d)
          (suc nt)
          (suc ns)
  abandoned :
      (r : Request) (ls : List PhysicalKey) (x : Option String)
      → lookup r.resource.identity d ≡ none
      → locks_for r d ≡ some ls
      → Change ev d nt ns
          (insert r.resource.identity (new_entry ns r ls [] false uncertain x true) d)
          nt
          (suc ns)

-- From the first manager to the second.
abbrev pub To : Event → Manager → Manager → Type 0
To ev m m' = Change ev m.records m.next_token m.next_serial m'.records m'.next_token m'.next_serial

pub record Leads {B : Type 0} (ev : Event) (m : Manager) (x : Manager × B) : Type 0 where
  pub change : To ev m x.0
