-- ===== src/Devices/Held.antt =====
-- A device whose closer failed (src/embodirun/devices/lifecycle.py): its record and locks stay, and no
-- lease is given, until a later closing succeeds.
use embodi_run.Base.{◌≡◌, Bool, true, false, some, List, []}
use embodi_run.Base.Dict.{Dict, lookup}
use embodi_run.Devices.Types.{Identity, identity_eq, PhysicalKey, Entry, uncertain, is_released}
use embodi_run.Devices.Manager.{Manager}
use embodi_run.Devices.Acquire.{Outcome, leased, raised}

-- A record without leases, in doubt, with these locks, which a closing has not released.
pub record Idle (ls : List PhysicalKey) (e : Entry) : Type 0 where
  pub unused : e.references ≡ 0
  pub unleased : e.leases ≡ []
  pub doubt : e.state ≡ uncertain
  pub locks : e.locks ≡ ls
  pub unreleased : is_released e.closing_end ≡ false

pub record Held (ls : List PhysicalKey) (i : Identity) (d : Dict Identity Entry) : Type 0 where
  pub entry : Entry
  pub found : lookup i d ≡ some entry
  pub idle : Idle ls entry

-- No lease is given on such a record.
abbrev pub is_raised : Outcome → Bool
is_raised (raised f) = true
is_raised (leased t) = false
