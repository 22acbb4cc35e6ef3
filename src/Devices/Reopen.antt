-- ===== src/Devices/Reopen.antt =====
-- A device that was closed without an error can be opened again (src/embodirun/devices/lifecycle.py).
use embodi_run.Base.{◌≡◌, Bool, true, false, List, [], ◌∷◌, All}
use embodi_run.Base.Dict.{Dict, insert, erase}
use embodi_run.Devices.Types.{Identity, identity_eq, PhysicalKey, physical_key, physical_beq, Entry}
use embodi_run.Devices.Ledger.{Ledger}
use embodi_run.Devices.Manager.{Manager, has_key, is_locked}
use embodi_run.Devices.Acquire.{Outcome, leased, raised}
use embodi_run.Devices.Close.{release_locks}
use embodi_run.Devices.Sound.{Sound}

-- No two of the identities share a physical key.
abbrev pub DistinctKeys : List Identity → Type 0
DistinctKeys [] = Unit
DistinctKeys (i ∷ is) =
    All (λ j. physical_beq (physical_key i) (physical_key j) ≡ false) is × DistinctKeys is

abbrev Unlocked : List PhysicalKey → Dict Identity Entry → List Identity → Type 0
Unlocked taken d is =
    All (λ j. (is_locked (physical_key j) d ≡ false) × (has_key (physical_key j) taken ≡ false)) is

abbrev pub is_leased : Outcome → Bool
is_leased (leased t) = true
is_leased (raised f) = false

-- What a clean closing leaves.
record Cleared (i : Identity) (m n : Manager) : Type 0 where
  no_record : n.records ≡ erase i m.records
  same_closed : n.closed ≡ m.closed

-- What a clean end of the closer leaves: the closing record, without its locks.
record Unlocking (i : Identity) (e : Entry) (m n : Manager) : Type 0 where
  unlocked_record : n.records ≡ insert i (release_locks e) m.records
  closed_before : n.closed ≡ m.closed
