-- ===== src/Devices/Ledger.antt =====
-- `DeviceStateStore` of src/embodirun/devices/lifecycle.py: the file of unresolved failures, and the
-- manager's copy of it.
use embodi_run.Base.{Bool, true, false, Option, none, some, List, [], ◌∷◌, String, if◌then◌else◌}
use embodi_run.Base.Dict.{Dict, lookup, insert, erase}
use embodi_run.Devices.Types.{Identity, identity_eq, physical_key, physical_beq}

-- The file is unreadable, with what is wrong with it, or has the unresolved failures of this and other processes.
pub data Ledger : Type 0 where
  unreadable : String → Ledger
  entries : Dict Identity String → Ledger

abbrev pub is_readable : Ledger → Bool
is_readable (unreadable why) = false
is_readable (entries d) = true

abbrev pub without_physical : Identity → Dict Identity String → Dict Identity String
without_physical i [] = []
without_physical i ((j, e) ∷ d) =
    let rest = without_physical i d in
    if physical_beq (physical_key j) (physical_key i) then rest else (j, e) ∷ rest

-- `mark`; an unreadable file is kept, and the call raises.
unfoldable pub mark : Identity → String → Ledger → Ledger
mark i reason (unreadable why) = unreadable why
mark i reason (entries d) = entries (insert i reason (without_physical i d))

unfoldable pub mark_all : List Identity → String → Ledger → Ledger
unfolding mark
mark_all [] reason l = l
mark_all (i ∷ is) reason l = mark_all is reason (mark i reason l)

-- `clear`
unfoldable pub clear : Identity → Ledger → Ledger
clear i (unreadable why) = unreadable why
clear i (entries d) = entries (without_physical i d)

unfoldable pub clear_all : List Identity → Ledger → Ledger
unfolding clear
clear_all [] l = l
clear_all (i ∷ is) l = clear_all is (clear i l)

-- The loop of `_refresh_unresolved`: each entry under the manager's own node label.
unfoldable pub relabel : String → Dict Identity String → Dict Identity String → Dict Identity String
relabel node [] out = out
relabel node ((i, e) ∷ d) out = relabel node d (insert (record i { node = node }) e out)

-- `_refresh_unresolved`
unfoldable pub refresh : String → Ledger → Dict Identity String
unfolding relabel
refresh node (unreadable why) = []
refresh node (entries d) = relabel node d []

-- The first reason that one of the identities has.
unfoldable pub reason_of : List Identity → Dict Identity String → Option String
reason_of [] d = none
reason_of (i ∷ is) d =
    let rest = reason_of is d in elim (lookup i d) [ some e ↦ some e | none ↦ rest ]

unfoldable pub insert_all : List Identity → String → Dict Identity String → Dict Identity String
insert_all [] e d = d
insert_all (i ∷ is) e d = insert_all is e (insert i e d)

unfoldable pub erase_all : List Identity → Dict Identity String → Dict Identity String
erase_all [] d = d
erase_all (i ∷ is) d = erase_all is (erase i d)

-- `state_store.error`
abbrev pub error_of : Ledger → Option String
error_of (unreadable why) = some why
error_of (entries d) = none
