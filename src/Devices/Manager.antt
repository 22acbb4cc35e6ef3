-- ===== src/Devices/Manager.antt =====
-- The fields of `DeviceManager` of src/embodirun/devices/lifecycle.py, its process locks, and the
-- operator's two calls on unresolved failures.
use embodi_run.Base.{
  ℕ, Bool, true, false, ◌||◌, ◌&&◌, not, Option, none, some, List, [], ◌∷◌, String, if◌then◌else◌,
}
use embodi_run.Base.Dict.{Dict, lookup, insert, erase}
use embodi_run.Devices.Types.{
  Identity, identity_eq, PhysicalKey, physical_key, physical_beq, Entry, identities, uncertain,
}
use embodi_run.Devices.Ledger.{
  Ledger, unreadable, entries, is_readable, mark_all, clear, refresh, insert_all,
}

-- `ledger` is the file, which other processes may write as well.
pub record Manager : Type 0 where
  pub node_id : String
  pub ledger : Ledger
  pub records : Dict Identity Entry
  pub unresolved : Dict Identity String
  pub next_token : ℕ
  pub next_serial : ℕ
  pub closed : Bool

-- `__init__`
unfoldable pub create : String → Ledger → Manager
create node ledger = record {
  node_id = node;
  ledger = ledger;
  records = [];
  unresolved = elim ledger [ unreadable why ↦ [] | entries d ↦ d ];
  next_token = 1;
  next_serial = 0;
  closed = false;
}

abbrev pub has_key : PhysicalKey → List PhysicalKey → Bool
has_key p [] = false
has_key p (q ∷ qs) = physical_beq q p || has_key p qs

-- Does a record of this process hold the lock?
abbrev pub is_locked : PhysicalKey → Dict Identity Entry → Bool
is_locked p [] = false
is_locked p ((i, e) ∷ d) = has_key p e.locks || is_locked p d

-- The loop of `acquire` over the identities, each lock tried once: `free` says which locks no other
-- process holds. On a failure the locks taken so far are released.
unfoldable pub take_locks :
    (PhysicalKey → Bool)
    → List Identity
    → List PhysicalKey
    → Dict Identity Entry
    → Option (List PhysicalKey)
take_locks free [] taken d = some taken
take_locks free (i ∷ is) taken d =
    let p = physical_key i in
    let rest = take_locks free is (p ∷ taken) d in
    if free p && (not (is_locked p d) && not (has_key p taken)) then rest else none

abbrev pub refresh_unresolved : Manager → Manager
refresh_unresolved m = record m { unresolved = refresh m.node_id m.ledger }

-- `clear_uncertainty`; the answer is whether the file could be read.
unfoldable pub clear_uncertainty : Identity → Manager → Manager × Bool
clear_uncertainty i m =
    let r = refresh_unresolved m in
    if is_readable m.ledger
    then (record r { unresolved = erase i r.unresolved; ledger = clear i m.ledger }, true)
    else (r, false)

abbrev pub mark_entry : String → Entry → Entry
mark_entry reason e = record e { state = uncertain; error = some reason; uncertain_before = true }

abbrev pub mark_record :
    Identity → String → Option Entry → Dict Identity Entry → Dict Identity Entry
mark_record i reason none d = d
mark_record i reason (some e) d = insert i (mark_entry reason e) d

abbrev pub marked_identities : Identity → Option Entry → List Identity
marked_identities i none = i ∷ []
marked_identities i (some e) = identities e.resource

abbrev first_only : List Identity → List Identity
first_only [] = []
first_only (i ∷ is) = i ∷ []

-- `mark_uncertain`; on an unreadable file it raises after its first entry.
unfoldable pub mark_uncertain : Identity → String → Manager → Manager × Bool
mark_uncertain i reason m =
    let is = marked_identities i (lookup i m.records) in
    if is_readable m.ledger
    then (
      record m {
        unresolved = insert_all is reason m.unresolved;
        ledger = mark_all is reason m.ledger;
        records = mark_record i reason (lookup i m.records) m.records;
      },
      true,
    )
    else (record m { unresolved = insert_all (first_only is) reason m.unresolved }, false)
