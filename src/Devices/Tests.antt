-- ===== src/Devices/Tests.antt =====
-- The device manager's theorems at a concrete arm.
use embodi_run.Base.{◌≡◌, refl, Bool, true, false, none, some, List, [], ◌∷◌}
use embodi_run.Base.Dict.{lookup, insert}
use embodi_run.Devices.Types.{
  identity_eq, Identity, physical_key, Resource, Entry, opened, done, failed, prepared,
  closer_pending,
}
use embodi_run.Devices.Ledger.{entries}
use embodi_run.Devices.Manager.{Manager, create, take_locks, refresh_unresolved}
use embodi_run.Devices.Ledger.{refresh, relabel, reason_of}
use embodi_run.Devices.Acquire.{Request, leased, acquire, acquire_existing, open_new}
use embodi_run.Devices.Close.{release, begin_close, started, finish_close}
use embodi_run.Devices.Events.{Event, acquired, released, close_begun, happen, run}
use embodi_run.Devices.Sound.{AllSound, records_sound}
use embodi_run.Devices.Exclusive.{one_owner}
use embodi_run.Devices.Held.{is_raised}
use embodi_run.Devices.Markers.{restart_blocks_prepare}

abbrev arm : Identity
arm = record { node = "n"; kind = "serial"; value = "tty0" }

abbrev hand : Identity
hand = record { node = "n"; kind = "serial"; value = "tty1" }

abbrev both : Resource
both = record { identity = arm; external_owner = false; components = hand ∷ [] }

abbrev request : Bool → Request
request prepare = record {
  resource = both;
  prepare = prepare;
  value_unprepared = false;
  free = λ _. true;
  opening = done;
  preparing = prepared;
  cleanup = done;
}

abbrev arm_entry : Entry
arm_entry = record {
  serial = 0;
  resource = both;
  locks = physical_key hand ∷ physical_key arm ∷ [];
  references = 1;
  prepared = false;
  state = opened;
  error = none;
  uncertain_before = false;
  leases = 1 ∷ [];
  closing = false;
  close_error = none;
  closing_end = closer_pending;
}

abbrev opened_manager : Manager
opened_manager = run (acquired (request false) ∷ []) (create "n" (entries []))

arm_found : lookup arm opened_manager.records ≡ some arm_entry
unfolding create happen acquire open_new take_locks refresh relabel reason_of lookup insert
arm_found = refl

records_sound_example : AllSound (
    run
      (acquired (request false) ∷ acquired (request false) ∷ released arm 1 ∷ [])
      (create "n" (entries [])))
records_sound_example =
    records_sound "n" (entries [])
      (acquired (request false) ∷ acquired (request false) ∷ released arm 1 ∷ [])

one_owner_example : arm ≡ arm
one_owner_example =
    one_owner "n" (entries []) (acquired (request false) ∷ []) (physical_key hand) arm arm arm_entry
      arm_entry arm_found arm_found refl refl

restart_blocks_prepare_example :
    let l = (finish_close arm (failed "torque") opened_manager).0.ledger in
    ((acquire (request true) (create "n" l)).0 ≡ refresh_unresolved (create "n" l))
    × (is_raised (acquire (request true) (create "n" l)).1 ≡ true)
restart_blocks_prepare_example =
    restart_blocks_prepare opened_manager arm arm_entry "torque" "n" (request true) hand arm_found
      refl refl refl refl

abbrev closing_events : List Event
closing_events = acquired (request false) ∷ released arm 1 ∷ close_begun arm 0 ∷ []

abbrev closing_manager : Manager
closing_manager = run closing_events (create "n" (entries []))

abbrev closing_entry : Entry
closing_entry = record arm_entry { references = 0; leases = []; closing = true }

-- Between the end of the last lease and the closing, another thread gets a lease on the record that
-- is then closed.
abbrev released_manager : Manager
released_manager = (release arm 1 opened_manager).0

lease_on_closing_record :
    ((acquire (request false) released_manager).1 ≡ leased 2)
    × ((begin_close arm 0 (acquire (request false) released_manager).0).1 ≡ started)
unfolding create happen acquire open_new take_locks refresh relabel reason_of lookup insert release
    begin_close acquire_existing
lease_on_closing_record = (refl, refl)
