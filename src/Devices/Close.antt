-- ===== src/Devices/Close.antt =====
-- The end of a lease and of a record, `_release`, `_close_record_once`, `_close_record` and `close` of
-- src/embodirun/devices/lifecycle.py. Each operation here is a part that holds the manager's lock, or
-- the part that runs without it, `end_closer`: the closer, its markers, and the release of the
-- process locks. What that part does after the closer, the release of the locks one by one included,
-- is taken as one step, and a release does not raise.
use embodi_run.Base.{
  ℕ, ◌-◌, Bool, true, false, ◌||◌, Option, none, some, List, [], ◌∷◌, String, ◌==◌, if◌then◌else◌,
}
use embodi_run.Base.Dict.{Dict, lookup, insert, erase}
use embodi_run.Devices.Types.{
  Identity, identity_eq, Entry, identities, uncertain, DeviceFault, close_failed, close_unrecorded,
  closer_pending, locks_released, closer_raised, ClosingEnd, Answer, done, failed,
}
use embodi_run.Devices.Ledger.{error_of, mark_all, clear_all, insert_all, erase_all}
use embodi_run.Devices.Manager.{Manager}

abbrev pub has_token : ℕ → List ℕ → Bool
has_token t [] = false
has_token t (x ∷ xs) = (x == t) || has_token t xs

abbrev pub remove_token : ℕ → List ℕ → List ℕ
remove_token t [] = []
remove_token t (x ∷ xs) = let rest = remove_token t xs in if x == t then rest else x ∷ rest

-- A lease that a record has ends; the answer is the record to close, if it was the last one. The
-- count is not 0 here: a record counts its leases.
abbrev pub drop_lease : Identity → ℕ → Entry → Manager → Manager × Option ℕ
drop_lease i token e m =
    let left = e.references - 1 in
    let e' = record e { leases = remove_token token e.leases; references = left } in
    (record m { records = insert i e' m.records }, if left == 0 then some e.serial else none)

-- The locked part of `_release`.
abbrev pub release_from : Option Entry → Identity → ℕ → Manager → Manager × Option ℕ
release_from none i token m = (m, none)
release_from (some e) i token m =
    if has_token token e.leases then drop_lease i token e m else (m, none)

unfoldable pub release : Identity → ℕ → Manager → Manager × Option ℕ
release i token m = release_from (lookup i m.records) i token m

-- `gone` also where another record has the key; in flight, the caller waits for that closing.
pub data Closing : Type 0 where
  gone in_flight started : Closing

abbrev pub start_closing : Identity → Entry → Manager → Manager
start_closing i e m = record m {
  records = insert i (record e { closing = true; close_error = none }) m.records;
}

-- The first locked part of `_close_record_once`.
abbrev pub begin_close_of : Option Entry → Identity → ℕ → Manager → Manager × Closing
begin_close_of none i serial m = (m, gone)
begin_close_of (some e) i serial m =
    if e.serial == serial
    then if e.closing then (m, in_flight) else (start_closing i e m, started)
    else (m, gone)

unfoldable pub begin_close : Identity → ℕ → Manager → Manager × Closing
begin_close i serial m = begin_close_of (lookup i m.records) i serial m

-- What one that waited finds afterwards.
unfoldable pub waited_close : Identity → ℕ → Manager → Option DeviceFault
waited_close i serial m = elim (lookup i m.records) [
  | none ↦ none
  | some e ↦ if e.serial == serial then e.close_error else none
]

-- The record stays, with its locks and without leases.
abbrev pub keep_failed : Identity → Entry → DeviceFault → Manager → Manager
keep_failed i e fault m = record m {
  records =
      insert i
        (record e {
          references = 0;
          state = uncertain;
          leases = [];
          closing = false;
          close_error = some fault;
          closing_end = closer_pending;
        })
        m.records;
}

-- `_close_record` when the closer raised. An unreadable ledger is kept as it is; what the error says
-- of it is left out.
abbrev pub closer_failed : Identity → Entry → String → Manager → Manager
closer_failed i e reason m =
    let is = identities e.resource in
    let e' = record e {
      state = uncertain;
      error = some reason;
      closing_end = closer_raised (close_failed reason);
    } in
    record m {
      records = insert i e' m.records;
      unresolved = insert_all is reason m.unresolved;
      ledger = mark_all is reason m.ledger;
    }

-- The loop of `_close_record_once` that releases the record's process locks, before the manager's
-- lock is taken again.
abbrev pub release_locks : Entry → Entry
release_locks e = record e { locks = []; closing_end = locks_released }

-- `_close_record` when the closer is done and no failure was on record before, then the release of
-- the locks: the markers are cleared, unless the ledger cannot be read.
abbrev pub clear_markers : Option String → Identity → Entry → Manager → Manager
clear_markers none i e m =
    let is = identities e.resource in
    record m {
      records = insert i (release_locks e) m.records;
      unresolved = erase_all is m.unresolved;
      ledger = clear_all is m.ledger;
    }
clear_markers (some why) i e m =
    let e' = record e {
      state = uncertain;
      error = some why;
      uncertain_before = true;
      closing_end = closer_raised (close_unrecorded why);
    } in
    record m {
      records = insert i e' m.records;
      unresolved = erase_all (identities e.resource) m.unresolved;
    }

-- The part of `_close_record_once` outside the manager's lock, by the closer's answer.
abbrev pub end_closer_of : Option Entry → Identity → Answer → Manager → Manager
end_closer_of none i answer m = m
end_closer_of (some e) i (failed reason) m = closer_failed i e reason m
end_closer_of (some e) i done m =
    if e.uncertain_before
    then record m { records = insert i (release_locks e) m.records }
    else clear_markers (error_of m.ledger) i e m

-- A record that is closing keeps its key, so there is one.
unfoldable pub end_closer : Identity → Answer → Manager → Manager
end_closer i answer m = end_closer_of (lookup i m.records) i answer m

-- The last locked part of `_close_record_once`: the record goes, or stays with the error. It does not
-- run before the closer's end, so the first clause does not occur.
abbrev pub settle_record : ClosingEnd → Identity → Entry → Manager → Manager × Option DeviceFault
settle_record closer_pending i e m = (m, none)
settle_record locks_released i e m = (record m { records = erase i m.records }, none)
settle_record (closer_raised fault) i e m = (keep_failed i e fault m, some fault)

abbrev pub settle_close_of : Option Entry → Identity → Manager → Manager × Option DeviceFault
settle_close_of none i m = (m, none)
settle_close_of (some e) i m = settle_record e.closing_end i e m

unfoldable pub settle_close : Identity → Manager → Manager × Option DeviceFault
settle_close i m = settle_close_of (lookup i m.records) i m

-- Both parts, where nothing happens between them.
abbrev pub finish_close : Identity → Answer → Manager → Manager × Option DeviceFault
finish_close i answer m = settle_close i (end_closer i answer m)

abbrev pub serials : Dict Identity Entry → List (Identity × ℕ)
serials [] = []
serials ((i, e) ∷ d) = (i, e.serial) ∷ serials d

-- The locked part of the manager's `close`: the records that it closes next, one by one.
unfoldable pub close : Manager → Manager × List (Identity × ℕ)
close m = (record m { closed = true }, serials m.records)
