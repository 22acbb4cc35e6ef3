-- ===== src/Devices/Transitions/Closing.antt =====
-- The end of a closing, of src/embodirun/devices/lifecycle.py, makes one of the changes.
use embodi_run.Base.{
  ◌≡◌, refl, sym, ap, inl, inr, Bool, true, false, Option, none, some, String, if◌then◌else◌,
  Bool-cases,
}
use embodi_run.Base.Dict.{lookup, insert}
use embodi_run.Devices.Types.{
  Identity, identity_eq, identity_beq_iff, Entry, uncertain, ClosingEnd, closer_pending,
  locks_released, closer_raised, is_released, Answer, done, failed,
}
use embodi_run.Devices.Ledger.{error_of}
use embodi_run.Devices.Manager.{Manager}
use embodi_run.Devices.Close.{
  end_closer, end_closer_of, clear_markers, settle_record, settle_close_of,
}
use embodi_run.Devices.Events.{Event, closer_ended, end_if_pending, end_if_closing}
use embodi_run.Devices.Changes.{Change, kept, altered, stuck, unlocked, ended, To, Leads}

either-To :
    (ev : Event) (m : Manager) (b : Bool) (x y : Manager)
    → To ev m x
    → To ev m y
    → To ev m (if b then x else y)
either-To ev m true x y h k = h
either-To ev m false x y h k = k

module _ (m : Manager) (i : Identity) (e : Entry) (found : lookup i m.records ≡ some e)
    (closes : e.closing ≡ true) where
  -- The closer raised, or its markers could not be cleared.
  doubted-To :
      (a : Answer) (x : Option String) (b : Bool) (y : ClosingEnd)
      → is_released y ≡ is_released e.closing_end
      → Change
          (closer_ended i a)
          m.records
          m.next_token
          m.next_serial
          (insert i
            (record e { state = uncertain; error = x; uncertain_before = b; closing_end = y })
            m.records)
          m.next_token
          m.next_serial
  doubted-To a x b y h = altered i e _ found (record {
    serial = refl;
    resource = refl;
    locks = refl;
    references = refl;
    leases = refl;
    still_closing = λ c. c;
    closing_end = h;
    doubt = inl refl;
  })

  clear_markers-To :
      (o : Option String)
      → is_released e.closing_end ≡ false
      → To (closer_ended i done) m (clear_markers o i e m)
  clear_markers-To none h = unlocked i e found closes ((identity_beq_iff i i).1 refl)
  clear_markers-To (some why) h = doubted-To done _ _ _ (sym h)

  end_closer-To :
      (a : Answer)
      → is_released e.closing_end ≡ false
      → To (closer_ended i a) m (end_closer_of (some e) i a m)
  end_closer-To (failed w) h = doubted-To (failed w) _ _ _ (sym h)
  end_closer-To done h =
      either-To _ m e.uncertain_before _ _
        (unlocked i e found closes ((identity_beq_iff i i).1 refl))
        (clear_markers-To (error_of m.ledger) h)

  end_if_pending-To :
      (a : Answer) (c : ClosingEnd)
      → e.closing_end ≡ c
      → To (closer_ended i a) m (end_if_pending c i a m)
  unfolding end_closer
  end_if_pending-To a closer_pending h = rw found (end_closer-To a (ap is_released h))
  end_if_pending-To a locks_released h = kept
  end_if_pending-To a (closer_raised f) h = kept

module _ (m : Manager) (i : Identity) where
  pub end_if_closing-To :
      (a : Answer) (o : Option Entry)
      → lookup i m.records ≡ o
      → To (closer_ended i a) m (end_if_closing o i a m)
  end_if_closing-To a none h = kept
  end_if_closing-To a (some e) h = elim (Bool-cases e.closing) [
    | inl c ↦ simp c (end_if_pending-To m i e h c a e.closing_end refl)
    | inr c ↦ simp c kept
  ]

  settle_record-To :
      (ev : Event) (e : Entry) (c : ClosingEnd)
      → lookup i m.records ≡ some e
      → e.closing_end ≡ c
      → Leads ev m (settle_record c i e m)
  settle_record-To ev e closer_pending h k = record { change = kept }
  settle_record-To ev e locks_released h k = record { change = ended i e h (ap is_released k) }
  settle_record-To ev e (closer_raised f) h k = record { change = stuck i e _ h (ap is_released k) }

  pub settle_close-To :
      (ev : Event) (o : Option Entry) → lookup i m.records ≡ o → Leads ev m (settle_close_of o i m)
  settle_close-To ev none h = record { change = kept }
  settle_close-To ev (some e) h = settle_record-To ev e e.closing_end h refl
