-- ===== src/Devices/Transitions.antt =====
-- Every event of a device manager (src/embodirun/devices/lifecycle.py) makes one of the changes.
use embodi_run.Base.{
  ℕ, ◌≡◌, refl, sym, ap, inl, inr, Bool, true, false, Option, none, some, List, String, ◌==◌,
  if◌then◌else◌, Bool-cases,
}
use embodi_run.Base.Dict.{lookup, insert}
use embodi_run.Devices.Types.{
  Identity, identity_eq, identity_beq_iff, PhysicalKey, Entry, identities, DeviceFault, uncertain,
  ClosingEnd, closer_pending, locks_released, closer_raised, is_released, manager_closed, Answer,
  done, failed, PrepareAnswer, prepared, refused, prepare_raised,
}
use embodi_run.Devices.Ledger.{is_readable, error_of}
use embodi_run.Devices.Manager.{
  Manager, refresh_unresolved, mark_uncertain, clear_uncertainty, mark_record,
}
use embodi_run.Devices.Acquire.{
  Request, Outcome, raised, acquire, acquire_open, acquire_existing, open_new, unless_fault,
  open_locked, open_value, prepare_value, locks_for, prepare_record, same_flag, same_identities,
  unresolved_fault, needs_prepare,
}
use embodi_run.Devices.Close.{
  release, release_from, begin_close, begin_close_of, end_closer, end_closer_of, clear_markers,
  settle_record, settle_close, settle_close_of, has_token, close,
}
use embodi_run.Devices.Events.{
  Event, acquired, released, close_begun, closer_ended, close_settled, shut, marked, cleared,
  rewritten, happen, end_if_pending, end_if_closing,
}
use embodi_run.Devices.Changes.{
  Change, kept, altered, granted, dropped, stuck, unlocked, ended, first_lease, abandoned,
  held_over, To, Leads,
}
use embodi_run.Devices.Transitions.Leasing.{if-To, acquire-To}
use embodi_run.Devices.Transitions.Closing.{end_if_closing-To, settle_close-To}
pub mod Leasing
pub mod Closing

module _ (ev : Event) (m : Manager) (i : Identity) where
  release_from-To :
      (token : ℕ) (o : Option Entry)
      → lookup i m.records ≡ o
      → Leads ev m (release_from o i token m)
  release_from-To token none h = record { change = kept }
  release_from-To token (some e) h = elim (Bool-cases (has_token token e.leases)) [
    | inl has ↦ rw has (record { change = dropped i e token h has })
    | inr off ↦ rw off (record { change = kept })
  ]

  begin_close-To :
      (serial : ℕ) (o : Option Entry)
      → lookup i m.records ≡ o
      → Leads ev m (begin_close_of o i serial m)
  begin_close-To serial none h = record { change = kept }
  begin_close-To serial (some e) h = elim (Bool-cases (e.serial == serial)) [
    | inr other ↦ rw other (record { change = kept })
    | inl same ↦ rw same (elim (Bool-cases e.closing) [
      | inl c ↦ simp c (record { change = kept })
      | inr c ↦ simp c (record {
        change = altered i e _ h (record {
          serial = refl;
          resource = refl;
          locks = refl;
          references = refl;
          leases = refl;
          still_closing = λ c. refl;
          closing_end = refl;
          doubt = inr refl;
        });
      })
    ])
  ]

  mark_record-To :
      (reason : String) (o : Option Entry)
      → lookup i m.records ≡ o
      → Change ev m.records m.next_token m.next_serial
          (mark_record i reason o m.records)
          m.next_token
          m.next_serial
  mark_record-To reason none h = kept
  mark_record-To reason (some e) h = altered i e _ h (record {
    serial = refl;
    resource = refl;
    locks = refl;
    references = refl;
    leases = refl;
    still_closing = λ c. c;
    closing_end = refl;
    doubt = inl refl;
  })

pub happen-To : (e : Event) (m : Manager) → To e m (happen e m)
unfolding happen release begin_close settle_close close mark_uncertain clear_uncertainty
happen-To (acquired r) m = (acquire-To _ r m).change
happen-To (released i token) m = (release_from-To _ m i token _ refl).change
happen-To (close_begun i serial) m = (begin_close-To _ m i serial _ refl).change
happen-To (closer_ended i answer) m = end_if_closing-To m i answer _ refl
happen-To (close_settled i) m = (settle_close-To m i _ _ refl).change
happen-To shut m = kept
happen-To (marked i reason) m =
    (if-To _ m (is_readable m.ledger) (_, _) (_, _)
      (record { change = mark_record-To _ m i reason _ refl }) (record { change = kept })).change
happen-To (cleared i) m =
    (if-To _ m (is_readable m.ledger) (_, _) (_, _) (record { change = kept })
      (record { change = kept })).change
happen-To (rewritten l) m = kept
