-- ===== src/Devices/Transitions/Leasing.antt =====
-- `acquire` of src/embodirun/devices/lifecycle.py makes one of the changes.
use embodi_run.Base.{
  ◌≡◌, refl, inl, inr, Bool, true, false, Option, none, some, List, if◌then◌else◌, Bool-cases,
}
use embodi_run.Base.Dict.{lookup}
use embodi_run.Devices.Types.{
  Identity, identity_eq, PhysicalKey, Entry, identities, DeviceFault, manager_closed, Answer, done,
  failed, PrepareAnswer, prepared, refused, prepare_raised,
}
use embodi_run.Devices.Manager.{Manager, refresh_unresolved}
use embodi_run.Devices.Acquire.{
  Request, Outcome, raised, acquire, acquire_open, acquire_existing, open_new, unless_fault,
  open_locked, open_value, prepare_value, locks_for, prepare_record, same_flag, same_identities,
  unresolved_fault, needs_prepare,
}
use embodi_run.Devices.Events.{Event}
use embodi_run.Devices.Changes.{
  kept, altered, granted, first_lease, abandoned, held_over, To, Leads,
}

pub if-To :
    {B : Type 0} (ev : Event) (m : Manager) (b : Bool) (x y : Manager × B)
    → Leads ev m x
    → Leads ev m y
    → Leads ev m (if b then x else y)
if-To ev m true x y h k = h
if-To ev m false x y h k = k

module _ (ev : Event) (m n : Manager) where
  unless_fault-To :
      (o : Option DeviceFault) (next : Manager × Outcome)
      → To ev m n
      → Leads ev m next
      → Leads ev m (unless_fault o n next)
  unless_fault-To none next k h = h
  unless_fault-To (some f) next k h = record { change = k }

module _ (ev : Event) (r : Request) (m : Manager)
    (fresh : lookup r.resource.identity m.records ≡ none) where
  prepare_value-To :
      (a : PrepareAnswer) (c : Answer) (ls : List PhysicalKey)
      → locks_for r m.records ≡ some ls
      → Leads ev m (prepare_value a (record r { cleanup = c }) ls m)
  prepare_value-To prepared c ls h = record { change = first_lease r ls _ _ _ fresh h }
  prepare_value-To (refused why) done ls h = record { change = kept }
  prepare_value-To (refused why) (failed w) ls h = record { change = abandoned r ls _ fresh h }
  prepare_value-To (prepare_raised why) done ls h = record { change = kept }
  prepare_value-To (prepare_raised why) (failed w) ls h = record {
    change = abandoned r ls _ fresh h;
  }

  open_value-To :
      (a : Answer) (ls : List PhysicalKey)
      → locks_for r m.records ≡ some ls
      → Leads ev m (open_value a r ls m)
  open_value-To (failed why) ls h = record { change = kept }
  open_value-To done ls h = elim (Bool-cases r.prepare) [
    | inl p ↦ simp p (prepare_value-To r.preparing r.cleanup ls h)
    | inr p ↦ simp p (record { change = first_lease r ls _ _ _ fresh h })
  ]

  open_locked-To :
      (o : Option (List PhysicalKey)) → locks_for r m.records ≡ o → Leads ev m (open_locked o r m)
  open_locked-To none h = record { change = kept }
  open_locked-To (some ls) h = open_value-To r.opening ls h

module _ (ev : Event) (m : Manager) (i : Identity) (e : Entry)
    (found : lookup i m.records ≡ some e) where
  prepare_record-To :
      (a : PrepareAnswer)
      → e.closing ≡ false
      → held_over e ≡ false
      → Leads ev m (prepare_record a i e m)
  prepare_record-To prepared c h = record { change = granted i e _ _ _ _ found c h }
  prepare_record-To (refused why) c h = record { change = kept }
  prepare_record-To (prepare_raised why) c h = record {
    change = altered i e _ found (record {
      serial = refl;
      resource = refl;
      locks = refl;
      references = refl;
      leases = refl;
      still_closing = λ c. c;
      closing_end = refl;
      doubt = inl refl;
    });
  }

module _ (ev : Event) (m : Manager) where
  acquire_existing-To :
      (r : Request) (e : Entry)
      → lookup r.resource.identity m.records ≡ some e
      → Leads ev m (acquire_existing r e m)
  unfolding acquire_existing
  acquire_existing-To r e h =
      let same_owner = same_flag e.resource.external_owner r.resource.external_owner in
      let same_components = same_identities e.resource.components r.resource.components in
      elim (Bool-cases e.closing) [
        | inl c ↦ simp c (record { change = kept })
        | inr c ↦ simp c (elim (Bool-cases same_owner) [
          | inr o ↦ rw o (record { change = kept })
          | inl o ↦ rw o (elim (Bool-cases same_components) [
            | inr k ↦ rw k (record { change = kept })
            | inl k ↦ rw k (elim (Bool-cases (held_over e)) [
              | inl u ↦ rw u (record { change = kept })
              | inr u ↦ rw u (elim (Bool-cases (needs_prepare r e)) [
                | inl n ↦ rw n (
                    unless_fault-To ev m m (unresolved_fault (identities e.resource) m) _ kept
                      (prepare_record-To ev m r.resource.identity e h r.preparing c u))
                | inr n ↦ rw n (record { change = granted r.resource.identity e _ _ _ _ h c u })
              ])
            ])
          ])
        ])
      ]

  open_new-To :
      (r : Request) → lookup r.resource.identity m.records ≡ none → Leads ev m (open_new r m)
  unfolding open_new
  open_new-To r h = unless_fault-To ev m m _ _ kept (open_locked-To ev r m h _ refl)

  acquire_open-To :
      (r : Request) (o : Option Entry)
      → lookup r.resource.identity m.records ≡ o
      → Leads ev m (acquire_open o r m)
  acquire_open-To r none h = open_new-To r h
  acquire_open-To r (some e) h = acquire_existing-To r e h

pub acquire-To : (ev : Event) (r : Request) (m : Manager) → Leads ev m (acquire r m)
unfolding acquire
acquire-To ev r m =
    let n = refresh_unresolved m in
    let next = acquire_open-To ev n r _ refl in
    if-To ev m m.closed (m, raised manager_closed)
      (acquire_open (lookup r.resource.identity m.records) r n) (record { change = kept })
      (record { change = next.change })
