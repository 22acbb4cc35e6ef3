-- ===== src/Devices/Sound.antt =====
-- Well-formed records of a device manager (src/embodirun/devices/lifecycle.py): the leases are counted,
-- and a device that this process owns has all its locks until its closing releases them.
use embodi_run.Base.{
  ℕ, suc, ◌<◌, ◌≡◌, refl, sym, subst, ap, ◌∙◌, ◌⊎◌, inl, inr, Bool, true, false, none, some, List,
  [], ◌∷◌, String, arith, length, All, Bool-cases,
}
use embodi_run.Base.Dict.{Dict, Entries, lookup-Entries, insert-Entries, erase-Entries}
use embodi_run.Devices.Types.{
  uncertain, Identity, identity_eq, PhysicalKey, physical_key, physical_beq, physical_beq_iff,
  Entry, Resource, identities, is_released,
}
use embodi_run.Devices.Ledger.{Ledger}
use embodi_run.Devices.Manager.{Manager, create, has_key, take_locks}
use embodi_run.Devices.Acquire.{Request, locks_for}
use embodi_run.Devices.Close.{release_locks}
use embodi_run.Devices.Events.{Event, happen, run}
use embodi_run.Devices.Changes.{
  Change, kept, altered, granted, dropped, stuck, unlocked, ended, first_lease, abandoned,
  SameLeases, with_lease, without_lease, stuck_entry, new_entry,
}
use embodi_run.Devices.Transitions.{happen-To}
use embodi_run.Devices.Leases.{
  Distinct, Below, Distinct-remove, length-remove, Below-remove, Below-suc, Below-absent,
}

-- The locks that a list of identities needs.
abbrev pub Covered : List PhysicalKey → List Identity → Type 0
Covered ls is = All (λ j. has_key (physical_key j) ls ≡ true) is

take_locks-grows :
    (free : PhysicalKey → Bool) (is : List Identity) (taken ls : List PhysicalKey)
    (d : Dict Identity Entry) (p : PhysicalKey)
    → take_locks free is taken d ≡ some ls
    → has_key p taken ≡ true
    → has_key p ls ≡ true
unfolding take_locks
take_locks-grows free [] taken ls d p h k = ground arith
take_locks-grows free (i ∷ is) taken ls d p h k =
    take_locks-grows free is (physical_key i ∷ taken) ls d p (ground arith) (ground arith)

has_key-head : (p : PhysicalKey) (ls : List PhysicalKey) → has_key p (p ∷ ls) ≡ true
has_key-head p ls =
    let same : physical_beq p p ≡ true = (physical_beq_iff p p).1 refl in rw same refl

take_locks-Covered :
    (free : PhysicalKey → Bool) (is : List Identity) (taken ls : List PhysicalKey)
    (d : Dict Identity Entry)
    → take_locks free is taken d ≡ some ls
    → Covered ls is
unfolding take_locks
take_locks-Covered free [] taken ls d h = tt
take_locks-Covered free (i ∷ is) taken ls d h =
    let p = physical_key i in
    let rest : take_locks free is (p ∷ taken) d ≡ some ls = ground arith in
    (
      take_locks-grows free is (p ∷ taken) ls d p rest (has_key-head p taken),
      take_locks-Covered free is (p ∷ taken) ls d rest,
    )

abbrev pub Locked : Resource → List PhysicalKey → Type 0
Locked r ls = (r.external_owner ≡ true) ⊎ Covered ls (identities r)

-- What stands for the locks: all of them, or none any more, at the end of a closing.
abbrev pub Secured : Entry → Type 0
Secured e = ((e.closing ≡ true) × (is_released e.closing_end ≡ true)) ⊎ Locked e.resource e.locks

pub record Sound (next_token next_serial : ℕ) (i : Identity) (e : Entry) : Type 0 where
  pub keyed : e.resource.identity ≡ i
  pub counted : e.references ≡ length e.leases
  pub distinct : Distinct e.leases
  pub issued : Below next_token e.leases
  pub numbered : e.serial < next_serial
  pub secured : Secured e

abbrev pub AllSound : Manager → Type 0
AllSound m = Entries (Sound m.next_token m.next_serial) m.records

-- From one manager's counters to later ones.
Sound-later :
    {n s n' s' : ℕ} {i : Identity} {e : Entry}
    → ◌⊎◌ (n' ≡ n) (n' ≡ suc n)
    → ◌⊎◌ (s' ≡ s) (s' ≡ suc s)
    → Sound n s i e
    → Sound n' s' i e
Sound-later {n} {s} {n'} {s'} {i} {e} a b h = record {
  keyed = h.keyed;
  counted = h.counted;
  distinct = h.distinct;
  issued = elim a [
    | inl same ↦ subst (λ k. Below k e.leases) (sym same) h.issued
    | inr more ↦ subst (λ k. Below k e.leases) (sym more) (Below-suc n e.leases h.issued)
  ];
  numbered = elim b [ inl same ↦ omega (arith, h.numbered) | inr more ↦ omega (arith, h.numbered) ];
  secured = h.secured;
}

Entries-map :
    {P Q : Identity → Entry → Type 0} (d : Dict Identity Entry)
    → ((i : Identity) → (e : Entry) → P i e → Q i e)
    → Entries P d
    → Entries Q d
Entries-map [] f a = tt
Entries-map ((i, e) ∷ d) f a = (f i e a.0, Entries-map d f a.1)

same-Secured : {e e' : Entry} → SameLeases e e' → Secured e → Secured e'
same-Secured {e} {e'} k h = elim h [
  | inl (c, r) ↦ inl (k.still_closing c, k.closing_end ∙ r)
  | inr l ↦ inr (
      subst (λ r. Locked r e'.locks) (sym k.resource)
        (subst (λ ls. Locked e.resource ls) (sym k.locks) l))
]

same-Sound :
    {n s : ℕ} {i : Identity} {e e' : Entry} → SameLeases e e' → Sound n s i e → Sound n s i e'
same-Sound {n} {s} {i} {e} {e'} k h = record {
  keyed = ap (λ r. r.identity) k.resource ∙ h.keyed;
  counted = k.references ∙ h.counted ∙ ap length (sym k.leases);
  distinct = subst Distinct (sym k.leases) h.distinct;
  issued = subst (Below n) (sym k.leases) h.issued;
  numbered = omega (arith, k.serial, h.numbered);
  secured = same-Secured k h.secured;
}

locks_for-Locked :
    (r : Request) (ls : List PhysicalKey) (d : Dict Identity Entry)
    → locks_for r d ≡ some ls
    → Locked r.resource ls
locks_for-Locked r ls d h = elim (Bool-cases r.resource.external_owner) [
  | inl x ↦ inl x
  | inr x ↦
      let taken : take_locks r.free (identities r.resource) [] d ≡ some ls = ground arith in
      inr (take_locks-Covered r.free (identities r.resource) [] ls d taken)
]

Change-Sound :
    {ev : Event} {d : Dict Identity Entry} {n s : ℕ} {d' : Dict Identity Entry} {n' s' : ℕ}
    → Change ev d n s d' n' s'
    → Entries (Sound n s) d
    → Entries (Sound n' s') d'
Change-Sound kept a = a
Change-Sound {d} {n = n} {s = s} (altered i e e' h k) a =
    insert-Entries (Sound n s) i e' d a (same-Sound k (lookup-Entries (Sound n s) i e d a h))
Change-Sound {d} {n = n} {s = s} (granted i e p c st x h still _) a =
    let old = lookup-Entries (Sound n s) i e d a h in
    let later = Entries-map d (λ j f. Sound-later (inr refl) (inl refl)) a in
    insert-Entries (Sound (suc n) s) i (with_lease n p c st x e) d later (record {
      keyed = old.keyed;
      counted = ap suc old.counted;
      distinct = (Below-absent n e.leases old.issued, old.distinct);
      issued = (omega arith, Below-suc n e.leases old.issued);
      numbered = old.numbered;
      secured = elim old.secured [ inl (x, _) ↦ absurd (ground arith) | inr l ↦ inr l ];
    })
Change-Sound {d} {n = n} {s = s} (dropped i e t h k) a =
    let old = lookup-Entries (Sound n s) i e d a h in
    insert-Entries (Sound n s) i (without_lease t e) d a (record {
      keyed = old.keyed;
      counted = omega (arith, old.counted, length-remove t e.leases old.distinct k);
      distinct = Distinct-remove t e.leases old.distinct;
      issued = Below-remove t n e.leases old.issued;
      numbered = old.numbered;
      secured = old.secured;
    })
Change-Sound {d} {n = n} {s = s} (stuck i e y h u) a =
    let old = lookup-Entries (Sound n s) i e d a h in
    insert-Entries (Sound n s) i (stuck_entry y e) d a (record {
      keyed = old.keyed;
      counted = refl;
      distinct = tt;
      issued = tt;
      numbered = old.numbered;
      secured = elim old.secured [ inl (_, r) ↦ absurd (ground arith) | inr l ↦ inr l ];
    })
Change-Sound {d} {n = n} {s = s} (unlocked i e h c _) a =
    let old = lookup-Entries (Sound n s) i e d a h in
    insert-Entries (Sound n s) i (release_locks e) d a (record {
      keyed = old.keyed;
      counted = old.counted;
      distinct = old.distinct;
      issued = old.issued;
      numbered = old.numbered;
      secured = inl (c, refl);
    })
Change-Sound {d} {n = n} {s = s} (ended i e h _) a = erase-Entries (Sound n s) i d a
Change-Sound {d} {n = n} {s = s} (first_lease r ls st p b h k) a =
    let later = Entries-map d (λ j f. Sound-later (inr refl) (inr refl)) a in
    insert-Entries (Sound (suc n) (suc s)) r.resource.identity
      (new_entry s r ls (n ∷ []) p st none b) d later
      (record {
        keyed = refl;
        counted = refl;
        distinct = (refl, tt);
        issued = (omega arith, tt);
        numbered = omega arith;
        secured = inr (locks_for-Locked r ls d k);
      })
Change-Sound {d} {n = n} {s = s} (abandoned r ls x h k) a =
    let later = Entries-map d (λ j f. Sound-later (inl refl) (inr refl)) a in
    insert-Entries (Sound n (suc s)) r.resource.identity
      (new_entry s r ls [] false uncertain x true) d later
      (record {
        keyed = refl;
        counted = refl;
        distinct = tt;
        issued = tt;
        numbered = omega arith;
        secured = inr (locks_for-Locked r ls d k);
      })

pub run-AllSound : (es : List Event) (m : Manager) → AllSound m → AllSound (run es m)
run-AllSound [] m a = a
run-AllSound (e ∷ es) m a = run-AllSound es (happen e m) (Change-Sound (happen-To e m) a)

-- After any events from a new manager, every record stands under its own identity; its count of
-- references is the number of its leases, which are distinct tokens already issued; and it has the
-- lock of its device and of every component, unless it has an external owner or, still closing, is
-- past its closer's end and the release of its locks.
pub records_sound :
    (node : String) (l : Ledger) (es : List Event) → AllSound (run es (create node l))
unfolding create
records_sound node l es = run-AllSound es (create node l) tt
