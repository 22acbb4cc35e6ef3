-- ===== src/Devices/Exclusive.antt =====
-- One owner for each physical device, in a process (src/embodirun/devices/lifecycle.py).
use embodi_run.Base.{
  ℕ, ◌≡◌, subst, inl, inr, Bool, true, false, ◌&&◌, ◌||◌, not, some, List, [], ◌∷◌, String, arith,
  Bool-cases,
}
use embodi_run.Base.Dict.{lookup, lookup-Entries}
use embodi_run.Devices.Types.{
  Identity, identity_eq, identity_beq, identity_beq_iff, PhysicalKey, physical_key, physical_beq,
  physical_beq_iff, Entry, identities, is_released,
}
use embodi_run.Devices.Ledger.{Ledger}
use embodi_run.Devices.Manager.{create, has_key}
use embodi_run.Devices.Events.{Event, run}
use embodi_run.Devices.Sound.{Sound, Covered, records_sound}
use embodi_run.Devices.Holders.{two-holders, holders-run}

-- Is this the physical device, or a component, of a record without an external owner,
-- whose process locks have not been released by the end of its closing?
abbrev pub has_physical : PhysicalKey → List Identity → Bool
has_physical p [] = false
has_physical p (i ∷ is) = physical_beq (physical_key i) p || has_physical p is

abbrev pub owns : PhysicalKey → Entry → Bool
owns p e =
    not e.resource.external_owner
    && (not (is_released e.closing_end) && has_physical p (identities e.resource))

Covered-has :
    (p : PhysicalKey) (ls : List PhysicalKey) (is : List Identity)
    → Covered ls is
    → has_physical p is ≡ true
    → has_key p ls ≡ true
Covered-has p ls [] c h = absurd (ground arith)
Covered-has p ls (i ∷ is) c h = elim (Bool-cases (physical_beq (physical_key i) p)) [
  | inl s ↦ subst (λ q. has_key q ls ≡ true) ((physical_beq_iff (physical_key i) p).0 s) c.0
  | inr s ↦ Covered-has p ls is c.1 (ground arith)
]

owns-has :
    {n s : ℕ} {i : Identity} (p : PhysicalKey) (e : Entry)
    → Sound n s i e
    → owns p e ≡ true
    → has_key p e.locks ≡ true
owns-has p e a h = elim a.secured [
  | inl (_, x) ↦ absurd (ground arith)
  | inr (inl x) ↦ absurd (ground arith)
  | inr (inr c) ↦ Covered-has p e.locks (identities e.resource) c (ground arith)
]

-- After any events from a new manager, two records that own the same physical device, as the device
-- itself or as a component, are the record of one identity. A record without an external owner owns
-- its devices until, its closer done, the release of its process locks begins.
pub one_owner :
    (node : String) (l : Ledger) (es : List Event) (p : PhysicalKey) (i j : Identity) (e f : Entry)
    → lookup i (run es (create node l)).records ≡ some e
    → lookup j (run es (create node l)).records ≡ some f
    → owns p e ≡ true
    → owns p f ≡ true
    → i ≡ j
unfolding create
one_owner node l es p i j e f h k a b =
    let m = run es (create node l) in
    let sound = records_sound node l es in
    let P = Sound m.next_token m.next_serial in
    let x = owns-has p e (lookup-Entries P i e m.records sound h) a in
    let y = owns-has p f (lookup-Entries P j f m.records sound k) b in
    elim (Bool-cases (identity_beq i j)) [
      | inl s ↦ (identity_beq_iff i j).0 s
      | inr s ↦
          let two = two-holders p i j e f m.records h k s x y in
          let one = holders-run node l es p in absurd (omega arith)
    ]
