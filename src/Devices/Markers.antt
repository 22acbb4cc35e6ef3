-- ===== src/Devices/Markers.antt =====
-- The ledger of unresolved failures guards explicit preparation, also after a restart and under
-- another node label (src/embodirun/devices/lifecycle.py).
use embodi_run.Base.{
  ◌≡◌, refl, subst, ap, ◌∙◌, inl, inr, Bool, true, false, ◌||◌, Option, none, some, List, [], ◌∷◌,
  String, arith, Bool-cases, if◌then◌else◌, is_some,
}
use embodi_run.Base.Dict.{Dict, lookup, insert, lookup-insert}
use embodi_run.Devices.Types.{
  Identity, identity_eq, identity_beq, identity_beq_iff, PhysicalKey, physical_key, physical_beq,
  physical_beq_iff, Entry, identities, DeviceFault, failed, uncertain, closer_raised, close_failed,
}
use embodi_run.Devices.Ledger.{
  Ledger, unreadable, entries, mark, mark_all, without_physical, relabel, refresh, reason_of,
}
use embodi_run.Devices.Manager.{Manager, create, refresh_unresolved}
use embodi_run.Devices.Acquire.{
  Request, Outcome, acquire, open_new, unless_fault, unresolved_fault, open_locked, locks_for,
}
use embodi_run.Devices.Close.{end_closer, settle_close, finish_close}
use embodi_run.Devices.Exclusive.{has_physical}
use embodi_run.Devices.Held.{is_raised}

-- Does a failure of this physical device stand in the file, or can the file not be read?
abbrev pub has_entry : PhysicalKey → Dict Identity String → Bool
has_entry p [] = false
has_entry p ((i, e) ∷ d) = physical_beq (physical_key i) p || has_entry p d

abbrev pub is_blocked : PhysicalKey → Ledger → Bool
is_blocked p (unreadable why) = true
is_blocked p (entries d) = has_entry p d

abbrev pub includes : Identity → List Identity → Bool
includes j [] = false
includes j (i ∷ is) = identity_beq i j || includes j is

has_entry-insert :
    (p : PhysicalKey) (i : Identity) (e : String) (d : Dict Identity String)
    → physical_beq (physical_key i) p || has_entry p d ≡ true
    → has_entry p (insert i e d) ≡ true
unfolding insert
has_entry-insert p i e [] h = h
has_entry-insert p i e ((j, f) ∷ d) h = elim (Bool-cases (identity_beq j i)) [
  | inl s ↦
      let same : j ≡ i = (identity_beq_iff j i).0 s in
      let key : physical_beq (physical_key j) p ≡ physical_beq (physical_key i) p =
        ap (λ k. physical_beq (physical_key k) p) same in
      rw s (ground arith)
  | inr s ↦ rw s (ground (arith, has_entry-insert p i e d))
]

has_entry-without :
    (p : PhysicalKey) (i : Identity) (d : Dict Identity String)
    → physical_beq (physical_key i) p ≡ false
    → has_entry p d ≡ true
    → has_entry p (without_physical i d) ≡ true
has_entry-without p i [] n h = h
has_entry-without p i ((j, f) ∷ d) n h =
    elim (Bool-cases (physical_beq (physical_key j) (physical_key i))) [
      | inl s ↦
          let same : physical_key j ≡ physical_key i =
            (physical_beq_iff (physical_key j) (physical_key i)).0 s in
          let key : physical_beq (physical_key j) p ≡ false = ap (λ k. physical_beq k p) same ∙ n in
          rw s (has_entry-without p i d n (ground arith))
      | inr s ↦ rw s (ground (arith, has_entry-without p i d n))
    ]

mark-kept :
    (p : PhysicalKey) (i : Identity) (why : String) (l : Ledger)
    → physical_beq (physical_key i) p || is_blocked p l ≡ true
    → is_blocked p (mark i why l) ≡ true
unfolding mark
mark-kept p i why (unreadable w) h = refl
mark-kept p i why (entries d) h = elim (Bool-cases (physical_beq (physical_key i) p)) [
  | inl s ↦ has_entry-insert p i why (without_physical i d) (rw s refl)
  | inr s ↦
      let rest = has_entry-without p i d s (ground arith) in
      has_entry-insert p i why (without_physical i d) (rw (s, rest) refl)
]

mark_all-kept :
    (p : PhysicalKey) (is : List Identity) (why : String) (l : Ledger)
    → has_physical p is || is_blocked p l ≡ true
    → is_blocked p (mark_all is why l) ≡ true
unfolding mark_all
mark_all-kept p [] why l h = h
mark_all-kept p (i ∷ is) why l h = elim (Bool-cases (has_physical p is)) [
  | inl s ↦ mark_all-kept p is why (mark i why l) (rw s refl)
  | inr s ↦
      let now = mark-kept p i why l (ground arith) in
      mark_all-kept p is why (mark i why l) (ground arith)
]

relabel-grows :
    (node : String) (j : Identity) (d out : Dict Identity String)
    → is_some (lookup j out) ≡ true
    → is_some (lookup j (relabel node d out)) ≡ true
unfolding relabel
relabel-grows node j [] out h = h
relabel-grows node j ((i, e) ∷ d) out h =
    let k = record i { node = node } in
    relabel-grows node j d (insert k e out) (elim (Bool-cases (identity_beq k j)) [
      | inl s ↦ rw (lookup-insert k j e out, s) refl
      | inr s ↦ rw (lookup-insert k j e out, s) h
    ])

relabel-found :
    (node : String) (j : Identity) (d out : Dict Identity String)
    → j.node ≡ node
    → has_entry (physical_key j) d ≡ true
    → is_some (lookup j (relabel node d out)) ≡ true
unfolding relabel
relabel-found node j [] out n h = absurd (ground arith)
relabel-found node j ((i, e) ∷ d) out n h =
    let k = record i { node = node } in
    elim (Bool-cases (physical_beq (physical_key i) (physical_key j))) [
      | inl s ↦
          let key : physical_key i ≡ physical_key j =
            (physical_beq_iff (physical_key i) (physical_key j)).0 s in
          let same : k ≡ j = ground arith in
          let beq : identity_beq k j ≡ true = (identity_beq_iff k j).1 same in
          relabel-grows node j d (insert k e out) (rw (lookup-insert k j e out, beq) refl)
      | inr s ↦ relabel-found node j d (insert k e out) n (ground arith)
    ]

reason_of-some :
    (j : Identity) (is : List Identity) (d : Dict Identity String)
    → includes j is ≡ true
    → is_some (lookup j d) ≡ true
    → is_some (reason_of is d) ≡ true
unfolding reason_of
reason_of-some j [] d h k = absurd (ground arith)
reason_of-some j (i ∷ is) d h k = elim (Bool-cases (identity_beq i j)) [
  | inl s ↦
      let found : is_some (lookup i d) ≡ true =
        ap (λ x. is_some (lookup x d)) ((identity_beq_iff i j).0 s) ∙ k in
      ground arith
  | inr s ↦ let rest = reason_of-some j is d (ground arith) k in ground arith
]

refreshed-fault :
    (m : Manager) (j : Identity) (is : List Identity) (l : Ledger)
    → m.ledger ≡ l
    → includes j is ≡ true
    → j.node ≡ m.node_id
    → is_blocked (physical_key j) l ≡ true
    → is_some (unresolved_fault is (refresh_unresolved m)) ≡ true
unfolding refresh
refreshed-fault m j is (unreadable w) h a n b = rw h refl
refreshed-fault m j is (entries d) h a n b =
    let found = relabel-found m.node_id j d [] n b in
    let reason = reason_of-some j is (relabel m.node_id d []) a found in rw h (ground arith)

unless_fault-raised :
    (o : Option DeviceFault) (m : Manager) (x : Manager × Outcome)
    → is_some o ≡ true
    → ((unless_fault o m x).0 ≡ m) × (is_raised (unless_fault o m x).1 ≡ true)
unless_fault-raised none m x h = absurd (ground arith)
unless_fault-raised (some f) m x h = (refl, refl)

open_new-raised :
    (r : Request) (m : Manager)
    → r.prepare ≡ true
    → is_some (unresolved_fault (identities r.resource) m) ≡ true
    → ((open_new r m).0 ≡ m) × (is_raised (open_new r m).1 ≡ true)
unfolding open_new
open_new-raised r m p h =
    let guard = if r.prepare then unresolved_fault (identities r.resource) m else none in
    let same : unresolved_fault (identities r.resource) m ≡ guard = rw p refl in
    unless_fault-raised guard m (open_locked (locks_for r m.records) r m)
      (subst (λ o. is_some o ≡ true) same h)

failed-ledger :
    (m : Manager) (i : Identity) (e : Entry) (why : String)
    → lookup i m.records ≡ some e
    → (finish_close i (failed why) m).0.ledger ≡ mark_all (identities e.resource) why m.ledger
unfolding end_closer settle_close
failed-ledger m i e why h =
    let f = record e {
      state = uncertain;
      error = some why;
      closing_end = closer_raised (close_failed why);
    } in
    let there : lookup i (insert i f m.records) ≡ some f =
      lookup-insert i i f m.records ∙ rw ((identity_beq_iff i i).1 refl) refl in
    rw h (rw there refl)

-- After a closer failed on a record, a manager that starts with the ledger that this left, under any
-- node label, gives no lease with preparation on a resource that has one of the record's physical
-- devices under that label: the call raises, and changes nothing but its copy of the ledger.
pub restart_blocks_prepare :
    (m : Manager) (i : Identity) (e : Entry) (why node : String) (r : Request) (j : Identity)
    → lookup i m.records ≡ some e
    → has_physical (physical_key j) (identities e.resource) ≡ true
    → includes j (identities r.resource) ≡ true
    → j.node ≡ node
    → r.prepare ≡ true
    → ((acquire r (create node (finish_close i (failed why) m).0.ledger)).0
        ≡ refresh_unresolved (create node (finish_close i (failed why) m).0.ledger))
      × (is_raised (acquire r (create node (finish_close i (failed why) m).0.ledger)).1 ≡ true)
unfolding acquire create lookup
restart_blocks_prepare m i e why node r j h a b n p =
    let l = mark_all (identities e.resource) why m.ledger in
    let blocked : is_blocked (physical_key j) l ≡ true =
      mark_all-kept (physical_key j) (identities e.resource) why m.ledger (rw a refl) in
    let fault = refreshed-fault (create node l) j (identities r.resource) l refl b n blocked in
    rw (failed-ledger m i e why h) (open_new-raised r (refresh_unresolved (create node l)) p fault)
