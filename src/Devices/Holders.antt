-- ===== src/Devices/Holders.antt =====
-- How often the lock of a physical device is held (src/embodirun/devices/lifecycle.py).
use embodi_run.Base.{
  ℕ, suc, ◌+◌, ◌≤◌, ◌≡◌, refl, subst, ap, inl, inr, Bool, true, false, none, some, List, [], ◌∷◌,
  String, arith, Bool-cases, if◌then◌else◌,
}
use embodi_run.Base.Dict.{Dict, lookup, insert, erase, lookup-erase}
use embodi_run.Devices.Types.{
  Identity, identity_eq, identity_beq, PhysicalKey, physical_key, physical_beq, physical_beq_iff,
  Entry, identities, uncertain,
}
use embodi_run.Devices.Ledger.{Ledger}
use embodi_run.Devices.Manager.{Manager, create, has_key, is_locked, take_locks}
use embodi_run.Devices.Acquire.{Request, locks_for}
use embodi_run.Devices.Close.{release_locks}
use embodi_run.Devices.Events.{Event, happen, run}
use embodi_run.Devices.Changes.{
  Change, kept, altered, granted, dropped, stuck, unlocked, ended, first_lease, abandoned,
  with_lease, without_lease, stuck_entry, new_entry,
}
use embodi_run.Devices.Transitions.{happen-To}

-- How often a lock is held.
abbrev pub count : PhysicalKey → List PhysicalKey → ℕ
count p [] = 0
count p (q ∷ qs) = let rest = count p qs in if physical_beq q p then suc rest else rest

abbrev pub holders : PhysicalKey → Dict Identity Entry → ℕ
holders p [] = 0
holders p ((i, e) ∷ d) = count p e.locks + holders p d

count-free : (p : PhysicalKey) (ls : List PhysicalKey) → has_key p ls ≡ false → count p ls ≡ 0
count-free p [] h = refl
count-free p (q ∷ qs) h = ground (arith, count-free p qs)

pub count-held : (p : PhysicalKey) (ls : List PhysicalKey) → has_key p ls ≡ true → 1 ≤ count p ls
count-held p [] h = absurd (ground arith)
count-held p (q ∷ qs) h = ground (arith, count-held p qs)

holders-free : (p : PhysicalKey) (d : Dict Identity Entry) → is_locked p d ≡ false → holders p d ≡ 0
holders-free p [] h = refl
holders-free p ((i, e) ∷ d) h = ground (arith, count-free p e.locks, holders-free p d)

module _ (p : PhysicalKey) where
  holders-insert_new :
      (i : Identity) (e : Entry) (d : Dict Identity Entry)
      → lookup i d ≡ none
      → holders p (insert i e d) ≡ count p e.locks + holders p d
  unfolding lookup insert
  holders-insert_new i e [] h = refl
  holders-insert_new i e ((j, f) ∷ d) h = elim (Bool-cases (identity_beq j i)) [
    | inl s ↦ absurd (ground arith)
    | inr s ↦
        let later : lookup i d ≡ none = ground arith in
        let rest = holders-insert_new i e d later in rw s (omega arith)
  ]

  holders-insert_le :
      (i : Identity) (e f : Entry) (d : Dict Identity Entry)
      → lookup i d ≡ some e
      → count p f.locks ≤ count p e.locks
      → holders p (insert i f d) ≤ holders p d
  unfolding lookup insert
  holders-insert_le i e f [] h k = absurd (ground arith)
  holders-insert_le i e f ((j, g) ∷ d) h k = elim (Bool-cases (identity_beq j i)) [
    | inl s ↦ let found : count p g.locks ≡ count p e.locks = ground arith in rw s (omega arith)
    | inr s ↦
        let later : lookup i d ≡ some e = ground arith in
        let rest = holders-insert_le i e f d later k in rw s (omega arith)
  ]

  holders-erase_le : (k : Identity) (d : Dict Identity Entry) → holders p (erase k d) ≤ holders p d
  unfolding erase
  holders-erase_le k [] = omega arith
  holders-erase_le k ((j, g) ∷ d) = elim (Bool-cases (identity_beq j k)) [
    | inl s ↦ rw s (omega (arith, holders-erase_le k d))
    | inr s ↦ rw s (omega (arith, holders-erase_le k d))
  ]

  pub holders-erase :
      (i : Identity) (e : Entry) (d : Dict Identity Entry)
      → lookup i d ≡ some e
      → count p e.locks + holders p (erase i d) ≤ holders p d
  unfolding lookup erase
  holders-erase i e [] h = absurd (ground arith)
  holders-erase i e ((j, g) ∷ d) h = elim (Bool-cases (identity_beq j i)) [
    | inl s ↦
        let found : count p g.locks ≡ count p e.locks = ground arith in
        rw s (omega (arith, holders-erase_le i d))
    | inr s ↦
        let later : lookup i d ≡ some e = ground arith in
        let rest = holders-erase i e d later in rw s (omega arith)
  ]

  -- The locks that a record takes are held by no other.
  take_locks-count :
      (free : PhysicalKey → Bool) (is : List Identity) (taken ls : List PhysicalKey)
      (d : Dict Identity Entry)
      → take_locks free is taken d ≡ some ls
      → count p taken + holders p d ≤ 1
      → count p ls + holders p d ≤ 1
  unfolding take_locks
  take_locks-count free [] taken ls d h k =
      let same : count p taken ≡ count p ls = ground arith in omega arith
  take_locks-count free (i ∷ is) taken ls d h k =
      let q = physical_key i in
      let rest : take_locks free is (q ∷ taken) d ≡ some ls = ground arith in
      let idle : is_locked q d ≡ false = ground arith in
      let new : has_key q taken ≡ false = ground arith in
      take_locks-count free is (q ∷ taken) ls d rest (elim (Bool-cases (physical_beq q p)) [
        | inl s ↦
            let same : q ≡ p = (physical_beq_iff q p).0 s in
            let a : count p taken ≡ 0 =
              count-free p taken (subst (λ x. has_key x taken ≡ false) same new) in
            let b : holders p d ≡ 0 =
              holders-free p d (subst (λ x. is_locked x d ≡ false) same idle) in
            rw s (omega arith)
        | inr s ↦ rw s k
      ])

  locks_for-count :
      (r : Request) (ls : List PhysicalKey) (d : Dict Identity Entry)
      → locks_for r d ≡ some ls
      → holders p d ≤ 1
      → count p ls + holders p d ≤ 1
  locks_for-count r ls d h k = elim (Bool-cases r.resource.external_owner) [
    | inl x ↦ let same : count p [] ≡ count p ls = ground arith in omega arith
    | inr x ↦
        let taken : take_locks r.free (identities r.resource) [] d ≡ some ls = ground arith in
        take_locks-count r.free (identities r.resource) [] ls d taken (omega arith)
  ]

  same-count :
      (i : Identity) (e f : Entry) (d : Dict Identity Entry)
      → lookup i d ≡ some e
      → f.locks ≡ e.locks
      → holders p d ≤ 1
      → holders p (insert i f d) ≤ 1
  same-count i e f d h k b =
      omega (arith, holders-insert_le i e f d h (omega (arith, ap (count p) k)))

  new-count :
      (r : Request) (e : Entry) (d : Dict Identity Entry)
      → lookup r.resource.identity d ≡ none
      → locks_for r d ≡ some e.locks
      → holders p d ≤ 1
      → holders p (insert r.resource.identity e d) ≤ 1
  new-count r e d h k b =
      omega (arith, holders-insert_new r.resource.identity e d h, locks_for-count r e.locks d k b)

  Change-count :
      {ev : Event} {d : Dict Identity Entry} {n s : ℕ} {d' : Dict Identity Entry} {n' s' : ℕ}
      → Change ev d n s d' n' s'
      → holders p d ≤ 1
      → holders p d' ≤ 1
  Change-count kept b = b
  Change-count {d} (altered i e f h k) b = same-count i e f d h k.locks b
  Change-count {d} {n} (granted i e q c st x h _ _) b =
      same-count i e (with_lease n q c st x e) d h refl b
  Change-count {d} (dropped i e t h _) b = same-count i e (without_lease t e) d h refl b
  Change-count {d} (stuck i e y h _) b = same-count i e (stuck_entry y e) d h refl b
  Change-count {d} (unlocked i e h _ _) b =
      omega (arith, holders-insert_le i e (release_locks e) d h (omega arith))
  Change-count {d} (ended i e h _) b = omega (arith, holders-erase i e d h)
  Change-count {d} {n} {s} (first_lease r ls st q c h k) b =
      new-count r (new_entry s r ls (n ∷ []) q st none c) d h k b
  Change-count {d} {n} {s} (abandoned r ls x h k) b =
      new-count r (new_entry s r ls [] false uncertain x true) d h k b

  run-count :
      (es : List Event) (m : Manager) → holders p m.records ≤ 1 → holders p (run es m).records ≤ 1
  run-count [] m b = b
  run-count (e ∷ es) m b = run-count es (happen e m) (Change-count (happen-To e m) b)

  pub two-holders :
      (i j : Identity) (e f : Entry) (d : Dict Identity Entry)
      → lookup i d ≡ some e
      → lookup j d ≡ some f
      → identity_beq i j ≡ false
      → has_key p e.locks ≡ true
      → has_key p f.locks ≡ true
      → 2 ≤ holders p d
  two-holders i j e f d h k s a b =
      let rest : lookup j (erase i d) ≡ some f = ground (arith, lookup-erase i j d) in
      omega (
        arith,
        holders-erase i e d h,
        holders-erase j f (erase i d) rest,
        count-held p e.locks a,
        count-held p f.locks b,
      )

-- Each lock is held once at most.
pub holders-run :
    (node : String) (l : Ledger) (es : List Event) (p : PhysicalKey)
    → holders p (run es (create node l)).records ≤ 1
unfolding create
holders-run node l es p = run-count p es (create node l) (omega arith)
