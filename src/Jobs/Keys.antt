-- ===== src/Jobs/Keys.antt =====
-- The invariant at one key, and what an operation on one key does to the lookups of all.
use embodi_run.Base.{◌≡◌, refl, false, some, none, inl, inr, subst, Bool-cases}
use embodi_run.Base.Dict.{
  Dict, lookup, insert, update, erase, lookup-insert, lookup-update, lookup-erase,
}
use embodi_run.Jobs.Types.{JobKey, key_eq, key_eq_iff, job_key_eq, Row}
use embodi_run.Jobs.Registry.{Registry}
use embodi_run.Jobs.Steps.{KeyInv, count_key}

abbrev pub HoldsAt : Registry → JobKey → Type 0
HoldsAt s k =
    KeyInv s.max_events s.closed (lookup k s.table) (lookup k s.runtimes) (lookup k s.in_callback)
      (count_key k s.executed)

-- What a section on another key leaves of `k`.
abbrev pub Same : Registry → Registry → JobKey → Type 0
Same s u k =
    (lookup k u.table ≡ lookup k s.table)
    × (lookup k u.runtimes ≡ lookup k s.runtimes)
    × (lookup k u.in_callback ≡ lookup k s.in_callback)
    × (count_key k u.executed ≡ count_key k s.executed)

HoldsAt-Same :
    (s u : Registry) (k : JobKey)
    → u.max_events ≡ s.max_events
    → u.closed ≡ s.closed
    → Same s u k
    → HoldsAt s k
    → HoldsAt u k
HoldsAt-Same s u k m c (t, r, i, n) h = rw (m, c, t, r, i, n) h

pub HoldsAt-split :
    (s u : Registry) (key k : JobKey)
    → u.max_events ≡ s.max_events
    → u.closed ≡ s.closed
    → HoldsAt u key
    → (key_eq key k ≡ false → Same s u k)
    → HoldsAt s k
    → HoldsAt u k
HoldsAt-split s u key k m c at_key rest h = elim (Bool-cases (key_eq key k)) [
  | inl e ↦ subst (HoldsAt u) ((key_eq_iff key k).0 e) at_key
  | inr e ↦ HoldsAt-Same s u k m c (rest e) h
]

module _ (key : JobKey) where
  pub update_self :
      (f : Row → Row) (t : Dict JobKey Row) (row : Row)
      → lookup key t ≡ some row
      → lookup key (update key f t) ≡ some (f row)
  update_self f t row e = rw (lookup-update key key f t, (key_eq_iff key key).1 refl, e)

  pub update_other :
      {V : Type 0} (f : V → V) (t : Dict JobKey V) (k : JobKey)
      → key_eq key k ≡ false
      → lookup k (update key f t) ≡ lookup k t
  update_other f t k n = rw (lookup-update key k f t, n)

  pub insert_self : {V : Type 0} (x : V) (t : Dict JobKey V) → lookup key (insert key x t) ≡ some x
  insert_self x t = rw (lookup-insert key key x t, (key_eq_iff key key).1 refl)

  pub insert_other :
      {V : Type 0} (x : V) (t : Dict JobKey V) (k : JobKey)
      → key_eq key k ≡ false
      → lookup k (insert key x t) ≡ lookup k t
  insert_other x t k n = rw (lookup-insert key k x t, n)

  pub erase_self : {V : Type 0} (t : Dict JobKey V) → lookup key (erase key t) ≡ none
  erase_self t = rw (lookup-erase key key t, (key_eq_iff key key).1 refl)

  pub erase_other :
      {V : Type 0} (t : Dict JobKey V) (k : JobKey)
      → key_eq key k ≡ false
      → lookup k (erase key t) ≡ lookup k t
  erase_other t k n = rw (lookup-erase key k t, n)
