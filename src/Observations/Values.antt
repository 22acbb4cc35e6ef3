-- ===== src/Observations/Values.antt =====
-- `_freeze` and `_thaw` of src/embodirun/devices/observations/values.py.
use embodi_run.Base.{
  ℕ, zero, suc, Bool, true, false, ◌&&◌, Option, none, some, String, if◌then◌else◌,
}

-- A key of a mapping: an immutable value, which `copy.deepcopy` gives back, here by its text, or any
-- other hashable object, by its identity.
pub data Key : Type 0 where
  plain : String → Key
  object : ℕ → Key

-- A value of an observation. A mapping that is a `MappingProxyType` is marked. An array-like object
-- stands for what its `tolist` returns, and a failing or opaque one cannot be frozen. The items of a
-- set stay distinct when they are frozen, and the keys of a mapping when they are copied. The names
-- of a dataclass's fields are immutable keys.
mutual
  pub data Value (S : Type 0) : Type 0 where
    scalar : S → Value S
    mapping : (proxy : Bool) → Fields S → Value S
    list tuple set frozenset : Items S → Value S
    dataclass : Fields S → Value S
    array : Value S → Value S
    opaque : Value S

  pub data Items (S : Type 0) : Type 0 where
    nil : Items S
    cons : Value S → Items S → Items S

  pub data Fields (S : Type 0) : Type 0 where
    end : Fields S
    field : Key → Value S → Fields S → Fields S

abbrev pub bind : {A B : Type 0} → Option A → (A → Option B) → Option B
bind none f = none
bind (some a) f = f a

module _ {S : Type 0} where
  unfoldable mutual
    -- `hash` succeeds on an immutable value.
    pub hashable : Value S → Bool
    hashable (scalar a) = true
    hashable (tuple xs) = hashable_items xs
    hashable (frozenset xs) = true
    hashable _ = false

    pub hashable_items : Items S → Bool
    hashable_items nil = true
    hashable_items (cons x xs) = hashable x && hashable_items xs

  abbrev pub as_frozenset : Items S → Option (Value S)
  as_frozenset xs = if hashable_items xs then some (frozenset xs) else none

-- `copy.deepcopy` of a key that is some other object, by a parameter: its copy, if it can be copied.
abbrev pub copy_key : (ℕ → Option ℕ) → Key → Option Key
copy_key copy (plain s) = some (plain s)
copy_key copy (object n) = bind (copy n) (λ m. some (object m))

-- A key that is copied once, after this many copies of what it stands in.
abbrev pub copy_key_again : (ℕ → Option ℕ) → ℕ → Key → Option Key
copy_key_again copy zero k = copy_key copy k
copy_key_again copy (suc d) k = bind (copy_key copy k) (λ m. copy_key_again copy d m)

module _ {S : Type 0} (copy : ℕ → Option ℕ) where
  -- A mapping that has been copied within something else: `copy.deepcopy` refuses a proxy.
  abbrev pub copied_mapping : ℕ → Bool → Option (Fields S) → Option (Value S)
  copied_mapping (suc d) true o = none
  copied_mapping _ _ o = bind o (λ gs. some (mapping true gs))

  unfoldable mutual
    -- `_freeze`: `none` is an exception. The items of a list, a tuple or a set are deep-copied before
    -- they are frozen; the number says how many such copies the value has been through.
    pub freeze : ℕ → Value S → Option (Value S)
    freeze d (scalar a) = some (scalar a)
    freeze d (mapping proxy fs) = copied_mapping d proxy (freeze_fields d fs)
    freeze d (list xs) = bind (freeze_items (suc d) xs) (λ ys. some (tuple ys))
    freeze d (tuple xs) = bind (freeze_items (suc d) xs) (λ ys. some (tuple ys))
    freeze d (set xs) = bind (freeze_items (suc d) xs) as_frozenset
    freeze d (frozenset xs) = bind (freeze_items (suc d) xs) as_frozenset
    freeze d (dataclass fs) = bind (freeze_fields d fs) (λ gs. some (mapping true gs))
    freeze d (array v) = freeze d v
    freeze d opaque = none

    pub freeze_items : ℕ → Items S → Option (Items S)
    freeze_items d nil = some nil
    freeze_items d (cons x xs) =
        bind (freeze d x) (λ y. bind (freeze_items d xs) (λ ys. some (cons y ys)))

    pub freeze_fields : ℕ → Fields S → Option (Fields S)
    freeze_fields d end = some end
    freeze_fields d (field k x fs) =
        bind (copy_key_again copy d k)
          (λ m. bind (freeze d x) (λ y. bind (freeze_fields d fs) (λ gs. some (field m y gs))))

  unfoldable mutual
    -- `_thaw`
    pub thaw : Value S → Option (Value S)
    thaw (scalar a) = some (scalar a)
    thaw (mapping proxy fs) = bind (thaw_fields fs) (λ gs. some (mapping false gs))
    thaw (tuple xs) = bind (thaw_items xs) (λ ys. some (tuple ys))
    thaw (frozenset xs) = bind (thaw_items xs) as_frozenset
    thaw _ = none

    pub thaw_items : Items S → Option (Items S)
    thaw_items nil = some nil
    thaw_items (cons x xs) = bind (thaw x) (λ y. bind (thaw_items xs) (λ ys. some (cons y ys)))

    pub thaw_fields : Fields S → Option (Fields S)
    thaw_fields end = some end
    thaw_fields (field k x fs) =
        bind (copy_key copy k)
          (λ m. bind (thaw x) (λ y. bind (thaw_fields fs) (λ gs. some (field m y gs))))

abbrev pub is_plain : Key → Bool
is_plain (plain s) = true
is_plain (object n) = false
