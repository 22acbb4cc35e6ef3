-- ===== src/Observations/Freezing.antt =====
-- Frozen values of src/embodirun/devices/observations/values.py, and their export.
use embodi_run.Base.{
  ℕ, zero, suc, ◌≡◌, refl, subst, Bool, true, false, Option, none, some, arith, if◌then◌else◌,
}
use embodi_run.Observations.Values.{
  Key, plain, object, Value, scalar, mapping, list, tuple, set, frozenset, dataclass, array, opaque,
  Items, nil, cons, Fields, end, field, bind, hashable, hashable_items, as_frozenset, copy_key,
  copy_key_again, copied_mapping, freeze, freeze_items, freeze_fields, thaw, thaw_items,
  thaw_fields, is_plain,
}

bind-cases :
    {A B : Type 0} (o : Option A) (f : A → Option B) (b : B)
    → bind o f ≡ some b
    → (a : A) × (o ≡ some a) × (f a ≡ some b)
bind-cases none f b h = absurd (ground arith)
bind-cases (some a) f b h = (a, refl, h)

plain-copy : (copy : ℕ → Option ℕ) (k : Key) → is_plain k ≡ true → copy_key copy k ≡ some k
plain-copy copy (plain s) h = refl
plain-copy copy (object n) h = absurd (ground arith)

plain-copies :
    (copy : ℕ → Option ℕ) (d : ℕ) (k : Key) → is_plain k ≡ true → copy_key_again copy d k ≡ some k
plain-copies copy zero k h = plain-copy copy k h
plain-copies copy (suc d) k h = rw (plain-copy copy k h) (plain-copies copy d k h)

module _ {S : Type 0} where
  unfoldable mutual
    -- Every key of a mapping, at any depth, is immutable.
    pub HasPlainKeys : Value S → Type 0
    HasPlainKeys (mapping proxy fs) = HavePlainKeysFields fs
    HasPlainKeys (list xs) = HavePlainKeys xs
    HasPlainKeys (tuple xs) = HavePlainKeys xs
    HasPlainKeys (set xs) = HavePlainKeys xs
    HasPlainKeys (frozenset xs) = HavePlainKeys xs
    HasPlainKeys (dataclass fs) = HavePlainKeysFields fs
    HasPlainKeys (array v) = HasPlainKeys v
    HasPlainKeys _ = Unit

    pub HavePlainKeys : Items S → Type 0
    HavePlainKeys nil = Unit
    HavePlainKeys (cons x xs) = HasPlainKeys x × HavePlainKeys xs

    pub HavePlainKeysFields : Fields S → Type 0
    HavePlainKeysFields end = Unit
    HavePlainKeysFields (field k x fs) =
        (is_plain k ≡ true) × HasPlainKeys x × HavePlainKeysFields fs

  unfoldable mutual
    -- Nothing in the value can be changed.
    pub IsFrozen : Value S → Type 0
    IsFrozen (scalar a) = Unit
    IsFrozen (mapping proxy fs) = (proxy ≡ true) × AreFrozenFields fs
    IsFrozen (tuple xs) = AreFrozen xs
    IsFrozen (frozenset xs) = (hashable_items xs ≡ true) × AreFrozen xs
    IsFrozen _ = ⊥

    pub AreFrozen : Items S → Type 0
    AreFrozen nil = Unit
    AreFrozen (cons x xs) = IsFrozen x × AreFrozen xs

    pub AreFrozenFields : Fields S → Type 0
    AreFrozenFields end = Unit
    AreFrozenFields (field k x fs) = (is_plain k ≡ true) × IsFrozen x × AreFrozenFields fs

module _ {S : Type 0} (copy : ℕ → Option ℕ) where
  refrozen :
      (d : ℕ) (proxy : Bool) (gs fs : Fields S)
      → proxy ≡ true
      → freeze_fields copy d gs ≡ some fs
      → freeze copy d (mapping false gs) ≡ some (mapping proxy fs)
  unfolding freeze
  refrozen zero proxy gs fs h k = rw (k, h) refl
  refrozen (suc d) proxy gs fs h k = rw (k, h) refl

  mapping-IsFrozen :
      (gs : Fields S) (w : Value S)
      → AreFrozenFields gs
      → some (mapping true gs) ≡ some w
      → IsFrozen w
  unfolding IsFrozen
  mapping-IsFrozen gs w g h = ground arith

  tuple-IsFrozen :
      (ys : Items S) (w : Value S) → AreFrozen ys → some (tuple ys) ≡ some w → IsFrozen w
  unfolding IsFrozen
  tuple-IsFrozen ys w g h = ground arith

  some-inj : {v w : Value S} → some v ≡ some w → v ≡ w
  some-inj h = ground arith

  hashable-IsFrozen :
      (b : Bool) (ys : Items S) (w : Value S)
      → AreFrozen ys
      → hashable_items ys ≡ b
      → (if b then some (frozenset ys) else none) ≡ some w
      → IsFrozen w
  unfolding IsFrozen
  hashable-IsFrozen true ys w g e h = subst IsFrozen (some-inj h) (e, g)
  hashable-IsFrozen false ys w g e h = absurd (ground arith)

  frozenset-IsFrozen :
      (ys : Items S) (w : Value S) → AreFrozen ys → as_frozenset ys ≡ some w → IsFrozen w
  frozenset-IsFrozen ys w g h = hashable-IsFrozen (hashable_items ys) ys w g refl h

  mutual
    unfolding freeze freeze_items freeze_fields thaw thaw_items thaw_fields hashable hashable_items
        IsFrozen AreFrozen AreFrozenFields

    export :
        (w : Value S)
        → IsFrozen w
        → (t : Value S) × (thaw copy w ≡ some t)
          × ((d : ℕ) → freeze copy d t ≡ some w)
          × (hashable t ≡ hashable w)
    export (scalar a) h = (scalar a, refl, λ d. refl, refl)
    export (mapping proxy fs) h =
        let (gs, a, b) = export_fields fs h.1 in
        (mapping false gs, rw a refl, λ d. refrozen d proxy gs fs h.0 (b d), refl)
    export (tuple xs) h =
        let (ys, a, b, c) = export_items xs h in (tuple ys, rw a refl, λ d. rw (b (suc d)) refl, c)
    export (frozenset xs) h =
        let (ys, a, b, c) = export_items xs h.1 in
        (frozenset ys, rw a (rw c (rw h.0 refl)), λ d. rw (b (suc d)) (rw h.0 refl), refl)
    export (list xs) h = absurd h
    export (set xs) h = absurd h
    export (dataclass fs) h = absurd h
    export (array v) h = absurd h
    export opaque h = absurd h

    export_items :
        (ws : Items S)
        → AreFrozen ws
        → (ts : Items S) × (thaw_items copy ws ≡ some ts)
          × ((d : ℕ) → freeze_items copy d ts ≡ some ws)
          × (hashable_items ts ≡ hashable_items ws)
    export_items nil h = (nil, refl, λ d. refl, refl)
    export_items (cons w ws) h =
        let (t, a, b, c) = export w h.0 in
        let (ts, d, e, f) = export_items ws h.1 in
        (cons t ts, rw (a, d) refl, λ n. rw (b n, e n) refl, rw (c, f) refl)

    export_fields :
        (ws : Fields S)
        → AreFrozenFields ws
        → (ts : Fields S) × (thaw_fields copy ws ≡ some ts)
          × ((d : ℕ) → freeze_fields copy d ts ≡ some ws)
    export_fields end h = (end, refl, λ d. refl)
    export_fields (field k w ws) h =
        let (t, a, b, c) = export w h.1 in
        let (ts, d, e) = export_fields ws h.2 in
        (
          field k t ts,
          rw (plain-copy copy k h.0, a, d) refl,
          λ n. rw (plain-copies copy n k h.0, b n, e n) refl,
        )

  copied-mapping-cases :
      (d : ℕ) (proxy : Bool) (o : Option (Fields S)) (w : Value S)
      → copied_mapping copy d proxy o ≡ some w
      → (gs : Fields S) × (o ≡ some gs) × (some (mapping true gs) ≡ some w)
  copied-mapping-cases zero proxy o w h = bind-cases o (λ gs. some (mapping true gs)) w h
  copied-mapping-cases (suc d) true o w h = absurd (ground arith)
  copied-mapping-cases (suc d) false o w h = bind-cases o (λ gs. some (mapping true gs)) w h

  mutual
    unfolding freeze freeze_items freeze_fields IsFrozen AreFrozen AreFrozenFields HasPlainKeys
        HavePlainKeys HavePlainKeysFields

    freeze_lem : (d : ℕ) (v w : Value S) → HasPlainKeys v → freeze copy d v ≡ some w → IsFrozen w
    freeze_lem d (scalar a) w p h = ground arith
    freeze_lem d (mapping proxy fs) w p h =
        let (gs, a, b) = copied-mapping-cases d proxy (freeze_fields copy d fs) w h in
        mapping-IsFrozen gs w (freeze_fields_lem d fs gs p a) b
    freeze_lem d (list xs) w p h =
        let (ys, a, b) = bind-cases (freeze_items copy (suc d) xs) (λ ys. some (tuple ys)) w h in
        tuple-IsFrozen ys w (freeze_items_lem (suc d) xs ys p a) b
    freeze_lem d (tuple xs) w p h =
        let (ys, a, b) = bind-cases (freeze_items copy (suc d) xs) (λ ys. some (tuple ys)) w h in
        tuple-IsFrozen ys w (freeze_items_lem (suc d) xs ys p a) b
    freeze_lem d (set xs) w p h =
        let (ys, a, b) = bind-cases (freeze_items copy (suc d) xs) as_frozenset w h in
        frozenset-IsFrozen ys w (freeze_items_lem (suc d) xs ys p a) b
    freeze_lem d (frozenset xs) w p h =
        let (ys, a, b) = bind-cases (freeze_items copy (suc d) xs) as_frozenset w h in
        frozenset-IsFrozen ys w (freeze_items_lem (suc d) xs ys p a) b
    freeze_lem d (dataclass fs) w p h =
        let (gs, a, b) = bind-cases (freeze_fields copy d fs) (λ gs. some (mapping true gs)) w h in
        mapping-IsFrozen gs w (freeze_fields_lem d fs gs p a) b
    freeze_lem d (array v) w p h = freeze_lem d v w p h
    freeze_lem d opaque w p h = ground arith

    freeze_items_lem :
        (d : ℕ) (xs ws : Items S)
        → HavePlainKeys xs
        → freeze_items copy d xs ≡ some ws
        → AreFrozen ws
    freeze_items_lem d nil ws p h = ground arith
    freeze_items_lem d (cons x xs) ws p h =
        let (y, a, b) =
          bind-cases (freeze copy d x) (λ y. bind (freeze_items copy d xs) (λ ys. some (cons y ys)))
            ws h in
        let (ys, c, e) = bind-cases (freeze_items copy d xs) (λ ys. some (cons y ys)) ws b in
        ground (arith, freeze_lem d x y p.0 a, freeze_items_lem d xs ys p.1 c)

    freeze_fields_lem :
        (d : ℕ) (xs ws : Fields S)
        → HavePlainKeysFields xs
        → freeze_fields copy d xs ≡ some ws
        → AreFrozenFields ws
    freeze_fields_lem d end ws p h = ground arith
    freeze_fields_lem d (field k x xs) ws p h =
        let (m, i, j) =
          bind-cases (copy_key_again copy d k)
            (λ m.
              bind (freeze copy d x)
                (λ y. bind (freeze_fields copy d xs) (λ ys. some (field m y ys))))
            ws h in
        let (y, a, b) =
          bind-cases (freeze copy d x)
            (λ y. bind (freeze_fields copy d xs) (λ ys. some (field m y ys))) ws j in
        let (ys, c, e) = bind-cases (freeze_fields copy d xs) (λ ys. some (field m y ys)) ws b in
        ground (
          arith,
          plain-copies copy d k p.0,
          freeze_lem d x y p.1 a,
          freeze_fields_lem d xs ys p.2 c,
        )

  -- Where every key of a mapping in a value, at any depth, is immutable: what `_freeze` makes of the
  -- value, if it makes anything, cannot be changed anywhere inside; its `_thaw` succeeds, and freezing
  -- that export gives the same frozen value back.
  pub freeze-thaw :
      (v w : Value S)
      → HasPlainKeys v
      → freeze copy 0 v ≡ some w
      → IsFrozen w × ((t : Value S) × (thaw copy w ≡ some t) × (freeze copy 0 t ≡ some w))
  freeze-thaw v w p h =
      let frozen = freeze_lem 0 v w p h in
      let (t, a, b, c) = export w frozen in (frozen, (t, a, b 0))
