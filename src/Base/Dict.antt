-- ===== src/Base/Dict.antt =====
-- Tables with a key: Python's `dict`, and a database table with a primary key.
use Prim.Native.Nat.{suc}
use mathlib.Core.Path.{◌≡◌, refl, sym, subst}
use mathlib.Core.Logic.{inl, inr}
use mathlib.Core.Option.{Option, none, some}
use mathlib.Core.List.{List, [], ◌∷◌}
use native.Mathlib.Omega.{arith}
use embodi_run.Base.Tests.{if◌then◌else◌, Bool-cases}
use embodi_run.Base.Lists.{length, All}
use embodi_run.Base.Classes.{Eq}

abbrev pub map_option {ℓ} : {A B : Type ℓ} → (A → B) → Option A → Option B
map_option f none = none
map_option f (some a) = some (f a)

abbrev pub Dict {ℓ} : Type ℓ → Type ℓ → Type ℓ
Dict K V = List (K × V)

module _ {ℓ} {K V : Type ℓ} ⦃e : Eq K⦄ where
  unfoldable pub lookup : K → Dict K V → Option V
  lookup k [] = none
  lookup k ((j, v) ∷ d) = if e.beq j k then some v else lookup k d

  -- `d[k] = v`, in the place of an older entry.
  unfoldable pub insert : K → V → Dict K V → Dict K V
  insert k v [] = (k, v) ∷ []
  insert k v ((j, w) ∷ d) = if e.beq j k then (j, v) ∷ d else (j, w) ∷ insert k v d

  -- Changes the entry of one key, if there is one.
  unfoldable pub update : K → (V → V) → Dict K V → Dict K V
  update k f [] = []
  update k f ((j, v) ∷ d) = (j, if e.beq j k then f v else v) ∷ update k f d

  -- `d.pop(k, None)`
  unfoldable pub erase : K → Dict K V → Dict K V
  erase k [] = []
  erase k ((j, v) ∷ d) = let rest = erase k d in if e.beq j k then rest else (j, v) ∷ rest

  pub lookup-insert :
      (k j : K) (v : V) (d : Dict K V)
      → lookup j (insert k v d) ≡ (if e.beq k j then some v else lookup j d)
  unfolding lookup insert
  lookup-insert k j v [] = refl
  lookup-insert k j v ((i, w) ∷ d) =
      ground (arith, e.beq_iff k j, e.beq_iff i k, e.beq_iff i j, lookup-insert k j v d)

  pub lookup-update :
      (k j : K) (f : V → V) (d : Dict K V)
      → lookup j (update k f d) ≡ (if e.beq k j then map_option f (lookup j d) else lookup j d)
  unfolding lookup update
  lookup-update k j f [] = ground arith
  lookup-update k j f ((i, w) ∷ d) =
      ground (arith, e.beq_iff k j, e.beq_iff i k, e.beq_iff i j, lookup-update k j f d)

  pub lookup-erase :
      (k j : K) (d : Dict K V) → lookup j (erase k d) ≡ (if e.beq k j then none else lookup j d)
  unfolding lookup erase
  lookup-erase k j [] = ground arith
  lookup-erase k j ((i, w) ∷ d) =
      ground (arith, e.beq_iff k j, e.beq_iff i k, e.beq_iff i j, lookup-erase k j d)

  pub length-update : (k : K) (f : V → V) (d : Dict K V) → length (update k f d) ≡ length d
  unfolding update
  length-update k f [] = refl
  length-update k f ((j, v) ∷ d) = omega (arith, length-update k f d)

  pub length-insert_new :
      (k : K) (v : V) (d : Dict K V) → lookup k d ≡ none → length (insert k v d) ≡ suc (length d)
  unfolding lookup insert
  length-insert_new k v [] h = refl
  length-insert_new k v ((j, w) ∷ d) h = ground (arith, length-insert_new k v d)

module _ {ℓ} {K V : Type ℓ} where
  -- Changes every entry.
  unfoldable pub map_values : (V → V) → Dict K V → Dict K V
  map_values f [] = []
  map_values f ((j, v) ∷ d) = (j, f v) ∷ map_values f d

  pub length-map_values : (f : V → V) (d : Dict K V) → length (map_values f d) ≡ length d
  unfolding map_values
  length-map_values f [] = refl
  length-map_values f ((j, v) ∷ d) = omega (arith, length-map_values f d)

  pub lookup-map_values :
      ⦃e : Eq K⦄ (k : K) (f : V → V) (d : Dict K V)
      → lookup k (map_values f d) ≡ map_option f (lookup k d)
  unfolding lookup map_values
  lookup-map_values k f [] = refl
  lookup-map_values k f ((j, v) ∷ d) = ground (arith, lookup-map_values k f d)

-- A predicate of every entry.
abbrev pub Entries {ℓ κ} : {K V : Type ℓ} → (K → V → Type κ) → Dict K V → Type κ
Entries P d = All (λ e. P e.0 e.1) d

module _ {ℓ κ} {K V : Type ℓ} ⦃e : Eq K⦄ (P : K → V → Type κ) where
  pub lookup-Entries : (k : K) (v : V) (d : Dict K V) → Entries P d → lookup k d ≡ some v → P k v
  unfolding lookup
  lookup-Entries k v [] a h = absurd (ground arith)
  lookup-Entries k v ((j, w) ∷ d) a h = elim (Bool-cases (e.beq j k)) [
    | inl same ↦
        let key : j ≡ k = (e.beq_iff j k).0 same in
        let value : w ≡ v = ground arith in subst (λ y. P k y) value (subst (λ x. P x w) key a.0)
    | inr other ↦ lookup-Entries k v d a.1 (ground arith)
  ]

  pub insert-Entries :
      (k : K) (v : V) (d : Dict K V) → Entries P d → P k v → Entries P (insert k v d)
  unfolding insert
  insert-Entries k v [] a h = (h, tt)
  insert-Entries k v ((j, w) ∷ d) a h = elim (Bool-cases (e.beq j k)) [
    | inl same ↦
        let key : k ≡ j = sym ((e.beq_iff j k).0 same) in rw same (subst (λ x. P x v) key h, a.1)
    | inr other ↦ rw other (a.0, insert-Entries k v d a.1 h)
  ]

  pub erase-Entries : (k : K) (d : Dict K V) → Entries P d → Entries P (erase k d)
  unfolding erase
  erase-Entries k [] a = tt
  erase-Entries k ((j, w) ∷ d) a = elim (Bool-cases (e.beq j k)) [
    | inl same ↦ rw same (erase-Entries k d a.1)
    | inr other ↦ rw other (a.0, erase-Entries k d a.1)
  ]
