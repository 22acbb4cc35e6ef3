-- ===== src/Devices/Leases.antt =====
-- The tokens of the leases on a record (src/embodirun/devices/lifecycle.py).
use embodi_run.Base.{
  ℕ, suc, ◌+◌, ◌<◌, ◌≡◌, refl, sym, ap, ◌∙◌, inl, inr, true, false, List, [], ◌∷◌, ◌==◌, arith,
  length, All, Bool-cases,
}
use embodi_run.Devices.Types.{identity_eq}
use embodi_run.Devices.Close.{has_token, remove_token}

abbrev pub Distinct : List ℕ → Type 0
Distinct [] = Unit
Distinct (x ∷ xs) = (has_token x xs ≡ false) × Distinct xs

abbrev pub Below : ℕ → List ℕ → Type 0
Below n xs = All (λ t. t < n) xs

remove-absent : (t : ℕ) (xs : List ℕ) → has_token t xs ≡ false → remove_token t xs ≡ xs
remove-absent t [] h = refl
remove-absent t (x ∷ xs) h = ground (arith, remove-absent t xs)

has-remove :
    (s t : ℕ) (xs : List ℕ) → has_token s xs ≡ false → has_token s (remove_token t xs) ≡ false
has-remove s t [] h = h
has-remove s t (x ∷ xs) h = ground (arith, has-remove s t xs)

pub Distinct-remove : (t : ℕ) (xs : List ℕ) → Distinct xs → Distinct (remove_token t xs)
Distinct-remove t [] d = tt
Distinct-remove t (x ∷ xs) d = elim (Bool-cases (x == t)) [
  | inl e ↦ rw e (Distinct-remove t xs d.1)
  | inr e ↦ rw e (has-remove x t xs d.0, Distinct-remove t xs d.1)
]

pub length-remove :
    (t : ℕ) (xs : List ℕ)
    → Distinct xs
    → has_token t xs ≡ true
    → length (remove_token t xs) + 1 ≡ length xs
length-remove t [] d h = absurd (ground arith)
length-remove t (x ∷ xs) d h = elim (Bool-cases (x == t)) [
  | inl e ↦
      let same : x ≡ t = ground arith in
      let absent : has_token t xs ≡ false = ap (λ y. has_token y xs) (sym same) ∙ d.0 in
      rw e (ap (λ l. length l + 1) (remove-absent t xs absent) ∙ omega arith)
  | inr e ↦
      let later : has_token t xs ≡ true = ground arith in
      let rest = length-remove t xs d.1 later in rw e (omega arith)
]

pub Below-remove : (t n : ℕ) (xs : List ℕ) → Below n xs → Below n (remove_token t xs)
Below-remove t n [] b = tt
Below-remove t n (x ∷ xs) b = elim (Bool-cases (x == t)) [
  | inl e ↦ rw e (Below-remove t n xs b.1)
  | inr e ↦ rw e (b.0, Below-remove t n xs b.1)
]

pub Below-suc : (n : ℕ) (xs : List ℕ) → Below n xs → Below (suc n) xs
Below-suc n [] b = tt
Below-suc n (x ∷ xs) b = (omega (arith, b.0), Below-suc n xs b.1)

pub Below-absent : (n : ℕ) (xs : List ℕ) → Below n xs → has_token n xs ≡ false
Below-absent n [] b = refl
Below-absent n (x ∷ xs) b = ground (arith, b.0, Below-absent n xs b.1)
