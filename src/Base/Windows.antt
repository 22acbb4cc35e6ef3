-- ===== src/Base/Windows.antt =====
-- The end of a list, and Python's `deque(maxlen=n)`.
use Prim.Native.Nat.{ℕ, zero, suc, ◌+◌, ◌-◌, ◌≤◌}
use mathlib.Core.Path.{◌≡◌, refl, ap, sym, ◌∙◌}
use mathlib.Core.List.{List, [], ◌∷◌, ◌++◌}
use native.Mathlib.Omega.{arith}
use embodi_run.Base.Lists.{length, length-append}

suc-add : (n m : ℕ) → suc (n + m) ≡ suc n + m
suc-add n m = omega arith

suc-eq-add : (n : ℕ) → suc n ≡ n + 1
suc-eq-add n = omega arith

module _ {ℓ} {A : Type ℓ} where
  abbrev pub drop : ℕ → List A → List A
  drop zero xs = xs
  drop (suc n) [] = []
  drop (suc n) (x ∷ xs) = drop n xs

  abbrev pub nil : List A
  nil = []

  pub drop-nil : (n : ℕ) → drop n nil ≡ nil
  drop-nil zero = refl
  drop-nil (suc n) = refl

  pub length-drop : (n : ℕ) (xs : List A) → length (drop n xs) ≡ length xs - n
  length-drop zero xs = omega arith
  length-drop (suc n) [] = omega arith
  length-drop (suc n) (x ∷ xs) = omega (arith, length-drop n xs)

  pub drop-append : (n : ℕ) (xs ys : List A) → n ≤ length xs → drop n (xs ++ ys) ≡ drop n xs ++ ys
  drop-append zero xs ys h = refl
  drop-append (suc n) [] ys h = absurd (omega arith)
  drop-append (suc n) (x ∷ xs) ys h = drop-append n xs ys (omega arith)

  pub drop-drop : (m n : ℕ) (xs : List A) → drop m (drop n xs) ≡ drop (n + m) xs
  drop-drop m zero xs = ap (λ k. drop k xs) (omega arith)
  drop-drop m (suc n) [] = drop-nil m ∙ sym (drop-nil (suc n + m))
  drop-drop m (suc n) (x ∷ xs) = drop-drop m n xs ∙ ap (λ k. drop k (x ∷ xs)) (suc-add n m)

  pub drop-tail :
      (k : ℕ) (o : List A) (y : A) (ys : List A) → drop k o ≡ y ∷ ys → drop (suc k) o ≡ ys
  drop-tail k o y ys h = ap (λ n. drop n o) (suc-eq-add k) ∙ sym (drop-drop 1 k o) ∙ ap (drop 1) h

  -- The last `n` items, oldest first.
  abbrev pub last_n : ℕ → List A → List A
  last_n n xs = drop (length xs - n) xs

  -- `deque(maxlen=n).append`: the oldest item makes room.
  abbrev pub append_bounded : ℕ → List A → A → List A
  append_bounded n xs x = drop (length xs + 1 - n) (xs ++ x ∷ [])

  pub append_bounded-last_n :
      (n : ℕ) (h : List A) (x : A) → append_bounded n (last_n n h) x ≡ last_n n (h ++ x ∷ [])
  append_bounded-last_n n h x =
      let d = length h - n in
      let k = length (drop d h) + 1 - n in
      ap (drop k) (sym (drop-append d h (x ∷ []) (omega arith)))
      ∙ drop-drop k d (h ++ x ∷ [])
      ∙ ap (λ m. drop m (h ++ x ∷ [])) (omega (arith, length-drop d h, length-append h (x ∷ [])))

  pub length-last_n : (n : ℕ) (h : List A) → length (last_n n h) ≤ n
  length-last_n n h = omega (arith, length-drop (length h - n) h)
