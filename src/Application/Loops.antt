-- ===== src/Application/Loops.antt =====
-- Loops over a list that make one call for each item, in the runs of src/embodirun/application.
use embodi_run.Base.{
  ℕ, suc, ◌≤◌, ◌≡◌, refl, ap, ◌∙◌, Option, none, some, List, [], ◌∷◌, ◌++◌, arith, Result, ok, err,
  length, IsPrefix, All, Result-cases, inl, inr,
}
use embodi_run.Application.Effects.{Run, lift, ◌>>=◌, ◌>>◌}

-- What the calls of a run do to items, in order.
abbrev pub add : {A : Type 0} → Option A → List A → List A
add none l = l
add (some a) l = a ∷ l

abbrev pub marked : {E A : Type 0} → (E → Option A) → List E → List A
marked mark [] = []
marked mark (e ∷ t) = add (mark e) (marked mark t)

add-append : {A : Type 0} (o : Option A) (l r : List A) → add o (l ++ r) ≡ add o l ++ r
add-append none l r = refl
add-append (some a) l r = refl

pub marked-append :
    {E A : Type 0} (mark : E → Option A) (t u : List E)
    → marked mark (t ++ u) ≡ marked mark t ++ marked mark u
marked-append mark [] u = refl
marked-append mark (e ∷ t) u =
    ap (add (mark e)) (marked-append mark t u) ∙ add-append (mark e) (marked mark t) (marked mark u)

-- One turn: a check, the call, what follows from its answer, and the other turns.
abbrev pub turn :
    {E F X : Type 0}
    → Result F Unit
    → E
    → Result F X
    → (X → Result F Unit)
    → Run E F Unit
    → Run E F Unit
turn pre e answer post rest = lift pre >> ((e ∷ [], answer) >>= λ x. lift (post x) >> rest)

module _ {E A : Type 0} (mark : E → Option A) (e : E) (a : A) (m : mark e ≡ some a) where
  one : (t : List E) → marked mark (e ∷ t) ≡ a ∷ marked mark t
  one t = ap (λ o. add o (marked mark t)) m

  pub turn-IsPrefix :
      {F X : Type 0} (pre : Result F Unit) (r : Result F X) (post : X → Result F Unit)
      (rest : Run E F Unit) (xs : List A)
      → IsPrefix (marked mark rest.0) xs
      → IsPrefix (marked mark (turn pre e r post rest).0) (a ∷ xs)
  turn-IsPrefix (err f) r post rest xs h = (a ∷ xs, refl)
  turn-IsPrefix (ok u) (err f) post rest xs h = (xs, ap (λ l. l ++ xs) (one []))
  turn-IsPrefix (ok u) (ok x) post rest xs h = elim (Result-cases (post x)) [
    | inr (f, p) ↦ rw p (xs, ap (λ l. l ++ xs) (one []))
    | inl (v, p) ↦ rw p (h.0, ap (λ l. l ++ h.0) (one rest.0) ∙ ap (λ l. a ∷ l) h.1)
  ]

  -- A turn that returns went through all its parts.
  pub turn_complete :
      {F X : Type 0} (pre : Result F Unit) (r : Result F X) (post : X → Result F Unit)
      (rest : Run E F Unit)
      → (turn pre e r post rest).1 ≡ ok tt
      → (rest.1 ≡ ok tt) × (marked mark (turn pre e r post rest).0 ≡ a ∷ marked mark rest.0)
  turn_complete (err f) r post rest h = absurd (ground arith)
  turn_complete (ok u) (err f) post rest h = absurd (ground arith)
  turn_complete (ok u) (ok x) post rest h = elim (Result-cases (post x)) [
    | inr (f, p) ↦ absurd (ground arith)
    | inl (v, p) ↦ rw p (ground arith, one rest.0)
  ]

  pub turn-bound :
      {F X : Type 0} (pre : Result F Unit) (r : Result F X) (post : X → Result F Unit)
      (rest : Run E F Unit) (j : ℕ)
      → length (marked mark rest.0) ≤ j
      → length (marked mark (turn pre e r post rest).0) ≤ suc j
  turn-bound (err f) r post rest j h = omega arith
  turn-bound (ok u) (err f) post rest j h = omega (arith, ap length (one []))
  turn-bound (ok u) (ok x) post rest j h = elim (Result-cases (post x)) [
    | inr (f, p) ↦ rw p (omega (arith, ap length (one [])))
    | inl (v, p) ↦ rw p (omega (arith, h, ap length (one rest.0)))
  ]

module _ {E F X : Type 0} (P : E → Type 0) where
  -- A turn makes no call but its own and those of the other turns.
  pub turn-All :
      (pre : Result F Unit) (e : E) (r : Result F X) (post : X → Result F Unit)
      (rest : Run E F Unit)
      → P e
      → All P rest.0
      → All P (turn pre e r post rest).0
  turn-All (err f) e r post rest p h = tt
  turn-All (ok u) e (err f) post rest p h = (p, tt)
  turn-All (ok u) e (ok x) post rest p h = elim (Result-cases (post x)) [
    | inr (f, q) ↦ rw q (p, tt)
    | inl (v, q) ↦ rw q (p, h)
  ]
