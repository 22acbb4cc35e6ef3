-- ===== src/Application/Effects.antt =====
-- A call that does some effects, in order, and then returns or raises.
use embodi_run.Base.{Bool, true, false, List, [], ◌∷◌, ◌++◌, String, Result, ok, err}

abbrev pub Run : Type 0 → Type 0 → Type 0 → Type 0
Run E F X = List E × Result F X

-- A call of something outside, with its answer.
abbrev pub answered : {F X : Type 0} → (String → F) → Result String X → Result F X
answered f (ok x) = ok x
answered f (err e) = err (f e)

abbrev pub refuse_if : {F : Type 0} → Bool → F → Result F Unit
refuse_if true e = err e
refuse_if false e = ok tt

-- `try: ... finally: ...`: an error of the second part replaces the first part's outcome.
abbrev pub finally_result : {F X : Type 0} → Result F X → Result F Unit → Result F X
finally_result r (ok u) = r
finally_result r (err e) = err e

module _ {E F : Type 0} where
  abbrev pub pure : {X : Type 0} → X → Run E F X
  pure x = ([], ok x)

  abbrev pub raise : {X : Type 0} → F → Run E F X
  raise e = ([], err e)

  abbrev pub lift : {X : Type 0} → Result F X → Run E F X
  lift r = ([], r)

  abbrev pub raise_if : Bool → F → Run E F Unit
  raise_if b e = lift (refuse_if b e)

  abbrev pub call : {X : Type 0} → E → (String → F) → Result String X → Run E F X
  call e f r = (e ∷ [], answered f r)

  abbrev pub ask : {X : Type 0} → (String → F) → Result String X → Run E F X
  ask f r = ([], answered f r)

  abbrev pub after : {X Y : Type 0} → List E → Result F X → (X → Run E F Y) → Run E F Y
  after t (ok x) k = (t ++ (k x).0, (k x).1)
  after t (err e) k = (t, err e)

  infixl 5 ◌>>=◌
  abbrev pub ◌>>=◌ : {X Y : Type 0} → Run E F X → (X → Run E F Y) → Run E F Y
  m >>= k = after m.0 m.1 k

  infixl 5 ◌>>◌
  abbrev pub ◌>>◌ : {X Y : Type 0} → Run E F X → Run E F Y → Run E F Y
  m >> k = after m.0 m.1 (λ _. k)

  abbrev pub finally : {X : Type 0} → Run E F X → Run E F Unit → Run E F X
  finally m k = (m.0 ++ k.0, finally_result m.1 k.1)
