-- ===== src/Observations/Window.antt =====
-- The store of src/embodirun/devices/observations/store.py against the history of what was
-- published.
use embodi_run.Base.{
  ℕ, suc, ◌+◌, ◌≤◌, ◌<◌, ◌≡◌, refl, ap, Bool, false, Option, none, some, List, [], ◌∷◌, ◌++◌,
  String, arith, ok, length, str_eq, eq_iff, All, All-append, zero, if◌then◌else◌,
}
use embodi_run.Base.Classes.{string_eq}
use embodi_run.Base.Dict.{Dict, lookup, insert, erase, lookup-insert, lookup-erase}
use embodi_run.Base.Windows.{last_n, drop, append_bounded}
use embodi_run.Observations.Store.{
  Snapshot, Store, create, publish, next_observation_id, subscribe, unsubscribe, begin_generation,
  close, last_sequence, not_after,
}

-- The first snapshot of a list with the identity.
abbrev pub find : {A : Type 0} → String → List (Snapshot A) → Option (Snapshot A)
find id [] = none
find id (x ∷ xs) = if str_eq x.observation_id id then some x else find id xs

abbrev pub last : {A : Type 0} → List (Snapshot A) → Option (Snapshot A)
last [] = none
last (x ∷ []) = some x
last (x ∷ y ∷ ys) = last (y ∷ ys)

-- Each snapshot's identity is new among the later ones, and its sequence is below theirs.
abbrev pub IsOrdered : {A : Type 0} → List (Snapshot A) → Type 0
IsOrdered [] = Unit
IsOrdered (x ∷ xs) =
    (find x.observation_id xs ≡ none) × All (λ y. x.sequence < y.sequence) xs × IsOrdered xs

module _ {A : Type 0} where
  -- A store with what it has published in its present generation, oldest first.
  pub data History : Store A → List (Snapshot A) → Type 0 where
    created : (n : ℕ) (service : String) {s : Store A} → create n service ≡ ok s → History s []
    published :
        {s u : Store A} {h : List (Snapshot A)} (x : Snapshot A)
        → History s h
        → publish x s ≡ ok u
        → History u (h ++ x ∷ [])
    numbered :
        {s u : Store A} {h : List (Snapshot A)} (g n : ℕ)
        → History s h
        → next_observation_id s ≡ ok (u, g, n)
        → History u h
    subscribed :
        {s u : Store A} {h : List (Snapshot A)} (id n : ℕ) (replay : Bool) (o : Option (Snapshot A))
        → History s h
        → subscribe id n replay s ≡ ok (u, o)
        → History u h
    unsubscribed :
        {s : Store A} {h : List (Snapshot A)} (id : ℕ) → History s h → History (unsubscribe id s) h
    renewed :
        {s u : Store A} {h : List (Snapshot A)} (g : ℕ)
        → History s h
        → begin_generation s ≡ ok (u, g)
        → History u []
    closed :
        {s : Store A} {h : List (Snapshot A)}
        → History s h
        → s.closed ≡ false
        → History (close s) []

  -- What a reader sees of the store, by the history alone.
  pub record View (s : Store A) (h : List (Snapshot A)) : Type 0 where
    pub some_retained : 1 ≤ s.max_retained
    pub window : s.retained ≡ last_n s.max_retained h
    pub newest : s.latest ≡ last h
    pub indexed : (id : String) → lookup id s.by_id ≡ find id s.retained
    pub ordered : IsOrdered s.retained
    pub of_generation : All (λ x. x.generation ≡ s.generation) s.retained

  pub find-append :
      (id : String) (xs : List (Snapshot A)) (x : Snapshot A)
      → find id (xs ++ x ∷ []) ≡ elim (find id xs) [ some y ↦ some y | none ↦ find id (x ∷ []) ]
  find-append id [] x = ground arith
  find-append id (y ∷ ys) x = ground (arith, find-append id ys x)

  pub last-append : (h : List (Snapshot A)) (x : Snapshot A) → last (h ++ x ∷ []) ≡ some x
  last-append [] x = refl
  last-append (y ∷ []) x = refl
  last-append (y ∷ z ∷ zs) x = last-append (z ∷ zs) x

  pub All-lt-last :
      (n : ℕ) (xs : List (Snapshot A))
      → IsOrdered xs
      → not_after (last_sequence xs) n ≡ false
      → All (λ y. y.sequence < n) xs
  All-lt-last n [] o h = tt
  All-lt-last n (x ∷ []) o h = ground arith
  All-lt-last n (x ∷ y ∷ ys) o h = ground (arith, All-lt-last n (y ∷ ys))

  pub IsOrdered-append :
      (xs : List (Snapshot A)) (x : Snapshot A)
      → IsOrdered xs
      → All (λ y. y.sequence < x.sequence) xs
      → find x.observation_id xs ≡ none
      → IsOrdered (xs ++ x ∷ [])
  IsOrdered-append [] x o l f = (refl, tt, tt)
  IsOrdered-append (y ∷ ys) x o l f = (
    ground (
      arith,
      find-append y.observation_id ys x,
      eq_iff x.observation_id y.observation_id,
      eq_iff y.observation_id x.observation_id,
    ),
    All-append (λ z. y.sequence < z.sequence) ys (x ∷ []) o.1 (l.0, tt),
    IsOrdered-append ys x o.2 l.1 (ground arith),
  )

  pub IsOrdered-drop : (n : ℕ) (xs : List (Snapshot A)) → IsOrdered xs → IsOrdered (drop n xs)
  IsOrdered-drop zero xs o = o
  IsOrdered-drop (suc n) [] o = o
  IsOrdered-drop (suc n) (x ∷ xs) o = IsOrdered-drop n xs o.2

  pub find-insert :
      (xs : List (Snapshot A)) (x : Snapshot A) (d : Dict String (Snapshot A))
      → ((j : String) → lookup j d ≡ find j xs)
      → find x.observation_id xs ≡ none
      → (j : String) → lookup j (insert x.observation_id x d) ≡ find j (xs ++ x ∷ [])
  find-insert xs x d i f j = ground (
    arith,
    lookup-insert x.observation_id j x d,
    i j,
    find-append j xs x,
    eq_iff x.observation_id j,
  )

  pub find-erase :
      (y : Snapshot A) (xs : List (Snapshot A)) (d : Dict String (Snapshot A))
      → ((j : String) → lookup j d ≡ find j (y ∷ xs))
      → find y.observation_id xs ≡ none
      → (j : String) → lookup j (erase y.observation_id d) ≡ find j xs
  find-erase y xs d i f j =
      ground (arith, lookup-erase y.observation_id j d, i j, eq_iff y.observation_id j)

  pub append_room :
      (n : ℕ) (xs : List (Snapshot A)) (x : Snapshot A)
      → length xs + 1 ≤ n
      → append_bounded n xs x ≡ xs ++ x ∷ []
  append_room n xs x h = ap (λ k. drop k (xs ++ x ∷ [])) {y = zero} (omega arith)

  pub append_full :
      (n : ℕ) (y : Snapshot A) (ys : List (Snapshot A)) (x : Snapshot A)
      → length (y ∷ ys) ≡ n
      → append_bounded n (y ∷ ys) x ≡ ys ++ x ∷ []
  append_full n y ys x h = ap (λ k. drop k (y ∷ ys ++ x ∷ [])) {y = 1} (omega arith)
