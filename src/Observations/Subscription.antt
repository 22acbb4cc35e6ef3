-- ===== src/Observations/Subscription.antt =====
-- `ObservationSubscription` of src/embodirun/devices/observations/store.py: its bounded queue.
use embodi_run.Base.{
  ◌⊎◌, ℕ, suc, ◌+◌, ◌≤◌, ◌≡◌, refl, sym, ap, subst, ◌∙◌, Bool, true, false, List, [], ◌∷◌, ◌++◌,
  arith, length, leb, length-append, List-cases, Bool-cases, inl, inr, if◌then◌else◌,
}
use mathlib.Core.List.{append_assoc}
use embodi_run.Base.Windows.{drop, drop-append, drop-tail}

pub record Subscription (A : Type 0) : Type 0 where
  pub max_queue : ℕ
  pub queue : List A
  pub dropped_count : ℕ
  pub closed : Bool

-- What `get` finds under the lock: a snapshot, a closed and empty queue, or nothing yet.
pub data Taken (A : Type 0) : Type 0 where
  snapshot : A → Taken A
  closed_empty wait : Taken A

module _ {A : Type 0} where
  unfoldable pub open_subscription : ℕ → Subscription A
  open_subscription max_queue = record {
    max_queue = max_queue;
    queue = [];
    dropped_count = 0;
    closed = false;
  }

  abbrev drop_oldest : List A → Subscription A → Subscription A
  drop_oldest [] s = s
  drop_oldest (x ∷ xs) s = record s { queue = xs; dropped_count = suc s.dropped_count }

  abbrev push : A → Subscription A → Subscription A
  push x s = record s { queue = s.queue ++ x ∷ [] }

  -- `_offer`
  unfoldable pub offer : A → Subscription A → Subscription A
  offer x s =
      if s.closed
      then s
      else push x (if leb s.max_queue (length s.queue) then drop_oldest s.queue s else s)

  abbrev take_front : List A → Subscription A → Subscription A × Taken A
  take_front [] s = (s, if s.closed then closed_empty else wait)
  take_front (x ∷ xs) s = (record s { queue = xs }, snapshot x)

  -- One look of `get` at the queue; on `wait` it waits, or raises `Empty` at its deadline.
  unfoldable pub get : Subscription A → Subscription A × Taken A
  get s = take_front s.queue s

  -- What `unsubscribe` and the store's `close` do to the subscription.
  unfoldable pub close : Subscription A → Subscription A
  close s = record s { closed = true }

  -- A subscription's life, with what it was offered while open and what its reader has taken.
  pub data Life (m : ℕ) : Subscription A → List A → List A → Type 0 where
    opened : Life m (open_subscription m) [] []
    offered :
        {s : Subscription A} {o t : List A} (x : A)
        → Life m s o t
        → s.closed ≡ false
        → Life m (offer x s) (o ++ x ∷ []) t
    refused :
        {s : Subscription A} {o t : List A} (x : A)
        → Life m s o t
        → s.closed ≡ true
        → Life m (offer x s) o t
    taken :
        {s : Subscription A} {o t : List A} (x : A)
        → Life m s o t
        → (get s).1 ≡ snapshot x
        → Life m (get s).0 o (t ++ x ∷ [])
    closed : {s : Subscription A} {o t : List A} → Life m s o t → Life m (close s) o t

  pub record Accounts (m : ℕ) (s : Subscription A) (o t : List A) : Type 0 where
    pub bounded : length s.queue ≤ m
    pub counted : length t + s.dropped_count + length s.queue ≡ length o
    pub newest : drop (length t + s.dropped_count) o ≡ s.queue
    pub same_bound : s.max_queue ≡ m
    pub lossless : (1 ≤ s.dropped_count) ⊎ (t ++ s.queue ≡ o)

  -- A queue that has room, and one that has not.
  offer_room :
      {m : ℕ} {s : Subscription A} {o t : List A} (x : A)
      → Accounts m s o t
      → length s.queue + 1 ≤ m
      → Accounts m (push x s) (o ++ x ∷ []) t
  offer_room {m} {s} {o} {t} x a room =
      let k = length t + s.dropped_count in
      record {
        bounded = omega (arith, length-append s.queue (x ∷ []));
        counted =
            omega (arith, a.counted, length-append s.queue (x ∷ []), length-append o (x ∷ []));
        newest = rw (drop-append k o (x ∷ []) (omega (arith, a.counted)), a.newest) refl;
        same_bound = a.same_bound;
        lossless = elim a.lossless [
          | inl z ↦ inl z
          | inr z ↦ inr (sym (append_assoc t s.queue (x ∷ [])) ∙ ap (λ l. l ++ x ∷ []) z)
        ];
      }

  offer_full :
      {m : ℕ} {s : Subscription A} {o t : List A} (x y : A) (ys : List A)
      → Accounts m s o t
      → s.queue ≡ y ∷ ys
      → Accounts m (push x (drop_oldest (y ∷ ys) s)) (o ++ x ∷ []) t
  offer_full {m} {s} {o} {t} x y ys a e =
      let k = length t + s.dropped_count in
      let size : length s.queue ≡ length ys + 1 = ground arith in
      let tail : drop (suc k) o ≡ ys = drop-tail k o y ys (ground arith) in
      record {
        bounded = omega (arith, length-append ys (x ∷ []));
        counted = omega (arith, a.counted, length-append ys (x ∷ []), length-append o (x ∷ []));
        newest =
            ap (λ n. drop n (o ++ x ∷ [])) {y = suc k} (omega arith)
            ∙ drop-append (suc k) o (x ∷ []) (omega (arith, a.counted))
            ∙ ap (λ l. l ++ x ∷ []) tail;
        same_bound = a.same_bound;
        lossless = inl (omega arith);
      }

  offer-Accounts :
      {m : ℕ} {s : Subscription A} {o t : List A} (x : A)
      → 1 ≤ m
      → Accounts m s o t
      → s.closed ≡ false
      → Accounts m (offer x s) (o ++ x ∷ []) t
  unfolding offer
  offer-Accounts {m} {s} {o} {t} x p a c = elim (Bool-cases (leb s.max_queue (length s.queue))) [
    | inl full ↦ elim (List-cases s.queue) [
      | inl e ↦ absurd (ground arith)
      | inr (y, ys, e) ↦
          let same : push x (drop_oldest (y ∷ ys) s) ≡ offer x s = ground arith in
          subst (λ u. Accounts m u (o ++ x ∷ []) t) same (offer_full x y ys a e)
    ]
    | inr room ↦
        let same : push x s ≡ offer x s = ground arith in
        subst (λ u. Accounts m u (o ++ x ∷ []) t) same (offer_room x a (ground arith))
  ]

  take-Accounts :
      {m : ℕ} {s : Subscription A} {o t : List A} (x : A)
      → Accounts m s o t
      → (get s).1 ≡ snapshot x
      → Accounts m (get s).0 o (t ++ x ∷ [])
  unfolding get
  take-Accounts {m} {s} {o} {t} x a h = elim (List-cases s.queue) [
    | inl e ↦ absurd (ground arith)
    | inr (y, ys, e) ↦
        let k = length t + s.dropped_count in
        let same : record s { queue = ys } ≡ (get s).0 = ground arith in
        let first : y ≡ x = ground arith in
        let size : length s.queue ≡ length ys + 1 = ground arith in
        let tail : drop (suc k) o ≡ ys = drop-tail k o y ys (ground arith) in
        subst (λ u. Accounts m u o (t ++ x ∷ [])) same
          (record {
            bounded = omega arith;
            counted = omega (arith, a.counted, length-append t (x ∷ []));
            newest =
                ap (λ n. drop n o) {y = suc k} (omega (arith, length-append t (x ∷ []))) ∙ tail;
            same_bound = a.same_bound;
            lossless = elim a.lossless [
              | inl z ↦ inl z
              | inr z ↦ inr (
                  append_assoc t (x ∷ []) ys
                  ∙ ap (λ l. t ++ l) (ap (λ w. w ∷ ys) (sym first) ∙ sym e)
                  ∙ z)
            ];
          })
  ]

  -- Through any sequence of offers, reads and closings, the queue holds at most its bound; it is
  -- exactly the end of what was offered while the subscription was open, after as many items as
  -- were taken or counted as dropped; and if none was dropped, what was taken and what is queued
  -- are together all that was offered, in order.
  pub subscription_Accounts :
      {m : ℕ} {s : Subscription A} {o t : List A} → 1 ≤ m → Life m s o t → Accounts m s o t
  unfolding open_subscription offer close
  subscription_Accounts p opened = record {
    bounded = omega arith;
    counted = omega arith;
    newest = refl;
    same_bound = refl;
    lossless = inr refl;
  }
  subscription_Accounts p (offered x l c) = offer-Accounts x p (subscription_Accounts p l) c
  subscription_Accounts p (refused x l c) = simp c (subscription_Accounts p l)
  subscription_Accounts p (taken x l h) = take-Accounts x (subscription_Accounts p l) h
  subscription_Accounts p (closed l) = ground (arith, subscription_Accounts p l)
