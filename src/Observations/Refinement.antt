-- ===== src/Observations/Refinement.antt =====
-- The store of src/embodirun/devices/observations/store.py shows the history through its window.
use embodi_run.Base.{
  ◌+◌, ◌-◌, ◌*◌, ◌==◌, ◌≤◌, ◌<◌, ◌≡◌, refl, sym, ap, subst, ◌∙◌, false, none, some, List, [], ◌∷◌,
  ◌++◌, String, arith, ok, length, List-cases, Bool-cases, inl, inr, All, All-append,
}
use embodi_run.Base.Classes.{string_eq}
use embodi_run.Base.Dict.{lookup, erase}
use embodi_run.Base.Windows.{last_n, drop-nil, append_bounded, append_bounded-last_n, length-last_n}
use embodi_run.Observations.Store.{
  Snapshot, Store, create, publish, next_observation_id, subscribe, unsubscribe, begin_generation,
  close, keep, retire_oldest, last_sequence, not_after,
}
use embodi_run.Observations.Window.{
  find, IsOrdered, History, View, created, published, numbered, subscribed, unsubscribed, renewed,
  closed, last-append, All-lt-last, IsOrdered-append, find-insert, find-erase, append_room,
  append_full,
}

module _ {A : Type 0} where
  -- What an accepted publication meets.
  record Admitted (s : Store A) (x : Snapshot A) : Type 0 where
    fresh : find x.observation_id s.retained ≡ none
    in_generation : x.generation ≡ s.generation
    in_order : not_after (last_sequence s.retained) x.sequence ≡ false

  publish-Admitted :
      {s u : Store A} {h : List (Snapshot A)} (x : Snapshot A)
      → View s h
      → publish x s ≡ ok u
      → Admitted s x × (u ≡ keep x (retire_oldest s.retained s))
  unfolding publish
  publish-Admitted x v h = (
    record {
      fresh = ground (arith, v.indexed x.observation_id);
      in_generation = ground arith;
      in_order = ground arith;
    },
    ground arith,
  )

  -- The fields of the view that the window alone decides.
  kept-View :
      {s u : Store A} {h : List (Snapshot A)} (x : Snapshot A) (rest : List (Snapshot A))
      → View s h
      → Admitted s x
      → u.max_retained ≡ s.max_retained
      → u.generation ≡ s.generation
      → u.latest ≡ some x
      → u.retained ≡ append_bounded s.max_retained s.retained x
      → u.retained ≡ rest ++ x ∷ []
      → IsOrdered rest
      → All (λ y. y.sequence < x.sequence) rest
      → All (λ y. y.generation ≡ s.generation) rest
      → find x.observation_id rest ≡ none
      → ((j : String) → lookup j u.by_id ≡ find j (rest ++ x ∷ []))
      → View u (h ++ x ∷ [])
  kept-View {s} {u} {h} x rest v a m g l w r o lt gs f i = record {
    some_retained = rw m v.some_retained;
    window =
        w
        ∙ ap (λ k. append_bounded s.max_retained k x) v.window
        ∙ append_bounded-last_n s.max_retained h x
        ∙ ap (λ n. last_n n (h ++ x ∷ [])) (sym m);
    newest = l ∙ sym (last-append h x);
    indexed = λ j. i j ∙ ap (find j) (sym r);
    ordered = subst IsOrdered (sym r) (IsOrdered-append rest x o lt f);
    of_generation = subst (All (λ y. y.generation ≡ u.generation)) (sym r) (
        rw g
          (All-append (λ y. y.generation ≡ s.generation) rest (x ∷ []) gs (a.in_generation, tt)));
  }

  room-View :
      {s : Store A} {h : List (Snapshot A)} (x : Snapshot A)
      → View s h
      → Admitted s x
      → length s.retained + 1 ≤ s.max_retained
      → View (keep x s) (h ++ x ∷ [])
  room-View {s} {h} x v a room =
      kept-View x s.retained v a refl refl refl refl (append_room s.max_retained s.retained x room)
        v.ordered (All-lt-last x.sequence s.retained v.ordered a.in_order) v.of_generation a.fresh
        (find-insert s.retained x s.by_id v.indexed a.fresh)

  abbrev retire : Snapshot A → Store A → Store A
  retire y s = record s {
    by_id = erase y.observation_id s.by_id;
    retired_ids = append_bounded (s.max_retained * 2) s.retired_ids y.observation_id;
  }

  full-View :
      {s : Store A} {h : List (Snapshot A)} (x y : Snapshot A) (ys : List (Snapshot A))
      → View s h
      → Admitted s x
      → s.retained ≡ y ∷ ys
      → length s.retained ≡ s.max_retained
      → View (keep x (retire y s)) (h ++ x ∷ [])
  full-View {s} {h} x y ys v a e full =
      let ordered : IsOrdered (y ∷ ys) = subst IsOrdered e v.ordered in
      let in_order : not_after (last_sequence (y ∷ ys)) x.sequence ≡ false =
        subst (λ k. not_after (last_sequence k) x.sequence ≡ false) e a.in_order in
      let below : All (λ z. z.sequence < x.sequence) (y ∷ ys) =
        All-lt-last x.sequence (y ∷ ys) ordered in_order in
      let current : All (λ z. z.generation ≡ s.generation) (y ∷ ys) =
        subst (All (λ z. z.generation ≡ s.generation)) e v.of_generation in
      let new : find x.observation_id (y ∷ ys) ≡ none =
        subst (λ k. find x.observation_id k ≡ none) e a.fresh in
      let fresh : find x.observation_id ys ≡ none = ground arith in
      let size : length (y ∷ ys) ≡ s.max_retained = subst (λ k. length k ≡ s.max_retained) e full in
      kept-View x ys v a refl refl refl refl
        (ap (λ k. append_bounded s.max_retained k x) e ∙ append_full s.max_retained y ys x size)
        ordered.2 below.1 current.1 fresh
        (find-insert ys x (erase y.observation_id s.by_id)
          (find-erase y ys s.by_id (λ j. v.indexed j ∙ ap (find j) e) ordered.0) fresh)

  retained_fits :
      {s : Store A} {h : List (Snapshot A)} → View s h → length s.retained ≤ s.max_retained
  retained_fits {s} {h} v =
      subst (λ k. length k ≤ s.max_retained) (sym v.window) (length-last_n s.max_retained h)

  publish-View :
      {s u : Store A} {h : List (Snapshot A)} (x : Snapshot A)
      → View s h
      → publish x s ≡ ok u
      → View u (h ++ x ∷ [])
  publish-View {s} {u} {h} x v p =
      let (a, same) = publish-Admitted x v p in
      let fits = retained_fits v in
      elim (List-cases s.retained) [
        | inl e ↦
            subst (λ k. View k (h ++ x ∷ [])) (sym (same ∙ ap (λ r. keep x (retire_oldest r s)) e))
              (room-View x v a (omega (arith, ap length e, v.some_retained)))
        | inr (y, ys, e) ↦ elim (Bool-cases (length s.retained == s.max_retained)) [
          | inl full ↦
              let met : u ≡ keep x (retire y s) = ground arith in
              subst (λ k. View k (h ++ x ∷ [])) (sym met) (full-View x y ys v a e (ground arith))
          | inr room ↦
              let met : u ≡ keep x s = ground arith in
              subst (λ k. View k (h ++ x ∷ [])) (sym met) (room-View x v a (ground arith))
        ]
      ]

  -- What begins a generation: an empty window.
  empty-View :
      {s : Store A}
      → 1 ≤ s.max_retained
      → s.retained ≡ []
      → s.by_id ≡ []
      → s.latest ≡ none
      → View s []
  unfolding lookup
  empty-View {s} m r b l = record {
    some_retained = m;
    window = r ∙ sym (drop-nil (0 - s.max_retained));
    newest = l;
    indexed = λ j. rw (b, r) refl;
    ordered = rw r tt;
    of_generation = rw r tt;
  }

  same-View :
      {s u : Store A} {h : List (Snapshot A)}
      → u.max_retained ≡ s.max_retained
      → u.retained ≡ s.retained
      → u.by_id ≡ s.by_id
      → u.latest ≡ s.latest
      → u.generation ≡ s.generation
      → View s h
      → View u h
  same-View m r b l g v = record {
    some_retained = rw m v.some_retained;
    window = rw (m, r) v.window;
    newest = rw l v.newest;
    indexed = λ j. rw (b, r) (v.indexed j);
    ordered = rw r v.ordered;
    of_generation = rw (r, g) v.of_generation;
  }

  close-View :
      {s : Store A} {h : List (Snapshot A)} → View s h → s.closed ≡ false → View (close s) []
  unfolding close
  close-View v c =
      empty-View (ground (arith, v.some_retained)) (ground arith) (ground arith) (ground arith)

  -- For every sequence of calls, taken and refused, a reader sees the store as a function of the
  -- history of what was published in the present generation, and since the last closing, which leaves
  -- an empty history: the window is the last `max_retained`
  -- of it, the latest is its last, an identity is found exactly if it is in the window, the
  -- sequences rise, and each snapshot is of the present generation.
  pub store_refines-History : {s : Store A} {h : List (Snapshot A)} → History s h → View s h
  unfolding create next_observation_id subscribe unsubscribe begin_generation
  store_refines-History (created n service e) =
      empty-View (ground arith) (ground arith) (ground arith) (ground arith)
  store_refines-History (published x r e) = publish-View x (store_refines-History r) e
  store_refines-History (numbered g n r e) =
      same-View (ground arith) (ground arith) (ground arith) (ground arith) (ground arith)
        (store_refines-History r)
  store_refines-History (subscribed id n b o r e) =
      same-View (ground arith) (ground arith) (ground arith) (ground arith) (ground arith)
        (store_refines-History r)
  store_refines-History (unsubscribed id r) =
      same-View refl refl refl refl refl (store_refines-History r)
  store_refines-History (renewed g r e) =
      let v = store_refines-History r in
      empty-View (ground (arith, v.some_retained)) (ground arith) (ground arith) (ground arith)
  store_refines-History (closed r c) = close-View (store_refines-History r) c
