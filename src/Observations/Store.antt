-- ===== src/Observations/Store.antt =====
-- `ObservationStore` of src/embodirun/devices/observations/store.py: each method's part under the
-- store's lock. A subscription is its identity here.
use embodi_run.Base.{
  ℕ, suc, ◌*◌, Bool, true, false, not, ◌||◌, Option, none, some, List, [], ◌∷◌, String, Result, ok,
  err, ◌>>◌, length, leb, ◌==◌, str_eq, is_some, if◌then◌else◌,
}
use embodi_run.Base.Classes.{string_eq}
use embodi_run.Base.Dict.{Dict, lookup, insert, erase}
use embodi_run.Base.Windows.{append_bounded}

-- `ObservationSnapshot`, as far as the store reads it; `payload` is the rest.
pub record Snapshot (A : Type 0) : Type 0 where
  pub observation_id : String
  pub service_instance_id : String
  pub generation : ℕ
  pub sequence : ℕ
  pub payload : A

pub data StoreError : Type 0 where
  store_closed bad_retention bad_queue_size : StoreError
  other_instance expired_generation duplicate_id old_sequence : StoreError
  unavailable expired : StoreError

pub record Store (A : Type 0) : Type 0 where
  pub max_retained : ℕ
  pub service_instance_id : String
  pub retained : List (Snapshot A)
  pub by_id : Dict String (Snapshot A)
  pub retired_ids : List String
  pub subscriptions : List ℕ
  pub latest : Option (Snapshot A)
  pub generation : ℕ
  pub next_sequence : ℕ
  pub closed : Bool

abbrev pub raise_if : Bool → StoreError → Result StoreError Unit
raise_if true e = err e
raise_if false e = ok tt

abbrev pub contains : String → List String → Bool
contains id [] = false
contains id (x ∷ xs) = str_eq x id || contains id xs

-- `retained[-1]`
abbrev pub last_sequence : {A : Type 0} → List (Snapshot A) → Option ℕ
last_sequence [] = none
last_sequence (x ∷ []) = some x.sequence
last_sequence (x ∷ y ∷ ys) = last_sequence (y ∷ ys)

abbrev pub not_after : Option ℕ → ℕ → Bool
not_after none n = false
not_after (some m) n = leb n m

abbrev remove_id : ℕ → List ℕ → List ℕ
remove_id i [] = []
remove_id i (x ∷ xs) = let rest = remove_id i xs in if x == i then rest else x ∷ rest

abbrev add_id : ℕ → List ℕ → List ℕ
add_id i xs = i ∷ remove_id i xs

module _ {A : Type 0} where
  unfoldable pub create : ℕ → String → Result StoreError (Store A)
  create max_retained service = do
    raise_if (max_retained == 0) bad_retention
    ok (record {
      max_retained = max_retained;
      service_instance_id = service;
      retained = [];
      by_id = [];
      retired_ids = [];
      subscriptions = [];
      latest = none;
      generation = 0;
      next_sequence = 0;
      closed = false;
    })

  abbrev require_open : Store A → Result StoreError Unit
  require_open s = raise_if s.closed store_closed

  -- `next_observation_id`, up to the wording of the identity: the generation and the sequence.
  unfoldable pub next_observation_id : Store A → Result StoreError (Store A × ℕ × ℕ)
  next_observation_id s = do
    require_open s
    ok (record s { next_sequence = suc s.next_sequence }, s.generation, suc s.next_sequence)

  -- The oldest snapshot leaves a full window.
  abbrev pub retire_oldest : List (Snapshot A) → Store A → Store A
  retire_oldest [] s = s
  retire_oldest (old ∷ rest) s =
      if length s.retained == s.max_retained
      then record s {
        by_id = erase old.observation_id s.by_id;
        retired_ids = append_bounded (s.max_retained * 2) s.retired_ids old.observation_id;
      }
      else s

  abbrev pub keep : Snapshot A → Store A → Store A
  keep x s = record s {
    retained = append_bounded s.max_retained s.retained x;
    by_id = insert x.observation_id x s.by_id;
    latest = some x;
  }

  -- The locked part of `publish`.
  unfoldable pub publish : Snapshot A → Store A → Result StoreError (Store A)
  publish x s = do
    require_open s
    raise_if (not (str_eq x.service_instance_id s.service_instance_id)) other_instance
    raise_if (not (x.generation == s.generation)) expired_generation
    raise_if (is_some (lookup x.observation_id s.by_id) || contains x.observation_id s.retired_ids)
        duplicate_id
    raise_if (not_after (last_sequence s.retained) x.sequence) old_sequence
    ok (keep x (retire_oldest s.retained s))

  -- `get`, for an identity that is not blank.
  unfoldable pub get : String → Store A → Result StoreError (Snapshot A)
  get id s = elim (lookup id s.by_id) [
    | some x ↦ ok x
    | none ↦ err (if contains id s.retired_ids then expired else unavailable)
  ]

  -- The locked part of `subscribe`: the store, and the snapshot that is to be replayed.
  unfoldable pub subscribe :
      ℕ → ℕ → Bool → Store A → Result StoreError (Store A × Option (Snapshot A))
  subscribe id max_queue replay_latest s = do
    raise_if (max_queue == 0) bad_queue_size
    require_open s
    ok (
      record s { subscriptions = add_id id s.subscriptions },
      if replay_latest then s.latest else none,
    )

  -- The store's part of `unsubscribe`.
  unfoldable pub unsubscribe : ℕ → Store A → Store A
  unsubscribe id s = record s { subscriptions = remove_id id s.subscriptions }

  -- The loop of `begin_generation` over the window.
  abbrev pub retire_all : ℕ → List (Snapshot A) → List String → List String
  retire_all n [] ids = ids
  retire_all n (x ∷ xs) ids = retire_all n xs (append_bounded n ids x.observation_id)

  unfoldable pub begin_generation : Store A → Result StoreError (Store A × ℕ)
  begin_generation s = do
    require_open s
    ok (
      record s {
        retired_ids = retire_all (s.max_retained * 2) s.retained s.retired_ids;
        retained = [];
        by_id = [];
        latest = none;
        generation = suc s.generation;
      },
      suc s.generation,
    )

  -- The locked part of `close`.
  unfoldable pub close : Store A → Store A
  close s =
      if s.closed
      then s
      else record s { closed = true; subscriptions = []; retained = []; by_id = []; latest = none }
