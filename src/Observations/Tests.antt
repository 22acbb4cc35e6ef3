-- ===== src/Observations/Tests.antt =====
-- The observation theorems at concrete snapshots.
use embodi_run.Base.{
  ℕ, ◌≡◌, refl, true, false, Option, none, some, List, [], ◌∷◌, String, arith, ok,
}
use embodi_run.Base.Dict.{Dict, lookup, insert, erase}
use embodi_run.Observations.Store.{Snapshot, Store, create, publish}
use embodi_run.Observations.Subscription.{
  Subscription, Taken, open_subscription, offer, get, Life, Accounts, subscription_Accounts,
}
use embodi_run.Observations.Window.{History, View}
use embodi_run.Observations.Refinement.{store_refines-History}
use embodi_run.Observations.Values.{
  Value, scalar, mapping, list, tuple, nil, cons, end, field, freeze, freeze_items, freeze_fields,
  thaw, plain,
}
use embodi_run.Observations.Freezing.{
  IsFrozen, freeze-thaw, HasPlainKeys, HavePlainKeys, HavePlainKeysFields,
}
use embodi_run.Observations.Subscription as Sub
use embodi_run.Observations.Window as Win

-- A queue of two that is offered three, and then read.
abbrev full_queue : Subscription ℕ
full_queue = offer 9 (offer 8 (offer 7 (open_subscription 2)))

reads_lem : (get full_queue).1 ≡ Sub.snapshot 8
unfolding offer open_subscription get
reads_lem = refl

closed_lem : (offer 7 (open_subscription {A = ℕ} 2)).closed ≡ false
unfolding offer open_subscription
closed_lem = refl

closed_again_lem : (offer 8 (offer 7 (open_subscription {A = ℕ} 2))).closed ≡ false
unfolding offer open_subscription
closed_again_lem = refl

open_lem : (open_subscription {A = ℕ} 2).closed ≡ false
unfolding open_subscription
open_lem = refl

abbrev full_life : Life 2 full_queue (7 ∷ 8 ∷ 9 ∷ []) []
full_life =
    Sub.offered 9 (Sub.offered 8 (Sub.offered 7 Sub.opened open_lem) closed_lem) closed_again_lem

subscription_Accounts_example : Accounts 2 (get full_queue).0 (7 ∷ 8 ∷ 9 ∷ []) (8 ∷ [])
subscription_Accounts_example =
    subscription_Accounts (omega arith) (Sub.taken 8 full_life reads_lem)

-- A store that keeps one snapshot, and publishes two.
abbrev shot : String → ℕ → Snapshot ℕ
shot id n = record {
  observation_id = id;
  service_instance_id = "s";
  generation = 0;
  sequence = n;
  payload = n;
}

abbrev store_with : List (Snapshot ℕ) → List String → Store ℕ
store_with xs ids = record {
  max_retained = 1;
  service_instance_id = "s";
  retained = xs;
  by_id = by_id_of xs;
  retired_ids = ids;
  subscriptions = [];
  latest = head_of xs;
  generation = 0;
  next_sequence = 0;
  closed = false;
}
  where
    by_id_of : List (Snapshot ℕ) → Dict String (Snapshot ℕ)
    by_id_of [] = []
    by_id_of (x ∷ xs) = (x.observation_id, x) ∷ by_id_of xs

    head_of : List (Snapshot ℕ) → Option (Snapshot ℕ)
    head_of [] = none
    head_of (x ∷ xs) = some x

creates_lem : create 1 "s" ≡ ok (store_with [] [])
unfolding create
creates_lem = refl

publishes_lem : publish (shot "a" 1) (store_with [] []) ≡ ok (store_with (shot "a" 1 ∷ []) [])
unfolding publish lookup insert
publishes_lem = refl

publishes_again_lem :
    publish (shot "b" 2) (store_with (shot "a" 1 ∷ []) [])
    ≡ ok (store_with (shot "b" 2 ∷ []) ("a" ∷ []))
unfolding publish lookup insert erase
publishes_again_lem = refl

store_refines-History_example :
    View (store_with (shot "b" 2 ∷ []) ("a" ∷ [])) (shot "a" 1 ∷ shot "b" 2 ∷ [])
store_refines-History_example = store_refines-History (
    Win.published (shot "b" 2)
      (Win.published (shot "a" 1) (Win.created 1 "s" creates_lem) publishes_lem)
      publishes_again_lem)

-- A mapping with a list in it.
abbrev joints : Value ℕ
joints = mapping false (field (plain "joints") (list (cons (scalar 3) (cons (scalar 4) nil))) end)

abbrev frozen_joints : Value ℕ
frozen_joints =
    mapping true (field (plain "joints") (tuple (cons (scalar 3) (cons (scalar 4) nil))) end)

-- No object can be copied.
abbrev no_copy : ℕ → Option ℕ
no_copy n = none

joints-HasPlainKeys : HasPlainKeys joints
unfolding HasPlainKeys HavePlainKeys HavePlainKeysFields
joints-HasPlainKeys = (refl, (tt, (tt, tt)), tt)

freezes_lem : freeze no_copy 0 joints ≡ some frozen_joints
unfolding freeze freeze_items freeze_fields
freezes_lem = refl

freeze-thaw_example :
    IsFrozen frozen_joints
    × ((t : Value ℕ) × (thaw no_copy frozen_joints ≡ some t)
        × (freeze no_copy 0 t ≡ some frozen_joints))
freeze-thaw_example = freeze-thaw no_copy joints frozen_joints joints-HasPlainKeys freezes_lem
