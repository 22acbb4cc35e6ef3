-- ===== src/Application/Proposals.antt =====
-- `generate_proposal` of src/embodirun/application/proposals.py.
use embodi_run.Base.{
  ℕ, Bool, ◌&&◌, not, Option, none, some, List, [], ◌∷◌, ◌++◌, String, Result, ok, err, ◌==◌,
  str_eq, if◌then◌else◌,
}
use embodi_run.Application.Effects.{
  Run, answered, pure, raise, raise_if, call, ask, lift, ◌>>=◌, ◌>>◌, finally,
}

pub data ProposalFault : Type 0 where
  bad_argument bad_observation bad_result other_ids no_action : ProposalFault
  context_raised client_raised mapper_raised session_raised request_raised : String → ProposalFault
  inference_raised mapping_raised close_raised release_raised : String → ProposalFault

-- What identifies a request, and the result that answers it.
pub record Ids : Type 0 where
  pub request : String
  pub session : String
  pub step : ℕ

abbrev pub ids_beq : Ids → Ids → Bool
ids_beq a b = str_eq a.request b.request && (str_eq a.session b.session && (a.step == b.step))

-- The calls on the inference client and its service, with the answer where it opens something.
pub data ProposalCall : Type 0 where
  open_client : Result String Unit → ProposalCall
  open_session : Result String String → ProposalCall
  infer : Ids → ProposalCall
  close_session : String → ProposalCall
  release_client : ProposalCall

-- The answers. `valid_arguments` is the outcome of the checks of the arguments; a request that is no
-- `PolicyObservation`, a result that is no `PolicyResult` and an action that is no `RobotAction` are
-- `none`; `has_release` says whether the service has the hook.
pub record World (A : Type 0) : Type 0 where
  pub valid_arguments : Bool
  pub context : Result String Unit
  pub client : Result String Unit
  pub mapper : Result String Unit
  pub opening : Result String String
  pub requesting : String → Result String (Option Ids)
  pub inferring : Result String (Option Ids)
  pub mapping : Result String (List (Option A))
  pub closing : Result String Unit
  pub has_release : Bool
  pub releasing : Result String Unit

pub record Proposal (A : Type 0) : Type 0 where
  pub session : String
  pub actions : List A

abbrev pub required : {A : Type 0} → ProposalFault → Option A → Result ProposalFault A
required e none = err e
required e (some a) = ok a

abbrev pub all_actions : {A : Type 0} → List (Option A) → Option (List A)
all_actions [] = some []
all_actions (none ∷ os) = none
all_actions (some a ∷ os) = elim (all_actions os) [ some xs ↦ some (a ∷ xs) | none ↦ none ]

abbrev pub some_actions : {A : Type 0} → List (Option A) → Option (List A)
some_actions [] = none
some_actions (o ∷ os) = all_actions (o ∷ os)

module _ {A : Type 0} where
  -- From the session on: one inference, without a call to any robot.
  unfoldable pub propose : World A → String → Run ProposalCall ProposalFault (Proposal A)
  propose w session = do
    mapped ← ask request_raised (w.requesting session)
    request ← lift (required bad_observation mapped)
    answer ← call (infer request) inference_raised w.inferring
    result ← lift (required bad_result answer)
    raise_if (not (ids_beq result request)) other_ids
    mapped_actions ← ask mapping_raised w.mapping
    actions ← lift (required no_action (some_actions mapped_actions))
    pure (record { session = session; actions = actions })

  abbrev pub release : World A → Run ProposalCall ProposalFault Unit
  release w = if w.has_release then call release_client release_raised w.releasing else pure tt

  -- The `finally` part, with the session if there is one.
  abbrev pub clean_up : World A → Option String → Run ProposalCall ProposalFault Unit
  clean_up w none = release w
  clean_up w (some s) = finally (call (close_session s) close_raised w.closing) (release w)

  abbrev pub with_session :
      World A → Result ProposalFault String → Run ProposalCall ProposalFault (Proposal A)
  with_session w (err e) = finally (raise e) (clean_up w none)
  with_session w (ok s) = finally (propose w s) (clean_up w (some s))

  abbrev pub opened_session :
      World A
      → List ProposalCall
      → Result ProposalFault String
      → Run ProposalCall ProposalFault (Proposal A)
  opened_session w t o = (t ++ (with_session w o).0, (with_session w o).1)

  abbrev pub with_mapper :
      World A → Result String Unit → Run ProposalCall ProposalFault (Proposal A)
  with_mapper w (err e) = opened_session w [] (err (mapper_raised e))
  with_mapper w (ok u) =
      opened_session w (open_session w.opening ∷ []) (answered session_raised w.opening)

  unfoldable pub generate_proposal : World A → Run ProposalCall ProposalFault (Proposal A)
  generate_proposal w = do
    raise_if (not w.valid_arguments) bad_argument
    ask context_raised w.context
    call (open_client w.client) client_raised w.client
    with_mapper w w.mapper

abbrev pub opened_ids : List ProposalCall → List String
opened_ids [] = []
opened_ids (open_session (ok s) ∷ t) = s ∷ opened_ids t
opened_ids (_ ∷ t) = opened_ids t

abbrev pub closed_ids : List ProposalCall → List String
closed_ids [] = []
closed_ids (close_session s ∷ t) = s ∷ closed_ids t
closed_ids (_ ∷ t) = closed_ids t
