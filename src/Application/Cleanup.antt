-- ===== src/Application/Cleanup.antt =====
-- The sessions and clients of a proposal (src/embodirun/application/proposals.py).
use embodi_run.Base.{
  ◌≡◌, refl, sym, ap, subst, ◌∙◌, inl, inr, Bool, true, false, not, Option, none, some, List, [],
  ◌∷◌, ◌++◌, String, Result, ok, err, Bool-cases, Result-cases, Option-cases,
}
use mathlib.Core.List.{append-nil}
use embodi_run.Application.Effects.{Run, answered, pure, raise_if, call, ask, lift, ◌>>=◌, ◌>>◌}
use embodi_run.Application.Proposals.{
  ProposalFault, bad_argument, bad_result, other_ids, context_raised, client_raised, session_raised,
  Ids, ids_beq, ProposalCall, open_client, open_session, infer, close_session, release_client,
  no_action, inference_raised, mapping_raised, World, Proposal, required, some_actions, propose,
  release, opened_session, with_mapper, generate_proposal,
}

-- The calls of a proposal, by how far it came.
pub data Shape (release_calls : List ProposalCall) : List ProposalCall → Type 0 where
  refused : Shape release_calls []
  no_client : (e : String) → Shape release_calls (open_client (err e) ∷ [])
  no_mapper : Shape release_calls (open_client (ok tt) ∷ release_calls)
  no_session :
      (e : String)
      → Shape release_calls (open_client (ok tt) ∷ open_session (err e) ∷ release_calls)
  no_inference :
      (s : String)
      → Shape release_calls
          (open_client (ok tt) ∷ open_session (ok s) ∷ close_session s ∷ release_calls)
  one_inference :
      (s : String) (i : Ids)
      → Shape release_calls
          (open_client (ok tt) ∷ open_session (ok s) ∷ infer i ∷ close_session s ∷ release_calls)

abbrev pub release_calls_of : Bool → List ProposalCall
release_calls_of true = release_client ∷ []
release_calls_of false = []

-- What a proposal does in its session: at most one inference.
data Inner : List ProposalCall → Type 0 where
  quiet : Inner []
  inferred : (i : Ids) → Inner (infer i ∷ [])

session-Shape :
    (s : String) (rest t : List ProposalCall)
    → Inner t
    → Shape rest (open_client (ok tt) ∷ open_session (ok s) ∷ t ++ close_session s ∷ rest)
session-Shape s rest [] quiet = no_inference s
session-Shape s rest t (inferred i) = one_inference s i

module _ {E F : Type 0} where
  silent-after :
      {X Y : Type 0} (m : Run E F X) (k : X → Run E F Y)
      → ((x : X) → (k x).0 ≡ [])
      → (m >>= k).0 ≡ m.0
  silent-after (t, ok x) k h = ap (λ l. t ++ l) (h x) ∙ append-nil t
  silent-after (t, err e) k h = refl

module _ {A : Type 0} where
  abbrev accept : String → List (Option A) → Run ProposalCall ProposalFault (Proposal A)
  accept s os = do
    actions ← lift (required no_action (some_actions os))
    pure (record { session = s; actions = actions })

  abbrev compare : World A → String → Ids → Ids → Run ProposalCall ProposalFault (Proposal A)
  compare w s request result = do
    raise_if (not (ids_beq result request)) other_ids
    os ← ask mapping_raised w.mapping
    accept s os

  abbrev match_result :
      World A → String → Ids → Option Ids → Run ProposalCall ProposalFault (Proposal A)
  match_result w s request answer = do
    result ← lift (required bad_result answer)
    compare w s request result

  abbrev ask_policy : World A → String → Ids → Run ProposalCall ProposalFault (Proposal A)
  ask_policy w s request = do
    answer ← call (infer request) inference_raised w.inferring
    match_result w s request answer

  match_result-silent :
      (w : World A) (s : String) (i : Ids) (o : Option Ids) → (match_result w s i o).0 ≡ []
  match_result-silent w s i none = refl
  match_result-silent w s i (some j) = compare-silent (not (ids_beq j i)) w.mapping
    where
      compare-silent :
          (c : Bool) (m : Result String (List (Option A)))
          → ((raise_if {E = ProposalCall} c other_ids >> (ask mapping_raised m >>= accept s)).0)
            ≡ []
      compare-silent true m = refl
      compare-silent false (err e) = refl
      compare-silent false (ok os) = elim (Option-cases (some_actions os)) [
        | inl h ↦ rw h refl
        | inr (xs, h) ↦ rw h refl
      ]

  propose-Inner : (w : World A) (s : String) → Inner (propose w s).0
  unfolding propose
  propose-Inner w s = elim (Result-cases (w.requesting s)) [
    | inr (e, h) ↦ rw h quiet
    | inl (none, h) ↦ rw h quiet
    | inl (some i, h) ↦
        let trace =
          silent-after (call (infer i) inference_raised w.inferring) (match_result w s i)
            (match_result-silent w s i) in
        rw h (subst Inner (sym trace) (inferred i))
  ]

  -- The rest of a proposal's calls, after its client.
  released : (w : World A) → (release w).0 ≡ release_calls_of w.has_release
  released w = elim (Bool-cases w.has_release) [ inl h ↦ rw h refl | inr h ↦ rw h refl ]

  opening-Shape :
      (w : World A) (o : Result String String)
      → Shape (release w).0 (
          open_client (ok tt)
          ∷ (opened_session w (open_session o ∷ []) (answered session_raised o)).0)
  opening-Shape w (err e) = no_session e
  opening-Shape w (ok s) = session-Shape s (release w).0 (propose w s).0 (propose-Inner w s)

  mapper-Shape :
      (w : World A) (m : Result String Unit)
      → Shape (release w).0 (open_client (ok tt) ∷ (with_mapper w m).0)
  mapper-Shape w (err e) = no_mapper
  mapper-Shape w (ok u) = opening-Shape w w.opening

  abbrev calls :
      Bool
      → Result String Unit
      → Result String Unit
      → Run ProposalCall ProposalFault (Proposal A)
      → Run ProposalCall ProposalFault (Proposal A)
  calls valid context client rest = do
    raise_if (not valid) bad_argument
    ask context_raised context
    call (open_client client) client_raised client
    rest

  calls-Shape :
      (r : List ProposalCall) (valid : Bool) (context client : Result String Unit)
      (rest : Run ProposalCall ProposalFault (Proposal A))
      → Shape r (open_client (ok tt) ∷ rest.0)
      → Shape r (calls valid context client rest).0
  calls-Shape r false context client rest h = refused
  calls-Shape r true (err e) client rest h = refused
  calls-Shape r true (ok u) (err e) rest h = no_client e
  calls-Shape r true (ok u) (ok tt) rest h = h

  -- Whatever the service, the binding and the inference client answer: a proposal makes no call but
  -- these. It may open a client, and then one session, and then make one inference; a session that
  -- was opened is closed next, and a client that was opened is released last, if the service has
  -- that hook, on every path.
  pub proposal_Shape :
      (w : World A) → Shape (release_calls_of w.has_release) (generate_proposal w).0
  unfolding generate_proposal
  proposal_Shape w =
      calls-Shape (release_calls_of w.has_release) w.valid_arguments w.context w.client
        (with_mapper w w.mapper)
        (subst (λ r. Shape r (open_client (ok tt) ∷ (with_mapper w w.mapper).0)) (released w)
          (mapper-Shape w w.mapper))
