-- ===== src/Auth/Tests.antt =====
-- The authorization's theorems at a concrete policy.
use embodi_run.Base.{
  ◌≡◌, ◌≢◌, ◌≤◌, ◌⊎◌, ◌↔◌, refl, Option, none, some, [], ◌∷◌, String, arith, ok, err,
}
use embodi_run.Base.Dict.{Dict, lookup, insert}
use embodi_run.Auth.Policy.{
  Principal, observer, controller, role_rank, Configured, mapping, role_name, text, absent,
  untrusted, authentication_error, insufficient_role, principal_of, role_of, role_of_name,
  identity_value, configure, configure_from, lookup_token, authorize, authorize_scope,
}
use embodi_run.Auth.Laws.{Covers, authorize_scope_iff, token_binds_caller, configured_fails_closed}

abbrev entry : Configured
entry = mapping (role_name "controller") (text "ui") absent

abbrev operator : Principal
operator = untrusted controller (some "ui") none

abbrev policy : Dict String Principal
policy = ("tok", operator) ∷ []

configured_lem : configure (("tok", entry) ∷ []) ≡ ok policy
unfolding configure configure_from principal_of role_of role_of_name identity_value insert
configured_lem = refl

passes_lem : authorize_scope (some "tok") observer "ui" "s1" policy ≡ ok operator
unfolding authorize_scope authorize lookup
passes_lem = refl

passes_again_lem : authorize_scope (some "tok") controller "ui" "s2" policy ≡ ok operator
unfolding authorize_scope authorize lookup
passes_again_lem = refl

authorize_scope_iff_example :
    (authorize_scope (some "tok") controller "ui" "s1" policy ≡ ok operator) ↔ (
      (lookup_token (some "tok") policy ≡ some operator)
      × (role_rank controller ≤ role_rank operator.role)
      × Covers operator "ui" "s1")
authorize_scope_iff_example =
    authorize_scope_iff (some "tok") controller "ui" "s1" policy operator refl

token_binds_caller_example :
    let caller : String = "ui" in
    let token : Option String = some "tok" in
    (caller ≡ caller) × (operator ≡ operator) × (token ≢ none)
token_binds_caller_example =
    token_binds_caller (("tok", entry) ∷ []) policy (some "tok") observer controller "ui" "ui" "s1"
      "s2" operator operator (tt, tt) configured_lem refl passes_lem passes_again_lem

configured_fails_closed_example :
    ((authorize (some "bad") controller policy ≡ err authentication_error)
      × (lookup_token (some "bad") policy ≡ none))
    ⊎ ((p : Principal) × (lookup_token (some "bad") policy ≡ some p)
        × ((authorize (some "bad") controller policy ≡ err insufficient_role)
            ⊎ ((authorize (some "bad") controller policy ≡ ok p)
                × (authorize (some "bad") observer policy ≡ ok p))))
configured_fails_closed_example =
    configured_fails_closed "tok" entry [] policy (some "bad") controller observer configured_lem
      (omega arith)
