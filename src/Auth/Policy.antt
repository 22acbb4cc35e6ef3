-- ===== src/Auth/Policy.antt =====
-- `Role`, `Principal` and `AuthPolicy` of src/embodirun/application/auth.py.
use embodi_run.Base.{
  ℕ, Bool, true, false, not, Option, none, some, List, [], ◌∷◌, String, Result, ok, err, ◌>>=◌,
  ◌>>◌, ltb, str_eq, is_some, if◌then◌else◌,
}
use embodi_run.Base.Classes.{string_eq}
use embodi_run.Base.Dict.{Dict, lookup, insert}

pub data Role : Type 0 where
  observer controller admin : Role

-- `_ROLE_RANK`
abbrev pub role_rank : Role → ℕ
role_rank observer = 0
role_rank controller = 1
role_rank admin = 2

pub record Principal : Type 0 where
  pub role : Role
  pub trusted : Bool
  pub caller_id : Option String
  pub session_id : Option String

pub data AuthError : Type 0 where
  bad_token bad_principal caller_missing : AuthError
  authentication_error insufficient_role foreign_caller foreign_session : AuthError

-- A configured role: a `Role`, a string, or anything else.
pub data RoleValue : Type 0 where
  role_value : Role → RoleValue
  role_name : String → RoleValue
  no_role : RoleValue

-- A configured identity: `None`, a string that is not blank, or anything else.
pub data IdentityValue : Type 0 where
  absent : IdentityValue
  text : String → IdentityValue
  malformed : IdentityValue

-- What the configuration gives for a token.
pub data Configured : Type 0 where
  principal : Principal → Configured
  mapping : (role : RoleValue) (caller session : IdentityValue) → Configured
  plain : RoleValue → Configured

abbrev require : Bool → AuthError → Result AuthError Unit
require true e = ok tt
require false e = err e

-- `Role(name)`
unfoldable pub role_of_name : String → Result AuthError Role
role_of_name name =
    if str_eq name "observer"
    then ok observer
    else if str_eq name "controller"
    then ok controller
    else if str_eq name "admin"
    then ok admin
    else err bad_principal

unfoldable pub role_of : RoleValue → Result AuthError Role
unfolding role_of_name
role_of (role_value r) = ok r
role_of (role_name n) = role_of_name n
role_of no_role = err bad_principal

-- `_identity_value`
unfoldable pub identity_value : IdentityValue → Result AuthError (Option String)
identity_value absent = ok none
identity_value (text s) = ok (some s)
identity_value malformed = err bad_principal

abbrev pub untrusted : Role → Option String → Option String → Principal
untrusted role caller session = record {
  role = role;
  trusted = false;
  caller_id = caller;
  session_id = session;
}

-- The principal of one entry, before its caller is looked at.
unfoldable pub principal_of : Configured → Result AuthError Principal
unfolding role_of identity_value
principal_of (principal p) = ok p
principal_of (mapping role caller session) = do
  r ← role_of role
  c ← identity_value caller
  s ← identity_value session
  ok (untrusted r c s)
principal_of (plain role) = do r ← role_of role; ok (untrusted r none none)

-- The loop of `__init__`, with the principals so far.
unfoldable pub configure_from :
    List (String × Configured) → Dict String Principal → Result AuthError (Dict String Principal)
unfolding principal_of
configure_from [] ps = ok ps
configure_from ((token, c) ∷ rest) ps = do
  require (not (str_eq token "")) bad_token
  p ← principal_of c
  require (is_some p.caller_id) caller_missing
  configure_from rest (insert token p ps)

-- `AuthPolicy(token_roles)`
unfoldable pub configure : List (String × Configured) → Result AuthError (Dict String Principal)
unfolding configure_from
configure entries = configure_from entries []

abbrev pub token_authentication_enabled : Dict String Principal → Bool
token_authentication_enabled [] = false
token_authentication_enabled (e ∷ es) = true

abbrev pub lookup_token : Option String → Dict String Principal → Option Principal
lookup_token none ps = none
lookup_token (some t) ps = lookup t ps

abbrev pub with_role : Role → Option Principal → Result AuthError Principal
with_role required none = err authentication_error
with_role required (some p) =
    if ltb (role_rank p.role) (role_rank required) then err insufficient_role else ok p

-- `authorize`
unfoldable pub authorize : Option String → Role → Dict String Principal → Result AuthError Principal
authorize token required ps =
    if token_authentication_enabled ps
    then with_role required (lookup_token token ps)
    else ok (record { role = admin; trusted = true; caller_id = none; session_id = none })

abbrev pub is_caller : String → Option String → Bool
is_caller caller none = false
is_caller caller (some c) = str_eq c caller

abbrev pub is_session : String → Option String → Bool
is_session session none = true
is_session session (some s) = str_eq s session

abbrev pub in_scope : String → String → Principal → Result AuthError Principal
in_scope caller session p =
    if p.trusted
    then ok p
    else if not (is_caller caller p.caller_id)
    then err foreign_caller
    else if not (is_session session p.session_id)
    then err foreign_session
    else ok p

-- `authorize_scope`
unfoldable pub authorize_scope :
    Option String → Role → String → String → Dict String Principal → Result AuthError Principal
unfolding authorize
authorize_scope token required caller session ps =
    authorize token required ps >>= λ p. in_scope caller session p
