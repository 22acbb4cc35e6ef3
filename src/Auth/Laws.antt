-- ===== src/Auth/Laws.antt =====
-- What the authorization of src/embodirun/application/auth.py promises.
use embodi_run.Base.{
  ◌≡◌, ◌≢◌, subst, ◌≤◌, ◌⊎◌, ◌↔◌, refl, true, false, Option, none, some, List, [], ◌∷◌, String,
  arith, ok, err, inl, inr, Option-cases, Bool-cases, str_eq, eq_iff, is_some, Result, ltb, ◌>>=◌,
}
use embodi_run.Base.Classes.{string_eq}
use embodi_run.Base.Dict.{Dict, lookup, insert, lookup-insert}
use embodi_run.Auth.Policy.{
  Role, role_rank, Principal, authentication_error, insufficient_role, Configured, principal,
  mapping, plain, principal_of, configure_from, configure, token_authentication_enabled,
  lookup_token, authorize, authorize_scope, in_scope, is_caller, is_session, with_role,
}

-- The scope of a principal covers the request.
abbrev pub Covers : Principal → String → String → Type 0
Covers p caller session =
    (p.trusted ≡ true)
    ⊎ ((p.caller_id ≡ some caller) × ((p.session_id ≡ none) ⊎ (p.session_id ≡ some session)))

is_caller_lem :
    (caller : String) (c : Option String) → (is_caller caller c ≡ true) ↔ (c ≡ some caller)
is_caller_lem caller none = ground arith
is_caller_lem caller (some c) = ground (arith, eq_iff c caller)

is_session_lem :
    (session : String) (s : Option String)
    → (is_session session s ≡ true) ↔ ((s ≡ none) ⊎ (s ≡ some session))
is_session_lem session none = ground arith
is_session_lem session (some s) = ground (arith, eq_iff s session)

in_scope_lem :
    (caller session : String) (q p : Principal)
    → (in_scope caller session q ≡ ok p) ↔ ((q ≡ p) × Covers q caller session)
in_scope_lem caller session q p =
    ground (arith, is_caller_lem caller q.caller_id, is_session_lem session q.session_id)

with_role_lem :
    (required : Role) (q p : Principal)
    → (with_role required (some q) ≡ ok p) ↔ ((q ≡ p) × (role_rank required ≤ role_rank q.role))
with_role_lem required q p = ground arith

scope_of_role :
    (required : Role) (caller session : String) (q p : Principal)
    → ((with_role required (some q) >>= λ x. in_scope caller session x) ≡ ok p)
      ↔ ((q ≡ p) × (role_rank required ≤ role_rank q.role) × Covers q caller session)
scope_of_role required caller session q p =
    elim (Bool-cases (ltb (role_rank q.role) (role_rank required))) [
      | inl c ↦ ground arith
      | inr c ↦ ground (arith, in_scope_lem caller session q p)
    ]

found_scope :
    (token : Option String) (required : Role) (caller session : String) (ps : Dict String Principal)
    (found : Option Principal)
    → token_authentication_enabled ps ≡ true
    → lookup_token token ps ≡ found
    → authorize_scope token required caller session ps
      ≡ (with_role required found >>= λ x. in_scope caller session x)
unfolding authorize_scope
found_scope token required caller session ps found on e = rw (on, e) refl

-- Where tokens are configured, a request passes exactly with a configured token whose principal has
-- the required rank and covers the request's caller and session; and what passes is that principal.
pub authorize_scope_iff :
    (token : Option String) (required : Role) (caller session : String) (ps : Dict String Principal)
    (p : Principal)
    → token_authentication_enabled ps ≡ true
    → (authorize_scope token required caller session ps ≡ ok p) ↔ (
        (lookup_token token ps ≡ some p)
        × (role_rank required ≤ role_rank p.role)
        × Covers p caller session)
authorize_scope_iff token required caller session ps p on =
    elim (Option-cases (lookup_token token ps)) [
      | inl e ↦ ground (arith, found_scope token required caller session ps none on e)
      | inr (q, e) ↦ ground (
        arith,
        found_scope token required caller session ps (some q) on e,
        scope_of_role required caller session q p,
      )
    ]

abbrev pub IsUntrusted : Configured → Type 0
IsUntrusted (principal p) = p.trusted ≡ false
IsUntrusted (mapping role caller session) = Unit
IsUntrusted (plain role) = Unit

-- What every configured principal is.
abbrev IsBound : Dict String Principal → Type 0
IsBound ps =
    (t : String) (p : Principal)
    → lookup t ps ≡ some p
    → (p.trusted ≡ false) × (is_some p.caller_id ≡ true)

principal_of-trusted :
    (c : Configured) (p : Principal) → IsUntrusted c → principal_of c ≡ ok p → p.trusted ≡ false
unfolding principal_of
principal_of-trusted (principal q) p u h = ground arith
principal_of-trusted (mapping role caller session) p u h = ground arith
principal_of-trusted (plain role) p u h = ground arith

insert-IsBound :
    (t : String) (p : Principal) (ps : Dict String Principal)
    → IsBound ps
    → p.trusted ≡ false
    → is_some p.caller_id ≡ true
    → IsBound (insert t p ps)
insert-IsBound t p ps b u c k q e = elim (Bool-cases (str_eq t k)) [
  | inl s ↦ ground (arith, lookup-insert t k p ps)
  | inr s ↦ b k q (ground (arith, lookup-insert t k p ps))
]

abbrev pub AllUntrusted : List (String × Configured) → Type 0
AllUntrusted [] = Unit
AllUntrusted ((t, c) ∷ rest) = IsUntrusted c × AllUntrusted rest

Result-cases : {E A : Type 0} (r : Result E A) → ((a : A) × (r ≡ ok a)) ⊎ ((e : E) × (r ≡ err e))
Result-cases (ok a) = inl (a, refl)
Result-cases (err e) = inr (e, refl)

-- What one entry that is accepted adds.
configure_entry :
    (t : String) (c : Configured) (rest : List (String × Configured))
    (ps out : Dict String Principal)
    → configure_from ((t, c) ∷ rest) ps ≡ ok out
    → (p : Principal) × (principal_of c ≡ ok p)
      × (is_some p.caller_id ≡ true)
      × (configure_from rest (insert t p ps) ≡ ok out)
unfolding configure_from
configure_entry t c rest ps out h = elim (Result-cases (principal_of c)) [
  | inl (p, e) ↦ (p, e, ground arith, ground arith)
  | inr (x, e) ↦ ground arith
]

configure_from-IsBound :
    (entries : List (String × Configured)) (ps out : Dict String Principal)
    → AllUntrusted entries
    → IsBound ps
    → configure_from entries ps ≡ ok out
    → IsBound out
unfolding configure_from
configure_from-IsBound [] ps out u b h = let same : ps ≡ out = ground arith in subst IsBound same b
configure_from-IsBound ((t, c) ∷ rest) ps out u b h =
    let (p, e, caller, rest_h) = configure_entry t c rest ps out h in
    configure_from-IsBound rest (insert t p ps) out u.1
      (insert-IsBound t p ps b (principal_of-trusted c p u.0 e) caller) rest_h

-- In a policy that is configured without principals marked as trusted, a token belongs to one
-- caller: two requests that pass with the same token name the same caller, and no request passes
-- without a token.
pub token_binds_caller :
    (entries : List (String × Configured)) (ps : Dict String Principal) (token : Option String)
    (r1 r2 : Role) (caller1 caller2 session1 session2 : String) (p1 p2 : Principal)
    → AllUntrusted entries
    → configure entries ≡ ok ps
    → token_authentication_enabled ps ≡ true
    → authorize_scope token r1 caller1 session1 ps ≡ ok p1
    → authorize_scope token r2 caller2 session2 ps ≡ ok p2
    → (caller1 ≡ caller2) × (p1 ≡ p2) × (token ≢ none)
unfolding configure lookup
token_binds_caller entries ps none r1 r2 caller1 caller2 session1 session2 p1 p2 u c on h1 h2 =
    ground (arith, authorize_scope_iff none r1 caller1 session1 ps p1 on)
token_binds_caller entries ps (some t) r1 r2 caller1 caller2 session1 session2 p1 p2 u c on h1 h2 =
    let bound : IsBound ps = configure_from-IsBound entries [] ps u (λ k q e. ground arith) c in
    let (e1, rank1, scope1) = (authorize_scope_iff (some t) r1 caller1 session1 ps p1 on).0 h1 in
    let (e2, rank2, scope2) = (authorize_scope_iff (some t) r2 caller2 session2 ps p2 on).0 h2 in
    ground (arith, bound t p1 e1)

insert-enabled :
    (t : String) (p : Principal) (ps : Dict String Principal)
    → token_authentication_enabled (insert t p ps) ≡ true
unfolding insert
insert-enabled t p [] = refl
insert-enabled t p ((k, q) ∷ ps) = ground arith

configure_from-enabled :
    (entries : List (String × Configured)) (ps out : Dict String Principal)
    → token_authentication_enabled ps ≡ true
    → configure_from entries ps ≡ ok out
    → token_authentication_enabled out ≡ true
unfolding configure_from
configure_from-enabled [] ps out on h = ground arith
configure_from-enabled ((t, c) ∷ rest) ps out on h =
    let (p, e, caller, rest_h) = configure_entry t c rest ps out h in
    configure_from-enabled rest (insert t p ps) out (insert-enabled t p ps) rest_h

-- A policy that is configured with any entry at all fails closed: a request without a token, or with
-- one that has no principal, is refused whatever role it needs; and a role that a token is granted
-- includes every lower one.
pub configured_fails_closed :
    (t : String) (c : Configured) (rest : List (String × Configured)) (ps : Dict String Principal)
    (token : Option String) (required lower : Role)
    → configure ((t, c) ∷ rest) ≡ ok ps
    → role_rank lower ≤ role_rank required
    → ((authorize token required ps ≡ err authentication_error) × (lookup_token token ps ≡ none))
      ⊎ ((p : Principal) × (lookup_token token ps ≡ some p)
          × ((authorize token required ps ≡ err insufficient_role)
              ⊎ ((authorize token required ps ≡ ok p) × (authorize token lower ps ≡ ok p))))
unfolding configure authorize
configured_fails_closed t c rest ps token required lower h below =
    let (p, e, caller, rest_h) = configure_entry t c rest [] ps h in
    let on = configure_from-enabled rest (insert t p []) ps (insert-enabled t p []) rest_h in
    elim (Option-cases (lookup_token token ps)) [
      | inl n ↦ inl (ground arith, n)
      | inr (q, n) ↦ inr (q, n, ground arith)
    ]
