-- ===== src/Deployment/Checks.antt =====
-- What `_parse_state` of src/embodirun/deployment/state.py accepts.
use embodi_run.Base.{
  ℕ, ◌≡◌, refl, subst, true, Option, none, some, String, Result, ok, err, ◌>>=◌, str_eq, arith,
}
use embodi_run.Base.Dict.{Dict, Entries}
use embodi_run.Deployment.State.{
  Json, null, other, boolean, number, decimal, text, object, Fields, end, field, StateError,
  EnvironmentState, NodeState, ServiceState, DeploymentState, get, mapping, string_value, string_of,
  project_value, environment_status, service_status, pid_value, endpoint_value, commit_value,
  same_key, node_state, environment_state, service_state, table, table_fields, version_value,
  parse_state,
}
use embodi_run.Deployment.RoundTrip.{
  Filled, OptionalFilled, Positive, NodeOk, EnvironmentOk, ServiceOk, StateOk,
}

bind-ok :
    {A B : Type 0} (m : Result StateError A) (f : A → Result StateError B) (b : B)
    → m >>= f ≡ ok b
    → (a : A) × (m ≡ ok a) × (f a ≡ ok b)
bind-ok (ok a) f b h = (a, refl, h)
bind-ok (err e) f b h = absurd (ground arith)

ok-inj : {A : Type 0} {a b : A} → (let x : Result StateError A = ok a in x ≡ ok b) → a ≡ b
ok-inj h = ground arith

string_value-Filled :
    (key : String) (o : Option Json) (s : String) → string_value key o ≡ ok s → Filled s
string_value-Filled key none s h = absurd (ground arith)
string_value-Filled key (some (text t)) s h = ground arith
string_value-Filled key (some null) s h = absurd (ground arith)
string_value-Filled key (some other) s h = absurd (ground arith)
string_value-Filled key (some (boolean b)) s h = absurd (ground arith)
string_value-Filled key (some (decimal n)) s h = absurd (ground arith)
string_value-Filled key (some (number n)) s h = absurd (ground arith)
string_value-Filled key (some (object fs)) s h = absurd (ground arith)

same_key-true : (name id : String) (u : Unit) → same_key name id ≡ ok u → str_eq name id ≡ true
same_key-true name id u h = ground arith

pid_value-Positive : (o : Option Json) (p : Option ℕ) → pid_value o ≡ ok p → Positive p
pid_value-Positive none p h = ground arith
pid_value-Positive (some null) p h = ground arith
pid_value-Positive (some (number n)) p h = ground arith
pid_value-Positive (some other) p h = absurd (ground arith)
pid_value-Positive (some (boolean b)) p h = absurd (ground arith)
pid_value-Positive (some (decimal n)) p h = absurd (ground arith)
pid_value-Positive (some (text s)) p h = absurd (ground arith)
pid_value-Positive (some (object fs)) p h = absurd (ground arith)

node_fields-NodeOk :
    (name : String) (value : Json) (n : NodeState) → node_state name value ≡ ok n → NodeOk name n
unfolding node_state
node_fields-NodeOk name value n h =
    let (item, a, h1) = bind-ok (mapping name value) _ n h in
    let (node_id, b1, h2) = bind-ok (string_of "node_id" item) _ n h1 in
    let (home, b2, h3) = bind-ok (string_of "home" item) _ n h2 in
    let (root, b3, h4) = bind-ok (string_of "root" item) _ n h3 in
    let (deploy, b4, h5) = bind-ok (string_of "deploy_project" item) _ n h4 in
    let (inference, b5, h6) = bind-ok (string_of "inference_project" item) _ n h5 in
    let (platform, b6, h7) = bind-ok (string_of "platform" item) _ n h6 in
    let (machine, b7, h8) = bind-ok (string_of "machine" item) _ n h7 in
    let (python, b8, h9) = bind-ok (string_of "python" item) _ n h8 in
    let (version, b9, h10) = bind-ok (string_of "python_version" item) _ n h9 in
    let (u, k, last) = bind-ok (same_key name node_id) _ n h10 in
    subst (NodeOk name) (ok-inj last) (record {
      keyed = same_key-true name node_id u k;
      node_id = string_value-Filled "node_id" (get "node_id" item) node_id b1;
      home = string_value-Filled "home" (get "home" item) home b2;
      root = string_value-Filled "root" (get "root" item) root b3;
      deploy_project = string_value-Filled "deploy_project" (get "deploy_project" item) deploy b4;
      inference_project =
          string_value-Filled "inference_project" (get "inference_project" item) inference b5;
      platform = string_value-Filled "platform" (get "platform" item) platform b6;
      machine = string_value-Filled "machine" (get "machine" item) machine b7;
      python = string_value-Filled "python" (get "python" item) python b8;
      python_version = string_value-Filled "python_version" (get "python_version" item) version b9;
    })

endpoint_value-Filled :
    (o : Option Json) (e : Option String) → endpoint_value o ≡ ok e → OptionalFilled e
endpoint_value-Filled none e h = ground arith
endpoint_value-Filled (some null) e h = ground arith
endpoint_value-Filled (some (text s)) e h = ground arith
endpoint_value-Filled (some other) e h = absurd (ground arith)
endpoint_value-Filled (some (boolean b)) e h = absurd (ground arith)
endpoint_value-Filled (some (decimal n)) e h = absurd (ground arith)
endpoint_value-Filled (some (number n)) e h = absurd (ground arith)
endpoint_value-Filled (some (object fs)) e h = absurd (ground arith)

commit_value-Filled :
    (o : Option Json) (e : Option String) → commit_value o ≡ ok e → OptionalFilled e
commit_value-Filled none e h = ground arith
commit_value-Filled (some null) e h = ground arith
commit_value-Filled (some (text s)) e h = ground arith
commit_value-Filled (some other) e h = absurd (ground arith)
commit_value-Filled (some (boolean b)) e h = absurd (ground arith)
commit_value-Filled (some (decimal n)) e h = absurd (ground arith)
commit_value-Filled (some (number n)) e h = absurd (ground arith)
commit_value-Filled (some (object fs)) e h = absurd (ground arith)

environment_fields-EnvironmentOk :
    (name : String) (value : Json) (e : EnvironmentState)
    → environment_state name value ≡ ok e
    → EnvironmentOk name e
unfolding environment_state
environment_fields-EnvironmentOk name value e h =
    let (item, a, h1) = bind-ok (mapping name value) _ e h in
    let (status, b1, h2) = bind-ok (environment_status (get "status" item)) _ e h1 in
    let (id, b2, h3) = bind-ok (string_of "environment_id" item) _ e h2 in
    let (node, b3, h4) = bind-ok (string_of "node" item) _ e h3 in
    let (project, b4, h5) = bind-ok (project_value (get "project" item)) _ e h4 in
    let (group, b5, h6) = bind-ok (string_of "group" item) _ e h5 in
    let (path, b6, h7) = bind-ok (string_of "path" item) _ e h6 in
    let (u, k, last) = bind-ok (same_key name id) _ e h7 in
    subst (EnvironmentOk name) (ok-inj last) (record {
      keyed = same_key-true name id u k;
      environment_id = string_value-Filled "environment_id" (get "environment_id" item) id b2;
      node = string_value-Filled "node" (get "node" item) node b3;
      group = string_value-Filled "group" (get "group" item) group b5;
      path = string_value-Filled "path" (get "path" item) path b6;
    })

service_fields-ServiceOk :
    (name : String) (value : Json) (s : ServiceState)
    → service_state name value ≡ ok s
    → ServiceOk name s
unfolding service_state
service_fields-ServiceOk name value s h =
    let (item, a, h1) = bind-ok (mapping name value) _ s h in
    let (status, b1, h2) = bind-ok (service_status (get "status" item)) _ s h1 in
    let (pid, b2, h3) = bind-ok (pid_value (get "pid" item)) _ s h2 in
    let (endpoint, b3, h4) = bind-ok (endpoint_value (get "endpoint" item)) _ s h3 in
    let (id, b4, h5) = bind-ok (string_of "service_id" item) _ s h4 in
    let (node, b5, h6) = bind-ok (string_of "node" item) _ s h5 in
    let (u, k, last) = bind-ok (same_key name id) _ s h6 in
    subst (ServiceOk name) (ok-inj last) (record {
      keyed = same_key-true name id u k;
      service_id = string_value-Filled "service_id" (get "service_id" item) id b4;
      node = string_value-Filled "node" (get "node" item) node b5;
      pid = pid_value-Positive (get "pid" item) pid b2;
      endpoint = endpoint_value-Filled (get "endpoint" item) endpoint b3;
    })

table-Entries :
    {A : Type 0} (P : String → A → Type 0) (parse : String → Json → Result StateError A)
    (fs : Fields) (d : Dict String A)
    → ((k : String) → (v : Json) → (a : A) → parse k v ≡ ok a → P k a)
    → table parse fs ≡ ok d
    → Entries P d
unfolding table
table-Entries P parse end d f h = subst (Entries P) (ok-inj h) tt
table-Entries P parse (field k v fs) d f h =
    let (a, b, h1) = bind-ok (parse k v) _ d h in
    let (rest, c, last) = bind-ok (table parse fs) _ d h1 in
    subst (Entries P) (ok-inj last) (f k v a b, table-Entries P parse fs rest f c)

-- Whatever value is in the file: if it is accepted, then every string that the program needs is not
-- empty, every process identity is positive, and every entry stands under its own identity.
pub parse_state-StateOk : (j : Json) (s : DeploymentState) → parse_state j ≡ ok s → StateOk s
unfolding parse_state
parse_state-StateOk j s h =
    let (root, a, h1) = bind-ok (mapping "state" j) _ s h in
    let (v, b, h2) = bind-ok (version_value (get "version" root)) _ s h1 in
    let (nf, b1, h3) = bind-ok (table_fields "nodes" (get "nodes" root)) _ s h2 in
    let (nodes, b2, h4) = bind-ok (table node_state nf) _ s h3 in
    let (ef, b3, h5) = bind-ok (table_fields "environments" (get "environments" root)) _ s h4 in
    let (environments, b4, h6) = bind-ok (table environment_state ef) _ s h5 in
    let (sf, b5, h7) = bind-ok (table_fields "services" (get "services" root)) _ s h6 in
    let (services, b6, h8) = bind-ok (table service_state sf) _ s h7 in
    let (name, b7, h9) = bind-ok (string_of "name" root) _ s h8 in
    let (digest, b8, h10) = bind-ok (string_of "config_digest" root) _ s h9 in
    let (commit, b9, h11) = bind-ok (string_of "deploy_commit" root) _ s h10 in
    let (source, b10, last) = bind-ok (commit_value (get "inference_commit" root)) _ s h11 in
    subst StateOk (ok-inj last) (record {
      name = string_value-Filled "name" (get "name" root) name b7;
      config_digest = string_value-Filled "config_digest" (get "config_digest" root) digest b8;
      deploy_commit = string_value-Filled "deploy_commit" (get "deploy_commit" root) commit b9;
      inference_commit = commit_value-Filled (get "inference_commit" root) source b10;
      nodes = table-Entries NodeOk node_state nf nodes node_fields-NodeOk b2;
      environments =
          table-Entries EnvironmentOk environment_state ef environments
            environment_fields-EnvironmentOk b4;
      services = table-Entries ServiceOk service_state sf services service_fields-ServiceOk b6;
    })
