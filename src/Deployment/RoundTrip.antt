-- ===== src/Deployment/RoundTrip.antt =====
-- What `StateStore.save` of src/embodirun/deployment/state.py writes, and that `_parse_state` reads it
-- back.
use embodi_run.Base.{
  ℕ, ◌≡◌, refl, true, false, Option, none, some, [], ◌∷◌, String, Result, ok, ◌==◌, str_eq,
}
use embodi_run.Base.Dict.{Dict, Entries}
use embodi_run.Deployment.State.{
  Json, null, number, text, object, Fields, end, field, StateError, EnvironmentStatus, pending,
  ready, environment_failed, ServiceStatus, stopped, running, service_failed, Project, deploy,
  inference, EnvironmentState, NodeState, ServiceState, DeploymentState, is_empty, node_state,
  environment_state, service_state, table, parse_state, pid_value, endpoint_value, commit_value,
  environment_status, service_status, project_value,
}

abbrev pub status_name : EnvironmentStatus → String
status_name pending = "pending"
status_name ready = "ready"
status_name environment_failed = "failed"

abbrev pub service_status_name : ServiceStatus → String
service_status_name stopped = "stopped"
service_status_name running = "running"
service_status_name service_failed = "failed"

abbrev pub project_name : Project → String
project_name deploy = "deploy"
project_name inference = "inference"

abbrev pub optional_text : Option String → Json
optional_text none = null
optional_text (some s) = text s

abbrev pub optional_number : Option ℕ → Json
optional_number none = null
optional_number (some n) = number n

-- `asdict` of each record.
abbrev pub node_json : NodeState → Json
node_json n = object (
    field "node_id" (text n.node_id) (
      field "home" (text n.home) (
        field "root" (text n.root) (
          field "deploy_project" (text n.deploy_project) (
            field "inference_project" (text n.inference_project) (
              field "platform" (text n.platform) (
                field "machine" (text n.machine) (
                  field "python" (text n.python)
                    (field "python_version" (text n.python_version) end)))))))))

abbrev pub environment_json : EnvironmentState → Json
environment_json e = object (
    field "environment_id" (text e.environment_id) (
      field "node" (text e.node) (
        field "project" (text (project_name e.project)) (
          field "group" (text e.group)
            (field "path" (text e.path) (field "status" (text (status_name e.status)) end))))))

abbrev pub service_json : ServiceState → Json
service_json s = object (
    field "service_id" (text s.service_id) (
      field "node" (text s.node) (
        field "status" (text (service_status_name s.status))
          (field "pid" (optional_number s.pid) (field "endpoint" (optional_text s.endpoint) end)))))

unfoldable pub table_json : {A : Type 0} → (A → Json) → Dict String A → Fields
table_json print [] = end
table_json print ((k, a) ∷ d) = field k (print a) (table_json print d)

-- The payload of `save`.
unfoldable pub state_json : DeploymentState → Json
state_json s = object (
    field "version" (number 1) (
      field "name" (text s.name) (
        field "config_digest" (text s.config_digest) (
          field "deploy_commit" (text s.deploy_commit) (
            field "inference_commit" (optional_text s.inference_commit) (
              field "nodes" (object (table_json node_json s.nodes)) (
                field "environments" (object (table_json environment_json s.environments))
                  (field "services" (object (table_json service_json s.services)) end))))))))

abbrev pub Filled : String → Type 0
Filled s = is_empty s ≡ false

abbrev pub OptionalFilled : Option String → Type 0
OptionalFilled none = Unit
OptionalFilled (some s) = Filled s

abbrev pub Positive : Option ℕ → Type 0
Positive none = Unit
Positive (some n) = (n == 0) ≡ false

pub record NodeOk (name : String) (n : NodeState) : Type 0 where
  pub keyed : str_eq name n.node_id ≡ true
  pub node_id : Filled n.node_id
  pub home : Filled n.home
  pub root : Filled n.root
  pub deploy_project : Filled n.deploy_project
  pub inference_project : Filled n.inference_project
  pub platform : Filled n.platform
  pub machine : Filled n.machine
  pub python : Filled n.python
  pub python_version : Filled n.python_version

pub record EnvironmentOk (name : String) (e : EnvironmentState) : Type 0 where
  pub keyed : str_eq name e.environment_id ≡ true
  pub environment_id : Filled e.environment_id
  pub node : Filled e.node
  pub group : Filled e.group
  pub path : Filled e.path

pub record ServiceOk (name : String) (s : ServiceState) : Type 0 where
  pub keyed : str_eq name s.service_id ≡ true
  pub service_id : Filled s.service_id
  pub node : Filled s.node
  pub pid : Positive s.pid
  pub endpoint : OptionalFilled s.endpoint

node_trip : (name : String) (n : NodeState) → NodeOk name n → node_state name (node_json n) ≡ ok n
unfolding node_state
node_trip name n h =
    rw
      (
        h.node_id, h.home, h.root, h.deploy_project, h.inference_project, h.platform, h.machine,
        h.python, h.python_version, h.keyed,
      )
      refl

environment_status-trip :
    (s : EnvironmentStatus) → environment_status (some (text (status_name s))) ≡ ok s
environment_status-trip pending = refl
environment_status-trip ready = refl
environment_status-trip environment_failed = refl

project-trip : (p : Project) → project_value (some (text (project_name p))) ≡ ok p
project-trip deploy = refl
project-trip inference = refl

service_status-trip :
    (s : ServiceStatus) → service_status (some (text (service_status_name s))) ≡ ok s
service_status-trip stopped = refl
service_status-trip running = refl
service_status-trip service_failed = refl

pid-trip : (p : Option ℕ) → Positive p → pid_value (some (optional_number p)) ≡ ok p
pid-trip none h = refl
pid-trip (some n) h = rw h refl

endpoint-trip :
    (e : Option String) → OptionalFilled e → endpoint_value (some (optional_text e)) ≡ ok e
endpoint-trip none h = refl
endpoint-trip (some s) h = rw h refl

commit-trip : (e : Option String) → OptionalFilled e → commit_value (some (optional_text e)) ≡ ok e
commit-trip none h = refl
commit-trip (some s) h = rw h refl

environment_trip :
    (name : String) (e : EnvironmentState)
    → EnvironmentOk name e
    → environment_state name (environment_json e) ≡ ok e
unfolding environment_state
environment_trip name e h =
    rw
      (
        environment_status-trip e.status,
        h.environment_id,
        h.node,
        project-trip e.project,
        h.group,
        h.path,
        h.keyed,
      )
      refl

service_trip :
    (name : String) (s : ServiceState)
    → ServiceOk name s
    → service_state name (service_json s) ≡ ok s
unfolding service_state
service_trip name s h =
    rw
      (
        service_status-trip s.status,
        pid-trip s.pid h.pid,
        endpoint-trip s.endpoint h.endpoint,
        h.service_id,
        h.node,
        h.keyed,
      )
      refl

table_trip :
    {A : Type 0} (P : String → A → Type 0) (print : A → Json)
    (parse : String → Json → Result StateError A) (d : Dict String A)
    → ((k : String) → (a : A) → P k a → parse k (print a) ≡ ok a)
    → Entries P d
    → table parse (table_json print d) ≡ ok d
unfolding table table_json
table_trip P print parse [] f h = refl
table_trip P print parse ((k, a) ∷ d) f h = rw (f k a h.0, table_trip P print parse d f h.1) refl

-- The state that the program makes.
pub record StateOk (s : DeploymentState) : Type 0 where
  pub name : Filled s.name
  pub config_digest : Filled s.config_digest
  pub deploy_commit : Filled s.deploy_commit
  pub inference_commit : OptionalFilled s.inference_commit
  pub nodes : Entries NodeOk s.nodes
  pub environments : Entries EnvironmentOk s.environments
  pub services : Entries ServiceOk s.services

-- A state whose strings are not empty, whose process identities are positive and whose entries stand
-- under their own identities is read back as it was written.
pub state_json-parse : (s : DeploymentState) → StateOk s → parse_state (state_json s) ≡ ok s
unfolding parse_state state_json
state_json-parse s h =
    rw
      (
        table_trip NodeOk node_json node_state s.nodes node_trip h.nodes,
        table_trip EnvironmentOk environment_json environment_state s.environments environment_trip
            h.environments,
        table_trip ServiceOk service_json service_state s.services service_trip h.services,
        h.name,
        h.config_digest,
        h.deploy_commit,
        commit-trip s.inference_commit h.inference_commit,
      )
      refl
