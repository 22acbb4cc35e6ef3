-- ===== src/Deployment/State.antt =====
-- The state file of src/embodirun/deployment/state.py: what it holds, how it is written and read.
use embodi_run.Base.{
  ℕ, Bool, Option, none, some, [], ◌∷◌, String, Result, ok, err, ◌>>=◌, ◌>>◌, ◌==◌, str_eq,
  if◌then◌else◌,
}
use embodi_run.Base.Dict.{Dict}

-- A JSON value, as far as the file needs them: `number` is a natural number, `decimal` a number with
-- a fraction or exponent that Python reads as a float equal to this natural number, and `other` an
-- array, or any other number.
mutual
  pub data Json : Type 0 where
    null other : Json
    boolean : Bool → Json
    number decimal : ℕ → Json
    text : String → Json
    object : Fields → Json

  pub data Fields : Type 0 where
    end : Fields
    field : String → Json → Fields → Fields

pub data StateError : Type 0 where
  bad_version bad_status bad_pid bad_endpoint : StateError
  not_object bad_string bad_choice other_key : String → StateError

pub data EnvironmentStatus : Type 0 where
  pending ready environment_failed : EnvironmentStatus

pub data ServiceStatus : Type 0 where
  stopped running service_failed : ServiceStatus

pub data Project : Type 0 where
  deploy inference : Project

pub record EnvironmentState : Type 0 where
  pub environment_id : String
  pub node : String
  pub project : Project
  pub group : String
  pub path : String
  pub status : EnvironmentStatus

pub record NodeState : Type 0 where
  pub node_id : String
  pub home : String
  pub root : String
  pub deploy_project : String
  pub inference_project : String
  pub platform : String
  pub machine : String
  pub python : String
  pub python_version : String

pub record ServiceState : Type 0 where
  pub service_id : String
  pub node : String
  pub status : ServiceStatus
  pub pid : Option ℕ
  pub endpoint : Option String

-- A table is listed in the order of its keys, as it is written.
pub record DeploymentState : Type 0 where
  pub name : String
  pub config_digest : String
  pub deploy_commit : String
  pub inference_commit : Option String
  pub nodes : Dict String NodeState
  pub environments : Dict String EnvironmentState
  pub services : Dict String ServiceState

-- `value.get(key)`
abbrev pub get : String → Fields → Option Json
get key end = none
get key (field k v fs) = if str_eq k key then some v else get key fs

abbrev pub is_empty : String → Bool
is_empty s = str_eq s ""

-- `_mapping`
abbrev pub mapping : String → Json → Result StateError Fields
mapping context (object fs) = ok fs
mapping context _ = err (not_object context)

abbrev pub string_value : String → Option Json → Result StateError String
string_value key (some (text s)) = if is_empty s then err (bad_string key) else ok s
string_value key _ = err (bad_string key)

-- `_string`
abbrev pub string_of : String → Fields → Result StateError String
string_of key fs = string_value key (get key fs)

abbrev pub project_value : Option Json → Result StateError Project
project_value (some (text s)) =
    if str_eq s "deploy"
    then ok deploy
    else if str_eq s "inference"
    then ok inference
    else err (bad_choice s)
project_value _ = err (bad_choice "project")

abbrev pub environment_status : Option Json → Result StateError EnvironmentStatus
environment_status none = ok pending
environment_status (some (text s)) =
    if str_eq s "pending"
    then ok pending
    else if str_eq s "ready"
    then ok ready
    else if str_eq s "failed"
    then ok environment_failed
    else err bad_status
environment_status _ = err bad_status

abbrev pub service_status : Option Json → Result StateError ServiceStatus
service_status none = ok stopped
service_status (some (text s)) =
    if str_eq s "stopped"
    then ok stopped
    else if str_eq s "running"
    then ok running
    else if str_eq s "failed"
    then ok service_failed
    else err bad_status
service_status _ = err bad_status

abbrev pub pid_value : Option Json → Result StateError (Option ℕ)
pid_value none = ok none
pid_value (some null) = ok none
pid_value (some (number n)) = if n == 0 then err bad_pid else ok (some n)
pid_value _ = err bad_pid

abbrev pub endpoint_value : Option Json → Result StateError (Option String)
endpoint_value none = ok none
endpoint_value (some null) = ok none
endpoint_value (some (text s)) = if is_empty s then err bad_endpoint else ok (some s)
endpoint_value _ = err bad_endpoint

abbrev pub commit_value : Option Json → Result StateError (Option String)
commit_value none = ok none
commit_value (some null) = ok none
commit_value (some (text s)) =
    if is_empty s then err (bad_string "inference_commit") else ok (some s)
commit_value _ = err (bad_string "inference_commit")

abbrev pub same_key : String → String → Result StateError Unit
same_key name id = if str_eq name id then ok tt else err (other_key name)

-- `_node_state`
unfoldable pub node_state : String → Json → Result StateError NodeState
node_state name value = do
  item ← mapping name value
  node_id ← string_of "node_id" item
  home ← string_of "home" item
  root ← string_of "root" item
  deploy_project ← string_of "deploy_project" item
  inference_project ← string_of "inference_project" item
  platform ← string_of "platform" item
  machine ← string_of "machine" item
  python ← string_of "python" item
  python_version ← string_of "python_version" item
  same_key name node_id
  ok (record {
    node_id = node_id;
    home = home;
    root = root;
    deploy_project = deploy_project;
    inference_project = inference_project;
    platform = platform;
    machine = machine;
    python = python;
    python_version = python_version;
  })

-- `_environment_state`
unfoldable pub environment_state : String → Json → Result StateError EnvironmentState
environment_state name value = do
  item ← mapping name value
  status ← environment_status (get "status" item)
  environment_id ← string_of "environment_id" item
  node ← string_of "node" item
  project ← project_value (get "project" item)
  group ← string_of "group" item
  path ← string_of "path" item
  same_key name environment_id
  ok (record {
    environment_id = environment_id;
    node = node;
    project = project;
    group = group;
    path = path;
    status = status;
  })

-- `_service_state`
unfoldable pub service_state : String → Json → Result StateError ServiceState
service_state name value = do
  item ← mapping name value
  status ← service_status (get "status" item)
  pid ← pid_value (get "pid" item)
  endpoint ← endpoint_value (get "endpoint" item)
  service_id ← string_of "service_id" item
  node ← string_of "node" item
  same_key name service_id
  ok (record {
    service_id = service_id;
    node = node;
    status = status;
    pid = pid;
    endpoint = endpoint;
  })

-- A table of the file, entry by entry.
unfoldable pub table :
    {A : Type 0}
    → (String → Json → Result StateError A)
    → Fields
    → Result StateError (Dict String A)
table parse end = ok []
table parse (field k v fs) = do a ← parse k v; rest ← table parse fs; ok ((k, a) ∷ rest)

-- `root.get(key, {})`, as a mapping.
abbrev pub table_fields : String → Option Json → Result StateError Fields
table_fields key none = ok end
table_fields key (some v) = mapping key v

-- `version != 1`: in Python, `True` and `1.0` equal 1.
abbrev pub version_value : Option Json → Result StateError Unit
version_value (some (number n)) = if n == 1 then ok tt else err bad_version
version_value (some (decimal n)) = if n == 1 then ok tt else err bad_version
version_value (some (boolean b)) = if b then ok tt else err bad_version
version_value _ = err bad_version

-- `_parse_state`
unfoldable pub parse_state : Json → Result StateError DeploymentState
parse_state value = do
  root ← mapping "state" value
  version_value (get "version" root)
  node_fields ← table_fields "nodes" (get "nodes" root)
  nodes ← table node_state node_fields
  environment_fields ← table_fields "environments" (get "environments" root)
  environments ← table environment_state environment_fields
  service_fields ← table_fields "services" (get "services" root)
  services ← table service_state service_fields
  name ← string_of "name" root
  config_digest ← string_of "config_digest" root
  deploy_commit ← string_of "deploy_commit" root
  inference_commit ← commit_value (get "inference_commit" root)
  ok (record {
    name = name;
    config_digest = config_digest;
    deploy_commit = deploy_commit;
    inference_commit = inference_commit;
    nodes = nodes;
    environments = environments;
    services = services;
  })
