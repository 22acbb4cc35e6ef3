-- ===== src/Deployment/Tests.antt =====
-- The state file's theorems at a concrete deployment.
use embodi_run.Base.{◌≡◌, refl, none, some, [], ◌∷◌, ok}
use embodi_run.Deployment.State.{
  DeploymentState, NodeState, ServiceState, running, parse_state, node_state, service_state,
  environment_state, table,
}
use embodi_run.Deployment.RoundTrip.{StateOk, state_json, table_json, state_json-parse}
use embodi_run.Deployment.Checks.{parse_state-StateOk}

abbrev edge : NodeState
edge = record {
  node_id = "edge";
  home = "/root";
  root = "/opt";
  deploy_project = "d";
  inference_project = "i";
  platform = "linux";
  machine = "arm";
  python = "py";
  python_version = "3";
}

abbrev control : ServiceState
control = record {
  service_id = "control";
  node = "edge";
  status = running;
  pid = some 7;
  endpoint = none;
}

abbrev deployment : DeploymentState
deployment = record {
  name = "lab";
  config_digest = "c0";
  deploy_commit = "d0";
  inference_commit = none;
  nodes = ("edge", edge) ∷ [];
  environments = [];
  services = ("control", control) ∷ [];
}

abbrev deployment-StateOk : StateOk deployment
deployment-StateOk = record {
  name = refl;
  config_digest = refl;
  deploy_commit = refl;
  inference_commit = tt;
  nodes = (
    record {
      keyed = refl;
      node_id = refl;
      home = refl;
      root = refl;
      deploy_project = refl;
      inference_project = refl;
      platform = refl;
      machine = refl;
      python = refl;
      python_version = refl;
    },
    tt,
  );
  environments = tt;
  services =
      (record { keyed = refl; service_id = refl; node = refl; pid = refl; endpoint = tt }, tt);
}

state_json-parse_example : parse_state (state_json deployment) ≡ ok deployment
state_json-parse_example = state_json-parse deployment deployment-StateOk

parses_lem : parse_state (state_json deployment) ≡ ok deployment
unfolding parse_state state_json table table_json node_state service_state environment_state
parses_lem = refl

parse_state-StateOk_example : StateOk deployment
parse_state-StateOk_example = parse_state-StateOk (state_json deployment) deployment parses_lem
