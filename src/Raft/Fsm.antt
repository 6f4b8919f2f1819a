-- ===== src/Raft/Fsm.antt =====
-- pkg/raft/fsm.go: the replicated state of the cluster and `Apply`, one function for each kind of
-- entry. `json.Unmarshal` is the parameter `Json`; a failed decoding is `none` and leaves the state.
-- `now i` is what the i-th call of `time.Now` in one `Apply` returns.
pub mod Active
pub mod Untimed
pub mod Replicas
use Prim.Native.String.{◌++◌ as ◌<>◌}
use prisn.Base.{
  ℕ, String, Option, none, some, List, [], ◌∷◌, ◌++◌, map, Bool, true, false, not, ◌&&◌, str_eq,
  if◌then◌else◌, get_or,
}
use prisn.Base.Dict.{Dict, lookup, insert, erase}
use prisn.Base.Int.{ℤ}
use prisn.Raft.Types.{
  LogEntry, LogEntryType, log_noop, log_deployment_create, log_deployment_update,
  log_deployment_delete, log_deployment_activate, log_scheduler_assign, log_scheduler_unassign,
  log_node_join, log_node_leave, log_scale_change, log_secret_create, log_secret_delete, NodeInfo,
  follower,
}

pub record DeploymentCommand : Type 0 where
  pub name : String
  pub namespace : String
  pub version : String
  pub fingerprint : String
  pub source_path : String
  pub kind : String
  pub replicas : ℤ
  pub port : ℤ
  pub schedule : String
  pub env : Dict String
  pub size : ℤ
  pub file_count : ℤ

pub record AssignmentCommand : Type 0 where
  pub deployment_name : String
  pub namespace : String
  pub nodes : List String
  pub replica_count : ℤ

pub record NodeCommand : Type 0 where
  pub node_id : String
  pub address : String

pub record VersionMeta : Type 0 where
  pub id : String
  pub fingerprint : String
  pub size : ℤ
  pub file_count : ℤ
  pub created_at : ℕ
  pub active : Bool

pub record DeploymentMeta : Type 0 where
  pub name : String
  pub namespace : String
  pub kind : String
  pub runtime : String
  pub replicas : ℤ
  pub port : ℤ
  pub schedule : String
  pub env : Dict String
  pub versions : List VersionMeta
  pub created_at : ℕ
  pub updated_at : ℕ

pub record ClusterState : Type 0 where
  pub deployments : Dict DeploymentMeta
  pub nodes : Dict NodeInfo
  pub assignments : Dict (List String)
  pub active_versions : Dict String
  pub last_applied : ℕ

abbrev pub new_cluster_state : ClusterState
new_cluster_state = record {
  deployments = [];
  nodes = [];
  assignments = [];
  active_versions = [];
  last_applied = 0;
}

pub record Json : Type 0 where
  pub deployment : List ℕ → Option DeploymentCommand
  pub assignment : List ℕ → Option AssignmentCommand
  pub node : List ℕ → Option NodeCommand
  pub state : List ℕ → Option ClusterState
  pub state_text : ClusterState → List ℕ

-- namespace + "/" + name
unfoldable pub deployment_key : String → String → String
deployment_key namespace name = ◌<>◌ (◌<>◌ namespace "/") name

-- `s.ActiveVersions[key]`, "" where the key is missing
unfoldable pub active_version : ClusterState → String → String
active_version s key = get_or (lookup key s.active_versions) ""

new_version : ℕ → DeploymentCommand → VersionMeta
new_version now cmd = record {
  id = cmd.version;
  fingerprint = cmd.fingerprint;
  size = cmd.size;
  file_count = cmd.file_count;
  created_at = now;
  active = true;
}

new_deployment : (ℕ → ℕ) → DeploymentCommand → DeploymentMeta
unfolding new_version
new_deployment now cmd = record {
  name = cmd.name;
  namespace = cmd.namespace;
  kind = cmd.kind;
  runtime = "";
  replicas = cmd.replicas;
  port = cmd.port;
  schedule = cmd.schedule;
  env = cmd.env;
  versions = new_version (now 0) cmd ∷ [];
  created_at = now 1;
  updated_at = now 2;
}

deactivate : VersionMeta → VersionMeta
deactivate v = record v { active = false }

activate_only : String → VersionMeta → VersionMeta
activate_only version v = record v { active = str_eq v.id version }

-- the fields that an update always sets
update_deployment : ℕ → DeploymentCommand → DeploymentMeta → DeploymentMeta
update_deployment now cmd d = record d {
  replicas = cmd.replicas;
  port = cmd.port;
  schedule = cmd.schedule;
  env = cmd.env;
  updated_at = now;
}

add_version : ℕ → DeploymentCommand → DeploymentMeta → DeploymentMeta
unfolding new_version deactivate
add_version now cmd d = record d {
  versions = map deactivate d.versions ++ new_version now cmd ∷ [];
}

-- a version that is named and is not the active one
is_new_version : String → String → Bool
is_new_version version active = not (str_eq version "") && not (str_eq version active)

upsert : (ℕ → ℕ) → DeploymentCommand → String → Option DeploymentMeta → ClusterState → ClusterState
unfolding new_deployment
upsert now cmd key none s = record s {
  deployments = insert key (new_deployment now cmd) s.deployments;
  active_versions = insert key cmd.version s.active_versions;
}
upsert now cmd key (some d) s =
    let d' = update_deployment (now 0) cmd d in
    if is_new_version cmd.version (active_version s key)
    then record s {
      deployments = insert key (add_version (now 1) cmd d') s.deployments;
      active_versions = insert key cmd.version s.active_versions;
    }
    else record s { deployments = insert key d' s.deployments }

unfoldable pub create_or_update : (ℕ → ℕ) → DeploymentCommand → ClusterState → ClusterState
unfolding upsert is_new_version update_deployment add_version
create_or_update now cmd s =
    let key = deployment_key cmd.namespace cmd.name in
    upsert now cmd key (lookup key s.deployments) s

unfoldable pub delete_deployment : DeploymentCommand → ClusterState → ClusterState
delete_deployment cmd s =
    let key = deployment_key cmd.namespace cmd.name in
    record s {
      deployments = erase key s.deployments;
      assignments = erase key s.assignments;
      active_versions = erase key s.active_versions;
    }

activate_found : String → String → Option DeploymentMeta → ClusterState → ClusterState
activate_found version key none s = s
activate_found version key (some d) s = record s {
  deployments =
      insert key (record d { versions = map (activate_only version) d.versions }) s.deployments;
  active_versions = insert key version s.active_versions;
}

unfoldable pub activate : DeploymentCommand → ClusterState → ClusterState
unfolding activate_found activate_only
activate cmd s =
    let key = deployment_key cmd.namespace cmd.name in
    activate_found cmd.version key (lookup key s.deployments) s

unfoldable pub assign : AssignmentCommand → ClusterState → ClusterState
assign cmd s = record s {
  assignments = insert (deployment_key cmd.namespace cmd.deployment_name) cmd.nodes s.assignments;
}

unfoldable pub unassign : AssignmentCommand → ClusterState → ClusterState
unassign cmd s = record s {
  assignments = erase (deployment_key cmd.namespace cmd.deployment_name) s.assignments;
}

unfoldable pub node_join : (ℕ → ℕ) → NodeCommand → ClusterState → ClusterState
node_join now cmd s = record s {
  nodes =
      insert cmd.node_id
        (record {
          id = cmd.node_id;
          address = cmd.address;
          joined_at = now 0;
          last_seen = now 1;
          state = follower;
        })
        s.nodes;
}

unfoldable pub node_leave : NodeCommand → ClusterState → ClusterState
node_leave cmd s = record s { nodes = erase cmd.node_id s.nodes }

scale_found : ℕ → DeploymentCommand → String → Option DeploymentMeta → ClusterState → ClusterState
scale_found now cmd key none s = s
scale_found now cmd key (some d) s = record s {
  deployments = insert key (record d { replicas = cmd.replicas; updated_at = now }) s.deployments;
}

unfoldable pub scale_change : (ℕ → ℕ) → DeploymentCommand → ClusterState → ClusterState
unfolding scale_found
scale_change now cmd s =
    let key = deployment_key cmd.namespace cmd.name in
    scale_found (now 0) cmd key (lookup key s.deployments) s

decoded :
    {C : Type 0} → Option C → (C → ClusterState → ClusterState) → ClusterState → Option ClusterState
decoded none f s = none
decoded (some cmd) f s = some (f cmd s)

unfoldable pub dispatch :
    Json → (ℕ → ℕ) → LogEntryType → List ℕ → ClusterState → Option ClusterState
unfolding decoded
dispatch json now log_noop c s = some s
dispatch json now log_deployment_create c s = decoded (json.deployment c) (create_or_update now) s
dispatch json now log_deployment_update c s = decoded (json.deployment c) (create_or_update now) s
dispatch json now log_deployment_delete c s = decoded (json.deployment c) delete_deployment s
dispatch json now log_deployment_activate c s = decoded (json.deployment c) activate s
dispatch json now log_scheduler_assign c s = decoded (json.assignment c) assign s
dispatch json now log_scheduler_unassign c s = decoded (json.assignment c) unassign s
dispatch json now log_node_join c s = decoded (json.node c) (node_join now) s
dispatch json now log_node_leave c s = decoded (json.node c) node_leave s
dispatch json now log_scale_change c s = decoded (json.deployment c) (scale_change now) s
dispatch json now log_secret_create c s = some s
dispatch json now log_secret_delete c s = some s

applied_at : ℕ → Option ClusterState → Option ClusterState
applied_at index none = none
applied_at index (some s) = some (record s { last_applied = index })

-- `none` is an error; the caller then goes on with the old state.
unfoldable pub apply : Json → (ℕ → ℕ) → LogEntry → ClusterState → Option ClusterState
unfolding dispatch applied_at
apply json now e s = applied_at e.index (dispatch json now e.kind e.command s)

-- `Restore`: all fields are replaced, or none.
unfoldable pub restore : Json → List ℕ → ClusterState → Option ClusterState
restore json bytes s = json.state bytes
