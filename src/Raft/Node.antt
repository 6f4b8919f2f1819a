-- ===== src/Raft/Node.antt =====
-- pkg/raft/node.go: the state of a node, and the helpers that its handlers share. A handler runs with
-- the node's mutex held, so it is a function from the node to the new node and the reply. The file
-- state.json is the field `saved`; writing it succeeds. `timer_resets` counts the calls of
-- `resetElectionTimer`, and `apply_signal` is the buffered channel `applyCh`.
pub mod Vote
pub mod Append
pub mod Snapshot
pub mod Leader
pub mod Propose
pub mod Apply
pub mod Campaign
pub mod Transfer
pub mod Restart
use prisn.Base.{
  ℕ, ◌+◌, ◌/◌, String, Option, none, some, List, [], Bool, true, false, leb, ◌==◌, if◌then◌else◌,
  length,
}
use prisn.Base.Dict.{Dict, insert, erase}
use prisn.Raft.Types.{NodeState, follower, candidate, leader, ClusterConfig, LeaderState}
use prisn.Raft.Log.{Log, reopen}
use prisn.Raft.Fsm.{ClusterState, new_cluster_state, Json, restore}
use mathlib.Core.Option

pub record PersistentState : Type 0 where
  pub current_term : ℕ
  pub voted_for : String
  pub cluster_config : Option ClusterConfig

-- What state.json holds, or what a node starts with where there is none.
abbrev pub disk_term : Option PersistentState → ℕ
disk_term none = 0
disk_term (some p) = p.current_term

abbrev pub disk_vote : Option PersistentState → String
disk_vote none = ""
disk_vote (some p) = p.voted_for

pub record Node : Type 0 where
  pub id : String
  pub state : NodeState
  pub current_term : ℕ
  pub voted_for : String
  pub log : Log
  pub cluster_config : Option ClusterConfig
  pub commit_index : ℕ
  pub last_applied : ℕ
  pub leader_state : Option LeaderState
  pub leader_id : String
  pub peer_failures : Option (Dict ℕ)  -- peerState: the failed RPCs of each peer
  pub fsm : ClusterState
  pub transfer_target : String
  pub apply_signal : Bool
  pub timer_resets : ℕ
  pub saved : Option PersistentState  -- state.json
  pub snapshot_file : Option (List ℕ)  -- snapshots/snapshot.json

unfoldable pub save_persistent_state : Node → Node
save_persistent_state n = record n {
  saved = some (record {
    current_term = n.current_term;
    voted_for = n.voted_for;
    cluster_config = n.cluster_config;
  });
}

keep_config : Option ClusterConfig → Option ClusterConfig → Option ClusterConfig
keep_config none old = old
keep_config (some c) old = some c

load_saved : Option PersistentState → Node → Node
load_saved none n = n
load_saved (some p) n = record n {
  current_term = p.current_term;
  voted_for = p.voted_for;
  cluster_config = keep_config p.cluster_config n.cluster_config;
}

unfoldable pub load_persistent_state : Node → Node
unfolding load_saved keep_config
load_persistent_state n = load_saved n.saved n

unfoldable pub reset_election_timer : Node → Node
reset_election_timer n = record n { timer_resets = n.timer_resets + 1 }

-- a send that does not block, on a channel of capacity one
unfoldable pub signal_apply : Node → Node
signal_apply n = record n { apply_signal = true }

unfoldable pub is_leader : NodeState → Bool
is_leader leader = true
is_leader _ = false

unfoldable pub is_candidate : NodeState → Bool
is_candidate candidate = true
is_candidate _ = false

-- the nodes of a configuration that may be nil
unfoldable pub config_nodes : Option ClusterConfig → ClusterConfig
config_nodes none = []
config_nodes (some c) = c

unfoldable pub cluster_size : Node → ℕ
unfolding config_nodes
cluster_size n = let size = length (config_nodes n.cluster_config) in if size == 0 then 1 else size

unfoldable pub quorum_size : Node → ℕ
unfolding cluster_size
quorum_size n = let size = cluster_size n in if leb size 1 then 1 else size / 2 + 1

unfoldable pub add_to_cluster_config : String → String → Node → Node
unfolding config_nodes save_persistent_state
add_to_cluster_config node_id addr n = save_persistent_state (record n {
  cluster_config = some (
      insert node_id
        (record { id = node_id; address = addr; joined_at = 0; last_seen = 0; state = follower })
        (config_nodes n.cluster_config));
})

unfoldable pub remove_from : String → Option ClusterConfig → Node → Node
unfolding save_persistent_state
remove_from node_id none n = n
remove_from node_id (some c) n =
    save_persistent_state (record n { cluster_config = some (erase node_id c) })

unfoldable pub remove_from_cluster_config : String → Node → Node
unfolding remove_from
remove_from_cluster_config node_id n = remove_from node_id n.cluster_config n

-- `NewNode` on the files that `n` left behind; a snapshot that cannot be decoded is an error.
load_snapshot : Json → Option (List ℕ) → Option ClusterState
load_snapshot json none = some new_cluster_state
load_snapshot json (some bytes) = restore json bytes new_cluster_state

fresh : Node → ClusterState → Node
fresh n fsm = record {
  id = n.id;
  state = follower;
  current_term = 0;
  voted_for = "";
  log = reopen n.log;
  cluster_config = some [];
  commit_index = 0;
  last_applied = 0;
  leader_state = none;
  leader_id = "";
  peer_failures = none;
  fsm = fsm;
  transfer_target = "";
  apply_signal = false;
  timer_resets = 0;
  saved = n.saved;
  snapshot_file = n.snapshot_file;
}

unfoldable pub restart : Json → Node → Option Node
unfolding load_persistent_state load_snapshot fresh
restart json n =
    Option.map (λ fsm. load_persistent_state (fresh n fsm)) (load_snapshot json n.snapshot_file)
