-- ===== src/Raft/Node/Snapshot.antt =====
-- `HandleInstallSnapshot` and `HandleTimeoutNow` of pkg/raft/node.go.
use prisn.Base.{ℕ, Option, none, some, false, str_eq, ltb, if◌then◌else◌}
use prisn.Raft.Types.{InstallSnapshotArgs, TimeoutNowArgs, TimeoutNowReply, ClusterConfig}
use prisn.Raft.Log.{truncate_all}
use prisn.Raft.Fsm.{Json, ClusterState, restore}
use prisn.Raft.Node.{Node, save_persistent_state}
use prisn.Raft.Node.Append.{follow}

abbrev received_config : Option ClusterConfig → Option ClusterConfig → Option ClusterConfig
received_config none old = old
received_config (some c) old = some c

-- A snapshot that cannot be decoded leaves the state machine, the log and the indices.
unfoldable pub install : InstallSnapshotArgs → Option ClusterState → Node → Node
unfolding save_persistent_state
install args none n = n
install args (some fsm) n = save_persistent_state (record n {
  fsm = fsm;
  cluster_config = received_config args.cluster_config n.cluster_config;
  log = truncate_all n.log;
  commit_index = args.last_included_index;
  last_applied = args.last_included_index;
})

-- The reply of an `InstallSnapshot` call is a term.
unfoldable pub handle_install_snapshot : Json → InstallSnapshotArgs → Node → Node × ℕ
unfolding follow install
handle_install_snapshot json args n =
    if ltb args.term n.current_term
    then (n, n.current_term)
    else let n' = follow args.term args.leader_id n in
      (install args (restore json args.snapshot n'.fsm) n', n'.current_term)

-- A success starts `startImmediateElection` in the background.
unfoldable pub handle_timeout_now : Node → TimeoutNowArgs → TimeoutNowReply
handle_timeout_now n args = record {
  term = n.current_term;
  success = if ltb args.term n.current_term then false else str_eq args.leader_id n.leader_id;
}
