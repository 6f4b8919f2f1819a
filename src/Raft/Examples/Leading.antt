-- ===== src/Raft/Examples/Leading.antt =====
-- A leader that takes proposals, commits and applies them.
use prisn.Base.{◌+◌, ◌≡◌, refl, some, List, [], ◌∷◌, false, arith}
use prisn.Base.Dict.{Dict}
use prisn.Raft.Types.{log_noop}
use prisn.Raft.Log.{get, last_index, term_at}
use prisn.Raft.Fsm.{Json, new_cluster_state}
use prisn.Raft.Node.{Node, quorum_size}
use prisn.Raft.Examples.{entry, short_log, short_log-IsLog, json, node_a, leading, leader_a}
use prisn.Raft.Proposals.{IsAccepted, propose-IsAccepted}
use prisn.Raft.Target.{IsTarget, find_best_transfer_target-IsTarget}
use prisn.Raft.Node.Propose.{propose, command_bytes}
use prisn.Raft.Node.{is_leader}
use prisn.Base.Int.{pos}
use prisn.Raft.Types.{log_deployment_create}
use prisn.Raft.Node.Transfer.{find_best_transfer_target}
use prisn.Raft.Proposals.Batch.{propose_all, process_batch-propose_all}
use prisn.Raft.Applying.Rounds.{apply_committed-rounds}
use prisn.Raft.Fsm.Active.{IsActive, Keeps, apply-IsActive}
use prisn.Base.{◌+◌}
use prisn.Raft.Types.{LogEntry}
use prisn.Raft.Fsm.{apply}
use prisn.Raft.Fsm.Untimed.{untimed}
use prisn.Raft.Fsm.Replicas.{replicas_agree}
use prisn.Raft.Node.Apply.{apply_entries}
use prisn.Raft.Replication.Merge.{KnowsEnd}
use prisn.Raft.Node.Leader.{update_commit_index}
use prisn.Raft.Node.Apply.{apply_committed, default_compaction_threshold}
use prisn.Raft.Log.{should_compact}
use prisn.Raft.Node.Propose.{json_text, marshal_error, process_batch, ProposalRequest}

-- the leader and "b" hold the entry 7 of the leader's term
leader_a_commits : (update_commit_index leader_a).commit_index ≡ 7
unfolding update_commit_index prisn.Raft.Node.Leader.commit_scan last_index term_at get quorum_size
    prisn.Raft.Node.Leader.count_matching
leader_a_commits = refl

short_log-KnowsEnd : KnowsEnd short_log
unfolding last_index
short_log-KnowsEnd = refl

abbrev two_requests : List ProposalRequest
two_requests =
    record { entry_type = log_noop; command = marshal_error }
    ∷ record { entry_type = log_noop; command = json_text (1 ∷ []) }
    ∷ []

process_batch-propose_all_example :
    process_batch two_requests leader_a ≡ propose_all two_requests leader_a
process_batch-propose_all_example = process_batch-propose_all two_requests leader_a

abbrev half_way : Node
half_way = record node_a { commit_index = 5 }

small : should_compact default_compaction_threshold short_log ≡ false
unfolding should_compact
small = refl

apply_committed-rounds_example :
    apply_committed json
      (λ i j. 0)
      (record (apply_committed json (λ i j. 0) half_way) { commit_index = 7 })
    ≡ apply_committed json (λ i j. 0) (record half_way { commit_index = 7 })
apply_committed-rounds_example =
    apply_committed-rounds json (λ i j. 0) half_way 7 short_log-IsLog (omega arith) (omega arith)
      (omega arith) (omega arith) small

new_cluster_state-IsActive : IsActive new_cluster_state
unfolding prisn.Base.Dict.lookup
new_cluster_state-IsActive = record { agree = λ k d e. cc }

-- every command decodes to the second version of "web"
abbrev deploying : Json
deploying = record json {
  deployment = λ _. some (record {
    name = "web";
    namespace = "";
    version = "v2";
    fingerprint = "";
    source_path = "";
    kind = "";
    replicas = pos 2;
    port = pos 80;
    schedule = "";
    env = [];
    size = pos 0;
    file_count = pos 0;
  });
}

apply-IsActive_example : Keeps (
    apply deploying
      (λ i. 0)
      (record (entry 8 2) { kind = log_deployment_create })
      new_cluster_state)
apply-IsActive_example =
    apply-IsActive deploying (λ i. 0) (record (entry 8 2) { kind = log_deployment_create })
      new_cluster_state new_cluster_state-IsActive

abbrev deploy_at_8 : List LogEntry
deploy_at_8 = record (entry 8 2) { kind = log_deployment_create } ∷ []

-- two servers whose clocks are an hour apart
replicas_agree_example :
    untimed (apply_entries deploying (λ i j. i) deploy_at_8 leader_a).fsm
    ≡ untimed (apply_entries deploying (λ i j. i + 3600) deploy_at_8 node_a).fsm
replicas_agree_example =
    replicas_agree deploying (λ i j. i) (λ i j. i + 3600) deploy_at_8 leader_a node_a refl

target_is_b : find_best_transfer_target leader_a ≡ "b"
unfolding find_best_transfer_target
target_is_b = refl

propose-IsAccepted_example :
    IsAccepted log_noop (1 ∷ []) leader_a (propose log_noop (json_text (1 ∷ [])) leader_a)
unfolding command_bytes is_leader
propose-IsAccepted_example =
    propose-IsAccepted leader_a log_noop (json_text (1 ∷ [])) (1 ∷ []) refl refl short_log-IsLog
      short_log-KnowsEnd (omega arith)

find_best_transfer_target-IsTarget_example :
    IsTarget leading.match_index (find_best_transfer_target leader_a)
find_best_transfer_target-IsTarget_example =
    find_best_transfer_target-IsTarget leader_a leading refl
