-- ===== src/Raft/Types.antt =====
-- pkg/raft/types.go: the values that the log, the node and the state machine share. A command is the
-- list of its JSON bytes.
use prisn.Base.{ℕ, List, String, Option, Bool}
use prisn.Base.Dict.{Dict}

pub data NodeState : Type 0 where
  follower candidate leader : NodeState

pub data LogEntryType : Type 0 where
  log_noop : LogEntryType
  log_deployment_create : LogEntryType
  log_deployment_update : LogEntryType
  log_deployment_delete : LogEntryType
  log_deployment_activate : LogEntryType
  log_scheduler_assign : LogEntryType
  log_scheduler_unassign : LogEntryType
  log_node_join : LogEntryType
  log_node_leave : LogEntryType
  log_scale_change : LogEntryType
  log_secret_create : LogEntryType
  log_secret_delete : LogEntryType

pub record LogEntry : Type 0 where
  pub index : ℕ
  pub term : ℕ
  pub kind : LogEntryType
  pub command : List ℕ

pub record NodeInfo : Type 0 where
  pub id : String
  pub address : String
  pub joined_at : ℕ
  pub last_seen : ℕ
  pub state : NodeState

-- `ClusterConfig.Nodes`
abbrev pub ClusterConfig : Type 0
ClusterConfig = Dict NodeInfo

pub record LeaderState : Type 0 where
  pub next_index : Dict ℕ
  pub match_index : Dict ℕ

pub record RequestVoteArgs : Type 0 where
  pub term : ℕ
  pub candidate_id : String
  pub last_log_index : ℕ
  pub last_log_term : ℕ

pub record VoteReply : Type 0 where
  pub term : ℕ
  pub vote_granted : Bool

pub record AppendEntriesArgs : Type 0 where
  pub term : ℕ
  pub leader_id : String
  pub prev_log_index : ℕ
  pub prev_log_term : ℕ
  pub entries : List LogEntry
  pub leader_commit : ℕ

pub record AppendEntriesReply : Type 0 where
  pub term : ℕ
  pub success : Bool
  pub conflict_index : ℕ
  pub conflict_term : ℕ

pub record InstallSnapshotArgs : Type 0 where
  pub term : ℕ
  pub leader_id : String
  pub last_included_index : ℕ
  pub last_included_term : ℕ
  pub snapshot : List ℕ
  pub cluster_config : Option ClusterConfig

pub record TimeoutNowArgs : Type 0 where
  pub term : ℕ
  pub leader_id : String

pub record TimeoutNowReply : Type 0 where
  pub term : ℕ
  pub success : Bool
