-- ===== src/Raft/Examples.antt =====
-- A small log and small nodes on which the theorems of pkg/raft are tried out.
pub mod Logs
pub mod Votes
pub mod Following
pub mod Leading
pub mod Files
use Prim.Native.String.{String}
use prisn.Base.{ℕ, refl, none, some, List, [], ◌∷◌, false, arith}
use prisn.Base.Dict.{Dict}
use prisn.Raft.Types.{
  LogEntry, log_noop, NodeInfo, follower, leader, candidate, LeaderState, RequestVoteArgs,
}
use prisn.Raft.Log.{Log}
use prisn.Raft.Log.Shape.{IsLog}
use prisn.Raft.Log.Files.{IsSynced}
use prisn.Raft.Fsm.{Json, new_cluster_state}
use prisn.Raft.Node.{Node}
use prisn.Raft.Ballots.{Event, request_vote, crash, Ballot}

abbrev pub entry : ℕ → ℕ → LogEntry
entry i t = record { index = i; term = t; kind = log_noop; command = [] }

-- three entries, of the terms 1, 1 and 2, behind a snapshot of index 4
abbrev pub three : List LogEntry
three = entry 5 1 ∷ entry 6 1 ∷ entry 7 2 ∷ []

abbrev pub short_log : Log
short_log = record {
  entries = three;
  first_idx = 5;
  snapshot_index = 4;
  snapshot_term = 1;
  log_file = three;
  meta_file = some (record { index = 4; term = 1 });
}

pub short_log-IsLog : IsLog short_log
short_log-IsLog = record {
  first_pos = omega arith;
  fits = omega arith;
  numbered = (refl, (refl, (refl, tt)));
}

abbrev pub info : String → NodeInfo
info id = record { id = id; address = id; joined_at = 0; last_seen = 0; state = follower }

abbrev pub three_nodes : Dict NodeInfo
three_nodes = ("a", info "a") ∷ ("b", info "b") ∷ ("c", info "c") ∷ []

-- no bytes decode to a command; the empty snapshot is the new state
abbrev pub json : Json
json = record {
  deployment = λ _. none;
  assignment = λ _. none;
  node = λ _. none;
  state = λ _. some new_cluster_state;
  state_text = λ _. [];
}

abbrev pub node_a : Node
node_a = record {
  id = "a";
  state = follower;
  current_term = 0;
  voted_for = "";
  log = short_log;
  cluster_config = some three_nodes;
  commit_index = 4;
  last_applied = 4;
  leader_state = none;
  leader_id = "";
  peer_failures = none;
  fsm = new_cluster_state;
  transfer_target = "";
  apply_signal = false;
  timer_resets = 0;
  saved = none;
  snapshot_file = none;
}

abbrev pub leading : LeaderState
leading = record { next_index = ("b", 8) ∷ ("c", 6) ∷ []; match_index = ("b", 7) ∷ ("c", 5) ∷ [] }

abbrev pub leader_a : Node
leader_a = record node_a {
  state = leader;
  current_term = 2;
  voted_for = "a";
  leader_id = "a";
  leader_state = some leading;
}

abbrev pub ask : String → RequestVoteArgs
ask id = record { term = 1; candidate_id = id; last_log_index = 7; last_log_term = 2 }

-- "b" asks, the node crashes, "c" asks in vain, and "b" asks again
abbrev pub night : List Event
night = request_vote (ask "b") ∷ crash ∷ request_vote (ask "c") ∷ request_vote (ask "b") ∷ []

abbrev pub vote_b : Ballot
vote_b = record { term = 1; candidate = "b" }
