-- ===== src/Raft/Examples/Following.antt =====
-- A follower that takes entries, refuses them, and installs a snapshot.
use prisn.Base.{ℕ, ◌<◌, ◌≡◌, refl, some, [], ◌∷◌, true, false, arith}
use prisn.Raft.Types.{AppendEntriesArgs, InstallSnapshotArgs}
use prisn.Raft.Log.{get, last_index, term_at, first_index}
use prisn.Raft.Examples.{entry, short_log, short_log-IsLog, three_nodes, node_a, leader_a}
use prisn.Raft.Replication.Merge.{KnowsEnd, IsMerge}
use prisn.Raft.Replication.Handler.{IsRequest, append_entries_success}
use prisn.Raft.Replication.Stale.{IsHeld}
use prisn.Raft.Node.Append.{handle_append_entries}
use prisn.Raft.Node.{is_leader, Node}

-- "b" leads term 3 and replaces the last entry of the node
abbrev from_b : ℕ → AppendEntriesArgs
from_b prev_term = record {
  term = 3;
  leader_id = "b";
  prev_log_index = 6;
  prev_log_term = prev_term;
  entries = entry 7 3 ∷ entry 8 3 ∷ [];
  leader_commit = 6;
}

from_b-IsRequest : IsRequest (from_b 1) short_log
from_b-IsRequest = record {
  numbered = (refl, (refl, tt));
  reaches = omega arith;
  small = omega arith;
}

from_b_accepted : (handle_append_entries (from_b 1) node_a).1.success ≡ true
unfolding handle_append_entries last_index term_at get
from_b_accepted = refl

from_b_refused : (handle_append_entries (from_b 2) node_a).1.success ≡ false
unfolding handle_append_entries last_index term_at get
from_b_refused = refl

short_log-KnowsEnd : KnowsEnd short_log
unfolding last_index
short_log-KnowsEnd = refl

append_entries_success_example :
    IsMerge 6 (entry 7 3 ∷ entry 8 3 ∷ []) short_log (handle_append_entries (from_b 1) node_a).0.log
    × (0 < 6 → term_at (handle_append_entries (from_b 1) node_a).0.log 6 ≡ 1)
append_entries_success_example =
    append_entries_success (from_b 1) node_a short_log-IsLog short_log-KnowsEnd from_b-IsRequest
      from_b_accepted

held : IsHeld short_log (entry 5 1 ∷ entry 6 1 ∷ [])
unfolding last_index term_at get
held = (omega arith, refl, (omega arith, refl, tt))

abbrev snapshot_of_b : InstallSnapshotArgs
snapshot_of_b = record {
  term = 3;
  leader_id = "b";
  last_included_index = 9;
  last_included_term = 3;
  snapshot = [];
  cluster_config = some three_nodes;
}

compacted : 1 < first_index short_log
unfolding first_index
compacted = omega arith

-- the leader in the term of the snapshot
abbrev leader_b : Node
leader_b = record leader_a { current_term = 3 }

leader_b_leads : is_leader leader_b.state ≡ true
unfolding is_leader
leader_b_leads = refl

last_index-short_log : last_index short_log ≡ 7
unfolding last_index
last_index-short_log = refl
