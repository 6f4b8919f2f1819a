-- ===== src/Raft/Node/Propose.antt =====
-- `Propose` and `processBatch` of pkg/raft/node.go. The background call of `sendHeartbeats` reads the
-- node and sends; it is `append_args` of Raft/Node/Leader.antt.
use prisn.Base.{ℕ, String, Option, none, some, List, [], ◌∷◌, leb, if◌then◌else◌}
use prisn.Base.Word.{add64}
use prisn.Raft.Types.{LogEntry, LogEntryType}
use prisn.Raft.Log.{last_index, append}
use prisn.Raft.Node.{Node, cluster_size, signal_apply, is_leader}

-- A command as `MarshalCommand` leaves it: no command, its JSON, or an error.
pub data Command : Type 0 where
  nil_command : Command
  json_text : List ℕ → Command
  marshal_error : Command

pub data ProposalResult : Type 0 where
  accepted : (index term : ℕ) → ProposalResult
  not_leader : (leader_id : String) → ProposalResult
  marshal_failed : ProposalResult

unfoldable pub command_bytes : Command → Option (List ℕ)
command_bytes nil_command = some []
command_bytes (json_text bytes) = some bytes
command_bytes marshal_error = none

unfoldable pub next_entry : LogEntryType → List ℕ → Node → LogEntry
next_entry kind bytes n = record {
  index = add64 (last_index n.log) 1;
  term = n.current_term;
  kind = kind;
  command = bytes;
}

unfoldable pub add_entry : LogEntry → Node → Node
add_entry e n = record n { log = append (e ∷ []) n.log }

-- A node that is alone commits at once.
unfoldable pub commit_alone : ℕ → Node → Node
unfolding signal_apply
commit_alone index n =
    if leb (cluster_size n) 1 then signal_apply (record n { commit_index = index }) else n

unfoldable pub propose_bytes : LogEntryType → Option (List ℕ) → Node → Node × ProposalResult
unfolding next_entry add_entry commit_alone
propose_bytes kind none n = (n, marshal_failed)
propose_bytes kind (some bytes) n =
    let e = next_entry kind bytes n in
    (commit_alone e.index (add_entry e n), accepted e.index e.term)

unfoldable pub propose : LogEntryType → Command → Node → Node × ProposalResult
unfolding propose_bytes command_bytes
propose kind command n =
    if is_leader n.state
    then propose_bytes kind (command_bytes command) n
    else (n, not_leader n.leader_id)

pub record ProposalRequest : Type 0 where
  pub entry_type : LogEntryType
  pub command : Command

-- The loop of `processBatch`: the node, the index of the last entry appended, and the results.
pub record Batch : Type 0 where
  pub node : Node
  pub last : Option ℕ
  pub results : List ProposalResult

unfoldable pub append_batch : List ProposalRequest → Node → Batch
append_batch [] n = record { node = n; last = none; results = [] }
append_batch (r ∷ rs) n = elim (command_bytes r.command) [
  | none ↦ let rest = append_batch rs n in record rest { results = marshal_failed ∷ rest.results }
  | some bytes ↦
      let e = next_entry r.entry_type bytes n in
      let rest = append_batch rs (add_entry e n) in
      record rest {
        last = some (elim rest.last [ none ↦ e.index | some i ↦ i ]);
        results = accepted e.index e.term ∷ rest.results;
      }
]

unfoldable pub commit_batch : Option ℕ → Node → Node
unfolding commit_alone
commit_batch none n = n
commit_batch (some index) n = commit_alone index n

unfoldable pub reject_all : String → List ProposalRequest → List ProposalResult
reject_all leader_id [] = []
reject_all leader_id (r ∷ rs) = not_leader leader_id ∷ reject_all leader_id rs

unfoldable pub process_batch : List ProposalRequest → Node → Node × List ProposalResult
unfolding append_batch commit_batch reject_all
process_batch batch n =
    let done = append_batch batch n in
    if is_leader n.state
    then (commit_batch done.last done.node, done.results)
    else (n, reject_all n.leader_id batch)
