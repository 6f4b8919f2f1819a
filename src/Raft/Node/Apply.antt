-- ===== src/Raft/Node/Apply.antt =====
-- `applyCommitted`, `applyMembershipChange` and `maybeCompactLog` of pkg/raft/node.go. `now` gives the
-- clock of each `Apply` by the entry's index.
use prisn.Base.{ℕ, Option, none, some, get_or, List, [], ◌∷◌, leb, ◌==◌, if◌then◌else◌}
use prisn.Base.Word.{add64}
use prisn.Raft.Types.{LogEntry, LogEntryType, log_node_join, log_node_leave}
use prisn.Raft.Log.{term_at, get_range, compact, should_compact}
use prisn.Raft.Fsm.{Json, NodeCommand, apply}
use prisn.Raft.Node.{Node, add_to_cluster_config, remove_from_cluster_config}

abbrev pub default_compaction_threshold : ℕ
default_compaction_threshold = 1000

join : Option NodeCommand → Node → Node
join none n = n
join (some cmd) n = add_to_cluster_config cmd.node_id cmd.address n

leave : Option NodeCommand → Node → Node
leave none n = n
leave (some cmd) n = remove_from_cluster_config cmd.node_id n

unfoldable pub membership_change : Json → LogEntryType → List ℕ → Node → Node
unfolding join leave
membership_change json log_node_join bytes n = join (json.node bytes) n
membership_change json log_node_leave bytes n = leave (json.node bytes) n
membership_change json _ bytes n = n

-- An entry that fails to apply is skipped.
unfoldable pub apply_entry : Json → (ℕ → ℕ → ℕ) → LogEntry → Node → Node
unfolding membership_change
apply_entry json now e n =
    membership_change json e.kind e.command
      (record n { fsm = get_or (apply json (now e.index) e n.fsm) n.fsm })

unfoldable pub apply_entries : Json → (ℕ → ℕ → ℕ) → List LogEntry → Node → Node
unfolding apply_entry
apply_entries json now [] n = n
apply_entries json now (e ∷ es) n = apply_entries json now es (apply_entry json now e n)

-- The snapshot is saved first, then the log is cut.
unfoldable pub maybe_compact_log : Json → Node → Node
maybe_compact_log json n =
    if should_compact default_compaction_threshold n.log
    then (if n.last_applied == 0 then n else record n {
      snapshot_file = some (json.state_text n.fsm);
      log = compact n.last_applied (term_at n.log n.last_applied) n.log;
    })
    else n

unfoldable pub apply_committed : Json → (ℕ → ℕ → ℕ) → Node → Node
unfolding apply_entries maybe_compact_log
apply_committed json now n =
    if leb n.commit_index n.last_applied
    then n
    else let entries = get_range n.log (add64 n.last_applied 1) n.commit_index in
      maybe_compact_log json
        (record (apply_entries json now entries n) { last_applied = n.commit_index })
