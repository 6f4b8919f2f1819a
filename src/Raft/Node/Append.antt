-- ===== src/Raft/Node/Append.antt =====
-- `HandleAppendEntries` of pkg/raft/node.go.
use prisn.Base.{
  ℕ, zero, suc, ◌-◌, String, true, false, List, [], ◌∷◌, ltb, leb, ◌==◌, if◌then◌else◌,
}
use prisn.Base.Word.{add64, sub64}
use prisn.Raft.Types.{AppendEntriesArgs, AppendEntriesReply, LogEntry, follower}
use prisn.Raft.Log.{Log, last_index, term_at, append, truncate_after}
use prisn.Raft.Node.{Node, save_persistent_state, reset_election_timer, signal_apply}

-- The loop down from `i` to 1 for the first index of the term `ct`; 0 where it meets no other term.
unfoldable pub first_of_term : Log → ℕ → ℕ → ℕ
first_of_term log ct zero = 0
first_of_term log ct (suc i) =
    let rest = first_of_term log ct i in if term_at log (suc i) == ct then rest else add64 (suc i) 1

-- The loop over the entries of the request: those that are there are skipped; at the first conflict
-- the log is cut, and at the first missing index the rest is appended.
unfoldable pub append_new : List LogEntry → Log → Log
append_new [] log = log
append_new (e ∷ es) log =
    let rest = append_new es log in
    if leb e.index (last_index log)
    then (if term_at log e.index == e.term
        then rest
        else append (e ∷ es) (truncate_after (sub64 e.index 1) log))
    else append (e ∷ es) log

-- A leader of a higher or equal term: the node follows it.
unfoldable pub follow : ℕ → String → Node → Node
unfolding reset_election_timer
follow term leader n =
    let n' =
      if ltb n.current_term term then record n { current_term = term; voted_for = "" } else n in
    reset_election_timer (record n' { state = follower; leader_id = leader })

unfoldable pub advance_commit : ℕ → Node → Node
unfolding signal_apply
advance_commit leader_commit n =
    if ltb n.commit_index leader_commit
    then signal_apply (record n {
      commit_index =
          if ltb leader_commit (last_index n.log) then leader_commit else last_index n.log;
    })
    else n

unfoldable pub reject : ℕ → ℕ → ℕ → AppendEntriesReply
reject term conflict_index conflict_term = record {
  term = term;
  success = false;
  conflict_index = conflict_index;
  conflict_term = conflict_term;
}

unfoldable pub accept : AppendEntriesArgs → Node → Node × AppendEntriesReply
unfolding advance_commit save_persistent_state
accept args n = (
  save_persistent_state
      (advance_commit args.leader_commit (record n { log = append_new args.entries n.log })),
  record { term = n.current_term; success = true; conflict_index = 0; conflict_term = 0 },
)

-- the check of the entry before the new ones
unfoldable pub check_previous : AppendEntriesArgs → Node → Node × AppendEntriesReply
unfolding accept reject
check_previous args n =
    let prev = args.prev_log_index in
    let found = term_at n.log prev in
    if prev == 0
    then accept args n
    else if ltb (last_index n.log) prev
    then (n, reject n.current_term (add64 (last_index n.log) 1) 0)
    else if found == args.prev_log_term
    then accept args n
    else (n, reject n.current_term (first_of_term n.log found (prev - 1)) found)

unfoldable pub handle_append_entries : AppendEntriesArgs → Node → Node × AppendEntriesReply
unfolding follow check_previous
handle_append_entries args n =
    if ltb args.term n.current_term
    then (n, reject n.current_term 0 0)
    else check_previous args (follow args.term args.leader_id n)
