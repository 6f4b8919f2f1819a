-- ===== src/Raft/Node/Leader.antt =====
-- The leader's side of replication in pkg/raft/node.go: `becomeLeader`, the message of `replicateTo`,
-- its handling of the reply, `sendSnapshot`'s reply and `updateCommitIndex`.
use prisn.Base.{
  ℕ, zero, suc, ◌+◌, String, Option, none, some, get_or, List, [], ◌∷◌, str_eq, ltb, leb, ◌==◌,
  if◌then◌else◌, get_last?, ◌⊎◌, inl, inr,
}
use prisn.Base.Dict.{Dict, lookup, insert}
use prisn.Base.Word.{add64, sub64}
use prisn.Raft.Types.{
  follower, leader, log_noop, LogEntry, NodeInfo, LeaderState, AppendEntriesArgs,
  AppendEntriesReply, InstallSnapshotArgs,
}
use prisn.Raft.Log.{Log, first_index, last_index, term_at, get_range}
use prisn.Raft.Fsm.{Json}
use prisn.Raft.Node.{
  Node, config_nodes, quorum_size, save_persistent_state, reset_election_timer, signal_apply,
  is_leader,
}
use prisn.Raft.Node.Propose.{propose, nil_command}

-- One value for every node of the configuration but the node itself.
unfoldable pub for_peers : String → ℕ → Dict NodeInfo → Dict ℕ
for_peers self v [] = []
for_peers self v ((id, info) ∷ nodes) =
    let rest = for_peers self v nodes in if str_eq id self then rest else (id, v) ∷ rest

unfoldable pub lead : Node → Node
unfolding for_peers
lead n =
    let nodes = config_nodes n.cluster_config in
    record n {
      state = leader;
      leader_id = n.id;
      leader_state = some (record {
        next_index = for_peers n.id (add64 (last_index n.log) 1) nodes;
        match_index = for_peers n.id 0 nodes;
      });
      peer_failures = some (for_peers n.id 0 nodes);
    }

unfoldable pub become_leader : Node → Node
unfolding lead propose
become_leader n = (propose log_noop nil_command (lead n)).0

-- The peers that hold index `idx`.
unfoldable pub count_matching : ℕ → Dict ℕ → ℕ
count_matching idx [] = 0
count_matching idx ((id, matched) ∷ m) =
    if leb idx matched then suc (count_matching idx m) else count_matching idx m

-- The loop of `updateCommitIndex`, down from an index to the commit index.
unfoldable pub commit_scan : Node → Dict ℕ → ℕ → Option ℕ
commit_scan n matched zero = none
commit_scan n matched (suc i) =
    let rest = commit_scan n matched i in
    if ltb n.commit_index (suc i)
    then (if term_at n.log (suc i) == n.current_term
        then (if leb (quorum_size n) (1 + count_matching (suc i) matched)
            then some (suc i)
            else rest)
        else rest)
    else none

unfoldable pub commit_to : Option ℕ → Node → Node
unfolding signal_apply
commit_to none n = n
commit_to (some idx) n = signal_apply (record n { commit_index = idx })

unfoldable pub update_commit : Option LeaderState → Node → Node
unfolding commit_to
update_commit none n = n
update_commit (some ls) n = commit_to (commit_scan n ls.match_index (last_index n.log)) n

unfoldable pub update_commit_index : Node → Node
unfolding update_commit
update_commit_index n = update_commit n.leader_state n

-- What `replicateTo` sends to a peer: entries, or a snapshot where they have been compacted.
unfoldable pub append_args : Node → LeaderState → String → ℕ → ℕ → AppendEntriesArgs
append_args n ls peer term leader_commit =
    let next = get_or (lookup peer ls.next_index) 0 in
    record {
      term = term;
      leader_id = n.id;
      prev_log_index = sub64 next 1;
      prev_log_term = term_at n.log (sub64 next 1);
      entries = get_range n.log next (last_index n.log);
      leader_commit = leader_commit;
    }

unfoldable pub snapshot_args : Json → Node → ℕ → InstallSnapshotArgs
snapshot_args json n term = record {
  term = term;
  leader_id = n.id;
  last_included_index = n.last_applied;
  last_included_term = n.current_term;
  snapshot = json.state_text n.fsm;
  cluster_config = n.cluster_config;
}

unfoldable pub replicate_to :
    Json → Node → LeaderState → String → ℕ → ℕ → InstallSnapshotArgs ⊎ AppendEntriesArgs
unfolding append_args snapshot_args
replicate_to json n ls peer term leader_commit =
    if ltb (get_or (lookup peer ls.next_index) 0) (first_index n.log)
    then inl (snapshot_args json n term)
    else inr (append_args n ls peer term leader_commit)

unfoldable pub set_failures : String → ℕ → Option (Dict ℕ) → Option (Dict ℕ)
set_failures peer count none = none
set_failures peer count (some m) =
    some (elim (lookup peer m) [ none ↦ m | some _ ↦ insert peer count m ])

failures : String → Option (Dict ℕ) → ℕ
failures peer none = 0
failures peer (some m) = get_or (lookup peer m) 0

unfoldable pub append_failed : String → Node → Node
unfolding set_failures failures
append_failed peer n = record n {
  peer_failures = set_failures peer (failures peer n.peer_failures + 1) n.peer_failures;
}

-- A reply with a higher term ends the leadership.
unfoldable pub abdicate : ℕ → Node → Node
unfolding save_persistent_state reset_election_timer
abdicate term n = reset_election_timer (
    save_persistent_state
      (record n { current_term = term; state = follower; voted_for = ""; leader_state = none }))

-- The loop down from `i` to 1 for the last entry of the term `ct`.
unfoldable pub after_last_of_term : Log → ℕ → ℕ → Option ℕ
after_last_of_term log ct zero = none
after_last_of_term log ct (suc i) =
    let rest = after_last_of_term log ct i in
    if term_at log (suc i) == ct then some (add64 (suc i) 1) else rest

unfoldable pub back_up : Log → AppendEntriesReply → ℕ
unfolding after_last_of_term
back_up log reply =
    if ltb 0 reply.conflict_term
    then get_or (after_last_of_term log reply.conflict_term (last_index log)) reply.conflict_index
    else reply.conflict_index

matched_to : String → Option LogEntry → LeaderState → LeaderState
matched_to peer none ls = ls
matched_to peer (some e) ls = record {
  next_index = insert peer (add64 e.index 1) ls.next_index;
  match_index = insert peer e.index ls.match_index;
}

unfoldable pub settle_reply :
    String → List LogEntry → AppendEntriesReply → Option LeaderState → Node → Node
unfolding matched_to
settle_reply peer sent reply none n = n
settle_reply peer sent reply (some ls) n =
    if is_leader n.state
    then (if reply.success
        then update_commit_index
            (record n { leader_state = some (matched_to peer (get_last? sent) ls) })
        else record n {
          leader_state =
              some (record ls { next_index = insert peer (back_up n.log reply) ls.next_index });
        })
    else n

-- The reply to the entries `sent` arrives.
unfoldable pub append_replied : String → List LogEntry → AppendEntriesReply → Node → Node
unfolding set_failures abdicate settle_reply
append_replied peer sent reply n =
    let n' = record n { peer_failures = set_failures peer 0 n.peer_failures } in
    if ltb n'.current_term reply.term
    then record (abdicate reply.term n') { peer_failures = none }
    else settle_reply peer sent reply n'.leader_state n'

snapshot_settled : String → ℕ → Option LeaderState → Node → Node
snapshot_settled peer index none n = n
snapshot_settled peer index (some ls) n =
    if is_leader n.state
    then record n {
      leader_state = some (record {
        next_index = insert peer (add64 index 1) ls.next_index;
        match_index = insert peer index ls.match_index;
      });
    }
    else n

-- The reply to a snapshot of index `index` arrives.
unfoldable pub snapshot_replied : String → ℕ → ℕ → Node → Node
unfolding abdicate snapshot_settled
snapshot_replied peer index reply_term n =
    if ltb n.current_term reply_term
    then abdicate reply_term n
    else snapshot_settled peer index n.leader_state n
