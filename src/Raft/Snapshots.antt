-- ===== src/Raft/Snapshots.antt =====
-- Where the log ends after a snapshot or a compaction has emptied it, and what follows from that.
use prisn.Base.{
  ℕ, ◌+◌, ◌-◌, ◌≤◌, ◌<◌, ◌≡◌, refl, sym, ap, subst, ◌∙◌, inl, String, some, get_or, List, [], true,
  false, arith, ltb, length-drop, lt→ltb, eq_iff, ◌≢◌,
}
use prisn.Base.Dict.{Dict, lookup, insert, lookup-insert}
use prisn.Raft.Types.{
  LogEntry, InstallSnapshotArgs, AppendEntriesArgs, AppendEntriesReply, LeaderState,
}
use prisn.Raft.Log.{Log, first_index, last_index, truncate_all, compact}
use prisn.Raft.Log.Shape.{IsLog}
use prisn.Raft.Fsm.{Json, ClusterState, restore}
use prisn.Raft.Node.{Node, is_leader}
use prisn.Raft.Node.Append.{handle_append_entries, reject}
use prisn.Raft.Node.Snapshot.{handle_install_snapshot}
use prisn.Raft.Node.Leader.{
  replicate_to, snapshot_args, append_replied, back_up, settle_reply, set_failures,
}

last_index-truncate_all : (l : Log) → last_index (truncate_all l) ≡ 0
unfolding last_index truncate_all
last_index-truncate_all l = refl

-- A log with no entry refuses every previous index.
empty_refuses :
    (args : AppendEntriesArgs) (n : Node)
    → last_index n.log ≡ 0
    → n.current_term ≤ args.term
    → 0 < args.prev_log_index
    → (handle_append_entries args n).1 ≡ reject args.term 1 0
unfolding handle_append_entries
empty_refuses args n empty current behind = ground (arith)

installed_fields :
    (json : Json) (s : InstallSnapshotArgs) (n : Node) (fsm : ClusterState)
    → n.current_term ≤ s.term
    → json.state s.snapshot ≡ some fsm
    → ((handle_install_snapshot json s n).0.log ≡ truncate_all n.log)
      × ((handle_install_snapshot json s n).0.current_term ≡ s.term)
unfolding handle_install_snapshot restore
installed_fields json s n fsm new decoded = ground arith

-- After a follower has installed a snapshot that it can decode and that is not of an old term, it
-- refuses every request of that term or a later one that has a previous index, and asks for index 1.
pub install_snapshot_refuses :
    (json : Json) (s : InstallSnapshotArgs) (n : Node) (fsm : ClusterState)
    (args : AppendEntriesArgs)
    → n.current_term ≤ s.term
    → json.state s.snapshot ≡ some fsm
    → s.term ≤ args.term
    → 0 < args.prev_log_index
    → (handle_append_entries args (handle_install_snapshot json s n).0).1 ≡ reject args.term 1 0
install_snapshot_refuses json s n fsm args new decoded current behind =
    let (emptied, term) = installed_fields json s n fsm new decoded in
    empty_refuses args _ (ap last_index emptied ∙ last_index-truncate_all n.log) (omega arith)
      behind

not_newer : (t c : ℕ) → t ≤ c → ltb c (reject t 1 0).term ≡ false
unfolding reject
not_newer t c h = ground arith

append_replied-current :
    (peer : String) (sent : List LogEntry) (reply : AppendEntriesReply) (n : Node)
    → ltb n.current_term reply.term ≡ false
    → append_replied peer sent reply n
      ≡ settle_reply peer sent reply n.leader_state
          (record n { peer_failures = set_failures peer 0 n.peer_failures })
unfolding append_replied
append_replied-current peer sent reply n current = rw current

settle_refused :
    (peer : String) (sent : List LogEntry) (term : ℕ) (ls : LeaderState) (n : Node)
    → is_leader n.state ≡ true
    → (settle_reply peer sent (reject term 1 0) (some ls) n).leader_state
      ≡ some (record ls { next_index = insert peer 1 ls.next_index })
unfolding settle_reply reject back_up
settle_refused peer sent term ls n leads = rw leads

-- The leader takes that refusal back to index 1.
next_index-after_refusal :
    (n : Node) (ls : LeaderState) (peer : String) (sent : List LogEntry) (term : ℕ)
    → is_leader n.state ≡ true
    → n.leader_state ≡ some ls
    → term ≤ n.current_term
    → (append_replied peer sent (reject term 1 0) n).leader_state
      ≡ some (record ls { next_index = insert peer 1 ls.next_index })
next_index-after_refusal n ls peer sent term leads e old =
    let n' = record n { peer_failures = set_failures peer 0 n.peer_failures } in
    ap (λ (m : Node). m.leader_state)
      (append_replied-current peer sent (reject term 1 0) n (not_newer term n.current_term old))
    ∙ subst
        (λ o.
          (settle_reply peer sent (reject term 1 0) o n').leader_state
          ≡ some (record ls { next_index = insert peer 1 ls.next_index }))
        (sym e) (settle_refused peer sent term ls n' leads)

lookup-insert_self : (k : String) (v : ℕ) (m : Dict ℕ) → get_or (lookup k (insert k v m)) 0 ≡ v
lookup-insert_self k v m = ground (arith, lookup-insert k k v m, eq_iff k k)

-- A leader that has compacted its log sends its snapshot to a peer whose next index is 1.
snapshot_is_resent :
    (json : Json) (m : Node) (ls : LeaderState) (peer : String) (term commit : ℕ)
    → 1 < first_index m.log
    → replicate_to json m (record ls { next_index = insert peer 1 ls.next_index }) peer term commit
      ≡ inl (snapshot_args json m term)
unfolding replicate_to
snapshot_is_resent json m ls peer term commit compacted =
    rw (lookup-insert_self peer 1 ls.next_index, lt→ltb _ _ compacted)

log-settle_refused :
    (peer : String) (sent : List LogEntry) (term : ℕ) (ls : LeaderState) (n : Node)
    → is_leader n.state ≡ true
    → (settle_reply peer sent (reject term 1 0) (some ls) n).log ≡ n.log
unfolding settle_reply reject back_up
log-settle_refused peer sent term ls n leads = rw leads refl

log-after_refusal :
    (n : Node) (ls : LeaderState) (peer : String) (sent : List LogEntry) (term : ℕ)
    → is_leader n.state ≡ true
    → n.leader_state ≡ some ls
    → term ≤ n.current_term
    → (append_replied peer sent (reject term 1 0) n).log ≡ n.log
log-after_refusal n ls peer sent term leads e old =
    let n' = record n { peer_failures = set_failures peer 0 n.peer_failures } in
    ap (λ (m : Node). m.log)
      (append_replied-current peer sent (reject term 1 0) n (not_newer term n.current_term old))
    ∙ subst (λ o. (settle_reply peer sent (reject term 1 0) o n').log ≡ n.log) (sym e)
        (log-settle_refused peer sent term ls n' leads)

-- What the leader `m` sends to the peer next is its snapshot.
pub record IsResent (json : Json) (peer : String) (term commit : ℕ) (m : Node) : Type 0 where
  pub leads_with : LeaderState
  pub leader_state_is : m.leader_state ≡ some leads_with
  pub sends : replicate_to json m leads_with peer term commit ≡ inl (snapshot_args json m term)

after_refusal-IsResent :
    (json : Json) (m : Node) (ls : LeaderState) (peer : String) (sent : List LogEntry)
    (refused_term term commit : ℕ)
    → is_leader m.state ≡ true
    → m.leader_state ≡ some ls
    → refused_term ≤ m.current_term
    → 1 < first_index m.log
    → IsResent json peer term commit (append_replied peer sent (reject refused_term 1 0) m)
after_refusal-IsResent json m ls peer sent refused_term term commit leads e old compacted = record {
  leads_with = record ls { next_index = insert peer 1 ls.next_index };
  leader_state_is = next_index-after_refusal m ls peer sent refused_term leads e old;
  sends = snapshot_is_resent json _ ls peer term commit (
      subst (λ l. 1 < first_index l)
        (sym (log-after_refusal m ls peer sent refused_term leads e old)) compacted);
}

-- A follower installs a snapshot that it can decode and that is not of an old term. The leader, whose
-- log is compacted, then asks it to continue behind any index, in its own term: the follower's answer
-- makes the leader send its snapshot again.
pub snapshot_loop :
    (json : Json) (s : InstallSnapshotArgs) (n : Node) (fsm : ClusterState)
    (args : AppendEntriesArgs) (m : Node) (ls : LeaderState) (peer : String) (sent : List LogEntry)
    (term commit : ℕ)
    → n.current_term ≤ s.term
    → json.state s.snapshot ≡ some fsm
    → s.term ≤ args.term
    → 0 < args.prev_log_index
    → is_leader m.state ≡ true
    → m.leader_state ≡ some ls
    → args.term ≤ m.current_term
    → 1 < first_index m.log
    → IsResent json peer term commit (
        append_replied peer sent
          (handle_append_entries args (handle_install_snapshot json s n).0).1
          m)
snapshot_loop json s n fsm args m ls peer sent term commit new decoded current behind leads e own
      compacted =
    subst (λ r. IsResent json peer term commit (append_replied peer sent r m))
      (sym (install_snapshot_refuses json s n fsm args new decoded current behind))
      (after_refusal-IsResent json m ls peer sent args.term term commit leads e own compacted)

-- A compaction of a well-formed log with entries up to the last of them empties it: `LastIndex` is 0,
-- and the first index is one past the snapshot.
pub last_index-compact :
    (l : Log) (s t : ℕ)
    → IsLog l
    → l.entries ≢ []
    → last_index l ≡ s
    → (last_index (compact s t l) ≡ 0) × (first_index (compact s t l) ≡ s + 1)
unfolding last_index compact first_index
last_index-compact l s t w ne e = ground (arith, w, length-drop (s - l.first_idx + 1) l.entries)
