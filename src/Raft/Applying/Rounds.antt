-- ===== src/Raft/Applying/Rounds.antt =====
-- `applyCommitted`: the rounds in which committed entries reach the state machine.
use prisn.Base.{
  ℕ, ◌+◌, ◌≤◌, ◌<◌, ◌≡◌, refl, sym, ap, ◌∙◌, inl, inr, String, Option, none, some, List, [], ◌∷◌,
  ◌++◌, false, arith, leb, length, Option-cases,
}
use mathlib.Core.Path.{ap₂}
use prisn.Base.Word.{add64}
use prisn.Raft.Types.{LogEntry, LogEntryType, ClusterConfig, log_node_join, log_node_leave}
use prisn.Raft.Log.{get_range, should_compact}
use prisn.Raft.Log.Shape.{IsLog}
use prisn.Raft.Fsm.{Json}
use prisn.Raft.Node.{Node, add_to_cluster_config, remove_from_cluster_config, remove_from}
use prisn.Raft.Applying.{get_range-split}
use prisn.Raft.Node.Apply.{
  default_compaction_threshold, apply_entries, apply_entry, apply_committed, maybe_compact_log,
  membership_change,
}

apply_entries-append :
    (json : Json) (now : ℕ → ℕ → ℕ) (xs ys : List LogEntry) (n : Node)
    → apply_entries json now (xs ++ ys) n ≡ apply_entries json now ys (apply_entries json now xs n)
unfolding apply_entries
apply_entries-append json now [] ys n = refl
apply_entries-append json now (x ∷ xs) ys n =
    apply_entries-append json now xs ys (apply_entry json now x n)

-- The two indices of the apply loop.
abbrev at_indices : ℕ → ℕ → Node → Node
at_indices commit applied n = record n { commit_index = commit; last_applied = applied }

remove_from-indices :
    (id : String) (o : Option ClusterConfig) (c a : ℕ) (n : Node)
    → remove_from id o (at_indices c a n) ≡ at_indices c a (remove_from id o n)
unfolding remove_from
remove_from-indices id none c a n = refl
remove_from-indices id (some cfg) c a n = refl

membership_change-indices :
    (json : Json) (kind : LogEntryType) (bytes : List ℕ) (c a : ℕ) (n : Node)
    → membership_change json kind bytes (at_indices c a n)
      ≡ at_indices c a (membership_change json kind bytes n)
unfolding membership_change add_to_cluster_config remove_from_cluster_config
membership_change-indices json log_node_join bytes c a n = elim (Option-cases (json.node bytes)) [
  | inl bad ↦ rw bad
  | inr (cmd, good) ↦ rw good
]
membership_change-indices json log_node_leave bytes c a n = elim (Option-cases (json.node bytes)) [
  | inl bad ↦ rw bad
  | inr (cmd, good) ↦ rw good (remove_from-indices cmd.node_id n.cluster_config c a n)
]
membership_change-indices json _ bytes c a n = refl

apply_entries-indices :
    (json : Json) (now : ℕ → ℕ → ℕ) (es : List LogEntry) (c a : ℕ) (n : Node)
    → apply_entries json now es (at_indices c a n) ≡ at_indices c a (apply_entries json now es n)
unfolding apply_entries apply_entry
apply_entries-indices json now [] c a n = refl
apply_entries-indices json now (e ∷ es) c a n =
    ap (apply_entries json now es) (membership_change-indices json e.kind e.command c a _)
    ∙ apply_entries-indices json now es c a (apply_entry json now e n)

log-remove_from :
    (id : String) (o : Option ClusterConfig) (n : Node) → (remove_from id o n).log ≡ n.log
unfolding remove_from
log-remove_from id none n = refl
log-remove_from id (some cfg) n = refl

log-membership_change :
    (json : Json) (kind : LogEntryType) (bytes : List ℕ) (n : Node)
    → (membership_change json kind bytes n).log ≡ n.log
unfolding membership_change add_to_cluster_config remove_from_cluster_config
log-membership_change json log_node_join bytes n = elim (Option-cases (json.node bytes)) [
  | inl bad ↦ rw bad
  | inr (cmd, good) ↦ rw good
]
log-membership_change json log_node_leave bytes n = elim (Option-cases (json.node bytes)) [
  | inl bad ↦ rw bad
  | inr (cmd, good) ↦ rw good (log-remove_from cmd.node_id n.cluster_config n)
]
log-membership_change json _ bytes n = refl

log-apply_entries :
    (json : Json) (now : ℕ → ℕ → ℕ) (es : List LogEntry) (n : Node)
    → (apply_entries json now es n).log ≡ n.log
unfolding apply_entries apply_entry
log-apply_entries json now [] n = refl
log-apply_entries json now (e ∷ es) n =
    log-apply_entries json now es (apply_entry json now e n)
    ∙ log-membership_change json e.kind e.command _

maybe_compact_log-small :
    (json : Json) (n : Node)
    → should_compact default_compaction_threshold n.log ≡ false
    → maybe_compact_log json n ≡ n
unfolding maybe_compact_log
maybe_compact_log-small json n small = rw small

apply_committed-open :
    (json : Json) (now : ℕ → ℕ → ℕ) (n : Node)
    → leb n.commit_index n.last_applied ≡ false
    → apply_committed json now n
      ≡ maybe_compact_log json
          (record (apply_entries json now
            (get_range n.log (add64 n.last_applied 1) n.commit_index)
            n) { last_applied = n.commit_index })
apply_committed-open json now n more = unfold apply_committed in rw more

-- A round that has something to apply, on a log that is not due for compaction.
apply_committed-round :
    (json : Json) (now : ℕ → ℕ → ℕ) (n : Node)
    → n.last_applied < n.commit_index
    → should_compact default_compaction_threshold n.log ≡ false
    → apply_committed json now n
      ≡ at_indices n.commit_index n.commit_index
          (apply_entries json now (get_range n.log (add64 n.last_applied 1) n.commit_index) n)
apply_committed-round json now n lt small =
    let es = get_range n.log (add64 n.last_applied 1) n.commit_index in
    let x = apply_entries json now es n in
    apply_committed-open json now n (ground arith)
    ∙ maybe_compact_log-small json (record x { last_applied = n.commit_index })
        (ap (should_compact default_compaction_threshold) (log-apply_entries json now es n) ∙ small)
    ∙ ap (λ (m : Node). record m { last_applied = n.commit_index })
        (apply_entries-indices json now es n.commit_index n.last_applied n)

-- On a well-formed log that holds the entries to apply and is not due for compaction, with the same
-- clock for an entry in each case: a round up to the commit index and a second one after it has moved
-- to `c` leave the node as one round up to `c` does.
pub apply_committed-rounds :
    (json : Json) (now : ℕ → ℕ → ℕ) (n : Node) (c : ℕ)
    → IsLog n.log
    → n.log.first_idx ≤ n.last_applied + 1
    → n.last_applied < n.commit_index
    → n.commit_index < c
    → c < n.log.first_idx + length n.log.entries
    → should_compact default_compaction_threshold n.log ≡ false
    → apply_committed json now (record (apply_committed json now n) { commit_index = c })
      ≡ apply_committed json now (record n { commit_index = c })
apply_committed-rounds json now n c w ge more later fits small =
    ap (λ (m : Node). apply_committed json now (record m { commit_index = c })) first_round
    ∙ apply_committed-round json now (at_indices c b x) later
        (ap (should_compact default_compaction_threshold) same_log ∙ small)
    ∙ ap
        (λ l.
          at_indices c c (apply_entries json now (get_range l (add64 b 1) c) (at_indices c b x)))
        same_log
    ∙ ap (at_indices c c) (apply_entries-indices json now es2 c b x)
    ∙ ap (at_indices c c) (sym (apply_entries-append json now es1 es2 n))
    ∙ ap (λ es. at_indices c c (apply_entries json now es n)) joined
    ∙ sym (ap (at_indices c c) (apply_entries-indices json now es3 c n.last_applied n))
    ∙ sym (apply_committed-round json now (at_indices c n.last_applied n) (omega arith) small)
  where
    b : ℕ
    b = n.commit_index

    es1 : List LogEntry
    es1 = get_range n.log (add64 n.last_applied 1) b

    es2 : List LogEntry
    es2 = get_range n.log (add64 b 1) c

    es3 : List LogEntry
    es3 = get_range n.log (add64 n.last_applied 1) c

    x : Node
    x = apply_entries json now es1 n

    first_round : apply_committed json now n ≡ at_indices b b x
    first_round = apply_committed-round json now n more small

    same_log : x.log ≡ n.log
    same_log = log-apply_entries json now es1 n

    joined : es1 ++ es2 ≡ es3
    joined =
        ap₂ (λ i j. get_range n.log i b ++ get_range n.log j c) (omega (arith, w.fits))
          (omega (arith, w.fits))
        ∙ get_range-split n.log n.last_applied b c w ge (omega arith) (omega arith) fits
        ∙ ap (λ i. get_range n.log i c) (omega (arith, w.fits))
