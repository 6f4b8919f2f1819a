-- ===== src/Raft/Replication/Handler.antt =====
-- `HandleAppendEntries` as a whole: its successes and its refusals.
use prisn.Base.{
  ℕ, ◌+◌, ◌^◌, ◌≤◌, ◌<◌, ◌≡◌, refl, ◌∙◌, subst, inl, inr, String, Bool, true, false, arith, ltb,
  ◌==◌, length, Bool-cases, ==_iff,
}
use prisn.Raft.Types.{AppendEntriesArgs}
use prisn.Raft.Log.{Log, term_at, last_index}
use prisn.Raft.Log.Shape.{Numbered, IsLog}
use prisn.Raft.Log.View.{term_at-eq}
use prisn.Raft.Node.{Node}
use prisn.Raft.Node.Append.{
  append_new, follow, accept, check_previous, handle_append_entries, reject,
}
use prisn.Raft.Replication.Merge.{KnowsEnd, IsMerge, append_new-IsMerge}

-- The entries of a request are numbered behind its previous index, and begin where the log of the
-- node still has entries.
pub record IsRequest (args : AppendEntriesArgs) (l : Log) : Type 0 where
  pub numbered : Numbered (args.prev_log_index + 1) args.entries
  pub reaches : l.first_idx ≤ args.prev_log_index + 1
  pub small : args.prev_log_index + 1 + length args.entries < 2 ^ 63

log-accept :
    (args : AppendEntriesArgs) (n : Node) → (accept args n).0.log ≡ append_new args.entries n.log
unfolding accept
log-accept args n = ground arith

log-follow : (t : ℕ) (leader : String) (n : Node) → (follow t leader n).log ≡ n.log
unfolding follow
log-follow t leader n = ground arith

commit-follow :
    (t : ℕ) (leader : String) (n : Node) → (follow t leader n).commit_index ≡ n.commit_index
unfolding follow
commit-follow t leader n = ground arith

-- What a handler may do to a log: merge the entries behind a matching one, or nothing.
record Merged (args : AppendEntriesArgs) (l l' : Log) : Type 0 where
  merged : l' ≡ append_new args.entries l
  reached : args.prev_log_index ≤ last_index l
  matched : 0 < args.prev_log_index → term_at l args.prev_log_index ≡ args.prev_log_term

data Outcome (args : AppendEntriesArgs) (n n' : Node) (success : Bool) : Type 0 where
  accepted : success ≡ true → Merged args n.log n'.log → Outcome args n n' success
  refused :
      success ≡ false
      → n'.log ≡ n.log
      → n'.commit_index ≡ n.commit_index
      → Outcome args n n' success

accept-Outcome :
    (args : AppendEntriesArgs) (n : Node)
    → args.prev_log_index ≤ last_index n.log
    → (0 < args.prev_log_index → term_at n.log args.prev_log_index ≡ args.prev_log_term)
    → Outcome args n (accept args n).0 (accept args n).1.success
accept-Outcome args n le same =
    accepted (unfold accept in refl)
      (record { merged = log-accept args n; reached = le; matched = same })

check_previous-Outcome :
    (args : AppendEntriesArgs) (n : Node)
    → Outcome args n (check_previous args n).0 (check_previous args n).1.success
unfolding check_previous reject
check_previous-Outcome args n = elim (Bool-cases (args.prev_log_index == 0)) [
  | inl start ↦
      let zero_prev = (==_iff args.prev_log_index 0).0 start in
      rw start
        (accept-Outcome args n (omega (arith, zero_prev)) (λ h. absurd (omega (arith, zero_prev))))
  | inr later ↦ rw later (elim (Bool-cases (ltb (last_index n.log) args.prev_log_index)) [
    | inl missing ↦ rw missing (refused refl refl refl)
    | inr there ↦
        rw there (elim (Bool-cases (term_at n.log args.prev_log_index == args.prev_log_term)) [
          | inl same ↦ rw same (accept-Outcome args n (ground arith) (λ _. (==_iff _ _).0 same))
          | inr other ↦ rw other (refused refl refl refl)
        ])
  ])
]

-- Following the leader first does not touch the log or the commit index.
Outcome-follow :
    (args : AppendEntriesArgs) (n m n' : Node) (success : Bool)
    → m.log ≡ n.log
    → m.commit_index ≡ n.commit_index
    → Outcome args m n' success
    → Outcome args n n' success
Outcome-follow args n m n' success e c (accepted s h) =
    accepted s (subst (λ l. Merged args l n'.log) e h)
Outcome-follow args n m n' success e c (refused s l k) = refused s (l ∙ e) (k ∙ c)

handle_append_entries-Outcome :
    (args : AppendEntriesArgs) (n : Node)
    → Outcome args n (handle_append_entries args n).0 (handle_append_entries args n).1.success
unfolding handle_append_entries reject
handle_append_entries-Outcome args n = elim (Bool-cases (ltb args.term n.current_term)) [
  | inl old ↦ rw old (refused refl refl refl)
  | inr new ↦
      let m = follow args.term args.leader_id n in
      rw new (
        Outcome-follow args n m _ _ (log-follow args.term args.leader_id n)
          (commit-follow args.term args.leader_id n) (check_previous-Outcome args m))
]

success_merges :
    (args : AppendEntriesArgs) (n n' : Node) (success : Bool)
    → IsLog n.log
    → KnowsEnd n.log
    → IsRequest args n.log
    → Outcome args n n' success
    → success ≡ true
    → IsMerge args.prev_log_index args.entries n.log n'.log
      × (0 < args.prev_log_index → term_at n'.log args.prev_log_index ≡ args.prev_log_term)
success_merges args n n' success w known r (refused s l c) succeeds = cc
success_merges args n n' success w known r (accepted s h) succeeds =
    let m =
      append_new-IsMerge args.prev_log_index args.entries n.log w known r.reaches h.reached
        r.numbered r.small in
    rw h.merged
      (m, λ pos. term_at-eq _ _ _ _ (m.before args.prev_log_index own_index) ∙ h.matched pos)
  where
    own_index : args.prev_log_index ≤ args.prev_log_index
    own_index = omega arith

-- On a well-formed log that knows its end, and for a request whose entries are numbered behind its
-- previous index, whose first new index is not below the first index of the log, and whose indices are
-- below 2^63, a success means that the log now agrees with the request: it has the term asked for at the
-- previous index and the term of each entry at its place, it is well formed, and no entry up to the
-- previous index has changed.
pub append_entries_success :
    (args : AppendEntriesArgs) (n : Node)
    → IsLog n.log
    → KnowsEnd n.log
    → IsRequest args n.log
    → (handle_append_entries args n).1.success ≡ true
    → IsMerge args.prev_log_index args.entries n.log (handle_append_entries args n).0.log
      × (0 < args.prev_log_index
          → term_at (handle_append_entries args n).0.log args.prev_log_index ≡ args.prev_log_term)
append_entries_success args n w known r =
    success_merges args n _ _ w known r (handle_append_entries-Outcome args n)

refusal_keeps :
    (args : AppendEntriesArgs) (n n' : Node) (success : Bool)
    → Outcome args n n' success
    → success ≡ false
    → (n'.log ≡ n.log) × (n'.commit_index ≡ n.commit_index)
refusal_keeps args n n' success (accepted s h) fails = cc
refusal_keeps args n n' success (refused s l c) fails = (l, c)

-- A refusal leaves the log and the commit index as they were.
pub append_entries_refusal :
    (args : AppendEntriesArgs) (n : Node)
    → (handle_append_entries args n).1.success ≡ false
    → ((handle_append_entries args n).0.log ≡ n.log)
      × ((handle_append_entries args n).0.commit_index ≡ n.commit_index)
append_entries_refusal args n = refusal_keeps args n _ _ (handle_append_entries-Outcome args n)
