-- ===== src/Raft/Commit.antt =====
-- `updateCommitIndex`: what the leader may count as committed.
use prisn.Base.{ℕ, ◌+◌, ◌≤◌, ◌<◌, ◌≡◌, ◌⊎◌, Option, none, some}
use prisn.Base.Dict.{Dict}
use prisn.Raft.Log.{term_at, last_index}
use prisn.Raft.Node.{Node, quorum_size}
use prisn.Raft.Node.Leader.{count_matching}

-- An entry of the leader's own term: the keys of MatchIndex that reach it, with the leader, are a quorum in number.
abbrev pub IsReplicated : Node → Dict ℕ → ℕ → Type 0
IsReplicated n matched k =
    (term_at n.log k ≡ n.current_term) × (quorum_size n ≤ 1 + count_matching k matched)

-- What the loop may return, from index `i` down.
abbrev ScanResult : Node → Dict ℕ → ℕ → Option ℕ → Type 0
ScanResult n matched i none = (j : ℕ) → n.commit_index < j → j ≤ i → IsReplicated n matched j → ⊥
ScanResult n matched i (some k) =
    (n.commit_index < k)
    × (k ≤ i)
    × IsReplicated n matched k
    × ((j : ℕ) → k < j → j ≤ i → IsReplicated n matched j → ⊥)

-- The commit index after the loop.
abbrev pub IsCommitted : Node → Dict ℕ → ℕ → Type 0
IsCommitted n matched c =
    ((c ≡ n.commit_index)
      ⊎ (n.commit_index < c) × (c ≤ last_index n.log) × IsReplicated n matched c)
    × ((j : ℕ) → c < j → j ≤ last_index n.log → IsReplicated n matched j → ⊥)
