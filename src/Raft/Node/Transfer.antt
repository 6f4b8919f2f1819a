-- ===== src/Raft/Node/Transfer.antt =====
-- The state that `GracefulStop` of pkg/raft/node.go changes, and `findBestTransferTarget`.
use prisn.Base.{ℕ, String, Option, none, some, [], ◌∷◌, ltb, if◌then◌else◌}
use prisn.Base.Dict.{Dict}
use prisn.Raft.Types.{follower, LeaderState}
use prisn.Raft.Node.{Node, is_leader}

-- The loop over the match indices, with the best target so far and its index.
unfoldable pub best_target : Dict ℕ → String × ℕ → String × ℕ
best_target [] best = best
best_target ((id, match_idx) ∷ rest) (target, best_match) =
    if ltb best_match match_idx
    then best_target rest (id, match_idx)
    else best_target rest (target, best_match)

abbrev pub target_of : Option LeaderState → String
target_of none = ""
target_of (some ls) = (best_target ls.match_index ("", 0)).0

unfoldable pub find_best_transfer_target : Node → String
unfolding best_target
find_best_transfer_target n = target_of n.leader_state

-- Step 2 of `GracefulStop`
unfoldable pub step_down : Node → Node
step_down n = if is_leader n.state then record n { state = follower; leader_state = none } else n
