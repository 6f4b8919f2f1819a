-- ===== src/Raft/Node/Vote.antt =====
-- `HandlePreVote`, `HandleRequestVote` and `isLogUpToDate` of pkg/raft/node.go.
use prisn.Base.{ℕ, Bool, true, false, ◌&&◌, ◌||◌, str_eq, ltb, leb, ◌==◌, if◌then◌else◌}
use prisn.Raft.Types.{RequestVoteArgs, VoteReply, follower}
use prisn.Raft.Log.{last_index, last_term}
use prisn.Raft.Node.{Node, save_persistent_state, reset_election_timer}

unfoldable pub is_log_up_to_date : Node → ℕ → ℕ → Bool
is_log_up_to_date n index term =
    if term == last_term n.log then leb (last_index n.log) index else ltb (last_term n.log) term

-- `PreVoteArgs` has the fields of `RequestVoteArgs`.
unfoldable pub handle_pre_vote : Node → RequestVoteArgs → VoteReply
unfolding is_log_up_to_date
handle_pre_vote n args = record {
  term = n.current_term;
  vote_granted =
      if ltb args.term n.current_term
      then false
      else is_log_up_to_date n args.last_log_index args.last_log_term;
}

-- A higher term makes the node a follower that has not voted.
unfoldable pub adopt_term : ℕ → Node → Node
adopt_term term n =
    if ltb n.current_term term
    then record n { current_term = term; state = follower; voted_for = "" }
    else n

unfoldable pub can_vote : Node → RequestVoteArgs → Bool
unfolding is_log_up_to_date
can_vote n args =
    (str_eq n.voted_for "" || str_eq n.voted_for args.candidate_id)
    && is_log_up_to_date n args.last_log_index args.last_log_term

unfoldable pub cast_vote : RequestVoteArgs → Node → Node × VoteReply
unfolding can_vote reset_election_timer save_persistent_state
cast_vote args n =
    if can_vote n args
    then (
      save_persistent_state (reset_election_timer (record n { voted_for = args.candidate_id })),
      record { term = n.current_term; vote_granted = true },
    )
    else (save_persistent_state n, record { term = n.current_term; vote_granted = false })

unfoldable pub handle_request_vote : RequestVoteArgs → Node → Node × VoteReply
unfolding adopt_term cast_vote
handle_request_vote args n =
    if ltb args.term n.current_term
    then (n, record { term = n.current_term; vote_granted = false })
    else cast_vote args (adopt_term args.term n)
