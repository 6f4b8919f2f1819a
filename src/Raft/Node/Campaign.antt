-- ===== src/Raft/Node/Campaign.antt =====
-- Elections in pkg/raft/node.go: `startElection`, `runPreVote`, `startImmediateElection`. The replies
-- of the peers come as a list, in the order in which their goroutines take the mutex; `none` is a
-- call that failed or that came too late. The
-- source releases the mutex before it writes state.json; in the functions from `tally` on no handler comes
-- in between, and Raft/Ballots interleaves their parts.
use prisn.Base.{
  ℕ, suc, ◌+◌, Option, none, some, List, [], ◌∷◌, Bool, ◌&&◌, leb, ltb, ◌==◌, if◌then◌else◌,
}
use prisn.Base.Word.{add64}
use prisn.Raft.Types.{candidate, follower, RequestVoteArgs, VoteReply}
use prisn.Raft.Log.{last_index, last_term}
use prisn.Raft.Node.{
  Node, cluster_size, quorum_size, save_persistent_state, reset_election_timer, is_candidate,
}
use prisn.Raft.Node.Leader.{become_leader}

-- The start of a term, up to the release of the mutex: the node votes for itself. Its vote is saved
-- behind the release.
unfoldable pub stand : Node → Node
stand n = record n { state = candidate; current_term = add64 n.current_term 1; voted_for = n.id }

unfoldable pub vote_args : ℕ → Node → RequestVoteArgs
vote_args term n = record {
  term = term;
  candidate_id = n.id;
  last_log_index = last_index n.log;
  last_log_term = last_term n.log;
}

unfoldable pub count_granted : List (Option VoteReply) → ℕ
count_granted [] = 0
count_granted (none ∷ rs) = count_granted rs
count_granted (some r ∷ rs) = if r.vote_granted then suc (count_granted rs) else count_granted rs

-- `runPreVote` on the replies
unfoldable pub pre_vote_won : Node → List (Option VoteReply) → Bool
unfolding count_granted
pre_vote_won n replies = leb (quorum_size n) (1 + count_granted replies)

-- A higher term in a reply, up to the release of the mutex. It is saved behind the release.
unfoldable pub observe_term : ℕ → Node → Node
observe_term term n = record n { current_term = term; state = follower; voted_for = "" }

-- One reply to `RequestVote`: a higher term ends the candidacy, and a vote counts.
unfoldable pub tally : Option VoteReply → Node × ℕ → Node × ℕ
unfolding observe_term save_persistent_state
tally none (n, votes) = (n, votes)
tally (some r) (n, votes) =
    if ltb n.current_term r.term
    then (save_persistent_state (observe_term r.term n), votes)
    else if r.vote_granted
    then (n, suc votes)
    else (n, votes)

unfoldable pub tally_all : List (Option VoteReply) → Node × ℕ → Node × ℕ
unfolding tally
tally_all [] s = s
tally_all (r ∷ rs) s = tally_all rs (tally r s)

unfoldable pub won : ℕ → ℕ → Node → ℕ → Bool
won term needed n votes = is_candidate n.state && n.current_term == term && leb needed votes

unfoldable pub conclude : ℕ → ℕ → Node × ℕ → Node
unfolding won reset_election_timer
conclude term needed (n, votes) =
    if won term needed n votes then become_leader n else reset_election_timer n

-- `startImmediateElection`
unfoldable pub elect : List (Option VoteReply) → Node → Node
unfolding stand save_persistent_state tally_all conclude
elect replies n =
    let n' = save_persistent_state (stand n) in
    conclude n'.current_term (quorum_size n') (tally_all replies (n', 1))

unfoldable pub start_election : List (Option VoteReply) → List (Option VoteReply) → Node → Node
unfolding elect stand save_persistent_state pre_vote_won reset_election_timer
start_election pre_votes replies n =
    if leb (cluster_size n) 1
    then become_leader (save_persistent_state (stand n))
    else if pre_vote_won n pre_votes
    then elect replies n
    else reset_election_timer n
