-- ===== src/Raft/Examples/Votes.antt =====
-- Votes and elections on small nodes.
use Prim.Native.String.{String}
use prisn.Base.{◌+◌, ◌≤◌, ◌≡◌, ◌≢◌, refl, Option, none, some, List, [], ◌∷◌, true, arith, eq_iff}
use prisn.Raft.Types.{leader, VoteReply}
use prisn.Raft.Log.{Log, last_index, reopen}
use prisn.Raft.Node.{Node, quorum_size}
use prisn.Raft.Ballots
use prisn.Raft.Ballots.{campaign, save, request_vote, crash, Event, Ballot}
use prisn.Base.{some, List}
use prisn.Raft.Ballots.{handle, ballot, history, AreFair}
use prisn.Raft.Ballots.Unique.{one_vote_per_term}
use prisn.Raft.Election.{elect-majority}
use prisn.Raft.Election.Winners.{Member, IsMember, backers, winners_agree}
use prisn.Raft.Node.Campaign.{elect, count_granted}
use prisn.Raft.Node.Leader.{become_leader}
use prisn.Raft.Node.Vote.{handle_request_vote}
use prisn.Raft.Examples.{three_nodes, json, node_a, night, vote_b, ask}

b_named : ◌≢◌ {A = String} "b" ""
b_named = ground (arith, eq_iff "b" "")

c_named : ◌≢◌ {A = String} "c" ""
c_named = ground (arith, eq_iff "c" "")

night_votes : history json night node_a [] ≡ vote_b ∷ vote_b ∷ []
unfolding history handle prisn.Raft.Node.restart prisn.Raft.Node.Vote.handle_request_vote
    prisn.Raft.Log.last_term last_index ballot reopen
night_votes = refl

-- "a" votes for "b", stands in the next term, writes state.json, asks for votes, crashes and asks again.
abbrev candidacy : List Event
candidacy =
    request_vote (ask "b")
    ∷ campaign
    ∷ save (record { current_term = 2; voted_for = "a"; cluster_config = some three_nodes })
    ∷ Ballots.ask
    ∷ crash
    ∷ Ballots.ask
    ∷ []

abbrev vote_a : Ballot
vote_a = record { term = 2; candidate = "a" }

candidacy_votes : history json candidacy node_a [] ≡ vote_a ∷ vote_a ∷ vote_b ∷ []
unfolding history handle prisn.Raft.Node.restart handle_request_vote prisn.Raft.Log.last_term
    last_index ballot reopen prisn.Raft.Node.Campaign.stand
candidacy_votes = refl

a_named : ◌≢◌ {A = String} "a" ""
a_named = ground (arith, eq_iff "a" "")

candidacy-AreFair : AreFair json candidacy node_a
unfolding history handle prisn.Raft.Node.restart handle_request_vote prisn.Raft.Log.last_term
    last_index ballot reopen prisn.Raft.Node.Campaign.stand
candidacy-AreFair = (
  b_named,
  (
    omega arith,
    ((refl, refl), ((a_named, refl, refl, refl), (tt, ((a_named, refl, refl, refl), tt)))),
  ),
)

one_vote_per_term_example : ◌≡◌ {A = String} "a" "a"
one_vote_per_term_example =
    one_vote_per_term json candidacy node_a 0 1 vote_a vote_a refl refl candidacy-AreFair
      (rw candidacy_votes refl) (rw candidacy_votes refl) refl

-- every member of the cluster has such a night
abbrev members : String → Member
members id = record { events = night; start = record node_a { id = id } }

members-IsMember : (id : String) → IsMember json (members id)
unfolding history handle prisn.Raft.Node.restart handle_request_vote prisn.Raft.Log.last_term
    last_index
members-IsMember id = record {
  term_saved = refl;
  vote_saved = refl;
  fair = (b_named, (tt, (c_named, (b_named, tt))));
}

all_back_b : quorum_size node_a ≤ backers json members 1 "b" three_nodes
unfolding quorum_size history handle prisn.Raft.Node.restart handle_request_vote
    prisn.Raft.Log.last_term last_index ballot reopen
all_back_b = omega arith

winners_agree_example : ◌≡◌ {A = String} "b" "b"
unfolding prisn.Raft.Node.config_nodes
winners_agree_example =
    winners_agree json members node_a 1 "b" "b" members-IsMember (omega arith) all_back_b all_back_b

-- "b" grants its vote, and "c" does not answer
abbrev replies : List (Option VoteReply)
replies = some (record { term = 1; vote_granted = true }) ∷ none ∷ []

replies_win : (elect replies node_a).state ≡ leader
unfolding elect prisn.Raft.Node.is_candidate quorum_size prisn.Raft.Node.Leader.become_leader
    prisn.Raft.Node.is_leader
replies_win = refl

elect-majority_example : quorum_size node_a ≤ 1 + count_granted replies
elect-majority_example = elect-majority node_a replies replies_win
