-- ===== src/Raft/Election/Winners.antt =====
-- Two winners of one term: the runs of all members of a configuration, the votes they gave out, and
-- the quorums that two candidates have reached.
use prisn.Base.{
  ℕ, suc, ◌+◌, ◌≤◌, ◌<◌, ◌≡◌, ◌≢◌, refl, inl, inr, String, some, List, [], ◌∷◌, Bool, true, false,
  ◌&&◌, ◌||◌, arith, str_eq, eq_iff, ◌==◌, if◌then◌else◌, length, get_elem?, Bool-cases,
}
use prisn.Base.Dict.{Dict}
use prisn.Raft.Types.{NodeInfo}
use prisn.Raft.Fsm.{Json}
use prisn.Raft.Node.{Node, config_nodes, quorum_size, disk_term, disk_vote}
use prisn.Raft.Ballots.{Event, Ballot, history, AreFair}
use prisn.Raft.Ballots.Unique.{one_vote_per_term}
use prisn.Raft.Election.{quorum-majority}

-- A member starts as the node `start` and then meets `events`.
pub record Member : Type 0 where
  pub events : List Event
  pub start : Node

-- It starts with what state.json holds, and what it does is fair, as Raft/Ballots says it.
pub record IsMember (json : Json) (m : Member) : Type 0 where
  pub term_saved : disk_term m.start.saved ≡ m.start.current_term
  pub vote_saved : disk_vote m.start.saved ≡ m.start.voted_for
  pub fair : AreFair json m.events m.start

-- One of the ballots is of term `t` and for `c`.
abbrev pub casts : ℕ → String → List Ballot → Bool
casts t c [] = false
casts t c (b ∷ bs) = b.term == t && str_eq b.candidate c || casts t c bs

abbrev pub ballots : Json → Member → List Ballot
ballots json m = history json m.events m.start []

-- The members that have given out a vote of term `t` for `c`.
abbrev pub backers : Json → (String → Member) → ℕ → String → Dict NodeInfo → ℕ
backers json members t c [] = 0
backers json members t c ((id, info) ∷ nodes) =
    if casts t c (ballots json (members id))
    then suc (backers json members t c nodes)
    else backers json members t c nodes

record IsCast (t : ℕ) (c : String) (bs : List Ballot) : Type 0 where
  place : ℕ
  vote : Ballot
  found : get_elem? bs place ≡ some vote
  of_term : vote.term ≡ t
  for_candidate : vote.candidate ≡ c

casts-IsCast : (t : ℕ) (c : String) (bs : List Ballot) → casts t c bs ≡ true → IsCast t c bs
casts-IsCast t c [] h = cc
casts-IsCast t c (b ∷ bs) h = elim (Bool-cases (b.term == t && str_eq b.candidate c)) [
  | inl here ↦ record {
    place = 0;
    vote = b;
    found = refl;
    of_term = ground (arith, here);
    for_candidate = ground (arith, here, eq_iff b.candidate c);
  }
  | inr later ↦
      let r = casts-IsCast t c bs (ground arith) in
      record {
        place = suc r.place;
        vote = r.vote;
        found = r.found;
        of_term = r.of_term;
        for_candidate = r.for_candidate;
      }
]

-- A member does not back two candidates.
casts_once :
    (json : Json) (m : Member) (t : ℕ) (c d : String)
    → IsMember json m
    → casts t c (ballots json m) ≡ true
    → casts t d (ballots json m) ≡ true
    → c ≡ d
casts_once json m t c d is hc hd =
    let x = casts-IsCast t c (ballots json m) hc in
    let y = casts-IsCast t d (ballots json m) hd in
    let same =
      one_vote_per_term json m.events m.start x.place y.place x.vote y.vote is.term_saved
        is.vote_saved is.fair x.found y.found (omega (arith, x.of_term, y.of_term)) in
    cc (x.for_candidate, y.for_candidate, same)

backers_disjoint :
    (json : Json) (members : String → Member) (t : ℕ) (c d : String) (nodes : Dict NodeInfo)
    → ((id : String) → IsMember json (members id))
    → c ≢ d
    → backers json members t c nodes + backers json members t d nodes ≤ length nodes
backers_disjoint json members t c d [] are ne = omega arith
backers_disjoint json members t c d ((id, info) ∷ nodes) are ne =
    let rest = backers_disjoint json members t c d nodes are ne in
    elim (Bool-cases (casts t c (ballots json (members id)))) [
      | inl backs_c ↦ elim (Bool-cases (casts t d (ballots json (members id)))) [
        | inl backs_d ↦ absurd (ne (casts_once json (members id) t c d (are id) backs_c backs_d))
        | inr not_d ↦ rw (backs_c, not_d) (omega (arith, rest))
      ]
      | inr not_c ↦ rw not_c (ground (arith, rest))
    ]

-- Each member starts with what its state.json holds and then runs, crashes and comes up again in any way in
-- which candidates have names, no term wraps, no write of state.json is overtaken, and a candidate asks
-- for votes while state.json holds its term and its vote: two candidates for whom a quorum of the members has each
-- given out a vote in one term are the same.
pub winners_agree :
    (json : Json) (members : String → Member) (n : Node) (t : ℕ) (c d : String)
    → ((id : String) → IsMember json (members id))
    → 0 < length (config_nodes n.cluster_config)
    → quorum_size n ≤ backers json members t c (config_nodes n.cluster_config)
    → quorum_size n ≤ backers json members t d (config_nodes n.cluster_config)
    → c ≡ d
winners_agree json members n t c d are some_members qc qd = elim (Bool-cases (str_eq c d)) [
  | inl same ↦ (eq_iff c d).0 same
  | inr other ↦ absurd (
      omega (
        arith,
        quorum-majority n some_members,
        backers_disjoint json members t c d (config_nodes n.cluster_config) are
            (λ e. ground (arith, eq_iff c d)),
      ))
]
