-- ===== src/Raft/Election.antt =====
-- Elections: the votes that a candidate counts, and the quorum that it needs.
pub mod Winners
use prisn.Base.{
  ℕ, ◌+◌, ◌≤◌, ◌<◌, ◌≡◌, refl, inl, inr, Option, none, some, List, [], ◌∷◌, false, arith, length,
  Bool-cases,
}
use prisn.Raft.Types.{leader, VoteReply}
use prisn.Raft.Node.{
  save_persistent_state, Node, config_nodes, reset_election_timer, quorum_size, is_leader,
}
use prisn.Raft.Node.Campaign.{stand, count_granted, tally, tally_all, won, conclude, elect}

-- Two quorums of one configuration have more members than it has.
pub quorum-majority :
    (n : Node)
    → 0 < length (config_nodes n.cluster_config)
    → length (config_nodes n.cluster_config) < quorum_size n + quorum_size n
unfolding quorum_size
quorum-majority n h = ground arith

tally-votes :
    (r : Option VoteReply) (rs : List (Option VoteReply)) (s : Node × ℕ)
    → (tally r s).1 + count_granted rs ≤ s.1 + count_granted (r ∷ rs)
unfolding tally count_granted
tally-votes none rs s = omega arith
tally-votes (some r) rs s = ground arith

tally_all-votes :
    (rs : List (Option VoteReply)) (s : Node × ℕ) → (tally_all rs s).1 ≤ s.1 + count_granted rs
unfolding tally_all
tally_all-votes [] s = omega arith
tally_all-votes (r ∷ rs) s = omega (arith, tally-votes r rs s, tally_all-votes rs (tally r s))

-- A node whose votes are being counted does not lead.
abbrev IsCounting : Node → Type 0
IsCounting n = is_leader n.state ≡ false

tally-IsCounting : (r : Option VoteReply) (s : Node × ℕ) → IsCounting s.0 → IsCounting (tally r s).0
unfolding tally is_leader
tally-IsCounting r s h = ground arith

tally_all-IsCounting :
    (rs : List (Option VoteReply)) (s : Node × ℕ) → IsCounting s.0 → IsCounting (tally_all rs s).0
unfolding tally_all
tally_all-IsCounting [] s h = h
tally_all-IsCounting (r ∷ rs) s h = tally_all-IsCounting rs (tally r s) (tally-IsCounting r s h)

conclude-majority :
    (term needed : ℕ) (s : Node × ℕ)
    → IsCounting s.0
    → (conclude term needed s).state ≡ leader
    → needed ≤ s.1
unfolding conclude
conclude-majority term needed s h l = elim (Bool-cases (won term needed s.0 s.1)) [
  | inl yea ↦ unfold won in ground arith
  | inr nay ↦ absurd (lost_not_leading (rw nay at l))
]
  where
    lost_not_leading : (reset_election_timer s.0).state ≡ leader → ⊥
    lost_not_leading e = unfold is_leader reset_election_timer in ground arith

stand-IsCounting : (n : Node) → IsCounting (save_persistent_state (stand n))
unfolding stand save_persistent_state is_leader
stand-IsCounting n = refl

quorum_size-stand : (n : Node) → quorum_size (save_persistent_state (stand n)) ≡ quorum_size n
unfolding stand save_persistent_state quorum_size
quorum_size-stand n = refl

-- A node that leads after an election has a quorum: its own vote and the votes granted to it.
pub elect-majority :
    (n : Node) (replies : List (Option VoteReply))
    → (elect replies n).state ≡ leader
    → quorum_size n ≤ 1 + count_granted replies
unfolding elect
elect-majority n replies h = omega (
  arith,
  tally_all-votes replies (save_persistent_state (stand n), 1),
  quorum_size-stand n,
  conclude-majority (stand n).current_term (quorum_size (save_persistent_state (stand n)))
      (tally_all replies (save_persistent_state (stand n), 1))
      (tally_all-IsCounting replies (save_persistent_state (stand n), 1) (stand-IsCounting n)) h,
)
