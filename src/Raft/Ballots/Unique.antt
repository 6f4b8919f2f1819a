-- ===== src/Raft/Ballots/Unique.antt =====
-- The votes of one node, term by term, over a run with its crashes.
use prisn.Base.{
  ℕ, zero, suc, ◌≤◌, ◌<◌, ◌≡◌, ◌≢◌, sym, ◌∙◌, subst, ◌⊎◌, inl, inr, String, some, List, [], ◌∷◌,
  ◌++◌, arith, get_elem?, some_inj, Option-cases,
}
use prisn.Raft.Fsm.{Json}
use prisn.Raft.Node.{Node, disk_term, disk_vote}
use prisn.Raft.Ballots.{Event, Ballot, handle, ballot, history, AreFair}
use prisn.Raft.Ballots.Effect.{Effect, quiet, raised, stored, lost, Moves, handle-Effect}

-- Past ballots are of earlier terms than the one on disk, or are the vote on disk.
abbrev Covered : ℕ → String → List Ballot → Type 0
Covered t v [] = Unit
Covered t v (b ∷ bs) =
    ((b.term < t) ⊎ (b.term ≡ t) × (b.candidate ≡ v) × (b.candidate ≢ "")) × Covered t v bs

-- No two ballots of one term name different candidates.
abbrev AgreesWith : Ballot → List Ballot → Type 0
AgreesWith b [] = Unit
AgreesWith b (c ∷ cs) = (b.term ≡ c.term → b.candidate ≡ c.candidate) × AgreesWith b cs

abbrev pub AreUnique : List Ballot → Type 0
AreUnique [] = Unit
AreUnique (b ∷ bs) = AgreesWith b bs × AreUnique bs

record IsSound (n : Node) (past : List Ballot) : Type 0 where
  ordered : disk_term n.saved ≤ n.current_term
  same : disk_term n.saved ≡ n.current_term → disk_vote n.saved ≡ n.voted_for
  covered : Covered (disk_term n.saved) (disk_vote n.saved) past
  unique : AreUnique past

Covered-later :
    (t t' : ℕ) (v v' : String) (bs : List Ballot)
    → (t < t') ⊎ (t ≡ t') × ((v ≡ v') ⊎ (v ≡ ""))
    → Covered t v bs
    → Covered t' v' bs
Covered-later t t' v v' [] h c = tt
Covered-later t t' v v' (b ∷ bs) h c = (ground arith, Covered-later t t' v v' bs h c.1)

AgreesWith-new :
    (t : ℕ) (v : String) (b : Ballot) (bs : List Ballot)
    → (t < b.term) ⊎ (t ≡ b.term) × ((v ≡ b.candidate) ⊎ (v ≡ ""))
    → Covered t v bs
    → AgreesWith b bs
AgreesWith-new t v b [] h c = tt
AgreesWith-new t v b (x ∷ bs) h c = (λ e. ground arith, AgreesWith-new t v b bs h c.1)

-- What `Moves` says of the disk, which is not ahead of memory.
Moves-disk :
    (n n' : Node) (past : List Ballot)
    → IsSound n past
    → Moves n n'
    → (disk_term n.saved < n'.current_term)
      ⊎ (disk_term n.saved ≡ n'.current_term)
        × ((disk_vote n.saved ≡ n'.voted_for) ⊎ (disk_vote n.saved ≡ ""))
Moves-disk n n' past s m = ground (arith, s)

IsSound-unsaved :
    (n n' : Node) (past : List Ballot)
    → n'.saved ≡ n.saved
    → (disk_term n.saved < n'.current_term)
      ⊎ (disk_term n.saved ≤ n'.current_term)
        × (disk_term n.saved ≡ n'.current_term → disk_vote n.saved ≡ n'.voted_for)
    → IsSound n past
    → IsSound n' past
IsSound-unsaved n n' past sv (inl up) s = record {
  ordered = rw sv (omega arith);
  same = rw sv (λ e. absurd (omega arith));
  covered = rw sv s.covered;
  unique = s.unique;
}
IsSound-unsaved n n' past sv (inr (le, vote)) s = record {
  ordered = rw sv le;
  same = rw sv vote;
  covered = rw sv s.covered;
  unique = s.unique;
}

Covered-stored :
    (n n' : Node) (past : List Ballot)
    → disk_term n'.saved ≡ n'.current_term
    → disk_vote n'.saved ≡ n'.voted_for
    → Moves n n'
    → IsSound n past
    → Covered (disk_term n'.saved) (disk_vote n'.saved) past
Covered-stored n n' past t v mv s =
    rw (t, v) (Covered-later _ _ _ _ past (Moves-disk n n' past s mv) s.covered)

-- The past of a node after an event, the newest ballot first.
IsSound-after :
    (n n' : Node) (bs past : List Ballot)
    → Effect n n' bs
    → IsSound n past
    → IsSound n' (bs ++ past)
IsSound-after n n' bs past (quiet t v sv e) s =
    rw e
      (IsSound-unsaved n n' past sv (inr (omega (arith, s.ordered), λ d. s.same (d ∙ t) ∙ sym v)) s)
IsSound-after n n' bs past (raised up sv e) s =
    rw e (IsSound-unsaved n n' past sv (inl (omega (arith, s.ordered))) s)
IsSound-after n n' bs past (stored t v mv (inl e)) s = rw e (record {
  ordered = omega arith;
  same = λ _. v;
  covered = Covered-stored n n' past t v mv s;
  unique = s.unique;
})
IsSound-after n n' bs past (stored t v mv (inr (e, named))) s = rw e (record {
  ordered = omega arith;
  same = λ _. v;
  covered = (inr (sym t, sym v, named), Covered-stored n n' past t v mv s);
  unique = (AgreesWith-new _ _ _ past (Moves-disk n n' past s mv) s.covered, s.unique);
})
IsSound-after n n' bs past (lost t v sv e) s =
    rw e (IsSound-unsaved n n' past sv (inr (omega arith, λ _. sym v)) s)

history-AreUnique :
    (json : Json) (es : List Event) (n : Node) (past : List Ballot)
    → AreFair json es n
    → IsSound n past
    → AreUnique (history json es n past)
unfolding history
history-AreUnique json [] n past fair s = s.unique
history-AreUnique json (e ∷ es) n past fair s = elim (Option-cases (handle json e n)) [
  | inl dead ↦ rw (dead, AreUnique) s.unique
  | inr (n', up) ↦
      rw (up, AreUnique)
        (history-AreUnique json es n' (ballot e n ++ past) (rw up at (fair.1))
          (IsSound-after n n' (ballot e n) past (handle-Effect json e n n' fair.0 up) s))
]

AgreesWith-get :
    (b c : Ballot) (bs : List Ballot) (i : ℕ)
    → AgreesWith b bs
    → get_elem? bs i ≡ some c
    → b.term ≡ c.term
    → b.candidate ≡ c.candidate
AgreesWith-get b c [] i a h e = cc
AgreesWith-get b c (x ∷ bs) zero a h e = ground (arith, a.0)
AgreesWith-get b c (x ∷ bs) (suc i) a h e = AgreesWith-get b c bs i a.1 h e

AreUnique-get :
    (b c : Ballot) (bs : List Ballot) (i j : ℕ)
    → AreUnique bs
    → get_elem? bs i ≡ some b
    → get_elem? bs j ≡ some c
    → b.term ≡ c.term
    → b.candidate ≡ c.candidate
AreUnique-get b c [] i j u hi hj e = cc
AreUnique-get b c (x ∷ bs) zero zero u hi hj e = cc
AreUnique-get b c (x ∷ bs) zero (suc j) u hi hj e =
    AgreesWith-get b c bs j (subst (λ y. AgreesWith y bs) (some_inj hi) u.0) hj e
AreUnique-get b c (x ∷ bs) (suc i) zero u hi hj e =
    sym (AgreesWith-get c b bs i (subst (λ y. AgreesWith y bs) (some_inj hj) u.0) hi (sym e))
AreUnique-get b c (x ∷ bs) (suc i) (suc j) u hi hj e = AreUnique-get b c bs i j u.1 hi hj e

-- From a node whose term and vote are those in state.json, whatever requests it then handles, however
-- often it stands for election, learns of higher terms, writes state.json later or crashes and comes up
-- again: two votes that it gave out in one term are for one candidate, if all candidates have names, no
-- term wraps, no write of state.json is overtaken by another change of the term or the vote, and a
-- candidate asks for votes while state.json holds its term and its vote for itself.
pub one_vote_per_term :
    (json : Json) (es : List Event) (n : Node) (i j : ℕ) (b c : Ballot)
    → disk_term n.saved ≡ n.current_term
    → disk_vote n.saved ≡ n.voted_for
    → AreFair json es n
    → get_elem? (history json es n []) i ≡ some b
    → get_elem? (history json es n []) j ≡ some c
    → b.term ≡ c.term
    → b.candidate ≡ c.candidate
one_vote_per_term json es n i j b c t v fair = AreUnique-get b c (history json es n []) i j (
    history-AreUnique json es n [] fair
      (record { ordered = omega arith; same = λ _. v; covered = tt; unique = tt }))
