-- ===== src/Raft/Target.antt =====
-- Which peer a leader that stops hands its leadership to.
use prisn.Base.{
  ℕ, ◌≤◌, ◌<◌, ◌≡◌, refl, sym, subst, ◌⊎◌, inl, inr, String, some, [], ◌∷◌, ltb, arith, Bool-cases,
}
use prisn.Base.Dict.{Dict}
use prisn.Raft.Types.{LeaderState}
use prisn.Raft.Node.{Node}
use prisn.Raft.Node.Transfer.{best_target, find_best_transfer_target, target_of}

-- The map has this index for this peer.
abbrev pub HasMatch : String → ℕ → Dict ℕ → Type 0
HasMatch id k [] = ⊥
HasMatch id k ((j, m) ∷ rest) = ((j ≡ id) × (m ≡ k)) ⊎ HasMatch id k rest

-- `r` is the best of the map and of `start`.
record IsBest (d : Dict ℕ) (start r : String × ℕ) : Type 0 where
  above_start : start.1 ≤ r.1
  above_all : (id : String) (k : ℕ) → HasMatch id k d → k ≤ r.1
  origin : (r ≡ start) ⊎ HasMatch r.0 r.1 d

IsBest-skip :
    (id target : String) (m b : ℕ) (d : Dict ℕ) (r : String × ℕ)
    → m ≤ b
    → IsBest d (target, b) r
    → IsBest ((id, m) ∷ d) (target, b) r
IsBest-skip id target m b d r le w = record {
  above_start = w.above_start;
  above_all = above;
  origin = later w.origin;
}
  where
    above : (j : String) (k : ℕ) → HasMatch j k ((id, m) ∷ d) → k ≤ r.1
    above j k (inl (_, e)) = omega (arith, w.above_start)
    above j k (inr h) = w.above_all j k h

    later :
        (r ≡ (target, b)) ⊎ HasMatch r.0 r.1 d → (r ≡ (target, b)) ⊎ HasMatch r.0 r.1 ((id, m) ∷ d)
    later (inl e) = inl e
    later (inr h) = inr (inr h)

IsBest-take :
    (id target : String) (m b : ℕ) (d : Dict ℕ) (r : String × ℕ)
    → b < m
    → IsBest d (id, m) r
    → IsBest ((id, m) ∷ d) (target, b) r
IsBest-take id target m b d r lt w = record {
  above_start = omega (arith, w.above_start);
  above_all = above;
  origin = inr (later w.origin);
}
  where
    above : (j : String) (k : ℕ) → HasMatch j k ((id, m) ∷ d) → k ≤ r.1
    above j k (inl (_, e)) = omega (arith, w.above_start)
    above j k (inr h) = w.above_all j k h

    later : (r ≡ (id, m)) ⊎ HasMatch r.0 r.1 d → HasMatch r.0 r.1 ((id, m) ∷ d)
    later (inl e) = inl (cc, cc)
    later (inr h) = inr h

best_target-IsBest : (d : Dict ℕ) (start : String × ℕ) → IsBest d start (best_target d start)
unfolding best_target
best_target-IsBest [] start = record {
  above_start = omega arith;
  above_all = λ id k h. absurd h;
  origin = inl refl;
}
best_target-IsBest ((id, m) ∷ d) (target, b) = elim (Bool-cases (ltb b m)) [
  | inl more ↦ rw more (IsBest-take id target m b d _ (ground arith) (best_target-IsBest d (id, m)))
  | inr less ↦
      rw less (IsBest-skip id target m b d _ (ground arith) (best_target-IsBest d (target, b)))
]

-- The target is a peer of the greatest match index, or there is none and every match index is 0.
pub record IsTarget (d : Dict ℕ) (target : String) : Type 0 where
  pub greatest : ℕ
  pub above_all : (id : String) (k : ℕ) → HasMatch id k d → k ≤ greatest
  pub chosen : ((target ≡ "") × (greatest ≡ 0)) ⊎ HasMatch target greatest d

-- Where there is a leader state, `findBestTransferTarget` returns a peer of the greatest match index,
-- or no name, and then no match index is above 0.
pub find_best_transfer_target-IsTarget :
    (n : Node) (ls : LeaderState)
    → n.leader_state ≡ some ls
    → IsTarget ls.match_index (find_best_transfer_target n)
unfolding find_best_transfer_target
find_best_transfer_target-IsTarget n ls e =
    let w = best_target-IsBest ls.match_index ("", 0) in
    subst (λ o. IsTarget ls.match_index (target_of o)) (sym e)
      (record {
        greatest = (best_target ls.match_index ("", 0)).1;
        above_all = w.above_all;
        chosen = chosen_by w.origin;
      })
  where
    chosen_by :
        {r : String × ℕ}
        → (r ≡ ("", 0)) ⊎ HasMatch r.0 r.1 ls.match_index
        → ((r.0 ≡ "") × (r.1 ≡ 0)) ⊎ HasMatch r.0 r.1 ls.match_index
    chosen_by (inl h) = inl (cc, cc)
    chosen_by (inr h) = inr h
