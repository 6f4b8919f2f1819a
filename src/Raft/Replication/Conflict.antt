-- ===== src/Raft/Replication/Conflict.antt =====
-- The fast way back: which index a follower reports when the previous term does not match.
use prisn.Base.{
  ℕ, zero, suc, ◌+◌, ◌-◌, ◌^◌, ◌≤◌, ◌<◌, ◌≡◌, ◌≢◌, refl, ◌⊎◌, inl, inr, arith, ◌==◌, Bool-cases,
  ==_iff, below_suc, ap,
}
use prisn.Base.Word.{add64}
use prisn.Raft.Log.{Log, term_at}
use prisn.Raft.Node.Append.{first_of_term}

-- `c` is the first index of the run of entries of term `ct` that ends at `i`.
abbrev pub IsRunStart : Log → ℕ → ℕ → ℕ → Type 0
IsRunStart l ct i c =
    (1 < c) × (c ≤ i + 1) × (term_at l (c - 1) ≢ ct) × ((j : ℕ) → c ≤ j → j ≤ i → term_at l j ≡ ct)

-- What the scan from `i` reports.
data Scanned (l : Log) (ct i c : ℕ) : Type 0 where
  whole : c ≡ 0 → ((j : ℕ) → j ≤ i → 1 ≤ j → term_at l j ≡ ct) → Scanned l ct i c
  start : IsRunStart l ct i c → Scanned l ct i c

Scanned-suc :
    (l : Log) (ct i c : ℕ) → term_at l (suc i) ≡ ct → Scanned l ct i c → Scanned l ct (suc i) c
Scanned-suc l ct i c same (whole z h) = whole z (below_suc _ i h (λ _. same))
Scanned-suc l ct i c same (start (lo, hi, before, run)) = start (
  lo,
  omega arith,
  before,
  λ j from to.
      below_suc (λ k. c ≤ k → term_at l k ≡ ct) i (λ k le ge. run k ge le) (λ _. same) j to from,
)

first_of_term-Scanned : (l : Log) (ct i : ℕ) → i < 2 ^ 63 → Scanned l ct i (first_of_term l ct i)
unfolding first_of_term
first_of_term-Scanned l ct zero small = whole refl (λ j hi lo. absurd (omega arith))
first_of_term-Scanned l ct (suc i) small = elim (Bool-cases (term_at l (suc i) == ct)) [
  | inl same ↦
      rw same
        (Scanned-suc l ct i _ ((==_iff _ _).0 same) (first_of_term-Scanned l ct i (omega arith)))
  | inr other ↦
      rw (other, no_wrap)
        (start (
          omega arith,
          omega arith,
          λ e. ground (arith, ap (term_at l) pred_suc),
          λ j from to. absurd (omega arith),
        ))
]
  where
    no_wrap : add64 (suc i) 1 ≡ i + 2
    no_wrap = omega arith

    pred_suc : i + 2 - 1 ≡ suc i
    pred_suc = omega arith

Scanned-cases :
    (l : Log) (ct i c : ℕ)
    → Scanned l ct i c
    → (c ≡ 0) × ((j : ℕ) → j ≤ i → 1 ≤ j → term_at l j ≡ ct) ⊎ IsRunStart l ct i c
Scanned-cases l ct i c (whole z h) = inl (z, h)
Scanned-cases l ct i c (start s) = inr s

-- For an `i` below 2^63 the scan finds the first index of the run of entries of term `ct` that ends at `i`, but reports 0,
-- which is no index, if the run reaches down to index 1.
pub first_of_term_lem :
    (l : Log) (ct i : ℕ)
    → i < 2 ^ 63
    → (first_of_term l ct i ≡ 0) × ((j : ℕ) → j ≤ i → 1 ≤ j → term_at l j ≡ ct)
      ⊎ IsRunStart l ct i (first_of_term l ct i)
first_of_term_lem l ct i small = Scanned-cases l ct i _ (first_of_term-Scanned l ct i small)
