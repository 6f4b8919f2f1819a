-- ===== src/Raft/Applying.antt =====
-- The ranges of the log that `applyCommitted` reads.
pub mod Rounds
use prisn.Base.{
  ℕ, zero, suc, ◌+◌, ◌-◌, ◌≤◌, ◌<◌, ◌≡◌, refl, sym, ap, ◌∙◌, inl, inr, List, [], ◌∷◌, ◌++◌, arith,
  leb, length, take, drop, Bool-cases, leb→le,
}
use mathlib.Core.Path.{ap₂}
use prisn.Raft.Types.{LogEntry}
use prisn.Raft.Log.{Log, get_range, range_stop, position}
use prisn.Raft.Log.Shape.{IsLog}
use prisn.Raft.Log.View.{position-ge, position-lt}

take-nil : (b : ℕ) → take {A = LogEntry} b [] ≡ []
take-nil zero = refl
take-nil (suc b) = refl

drop-nil : (b : ℕ) → drop {A = LogEntry} b [] ≡ []
drop-nil zero = refl
drop-nil (suc b) = refl

drop-drop : (a b : ℕ) (xs : List LogEntry) → drop b (drop a xs) ≡ drop (a + b) xs
drop-drop zero b xs = ap (λ k. drop k xs) (omega arith)
drop-drop (suc a) b [] = drop-nil b ∙ sym (drop-nil (suc a + b))
drop-drop (suc a) b (x ∷ xs) =
    let e : suc a + b ≡ suc (a + b) = omega arith in rw e (drop-drop a b xs)

take-split : (a b : ℕ) (xs : List LogEntry) → take a xs ++ take b (drop a xs) ≡ take (a + b) xs
take-split zero b xs = ap (λ k. take k xs) (omega arith)
take-split (suc a) b [] = take-nil b ∙ sym (take-nil (suc a + b))
take-split (suc a) b (x ∷ xs) =
    let e : suc a + b ≡ suc (a + b) = omega arith in rw e (ap (λ t. x ∷ t) (take-split a b xs))

-- The entries from `s` to `e`, within the log.
get_range-plain :
    (l : Log) (s e : ℕ)
    → IsLog l
    → l.first_idx ≤ s
    → s ≤ e + 1
    → e < l.first_idx + length l.entries
    → get_range l s e ≡ take (e + 1 - s) (drop (s - l.first_idx) l.entries)
unfolding get_range range_stop
get_range-plain l s e w ge le fits = elim (Bool-cases (leb l.first_idx e)) [
  | inl there ↦ ground (
    arith,
    w,
    position-ge l s,
    position-ge l e,
    ap (λ k. take k (drop (s - l.first_idx) l.entries))
        (width s e l.first_idx ge le (leb→le _ _ there)),
  )
  | inr none_yet ↦ ground (arith, w, position-ge l s, position-lt l e)
]
  where
    width : (s e f : ℕ) → f ≤ s → s ≤ e + 1 → f ≤ e → e - f + 1 - (s - f) ≡ e + 1 - s
    width s e f fs se fe = omega arith

-- A range is cut at any index in it.
pub get_range-split :
    (l : Log) (a b c : ℕ)
    → IsLog l
    → l.first_idx ≤ a + 1
    → a ≤ b
    → b ≤ c
    → c < l.first_idx + length l.entries
    → get_range l (a + 1) b ++ get_range l (b + 1) c ≡ get_range l (a + 1) c
get_range-split l a b c w ge ab bc fits =
    ap₂ ◌++◌ (get_range-plain l (a + 1) b w ge (omega arith) (omega arith))
      (get_range-plain l (b + 1) c w (omega arith) (omega arith) fits)
    ∙ ap₂ (λ k ys. take (b + 1 - (a + 1)) xs ++ take k ys) (omega arith) (sym later)
    ∙ take-split (b + 1 - (a + 1)) (c - b) xs
    ∙ ap (λ k. take k xs) (omega arith)
    ∙ sym (get_range-plain l (a + 1) c w ge (omega arith) fits)
  where
    xs : List LogEntry
    xs = drop (a + 1 - l.first_idx) l.entries

    later : drop (b + 1 - (a + 1)) xs ≡ drop (b + 1 - l.first_idx) l.entries
    later =
        drop-drop (a + 1 - l.first_idx) (b + 1 - (a + 1)) l.entries
        ∙ ap (λ k. drop k l.entries) (omega arith)
