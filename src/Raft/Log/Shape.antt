-- ===== src/Raft/Log/Shape.antt =====
-- Well-formed logs: consecutive indices from a positive first index, within the range of an `int`;
-- and the operations of Raft/Log.antt on them.
use prisn.Base.{
  ℕ, zero, suc, ◌+◌, ◌^◌, ◌≤◌, ◌<◌, ◌≡◌, ◌⊎◌, inl, inr, List, [], ◌∷◌, ◌++◌, arith, if◌then◌else◌,
  length, take, drop, length-take_le, length-drop, Bool-cases,
}
use native.Mathlib.Nat.{add-zero}
use prisn.Base.Word.{add64, sub64, is_negative}
use prisn.Raft.Types.{LogEntry}
use prisn.Raft.Log.{
  Log, append, truncate_after, compact, outside, drop_compacted, rewrite, save_snapshot_meta,
  position,
}

-- Consecutive entries carry consecutive indices, the first of them `f`.
abbrev pub Numbered : ℕ → List LogEntry → Type 0
Numbered f [] = Unit
Numbered f (e ∷ es) = (e.index ≡ f) × Numbered (suc f) es

pub record IsLog (l : Log) : Type 0 where
  pub first_pos : 1 ≤ l.first_idx
  pub fits : l.first_idx + length l.entries < 2 ^ 63
  pub numbered : Numbered l.first_idx l.entries

Numbered-append :
    (f : ℕ) (xs ys : List LogEntry)
    → Numbered f xs
    → Numbered (f + length xs) ys
    → Numbered f (xs ++ ys)
Numbered-append f [] ys n m = rw add-zero at m
Numbered-append f (x ∷ xs) ys n m =
    let e : f + suc (length xs) ≡ suc f + length xs = omega arith in
    (n.0, Numbered-append (suc f) xs ys n.1 (rw e at m))

Numbered-take : (k f : ℕ) (xs : List LogEntry) → Numbered f xs → Numbered f (take k xs)
Numbered-take zero f xs n = tt
Numbered-take (suc k) f [] n = tt
Numbered-take (suc k) f (x ∷ xs) n = (n.0, Numbered-take k (suc f) xs n.1)

Numbered-drop : (k f : ℕ) (xs : List LogEntry) → Numbered f xs → Numbered (f + k) (drop k xs)
Numbered-drop zero f xs n = rw add-zero n
Numbered-drop (suc k) f [] n = tt
Numbered-drop (suc k) f (x ∷ xs) n =
    let e : f + suc k ≡ suc f + k = omega arith in rw e (Numbered-drop k (suc f) xs n.1)

pub append-IsLog :
    (new : List LogEntry) (l : Log)
    → IsLog l
    → l.first_idx + length (l.entries ++ new) < 2 ^ 63
    → Numbered (l.first_idx + length l.entries) new
    → IsLog (append new l)
unfolding append
append-IsLog new l w fits n = record {
  first_pos = w.first_pos;
  fits = fits;
  numbered = Numbered-append l.first_idx l.entries new w.numbered n;
}

cut-IsLog :
    (l : Log) (k : ℕ) (xs : List LogEntry)
    → IsLog l
    → (xs ≡ take k l.entries) × (k ≤ length l.entries) ⊎ (xs ≡ l.entries)
    → IsLog (record l { entries = xs; log_file = xs })
cut-IsLog l k xs w (inl (e, le)) = rw e (record {
  first_pos = w.first_pos;
  fits = omega (arith, w.fits, length-take_le k l.entries le);
  numbered = Numbered-take k l.first_idx l.entries w.numbered;
})
cut-IsLog l k xs w (inr e) =
    rw e (record { first_pos = w.first_pos; fits = w.fits; numbered = w.numbered })

pub truncate_after-IsLog : (l : Log) (idx : ℕ) → IsLog l → IsLog (truncate_after idx l)
unfolding truncate_after
truncate_after-IsLog l idx w =
    cut-IsLog l (if is_negative (position l idx) then 0 else position l idx + 1) _ w (ground arith)

-- What `Compact` drops, once its wrapping arithmetic is evaluated.
drop_compacted-IsLog :
    (l : Log) (s t : ℕ)
    → IsLog l
    → l.first_idx ≤ s
    → s < l.first_idx + length l.entries
    → IsLog (rewrite (save_snapshot_meta (drop_compacted s t l)))
unfolding rewrite save_snapshot_meta drop_compacted
drop_compacted-IsLog l s t w ge lt = record {
  first_pos = omega (arith, w.fits);
  fits = omega (arith, w.fits, length-drop (add64 (sub64 s l.first_idx) 1) l.entries);
  numbered =
      let e : l.first_idx + add64 (sub64 s l.first_idx) 1 ≡ add64 s 1 = omega (arith, w.fits) in
      rw e at (Numbered-drop (add64 (sub64 s l.first_idx) 1) l.first_idx l.entries w.numbered);
}

pub compact-IsLog : (l : Log) (s t : ℕ) → IsLog l → s < 2 ^ 63 → IsLog (compact s t l)
unfolding compact
compact-IsLog l s t w small = elim (Bool-cases (outside l s)) [
  | inl out ↦ rw out w
  | inr inside ↦ rw inside (drop_compacted-IsLog l s t w (ground (arith, w)) (ground (arith, w)))
]
