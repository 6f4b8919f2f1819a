-- ===== src/Raft/Log/End.antt =====
-- Where a log ends, and what an operation at its end does.
use prisn.Base.{
  ℕ, zero, suc, ◌+◌, ◌-◌, ◌^◌, ◌≤◌, ◌<◌, ◌≡◌, refl, ap, List, [], ◌∷◌, ◌++◌, arith, ltb,
  if◌then◌else◌, length, get_elem?, length-append, length-take_le,
}
use mathlib.Core.Logic.{◌≢◌}
use prisn.Raft.Types.{LogEntry}
use prisn.Raft.Log.Shape.{IsLog}
use prisn.Raft.Log.{Log, get, last_index, append, truncate_after, position}
use prisn.Raft.Log.View.{get-view, position-ge, position-lt}

-- `get_elem?` of an appended list, with the two cases in one equation.
get_elem?-append :
    (i : ℕ) (xs ys : List LogEntry)
    → get_elem? (xs ++ ys) i
      ≡ (if ltb i (length xs) then get_elem? xs i else get_elem? ys (i - length xs))
get_elem?-append i [] ys = ground arith
get_elem?-append zero (x ∷ xs) ys = ground arith
get_elem?-append (suc i) (x ∷ xs) ys = ground (arith, get_elem?-append i xs ys)

pub get-append :
    (new : List LogEntry) (l : Log) (idx : ℕ)
    → l.first_idx + length (l.entries ++ new) < 2 ^ 63
    → idx < 2 ^ 63
    → l.first_idx ≤ idx
    → get (append new l) idx ≡ (
        if ltb idx (l.first_idx + length l.entries)
        then get l idx
        else get_elem? new (idx - (l.first_idx + length l.entries)))
unfolding append
get-append new l idx fits small ge = ground (
  arith,
  get-view l idx,
  get-view (append new l) idx,
  length-append l.entries new,
  get_elem?-append (idx - l.first_idx) l.entries new,
  ap (get_elem? new) minus_minus,
)
  where
    minus_minus : idx - l.first_idx - length l.entries ≡ idx - (l.first_idx + length l.entries)
    minus_minus = omega arith

pub last_index-eq :
    (l : Log) → IsLog l → l.entries ≢ [] → last_index l + 1 ≡ l.first_idx + length l.entries
unfolding last_index
last_index-eq l w ne = ground (arith, w)

-- `Append` changes no entry that is there.
pub get-append_before :
    (new : List LogEntry) (l : Log) (idx : ℕ)
    → l.first_idx + length (l.entries ++ new) < 2 ^ 63
    → idx < l.first_idx + length l.entries
    → get (append new l) idx ≡ get l idx
unfolding append
get-append_before new l idx fits lt = ground (
  arith,
  get-view l idx,
  get-view (append new l) idx,
  length-append l.entries new,
  get_elem?-append (idx - l.first_idx) l.entries new,
)

-- It puts the new ones behind the last.
pub get-append_at :
    (new : List LogEntry) (l : Log) (i : ℕ)
    → l.first_idx + length (l.entries ++ new) < 2 ^ 63
    → l.first_idx + length l.entries + i < 2 ^ 63
    → get (append new l) (l.first_idx + length l.entries + i) ≡ get_elem? new i
get-append_at new l i fits small =
    ground (arith, get-append new l (l.first_idx + length l.entries + i), ap (get_elem? new) minus)
  where
    minus : l.first_idx + length l.entries + i - (l.first_idx + length l.entries) ≡ i
    minus = omega arith

-- A truncation after an index of the log, or after the one before it, ends the log there.
pub truncate_after-ends :
    (p : ℕ) (l : Log)
    → l.first_idx + length l.entries < 2 ^ 63
    → l.first_idx ≤ p + 1
    → p < l.first_idx + length l.entries
    → (truncate_after p l).first_idx + length (truncate_after p l).entries ≡ p + 1
unfolding truncate_after
truncate_after-ends p l fits ge lt = ground (
  arith,
  position-ge l p,
  position-lt l p,
  length-take_le (position l p + 1) l.entries,
  length-take_le 0 l.entries,
)

pub first_idx-truncate_after : (p : ℕ) (l : Log) → (truncate_after p l).first_idx ≡ l.first_idx
unfolding truncate_after
first_idx-truncate_after p l = refl
