-- ===== src/Raft/Log/View.antt =====
-- The log as its readers see it: a partial map from indices to entries, and what each operation of
-- Raft/Log.antt does to that map.
use prisn.Base.{
  ℕ, zero, suc, ◌+◌, ◌-◌, ◌^◌, ◌≤◌, ◌<◌, ◌≡◌, ap, inl, inr, none, some, List, [], ◌∷◌, ◌&&◌, arith,
  ltb, leb, if◌then◌else◌, length, get_elem?, take, drop, length-take_le, length-drop,
  get_elem?-drop, get_elem?_beyond, Bool-cases, leb→le,
}
use prisn.Raft.Types.{LogEntry}
use prisn.Raft.Log.Shape.{Numbered, IsLog}
use prisn.Raft.Log.{
  Log, get, term_at, term_of, get_range, truncate_after, compact, position, range_stop,
}

-- The array position of an index is its distance from the first index, below it a negative number.
pub position-ge :
    (l : Log) (idx : ℕ) → l.first_idx ≤ idx → idx < 2 ^ 63 → position l idx ≡ idx - l.first_idx
unfolding position
position-ge l idx h small = omega arith

pub position-lt :
    (l : Log) (idx : ℕ) → idx < l.first_idx → l.first_idx < 2 ^ 63 → 2 ^ 63 ≤ position l idx
unfolding position
position-lt l idx h fits = omega arith

pub get-view :
    (l : Log) (idx : ℕ)
    → l.first_idx + length l.entries < 2 ^ 63
    → idx < 2 ^ 63
    → get l idx ≡ (if leb l.first_idx idx then get_elem? l.entries (idx - l.first_idx) else none)
unfolding get
get-view l idx fits small =
    ground
      (arith, position-ge l idx, position-lt l idx, get_elem?_beyond (idx - l.first_idx) l.entries)

-- The entry `i` places behind the first index.
pub get_offset :
    (l : Log) (i : ℕ)
    → l.first_idx + length l.entries < 2 ^ 63
    → l.first_idx + i < 2 ^ 63
    → get l (l.first_idx + i) ≡ get_elem? l.entries i
get_offset l i fits small =
    ground (arith, get-view l (l.first_idx + i), ap (get_elem? l.entries) minus)
  where
    minus : l.first_idx + i - l.first_idx ≡ i
    minus = omega arith

Numbered-get :
    (f i : ℕ) (es : List LogEntry) {e : LogEntry}
    → Numbered f es
    → get_elem? es i ≡ some e
    → e.index ≡ f + i
Numbered-get f i [] n h = cc
Numbered-get f zero (x ∷ es) n h = ground arith
Numbered-get f (suc i) (x ∷ es) n h = omega (arith, Numbered-get (suc f) i es n.1 h)

-- In a well-formed log the entry that `Get` returns for an index below 2^63 carries that index.
pub index-get :
    (l : Log) (idx : ℕ) {e : LogEntry} → IsLog l → idx < 2 ^ 63 → get l idx ≡ some e → e.index ≡ idx
index-get l idx {e} w small h = elim (Bool-cases (leb l.first_idx idx)) [
  | inl ge ↦
      let found : get_elem? l.entries (idx - l.first_idx) ≡ some e =
        ground (arith, get-view l idx w.fits small) in
      omega (
        arith,
        leb→le _ _ ge,
        Numbered-get l.first_idx (idx - l.first_idx) l.entries w.numbered found,
      )
  | inr lt ↦ ground (arith, get-view l idx w.fits small)
]

get_elem?-take_all :
    (n i : ℕ) (xs : List LogEntry)
    → get_elem? (take n xs) i ≡ (if ltb i n then get_elem? xs i else none)
get_elem?-take_all zero i xs = ground arith
get_elem?-take_all (suc n) i [] = ground arith
get_elem?-take_all (suc n) zero (x ∷ xs) = ground arith
get_elem?-take_all (suc n) (suc i) (x ∷ xs) = ground (arith, get_elem?-take_all n i xs)

-- Where all indices are below 2^63, truncation after `idx` keeps the entries up to `idx` and removes
-- all others.
pub get-truncate_after :
    (l : Log) (idx j : ℕ)
    → l.first_idx + length l.entries < 2 ^ 63
    → idx < 2 ^ 63
    → j < 2 ^ 63
    → get (truncate_after idx l) j ≡ (if leb j idx then get l j else none)
unfolding truncate_after
get-truncate_after l idx j fits small_idx small_j = ground (
  arith,
  get-view l j,
  get-view (truncate_after idx l) j,
  position-ge l idx,
  position-lt l idx,
  length-take_le (position l idx + 1) l.entries,
  get_elem?-take_all (position l idx + 1) (j - l.first_idx) l.entries,
  get_elem?_beyond (j - l.first_idx) l.entries,
)

-- In a well-formed log, for indices below 2^63, compaction at an index of the log hides that index and
-- all before it, and keeps the rest; at any other index it changes nothing.
pub get-compact :
    (l : Log) (s t j : ℕ)
    → IsLog l
    → s < 2 ^ 63
    → j < 2 ^ 63
    → get (compact s t l) j ≡ (
        if leb l.first_idx s && ltb s (l.first_idx + length l.entries)
        then (if leb j s then none else get l j)
        else get l j)
unfolding compact
get-compact l s t j w small_s small_j = ground (
  arith,
  w,
  get-view l j,
  get-view (compact s t l) j,
  length-drop (s - l.first_idx + 1) l.entries,
  get_elem?-drop (s - l.first_idx + 1) (j - (s + 1)) l.entries,
)

-- In a well-formed log, for indices below 2^63 and a start that is not compacted away, element `i` of
-- `GetRange` is what `Get` returns for `start + i`, as far as `end`.
pub get_elem?-get_range :
    (l : Log) (start end i : ℕ)
    → IsLog l
    → l.first_idx ≤ start
    → start < 2 ^ 63
    → end < 2 ^ 63
    → start + i < 2 ^ 63
    → get_elem? (get_range l start end) i
      ≡ (if leb (start + i) end then get l (start + i) else none)
unfolding get_range range_stop
get_elem?-get_range l start end i w ge small_start small_end small = ground (
  arith,
  w,
  get-view l (start + i),
  position-ge l start,
  position-ge l end,
  position-lt l end,
  get_elem?-take_all (range_stop (length l.entries) (position l end) - position l start) i
      (drop (position l start) l.entries),
  get_elem?-drop (start - l.first_idx) i l.entries,
  ap (get_elem? l.entries) shift,
  get_elem?_beyond (start + i - l.first_idx) l.entries,
)
  where
    shift : start - l.first_idx + i ≡ start + i - l.first_idx
    shift = omega arith

pub term_at-eq : (l k : Log) (i j : ℕ) → get l i ≡ get k j → term_at l i ≡ term_at k j
unfolding term_at
term_at-eq l k i j h = ap term_of h

pub term_at-get : (l : Log) (i : ℕ) {e : LogEntry} → get l i ≡ some e → term_at l i ≡ e.term
unfolding term_at
term_at-get l i h = ap term_of h
