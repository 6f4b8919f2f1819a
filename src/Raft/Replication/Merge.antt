-- ===== src/Raft/Replication/Merge.antt =====
-- The loop over the new entries (`append_new`) on a log that meets the request.
use prisn.Base.{
  ℕ, zero, suc, ◌+◌, ◌^◌, ◌≤◌, ◌<◌, ◌≡◌, refl, sym, ap, ◌∙◌, inl, inr, some, List, [], ◌∷◌, arith,
  leb, ◌==◌, length, get_elem?, Bool-cases, leb→le, le→leb, ==_iff, length-append, some_inj,
  get_elem?_lt,
}
use native.Mathlib.Nat.{add-zero}
use prisn.Base.Word.{sub64}
use prisn.Raft.Types.{LogEntry}
use prisn.Raft.Log.{Log, get, term_at, last_index, append, truncate_after}
use prisn.Raft.Log.Shape.{Numbered, IsLog, append-IsLog, truncate_after-IsLog}
use prisn.Raft.Log.View.{term_at-eq, term_at-get, get-truncate_after}
use prisn.Raft.Log.End.{
  get-append_before, get-append_at, truncate_after-ends, first_idx-truncate_after,
}
use prisn.Raft.Node.Append.{append_new}

-- `LastIndex` is the index before the next free one. A log that has been emptied by a compaction
-- does not know its end.
abbrev pub KnowsEnd : Log → Type 0
KnowsEnd l = last_index l + 1 ≡ l.first_idx + length l.entries

-- `new` is the log `old` with the entries `es` from index `p + 1` on.
pub record IsMerge (p : ℕ) (es : List LogEntry) (old new : Log) : Type 0 where
  pub shape : IsLog new
  pub first : new.first_idx ≡ old.first_idx
  pub before : (j : ℕ) → j ≤ p → get new j ≡ get old j
  pub terms : (i : ℕ) {e : LogEntry} → get_elem? es i ≡ some e → term_at new (p + 1 + i) ≡ e.term

append-terms :
    (p : ℕ) (es : List LogEntry) (l : Log) (i : ℕ)
    → l.first_idx + length l.entries ≡ p + 1
    → p + 1 + length es < 2 ^ 63
    → {e : LogEntry} → get_elem? es i ≡ some e
    → term_at (append es l) (p + 1 + i) ≡ e.term
append-terms p es l i end small found =
    let at_end =
      get-append_at es l i (omega (arith, length-append l.entries es))
        (omega (arith, get_elem?_lt i es found)) in
    term_at-get (append es l) (p + 1 + i)
      (ap (λ k. get (append es l) (k + i)) (sym end) ∙ at_end ∙ found)

-- the entries go behind the last one
append-IsMerge :
    (p : ℕ) (es : List LogEntry) (l : Log)
    → IsLog l
    → l.first_idx + length l.entries ≡ p + 1
    → Numbered (p + 1) es
    → p + 1 + length es < 2 ^ 63
    → IsMerge p es l (append es l)
append-IsMerge p es l w end n small = record {
  shape = append-IsLog es l w (omega (arith, length-append l.entries es)) (rw end n);
  first = unfold append in refl;
  before =
      λ j le. get-append_before es l j (omega (arith, length-append l.entries es)) (omega arith);
  terms = λ i found. append-terms p es l i end small found;
}

cut-IsMerge :
    (p : ℕ) (es : List LogEntry) (l : Log)
    → IsLog l
    → l.first_idx ≤ p + 1
    → p < l.first_idx + length l.entries
    → Numbered (p + 1) es
    → p + 1 + length es < 2 ^ 63
    → IsMerge p es l (append es (truncate_after p l))
cut-IsMerge p es l w ge lt n small =
    let cut =
      append-IsMerge p es (truncate_after p l) (truncate_after-IsLog l p w)
        (truncate_after-ends p l w.fits ge lt) n small in
    record {
      shape = cut.shape;
      first = cut.first ∙ first_idx-truncate_after p l;
      before = λ j le. cut.before j le ∙ kept j le;
      terms = cut.terms;
    }
  where
    kept : (j : ℕ) → j ≤ p → get (truncate_after p l) j ≡ get l j
    kept j le =
        get-truncate_after l p j w.fits (omega (arith, w.fits)) (omega (arith, w.fits))
        ∙ rw (le→leb j p le) refl

skip-terms :
    (p : ℕ) (e : LogEntry) (es : List LogEntry) (old new : Log) (i : ℕ)
    → term_at old (p + 1) ≡ e.term
    → IsMerge (p + 1) es old new
    → {x : LogEntry} → get_elem? (e ∷ es) i ≡ some x
    → term_at new (p + 1 + i) ≡ x.term
skip-terms p e es old new zero there m found =
    rw
      (add-zero (p + 1), term_at-eq new old (p + 1) (p + 1) (m.before (p + 1) (omega arith)), there)
      (ap (λ (x : LogEntry). x.term) (some_inj found))
skip-terms p e es old new (suc i) there m found =
    let shift : p + 1 + suc i ≡ p + 1 + 1 + i = omega arith in rw shift (m.terms i found)

skip-IsMerge :
    (p : ℕ) (e : LogEntry) (es : List LogEntry) (old new : Log)
    → term_at old (p + 1) ≡ e.term
    → IsMerge (p + 1) es old new
    → IsMerge p (e ∷ es) old new
skip-IsMerge p e es old new there m = record {
  shape = m.shape;
  first = m.first;
  before = λ j le. m.before j (omega arith);
  terms = λ i found. skip-terms p e es old new i there m found;
}

-- The loop makes the log a merge of the old one and the request.
pub append_new-IsMerge :
    (p : ℕ) (es : List LogEntry) (l : Log)
    → IsLog l
    → KnowsEnd l
    → l.first_idx ≤ p + 1
    → p ≤ last_index l
    → Numbered (p + 1) es
    → p + 1 + length es < 2 ^ 63
    → IsMerge p es l (append_new es l)
unfolding append_new
append_new-IsMerge p [] l w known ge le n small = record {
  shape = w;
  first = refl;
  before = λ j h. refl;
  terms = λ i found. cc;
}
append_new-IsMerge p (e ∷ es) l w known ge le n small =
    elim (Bool-cases (leb e.index (last_index l))) [
      | inl old ↦ rw old (elim (Bool-cases (term_at l e.index == e.term)) [
        | inl same ↦ rw same (
            skip-IsMerge p e es l (append_new es l) (ap (term_at l) (sym n.0) ∙ (==_iff _ _).0 same)
              (append_new-IsMerge (p + 1) es l w known (omega arith)
                (omega (arith, n.0, leb→le _ _ old)) (rw next at (n.1)) (omega arith)))
        | inr conflict ↦
            rw (conflict, cut_at) (cut-IsMerge p (e ∷ es) l w ge (omega (arith, known, le)) n small)
      ])
      | inr new ↦ rw new (append-IsMerge p (e ∷ es) l w (ground (arith, known, n.0)) n small)
    ]
  where
    next : suc (p + 1) ≡ p + 1 + 1
    next = omega arith

    cut_at : sub64 e.index 1 ≡ p
    cut_at = omega (arith, n.0)
