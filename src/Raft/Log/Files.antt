-- ===== src/Raft/Log/Files.antt =====
-- The files of a log against the log in memory: after its operations, after a restart, and after a
-- crash between the two writes of a compaction.
use prisn.Base.{
  ℕ, ◌+◌, ◌^◌, ◌<◌, ◌≡◌, refl, ap, sym, ◌∙◌, inl, inr, Bool-cases, Option, none, some, List, [],
  ◌∷◌, ◌++◌, arith, length, get_elem?,
}
use prisn.Base.Word.{add64}
use prisn.Raft.Types.{LogEntry}
use prisn.Raft.Log.{
  Log, SnapshotMeta, get, append, truncate_after, truncate_all, compact, outside, drop_compacted,
  save_snapshot_meta, reopen, first_index, load, load_snapshot_meta,
}
use prisn.Raft.Log.Shape.{IsLog}
use prisn.Raft.Log.View.{get_offset}

-- The snapshot metadata in memory are those in the file.
abbrev pub MetaAgrees : Option SnapshotMeta → ℕ → ℕ → ℕ → Type 0
MetaAgrees none first index term = (first ≡ 1) × (index ≡ 0) × (term ≡ 0)
MetaAgrees (some m) first index term =
    (first ≡ add64 m.index 1) × (index ≡ m.index) × (term ≡ m.term)

pub record IsSynced (l : Log) : Type 0 where
  pub entries_saved : l.log_file ≡ l.entries
  pub meta_saved : MetaAgrees l.meta_file l.first_idx l.snapshot_index l.snapshot_term

reopen_on :
    (l : Log) (m : Option SnapshotMeta)
    → l.log_file ≡ l.entries
    → l.meta_file ≡ m
    → MetaAgrees m l.first_idx l.snapshot_index l.snapshot_term
    → reopen l ≡ l
unfolding reopen load load_snapshot_meta
reopen_on l none f e a = ground arith
reopen_on l (some m) f e a = ground arith

-- Opening the files of a synced log gives the log back.
reopen-synced : (l : Log) → IsSynced l → reopen l ≡ l
reopen-synced l s = reopen_on l l.meta_file s.entries_saved refl s.meta_saved

append-IsSynced : (l : Log) (new : List LogEntry) → IsSynced l → IsSynced (append new l)
unfolding append
append-IsSynced l new sync = record {
  entries_saved = ap (λ es. es ++ new) sync.entries_saved;
  meta_saved = sync.meta_saved;
}

truncate_after-IsSynced : (l : Log) (idx : ℕ) → IsSynced l → IsSynced (truncate_after idx l)
unfolding truncate_after
truncate_after-IsSynced l idx sync = record { entries_saved = refl; meta_saved = sync.meta_saved }

compact-IsSynced : (l : Log) (s t : ℕ) → IsSynced l → IsSynced (compact s t l)
unfolding compact
compact-IsSynced l s t sync = elim (Bool-cases (outside l s)) [
  | inl out ↦ rw out sync
  | inr inside ↦ rw inside (record { entries_saved = refl; meta_saved = (refl, refl, refl) })
]

-- What a node does to its log, but for `TruncateAll`, which leaves the metadata of the old snapshot on disk
pub data Operation : Type 0 where
  append_entries : List LogEntry → Operation
  truncate_behind : ℕ → Operation
  compact_to : (index term : ℕ) → Operation
  restart : Operation

-- One operation after the other
unfoldable pub perform : List Operation → Log → Log
perform [] l = l
perform (append_entries es ∷ ops) l = perform ops (append es l)
perform (truncate_behind idx ∷ ops) l = perform ops (truncate_after idx l)
perform (compact_to s t ∷ ops) l = perform ops (compact s t l)
perform (restart ∷ ops) l = perform ops (reopen l)

load-IsSynced : (l : Log) (m : Option SnapshotMeta) → l.meta_file ≡ m → IsSynced (reopen l)
unfolding reopen load load_snapshot_meta
load-IsSynced l none e = record {
  entries_saved = ground (arith, e);
  meta_saved = ground (arith, e);
}
load-IsSynced l (some m) e = record {
  entries_saved = ground (arith, e);
  meta_saved = ground (arith, e);
}

perform-IsSynced : (ops : List Operation) (l : Log) → IsSynced l → IsSynced (perform ops l)
unfolding perform
perform-IsSynced [] l sync = sync
perform-IsSynced (append_entries es ∷ ops) l sync =
    perform-IsSynced ops (append es l) (append-IsSynced l es sync)
perform-IsSynced (truncate_behind idx ∷ ops) l sync =
    perform-IsSynced ops (truncate_after idx l) (truncate_after-IsSynced l idx sync)
perform-IsSynced (compact_to s t ∷ ops) l sync =
    perform-IsSynced ops (compact s t l) (compact-IsSynced l s t sync)
perform-IsSynced (restart ∷ ops) l sync =
    perform-IsSynced ops (reopen l) (load-IsSynced l l.meta_file refl)

-- Whatever files a log is opened from, and whatever appends, truncations behind an index, compactions and
-- restarts follow: opening its files once more gives the log that is in memory, entries, first index and
-- snapshot metadata.
pub reopen-perform :
    (l : Log) (ops : List Operation) → reopen (perform ops (reopen l)) ≡ perform ops (reopen l)
reopen-perform l ops =
    reopen-synced (perform ops (reopen l))
      (perform-IsSynced ops (reopen l) (load-IsSynced l l.meta_file refl))

-- A crash of `Compact` after the metadata and before the log file, on a well-formed log in step with
-- its files, where indices are below 2^63: after the next start the entry of index `first + i`
-- answers for `s + 1 + i`.
pub get-compact_crash :
    (l : Log) (s t i : ℕ)
    → IsLog l
    → IsSynced l
    → s + 1 + length l.entries < 2 ^ 63
    → s + 1 + i < 2 ^ 63
    → l.first_idx + i < 2 ^ 63
    → get (reopen (save_snapshot_meta (drop_compacted s t l))) (s + 1 + i) ≡ get l (l.first_idx + i)
unfolding reopen save_snapshot_meta drop_compacted load load_snapshot_meta
get-compact_crash l s t i w sync fits small_s small_i =
    let crashed = reopen (save_snapshot_meta (drop_compacted s t l)) in
    let no_wrap : s + 1 + i ≡ add64 s 1 + i = omega arith in
    let first = get_offset crashed i (omega (arith, ap length sync.entries_saved)) (omega arith) in
    ap (get crashed) no_wrap
    ∙ first
    ∙ ap (λ es. get_elem? es i) sync.entries_saved
    ∙ sym (get_offset l i w.fits small_i)

-- Where there is a metadata file of an index below 2^63, after `TruncateAll` memory numbers entries
-- from 1, and the next start numbers them from behind the index in the file.
pub first_index-truncate_all-reopen :
    (l : Log) (m : SnapshotMeta)
    → l.meta_file ≡ some m
    → m.index < 2 ^ 63
    → (first_index (truncate_all l) ≡ 1) × (first_index (reopen (truncate_all l)) ≡ m.index + 1)
unfolding truncate_all reopen first_index load load_snapshot_meta
first_index-truncate_all-reopen l m e small = (refl, rw e (omega arith))
