-- ===== src/Raft/Log.antt =====
-- pkg/raft/log.go: the log in memory, the two files that it keeps, and each operation on them. A
-- method returns the new log; the operations of the file system succeed. The log file is modelled as
-- the list of the entries whose frames it holds; Raft/Log/Frame has the bytes.
pub mod Shape
pub mod View
pub mod End
pub mod Files
pub mod Frame
use prisn.Base.{
  ℕ, ◌+◌, ◌-◌, Option, none, some, List, [], ◌++◌, Bool, ◌||◌, ltb, leb, if◌then◌else◌, length,
  get_elem?, take, drop, get_last?,
}
use prisn.Base.Word.{add64, sub64, is_negative}
use prisn.Raft.Types.{LogEntry}

pub record SnapshotMeta : Type 0 where
  pub index : ℕ
  pub term : ℕ

pub record Log : Type 0 where
  pub entries : List LogEntry
  pub first_idx : ℕ
  pub snapshot_index : ℕ
  pub snapshot_term : ℕ
  pub log_file : List LogEntry  -- raft.log
  pub meta_file : Option SnapshotMeta  -- snapshot.meta

-- int(idx - l.firstIdx), as a bit pattern
unfoldable pub position : Log → ℕ → ℕ
position l idx = sub64 idx l.first_idx

unfoldable pub get : Log → ℕ → Option LogEntry
unfolding position
get l idx =
    let arr_idx = position l idx in
    if is_negative arr_idx || leb (length l.entries) arr_idx
    then none
    else get_elem? l.entries arr_idx

-- One past `endArr`, cut off at the ends of the slice: 0 where `endArr` is negative.
unfoldable pub range_stop : ℕ → ℕ → ℕ
range_stop n end_arr = if is_negative end_arr then 0 else if leb n end_arr then n else end_arr + 1

unfoldable pub get_range : Log → ℕ → ℕ → List LogEntry
unfolding position range_stop
get_range l start end =
    let start_arr = position l start in
    let from = if is_negative start_arr then 0 else start_arr in
    let stop = range_stop (length l.entries) (position l end) in
    if leb stop from then [] else take (stop - from) (drop from l.entries)

unfoldable pub first_index : Log → ℕ
first_index l = l.first_idx

-- The source returns 0 for a log with no entry, whatever has been compacted away.
unfoldable pub last_index : Log → ℕ
last_index l =
    if ltb 0 (length l.entries) then sub64 (add64 l.first_idx (length l.entries)) 1 else 0

term_of : Option LogEntry → ℕ
term_of none = 0
term_of (some e) = e.term

unfoldable pub last_term : Log → ℕ
unfolding term_of
last_term l = term_of (get_last? l.entries)

unfoldable pub term_at : Log → ℕ → ℕ
unfolding term_of
term_at l idx = term_of (get l idx)

unfoldable pub append : List LogEntry → Log → Log
append new l = record l { entries = l.entries ++ new; log_file = l.log_file ++ new }

-- recreates the log file from the entries in memory
unfoldable pub rewrite : Log → Log
rewrite l = record l { log_file = l.entries }

unfoldable pub truncate_after : ℕ → Log → Log
unfolding position rewrite
truncate_after idx l =
    let arr_idx = position l idx in
    let keep = if is_negative arr_idx then 0 else arr_idx + 1 in
    rewrite (record l {
      entries = if ltb keep (length l.entries) then take keep l.entries else l.entries;
    })

unfoldable pub truncate_all : Log → Log
unfolding rewrite
truncate_all l = rewrite (record l { entries = []; first_idx = 1 })

unfoldable pub save_snapshot_meta : Log → Log
save_snapshot_meta l = record l {
  meta_file = some (record { index = l.snapshot_index; term = l.snapshot_term });
}

-- the part of `Compact` that changes memory
unfoldable pub drop_compacted : ℕ → ℕ → Log → Log
drop_compacted snapshot_index snapshot_term l = record l {
  snapshot_index = snapshot_index;
  snapshot_term = snapshot_term;
  entries = drop (add64 (sub64 snapshot_index l.first_idx) 1) l.entries;
  first_idx = add64 snapshot_index 1;
}

-- `Compact` refuses an index before the first entry or beyond the last.
abbrev pub outside : Log → ℕ → Bool
outside l idx = ltb idx l.first_idx || ltb (sub64 (add64 l.first_idx (length l.entries)) 1) idx

unfoldable pub compact : ℕ → ℕ → Log → Log
unfolding rewrite save_snapshot_meta drop_compacted
compact snapshot_index snapshot_term l =
    if outside l snapshot_index
    then l
    else rewrite (save_snapshot_meta (drop_compacted snapshot_index snapshot_term l))

unfoldable pub should_compact : ℕ → Log → Bool
should_compact threshold l = ltb threshold (length l.entries)

-- `NewLog` on the files that `l` left behind: first `loadSnapshotMeta`, then `load`.
load_snapshot_meta : Option SnapshotMeta → Log → Log
load_snapshot_meta none l = l
load_snapshot_meta (some m) l = record l {
  snapshot_index = m.index;
  snapshot_term = m.term;
  first_idx = add64 m.index 1;
}

load : Log → Log
load l = record l { entries = l.entries ++ l.log_file }

abbrev empty_log : List LogEntry → Option SnapshotMeta → Log
empty_log file meta = record {
  entries = [];
  first_idx = 1;
  snapshot_index = 0;
  snapshot_term = 0;
  log_file = file;
  meta_file = meta;
}

unfoldable pub new_log : List LogEntry → Option SnapshotMeta → Log
unfolding load_snapshot_meta load
new_log file meta = load (load_snapshot_meta meta (empty_log file meta))

unfoldable pub reopen : Log → Log
unfolding new_log
reopen l = new_log l.log_file l.meta_file
