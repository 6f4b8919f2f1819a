-- ===== src/Raft/Examples/Logs.antt =====
-- The operations of the log on a small log.
use prisn.Base.{◌≡◌, refl, none, some, [], ◌∷◌, List}
use prisn.Raft.Log.{get, get_range, last_index, term_at, reopen}
use prisn.Raft.Log.Files.{
  Operation, append_entries, truncate_behind, compact_to, restart, perform, reopen-perform,
}
use prisn.Raft.Examples.{entry, short_log}

-- what `Get`, `LastIndex`, `TermAt` and `GetRange` return on it
short_log_reads :
    (get short_log 6 ≡ some (entry 6 1))
    × (get short_log 4 ≡ none)
    × (last_index short_log ≡ 7)
    × (term_at short_log 7 ≡ 2)
    × (get_range short_log 6 9 ≡ entry 6 1 ∷ entry 7 2 ∷ [])
unfolding get last_index term_at get_range
short_log_reads = (refl, refl, refl, refl, refl)

abbrev some_operations : List Operation
some_operations =
    append_entries (entry 8 2 ∷ []) ∷ compact_to 6 1 ∷ restart ∷ truncate_behind 7 ∷ []

reopen-perform_example :
    reopen (perform some_operations (reopen short_log)) ≡ perform some_operations (reopen short_log)
reopen-perform_example = reopen-perform short_log some_operations
