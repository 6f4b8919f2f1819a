-- ===== src/Raft/Replication/Stale.antt =====
-- A request that arrives late or twice.
use prisn.Base.{◌≤◌, ◌≡◌, refl, List, [], ◌∷◌, le→leb, ==_iff}
use prisn.Raft.Types.{LogEntry}
use prisn.Raft.Log.{Log, term_at, last_index}
use prisn.Raft.Node.Append.{append_new}

-- Each entry is at its index with its term.
abbrev pub IsHeld : Log → List LogEntry → Type 0
IsHeld l [] = Unit
IsHeld l (e ∷ es) = (e.index ≤ last_index l) × (term_at l e.index ≡ e.term) × IsHeld l es

-- If the log has every entry of the request, nothing is cut off and nothing is added, however much
-- longer the log is.
pub append_new-held : (es : List LogEntry) (l : Log) → IsHeld l es → append_new es l ≡ l
unfolding append_new
append_new-held [] l h = refl
append_new-held (e ∷ es) l (there, same, rest) =
    rw (le→leb _ _ there, (==_iff _ _).1 same) (append_new-held es l rest)
