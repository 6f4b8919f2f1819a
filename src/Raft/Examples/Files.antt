-- ===== src/Raft/Examples/Files.antt =====
-- The bytes of raft.log, with a text of an entry that is easy to read back.
use prisn.Base.{ℕ, ◌≡◌, refl, Option, none, some, get_or, get_elem?, List, [], ◌∷◌, arith}
use prisn.Raft.Types.{
  LogEntry, LogEntryType, log_noop, log_deployment_create, log_deployment_update,
  log_deployment_delete, log_deployment_activate, log_scheduler_assign, log_scheduler_unassign,
  log_node_join, log_node_leave, log_scale_change, log_secret_create, log_secret_delete,
}
use prisn.Raft.Log.Frame.{write_frames, load_frames, ok, load_frames-write_frames}
use prisn.Raft.Examples.{three}

abbrev code : LogEntryType → ℕ
code log_noop = 0
code log_deployment_create = 1
code log_deployment_update = 2
code log_deployment_delete = 3
code log_deployment_activate = 4
code log_scheduler_assign = 5
code log_scheduler_unassign = 6
code log_node_join = 7
code log_node_leave = 8
code log_scale_change = 9
code log_secret_create = 10
code log_secret_delete = 11

abbrev kinds : List LogEntryType
kinds =
    log_noop ∷ log_deployment_create ∷ log_deployment_update ∷ log_deployment_delete
    ∷ log_deployment_activate ∷ log_scheduler_assign ∷ log_scheduler_unassign ∷ log_node_join
    ∷ log_node_leave ∷ log_scale_change ∷ log_secret_create ∷ log_secret_delete ∷ log_noop
    ∷ log_deployment_create ∷ log_deployment_update ∷ log_deployment_delete
    ∷ log_deployment_activate ∷ log_scheduler_assign ∷ log_scheduler_unassign ∷ log_node_join
    ∷ log_node_leave ∷ log_scale_change ∷ log_secret_create ∷ log_secret_delete ∷ []

abbrev kind_of : ℕ → LogEntryType
kind_of k = get_or (get_elem? kinds k) log_noop

abbrev text : LogEntry → List ℕ
text e = e.index ∷ e.term ∷ code e.kind ∷ e.command

abbrev parse : List ℕ → Option LogEntry
parse (i ∷ t ∷ k ∷ bytes) = some (record { index = i; term = t; kind = kind_of k; command = bytes })
parse _ = none

kind_of-code : (k : LogEntryType) → kind_of (code k) ≡ k
kind_of-code log_noop = refl
kind_of-code log_deployment_create = refl
kind_of-code log_deployment_update = refl
kind_of-code log_deployment_delete = refl
kind_of-code log_deployment_activate = refl
kind_of-code log_scheduler_assign = refl
kind_of-code log_scheduler_unassign = refl
kind_of-code log_node_join = refl
kind_of-code log_node_leave = refl
kind_of-code log_scale_change = refl
kind_of-code log_secret_create = refl
kind_of-code log_secret_delete = refl

parse-text : (e : LogEntry) → parse (text e) ≡ some e
parse-text e = rw (kind_of-code e.kind) refl

load_frames-write_frames_example : load_frames parse 100 (write_frames text three) ≡ ok three
unfolding write_frames
load_frames-write_frames_example =
    load_frames-write_frames text parse parse-text 100 three
      (omega arith, (omega arith, (omega arith, tt))) (omega arith)
