-- ===== src/Raft/Ballots.antt =====
-- The votes that one node gives out over its life: in handlers, as a candidate, across crashes.
pub mod Effect
pub mod Unique
use prisn.Base.{
  ℕ, ◌+◌, ◌^◌, ◌<◌, ◌≡◌, ◌≢◌, String, Option, none, some, List, [], ◌∷◌, ◌++◌, ltb, if◌then◌else◌,
}
use prisn.Raft.Types.{RequestVoteArgs, AppendEntriesArgs, InstallSnapshotArgs}
use prisn.Raft.Fsm.{Json}
use prisn.Raft.Node.{Node, PersistentState, disk_term, disk_vote, restart}
use prisn.Raft.Node.Vote.{handle_request_vote}
use prisn.Raft.Node.Append.{handle_append_entries}
use prisn.Raft.Node.Snapshot.{handle_install_snapshot}
use prisn.Raft.Node.Campaign.{stand, observe_term}

-- What may change a node's term or vote. `campaign` and `higher_term` are the parts of startElection and
-- of the handling of replies that hold the mutex; state.json is written behind them, without the mutex, so
-- `save` puts there what was read at some time before. `ask` sends the requests for votes. `crash` loses
-- what is not in the files.
pub data Event : Type 0 where
  request_vote : RequestVoteArgs → Event
  append_entries : AppendEntriesArgs → Event
  install_snapshot : InstallSnapshotArgs → Event
  campaign : Event
  higher_term : ℕ → Event
  save : PersistentState → Event
  ask : Event
  crash : Event

pub record Ballot : Type 0 where
  pub term : ℕ
  pub candidate : String

-- `none` is a node that does not come up again.
unfoldable pub handle : Json → Event → Node → Option Node
handle json (request_vote args) n = some (handle_request_vote args n).0
handle json (append_entries args) n = some (handle_append_entries args n).0
handle json (install_snapshot args) n = some (handle_install_snapshot json args n).0
handle json campaign n = some (stand n)
handle json (higher_term t) n = some (if ltb n.current_term t then observe_term t n else n)
handle json (save p) n = some (record n { saved = some p })
handle json ask n = some n
handle json crash n = restart json n

-- The vote that an event gives out.
unfoldable pub ballot : Event → Node → List Ballot
ballot (request_vote args) n =
    let reply = (handle_request_vote args n).1 in
    if reply.vote_granted
    then record { term = reply.term; candidate = args.candidate_id } ∷ []
    else []
ballot ask n = record { term = n.current_term; candidate = n.id } ∷ []
ballot _ n = []

-- The ballots of a run, the newest first, in front of those before it.
unfoldable pub history : Json → List Event → Node → List Ballot → List Ballot
history json [] n past = past
history json (e ∷ es) n past = elim (handle json e n) [
  | none ↦ past
  | some n' ↦ history json es n' (ballot e n ++ past)
]

-- Candidates have names, and no term reaches the end of its 64 bits. What a save puts into state.json is not
-- overtaken: its term and vote are those that the node has when it is done. A candidate asks for votes
-- while it has the term and the vote for itself that state.json holds.
abbrev pub IsFair : Event → Node → Type 0
IsFair (request_vote args) n = args.candidate_id ≢ ""
IsFair campaign n = n.current_term + 1 < 2 ^ 64
IsFair (save p) n = (p.current_term ≡ n.current_term) × (p.voted_for ≡ n.voted_for)
IsFair ask n =
    (n.id ≢ "")
    × (n.voted_for ≡ n.id)
    × (disk_term n.saved ≡ n.current_term)
    × (disk_vote n.saved ≡ n.voted_for)
IsFair _ n = Unit

abbrev pub AreFair : Json → List Event → Node → Type 0
AreFair json [] n = Unit
AreFair json (e ∷ es) n =
    IsFair e n × (elim (handle json e n) [ none ↦ Unit | some n' ↦ AreFair json es n' ])
