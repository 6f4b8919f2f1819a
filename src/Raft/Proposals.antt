-- ===== src/Raft/Proposals.antt =====
-- `Propose`: where a proposed command ends up.
pub mod Batch
use prisn.Base.{
  ℕ, ◌+◌, ◌-◌, ◌^◌, ◌≤◌, ◌<◌, ◌≡◌, refl, ap, ◌∙◌, some, List, [], ◌∷◌, ◌++◌, true, arith, length,
  length-append,
}
use prisn.Base.Word.{add64}
use prisn.Raft.Types.{LogEntry, LogEntryType}
use prisn.Raft.Log.{Log, get, last_index, append}
use prisn.Raft.Log.Shape.{IsLog, append-IsLog}
use prisn.Raft.Log.End.{get-append_before, get-append_at}
use prisn.Raft.Node.{Node, is_leader}
use prisn.Raft.Node.Propose.{
  Command, ProposalResult, accepted, command_bytes, commit_alone, propose, propose_bytes,
}
use prisn.Raft.Replication.Merge.{KnowsEnd}

log-commit_alone : (i : ℕ) (n : Node) → (commit_alone i n).log ≡ n.log
unfolding commit_alone
log-commit_alone i n = ground arith

-- The result of a proposal that is accepted: it stands at the next index, in the node's own term, the
-- entries before it have stayed, and the log is well formed and knows its end.
pub record IsAccepted (kind : LogEntryType) (bytes : List ℕ) (n : Node) (r : Node × ProposalResult)
    : Type 0 where
  pub answer : r.1 ≡ accepted (last_index n.log + 1) n.current_term
  pub found :
      get r.0.log (last_index n.log + 1)
      ≡ some (record {
        index = last_index n.log + 1;
        term = n.current_term;
        kind = kind;
        command = bytes;
      })
  pub kept : (j : ℕ) → j ≤ last_index n.log → get r.0.log j ≡ get n.log j
  pub shape : IsLog r.0.log
  pub end_known : KnowsEnd r.0.log

KnowsEnd-append :
    (e : LogEntry) (l : Log)
    → l.first_idx + length (l.entries ++ e ∷ []) < 2 ^ 63
    → KnowsEnd (append (e ∷ []) l)
unfolding append last_index
KnowsEnd-append e l fits = ground (arith, length-append l.entries (e ∷ []))

add-IsAccepted :
    (kind : LogEntryType) (bytes : List ℕ) (n : Node)
    → IsLog n.log
    → KnowsEnd n.log
    → n.log.first_idx + length n.log.entries + 1 < 2 ^ 63
    → IsAccepted kind bytes n (propose_bytes kind (some bytes) n)
unfolding propose_bytes
add-IsAccepted kind bytes n w known room =
    let no_wrap : add64 (last_index n.log) 1 ≡ last_index n.log + 1 = omega (arith, known) in
    let e : LogEntry = record {
      index = last_index n.log + 1;
      term = n.current_term;
      kind = kind;
      command = bytes;
    } in
    let fits : n.log.first_idx + length (n.log.entries ++ e ∷ []) < 2 ^ 63 =
      omega (arith, length-append n.log.entries (e ∷ [])) in
    rw no_wrap (record {
      answer = refl;
      found = rw log-commit_alone (
          ap (get (append (e ∷ []) n.log)) at_end
          ∙ get-append_at (e ∷ []) n.log 0 fits (omega arith));
      kept = λ j le.
          rw log-commit_alone (get-append_before (e ∷ []) n.log j fits (omega (arith, known)));
      shape = rw log-commit_alone (append-IsLog (e ∷ []) n.log w fits (known, tt));
      end_known = rw log-commit_alone (KnowsEnd-append e n.log fits);
    })
  where
    at_end : last_index n.log + 1 ≡ n.log.first_idx + length n.log.entries + 0
    at_end = omega (arith, known)

propose-leader :
    (n : Node) (kind : LogEntryType) (command : Command) (bytes : List ℕ)
    → is_leader n.state ≡ true
    → command_bytes command ≡ some bytes
    → propose kind command n ≡ propose_bytes kind (some bytes) n
unfolding propose
propose-leader n kind command bytes leads text = rw (leads, text)

-- A leader whose log is well formed, knows its end and has room for one more index below 2^63 accepts
-- every command that has a JSON text: the entry stands at the next index in the leader's term, the
-- entries before it have stayed, and the log is well formed and knows its end.
pub propose-IsAccepted :
    (n : Node) (kind : LogEntryType) (command : Command) (bytes : List ℕ)
    → is_leader n.state ≡ true
    → command_bytes command ≡ some bytes
    → IsLog n.log
    → KnowsEnd n.log
    → n.log.first_idx + length n.log.entries + 1 < 2 ^ 63
    → IsAccepted kind bytes n (propose kind command n)
propose-IsAccepted n kind command bytes leads text w known room =
    rw (propose-leader n kind command bytes leads text) (add-IsAccepted kind bytes n w known room)
