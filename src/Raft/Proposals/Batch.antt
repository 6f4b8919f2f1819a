-- ===== src/Raft/Proposals/Batch.antt =====
-- `processBatch` against `Propose`.
use prisn.Base.{
  ℕ, ◌≡◌, refl, sym, ap, ◌∙◌, inl, inr, Option, none, some, List, [], ◌∷◌, Bool, true, false, arith,
  leb, if◌then◌else◌, Bool-cases, Option-cases,
}
use prisn.Raft.Types.{LogEntry, LogEntryType}
use prisn.Raft.Node.{Node, cluster_size, is_leader}
use prisn.Raft.Node.Propose.{
  Command, ProposalResult, accepted, not_leader, marshal_failed, command_bytes, next_entry,
  add_entry, commit_alone, propose, propose_bytes, ProposalRequest, Batch, append_batch,
  commit_batch, reject_all, process_batch,
}

-- Proposing one command after the other.
unfoldable pub propose_all : List ProposalRequest → Node → Node × List ProposalResult
propose_all [] n = (n, [])
propose_all (r ∷ rs) n =
    let (n', result) = propose r.entry_type r.command n in
    let (n'', results) = propose_all rs n' in (n'', result ∷ results)

next_entry-commit_alone :
    (kind : LogEntryType) (bytes : List ℕ) (i : ℕ) (n : Node)
    → next_entry kind bytes (commit_alone i n) ≡ next_entry kind bytes n
unfolding next_entry commit_alone
next_entry-commit_alone kind bytes i n = ground arith

add_entry-commit_alone :
    (e : LogEntry) (i : ℕ) (n : Node)
    → add_entry e (commit_alone i n) ≡ commit_alone i (add_entry e n)
unfolding add_entry commit_alone cluster_size
add_entry-commit_alone e i n = elim (Bool-cases (leb (cluster_size n) 1)) [
  | inl alone ↦ rw alone
  | inr more ↦ rw more
]

commit_alone-commit_alone :
    (j i : ℕ) (n : Node) → commit_alone j (commit_alone i n) ≡ commit_alone j n
unfolding commit_alone cluster_size
commit_alone-commit_alone j i n = elim (Bool-cases (leb (cluster_size n) 1)) [
  | inl alone ↦ rw (alone, alone)
  | inr more ↦ rw (more, more)
]

abbrev on_node : (Node → Node) → Batch → Batch
on_node f b = record b { node = f b.node }

-- one more result, and the index of its entry if it is the last
abbrev cons_failed : Batch → Batch
cons_failed b = record b { results = marshal_failed ∷ b.results }

abbrev cons_accepted : LogEntry → Batch → Batch
cons_accepted e b = record b {
  last = some (elim b.last [ none ↦ e.index | some i ↦ i ]);
  results = accepted e.index e.term ∷ b.results;
}

append_batch-failed :
    (r : ProposalRequest) (rs : List ProposalRequest) (n : Node)
    → command_bytes r.command ≡ none
    → append_batch (r ∷ rs) n ≡ cons_failed (append_batch rs n)
unfolding append_batch
append_batch-failed r rs n bad = rw (bad, append_batch)

append_batch-accepted :
    (r : ProposalRequest) (rs : List ProposalRequest) (n : Node) (bytes : List ℕ)
    → command_bytes r.command ≡ some bytes
    → append_batch (r ∷ rs) n
      ≡ cons_accepted
          (next_entry r.entry_type bytes n)
          (append_batch rs (add_entry (next_entry r.entry_type bytes n) n))
unfolding append_batch
append_batch-accepted r rs n bytes good = rw (good, append_batch)

-- An earlier commit does not change what a batch appends.
append_batch-commit_alone :
    (rs : List ProposalRequest) (i : ℕ) (n : Node)
    → append_batch rs (commit_alone i n) ≡ on_node (commit_alone i) (append_batch rs n)
append_batch-commit_alone [] i n = unfold append_batch in refl
append_batch-commit_alone (r ∷ rs) i n = elim (Option-cases (command_bytes r.command)) [
  | inl bad ↦
      append_batch-failed r rs (commit_alone i n) bad
      ∙ ap cons_failed (append_batch-commit_alone rs i n)
      ∙ sym (ap (on_node (commit_alone i)) (append_batch-failed r rs n bad))
  | inr (bytes, good) ↦
      let e = next_entry r.entry_type bytes n in
      append_batch-accepted r rs (commit_alone i n) bytes good
      ∙ ap (λ x. cons_accepted x (append_batch rs (add_entry x (commit_alone i n))))
          (next_entry-commit_alone r.entry_type bytes i n)
      ∙ ap (λ m. cons_accepted e (append_batch rs m)) (add_entry-commit_alone e i n)
      ∙ ap (cons_accepted e) (append_batch-commit_alone rs i (add_entry e n))
      ∙ sym (ap (on_node (commit_alone i)) (append_batch-accepted r rs n bytes good))
]

-- What a leader's `processBatch` returns.
abbrev finished : Batch → Node × List ProposalResult
finished b = (commit_batch b.last b.node, b.results)

commit_batch-last :
    (i : ℕ) (o : Option ℕ) (n : Node)
    → commit_batch (some (elim o [ none ↦ i | some j ↦ j ])) n ≡ commit_batch o (commit_alone i n)
unfolding commit_batch
commit_batch-last i none n = refl
commit_batch-last i (some j) n = sym (commit_alone-commit_alone j i n)

state-commit_alone : (i : ℕ) (n : Node) → (commit_alone i n).state ≡ n.state
unfolding commit_alone
state-commit_alone i n = ground arith

state-add_entry : (e : LogEntry) (n : Node) → (add_entry e n).state ≡ n.state
unfolding add_entry
state-add_entry e n = refl

propose-failed :
    (kind : LogEntryType) (c : Command) (n : Node)
    → is_leader n.state ≡ true
    → command_bytes c ≡ none
    → propose kind c n ≡ (n, marshal_failed)
unfolding propose propose_bytes
propose-failed kind c n leads bad = rw (leads, bad)

propose-succeeds :
    (kind : LogEntryType) (c : Command) (n : Node) (bytes : List ℕ)
    → is_leader n.state ≡ true
    → command_bytes c ≡ some bytes
    → propose kind c n ≡ (
      commit_alone (next_entry kind bytes n).index (add_entry (next_entry kind bytes n) n),
      accepted (next_entry kind bytes n).index (next_entry kind bytes n).term,
    )
unfolding propose propose_bytes
propose-succeeds kind c n bytes leads good = rw (leads, good)

-- `propose_all` on one request and the rest
abbrev then_all : List ProposalRequest → Node × ProposalResult → Node × List ProposalResult
then_all rs (n, result) = ((propose_all rs n).0, result ∷ (propose_all rs n).1)

abbrev cons_result : ProposalResult → Node × List ProposalResult → Node × List ProposalResult
cons_result x (n, xs) = (n, x ∷ xs)

propose_all-cons :
    (r : ProposalRequest) (rs : List ProposalRequest) (n : Node)
    → propose_all (r ∷ rs) n ≡ then_all rs (propose r.entry_type r.command n)
unfolding propose_all
propose_all-cons r rs n = refl

finished-accepted :
    (rs : List ProposalRequest) (e : LogEntry) (n : Node)
    → finished (append_batch rs (commit_alone e.index (add_entry e n))) ≡ (
      commit_batch
          (some (elim (append_batch rs (add_entry e n)).last [ none ↦ e.index | some j ↦ j ]))
          (append_batch rs (add_entry e n)).node,
      (append_batch rs (add_entry e n)).results,
    )
finished-accepted rs e n =
    let b = append_batch rs (add_entry e n) in
    ap finished (append_batch-commit_alone rs e.index (add_entry e n))
    ∙ ap (λ (m : Node). (m, b.results)) (sym (commit_batch-last e.index b.last b.node))

propose_all-finished :
    (rs : List ProposalRequest) (n : Node)
    → is_leader n.state ≡ true
    → propose_all rs n ≡ finished (append_batch rs n)
propose_all-finished [] n leads = unfold propose_all append_batch commit_batch in refl
propose_all-finished (r ∷ rs) n leads = elim (Option-cases (command_bytes r.command)) [
  | inl bad ↦
      propose_all-cons r rs n
      ∙ ap (then_all rs) (propose-failed r.entry_type r.command n leads bad)
      ∙ ap (cons_result marshal_failed) (propose_all-finished rs n leads)
      ∙ sym (ap finished (append_batch-failed r rs n bad))
  | inr (bytes, good) ↦
      let e = next_entry r.entry_type bytes n in
      let n' = commit_alone e.index (add_entry e n) in
      propose_all-cons r rs n
      ∙ ap (then_all rs) (propose-succeeds r.entry_type r.command n bytes leads good)
      ∙ ap (cons_result (accepted e.index e.term)) (
          propose_all-finished rs n' (
            ap is_leader (state-commit_alone e.index (add_entry e n) ∙ state-add_entry e n) ∙ leads)
          ∙ finished-accepted rs e n)
      ∙ sym (ap finished (append_batch-accepted r rs n bytes good))
]

propose_all-reject :
    (rs : List ProposalRequest) (n : Node)
    → is_leader n.state ≡ false
    → propose_all rs n ≡ (n, reject_all n.leader_id rs)
unfolding propose_all reject_all propose
propose_all-reject [] n f = refl
propose_all-reject (r ∷ rs) n f =
    rw f (ap (cons_result (not_leader n.leader_id)) (propose_all-reject rs n f))

process_batch_cases :
    (rs : List ProposalRequest) (n : Node) (b : Bool)
    → is_leader n.state ≡ b
    → process_batch rs n
      ≡ (if b then finished (append_batch rs n) else (n, reject_all n.leader_id rs))
unfolding process_batch
process_batch_cases rs n b e = rw e

-- Processing a batch leaves the node, and answers every request, exactly as proposing the commands one
-- after the other does, on a leader and on any other node, alone or in a cluster.
pub process_batch-propose_all :
    (rs : List ProposalRequest) (n : Node) → process_batch rs n ≡ propose_all rs n
process_batch-propose_all rs n = elim (Bool-cases (is_leader n.state)) [
  | inl leads ↦ process_batch_cases rs n true leads ∙ sym (propose_all-finished rs n leads)
  | inr follows ↦ process_batch_cases rs n false follows ∙ sym (propose_all-reject rs n follows)
]
