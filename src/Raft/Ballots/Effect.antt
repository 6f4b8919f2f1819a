-- ===== src/Raft/Ballots/Effect.antt =====
-- What an event does to a node's term, its vote and state.json.
use prisn.Base.{
  some_inj, ℕ, ◌+◌, ◌^◌, ◌<◌, ◌≡◌, ◌≢◌, refl, ap, sym, ◌∙◌, subst, ◌⊎◌, inl, inr, String, Option,
  none, some, List, [], ◌∷◌, true, arith, ltb, ◌==◌, eq_iff, if◌then◌else◌, Bool-cases, ltb→lt,
}
use prisn.Raft.Types.{RequestVoteArgs, AppendEntriesArgs, InstallSnapshotArgs, VoteReply}
use prisn.Raft.Log.{last_index, term_at}
use prisn.Raft.Fsm.{Json, ClusterState, restore}
use prisn.Raft.Node.{Node, restart, disk_term, disk_vote}
use prisn.Raft.Node.Vote.{handle_request_vote, can_vote, cast_vote, adopt_term}
use prisn.Raft.Node.Append.{handle_append_entries, follow, accept, check_previous}
use prisn.Raft.Node.Snapshot.{handle_install_snapshot, install}
use prisn.Raft.Node.Restart.{restart-fields}
use prisn.Raft.Node.Campaign.{stand, observe_term}
use prisn.Raft.Ballots.{
  Event, request_vote, append_entries, install_snapshot, campaign, higher_term, save, ask, crash,
  Ballot, handle, ballot, IsFair,
}

-- A later term, or the same term with the same vote or with a first vote.
abbrev pub Moves : Node → Node → Type 0
Moves n n' =
    (n.current_term < n'.current_term)
    ⊎ (n.current_term ≡ n'.current_term) × ((n.voted_for ≡ n'.voted_for) ⊎ (n.voted_for ≡ ""))

pub data Effect (n n' : Node) (bs : List Ballot) : Type 0 where
  quiet :
      n'.current_term ≡ n.current_term
      → n'.voted_for ≡ n.voted_for
      → n'.saved ≡ n.saved
      → bs ≡ []
      → Effect n n' bs
  raised : n.current_term < n'.current_term → n'.saved ≡ n.saved → bs ≡ [] → Effect n n' bs
  stored :
      disk_term n'.saved ≡ n'.current_term
      → disk_vote n'.saved ≡ n'.voted_for
      → Moves n n'
      → (bs ≡ [])
        ⊎ (bs ≡ record { term = n'.current_term; candidate = n'.voted_for } ∷ [])
          × (n'.voted_for ≢ "")
      → Effect n n' bs
  lost :
      n'.current_term ≡ disk_term n.saved
      → n'.voted_for ≡ disk_vote n.saved
      → n'.saved ≡ n.saved
      → bs ≡ []
      → Effect n n' bs

-- The start of a handler may take over a higher term, with nothing saved yet.
abbrev Start : Node → Node → Type 0
Start n n' =
    (n.current_term < n'.current_term) × (n'.saved ≡ n.saved)
    ⊎ (n'.current_term ≡ n.current_term) × (n'.voted_for ≡ n.voted_for) × (n'.saved ≡ n.saved)

Moves-after : (n m n' : Node) → Start n m → Moves m n' → Moves n n'
Moves-after n m n' s h = ground arith

Effect-after : (n m n' : Node) (bs : List Ballot) → Start n m → Effect m n' bs → Effect n n' bs
Effect-after n m n' bs (inl (up, sv)) (quiet t v s e) = raised (omega arith) (s ∙ sv) e
Effect-after n m n' bs (inr (t0, v0, sv)) (quiet t v s e) = quiet (t ∙ t0) (v ∙ v0) (s ∙ sv) e
Effect-after n m n' bs (inl (up, sv)) (raised t s e) = raised (omega arith) (s ∙ sv) e
Effect-after n m n' bs (inr (t0, v0, sv)) (raised t s e) = raised (omega arith) (s ∙ sv) e
Effect-after n m n' bs st (stored t v mv b) = stored t v (Moves-after n m n' st mv) b
Effect-after n m n' bs (inl (up, sv)) (lost t v s e) =
    lost (t ∙ ap disk_term sv) (v ∙ ap disk_vote sv) (s ∙ sv) e
Effect-after n m n' bs (inr (t0, v0, sv)) (lost t v s e) =
    lost (t ∙ ap disk_term sv) (v ∙ ap disk_vote sv) (s ∙ sv) e

vote_free :
    (n : Node) (args : RequestVoteArgs)
    → can_vote n args ≡ true
    → (n.voted_for ≡ args.candidate_id) ⊎ (n.voted_for ≡ "")
unfolding can_vote
vote_free n args h = ground (arith, eq_iff n.voted_for "", eq_iff n.voted_for args.candidate_id)

abbrev vote_of : RequestVoteArgs → VoteReply → List Ballot
vote_of args reply =
    if reply.vote_granted
    then record { term = reply.term; candidate = args.candidate_id } ∷ []
    else []

cast_vote-Effect :
    (args : RequestVoteArgs) (n : Node)
    → args.candidate_id ≢ ""
    → Effect n (cast_vote args n).0 (vote_of args (cast_vote args n).1)
unfolding cast_vote
cast_vote-Effect args n named = elim (Bool-cases (can_vote n args)) [
  | inl yea ↦ rw yea (stored refl refl (inr (refl, vote_free n args yea)) (inr (refl, named)))
  | inr nay ↦ rw nay (stored refl refl (inr (refl, inl refl)) (inl refl))
]

adopt_term-Start : (t : ℕ) (n : Node) → Start n (adopt_term t n)
unfolding adopt_term
adopt_term-Start t n = ground arith

handle_request_vote-Effect :
    (args : RequestVoteArgs) (n : Node)
    → args.candidate_id ≢ ""
    → Effect n (handle_request_vote args n).0 (vote_of args (handle_request_vote args n).1)
unfolding handle_request_vote
handle_request_vote-Effect args n named = elim (Bool-cases (ltb args.term n.current_term)) [
  | inl old ↦ rw old (quiet refl refl refl refl)
  | inr new ↦ rw new (
      Effect-after n (adopt_term args.term n) _ _ (adopt_term-Start args.term n)
        (cast_vote-Effect args (adopt_term args.term n) named))
]

follow-Start : (t : ℕ) (l : String) (n : Node) → Start n (follow t l n)
unfolding follow
follow-Start t l n = ground arith

accept-Effect : (args : AppendEntriesArgs) (n : Node) → Effect n (accept args n).0 []
unfolding accept
accept-Effect args n = stored refl refl (ground arith) (inl refl)

check_previous-Effect :
    (args : AppendEntriesArgs) (n : Node) → Effect n (check_previous args n).0 []
unfolding check_previous
check_previous-Effect args n = elim (Bool-cases (args.prev_log_index == 0)) [
  | inl at_start ↦ rw at_start (accept-Effect args n)
  | inr later ↦ rw later (elim (Bool-cases (ltb (last_index n.log) args.prev_log_index)) [
    | inl missing ↦ rw missing (quiet refl refl refl refl)
    | inr there ↦
        rw there (elim (Bool-cases (term_at n.log args.prev_log_index == args.prev_log_term)) [
          | inl same ↦ rw same (accept-Effect args n)
          | inr other ↦ rw other (quiet refl refl refl refl)
        ])
  ])
]

handle_append_entries-Effect :
    (args : AppendEntriesArgs) (n : Node) → Effect n (handle_append_entries args n).0 []
unfolding handle_append_entries
handle_append_entries-Effect args n = elim (Bool-cases (ltb args.term n.current_term)) [
  | inl old ↦ rw old (quiet refl refl refl refl)
  | inr new ↦ rw new (
      Effect-after n (follow args.term args.leader_id n) _ _
        (follow-Start args.term args.leader_id n)
        (check_previous-Effect args (follow args.term args.leader_id n)))
]

install-Effect :
    (args : InstallSnapshotArgs) (o : Option ClusterState) (n : Node)
    → Effect n (install args o n) []
unfolding install
install-Effect args none n = quiet refl refl refl refl
install-Effect args (some fsm) n = stored refl refl (inr (refl, inl refl)) (inl refl)

handle_install_snapshot-Effect :
    (json : Json) (args : InstallSnapshotArgs) (n : Node)
    → Effect n (handle_install_snapshot json args n).0 []
unfolding handle_install_snapshot
handle_install_snapshot-Effect json args n = elim (Bool-cases (ltb args.term n.current_term)) [
  | inl old ↦ rw old (quiet refl refl refl refl)
  | inr new ↦
      let followed = follow args.term args.leader_id n in
      rw new (
        Effect-after n followed _ _ (follow-Start args.term args.leader_id n)
          (install-Effect args (restore json args.snapshot followed.fsm) followed))
]

stand-Effect : (n : Node) → n.current_term + 1 < 2 ^ 64 → Effect n (stand n) []
unfolding stand
stand-Effect n fits = raised (omega arith) refl refl

observe_term-Effect :
    (t : ℕ) (n : Node) → Effect n (if ltb n.current_term t then observe_term t n else n) []
unfolding observe_term
observe_term-Effect t n = elim (Bool-cases (ltb n.current_term t)) [
  | inl up ↦ rw up (raised (ltb→lt _ _ up) refl refl)
  | inr low ↦ rw low (quiet refl refl refl refl)
]

restart-Effect : (json : Json) (n n' : Node) → restart json n ≡ some n' → Effect n n' []
restart-Effect json n n' up =
    let (term_read, vote_read, kept) = restart-fields json n n' up in
    lost term_read vote_read kept refl

-- Every event of a node that comes up again has one of the four effects, and its vote belongs to it.
pub handle-Effect :
    (json : Json) (e : Event) (n n' : Node)
    → IsFair e n
    → handle json e n ≡ some n'
    → Effect n n' (ballot e n)
unfolding handle ballot
handle-Effect json (request_vote args) n n' fair up =
    subst (λ m. Effect n m (ballot (request_vote args) n)) (some_inj up)
      (handle_request_vote-Effect args n fair)
handle-Effect json (append_entries args) n n' fair up =
    subst (λ m. Effect n m []) (some_inj up) (handle_append_entries-Effect args n)
handle-Effect json (install_snapshot args) n n' fair up =
    subst (λ m. Effect n m []) (some_inj up) (handle_install_snapshot-Effect json args n)
handle-Effect json campaign n n' fair up =
    subst (λ m. Effect n m []) (some_inj up) (stand-Effect n fair)
handle-Effect json (save p) n n' (term_now, vote_now) up =
    subst (λ m. Effect n m []) (some_inj up)
      (stored term_now vote_now (inr (refl, inl refl)) (inl refl))
handle-Effect json ask n n' (named, own, term_saved, vote_saved) up =
    subst (λ m. Effect n m (ballot ask n)) (some_inj up)
      (stored term_saved vote_saved (inr (refl, inl refl)) (
        inr (
          ap (λ c. record { term = n.current_term; candidate = c } ∷ []) (sym own),
          λ e. named (sym own ∙ e),
        )))
handle-Effect json (higher_term t) n n' fair up =
    subst (λ m. Effect n m []) (some_inj up) (observe_term-Effect t n)
handle-Effect json crash n n' fair up = restart-Effect json n n' up
