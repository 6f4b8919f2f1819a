-- ===== src/Raft/Node/Restart.antt =====
-- What a node has after `NewNode` has read its files again.
use prisn.Base.{some_inj, ◌≡◌, refl, subst, Option, none, some}
use mathlib.Core.Option
use prisn.Raft.Fsm.{Json, ClusterState}
use prisn.Raft.Node.{
  Node, PersistentState, disk_term, disk_vote, restart, load_persistent_state, load_saved, fresh,
  load_snapshot,
}

loaded-fields :
    (p : Option PersistentState) (n : Node) (fsm : ClusterState)
    → n.saved ≡ p
    → ((load_saved p (fresh n fsm)).current_term ≡ disk_term p)
      × ((load_saved p (fresh n fsm)).voted_for ≡ disk_vote p)
      × ((load_saved p (fresh n fsm)).saved ≡ n.saved)
unfolding load_saved fresh
loaded-fields none n fsm e = (refl, refl, refl)
loaded-fields (some p) n fsm e = (refl, refl, refl)

-- The term and the vote come from state.json, whatever was in memory.
pub restart-fields :
    (json : Json) (n n' : Node)
    → restart json n ≡ some n'
    → (n'.current_term ≡ disk_term n.saved)
      × (n'.voted_for ≡ disk_vote n.saved)
      × (n'.saved ≡ n.saved)
unfolding restart
restart-fields json n n' up = go (load_snapshot json n.snapshot_file) up
  where
    go :
        (o : Option ClusterState)
        → Option.map (λ fsm. load_persistent_state (fresh n fsm)) o ≡ some n'
        → (n'.current_term ≡ disk_term n.saved)
          × (n'.voted_for ≡ disk_vote n.saved)
          × (n'.saved ≡ n.saved)
    go none h = cc
    go (some fsm) h =
        subst
          (λ m.
            (m.current_term ≡ disk_term n.saved)
            × (m.voted_for ≡ disk_vote n.saved)
            × (m.saved ≡ n.saved))
          (some_inj h) (loaded-fields n.saved n fsm refl)
