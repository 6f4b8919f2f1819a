-- ===== src/Raft/Fsm/Replicas.antt =====
-- Two servers that apply the same entries by clocks of their own (pkg/raft/fsm.go and node.go).
use prisn.Base.{ℕ, ◌≡◌, refl, sym, ap, ◌∙◌, Option, none, some, get_or, List, [], ◌∷◌}
use mathlib.Core.Option
use prisn.Raft.Types.{
  LogEntry, LogEntryType, log_noop, log_deployment_create, log_deployment_update,
  log_deployment_delete, log_deployment_activate, log_scheduler_assign, log_scheduler_unassign,
  log_node_join, log_node_leave, log_scale_change, log_secret_create, log_secret_delete,
}
use prisn.Raft.Fsm.{ClusterState, Json, assign, unassign, decoded, dispatch, applied_at, apply}
use prisn.Raft.Fsm.Untimed.{
  untimed, midnight, untimed-create_or_update, untimed-delete_deployment, untimed-activate,
  untimed-scale_change, untimed-node_join, untimed-node_leave,
}
use prisn.Base.{arith}
use prisn.Raft.Node.{Node, add_to_cluster_config, remove_from_cluster_config}
use prisn.Raft.Node.Apply.{apply_entry, apply_entries, membership_change}

untimed-decoded :
    {C : Type 0} (o : Option C) (f g : C → ClusterState → ClusterState) (s : ClusterState)
    → ((c : C) → untimed (f c s) ≡ g c (untimed s))
    → Option.map untimed (decoded o f s) ≡ decoded o g (untimed s)
unfolding decoded
untimed-decoded none f g s h = refl
untimed-decoded (some c) f g s h = ap some (h c)

untimed-dispatch :
    (json : Json) (now : ℕ → ℕ) (kind : LogEntryType) (c : List ℕ) (s : ClusterState)
    → Option.map untimed (dispatch json now kind c s) ≡ dispatch json midnight kind c (untimed s)
unfolding dispatch assign unassign
untimed-dispatch json now log_noop c s = refl
untimed-dispatch json now log_deployment_create c s =
    untimed-decoded (json.deployment c) _ _ s λ cmd. untimed-create_or_update now cmd s
untimed-dispatch json now log_deployment_update c s =
    untimed-decoded (json.deployment c) _ _ s λ cmd. untimed-create_or_update now cmd s
untimed-dispatch json now log_deployment_delete c s =
    untimed-decoded (json.deployment c) _ _ s λ cmd. untimed-delete_deployment cmd s
untimed-dispatch json now log_deployment_activate c s =
    untimed-decoded (json.deployment c) _ _ s λ cmd. untimed-activate cmd s
untimed-dispatch json now log_scheduler_assign c s =
    untimed-decoded (json.assignment c) assign assign s λ cmd. refl
untimed-dispatch json now log_scheduler_unassign c s =
    untimed-decoded (json.assignment c) unassign unassign s λ cmd. refl
untimed-dispatch json now log_node_join c s =
    untimed-decoded (json.node c) _ _ s λ cmd. untimed-node_join now cmd s
untimed-dispatch json now log_node_leave c s =
    untimed-decoded (json.node c) _ _ s λ cmd. untimed-node_leave cmd s
untimed-dispatch json now log_scale_change c s =
    untimed-decoded (json.deployment c) _ _ s λ cmd. untimed-scale_change now cmd s
untimed-dispatch json now log_secret_create c s = refl
untimed-dispatch json now log_secret_delete c s = refl

untimed-applied_at :
    (i : ℕ) (o : Option ClusterState)
    → Option.map untimed (applied_at i o) ≡ applied_at i (Option.map untimed o)
unfolding applied_at
untimed-applied_at i none = refl
untimed-applied_at i (some s) = refl

untimed-apply :
    (json : Json) (now : ℕ → ℕ) (e : LogEntry) (s : ClusterState)
    → Option.map untimed (apply json now e s) ≡ apply json midnight e (untimed s)
unfolding apply
untimed-apply json now e s =
    untimed-applied_at e.index (dispatch json now e.kind e.command s)
    ∙ ap (applied_at e.index) (untimed-dispatch json now e.kind e.command s)

untimed-get_or :
    (o : Option ClusterState) (s : ClusterState)
    → untimed (get_or o s) ≡ get_or (Option.map untimed o) (untimed s)
untimed-get_or none s = refl
untimed-get_or (some t) s = refl

fsm-membership_change :
    (json : Json) (kind : LogEntryType) (bytes : List ℕ) (n : Node)
    → (membership_change json kind bytes n).fsm ≡ n.fsm
unfolding membership_change add_to_cluster_config remove_from_cluster_config
fsm-membership_change json kind bytes n = ground arith

-- What one entry does to the state machine of a node, the times left out.
untimed-apply_entry :
    (json : Json) (now : ℕ → ℕ → ℕ) (e : LogEntry) (n : Node)
    → untimed (apply_entry json now e n).fsm
      ≡ get_or (apply json midnight e (untimed n.fsm)) (untimed n.fsm)
unfolding apply_entry
untimed-apply_entry json now e n =
    ap untimed (fsm-membership_change json e.kind e.command _)
    ∙ untimed-get_or (apply json (now e.index) e n.fsm) n.fsm
    ∙ ap (λ o. get_or o (untimed n.fsm)) (untimed-apply json (now e.index) e n.fsm)

-- Two nodes whose state machines agree up to their times, and that apply the same entries by clocks
-- of their own, end with state machines that agree up to their times.
pub replicas_agree :
    (json : Json) (now now' : ℕ → ℕ → ℕ) (es : List LogEntry) (n m : Node)
    → untimed n.fsm ≡ untimed m.fsm
    → untimed (apply_entries json now es n).fsm ≡ untimed (apply_entries json now' es m).fsm
unfolding apply_entries
replicas_agree json now now' [] n m h = h
replicas_agree json now now' (e ∷ es) n m h =
    replicas_agree json now now' es (apply_entry json now e n) (apply_entry json now' e m) (
      untimed-apply_entry json now e n
      ∙ ap (λ s. get_or (apply json midnight e s) s) h
      ∙ sym (untimed-apply_entry json now' e m))
