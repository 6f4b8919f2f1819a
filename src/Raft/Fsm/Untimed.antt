-- ===== src/Raft/Fsm/Untimed.antt =====
-- The operations of Raft/Fsm.antt on a state whose times are left out.
use prisn.Base.{
  ℕ, ◌≡◌, refl, sym, ap, ◌∙◌, inl, inr, String, Option, none, some, get_or, List, [], ◌∷◌, ◌++◌,
  map, Bool-cases,
}
use mathlib.Core.Option
use prisn.Base.Dict.{
  Dict, lookup, insert, map_values, lookup-map_values, map_values-insert, map_values-erase,
}
use prisn.Raft.Types.{NodeInfo}
use prisn.Raft.Fsm.{
  VersionMeta, DeploymentMeta, ClusterState, DeploymentCommand, NodeCommand, deployment_key,
  active_version, new_version, new_deployment, deactivate, activate_only, update_deployment,
  add_version, is_new_version, upsert, create_or_update, delete_deployment, activate_found,
  activate, node_join, node_leave, scale_found, scale_change,
}

abbrev untimed_version : VersionMeta → VersionMeta
untimed_version v = record v { created_at = 0 }

abbrev untimed_deployment : DeploymentMeta → DeploymentMeta
untimed_deployment d = record d {
  versions = map untimed_version d.versions;
  created_at = 0;
  updated_at = 0;
}

abbrev untimed_node : NodeInfo → NodeInfo
untimed_node i = record i { joined_at = 0; last_seen = 0 }

-- The state without its times.
abbrev pub untimed : ClusterState → ClusterState
untimed s = record s {
  deployments = map_values untimed_deployment s.deployments;
  nodes = map_values untimed_node s.nodes;
}

abbrev pub midnight : ℕ → ℕ
midnight i = 0

cons_same : {v : VersionMeta} {vs ws : List VersionMeta} → vs ≡ ws → v ∷ vs ≡ v ∷ ws
cons_same {v} e = ap (λ us. v ∷ us) e

untimed-deactivate :
    (vs : List VersionMeta)
    → map untimed_version (map deactivate vs) ≡ map deactivate (map untimed_version vs)
unfolding deactivate
untimed-deactivate [] = refl
untimed-deactivate (v ∷ vs) = cons_same (untimed-deactivate vs)

untimed-activate_only :
    (a : String) (vs : List VersionMeta)
    → map untimed_version (map (activate_only a) vs)
      ≡ map (activate_only a) (map untimed_version vs)
unfolding activate_only
untimed-activate_only a [] = refl
untimed-activate_only a (v ∷ vs) = cons_same (untimed-activate_only a vs)

map-append_one :
    (vs : List VersionMeta) (v : VersionMeta)
    → map untimed_version (vs ++ v ∷ []) ≡ map untimed_version vs ++ untimed_version v ∷ []
map-append_one [] v = refl
map-append_one (w ∷ vs) v = cons_same (map-append_one vs v)

-- the deployments and the active versions are replaced
put : Dict DeploymentMeta → Dict String → ClusterState → ClusterState
put ds av s = record s { deployments = ds; active_versions = av }

untimed-put :
    (key : String) (d : DeploymentMeta) (av : Dict String) (s : ClusterState)
    → untimed (put (insert key d s.deployments) av s)
      ≡ put (insert key (untimed_deployment d) (untimed s).deployments) av (untimed s)
unfolding put
untimed-put key d av s =
    ap (λ ds. put ds av (untimed s)) (map_values-insert untimed_deployment key d s.deployments)

put_same :
    (key : String) {d e : DeploymentMeta} (av : Dict String) (s : ClusterState)
    → d ≡ e
    → put (insert key d s.deployments) av s ≡ put (insert key e s.deployments) av s
put_same key av s h = ap (λ x. put (insert key x s.deployments) av s) h

untimed-versions :
    (now : ℕ) (cmd : DeploymentCommand) (vs : List VersionMeta)
    → map untimed_version (map deactivate vs ++ new_version now cmd ∷ [])
      ≡ map deactivate (map untimed_version vs) ++ new_version 0 cmd ∷ []
unfolding new_version
untimed-versions now cmd vs =
    map-append_one (map deactivate vs) (new_version now cmd)
    ∙ ap (λ us. us ++ new_version 0 cmd ∷ []) (untimed-deactivate vs)

untimed-add_version :
    (now later : ℕ) (cmd : DeploymentCommand) (d : DeploymentMeta)
    → untimed_deployment (add_version later cmd (update_deployment now cmd d))
      ≡ add_version 0 cmd (update_deployment 0 cmd (untimed_deployment d))
unfolding add_version update_deployment
untimed-add_version now later cmd d =
    ap (λ vs. record (update_deployment 0 cmd (untimed_deployment d)) { versions = vs })
      (untimed-versions later cmd d.versions)

untimed-update :
    (now : ℕ) (cmd : DeploymentCommand) (d : DeploymentMeta)
    → untimed_deployment (update_deployment now cmd d)
      ≡ update_deployment 0 cmd (untimed_deployment d)
unfolding update_deployment
untimed-update now cmd d = refl

-- `put` at a key, with the deployment that the untimed state has there
untimed-put_as :
    (key : String) (d d' : DeploymentMeta) (av : Dict String) (s : ClusterState)
    → untimed_deployment d ≡ d'
    → untimed (put (insert key d s.deployments) av s)
      ≡ put (insert key d' (untimed s).deployments) av (untimed s)
untimed-put_as key d d' av s e = untimed-put key d av s ∙ put_same key av (untimed s) e

untimed-upsert :
    (now : ℕ → ℕ) (cmd : DeploymentCommand) (key : String) (o : Option DeploymentMeta)
    (s : ClusterState)
    → untimed (upsert now cmd key o s)
      ≡ upsert midnight cmd key (Option.map untimed_deployment o) (untimed s)
unfolding upsert put new_deployment new_version active_version
untimed-upsert now cmd key none s = untimed-put key (new_deployment now cmd) _ s
untimed-upsert now cmd key (some d) s =
    elim (Bool-cases (is_new_version cmd.version (get_or (lookup key s.active_versions) ""))) [
      | inl new ↦ rw new (untimed-put_as key _ _ _ s (untimed-add_version (now 0) (now 1) cmd d))
      | inr old ↦ rw old (untimed-put_as key _ _ s.active_versions s (untimed-update (now 0) cmd d))
    ]

pub untimed-create_or_update :
    (now : ℕ → ℕ) (cmd : DeploymentCommand) (s : ClusterState)
    → untimed (create_or_update now cmd s) ≡ create_or_update midnight cmd (untimed s)
unfolding create_or_update
untimed-create_or_update now cmd s =
    let key = deployment_key cmd.namespace cmd.name in
    untimed-upsert now cmd key (lookup key s.deployments) s
    ∙ ap (λ o. upsert midnight cmd key o (untimed s))
        (sym (lookup-map_values untimed_deployment key s.deployments))

pub untimed-delete_deployment :
    (cmd : DeploymentCommand) (s : ClusterState)
    → untimed (delete_deployment cmd s) ≡ delete_deployment cmd (untimed s)
unfolding delete_deployment
untimed-delete_deployment cmd s =
    let key = deployment_key cmd.namespace cmd.name in
    ap (λ ds. record (delete_deployment cmd (untimed s)) { deployments = ds })
      (map_values-erase untimed_deployment key s.deployments)

untimed-activate_found :
    (version key : String) (o : Option DeploymentMeta) (s : ClusterState)
    → untimed (activate_found version key o s)
      ≡ activate_found version key (Option.map untimed_deployment o) (untimed s)
unfolding activate_found put
untimed-activate_found version key none s = refl
untimed-activate_found version key (some d) s = untimed-put_as key _ _ _ s (
    ap (λ vs. record (untimed_deployment d) { versions = vs })
      (untimed-activate_only version d.versions))

pub untimed-activate :
    (cmd : DeploymentCommand) (s : ClusterState)
    → untimed (activate cmd s) ≡ activate cmd (untimed s)
unfolding activate
untimed-activate cmd s =
    let key = deployment_key cmd.namespace cmd.name in
    untimed-activate_found cmd.version key (lookup key s.deployments) s
    ∙ ap (λ o. activate_found cmd.version key o (untimed s))
        (sym (lookup-map_values untimed_deployment key s.deployments))

untimed-scale_found :
    (now : ℕ) (cmd : DeploymentCommand) (key : String) (o : Option DeploymentMeta)
    (s : ClusterState)
    → untimed (scale_found now cmd key o s)
      ≡ scale_found 0 cmd key (Option.map untimed_deployment o) (untimed s)
unfolding scale_found put
untimed-scale_found now cmd key none s = refl
untimed-scale_found now cmd key (some d) s = untimed-put_as key _ _ s.active_versions s refl

pub untimed-scale_change :
    (now : ℕ → ℕ) (cmd : DeploymentCommand) (s : ClusterState)
    → untimed (scale_change now cmd s) ≡ scale_change midnight cmd (untimed s)
unfolding scale_change
untimed-scale_change now cmd s =
    let key = deployment_key cmd.namespace cmd.name in
    untimed-scale_found (now 0) cmd key (lookup key s.deployments) s
    ∙ ap (λ o. scale_found 0 cmd key o (untimed s))
        (sym (lookup-map_values untimed_deployment key s.deployments))

pub untimed-node_join :
    (now : ℕ → ℕ) (cmd : NodeCommand) (s : ClusterState)
    → untimed (node_join now cmd s) ≡ node_join midnight cmd (untimed s)
unfolding node_join
untimed-node_join now cmd s =
    ap (λ ns. record (untimed s) { nodes = ns })
      (map_values-insert untimed_node cmd.node_id _ s.nodes)

pub untimed-node_leave :
    (cmd : NodeCommand) (s : ClusterState) → untimed (node_leave cmd s) ≡ node_leave cmd (untimed s)
unfolding node_leave
untimed-node_leave cmd s =
    ap (λ ns. record (untimed s) { nodes = ns }) (map_values-erase untimed_node cmd.node_id s.nodes)
