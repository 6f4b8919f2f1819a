-- ===== src/Raft/Fsm/Active.antt =====
-- Which version of a deployment is active: the flags in `Versions` against `ActiveVersions`.
use prisn.Base.{
  String, ◌≡◌, refl, ap, subst, ◌∙◌, Option, none, some, Bool, false, str_eq, ◌&&◌, ◌||◌, arith,
  List, [], ◌∷◌, ◌++◌, map, true, eq_iff, get_or, Bool-cases, inl, inr, ℕ,
}
use prisn.Base.Dict.{
  lookup, insert, lookup-insert, lookup-erase, lookup-insert_inv, lookup-erase_inv,
}
use prisn.Raft.Types.{
  LogEntry, LogEntryType, log_deployment_create, log_deployment_update, log_deployment_delete,
  log_deployment_activate, log_scheduler_assign, log_scheduler_unassign, log_node_join,
  log_node_leave, log_scale_change,
}
use prisn.Raft.Fsm.{
  DeploymentCommand, DeploymentMeta, VersionMeta, ClusterState, Json, active_version,
  deployment_key, deactivate, activate_only, create_or_update, delete_deployment, activate,
  scale_change, dispatch, apply, new_deployment, update_deployment, add_version, is_new_version,
  upsert, activate_found, scale_found, decoded, assign, unassign, node_join, node_leave, applied_at,
}

-- A version with the id `a` is there.
unfoldable pub is_named : String → List VersionMeta → Bool
is_named a [] = false
is_named a (v ∷ vs) = str_eq v.id a || is_named a vs

-- A version with the id `a` is there and flagged active.
unfoldable pub is_flagged : String → List VersionMeta → Bool
is_flagged a [] = false
is_flagged a (v ∷ vs) = str_eq v.id a && v.active || is_flagged a vs

-- Every version that is flagged active is the version `a`.
abbrev pub OnlyActive : String → List VersionMeta → Type 0
OnlyActive a [] = Unit
OnlyActive a (v ∷ vs) = (v.active ≡ true → v.id ≡ a) × OnlyActive a vs

-- No other version than `a` is flagged active, and if `a` is there, it is flagged.
abbrev pub ActiveAre : String → List VersionMeta → Type 0
ActiveAre a vs = OnlyActive a vs × (is_named a vs ≡ true → is_flagged a vs ≡ true)

pub record IsActive (s : ClusterState) : Type 0 where
  pub agree :
      (k : String) (d : DeploymentMeta)
      → lookup k s.deployments ≡ some d
      → ActiveAre (active_version s k) d.versions

OnlyActive-deactivate : (a : String) (vs : List VersionMeta) → OnlyActive a (map deactivate vs)
unfolding deactivate
OnlyActive-deactivate a [] = tt
OnlyActive-deactivate a (v ∷ vs) = (λ h. cc, OnlyActive-deactivate a vs)

OnlyActive-activate_only :
    (a : String) (vs : List VersionMeta) → OnlyActive a (map (activate_only a) vs)
unfolding activate_only
OnlyActive-activate_only a [] = tt
OnlyActive-activate_only a (v ∷ vs) = (λ h. (eq_iff v.id a).0 h, OnlyActive-activate_only a vs)

is_flagged-activate_only :
    (a : String) (vs : List VersionMeta)
    → is_flagged a (map (activate_only a) vs) ≡ is_named a (map (activate_only a) vs)
unfolding activate_only is_named is_flagged
is_flagged-activate_only a [] = refl
is_flagged-activate_only a (v ∷ vs) = ground (arith, is_flagged-activate_only a vs)

ActiveAre-activate_only :
    (a : String) (vs : List VersionMeta) → ActiveAre a (map (activate_only a) vs)
ActiveAre-activate_only a vs =
    (OnlyActive-activate_only a vs, λ h. is_flagged-activate_only a vs ∙ h)

OnlyActive-append :
    (a : String) (vs : List VersionMeta) (v : VersionMeta)
    → OnlyActive a vs
    → (v.active ≡ true → v.id ≡ a)
    → OnlyActive a (vs ++ v ∷ [])
OnlyActive-append a [] v h hv = (hv, tt)
OnlyActive-append a (w ∷ vs) v h hv = (h.0, OnlyActive-append a vs v h.1 hv)

is_flagged-append :
    (a : String) (vs : List VersionMeta) (v : VersionMeta)
    → v.id ≡ a
    → v.active ≡ true
    → is_flagged a (vs ++ v ∷ []) ≡ true
unfolding is_flagged
is_flagged-append a [] v named flagged =
    let e = (eq_iff v.id a).1 named in ground (arith, e, flagged)
is_flagged-append a (w ∷ vs) v named flagged =
    ground (arith, is_flagged-append a vs v named flagged)

-- A version that is flagged is added as the version `a`, and those before it are not.
ActiveAre-append :
    (a : String) (vs : List VersionMeta) (v : VersionMeta)
    → OnlyActive a vs
    → v.id ≡ a
    → v.active ≡ true
    → ActiveAre a (vs ++ v ∷ [])
ActiveAre-append a vs v only named flagged =
    (OnlyActive-append a vs v only (λ _. named), λ _. is_flagged-append a vs v named flagged)

-- A deployment is stored with its active version.
set-IsActive :
    (k a : String) (d : DeploymentMeta) (s : ClusterState)
    → ActiveAre a d.versions
    → IsActive s
    → IsActive (record s {
      deployments = insert k d s.deployments;
      active_versions = insert k a s.active_versions;
    })
unfolding active_version
set-IsActive k a d s h w = record {
  agree = λ j e found. elim (lookup-insert_inv k j d s.deployments found) [
    | inl (same, stored) ↦
        rw (lookup-insert k j a s.active_versions, same)
          (subst (λ x. ActiveAre a x.versions) stored h)
    | inr (other, old) ↦ rw (lookup-insert k j a s.active_versions, other) (w.agree j e old)
  ];
}

-- A deployment is stored and its active version stays.
put-IsActive :
    (k : String) (d : DeploymentMeta) (s : ClusterState)
    → ActiveAre (active_version s k) d.versions
    → IsActive s
    → IsActive (record s { deployments = insert k d s.deployments })
unfolding active_version
put-IsActive k d s h w = record {
  agree = λ j e found. elim (lookup-insert_inv k j d s.deployments found) [
    | inl (same, stored) ↦
        subst (λ x. ActiveAre (active_version s j) x.versions) stored
          (subst (λ x. ActiveAre (active_version s x) d.versions) ((eq_iff k j).0 same) h)
    | inr (other, old) ↦ w.agree j e old
  ];
}

upsert-IsActive :
    (now : ℕ → ℕ) (cmd : DeploymentCommand) (k : String) (o : Option DeploymentMeta)
    (s : ClusterState)
    → lookup k s.deployments ≡ o
    → IsActive s
    → IsActive (upsert now cmd k o s)
unfolding upsert new_deployment update_deployment add_version
upsert-IsActive now cmd k none s e w =
    set-IsActive k cmd.version _ s (ActiveAre-append cmd.version [] _ tt refl refl) w
upsert-IsActive now cmd k (some d) s e w =
    elim (Bool-cases (is_new_version cmd.version (active_version s k))) [
      | inl new ↦ rw new (
          set-IsActive k cmd.version _ s
            (ActiveAre-append cmd.version (map deactivate d.versions) _
              (OnlyActive-deactivate cmd.version d.versions) refl refl)
            w)
      | inr known ↦ rw known (put-IsActive k _ s (w.agree k d e) w)
    ]

activate_found-IsActive :
    (version k : String) (o : Option DeploymentMeta) (s : ClusterState)
    → IsActive s
    → IsActive (activate_found version k o s)
unfolding activate_found
activate_found-IsActive version k none s w = w
activate_found-IsActive version k (some d) s w =
    set-IsActive k version _ s (ActiveAre-activate_only version d.versions) w

scale_found-IsActive :
    (now : ℕ) (cmd : DeploymentCommand) (k : String) (o : Option DeploymentMeta) (s : ClusterState)
    → lookup k s.deployments ≡ o
    → IsActive s
    → IsActive (scale_found now cmd k o s)
unfolding scale_found
scale_found-IsActive now cmd k none s e w = w
scale_found-IsActive now cmd k (some d) s e w = put-IsActive k _ s (w.agree k d e) w

delete_deployment-IsActive :
    (cmd : DeploymentCommand) (s : ClusterState) → IsActive s → IsActive (delete_deployment cmd s)
unfolding delete_deployment active_version
delete_deployment-IsActive cmd s w = record {
  agree = λ j e found.
      let key = deployment_key cmd.namespace cmd.name in
      let (other, old) = lookup-erase_inv key j s.deployments found in
      rw (lookup-erase key j s.active_versions, other) (w.agree j e old);
}

IsActive-of_fields :
    (s t : ClusterState)
    → s.deployments ≡ t.deployments
    → s.active_versions ≡ t.active_versions
    → IsActive s
    → IsActive t
unfolding active_version
IsActive-of_fields s t e f w = record {
  agree = λ k d found.
      subst (λ m. ActiveAre (get_or (lookup k m) "") d.versions) f
        (w.agree k d (ap (lookup k) e ∙ found));
}

-- `o` is an error, or a state in which the flags agree.
abbrev pub Keeps : Option ClusterState → Type 0
Keeps none = Unit
Keeps (some s) = IsActive s

decoded-Keeps :
    {C : Type 0} (o : Option C) (f : C → ClusterState → ClusterState) (s : ClusterState)
    → ((c : C) → IsActive (f c s))
    → Keeps (decoded o f s)
unfolding decoded
decoded-Keeps none f s h = tt
decoded-Keeps (some c) f s h = h c

dispatch-IsActive :
    (json : Json) (now : ℕ → ℕ) (kind : LogEntryType) (bytes : List ℕ) (s : ClusterState)
    → IsActive s
    → Keeps (dispatch json now kind bytes s)
unfolding dispatch create_or_update activate assign unassign node_join node_leave scale_change
dispatch-IsActive json now log_deployment_create c s w =
    decoded-Keeps (json.deployment c) (create_or_update now) s
      λ cmd. upsert-IsActive now cmd _ _ s refl w
dispatch-IsActive json now log_deployment_update c s w =
    decoded-Keeps (json.deployment c) (create_or_update now) s
      λ cmd. upsert-IsActive now cmd _ _ s refl w
dispatch-IsActive json now log_deployment_delete c s w =
    decoded-Keeps (json.deployment c) delete_deployment s λ cmd. delete_deployment-IsActive cmd s w
dispatch-IsActive json now log_deployment_activate c s w =
    decoded-Keeps (json.deployment c) activate s λ cmd. activate_found-IsActive cmd.version _ _ s w
dispatch-IsActive json now log_scheduler_assign c s w =
    decoded-Keeps (json.assignment c) assign s λ cmd. IsActive-of_fields s _ refl refl w
dispatch-IsActive json now log_scheduler_unassign c s w =
    decoded-Keeps (json.assignment c) unassign s λ cmd. IsActive-of_fields s _ refl refl w
dispatch-IsActive json now log_node_join c s w =
    decoded-Keeps (json.node c) (node_join now) s λ cmd. IsActive-of_fields s _ refl refl w
dispatch-IsActive json now log_node_leave c s w =
    decoded-Keeps (json.node c) node_leave s λ cmd. IsActive-of_fields s _ refl refl w
dispatch-IsActive json now log_scale_change c s w =
    decoded-Keeps (json.deployment c) (scale_change now) s
      λ cmd. scale_found-IsActive (now 0) cmd _ _ s refl w
dispatch-IsActive json now _ c s w = w

applied_at-Keeps : (index : ℕ) (o : Option ClusterState) → Keeps o → Keeps (applied_at index o)
unfolding applied_at
applied_at-Keeps index none k = tt
applied_at-Keeps index (some s) k = IsActive-of_fields s _ refl refl k

-- `Apply` keeps the flags of the versions in agreement with ActiveVersions, for every kind of entry and every
-- command, or fails: no other version than the one that ActiveVersions names is flagged active, and if
-- that one is among the versions of the deployment, it is flagged.
pub apply-IsActive :
    (json : Json) (now : ℕ → ℕ) (e : LogEntry) (s : ClusterState)
    → IsActive s
    → Keeps (apply json now e s)
unfolding apply
apply-IsActive json now e s w =
    applied_at-Keeps e.index _ (dispatch-IsActive json now e.kind e.command s w)
