-- ===== src/Auth/Roles.antt =====
-- How the roles are ordered by what they may do.
use prisn.Base.{◌≡◌, refl, ◌++◌, [], ◌∷◌, true, arith}
use prisn.Auth.{
  Role, role_admin, role_developer, role_viewer, other_role, Resource, resource_deployment,
  resource_job, resource_cron_job, resource_execution, resource_namespace, resource_token,
  resource_secret, Action, action_create, action_read, action_update, action_delete, action_list,
  action_logs, action_scale, role_permissions, read_only, all_but_scale, same_action, has_action,
  has_permission, can,
}

-- A viewer is below a developer, and a developer below an admin.
pub data IsBelow : Role → Role → Type 0 where
  viewer_developer : IsBelow role_viewer role_developer
  developer_admin : IsBelow role_developer role_admin
  viewer_admin : IsBelow role_viewer role_admin

-- What deployments allow an editor includes the rest.
has_action-append :
    (a : Action)
    → has_action a all_but_scale ≡ true
    → has_action a (all_but_scale ++ action_scale ∷ []) ≡ true
unfolding has_action same_action
has_action-append action_create h = refl
has_action-append action_read h = refl
has_action-append action_update h = refl
has_action-append action_delete h = refl
has_action-append action_list h = refl
has_action-append action_logs h = absurd (ground arith)
has_action-append action_scale h = refl

read_only-within : (a : Action) → has_action a read_only ≡ true → has_action a all_but_scale ≡ true
unfolding has_action same_action
read_only-within action_create h = refl
read_only-within action_read h = refl
read_only-within action_update h = refl
read_only-within action_delete h = refl
read_only-within action_list h = refl
read_only-within action_logs h = absurd (ground arith)
read_only-within action_scale h = absurd (ground arith)

viewer-within :
    (a : Action) (r : Resource) → can role_viewer a r ≡ true → can role_developer a r ≡ true
unfolding can has_permission has_action role_permissions
viewer-within a resource_deployment h = has_action-append a (read_only-within a h)
viewer-within a resource_job h = read_only-within a h
viewer-within a resource_cron_job h = read_only-within a h
viewer-within a resource_execution h = h
viewer-within a resource_namespace h = absurd (ground arith)
viewer-within a resource_token h = absurd (ground arith)
viewer-within a resource_secret h = absurd (ground arith)

developer-within :
    (a : Action) (r : Resource) → can role_developer a r ≡ true → can role_admin a r ≡ true
unfolding can has_permission role_permissions
developer-within a resource_deployment h = h
developer-within a resource_job h = h
developer-within a resource_cron_job h = h
developer-within a resource_execution h = h
developer-within a resource_namespace h = absurd (ground arith)
developer-within a resource_token h = absurd (ground arith)
developer-within a resource_secret h = h

-- Whatever a role may do on a resource, each role above it may do too.
pub can-IsBelow :
    {p q : Role} (a : Action) (r : Resource) → IsBelow p q → can p a r ≡ true → can q a r ≡ true
can-IsBelow a r viewer_developer h = viewer-within a r h
can-IsBelow a r developer_admin h = developer-within a r h
can-IsBelow a r viewer_admin h = developer-within a r (viewer-within a r h)

-- Only an admin may do anything with tokens.
pub can-admin_only : (p : Role) (a : Action) → can p a resource_token ≡ true → p ≡ role_admin
unfolding can has_permission has_action role_permissions
can-admin_only role_admin a h = refl
can-admin_only role_developer a h = absurd (ground arith)
can-admin_only role_viewer a h = absurd (ground arith)
can-admin_only (other_role t) a h = absurd (ground arith)
