-- ===== src/Auth.antt =====
-- pkg/auth/auth.go: roles, what they may do, and tokens. A text that is looked into is a list of its
-- bytes; times count nanoseconds since the zero time.
pub mod Roles
pub mod Table
pub mod Access
pub mod Tokens
pub mod Admission
pub mod Guards
pub mod Lifetime
pub mod Issue
pub mod Login
pub mod Settled
pub mod Governed
pub mod Examples
use prisn.Base.{
  ℕ, Option, none, some, List, [], ◌∷◌, ◌++◌, Bool, true, false, ◌||◌, not, ltb, leb, if◌then◌else◌,
  String, str_eq, length, take, drop, ◌-◌,
}
use prisn.Base.Text.{Text, codes, same_text, to_lower}

-- `Role` is a string in the source: other texts may come from the database.
pub data Role : Type 0 where
  role_admin role_developer role_viewer : Role
  other_role : Text → Role

pub data Resource : Type 0 where
  resource_deployment resource_job resource_cron_job resource_execution : Resource
  resource_namespace resource_token resource_secret : Resource

pub data Action : Type 0 where
  action_create action_read action_update action_delete action_list action_logs action_scale :
      Action

abbrev pub all_but_scale : List Action
all_but_scale = action_create ∷ action_read ∷ action_update ∷ action_delete ∷ action_list ∷ []

abbrev pub read_only : List Action
read_only = action_read ∷ action_list ∷ []

abbrev pub admin_permissions : Resource → Option (List Action)
admin_permissions resource_deployment = some (all_but_scale ++ action_scale ∷ [])
admin_permissions resource_execution = some (read_only ++ action_logs ∷ [])
admin_permissions _ = some all_but_scale

abbrev pub developer_permissions : Resource → Option (List Action)
developer_permissions resource_deployment = some (all_but_scale ++ action_scale ∷ [])
developer_permissions resource_job = some all_but_scale
developer_permissions resource_cron_job = some all_but_scale
developer_permissions resource_execution = some (read_only ++ action_logs ∷ [])
developer_permissions resource_secret = some all_but_scale
developer_permissions _ = none

abbrev pub viewer_permissions : Resource → Option (List Action)
viewer_permissions resource_deployment = some read_only
viewer_permissions resource_job = some read_only
viewer_permissions resource_cron_job = some read_only
viewer_permissions resource_execution = some (read_only ++ action_logs ∷ [])
viewer_permissions _ = none

unfoldable pub role_permissions : Role → Option (Resource → Option (List Action))
role_permissions role_admin = some admin_permissions
role_permissions role_developer = some developer_permissions
role_permissions role_viewer = some viewer_permissions
role_permissions (other_role name) = none

unfoldable pub same_action : Action → Action → Bool
same_action action_create action_create = true
same_action action_read action_read = true
same_action action_update action_update = true
same_action action_delete action_delete = true
same_action action_list action_list = true
same_action action_logs action_logs = true
same_action action_scale action_scale = true
same_action _ _ = false

-- for _, a := range actions
unfoldable pub has_action : Action → List Action → Bool
has_action action [] = false
has_action action (a ∷ actions) = same_action a action || has_action action actions

unfoldable pub has_permission : Action → Option (List Action) → Bool
has_permission action none = false
has_permission action (some actions) = has_action action actions

unfoldable pub can : Role → Action → Resource → Bool
unfolding has_permission
can role action resource = elim (role_permissions role) [
  | none ↦ false
  | some permissions ↦ has_permission action (permissions resource)
]

unfoldable pub parse_role : Text → Option Role
parse_role text =
    let s = to_lower text in
    if same_text s (codes "admin")
    then some role_admin
    else if same_text s (codes "developer")
    then some role_developer
    else if same_text s (codes "viewer")
    then some role_viewer
    else none

pub record Token : Type 0 where
  pub id : String
  pub name : String
  pub secret_hash : String
  pub role : Role
  pub namespaces : List String
  pub created_at : ℕ
  pub expires_at : Option ℕ
  pub revoked_at : Option ℕ
  pub created_by : String

unfoldable pub is_revoked : Token → Bool
is_revoked t = elim t.revoked_at [ none ↦ false | some _ ↦ true ]

-- now.After(*t.ExpiresAt)
unfoldable pub is_expired : ℕ → Token → Bool
is_expired now t = elim t.expires_at [ none ↦ false | some e ↦ ltb e now ]

unfoldable pub covers : String → List String → Bool
covers namespace [] = false
covers namespace (ns ∷ rest) = str_eq ns "*" || str_eq ns namespace || covers namespace rest

unfoldable pub has_namespace_access : Token → String → Bool
unfolding covers
has_namespace_access t namespace = covers namespace t.namespaces

unfoldable pub can_perform : ℕ → Token → Action → Resource → String → Bool
can_perform now t action resource namespace =
    if is_revoked t || is_expired now t
    then false
    else if not (has_namespace_access t namespace)
    then false
    else can t.role action resource

-- TokenPrefix
abbrev pub token_prefix : Text
token_prefix = codes "prisn_"

-- What crypto/rand gives, in hexadecimal: the identifier and the secret's part.
pub record Random : Type 0 where
  pub token_id : String
  pub secret_part : Text

-- GenerateToken, with the hash of bcrypt; `none` where the random source or the hash fails.
unfoldable pub generate_token :
    (hash : Text → Option String)
    → Option Random
    → ℕ
    → String
    → Role
    → List String
    → Option (Token × Text)
generate_token hash none now name role namespaces = none
generate_token hash (some r) now name role namespaces =
    let secret = token_prefix ++ r.secret_part in
    elim (hash secret) [
      | none ↦ none
      | some h ↦ some (
        record {
          id = r.token_id;
          name = name;
          secret_hash = h;
          role = role;
          namespaces = namespaces;
          created_at = now;
          expires_at = none;
          revoked_at = none;
          created_by = "";
        },
        secret,
      )
    ]
