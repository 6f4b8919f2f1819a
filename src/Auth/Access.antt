-- ===== src/Auth/Access.antt =====
-- pkg/api/auth.go and the middleware of pkg/api/server.go: who is let in. The limiter of a client's
-- rate and the comparison of bcrypt are given.
use prisn.Base.{
  ℕ, Option, none, some, List, [], ◌∷◌, Bool, true, false, not, ◌&&◌, ◌||◌, if◌then◌else◌, String,
  str_eq, drop, length,
}
use prisn.Base.Text.{Text, codes, same_text, has_prefix}
use prisn.Auth.{role_admin, Token, Resource, Action, is_revoked, is_expired, can_perform}
use prisn.Auth.Table.{TokenRow, get_token_by_secret}

pub record Request : Type 0 where
  pub path : String
  pub authorization : Text
  pub namespace_query : String

pub data AuthResult : Type 0 where
  auth_error no_token : AuthResult
  authenticated : Token → AuthResult

abbrev pub is_empty : Text → Bool
is_empty [] = true
is_empty (c ∷ cs) = false

abbrev pub bearer : Text
bearer = codes "Bearer "

unfoldable pub secret_of : Text → Text
secret_of header = if has_prefix header bearer then drop (length bearer) header else header

-- What a holder of the key of the configuration is.
abbrev pub legacy_token : Token
legacy_token = record {
  id = "legacy-api-key";
  name = "Legacy API Key";
  secret_hash = "";
  role = role_admin;
  namespaces = "*" ∷ [];
  created_at = 0;
  expires_at = none;
  revoked_at = none;
  created_by = "";
}

-- A token without its creator, which Authenticate does not copy, if it is good now.
unfoldable pub admit : ℕ → Option Token → AuthResult
admit now none = no_token
admit now (some t) =
    if is_revoked t || is_expired now t
    then no_token
    else authenticated (record t { created_by = "" })

-- `none` for the rows is a query that fails.
unfoldable pub find_token : (String → Text → Bool) → ℕ → Text → Option (List TokenRow) → AuthResult
unfolding admit
find_token compare now secret none = auth_error
find_token compare now secret (some rows) = admit now (get_token_by_secret compare secret rows)

unfoldable pub authenticate :
    (compare : String → Text → Bool)
    → (api_key : Text) → (now : ℕ) → Option (List TokenRow)
    → (header : Text) → AuthResult
unfolding secret_of find_token
authenticate compare api_key now rows header =
    if is_empty header
    then no_token
    else if not (is_empty api_key) && same_text (secret_of header) api_key
    then authenticated legacy_token
    else find_token compare now (secret_of header) rows

unfoldable pub is_public_endpoint : String → Bool
is_public_endpoint path = str_eq path "/health" || str_eq path "/metrics"

-- An answer of the middleware itself, or the handler runs, with the token of the context.
pub data Decision : Type 0 where
  refused : (status : ℕ) → Decision
  served : Option Token → Decision

-- A request that has no token
unfoldable pub unidentified : Text → Text → Decision
unidentified api_key header =
    if not (is_empty header)
    then refused 401
    else if not (is_empty api_key)
    then refused 401
    else served none

unfoldable pub middleware :
    (compare : String → Text → Bool)
    → (api_key : Text) → (now : ℕ) → Option (List TokenRow)
    → (allowed : Bool) → Request
    → Decision
unfolding authenticate is_public_endpoint unidentified
middleware compare api_key now rows allowed r =
    if not allowed
    then refused 429
    else if is_public_endpoint r.path
    then served none
    else elim (authenticate compare api_key now rows r.authorization) [
      | auth_error ↦ refused 500
      | no_token ↦ unidentified api_key r.authorization
      | authenticated t ↦ served (some t)
    ]

-- RequireAuth
unfoldable pub require_auth :
    (compare : String → Text → Bool)
    → (api_key : Text) → (now : ℕ) → Option (List TokenRow)
    → Request
    → Decision
require_auth compare api_key now rows r =
    if is_public_endpoint r.path
    then served none
    else elim (authenticate compare api_key now rows r.authorization) [
      | auth_error ↦ refused 500
      | no_token ↦ refused 401
      | authenticated t ↦ served (some t)
    ]

unfoldable pub extract_namespace : Request → String
extract_namespace r = if str_eq r.namespace_query "" then "default" else r.namespace_query

-- RequirePermission, on the token of the context
unfoldable pub require_permission : Action → Resource → ℕ → Request → Option Token → Decision
unfolding extract_namespace
require_permission action resource now r none = refused 401
require_permission action resource now r (some t) =
    if not (can_perform now t action resource (extract_namespace r))
    then refused 403
    else served (some t)
