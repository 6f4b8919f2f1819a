-- ===== src/Auth/Examples.antt =====
-- A small table of tokens, and the theorems on tokens at it.
use prisn.Base.{
  ℕ, ◌+◌, ◌*◌, ◌^◌, ◌≡◌, refl, ap, ◌∙◌, inl, inr, ◌⊎◌, Option, none, some, some_inj, List, [], ◌∷◌,
  ◌++◌, Bool, true, false, ◌&&◌, if◌then◌else◌, String, str_eq, arith, Bool-cases,
}
use prisn.Base.Text.{Text, codes, same_text}
use prisn.Auth.{
  Role, role_admin, role_developer, role_viewer, other_role, resource_job, action_list, can,
  parse_role, Token, Random, token_prefix,
}
use prisn.Auth.Table.{TokenRow}
use prisn.Auth.Access.{
  Request, AuthResult, authenticated, authenticate, served, refused, middleware, bearer,
  legacy_token, require_permission,
}
use prisn.Auth.Tokens.{
  CreateTokenRequest, Reply, answer, Parsers, handle_create_token, handle_revoke_token,
  parse_expiry,
}
use prisn.Auth.Admission.{IsAdmitted, rows_read, middleware-IsAdmitted}
use prisn.Auth.Lifetime.{handle_revoke_token-IsFinal}
use prisn.Auth.Login.{login}
use prisn.Auth.Settled.{delete, serve, serve-refused}

abbrev boss_row : TokenRow
boss_row = record {
  id = "boss";
  name = "the operator";
  secret_hash = "hash of boss";
  role = role_admin;
  namespaces = some ("*" ∷ []);
  created_at = 0;
  expires_at = none;
  revoked_at = none;
  created_by = "";
}

abbrev reader_row : TokenRow
reader_row = record boss_row {
  id = "reader";
  secret_hash = "hash of reader";
  role = role_viewer;
  namespaces = some ("shop" ∷ []);
  expires_at = some 900;
}

abbrev two_rows : List TokenRow
two_rows = boss_row ∷ reader_row ∷ []

abbrev boss : Token
boss = record {
  id = "boss";
  name = "the operator";
  secret_hash = "hash of boss";
  role = role_admin;
  namespaces = "*" ∷ [];
  created_at = 0;
  expires_at = none;
  revoked_at = none;
  created_by = "";
}

abbrev reader : Token
reader = record boss { id = "reader"; role = role_viewer }

-- A hash that knows one secret, and its comparison.
abbrev known : Text
known = codes "prisn_beef"

abbrev hash : Text → Option String
hash s = if same_text s known then some "hash of beef" else none

abbrev compare : String → Text → Bool
compare h s =
    if str_eq h "hash of beef"
    then same_text s known
    else if str_eq h "hash of boss"
    then same_text s (codes "b")
    else false

compare-hash : (s : Text) (h : String) → hash s ≡ some h → compare h s ≡ true
compare-hash s h e = elim (Bool-cases (same_text s known)) [
  | inl same ↦ let this : "hash of beef" ≡ h = some_inj (ground (arith, e, same)) in rw⁻¹ this same
  | inr other ↦ absurd (ground (arith, e, other))
]

abbrev parsers : Parsers
parsers = record {
  parse_duration = λ text. none;
  scan_int = λ text. if same_text text (codes "7") then some 7 else none;
  hash = hash;
}

seven_days : parse_expiry parsers (codes "7d") ≡ some (7 * 24 * 3600 * 10 ^ 9)
unfolding parse_expiry same_text
seven_days = refl

abbrev drawn : Random
drawn = record { token_id = "cafe"; secret_part = codes "beef" }

abbrev wanted : CreateTokenRequest
wanted = record { name = "ci"; role = codes "Developer"; namespaces = "shop" ∷ []; expires_in = [] }

any_case : parse_role (codes "Developer") ≡ some role_developer
unfolding parse_role same_text prisn.Base.Text.to_lower
any_case = refl

abbrev with_new_row : List TokenRow
with_new_row = (handle_create_token parsers (some drawn) 5 (some boss) (some wanted) two_rows).rows

created_status :
    (handle_create_token parsers (some drawn) 5 (some boss) (some wanted) two_rows).status ≡ 201
unfolding handle_create_token prisn.Auth.Tokens.unless prisn.Auth.Tokens.given prisn.Auth.Tokens.may
    can prisn.Auth.role_permissions prisn.Auth.has_permission prisn.Auth.has_action
    prisn.Auth.same_action prisn.Auth.Tokens.check_request same_text parse_role
    prisn.Base.Text.to_lower prisn.Auth.Tokens.is_nil prisn.Auth.Tokens.namespaces_allowed
    prisn.Auth.Tokens.issue prisn.Auth.generate_token prisn.Auth.Tokens.expiry
    prisn.Auth.Tokens.keep prisn.Auth.Table.create_token prisn.Auth.Table.has_id
created_status = refl

not_known : same_text known (codes "b") ≡ false
unfolding same_text
not_known = refl

not_master : same_text known (codes "master") ≡ false
unfolding same_text
not_master = refl

login_example :
    (t : Token) × (authenticate compare
        (codes "master")
        1000
        (some with_new_row)
        (codes "Bearer prisn_beef")
      ≡ authenticated t)
    × (t.id ≡ "cafe")
    × (parse_role (codes "Developer") ≡ some t.role)
    × (t.namespaces ≡ "shop" ∷ [])
login_example =
    login parsers compare drawn boss wanted two_rows (codes "master") 5 1000 compare-hash
      (not_known, (refl, tt)) not_master refl created_status

abbrev list_all : Request
list_all = record {
  path = "/api/v1/deployments";
  authorization = codes "Bearer b";
  namespace_query = "";
}

boss_is_served :
    middleware compare (codes "master") 7 (some two_rows) true list_all ≡ served (some boss)
unfolding middleware authenticate same_text prisn.Auth.Access.is_public_endpoint
    prisn.Auth.Access.secret_of prisn.Base.Text.has_prefix prisn.Auth.Access.find_token
    prisn.Auth.Access.admit prisn.Auth.Table.get_token_by_secret prisn.Auth.Table.is_active
    prisn.Auth.Table.token_of prisn.Auth.is_revoked prisn.Auth.is_expired
boss_is_served = refl

middleware-IsAdmitted_example :
    (t : Token) × (some boss ≡ some t)
    × IsAdmitted compare (codes "master") 7 (rows_read (some two_rows)) (codes "Bearer b") t
unfolding prisn.Auth.Access.is_public_endpoint
middleware-IsAdmitted_example =
    middleware-IsAdmitted compare (codes "master") 7 (some two_rows) true list_all (some boss) refl
      refl boss_is_served

revoke_reader : (handle_revoke_token 8 (some boss) "reader" two_rows).status ≡ 200
unfolding handle_revoke_token prisn.Auth.Tokens.unless prisn.Auth.Tokens.may can
    prisn.Auth.role_permissions prisn.Auth.has_permission prisn.Auth.has_action
    prisn.Auth.same_action prisn.Auth.Tokens.after_revoke prisn.Auth.Table.revoke_token
    prisn.Auth.Table.has_active prisn.Auth.Table.is_active
revoke_reader = refl

boss_stays :
    authenticate compare
      (codes "master")
      9
      (some (handle_revoke_token 8 (some boss) "reader" two_rows).rows)
      (codes "b")
    ≡ authenticated boss
unfolding handle_revoke_token prisn.Auth.Tokens.unless prisn.Auth.Tokens.may can
    prisn.Auth.role_permissions prisn.Auth.has_permission prisn.Auth.has_action
    prisn.Auth.same_action prisn.Auth.Tokens.after_revoke prisn.Auth.Table.revoke_token
    prisn.Auth.Table.has_active prisn.Auth.Table.is_active prisn.Auth.Table.revoke_rows authenticate
    same_text prisn.Auth.Access.secret_of prisn.Base.Text.has_prefix prisn.Auth.Access.find_token
    prisn.Auth.Access.admit prisn.Auth.Table.get_token_by_secret prisn.Auth.Table.token_of
    prisn.Auth.is_revoked prisn.Auth.is_expired
boss_stays = refl

handle_revoke_token-IsFinal_example : (boss ≡ legacy_token) ⊎ (str_eq "boss" "reader" ≡ false)
handle_revoke_token-IsFinal_example =
    handle_revoke_token-IsFinal (some boss) "reader" two_rows compare (codes "master") (codes "b") 8
      9 boss revoke_reader boss_stays

abbrev one_revoked : List TokenRow
one_revoked = boss_row ∷ record reader_row { revoked_at = some 8 } ∷ []

viewer≢admin : ¬ role_viewer ≡ role_admin
viewer≢admin e = absurd cc

reader_is_no_admin : (t : Token) → some reader ≡ some t → ¬ t.role ≡ role_admin
reader_is_no_admin t e same =
    let this : reader ≡ t = some_inj e in viewer≢admin (ap (λ u. u.role) this ∙ same)

serve-refused_example : serve parsers (delete (some reader) "boss") two_rows ≡ answer 403 two_rows
serve-refused_example =
    serve-refused parsers (delete (some reader) "boss") two_rows reader_is_no_admin
