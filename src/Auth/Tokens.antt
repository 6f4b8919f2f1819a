-- ===== src/Auth/Tokens.antt =====
-- pkg/api/tokens.go: creation, revocation and deletion of tokens, as functions of the table. The body
-- of a request is given decoded; the parsers of durations and bcrypt are parameters.
use prisn.Base.{
  ℕ, ◌+◌, ◌-◌, ◌*◌, ◌%◌, ◌^◌, Option, none, some, List, [], ◌∷◌, Bool, true, false, not, ◌&&◌, ltb,
  if◌then◌else◌, String, str_eq, length, take, drop,
}
use prisn.Base.Text.{Text, codes, same_text}
use prisn.Auth.{
  Role, role_admin, Token, resource_token, Action, action_create, action_update, action_delete, can,
  parse_role, Random, generate_token,
}
use prisn.Auth.Table.{
  TokenRow, StoreError, not_found, other_error, Stored, stored, store_failed, create_token,
  revoke_token, delete_token,
}

pub record CreateTokenRequest : Type 0 where
  pub name : String
  pub role : Text
  pub namespaces : List String
  pub expires_in : Text

-- What a handler answers and leaves, with the secret it gives out.
pub record Reply : Type 0 where
  pub status : ℕ
  pub rows : List TokenRow
  pub secret : Option Text

abbrev pub answer : ℕ → List TokenRow → Reply
answer status rows = record { status = status; rows = rows; secret = none }

-- The value of an option, or an answer.
unfoldable pub given : {A : Type 0} → ℕ → List TokenRow → Option A → (A → Reply) → Reply
given status rows none f = answer status rows
given status rows (some a) f = f a

-- if err != nil
unfoldable pub unless : ℕ → List TokenRow → Bool → Reply → Reply
unless status rows true reply = answer status rows
unless status rows false reply = reply

unfoldable pub may : Option Token → Action → Bool
may none action = false
may (some caller) action = can caller.role action resource_token

abbrev pub is_admin : Role → Bool
is_admin role_admin = true
is_admin _ = false

-- The loop over the namespaces finds none that is refused.
unfoldable pub namespaces_allowed : Role → List String → Bool
namespaces_allowed role [] = true
namespaces_allowed role (ns ∷ rest) =
    let others = namespaces_allowed role rest in
    if str_eq ns "*" && not (is_admin role) then false else others

-- 24 * time.Hour
abbrev pub day_length : ℕ
day_length = 24 * 3600000000000

-- What the libraries make of texts: time.ParseDuration and Sscanf with "%d", as bit patterns, and
-- bcrypt.
pub record Parsers : Type 0 where
  pub parse_duration : Text → Option ℕ
  pub scan_int : Text → Option ℕ
  pub hash : Text → Option String

ends_in_d : Text → Bool
ends_in_d text = same_text (drop (length text - 1) text) (b'd' ∷ [])

in_days : Option ℕ → Option ℕ
in_days none = none
in_days (some d) = some (d * day_length % 2 ^ 64)

unfoldable pub parse_expiry : Parsers → Text → Option ℕ
unfolding ends_in_d in_days
parse_expiry ps text = elim (ps.parse_duration text) [
  | some d ↦ some d
  | none ↦
      if ltb 1 (length text) && ends_in_d text
      then in_days (ps.scan_int (take (length text - 1) text))
      else none
]

-- now.Add(dur)
abbrev pub later : ℕ → ℕ → ℕ
later now dur = if ltb dur (2 ^ 63) then now + dur else now - (2 ^ 64 - dur)

-- newToken.ExpiresAt, or an error
unfoldable pub expiry : Parsers → ℕ → Text → Option (Option ℕ)
expiry ps now [] = some none
expiry ps now (c ∷ cs) = elim (parse_expiry ps (c ∷ cs)) [
  | none ↦ none
  | some dur ↦ some (some (later now dur))
]

unfoldable pub row_of : Token → Option ℕ → String → TokenRow
row_of t expires creator = record {
  id = t.id;
  name = t.name;
  secret_hash = t.secret_hash;
  role = t.role;
  namespaces = some t.namespaces;
  created_at = t.created_at;
  expires_at = expires;
  revoked_at = none;
  created_by = creator;
}

unfoldable pub keep : List TokenRow → Text → Stored → Reply
keep rows secret (stored rows') = record { status = 201; rows = rows'; secret = some secret }
keep rows secret (store_failed e) = answer 500 rows

-- After the checks of the request
unfoldable pub issue :
    Parsers → Option Random → ℕ → Token → CreateTokenRequest → Role → List TokenRow → Reply
unfolding expiry row_of keep given
issue ps random now caller req role rows =
    given 500 rows (generate_token ps.hash random now req.name role req.namespaces) (λ made.
      given 400 rows (expiry ps now req.expires_in)
        (λ expires. keep rows made.1 (create_token (row_of made.0 expires caller.id) rows)))

unfoldable pub is_nil : List String → Bool
is_nil [] = true
is_nil (ns ∷ rest) = false

unfoldable pub check_request :
    Parsers → Option Random → ℕ → Token → CreateTokenRequest → List TokenRow → Reply
unfolding is_nil namespaces_allowed issue given unless
check_request ps random now caller req rows = unless 400 rows (str_eq req.name "") (
    unless 400 rows (same_text req.role []) (
      given 400 rows (parse_role req.role) (λ role. unless 400 rows (is_nil req.namespaces) (
        unless 400 rows (not (namespaces_allowed role req.namespaces))
          (issue ps random now caller req role rows)))))

-- `none` for the body is one that JSON does not decode.
unfoldable pub handle_create_token :
    Parsers → Option Random → ℕ → Option Token → Option CreateTokenRequest → List TokenRow → Reply
unfolding may check_request given unless
handle_create_token ps random now none body rows = answer 403 rows
handle_create_token ps random now (some caller) body rows =
    unless 403 rows (not (may (some caller) action_create))
      (given 400 rows body (λ req. check_request ps random now caller req rows))

-- What the error's text says to handleRevokeToken
unfoldable pub is_revoked_before : StoreError → Bool
is_revoked_before not_found = false
is_revoked_before (other_error text) = same_text text (codes "token already revoked")

unfoldable pub after_revoke : List TokenRow → Stored → Reply
unfolding is_revoked_before
after_revoke rows (stored rows') = answer 200 rows'
after_revoke rows (store_failed e) =
    if is_revoked_before e then answer 409 rows else answer 404 rows

unfoldable pub handle_revoke_token : ℕ → Option Token → String → List TokenRow → Reply
unfolding may after_revoke unless
handle_revoke_token now none id rows = answer 403 rows
handle_revoke_token now (some caller) id rows =
    unless 403 rows (not (may (some caller) action_update)) (
      unless 400 rows (str_eq id "")
        (unless 400 rows (str_eq caller.id id) (after_revoke rows (revoke_token id now rows))))

unfoldable pub after_delete : List TokenRow → Stored → Reply
after_delete rows (stored rows') = answer 204 rows'
after_delete rows (store_failed e) = answer 404 rows

unfoldable pub handle_delete_token : Option Token → String → List TokenRow → Reply
unfolding may after_delete unless
handle_delete_token none id rows = answer 403 rows
handle_delete_token (some caller) id rows =
    unless 403 rows (not (may (some caller) action_delete)) (
      unless 400 rows (str_eq id "")
        (unless 400 rows (str_eq caller.id id) (after_delete rows (delete_token id rows))))
