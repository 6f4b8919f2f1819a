-- ===== src/Auth/Issue.antt =====
-- What the creation of a token leaves in the table.
use prisn.Base.{
  ℕ, ◌≡◌, refl, ap, ◌∙◌, sym, inl, inr, Option, none, some, some_inj, List, [], ◌∷◌, ◌++◌, Bool,
  true, false, not, String, str_eq, Bool-cases, Option-cases, arith,
}
use prisn.Base.Text.{Text, same_text}
use prisn.Auth.{action_create, Role, Token, Random, generate_token, parse_role, token_prefix}
use prisn.Auth.Table.{TokenRow, has_id, create_token}
use prisn.Auth.Tokens.{
  CreateTokenRequest, Reply, handle_create_token, check_request, issue, expiry, row_of, keep,
  Parsers, may, is_nil, namespaces_allowed, given, unless,
}
use prisn.Auth.Guards.{passed, passed_given}

-- the row of a token that is created for a request
abbrev pub new_row : Random → ℕ → String → CreateTokenRequest → Role → String → Option ℕ → TokenRow
new_row r now creator req role h expires = record {
  id = r.token_id;
  name = req.name;
  secret_hash = h;
  role = role;
  namespaces = some req.namespaces;
  created_at = now;
  expires_at = expires;
  revoked_at = none;
  created_by = creator;
}

-- How a reply with status 201 has come about.
pub record IsIssued (ps : Parsers) (random : Option Random) (now : ℕ) (caller : Token)
    (req : CreateTokenRequest) (rows : List TokenRow) (reply : Reply) : Type 0 where
  pub r : Random
  pub drawn : random ≡ some r
  pub role : Role
  pub hashed : String
  pub expires : Option ℕ
  pub permitted : may (some caller) action_create ≡ true
  pub known_role : parse_role req.role ≡ some role
  pub some_namespace : is_nil req.namespaces ≡ false
  pub no_wildcard : namespaces_allowed role req.namespaces ≡ true
  pub hash_of : ps.hash (token_prefix ++ r.secret_part) ≡ some hashed
  pub expiry_of : expiry ps now req.expires_in ≡ some expires
  pub fresh : has_id r.token_id rows ≡ false
  pub all_rows : reply.rows ≡ rows ++ new_row r now caller.id req role hashed expires ∷ []
  pub secret_given : reply.secret ≡ some (token_prefix ++ r.secret_part)

-- After the checks
record Kept (ps : Parsers) (random : Option Random) (now : ℕ) (caller : Token)
    (req : CreateTokenRequest) (role : Role) (rows : List TokenRow) (reply : Reply) : Type 0 where
  r : Random
  drawn : random ≡ some r
  hashed : String
  expires : Option ℕ
  hash_of : ps.hash (token_prefix ++ r.secret_part) ≡ some hashed
  expiry_of : expiry ps now req.expires_in ≡ some expires
  fresh : has_id r.token_id rows ≡ false
  all_rows : reply.rows ≡ rows ++ new_row r now caller.id req role hashed expires ∷ []
  secret_given : reply.secret ≡ some (token_prefix ++ r.secret_part)

keep-created :
    (rows : List TokenRow) (secret : Text) (row : TokenRow)
    → (keep rows secret (create_token row rows)).status ≡ 201
    → (has_id row.id rows ≡ false)
      × ((keep rows secret (create_token row rows)).rows ≡ rows ++ row ∷ [])
      × ((keep rows secret (create_token row rows)).secret ≡ some secret)
unfolding keep create_token
keep-created rows secret row h = elim (Bool-cases (has_id row.id rows)) [
  | inl taken ↦ absurd (ground (arith, h, taken))
  | inr free ↦ rw free (refl, refl, refl)
]

generated :
    (hash : Text → Option String) (random : Option Random) (now : ℕ) (name : String) (role : Role)
    (ns : List String) (made : Token × Text)
    → generate_token hash random now name role ns ≡ some made
    → (r : Random) × (random ≡ some r)
      × (h : String) × (hash (token_prefix ++ r.secret_part) ≡ some h)
      × (made ≡ (
        record {
          id = r.token_id;
          name = name;
          secret_hash = h;
          role = role;
          namespaces = ns;
          created_at = now;
          expires_at = none;
          revoked_at = none;
          created_by = "";
        },
        token_prefix ++ r.secret_part,
      ))
unfolding generate_token
generated hash none now name role ns made h = absurd (ground arith)
generated hash (some r) now name role ns made h =
    elim (Option-cases (hash (token_prefix ++ r.secret_part))) [
      | inl no_hash ↦ absurd (ground (arith, h, no_hash))
      | inr (hashed, e) ↦ (r, refl, hashed, e, some_inj (sym h ∙ rw (e, generate_token) refl))
    ]

abbrev pub stored_as : List TokenRow → String → Token × Text → Option ℕ → Reply
stored_as rows creator made expires =
    keep rows made.1 (create_token (row_of made.0 expires creator) rows)

issue-Kept :
    (ps : Parsers) (random : Option Random) (now : ℕ) (caller : Token) (req : CreateTokenRequest)
    (role : Role) (rows : List TokenRow)
    → (issue ps random now caller req role rows).status ≡ 201
    → Kept ps random now caller req role rows (issue ps random now caller req role rows)
unfolding issue row_of
issue-Kept ps random now caller req role rows h =
    let (made, g, e, h₁) =
      passed_given 500 201 rows (generate_token ps.hash random now req.name role req.namespaces)
        (λ made. given 400 rows (expiry ps now req.expires_in) (stored_as rows caller.id made))
        (omega arith) h in
    let (expires, e', e₁, h₂) =
      passed_given 400 201 rows (expiry ps now req.expires_in) (stored_as rows caller.id made)
        (omega arith) h₁ in
    let (r, drawn, hashed, hash_of, m) =
      generated ps.hash random now req.name role req.namespaces made g in
    let same = ap (λ p. stored_as rows caller.id p expires) m in
    let (fresh, all, secret) =
      keep-created rows (token_prefix ++ r.secret_part)
        (new_row r now caller.id req role hashed expires) (ap (λ x. x.status) (sym same) ∙ h₂) in
    record {
      r = r;
      drawn = drawn;
      hashed = hashed;
      expires = expires;
      hash_of = hash_of;
      expiry_of = e';
      fresh = fresh;
      all_rows = ap (λ x. x.rows) (e ∙ e₁ ∙ same) ∙ all;
      secret_given = ap (λ x. x.secret) (e ∙ e₁ ∙ same) ∙ secret;
    }

negated : (b : Bool) → not b ≡ false → b ≡ true
negated b h = ground arith

-- The checks behind that of the role
abbrev pub for_role :
    Parsers → Option Random → ℕ → Token → CreateTokenRequest → List TokenRow → Role → Reply
for_role ps random now caller req rows role = unless 400 rows (is_nil req.namespaces) (
    unless 400 rows (not (namespaces_allowed role req.namespaces))
      (issue ps random now caller req role rows))

-- What status 201 says of a creation.
pub handle_create_token-IsIssued :
    (ps : Parsers) (random : Option Random) (now : ℕ) (caller : Token) (req : CreateTokenRequest)
    (rows : List TokenRow)
    → (handle_create_token ps random now (some caller) (some req) rows).status ≡ 201
    → IsIssued ps random now caller req rows
        (handle_create_token ps random now (some caller) (some req) rows)
unfolding handle_create_token check_request given
handle_create_token-IsIssued ps random now caller req rows h =
    let with_role = for_role ps random now caller req rows in
    let with_name =
      unless 400 rows (same_text req.role []) (given 400 rows (parse_role req.role) with_role) in
    let (permitted, e₀, h₀) =
      passed 403 201 rows (not (may (some caller) action_create))
        (check_request ps random now caller req rows) (omega arith) h in
    let (_, e₁, h₁) = passed 400 201 rows (str_eq req.name "") with_name (omega arith) h₀ in
    let (_, e₂, h₂) =
      passed 400 201 rows (same_text req.role []) (given 400 rows (parse_role req.role) with_role)
        (omega arith) h₁ in
    let (role, known, e₃, h₃) =
      passed_given 400 201 rows (parse_role req.role) with_role (omega arith) h₂ in
    let (some_ns, e₄, h₄) =
      passed 400 201 rows (is_nil req.namespaces)
        (unless 400 rows (not (namespaces_allowed role req.namespaces))
          (issue ps random now caller req role rows))
        (omega arith) h₃ in
    let (wild, e₅, h₅) =
      passed 400 201 rows (not (namespaces_allowed role req.namespaces))
        (issue ps random now caller req role rows) (omega arith) h₄ in
    let k = issue-Kept ps random now caller req role rows h₅ in
    let same = e₀ ∙ e₁ ∙ e₂ ∙ e₃ ∙ e₄ ∙ e₅ in
    record {
      r = k.r;
      drawn = k.drawn;
      role = role;
      hashed = k.hashed;
      expires = k.expires;
      permitted = negated (may (some caller) action_create) permitted;
      known_role = known;
      some_namespace = some_ns;
      no_wildcard = negated (namespaces_allowed role req.namespaces) wild;
      hash_of = k.hash_of;
      expiry_of = k.expiry_of;
      fresh = k.fresh;
      all_rows = ap (λ x. x.rows) same ∙ k.all_rows;
      secret_given = ap (λ x. x.secret) same ∙ k.secret_given;
    }
