-- ===== src/Auth/Table.antt =====
-- pkg/store/store.go: the table of tokens. The SQL statements are read as what they say on the rows of
-- the table, in one order; the texts of the errors are kept, since a handler looks at them.
use prisn.Base.{
  ℕ, Option, none, some, List, [], ◌∷◌, ◌++◌, Bool, true, false, not, ◌||◌, if◌then◌else◌, String,
  str_eq,
}
use prisn.Base.Text.{Text, codes}
use prisn.Auth.{Role, Token}

-- A row: TokenRecord, with what its JSON text of namespaces decodes to.
pub record TokenRow : Type 0 where
  pub id : String
  pub name : String
  pub secret_hash : String
  pub role : Role
  pub namespaces : Option (List String)
  pub created_at : ℕ
  pub expires_at : Option ℕ
  pub revoked_at : Option ℕ
  pub created_by : String

pub data StoreError : Type 0 where
  not_found : StoreError
  other_error : Text → StoreError

-- ErrAlreadyRevoked
abbrev pub already_revoked : StoreError
already_revoked = other_error (codes "already revoked")

pub data Stored : Type 0 where
  stored : List TokenRow → Stored
  store_failed : StoreError → Stored

unfoldable pub is_active : TokenRow → Bool
is_active row = elim row.revoked_at [ none ↦ true | some _ ↦ false ]

unfoldable pub has_id : String → List TokenRow → Bool
has_id id [] = false
has_id id (row ∷ rows) = str_eq row.id id || has_id id rows

-- INSERT, which the primary key may refuse
unfoldable pub create_token : TokenRow → List TokenRow → Stored
unfolding has_id
create_token row rows =
    if has_id row.id rows
    then store_failed (other_error (codes "failed to insert token"))
    else stored (rows ++ row ∷ [])

-- UPDATE ... WHERE id = ? AND revoked_at IS NULL
unfoldable pub revoke_rows : String → ℕ → List TokenRow → List TokenRow
unfolding is_active
revoke_rows id now [] = []
revoke_rows id now (row ∷ rows) =
    let rest = revoke_rows id now rows in
    if str_eq row.id id
    then (if is_active row then record row { revoked_at = some now } ∷ rest else row ∷ rest)
    else row ∷ rest

unfoldable pub has_active : String → List TokenRow → Bool
unfolding is_active
has_active id [] = false
has_active id (row ∷ rows) =
    let rest = has_active id rows in
    if str_eq row.id id then (if is_active row then true else rest) else rest

unfoldable pub revoke_token : String → ℕ → List TokenRow → Stored
unfolding revoke_rows has_active has_id
revoke_token id now rows =
    if has_active id rows
    then stored (revoke_rows id now rows)
    else if has_id id rows
    then store_failed already_revoked
    else store_failed not_found

-- DELETE ... WHERE id = ?
unfoldable pub delete_rows : String → List TokenRow → List TokenRow
delete_rows id [] = []
delete_rows id (row ∷ rows) =
    let rest = delete_rows id rows in if str_eq row.id id then rest else row ∷ rest

unfoldable pub delete_token : String → List TokenRow → Stored
unfolding has_id delete_rows
delete_token id rows =
    if has_id id rows then stored (delete_rows id rows) else store_failed not_found

unfoldable pub token_of : TokenRow → List String → Token
token_of row namespaces = record {
  id = row.id;
  name = row.name;
  secret_hash = row.secret_hash;
  role = row.role;
  namespaces = namespaces;
  created_at = row.created_at;
  expires_at = row.expires_at;
  revoked_at = row.revoked_at;
  created_by = row.created_by;
}

-- GetTokenBySecret, with the comparison of bcrypt
unfoldable pub get_token_by_secret :
    (compare : String → Text → Bool) → Text → List TokenRow → Option Token
unfolding token_of is_active
get_token_by_secret compare secret [] = none
get_token_by_secret compare secret (row ∷ rows) =
    let rest = get_token_by_secret compare secret rows in
    if not (is_active row)
    then rest
    else if compare row.secret_hash secret
    then elim row.namespaces [ none ↦ rest | some ns ↦ some (token_of row ns) ]
    else rest
