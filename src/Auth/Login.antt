-- ===== src/Auth/Login.antt =====
-- The secret of a new token, presented to the server.
use prisn.Base.{
  ℕ, ◌≡◌, refl, ap, ◌∙◌, sym, subst, Option, none, some, some_inj, List, [], ◌∷◌, ◌++◌, Bool, true,
  false, String, arith,
}
use prisn.Base.Text.{Text, same_text, has_prefix}
use prisn.Auth.{Token, Random, parse_role, is_revoked, is_expired, token_prefix}
use prisn.Auth.Table.{TokenRow, get_token_by_secret, token_of, is_active}
use prisn.Auth.Access.{authenticated, authenticate, find_token, admit, secret_of, bearer}
use prisn.Auth.Tokens.{CreateTokenRequest, handle_create_token, expiry, Parsers}
use prisn.Auth.Issue.{new_row, handle_create_token-IsIssued}

-- No row has this secret.
abbrev pub AreOther : (String → Text → Bool) → Text → List TokenRow → Type 0
AreOther compare secret [] = Unit
AreOther compare secret (row ∷ rows) =
    (compare row.secret_hash secret ≡ false) × AreOther compare secret rows

get_token_by_secret-append :
    (compare : String → Text → Bool) (secret : Text) (rows more : List TokenRow)
    → AreOther compare secret rows
    → get_token_by_secret compare secret (rows ++ more) ≡ get_token_by_secret compare secret more
unfolding get_token_by_secret
get_token_by_secret-append compare secret [] more h = refl
get_token_by_secret-append compare secret (row ∷ rows) more (other, h) =
    ground (arith, other, get_token_by_secret-append compare secret rows more h)

secret_of-bearer : (s : Text) → secret_of (bearer ++ s) ≡ s
unfolding secret_of has_prefix
secret_of-bearer s = refl

authenticate-bearer :
    (compare : String → Text → Bool) (api_key : Text) (now : ℕ) (db : Option (List TokenRow))
    (s : Text)
    → same_text s api_key ≡ false
    → authenticate compare api_key now db (bearer ++ s) ≡ find_token compare now s db
unfolding authenticate
authenticate-bearer compare api_key now db s other = rw (secret_of-bearer s) (ground (arith, other))

find_token-append :
    (compare : String → Text → Bool) (now : ℕ) (s : Text) (rows : List TokenRow) (row : TokenRow)
    → AreOther compare s rows
    → find_token compare now s (some (rows ++ row ∷ []))
      ≡ admit now (get_token_by_secret compare s (row ∷ []))
unfolding find_token
find_token-append compare now s rows row h =
    ap (admit now) (get_token_by_secret-append compare s rows (row ∷ []) h)

-- A new row that does not expire is found by its secret and is good.
find_new :
    (compare : String → Text → Bool) (secret : Text) (now : ℕ) (row : TokenRow) (ns : List String)
    → compare row.secret_hash secret ≡ true
    → row.namespaces ≡ some ns
    → row.revoked_at ≡ none
    → row.expires_at ≡ none
    → (admit now (get_token_by_secret compare secret (row ∷ []))
        ≡ authenticated (record (token_of row ns) { created_by = "" }))
unfolding get_token_by_secret is_active admit is_revoked is_expired token_of
find_new compare secret now row ns same readable active eternal =
    rw (active, same, readable) (rw (active, eternal) refl)

expiry-none :
    (ps : Parsers) (now : ℕ) (text : Text) (e : Option ℕ)
    → text ≡ []
    → expiry ps now text ≡ some e
    → e ≡ none
unfolding expiry
expiry-none ps now [] e empty h = some_inj (sym h)
expiry-none ps now (c ∷ cs) e empty h = absurd cc

-- Where bcrypt accepts the secret that it has hashed, no row has that secret yet, it is not the server's
-- own key and no expiry is asked for: after status 201, the secret given out, behind "Bearer ",
-- authenticates at any time as a token with the new identifier, the role and the namespaces requested.
pub login :
    (ps : Parsers) (compare : String → Text → Bool) (r : Random) (caller : Token)
    (req : CreateTokenRequest) (rows : List TokenRow) (api_key : Text) (created now : ℕ)
    → ((s : Text) (h : String) → ps.hash s ≡ some h → compare h s ≡ true)
    → AreOther compare (token_prefix ++ r.secret_part) rows
    → same_text (token_prefix ++ r.secret_part) api_key ≡ false
    → req.expires_in ≡ []
    → (handle_create_token ps (some r) created (some caller) (some req) rows).status ≡ 201
    → (t : Token) × (authenticate compare api_key now
          (some (handle_create_token ps (some r) created (some caller) (some req) rows).rows)
          (bearer ++ token_prefix ++ r.secret_part)
        ≡ authenticated t)
      × (t.id ≡ r.token_id)
      × (parse_role req.role ≡ some t.role)
      × (t.namespaces ≡ req.namespaces)
login ps compare r caller req rows api_key created now accepts others own eternal h =
    let reply = handle_create_token ps (some r) created (some caller) (some req) rows in
    let secret = token_prefix ++ r.secret_part in
    let k = handle_create_token-IsIssued ps (some r) created caller req rows h in
    let same : r ≡ k.r = some_inj k.drawn in
    let hash_of : ps.hash secret ≡ some k.hashed =
      subst (λ q. ps.hash (token_prefix ++ q.secret_part) ≡ some k.hashed) (sym same) k.hash_of in
    let row = new_row r created caller.id req k.role k.hashed k.expires in
    let all : reply.rows ≡ rows ++ row ∷ [] =
      k.all_rows
      ∙ ap (λ q. rows ++ new_row q created caller.id req k.role k.hashed k.expires ∷ [])
          (sym same) in
    let found =
      find_new compare secret now row req.namespaces (accepts secret k.hashed hash_of) refl refl
        (expiry-none ps created req.expires_in k.expires eternal k.expiry_of) in
    (
      record (token_of row req.namespaces) { created_by = "" },
      authenticate-bearer compare api_key now (some reply.rows) secret own
          ∙ ap (λ x. find_token compare now secret (some x)) all
          ∙ find_token-append compare now secret rows row others
          ∙ found,
      unfold token_of in refl,
      unfold token_of in k.known_role,
      unfold token_of in refl,
    )
