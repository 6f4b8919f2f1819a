-- ===== src/Auth/Admission.antt =====
-- Whom the middleware lets in: the holders of good tokens, whatever their roles.
use prisn.Base.{
  ℕ, ◌≡◌, refl, sym, inl, inr, ◌⊎◌, Option, none, some, List, [], ◌∷◌, Bool, true, false, not, ◌&&◌,
  ◌||◌, String, Bool-cases, Option-cases, some_inj, subst, arith,
}
use prisn.Base.Text.{Text, same_text}
use prisn.Auth.{Token, is_revoked, is_expired}
use prisn.Auth.Table.{TokenRow, get_token_by_secret, token_of, is_active}
use prisn.Auth.Access.{
  Request, AuthResult, auth_error, no_token, authenticated, is_empty, secret_of, legacy_token,
  authenticate, served, middleware, is_public_endpoint, find_token, admit, unidentified,
}

-- One of the rows
pub data IsRow (row : TokenRow) : List TokenRow → Type 0 where
  here : {rows : List TokenRow} → IsRow row (row ∷ rows)
  there : {other : TokenRow} {rows : List TokenRow} → IsRow row rows → IsRow row (other ∷ rows)

-- What is known of a token that was found by a secret.
pub record IsHeld (compare : String → Text → Bool) (secret : Text) (rows : List TokenRow)
    (t : Token) : Type 0 where
  pub row : TokenRow
  pub is_row : IsRow row rows
  pub matches : compare row.secret_hash secret ≡ true
  pub active : row.revoked_at ≡ none
  pub same_id : t.id ≡ row.id
  pub same_role : t.role ≡ row.role
  pub same_namespaces : some t.namespaces ≡ row.namespaces
  pub same_expiry : t.expires_at ≡ row.expires_at

active→none : (row : TokenRow) → is_active row ≡ true → row.revoked_at ≡ none
unfolding is_active
active→none row h = ground arith

later_row :
    (compare : String → Text → Bool) (secret : Text) (row : TokenRow) (rows : List TokenRow)
    (t : Token)
    → IsHeld compare secret rows t
    → IsHeld compare secret (row ∷ rows) t
later_row compare secret row rows t h = record {
  row = h.row;
  is_row = there h.is_row;
  matches = h.matches;
  active = h.active;
  same_id = h.same_id;
  same_role = h.same_role;
  same_namespaces = h.same_namespaces;
  same_expiry = h.same_expiry;
}

row_found :
    (compare : String → Text → Bool) (secret : Text) (row : TokenRow) (rows : List TokenRow)
    (ns : List String)
    → is_active row ≡ true
    → compare row.secret_hash secret ≡ true
    → row.namespaces ≡ some ns
    → IsHeld compare secret (row ∷ rows) (token_of row ns)
unfolding token_of
row_found compare secret row rows ns on same readable = record {
  row = row;
  is_row = here;
  matches = same;
  active = active→none row on;
  same_id = refl;
  same_role = refl;
  same_namespaces = sym readable;
  same_expiry = refl;
}

get_token_by_secret-IsHeld :
    (compare : String → Text → Bool) (secret : Text) (rows : List TokenRow) (t : Token)
    → get_token_by_secret compare secret rows ≡ some t
    → IsHeld compare secret rows t
unfolding get_token_by_secret
get_token_by_secret-IsHeld compare secret [] t h = absurd (ground arith)
get_token_by_secret-IsHeld compare secret (row ∷ rows) t h = elim (Bool-cases (is_active row)) [
  | inr off ↦
      later_row compare secret row rows t
        (get_token_by_secret-IsHeld compare secret rows t (ground (arith, h, off)))
  | inl on ↦ elim (Bool-cases (compare row.secret_hash secret)) [
    | inr other ↦
        later_row compare secret row rows t
          (get_token_by_secret-IsHeld compare secret rows t (ground (arith, h, on, other)))
    | inl same ↦ elim (Option-cases row.namespaces) [
      | inl unreadable ↦ later_row compare secret row rows t (
          get_token_by_secret-IsHeld compare secret rows t
            (ground (arith, h, on, same, unreadable)))
      | inr (ns, readable) ↦
          subst (IsHeld compare secret (row ∷ rows))
            (some_inj (ground (arith, h, on, same, readable)))
            (row_found compare secret row rows ns on same readable)
    ]
  ]
]

-- Who may be let in with a header: the holder of the key of the configuration, or of a good token.
pub data IsAdmitted (compare : String → Text → Bool) (api_key : Text) (now : ℕ)
    (rows : List TokenRow) (header : Text) : Token → Type 0 where
  by_key :
      same_text (secret_of header) api_key ≡ true
      → IsAdmitted compare api_key now rows header legacy_token
  by_token :
      {t : Token}
      → IsHeld compare (secret_of header) rows t
      → is_expired now t ≡ false
      → IsAdmitted compare api_key now rows header (record t { created_by = "" })

admit-good :
    (now : ℕ) (t t' : Token)
    → admit now (some t) ≡ authenticated t'
    → (is_expired now t ≡ false) × (record t { created_by = "" } ≡ t')
unfolding admit
admit-good now t t' h = elim (Bool-cases (is_revoked t || is_expired now t)) [
  | inl bad ↦ absurd (ground (arith, h, bad))
  | inr fine ↦
      let e : authenticated (record t { created_by = "" }) ≡ authenticated t' =
        ground (arith, h, fine) in
      (ground (arith, fine), cc)
]

find_token-IsAdmitted :
    (compare : String → Text → Bool) (api_key : Text) (now : ℕ) (rows : List TokenRow)
    (header : Text) (t : Token)
    → find_token compare now (secret_of header) (some rows) ≡ authenticated t
    → IsAdmitted compare api_key now rows header t
unfolding find_token
find_token-IsAdmitted compare api_key now rows header t h =
    elim (Option-cases (get_token_by_secret compare (secret_of header) rows)) [
      | inl nothing ↦ absurd (ground (arith, h, nothing))
      | inr (t', e) ↦
          let g = admit-good now t' t (subst (λ o. admit now o ≡ authenticated t) e h) in
          subst (IsAdmitted compare api_key now rows header) g.1
            (by_token (get_token_by_secret-IsHeld compare (secret_of header) rows t' e) g.0)
    ]

-- The rows that a query gives, none if it fails.
abbrev pub rows_read : Option (List TokenRow) → List TokenRow
rows_read none = []
rows_read (some rows) = rows

any_token-IsAdmitted :
    (compare : String → Text → Bool) (api_key : Text) (now : ℕ) (db : Option (List TokenRow))
    (header : Text) (t : Token)
    → find_token compare now (secret_of header) db ≡ authenticated t
    → IsAdmitted compare api_key now (rows_read db) header t
any_token-IsAdmitted compare api_key now none header t h =
    absurd (unfold find_token in ground arith)
any_token-IsAdmitted compare api_key now (some rows) header t h =
    find_token-IsAdmitted compare api_key now rows header t h

AuthResult-cases :
    (a : AuthResult) → (a ≡ auth_error) ⊎ ((a ≡ no_token) ⊎ ((t : Token) × (a ≡ authenticated t)))
AuthResult-cases auth_error = inl refl
AuthResult-cases no_token = inr (inl refl)
AuthResult-cases (authenticated t) = inr (inr (t, refl))

pub authenticate-IsAdmitted :
    (compare : String → Text → Bool) (api_key : Text) (now : ℕ) (db : Option (List TokenRow))
    (header : Text) (t : Token)
    → authenticate compare api_key now db header ≡ authenticated t
    → IsAdmitted compare api_key now (rows_read db) header t
unfolding authenticate
authenticate-IsAdmitted compare api_key now db header t h = elim (Bool-cases (is_empty header)) [
  | inl empty ↦ absurd (ground (arith, h, empty))
  | inr given ↦ elim (Bool-cases (not (is_empty api_key) && same_text (secret_of header) api_key)) [
    | inl key ↦
        let e : authenticated legacy_token ≡ authenticated t = ground (arith, h, given, key) in
        let same : legacy_token ≡ t = cc in
        subst (IsAdmitted compare api_key now (rows_read db) header) same
          (by_key (ground (arith, key)))
    | inr other ↦
        any_token-IsAdmitted compare api_key now db header t (ground (arith, h, given, other))
  ]
]

-- Behind a server that has a key, a handler of a path that is not public runs only for a request whose
-- secret is that key, or matches a row of the table that is not revoked and not expired; the token in
-- its context has that row's role and namespaces.
pub middleware-IsAdmitted :
    (compare : String → Text → Bool) (api_key : Text) (now : ℕ) (db : Option (List TokenRow))
    (allowed : Bool) (r : Request) (context : Option Token)
    → is_public_endpoint r.path ≡ false
    → is_empty api_key ≡ false
    → middleware compare api_key now db allowed r ≡ served context
    → (t : Token) × (context ≡ some t)
      × IsAdmitted compare api_key now (rows_read db) r.authorization t
unfolding middleware
middleware-IsAdmitted compare api_key now db false r context private keyed h = absurd (ground arith)
middleware-IsAdmitted compare api_key now db true r context private keyed h =
    elim (AuthResult-cases (authenticate compare api_key now db r.authorization)) [
      | inl e ↦ absurd (ground (arith, h, e, private))
      | inr (inl e) ↦ absurd (unfold unidentified in ground (arith, h, e, private, keyed))
      | inr (inr (t, e)) ↦
          let s : served (some t) ≡ served context = ground (arith, h, e, private) in
          (t, cc, authenticate-IsAdmitted compare api_key now db r.authorization t e)
    ]
