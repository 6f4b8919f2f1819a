-- ===== src/Auth/Lifetime.antt =====
-- What a revocation leaves: a token that lets nobody in.
use prisn.Base.{
  ℕ, ◌≡◌, refl, ap, ◌∙◌, sym, subst, inl, inr, ◌⊎◌, Option, none, some, List, [], ◌∷◌, Bool, true,
  false, not, String, str_eq, Bool-cases, Option-cases, arith,
}
use prisn.Base.Text.{Text, same_text}
use prisn.Auth.{
  action_update, can, has_permission, has_action, role_permissions, same_action, role_admin, Token,
}
use prisn.Auth.Table.{
  TokenRow, is_active, revoke_rows, has_active, revoke_token, has_id, Stored, stored, store_failed,
}
use prisn.Auth.Access.{authenticated, legacy_token, authenticate, secret_of}
use prisn.Auth.Tokens.{answer, handle_revoke_token, after_revoke, is_revoked_before, unless, may}
use prisn.Auth.Guards.{passed}
use prisn.Auth.Admission.{
  IsRow, here, there, IsHeld, IsAdmitted, by_key, by_token, authenticate-IsAdmitted,
}

IsRow-cases :
    {row first : TokenRow} {rows : List TokenRow}
    → IsRow row (first ∷ rows)
    → (row ≡ first) ⊎ IsRow row rows
IsRow-cases here = inl refl
IsRow-cases (there h) = inr h

no_IsRow : {row : TokenRow} → ¬ IsRow row []
no_IsRow h = elim h [ ]

some≢none : {A : Type 0} {a : A} {o : Option A} → o ≡ some a → ¬ o ≡ none
some≢none e n = absurd cc

pub revoke_rows-inactive :
    (id : String) (now : ℕ) (first : TokenRow) (rows : List TokenRow)
    → str_eq first.id id ≡ true
    → (revoke_rows id now (first ∷ rows)
        ≡ record first { revoked_at = some now } ∷ revoke_rows id now rows)
      ⊎ ((revoke_rows id now (first ∷ rows) ≡ first ∷ revoke_rows id now rows)
          × ¬ first.revoked_at ≡ none)
unfolding revoke_rows is_active
revoke_rows-inactive id now first rows same = elim (Option-cases first.revoked_at) [
  | inl e ↦ inl (rw (same, e) refl)
  | inr (t, e) ↦ inr (rw (same, e) refl, some≢none e)
]

pub kept_row :
    (id : String) (now : ℕ) (first : TokenRow) (rows : List TokenRow)
    → str_eq first.id id ≡ false
    → revoke_rows id now (first ∷ rows) ≡ first ∷ revoke_rows id now rows
unfolding revoke_rows
kept_row id now first rows other = rw other refl

-- Where a revocation has gone over the rows, no row of the identifier is active.
revoke_rows-off :
    (id : String) (now : ℕ) (rows : List TokenRow) (row : TokenRow)
    → IsRow row (revoke_rows id now rows)
    → row.revoked_at ≡ none
    → str_eq row.id id ≡ false
unfolding revoke_rows
revoke_rows-off id now (first ∷ rows) row h active = elim (Bool-cases (str_eq first.id id)) [
  | inr other ↦ elim (IsRow-cases (subst (IsRow row) (kept_row id now first rows other) h)) [
    | inl e ↦ subst (λ r. str_eq r.id id ≡ false) (sym e) other
    | inr later ↦ revoke_rows-off id now rows row later active
  ]
  | inl same ↦ elim (revoke_rows-inactive id now first rows same) [
    | inl e ↦ elim (IsRow-cases (subst (IsRow row) e h)) [
      | inl e' ↦ absurd (some≢none (ap (λ r. r.revoked_at) e') active)
      | inr later ↦ revoke_rows-off id now rows row later active
    ]
    | inr (e, off) ↦ elim (IsRow-cases (subst (IsRow row) e h)) [
      | inl e' ↦ absurd (off (ap (λ r. r.revoked_at) (sym e') ∙ active))
      | inr later ↦ revoke_rows-off id now rows row later active
    ]
  ]
]
revoke_rows-off id now [] row h active = absurd (no_IsRow h)

revoke_token-off :
    (id : String) (now : ℕ) (rows rows' : List TokenRow) (row : TokenRow)
    → revoke_token id now rows ≡ stored rows'
    → IsRow row rows'
    → row.revoked_at ≡ none
    → str_eq row.id id ≡ false
unfolding revoke_token
revoke_token-off id now rows rows' row h is_row active = elim (Bool-cases (has_active id rows)) [
  | inl on ↦
      let e : stored (revoke_rows id now rows) ≡ stored rows' = ground (arith, h, on) in
      let same : revoke_rows id now rows ≡ rows' = cc in
      revoke_rows-off id now rows row (subst (IsRow row) (sym same) is_row) active
  | inr off ↦ absurd (ground (arith, h, off))
]

Stored-cases :
    (s : Stored) → ((rows : List TokenRow) × (s ≡ stored rows)) ⊎ ((e : _) × (s ≡ store_failed e))
Stored-cases (stored rows) = inl (rows, refl)
Stored-cases (store_failed e) = inr (e, refl)

after_revoke-status :
    (rows : List TokenRow) (s : Stored)
    → (after_revoke rows s).status ≡ 200
    → s ≡ stored (after_revoke rows s).rows
unfolding after_revoke
after_revoke-status rows (stored rows') h = refl
after_revoke-status rows (store_failed e) h = absurd (ground arith)

handle_revoke_token-stored :
    (now : ℕ) (caller : Option Token) (id : String) (rows : List TokenRow)
    → (handle_revoke_token now caller id rows).status ≡ 200
    → revoke_token id now rows ≡ stored (handle_revoke_token now caller id rows).rows
unfolding handle_revoke_token
handle_revoke_token-stored now none id rows h = absurd (omega arith)
handle_revoke_token-stored now (some caller) id rows h =
    let settled = after_revoke rows (revoke_token id now rows) in
    let own = unless 400 rows (str_eq caller.id id) settled in
    let named = unless 400 rows (str_eq id "") own in
    let (_, e, h₁) =
      passed 403 200 rows (not (may (some caller) action_update)) named (omega arith) h in
    let (_, e₁, h₂) = passed 400 200 rows (str_eq id "") own (omega arith) h₁ in
    let (_, e₂, h₃) = passed 400 200 rows (str_eq caller.id id) settled (omega arith) h₂ in
    after_revoke-status rows (revoke_token id now rows) h₃
    ∙ ap (λ r. stored r.rows) (sym (e ∙ e₁ ∙ e₂))

held_off :
    (compare : String → Text → Bool) (secret : Text) (id : String) (rows : List TokenRow)
    (t : Token)
    → ((row : TokenRow) → IsRow row rows → row.revoked_at ≡ none → str_eq row.id id ≡ false)
    → IsHeld compare secret rows t
    → str_eq t.id id ≡ false
held_off compare secret id rows t off h =
    subst (λ i. str_eq i id ≡ false) (sym h.same_id) (off h.row h.is_row h.active)

admitted_off :
    (compare : String → Text → Bool) (api_key : Text) (now : ℕ) (rows : List TokenRow)
    (header : Text) (id : String) (t : Token)
    → ((row : TokenRow) → IsRow row rows → row.revoked_at ≡ none → str_eq row.id id ≡ false)
    → IsAdmitted compare api_key now rows header t
    → (t ≡ legacy_token) ⊎ (str_eq t.id id ≡ false)
admitted_off compare api_key now rows header id t off (by_key h) = inl refl
admitted_off compare api_key now rows header id t off (by_token {t = u} h good) =
    inr (held_off compare (secret_of header) id rows u off h)

-- Once the handler has answered 200 to a revocation, no header authenticates the token of that
-- identifier any more, at any time: it gives another token, or that of the server's own key.
pub handle_revoke_token-IsFinal :
    (caller : Option Token) (id : String) (rows : List TokenRow) (compare : String → Text → Bool)
    (api_key header : Text) (revoked now : ℕ) (t : Token)
    → (handle_revoke_token revoked caller id rows).status ≡ 200
    → authenticate compare api_key now
        (some (handle_revoke_token revoked caller id rows).rows)
        header
      ≡ authenticated t
    → (t ≡ legacy_token) ⊎ (str_eq t.id id ≡ false)
handle_revoke_token-IsFinal caller id rows compare api_key header revoked now t ok h =
    let reply = handle_revoke_token revoked caller id rows in
    let gone = handle_revoke_token-stored revoked caller id rows ok in
    admitted_off compare api_key now reply.rows header id t
      (λ row is_row active. revoke_token-off id revoked rows reply.rows row gone is_row active)
      (authenticate-IsAdmitted compare api_key now (some reply.rows) header t h)

-- An admin who asks to revoke another's token that is in the table but not active is answered 404, and
-- the table stays as it is.
pub handle_revoke_token-again :
    (now : ℕ) (caller : Token) (id : String) (rows : List TokenRow)
    → caller.role ≡ role_admin
    → str_eq id "" ≡ false
    → str_eq caller.id id ≡ false
    → has_active id rows ≡ false
    → has_id id rows ≡ true
    → handle_revoke_token now (some caller) id rows ≡ answer 404 rows
unfolding handle_revoke_token revoke_token after_revoke is_revoked_before may unless can
    has_permission has_action role_permissions same_action same_text
handle_revoke_token-again now caller id rows admin named other inactive known =
    rw (admin, named, other, inactive, known) refl
