-- ===== src/Auth/Settled.antt =====
-- What a creation that is refused leaves, and who may change the table at all.
use prisn.Base.{
  ℕ, ◌≡◌, refl, inl, inr, ◌⊎◌, Option, none, some, List, [], Bool, false, not, String, str_eq,
  Bool-cases,
}
use prisn.Base.Text.{Text, same_text}
use prisn.Auth.{
  action_create, action_update, action_delete, generate_token, Role, role_admin, Token, Random,
  parse_role,
}
use prisn.Auth.Guards.{either_reply, any_reply}
use prisn.Auth.Table.{TokenRow, create_token, Stored, stored, store_failed}
use prisn.Auth.Tokens.{
  CreateTokenRequest, Reply, answer, handle_create_token, handle_revoke_token, handle_delete_token,
  Parsers, namespaces_allowed, is_nil, keep, issue, given, unless, expiry, row_of, may,
  check_request,
}
use prisn.Auth.Issue.{stored_as, for_role}
use prisn.Auth.{resource_token, Action, can}
use prisn.Auth.Roles.{can-admin_only}

-- Status 201, or the rows as they were
unfoldable pub IsSettled : List TokenRow → Reply → Type 0
IsSettled rows reply = (reply.status ≡ 201) ⊎ (reply.rows ≡ rows)

keep-IsSettled :
    (rows : List TokenRow) (secret : Text) (s : Stored) → IsSettled rows (keep rows secret s)
unfolding keep IsSettled
keep-IsSettled rows secret (stored rows') = inl refl
keep-IsSettled rows secret (store_failed e) = inr refl

answer-IsSettled : (c : ℕ) (rows : List TokenRow) → IsSettled rows (answer c rows)
unfolding IsSettled
answer-IsSettled c rows = inr refl

issue-IsSettled :
    (ps : Parsers) (random : Option Random) (now : ℕ) (caller : Token) (req : CreateTokenRequest)
    (role : Role) (rows : List TokenRow)
    → IsSettled rows (issue ps random now caller req role rows)
unfolding issue
issue-IsSettled ps random now caller req role rows =
    any_reply (IsSettled rows) 500 rows
      (generate_token ps.hash random now req.name role req.namespaces)
      (λ made. given 400 rows (expiry ps now req.expires_in) (stored_as rows caller.id made))
      (answer-IsSettled 500 rows)
      (λ made.
        any_reply (IsSettled rows) 400 rows (expiry ps now req.expires_in)
          (stored_as rows caller.id made) (answer-IsSettled 400 rows)
          (λ expires.
            keep-IsSettled rows made.1 (create_token (row_of made.0 expires caller.id) rows)))

for_role-IsSettled :
    (ps : Parsers) (random : Option Random) (now : ℕ) (caller : Token) (req : CreateTokenRequest)
    (role : Role) (rows : List TokenRow)
    → IsSettled rows (for_role ps random now caller req rows role)
for_role-IsSettled ps random now caller req role rows =
    let made = issue ps random now caller req role rows in
    let allowed = not (namespaces_allowed role req.namespaces) in
    let refusal = answer-IsSettled 400 rows in
    either_reply (IsSettled rows) 400 rows (is_nil req.namespaces) (unless 400 rows allowed made)
      refusal
      (either_reply (IsSettled rows) 400 rows allowed made refusal
        (issue-IsSettled ps random now caller req role rows))

check_request-IsSettled :
    (ps : Parsers) (random : Option Random) (now : ℕ) (caller : Token) (req : CreateTokenRequest)
    (rows : List TokenRow)
    → IsSettled rows (check_request ps random now caller req rows)
unfolding check_request
check_request-IsSettled ps random now caller req rows =
    let parsed = given 400 rows (parse_role req.role) (for_role ps random now caller req rows) in
    let refusal = answer-IsSettled 400 rows in
    either_reply (IsSettled rows) 400 rows (str_eq req.name "")
      (unless 400 rows (same_text req.role []) parsed) refusal
      (either_reply (IsSettled rows) 400 rows (same_text req.role []) parsed refusal (
        any_reply (IsSettled rows) 400 rows (parse_role req.role)
          (for_role ps random now caller req rows) refusal
          (λ role. for_role-IsSettled ps random now caller req role rows)))

pub handle_create_token-IsSettled :
    (ps : Parsers) (random : Option Random) (now : ℕ) (caller : Token)
    (body : Option CreateTokenRequest) (rows : List TokenRow)
    → IsSettled rows (handle_create_token ps random now (some caller) body rows)
unfolding handle_create_token
handle_create_token-IsSettled ps random now caller body rows =
    let checked = λ (req : CreateTokenRequest). check_request ps random now caller req rows in
    either_reply (IsSettled rows) 403 rows (not (may (some caller) action_create))
      (given 400 rows body checked) (answer-IsSettled 403 rows)
      (any_reply (IsSettled rows) 400 rows body checked (answer-IsSettled 400 rows)
        (λ req. check_request-IsSettled ps random now caller req rows))

may-admin_only :
    (caller : Option Token) (action : Action)
    → ((t : Token) → caller ≡ some t → ¬ t.role ≡ role_admin)
    → may caller action ≡ false
unfolding may
may-admin_only none action h = refl
may-admin_only (some t) action h = elim (Bool-cases (can t.role action resource_token)) [
  | inl able ↦ absurd (h t refl (can-admin_only t.role action able))
  | inr unable ↦ unable
]

turned_away :
    (c : ℕ) (rows : List TokenRow) (b : Bool) (x : Reply)
    → b ≡ false
    → unless c rows (not b) x ≡ answer c rows
unfolding unless
turned_away c rows b x h = rw h refl

-- One call of a handler.
pub data Call : Type 0 where
  create : Option Random → ℕ → Option Token → Option CreateTokenRequest → Call
  revoke : ℕ → Option Token → String → Call
  delete : Option Token → String → Call

abbrev pub caller_of : Call → Option Token
caller_of (create random now caller body) = caller
caller_of (revoke now caller id) = caller
caller_of (delete caller id) = caller

abbrev pub serve : Parsers → Call → List TokenRow → Reply
serve ps (create random now caller body) rows = handle_create_token ps random now caller body rows
serve ps (revoke now caller id) rows = handle_revoke_token now caller id rows
serve ps (delete caller id) rows = handle_delete_token caller id rows

-- Creation, revocation and deletion of a token answer 403 and leave the table as it is, unless the caller's
-- token has the role of an admin.
pub serve-refused :
    (ps : Parsers) (c : Call) (rows : List TokenRow)
    → ((t : Token) → caller_of c ≡ some t → ¬ t.role ≡ role_admin)
    → serve ps c rows ≡ answer 403 rows
serve-refused ps (create random now none body) rows h = unfold handle_create_token in refl
serve-refused ps (create random now (some t) body) rows h =
    unfold handle_create_token in turned_away 403 rows _ _ (may-admin_only (some t) action_create h)
serve-refused ps (revoke now none id) rows h = unfold handle_revoke_token in refl
serve-refused ps (revoke now (some t) id) rows h =
    unfold handle_revoke_token in turned_away 403 rows _ _ (may-admin_only (some t) action_update h)
serve-refused ps (delete none id) rows h = unfold handle_delete_token in refl
serve-refused ps (delete (some t) id) rows h =
    unfold handle_delete_token in turned_away 403 rows _ _ (may-admin_only (some t) action_delete h)
