-- ===== src/Auth/Governed.antt =====
-- What stays true of the table of tokens.
use prisn.Base.{◌≡◌, ◌⊎◌, some, List, [], ◌∷◌, true, false, String}
use prisn.Base.Text.{Text}
use prisn.Auth.{role_admin, role_developer, role_viewer}
use prisn.Auth.Table.{TokenRow, has_id}
use prisn.Auth.Tokens.{Parsers, namespaces_allowed, is_nil}
use prisn.Auth.Settled.{Call, serve}

-- The role is one of the three, there is a namespace, and "*" is an admin's.
pub record IsGoverned (row : TokenRow) : Type 0 where
  pub namespaces : List String
  pub readable : row.namespaces ≡ some namespaces
  pub some_namespace : is_nil namespaces ≡ false
  pub no_wildcard : namespaces_allowed row.role namespaces ≡ true
  pub known_role :
      (row.role ≡ role_admin) ⊎ ((row.role ≡ role_developer) ⊎ (row.role ≡ role_viewer))

-- Each row is governed, and no identifier stands twice.
pub data AreGoverned : List TokenRow → Type 0 where
  nobody : AreGoverned []
  one_more :
      {row : TokenRow} {rows : List TokenRow}
      → IsGoverned row
      → has_id row.id rows ≡ false
      → AreGoverned rows
      → AreGoverned (row ∷ rows)

-- The table after the calls, one after the other
abbrev pub serve_all : Parsers → List Call → List TokenRow → List TokenRow
serve_all ps [] rows = rows
serve_all ps (c ∷ cs) rows = serve_all ps cs (serve ps c rows).rows
