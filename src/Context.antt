-- ===== src/Context.antt =====
-- pkg/context: the contexts of the client (config.go, types.go) and which of them a command uses
-- (resolve.go). The environment and the loaded configuration are arguments; a variable that is not set is
-- the empty text.
pub mod Renaming
pub mod Examples
use prisn.Base.{
  ℕ, ◌-◌, Option, none, some, List, [], ◌∷◌, Bool, true, false, not, ◌&&◌, ◌||◌, if◌then◌else◌,
  String, str_eq, length, drop, ltb,
}
use prisn.Base.Text.{Text, codes, same_text, has_prefix}
use prisn.Base.Dict.{Dict, lookup, insert, erase}

pub data Mode : Type 0 where
  mode_unset mode_local mode_kubernetes mode_remote : Mode

pub record TlsConfig : Type 0 where
  pub enabled : Bool
  pub insecure : Bool
  pub ca_file : String
  pub cert_file : String
  pub key_file : String

pub record Context : Type 0 where
  pub name : String
  pub mode : Mode
  pub server : Text
  pub kube_context : String
  pub namespace : String
  pub token : String
  pub tls : TlsConfig

pub record Config : Type 0 where
  pub current_context : String
  pub contexts : Dict Context

unfoldable pub get_context : String → Config → Option Context
get_context name c = lookup name c.contexts

unfoldable pub set_context : Context → Config → Config
set_context ctx c = record c { contexts = insert ctx.name ctx c.contexts }

abbrev is_there : Option Context → Bool
is_there none = false
is_there (some ctx) = true

unfoldable pub delete_context : String → Config → Config × Bool
delete_context name c = elim (lookup name c.contexts) [
  | none ↦ (c, false)
  | some ctx ↦ (record c { contexts = erase name c.contexts }, true)
]

pub data RenameError : Type 0 where
  not_found already_exists : RenameError

pub data Renamed : Type 0 where
  renamed : Config → Renamed
  rename_failed : RenameError → Renamed

-- The new name of the current context
abbrev pub renamed_current : (old new current : String) → String
renamed_current old new current = if str_eq current old then new else current

-- After the two lookups
move : (old new : String) → Config → Context → Renamed
move old new c ctx = renamed (record {
  current_context = renamed_current old new c.current_context;
  contexts = erase old (insert new (record ctx { name = new }) c.contexts);
})

unfoldable pub rename_context : (old new : String) → Config → Renamed
unfolding move
rename_context old new c = elim (lookup old c.contexts) [
  | none ↦ rename_failed not_found
  | some ctx ↦
      if is_there (lookup new c.contexts) then rename_failed already_exists else move old new c ctx
]

pub data Source : Type 0 where
  flag_context env_context current_context env_server default_source : Source

pub record Environment : Type 0 where
  pub context : String
  pub server : Text
  pub namespace : String
  pub token : String

pub record Resolved : Type 0 where
  pub name : String
  pub mode : Mode
  pub server : Text
  pub kube_context : String
  pub namespace : String
  pub token : String
  pub tls : TlsConfig
  pub source : Source

-- DefaultServer
abbrev pub default_server : Text
default_server = codes "localhost:7331"

abbrev pub no_tls : TlsConfig
no_tls = record { enabled = false; insecure = false; ca_file = ""; cert_file = ""; key_file = "" }

-- The context that stands for no context
abbrev pub fallback_context : Text → Context
fallback_context server = record {
  name = "default";
  mode = mode_unset;
  server = server;
  kube_context = "";
  namespace = "default";
  token = "";
  tls = no_tls;
}

-- The name that is looked up, by priority
unfoldable pub context_name :
    (flag_context : String) → Environment → Config → Option (String × Source)
context_name flag env c =
    if not (str_eq flag "")
    then some (flag, flag_context)
    else if not (str_eq env.context "")
    then some (env.context, env_context)
    else if not (str_eq c.current_context "")
    then some (c.current_context, current_context)
    else none

-- `none` is the error that the context is not found.
unfoldable pub find_context :
    Option (String × Source) → Environment → Config → Option (Context × Source)
unfolding get_context same_text
find_context none env c =
    if not (same_text env.server [])
    then some (fallback_context env.server, env_server)
    else some (fallback_context default_server, default_source)
find_context (some (name, source)) env c = elim (get_context name c) [
  | none ↦ none
  | some ctx ↦ some (ctx, source)
]

unfoldable pub resolve_mode : Mode → Text → Mode
unfolding same_text
resolve_mode mode_unset server =
    if not (same_text server []) && not (same_text server default_server)
    then mode_remote
    else mode_local
resolve_mode mode server = mode

unfoldable pub resolve_namespace : (flag env own : String) → String
resolve_namespace flag env own =
    let chosen = if not (str_eq flag "") then flag else if not (str_eq env "") then env else own in
    if str_eq chosen "" then "default" else chosen

-- strings.HasSuffix(server, ":443"), and false in all other cases
unfoldable pub should_enable_tls : Text → Bool
unfolding same_text
should_enable_tls server =
    if ltb (length server) 4
    then false
    else same_text (drop (length server - 4) server) (codes ":443")

unfoldable pub overridden : (flag_namespace : String) → Environment → Context → Source → Resolved
unfolding resolve_mode resolve_namespace should_enable_tls
overridden flag_namespace env ctx source = record {
  name = ctx.name;
  mode = resolve_mode ctx.mode ctx.server;
  server = ctx.server;
  kube_context = ctx.kube_context;
  namespace = resolve_namespace flag_namespace env.namespace ctx.namespace;
  token = if not (str_eq env.token "") then env.token else ctx.token;
  tls = record ctx.tls { enabled = ctx.tls.enabled || should_enable_tls ctx.server };
  source = source;
}

unfoldable pub resolve :
    (flag_context flag_namespace : String) → Environment → Config → Option Resolved
unfolding context_name find_context overridden
resolve flag flag_namespace env c = elim (find_context (context_name flag env c) env c) [
  | none ↦ none
  | some (ctx, source) ↦ some (overridden flag_namespace env ctx source)
]
