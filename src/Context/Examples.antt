-- ===== src/Context/Examples.antt =====
-- Two contexts of a client, and what commands resolve to.
use prisn.Base.{◌≡◌, refl, Option, none, some, [], ◌∷◌, true, false, String}
use prisn.Base.Text.{codes}
use mathlib.Core.Option
use prisn.Context.{
  Context, Config, Environment, Resolved, mode_unset, mode_remote, no_tls, resolve, rename_context,
  renamed, delete_context, env_context, should_enable_tls,
}
use prisn.Context.Renaming.{called, resolve-rename_context}

abbrev staging : Context
staging = record {
  name = "staging";
  mode = mode_unset;
  server = codes "staging.example.com:443";
  kube_context = "";
  namespace = "shop";
  token = "t";
  tls = no_tls;
}

abbrev config : Config
config = record {
  current_context = "staging";
  contexts = ("staging", staging) ∷ ("prod", record staging { name = "prod" }) ∷ [];
}

abbrev quiet : Environment
quiet = record { context = ""; server = []; namespace = ""; token = "" }

-- the variable comes before the current context, and the address turns TLS on
from_variable :
    resolve "" "" (record quiet { context = "prod" }) config
    ≡ some (record {
      name = "prod";
      mode = mode_remote;
      server = codes "staging.example.com:443";
      kube_context = "";
      namespace = "shop";
      token = "t";
      tls = record no_tls { enabled = true };
      source = env_context;
    })
unfolding resolve prisn.Context.context_name prisn.Context.find_context prisn.Context.overridden
    prisn.Context.get_context prisn.Base.Dict.lookup prisn.Context.resolve_mode
    prisn.Context.resolve_namespace should_enable_tls prisn.Base.Text.same_text
from_variable = refl

-- a current context that has been deleted is an error
dangling : resolve "" "" quiet (delete_context "staging" config).0 ≡ none
unfolding resolve prisn.Context.context_name prisn.Context.find_context prisn.Context.get_context
    prisn.Base.Dict.lookup prisn.Base.Dict.erase delete_context
dangling = refl

abbrev after_rename : Config
after_rename = record {
  current_context = "qa";
  contexts =
      ("prod", record staging { name = "prod" }) ∷ ("qa", record staging { name = "qa" }) ∷ [];
}

staging_renamed : rename_context "staging" "qa" config ≡ renamed after_rename
unfolding rename_context prisn.Base.Dict.lookup prisn.Base.Dict.insert prisn.Base.Dict.erase
staging_renamed = refl

resolve-rename_context_example :
    (resolve "qa" "" quiet after_rename
      ≡ Option.map (called "qa") (resolve "staging" "" quiet config))
    × (resolve "" "" quiet after_rename ≡ Option.map (called "qa") (resolve "" "" quiet config))
resolve-rename_context_example =
    resolve-rename_context "staging" "qa" config after_rename "" quiet staging_renamed refl refl
      refl refl
