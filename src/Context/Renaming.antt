-- ===== src/Context/Renaming.antt =====
-- What a renamed context is resolved to.
use prisn.Base.{
  ◌≡◌, refl, ap, ◌∙◌, sym, inl, inr, none, some, true, false, String, str_eq, eq_iff, Bool-cases,
  Option-cases, arith,
}
use mathlib.Core.Option
use prisn.Base.Dict.{lookup, insert, erase, lookup-insert, lookup-erase}
use prisn.Context.{
  Config, Context, renamed, rename_context, move, renamed_current, Environment, Resolved, Source,
  resolve, context_name, find_context, overridden, get_context, flag_context, current_context,
}

-- What has changed of a resolved context is its name.
abbrev pub called : String → Resolved → Resolved
called new r = record r { name = new }

lookup-move :
    (old new : String) (ctx : Context) (c : Config)
    → str_eq new old ≡ false
    → lookup new (erase old (insert new (record ctx { name = new }) c.contexts))
      ≡ some (record ctx { name = new })
lookup-move old new ctx c differ =
    let here = lookup-insert new new (record ctx { name = new }) c.contexts in
    let same : str_eq new new ≡ true = ground (arith, eq_iff new new) in
    let other : str_eq old new ≡ false = ground (arith, differ, eq_iff old new, eq_iff new old) in
    lookup-erase old new (insert new (record ctx { name = new }) c.contexts)
    ∙ rw other (here ∙ rw same refl)

-- A successful renaming has found the old name and not the new one.
record WasRenamed (old new : String) (c c' : Config) : Type 0 where
  context : Context
  found : lookup old c.contexts ≡ some context
  differ : str_eq new old ≡ false
  moved : c' ≡ (record {
    current_context = renamed_current old new c.current_context;
    contexts = erase old (insert new (record context { name = new }) c.contexts);
  })

distinct_names :
    (old new : String) (c : Config) (ctx : Context)
    → lookup old c.contexts ≡ some ctx
    → lookup new c.contexts ≡ none
    → str_eq new old ≡ false
distinct_names old new c ctx there gone = elim (Bool-cases (str_eq new old)) [
  | inr other ↦ other
  | inl same ↦
      let equal : new ≡ old = ground (arith, same, eq_iff new old) in
      absurd (contradiction (sym gone ∙ ap (λ k. lookup k c.contexts) equal ∙ there))
]
  where
    contradiction : ¬ none ≡ some ctx
    contradiction e = absurd cc

rename_context-WasRenamed :
    (old new : String) (c c' : Config)
    → rename_context old new c ≡ renamed c'
    → WasRenamed old new c c'
unfolding rename_context move
rename_context-WasRenamed old new c c' h = elim (Option-cases (lookup old c.contexts)) [
  | inl missing ↦ absurd (ground (arith, h, missing))
  | inr (ctx, there) ↦ elim (Option-cases (lookup new c.contexts)) [
    | inr (ctx', taken) ↦ absurd (ground (arith, h, there, taken))
    | inl gone ↦
        let e : move old new c ctx ≡ renamed c' = ground (arith, h, there, gone) in
        record {
          context = ctx;
          found = there;
          differ = distinct_names old new c ctx there gone;
          moved = renamed_inj (sym e);
        }
  ]
]
  where
    renamed_inj : {a b : Config} → renamed a ≡ renamed b → a ≡ b
    renamed_inj e = cc

resolve-named :
    (flag flag_namespace : String) (env : Environment) (c : Config)
    → str_eq flag "" ≡ false
    → resolve flag flag_namespace env c
      ≡ Option.map (λ ctx. overridden flag_namespace env ctx flag_context) (lookup flag c.contexts)
unfolding resolve context_name find_context get_context
resolve-named flag flag_namespace env c given = ground (arith, given)

resolve-current :
    (flag_namespace : String) (env : Environment) (c : Config)
    → str_eq env.context "" ≡ true
    → str_eq c.current_context "" ≡ false
    → resolve "" flag_namespace env c
      ≡ Option.map
          (λ ctx. overridden flag_namespace env ctx current_context)
          (lookup c.current_context c.contexts)
unfolding resolve context_name find_context get_context
resolve-current flag_namespace env c unset given = ground (arith, unset, given)

overridden-name :
    (flag_namespace : String) (env : Environment) (ctx : Context) (source : Source) (new : String)
    → overridden flag_namespace env (record ctx { name = new }) source
      ≡ called new (overridden flag_namespace env ctx source)
unfolding overridden
overridden-name flag_namespace env ctx source new = refl

-- Either lookup finds the same settings, under the new name.
moved_settings :
    (old new : String) (c c' : Config) (flag_namespace : String) (env : Environment)
    (source : Source)
    → WasRenamed old new c c'
    → Option.map (λ ctx. overridden flag_namespace env ctx source) (lookup new c'.contexts)
      ≡ Option.map
          (called new)
          (Option.map (λ ctx. overridden flag_namespace env ctx source) (lookup old c.contexts))
moved_settings old new c c' flag_namespace env source w =
    let found_new : lookup new c'.contexts ≡ some (record w.context { name = new }) =
      ap (λ (k : Config). lookup new k.contexts) w.moved
      ∙ lookup-move old new w.context c w.differ in
    ap (Option.map (λ ctx. overridden flag_namespace env ctx source)) found_new
    ∙ ap some (overridden-name flag_namespace env w.context source new)
    ∙ ap
        (λ o.
          Option.map (called new) (Option.map (λ ctx. overridden flag_namespace env ctx source) o))
        (sym w.found)

current_moved :
    (old new : String) (c c' : Config)
    → WasRenamed old new c c'
    → c'.current_context ≡ renamed_current old new c.current_context
current_moved old new c c' w = ap (λ (k : Config). k.current_context) w.moved

-- With the variable for the context unset, after a successful renaming of the current context, old and new
-- name not empty: the flag with the new name resolves to what the flag with the old one did, and without a
-- flag a command resolves to what it did before. Only the name has changed.
pub resolve-rename_context :
    (old new : String) (c c' : Config) (flag_namespace : String) (env : Environment)
    → rename_context old new c ≡ renamed c'
    → str_eq new "" ≡ false
    → str_eq env.context "" ≡ true
    → str_eq old "" ≡ false
    → c.current_context ≡ old
    → (resolve new flag_namespace env c'
        ≡ Option.map (called new) (resolve old flag_namespace env c))
      × (resolve "" flag_namespace env c'
          ≡ Option.map (called new) (resolve "" flag_namespace env c))
resolve-rename_context old new c c' flag_namespace env h named unset named_old current =
    let given : str_eq c.current_context "" ≡ false = ap (λ s. str_eq s "") current ∙ named_old in
    let w = rename_context-WasRenamed old new c c' h in
    let is_old : str_eq c.current_context old ≡ true =
      ground (arith, current, eq_iff c.current_context old) in
    let is_new : c'.current_context ≡ new = current_moved old new c c' w ∙ rw is_old refl in
    let given_new : str_eq c'.current_context "" ≡ false = ap (λ s. str_eq s "") is_new ∙ named in
    (
      resolve-named new flag_namespace env c' named
          ∙ moved_settings old new c c' flag_namespace env flag_context w
          ∙ ap (Option.map (called new)) (sym (resolve-named old flag_namespace env c named_old)),
      resolve-current flag_namespace env c' unset given_new
          ∙ ap
              (λ s.
                Option.map (λ ctx. overridden flag_namespace env ctx current_context)
                  (lookup s c'.contexts))
              is_new
          ∙ moved_settings old new c c' flag_namespace env current_context w
          ∙ ap
              (λ s. Option.map (called new) (
                Option.map (λ ctx. overridden flag_namespace env ctx current_context)
                  (lookup s c.contexts)))
              (sym current)
          ∙ ap (Option.map (called new)) (sym (resolve-current flag_namespace env c unset given)),
    )
