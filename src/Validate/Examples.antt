-- ===== src/Validate/Examples.antt =====
-- Tests of pkg/validate/validate.go, and the theorems of Validate at concrete texts.
use prisn.Base.{
  ℕ, zero, suc, ◌+◌, ◌≡◌, ◌≢◌, ◌↔◌, refl, none, some, [], ◌∷◌, ◌++◌, true, arith, get_elem?,
}
use prisn.Base.Text.{codes}
use prisn.Validate.{
  name, port, env_var, variable, refused, invalid_key, cron_schedule, not_five_fields, path,
  timeout, timeout_needs_unit, needs_root, bad_characters,
}
use prisn.Validate.Names.{IsName, name-IsName}
use prisn.Validate.EnvVars.{IsKey, env_var-IsKey}
use prisn.Validate.Schedules.{cron_schedule-parse_cron}
use prisn.Scheduler.Cron.{err, field_count, parse_cron, expand_shortcut}

spaced : name (codes "web app") ≡ some bad_characters
unfolding name prisn.Validate.match_word prisn.Validate.all_match prisn.Validate.is_letter
    prisn.Base.Text.same_text
spaced = refl

http : port 80 ≡ some needs_root
unfolding port
http = refl

bare : timeout (codes "30") ≡ some timeout_needs_unit
unfolding timeout prisn.Validate.all_match prisn.Base.Text.same_text
bare = refl

-- A shortcut that the scheduler knows
midnight : cron_schedule (codes "@midnight") ≡ some not_five_fields
unfolding cron_schedule prisn.Validate.is_shortcut prisn.Scheduler.Cron.fields_from
    prisn.Base.Text.same_text
midnight = refl

name-IsName_example : (name (codes "web-1") ≡ none) ↔ IsName (codes "web-1")
name-IsName_example = name-IsName (codes "web-1")

four_fields : cron_schedule (codes "* * * *") ≡ some not_five_fields
unfolding cron_schedule prisn.Validate.is_shortcut prisn.Scheduler.Cron.fields_from
    prisn.Base.Text.same_text
four_fields = refl

cron_schedule-parse_cron_example :
    parse_cron 61 (codes (expand_shortcut "* * * *")) ≡ err field_count
cron_schedule-parse_cron_example =
    cron_schedule-parse_cron 61 "* * * *" not_five_fields refl four_fields

env_var-IsKey_example :
    (env_var (codes "A_1=b=c") ≡ variable (codes "A_1") (codes "b=c"))
    ↔ (codes "A_1=b=c" ≡ codes "A_1" ++ 61 ∷ codes "b=c") × IsKey (codes "A_1")
env_var-IsKey_example = env_var-IsKey (codes "A_1=b=c") (codes "A_1") (codes "b=c")
