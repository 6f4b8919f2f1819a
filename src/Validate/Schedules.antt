-- ===== src/Validate/Schedules.antt =====
-- The cron check of pkg/validate/validate.go beside the parser of pkg/scheduler/cron.go.
use prisn.Base.{
  ℕ, ◌≡◌, inl, inr, refl, sym, some, List, [], ◌∷◌, true, false, arith, Bool-cases, subst, ◌==◌,
  String, str_eq, eq_iff, length,
}
use prisn.Base.Text.{Text, codes, same_text, same_text_refl}
use prisn.Base.Dict.{lookup}
use prisn.Scheduler.Cron.{err, field_count, fields_from, parse_cron, parse_fields, expand_shortcut}
use prisn.Validate.{ScheduleError, is_shortcut, cron_schedule}

not_named : (s n : String) → same_text (codes s) (codes n) ≡ false → str_eq n s ≡ false
not_named s n h = elim (Bool-cases (str_eq n s)) [
  | inl same ↦
      let e : n ≡ s = (eq_iff n s).0 same in
      ground (
        arith,
        h,
        subst (λ m. same_text (codes s) (codes m) ≡ true) (sym e) (same_text_refl (codes s)),
      )
  | inr other ↦ other
]

-- Not a shortcut of the check: none of the six.
not_shortcut :
    (s : String)
    → is_shortcut (codes s) ≡ false
    → (str_eq "@hourly" s ≡ false)
      × (str_eq "@daily" s ≡ false)
      × (str_eq "@weekly" s ≡ false)
      × (str_eq "@monthly" s ≡ false)
      × (str_eq "@yearly" s ≡ false)
      × (str_eq "@annually" s ≡ false)
unfolding is_shortcut
not_shortcut s h = (
  not_named s "@hourly" (ground (arith, h)),
  not_named s "@daily" (ground (arith, h)),
  not_named s "@weekly" (ground (arith, h)),
  not_named s "@monthly" (ground (arith, h)),
  not_named s "@yearly" (ground (arith, h)),
  not_named s "@annually" (ground (arith, h)),
)

expand_other :
    (s : String)
    → is_shortcut (codes s) ≡ false
    → str_eq "@midnight" s ≡ false
    → expand_shortcut s ≡ s
unfolding expand_shortcut lookup
expand_other s h other =
    let (hourly, daily, weekly, monthly, yearly, annually) = not_shortcut s h in
    rw (yearly, annually, monthly, weekly, daily, other, hourly) refl

fields_lem :
    (fuel : ℕ) (raw : Text) (fields : List Text)
    → (length fields == 5) ≡ false
    → parse_fields fuel raw fields ≡ err field_count
unfolding parse_fields
fields_lem fuel raw [] h = refl
fields_lem fuel raw (a ∷ []) h = refl
fields_lem fuel raw (a ∷ b ∷ []) h = refl
fields_lem fuel raw (a ∷ b ∷ c ∷ []) h = refl
fields_lem fuel raw (a ∷ b ∷ c ∷ d ∷ []) h = refl
fields_lem fuel raw (a ∷ b ∷ c ∷ d ∷ e ∷ []) h = absurd (ground (arith, h))
fields_lem fuel raw (a ∷ b ∷ c ∷ d ∷ e ∷ f ∷ fs) h = refl

refused_by_count :
    (c : ℕ) (cs : Text) (e : ScheduleError)
    → cron_schedule (c ∷ cs) ≡ some e
    → (is_shortcut (c ∷ cs) ≡ false) × ((length (fields_from [] (c ∷ cs)) == 5) ≡ false)
unfolding cron_schedule
refused_by_count c cs e h = (ground (arith, h), ground (arith, h))

refused_lem :
    (t : Text) (e : ScheduleError)
    → cron_schedule t ≡ some e
    → (is_shortcut t ≡ false) × ((length (fields_from [] t) == 5) ≡ false)
unfolding is_shortcut fields_from same_text
refused_lem [] e h = (refl, refl)
refused_lem (c ∷ cs) e h = refused_by_count c cs e h

-- What CronSchedule refuses, the shortcut "@midnight" excepted, the parser of the scheduler refuses too,
-- behind the expansion of shortcuts and for the number of its fields.
pub cron_schedule-parse_cron :
    (fuel : ℕ) (s : String) (e : ScheduleError)
    → str_eq "@midnight" s ≡ false
    → cron_schedule (codes s) ≡ some e
    → parse_cron fuel (codes (expand_shortcut s)) ≡ err field_count
unfolding parse_cron
cron_schedule-parse_cron fuel s e other h =
    let (plain, count) = refused_lem (codes s) e h in
    subst (λ x. parse_cron fuel (codes x) ≡ err field_count) (sym (expand_other s plain other))
      (fields_lem fuel (codes s) (fields_from [] (codes s)) count)
