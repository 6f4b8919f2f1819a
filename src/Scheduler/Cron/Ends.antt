-- ===== src/Scheduler/Cron/Ends.antt =====
-- What becomes of a whole expression, and of a step of zero.
use prisn.Base.{
  ℕ, zero, suc, ◌^◌, ◌≤◌, ◌<◌, ◌≡◌, refl, some, List, [], ◌∷◌, true, false, arith, drop,
}
use prisn.Base.Word.{add64, int_lt}
use prisn.Scheduler.Cron.{
  CronExpr, Parsed, ok, err, endless, atoi, step_up, cons_value, is_star, is_step, parse_field,
  and_then, parse_fields, parse_cron, fields_from,
}
use prisn.Base.Text.{Text, same_text, has_prefix}
use prisn.Scheduler.Cron.Bounds.{AllIn, IsParsed, IsForward, parse_field-IsParsed}

pub record IsCron (c : CronExpr) : Type 0 where
  pub minutes_in : AllIn 0 59 c.minutes
  pub hours_in : AllIn 0 23 c.hours
  pub days_in : AllIn 1 31 c.days_of_month
  pub months_in : AllIn 1 12 c.months
  pub weekdays_in : AllIn 0 6 c.days_of_week

abbrev pub IsCronResult : Parsed CronExpr → Type 0
IsCronResult (ok c) = IsCron c
IsCronResult (err e) = Unit
IsCronResult endless = ⊥

abbrev pub AreForward : List Text → Type 0
AreForward [] = Unit
AreForward (f ∷ fs) = IsForward f × AreForward fs

-- A step of the chain: the values of one field, then the rest.
then-IsCronResult :
    (min max : ℕ) (r : Parsed (List ℕ)) (f : List ℕ → Parsed CronExpr)
    → IsParsed min max r
    → ((vs : List ℕ) → AllIn min max vs → IsCronResult (f vs))
    → IsCronResult (and_then r f)
unfolding and_then
then-IsCronResult min max (ok vs) f h g = g vs h
then-IsCronResult min max (err e) f h g = tt
then-IsCronResult min max endless f h g = h

fields-IsCronResult :
    (fuel : ℕ) (raw : Text) (fields : List Text)
    → 60 ≤ fuel
    → AreForward fields
    → IsCronResult (parse_fields (suc fuel) raw fields)
unfolding parse_fields
fields-IsCronResult fuel raw [] enough h = tt
fields-IsCronResult fuel raw (a ∷ []) enough h = tt
fields-IsCronResult fuel raw (a ∷ b ∷ []) enough h = tt
fields-IsCronResult fuel raw (a ∷ b ∷ c ∷ []) enough h = tt
fields-IsCronResult fuel raw (a ∷ b ∷ c ∷ d ∷ []) enough h = tt
fields-IsCronResult fuel raw (a ∷ b ∷ c ∷ d ∷ e ∷ f ∷ rest) enough h = tt
fields-IsCronResult fuel raw (a ∷ b ∷ c ∷ d ∷ e ∷ []) enough (ha, (hb, (hc, (hd, (he, _))))) =
    then-IsCronResult 0 59 _ _
      (parse_field-IsParsed fuel a 0 59 (omega arith) (omega arith) (omega arith) ha)
      λ mi in_mi.
        then-IsCronResult 0 23 _ _
          (parse_field-IsParsed fuel b 0 23 (omega arith) (omega arith) (omega arith) hb)
          λ ho in_ho.
            then-IsCronResult 1 31 _ _
              (parse_field-IsParsed fuel c 1 31 (omega arith) (omega arith) (omega arith) hc)
              λ dm in_dm.
                then-IsCronResult 1 12 _ _
                  (parse_field-IsParsed fuel d 1 12 (omega arith) (omega arith) (omega arith) hd)
                  λ mo in_mo.
                    then-IsCronResult 0 6 _ _
                      (parse_field-IsParsed fuel e 0 6 (omega arith) (omega arith) (omega arith) he)
                      λ dw in_dw. record {
                        minutes_in = in_mi;
                        hours_in = in_ho;
                        days_in = in_dm;
                        months_in = in_mo;
                        weekdays_in = in_dw;
                      }

-- An expression none of whose fields has a step that is zero, negative or huge is parsed to values
-- in the ranges of their fields or to an error, with any fuel above 60.
pub parse_cron-IsCronResult :
    (fuel : ℕ) (expr : Text)
    → 60 ≤ fuel
    → AreForward (fields_from [] expr)
    → IsCronResult (parse_cron (suc fuel) expr)
unfolding parse_cron
parse_cron-IsCronResult fuel expr enough forward =
    fields-IsCronResult fuel expr (fields_from [] expr) enough forward

step_up-zero : (fuel min max : ℕ) → min ≤ max → max < 2 ^ 62 → step_up fuel 0 min max ≡ endless
unfolding step_up cons_value
step_up-zero zero min max le small = refl
step_up-zero (suc fuel) min max le small =
    let same : add64 min 0 ≡ min = omega arith in
    let within : int_lt max min ≡ false = ground arith in
    rw (within, same, step_up-zero fuel min max le small) refl

step_not_star : (field : Text) → is_step field ≡ true → is_star field ≡ false
unfolding is_star is_step same_text has_prefix
step_not_star [] h = refl
step_not_star (a ∷ []) h = ground arith
step_not_star (a ∷ b ∷ cs) h = ground arith

-- A field with a step of zero never ends, whatever the fuel.
pub parse_field-endless :
    (fuel : ℕ) (field : Text) (min max : ℕ)
    → min ≤ max
    → max < 2 ^ 62
    → is_step field ≡ true
    → atoi (drop 2 field) ≡ some 0
    → parse_field fuel field min max ≡ endless
unfolding parse_field
parse_field-endless fuel field min max le small step nought =
    rw (step_not_star field step, step, nought) (step_up-zero fuel min max le small)
