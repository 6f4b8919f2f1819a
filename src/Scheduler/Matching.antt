-- ===== src/Scheduler/Matching.antt =====
-- pkg/scheduler/cron.go: which times an expression matches, and `NextAfter`.
use prisn.Base.{
  ℕ, zero, suc, ◌+◌, ◌-◌, ◌%◌, Bool, true, false, ◌&&◌, ◌||◌, not, ltb, if◌then◌else◌, length,
}
use prisn.Scheduler.Cron.{CronExpr, contains}

-- What `time.Time` gives for an instant, counted in nanoseconds: the fields of its date in the
-- location of the server, and `AddDate(4, 0, 0)`.
pub record Calendar : Type 0 where
  pub minute : ℕ → ℕ
  pub hour : ℕ → ℕ
  pub day : ℕ → ℕ
  pub month : ℕ → ℕ
  pub weekday : ℕ → ℕ
  pub four_years_after : ℕ → ℕ

-- Either day may match where both are restricted.
day_matches : CronExpr → Bool → Bool → Bool
day_matches c day_of_month_match day_of_week_match =
    let dom_restricted = ltb (length c.days_of_month) 31 in
    let dow_restricted = ltb (length c.days_of_week) 7 in
    if dom_restricted && dow_restricted
    then day_of_month_match || day_of_week_match
    else if dom_restricted
    then day_of_month_match
    else if dow_restricted
    then day_of_week_match
    else true

unfoldable pub matches : Calendar → CronExpr → ℕ → Bool
unfolding day_matches
matches cal c t =
    if not (contains c.minutes (cal.minute t))
    then false
    else if not (contains c.hours (cal.hour t))
    then false
    else if not (contains c.months (cal.month t))
    then false
    else day_matches c (contains c.days_of_month (cal.day t))
        (contains c.days_of_week (cal.weekday t))

-- time.Minute
abbrev pub minute_length : ℕ
minute_length = 60000000000

-- `missing` is the zero time.
pub data Next : Type 0 where
  found : ℕ → Next
  missing : Next
  out_of_fuel : Next

-- for t.Before(endSearch)
unfoldable pub search : Calendar → CronExpr → ℕ → ℕ → ℕ → Next
search cal c zero end t = out_of_fuel
search cal c (suc fuel) end t =
    let rest = search cal c fuel end (t + minute_length) in
    if ltb t end then (if matches cal c t then found t else rest) else missing

-- after.Truncate(time.Minute).Add(time.Minute)
unfoldable pub next_minute : ℕ → ℕ
next_minute after = after - after % minute_length + minute_length

unfoldable pub next_after : Calendar → CronExpr → ℕ → ℕ → Next
unfolding search next_minute
next_after cal c fuel after = search cal c fuel (cal.four_years_after after) (next_minute after)
