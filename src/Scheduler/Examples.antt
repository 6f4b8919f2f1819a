-- ===== src/Scheduler/Examples.antt =====
-- Cron expressions on concrete texts and a small calendar, and the theorems of pkg/scheduler there.
use prisn.Base.{◌+◌, ◌*◌, ◌/◌, ◌%◌, ◌≡◌, refl, String, some, some_inj, [], ◌∷◌, true, arith}
use prisn.Scheduler.Cron.{
  CronExpr, ok, err, endless, field_count, atoi, is_step, parse_field, parse_cron, fields_from,
  expand_shortcut, step_up,
}
use prisn.Base.Text.{Text, codes}
use prisn.Scheduler.Matching.{Calendar, matches, minute_length, next_minute, next_after, found}
use prisn.Scheduler.Cron.Bounds.{IsForward}
use prisn.Scheduler.Cron.Ends.{AreForward, IsCronResult, parse_cron-IsCronResult}
use prisn.Scheduler.Search.{IsFirstMatch, next_after-IsFirstMatch}

abbrev working_hours : Text
working_hours = codes "*/15 9 * 1,6 1-5"

working_hours_parsed :
    parse_cron 61 working_hours
    ≡ ok (record {
      minutes = 0 ∷ 15 ∷ 30 ∷ 45 ∷ [];
      hours = 9 ∷ [];
      days_of_month =
          1 ∷ 2 ∷ 3 ∷ 4 ∷ 5 ∷ 6 ∷ 7 ∷ 8 ∷ 9 ∷ 10 ∷ 11 ∷ 12 ∷ 13 ∷ 14 ∷ 15 ∷ 16 ∷ 17 ∷ 18 ∷ 19 ∷ 20
          ∷ 21 ∷ 22 ∷ 23 ∷ 24 ∷ 25 ∷ 26 ∷ 27 ∷ 28 ∷ 29 ∷ 30 ∷ 31 ∷ [];
      months = 1 ∷ 6 ∷ [];
      days_of_week = 1 ∷ 2 ∷ 3 ∷ 4 ∷ 5 ∷ [];
      raw = working_hours;
    })
unfolding parse_cron parse_field prisn.Scheduler.Cron.is_star is_step atoi step_up
    prisn.Scheduler.Cron.parse_parts prisn.Scheduler.Cron.split prisn.Scheduler.Cron.parse_part
    prisn.Scheduler.Cron.contains prisn.Scheduler.Cron.count_up
working_hours_parsed = refl

too_few : parse_cron 61 (codes "* * * *") ≡ err field_count
unfolding parse_cron
too_few = refl

weekly : expand_shortcut "@weekly" ≡ "0 0 * * 0"
unfolding expand_shortcut prisn.Base.Dict.lookup
weekly = refl

quarter-IsForward : IsForward (codes "*/15")
unfolding atoi
quarter-IsForward _ step e = let same : 15 ≡ step = some_inj e in (omega arith, omega arith)

working_hours-AreForward : AreForward (fields_from [] working_hours)
unfolding fields_from is_step
working_hours-AreForward =
    (quarter-IsForward, ((λ h. cc), ((λ h. cc), ((λ h. cc), ((λ h. cc), tt)))))

parse_cron-IsCronResult_example : IsCronResult (parse_cron 61 working_hours)
parse_cron-IsCronResult_example =
    parse_cron-IsCronResult 60 working_hours (omega arith) working_hours-AreForward

nought_is_step : is_step (codes "*/0") ≡ true
unfolding is_step
nought_is_step = refl

nought : atoi (codes "0") ≡ some 0
unfolding atoi
nought = refl

-- a calendar of days that all have 24 hours and of months that all have 30 days
abbrev pub calendar : Calendar
calendar = record {
  minute = λ t. t / minute_length % 60;
  hour = λ t. t / (60 * minute_length) % 24;
  day = λ t. t / (1440 * minute_length) % 30 + 1;
  month = λ t. t / (43200 * minute_length) % 12 + 1;
  weekday = λ t. t / (1440 * minute_length) % 7;
  four_years_after = λ t. t + 10 * minute_length;
}

abbrev every_third_minute : CronExpr
every_third_minute = record {
  minutes = 3 ∷ 6 ∷ 9 ∷ [];
  hours = 0 ∷ [];
  days_of_month = 1 ∷ [];
  months = 1 ∷ [];
  days_of_week = 3 ∷ [];
  raw = codes "3,6,9 0 1 1 3";
}

next_after_found : next_after calendar every_third_minute 11 1000 ≡ found 180000000000
unfolding next_after matches prisn.Scheduler.Cron.contains
next_after_found = refl

next_after-IsFirstMatch_example :
    IsFirstMatch calendar every_third_minute
      (calendar.four_years_after 1000)
      (next_minute 1000)
      (next_after calendar every_third_minute 11 1000)
unfolding next_minute
next_after-IsFirstMatch_example =
    next_after-IsFirstMatch calendar every_third_minute 10 1000 (omega arith)
