-- ===== src/Scheduler/JobExamples.antt =====
-- Two schedules and their runs, and the theorems of pkg/scheduler/scheduler.go at them.
use prisn.Base.{
  ℕ, ◌+◌, ◌*◌, ◌^◌, ◌<◌, ◌≡◌, refl, Option, none, some, List, [], ◌∷◌, Bool, true, false, ◌&&◌, leb,
  String, arith,
}
use prisn.Base.Text.{codes}
use prisn.Scheduler.Cron.{CronExpr, ok, parse_cron, expand_shortcut}
use prisn.Scheduler.Matching.{Calendar, Next, next_minute, matches}
use prisn.Scheduler.Search.{IsFirstMatch, minute_from}
use prisn.Scheduler.Jobs.{
  CronSchedule, check_and_run, Attempt, Execution, done, run_ended, time_of, run_scheduled_job,
  register_deployment, no_schedule, invalid_expression,
}
use prisn.Scheduler.Due.{has_schedule, run_scheduled_job-IsRescheduled}
use prisn.Scheduler.Examples.{calendar}

abbrev early : CronSchedule
early = record {
  id = "early";
  deployment_id = "report";
  schedule = "3,6,9 0 1 1 *";
  next_run = 100;
  last_run = none;
  enabled = true;
}

abbrev two_schedules : List CronSchedule
two_schedules = early ∷ record early { id = "late"; schedule = "@hourly"; next_run = 50 } ∷ []

-- the one whose time has come first is started first
both_start :
    check_and_run 1000 two_schedules
    ≡ record early { id = "late"; schedule = "@hourly"; next_run = 50 } ∷ early ∷ []
unfolding check_and_run prisn.Scheduler.Jobs.get_due_cron_schedules prisn.Scheduler.Jobs.is_due
    prisn.Scheduler.Jobs.insert_by_next_run
both_start = refl

abbrev good_run : Attempt
good_run = record {
  deployment_found = true;
  recorded = true;
  started_at = 1000;
  result = run_ended 0;
  completed_at = 1900;
  now = 2000;
  updated = true;
}

abbrev all_days : List ℕ
all_days =
    1 ∷ 2 ∷ 3 ∷ 4 ∷ 5 ∷ 6 ∷ 7 ∷ 8 ∷ 9 ∷ 10 ∷ 11 ∷ 12 ∷ 13 ∷ 14 ∷ 15 ∷ 16 ∷ 17 ∷ 18 ∷ 19 ∷ 20 ∷ 21
    ∷ 22 ∷ 23 ∷ 24 ∷ 25 ∷ 26 ∷ 27 ∷ 28 ∷ 29 ∷ 30 ∷ 31 ∷ []

abbrev early_parsed : CronExpr
early_parsed = record {
  minutes = 3 ∷ 6 ∷ 9 ∷ [];
  hours = 0 ∷ [];
  days_of_month = 1 ∷ [];
  months = 1 ∷ [];
  days_of_week = 0 ∷ 1 ∷ 2 ∷ 3 ∷ 4 ∷ 5 ∷ 6 ∷ [];
  raw = codes "3,6,9 0 1 1 *";
}

early_parses : parse_cron 61 (codes (expand_shortcut "3,6,9 0 1 1 *")) ≡ ok early_parsed
unfolding parse_cron prisn.Scheduler.Cron.parse_field prisn.Scheduler.Cron.is_star
    prisn.Scheduler.Cron.is_step prisn.Scheduler.Cron.atoi prisn.Scheduler.Cron.step_up
    prisn.Scheduler.Cron.parse_parts prisn.Scheduler.Cron.split prisn.Scheduler.Cron.parse_part
    prisn.Scheduler.Cron.contains prisn.Scheduler.Cron.count_up expand_shortcut
    prisn.Base.Dict.lookup
early_parses = refl

run_scheduled_job-IsRescheduled_example :
    (n : Next) × (next : ℕ) × (exec : Option Execution) × (left : List CronSchedule) × IsFirstMatch
      calendar early_parsed
      (calendar.four_years_after 2000)
      (next_minute 2000)
      n
    × (time_of n ≡ some next)
    × (run_scheduled_job calendar 61 11 good_run early two_schedules ≡ done exec left)
    × (has_schedule "early" (check_and_run 3000 left) ≡ (true && leb next 3000))
    × (has_schedule "late" (check_and_run 3000 left)
        ≡ has_schedule "late" (check_and_run 3000 two_schedules))
unfolding next_minute
run_scheduled_job-IsRescheduled_example =
    run_scheduled_job-IsRescheduled calendar early_parsed 61 10 3000 good_run early two_schedules
      "late" refl refl refl early_parses (omega arith) refl

-- a clock that stands at five minutes past the hour
abbrev stopped_clock : Calendar
stopped_clock = record calendar { minute = λ t. 5 }

never_three :
    (k : ℕ)
    → minute_from (next_minute 2000) k < stopped_clock.four_years_after 2000
    → matches stopped_clock early_parsed (minute_from (next_minute 2000) k) ≡ false
unfolding matches prisn.Scheduler.Cron.contains
never_three k below = refl

abbrev orphan_run : Attempt
orphan_run = record good_run { deployment_found = false }

early_starts : has_schedule "early" (check_and_run 1000 two_schedules) ≡ true
unfolding check_and_run prisn.Scheduler.Jobs.get_due_cron_schedules prisn.Scheduler.Jobs.is_due
    prisn.Scheduler.Jobs.insert_by_next_run
early_starts = refl

empty_is_refused : register_deployment calendar 61 11 5 "c1" "report" "" ≡ no_schedule
unfolding register_deployment
empty_is_refused = refl
