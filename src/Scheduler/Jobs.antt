-- ===== src/Scheduler/Jobs.antt =====
-- pkg/scheduler/scheduler.go: which jobs a check starts and what a run leaves, with the statements of
-- pkg/store/store.go on the table of schedules. A time counts nanoseconds since the zero time, which is
-- 0. What the store, the runner and the clock answer is given from outside.
use prisn.Base.{
  ℕ, ◌+◌, ◌-◌, ◌*◌, ◌^◌, Option, none, some, List, [], ◌∷◌, Bool, true, false, not, ◌&&◌, leb, ◌==◌,
  if◌then◌else◌, String, str_eq,
}
use prisn.Base.Text.{codes}
use prisn.Scheduler.Cron.{CronExpr, Parsed, ok, err, endless, parse_cron, expand_shortcut}
use prisn.Scheduler.Matching.{Calendar, Next, found, missing, out_of_fuel, next_after}

pub record CronSchedule : Type 0 where
  pub id : String
  pub deployment_id : String
  pub schedule : String
  pub next_run : ℕ
  pub last_run : Option ℕ
  pub enabled : Bool

-- ORDER BY next_run ASC
unfoldable pub insert_by_next_run : CronSchedule → List CronSchedule → List CronSchedule
insert_by_next_run s [] = s ∷ []
insert_by_next_run s (t ∷ ts) =
    let rest = insert_by_next_run s ts in if leb s.next_run t.next_run then s ∷ t ∷ ts else t ∷ rest

-- WHERE enabled = 1 AND next_run <= ?
unfoldable pub is_due : ℕ → CronSchedule → Bool
is_due before s = s.enabled && leb s.next_run before

unfoldable pub get_due_cron_schedules : ℕ → List CronSchedule → List CronSchedule
get_due_cron_schedules before [] = []
get_due_cron_schedules before (s ∷ ss) =
    let rest = get_due_cron_schedules before ss in
    if is_due before s then insert_by_next_run s rest else rest

unfoldable pub update_cron_schedule : String → ℕ → ℕ → List CronSchedule → List CronSchedule
update_cron_schedule id next_run last_run [] = []
update_cron_schedule id next_run last_run (s ∷ ss) =
    let rest = update_cron_schedule id next_run last_run ss in
    if str_eq s.id id
    then record s { next_run = next_run; last_run = some last_run } ∷ rest
    else s ∷ rest

unfoldable pub disable_cron_schedule : String → List CronSchedule → List CronSchedule
disable_cron_schedule id [] = []
disable_cron_schedule id (s ∷ ss) =
    let rest = disable_cron_schedule id ss in
    if str_eq s.id id then record s { enabled = false } ∷ rest else s ∷ rest

-- The schedules whose jobs a check starts, each in a goroutine of its own.
unfoldable pub check_and_run : ℕ → List CronSchedule → List CronSchedule
unfolding get_due_cron_schedules
check_and_run now rows = get_due_cron_schedules now rows

pub data ExecutionStatus : Type 0 where
  completed_status failed_status : ExecutionStatus

-- What the runner gives back: an error, or an exit code.
pub data RunResult : Type 0 where
  run_failed : RunResult
  run_ended : (exit_code : ℕ) → RunResult

pub record Execution : Type 0 where
  pub deployment_id : String
  pub status : ExecutionStatus
  pub exit_code : ℕ
  pub started_at : ℕ
  pub completed_at : ℕ
  pub duration : ℕ

-- What happens around one run, in the order in which it is asked.
pub record Attempt : Type 0 where
  pub deployment_found : Bool
  pub recorded : Bool
  pub started_at : ℕ
  pub result : RunResult
  pub completed_at : ℕ
  pub now : ℕ
  pub updated : Bool

exit_code_of : RunResult → ℕ
exit_code_of run_failed = 0
exit_code_of (run_ended code) = code

status_of : RunResult → ExecutionStatus
status_of run_failed = failed_status
status_of (run_ended code) = if code == 0 then completed_status else failed_status

unfoldable pub execution_of : Attempt → CronSchedule → Execution
unfolding exit_code_of status_of
execution_of a sched = record {
  deployment_id = sched.deployment_id;
  status = status_of a.result;
  exit_code = exit_code_of a.result;
  started_at = a.started_at;
  completed_at = a.completed_at;
  duration = a.completed_at - a.started_at;
}

-- What a run leaves: its execution and the schedules; or ParseCron goes round for ever.
pub data Ran : Type 0 where
  done : Option Execution → List CronSchedule → Ran
  stuck : Ran

-- 30 * time.Second
abbrev pub fallback_delay : ℕ
fallback_delay = 30 * 10 ^ 9

unfoldable pub time_of : Next → Option ℕ
time_of (found t) = some t
time_of missing = some 0
time_of out_of_fuel = none

-- The update, or its second attempt with a later time after an error
unfoldable pub set_next : Attempt → CronSchedule → List CronSchedule → Option ℕ → Ran
unfolding update_cron_schedule execution_of
set_next a sched rows none = stuck
set_next a sched rows (some t) = done (some (execution_of a sched)) (
    update_cron_schedule sched.id (if a.updated then t else a.now + fallback_delay) a.completed_at
      rows)

unfoldable pub reschedule :
    Calendar → ℕ → Attempt → CronSchedule → List CronSchedule → Parsed CronExpr → Ran
unfolding time_of set_next disable_cron_schedule execution_of
reschedule cal fuel a sched rows endless = stuck
reschedule cal fuel a sched rows (err e) =
    done (some (execution_of a sched)) (disable_cron_schedule sched.id rows)
reschedule cal fuel a sched rows (ok c) =
    set_next a sched rows (time_of (next_after cal c fuel a.now))

unfoldable pub run_scheduled_job :
    Calendar → (parse_fuel search_fuel : ℕ) → Attempt → CronSchedule → List CronSchedule → Ran
unfolding reschedule
run_scheduled_job cal parse_fuel search_fuel a sched rows =
    if not a.deployment_found
    then done none rows
    else if not a.recorded
    then done none rows
    else reschedule cal search_fuel a sched rows
        (parse_cron parse_fuel (codes (expand_shortcut sched.schedule)))

pub data Registered : Type 0 where
  created : CronSchedule → Registered
  no_schedule invalid_expression endless_expression : Registered

unfoldable pub new_schedule : (id deployment_id schedule : String) → Option ℕ → Registered
new_schedule id deployment_id schedule none = endless_expression
new_schedule id deployment_id schedule (some t) = created (record {
  id = id;
  deployment_id = deployment_id;
  schedule = schedule;
  next_run = t;
  last_run = none;
  enabled = true;
})

unfoldable pub register_parsed :
    Calendar → ℕ → ℕ → (id deployment_id schedule : String) → Parsed CronExpr → Registered
unfolding new_schedule time_of
register_parsed cal fuel now id deployment_id schedule endless = endless_expression
register_parsed cal fuel now id deployment_id schedule (err e) = invalid_expression
register_parsed cal fuel now id deployment_id schedule (ok c) =
    new_schedule id deployment_id schedule (time_of (next_after cal c fuel now))

unfoldable pub register_deployment :
    Calendar → (parse_fuel search_fuel now : ℕ) → (id deployment_id schedule : String) → Registered
unfolding register_parsed
register_deployment cal parse_fuel search_fuel now id deployment_id schedule =
    if str_eq schedule ""
    then no_schedule
    else register_parsed cal search_fuel now id deployment_id schedule
        (parse_cron parse_fuel (codes (expand_shortcut schedule)))
