-- ===== src/Operator.antt =====
-- operator/controllers: the reconciliation of cron jobs (prisncronjob_controller.go). A time is a
-- number of nanoseconds since the zero time of package time, a duration the bit pattern of an int64. The calendar of a schedule
-- (robfig/cron), the names that Sprintf builds, the order that sort.Slice makes and the answers of the
-- API server are given from outside.
pub mod CronJobs
pub mod Runs
pub mod Cleanup
pub mod Concurrency
pub mod Due
pub mod GivenUp
pub mod Examples
use prisn.Base.{
  ℕ, zero, suc, ◌+◌, ◌-◌, ◌*◌, ◌≤◌, ◌<◌, ◌≡◌, Option, none, some, List, [], ◌∷◌, Bool, true, false,
  ltb, leb, ◌%◌, ◌^◌, ◌||◌, if◌then◌else◌, String,
}

pub data JobPhase : Type 0 where
  not_set pending running succeeded failed : JobPhase

-- PrisnJob, as far as a cron job looks at it
pub record Job : Type 0 where
  pub name : String
  pub phase : JobPhase
  pub completion_time : Option ℕ

pub data ConcurrencyPolicy : Type 0 where
  allow forbid replace : ConcurrencyPolicy

pub record CronJobStatus : Type 0 where
  pub active : List String
  pub last_schedule_time : Option ℕ
  pub next_schedule_time : Option ℕ
  pub last_successful_time : Option ℕ

pub record CronJob : Type 0 where
  pub name : String
  pub schedule : String
  pub suspend : Bool
  pub starting_deadline_seconds : Option ℕ
  pub concurrency_policy : ConcurrencyPolicy
  pub successful_jobs_history_limit : ℕ
  pub failed_jobs_history_limit : ℕ
  pub created_at : ℕ
  pub being_deleted : Bool
  pub has_finalizer : Bool
  pub status : CronJobStatus

abbrev pub one_second : ℕ
one_second = 1000000000

-- 100*24*time.Hour
abbrev pub hundred_days : ℕ
hundred_days = 100 * 24 * 3600 * one_second

-- `Next` of a schedule: the zero time where there is none.
abbrev pub Schedule : Type 0
Schedule = ℕ → ℕ

pub data Missed : Type 0 where
  missed : Option ℕ → Missed
  too_many : Missed
  out_of_fuel : Missed

-- The loop of getMissedRun: `t` is the time looked at, `found` the run found so far.
unfoldable pub missed_from : ℕ → Schedule → (earliest now t : ℕ) → Option ℕ → Missed
missed_from zero next earliest now t found = out_of_fuel
missed_from (suc fuel) next earliest now t found =
    let rest = missed_from fuel next earliest now (next t) (some t) in
    if ltb now t then missed found else if ltb (earliest + hundred_days) t then too_many else rest

unfoldable pub started_at : CronJob → Option ℕ → ℕ
started_at cj none = cj.created_at
started_at cj (some t) = t

-- time.Duration(seconds) * time.Second: an int64, which wraps around
unfoldable pub seconds_of : ℕ → ℕ
seconds_of seconds = (seconds * one_second) % 2 ^ 64

-- Add of a time and an int64. A time before the zero time is read as the zero time, which is as early.
unfoldable pub add_duration : (time duration : ℕ) → ℕ
add_duration time duration =
    if leb (2 ^ 63) duration then time - (2 ^ 64 - duration) else time + duration

not_before : (now earliest : ℕ) → Option ℕ → ℕ
unfolding seconds_of add_duration
not_before now earliest none = earliest
not_before now earliest (some seconds) =
    let deadline = add_duration now ((2 ^ 64 - seconds_of seconds) % 2 ^ 64) in
    if ltb earliest deadline then deadline else earliest

unfoldable pub earliest_time : CronJob → (now : ℕ) → ℕ
unfolding started_at not_before
earliest_time cj now =
    not_before now (started_at cj cj.status.last_schedule_time) cj.starting_deadline_seconds

unfoldable pub get_missed_run : (fuel : ℕ) → CronJob → Schedule → (now : ℕ) → Missed
unfolding missed_from earliest_time
get_missed_run fuel cj next now =
    let earliest = earliest_time cj now in
    if ltb now earliest
    then missed none
    else missed_from fuel next earliest now (next earliest) none
