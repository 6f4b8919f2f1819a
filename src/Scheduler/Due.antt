-- ===== src/Scheduler/Due.antt =====
-- When the job of a schedule is started, and started again.
use prisn.Base.{
  ℕ, suc, ◌+◌, ◌*◌, ◌≤◌, ◌<◌, ◌≡◌, refl, ◌∙◌, sym, subst, inl, inr, Option, none, some, some_inj,
  List, [], ◌∷◌, Bool, true, false, ◌&&◌, ◌||◌, leb, String, str_eq, eq_iff, Bool-cases, arith,
}
use prisn.Base.Text.{codes}
use prisn.Scheduler.Cron.{CronExpr, ok, parse_cron, expand_shortcut}
use prisn.Scheduler.Matching.{
  Calendar, Next, found, missing, out_of_fuel, next_after, next_minute, minute_length, matches,
}
use prisn.Scheduler.Search.{IsFirstMatch, next_after-IsFirstMatch}
use prisn.Scheduler.Jobs.{
  CronSchedule, is_due, insert_by_next_run, get_due_cron_schedules, update_cron_schedule,
  check_and_run, Attempt, Execution, done, time_of, run_scheduled_job, execution_of, reschedule,
  set_next,
}

-- a schedule of this identifier
abbrev pub has_schedule : String → List CronSchedule → Bool
has_schedule id [] = false
has_schedule id (s ∷ ss) = str_eq s.id id || has_schedule id ss

-- a schedule of this identifier that is enabled and whose time has come
abbrev pub is_waiting : String → ℕ → List CronSchedule → Bool
is_waiting id now [] = false
is_waiting id now (s ∷ ss) =
    str_eq s.id id && s.enabled && leb s.next_run now || is_waiting id now ss

has_schedule-insert :
    (id : String) (s : CronSchedule) (ss : List CronSchedule)
    → has_schedule id (insert_by_next_run s ss) ≡ (str_eq s.id id || has_schedule id ss)
unfolding insert_by_next_run
has_schedule-insert id s [] = refl
has_schedule-insert id s (t ∷ ts) = ground (arith, has_schedule-insert id s ts)

has_schedule-check_and_run :
    (id : String) (now : ℕ) (rows : List CronSchedule)
    → has_schedule id (check_and_run now rows) ≡ is_waiting id now rows
unfolding check_and_run get_due_cron_schedules is_due
has_schedule-check_and_run id now [] = refl
has_schedule-check_and_run id now (s ∷ ss) = ground (
  arith,
  has_schedule-check_and_run id now ss,
  has_schedule-insert id s (get_due_cron_schedules now ss),
)

-- an enabled schedule of this identifier
abbrev pub has_enabled : String → List CronSchedule → Bool
has_enabled id [] = false
has_enabled id (s ∷ ss) = str_eq s.id id && s.enabled || has_enabled id ss

is_waiting-update :
    (id : String) (next last now : ℕ) (rows : List CronSchedule)
    → is_waiting id now (update_cron_schedule id next last rows)
      ≡ (has_enabled id rows && leb next now)
unfolding update_cron_schedule
is_waiting-update id next last now [] = refl
is_waiting-update id next last now (s ∷ ss) = ground (arith, is_waiting-update id next last now ss)

is_waiting-update_other :
    (id other : String) (next last now : ℕ) (rows : List CronSchedule)
    → str_eq other id ≡ false
    → is_waiting other now (update_cron_schedule id next last rows) ≡ is_waiting other now rows
unfolding update_cron_schedule
is_waiting-update_other id other next last now [] differ = refl
is_waiting-update_other id other next last now (s ∷ ss) differ = ground (
  arith,
  differ,
  eq_iff s.id id,
  eq_iff s.id other,
  eq_iff other id,
  is_waiting-update_other id other next last now ss differ,
)

is_waiting-later :
    (id : String) (now later : ℕ) (rows : List CronSchedule)
    → now ≤ later
    → is_waiting id now rows ≡ true
    → is_waiting id later rows ≡ true
is_waiting-later id now later [] le h = absurd (ground arith)
is_waiting-later id now later (s ∷ ss) le h =
    ground (arith, h, le, is_waiting-later id now later ss le)

time_of-first :
    (cal : Calendar) (c : CronExpr) (end t : ℕ) (n : Next)
    → IsFirstMatch cal c end t n
    → (next : ℕ) × (time_of n ≡ some next)
unfolding time_of
time_of-first cal c end t (found u) h = (u, refl)
time_of-first cal c end t missing h = (0, refl)
time_of-first cal c end t out_of_fuel h = absurd h

run-done :
    (cal : Calendar) (c : CronExpr) (parse_fuel fuel next : ℕ) (a : Attempt) (sched : CronSchedule)
    (rows : List CronSchedule)
    → a.deployment_found ≡ true
    → a.recorded ≡ true
    → a.updated ≡ true
    → parse_cron parse_fuel (codes (expand_shortcut sched.schedule)) ≡ ok c
    → time_of (next_after cal c fuel a.now) ≡ some next
    → run_scheduled_job cal parse_fuel fuel a sched rows
      ≡ done (some (execution_of a sched)) (update_cron_schedule sched.id next a.completed_at rows)
unfolding run_scheduled_job reschedule set_next
run-done cal c parse_fuel fuel next a sched rows here recorded updated parsed time =
    rw (here, recorded, parsed, time, updated) refl

-- A run whose deployment exists, whose execution is recorded and whose update succeeds, with an
-- expression that parses and fuel for the minutes of the search, leaves the table so that a check at any
-- time starts the schedule again exactly if it is enabled and its next time has come: the first matching
-- minute after the run, or the zero time if there is none. What a check starts of another schedule stays
-- the same.
pub run_scheduled_job-IsRescheduled :
    (cal : Calendar) (c : CronExpr) (parse_fuel fuel t : ℕ) (a : Attempt) (sched : CronSchedule)
    (rows : List CronSchedule) (other : String)
    → a.deployment_found ≡ true
    → a.recorded ≡ true
    → a.updated ≡ true
    → parse_cron parse_fuel (codes (expand_shortcut sched.schedule)) ≡ ok c
    → cal.four_years_after a.now ≤ next_minute a.now + fuel * minute_length
    → str_eq other sched.id ≡ false
    → (n : Next) × (next : ℕ) × (exec : Option Execution) × (left : List CronSchedule)
      × IsFirstMatch cal c (cal.four_years_after a.now) (next_minute a.now) n
      × (time_of n ≡ some next)
      × (run_scheduled_job cal parse_fuel (suc fuel) a sched rows ≡ done exec left)
      × (has_schedule sched.id (check_and_run t left) ≡ (has_enabled sched.id rows && leb next t))
      × (has_schedule other (check_and_run t left) ≡ has_schedule other (check_and_run t rows))
run_scheduled_job-IsRescheduled cal c parse_fuel fuel t a sched rows other here recorded updated
      parsed enough differ =
    let first = next_after-IsFirstMatch cal c fuel a.now enough in
    let (next, time) =
      time_of-first cal c (cal.four_years_after a.now) (next_minute a.now)
        (next_after cal c (suc fuel) a.now) first in
    let left = update_cron_schedule sched.id next a.completed_at rows in
    (
      next_after cal c (suc fuel) a.now,
      next,
      some (execution_of a sched),
      left,
      first,
      time,
      run-done cal c parse_fuel (suc fuel) next a sched rows here recorded updated parsed time,
      has_schedule-check_and_run sched.id t left
          ∙ is_waiting-update sched.id next a.completed_at t rows,
      has_schedule-check_and_run other t left
          ∙ is_waiting-update_other sched.id other next a.completed_at t rows differ
          ∙ sym (has_schedule-check_and_run other t rows),
    )

no_match :
    (cal : Calendar) (c : CronExpr) (end t : ℕ) (n : Next) (next : ℕ)
    → IsFirstMatch cal c end t n
    → IsFirstMatch cal c end t missing
    → time_of n ≡ some next
    → next ≡ 0
unfolding time_of
no_match cal c end t (found u) next (k, e, below, rings, _) never h = absurd (
    ground (
      arith,
      rings,
      subst (λ v. matches cal c v ≡ false) (sym e) (never k (subst (λ v. v < end) e below)),
    ))
no_match cal c end t missing next first never h = sym (some_inj h)
no_match cal c end t out_of_fuel next first never h = absurd first

-- Where no minute of the search matches, the same run leaves an enabled schedule in such a way that
-- every check starts it, at whatever time.
pub run_scheduled_job-endless :
    (cal : Calendar) (c : CronExpr) (parse_fuel fuel t : ℕ) (a : Attempt) (sched : CronSchedule)
    (rows : List CronSchedule)
    → a.deployment_found ≡ true
    → a.recorded ≡ true
    → a.updated ≡ true
    → parse_cron parse_fuel (codes (expand_shortcut sched.schedule)) ≡ ok c
    → cal.four_years_after a.now ≤ next_minute a.now + fuel * minute_length
    → has_enabled sched.id rows ≡ true
    → IsFirstMatch cal c (cal.four_years_after a.now) (next_minute a.now) missing
    → (exec : Option Execution) × (left : List CronSchedule) × (run_scheduled_job cal parse_fuel
          (suc fuel)
          a
          sched
          rows
        ≡ done exec left)
      × (has_schedule sched.id (check_and_run t left) ≡ true)
run_scheduled_job-endless cal c parse_fuel fuel t a sched rows here recorded updated parsed enough
      enabled never =
    let first = next_after-IsFirstMatch cal c fuel a.now enough in
    let n = next_after cal c (suc fuel) a.now in
    let (next, time) =
      time_of-first cal c (cal.four_years_after a.now) (next_minute a.now) n first in
    let zero_time =
      no_match cal c (cal.four_years_after a.now) (next_minute a.now) n next first never time in
    let left = update_cron_schedule sched.id next a.completed_at rows in
    (
      some (execution_of a sched),
      left,
      run-done cal c parse_fuel (suc fuel) next a sched rows here recorded updated parsed time,
      has_schedule-check_and_run sched.id t left
          ∙ is_waiting-update sched.id next a.completed_at t rows
          ∙ ground (arith, enabled, zero_time),
    )

-- A schedule that a check starts is started by every later check on the same table; and a run that does
-- not find the deployment, or cannot record the execution, leaves the table the same.
pub run_scheduled_job-again :
    (cal : Calendar) (parse_fuel fuel now later : ℕ) (a : Attempt) (sched : CronSchedule)
    (rows : List CronSchedule)
    → has_schedule sched.id (check_and_run now rows) ≡ true
    → now ≤ later
    → (a.deployment_found && a.recorded) ≡ false
    → (run_scheduled_job cal parse_fuel fuel a sched rows ≡ done none rows)
      × (has_schedule sched.id (check_and_run later rows) ≡ true)
unfolding run_scheduled_job
run_scheduled_job-again cal parse_fuel fuel now later a sched rows started le missed = (
  elim (Bool-cases a.deployment_found) [
    | inr gone ↦ rw gone refl
    | inl here ↦ let off : a.recorded ≡ false = ground (arith, missed, here) in rw (here, off) refl
  ],
  has_schedule-check_and_run sched.id later rows
      ∙ is_waiting-later sched.id now later rows le
          (sym (has_schedule-check_and_run sched.id now rows) ∙ started),
)
