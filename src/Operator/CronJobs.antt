-- ===== src/Operator/CronJobs.antt =====
-- Reconcile of operator/controllers/prisncronjob_controller.go, with the jobs of one cron job as the API
-- server keeps them. Creating and deleting a job that the server does not refuse takes effect at once.
use prisn.Base.{
  ℕ, ◌-◌, ◌==◌, Option, none, some, List, [], ◌∷◌, ◌++◌, Bool, true, false, not, ◌||◌, ltb,
  if◌then◌else◌, String, str_eq, length, take,
}
use prisn.Operator.{
  JobPhase, not_set, pending, running, succeeded, failed, Job, ConcurrencyPolicy, allow, forbid,
  replace, CronJobStatus, CronJob, Schedule, Missed, missed, too_many, out_of_fuel, get_missed_run,
  seconds_of, add_duration,
}

pub record Cluster : Type 0 where
  pub cron_job : Option CronJob
  pub jobs : List Job

pub data Result : Type 0 where
  done requeue endless : Result
  requeue_after : ℕ → Result
  error : Result

-- What is answered from outside: whether the server refuses an update of the cron job, of its status, a list
-- of its jobs, the creation of a job, the deletion of one; the parser of schedules, the names of jobs, and
-- the order in which sort.Slice leaves jobs by their completion times.
pub record Outside : Type 0 where
  pub update_ok : Bool
  pub status_ok : Bool
  pub list_ok : Bool
  pub create_ok : Bool
  pub delete_ok : (job : String) → Bool
  pub parse_schedule : String → Option Schedule
  pub job_name : (cron_job : String) → (time : ℕ) → String
  pub sort_by_completion_time : List Job → List Job

unfoldable pub with_phase : (JobPhase → Bool) → List Job → List Job
with_phase p [] = []
with_phase p (j ∷ js) = let rest = with_phase p js in if p j.phase then j ∷ rest else rest

abbrev pub is_active_phase : JobPhase → Bool
is_active_phase running = true
is_active_phase pending = true
is_active_phase _ = false

abbrev pub is_succeeded : JobPhase → Bool
is_succeeded succeeded = true
is_succeeded _ = false

abbrev pub is_failed : JobPhase → Bool
is_failed failed = true
is_failed _ = false

unfoldable pub names : List Job → List String
names [] = []
names (j ∷ js) = j.name ∷ names js

later_of : Option ℕ → Option ℕ → Option ℕ
later_of best none = best
later_of none (some t) = some t
later_of (some b) (some t) = if ltb b t then some t else some b

last_success : List Job → Option ℕ → Option ℕ
unfolding later_of
last_success [] best = best
last_success (j ∷ js) best =
    last_success js (if is_succeeded j.phase then later_of best j.completion_time else best)

or_old : Option ℕ → Option ℕ → Option ℕ
or_old none old = old
or_old (some t) old = some t

unfoldable pub update_active_jobs : List Job → CronJobStatus → CronJobStatus
unfolding with_phase names last_success or_old
update_active_jobs jobs st = record st {
  active = names (with_phase is_active_phase jobs);
  last_successful_time = or_old (last_success jobs none) st.last_successful_time;
}

unfoldable pub remove_job : String → List Job → List Job
remove_job name [] = []
remove_job name (j ∷ js) =
    let rest = remove_job name js in if str_eq j.name name then rest else j ∷ rest

-- Deletes one job after the other, up to the first that the server refuses; then the error is returned. A job
-- that is gone already is passed over.
unfoldable pub delete_jobs : Outside → List Job → List Job → List Job × Bool
unfolding remove_job
delete_jobs o [] jobs = (jobs, true)
delete_jobs o (j ∷ js) jobs =
    let rest = delete_jobs o js (remove_job j.name jobs) in
    if o.delete_ok j.name then rest else (jobs, false)

-- The jobs beyond the limit, the first of the sorted list
unfoldable pub excess : Outside → (limit : ℕ) → List Job → List Job
excess o limit jobs = take (length jobs - limit) (o.sort_by_completion_time jobs)

unfoldable pub or_default : ℕ → ℕ → ℕ
or_default default limit = if limit == 0 then default else limit

unfoldable pub cleanup_old_jobs : Outside → CronJob → (child_jobs jobs : List Job) → List Job
unfolding with_phase excess delete_jobs or_default
cleanup_old_jobs o cj child_jobs jobs =
    let good =
      excess o (or_default 3 cj.successful_jobs_history_limit)
        (with_phase is_succeeded child_jobs) in
    let bad =
      excess o (or_default 1 cj.failed_jobs_history_limit) (with_phase is_failed child_jobs) in
    let r = delete_jobs o good jobs in if r.1 then (delete_jobs o bad r.0).0 else r.0

-- `r.Status().Update`, at the end of a reconciliation
unfoldable pub save_status :
    Outside → CronJob → CronJobStatus → List Job → Result → Cluster × Result
save_status o cj st jobs result =
    if o.status_ok
    then (record { cron_job = some (record cj { status = st }); jobs = jobs }, result)
    else (record { cron_job = some cj; jobs = jobs }, error)

unfoldable pub has_job : String → List Job → Bool
has_job name [] = false
has_job name (j ∷ js) = str_eq j.name name || has_job name js

-- The server refuses a name that is taken.
unfoldable pub create_job :
    Outside → CronJob → CronJobStatus → (time : ℕ) → List Job → Result → Cluster × Result
unfolding has_job save_status
create_job o cj st time jobs result =
    let name = o.job_name cj.name time in
    if has_job name jobs || not o.create_ok
    then (record { cron_job = some cj; jobs = jobs }, error)
    else save_status o cj
        (record st { last_schedule_time = some time; active = st.active ++ name ∷ [] })
        (record { name = name; phase = not_set; completion_time = none } ∷ jobs) result

unfoldable pub delete_active : Outside → List String → List Job → List Job
unfolding remove_job
delete_active o [] jobs = jobs
delete_active o (n ∷ ns) jobs =
    delete_active o ns (if o.delete_ok n then remove_job n jobs else jobs)

unfoldable pub is_nil : List String → Bool
is_nil [] = true
is_nil (n ∷ ns) = false

-- The concurrency policy, then the new job
unfoldable pub start_job :
    ConcurrencyPolicy
    → Outside
    → CronJob
    → CronJobStatus
    → (time : ℕ) → List Job
    → Result
    → Cluster × Result
unfolding create_job delete_active save_status is_nil
start_job allow o cj st time jobs result = create_job o cj st time jobs result
start_job forbid o cj st time jobs result =
    if is_nil st.active
    then create_job o cj st time jobs result
    else save_status o cj st jobs result
start_job replace o cj st time jobs result =
    create_job o cj (record st { active = [] }) time (delete_active o st.active jobs) result

unfoldable pub is_past : (now time : ℕ) → Option ℕ → Bool
unfolding seconds_of add_duration
is_past now time none = false
is_past now time (some seconds) = ltb (add_duration time (seconds_of seconds)) now

unfoldable pub act :
    Outside → (now : ℕ) → CronJob → CronJobStatus → List Job → Result → Missed → Cluster × Result
unfolding is_past start_job save_status
act o now cj st jobs result out_of_fuel = (record { cron_job = some cj; jobs = jobs }, endless)
act o now cj st jobs result too_many = (record { cron_job = some cj; jobs = jobs }, done)
act o now cj st jobs result (missed none) = save_status o cj st jobs result
act o now cj st jobs result (missed (some time)) =
    if is_past now time cj.starting_deadline_seconds
    then save_status o cj st jobs result
    else start_job cj.concurrency_policy o cj st time jobs result

unfoldable pub schedule_run :
    Outside
    → (fuel now : ℕ) → CronJob
    → CronJobStatus
    → List Job
    → Option Schedule
    → Cluster × Result
unfolding act
schedule_run o fuel now cj st jobs none = (record { cron_job = some cj; jobs = jobs }, done)
schedule_run o fuel now cj st jobs (some next) =
    act o now cj (record st { next_schedule_time = some (next now) }) jobs
      (requeue_after (next now - now)) (get_missed_run fuel cj next now)

unfoldable pub reconcile_live : Outside → (fuel now : ℕ) → CronJob → List Job → Cluster × Result
unfolding schedule_run update_active_jobs cleanup_old_jobs
reconcile_live o fuel now cj jobs =
    schedule_run o fuel now cj (update_active_jobs jobs cj.status) (cleanup_old_jobs o cj jobs jobs)
      (o.parse_schedule cj.schedule)

unfoldable pub set_finalizer : Outside → Bool → CronJob → List Job → Result → Cluster × Result
set_finalizer o b cj jobs result =
    if o.update_ok
    then (record { cron_job = some (record cj { has_finalizer = b }); jobs = jobs }, result)
    else (record { cron_job = some cj; jobs = jobs }, error)

unfoldable pub reconcile : Outside → (fuel now : ℕ) → Option CronJob → List Job → Cluster × Result
unfolding set_finalizer reconcile_live
reconcile o fuel now none jobs = (record { cron_job = none; jobs = jobs }, done)
reconcile o fuel now (some cj) jobs =
    if cj.being_deleted
    then set_finalizer o false cj jobs done
    else if not cj.has_finalizer
    then set_finalizer o true cj jobs requeue
    else if cj.suspend
    then (record { cron_job = some cj; jobs = jobs }, done)
    else if not o.list_ok
    then (record { cron_job = some cj; jobs = jobs }, error)
    else reconcile_live o fuel now cj jobs
