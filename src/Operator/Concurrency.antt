-- ===== src/Operator/Concurrency.antt =====
-- What Reconcile of operator/controllers/prisncronjob_controller.go does while jobs run, and when a run
-- is due.
use mathlib.Core.List.{Memᴰ}
use prisn.Base.{
  ℕ, ◌-◌, ◌≡◌, inl, inr, refl, sym, Option, none, some, List, [], ◌∷◌, Bool, true, false, not,
  Bool-cases, subst, if◌then◌else◌,
}
use prisn.Operator.{
  Job, forbid, CronJob, CronJobStatus, Schedule, Missed, missed, too_many, out_of_fuel,
  get_missed_run,
}
use prisn.Operator.CronJobs.{
  Cluster, Result, requeue_after, Outside, with_phase, is_active_phase, names, update_active_jobs,
  cleanup_old_jobs, save_status, is_nil, start_job, is_past, act, schedule_run, reconcile_live,
  set_finalizer, reconcile,
}
use prisn.Operator.Cleanup.{IsWithin, SortsOnly, AreKeys, cleanup-IsWithin, cleanup-keeps}

active_job :
    (j : Job) (js : List Job)
    → Memᴰ j js
    → is_active_phase j.phase ≡ true
    → is_nil (names (with_phase is_active_phase js)) ≡ false
unfolding names with_phase is_nil
active_job j [] m h = elim m [ ]
active_job j (k ∷ js) (Memᴰ.head e) h =
    let k_active : is_active_phase k.phase ≡ true =
      subst (λ x. is_active_phase x.phase ≡ true) e h in
    rw k_active refl
active_job j (k ∷ js) (Memᴰ.tail m) h = elim (Bool-cases (is_active_phase k.phase)) [
  | inl e ↦ rw e refl
  | inr e ↦ rw e (active_job j js m h)
]

either_cluster :
    (P : List Job → Type 0) (b : Bool) (x y : Cluster × Result)
    → P x.0.jobs
    → P y.0.jobs
    → P (if◌then◌else◌ {A = Cluster × Result} b x y).0.jobs
either_cluster P true x y h k = h
either_cluster P false x y h k = k

-- With Forbid and an active job, whatever run is found, the jobs stay.
module _ (P : List Job → Type 0) (o : Outside) (now : ℕ) (cj : CronJob) (st : CronJobStatus)
    (jobs : List Job) (is_forbid : cj.concurrency_policy ≡ forbid) (busy : is_nil st.active ≡ false)
    (holds : P jobs) where
  save-holds : (st' : CronJobStatus) (r : Result) → P (save_status o cj st' jobs r).0.jobs
  unfolding save_status
  save-holds st' r = either_cluster P o.status_ok _ _ holds holds

  start-holds : (t : ℕ) (r : Result) → P (start_job cj.concurrency_policy o cj st t jobs r).0.jobs
  unfolding start_job
  start-holds t r =
      subst (λ p. P (start_job p o cj st t jobs r).0.jobs) (sym is_forbid)
        (rw busy (save-holds st r))

  act-holds : (r : Result) (m : Missed) → P (act o now cj st jobs r m).0.jobs
  unfolding act
  act-holds r out_of_fuel = holds
  act-holds r too_many = holds
  act-holds r (missed none) = save-holds st r
  act-holds r (missed (some t)) =
      either_cluster P (is_past now t cj.starting_deadline_seconds) _ _ (save-holds st r)
        (start-holds t r)

schedule_run-holds :
    (P : List Job → Type 0) (o : Outside) (fuel now : ℕ) (cj : CronJob) (st : CronJobStatus)
    (jobs : List Job) (next : Option Schedule)
    → cj.concurrency_policy ≡ forbid
    → is_nil st.active ≡ false
    → P jobs
    → P (schedule_run o fuel now cj st jobs next).0.jobs
unfolding schedule_run
schedule_run-holds P o fuel now cj st jobs none f busy h = h
schedule_run-holds P o fuel now cj st jobs (some next) f busy h =
    act-holds P o now cj (record st { next_schedule_time = some (next now) }) jobs f busy h
      (requeue_after (next now - now)) (get_missed_run fuel cj next now)

-- With the policy Forbid, and as long as some job of the cron job is running or pending: whatever the API server
-- answers and whatever runs are due, a reconciliation starts no job, and that job stays. The names of the
-- jobs are keys, and sorting makes up no job.
pub reconcile-forbid :
    (o : Outside) (fuel now : ℕ) (cj : CronJob) (js : List Job) (j : Job)
    → SortsOnly o
    → AreKeys js
    → cj.concurrency_policy ≡ forbid
    → Memᴰ j js
    → is_active_phase j.phase ≡ true
    → IsWithin (reconcile o fuel now (some cj) js).0.jobs js
      × Memᴰ j (reconcile o fuel now (some cj) js).0.jobs
unfolding reconcile reconcile_live update_active_jobs set_finalizer
reconcile-forbid o fuel now cj js j sorts keys f m active =
    let P : List Job → Type 0 = λ l. IsWithin l js × Memᴰ j l in
    let same : P js = (λ k n. n, m) in
    let finalizer : (b : Bool) (r : Result) → P (set_finalizer o b cj js r).0.jobs =
      λ b r. either_cluster P o.update_ok _ _ same same in
    either_cluster P cj.being_deleted _ _ (finalizer false _) (
      either_cluster P (not cj.has_finalizer) _ _ (finalizer true _) (
        either_cluster P cj.suspend _ _ same (
          either_cluster P (not o.list_ok) _ _ same (
            schedule_run-holds P o fuel now cj (update_active_jobs js cj.status)
              (cleanup_old_jobs o cj js js) (o.parse_schedule cj.schedule) f
              (active_job j js m active)
              (cleanup-IsWithin o cj js js, cleanup-keeps o cj j js sorts keys m active)))))
