-- ===== src/Operator/Due.antt =====
-- What Reconcile of operator/controllers/prisncronjob_controller.go does when a run is due and nothing
-- that it counts as active is there.
use mathlib.Core.List.{Memᴰ}
use prisn.Base.{
  ℕ, ◌+◌, ◌≤◌, ◌<◌, Option, ◌-◌, ◌≡◌, inl, inr, refl, sym, ap, ◌∙◌, none, some, List, [], ◌∷◌, true,
  false, arith, Bool-cases, subst, String, str_eq,
}
use prisn.Operator.{
  not_set, Job, ConcurrencyPolicy, allow, forbid, replace, CronJob, CronJobStatus, Schedule, missed,
  get_missed_run, hundred_days,
}
use prisn.Operator.CronJobs.{
  Cluster, Result, requeue_after, Outside, with_phase, is_active_phase, names, update_active_jobs,
  cleanup_old_jobs, save_status, has_job, create_job, delete_active, is_nil, start_job, is_past,
  act, schedule_run, reconcile_live, reconcile,
}
use prisn.Operator.Runs.{
  IsCalendar, IsLatest, last_run, earliest_time-last_run, get_missed_run-IsLatest,
}
use prisn.Operator.Cleanup.{IsWithin, cleanup-IsWithin}

is_nil→eq : (ns : List String) → is_nil ns ≡ true → ns ≡ []
unfolding is_nil
is_nil→eq [] h = refl
is_nil→eq (n ∷ ns) h = absurd (ground (arith, h))

has_job→Mem :
    (name : String) (js : List Job)
    → has_job name js ≡ true
    → (j : Job) × Memᴰ j js × (str_eq j.name name ≡ true)
unfolding has_job
has_job→Mem name [] h = absurd (ground (arith, h))
has_job→Mem name (j ∷ js) h = elim (Bool-cases (str_eq j.name name)) [
  | inl e ↦ (j, Memᴰ.head refl, e)
  | inr e ↦ let (k, m, f) = has_job→Mem name js (ground (arith, h, e)) in (k, Memᴰ.tail m, f)
]

Mem→has_job :
    (name : String) (j : Job) (js : List Job)
    → Memᴰ j js
    → str_eq j.name name ≡ true
    → has_job name js ≡ true
unfolding has_job
Mem→has_job name j [] m h = elim m [ ]
Mem→has_job name j (k ∷ js) (Memᴰ.head e) h =
    let f : str_eq k.name name ≡ true = subst (λ x. str_eq x.name name ≡ true) e h in
    ground (arith, f)
Mem→has_job name j (k ∷ js) (Memᴰ.tail m) h = ground (arith, Mem→has_job name j js m h)

-- A name that is free stays free.
has_job-within :
    (name : String) (js ks : List Job)
    → IsWithin js ks
    → has_job name ks ≡ false
    → has_job name js ≡ false
has_job-within name js ks within free = elim (Bool-cases (has_job name js)) [
  | inr e ↦ e
  | inl e ↦
      let (j, m, f) = has_job→Mem name js e in
      let taken = Mem→has_job name j ks (within j m) f in absurd (ground (arith, taken, free))
]

-- With no active job, every policy creates the job.
start_job-create :
    (p : ConcurrencyPolicy) (o : Outside) (cj : CronJob) (st : CronJobStatus) (t : ℕ)
    (jobs : List Job) (r : Result)
    → start_job p o cj (record st { active = [] }) t jobs r
      ≡ create_job o cj (record st { active = [] }) t jobs r
unfolding start_job is_nil delete_active
start_job-create allow o cj st t jobs r = refl
start_job-create forbid o cj st t jobs r = refl
start_job-create replace o cj st t jobs r = refl

-- The cluster behind a run that has been started
abbrev pub Started : Outside → CronJob → (time : ℕ) → (kept : List Job) → Cluster → Type 0
Started o cj t kept c =
    (cj' : CronJob) × (c.cron_job ≡ some cj')
    × (cj'.status.last_schedule_time ≡ some t)
    × (cj'.status.active ≡ o.job_name cj.name t ∷ [])
    × (c.jobs
        ≡ record { name = o.job_name cj.name t; phase = not_set; completion_time = none } ∷ kept)

create_job-Started :
    (o : Outside) (cj : CronJob) (st : CronJobStatus) (t : ℕ) (jobs : List Job) (r : Result)
    → o.create_ok ≡ true
    → o.status_ok ≡ true
    → has_job (o.job_name cj.name t) jobs ≡ false
    → ((create_job o cj (record st { active = [] }) t jobs r).1 ≡ r)
      × Started o cj t jobs (create_job o cj (record st { active = [] }) t jobs r).0
unfolding create_job save_status
create_job-Started o cj st t jobs r created saved free =
    let st' : CronJobStatus = record st {
      last_schedule_time = some t;
      active = o.job_name cj.name t ∷ [];
    } in
    let e : create_job o cj (record st { active = [] }) t jobs r ≡ (
      record {
        cron_job = some (record cj { status = st' });
        jobs =
            record { name = o.job_name cj.name t; phase = not_set; completion_time = none } ∷ jobs;
      },
      r,
    ) =
      ground (arith, created, saved, free) in
    subst (λ x. (x.1 ≡ r) × Started o cj t jobs x.0) (sym e)
      (refl, (record cj { status = st' }, refl, refl, refl, refl))

pub reconcile-live :
    (o : Outside) (fuel now : ℕ) (cj : CronJob) (js : List Job)
    → cj.being_deleted ≡ false
    → cj.has_finalizer ≡ true
    → cj.suspend ≡ false
    → o.list_ok ≡ true
    → reconcile o fuel now (some cj) js ≡ reconcile_live o fuel now cj js
unfolding reconcile
reconcile-live o fuel now cj js a b c d = ground (arith, a, b, c, d)

act-create :
    (o : Outside) (now : ℕ) (cj : CronJob) (st : CronJobStatus) (t : ℕ) (jobs : List Job)
    (r : Result)
    → st.active ≡ []
    → is_past now t cj.starting_deadline_seconds ≡ false
    → act o now cj st jobs r (missed (some t))
      ≡ create_job o cj (record st { active = [] }) t jobs r
unfolding act
act-create o now cj st t jobs r idle in_time =
    ground (arith, in_time)
    ∙ ap (λ ns. start_job cj.concurrency_policy o cj (record st { active = ns }) t jobs r) idle
    ∙ start_job-create cj.concurrency_policy o cj st t jobs r

-- What follows where getMissedRun has found a run.
reconcile-found :
    (o : Outside) (fuel now t : ℕ) (cj : CronJob) (js : List Job) (next : Schedule)
    → (cj.being_deleted ≡ false) × (cj.has_finalizer ≡ true) × (cj.suspend ≡ false)
    → (o.list_ok ≡ true) × (o.create_ok ≡ true) × (o.status_ok ≡ true)
    → o.parse_schedule cj.schedule ≡ some next
    → get_missed_run fuel cj next now ≡ missed (some t)
    → is_past now t cj.starting_deadline_seconds ≡ false
    → is_nil (names (with_phase is_active_phase js)) ≡ true
    → has_job (o.job_name cj.name t) js ≡ false
    → ((reconcile o fuel now (some cj) js).1 ≡ requeue_after (next now - now))
      × Started o cj t (cleanup_old_jobs o cj js js) (reconcile o fuel now (some cj) js).0
unfolding reconcile_live schedule_run update_active_jobs
reconcile-found o fuel now t cj js next (a, b, c) (d, made, saved) parsed due in_time idle free =
    let kept = cleanup_old_jobs o cj js js in
    let st = update_active_jobs js cj.status in
    let st' : CronJobStatus = record st { next_schedule_time = some (next now) } in
    let r = requeue_after (next now - now) in
    let e : reconcile o fuel now (some cj) js
        ≡ create_job o cj (record st' { active = [] }) t kept r =
      reconcile-live o fuel now cj js a b c d
      ∙ ap (schedule_run o fuel now cj st kept) parsed
      ∙ ap (act o now cj st' kept r) due
      ∙ act-create o now cj st' t kept r (is_nil→eq (names (with_phase is_active_phase js)) idle)
          in_time in
    subst (λ x. (x.1 ≡ r) × Started o cj t kept x.0) (sym e)
      (create_job-Started o cj st' t kept r made saved
        (has_job-within (o.job_name cj.name t) kept js (cleanup-IsWithin o cj js js) free))

in_time : (now t : ℕ) (deadline : Option ℕ) → deadline ≡ none → is_past now t deadline ≡ false
unfolding is_past
in_time now t none e = refl
in_time now t (some d) e = absurd (ground (arith, e))

-- Where the latest time is there, it is one.
IsLatest-some :
    {Fires : ℕ → Type 0} (earliest now u : ℕ) (found : Option ℕ)
    → earliest < u
    → u ≤ now
    → Fires u
    → IsLatest Fires earliest now found
    → (t : ℕ) × (found ≡ some t) × IsLatest Fires earliest now (some t)
IsLatest-some earliest now u none lt le f never = absurd (never u lt le f)
IsLatest-some earliest now u (some t) lt le f latest = (t, refl, latest)

module _ {Fires : ℕ → Type 0} (next : Schedule) (cal : IsCalendar Fires next) where
  -- A cron job is live (with its finalizer, not suspended, not being deleted) and has no starting deadline, its
  -- schedule can be parsed, and the API server refuses nothing. The schedule fires at a time `u` behind the
  -- last run (or the creation) and not after now, and fires again after now; now is at most a hundred days
  -- behind that last run; no job is running or pending, and no job has the name of a run of a later time than
  -- the last. Then, whatever the concurrency policy, a reconciliation creates the job of the latest time `t`
  -- at which the schedule fires up to now, with no phase yet, notes `t` as the time of the last run and the
  -- job as the active one, and asks to be called again at the next time of the schedule. Of the other jobs,
  -- those are left that the cleaning up leaves. Fuel of more than the nanoseconds looked back is given.
  pub reconcile-Started :
      (o : Outside) (fuel now u w : ℕ) (cj : CronJob) (js : List Job)
      → (cj.being_deleted ≡ false) × (cj.has_finalizer ≡ true) × (cj.suspend ≡ false)
      → (o.list_ok ≡ true) × (o.create_ok ≡ true) × (o.status_ok ≡ true)
      → o.parse_schedule cj.schedule ≡ some next
      → cj.starting_deadline_seconds ≡ none
      → (last_run cj < u) × (u ≤ now) × Fires u
      → (now < w) × Fires w
      → (now ≤ last_run cj + hundred_days) × (now < fuel + last_run cj)
      → is_nil (names (with_phase is_active_phase js)) ≡ true
      → ((t : ℕ) → last_run cj < t → has_job (o.job_name cj.name t) js ≡ false)
      → (t : ℕ) × IsLatest Fires (last_run cj) now (some t)
        × ((reconcile o fuel now (some cj) js).1 ≡ requeue_after (next now - now))
        × Started o cj t (cleanup_old_jobs o cj js js) (reconcile o fuel now (some cj) js).0
  reconcile-Started o fuel now u w cj js live server parsed no_deadline (lt, le, f) (after, again)
        (near, enough) idle free =
      let same = earliest_time-last_run cj now no_deadline in
      let (found, run, latest) =
        get_missed_run-IsLatest next cal fuel now w cj after again (rw same near)
          (rw same enough) in
      let (t, is_some, l) =
        IsLatest-some (last_run cj) now u found lt le f
          (subst (λ e. IsLatest Fires e now found) same latest) in
      let (called, started) =
        reconcile-found o fuel now t cj js next live server parsed (run ∙ ap missed is_some)
          (in_time now t cj.starting_deadline_seconds no_deadline) idle (free t l.0) in
      (t, l, called, started)
