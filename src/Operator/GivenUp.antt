-- ===== src/Operator/GivenUp.antt =====
-- What becomes of a cron job for which getMissedRun of
-- operator/controllers/prisncronjob_controller.go finds too many runs.
use prisn.Base.{
  ℕ, ◌+◌, ◌-◌, ◌≤◌, ◌<◌, ◌≡◌, refl, sym, ap, ◌∙◌, none, some, List, [], ◌∷◌, true, false, subst,
}
use prisn.Operator.{Job, CronJob, Schedule, too_many, get_missed_run, hundred_days}
use prisn.Operator.Runs.{IsCalendar, last_run, earliest_time-last_run, get_missed_run-too_many}
use prisn.Operator.CronJobs.{
  Cluster, requeue_after, Outside, update_active_jobs, cleanup_old_jobs, act, schedule_run,
  reconcile_live, reconcile,
}
use prisn.Operator.Cleanup.{IsWithin, cleanup-IsWithin}
use prisn.Operator.Due.{reconcile-live}

-- One reconciliation after the other, at the given times
unfoldable pub reconcile_all : Outside → (fuel : ℕ) → List ℕ → Cluster → Cluster
unfolding reconcile
reconcile_all o fuel [] c = c
reconcile_all o fuel (now ∷ times) c =
    reconcile_all o fuel times (reconcile o fuel now c.cron_job c.jobs).0

-- Every time is behind `u`, and the fuel reaches it.
abbrev pub AreLate : (u limit : ℕ) → List ℕ → Type 0
AreLate u limit [] = Unit {0}
AreLate u limit (now ∷ times) = (u ≤ now) × (now < limit) × AreLate u limit times

reconcile-given_up :
    (o : Outside) (fuel now : ℕ) (cj : CronJob) (js : List Job) (next : Schedule)
    → (cj.being_deleted ≡ false) × (cj.has_finalizer ≡ true) × (cj.suspend ≡ false)
    → o.list_ok ≡ true
    → o.parse_schedule cj.schedule ≡ some next
    → get_missed_run fuel cj next now ≡ too_many
    → (reconcile o fuel now (some cj) js).0
      ≡ record { cron_job = some cj; jobs = cleanup_old_jobs o cj js js }
unfolding reconcile_live schedule_run act
reconcile-given_up o fuel now cj js next (a, b, c) d parsed lost =
    let st = update_active_jobs js cj.status in
    let kept = cleanup_old_jobs o cj js js in
    ap (λ x. x.0)
      (reconcile-live o fuel now cj js a b c d
        ∙ ap (schedule_run o fuel now cj st kept) parsed
        ∙ ap
            (act o now cj (record st { next_schedule_time = some (next now) }) kept
              (requeue_after (next now - now)))
            lost)

module _ {Fires : ℕ → Type 0} (next : Schedule) (cal : IsCalendar Fires next) where
  -- A cron job that is live (not suspended, not being deleted, with its finalizer) and has no starting deadline,
  -- and whose schedule, which can be parsed, fires at a time `u` more than a hundred days behind its last run
  -- (or its creation): however often it is reconciled at `u` or later, by a server that does not refuse the
  -- list of jobs, no job is started, and the cron job stays as it is, its last run included. Fuel of more
  -- than the nanoseconds looked back is given.
  pub reconcile_all-given_up :
      (o : Outside) (fuel u : ℕ) (times : List ℕ) (cj : CronJob) (js : List Job)
      → (cj.being_deleted ≡ false) × (cj.has_finalizer ≡ true) × (cj.suspend ≡ false)
      → o.list_ok ≡ true
      → o.parse_schedule cj.schedule ≡ some next
      → cj.starting_deadline_seconds ≡ none
      → Fires u
      → last_run cj + hundred_days < u
      → AreLate u (fuel + last_run cj) times
      → ((reconcile_all o fuel times (record { cron_job = some cj; jobs = js })).cron_job ≡ some cj)
        × IsWithin (reconcile_all o fuel times (record { cron_job = some cj; jobs = js })).jobs js
  unfolding reconcile_all
  reconcile_all-given_up o fuel u [] cj js live listed parsed no_deadline f far late =
      (refl, λ k m. m)
  reconcile_all-given_up o fuel u (now ∷ times) cj js live listed parsed no_deadline f far
        (due, enough, late) =
      let same = earliest_time-last_run cj now no_deadline in
      let lost =
        get_missed_run-too_many next cal fuel u now cj f
          (subst (λ e. e + hundred_days < u) (sym same) far) due
          (subst (λ e. now < fuel + e) (sym same) enough) in
      let step = reconcile-given_up o fuel now cj js next live listed parsed lost in
      let kept = cleanup_old_jobs o cj js js in
      let (stays, within) =
        reconcile_all-given_up o fuel u times cj kept live listed parsed no_deadline f far late in
      subst
        (λ c.
          ((reconcile_all o fuel times c).cron_job ≡ some cj)
          × IsWithin (reconcile_all o fuel times c).jobs js)
        (sym step) (stays, λ k m. cleanup-IsWithin o cj js js k (within k m))
