-- ===== src/Operator/Examples.antt =====
-- A cron job and its jobs, and the theorems on operator/controllers/prisncronjob_controller.go at them.
use mathlib.Core.List.{Memᴰ}
use prisn.Base.{
  inl, ℕ, ◌+◌, ◌-◌, ◌≡◌, refl, Option, none, some, [], ◌∷◌, true, false, arith, str_eq,
}
use prisn.Operator.{
  running, succeeded, not_set, Job, forbid, CronJob, Missed, missed, out_of_fuel, earliest_time,
  get_missed_run,
}
use prisn.Operator.Runs.{IsCalendar, IsLatest, last_run, get_missed_run-IsLatest}
use prisn.Operator.CronJobs.{Outside, requeue_after, reconcile, cleanup_old_jobs}
use prisn.Operator.Cleanup.{IsWithin}
use prisn.Operator.Concurrency.{reconcile-forbid}
use prisn.Operator.Due.{Started, reconcile-Started}
use prisn.Operator.GivenUp.{reconcile_all, reconcile_all-given_up}

-- A schedule that fires at every time
abbrev Fires : ℕ → Type 0
Fires t = Unit {0}

abbrev next : ℕ → ℕ
next t = t + 1

next-IsCalendar : IsCalendar Fires next
next-IsCalendar = λ t. inl (record {
  later = omega arith;
  fires = tt;
  first = λ u lt gt f. absurd (omega (arith, lt, gt));
})

abbrev report : CronJob
report = record {
  name = "report";
  schedule = "* * * * *";
  suspend = false;
  starting_deadline_seconds = none;
  concurrency_policy = forbid;
  successful_jobs_history_limit = 3;
  failed_jobs_history_limit = 1;
  created_at = 3;
  being_deleted = false;
  has_finalizer = true;
  status = record {
    active = [];
    last_schedule_time = none;
    next_schedule_time = none;
    last_successful_time = none;
  };
}

abbrev answers : Outside
answers = record {
  update_ok = true;
  status_ok = true;
  list_ok = true;
  create_ok = true;
  delete_ok = λ name. true;
  parse_schedule = λ text. some next;
  job_name = λ name time. "report-5";
  sort_by_completion_time = λ jobs. jobs;
}

abbrev old_run : Job
old_run = record { name = "report-1"; phase = succeeded; completion_time = some 2 }

abbrev this_run : Job
this_run = record { name = "report-4"; phase = running; completion_time = none }

report_created : earliest_time report 5 ≡ 3
unfolding earliest_time prisn.Operator.started_at prisn.Operator.not_before
report_created = refl

get_missed_run-IsLatest_example :
    (found : Option ℕ) × (get_missed_run 10 report next 5 ≡ missed found)
    × IsLatest Fires (earliest_time report 5) 5 found
get_missed_run-IsLatest_example =
    get_missed_run-IsLatest next next-IsCalendar 10 5 6 report (omega arith) tt
      (omega (arith, report_created)) (omega (arith, report_created))

this_run-AreKeys :
    (j k : Job)
    → Memᴰ j (this_run ∷ [])
    → Memᴰ k (this_run ∷ [])
    → str_eq j.name k.name ≡ true
    → j ≡ k
this_run-AreKeys j k (Memᴰ.head e) (Memᴰ.head f) h = cc
this_run-AreKeys j k (Memᴰ.tail m) n h = elim m [ ]
this_run-AreKeys j k (Memᴰ.head e) (Memᴰ.tail n) h = elim n [ ]

reconcile-forbid_example :
    IsWithin (reconcile answers 10 5 (some report) (this_run ∷ [])).0.jobs (this_run ∷ [])
    × Memᴰ this_run (reconcile answers 10 5 (some report) (this_run ∷ [])).0.jobs
reconcile-forbid_example =
    reconcile-forbid answers 10 5 report (this_run ∷ []) this_run (λ js k m. m) this_run-AreKeys
      refl (Memᴰ.head refl) refl

-- A run that has only been created is not counted as active.
abbrev fresh_run : Job
fresh_run = record { name = "report-4"; phase = not_set; completion_time = none }

report_last_run : last_run report ≡ 3
unfolding prisn.Operator.started_at
report_last_run = refl

reconcile-Started_example :
    (t : ℕ) × IsLatest Fires (last_run report) 5 (some t)
    × ((reconcile answers 10 5 (some report) (fresh_run ∷ [])).1 ≡ requeue_after (next 5 - 5))
    × Started answers report t
        (cleanup_old_jobs answers report (fresh_run ∷ []) (fresh_run ∷ []))
        (reconcile answers 10 5 (some report) (fresh_run ∷ [])).0
unfolding prisn.Operator.CronJobs.is_nil prisn.Operator.CronJobs.names
    prisn.Operator.CronJobs.with_phase prisn.Operator.CronJobs.has_job
reconcile-Started_example =
    reconcile-Started next next-IsCalendar answers 10 5 4 6 report (fresh_run ∷ [])
      (refl, refl, refl) (refl, refl, refl) refl refl
      (omega (arith, report_last_run), omega arith, tt) (omega arith, tt)
      (omega (arith, report_last_run), omega (arith, report_last_run)) refl (λ t lt. refl)

abbrev late : ℕ
late = 8640000000000010

reconcile_all-given_up_example :
    ((reconcile_all answers 9000000000000000
        (late ∷ (late + 60) ∷ [])
        (record { cron_job = some report; jobs = old_run ∷ [] })).cron_job
      ≡ some report)
    × IsWithin
        (reconcile_all answers 9000000000000000
          (late ∷ (late + 60) ∷ [])
          (record { cron_job = some report; jobs = old_run ∷ [] })).jobs
        (old_run ∷ [])
reconcile_all-given_up_example =
    reconcile_all-given_up next next-IsCalendar answers 9000000000000000 late
      (late ∷ (late + 60) ∷ []) report (old_run ∷ []) (refl, refl, refl) refl refl refl tt
      (omega (arith, report_last_run))
      (
        omega arith,
        omega (arith, report_last_run),
        (omega arith, omega (arith, report_last_run), tt),
      )
