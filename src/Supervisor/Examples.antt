-- ===== src/Supervisor/Examples.antt =====
-- A small service, and the theorems of pkg/supervisor at it.
use prisn.Base.{ℕ, ◌+◌, ◌*◌, ◌≤◌, ◌≡◌, refl, none, List, [], ◌∷◌, false, arith}
use prisn.Supervisor.{
  Service, stopped, always, second, exited, no_start, ran, Round, supervise, calculate_backoff,
}
use prisn.Supervisor.Backoff.{expected_backoff, calculate_backoff_lem}
use prisn.Supervisor.Diagram.{Trace, stopped_rests, supervise-Trace}

abbrev pub web : Service
web = record {
  id = "web";
  restart_policy = always;
  max_restarts = 1;
  restart_delay = second;
  max_restart_delay = 30 * second;
  pid = none;
  state = stopped;
  restarts = 0;
  last_start = 0;
  last_exit = 0;
  last_exit_code = 0;
  consecutive_fails = 0;
}

abbrev pub crash_at : ℕ → Round
crash_at t = record {
  start_time = t;
  outcome = ran 4711 (exited 1) (t + 5);
  check_time = t + 6;
  stop_requested = false;
}

abbrev missing_at : ℕ → Round
missing_at t = record {
  start_time = t;
  outcome = no_start;
  check_time = t + 1;
  stop_requested = false;
}

abbrev pub three_crashes : List Round
three_crashes = crash_at 100 ∷ crash_at (2 * second) ∷ crash_at (5 * second) ∷ []

-- the delays double: one second, two, four
three_crashes_delays : (supervise three_crashes web).delays ≡ second ∷ 2 * second ∷ 4 * second ∷ []
unfolding supervise
three_crashes_delays = refl

abbrev failing : Service
failing = record web { consecutive_fails = 4; last_exit = 100 }

calculate_backoff_lem_example :
    (calculate_backoff 200 failing ≡ expected_backoff 200 failing)
    × (second ≤ (calculate_backoff 200 failing).1)
    × ((calculate_backoff 200 failing).1 ≤ 30 * second)
calculate_backoff_lem_example = calculate_backoff_lem 200 failing (omega arith) (omega arith)

supervise-Trace_example :
    Trace stopped (supervise three_crashes web).changes (supervise three_crashes web).service.state
supervise-Trace_example = supervise-Trace three_crashes web stopped_rests

abbrev today : ℕ
today = 63000000000 * second

abbrev never_there : List Round
never_there =
    missing_at today ∷ missing_at (today + 2 * second) ∷ missing_at (today + 4 * second) ∷ []
