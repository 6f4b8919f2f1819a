-- ===== src/Deployments/Handlers/Examples.antt =====
-- A job and a service, and the theorems of the handlers of deployments (pkg/api/server.go) at them.
use prisn.Base.{
  ℕ, zero, if◌then◌else◌, ◌+◌, ◌*◌, ◌≤◌, ◌≡◌, ◌≢◌, refl, Option, none, some, List, [], ◌∷◌, Bool,
  true, false, String, arith, str_eq, length,
}
use prisn.Base.Word.{int_lt}
use prisn.Base.Text.{codes}
use prisn.Deployments.{
  Server, Given, CreateDeploymentRequest, Response, created, scaled, deleted, bad_request,
  invalid_name, SupervisorCall, start_call, stop_call,
}
use prisn.Deployments.Requests.{new_deployment, set_defaults}
use prisn.Deployments.Events.{Event, create, update, scale, delete, boot, run}
use prisn.Deployments.Events.Sound.{run-IsSound}
use prisn.Deployments.Following.{Follows, handle_each, supervise-Follows, apply_update-stale}
use prisn.Deployments.Pages.{parse_pagination, pages, pages-list_deployments}
use prisn.Deployments.Handlers.{
  handle_create_deployment, handle_update_deployment, handle_scale_deployment,
  get_deployment_by_id_or_name, apply_update,
}
use prisn.Deployments.Handlers.Created.{IsSound}
use prisn.Deployments.Handlers.Outcomes.{create-get, is_refusal, handlers_refuse}
use prisn.Scheduler.Examples.{calendar}
use prisn.Store.{Deployment, get_deployment, update_deployment, Phase}
use prisn.Store
use prisn.Supervisor.{StateChange, Round, supervise}
use prisn.Supervisor
use prisn.Supervisor.Diagram.{stopped_rests}
use prisn.Supervisor.Examples.{web, three_crashes}
use prisn.Deployments.Services.{handle_supervisor_state_change}

abbrev given : Given
given = record {
  id = "dep-1";
  cron_id = "cron-1";
  now = 7;
  calendar = calendar;
  parse_fuel = 61;
  search_fuel = 10;
}

abbrev report : CreateDeploymentRequest
report = record {
  name = "report";
  namespace = "";
  kind = "";
  runtime = "";
  source = "report.sh";
  args = [];
  env = none;
  port = 0;
  replicas = 0;
  schedule = "";
}

abbrev empty_server : Server
empty_server = record {
  deployments = [];
  schedules = [];
  services = [];
  calls = [];
  has_scheduler = true;
}

abbrev report_deployment : Deployment
report_deployment = new_deployment "dep-1" 7 (set_defaults report)

abbrev one_job : Server
one_job = record empty_server { deployments = report_deployment ∷ [] }

report_is_created :
    (handle_create_deployment given (some report) empty_server).1 ≡ created report_deployment
unfolding handle_create_deployment prisn.Deployments.Handlers.checked
    prisn.Deployments.Handlers.inserted prisn.Deployments.Handlers.begin
    prisn.Deployments.Requests.check_request prisn.Deployments.Requests.set_defaults
    prisn.Deployments.Requests.new_deployment prisn.Deployments.Requests.or_else
    prisn.Deployments.Requests.checked_only prisn.Deployments.Requests.problem
    prisn.Deployments.Requests.check_env prisn.Deployments.Requests.variables prisn.Validate.name
    prisn.Validate.port prisn.Validate.replicas prisn.Validate.match_word prisn.Validate.all_match
    prisn.Validate.is_letter prisn.Base.Text.same_text prisn.Store.create_deployment
    prisn.Store.any_clash
report_is_created = refl

create-get_example :
    get_deployment_by_id_or_name "dep-1"
      (handle_create_deployment given (some report) empty_server).0.deployments
    ≡ some report_deployment
unfolding new_deployment
create-get_example = create-get given (some report) empty_server report_deployment report_is_created

-- A name that is refused
abbrev spaced : CreateDeploymentRequest
spaced = record report { name = "my report" }

handlers_refuse_example :
    (is_refusal (handle_create_deployment given (some spaced) one_job).1 ≡ true
      → (handle_create_deployment given (some spaced) one_job).0 ≡ one_job)
    × (is_refusal (handle_update_deployment 9 "dep-1" (some spaced) one_job).1 ≡ true
        → (handle_update_deployment 9 "dep-1" (some spaced) one_job).0 ≡ one_job)
    × (is_refusal (handle_scale_deployment 9 "dep-1" (some 1001) one_job).1 ≡ true
        → (handle_scale_deployment 9 "dep-1" (some 1001) one_job).0 ≡ one_job)
handlers_refuse_example = handlers_refuse given 9 "dep-1" (some spaced) (some 1001) one_job

abbrev day : List Event
day =
    create given (some report)
    ∷ scale 8 "dep-1" (some 3)
    ∷ update 9 "report" (some (record report { port = 8080 }))
    ∷ boot
    ∷ delete true "dep-1"
    ∷ []

run-IsSound_example : IsSound (run day empty_server)
run-IsSound_example =
    run-IsSound day empty_server (tt, (tt, (tt, (tt, (refl, tt)))))
      (record { distinct = tt; valid = λ d m. elim m [ ]; owned = λ cs m. elim m [ ] })

-- The deployment of the service, before it is started
abbrev web_deployment : Deployment
web_deployment = record {
  id = "web";
  name = "web";
  namespace = "default";
  kind = "service";
  runtime = "";
  source = "web.py";
  args = [];
  env = [];
  port = 8080;
  replicas = 1;
  schedule = "";
  status = record {
    phase = Store.pending;
    ready_replicas = 0;
    desired_replicas = 1;
    restarts = 0;
    message = Store.no_message;
    last_updated = 0;
  };
  created_at = 0;
  updated_at = 0;
}

web_is_there : get_deployment "web" (web_deployment ∷ []) ≡ some web_deployment
unfolding get_deployment
web_is_there = refl

abbrev one_crash : Round
one_crash = record {
  start_time = 0;
  outcome = Supervisor.ran 7 (Supervisor.exited 1) 5;
  check_time = 6;
  stop_requested = false;
}

supervise-Follows_example :
    Follows "web" (supervise (one_crash ∷ three_crashes) web).service.state (
      handle_each "web"
        (supervise (one_crash ∷ three_crashes) web).changes
        50
        (web_deployment ∷ []))
supervise-Follows_example =
    supervise-Follows one_crash three_crashes web 50 (web_deployment ∷ []) web_deployment
      stopped_rests web_is_there

abbrev now_running : StateChange
now_running = record {
  old_state = Supervisor.starting;
  new_state = Supervisor.running;
  exit_code = 0;
  restarts = 1;
}

apply_update-stale_example :
    (e : Deployment) × (get_deployment "web" (
        update_deployment
          (apply_update (record report { port = 9090 }) web_deployment)
          60
          (handle_supervisor_state_change "web" now_running 55 (web_deployment ∷ [])))
      ≡ some e)
    × (e.status.phase ≡ Store.pending)
    × (e.status.ready_replicas ≡ 0)
    × (e.replicas ≡ (if int_lt 0 report.replicas then report.replicas else web_deployment.replicas))
    × (e.port ≡ 9090)
apply_update-stale_example =
    apply_update-stale (record report { port = 9090 }) now_running 55 60 (web_deployment ∷ [])
      web_deployment web_is_there

abbrev two_rows : List Deployment
two_rows = report_deployment ∷ web_deployment ∷ []

one_a_page : (parse_pagination (codes "1") []).0 ≡ 1
unfolding parse_pagination prisn.Deployments.Pages.limit_of prisn.Scheduler.Cron.atoi
one_a_page = refl
