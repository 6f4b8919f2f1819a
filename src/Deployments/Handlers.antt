-- ===== src/Deployments/Handlers.antt =====
-- pkg/api/server.go: the handlers of deployments, each as a function from the server to the server behind
-- it and the response. Every handler ends before the next begins.
pub mod Rows
pub mod Created
pub mod Changed
pub mod Scaled
pub mod Outcomes
pub mod Examples
use prisn.Base.{
  ℕ, Option, none, some, List, [], ◌∷◌, ◌++◌, Bool, true, false, not, ◌&&◌, ◌==◌, if◌then◌else◌,
  String, str_eq, get_or,
}
use prisn.Base.Text.{codes}
use prisn.Base.Word.{int_lt}
use prisn.Base.Dict.{Dict}
use prisn.Deployments.{
  Server, Given, CreateDeploymentRequest, Problem, invalid_body, id_required, invalid_replicas,
  invalid_port, invalid_source, Response, created, shown, scaled, listed, deleted, bad_request,
  not_found, conflict, no_response,
}
use prisn.Deployments.Requests.{
  problem, or_else, checked_only, check_request, set_defaults, new_deployment,
}
use prisn.Deployments.Services.{start_service, stop_service}
use prisn.Scheduler.Jobs
use prisn.Scheduler.Jobs.{
  CronSchedule, Registered, no_schedule, invalid_expression, endless_expression,
  register_deployment,
}
use prisn.Store.{
  Deployment, DeploymentStatus, Phase, scheduled, failed, stopped, Message, not_registered, Stored,
  stored, already_exists, create_deployment, update_deployment, get_deployment,
  get_deployment_by_name, list_deployments, delete_deployment, create_cron_schedule,
  delete_schedules_of,
}
use prisn.Validate

-- The handler's copy of a deployment, behind `UpdateDeployment`, and the server with the row.
unfoldable pub save : Deployment → ℕ → Server → Server
save d now s = record s { deployments = update_deployment d now s.deployments }

abbrev pub with_status : (DeploymentStatus → DeploymentStatus) → Deployment → Deployment
with_status f d = record d { status = f d.status }

abbrev failed_status : DeploymentStatus → DeploymentStatus
failed_status st = record st { phase = failed; message = not_registered }

abbrev scheduled_status : DeploymentStatus → DeploymentStatus
scheduled_status st = record st { phase = scheduled }

mark : (DeploymentStatus → DeploymentStatus) → Given → Deployment → Server → Server × Response
unfolding save
mark f given d s = (
  save (with_status f d) given.now s,
  created (record (with_status f d) { updated_at = given.now }),
)

-- Behind `CreateCronSchedule`
recorded : Given → Deployment → Server → Option (List CronSchedule) → Server × Response
unfolding mark
recorded given d s none = mark failed_status given d s
recorded given d s (some rows) = mark scheduled_status given d (record s { schedules = rows })

registered : Given → Deployment → Server → Registered → Server × Response
unfolding mark recorded
registered given d s no_schedule = mark failed_status given d s
registered given d s invalid_expression = mark failed_status given d s
registered given d s endless_expression = (s, no_response)
registered given d s (Jobs.created row) = recorded given d s (create_cron_schedule row s.schedules)

register : Given → Deployment → Server → Server × Response
unfolding registered
register given d s = registered given d s (
    register_deployment given.calendar given.parse_fuel given.search_fuel given.now given.cron_id
      d.id d.schedule)

-- What follows the insertion: a service is started, a cron job is registered. `Start` of the supervisor
-- returns no error.
begin : Given → Deployment → Server → Server × Response
unfolding register
begin given d s =
    let s' = if str_eq d.kind "service" && int_lt 0 d.replicas then start_service d s else s in
    if str_eq d.kind "cronjob" && not (str_eq d.schedule "") && s.has_scheduler
    then register given d s'
    else (s', created d)

inserted : Given → Deployment → Server → Stored → Server × Response
unfolding begin
inserted given d s already_exists = (s, conflict)
inserted given d s (stored rows) = begin given d (record s { deployments = rows })

-- Behind the checks
checked : Given → CreateDeploymentRequest → Server → Option Problem → Server × Response
unfolding inserted
checked given req s (some e) = (s, bad_request e)
checked given req s none =
    let d = new_deployment given.id given.now (set_defaults req) in
    inserted given d s (create_deployment d s.deployments)

unfoldable pub handle_create_deployment :
    Given → Option CreateDeploymentRequest → Server → Server × Response
unfolding checked
handle_create_deployment given none s = (s, bad_request invalid_body)
handle_create_deployment given (some req) s = checked given req s (check_request req)

-- The lookup by name, where that by id has found nothing
unfoldable pub or_by_name : String → List Deployment → Option Deployment → Option Deployment
or_by_name name rows (some d) = some d
or_by_name name rows none = get_deployment_by_name "default" name rows

unfoldable pub get_deployment_by_id_or_name : String → List Deployment → Option Deployment
unfolding or_by_name
get_deployment_by_id_or_name id_or_name rows =
    or_by_name id_or_name rows (get_deployment id_or_name rows)

get_found : Option Deployment → Response
get_found none = not_found
get_found (some d) = shown d

unfoldable pub handle_get_deployment : String → Server → Response
unfolding get_found
handle_get_deployment id s =
    if str_eq id ""
    then bad_request id_required
    else get_found (get_deployment_by_id_or_name id s.deployments)

unfoldable pub check_update : CreateDeploymentRequest → Option Problem
check_update req =
    or_else
      (checked_only (int_lt 0 req.replicas)
        (problem invalid_replicas (Validate.replicas req.replicas)))
      (or_else
        (checked_only (not (str_eq req.source ""))
          (problem invalid_source (Validate.path (codes req.source))))
        (checked_only (not (req.port == 0)) (problem invalid_port (Validate.port req.port))))

unfoldable pub apply_update : CreateDeploymentRequest → Deployment → Deployment
apply_update req d =
    let status = d.status in
    record d {
      replicas = if int_lt 0 req.replicas then req.replicas else d.replicas;
      status =
          if int_lt 0 req.replicas
          then record status { desired_replicas = req.replicas }
          else status;
      source = if str_eq req.source "" then d.source else req.source;
      port = if req.port == 0 then d.port else req.port;
      env = get_or req.env d.env;
    }

update_checked :
    ℕ → CreateDeploymentRequest → Deployment → Server → Option Problem → Server × Response
unfolding save apply_update
update_checked now req d s (some e) = (s, bad_request e)
update_checked now req d s none =
    let d' = apply_update req d in (save d' now s, shown (record d' { updated_at = now }))

unfoldable pub update_found :
    ℕ → Option CreateDeploymentRequest → Option Deployment → Server → Server × Response
unfolding update_checked
update_found now body none s = (s, not_found)
update_found now none (some d) s = (s, bad_request invalid_body)
update_found now (some req) (some d) s = update_checked now req d s (check_update req)

unfoldable pub handle_update_deployment :
    ℕ → String → Option CreateDeploymentRequest → Server → Server × Response
unfolding update_found
handle_update_deployment now id body s =
    update_found now body (get_deployment_by_id_or_name id s.deployments) s

-- `DeleteDeployment`, with what the foreign key takes along.
-- `foreign_keys`: whether the connection that runs the DELETE enforces them
delete_row : (foreign_keys : Bool) → String → Server → Server × Response
delete_row foreign_keys id s =
    if (delete_deployment id s.deployments).1
    then (
      record s {
        deployments = (delete_deployment id s.deployments).0;
        schedules = if foreign_keys then delete_schedules_of id s.schedules else s.schedules;
      },
      deleted,
    )
    else (s, not_found)

unfoldable pub delete_found :
    (foreign_keys : Bool) → String → Option Deployment → Server → Server × Response
unfolding delete_row
delete_found foreign_keys id_or_name none s = delete_row foreign_keys id_or_name s
delete_found foreign_keys id_or_name (some d) s =
    delete_row foreign_keys d.id (if str_eq d.kind "service" then stop_service d s else s)

unfoldable pub handle_delete_deployment :
    (foreign_keys : Bool) → String → Server → Server × Response
unfolding delete_found
handle_delete_deployment foreign_keys id_or_name s =
    delete_found foreign_keys id_or_name (get_deployment_by_id_or_name id_or_name s.deployments) s

unfoldable pub scale_status : (replicas now : ℕ) → DeploymentStatus → DeploymentStatus
scale_status replicas now st = record st { desired_replicas = replicas; last_updated = now }

abbrev stopped_status : DeploymentStatus → DeploymentStatus
stopped_status st = record st { phase = stopped; ready_replicas = 0 }

scale_service : (old now : ℕ) → Deployment → Server → Server
unfolding save
scale_service old now d s =
    if old == 0 && int_lt 0 d.replicas
    then start_service d s
    else if int_lt 0 old && d.replicas == 0
    then save (with_status stopped_status d) now (stop_service d s)
    else s

scale_checked : ℕ → ℕ → Deployment → Server → Option Validate.NumberError → Server × Response
unfolding save scale_status scale_service
scale_checked now replicas d s (some e) = (s, bad_request (invalid_replicas e))
scale_checked now replicas d s none =
    let d' = record d { replicas = replicas; status = scale_status replicas now d.status } in
    let s' = save d' now s in
    (
      if str_eq d.kind "service" then scale_service d.replicas now d' s' else s',
      scaled d.name replicas,
    )

unfoldable pub scale_found : ℕ → Option ℕ → Option Deployment → Server → Server × Response
unfolding scale_checked
scale_found now body none s = (s, not_found)
scale_found now none (some d) s = (s, bad_request invalid_body)
scale_found now (some replicas) (some d) s =
    scale_checked now replicas d s (Validate.replicas replicas)

unfoldable pub handle_scale_deployment : ℕ → String → Option ℕ → Server → Server × Response
unfolding scale_found
handle_scale_deployment now id body s =
    scale_found now body (get_deployment_by_id_or_name id s.deployments) s
