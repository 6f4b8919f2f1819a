-- ===== src/Deployments.antt =====
-- pkg/api/server.go: the handlers of deployments, on the tables of the store (pkg/store/store.go) and the
-- services of the supervisor (pkg/supervisor/supervisor.go). A request is handled whole, one after the
-- other; a body that is not JSON is none.
pub mod Requests
pub mod Services
pub mod Handlers
pub mod Events
pub mod Following
pub mod Pages
use prisn.Base.{
  ℕ, Option, none, some, List, [], ◌∷◌, ◌++◌, Bool, true, false, if◌then◌else◌, String,
}
use prisn.Base.Dict.{Dict}
use prisn.Scheduler.Jobs.{CronSchedule}
use prisn.Scheduler.Matching.{Calendar}
use prisn.Store.{Deployment}
use prisn.Supervisor.{Service}
use prisn.Validate.{NameError, NumberError, ScheduleError, EnvError, PathError}

-- What `Start` is called with: the command that runs and its arguments.
pub record Launch : Type 0 where
  pub id : String
  pub command : String
  pub args : List String

pub data SupervisorCall : Type 0 where
  start_call : Launch → SupervisorCall
  stop_call : (id : String) → SupervisorCall

-- The tables of the store, the services of the supervisor and the calls it has had.
pub record Server : Type 0 where
  pub deployments : List Deployment
  pub schedules : List CronSchedule
  pub services : Dict Service
  pub calls : List SupervisorCall
  pub has_scheduler : Bool

pub record CreateDeploymentRequest : Type 0 where
  pub name : String
  pub namespace : String
  pub kind : String  -- Type
  pub runtime : String
  pub source : String
  pub args : List String
  pub env : Option (Dict String)
  pub port : ℕ
  pub replicas : ℕ
  pub schedule : String

pub data Problem : Type 0 where
  invalid_body id_required name_required source_required : Problem
  invalid_name : NameError → Problem
  invalid_port invalid_replicas : NumberError → Problem
  invalid_schedule : ScheduleError → Problem
  invalid_env : EnvError → Problem
  invalid_source : PathError → Problem

pub data Response : Type 0 where
  created shown : Deployment → Response
  scaled : (name : String) → (replicas : ℕ) → Response
  listed : List Deployment → Response
  deleted : Response
  bad_request : Problem → Response
  not_found conflict : Response
  no_response : Response  -- the registration does not end

-- What a handler gets from outside: new ids, the time, the calendar, and the fuel of the two loops of
-- the registration.
pub record Given : Type 0 where
  pub id : String
  pub cron_id : String
  pub now : ℕ
  pub calendar : Calendar
  pub parse_fuel : ℕ
  pub search_fuel : ℕ
