-- ===== src/Store.antt =====
-- pkg/store/store.go: the table of deployments and the statements on it, and the rows of the schedules
-- that come and go with a deployment. A row stands once in the list;
-- an `int` is its bit pattern, a time a number of nanoseconds. The database itself does not fail.
pub mod Keys
use prisn.Base.{
  ℕ, Option, none, some, List, [], ◌∷◌, Bool, true, false, ◌&&◌, ◌||◌, leb, if◌then◌else◌, String,
  str_eq,
}
use prisn.Base.Dict.{Dict}
use prisn.Scheduler.Jobs.{CronSchedule}

pub data Phase : Type 0 where
  pending scheduled starting running stopped failed crash_loop_back_off : Phase

pub data Message : Type 0 where
  no_message not_registered : Message
  exited_with_code : ℕ → Message

pub record DeploymentStatus : Type 0 where
  pub phase : Phase
  pub ready_replicas : ℕ
  pub desired_replicas : ℕ
  pub restarts : ℕ
  pub message : Message
  pub last_updated : ℕ

-- Deployment, with the fields of DeploymentSpec that the handlers read or set.
pub record Deployment : Type 0 where
  pub id : String
  pub name : String
  pub namespace : String
  pub kind : String  -- Type
  pub runtime : String
  pub source : String
  pub args : List String
  pub env : Dict String
  pub port : ℕ
  pub replicas : ℕ
  pub schedule : String
  pub status : DeploymentStatus
  pub created_at : ℕ
  pub updated_at : ℕ

pub data Stored : Type 0 where
  stored : List Deployment → Stored
  already_exists : Stored

-- PRIMARY KEY (id), UNIQUE (namespace, name)
unfoldable pub clashes : Deployment → Deployment → Bool
clashes d row = str_eq row.id d.id || str_eq row.namespace d.namespace && str_eq row.name d.name

unfoldable pub any_clash : Deployment → List Deployment → Bool
unfolding clashes
any_clash d [] = false
any_clash d (row ∷ rows) = clashes d row || any_clash d rows

unfoldable pub create_deployment : Deployment → List Deployment → Stored
create_deployment d rows = if any_clash d rows then already_exists else stored (d ∷ rows)

-- What UPDATE sets: not the id, the name, the namespace, the type and the time of creation.
unfoldable pub set_columns : Deployment → ℕ → Deployment → Deployment
set_columns d now row = record row {
  runtime = d.runtime;
  source = d.source;
  args = d.args;
  env = d.env;
  port = d.port;
  replicas = d.replicas;
  schedule = d.schedule;
  status = d.status;
  updated_at = now;
}

-- The rows behind the statement; where none has the id, the caller gets NotFoundError.
unfoldable pub update_deployment : Deployment → ℕ → List Deployment → List Deployment
unfolding set_columns
update_deployment d now [] = []
update_deployment d now (row ∷ rows) =
    let rest = update_deployment d now rows in
    (if str_eq row.id d.id then set_columns d now row else row) ∷ rest

unfoldable pub get_deployment : String → List Deployment → Option Deployment
get_deployment id [] = none
get_deployment id (row ∷ rows) = if str_eq row.id id then some row else get_deployment id rows

unfoldable pub get_deployment_by_name :
    (namespace name : String) → List Deployment → Option Deployment
get_deployment_by_name namespace name [] = none
get_deployment_by_name namespace name (row ∷ rows) =
    if str_eq row.namespace namespace && str_eq row.name name
    then some row
    else get_deployment_by_name namespace name rows

unfoldable pub is_listed : (namespace deploy_type : String) → Deployment → Bool
is_listed namespace deploy_type row =
    (str_eq namespace "" || str_eq row.namespace namespace)
    && (str_eq deploy_type "" || str_eq row.kind deploy_type)

-- ORDER BY created_at DESC
unfoldable pub insert_by_created_at : Deployment → List Deployment → List Deployment
insert_by_created_at d [] = d ∷ []
insert_by_created_at d (e ∷ es) =
    let rest = insert_by_created_at d es in
    if leb e.created_at d.created_at then d ∷ e ∷ es else e ∷ rest

unfoldable pub list_deployments :
    (namespace deploy_type : String) → List Deployment → List Deployment
unfolding is_listed insert_by_created_at
list_deployments namespace deploy_type [] = []
list_deployments namespace deploy_type (row ∷ rows) =
    let rest = list_deployments namespace deploy_type rows in
    if is_listed namespace deploy_type row then insert_by_created_at row rest else rest

-- The rows left, and whether a row was deleted.
unfoldable pub delete_deployment : String → List Deployment → List Deployment × Bool
delete_deployment id [] = ([], false)
delete_deployment id (row ∷ rows) =
    let (rest, found) = delete_deployment id rows in
    if str_eq row.id id then (rest, true) else (row ∷ rest, found)

-- PRIMARY KEY (id); none where the id is taken
unfoldable pub has_cron_id : String → List CronSchedule → Bool
has_cron_id id [] = false
has_cron_id id (row ∷ rows) = str_eq row.id id || has_cron_id id rows

unfoldable pub create_cron_schedule : CronSchedule → List CronSchedule → Option (List CronSchedule)
unfolding has_cron_id
create_cron_schedule cs rows = if has_cron_id cs.id rows then none else some (cs ∷ rows)

-- FOREIGN KEY (deployment_id) REFERENCES deployments(id) ON DELETE CASCADE, on a connection that enforces it
unfoldable pub delete_schedules_of :
    (deployment_id : String) → List CronSchedule → List CronSchedule
delete_schedules_of id [] = []
delete_schedules_of id (row ∷ rows) =
    let rest = delete_schedules_of id rows in
    if str_eq row.deployment_id id then rest else row ∷ rest
