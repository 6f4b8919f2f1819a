-- ===== src/Deployments/Requests.antt =====
-- pkg/api/server.go: the checks and the defaults of a request to create a deployment.
use prisn.Base.{
  ℕ, Option, none, some, [], ◌∷◌, ◌++◌, Bool, true, false, not, ◌==◌, if◌then◌else◌, String, str_eq,
}
use prisn.Base.Text.{codes}
use prisn.Base.Word.{int_lt}
use prisn.Base.Dict.{Dict}
use prisn.Deployments.{
  CreateDeploymentRequest, Problem, name_required, source_required, invalid_name, invalid_port,
  invalid_replicas, invalid_schedule, invalid_env,
}
use prisn.Store.{Deployment, pending, no_message}
use prisn.Validate
use prisn.Validate.{EnvChecked, variable, refused, env_var, cron_schedule}

unfoldable pub problem : {E : Type 0} → (E → Problem) → Option E → Option Problem
problem f none = none
problem f (some e) = some (f e)

-- The first problem that is found
unfoldable pub or_else : Option Problem → Option Problem → Option Problem
or_else none next = next
or_else (some e) next = some e

unfoldable pub checked_only : Bool → Option Problem → Option Problem
checked_only true found = found
checked_only false found = none

unfoldable pub refusal : EnvChecked → Option Problem
refusal (variable key value) = none
refusal (refused e) = some (invalid_env e)

unfoldable pub check_env : Dict String → Option Problem
unfolding or_else refusal
check_env [] = none
check_env ((key, value) ∷ rest) =
    or_else (refusal (env_var (codes key ++ b'=' ∷ codes value))) (check_env rest)

unfoldable pub variables : Option (Dict String) → Dict String
variables none = []
variables (some env) = env

unfoldable pub check_request : CreateDeploymentRequest → Option Problem
unfolding or_else checked_only problem check_env variables
check_request req = or_else (if str_eq req.name "" then some name_required else none) (
    or_else (if str_eq req.source "" then some source_required else none) (
      or_else (problem invalid_name (Validate.name (codes req.name))) (
        or_else (checked_only (not (req.port == 0)) (problem invalid_port (Validate.port req.port)))
          (or_else
            (checked_only (not (req.replicas == 0))
              (problem invalid_replicas (Validate.replicas req.replicas)))
            (or_else
              (checked_only (not (str_eq req.schedule ""))
                (problem invalid_schedule (cron_schedule (codes req.schedule))))
              (check_env (variables req.env)))))))

unfoldable pub set_defaults : CreateDeploymentRequest → CreateDeploymentRequest
set_defaults req = record req {
  namespace = if str_eq req.namespace "" then "default" else req.namespace;
  kind =
      if str_eq req.kind ""
      then (if not (str_eq req.schedule "")
          then "cronjob"
          else if int_lt 0 req.port
          then "service"
          else "job")
      else req.kind;
  replicas = if req.replicas == 0 then 1 else req.replicas;
}

unfoldable pub new_deployment : (id : String) → (now : ℕ) → CreateDeploymentRequest → Deployment
unfolding variables
new_deployment id now req = record {
  id = id;
  name = req.name;
  namespace = req.namespace;
  kind = req.kind;
  runtime = req.runtime;
  source = req.source;
  args = req.args;
  env = variables req.env;
  port = req.port;
  replicas = req.replicas;
  schedule = req.schedule;
  status = record {
    phase = pending;
    ready_replicas = 0;
    desired_replicas = req.replicas;
    restarts = 0;
    message = no_message;
    last_updated = now;
  };
  created_at = now;
  updated_at = now;
}
