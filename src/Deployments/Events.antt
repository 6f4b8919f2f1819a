-- ===== src/Deployments/Events.antt =====
-- pkg/api/server.go: what the server does to its deployments, one event after the other.
pub mod Sound
use prisn.Base.{ℕ, Option, List, [], ◌∷◌, Bool, String}
use prisn.Deployments.{Server, Given, CreateDeploymentRequest}
use prisn.Deployments.Services.{load_existing_deployments, handle_supervisor_state_change}
use prisn.Deployments.Handlers.{
  handle_create_deployment, handle_update_deployment, handle_scale_deployment,
  handle_delete_deployment,
}
use prisn.Supervisor.{StateChange}

-- What the server does one after the other: the handlers, the changes that the supervisor reports, and
-- the start. A deletion runs on a connection that enforces foreign keys or on one that does not.
pub data Event : Type 0 where
  create : Given → Option CreateDeploymentRequest → Event
  update : (now : ℕ) → String → Option CreateDeploymentRequest → Event
  scale : (now : ℕ) → String → Option ℕ → Event
  delete : (foreign_keys : Bool) → String → Event
  state_change : (service_id : String) → StateChange → (now : ℕ) → Event
  boot : Event

unfoldable pub step : Event → Server → Server
unfolding handle_create_deployment handle_update_deployment handle_scale_deployment
    handle_delete_deployment
step (create given body) s = (handle_create_deployment given body s).0
step (update now id body) s = (handle_update_deployment now id body s).0
step (scale now id body) s = (handle_scale_deployment now id body s).0
step (delete foreign_keys id) s = (handle_delete_deployment foreign_keys id s).0
step (state_change id event now) s = record s {
  deployments = handle_supervisor_state_change id event now s.deployments;
}
step boot s = load_existing_deployments s

unfoldable pub run : List Event → Server → Server
unfolding step
run [] s = s
run (e ∷ es) s = run es (step e s)
