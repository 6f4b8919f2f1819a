-- ===== src/Deployments/Services.antt =====
-- pkg/api/server.go: what the server has the supervisor do, and how a change of a service's state comes
-- back into the status of its deployment.
use prisn.Base.{
  ℕ, Option, none, some, List, [], ◌∷◌, ◌++◌, Bool, true, false, not, ◌&&◌, ◌||◌, ◌==◌,
  if◌then◌else◌, String, str_eq,
}
use prisn.Base.Text.{Text, codes, same_text}
use prisn.Base.Word.{int_lt}
use prisn.Base.Dict.{lookup}
use prisn.Deployments.{Launch, start_call, stop_call, Server}
use prisn.Store
use prisn.Store.{
  Phase, Message, no_message, exited_with_code, DeploymentStatus, Deployment, get_deployment,
  update_deployment, list_deployments,
}
use prisn.Supervisor.{Service, ServiceState, StateChange, same_state, always, second, add}
use prisn.Supervisor

-- filepath.Ext, on the text from its end on; `taken` is the part that has been passed.
unfoldable pub ext_from : (reversed taken : Text) → Text
ext_from [] taken = []
ext_from (c ∷ cs) taken =
    let rest = ext_from cs (c ∷ taken) in
    if c == b'/' then [] else if c == b'.' then c ∷ taken else rest

unfoldable pub reverse_onto : Text → Text → Text
reverse_onto [] acc = acc
reverse_onto (c ∷ cs) acc = reverse_onto cs (c ∷ acc)

unfoldable pub detect_runtime_from_source : String → String
unfolding ext_from reverse_onto
detect_runtime_from_source source =
    let ext = ext_from (reverse_onto (codes source) []) [] in
    if same_text ext (codes ".py")
    then "python3"
    else if same_text ext (codes ".js")
    then "node"
    else if same_text ext (codes ".sh")
    then "bash"
    else "python3"

unfoldable pub build_command : (runtime source : String) → List String → String × List String
build_command runtime source extra_args =
    if str_eq runtime "python3" || str_eq runtime "python"
    then ("python3", source ∷ extra_args)
    else if str_eq runtime "node" || str_eq runtime "nodejs"
    then ("node", source ∷ extra_args)
    else if str_eq runtime "bash" || str_eq runtime "sh"
    then ("bash", source ∷ extra_args)
    else (runtime, source ∷ extra_args)

unfoldable pub launch : Deployment → Launch
unfolding detect_runtime_from_source build_command
launch d =
    let runtime = if str_eq d.runtime "" then detect_runtime_from_source d.source else d.runtime in
    let (command, args) = build_command runtime d.source d.args in
    record { id = d.id; command = command; args = args }

-- The service as it is before `Add`
unfoldable pub service_of : Deployment → Service
service_of d = record {
  id = d.id;
  restart_policy = always;
  max_restarts = 0;
  restart_delay = second;
  max_restart_delay = 0;
  pid = none;
  state = Supervisor.stopped;
  restarts = 0;
  last_start = 0;
  last_exit = 0;
  last_exit_code = 0;
  consecutive_fails = 0;
}

unfoldable pub start_service : Deployment → Server → Server
unfolding launch service_of
start_service d s = record s {
  services = add (service_of d) s.services;
  calls = s.calls ++ start_call (launch d) ∷ [];
}

unfoldable pub stop_known : String → Option Service → Server → Server
stop_known id none s = s
stop_known id (some svc) s = record s { calls = s.calls ++ stop_call id ∷ [] }

-- `Stop` ends quietly where the supervisor does not know the service.
unfoldable pub stop_service : Deployment → Server → Server
unfolding stop_known
stop_service d s = stop_known d.id (lookup d.id s.services) s

unfoldable pub start_each : List Deployment → Server → Server
unfolding start_service
start_each [] s = s
start_each (d ∷ ds) s = start_each ds (if int_lt 0 d.replicas then start_service d s else s)

unfoldable pub load_existing_deployments : Server → Server
unfolding start_each
load_existing_deployments s = start_each (list_deployments "" "service" s.deployments) s

-- The phase and the number of ready replicas that stand for a state.
unfoldable pub phase_of : ServiceState → Phase
phase_of Supervisor.running = Store.running
phase_of Supervisor.starting = Store.starting
phase_of Supervisor.failed = Store.failed
phase_of Supervisor.backoff = Store.crash_loop_back_off
phase_of Supervisor.stopped = Store.stopped

unfoldable pub ready_of : ServiceState → ℕ
ready_of Supervisor.running = 1
ready_of Supervisor.starting = 0
ready_of Supervisor.failed = 0
ready_of Supervisor.backoff = 0
ready_of Supervisor.stopped = 0

abbrev pub same_phase : Phase → Phase → Bool
same_phase Store.pending Store.pending = true
same_phase Store.scheduled Store.scheduled = true
same_phase Store.starting Store.starting = true
same_phase Store.running Store.running = true
same_phase Store.stopped Store.stopped = true
same_phase Store.failed Store.failed = true
same_phase Store.crash_loop_back_off Store.crash_loop_back_off = true
same_phase _ _ = false

unfoldable pub message_of : StateChange → Message
message_of event =
    if same_state event.new_state Supervisor.failed && not (event.exit_code == 0)
    then exited_with_code event.exit_code
    else no_message

-- Whether the status says already what the change says.
unfoldable pub is_current : StateChange → DeploymentStatus → Bool
unfolding phase_of ready_of
is_current event status =
    same_phase status.phase (phase_of event.new_state)
    && status.ready_replicas == ready_of event.new_state
    && status.restarts == event.restarts

unfoldable pub status_after : StateChange → (now : ℕ) → DeploymentStatus → DeploymentStatus
unfolding phase_of ready_of message_of
status_after event now status = record status {
  phase = phase_of event.new_state;
  ready_replicas = ready_of event.new_state;
  restarts = event.restarts;
  message = message_of event;
  last_updated = now;
}

unfoldable pub sync :
    StateChange → (now : ℕ) → Option Deployment → List Deployment → List Deployment
unfolding is_current status_after
sync event now none rows = rows
sync event now (some d) rows =
    if is_current event d.status
    then rows
    else update_deployment (record d { status = status_after event now d.status }) now rows

unfoldable pub handle_supervisor_state_change :
    (service_id : String) → StateChange → (now : ℕ) → List Deployment → List Deployment
unfolding sync
handle_supervisor_state_change service_id event now rows =
    sync event now (get_deployment service_id rows) rows
