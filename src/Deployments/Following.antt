-- ===== src/Deployments/Following.antt =====
-- How the status of a deployment (pkg/api/server.go) follows the state of its service
-- (pkg/supervisor/supervisor.go).
use mathlib.Core.Option
use prisn.Base.{
  ℕ, ◌≡◌, ◌==◌, if◌then◌else◌, refl, ap, ◌∙◌, some, List, [], ◌∷◌, true, inl, inr, arith,
  Bool-cases, String, eq_iff,
}
use prisn.Deployments.{CreateDeploymentRequest}
use prisn.Deployments.Services.{
  phase_of, ready_of, same_phase, is_current, status_after, sync, handle_supervisor_state_change,
}
use prisn.Deployments.Handlers.{apply_update}
use prisn.Supervisor
use prisn.Store
use prisn.Base.Word.{int_lt}
use prisn.Store.{
  Phase, Deployment, DeploymentStatus, get_deployment, update_deployment, set_columns,
}
use prisn.Store.Keys.{updated, get_deployment-update, get_deployment_id}
use prisn.Supervisor.{Service, ServiceState, StateChange, Round, supervise}
use prisn.Supervisor.Diagram.{
  Trace, here, along, IsResting, IsReported, supervise-IsReported, supervise-Trace,
}

-- The phase and the number of ready replicas that stand for a state
pub data Shows : ServiceState → Phase → ℕ → Type 0 where
  shows_running : Shows Supervisor.running Store.running 1
  shows_starting : Shows Supervisor.starting Store.starting 0
  shows_failed : Shows Supervisor.failed Store.failed 0
  shows_backoff : Shows Supervisor.backoff Store.crash_loop_back_off 0
  shows_stopped : Shows Supervisor.stopped Store.stopped 0

-- The deployment is in the table, and its status says what stands for the state.
abbrev pub Follows : String → ServiceState → List Deployment → Type 0
Follows id state rows =
    (d : Deployment) × (get_deployment id rows ≡ some d)
    × Shows state d.status.phase d.status.ready_replicas

phase_of-Shows : (s : ServiceState) → Shows s (phase_of s) (ready_of s)
unfolding phase_of ready_of
phase_of-Shows Supervisor.running = shows_running
phase_of-Shows Supervisor.starting = shows_starting
phase_of-Shows Supervisor.failed = shows_failed
phase_of-Shows Supervisor.backoff = shows_backoff
phase_of-Shows Supervisor.stopped = shows_stopped

-- The changes of a service, handled in the order in which they are reported
unfoldable pub handle_each :
    String → List StateChange → (now : ℕ) → List Deployment → List Deployment
handle_each id [] now rows = rows
handle_each id (c ∷ cs) now rows =
    handle_each id cs now (handle_supervisor_state_change id c now rows)

same_phase→eq : (p q : Phase) → same_phase p q ≡ true → p ≡ q
same_phase→eq p q h = ground arith

-- A change that leaves the row as it is finds the status that it stands for.
is_current-Shows :
    (c : StateChange) (st : DeploymentStatus)
    → is_current c st ≡ true
    → Shows c.new_state st.phase st.ready_replicas
unfolding is_current
is_current-Shows c st h =
    let phase : st.phase ≡ phase_of c.new_state =
      same_phase→eq st.phase (phase_of c.new_state) (ground (arith, h)) in
    let ready : st.ready_replicas ≡ ready_of c.new_state = ground (arith, h) in
    rw (phase, ready) (phase_of-Shows c.new_state)

handle-Follows :
    (id : String) (c : StateChange) (now : ℕ) (rows : List Deployment) (d : Deployment)
    → get_deployment id rows ≡ some d
    → Follows id c.new_state (handle_supervisor_state_change id c now rows)
unfolding handle_supervisor_state_change sync status_after set_columns
handle-Follows id c now rows d found = elim (Bool-cases (is_current c d.status)) [
  | inl same ↦ rw (found, same) (d, found, is_current-Shows c d.status same)
  | inr other ↦
      let d' : Deployment = record d { status = status_after c now d.status } in
      rw (found, other)
        (
          set_columns d' now d,
          get_deployment-update d' now id rows
              ∙ ap (Option.map (updated d' now)) found
              ∙ rw ((eq_iff d.id d.id).1 refl) refl,
          phase_of-Shows c.new_state,
        )
]

Trace-Follows :
    (id : String) (now : ℕ) {s t : ServiceState} {cs : List StateChange} (rows : List Deployment)
    → Trace s cs t
    → Follows id s rows
    → Follows id t (handle_each id cs now rows)
unfolding handle_each
Trace-Follows id now rows here f = f
Trace-Follows id now rows (along e edge rest) (d, found, shows) =
    Trace-Follows id now _ rest (handle-Follows id _ now rows d found)

first-Follows :
    (id : String) (now : ℕ) {s t : ServiceState} {cs : List StateChange} (rows : List Deployment)
    (d : Deployment)
    → Trace s cs t
    → IsReported cs
    → get_deployment id rows ≡ some d
    → Follows id t (handle_each id cs now rows)
unfolding handle_each
first-Follows id now rows d here none_reported found = absurd none_reported
first-Follows id now rows d (along e edge rest) reported found =
    Trace-Follows id now _ rest (handle-Follows id _ now rows d found)

-- Whatever becomes of the processes of a service that `supervise` finds at rest, and whatever the status of its
-- deployment says before: behind the changes that `supervise` reports in one round or more, handled in their
-- order, the deployment is still there, and its phase and its ready replicas are those that stand for the
-- state in which the service is left: Running with one ready replica, or Starting, Failed, CrashLoopBackOff
-- or Stopped with none.
pub supervise-Follows :
    (r : Round) (rs : List Round) (svc : Service) (now : ℕ) (rows : List Deployment)
    (d : Deployment)
    → IsResting svc.state
    → get_deployment svc.id rows ≡ some d
    → Follows svc.id
        (supervise (r ∷ rs) svc).service.state
        (handle_each svc.id (supervise (r ∷ rs) svc).changes now rows)
supervise-Follows r rs svc now rows d rest found =
    first-Follows svc.id now rows d (supervise-Trace (r ∷ rs) svc rest)
      (supervise-IsReported r rs svc rest) found

-- A handler that has read a deployment before a change of state writes the status of its copy: behind its
-- write, the phase and the ready replicas are those from before the change, whatever the change was, while
-- the replicas are those of the request if it asks for some, and the port is that of the request if it is
-- not 0, and else those of the copy.
pub apply_update-stale :
    (req : CreateDeploymentRequest) (c : StateChange) (t now : ℕ) (rows : List Deployment)
    (d : Deployment)
    → get_deployment d.id rows ≡ some d
    → (e : Deployment) × (get_deployment d.id (
          update_deployment (apply_update req d) now (handle_supervisor_state_change d.id c t rows))
        ≡ some e)
      × (e.status.phase ≡ d.status.phase)
      × (e.status.ready_replicas ≡ d.status.ready_replicas)
      × (e.replicas ≡ (if int_lt 0 req.replicas then req.replicas else d.replicas))
      × (e.port ≡ (if req.port == 0 then d.port else req.port))
unfolding apply_update set_columns
apply_update-stale req c t now rows d found =
    let (row, there, shows) = handle-Follows d.id c t rows d found in
    let d' = apply_update req d in
    let same = get_deployment_id d.id _ row there in
    (
      set_columns d' now row,
      get_deployment-update d' now d.id (handle_supervisor_state_change d.id c t rows)
          ∙ ap (Option.map (updated d' now)) there
          ∙ rw ((eq_iff row.id d.id).1 same) refl,
      ground arith,
      ground arith,
      refl,
      refl,
    )
