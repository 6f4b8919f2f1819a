-- ===== src/Deployments/Events/Sound.antt =====
-- The invariant of the tables over any sequence of events (pkg/api/server.go).
use prisn.Base.{◌≡◌, List, [], ◌∷◌, true}
use prisn.Deployments.{Server}
use prisn.Deployments.Events.{Event, create, update, scale, delete, state_change, boot, step, run}
use prisn.Deployments.Services.{load_existing_deployments, handle_supervisor_state_change}
use prisn.Deployments.Handlers.{
  handle_update_deployment, handle_delete_deployment, handle_scale_deployment,
}
use prisn.Deployments.Handlers.Created.{IsSound, create-IsSound}
use prisn.Deployments.Handlers.Changed.{
  found-Mem, start_each-IsSound, update_found-IsSound, delete_found-IsSound,
}
use prisn.Deployments.Handlers.Scaled.{scale_found-IsSound, sync-IsSound}
use prisn.Store.{list_deployments}
use prisn.Store.Keys.{get_deployment-Mem}

-- A deletion runs on a connection that enforces foreign keys.
abbrev pub IsEnforced : Event → Type 0
IsEnforced (delete foreign_keys id) = foreign_keys ≡ true
IsEnforced _ = Unit

abbrev pub AreEnforced : List Event → Type 0
AreEnforced [] = Unit
AreEnforced (e ∷ es) = IsEnforced e × AreEnforced es

step-IsSound : (e : Event) (s : Server) → IsEnforced e → IsSound s → IsSound (step e s)
unfolding step handle_update_deployment handle_scale_deployment handle_delete_deployment
    handle_supervisor_state_change load_existing_deployments
step-IsSound (create given body) s _ h = create-IsSound given body s h
step-IsSound (update now id body) s _ h =
    update_found-IsSound now body _ s h (found-Mem id s.deployments)
step-IsSound (scale now id body) s _ h =
    scale_found-IsSound now body _ s h (found-Mem id s.deployments)
step-IsSound (delete foreign_keys id) s enforced h =
    delete_found-IsSound foreign_keys id _ s enforced h
step-IsSound (state_change id event now) s _ h =
    sync-IsSound event now _ s h (get_deployment-Mem id s.deployments)
step-IsSound boot s _ h = start_each-IsSound (list_deployments "" "service" s.deployments) s h

-- In whatever order requests, state changes and starts come, from tables that meet it or from empty ones, where
-- every deletion runs on a connection that enforces foreign keys: the keys of the deployments stay distinct,
-- every deployment has a name, a port and a number of replicas that package validate accepts, and every
-- schedule has its deployment, with the same cron expression.
pub run-IsSound : (es : List Event) (s : Server) → AreEnforced es → IsSound s → IsSound (run es s)
unfolding run
run-IsSound [] s enforced h = h
run-IsSound (e ∷ es) s (enforced, rest) h =
    run-IsSound es (step e s) rest (step-IsSound e s enforced h)
