-- ===== src/Deployments/Handlers/Changed.antt =====
-- Update and deletion (pkg/api/server.go) keep the invariant of the tables.
use mathlib.Core.List.{Memᴰ}
use prisn.Base.{
  ℕ, ◌≡◌, inl, inr, refl, Option, none, some, List, [], ◌∷◌, Bool, true, false, not, ◌==◌, arith,
  Bool-cases, Option-cases, if◌then◌else◌, String, str_eq,
}
use prisn.Base.Word.{int_lt}
use prisn.Base.Dict.{lookup}
use prisn.Deployments.{Server, CreateDeploymentRequest, invalid_replicas, invalid_port}
use prisn.Deployments.Requests.{problem, checked_only}
use prisn.Deployments.Services.{start_service, stop_service, stop_known, start_each}
use prisn.Deployments.Handlers.{
  save, check_update, apply_update, or_by_name, get_deployment_by_id_or_name, update_checked,
  update_found, delete_row, delete_found,
}
use prisn.Deployments.Handlers.Created.{IsSound, or_else_inv, problem_inv, left_out}
use prisn.Deployments.Handlers.Rows.{update-AreSound, delete-AreSound}
use prisn.Store.{Deployment, get_deployment, delete_deployment}
use prisn.Store.Keys.{get_deployment-Mem, get_deployment_by_name-Mem}
use prisn.Validate

or_by_name-Mem :
    (name : String) (rows : List Deployment) (by_id : Option Deployment) (d : Deployment)
    → ((e : Deployment) → by_id ≡ some e → Memᴰ e rows)
    → or_by_name name rows by_id ≡ some d
    → Memᴰ d rows
unfolding or_by_name
or_by_name-Mem name rows none d there h = get_deployment_by_name-Mem "default" name rows d h
or_by_name-Mem name rows (some e) d there h = there d h

pub found-Mem :
    (id : String) (rows : List Deployment) (d : Deployment)
    → get_deployment_by_id_or_name id rows ≡ some d
    → Memᴰ d rows
unfolding get_deployment_by_id_or_name
found-Mem id rows d h =
    or_by_name-Mem id rows (get_deployment id rows) d (λ e. get_deployment-Mem id rows e) h

-- A service that is started or stopped leaves the tables.
pub stop_service-IsSound : (d : Deployment) (s : Server) → IsSound s → IsSound (stop_service d s)
unfolding stop_service stop_known
stop_service-IsSound d s h = elim (Option-cases (lookup d.id s.services)) [
  | inl e ↦ rw e h
  | inr (svc, e) ↦ rw e h
]

pub either-IsSound :
    (b : Bool) (s t : Server) → IsSound s → IsSound t → IsSound (if b then s else t)
either-IsSound true s t h k = h
either-IsSound false s t h k = k

pub start_each-IsSound : (ds : List Deployment) (s : Server) → IsSound s → IsSound (start_each ds s)
unfolding start_each start_service
start_each-IsSound [] s h = h
start_each-IsSound (d ∷ ds) s h =
    start_each-IsSound ds (if int_lt 0 d.replicas then start_service d s else s)
      (either-IsSound (int_lt 0 d.replicas) (start_service d s) s h h)

unset_port :
    (old new : ℕ)
    → Validate.port old ≡ none
    → checked_only (not (new == 0)) (problem invalid_port (Validate.port new)) ≡ none
    → Validate.port (if new == 0 then old else new) ≡ none
unset_port old new was h = elim (Bool-cases (new == 0)) [
  | inl e ↦ rw e was
  | inr e ↦ rw e (
      problem_inv invalid_port (Validate.port new)
        (ground (arith, e, left_out (not (new == 0)) (problem invalid_port (Validate.port new)) h)))
]

unset_replicas :
    (old new : ℕ)
    → Validate.replicas old ≡ none
    → checked_only (int_lt 0 new) (problem invalid_replicas (Validate.replicas new)) ≡ none
    → Validate.replicas (if int_lt 0 new then new else old) ≡ none
unset_replicas old new was h = elim (Bool-cases (int_lt 0 new)) [
  | inr e ↦ rw e was
  | inl e ↦ rw e (
      problem_inv invalid_replicas (Validate.replicas new) (
        ground
          (arith, e, left_out (int_lt 0 new) (problem invalid_replicas (Validate.replicas new)) h)))
]

update_checked-IsSound :
    (now : ℕ) (req : CreateDeploymentRequest) (d : Deployment) (s : Server)
    → IsSound s
    → Memᴰ d s.deployments
    → check_update req ≡ none
    → IsSound (update_checked now req d s none).0
unfolding update_checked save apply_update check_update
update_checked-IsSound now req d s h m ok =
    let (name_ok, p, r) = h.valid d m in
    let (replicas_ok, rest) = or_else_inv _ _ ok in
    let (source_ok, port_ok) = or_else_inv _ _ rest in
    update-AreSound (apply_update req d) d now h m refl refl (unset_port d.port req.port p port_ok)
      (unset_replicas d.replicas req.replicas r replicas_ok)

pub update_found-IsSound :
    (now : ℕ) (body : Option CreateDeploymentRequest) (found : Option Deployment) (s : Server)
    → IsSound s
    → ((d : Deployment) → found ≡ some d → Memᴰ d s.deployments)
    → IsSound (update_found now body found s).0
unfolding update_found update_checked
update_found-IsSound now none none s h m = h
update_found-IsSound now (some req) none s h m = h
update_found-IsSound now none (some d) s h m = h
update_found-IsSound now (some req) (some d) s h m = elim (Option-cases (check_update req)) [
  | inr (e, bad) ↦ rw bad h
  | inl good ↦ rw good (update_checked-IsSound now req d s h (m d refl) good)
]

delete_row-IsSound : (id : String) (s : Server) → IsSound s → IsSound (delete_row true id s).0
unfolding delete_row
delete_row-IsSound id s h = elim (Bool-cases (delete_deployment id s.deployments).1) [
  | inl e ↦ rw e (delete-AreSound id h)
  | inr e ↦ rw e h
]

pub delete_found-IsSound :
    (foreign_keys : Bool) (id : String) (found : Option Deployment) (s : Server)
    → foreign_keys ≡ true
    → IsSound s
    → IsSound (delete_found foreign_keys id found s).0
unfolding delete_found
delete_found-IsSound false id found s enforced h = absurd (ground (arith, enforced))
delete_found-IsSound true id none s enforced h = delete_row-IsSound id s h
delete_found-IsSound true id (some d) s enforced h =
    delete_row-IsSound d.id (if str_eq d.kind "service" then stop_service d s else s)
      (either-IsSound (str_eq d.kind "service") (stop_service d s) s (stop_service-IsSound d s h) h)
