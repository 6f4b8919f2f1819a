-- ===== src/Deployments/Handlers/Scaled.antt =====
-- Scaling, and a change of state that the supervisor reports (pkg/api/server.go), keep the invariant of
-- the tables.
use mathlib.Core.List.{Memᴰ}
use prisn.Base.{
  ℕ, ◌≡◌, inl, inr, refl, sym, Option, none, some, ◌==◌, ◌&&◌, Bool-cases, Option-cases, subst,
  str_eq, eq_iff,
}
use prisn.Base.Word.{int_lt}
use prisn.Base.Dict.{lookup}
use prisn.Deployments.{Server}
use prisn.Deployments.Services.{
  start_service, stop_service, stop_known, sync, status_after, is_current,
}
use prisn.Deployments.Handlers.{
  save, with_status, stopped_status, scale_status, scale_service, scale_checked, scale_found,
}
use prisn.Deployments.Handlers.Created.{IsSound, save-IsSound}
use prisn.Deployments.Handlers.Rows.{AreSound, Mem-updated, update-AreSound}
use prisn.Deployments.Handlers.Changed.{stop_service-IsSound, either-IsSound}
use prisn.Store.{Deployment, set_columns, update_deployment}
use prisn.Supervisor.{StateChange}
use prisn.Validate

scale_row-IsSound :
    (replicas now : ℕ) (d : Deployment) (s : Server)
    → IsSound s
    → Memᴰ d s.deployments
    → Validate.replicas replicas ≡ none
    → IsSound
        (save (record d { replicas = replicas; status = scale_status replicas now d.status }) now s)
unfolding save
scale_row-IsSound replicas now d s h m ok =
    let (name_ok, p, r) = h.valid d m in
    update-AreSound (record d { replicas = replicas; status = scale_status replicas now d.status })
      d now h m refl refl p ok

written-Mem :
    (d read : Deployment) (now : ℕ) (s : Server)
    → Memᴰ read s.deployments
    → d.id ≡ read.id
    → Memᴰ (set_columns d now read) (save d now s).deployments
unfolding save
written-Mem d read now s m same =
    subst (λ x. Memᴰ x (update_deployment d now s.deployments))
      (rw ((eq_iff read.id d.id).1 (sym same)) refl) (Mem-updated d read now s.deployments m)

pub deployments-stop_service :
    (d : Deployment) (s : Server) → (stop_service d s).deployments ≡ s.deployments
unfolding stop_service stop_known
deployments-stop_service d s = elim (Option-cases (lookup d.id s.services)) [
  | inl e ↦ rw e refl
  | inr (svc, e) ↦ rw e refl
]

-- The copy is written once more, behind the first write.
stop_row-IsSound :
    (d : Deployment) (now : ℕ) (t : Server)
    → IsSound t
    → Memᴰ (set_columns d now d) t.deployments
    → IsSound (save (with_status stopped_status d) now t)
unfolding save set_columns
stop_row-IsSound d now t h m =
    let (name_ok, p, r) = h.valid (set_columns d now d) m in
    update-AreSound (with_status stopped_status d) (set_columns d now d) now h m refl refl p r

scale_service-IsSound :
    (old now : ℕ) (d : Deployment) (t : Server)
    → IsSound t
    → Memᴰ (set_columns d now d) t.deployments
    → IsSound (scale_service old now d t)
unfolding scale_service start_service
scale_service-IsSound old now d t h m =
    either-IsSound (old == 0 && int_lt 0 d.replicas) (start_service d t) _ h (
      either-IsSound (int_lt 0 old && d.replicas == 0)
        (save (with_status stopped_status d) now (stop_service d t)) t
        (stop_row-IsSound d now (stop_service d t) (stop_service-IsSound d t h)
          (subst (Memᴰ (set_columns d now d)) (sym (deployments-stop_service d t)) m))
        h)

scale_checked-IsSound :
    (now replicas : ℕ) (d : Deployment) (s : Server)
    → IsSound s
    → Memᴰ d s.deployments
    → Validate.replicas replicas ≡ none
    → IsSound (scale_checked now replicas d s none).0
unfolding scale_checked set_columns
scale_checked-IsSound now replicas d s h m ok =
    let d' : Deployment = record d {
      replicas = replicas;
      status = scale_status replicas now d.status;
    } in
    let h' = scale_row-IsSound replicas now d s h m ok in
    either-IsSound (str_eq d.kind "service") (scale_service d.replicas now d' (save d' now s))
      (save d' now s)
      (scale_service-IsSound d.replicas now d' (save d' now s) h' (written-Mem d' d now s m refl))
      h'

pub scale_found-IsSound :
    (now : ℕ) (body : Option ℕ) (found : Option Deployment) (s : Server)
    → IsSound s
    → ((d : Deployment) → found ≡ some d → Memᴰ d s.deployments)
    → IsSound (scale_found now body found s).0
unfolding scale_found scale_checked
scale_found-IsSound now none none s h m = h
scale_found-IsSound now (some replicas) none s h m = h
scale_found-IsSound now none (some d) s h m = h
scale_found-IsSound now (some replicas) (some d) s h m =
    elim (Option-cases (Validate.replicas replicas)) [
      | inr (e, bad) ↦ rw bad h
      | inl good ↦ rw good (scale_checked-IsSound now replicas d s h (m d refl) good)
    ]

pub sync-IsSound :
    (event : StateChange) (now : ℕ) (found : Option Deployment) (s : Server)
    → IsSound s
    → ((d : Deployment) → found ≡ some d → Memᴰ d s.deployments)
    → AreSound (sync event now found s.deployments) s.schedules
unfolding sync
sync-IsSound event now none s h m = h
sync-IsSound event now (some d) s h m = elim (Bool-cases (is_current event d.status)) [
  | inl same ↦ rw same h
  | inr other ↦ rw other (unfold save in save-IsSound (status_after event now) d now s h (m d refl))
]
