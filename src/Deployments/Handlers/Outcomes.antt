-- ===== src/Deployments/Handlers/Outcomes.antt =====
-- What the handlers of deployments (pkg/api/server.go) leave in the tables of the store.
use prisn.Base.{
  ℕ, ◌≡◌, inl, inr, refl, Option, none, some, List, ◌∷◌, Bool, true, false, not, ◌&&◌, arith,
  Bool-cases, Option-cases, subst, if◌then◌else◌, String, str_eq, eq_iff,
}
use prisn.Base.Word.{int_lt}
use prisn.Deployments.{
  Server, Given, CreateDeploymentRequest, Problem, Response, created, bad_request, not_found,
  conflict,
}
use prisn.Deployments.Requests.{check_request, new_deployment, set_defaults}
use prisn.Deployments.Services.{start_service}
use prisn.Deployments.Handlers.{
  save, with_status, mark, recorded, registered, register, begin, inserted, checked, failed_status,
  scheduled_status, handle_create_deployment, update_found, update_checked, check_update,
  scale_found, scale_checked, handle_update_deployment, handle_scale_deployment, or_by_name,
  get_deployment_by_id_or_name,
}
use prisn.Scheduler.Jobs
use prisn.Scheduler.Jobs.{
  CronSchedule, Registered, no_schedule, invalid_expression, endless_expression,
  register_deployment,
}
use prisn.Store.{
  Deployment, DeploymentStatus, get_deployment, create_deployment, update_deployment, set_columns,
  any_clash, create_cron_schedule,
}
use prisn.Validate

-- The deployment of the response is the row that its id finds.
abbrev IsStored : Server × Response → Type 0
IsStored (s, r) = (d : Deployment) → r ≡ created d → get_deployment d.id s.deployments ≡ some d

-- The deployment is the first row.
abbrev IsFirst : Deployment → Server → Type 0
IsFirst d s = (rows : List Deployment) × (s.deployments ≡ d ∷ rows)

created_inj : (d e : Deployment) → created d ≡ created e → d ≡ e
created_inj d e h = cc

mark-IsStored :
    (f : DeploymentStatus → DeploymentStatus) (given : Given) (d : Deployment) (s : Server)
    → IsFirst d s
    → IsStored (mark f given d s)
unfolding mark save update_deployment set_columns get_deployment
mark-IsStored f given d s (rows, first) e h =
    subst
      (λ x.
        get_deployment x.id (update_deployment (with_status f d) given.now s.deployments) ≡ some x)
      (created_inj _ e h) (rw (first, (eq_iff d.id d.id).1 refl, (eq_iff d.id d.id).1 refl) refl)

registered-IsStored :
    (given : Given) (d : Deployment) (s : Server) (r : Registered)
    → IsFirst d s
    → IsStored (registered given d s r)
unfolding registered recorded
registered-IsStored given d s no_schedule first = mark-IsStored failed_status given d s first
registered-IsStored given d s invalid_expression first = mark-IsStored failed_status given d s first
registered-IsStored given d s endless_expression first = λ e h. absurd (ground (arith, h))
registered-IsStored given d s (Jobs.created cs) first =
    elim (Option-cases (create_cron_schedule cs s.schedules)) [
      | inl e ↦ rw e (mark-IsStored failed_status given d s first)
      | inr (rows, e) ↦
          rw e (mark-IsStored scheduled_status given d (record s { schedules = rows }) first)
    ]

either-IsStored :
    (b : Bool) (x y : Server × Response) → IsStored x → IsStored y → IsStored (if b then x else y)
either-IsStored true x y h k = h
either-IsStored false x y h k = k

either-IsFirst :
    (b : Bool) (d : Deployment) (s t : Server)
    → IsFirst d s
    → IsFirst d t
    → IsFirst d (if b then s else t)
either-IsFirst true d s t h k = h
either-IsFirst false d s t h k = k

first-IsStored : (d : Deployment) (s : Server) → IsFirst d s → IsStored (s, created d)
unfolding get_deployment
first-IsStored d s (rows, first) e h =
    subst (λ x. get_deployment x.id s.deployments ≡ some x) (created_inj d e h)
      (rw (first, (eq_iff d.id d.id).1 refl) refl)

begin-IsStored :
    (given : Given) (d : Deployment) (s : Server) → IsFirst d s → IsStored (begin given d s)
unfolding begin register start_service
begin-IsStored given d s first =
    let is_service = str_eq d.kind "service" && int_lt 0 d.replicas in
    let s' = if is_service then start_service d s else s in
    let first' = either-IsFirst is_service d (start_service d s) s first first in
    either-IsStored (str_eq d.kind "cronjob" && not (str_eq d.schedule "") && s.has_scheduler)
      (register given d s') (s', created d)
      (registered-IsStored given d s'
        (register_deployment given.calendar given.parse_fuel given.search_fuel given.now
          given.cron_id d.id d.schedule)
        first')
      (first-IsStored d s' first')

checked-IsStored :
    (given : Given) (req : CreateDeploymentRequest) (s : Server) (o : Option Problem)
    → IsStored (checked given req s o)
unfolding checked inserted create_deployment
checked-IsStored given req s (some p) = λ e h. absurd (ground (arith, h))
checked-IsStored given req s none =
    let d = new_deployment given.id given.now (set_defaults req) in
    elim (Bool-cases (any_clash d s.deployments)) [
      | inl clash ↦ rw clash (λ e h. absurd (ground (arith, h)))
      | inr alone ↦ rw alone (
          begin-IsStored given d (record s { deployments = d ∷ s.deployments })
            (s.deployments, refl))
    ]

-- Directly behind a creation, the deployment that it answers with is what its id finds, whether it is a job,
-- a service that has been started, or a cron job that has been registered or could not be.
pub create-get :
    (given : Given) (body : Option CreateDeploymentRequest) (s : Server) (d : Deployment)
    → (handle_create_deployment given body s).1 ≡ created d
    → get_deployment_by_id_or_name d.id (handle_create_deployment given body s).0.deployments
      ≡ some d
unfolding handle_create_deployment get_deployment_by_id_or_name or_by_name
create-get given none s d h = absurd (ground (arith, h))
create-get given (some req) s d h = rw (checked-IsStored given req s (check_request req) d h) refl

-- A request is refused.
abbrev pub is_refusal : Response → Bool
is_refusal (bad_request e) = true
is_refusal not_found = true
is_refusal conflict = true
is_refusal _ = false

-- A refusal comes from a server that is left as it was.
abbrev LeavesIt : Server → Server × Response → Type 0
LeavesIt s (t, r) = is_refusal r ≡ true → t ≡ s

either-LeavesIt :
    (b : Bool) (s : Server) (x y : Server × Response)
    → LeavesIt s x
    → LeavesIt s y
    → LeavesIt s (if b then x else y)
either-LeavesIt true s x y h k = h
either-LeavesIt false s x y h k = k

registered-LeavesIt :
    (given : Given) (d : Deployment) (s t : Server) (r : Registered)
    → LeavesIt s (registered given d t r)
unfolding registered recorded mark
registered-LeavesIt given d s t no_schedule = λ h. absurd (ground (arith, h))
registered-LeavesIt given d s t invalid_expression = λ h. absurd (ground (arith, h))
registered-LeavesIt given d s t endless_expression = λ h. absurd (ground (arith, h))
registered-LeavesIt given d s t (Jobs.created cs) =
    elim (Option-cases (create_cron_schedule cs t.schedules)) [
      | inl e ↦ rw e (λ h. absurd (ground (arith, h)))
      | inr (rows, e) ↦ rw e (λ h. absurd (ground (arith, h)))
    ]

checked-LeavesIt :
    (given : Given) (req : CreateDeploymentRequest) (s : Server) (o : Option Problem)
    → LeavesIt s (checked given req s o)
unfolding checked inserted create_deployment begin register
checked-LeavesIt given req s (some p) = λ h. refl
checked-LeavesIt given req s none =
    let d = new_deployment given.id given.now (set_defaults req) in
    elim (Bool-cases (any_clash d s.deployments)) [
      | inl clash ↦ rw clash (λ h. refl)
      | inr alone ↦ rw alone (
          either-LeavesIt (str_eq d.kind "cronjob" && not (str_eq d.schedule "") && s.has_scheduler)
            s (register given d _) (_, created d) (registered-LeavesIt given d s _ _)
            (λ h. absurd (ground (arith, h))))
    ]

update-LeavesIt :
    (now : ℕ) (body : Option CreateDeploymentRequest) (found : Option Deployment) (s : Server)
    → LeavesIt s (update_found now body found s)
unfolding update_found update_checked
update-LeavesIt now none none s = λ h. refl
update-LeavesIt now (some req) none s = λ h. refl
update-LeavesIt now none (some d) s = λ h. refl
update-LeavesIt now (some req) (some d) s = elim (Option-cases (check_update req)) [
  | inr (e, bad) ↦ rw bad (λ h. refl)
  | inl good ↦ rw good (λ h. absurd (ground (arith, h)))
]

scale-LeavesIt :
    (now : ℕ) (body : Option ℕ) (found : Option Deployment) (s : Server)
    → LeavesIt s (scale_found now body found s)
unfolding scale_found scale_checked
scale-LeavesIt now none none s = λ h. refl
scale-LeavesIt now (some replicas) none s = λ h. refl
scale-LeavesIt now none (some d) s = λ h. refl
scale-LeavesIt now (some replicas) (some d) s = elim (Option-cases (Validate.replicas replicas)) [
  | inr (e, bad) ↦ rw bad (λ h. refl)
  | inl good ↦ rw good (λ h. absurd (ground (arith, h)))
]

create-LeavesIt :
    (given : Given) (body : Option CreateDeploymentRequest) (s : Server)
    → LeavesIt s (handle_create_deployment given body s)
unfolding handle_create_deployment
create-LeavesIt given none s = λ h. refl
create-LeavesIt given (some req) s = checked-LeavesIt given req s (check_request req)

-- A creation, an update or a scaling that is answered with an error (400, 404 or 409) leaves the tables, the
-- services of the supervisor and the calls it has had as they were.
pub handlers_refuse :
    (given : Given) (now : ℕ) (id : String) (body : Option CreateDeploymentRequest)
    (replicas : Option ℕ) (s : Server)
    → (is_refusal (handle_create_deployment given body s).1 ≡ true
        → (handle_create_deployment given body s).0 ≡ s)
      × (is_refusal (handle_update_deployment now id body s).1 ≡ true
          → (handle_update_deployment now id body s).0 ≡ s)
      × (is_refusal (handle_scale_deployment now id replicas s).1 ≡ true
          → (handle_scale_deployment now id replicas s).0 ≡ s)
unfolding handle_update_deployment handle_scale_deployment
handlers_refuse given now id body replicas s = (
  create-LeavesIt given body s,
  update-LeavesIt now body (get_deployment_by_id_or_name id s.deployments) s,
  scale-LeavesIt now replicas (get_deployment_by_id_or_name id s.deployments) s,
)
