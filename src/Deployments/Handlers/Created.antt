-- ===== src/Deployments/Handlers/Created.antt =====
-- The creation of a deployment (pkg/api/server.go) keeps the invariant of the tables.
use mathlib.Core.List.{Memᴰ}
use prisn.Base.{
  ℕ, ◌≡◌, ◌⊎◌, inl, inr, refl, sym, Option, none, some, ◌∷◌, Bool, true, false, not, ◌==◌, ◌&&◌,
  arith, Bool-cases, Option-cases, subst, if◌then◌else◌, String, str_eq,
}
use prisn.Base.Word.{int_lt}
use prisn.Base.Text.{codes}
use prisn.Deployments.{
  Server, Given, CreateDeploymentRequest, Problem, invalid_name, invalid_port, invalid_replicas,
  Response, created,
}
use prisn.Deployments.Requests.{
  problem, or_else, checked_only, check_request, set_defaults, new_deployment,
}
use prisn.Deployments.Services.{start_service}
use prisn.Deployments.Handlers.{
  handle_create_deployment, checked, inserted, begin, with_status, recorded, mark, failed_status,
  scheduled_status, register, registered, save,
}
use prisn.Deployments.Handlers.Rows.{
  IsValid, IsOwned, AreSound, update-AreSound, create-AreSound, schedule-AreSound,
}
use prisn.Scheduler.Cron.{CronExpr, Parsed, ok, err, endless, parse_cron, expand_shortcut}
use prisn.Scheduler.Matching.{Calendar, next_after}
use prisn.Scheduler.Jobs
use prisn.Scheduler.Jobs.{
  CronSchedule, Registered, no_schedule, invalid_expression, endless_expression,
  register_deployment, register_parsed, new_schedule, time_of,
}
use prisn.Store.{
  Deployment, DeploymentStatus, create_cron_schedule, has_cron_id, get_deployment,
  create_deployment, any_clash,
}
use prisn.Store.Keys.{get_deployment-own}
use prisn.Validate
use prisn.Validate.{cron_schedule}

-- The tables of a server meet the invariant.
abbrev pub IsSound : Server → Type 0
IsSound s = AreSound s.deployments s.schedules

pub or_else_inv : (a b : Option Problem) → or_else a b ≡ none → (a ≡ none) × (b ≡ none)
unfolding or_else
or_else_inv none b h = (refl, h)
or_else_inv (some e) b h = absurd (ground (arith, h))

pub problem_inv : {E : Type 0} (f : E → Problem) (o : Option E) → problem f o ≡ none → o ≡ none
unfolding problem
problem_inv f none h = refl
problem_inv f (some e) h = absurd (ground (arith, h))

-- A check that is left out for the value 0 accepts 0 itself or a value that passes.
pub left_out : (b : Bool) (o : Option Problem) → checked_only b o ≡ none → (b ≡ false) ⊎ (o ≡ none)
unfolding checked_only
left_out true o h = inr h
left_out false o h = inl refl

port_checked :
    (p : ℕ)
    → checked_only (not (p == 0)) (problem invalid_port (Validate.port p)) ≡ none
    → Validate.port p ≡ none
port_checked p h = elim (left_out _ _ h) [
  | inl zero_port ↦ let e : p ≡ 0 = ground (arith, zero_port) in rw e (unfold Validate.port in refl)
  | inr o ↦ problem_inv invalid_port (Validate.port p) o
]

replicas_checked :
    (n : ℕ)
    → checked_only (not (n == 0)) (problem invalid_replicas (Validate.replicas n)) ≡ none
    → Validate.replicas (if n == 0 then 1 else n) ≡ none
replicas_checked n h = elim (Bool-cases (n == 0)) [
  | inl is_zero ↦ rw is_zero (unfold Validate.replicas in refl)
  | inr other ↦ rw other (
      problem_inv invalid_replicas (Validate.replicas n) (
        ground (
          arith,
          h,
          other,
          left_out (not (n == 0)) (problem invalid_replicas (Validate.replicas n)) h,
        )))
]

-- What the checks of a request and its defaults make is valid.
request-IsValid :
    (id : String) (now : ℕ) (req : CreateDeploymentRequest)
    → check_request req ≡ none
    → IsValid (new_deployment id now (set_defaults req))
unfolding check_request set_defaults new_deployment
request-IsValid id now req h =
    let (n₀, h₁) = or_else_inv _ _ h in
    let (s₀, h₂) = or_else_inv _ _ h₁ in
    let (name_ok, h₃) = or_else_inv _ _ h₂ in
    let (port_ok, h₄) = or_else_inv _ _ h₃ in
    let (replicas_ok, h₅) = or_else_inv _ _ h₄ in
    (
      problem_inv invalid_name (Validate.name (codes req.name)) name_ok,
      port_checked req.port port_ok,
      replicas_checked req.replicas replicas_ok,
    )

register_parsed-owner :
    (cal : Calendar) (fuel now : ℕ) (id deployment_id schedule : String) (p : Parsed CronExpr)
    (cs : CronSchedule)
    → register_parsed cal fuel now id deployment_id schedule p ≡ Jobs.created cs
    → (cs.deployment_id ≡ deployment_id) × (cs.schedule ≡ schedule)
unfolding register_parsed new_schedule
register_parsed-owner cal fuel now id di sc endless cs h = absurd (ground (arith, h))
register_parsed-owner cal fuel now id di sc (err e) cs h = absurd (ground (arith, h))
register_parsed-owner cal fuel now id di sc (ok c) cs h =
    elim (Option-cases (time_of (next_after cal c fuel now))) [
      | inl e ↦ absurd (ground (arith, h, e))
      | inr (t, e) ↦ (ground (arith, h, e), ground (arith, h, e))
    ]

register_deployment-owner :
    (cal : Calendar) (parse_fuel search_fuel now : ℕ) (id deployment_id schedule : String)
    (cs : CronSchedule)
    → register_deployment cal parse_fuel search_fuel now id deployment_id schedule ≡ Jobs.created cs
    → (cs.deployment_id ≡ deployment_id) × (cs.schedule ≡ schedule)
unfolding register_deployment
register_deployment-owner cal pf sf now id di sc cs h = elim (Bool-cases (str_eq sc "")) [
  | inl e ↦ absurd (ground (arith, h, e))
  | inr e ↦
      register_parsed-owner cal sf now id di sc (parse_cron pf (codes (expand_shortcut sc))) cs
        (ground (arith, h, e))
]

-- Writing back a deployment of the table with another status
pub save-IsSound :
    (f : DeploymentStatus → DeploymentStatus) (d : Deployment) (now : ℕ) (s : Server)
    → IsSound s
    → Memᴰ d s.deployments
    → IsSound (save (with_status f d) now s)
unfolding save
save-IsSound f d now s h m =
    let (name_ok, p, r) = h.valid d m in update-AreSound (with_status f d) d now h m refl refl p r

recorded-IsSound :
    (given : Given) (d : Deployment) (s : Server) (cs : CronSchedule)
    → IsSound s
    → Memᴰ d s.deployments
    → IsOwned s.deployments cs
    → IsSound (recorded given d s (create_cron_schedule cs s.schedules)).0
unfolding create_cron_schedule recorded mark
recorded-IsSound given d s cs h m owned = elim (Bool-cases (has_cron_id cs.id s.schedules)) [
  | inl taken ↦ rw taken (save-IsSound failed_status d given.now s h m)
  | inr fresh ↦ rw fresh (
      save-IsSound scheduled_status d given.now (record s { schedules = cs ∷ s.schedules })
        (schedule-AreSound cs h owned) m)
]

registered-IsSound :
    (given : Given) (d : Deployment) (s : Server) (r : Registered)
    → IsSound s
    → Memᴰ d s.deployments
    → ((cs : CronSchedule) → r ≡ Jobs.created cs → IsOwned s.deployments cs)
    → IsSound (registered given d s r).0
unfolding registered mark
registered-IsSound given d s no_schedule h m owned = save-IsSound failed_status d given.now s h m
registered-IsSound given d s invalid_expression h m owned =
    save-IsSound failed_status d given.now s h m
registered-IsSound given d s endless_expression h m owned = h
registered-IsSound given d s (Jobs.created cs) h m owned =
    recorded-IsSound given d s cs h m (owned cs refl)

register-IsSound :
    (given : Given) (d : Deployment) (s : Server)
    → IsSound s
    → Memᴰ d s.deployments
    → IsSound (register given d s).0
unfolding register
register-IsSound given d s h m = registered-IsSound given d s _ h m λ cs e.
    let (owner, same) =
      register_deployment-owner given.calendar given.parse_fuel given.search_fuel given.now
        given.cron_id d.id d.schedule cs e in
    (
      d,
      subst (λ i. get_deployment i s.deployments ≡ some d) (sym owner)
          (get_deployment-own s.deployments d h.distinct m),
      sym same,
    )

begin-IsSound :
    (given : Given) (d : Deployment) (s : Server)
    → IsSound s
    → Memᴰ d s.deployments
    → IsSound (begin given d s).0
unfolding begin
begin-IsSound given d s h m = elim (Bool-cases (str_eq d.kind "service" && int_lt 0 d.replicas)) [
  | inl service ↦
      rw service (rest (start_service d s) (unfold start_service in h) (unfold start_service in m))
  | inr other ↦ rw other (rest s h m)
]
  where
    rest :
        (t : Server)
        → IsSound t
        → Memᴰ d t.deployments
        → IsSound
            (if◌then◌else◌ {A = Server × Response}
              (str_eq d.kind "cronjob" && not (str_eq d.schedule "") && s.has_scheduler)
              (register given d t)
              (t, created d)).0
    rest t k n =
        elim (Bool-cases
          (str_eq d.kind "cronjob" && not (str_eq d.schedule "") && s.has_scheduler)) [
            | inl cron ↦ rw cron (register-IsSound given d t k n)
            | inr other ↦ rw other k
          ]

inserted-IsSound :
    (given : Given) (d : Deployment) (s : Server)
    → IsSound s
    → IsValid d
    → IsSound (inserted given d s (create_deployment d s.deployments)).0
unfolding inserted create_deployment
inserted-IsSound given d s h v = elim (Bool-cases (any_clash d s.deployments)) [
  | inl clash ↦ rw clash h
  | inr alone ↦ rw alone (
      begin-IsSound given d (record s { deployments = d ∷ s.deployments })
        (create-AreSound d h alone v) (Memᴰ.head refl))
]

pub create-IsSound :
    (given : Given) (body : Option CreateDeploymentRequest) (s : Server)
    → IsSound s
    → IsSound (handle_create_deployment given body s).0
unfolding handle_create_deployment checked
create-IsSound given none s h = h
create-IsSound given (some req) s h = elim (Option-cases (check_request req)) [
  | inr (e, bad) ↦ rw bad h
  | inl good ↦ rw good (
      inserted-IsSound given (new_deployment given.id given.now (set_defaults req)) s h
        (request-IsValid given.id given.now req good))
]
