-- ===== src/Supervisor/Diagram.antt =====
-- The diagram of service states, and the changes that a supervised service reports against it.
use prisn.Base.{ℕ, ◌≡◌, refl, subst, sym, inl, inr, List, [], ◌∷◌, ◌++◌, arith, Bool-cases}
use prisn.Supervisor.{
  Service, ServiceState, stopped, starting, running, failed, backoff, StateChange, emit, Exit,
  clean, exited, crashed, Outcome, no_start, ran, begin_start, finish_start, fail_start,
  wait_for_exit, attempt, enter_backoff, should_restart, calculate_backoff, Round, supervise,
}

-- A service is started from rest, runs and ends, or does not start; then it waits to be started again.
infix 40 ◌⟶◌
pub data ◌⟶◌ : ServiceState → ServiceState → Type 0 where
  start : stopped ⟶ starting
  restart : backoff ⟶ starting
  up : starting ⟶ running
  no_process : starting ⟶ failed
  finish : running ⟶ stopped
  break : running ⟶ failed
  wait_stopped : stopped ⟶ backoff
  wait_failed : failed ⟶ backoff

-- The changes lead from one state to another along the diagram, each beginning where the one before
-- it ended.
pub data Trace : ServiceState → List StateChange → ServiceState → Type 0 where
  here : {s : ServiceState} → Trace s [] s
  along :
      {s t : ServiceState} {c : StateChange} {cs : List StateChange}
      → c.old_state ≡ s
      → s ⟶ c.new_state
      → Trace c.new_state cs t
      → Trace s (c ∷ cs) t

Trace-append :
    {s t u : ServiceState} {cs ds : List StateChange}
    → Trace s cs t
    → Trace t ds u
    → Trace s (cs ++ ds) u
Trace-append here q = q
Trace-append (along e edge p) q = along e edge (Trace-append p q)

-- Nothing runs, and the service may be started.
pub data IsResting : ServiceState → Type 0 where
  stopped_rests : IsResting stopped
  backoff_rests : IsResting backoff

-- An attempt is over.
pub data IsOver : ServiceState → Type 0 where
  stopped_is_over : IsOver stopped
  failed_is_over : IsOver failed

-- A change is there.
abbrev pub IsReported : List StateChange → Type 0
IsReported [] = ⊥
IsReported (c ∷ cs) = Unit

IsReported-append : (cs ds : List StateChange) → IsReported cs → IsReported (cs ++ ds)
IsReported-append [] ds h = absurd h
IsReported-append (c ∷ cs) ds h = tt

start-IsReported :
    {s : ServiceState} {cs : List StateChange} → Trace s cs starting → IsResting s → IsReported cs
start-IsReported here h = elim h [ ]
start-IsReported (along e edge p) h = tt

-- What an attempt does: it leads from rest to its end, and reports a change.
record Tried (s : ServiceState) (r : Service × List StateChange) : Type 0 where
  path : Trace s r.1 r.0.state
  over : IsOver r.0.state
  reported : IsReported r.1

-- A change along an edge is reported as that edge.
emit-Trace : (svc : Service) (code : ℕ) {s t : ServiceState} → s ⟶ t → Trace s (emit svc s t code) t
unfolding emit
emit-Trace svc code start = along refl start here
emit-Trace svc code restart = along refl restart here
emit-Trace svc code up = along refl up here
emit-Trace svc code no_process = along refl no_process here
emit-Trace svc code finish = along refl finish here
emit-Trace svc code break = along refl break here
emit-Trace svc code wait_stopped = along refl wait_stopped here
emit-Trace svc code wait_failed = along refl wait_failed here

resting_edge : {s : ServiceState} → IsResting s → s ⟶ starting
resting_edge stopped_rests = start
resting_edge backoff_rests = restart

over_edge : {s : ServiceState} → IsOver s → s ⟶ backoff
over_edge stopped_is_over = wait_stopped
over_edge failed_is_over = wait_failed

begin_start-Trace :
    (now : ℕ) (svc : Service)
    → IsResting svc.state
    → Trace svc.state (begin_start now svc).1 starting
unfolding begin_start
begin_start-Trace now svc h =
    emit-Trace (record svc { state = starting; last_start = now }) 0 (resting_edge h)

-- The end of a process
record Ended (r : Service × List StateChange) : Type 0 where
  path : Trace running r.1 r.0.state
  over : IsOver r.0.state

wait_for_exit-Ended : (exit : Exit) (now : ℕ) (svc : Service) → Ended (wait_for_exit exit now svc)
unfolding wait_for_exit emit
wait_for_exit-Ended clean now svc = record { path = along refl finish here; over = stopped_is_over }
wait_for_exit-Ended (exited c) now svc = record {
  path = along refl break here;
  over = failed_is_over;
}
wait_for_exit-Ended crashed now svc = record { path = along refl break here; over = failed_is_over }

attempt-Tried :
    (o : Outcome) (now : ℕ) (svc : Service)
    → IsResting svc.state
    → Tried svc.state (attempt o now svc)
unfolding attempt
attempt-Tried no_start now svc h = record {
  path =
      Trace-append (begin_start-Trace now svc h)
        (unfold fail_start emit in along refl no_process here);
  over = failed_is_over;
  reported = IsReported-append _ _ (start-IsReported (begin_start-Trace now svc h) h);
}
attempt-Tried (ran pid exit t) now svc h =
    let e = wait_for_exit-Ended exit t (finish_start pid (begin_start now svc).0).0 in
    record {
      path =
          Trace-append (begin_start-Trace now svc h)
            (Trace-append (unfold finish_start emit in along refl up here) e.path);
      over = e.over;
      reported = IsReported-append _ _ (start-IsReported (begin_start-Trace now svc h) h);
    }

pub state-calculate_backoff :
    (now : ℕ) (svc : Service) → (calculate_backoff now svc).0.state ≡ svc.state
unfolding calculate_backoff
state-calculate_backoff now svc = ground arith

-- The pause after an attempt
pause-Trace :
    (now : ℕ) (svc : Service)
    → IsOver svc.state
    → Trace svc.state (enter_backoff (calculate_backoff now svc).0).1 backoff
unfolding enter_backoff
pause-Trace now svc h =
    let m = (calculate_backoff now svc).0 in
    subst (λ s. Trace svc.state (emit m s backoff 0) backoff)
      (sym (state-calculate_backoff now svc)) (emit-Trace m 0 (over_edge h))

-- Whatever becomes of the processes and whenever a stop is requested: from a service at rest, the
-- changes that `supervise` reports lead along the diagram from its state to the state it is left in.
pub supervise-Trace :
    (rs : List Round) (svc : Service)
    → IsResting svc.state
    → Trace svc.state (supervise rs svc).changes (supervise rs svc).service.state
unfolding supervise
supervise-Trace [] svc h = here
supervise-Trace (r ∷ rs) svc h =
    let tried = attempt r.outcome r.start_time svc in
    let t = attempt-Tried r.outcome r.start_time svc h in
    let m = (calculate_backoff r.check_time tried.0).0 in
    let pause = pause-Trace r.check_time tried.0 t.over in
    let rest = supervise-Trace rs (enter_backoff m).0 backoff_rests in
    elim (Bool-cases (should_restart tried.0)) [
      | inr gone ↦ rw gone (
          subst (λ s. Trace svc.state tried.1 s)
            (sym (state-calculate_backoff r.check_time tried.0)) t.path)
      | inl again ↦ rw again (elim (Bool-cases r.stop_requested) [
        | inl stop ↦ rw stop (Trace-append t.path pause)
        | inr on ↦ rw on (Trace-append (Trace-append t.path pause) rest)
      ])
    ]

-- In a round, at least one change is reported.
pub supervise-IsReported :
    (r : Round) (rs : List Round) (svc : Service)
    → IsResting svc.state
    → IsReported (supervise (r ∷ rs) svc).changes
unfolding supervise
supervise-IsReported r rs svc h =
    let tried = attempt r.outcome r.start_time svc in
    let some_change = (attempt-Tried r.outcome r.start_time svc h).reported in
    let paused = IsReported-append tried.1 _ some_change in
    elim (Bool-cases (should_restart tried.0)) [
      | inr gone ↦ rw gone some_change
      | inl again ↦ rw again (elim (Bool-cases r.stop_requested) [
        | inl stop ↦ rw stop paused
        | inr on ↦ rw on (IsReported-append _ _ paused)
      ])
    ]
