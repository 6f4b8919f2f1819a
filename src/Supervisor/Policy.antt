-- ===== src/Supervisor/Policy.antt =====
-- Which services are restarted, and in which state they are left.
use prisn.Supervisor.Diagram.{state-calculate_backoff}
use prisn.Base.{
  subst, ℕ, ◌+◌, ◌*◌, ◌^◌, ◌%◌, ◌≤◌, ◌<◌, ◌≡◌, refl, ◌∙◌, sym, List, [], ◌∷◌, true, false, arith,
}
use mathlib.Core.Path.{ap₂}
use prisn.Base.Word.{int_lt}
use prisn.Supervisor.{
  Service, backoff, failed, always, on_failure, clean, exited, crashed, Outcome, no_start, ran,
  attempt, begin_start, finish_start, fail_start, wait_for_exit, calculate_backoff, enter_backoff,
  should_restart, Round, supervise, since,
}

abbrev pub starts : Outcome → ℕ
starts no_start = 0
starts (ran pid exit t) = 1

-- The processes that the rounds start.
abbrev pub starts_in : List Round → ℕ
starts_in [] = 0
starts_in (r ∷ rs) = starts r.outcome + starts_in rs

-- No stop is requested.
abbrev pub AreUndisturbed : List Round → Type 0
AreUndisturbed [] = Unit
AreUndisturbed (r ∷ rs) = (r.stop_requested ≡ false) × AreUndisturbed rs

-- What an attempt and the backoff leave alone, and what they count.
record Counted (o : Outcome) (svc svc' : Service) : Type 0 where
  policy : svc'.restart_policy ≡ svc.restart_policy
  count : svc'.restarts ≡ svc.restarts + starts o

attempt-Counted : (o : Outcome) (now : ℕ) (svc : Service) → Counted o svc (attempt o now svc).0
unfolding attempt begin_start finish_start fail_start wait_for_exit
attempt-Counted no_start now svc = record { policy = refl; count = omega arith }
attempt-Counted (ran pid clean t) now svc = record { policy = refl; count = omega arith }
attempt-Counted (ran pid (exited c) t) now svc = record { policy = refl; count = omega arith }
attempt-Counted (ran pid crashed t) now svc = record { policy = refl; count = omega arith }

backoff_fields :
    (now : ℕ) (svc : Service)
    → ((enter_backoff (calculate_backoff now svc).0).0.restart_policy ≡ svc.restart_policy)
      × ((enter_backoff (calculate_backoff now svc).0).0.restarts ≡ svc.restarts)
unfolding calculate_backoff enter_backoff
backoff_fields now svc = ground arith

always_restarts : (svc : Service) → svc.restart_policy ≡ always → should_restart svc ≡ true
unfolding should_restart
always_restarts svc h = ground arith

-- With the policy `always` and no stop request the loop goes on after any number of rounds, whatever
-- `max_restarts` is, and every process that it has started is counted.
pub supervise-always :
    (rs : List Round) (svc : Service)
    → svc.restart_policy ≡ always
    → AreUndisturbed rs
    → ((supervise rs svc).returned ≡ false)
      × ((supervise rs svc).service.restarts ≡ svc.restarts + starts_in rs)
unfolding supervise
supervise-always [] svc h u = (refl, omega arith)
supervise-always (r ∷ rs) svc h (quiet, u) =
    let tried = attempt r.outcome r.start_time svc in
    let c = attempt-Counted r.outcome r.start_time svc in
    let (policy, count) = backoff_fields r.check_time tried.0 in
    let again = always_restarts tried.0 (c.policy ∙ h) in
    let rest =
      supervise-always rs (enter_backoff (calculate_backoff r.check_time tried.0).0).0
        (policy ∙ c.policy ∙ h) u in
    rw (again, quiet) (rest.0, omega (arith, rest.1, count, c.count))

-- With the policy `always`, a service that is stopped while it runs, or while it is started, is left
-- in the state `backoff`.
pub supervise_stopped :
    (r : Round) (rs : List Round) (svc : Service)
    → svc.restart_policy ≡ always
    → r.stop_requested ≡ true
    → ((supervise (r ∷ rs) svc).service.state ≡ backoff)
      × ((supervise (r ∷ rs) svc).returned ≡ true)
unfolding supervise
supervise_stopped r rs svc h stop =
    let c = attempt-Counted r.outcome r.start_time svc in
    let again = always_restarts (attempt r.outcome r.start_time svc).0 (c.policy ∙ h) in
    rw (again, stop) (unfold enter_backoff in (refl, refl))

-- Rounds in which nothing starts, looked at from the time `from` on
abbrev pub AreFailing : ℕ → List Round → Type 0
AreFailing from [] = Unit
AreFailing from (r ∷ rs) =
    (r.outcome ≡ no_start) × (from ≤ r.check_time) × (r.stop_requested ≡ false) × AreFailing from rs

-- the same delay in each round
abbrev pub steady : ℕ → List Round → List ℕ
steady d [] = []
steady d (r ∷ rs) = d ∷ steady d rs

forgets :
    (now : ℕ) (svc : Service)
    → svc.last_exit ≡ 0
    → svc.max_restart_delay < 2 ^ 61
    → 2 * svc.max_restart_delay < now
    → calculate_backoff now svc ≡ (record svc { consecutive_fails = 0 }, svc.restart_delay)
unfolding calculate_backoff
forgets now svc h small long =
    let test : int_lt (svc.max_restart_delay * 2 % 2 ^ 64) (since now svc.last_exit) ≡ true =
      ground arith in
    rw test refl

-- A service that has never run, and starts at a cap that the clock is past
record NeverRan (from d : ℕ) (svc : Service) : Type 0 where
  policy : svc.restart_policy ≡ always
  never : svc.last_exit ≡ 0
  small : svc.max_restart_delay < 2 ^ 61
  long : 2 * svc.max_restart_delay < from
  delay : svc.restart_delay ≡ d

failing_round :
    (from d now start : ℕ) (svc : Service)
    → from ≤ now
    → NeverRan from d svc
    → ((calculate_backoff now (attempt no_start start svc).0).1 ≡ d)
      × NeverRan from d (enter_backoff (calculate_backoff now (attempt no_start start svc).0).0).0
unfolding attempt begin_start fail_start enter_backoff
failing_round from d now start svc late n =
    let e = forgets now (attempt no_start start svc).0 n.never n.small (omega (arith, n.long)) in
    rw e (
      n.delay,
      record {
        policy = n.policy;
        never = n.never;
        small = n.small;
        long = n.long;
        delay = n.delay;
      },
    )

steady_rounds :
    (rs : List Round) (svc : Service) (from d : ℕ)
    → NeverRan from d svc
    → AreFailing from rs
    → (supervise rs svc).delays ≡ steady d rs
unfolding supervise
steady_rounds [] svc from d n f = refl
steady_rounds (r ∷ rs) svc from d n (fails, late, quiet, f) =
    let tried = attempt r.outcome r.start_time svc in
    let c = attempt-Counted r.outcome r.start_time svc in
    let again = always_restarts tried.0 (c.policy ∙ n.policy) in
    let next : ((calculate_backoff r.check_time tried.0).1 ≡ d)
        × NeverRan from d (enter_backoff (calculate_backoff r.check_time tried.0).0).0 =
      subst
        (λ o.
          ((calculate_backoff r.check_time (attempt o r.start_time svc).0).1 ≡ d)
          × NeverRan from d
              (enter_backoff (calculate_backoff r.check_time (attempt o r.start_time svc).0).0).0)
        (sym fails) (failing_round from d r.check_time r.start_time svc late n) in
    rw (again, quiet) (ap₂ (λ x xs. x ∷ xs) next.0 (steady_rounds rs _ from d next.1 f))

-- A service that has never run is retried at its base delay for ever: with the policy `always` and a
-- last exit at the zero time, every round in which it cannot be started is followed by that delay,
-- however many there are.
pub supervise-steady :
    (rs : List Round) (svc : Service) (from : ℕ)
    → svc.restart_policy ≡ always
    → svc.last_exit ≡ 0
    → svc.max_restart_delay < 2 ^ 61
    → 2 * svc.max_restart_delay < from
    → AreFailing from rs
    → (supervise rs svc).delays ≡ steady svc.restart_delay rs
supervise-steady rs svc from h never_ran small long =
    steady_rounds rs svc from svc.restart_delay
      (record { policy = h; never = never_ran; small = small; long = long; delay = refl })

no_start_ends :
    (now : ℕ) (svc : Service)
    → svc.restart_policy ≡ on_failure
    → svc.last_exit_code ≡ 0
    → (should_restart (attempt no_start now svc).0 ≡ false)
      × ((attempt no_start now svc).0.state ≡ failed)
unfolding attempt begin_start fail_start should_restart
no_start_ends now svc h code = (ground arith, refl)

-- With the policy `on_failure`, a service that has not ended with another status than 0 so far is
-- given up at the first round in which it cannot be started.
pub supervise-gives_up :
    (r : Round) (rs : List Round) (svc : Service)
    → svc.restart_policy ≡ on_failure
    → svc.last_exit_code ≡ 0
    → r.outcome ≡ no_start
    → ((supervise (r ∷ rs) svc).returned ≡ true) × ((supervise (r ∷ rs) svc).service.state ≡ failed)
unfolding supervise
supervise-gives_up r rs svc h code fails =
    let (ends, state) : (should_restart (attempt r.outcome r.start_time svc).0 ≡ false)
        × ((attempt r.outcome r.start_time svc).0.state ≡ failed) =
      subst
        (λ o.
          (should_restart (attempt o r.start_time svc).0 ≡ false)
          × ((attempt o r.start_time svc).0.state ≡ failed))
        (sym fails) (no_start_ends r.start_time svc h code) in
    rw ends
      (refl, state-calculate_backoff r.check_time (attempt r.outcome r.start_time svc).0 ∙ state)
