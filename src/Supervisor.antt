-- ===== src/Supervisor.antt =====
-- pkg/supervisor/supervisor.go: the life of one service under `supervise`. Durations are `int64` bit
-- patterns; a time is the number of nanoseconds since the zero time of package time, and the clock does
-- not go back. The process, its exit and the times are given from outside, in a `Round`.
pub mod Backoff
pub mod Diagram
pub mod Policy
pub mod Examples
use prisn.Base.{
  ℕ, zero, suc, ◌+◌, ◌-◌, ◌*◌, ◌%◌, ◌^◌, Option, none, some, List, [], ◌∷◌, ◌++◌, Bool, true, false,
  not, ltb, ◌==◌, if◌then◌else◌, String,
}
use prisn.Base.Word.{int_lt}
use prisn.Base.Dict.{Dict, insert}

pub data RestartPolicy : Type 0 where
  unset always on_failure never other_policy : RestartPolicy

pub data ServiceState : Type 0 where
  stopped starting running failed backoff : ServiceState

pub record Service : Type 0 where
  pub id : String
  pub restart_policy : RestartPolicy
  pub max_restarts : ℕ
  pub restart_delay : ℕ
  pub max_restart_delay : ℕ
  pub pid : Option ℕ  -- cmd and pid, set and cleared together
  pub state : ServiceState
  pub restarts : ℕ
  pub last_start : ℕ
  pub last_exit : ℕ
  pub last_exit_code : ℕ
  pub consecutive_fails : ℕ

pub record StateChange : Type 0 where
  pub old_state : ServiceState
  pub new_state : ServiceState
  pub exit_code : ℕ
  pub restarts : ℕ

abbrev pub second : ℕ
second = 1000000000

-- -1 as an `int`
abbrev pub minus_one : ℕ
minus_one = 2 ^ 64 - 1

default_policy : RestartPolicy → RestartPolicy
default_policy unset = always
default_policy p = p

-- The defaults that `Add` sets, and the fresh state.
unfoldable pub prepare : Service → Service
unfolding default_policy
prepare svc = record svc {
  restart_policy = default_policy svc.restart_policy;
  restart_delay = if svc.restart_delay == 0 then second else svc.restart_delay;
  max_restart_delay = if svc.max_restart_delay == 0 then 30 * second else svc.max_restart_delay;
  state = stopped;
}

unfoldable pub add : Service → Dict Service → Dict Service
unfolding prepare
add svc services = insert svc.id (prepare svc) services

abbrev pub same_state : ServiceState → ServiceState → Bool
same_state stopped stopped = true
same_state starting starting = true
same_state running running = true
same_state failed failed = true
same_state backoff backoff = true
same_state _ _ = false

-- `emitStateChange`: what the handler receives.
unfoldable pub emit : Service → ServiceState → ServiceState → ℕ → List StateChange
emit svc old new exit_code =
    if same_state old new
    then []
    else record { old_state = old; new_state = new; exit_code = exit_code; restarts = svc.restarts }
      ∷ []

-- How a process ends: exit status 0, another status, or an error of `Wait` that is no exit status.
pub data Exit : Type 0 where
  clean : Exit
  exited : ℕ → Exit
  crashed : Exit

-- `cmd.Start` fails, or there is a process that ends at a time.
pub data Outcome : Type 0 where
  no_start : Outcome
  ran : (pid : ℕ) → Exit → (exit_time : ℕ) → Outcome

-- The beginning of `startProcess`
unfoldable pub begin_start : ℕ → Service → Service × List StateChange
unfolding emit
begin_start now svc =
    let svc' = record svc { state = starting; last_start = now } in
    (svc', emit svc' svc.state starting 0)

-- Its end, after `cmd.Start` has succeeded
unfoldable pub finish_start : ℕ → Service → Service × List StateChange
unfolding emit
finish_start pid svc =
    let svc' = record svc { pid = some pid; state = running; restarts = svc.restarts + 1 } in
    (svc', emit svc' starting running 0)

-- What `supervise` does where `startProcess` returns an error
unfoldable pub fail_start : Service → Service × List StateChange
unfolding emit
fail_start svc =
    let svc' = record svc { state = failed; consecutive_fails = svc.consecutive_fails + 1 } in
    (svc', emit svc' svc.state failed minus_one)

exit_failed : ℕ → Service → Service × List StateChange
unfolding emit
exit_failed code svc =
    let svc' = record svc {
      last_exit_code = code;
      consecutive_fails = svc.consecutive_fails + 1;
      state = failed;
    } in
    (svc', emit svc' running failed code)

record_exit : Exit → Service → Service × List StateChange
unfolding exit_failed emit
record_exit clean svc =
    let svc' = record svc { last_exit_code = 0; consecutive_fails = 0; state = stopped } in
    (svc', emit svc' running stopped 0)
record_exit (exited code) svc = exit_failed code svc
record_exit crashed svc = exit_failed minus_one svc

-- `waitForExit`
unfoldable pub wait_for_exit : Exit → ℕ → Service → Service × List StateChange
unfolding record_exit
wait_for_exit exit now svc = record_exit exit (record svc { last_exit = now; pid = none })

unfoldable pub should_restart : Service → Bool
should_restart svc = elim svc.restart_policy [
  | always ↦ true
  | on_failure ↦ not (svc.last_exit_code == 0)
  | _ ↦ false
]

-- delay *= 2, at most `n` times, while it is below the cap
unfoldable pub double_up : ℕ → ℕ → ℕ → ℕ
double_up zero max delay = delay
double_up (suc n) max delay =
    let more = double_up n max (delay * 2 % 2 ^ 64) in if int_lt delay max then more else delay

-- time.Since, which stops at the greatest duration
abbrev pub since : ℕ → ℕ → ℕ
since now t = if ltb (now - t) (2 ^ 63) then now - t else 2 ^ 63 - 1

unfoldable pub calculate_backoff : ℕ → Service → Service × ℕ
unfolding double_up
calculate_backoff now svc =
    let delay = double_up (svc.consecutive_fails - 1) svc.max_restart_delay svc.restart_delay in
    if int_lt (svc.max_restart_delay * 2 % 2 ^ 64) (since now svc.last_exit)
    then (record svc { consecutive_fails = 0 }, svc.restart_delay)
    else (svc, if int_lt svc.max_restart_delay delay then svc.max_restart_delay else delay)

-- One turn of the loop of `supervise`: when the process is started, what becomes of it, when the
-- policy is looked at, and whether a stop is requested during the backoff.
pub record Round : Type 0 where
  pub start_time : ℕ
  pub outcome : Outcome
  pub check_time : ℕ
  pub stop_requested : Bool

and_then :
    Service × List StateChange → (Service → Service × List StateChange) → Service × List StateChange
and_then (svc, changes) f = ((f svc).0, changes ++ (f svc).1)

unfoldable pub attempt : Outcome → ℕ → Service → Service × List StateChange
unfolding and_then begin_start fail_start finish_start wait_for_exit
attempt no_start now svc = and_then (begin_start now svc) fail_start
attempt (ran pid exit exit_time) now svc =
    and_then (begin_start now svc)
      (λ svc'. and_then (finish_start pid svc') (wait_for_exit exit exit_time))

unfoldable pub enter_backoff : Service → Service × List StateChange
unfolding emit
enter_backoff svc = (record svc { state = backoff }, emit svc svc.state backoff 0)

-- The loop so far: the service, the changes it has reported, the delays it has waited, and whether
-- the loop has returned.
pub record Supervised : Type 0 where
  pub service : Service
  pub changes : List StateChange
  pub delays : List ℕ
  pub returned : Bool

-- `supervise` on the rounds to come; a list that ends is a loop that goes on, or that finds a stop
-- request at its beginning.
unfoldable pub supervise : List Round → Service → Supervised
unfolding attempt should_restart calculate_backoff enter_backoff
supervise [] svc = record { service = svc; changes = []; delays = []; returned = false }
supervise (r ∷ rs) svc =
    let (tried, changes) = attempt r.outcome r.start_time svc in
    let (waiting, delay) = calculate_backoff r.check_time tried in
    let (svc', pause) = enter_backoff waiting in
    let rest = supervise rs svc' in
    if not (should_restart tried)
    then record { service = waiting; changes = changes; delays = []; returned = true }
    else if r.stop_requested
    then record { service = svc'; changes = changes ++ pause; delays = delay ∷ []; returned = true }
    else record {
      service = rest.service;
      changes = changes ++ pause ++ rest.changes;
      delays = delay ∷ rest.delays;
      returned = rest.returned;
    }
