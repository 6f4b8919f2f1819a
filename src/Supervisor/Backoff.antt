-- ===== src/Supervisor/Backoff.antt =====
-- The delay before a restart, against the formula it follows.
use prisn.Base.{
  ℕ, zero, suc, ◌-◌, ◌*◌, ◌%◌, ◌^◌, ◌≤◌, ◌<◌, ◌≡◌, ap, ◌∙◌, inl, inr, ltb, if◌then◌else◌, arith,
  Bool-cases,
}
use native.Mathlib.Nat.{mul_assoc}
use prisn.Base.Word.{int_lt}
use prisn.Supervisor.{Service, double_up, since, calculate_backoff}

-- `delay`, but not above `max`
abbrev pub at_most : ℕ → ℕ → ℕ
at_most max delay = if ltb max delay then max else delay

pow_pos : (n : ℕ) → 1 ≤ 2 ^ n
pow_pos zero = omega arith
pow_pos (suc n) = omega (arith, pow_pos n)

double-pow : (d n : ℕ) → d * 2 * 2 ^ n ≡ d * 2 ^ suc n
double-pow d n =
    let twice : 2 * 2 ^ n ≡ 2 ^ suc n = omega arith in mul_assoc d 2 (2 ^ n) ∙ ap (λ k. d * k) twice

le-mul : (d k : ℕ) → 1 ≤ k → d ≤ d * k
le-mul d zero h = absurd (omega arith)
le-mul d (suc k) h = omega arith

-- What the doubling loop gives, once it is cut at `max`.
at_most-double_up :
    (n max d : ℕ)
    → max < 2 ^ 62
    → d < 2 ^ 63
    → at_most max (double_up n max d) ≡ at_most max (d * 2 ^ n)
unfolding double_up
at_most-double_up zero max d small small_d = ap (at_most max) (omega arith)
at_most-double_up (suc n) max d small small_d = elim (Bool-cases (int_lt d max)) [
  | inl below ↦
      let no_wrap : d * 2 % 2 ^ 64 ≡ d * 2 = ground arith in
      rw (below, no_wrap)
        (at_most-double_up n max (d * 2) small (ground arith) ∙ ap (at_most max) (double-pow d n))
  | inr above ↦ let le = le-mul d (2 ^ suc n) (pow_pos (suc n)) in rw above (ground (arith, le))
]

double_up-small : (n max d : ℕ) → max < 2 ^ 62 → d < 2 ^ 63 → double_up n max d < 2 ^ 63
unfolding double_up
double_up-small zero max d small small_d = small_d
double_up-small (suc n) max d small small_d = elim (Bool-cases (int_lt d max)) [
  | inl below ↦ rw below (double_up-small n max (d * 2 % 2 ^ 64) small (ground arith))
  | inr above ↦ rw above small_d
]

cut-double_up :
    (n max d : ℕ)
    → max < 2 ^ 62
    → d ≤ max
    → (if int_lt max (double_up n max d) then max else double_up n max d) ≡ at_most max (d * 2 ^ n)
cut-double_up n max d small le =
    let below = double_up-small n max d small (omega arith) in
    let same : int_lt max (double_up n max d) ≡ ltb max (double_up n max d) =
      ground (arith, below) in
    rw same (at_most-double_up n max d small (omega arith))

at_most-bounds :
    (n max d : ℕ) → d ≤ max → (d ≤ at_most max (d * 2 ^ n)) × (at_most max (d * 2 ^ n) ≤ max)
at_most-bounds n max d le =
    let more = le-mul d (2 ^ n) (pow_pos n) in (ground (arith, more), ground (arith, more))

-- The delay and the failures left in closed form.
abbrev pub expected_backoff : ℕ → Service → Service × ℕ
expected_backoff now svc =
    if ltb (2 * svc.max_restart_delay) (since now svc.last_exit)
    then (record svc { consecutive_fails = 0 }, svc.restart_delay)
    else (svc, at_most svc.max_restart_delay (svc.restart_delay * 2 ^ (svc.consecutive_fails - 1)))

calculate_backoff-expected :
    (now : ℕ) (svc : Service)
    → svc.restart_delay ≤ svc.max_restart_delay
    → svc.max_restart_delay < 2 ^ 62
    → calculate_backoff now svc ≡ expected_backoff now svc
unfolding calculate_backoff
calculate_backoff-expected now svc le small =
    let test : int_lt (svc.max_restart_delay * 2 % 2 ^ 64) (since now svc.last_exit)
        ≡ ltb (2 * svc.max_restart_delay) (since now svc.last_exit) =
      ground arith in
    rw test (
      ap
        (λ d.
          if ltb (2 * svc.max_restart_delay) (since now svc.last_exit)
          then (record svc { consecutive_fails = 0 }, svc.restart_delay)
          else (svc, d))
        (cut-double_up (svc.consecutive_fails - 1) svc.max_restart_delay svc.restart_delay small
          le))

-- Where the base delay is at most the cap and the cap is below 2^62: the backoff is the base delay
-- doubled for each failure after the first and cut at the cap, and it is the base delay again, with the
-- failures forgotten, once the last exit lies more than twice the cap back. It is never below the base
-- delay and never above the cap.
pub calculate_backoff_lem :
    (now : ℕ) (svc : Service)
    → svc.restart_delay ≤ svc.max_restart_delay
    → svc.max_restart_delay < 2 ^ 62
    → (calculate_backoff now svc ≡ expected_backoff now svc)
      × (svc.restart_delay ≤ (calculate_backoff now svc).1)
      × ((calculate_backoff now svc).1 ≤ svc.max_restart_delay)
calculate_backoff_lem now svc le small =
    let e = calculate_backoff-expected now svc le small in
    let b = at_most-bounds (svc.consecutive_fails - 1) svc.max_restart_delay svc.restart_delay le in
    (e, rw e (ground (arith, b)), rw e (ground (arith, b)))
