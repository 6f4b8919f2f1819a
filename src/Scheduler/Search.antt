-- ===== src/Scheduler/Search.antt =====
-- The search of `NextAfter` in pkg/scheduler/cron.go.
use prisn.Base.{
  ℕ, zero, suc, ◌+◌, ◌*◌, ◌%◌, ◌≤◌, ◌<◌, ◌≡◌, ap, ◌∙◌, inl, inr, true, false, ltb, arith,
  Bool-cases,
}
use prisn.Scheduler.Cron.{CronExpr}
use prisn.Scheduler.Matching.{
  Calendar, matches, minute_length, Next, found, missing, out_of_fuel, search, next_minute,
  next_after,
}

-- The `k`th minute from `t` on.
abbrev pub minute_from : ℕ → ℕ → ℕ
minute_from t k = t + k * minute_length

-- The first minute from `t` on, before `end`, that matches; or there is none.
abbrev pub IsFirstMatch : Calendar → CronExpr → ℕ → ℕ → Next → Type 0
IsFirstMatch cal c end t (found u) =
    (k : ℕ) × (u ≡ minute_from t k)
    × (u < end)
    × (matches cal c u ≡ true)
    × ((j : ℕ) → j < k → matches cal c (minute_from t j) ≡ false)
IsFirstMatch cal c end t missing =
    (k : ℕ) → minute_from t k < end → matches cal c (minute_from t k) ≡ false
IsFirstMatch cal c end t out_of_fuel = ⊥

-- The search goes on from the next minute.
IsFirstMatch-later :
    (cal : Calendar) (c : CronExpr) (end t : ℕ) (r : Next)
    → matches cal c t ≡ false
    → IsFirstMatch cal c end (t + minute_length) r
    → IsFirstMatch cal c end t r
IsFirstMatch-later cal c end t (found u) quiet (k, e, lt, rings, before) =
    (suc k, e ∙ omega arith, lt, rings, λ j h. earlier j h)
  where
    earlier : (j : ℕ) → j < suc k → matches cal c (minute_from t j) ≡ false
    earlier zero h = ap (matches cal c) (omega arith) ∙ quiet
    earlier (suc j) h = ap (matches cal c) (omega arith) ∙ before j (omega arith)
IsFirstMatch-later cal c end t missing quiet none = λ k h. later k h
  where
    later : (k : ℕ) → minute_from t k < end → matches cal c (minute_from t k) ≡ false
    later zero h = ap (matches cal c) (omega arith) ∙ quiet
    later (suc k) h = ap (matches cal c) (omega arith) ∙ none k (omega arith)
IsFirstMatch-later cal c end t out_of_fuel quiet h = h

search-IsFirstMatch :
    (cal : Calendar) (c : CronExpr) (fuel end t : ℕ)
    → end ≤ t + fuel * minute_length
    → IsFirstMatch cal c end t (search cal c (suc fuel) end t)
unfolding search
search-IsFirstMatch cal c zero end t enough =
    let past : ltb t end ≡ false = ground arith in
    rw (past, IsFirstMatch) (λ k h. absurd (omega arith))
search-IsFirstMatch cal c (suc fuel) end t enough = elim (Bool-cases (ltb t end)) [
  | inr past ↦ rw (past, IsFirstMatch) (λ k h. absurd (ground arith))
  | inl before ↦ rw before (elim (Bool-cases (matches cal c t)) [
    | inl ringing ↦
        rw (ringing, IsFirstMatch)
          (0, omega arith, ground arith, ringing, λ j h. absurd (omega arith))
    | inr quiet ↦ rw quiet (
        IsFirstMatch-later cal c end t _ quiet
          (search-IsFirstMatch cal c fuel end (t + minute_length) (omega arith)))
  ])
]

-- With fuel for the minutes to the end of the search, `NextAfter` returns the first minute after
-- `after` and before that end that matches, or the zero time if none does.
pub next_after-IsFirstMatch :
    (cal : Calendar) (c : CronExpr) (fuel after : ℕ)
    → cal.four_years_after after ≤ next_minute after + fuel * minute_length
    → IsFirstMatch cal c
        (cal.four_years_after after)
        (next_minute after)
        (next_after cal c (suc fuel) after)
unfolding next_after
next_after-IsFirstMatch cal c fuel after enough =
    search-IsFirstMatch cal c fuel (cal.four_years_after after) (next_minute after) enough

-- The search begins at the first whole minute behind `after`.
pub next_minute_lem :
    (after : ℕ)
    → (after < next_minute after)
      × (next_minute after % minute_length ≡ 0)
      × (next_minute after ≤ after + minute_length)
unfolding next_minute
next_minute_lem after = (omega arith, omega arith, omega arith)
