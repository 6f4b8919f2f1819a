-- ===== src/Operator/Runs.antt =====
-- Which run getMissedRun of operator/controllers/prisncronjob_controller.go finds.
use prisn.Base.{
  ℕ, zero, suc, ◌+◌, ◌≤◌, ◌<◌, ◌≡◌, ◌⊎◌, inl, inr, refl, ap, Option, none, some, false, arith,
  Bool-cases, ltb, ltb→lt,
}
use prisn.Operator.{
  CronJob, Schedule, missed, too_many, out_of_fuel, missed_from, earliest_time, get_missed_run,
  hundred_days, started_at, not_before,
}

-- The time that the cron job was last run or, if it was not, created
abbrev pub last_run : CronJob → ℕ
last_run cj = started_at cj cj.status.last_schedule_time

pub earliest_time-last_run :
    (cj : CronJob) (now : ℕ)
    → cj.starting_deadline_seconds ≡ none
    → earliest_time cj now ≡ last_run cj
unfolding earliest_time
earliest_time-last_run cj now no_deadline = ap (not_before now (last_run cj)) no_deadline

-- The first time behind `t` at which the schedule fires is `u`.
pub record IsNext (Fires : ℕ → Type 0) (t u : ℕ) : Type 0 where
  pub later : t < u
  pub fires : Fires u
  pub first : (v : ℕ) → t < v → v < u → ¬ Fires v

-- What is documented of `Next`: it is the first time behind the given one at which the schedule fires, or
-- the zero time, where the schedule does not fire again.
abbrev pub IsCalendar : (ℕ → Type 0) → Schedule → Type 0
IsCalendar Fires next =
    (t : ℕ) → IsNext Fires t (next t) ⊎ ((next t ≡ 0) × ((u : ℕ) → t < u → ¬ Fires u))

-- The latest time behind `earliest` and up to `now` at which the schedule fires, or none
abbrev pub IsLatest : (ℕ → Type 0) → (earliest now : ℕ) → Option ℕ → Type 0
IsLatest Fires earliest now none = (u : ℕ) → earliest < u → u ≤ now → ¬ Fires u
IsLatest Fires earliest now (some m) =
    (earliest < m) × (m ≤ now) × Fires m × ((u : ℕ) → m < u → u ≤ now → ¬ Fires u)

module _ {Fires : ℕ → Type 0} (next : Schedule) (cal : IsCalendar Fires next) where
  -- Before a time at which the schedule fires there is a next time.
  next_lem : (t w : ℕ) → t < w → Fires w → IsNext Fires t (next t)
  next_lem t w lt f = elim (cal t) [ inl n ↦ n | inr (e, never) ↦ absurd (never w lt f) ]

  -- The loop behind a run `p` that it has found, or behind `earliest`
  before_next :
      (p now w : ℕ)
      → p ≤ now
      → now < w
      → Fires w
      → now < next p
      → (u : ℕ) → p < u
      → u ≤ now
      → ¬ Fires u
  before_next p now w past up f h u lt le =
      (next_lem p w (omega (arith, past, up)) f).first u lt (omega (arith, le, h))

  -- The loop behind a run `p` that it has found
  from-IsLatest :
      (fuel earliest now p w : ℕ)
      → now < w
      → Fires w
      → earliest < p
      → p ≤ now
      → Fires p
      → now ≤ earliest + hundred_days
      → now < fuel + p
      → (m : ℕ) × (missed_from fuel next earliest now (next p) (some p) ≡ missed (some m))
        × IsLatest Fires earliest now (some m)
  unfolding missed_from
  from-IsLatest zero earliest now p w after again lt le f near enough =
      absurd (omega (arith, le, enough))
  from-IsLatest (suc fuel) earliest now p w after again lt le f near enough =
      elim (Bool-cases (ltb now (next p))) [
        | inl gone ↦
            rw gone
              (p, refl, (lt, le, f, before_next p now w le after again (ltb→lt now (next p) gone)))
        | inr due ↦
            let n = next_lem p w (omega (arith, le, after)) again in
            let up = n.later in
            let due' : next p ≤ now = ground (arith, due) in
            let close : ltb (earliest + hundred_days) (next p) ≡ false =
              ground (arith, due', near) in
            rw (due, close)
              (from-IsLatest fuel earliest now (next p) w after again (omega (arith, lt, up)) due'
                n.fires near (omega (arith, enough, up)))
      ]

  loop-IsLatest :
      (fuel earliest now w : ℕ)
      → now < w
      → Fires w
      → earliest ≤ now
      → now ≤ earliest + hundred_days
      → now < fuel + earliest
      → (found : Option ℕ) × (missed_from fuel next earliest now (next earliest) none
          ≡ missed found)
        × IsLatest Fires earliest now found
  unfolding missed_from
  loop-IsLatest zero earliest now w after again past near enough =
      absurd (omega (arith, past, enough))
  loop-IsLatest (suc fuel) earliest now w after again past near enough =
      elim (Bool-cases (ltb now (next earliest))) [
        | inl gone ↦ rw gone (
          none,
          refl,
          before_next earliest now w past after again (ltb→lt now (next earliest) gone),
        )
        | inr due ↦
            let n = next_lem earliest w (omega (arith, past, after)) again in
            let up = n.later in
            let due' : next earliest ≤ now = ground (arith, due) in
            let close : ltb (earliest + hundred_days) (next earliest) ≡ false =
              ground (arith, due', near) in
            let (m, e, latest) =
              from-IsLatest fuel earliest now (next earliest) w after again up due' n.fires near
                (omega (arith, enough, up)) in
            rw (due, close) (some m, e, latest)
      ]

  -- For a schedule that fires at some time after now, getMissedRun finds the latest time at which the schedule
  -- fires, behind the time it looks back to and up to now, or finds that there is none, if it looks back a
  -- hundred days at most. Fuel of more than the nanoseconds it looks back is enough.
  pub get_missed_run-IsLatest :
      (fuel now w : ℕ) (cj : CronJob)
      → now < w
      → Fires w
      → now ≤ earliest_time cj now + hundred_days
      → now < fuel + earliest_time cj now
      → (found : Option ℕ) × (get_missed_run fuel cj next now ≡ missed found)
        × IsLatest Fires (earliest_time cj now) now found
  unfolding get_missed_run
  get_missed_run-IsLatest fuel now w cj after again near enough =
      elim (Bool-cases (ltb now (earliest_time cj now))) [
        | inl future ↦
            let lt = ltb→lt now (earliest_time cj now) future in
            rw future (none, refl, λ u h k. absurd (omega (arith, h, k, lt)))
        | inr past ↦ rw past (
            loop-IsLatest fuel (earliest_time cj now) now w after again (ground (arith, past)) near
              enough)
      ]

  next_le : (t u : ℕ) → t < u → Fires u → next t ≤ u
  next_le t u lt f = elim (Bool-cases (ltb u (next t))) [
    | inl between ↦ absurd ((next_lem t u lt f).first u lt (ltb→lt u (next t) between) f)
    | inr behind ↦ ground (arith, behind)
  ]

  -- Where the schedule fires later than a hundred days behind `earliest`, the loop gives up.
  from-too_many :
      (fuel earliest now t u : ℕ) (found : Option ℕ)
      → t ≤ u
      → Fires u
      → earliest + hundred_days < u
      → u ≤ now
      → now < fuel + t
      → missed_from fuel next earliest now t found ≡ too_many
  unfolding missed_from
  from-too_many zero earliest now t u found le f far due enough =
      absurd (omega (arith, le, due, enough))
  from-too_many (suc fuel) earliest now t u found le f far due enough =
      let on_time : ltb now t ≡ false = ground (arith, le, due) in
      elim (Bool-cases (ltb (earliest + hundred_days) t)) [
        | inl gone ↦ rw (on_time, gone) refl
        | inr near ↦
            let lt : t < u = ground (arith, near, far) in
            rw (on_time, near)
              (from-too_many fuel earliest now (next t) u (some t) (next_le t u lt f) f far due
                (omega (arith, enough, (next_lem t u lt f).later)))
      ]

  -- Where the schedule has fired more than a hundred days behind the time that getMissedRun looks back to, it
  -- gives up, however late it is called: the run that is due is not found. Fuel of more than the nanoseconds that are looked back is enough.
  pub get_missed_run-too_many :
      (fuel u now : ℕ) (cj : CronJob)
      → Fires u
      → earliest_time cj now + hundred_days < u
      → u ≤ now
      → now < fuel + earliest_time cj now
      → get_missed_run fuel cj next now ≡ too_many
  unfolding get_missed_run
  get_missed_run-too_many fuel u now cj f far due enough =
      let e = earliest_time cj now in
      let past : ltb now e ≡ false = ground (arith, far, due) in
      let lt : e < u = omega (arith, far) in
      rw past (
        from-too_many fuel e now (next e) u none (next_le e u lt f) f far due
          (omega (arith, enough, (next_lem e u lt f).later)))

-- The schedule whose `Next` finds no time: the zero time is before every other, so the loop comes back to it
-- for ever, with whatever fuel.
endless_from :
    (fuel earliest now : ℕ) (found : Option ℕ)
    → missed_from fuel (λ t. 0) earliest now 0 found ≡ out_of_fuel
unfolding missed_from
endless_from zero earliest now found = refl
endless_from (suc fuel) earliest now found =
    let a : ltb now 0 ≡ false = ground arith in
    let b : ltb (earliest + hundred_days) 0 ≡ false = ground arith in
    rw (a, b) (endless_from fuel earliest now (some 0))

-- A cron job whose schedule never fires, such as that of the thirtieth of February, for which `Next` answers
-- with the zero time: with whatever fuel, the loop of getMissedRun has not ended, unless the cron job is from
-- the future.
pub get_missed_run-endless :
    (fuel now : ℕ) (cj : CronJob)
    → earliest_time cj now ≤ now
    → get_missed_run fuel cj (λ t. 0) now ≡ out_of_fuel
unfolding get_missed_run
get_missed_run-endless fuel now cj past =
    let on_time : ltb now (earliest_time cj now) ≡ false = ground (arith, past) in
    rw on_time (endless_from fuel (earliest_time cj now) now none)
