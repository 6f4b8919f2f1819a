-- ===== src/Scheduler/Cron/Values.antt =====
-- The values that the loops of `parseField` collect.
use prisn.Base.{
  ℕ, zero, suc, ◌+◌, ◌-◌, ◌*◌, ◌^◌, ◌≤◌, ◌<◌, ◌≡◌, refl, ap, inl, inr, none, some, List, [], ◌∷◌,
  ◌++◌, true, ◌&&◌, ◌||◌, ltb, leb, if◌then◌else◌, arith, get_elem?, Bool-cases,
}
use prisn.Base.Word.{add64, int_lt}
use prisn.Scheduler.Cron.{contains, count_up, range, step_up, Parsed, ok, cons_value}

pub contains-count_up : (n i v : ℕ) → contains (count_up n i) v ≡ (leb i v && ltb v (i + n))
unfolding contains count_up
contains-count_up zero i v = ground arith
contains-count_up (suc n) i v = ground (arith, contains-count_up n (suc i) v)

pub contains-range : (from to v : ℕ) → contains (range from to) v ≡ (leb from v && leb v to)
contains-range from to v = ground (arith, contains-count_up (suc to - from) from v)

pub contains-append :
    (xs ys : List ℕ) (v : ℕ) → contains (xs ++ ys) v ≡ (contains xs v || contains ys v)
unfolding contains
contains-append [] ys v = refl
contains-append (x ∷ xs) ys v = ground (arith, contains-append xs ys v)

-- `r` is the list of the values `i`, `i + step`, … as far as `max`, in order.
pub record IsSteps (step i max : ℕ) (r : Parsed (List ℕ)) : Type 0 where
  pub values : List ℕ
  pub ended : r ≡ ok values
  pub value_at :
      (k : ℕ) → get_elem? values k ≡ (if leb (i + k * step) max then some (i + k * step) else none)

next_step : (i k step : ℕ) → i + suc k * step ≡ i + step + k * step
next_step i k step = omega arith

IsSteps-cons :
    (step i max : ℕ) (r : Parsed (List ℕ))
    → i ≤ max
    → IsSteps step (i + step) max r
    → IsSteps step i max (cons_value i r)
unfolding cons_value
IsSteps-cons step i max r le s = record {
  values = i ∷ s.values;
  ended = ap (cons_value i) s.ended;
  value_at = λ k. at_index k;
}
  where
    at_index :
        (k : ℕ)
        → get_elem? (i ∷ s.values) k
          ≡ (if leb (i + k * step) max then some (i + k * step) else none)
    at_index zero = ground arith
    at_index (suc k) = rw (next_step i k step) (s.value_at k)

-- With a positive step and enough fuel the loop ends with these values.
pub step_up-IsSteps :
    (fuel step i max : ℕ)
    → 0 < step
    → step < 2 ^ 62
    → max < 2 ^ 62
    → i < 2 ^ 63
    → max < i + fuel
    → IsSteps step i max (step_up (suc fuel) step i max)
unfolding step_up
step_up-IsSteps zero step i max pos small_step small_max small_i enough =
    let past : int_lt max i ≡ true = ground arith in
    rw past (record { values = []; ended = refl; value_at = λ k. ground arith })
step_up-IsSteps (suc fuel) step i max pos small_step small_max small_i enough =
    elim (Bool-cases (int_lt max i)) [
      | inl past ↦ rw past (record { values = []; ended = refl; value_at = λ k. ground arith })
      | inr within ↦
          let no_wrap : add64 i step ≡ i + step = ground arith in
          let next : max < i + step + fuel = ground arith in
          rw (within, no_wrap)
            (IsSteps-cons step i max _ (ground arith) (
              step_up-IsSteps fuel step (i + step) max pos small_step small_max (ground arith)
                next))
    ]
