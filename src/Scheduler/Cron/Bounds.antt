-- ===== src/Scheduler/Cron/Bounds.antt =====
-- The values that `parseField` of pkg/scheduler/cron.go returns, against the bounds of the field.
use prisn.Base.{
  ℕ, suc, ◌+◌, ◌^◌, ◌≤◌, ◌<◌, ◌≡◌, refl, ap, subst, sym, inl, inr, Option, none, some, List, [],
  ◌∷◌, ◌++◌, true, ◌||◌, ◌==◌, arith, get_elem?, drop, Bool-cases, ==_iff,
}
use prisn.Base.Word.{int_lt}
use prisn.Scheduler.Cron.{
  Parsed, ok, err, endless, contains, range, split, atoi, parse_bounds, parse_range, parse_value,
  parse_part, both, parse_parts, parse_step, is_star, is_step, parse_field,
}
use prisn.Base.Text.{Text}
use prisn.Scheduler.Cron.Values.{contains-range, contains-append, IsSteps, step_up-IsSteps}

abbrev pub AllIn : ℕ → ℕ → List ℕ → Type 0
AllIn min max vs = (v : ℕ) → contains vs v ≡ true → (min ≤ v) × (v ≤ max)

-- An error, or values within the bounds; not a loop that goes on.
abbrev pub IsParsed : ℕ → ℕ → Parsed (List ℕ) → Type 0
IsParsed min max (ok vs) = AllIn min max vs
IsParsed min max (err e) = Unit
IsParsed min max endless = ⊥

range-AllIn : (min max start end : ℕ) → min ≤ start → end ≤ max → AllIn min max (range start end)
range-AllIn min max start end lo hi v h = ground (arith, contains-range start end v)

append-AllIn :
    (min max : ℕ) (vs ws : List ℕ) → AllIn min max vs → AllIn min max ws → AllIn min max (vs ++ ws)
append-AllIn min max vs ws a b v h = elim (Bool-cases (contains vs v)) [
  | inl here ↦ a v here
  | inr there ↦ b v (ground (arith, contains-append vs ws v))
]

contains-get : (vs : List ℕ) (v : ℕ) → contains vs v ≡ true → (k : ℕ) × (get_elem? vs k ≡ some v)
unfolding contains
contains-get [] v h = cc
contains-get (x ∷ vs) v h = elim (Bool-cases (x == v)) [
  | inl same ↦ (0, ap some ((==_iff x v).0 same))
  | inr other ↦ let (k, found) = contains-get vs v (ground arith) in (suc k, found)
]

bounds-IsParsed :
    (a b : Option ℕ) (min max : ℕ)
    → min < 2 ^ 62
    → max < 2 ^ 62
    → IsParsed min max (parse_bounds a b min max)
unfolding parse_bounds
bounds-IsParsed none b min max small_min small_max = tt
bounds-IsParsed (some start) none min max small_min small_max = tt
bounds-IsParsed (some start) (some end) min max small_min small_max =
    elim (Bool-cases (int_lt start min || int_lt max end || int_lt end start)) [
      | inl out ↦ rw (out, IsParsed) tt
      | inr inside ↦
          rw (inside, IsParsed) (range-AllIn min max start end (ground arith) (ground arith))
    ]

range-IsParsed :
    (bounds : List Text) (min max : ℕ)
    → min < 2 ^ 62
    → max < 2 ^ 62
    → IsParsed min max (parse_range bounds min max)
unfolding parse_range
range-IsParsed [] min max lo hi = tt
range-IsParsed (a ∷ []) min max lo hi = tt
range-IsParsed (a ∷ b ∷ []) min max lo hi = bounds-IsParsed (atoi a) (atoi b) min max lo hi
range-IsParsed (a ∷ b ∷ c ∷ rest) min max lo hi = tt

value-IsParsed :
    (a : Option ℕ) (min max : ℕ)
    → min < 2 ^ 62
    → max < 2 ^ 62
    → IsParsed min max (parse_value a min max)
unfolding parse_value contains
value-IsParsed none min max small_min small_max = tt
value-IsParsed (some v) min max small_min small_max =
    elim (Bool-cases (int_lt v min || int_lt max v)) [
      | inl out ↦ rw (out, IsParsed) tt
      | inr inside ↦ rw (inside, IsParsed) (λ w h. (ground arith, ground arith))
    ]

part-IsParsed :
    (part : Text) (min max : ℕ)
    → min < 2 ^ 62
    → max < 2 ^ 62
    → IsParsed min max (parse_part part min max)
unfolding parse_part
part-IsParsed part min max lo hi = elim (Bool-cases (contains part b'-')) [
  | inl dash ↦ rw dash (range-IsParsed (split b'-' part) min max lo hi)
  | inr plain ↦ rw plain (value-IsParsed (atoi part) min max lo hi)
]

both-IsParsed :
    (min max : ℕ) (r s : Parsed (List ℕ))
    → IsParsed min max r
    → IsParsed min max s
    → IsParsed min max (both r s)
unfolding both
both-IsParsed min max (ok vs) (ok ws) a b = append-AllIn min max vs ws a b
both-IsParsed min max (ok vs) (err e) a b = tt
both-IsParsed min max (ok vs) endless a b = b
both-IsParsed min max (err e) s a b = tt
both-IsParsed min max endless s a b = a

parts-IsParsed :
    (parts : List Text) (min max : ℕ)
    → min < 2 ^ 62
    → max < 2 ^ 62
    → IsParsed min max (parse_parts parts min max)
unfolding parse_parts contains
parts-IsParsed [] min max lo hi = λ v h. cc
parts-IsParsed (p ∷ ps) min max lo hi =
    both-IsParsed min max _ _ (part-IsParsed p min max lo hi) (parts-IsParsed ps min max lo hi)

steps-IsParsed :
    (step min max : ℕ) (r : Parsed (List ℕ)) → IsSteps step min max r → IsParsed min max r
steps-IsParsed step min max r s = subst (IsParsed min max) (sym s.ended) values_in
  where
    values_in : AllIn min max s.values
    values_in v h =
        let (k, found) = contains-get s.values v h in ground (arith, s.value_at k, found)

-- A field `*/n` has a positive step.
abbrev pub IsForward : Text → Type 0
IsForward field =
    is_step field ≡ true
    → (step : ℕ) → atoi (drop 2 field) ≡ some step
    → (0 < step) × (step < 2 ^ 62)

step-IsParsed :
    (o : Option ℕ) (fuel min max : ℕ)
    → min < 2 ^ 62
    → max < 2 ^ 62
    → max < min + fuel
    → ((step : ℕ) → o ≡ some step → (0 < step) × (step < 2 ^ 62))
    → IsParsed min max (parse_step o (suc fuel) min max)
step-IsParsed none fuel min max lo hi enough forward = tt
step-IsParsed (some step) fuel min max lo hi enough forward =
    let (pos, small) = forward step refl in
    steps-IsParsed step min max _
      (step_up-IsSteps fuel step min max pos small hi (omega arith) enough)

-- A field without a step that is zero, negative or huge is parsed to values within its bounds or to
-- an error, with any fuel above the number of values between the bounds.
pub parse_field-IsParsed :
    (fuel : ℕ) (field : Text) (min max : ℕ)
    → min < 2 ^ 62
    → max < 2 ^ 62
    → max < min + fuel
    → IsForward field
    → IsParsed min max (parse_field (suc fuel) field min max)
unfolding parse_field
parse_field-IsParsed fuel field min max lo hi enough forward = elim (Bool-cases (is_star field)) [
  | inl star ↦ rw (star, IsParsed) (range-AllIn min max min max (omega arith) (omega arith))
  | inr other ↦ rw other (elim (Bool-cases (is_step field)) [
    | inl step ↦
        rw step (step-IsParsed (atoi (drop 2 field)) fuel min max lo hi enough (forward step))
    | inr list ↦ rw list (parts-IsParsed (split b',' field) min max lo hi)
  ])
]
