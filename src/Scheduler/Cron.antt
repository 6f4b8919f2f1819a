-- ===== src/Scheduler/Cron.antt =====
-- pkg/scheduler/cron.go: how a cron expression is parsed. A text is the list
-- of its bytes, all of them ASCII; an `int` is its bit pattern. The loop of `*/n` takes fuel: `endless`
-- is a loop that has not ended.
pub mod Values
pub mod Bounds
pub mod Ends
use prisn.Base.{
  ℕ, zero, suc, ◌+◌, ◌-◌, ◌*◌, ◌%◌, ◌^◌, Option, none, some, List, [], ◌∷◌, ◌++◌, Bool, true, false,
  ◌&&◌, ◌||◌, not, ltb, leb, ◌==◌, if◌then◌else◌, length, drop,
}
use prisn.Base.{String, get_or}
use prisn.Base.Dict.{Dict, lookup}
use prisn.Base.Text.{Text, same_text, has_prefix}
use prisn.Base.Word.{add64, int_lt}

pub record CronExpr : Type 0 where
  pub minutes : List ℕ
  pub hours : List ℕ
  pub days_of_month : List ℕ
  pub months : List ℕ
  pub days_of_week : List ℕ
  pub raw : Text

pub data ParseError : Type 0 where
  field_count invalid_step invalid_range invalid_range_start invalid_range_end : ParseError
  range_out_of_bounds invalid_value value_out_of_bounds : ParseError

pub data Parsed (A : Type 0) : Type 0 where
  ok : A → Parsed A
  err : ParseError → Parsed A
  endless : Parsed A

-- strconv.Atoi
unfoldable pub digits : Text → ℕ → Option ℕ
digits [] acc = some acc
digits (c ∷ cs) acc =
    let rest = digits cs (acc * 10 + (c - b'0')) in if leb b'0' c && leb c b'9' then rest else none

unsigned : Text → Option ℕ
unsigned [] = none
unsigned (c ∷ cs) = digits (c ∷ cs) 0

positive : Option ℕ → Option ℕ
positive none = none
positive (some v) = if ltb v (2 ^ 63) then some v else none

negative : Option ℕ → Option ℕ
negative none = none
negative (some v) = if leb v (2 ^ 63) then some ((2 ^ 64 - v) % 2 ^ 64) else none

unfoldable pub atoi : Text → Option ℕ
unfolding digits unsigned positive negative
atoi [] = none
atoi (c ∷ cs) =
    if c == b'-'
    then negative (unsigned cs)
    else if c == b'+'
    then positive (unsigned cs)
    else positive (unsigned (c ∷ cs))

cons_head : ℕ → List Text → List Text
cons_head c [] = (c ∷ []) ∷ []
cons_head c (w ∷ ws) = (c ∷ w) ∷ ws

-- strings.Split at one character
unfoldable pub split : ℕ → Text → List Text
unfolding cons_head
split sep [] = [] ∷ []
split sep (c ∷ cs) = let rest = split sep cs in if c == sep then [] ∷ rest else cons_head c rest

flush : Text → List Text → List Text
flush [] ws = ws
flush (c ∷ word) ws = (c ∷ word) ∷ ws

is_space : ℕ → Bool
is_space c = c == b' ' || leb 9 c && leb c 13

-- strings.Fields behind the beginning `word` of a field
unfoldable pub fields_from : Text → Text → List Text
unfolding flush is_space
fields_from word [] = flush word []
fields_from word (c ∷ cs) =
    let next = fields_from [] cs in
    let same = fields_from (word ++ c ∷ []) cs in if is_space c then flush word next else same

unfoldable pub contains : List ℕ → ℕ → Bool
contains [] v = false
contains (x ∷ xs) v = x == v || contains xs v

-- the values from `i` on, one after the other
unfoldable pub count_up : ℕ → ℕ → List ℕ
count_up zero i = []
count_up (suc n) i = i ∷ count_up n (suc i)

-- for i := from; i <= to; i++
abbrev pub range : ℕ → ℕ → List ℕ
range from to = count_up (suc to - from) from

cons_value : ℕ → Parsed (List ℕ) → Parsed (List ℕ)
cons_value v (ok vs) = ok (v ∷ vs)
cons_value v (err e) = err e
cons_value v endless = endless

-- for ; i <= max; i += step
unfoldable pub step_up : ℕ → ℕ → ℕ → ℕ → Parsed (List ℕ)
unfolding cons_value
step_up zero step i max = endless
step_up (suc fuel) step i max =
    let rest = step_up fuel step (add64 i step) max in
    if int_lt max i then ok [] else cons_value i rest

parse_bounds : Option ℕ → Option ℕ → ℕ → ℕ → Parsed (List ℕ)
parse_bounds none end min max = err invalid_range_start
parse_bounds (some start) none min max = err invalid_range_end
parse_bounds (some start) (some end) min max =
    if int_lt start min || int_lt max end || int_lt end start
    then err range_out_of_bounds
    else ok (range start end)

parse_range : List Text → ℕ → ℕ → Parsed (List ℕ)
unfolding parse_bounds
parse_range (a ∷ b ∷ []) min max = parse_bounds (atoi a) (atoi b) min max
parse_range _ min max = err invalid_range

parse_value : Option ℕ → ℕ → ℕ → Parsed (List ℕ)
parse_value none min max = err invalid_value
parse_value (some v) min max =
    if int_lt v min || int_lt max v then err value_out_of_bounds else ok (v ∷ [])

unfoldable pub parse_part : Text → ℕ → ℕ → Parsed (List ℕ)
unfolding parse_range parse_value
parse_part part min max =
    if contains part b'-'
    then parse_range (split b'-' part) min max
    else parse_value (atoi part) min max

both : Parsed (List ℕ) → Parsed (List ℕ) → Parsed (List ℕ)
both (ok vs) (ok ws) = ok (vs ++ ws)
both (ok vs) other = other
both other rest = other

unfoldable pub parse_parts : List Text → ℕ → ℕ → Parsed (List ℕ)
unfolding both
parse_parts [] min max = ok []
parse_parts (p ∷ ps) min max = both (parse_part p min max) (parse_parts ps min max)

abbrev pub parse_step : Option ℕ → ℕ → ℕ → ℕ → Parsed (List ℕ)
parse_step none fuel min max = err invalid_step
parse_step (some step) fuel min max = step_up fuel step min max

-- field == "*"
unfoldable pub is_star : Text → Bool
unfolding same_text
is_star field = same_text field (b'*' ∷ [])

-- strings.HasPrefix(field, "*/")
unfoldable pub is_step : Text → Bool
unfolding has_prefix
is_step field = has_prefix field (b'*' ∷ b'/' ∷ [])

unfoldable pub parse_field : ℕ → Text → ℕ → ℕ → Parsed (List ℕ)
parse_field fuel field min max =
    if is_star field
    then ok (range min max)
    else if is_step field
    then parse_step (atoi (drop 2 field)) fuel min max
    else parse_parts (split b',' field) min max

and_then : {A B : Type 0} → Parsed A → (A → Parsed B) → Parsed B
and_then (ok a) f = f a
and_then (err e) f = err e
and_then endless f = endless

unfoldable pub parse_fields : ℕ → Text → List Text → Parsed CronExpr
unfolding and_then
parse_fields fuel raw (a ∷ b ∷ c ∷ d ∷ e ∷ []) = and_then (parse_field fuel a 0 59) (λ minutes.
    and_then (parse_field fuel b 0 23) (λ hours.
      and_then (parse_field fuel c 1 31) (λ days_of_month.
        and_then (parse_field fuel d 1 12) (λ months.
          and_then (parse_field fuel e 0 6) (λ days_of_week. ok (record {
            minutes = minutes;
            hours = hours;
            days_of_month = days_of_month;
            months = months;
            days_of_week = days_of_week;
            raw = raw;
          }))))))
parse_fields fuel raw _ = err field_count

unfoldable pub parse_cron : ℕ → Text → Parsed CronExpr
unfolding parse_fields fields_from
parse_cron fuel expr = parse_fields fuel expr (fields_from [] expr)

abbrev pub shortcuts : Dict String
shortcuts =
    ("@yearly", "0 0 1 1 *")
    ∷ ("@annually", "0 0 1 1 *")
    ∷ ("@monthly", "0 0 1 * *")
    ∷ ("@weekly", "0 0 * * 0")
    ∷ ("@daily", "0 0 * * *")
    ∷ ("@midnight", "0 0 * * *")
    ∷ ("@hourly", "0 * * * *")
    ∷ []

unfoldable pub expand_shortcut : String → String
expand_shortcut s = get_or (lookup s shortcuts) s
