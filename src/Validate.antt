-- ===== src/Validate.antt =====
-- pkg/validate/validate.go: the checks of what a request carries. A text is the list of its bytes; a
-- check returns the reason for a refusal, or none. An `int` is its bit pattern. The checks that look at
-- the file system (`PathExists`, `PathWithinBase`) are not here.
pub mod Names
pub mod EnvVars
pub mod Schedules
pub mod Examples
use prisn.Base.{
  ℕ, ◌+◌, ◌-◌, Option, none, some, List, [], ◌∷◌, Bool, true, false, not, ◌&&◌, ◌||◌, ltb, leb,
  ◌==◌, if◌then◌else◌, length,
}
use prisn.Base.Text.{Text, codes, same_text, has_prefix}
use prisn.Base.Word.{int_lt}
use prisn.Scheduler.Cron.{fields_from}

pub data NameError : Type 0 where
  name_empty name_dots name_too_long bad_start bad_characters : NameError

abbrev pub is_upper : ℕ → Bool
is_upper c = leb b'A' c && leb c b'Z'

abbrev pub is_lower : ℕ → Bool
is_lower c = leb b'a' c && leb c b'z'

abbrev pub is_digit : ℕ → Bool
is_digit c = leb b'0' c && leb c b'9'

-- unicode.IsLetter(rune(b)) of one byte: the letters of ASCII and of Latin-1
unfoldable pub is_letter : ℕ → Bool
is_letter b =
    is_upper b
    || is_lower b
    || b == 170
    || b == 181
    || b == 186
    || leb 192 b && leb b 255 && not (b == 215) && not (b == 247)

-- [a-zA-Z0-9]
abbrev pub is_alnum : ℕ → Bool
is_alnum c = is_upper c || is_lower c || is_digit c

-- [a-zA-Z0-9_-]
abbrev pub is_name_char : ℕ → Bool
is_name_char c = is_alnum c || c == b'_' || c == b'-'

unfoldable pub all_match : (ℕ → Bool) → Text → Bool
all_match p [] = true
all_match p (c ∷ cs) = p c && all_match p cs

-- ^first rest*$
unfoldable pub match_word : (first rest : ℕ → Bool) → Text → Bool
unfolding all_match
match_word first rest [] = false
match_word first rest (c ∷ cs) = first c && all_match rest cs

unfoldable pub name : Text → Option NameError
unfolding match_word is_letter
name [] = some name_empty
name (c ∷ cs) =
    if same_text (c ∷ cs) (codes ".") || same_text (c ∷ cs) (codes "..")
    then some name_dots
    else if ltb 63 (length (c ∷ cs))
    then some name_too_long
    else if not (is_letter c) && not (is_digit c)
    then some bad_start
    else if not (match_word is_alnum is_name_char (c ∷ cs))
    then some bad_characters
    else none

unfoldable pub namespace : Text → Option NameError
unfolding name
namespace [] = some name_empty
namespace ns = name ns

pub data NumberError : Type 0 where
  negative_number needs_root too_low too_high : NumberError

unfoldable pub port : ℕ → Option NumberError
port p =
    if int_lt p 0
    then some negative_number
    else if int_lt 65535 p
    then some too_high
    else if int_lt 0 p && int_lt p 1024
    then some needs_root
    else none

unfoldable pub replicas : ℕ → Option NumberError
replicas n =
    if int_lt n 0 then some negative_number else if int_lt 1000 n then some too_high else none

unfoldable pub memory : ℕ → Option NumberError
memory mb =
    if int_lt mb 0
    then some negative_number
    else if int_lt 0 mb && int_lt mb 16
    then some too_low
    else if int_lt 65536 mb
    then some too_high
    else none

pub data EnvError : Type 0 where
  empty_variable no_equals empty_key invalid_key : EnvError

pub data EnvChecked : Type 0 where
  variable : (key value : Text) → EnvChecked
  refused : EnvError → EnvChecked

unfoldable pub add_char : ℕ → Option (Text × Text) → Option (Text × Text)
add_char c none = none
add_char c (some (key, value)) = some (c ∷ key, value)

-- strings.SplitN(s, "=", 2), or none where there is no "="
unfoldable pub cut : ℕ → Text → Option (Text × Text)
unfolding add_char
cut sep [] = none
cut sep (c ∷ cs) = let rest = cut sep cs in if c == sep then some ([], cs) else add_char c rest

-- [a-zA-Z_]
abbrev pub is_key_start : ℕ → Bool
is_key_start c = is_upper c || is_lower c || c == b'_'

-- [a-zA-Z0-9_]
abbrev pub is_key_char : ℕ → Bool
is_key_char c = is_alnum c || c == b'_'

unfoldable pub check_key : Option (Text × Text) → EnvChecked
unfolding match_word
check_key none = refused no_equals
check_key (some ([], value)) = refused empty_key
check_key (some (c ∷ key, value)) =
    if match_word is_key_start is_key_char (c ∷ key)
    then variable (c ∷ key) value
    else refused invalid_key

unfoldable pub env_var : Text → EnvChecked
unfolding cut check_key
env_var [] = refused empty_variable
env_var (c ∷ cs) = check_key (cut b'=' (c ∷ cs))

pub data ScheduleError : Type 0 where
  schedule_empty not_five_fields : ScheduleError

unfoldable pub is_shortcut : Text → Bool
is_shortcut expr =
    same_text expr (codes "@hourly")
    || same_text expr (codes "@daily")
    || same_text expr (codes "@weekly")
    || same_text expr (codes "@monthly")
    || same_text expr (codes "@yearly")
    || same_text expr (codes "@annually")

unfoldable pub cron_schedule : Text → Option ScheduleError
unfolding is_shortcut fields_from
cron_schedule [] = some schedule_empty
cron_schedule (c ∷ cs) =
    if is_shortcut (c ∷ cs)
    then none
    else if length (fields_from [] (c ∷ cs)) == 5
    then none
    else some not_five_fields

pub data PathError : Type 0 where
  path_empty path_traversal : PathError

-- strings.Contains(text, part)
unfoldable pub contains_text : (text part : Text) → Bool
unfolding has_prefix
contains_text [] part = has_prefix [] part
contains_text (c ∷ cs) part = has_prefix (c ∷ cs) part || contains_text cs part

unfoldable pub path : Text → Option PathError
unfolding contains_text
path [] = some path_empty
path (c ∷ cs) = if contains_text (c ∷ cs) (codes "..") then some path_traversal else none

pub data TimeoutError : Type 0 where
  timeout_zero timeout_needs_unit : TimeoutError

unfoldable pub timeout : Text → Option TimeoutError
unfolding all_match
timeout [] = none
timeout (c ∷ cs) =
    if same_text (c ∷ cs) (codes "0")
    then some timeout_zero
    else if all_match is_digit (c ∷ cs)
    then some timeout_needs_unit
    else none
