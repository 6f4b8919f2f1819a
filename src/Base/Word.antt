-- ===== src/Base/Word.antt =====
-- Go's unsigned and signed 64-bit integers as native numbers: `uint64` arithmetic wraps, and an
-- `int` converted from a `uint64` is read by its bit pattern.
use Prim.Native.Nat.{ℕ, ◌+◌, ◌-◌, ◌%◌, ◌^◌}
use mathlib.Core.Bool.{Bool, true, false}
use prisn.Base.Tests.{leb, ltb, if◌then◌else◌}

abbrev pub u64 : ℕ
u64 = 2 ^ 64

abbrev pub add64 : ℕ → ℕ → ℕ
add64 a b = (a + b) % 2 ^ 64

-- `-` on ℕ stops at 0, so the modulus is added first.
abbrev pub sub64 : ℕ → ℕ → ℕ
sub64 a b = (a + 2 ^ 64 - b) % 2 ^ 64

-- `int(w) < 0` for a `uint64` w
abbrev pub is_negative : ℕ → Bool
is_negative w = leb (2 ^ 63) w

-- `int(a) < int(b)` for bit patterns
abbrev pub int_lt : ℕ → ℕ → Bool
int_lt a b =
    if is_negative a
    then (if is_negative b then ltb a b else true)
    else (if is_negative b then false else ltb a b)
