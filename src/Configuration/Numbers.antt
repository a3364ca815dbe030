-- ===== src/Configuration/Numbers.antt =====
-- `as_int` of configuration.c, and `strtol` of the C library in base 10, which it calls.
pub mod Digits
use pgvictoria.Prelude.{
  ℕ, ◌+◌, ◌-◌, ◌*◌, ◌^◌, ◌%◌, Bool, true, false, Option, none, some, List, [], ◌∷◌, ltb, leb, ◌==◌,
  if◌then◌else◌, ℤ, pos, negsuc, signed, bits,
}
use pgvictoria.Bytes.{Bytes, is_space, is_digit, drop_while}

-- What `strtol` reads: the sign, the digits' value before any clamping, whether there was a digit,
-- and what `endptr` points to.
pub record Strtol : Type 0 where
  pub negative : Bool
  pub magnitude : ℕ
  pub some_digit : Bool
  pub rest : Bytes

unfoldable pub read_digits : ℕ → Bool → Bytes → ℕ × Bool × Bytes
read_digits acc seen [] = (acc, seen, [])
read_digits acc seen (c ∷ s) =
    let more = read_digits (acc * 10 + (c - b'0')) true s in
    if is_digit c then more else (acc, seen, c ∷ s)

unfoldable pub skip_spaces : Bytes → Bytes
unfolding drop_while
skip_spaces = drop_while is_space

unfoldable pub read_sign : Bytes → Bool × Bytes
read_sign [] = (false, [])
read_sign (c ∷ s) =
    if c == b'-' then (true, s) else if c == b'+' then (false, s) else (false, c ∷ s)

unfoldable pub strtol : Bytes → Strtol
unfolding read_digits skip_spaces read_sign
strtol s =
    let (negative, t) = read_sign (skip_spaces s) in
    let (magnitude, some_digit, rest) = read_digits 0 false t in
    record { negative = negative; magnitude = magnitude; some_digit = some_digit; rest = rest }

-- ERANGE: the value is not between LONG_MIN and LONG_MAX.
unfoldable pub out_of_range : Bool → ℕ → Bool
out_of_range true m = ltb (2 ^ 63) m
out_of_range false m = leb (2 ^ 63) m

unfoldable pub negate_if : Bool → ℕ → ℤ
negate_if false m = pos m
negate_if true m = if m == 0 then pos 0 else negsuc (m - 1)

-- (int)val keeps the low 32 bits.
unfoldable pub to_int32 : ℤ → ℤ
to_int32 v = signed 32 (bits 32 v)

is_end : Bytes → Bool
is_end [] = true
is_end (c ∷ s) = false

-- The tests behind the call: what is left must be empty.
unfoldable pub conclude : Strtol → Option ℤ
unfolding out_of_range negate_if to_int32 is_end
conclude r =
    if out_of_range r.negative r.magnitude
    then none
    else if r.some_digit
    then (if is_end r.rest then some (to_int32 (negate_if r.negative r.magnitude)) else none)
    else none

-- `none` is the status 1, with `*i` left alone.
unfoldable pub as_int : Bytes → Option ℤ
unfolding strtol conclude
as_int str = conclude (strtol str)
