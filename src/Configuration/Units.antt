-- ===== src/Configuration/Units.antt =====
-- `as_seconds` and `as_bytes` of configuration.c: a number with a unit.
pub mod Scanning
pub mod Seconds
pub mod Sizes
use pgvictoria.Prelude.{
  ℕ, zero, suc, ◌+◌, ◌-◌, ◌*◌, ◌^◌, Bool, true, false, not, ◌&&◌, ◌||◌, Option, none, some, List,
  [], ◌∷◌, ◌++◌, ltb, leb, ◌==◌, if◌then◌else◌, ℤ, pos, negsuc, length,
}
use pgvictoria.Bytes.{Bytes, is_digit, is_alpha}
use pgvictoria.Configuration.Numbers.{as_int}

-- The status, 0 or 1, with what is written; `undefined` where the C code leaves the language: a
-- store past the end of `value`, or a product that is no `int`.
pub data Outcome : Type 0 where
  returns : ℕ → ℤ → Outcome
  undefined : Outcome

-- MISC_LENGTH
abbrev pub misc_length : ℕ
misc_length = 128

-- is_empty_string, of a pointer that may be NULL
unfoldable pub all_blank : Bytes → Bool
all_blank [] = true
all_blank (c ∷ s) =
    if c == b' ' || c == b'\t' || c == b'\r' || c == b'\n' then all_blank s else false

unfoldable pub is_empty_string : Option Bytes → Bool
unfolding all_blank
is_empty_string none = true
is_empty_string (some s) = all_blank s

-- The variables of the loops.
pub record Scan : Type 0 where
  pub value : Bytes
  pub multiplier : ℕ
  pub multiplier_set : Bool

abbrev pub start : Scan
start = record { value = []; multiplier = 1; multiplier_set = false }

-- What a round does: the next state, `goto error`, or a store past the end of `value`.
pub data Round : Type 0 where
  next : Scan → Round
  error fault : Round

abbrev either : ℕ → ℕ → ℕ → Bool
either c a b = c == a || c == b

unfoldable pub set_multiplier : Scan → ℕ → Scan
set_multiplier st m = record st { multiplier = m; multiplier_set = true }

-- The letters that `as_seconds` knows; any other one is passed over.
unfoldable pub second_unit : Scan → ℕ → Scan
unfolding set_multiplier
second_unit st c =
    if either c b's' b'S'
    then set_multiplier st 1
    else if either c b'm' b'M'
    then set_multiplier st 60
    else if either c b'h' b'H'
    then set_multiplier st 3600
    else if either c b'd' b'D'
    then set_multiplier st (24 * 3600)
    else if either c b'w' b'W'
    then set_multiplier st (24 * 3600 * 7)
    else st

-- value[index++] = str[i]
unfoldable pub push_digit : Scan → ℕ → Round
push_digit st c =
    if leb misc_length (length st.value)
    then fault
    else next (record st { value = st.value ++ c ∷ [] })

unfoldable pub second_round : Scan → ℕ → Round
unfolding second_unit push_digit
second_round st c =
    if is_digit c
    then push_digit st c
    else if is_alpha c && st.multiplier_set
    then error
    else if is_alpha c && not st.multiplier_set
    then next (second_unit st c)
    else error

unfoldable pub byte_unit : Scan → ℕ → Scan
unfolding set_multiplier
byte_unit st c =
    if either c b'M' b'm'
    then set_multiplier st (1024 * 1024)
    else if either c b'G' b'g'
    then set_multiplier st (1024 * 1024 * 1024)
    else if either c b'K' b'k'
    then set_multiplier st 1024
    else if either c b'B' b'b'
    then set_multiplier st 1
    else st

unfoldable pub byte_round : Scan → ℕ → Round
unfolding byte_unit push_digit
byte_round st c =
    if is_digit c
    then push_digit st c
    else if is_alpha c && st.multiplier_set
    then (if st.multiplier == 1 || not (either c b'b' b'B') then error else next st)
    else if is_alpha c && not st.multiplier_set
    then next (byte_unit st c)
    else error

-- The loop over the text.
unfoldable pub scan : (Scan → ℕ → Round) → Scan → Bytes → Round
scan round st [] = next st
scan round st (c ∷ s) = elim (round st c) [
  | next st' ↦ scan round st' s
  | error ↦ error
  | fault ↦ fault
]

-- *age = i_value * multiplier, for an `i_value` that is not negative
unfoldable pub scale : ℤ → ℕ → ℤ → Outcome
scale (pos n) m default = if ltb (n * m) (2 ^ 31) then returns 0 (pos (n * m)) else undefined
scale (negsuc n) m default = returns 1 default

-- What follows the loop.
unfoldable pub finish : Round → ℤ → Outcome
unfolding scale
finish error default = returns 1 default
finish fault default = undefined
finish (next st) default =
    if leb misc_length (length st.value) then undefined else elim (as_int st.value) [
      | none ↦ returns 1 default
      | some i ↦ scale i st.multiplier default
    ]

text_of : Option Bytes → Bytes
text_of none = []
text_of (some s) = s

unfoldable pub as_seconds : Option Bytes → ℤ → Outcome
unfolding is_empty_string text_of finish
as_seconds str default =
    if is_empty_string str
    then returns 0 default
    else finish (scan second_round start (text_of str)) default

unfoldable pub as_bytes : Option Bytes → ℤ → Outcome
unfolding is_empty_string text_of finish
as_bytes str default =
    if is_empty_string str
    then returns 0 default
    else finish (scan byte_round start (text_of str)) default

-- PGVICTORIA_LOGGING_ROTATION_DISABLED is 0.
unfoldable pub as_logging_rotation_size : Option Bytes → Outcome
as_logging_rotation_size str = as_bytes str (pos 0)
