-- ===== src/Utf8.antt =====
-- libpgvictoria/utf8.c: the validator of UTF-8 and its two scanning loops. A `const unsigned char*`
-- with its length is the list of the bytes from there on, so `&buf[i]` is a suffix of `buf` and
-- `i + n > length` compares `n` with what is left.
pub mod Spec
mod Ranges
mod Decode
mod Scan
mod Tests
mod Count
use pgvictoria.Prelude.{
  ℕ, zero, suc, ◌+◌, ◌^◌, ◌-◌, ◌%◌, bit_and, Bool, true, false, ◌&&◌, ◌||◌, Option, none, some,
  List, [], ◌∷◌, ltb, leb, ◌==◌, if◌then◌else◌, length, get_or, drop,
}
use pgvictoria.Bytes.{Bytes}

-- a < lo || a > hi
abbrev outside : ℕ → ℕ → ℕ → Bool
outside lo hi a = ltb a lo || ltb hi a

-- `case 1`: the first byte
unfoldable pub first_ok : ℕ → Bool
first_ok a = if leb 0x80 a && ltb a 0xC2 then false else if ltb 0xF4 a then false else true

-- `case 2`: the second byte, whose range depends on the first
unfoldable pub second_ok : ℕ → ℕ → Bool
second_ok first a =
    if first == 0xE0
    then (if outside 0xA0 0xBF a then false else true)
    else if first == 0xED
    then (if outside 0x80 0x9F a then false else true)
    else if first == 0xF0
    then (if outside 0x90 0xBF a then false else true)
    else if first == 0xF4
    then (if outside 0x80 0x8F a then false else true)
    else if outside 0x80 0xBF a
    then false
    else true

-- `case 3` and `case 4`: a continuation byte
unfoldable pub continuation_ok : ℕ → Bool
continuation_ok a = if outside 0x80 0xBF a then false else true

-- source[k]; the loops below call it only with all `length` bytes in the buffer.
abbrev at : Bytes → ℕ → ℕ
at source k = get_or source k 0

-- Each case falls through to the one below it.
unfoldable pub sequence_valid : Bytes → ℕ → Bool
unfolding first_ok second_ok continuation_ok
sequence_valid source len =
    let one = first_ok (at source 0) in
    let two = second_ok (at source 0) (at source 1) && one in
    let three = continuation_ok (at source 2) && two in
    let four = continuation_ok (at source 3) && three in
    if len == 4
    then four
    else if len == 3
    then three
    else if len == 2
    then two
    else if len == 1
    then one
    else false

-- `none` is -1.
unfoldable pub sequence_length : ℕ → Option ℕ
sequence_length first =
    if ltb first 0x80
    then some 1
    else if bit_and first 0xE0 == 0xC0
    then some 2
    else if bit_and first 0xF0 == 0xE0
    then some 3
    else if bit_and first 0xF8 == 0xF0
    then some 4
    else none

-- The three tests that each round of either loop makes on the suffix `&buf[i]`: `none` where the
-- round returns, and otherwise the length of the sequence.
unfoldable pub next_sequence : Bytes → Option ℕ
next_sequence rest = elim (sequence_length (at rest 0)) [
  | none ↦ none
  | some n ↦ if ltb (length rest) n then none else if sequence_valid rest n then some n else none
]

-- The loop of `pgvictoria_utf8_valid`, on fuel: the outer `none` means that the fuel ran out.
pub valid_loop : ℕ → Bytes → Option Bool
valid_loop fuel [] = some true
valid_loop zero (b ∷ rest) = none
valid_loop (suc fuel) (b ∷ rest) = elim (next_sequence (b ∷ rest)) [
  | none ↦ some false
  | some n ↦ valid_loop fuel (drop n (b ∷ rest))
]

unfoldable pub valid : Bytes → Option Bool
valid buf = valid_loop (length buf) buf

-- (size_t)-1
abbrev pub size_max : ℕ
size_max = 2 ^ 64 - 1

-- The loop of `pgvictoria_utf8_char_length`, which counts in a `size_t`.
pub char_length_loop : ℕ → Bytes → ℕ → Option ℕ
char_length_loop fuel [] count = some count
char_length_loop zero (b ∷ rest) count = none
char_length_loop (suc fuel) (b ∷ rest) count = elim (next_sequence (b ∷ rest)) [
  | none ↦ some size_max
  | some n ↦ char_length_loop fuel (drop n (b ∷ rest)) ((count + 1) % 2 ^ 64)
]

unfoldable pub char_length : Bytes → Option ℕ
char_length buf = char_length_loop (length buf) buf 0

-- pgvictoria_is_ascii
unfoldable pub is_ascii : Bytes → Bool
is_ascii [] = true
is_ascii (c ∷ rest) = if ltb 127 c then false else is_ascii rest
