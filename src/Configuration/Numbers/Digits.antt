-- ===== src/Configuration/Numbers/Digits.antt =====
-- `as_int` on decimal numerals.
use pgvictoria.Prelude.{
  ℕ, ◌+◌, ◌-◌, ◌*◌, ◌^◌, ◌%◌, ◌≡◌, ◌∙◌, refl, ap, Bool, true, false, none, some, [], ◌∷◌, ◌++◌, ltb,
  leb, ◌==◌, if◌then◌else◌, signed, All, arith, append-nil,
}
use pgvictoria.Bytes.{Bytes, is_space, is_digit}
use pgvictoria.Configuration.Numbers.{
  Strtol, read_digits, strtol, negate_if, to_int32, as_int, conclude,
}

abbrev pub AllDigit : Bytes → Type 0
AllDigit = All (λ c. is_digit c ≡ true)

-- The number that a row of digits stands for, after `acc`.
unfoldable pub decimal : ℕ → Bytes → ℕ
decimal acc [] = acc
decimal acc (c ∷ s) = decimal (acc * 10 + (c - b'0')) s

abbrev pub NoDigit : Bytes → Type 0
NoDigit [] = Unit
NoDigit (c ∷ s) = is_digit c ≡ false

pub read_digits_lem :
    (acc : ℕ) (seen : Bool) (c : ℕ) (ds rest : Bytes)
    → AllDigit (c ∷ ds)
    → NoDigit rest
    → read_digits acc seen (c ∷ (ds ++ rest)) ≡ (decimal acc (c ∷ ds), true, rest)
unfolding read_digits decimal
read_digits_lem acc seen c [] [] h k = rw h.0
read_digits_lem acc seen c [] (d ∷ rest) h k = rw (h.0, k)
read_digits_lem acc seen c (d ∷ ds) rest h k =
    rw h.0 (read_digits_lem (acc * 10 + (c - b'0')) true d ds rest h.1 k)

digit_no_space :
    (c : ℕ)
    → is_digit c ≡ true
    → (is_space c ≡ false) × ((c == b'-') ≡ false) × ((c == b'+') ≡ false)
unfolding is_digit is_space
digit_no_space c h = ground arith

-- A numeral with what follows it.
strtol_lem :
    (c : ℕ) (ds rest : Bytes)
    → AllDigit (c ∷ ds)
    → NoDigit rest
    → strtol (c ∷ (ds ++ rest))
      ≡ record { negative = false; magnitude = decimal 0 (c ∷ ds); some_digit = true; rest = rest }
unfolding strtol
strtol_lem c ds rest h k =
    let n = digit_no_space c h.0 in rw (n.0, n.1, n.2, read_digits_lem 0 false c ds rest h k)

-- A minus sign before it.
strtol_minus :
    (c : ℕ) (ds rest : Bytes)
    → AllDigit (c ∷ ds)
    → NoDigit rest
    → strtol (b'-' ∷ c ∷ (ds ++ rest))
      ≡ record { negative = true; magnitude = decimal 0 (c ∷ ds); some_digit = true; rest = rest }
unfolding strtol is_space
strtol_minus c ds rest h k = rw (read_digits_lem 0 false c ds rest h k)

as_int-strtol : (s : Bytes) → as_int s ≡ conclude (strtol s)
unfolding as_int
as_int-strtol s = refl

as_int_of : (s : Bytes) (r : Strtol) → strtol s ≡ r → as_int s ≡ conclude r
as_int_of s r h = as_int-strtol s ∙ ap conclude h

-- On a row of digits `as_int` fails from 2^63 on; below that it succeeds, with the low 32 bits of
-- the number read as a signed integer: the number itself if it is below 2^31.
pub as_int-decimal :
    (c : ℕ) (ds : Bytes)
    → AllDigit (c ∷ ds)
    → as_int (c ∷ ds) ≡ (
        if leb (2 ^ 63) (decimal 0 (c ∷ ds))
        then none
        else some (signed 32 (decimal 0 (c ∷ ds) % 2 ^ 32)))
as_int-decimal c ds h =
    as_int_of (c ∷ ds) _ (rw (append-nil ds) at (strtol_lem c ds [] h tt)) ∙ unfold conclude in refl

minus_bits : (m : ℕ) → to_int32 (negate_if true m) ≡ signed 32 ((2 ^ 32 - m % 2 ^ 32) % 2 ^ 32)
unfolding to_int32 negate_if
minus_bits m = ground arith

-- Behind a minus sign it fails above 2^63, and else succeeds with the low 32 bits of the negated
-- number, read as a signed integer.
pub as_int-minus :
    (c : ℕ) (ds : Bytes)
    → AllDigit (c ∷ ds)
    → as_int (b'-' ∷ c ∷ ds) ≡ (
        if ltb (2 ^ 63) (decimal 0 (c ∷ ds))
        then none
        else some (signed 32 ((2 ^ 32 - decimal 0 (c ∷ ds) % 2 ^ 32) % 2 ^ 32)))
as_int-minus c ds h =
    as_int_of (b'-' ∷ c ∷ ds) _ (rw (append-nil ds) at (strtol_minus c ds [] h tt))
    ∙ unfold conclude in rw (← minus_bits (decimal 0 (c ∷ ds)))
