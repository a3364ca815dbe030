-- ===== src/Configuration/Units/Seconds.antt =====
-- What `as_seconds` makes of a number with a unit.
use pgvictoria.Prelude.{
  ℕ, ◌*◌, ◌^◌, ◌<◌, ◌≡◌, ◌∙◌, refl, sym, Bool, true, false, some, [], ◌∷◌, ◌++◌, ◌==◌,
  if◌then◌else◌, ℤ, arith, append-nil, Bool-cases, inl, inr, ◌⊎◌, length,
}
use pgvictoria.Bytes.{Bytes, is_digit, is_alpha, to_lower}
use pgvictoria.Configuration.Numbers.Digits.{AllDigit, decimal}
use pgvictoria.Configuration.Units.Scanning.{
  PushesDigits, scan_digits, not_blank, scaled, finish_number, alpha_no_digit, finish_one, Steps,
  push_digit_keeps, Accepted, finish-scan-Accepted,
}
use pgvictoria.Configuration.Units.{
  returns, misc_length, is_empty_string, Scan, start, next, second_unit, second_round, scan, finish,
  as_seconds,
}

second_round-PushesDigits : PushesDigits second_round
unfolding second_round
second_round-PushesDigits st c h = rw h

-- The number of seconds that a letter stands for, in either case; 1 if it is no unit.
unfoldable pub seconds_in : ℕ → ℕ
seconds_in u =
    let l = to_lower u in
    if l == b'm'
    then 60
    else if l == b'h'
    then 60 * 60
    else if l == b'd'
    then 24 * (60 * 60)
    else if l == b'w'
    then 7 * (24 * (60 * 60))
    else 1

is_second_unit : ℕ → Bool
is_second_unit u =
    let l = to_lower u in
    if l == b's'
    then true
    else if l == b'm'
    then true
    else if l == b'h'
    then true
    else if l == b'd'
    then true
    else if l == b'w'
    then true
    else false

second_unit_lem :
    (v : Bytes) (u : ℕ)
    → second_unit (record { value = v; multiplier = 1; multiplier_set = false }) u
      ≡ record { value = v; multiplier = seconds_in u; multiplier_set = is_second_unit u }
unfolding second_unit seconds_in is_second_unit to_lower
second_unit_lem v u = ground arith

second_round_letter :
    (v : Bytes) (u : ℕ)
    → is_alpha u ≡ true
    → second_round (record { value = v; multiplier = 1; multiplier_set = false }) u
      ≡ next (record { value = v; multiplier = seconds_in u; multiplier_set = is_second_unit u })
unfolding second_round
second_round_letter v u a = rw (alpha_no_digit u a, a, second_unit_lem v u)

module _ (c : ℕ) (ds : Bytes) (h : AllDigit (c ∷ ds)) (room : length (c ∷ ds) < misc_length)
    (small : decimal 0 (c ∷ ds) < 2 ^ 31) (default : ℤ) where
  as_seconds-scan :
      (rest : Bytes)
      → as_seconds (some ((c ∷ ds) ++ rest)) default
        ≡ finish (scan second_round (record start { value = c ∷ ds }) rest) default
  as_seconds-scan rest =
      unfold as_seconds in
      rw (
        not_blank c (ds ++ rest) h.0,
        scan_digits second_round start (c ∷ ds) rest second_round-PushesDigits h (omega arith),
      )

  -- A number alone is read as it stands; with one letter behind it, it is multiplied by the seconds
  -- in that unit, and by 1 if the letter is no unit. The product must be an `int`, or the C code
  -- leaves the language. The number is an `int` that is written with fewer than 128 digits.
  pub as_seconds_unit :
      (u : ℕ)
      → is_alpha u ≡ true
      → (as_seconds (some (c ∷ ds)) default ≡ scaled (decimal 0 (c ∷ ds)) 1)
        × (as_seconds (some ((c ∷ ds) ++ u ∷ [])) default
            ≡ scaled (decimal 0 (c ∷ ds)) (seconds_in u))
  as_seconds_unit u a =
      ((rw (append-nil ds) at (as_seconds-scan [])) ∙ plain, as_seconds-scan (u ∷ []) ∙ with_unit)
    where
      plain :
          finish (scan second_round (record start { value = c ∷ ds }) []) default
          ≡ scaled (decimal 0 (c ∷ ds)) 1
      plain = unfold scan in finish_number c ds 1 false default h room small

      with_unit :
          finish (scan second_round (record start { value = c ∷ ds }) (u ∷ [])) default
          ≡ scaled (decimal 0 (c ∷ ds)) (seconds_in u)
      with_unit =
          finish_one second_round _ _ u default (second_round_letter (c ∷ ds) u a)
          ∙ finish_number c ds (seconds_in u) (is_second_unit u) default h room small

abbrev pub IsSecondFactor : ℕ → Type 0
IsSecondFactor k = (k ≡ 1) ⊎ (k ≡ 60) ⊎ (k ≡ 3600) ⊎ (k ≡ 86400) ⊎ (k ≡ 604800)

second_unit_keeps :
    (st : Scan) (c : ℕ)
    → ((second_unit st c).value ≡ st.value)
      × (IsSecondFactor st.multiplier → IsSecondFactor (second_unit st c).multiplier)
unfolding second_unit
second_unit_keeps st c = (ground arith, λ f. ground arith)

second_round_other :
    (st : Scan) (c : ℕ) (st' : Scan)
    → is_digit c ≡ false
    → second_round st c ≡ next st'
    → (is_alpha c ≡ true) × (second_unit st c ≡ st')
unfolding second_round
second_round_other st c st' d h = (ground arith, ground arith)

second_round-Steps : Steps IsSecondFactor second_round
second_round-Steps st c st' h = elim (Bool-cases (is_digit c)) [
  | inl d ↦
      let k = push_digit_keeps st c st' (sym (second_round-PushesDigits st c d) ∙ h) in
      (inl d, rw d k.0, λ f. rw k.1 f)
  | inr d ↦
      let k = second_round_other st c st' d h in
      let u = second_unit_keeps st c in (inr k.0, rw d (rw (← k.1) u.0), λ f. rw (← k.1) (u.1 f))
]

-- Whatever `as_seconds` accepts, blank texts aside, is made of ASCII letters and digits only, and the
-- result is what `as_int` makes of the digits, all of them in a row wherever the letters stand, times
-- the seconds in one of the units; it is an `int` and not negative.
pub as_seconds_sound :
    (s : Bytes) (default r : ℤ)
    → is_empty_string (some s) ≡ false
    → as_seconds (some s) default ≡ returns 0 r
    → Accepted IsSecondFactor s r
as_seconds_sound s default r b h =
    finish-scan-Accepted IsSecondFactor second_round s default r second_round-Steps (inl refl)
      (unfold as_seconds in rw (b, as_seconds) at h)
