-- ===== src/Configuration/Units/Sizes.antt =====
-- What `as_bytes` makes of a number with a unit.
use pgvictoria.Prelude.{
  ℕ, ◌^◌, ◌<◌, ◌≡◌, ◌∙◌, refl, sym, ap, Bool, true, false, some, [], ◌∷◌, ◌++◌, ◌==◌, if◌then◌else◌,
  ℤ, arith, append-nil, Bool-cases, inl, inr, ◌⊎◌, length,
}
use pgvictoria.Bytes.{Bytes, is_digit, is_alpha, to_lower}
use pgvictoria.Configuration.Numbers.Digits.{AllDigit, decimal}
use pgvictoria.Configuration.Units.Scanning.{
  PushesDigits, scan_cons, scan_digits, not_blank, scaled, finish_number, alpha_no_digit,
  finish_one, Steps, push_digit_keeps, Accepted, finish-scan-Accepted,
}
use pgvictoria.Configuration.Units.{
  Outcome, returns, misc_length, is_empty_string, Scan, start, Round, next, error, byte_unit,
  byte_round, scan, finish, as_bytes,
}

byte_round-PushesDigits : PushesDigits byte_round
unfolding byte_round
byte_round-PushesDigits st c h = rw h

-- The number of bytes that a letter stands for, in either case; 1 if it is no unit.
unfoldable pub bytes_in : ℕ → ℕ
bytes_in u =
    let l = to_lower u in
    if l == b'k' then 2 ^ 10 else if l == b'm' then 2 ^ 20 else if l == b'g' then 2 ^ 30 else 1

-- Whether a letter is a unit.
unfoldable pub is_byte_unit : ℕ → Bool
is_byte_unit u =
    let l = to_lower u in
    if l == b'k' then true else if l == b'm' then true else if l == b'g' then true else l == b'b'

byte_round_letter :
    (v : Bytes) (u : ℕ)
    → is_alpha u ≡ true
    → byte_round (record { value = v; multiplier = 1; multiplier_set = false }) u
      ≡ next (record { value = v; multiplier = bytes_in u; multiplier_set = is_byte_unit u })
unfolding byte_round byte_unit bytes_in is_byte_unit to_lower
byte_round_letter v u a = ground (arith, alpha_no_digit u a)

byte_round_second :
    (v : Bytes) (k w : ℕ)
    → is_alpha w ≡ true
    → byte_round (record { value = v; multiplier = k; multiplier_set = true }) w ≡ (
        if k == 1
        then error
        else if to_lower w == b'b'
        then next (record { value = v; multiplier = k; multiplier_set = true })
        else error)
unfolding byte_round to_lower
byte_round_second v k w a = ground (arith, alpha_no_digit w a)

finish_last :
    (st : Scan) (w : ℕ) (default : ℤ)
    → finish (scan byte_round st (w ∷ [])) default ≡ finish (byte_round st w) default
unfolding scan
finish_last st w default = ground arith

finish_cases :
    (p q : Bool) (st : Scan) (default : ℤ)
    → finish (if p then error else if q then next st else error) default
      ≡ (if p then returns 1 default else if q then finish (next st) default else returns 1 default)
unfolding finish
finish_cases true q st default = refl
finish_cases false true st default = refl
finish_cases false false st default = refl

-- A second round of letters, as the end of the function sees it.
finish_two :
    (v : Bytes) (u w : ℕ) (default : ℤ)
    → is_alpha u ≡ true
    → is_alpha w ≡ true
    → is_byte_unit u ≡ true
    → finish
        (scan byte_round
          (record { value = v; multiplier = 1; multiplier_set = false })
          (u ∷ w ∷ []))
        default
      ≡ (if bytes_in u == 1
          then returns 1 default
          else if to_lower w == b'b'
          then finish
              (next (record { value = v; multiplier = bytes_in u; multiplier_set = true }))
              default
          else returns 1 default)
finish_two v u w default a a' k =
    let st : Scan = record { value = v; multiplier = bytes_in u; multiplier_set = true } in
    ap (λ (r : Round). finish r default)
      (scan_cons byte_round _ st u (w ∷ []) (rw k at (byte_round_letter v u a)))
    ∙ finish_last st w default
    ∙ ap (λ (r : Round). finish r default) (byte_round_second v (bytes_in u) w a')
    ∙ finish_cases (bytes_in u == 1) (to_lower w == b'b') st default

module _ (c : ℕ) (ds : Bytes) (h : AllDigit (c ∷ ds)) (room : length (c ∷ ds) < misc_length)
    (small : decimal 0 (c ∷ ds) < 2 ^ 31) (default : ℤ) where
  as_bytes-scan :
      (rest : Bytes)
      → as_bytes (some ((c ∷ ds) ++ rest)) default
        ≡ finish (scan byte_round (record start { value = c ∷ ds }) rest) default
  as_bytes-scan rest =
      unfold as_bytes in
      rw (
        not_blank c (ds ++ rest) h.0,
        scan_digits byte_round start (c ∷ ds) rest byte_round-PushesDigits h (omega arith),
      )

  -- A number alone is read as it stands; with one letter behind it, it is multiplied by the bytes in
  -- that unit, and by 1 if the letter is no unit. The product must be an `int`, or the C code leaves
  -- the language. The number is an `int` that is written with fewer than 128 digits.
  pub as_bytes_unit :
      (u : ℕ)
      → is_alpha u ≡ true
      → (as_bytes (some (c ∷ ds)) default ≡ scaled (decimal 0 (c ∷ ds)) 1)
        × (as_bytes (some ((c ∷ ds) ++ u ∷ [])) default ≡ scaled (decimal 0 (c ∷ ds)) (bytes_in u))
  as_bytes_unit u a =
      ((rw (append-nil ds) at (as_bytes-scan [])) ∙ plain, as_bytes-scan (u ∷ []) ∙ with_unit)
    where
      plain :
          finish (scan byte_round (record start { value = c ∷ ds }) []) default
          ≡ scaled (decimal 0 (c ∷ ds)) 1
      plain = unfold scan in finish_number c ds 1 false default h room small

      with_unit :
          finish (scan byte_round (record start { value = c ∷ ds }) (u ∷ [])) default
          ≡ scaled (decimal 0 (c ∷ ds)) (bytes_in u)
      with_unit =
          finish_one byte_round _ _ u default (byte_round_letter (c ∷ ds) u a)
          ∙ finish_number c ds (bytes_in u) (is_byte_unit u) default h room small

  -- Behind a unit one more letter is accepted only if it is a B, in either case, and the unit was not
  -- bytes itself; it changes nothing. Else the status is 1, with the default.
  as_bytes_two_letters :
      (u w : ℕ)
      → is_alpha u ≡ true
      → is_alpha w ≡ true
      → is_byte_unit u ≡ true
      → as_bytes (some ((c ∷ ds) ++ u ∷ w ∷ [])) default ≡ (
          if bytes_in u == 1
          then returns 1 default
          else if to_lower w == b'b'
          then scaled (decimal 0 (c ∷ ds)) (bytes_in u)
          else returns 1 default)
  as_bytes_two_letters u w a a' k =
      as_bytes-scan (u ∷ w ∷ [])
      ∙ finish_two (c ∷ ds) u w default a a' k
      ∙ ap
          (λ (o : Outcome).
            if bytes_in u == 1
            then returns 1 default
            else if to_lower w == b'b'
            then o
            else returns 1 default)
          (finish_number c ds (bytes_in u) true default h room small)

abbrev pub IsByteFactor : ℕ → Type 0
IsByteFactor k = (k ≡ 1) ⊎ (k ≡ 1024) ⊎ (k ≡ 1048576) ⊎ (k ≡ 1073741824)

byte_unit_keeps :
    (st : Scan) (c : ℕ)
    → ((byte_unit st c).value ≡ st.value)
      × (IsByteFactor st.multiplier → IsByteFactor (byte_unit st c).multiplier)
unfolding byte_unit
byte_unit_keeps st c = (ground arith, λ f. ground arith)

byte_round_other :
    (st : Scan) (c : ℕ) (st' : Scan)
    → is_digit c ≡ false
    → byte_round st c ≡ next st'
    → (is_alpha c ≡ true) × ((byte_unit st c ≡ st') ⊎ (st ≡ st'))
unfolding byte_round
byte_round_other st c st' d h = elim (Bool-cases (is_alpha c)) [
  | inl a ↦ (
    a,
    elim (Bool-cases st.multiplier_set) [ inl m ↦ inr (ground arith) | inr m ↦ inl (ground arith) ],
  )
  | inr a ↦ absurd (ground arith)
]

byte_round-Steps : Steps IsByteFactor byte_round
byte_round-Steps st c st' h = elim (Bool-cases (is_digit c)) [
  | inl d ↦
      let k = push_digit_keeps st c st' (sym (byte_round-PushesDigits st c d) ∙ h) in
      (inl d, rw d k.0, λ f. rw k.1 f)
  | inr d ↦
      let k = byte_round_other st c st' d h in
      let u = byte_unit_keeps st c in
      elim k.1 [
        | inl e ↦ (inr k.0, rw d (rw (← e) u.0), λ f. rw (← e) (u.1 f))
        | inr e ↦ (inr k.0, rw d (rw e), λ f. rw (← e) f)
      ]
]

-- Whatever `as_bytes` accepts, blank texts aside, is made of ASCII letters and digits only, and the
-- result is what `as_int` makes of the digits, all of them in a row wherever the letters stand, times
-- the bytes in one of the units; it is an `int` and not negative.
pub as_bytes_sound :
    (s : Bytes) (default r : ℤ)
    → is_empty_string (some s) ≡ false
    → as_bytes (some s) default ≡ returns 0 r
    → Accepted IsByteFactor s r
as_bytes_sound s default r b h =
    finish-scan-Accepted IsByteFactor byte_round s default r byte_round-Steps (inl refl)
      (unfold as_bytes in rw (b, as_bytes) at h)
