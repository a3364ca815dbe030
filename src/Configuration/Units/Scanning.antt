-- ===== src/Configuration/Units/Scanning.antt =====
-- The loop of `as_seconds` and `as_bytes` over the digits, and the end of either function.
use pgvictoria.Prelude.{
  ℕ, suc, ◌+◌, ◌*◌, ◌^◌, ◌%◌, ◌<◌, ◌≤◌, ◌≡◌, ◌∙◌, refl, sym, ap, subst, Bool, true, false, Option,
  none, some, [], ◌∷◌, ◌++◌, ltb, leb, if◌then◌else◌, ℤ, pos, negsuc, signed, All, arith,
  append-nil, append_assoc, Bool-cases, inl, inr, ◌⊎◌, length, length-append,
}
use pgvictoria.Bytes.{Bytes, is_digit, is_alpha}
use pgvictoria.Configuration.Numbers.{as_int}
use pgvictoria.Configuration.Numbers.Digits.{AllDigit, decimal, as_int-decimal}
use pgvictoria.Configuration.Units.{
  Outcome, returns, undefined, misc_length, is_empty_string, Scan, start, Round, next, error, fault,
  push_digit, scan, finish,
}

abbrev pub PushesDigits : (Scan → ℕ → Round) → Type 0
PushesDigits round = (st : Scan) (c : ℕ) → is_digit c ≡ true → round st c ≡ push_digit st c

pub push_digit_room :
    (st : Scan) (c : ℕ)
    → length st.value < misc_length
    → push_digit st c ≡ next (record st { value = st.value ++ c ∷ [] })
unfolding push_digit
push_digit_room st c h = ground arith

pub scan_cons :
    (round : Scan → ℕ → Round) (st st' : Scan) (c : ℕ) (s : Bytes)
    → round st c ≡ next st'
    → scan round st (c ∷ s) ≡ scan round st' s
unfolding scan
scan_cons round st st' c s h = rw (h, scan)

pub scan_digits :
    (round : Scan → ℕ → Round) (st : Scan) (ds rest : Bytes)
    → PushesDigits round
    → AllDigit ds
    → length st.value + length ds ≤ misc_length
    → scan round st (ds ++ rest) ≡ scan round (record st { value = st.value ++ ds }) rest
scan_digits round st [] rest p h room = rw append-nil
scan_digits round st (c ∷ ds) rest p h room =
    let st' : Scan = record st { value = st.value ++ c ∷ [] } in
    let again =
      scan_digits round st' ds rest p h.1 (omega (arith, length-append {0} st.value (c ∷ []))) in
    scan_cons round st st' c (ds ++ rest) (p st c h.0 ∙ push_digit_room st c (omega arith))
    ∙ again
    ∙ ap (λ (v : Bytes). scan round (record st { value = v }) rest)
        (append_assoc st.value (c ∷ []) ds)

pub not_blank : (c : ℕ) (s : Bytes) → is_digit c ≡ true → is_empty_string (some (c ∷ s)) ≡ false
unfolding is_empty_string is_digit
not_blank c s h = ground arith

-- The number read, in the range of `int`.
as_int_small :
    (c : ℕ) (ds : Bytes)
    → AllDigit (c ∷ ds)
    → decimal 0 (c ∷ ds) < 2 ^ 31
    → as_int (c ∷ ds) ≡ some (pos (decimal 0 (c ∷ ds)))
as_int_small c ds h small = as_int-decimal c ds h ∙ go (decimal 0 (c ∷ ds)) small
  where
    go :
        (n : ℕ)
        → n < 2 ^ 31
        → (if leb (2 ^ 63) n then none else some (signed 32 (n % 2 ^ 32))) ≡ some (pos n)
    go n k = ground arith

-- A number times a factor, if that is an `int`.
abbrev pub scaled : ℕ → ℕ → Outcome
scaled n k = if ltb (n * k) (2 ^ 31) then returns 0 (pos (n * k)) else undefined

pub finish_number :
    (c : ℕ) (ds : Bytes) (k : ℕ) (set : Bool) (default : ℤ)
    → AllDigit (c ∷ ds)
    → length (c ∷ ds) < misc_length
    → decimal 0 (c ∷ ds) < 2 ^ 31
    → finish (next (record { value = c ∷ ds; multiplier = k; multiplier_set = set })) default
      ≡ scaled (decimal 0 (c ∷ ds)) k
unfolding finish
finish_number c ds k set default h room small =
    let e : leb misc_length (suc (length ds)) ≡ false = ground arith in
    rw (e, as_int_small c ds h small)

pub alpha_no_digit : (c : ℕ) → is_alpha c ≡ true → is_digit c ≡ false
unfolding is_alpha is_digit
alpha_no_digit c h = ground arith

-- A scan that reads one character more.
pub finish_one :
    (round : Scan → ℕ → Round) (st st' : Scan) (u : ℕ) (default : ℤ)
    → round st u ≡ next st'
    → finish (scan round st (u ∷ [])) default ≡ finish (next st') default
unfolding scan
finish_one round st st' u default h =
    ap (λ (r : Round). finish r default) (scan_cons round st st' u [] h)

-- The digits of a text.
unfoldable pub only_digits : Bytes → Bytes
only_digits [] = []
only_digits (c ∷ s) = if is_digit c then c ∷ only_digits s else only_digits s

abbrev pub IsAlnum : ℕ → Type 0
IsAlnum c = (is_digit c ≡ true) ⊎ (is_alpha c ≡ true)

-- What a round that goes on has done: it took a digit, or passed over a letter, and its factor is
-- one of those that `F` allows.
abbrev pub Steps : (ℕ → Type 0) → (Scan → ℕ → Round) → Type 0
Steps F round =
    (st : Scan) (c : ℕ) (st' : Scan)
    → round st c ≡ next st'
    → IsAlnum c
      × (st'.value ≡ (if is_digit c then st.value ++ c ∷ [] else st.value))
      × (F st.multiplier → F st'.multiplier)

scan-nil : (round : Scan → ℕ → Round) (st st' : Scan) → scan round st [] ≡ next st' → st ≡ st'
unfolding scan
scan-nil round st st' h = cc

after : Round → (Scan → Round) → Round
after (next st) k = k st
after error k = error
after fault k = fault

scan-cons :
    (round : Scan → ℕ → Round) (st : Scan) (c : ℕ) (s : Bytes)
    → scan round st (c ∷ s) ≡ after (round st c) (λ m. scan round m s)
unfolding scan after
scan-cons round st c s = ground arith

after-next :
    (r : Round) (k : Scan → Round) (st' : Scan)
    → after r k ≡ next st'
    → (m : Scan) × (r ≡ next m) × (k m ≡ next st')
unfolding after
after-next (next m) k st' h = (m, refl, h)
after-next error k st' h = cc
after-next fault k st' h = cc

only_digits-cons :
    (v : Bytes) (c : ℕ) (s : Bytes)
    → (if is_digit c then v ++ c ∷ [] else v) ++ only_digits s ≡ v ++ only_digits (c ∷ s)
unfolding only_digits
only_digits-cons v c s = elim (Bool-cases (is_digit c)) [
  | inl e ↦ rw e (append_assoc v (c ∷ []) (only_digits s))
  | inr e ↦ rw e
]

pub scan-Steps :
    (F : ℕ → Type 0) (round : Scan → ℕ → Round) (st : Scan) (s : Bytes) (st' : Scan)
    → Steps F round
    → scan round st s ≡ next st'
    → All IsAlnum s × (st'.value ≡ st.value ++ only_digits s) × (F st.multiplier → F st'.multiplier)
scan-Steps F round st [] st' p h =
    let e = scan-nil round st st' h in
    (
      tt,
      unfold only_digits in rw append-nil (ap (λ (x : Scan). x.value) (sym e)),
      subst (λ (x : Scan). F x.multiplier) e,
    )
scan-Steps F round st (c ∷ s) st' p h =
    let m = after-next (round st c) (λ m. scan round m s) st' (sym (scan-cons round st c s) ∙ h) in
    let one = p st c m.0 m.1 in
    let more = scan-Steps F round m.0 s st' p m.2 in
    (
      (one.0, more.0),
      more.1 ∙ ap (λ (v : Bytes). v ++ only_digits s) one.1 ∙ only_digits-cons st.value c s,
      λ f. more.2 (one.2 f),
    )

-- A number that the end of the function accepts.
pub finish-returns :
    (st : Scan) (default r : ℤ)
    → finish (next st) default ≡ returns 0 r
    → (n : ℕ) × (as_int st.value ≡ some (pos n))
      × (r ≡ pos (n * st.multiplier))
      × (n * st.multiplier < 2 ^ 31)
unfolding finish
finish-returns st default r h = go (as_int st.value) refl
  where
    go :
        (o : Option ℤ)
        → as_int st.value ≡ o
        → (n : ℕ) × (as_int st.value ≡ some (pos n))
          × (r ≡ pos (n * st.multiplier))
          × (n * st.multiplier < 2 ^ 31)
    go none e = absurd (ground arith)
    go (some (pos n)) e = (n, e, ground arith, ground arith)
    go (some (negsuc n)) e = absurd (ground arith)

-- A text of letters and digits, whose digits `as_int` reads as a number that is not negative, and
-- `r` is that number times a factor that `F` allows, within `int`.
abbrev pub Accepted : (ℕ → Type 0) → Bytes → ℤ → Type 0
Accepted F s r =
    All IsAlnum s
    × (n : ℕ) × (k : ℕ) × (as_int (only_digits s) ≡ some (pos n))
    × F k
    × (r ≡ pos (n * k))
    × (n * k < 2 ^ 31)

pub finish-scan-Accepted :
    (F : ℕ → Type 0) (round : Scan → ℕ → Round) (s : Bytes) (default r : ℤ)
    → Steps F round
    → F 1
    → finish (scan round start s) default ≡ returns 0 r
    → Accepted F s r
finish-scan-Accepted F round s default r p one h = go (scan round start s) refl
  where
    go : (t : Round) → scan round start s ≡ t → Accepted F s r
    go error e = absurd (unfold finish in ground arith)
    go fault e = absurd (unfold finish in ground arith)
    go (next st) e =
        let m = scan-Steps F round start s st p e in
        let f = finish-returns st default r (ap (λ (t : Round). finish t default) (sym e) ∙ h) in
        (m.0, f.0, st.multiplier, rw (← m.1) f.1, m.2 one, f.2, f.3)

pub push_digit_keeps :
    (st : Scan) (c : ℕ) (st' : Scan)
    → push_digit st c ≡ next st'
    → (st'.value ≡ st.value ++ c ∷ []) × (st'.multiplier ≡ st.multiplier)
unfolding push_digit
push_digit_keeps st c st' h = (ground arith, ground arith)
