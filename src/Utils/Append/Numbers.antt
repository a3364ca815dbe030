-- ===== src/Utils/Append/Numbers.antt =====
-- `pgvictoria_append_int` and `pgvictoria_append_ulong`, with `as_int` as the reader.
use native.Mathlib.Nat.{pow-suc}
use pgvictoria.Prelude.{
  ℕ, zero, suc, ◌+◌, ◌-◌, ◌*◌, ◌/◌, ◌%◌, ◌^◌, ◌≤◌, ◌<◌, ◌≡◌, ◌∙◌, refl, sym, ap, subst, Option,
  some, List, [], ◌∷◌, ◌++◌, ltb, if◌then◌else◌, length, take, arith, ℤ, pos, negsuc, Bool-cases,
  inl, inr, ltb→lt, ltb→le,
}
use pgvictoria.Bytes.{Bytes}
use pgvictoria.Configuration.Numbers.{as_int}
use pgvictoria.Configuration.Numbers.Digits.{AllDigit, decimal, as_int-decimal, as_int-minus}
use pgvictoria.Utils.Append.{or_empty, append, numeral, signed_numeral, append_int, append_ulong}
use pgvictoria.Utils.Append.Decimal.{
  numeral_big, decimal-numeral, numeral-AllDigit, numeral-cons, length-numeral, ten_pow_pos,
}

take-all {ℓ} : {A : Type ℓ} (n : ℕ) (s : List A) → length s ≤ n → take n s ≡ s
take-all zero [] h = refl
take-all zero (x ∷ s) h = absurd (omega arith)
take-all (suc n) [] h = refl
take-all (suc n) (x ∷ s) h = ap (λ (r : List _). x ∷ r) (take-all n s (omega arith))

take-exact {ℓ} : {A : Type ℓ} (n : ℕ) (s t : List A) → length s ≡ n → take n (s ++ t) ≡ s
take-exact n [] t h = rw (← h) refl
take-exact n (x ∷ s) t h = rw (← h) (ap (λ (r : List _). x ∷ r) (take-exact (length s) s t refl))

-- Room for k + 1 digits, and a number of at most k + 2.
take-numeral :
    (k n : ℕ)
    → n < 10 ^ suc (suc k)
    → take (suc k) (numeral n) ≡ numeral (if ltb n (10 ^ suc k) then n else n / 10)
take-numeral k n h = elim (Bool-cases (ltb n (10 ^ suc k))) [
  | inl e ↦ rw e (take-all (suc k) (numeral n) ((length-numeral k n).0 (ltb→lt _ _ e)))
  | inr e ↦
      let q : 10 ^ suc k ≡ 10 ^ k * 10 = pow-suc 10 k in
      let p : 10 ^ suc (suc k) ≡ 10 ^ suc k * 10 = pow-suc 10 (suc k) in
      let big : 10 ^ suc k ≤ n = ltb→le _ _ e in
      let l = length-numeral k (n / 10) in
      rw (e, numeral_big n (omega (arith, ten_pow_pos k)))
        (take-exact (suc k) (numeral (n / 10)) ((b'0' + n % 10) ∷ [])
          (omega (arith, l.0 (omega arith), l.1 (omega arith))))
]

append-cons :
    (orig : Option Bytes) (c : ℕ) (s : Bytes)
    → append orig (some (c ∷ s)) ≡ some (or_empty orig ++ c ∷ s)
unfolding append
append-cons orig c s = refl

append-numeral :
    (orig : Option Bytes) (n : ℕ)
    → append orig (some (numeral n)) ≡ some (or_empty orig ++ numeral n)
append-numeral orig n = let (c, s, e) = numeral-cons n in rw e (append-cons orig c s)

-- Nineteen characters are kept: a number of twenty digits loses its last one.
pub append_ulong_lem :
    (orig : Option Bytes) (n : ℕ)
    → n < 2 ^ 64
    → append_ulong orig n ≡ some (or_empty orig ++ numeral (if ltb n (10 ^ 19) then n else n / 10))
append_ulong_lem orig n h =
    unfold append_ulong in
    rw (take-numeral 18 n (omega arith))
      (append-numeral orig (if ltb n (10 ^ 19) then n else n / 10))

as_int-numeral : (n : ℕ) → n < 2 ^ 31 → as_int (numeral n) ≡ some (pos n)
as_int-numeral n h =
    let (c, s, e) = numeral-cons n in
    let d : AllDigit (c ∷ s) = subst AllDigit e (numeral-AllDigit n) in
    let v : decimal 0 (c ∷ s) ≡ n = ap (decimal 0) (sym e) ∙ decimal-numeral n in
    rw e (as_int-decimal c s d ∙ rw v (ground arith))

as_int-minus_numeral : (n : ℕ) → n < 2 ^ 31 → as_int (b'-' ∷ numeral (n + 1)) ≡ some (negsuc n)
as_int-minus_numeral n h =
    let (c, s, e) = numeral-cons (n + 1) in
    let d : AllDigit (c ∷ s) = subst AllDigit e (numeral-AllDigit (n + 1)) in
    let v : decimal 0 (c ∷ s) ≡ n + 1 = ap (decimal 0) (sym e) ∙ decimal-numeral (n + 1) in
    rw e (as_int-minus c s d ∙ rw v (ground arith))

-- What is left of an `int` that is written in ten characters: below -999999999 the last digit is lost.
abbrev pub kept : ℤ → ℤ
kept (pos n) = pos n
kept (negsuc n) = if ltb (n + 1) (10 ^ 9) then negsuc n else negsuc ((n + 1) / 10 - 1)

-- An `int`.
abbrev pub IsInt : ℤ → Type 0
IsInt (pos n) = n < 2 ^ 31
IsInt (negsuc n) = n < 2 ^ 31

-- `pgvictoria_append_int` appends a numeral that `as_int` reads back as the `int` it was given, if
-- that is -999999999 or more; of a smaller one the last digit is lost.
pub append_int-as_int :
    (orig : Option Bytes) (i : ℤ)
    → IsInt i
    → (t : Bytes) × (append_int orig i ≡ some (or_empty orig ++ t)) × (as_int t ≡ some (kept i))
append_int-as_int orig (pos n) h = (
  numeral n,
  unfold append_int signed_numeral in
      rw (take-all 10 (numeral n) ((length-numeral 9 n).0 (omega arith))) (append-numeral orig n),
  as_int-numeral n h,
)
append_int-as_int orig (negsuc n) h = (
  b'-' ∷ numeral (if ltb (n + 1) (10 ^ 9) then n + 1 else (n + 1) / 10),
  unfold append_int signed_numeral in
      rw (take-numeral 8 (n + 1) (omega arith)) (append-cons orig b'-' _),
  elim (Bool-cases (ltb (n + 1) (10 ^ 9))) [
    | inl e ↦ rw e (as_int-minus_numeral n h)
    | inr e ↦
        let big = ltb→le _ _ e in
        let back : (n + 1) / 10 - 1 + 1 ≡ (n + 1) / 10 = omega arith in
        rw (e, ← back)
          (as_int-minus_numeral ((n + 1) / 10 - 1) (omega arith)
            ∙ ap (λ (m : ℕ). some (negsuc m)) (omega arith))
  ],
)
