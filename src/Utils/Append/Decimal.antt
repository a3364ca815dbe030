-- ===== src/Utils/Append/Decimal.antt =====
-- The decimal numerals: their value, and how long they are.
use native.Mathlib.Nat.{pow-suc}
use pgvictoria.Prelude.{
  All-append, ℕ, zero, suc, ◌+◌, ◌-◌, ◌*◌, ◌/◌, ◌%◌, ◌^◌, ◌≤◌, ◌<◌, ◌≡◌, refl, ap, true, [], ◌∷◌,
  ◌++◌, ltb, length, arith, length-append, Bool-cases, inl, inr, ltb→lt, ltb→le, lt→ltb,
}
use pgvictoria.Bytes.{Bytes, is_digit}
use pgvictoria.Configuration.Numbers.Digits.{AllDigit, decimal}
use pgvictoria.Utils.Append.{numeral_loop, numeral}

-- One digit more.
decimal-snoc :
    (acc : ℕ) (s : Bytes) (d : ℕ) → decimal acc (s ++ d ∷ []) ≡ decimal acc s * 10 + (d - b'0')
unfolding decimal
decimal-snoc acc [] d = refl
decimal-snoc acc (c ∷ s) d = decimal-snoc (acc * 10 + (c - b'0')) s d

-- Fuel that suffices can be changed.
numeral_loop-fuel : (f g n : ℕ) → n < f → n < g → numeral_loop f n ≡ numeral_loop g n
unfolding numeral_loop
numeral_loop-fuel zero g n h k = absurd (omega arith)
numeral_loop-fuel (suc f) zero n h k = absurd (omega arith)
numeral_loop-fuel (suc f) (suc g) n h k = elim (Bool-cases (ltb n 10)) [
  | inl e ↦ rw e
  | inr e ↦
      let big = ltb→le n 10 e in
      rw e (
        ap (λ (s : Bytes). s ++ (b'0' + n % 10) ∷ [])
          (numeral_loop-fuel f g (n / 10) (omega arith) (omega arith)))
]

pub numeral_small : (n : ℕ) → n < 10 → numeral n ≡ (b'0' + n) ∷ []
unfolding numeral
numeral_small n h = rw (lt→ltb n 10 h)

pub numeral_big : (n : ℕ) → 10 ≤ n → numeral n ≡ numeral (n / 10) ++ (b'0' + n % 10) ∷ []
unfolding numeral
numeral_big n h = ground (arith, numeral_loop-fuel n (suc (n / 10)) (n / 10))

-- Induction over the digits.
numeral_induction {ℓ} :
    (P : ℕ → Type ℓ)
    → ((n : ℕ) → n < 10 → P n)
    → ((n : ℕ) → 10 ≤ n → P (n / 10) → P n)
    → (fuel n : ℕ) → n < fuel
    → P n
numeral_induction P base step zero n h = absurd (omega arith)
numeral_induction P base step (suc fuel) n h = elim (Bool-cases (ltb n 10)) [
  | inl e ↦ base n (ltb→lt n 10 e)
  | inr e ↦
      let big = ltb→le n 10 e in
      step n big (numeral_induction P base step fuel (n / 10) (omega arith))
]

pub decimal-numeral : (n : ℕ) → decimal 0 (numeral n) ≡ n
decimal-numeral n =
    numeral_induction (λ m. decimal 0 (numeral m) ≡ m)
      (λ m h. rw (numeral_small m h) (unfold decimal in omega arith))
      (λ m h ih.
        rw (numeral_big m h, decimal-snoc 0 (numeral (m / 10)) (b'0' + m % 10), ih) (omega arith))
      (suc n) n (omega arith)

digit_of : (d : ℕ) → d < 10 → is_digit (b'0' + d) ≡ true
unfolding is_digit
digit_of d h = ground arith

pub numeral-AllDigit : (n : ℕ) → AllDigit (numeral n)
numeral-AllDigit n =
    numeral_induction (λ m. AllDigit (numeral m)) (λ m h. rw (numeral_small m h) (digit_of m h, tt))
      (λ m h ih. rw (numeral_big m h) (
        All-append _ (numeral (m / 10)) ((b'0' + m % 10) ∷ []) ih
          (digit_of (m % 10) (omega arith), tt)))
      (suc n) n (omega arith)

-- A numeral is not empty.
pub numeral-cons : (n : ℕ) → (c : ℕ) × (s : Bytes) × (numeral n ≡ c ∷ s)
numeral-cons n = elim (Bool-cases (ltb n 10)) [
  | inl e ↦ (b'0' + n, [], numeral_small n (ltb→lt n 10 e))
  | inr e ↦ go (numeral (n / 10)) (numeral_big n (ltb→le n 10 e))
]
  where
    go :
        (t : Bytes)
        → numeral n ≡ t ++ (b'0' + n % 10) ∷ []
        → (c : ℕ) × (s : Bytes) × (numeral n ≡ c ∷ s)
    go [] h = (b'0' + n % 10, [], h)
    go (c ∷ t) h = (c, t ++ (b'0' + n % 10) ∷ [], h)

pub ten_pow_pos : (k : ℕ) → 0 < 10 ^ k
ten_pow_pos zero = omega arith
ten_pow_pos (suc k) =
    let q : 10 ^ suc k ≡ 10 ^ k * 10 = pow-suc 10 k in omega (arith, ten_pow_pos k)

-- 10^k is the least number of k + 1 digits.
pub length-numeral :
    (k n : ℕ)
    → (n < 10 ^ suc k → length (numeral n) ≤ suc k) × (10 ^ k ≤ n → suc k ≤ length (numeral n))
length-numeral zero n = (
  λ h. rw (numeral_small n h) (omega arith),
  λ h. let (c, s, e) = numeral-cons n in rw e (omega arith),
)
length-numeral (suc k) n =
    let p : 10 ^ suc (suc k) ≡ 10 ^ suc k * 10 = pow-suc 10 (suc k) in
    let q : 10 ^ suc k ≡ 10 ^ k * 10 = pow-suc 10 k in
    elim (Bool-cases (ltb n 10)) [
      | inl e ↦
          let small = ltb→lt n 10 e in
          (
            λ h. rw (numeral_small n small) (omega arith),
            λ h. absurd (omega (arith, ten_pow_pos k)),
          )
      | inr e ↦
          let big = ltb→le n 10 e in
          let l = length-append (numeral (n / 10)) ((b'0' + n % 10) ∷ []) in
          let ih = length-numeral k (n / 10) in
          (
            λ h. rw (numeral_big n big) (omega (arith, l, ih.0 (omega arith))),
            λ h. rw (numeral_big n big) (omega (arith, l, ih.1 (omega arith))),
          )
    ]
