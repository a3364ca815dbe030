-- ===== src/Utf8/Ranges.antt =====
-- The leading byte's mask tests as ranges, and what one round of a loop accepts.
use pgvictoria.Prelude.{
  false, ℕ, zero, suc, ◌+◌, ◌<◌, Bool, true, ◌&&◌, ◌≡◌, refl, Option, none, some, ◌∷◌, arith, ltb,
  ◌==◌, if◌then◌else◌, ==_iff, length, ◌++◌, ◌≤◌, ◌/◌, ◌%◌, ltb→le, ltb→lt, Bool-cases, inl, inr,
  tests,
}
use pgvictoria.Bytes.{Bytes}
use pgvictoria.Utf8.{
  sequence_length, next_sequence, sequence_valid, first_ok, second_ok, continuation_ok,
}
use pgvictoria.Utf8.Spec.{IsScalar, encode}

-- Do two functions agree on the numbers below a bound?
agree_below : (ℕ → ℕ) → (ℕ → ℕ) → ℕ → Bool
agree_below f g zero = true
agree_below f g (suc bound) = if f bound == g bound then agree_below f g bound else false

agree_below_at :
    (f g : ℕ → ℕ) (bound : ℕ) → agree_below f g bound ≡ true → (b : ℕ) → b < bound → f b ≡ g b
unfolding agree_below
agree_below_at f g zero h b l = absurd (ground arith)
agree_below_at f g (suc bound) h b l = elim (Bool-cases (b == bound)) [
  | inl e ↦ rw ((==_iff b bound).0 e) (ground arith)
  | inr e ↦ agree_below_at f g bound (ground arith) b (ground arith)
]

-- The sequence length by the range of the leading byte; 0 stands for -1.
unfoldable pub by_range : ℕ → ℕ
by_range b =
    if ltb b 0x80
    then 1
    else if ltb b 0xC0
    then 0
    else if ltb b 0xE0
    then 2
    else if ltb b 0xF0
    then 3
    else if ltb b 0xF8
    then 4
    else 0

from_option : Option ℕ → ℕ
from_option none = 0
from_option (some n) = n

length_table : agree_below (λ b. from_option (sequence_length b)) by_range 256 ≡ true
unfolding agree_below by_range from_option sequence_length
length_table = refl

length_by_range : (b : ℕ) → b < 256 → from_option (sequence_length b) ≡ by_range b
length_by_range b h =
    agree_below_at (λ c. from_option (sequence_length c)) by_range 256 length_table b h

length_pos : (b : ℕ) → sequence_length b ≡ some 0 → ⊥
unfolding sequence_length
length_pos b h = ground arith

pub sequence_length_lem :
    (b : ℕ) → b < 256 → sequence_length b ≡ (if by_range b == 0 then none else some (by_range b))
unfolding from_option
sequence_length_lem b h = ground (arith, length_by_range b h, length_pos b)

-- `sequence_valid` with its helpers shut, at the two longer lengths.
pub sequence_valid_three :
    (b0 b1 b2 : ℕ) (rest : Bytes)
    → sequence_valid (b0 ∷ b1 ∷ b2 ∷ rest) 3
      ≡ (continuation_ok b2 && (second_ok b0 b1 && first_ok b0))
unfolding sequence_valid
sequence_valid_three b0 b1 b2 rest = refl

pub sequence_valid_four :
    (b0 b1 b2 b3 : ℕ) (rest : Bytes)
    → sequence_valid (b0 ∷ b1 ∷ b2 ∷ b3 ∷ rest) 4
      ≡ (continuation_ok b3 && (continuation_ok b2 && (second_ok b0 b1 && first_ok b0)))
unfolding sequence_valid
sequence_valid_four b0 b1 b2 b3 rest = refl

module _ (b0 : ℕ) (small : b0 < 256) where
  accept_one : (rest : Bytes) → b0 < 0x80 → next_sequence (b0 ∷ rest) ≡ some 1
  unfolding next_sequence by_range sequence_valid
  accept_one rest h = ground (arith, sequence_length_lem b0 small)

  accept_two :
      (b1 : ℕ) (rest : Bytes)
      → 0xC2 ≤ b0
      → b0 < 0xE0
      → 0x80 ≤ b1
      → b1 ≤ 0xBF
      → next_sequence (b0 ∷ b1 ∷ rest) ≡ some 2
  unfolding next_sequence by_range sequence_valid
  accept_two b1 rest l u m n = ground (arith, sequence_length_lem b0 small)

  accept_three :
      (b1 b2 : ℕ) (rest : Bytes)
      → second_ok b0 b1 ≡ true
      → 0xE0 ≤ b0
      → b0 < 0xF0
      → 0x80 ≤ b2
      → b2 ≤ 0xBF
      → next_sequence (b0 ∷ b1 ∷ b2 ∷ rest) ≡ some 3
  unfolding next_sequence by_range first_ok continuation_ok
  accept_three b1 b2 rest s l u m n =
      ground (arith, sequence_length_lem b0 small, sequence_valid_three b0 b1 b2 rest)

  accept_four :
      (b1 b2 b3 : ℕ) (rest : Bytes)
      → second_ok b0 b1 ≡ true
      → 0xF0 ≤ b0
      → b0 ≤ 0xF4
      → 0x80 ≤ b2
      → b2 ≤ 0xBF
      → 0x80 ≤ b3
      → b3 ≤ 0xBF
      → next_sequence (b0 ∷ b1 ∷ b2 ∷ b3 ∷ rest) ≡ some 4
  unfolding next_sequence by_range first_ok continuation_ok
  accept_four b1 b2 b3 rest s l u m n m' n' =
      ground (arith, sequence_length_lem b0 small, sequence_valid_four b0 b1 b2 b3 rest)

second_three :
    (c : ℕ)
    → IsScalar c
    → 0x800 ≤ c
    → c < 0x10000
    → second_ok (0xE0 + c / 4096) (0x80 + c / 64 % 64) ≡ true
unfolding second_ok
second_three c s l u = ground arith

second_four :
    (c : ℕ) → IsScalar c → 0x10000 ≤ c → second_ok (0xF0 + c / 262144) (0x80 + c / 4096 % 64) ≡ true
unfolding second_ok
second_four c s l = ground arith

four_small : (c : ℕ) → IsScalar c → 0xF0 + c / 262144 ≤ 0xF4
four_small c s = omega arith

-- A round accepts an encoded scalar value, whatever follows.
pub next_sequence-encode :
    (c : ℕ) (rest : Bytes)
    → IsScalar c
    → next_sequence (encode c ++ rest) ≡ some (length (encode c))
unfolding encode
next_sequence-encode c rest s = elim (Bool-cases (ltb c 0x80)) [
  | inl a ↦ rw a (accept_one c (omega (tests)) rest (omega tests))
  | inr a ↦ elim (Bool-cases (ltb c 0x800)) [
    | inl b ↦
        rw (a, b)
          (accept_two (0xC0 + c / 64) (ground arith) (0x80 + c % 64) rest (ground arith)
            (ground arith) (omega arith) (omega arith))
    | inr b ↦ elim (Bool-cases (ltb c 0x10000)) [
      | inl d ↦
          rw (a, b, d)
            (accept_three (0xE0 + c / 4096) (omega tests) (0x80 + c / 64 % 64) (0x80 + c % 64) rest
              (second_three c s (ltb→le _ _ b) (ltb→lt _ _ d)) (omega arith) (omega tests)
              (omega arith) (omega arith))
      | inr d ↦
          rw (a, b, d)
            (accept_four (0xF0 + c / 262144) (omega (arith, four_small c s)) (0x80 + c / 4096 % 64)
              (0x80 + c / 64 % 64) (0x80 + c % 64) rest (second_four c s (ltb→le _ _ d))
              (omega arith) (omega (arith, four_small c s)) (omega arith) (omega arith)
              (omega arith) (omega arith))
    ]
  ]
]
