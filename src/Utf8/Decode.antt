-- ===== src/Utf8/Decode.antt =====
-- One round of a loop against the encoder of one scalar value.
use pgvictoria.Prelude.{
  ℕ, ◌+◌, ◌<◌, ◌≤◌, ◌*◌, ◌-◌, true, ◌≡◌, some, [], ◌∷◌, arith, ltb, length, drop, ◌++◌, ltb→le,
  ltb→lt, Bool-cases, inl, inr,
}
use pgvictoria.Bytes.{Bytes}
use pgvictoria.Utf8.{next_sequence, sequence_valid, first_ok, second_ok, continuation_ok}
use pgvictoria.Utf8.Spec.{IsScalar, encode}
use pgvictoria.Utf8.Ranges.{
  by_range, sequence_length_lem, sequence_valid_three, sequence_valid_four,
}

scalar_one : (c : ℕ) → c < 0x80 → encode c ≡ c ∷ []
unfolding encode
scalar_one c h = ground arith

scalar_two :
    (a b : ℕ)
    → 0xC2 ≤ a
    → a < 0xE0
    → 0x80 ≤ b
    → b ≤ 0xBF
    → encode ((a - 0xC0) * 64 + (b - 0x80)) ≡ a ∷ b ∷ []
unfolding encode
scalar_two a b h1 h2 h3 h4 = ground arith

IsScalar-three :
    (a b c : ℕ)
    → 0xE0 ≤ a
    → a < 0xF0
    → second_ok a b ≡ true
    → 0x80 ≤ c
    → c ≤ 0xBF
    → (encode ((a - 0xE0) * 4096 + (b - 0x80) * 64 + (c - 0x80)) ≡ a ∷ b ∷ c ∷ [])
      × IsScalar ((a - 0xE0) * 4096 + (b - 0x80) * 64 + (c - 0x80))
unfolding encode second_ok
IsScalar-three a b c h1 h2 h3 h4 h5 = ground arith

IsScalar-four :
    (a b c d : ℕ)
    → 0xF0 ≤ a
    → a ≤ 0xF4
    → second_ok a b ≡ true
    → 0x80 ≤ c
    → c ≤ 0xBF
    → 0x80 ≤ d
    → d ≤ 0xBF
    → (encode ((a - 0xF0) * 262144 + (b - 0x80) * 4096 + (c - 0x80) * 64 + (d - 0x80))
        ≡ a ∷ b ∷ c ∷ d ∷ [])
      × IsScalar ((a - 0xF0) * 262144 + (b - 0x80) * 4096 + (c - 0x80) * 64 + (d - 0x80))
unfolding encode second_ok
IsScalar-four a b c d h1 h2 h3 h4 h5 h6 h7 = ground arith

-- The first `n` bytes encode one scalar value.
abbrev pub Sequence : Bytes → ℕ → Type 0
Sequence rest n = (c : ℕ) × IsScalar c × (encode c ++ drop n rest ≡ rest) × (length (encode c) ≡ n)

module _ (b0 : ℕ) (small : b0 < 256) where
  one_byte : (r : Bytes) (n : ℕ) → b0 < 0x80 → next_sequence (b0 ∷ r) ≡ some n → n ≡ 1
  unfolding next_sequence by_range sequence_valid
  one_byte r n h e = ground (arith, sequence_length_lem b0 small)

  no_byte : (r : Bytes) (n : ℕ) → 0x80 ≤ b0 → b0 < 0xC0 → next_sequence (b0 ∷ r) ≡ some n → ⊥
  unfolding next_sequence by_range
  no_byte r n l h e = ground (arith, sequence_length_lem b0 small)

  two_bytes :
      (b1 : ℕ) (r : Bytes) (n : ℕ)
      → 0xC0 ≤ b0
      → b0 < 0xE0
      → next_sequence (b0 ∷ b1 ∷ r) ≡ some n
      → (n ≡ 2) × (0xC2 ≤ b0) × (0x80 ≤ b1) × (b1 ≤ 0xBF)
  unfolding next_sequence by_range sequence_valid
  two_bytes b1 r n l h e = ground (arith, sequence_length_lem b0 small)

  three_bytes :
      (b1 b2 : ℕ) (r : Bytes) (n : ℕ)
      → 0xE0 ≤ b0
      → b0 < 0xF0
      → next_sequence (b0 ∷ b1 ∷ b2 ∷ r) ≡ some n
      → (n ≡ 3) × (second_ok b0 b1 ≡ true) × (0x80 ≤ b2) × (b2 ≤ 0xBF)
  unfolding next_sequence by_range continuation_ok
  three_bytes b1 b2 r n l h e =
      ground (arith, sequence_length_lem b0 small, sequence_valid_three b0 b1 b2 r)

  four_bytes :
      (b1 b2 b3 : ℕ) (r : Bytes) (n : ℕ)
      → 0xF0 ≤ b0
      → next_sequence (b0 ∷ b1 ∷ b2 ∷ b3 ∷ r) ≡ some n
      → (n ≡ 4)
        × (b0 ≤ 0xF4)
        × (second_ok b0 b1 ≡ true)
        × (0x80 ≤ b2)
        × (b2 ≤ 0xBF)
        × (0x80 ≤ b3)
        × (b3 ≤ 0xBF)
  unfolding next_sequence by_range first_ok continuation_ok
  four_bytes b1 b2 b3 r n l e =
      ground (arith, sequence_length_lem b0 small, sequence_valid_four b0 b1 b2 b3 r)

  -- A sequence does not run past the end.
  enough : (r : Bytes) (n : ℕ) → next_sequence (b0 ∷ r) ≡ some n → n ≤ length (b0 ∷ r)
  unfolding next_sequence
  enough r n e = ground arith

  length_two :
      (r : Bytes) (n : ℕ)
      → 0xC0 ≤ b0
      → next_sequence (b0 ∷ r) ≡ some n
      → (2 ≤ n) × (0xE0 ≤ b0 → 3 ≤ n) × (0xF0 ≤ b0 → 4 ≤ n)
  unfolding next_sequence by_range
  length_two r n l e = ground (arith, sequence_length_lem b0 small)

sound_two :
    (b0 : ℕ) (r : Bytes) (n : ℕ)
    → b0 < 256
    → 0xC0 ≤ b0
    → b0 < 0xE0
    → next_sequence (b0 ∷ r) ≡ some n
    → Sequence (b0 ∷ r) n
sound_two b0 [] n s l u e = absurd (omega (arith, enough b0 s [] n e, length_two b0 s [] n l e))
sound_two b0 (b1 ∷ r) n s l u e =
    let f = two_bytes b0 s b1 r n l u e in
    let enc = scalar_two b0 b1 f.1 u f.2 f.3 in
    rw f.0 ((b0 - 0xC0) * 64 + (b1 - 0x80), inl (omega arith), rw enc, rw enc)

sound_three :
    (b0 : ℕ) (r : Bytes) (n : ℕ)
    → b0 < 256
    → 0xE0 ≤ b0
    → b0 < 0xF0
    → next_sequence (b0 ∷ r) ≡ some n
    → Sequence (b0 ∷ r) n
sound_three b0 [] n s l u e =
    absurd (omega (arith, enough b0 s [] n e, (length_two b0 s [] n (omega arith) e).1 l))
sound_three b0 (b1 ∷ []) n s l u e =
    absurd
      (omega (arith, enough b0 s (b1 ∷ []) n e, (length_two b0 s (b1 ∷ []) n (omega arith) e).1 l))
sound_three b0 (b1 ∷ b2 ∷ r) n s l u e =
    let f = three_bytes b0 s b1 b2 r n l u e in
    let enc = IsScalar-three b0 b1 b2 l u f.1 f.2 f.3 in
    rw f.0 ((b0 - 0xE0) * 4096 + (b1 - 0x80) * 64 + (b2 - 0x80), enc.1, rw enc.0, rw enc.0)

sound_four :
    (b0 : ℕ) (r : Bytes) (n : ℕ)
    → b0 < 256
    → 0xF0 ≤ b0
    → next_sequence (b0 ∷ r) ≡ some n
    → Sequence (b0 ∷ r) n
sound_four b0 [] n s l e =
    absurd (omega (arith, enough b0 s [] n e, (length_two b0 s [] n (omega arith) e).2 l))
sound_four b0 (b1 ∷ []) n s l e =
    absurd
      (omega (arith, enough b0 s (b1 ∷ []) n e, (length_two b0 s (b1 ∷ []) n (omega arith) e).2 l))
sound_four b0 (b1 ∷ b2 ∷ []) n s l e = absurd (
    omega (
      arith,
      enough b0 s (b1 ∷ b2 ∷ []) n e,
      (length_two b0 s (b1 ∷ b2 ∷ []) n (omega arith) e).2 l,
    ))
sound_four b0 (b1 ∷ b2 ∷ b3 ∷ r) n s l e =
    let f = four_bytes b0 s b1 b2 b3 r n l e in
    let enc = IsScalar-four b0 b1 b2 b3 l f.1 f.2 f.3 f.4 f.5 f.6 in
    rw f.0 (
      (b0 - 0xF0) * 262144 + (b1 - 0x80) * 4096 + (b2 - 0x80) * 64 + (b3 - 0x80),
      enc.1,
      rw enc.0,
      rw enc.0,
    )

-- A round that goes on stands at an encoded scalar value.
pub next_sequence-Sequence :
    (b0 : ℕ) (r : Bytes) (n : ℕ) → b0 < 256 → next_sequence (b0 ∷ r) ≡ some n → Sequence (b0 ∷ r) n
next_sequence-Sequence b0 r n s e = elim (Bool-cases (ltb b0 0x80)) [
  | inl a ↦
      let one = one_byte b0 s r n (ltb→lt _ _ a) e in
      let enc = scalar_one b0 (ltb→lt _ _ a) in
      rw one (b0, inl (omega (arith, ltb→lt _ _ a)), rw enc, rw enc)
  | inr a ↦ elim (Bool-cases (ltb b0 0xC0)) [
    | inl b ↦ absurd (no_byte b0 s r n (ltb→le _ _ a) (ltb→lt _ _ b) e)
    | inr b ↦ elim (Bool-cases (ltb b0 0xE0)) [
      | inl c ↦ sound_two b0 r n s (ltb→le _ _ b) (ltb→lt _ _ c) e
      | inr c ↦ elim (Bool-cases (ltb b0 0xF0)) [
        | inl d ↦ sound_three b0 r n s (ltb→le _ _ c) (ltb→lt _ _ d) e
        | inr d ↦ sound_four b0 r n s (ltb→le _ _ d) e
      ]
    ]
  ]
]
