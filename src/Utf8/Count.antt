-- ===== src/Utf8/Count.antt =====
-- `pgvictoria_utf8_char_length` and `pgvictoria_is_ascii` against the validator.
use pgvictoria.Prelude.{
  drop-append, ℕ, zero, suc, ◌+◌, ◌<◌, ◌≤◌, ◌^◌, ◌%◌, true, false, ◌≡◌, ◌↔◌, ◌∙◌, refl, sym, ap,
  subst, some, List, [], ◌∷◌, arith, ltb, length, drop, All, ◌++◌, inl, inr, length-append,
  Option-cases, Bool-cases, some_inj,
}
use pgvictoria.Bytes.{Bytes}
use pgvictoria.Utf8.{
  next_sequence, is_ascii, valid_loop, valid, char_length_loop, char_length, size_max,
}
use pgvictoria.Utf8.Spec.{IsScalar, encode, encode_all}
use pgvictoria.Utf8.Ranges.{next_sequence-encode}
use pgvictoria.Utf8.Scan.{
  length-encode_pos, valid_loop_step, valid_total, valid_iff, valid-encode_all,
}

char_length_loop_step :
    (fuel n : ℕ) (rest : Bytes) (count : ℕ)
    → 0 < length rest
    → next_sequence rest ≡ some n
    → char_length_loop (suc fuel) rest count
      ≡ char_length_loop fuel (drop n rest) ((count + 1) % 2 ^ 64)
unfolding char_length_loop
char_length_loop_step fuel n [] count h e = absurd (omega arith)
char_length_loop_step fuel n (b ∷ rest) count h e = rw (e, char_length_loop)

char_length_loop-encode :
    (c : ℕ) (rest : Bytes) (fuel count : ℕ)
    → IsScalar c
    → char_length_loop (suc fuel) (encode c ++ rest) count
      ≡ char_length_loop fuel rest ((count + 1) % 2 ^ 64)
char_length_loop-encode c rest fuel count s =
    char_length_loop_step fuel (length (encode c)) (encode c ++ rest) count
      (omega (arith, length-append (encode c) rest, length-encode_pos c))
      (next_sequence-encode c rest s)
    ∙ ap (λ (r : Bytes). char_length_loop fuel r ((count + 1) % 2 ^ 64))
        (drop-append (encode c) rest)

char_length_loop-encode_all :
    (cs : List ℕ) (fuel count : ℕ)
    → All IsScalar cs
    → length (encode_all cs) ≤ fuel
    → count + length (encode_all cs) < 2 ^ 64
    → char_length_loop fuel (encode_all cs) count ≡ some (count + length cs)
unfolding encode_all
char_length_loop-encode_all [] zero count s h b = unfold char_length_loop in ap some (omega arith)
char_length_loop-encode_all [] (suc f) count s h b =
    unfold char_length_loop in ap some (omega arith)
char_length_loop-encode_all (c ∷ cs) zero count s h b =
    absurd (omega (arith, length-append (encode c) (encode_all cs), length-encode_pos c))
char_length_loop-encode_all (c ∷ cs) (suc f) count s h b =
    let room : (count + 1) % 2 ^ 64 ≡ count + 1 =
      omega (arith, length-append (encode c) (encode_all cs), length-encode_pos c) in
    char_length_loop-encode c (encode_all cs) f count s.0
    ∙ rw room (
        char_length_loop-encode_all cs f (count + 1) s.1
          (omega (arith, length-append (encode c) (encode_all cs), length-encode_pos c))
          (omega (arith, length-append (encode c) (encode_all cs), length-encode_pos c))
        ∙ ap some (omega arith))

-- On the encoding of scalar values, if it fits a `size_t`, `pgvictoria_utf8_char_length` returns
-- their number.
pub char_length-encode_all :
    (cs : List ℕ)
    → All IsScalar cs
    → length (encode_all cs) < 2 ^ 64
    → char_length (encode_all cs) ≡ some (length cs)
unfolding char_length
char_length-encode_all cs s b =
    char_length_loop-encode_all cs (length (encode_all cs)) 0 s (omega arith) (omega arith)
    ∙ ap some (omega arith)

-- The counting loop fails in the round in which the validating loop fails.
char_length_loop-invalid :
    (fuel : ℕ) (rest : Bytes) (count : ℕ)
    → valid_loop fuel rest ≡ some false
    → char_length_loop fuel rest count ≡ some size_max
char_length_loop-invalid zero [] count e = unfold valid_loop in cc
char_length_loop-invalid (suc f) [] count e = unfold valid_loop in cc
char_length_loop-invalid zero (b ∷ rest) count e = unfold valid_loop in cc
char_length_loop-invalid (suc f) (b ∷ rest) count e =
    elim (Option-cases (next_sequence (b ∷ rest))) [
      | inl n ↦ unfold char_length_loop in rw (n, char_length_loop)
      | inr n ↦
          char_length_loop_step f n.0 (b ∷ rest) count (omega arith) n.1
          ∙ char_length_loop-invalid f (drop n.0 (b ∷ rest)) ((count + 1) % 2 ^ 64)
              (sym (valid_loop_step f n.0 (b ∷ rest) (omega arith) n.1) ∙ e)
    ]

length-le-encode_all : (cs : List ℕ) → length cs ≤ length (encode_all cs)
unfolding encode_all
length-le-encode_all [] = omega arith
length-le-encode_all (c ∷ cs) =
    omega (
      arith,
      length-append (encode c) (encode_all cs),
      length-encode_pos c,
      length-le-encode_all cs,
    )

-- `pgvictoria_utf8_char_length` returns (size_t)-1 exactly on the buffers that
-- `pgvictoria_utf8_valid` rejects, for buffers of fewer than 2^64 - 1 bytes.
char_length-size_max_iff :
    (buf : Bytes)
    → All (λ b. b < 256) buf
    → length buf < size_max
    → (char_length buf ≡ some size_max) ↔ (valid buf ≡ some false)
char_length-size_max_iff buf w small =
    (forward, unfold valid char_length in char_length_loop-invalid (length buf) buf 0)
  where
    forward : char_length buf ≡ some size_max → valid buf ≡ some false
    forward e = elim (Bool-cases (valid_total buf w).0) [
      | inl b ↦
          let v = (valid_total buf w).1 ∙ ap some b in
          let t = (valid_iff buf w).0 v in
          let n = char_length-encode_all t.0 t.1 (rw t.2 (omega arith)) in
          let same : some (length t.0) ≡ some size_max = sym n ∙ ap char_length t.2 ∙ e in
          let big : length t.0 ≡ size_max = some_inj same in
          absurd (omega (arith, big, length-le-encode_all t.0, ap length t.2))
      | inr b ↦ (valid_total buf w).1 ∙ ap some b
    ]

is_ascii-scalars : (buf : Bytes) → is_ascii buf ≡ true → All IsScalar buf × (encode_all buf ≡ buf)
unfolding is_ascii encode_all encode
is_ascii-scalars [] h = (tt, refl)
is_ascii-scalars (c ∷ buf) h = elim (Bool-cases (ltb 127 c)) [
  | inl e ↦ cc (rw e at h)
  | inr e ↦
      let rest = is_ascii-scalars buf (rw e at h) in
      let small : ltb c 0x80 ≡ true = ground arith in
      ((inl (ground arith), rest.0), rw small (ap (λ (r : Bytes). c ∷ r) rest.1))
]

-- An ASCII buffer whose length fits a `size_t` is valid UTF-8, and each of its bytes is one character.
is_ascii-valid :
    (buf : Bytes)
    → is_ascii buf ≡ true
    → length buf < 2 ^ 64
    → (valid buf ≡ some true) × (char_length buf ≡ some (length buf))
is_ascii-valid buf h small =
    let s = is_ascii-scalars buf h in
    (
      subst (λ (b : Bytes). valid b ≡ some true) s.1 (valid-encode_all buf s.0),
      sym (ap char_length s.1) ∙ char_length-encode_all buf s.0 (rw s.1 small),
    )
