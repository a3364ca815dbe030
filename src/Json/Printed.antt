-- ===== src/Json/Printed.antt =====
-- Texts between quotes, escaped and read again.
use pgvictoria.Prelude.{
  ℕ, zero, suc, ◌^◌, ◌≤◌, ◌<◌, ◌≡◌, refl, false, ◌||◌, some, [], ◌∷◌, ◌++◌, ◌==◌, length,
  length-append, arith, Bool-cases, inl, inr, ==_iff,
}
use pgvictoria.Bytes.{Bytes}
use pgvictoria.Utils.Text.{escaped_length, escape, handle_escape_char}
use pgvictoria.Utils.Text.Escape.{length-escape}
use pgvictoria.Json.{ok, quoted}

escaped_round :
    (fuel x d : ℕ) (t v q : Bytes)
    → handle_escape_char (x ∷ t) ≡ some (d, t)
    → quoted fuel t ≡ ok (v, q)
    → quoted (suc fuel) (b'\\' ∷ x ∷ t) ≡ ok (d ∷ v, q)
unfolding quoted
escaped_round fuel x d t v q h e = rw (h, e) refl

plain_round :
    (fuel c : ℕ) (t v q : Bytes)
    → (c == b'"') ≡ false
    → (c == b'\\') ≡ false
    → quoted fuel t ≡ ok (v, q)
    → quoted (suc fuel) (c ∷ t) ≡ ok (c ∷ v, q)
unfolding quoted
plain_round fuel c t v q h k e = rw (h, k, e) refl

-- A text that is escaped is read back up to its quote.
pub quoted-escape_rounds :
    (s rest : Bytes) (fuel : ℕ)
    → length s < fuel
    → quoted fuel (escape s ++ b'"' ∷ rest) ≡ ok (s, b'"' ∷ rest)
unfolding escape
quoted-escape_rounds [] rest zero h = absurd (omega arith)
quoted-escape_rounds [] rest (suc fuel) h = unfold quoted in refl
quoted-escape_rounds (c ∷ s) rest zero h = absurd (omega arith)
quoted-escape_rounds (c ∷ s) rest (suc fuel) h =
    let more = quoted-escape_rounds s rest fuel (omega arith) in
    let t = escape s ++ b'"' ∷ rest in
    let q = b'"' ∷ rest in
    elim (Bool-cases (c == b'\\' || c == b'"')) [
      | inl e ↦ rw e (escaped_round fuel c c t s q (unfold handle_escape_char in ground arith) more)
      | inr e ↦ elim (Bool-cases (c == b'\n')) [
        | inl f ↦
            rw (e, f, (==_iff c b'\n').0 f)
              (escaped_round fuel b'n' b'\n' t s q (unfold handle_escape_char in refl) more)
        | inr f ↦ elim (Bool-cases (c == b'\t')) [
          | inl g ↦
              rw (e, f, g, (==_iff c b'\t').0 g)
                (escaped_round fuel b't' b'\t' t s q (unfold handle_escape_char in refl) more)
          | inr g ↦ elim (Bool-cases (c == b'\r')) [
            | inl i ↦
                rw (e, f, g, i, (==_iff c b'\r').0 i)
                  (escaped_round fuel b'r' b'\r' t s q (unfold handle_escape_char in refl) more)
            | inr i ↦
                rw (e, f, g, i)
                  (plain_round fuel c t s q (ground (arith, e)) (ground (arith, e)) more)
          ]
        ]
      ]
    ]

pub length-le_escape : (s : Bytes) → length s ≤ length (escape s)
unfolding escape
length-le_escape [] = omega arith
length-le_escape (c ∷ s) = ground (arith, length-le_escape s)

-- For a text whose escaped form is below 2^31 characters, `pgvictoria_escape_string` fills exactly
-- the buffer that it has measured, and the parser of json.c, at what it wrote with a quote and any
-- text behind, reads the text back, stops at that quote, and needs no more rounds than there are
-- characters and one.
pub quoted-escape :
    (s rest : Bytes)
    → escaped_length s < 2 ^ 31
    → (length (escape s) ≡ escaped_length s)
      × (quoted (suc (length (escape s ++ b'"' ∷ rest))) (escape s ++ b'"' ∷ rest)
          ≡ ok (s, b'"' ∷ rest))
quoted-escape s rest h = (
  length-escape s,
  quoted-escape_rounds s rest _
      (omega (arith, length-le_escape s, length-append (escape s) (b'"' ∷ rest))),
)
