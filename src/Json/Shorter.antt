-- ===== src/Json/Shorter.antt =====
-- How much of a text the readers of texts and keys of json.c leave.
use pgvictoria.Prelude.{
  ℕ, zero, suc, ◌≤◌, ◌<◌, ◌≡◌, refl, Bool, true, false, not, ◌||◌, [], ◌∷◌, ◌==◌, if◌then◌else◌,
  length, arith, Bool-cases, inl, inr,
}
use pgvictoria.Bytes.{Bytes, is_space, drop_while}
use pgvictoria.Utils.Text.{handle_escape_char}
use pgvictoria.Json.{
  Parse, ok, refused, out_of_fuel, ◌>>=◌, given, quoted, nonempty, behind_first, read_key,
}

-- A result that is not for want of rounds, and leaves fewer than `n` characters.
abbrev pub Below : {A : Type 0} → ℕ → Parse (A × Bytes) → Type 0
Below n (ok (a, s)) = length s < n
Below n refused = Unit
Below n out_of_fuel = true ≡ false

pub Below-bind :
    {A B : Type 0} (n k : ℕ) (m : Parse (A × Bytes)) (f : A × Bytes → Parse (B × Bytes))
    → Below n m
    → ((a : A) (s : Bytes) → length s < n → Below k (f (a, s)))
    → Below k (m >>= f)
Below-bind n k (ok (a, s)) f h g = g a s h
Below-bind n k refused f h g = tt
Below-bind n k out_of_fuel f h g = h

pub if-Below :
    {A : Type 0} (k : ℕ) (b : Bool) (m m' : Parse (A × Bytes))
    → (b ≡ true → Below k m)
    → (b ≡ false → Below k m')
    → Below k (if b then m else m')
if-Below k true m m' h h' = h refl
if-Below k false m m' h h' = h' refl

pub nonempty-bind :
    {B : Type 0} (k : ℕ) (s : Bytes) (f : Bytes → Parse (B × Bytes))
    → Below k (f s)
    → Below k (nonempty s >>= f)
nonempty-bind k [] f h = tt
nonempty-bind k (c ∷ s) f h = h

pub behind_first-Below : (s : Bytes) → Below (length s) (behind_first s)
behind_first-Below [] = tt
behind_first-Below (c ∷ s) = omega arith

pub length-drop_while : (p : ℕ → Bool) (s : Bytes) → length (drop_while p s) ≤ length s
unfolding drop_while
length-drop_while p [] = omega arith
length-drop_while p (c ∷ s) = ground (arith, length-drop_while p s)

pub length-drop_while_first :
    (p : ℕ → Bool) (c : ℕ) (s : Bytes) → p c ≡ true → length (drop_while p (c ∷ s)) < suc (length s)
unfolding drop_while
length-drop_while_first p c s h = rw h (omega (arith, length-drop_while p s))

handle_escape_char-Below : (s : Bytes) → Below (length s) (given (handle_escape_char s))
unfolding handle_escape_char
handle_escape_char-Below [] = tt
handle_escape_char-Below (c ∷ s) = elim (Bool-cases (c == b'"' || c == b'\\')) [
  | inl e ↦ rw e (omega arith)
  | inr e ↦ elim (Bool-cases (c == b'n')) [
    | inl f ↦ rw (e, f) (omega arith)
    | inr f ↦ elim (Bool-cases (c == b't')) [
      | inl g ↦ rw (e, f, g) (omega arith)
      | inr g ↦ elim (Bool-cases (c == b'r')) [
        | inl i ↦ rw (e, f, g, i) (omega arith)
        | inr i ↦ rw (e, f, g, i) tt
      ]
    ]
  ]
]

pub quoted-Below : (fuel : ℕ) (s : Bytes) → length s < fuel → Below (suc (length s)) (quoted fuel s)
unfolding quoted
quoted-Below zero s h = absurd (omega arith)
quoted-Below (suc fuel) [] h = tt
quoted-Below (suc fuel) (c ∷ s) h = elim (Bool-cases (c == b'"')) [
  | inl e ↦ rw e (omega arith)
  | inr e ↦ elim (Bool-cases (c == b'\\')) [
    | inl f ↦
        rw (e, f)
          (Below-bind (length s) (suc (suc (length s))) (given (handle_escape_char s)) _
            (handle_escape_char-Below s)
            (λ d r b.
              Below-bind (suc (length r)) (suc (suc (length s))) (quoted fuel r) _
                (quoted-Below fuel r (omega (arith, h, b))) (λ v t b'. omega (arith, b, b'))))
    | inr f ↦
        rw (e, f)
          (Below-bind (suc (length s)) (suc (suc (length s))) (quoted fuel s) _
            (quoted-Below fuel s (omega (arith, h))) (λ v t b'. omega (arith, b')))
  ]
]

pub read_key-Below : (s : Bytes) → Below (length s) (read_key s)
unfolding read_key
read_key-Below s =
    let to_quote = drop_while (λ c. not (c == b'"')) s in
    let start = length-drop_while (λ c. not (c == b'"')) s in
    Below-bind (length to_quote) (length s) (behind_first to_quote) _ (behind_first-Below to_quote)
      (λ q r b.
        Below-bind (suc (length r)) (length s) (quoted (suc (length r)) r) _
          (quoted-Below (suc (length r)) r (omega arith))
          (λ k t b2. nonempty-bind (length s) t _ (
            nonempty-bind (length s) k _ (
              let to_colon = drop_while (λ c. c == b'"' || is_space c) t in
              let colons = length-drop_while (λ c. c == b'"' || is_space c) t in
              Below-bind (length to_colon) (length s) (behind_first to_colon) _
                (behind_first-Below to_colon)
                (λ colon v b3.
                  nonempty-bind (length s) (drop_while (λ c. c == b':' || is_space c) (colon ∷ v)) _
                    (let rest = length-drop_while (λ c. c == b':' || is_space c) (colon ∷ v) in
                      ground (arith, start, b, b2, colons, b3, rest)))))))
