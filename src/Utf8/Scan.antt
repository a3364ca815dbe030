-- ===== src/Utf8/Scan.antt =====
-- The two scanning loops against the encoder.
use pgvictoria.Prelude.{
  drop-append, ℕ, zero, suc, ◌<◌, ◌≤◌, Bool, true, false, ◌≡◌, ◌↔◌, ◌∙◌, refl, ap, subst, Option,
  some, List, [], ◌∷◌, arith, length, drop, All, ◌++◌, inl, inr, length-append, length-drop,
  Option-cases,
}
use pgvictoria.Bytes.{Bytes}
use pgvictoria.Utf8.{next_sequence, valid_loop, valid}
use pgvictoria.Utf8.Spec.{IsScalar, encode, encode_all}
use pgvictoria.Utf8.Ranges.{next_sequence-encode}
use pgvictoria.Utf8.Decode.{Sequence, next_sequence-Sequence}

-- At least one byte, and the loop goes on behind it.
pub length-encode_pos : (c : ℕ) → 0 < length (encode c)
unfolding encode
length-encode_pos c = ground arith

pub valid_loop_step :
    (fuel n : ℕ) (rest : Bytes)
    → 0 < length rest
    → next_sequence rest ≡ some n
    → valid_loop (suc fuel) rest ≡ valid_loop fuel (drop n rest)
unfolding valid_loop
valid_loop_step fuel n [] h e = absurd (omega arith)
valid_loop_step fuel n (b ∷ rest) h e = rw (e, valid_loop)

-- One round over an encoded scalar value.
valid_loop-encode :
    (c : ℕ) (rest : Bytes) (fuel : ℕ)
    → IsScalar c
    → valid_loop (suc fuel) (encode c ++ rest) ≡ valid_loop fuel rest
valid_loop-encode c rest fuel s =
    valid_loop_step fuel (length (encode c)) (encode c ++ rest)
      (omega (arith, length-append (encode c) rest, length-encode_pos c))
      (next_sequence-encode c rest s)
    ∙ ap (valid_loop fuel) (drop-append (encode c) rest)

valid_loop-encode_all :
    (cs : List ℕ) (fuel : ℕ)
    → All IsScalar cs
    → length (encode_all cs) ≤ fuel
    → valid_loop fuel (encode_all cs) ≡ some true
unfolding encode_all
valid_loop-encode_all [] zero s h = unfold valid_loop in refl
valid_loop-encode_all [] (suc f) s h = unfold valid_loop in refl
valid_loop-encode_all (c ∷ cs) zero s h =
    absurd (omega (arith, length-append (encode c) (encode_all cs), length-encode_pos c))
valid_loop-encode_all (c ∷ cs) (suc f) s h =
    valid_loop-encode c (encode_all cs) f s.0
    ∙ valid_loop-encode_all cs f s.1
        (omega (arith, length-append (encode c) (encode_all cs), length-encode_pos c))

-- The validator accepts every encoded text, and its fuel suffices.
pub valid-encode_all : (cs : List ℕ) → All IsScalar cs → valid (encode_all cs) ≡ some true
unfolding valid
valid-encode_all cs s = valid_loop-encode_all cs (length (encode_all cs)) s (omega arith)

-- What the loop does from a suffix, given enough fuel: it accepts an encoded text, or rejects.
pub data Scanned (rest : Bytes) : Option Bool → Type 0 where
  accepted : (cs : List ℕ) → All IsScalar cs → encode_all cs ≡ rest → Scanned rest (some true)
  rejected : Scanned rest (some false)

Scanned-extend :
    (rest : Bytes) (n : ℕ) {o : Option Bool}
    → Sequence rest n
    → Scanned (drop n rest) o
    → Scanned rest o
Scanned-extend rest n (c, s, e, l) (accepted cs all p) =
    accepted (c ∷ cs) (s, all) (unfold encode_all in rw p e)
Scanned-extend rest n q rejected = rejected

All-drop {ℓ κ} : {A : Type ℓ} (P : A → Type κ) (n : ℕ) (xs : List A) → All P xs → All P (drop n xs)
All-drop P zero xs h = h
All-drop P (suc n) [] h = tt
All-drop P (suc n) (x ∷ xs) h = All-drop P n xs h.1

pub scan-All :
    (fuel : ℕ) (rest : Bytes)
    → All (λ b. b < 256) rest
    → length rest ≤ fuel
    → Scanned rest (valid_loop fuel rest)
scan-All zero [] w h = unfold valid_loop in accepted [] tt (unfold encode_all in refl)
scan-All (suc f) [] w h = unfold valid_loop in accepted [] tt (unfold encode_all in refl)
scan-All zero (b ∷ rest) w h = absurd (omega arith)
scan-All (suc f) (b ∷ rest) w h = elim (Option-cases (next_sequence (b ∷ rest))) [
  | inl e ↦ unfold valid_loop in rw (e, valid_loop) rejected
  | inr e ↦
      let q = next_sequence-Sequence b rest e.0 w.0 e.1 in
      rw (valid_loop_step f e.0 (b ∷ rest) (omega arith) e.1) (
        Scanned-extend (b ∷ rest) e.0 q (
          scan-All f (drop e.0 (b ∷ rest)) (All-drop (λ (x : ℕ). x < 256) e.0 (b ∷ rest) w)
            (omega (arith, length-drop e.0 (b ∷ rest), length-encode_pos q.0, q.3))))
]

pub Scanned-true :
    {rest : Bytes} {o : Option Bool}
    → Scanned rest o
    → o ≡ some true
    → (cs : List ℕ) × All IsScalar cs × (encode_all cs ≡ rest)
Scanned-true (accepted cs all p) e = (cs, all, p)
Scanned-true rejected e = cc

pub Scanned-some : {rest : Bytes} {o : Option Bool} → Scanned rest o → (b : Bool) × (o ≡ some b)
Scanned-some (accepted cs all p) = (true, refl)
Scanned-some rejected = (false, refl)

-- Over a buffer of bytes `pgvictoria_utf8_valid` returns a Boolean: `length` rounds are enough.
pub valid_total : (buf : Bytes) → All (λ b. b < 256) buf → (b : Bool) × (valid buf ≡ some b)
unfolding valid
valid_total buf w = Scanned-some (scan-All (length buf) buf w (omega arith))

-- `pgvictoria_utf8_valid` accepts a buffer of bytes exactly if it is the UTF-8 encoding, as RFC 3629
-- defines it, of some sequence of Unicode scalar values.
pub valid_iff :
    (buf : Bytes)
    → All (λ b. b < 256) buf
    → (valid buf ≡ some true) ↔ ((cs : List ℕ) × All IsScalar cs × (encode_all cs ≡ buf))
unfolding valid
valid_iff buf w = (
  λ e. Scanned-true (scan-All (length buf) buf w (omega arith)) e,
  λ t. subst (λ (b : Bytes). valid b ≡ some true) t.2 (valid-encode_all t.0 t.1),
)
