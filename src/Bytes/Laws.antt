-- ===== src/Bytes/Laws.antt =====
-- What the string comparisons decide.
use pgvictoria.Prelude.{
  ℕ, true, false, ◌≡◌, ◌≢◌, ◌↔◌, refl, ap₂, [], ◌∷◌, arith, ==_iff, ==_refl, &&_split, Bool-cases,
  inl, inr,
}
use pgvictoria.Bytes.{Bytes, str_eq, str_le, to_lower}

pub str_eq→eq : (a b : Bytes) → str_eq a b ≡ true → a ≡ b
unfolding str_eq
str_eq→eq [] [] h = refl
str_eq→eq [] (y ∷ ys) h = cc
str_eq→eq (x ∷ xs) [] h = cc
str_eq→eq (x ∷ xs) (y ∷ ys) h =
    let p = &&_split _ _ h in ap₂ ◌∷◌ ((==_iff x y).0 p.0) (str_eq→eq xs ys p.1)

pub str_eq_refl : (a : Bytes) → str_eq a a ≡ true
unfolding str_eq
str_eq_refl [] = refl
str_eq_refl (x ∷ xs) = rw (==_refl x, str_eq_refl xs)

pub str_eq_iff : (a b : Bytes) → (str_eq a b ≡ true) ↔ (a ≡ b)
str_eq_iff a b = (str_eq→eq a b, λ e. rw e (str_eq_refl b))

pub str_eq-false : (a b : Bytes) → a ≢ b → str_eq a b ≡ false
str_eq-false a b h = elim (Bool-cases (str_eq a b)) [
  | inl e ↦ absurd (h (str_eq→eq a b e))
  | inr e ↦ e
]

pub to_lower_idem : (c : ℕ) → to_lower (to_lower c) ≡ to_lower c
unfolding to_lower
to_lower_idem c = ground arith

pub str_le_refl : (a : Bytes) → str_le a a ≡ true
unfolding str_le
str_le_refl [] = refl
str_le_refl (x ∷ xs) = ground (arith, str_le_refl xs)

pub str_le_trans : (a b c : Bytes) → str_le a b ≡ true → str_le b c ≡ true → str_le a c ≡ true
unfolding str_le
str_le_trans [] b c p q = refl
str_le_trans (x ∷ a) [] c p q = cc
str_le_trans (x ∷ a) (y ∷ b) [] p q = cc
str_le_trans (x ∷ a) (y ∷ b) (z ∷ c) p q = ground (arith, str_le_trans a b c)

pub str_le_total : (a b : Bytes) → str_le a b ≡ false → str_le b a ≡ true
unfolding str_le
str_le_total [] b p = cc
str_le_total (x ∷ a) [] p = refl
str_le_total (x ∷ a) (y ∷ b) p = ground (arith, str_le_total a b)
