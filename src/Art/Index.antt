-- ===== src/Art/Index.antt =====
-- The binary search of `find_index`, on keys in strictly ascending order.
use pgvictoria.Prelude.{
  ℕ, zero, suc, ◌+◌, ◌-◌, ◌/◌, ◌≤◌, ◌<◌, ◌≡◌, ◌≢◌, ◌⊎◌, Option, none, some, inl, inr, ltb, leb,
  ◌==◌, arith, refl, ap, Bool-cases,
}
use pgvictoria.Art.{narrow, find_loop, pick, find_index}

-- The first `n` keys ascend strictly.
abbrev pub IsSorted : ℕ → (ℕ → ℕ) → Type 0
IsSorted n keys = (i j : ℕ) → i < j → j < n → keys i < keys j

-- `o` is the last of the first `n` positions whose key is at most `ch`, if there is one.
abbrev pub IsLast : ℕ → ℕ → (ℕ → ℕ) → Option ℕ → Type 0
IsLast n ch keys none = (j : ℕ) → j < n → ch < keys j
IsLast n ch keys (some i) = (i < n) × (keys i ≤ ch) × ((j : ℕ) → i < j → j < n → ch < keys j)

-- What holds at the head of the loop.
abbrev Bracket : ℕ → ℕ → (ℕ → ℕ) → ℕ → ℕ → Type 0
Bracket n ch keys left right =
    (left ≤ right)
    × (right < n)
    × ((left ≡ 0) ⊎ (keys left ≤ ch))
    × ((right + 1 ≡ n) ⊎ (ch < keys right))

-- What holds at its end.
abbrev Found : ℕ → ℕ → (ℕ → ℕ) → ℕ ⊎ (ℕ × ℕ) → Type 0
Found n ch keys (inl mid) = (mid < n) × (keys mid ≡ ch)
Found n ch keys (inr (left, right)) = Bracket n ch keys left right × (right ≤ left + 1)

narrow-Bracket :
    (n ch : ℕ) (keys : ℕ → ℕ) (left right : ℕ)
    → Bracket n ch keys left right
    → left + 1 < right
    → keys ((left + right) / 2) ≢ ch
    → Bracket n ch keys (narrow ch keys left right).0 (narrow ch keys left right).1
      × ((narrow ch keys left right).1 + 1 ≤ (narrow ch keys left right).0 + (right - left))
unfolding narrow
narrow-Bracket n ch keys left right (a, b, c, d) h e =
    elim (Bool-cases (ltb (keys ((left + right) / 2)) ch)) [
      | inl f ↦ rw f ((omega arith, b, inr (ground arith), d), omega arith)
      | inr f ↦ rw f ((omega arith, omega arith, c, inr (ground arith)), omega arith)
    ]

find_loop-Found :
    (fuel n ch : ℕ) (keys : ℕ → ℕ) (left right : ℕ)
    → Bracket n ch keys left right
    → right ≤ left + 1 + fuel
    → Found n ch keys (find_loop fuel ch keys left right)
unfolding find_loop
find_loop-Found zero n ch keys left right b e = (b, omega arith)
find_loop-Found (suc fuel) n ch keys left right b e = elim (Bool-cases (ltb (left + 1) right)) [
  | inr f ↦ rw f (b, ground arith)
  | inl f ↦ elim (Bool-cases (keys ((left + right) / 2) == ch)) [
    | inl g ↦ rw (f, g) (ground (arith, b), ground arith)
    | inr g ↦
        let (b', m) = narrow-Bracket n ch keys left right b (ground arith) (λ q. ground arith) in
        rw (f, g) (find_loop-Found fuel n ch keys _ _ b' (omega (arith, m, e, b)))
  ]
]

pub sorted_le :
    {n : ℕ} {keys : ℕ → ℕ} → IsSorted n keys → (i j : ℕ) → i ≤ j → j < n → keys i ≤ keys j
sorted_le {keys} s i j h q = elim (Bool-cases (i == j)) [
  | inl e ↦ let f : i ≡ j = ground arith in omega (arith, ap keys f)
  | inr e ↦ omega (arith, s i j (ground arith) q)
]

pick-IsLast :
    (n ch : ℕ) (keys : ℕ → ℕ) (r : ℕ ⊎ (ℕ × ℕ))
    → IsSorted n keys
    → Found n ch keys r
    → IsLast n ch keys (pick ch keys r)
unfolding pick
pick-IsLast n ch keys (inl mid) s (a, e) =
    (a, omega (arith, e), λ j p q. omega (arith, e, s mid j p q))
pick-IsLast n ch keys (inr (left, right)) s ((a, b, c, d), m) =
    elim (Bool-cases (leb (keys right) ch)) [
      | inl f ↦ rw f (b, ground arith, λ j p q. ground (arith, sorted_le s right j))
      | inr f ↦ elim (Bool-cases (leb (keys left) ch)) [
        | inl g ↦
            rw (f, g) (omega arith, ground arith, λ j p q. ground (arith, sorted_le s right j))
        | inr g ↦ rw (f, g) (λ j p. ground (arith, sorted_le s left j))
      ]
    ]

-- Among the first `n` keys, which ascend strictly, `find_index` finds the last one that is at most
-- `ch`; it returns -1 exactly where each of them is greater.
pub find_index_lem :
    (n ch : ℕ) (keys : ℕ → ℕ) → IsSorted n keys → IsLast n ch keys (find_index ch keys n)
unfolding find_index
find_index_lem n ch keys s = elim (Bool-cases (n == 0)) [
  | inl e ↦ rw e (λ j p. ground arith)
  | inr e ↦ rw e (
      pick-IsLast n ch keys _ s (
        find_loop-Found n n ch keys 0 (n - 1)
          (omega arith, ground arith, inl refl, inl (ground arith)) (omega arith)))
]
