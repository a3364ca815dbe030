-- ===== src/Art/Arrays.antt =====
-- Arrays as functions of the index, with the stores, copies and loops that art.c does on them.
use pgvictoria.Prelude.{
  ℕ, zero, suc, ◌+◌, ◌-◌, ◌≤◌, ◌<◌, ◌≡◌, ◌⊎◌, Bool, true, false, ◌&&◌, inl, inr, ltb, leb, ◌==◌,
  ◌≢◌, if◌then◌else◌, arith, refl, sym, ap, subst, Bool-cases, ==_refl,
}

module _ {ℓ} {A : Type ℓ} where
  -- a[i] = x
  abbrev pub store : ℕ → A → (ℕ → A) → ℕ → A
  store i x a = λ j. if j == i then x else a j

  pub store-same : (i : ℕ) (x : A) (a : ℕ → A) → store i x a i ≡ x
  store-same i x a = rw (==_refl i) refl

  pub store-other : (i j : ℕ) (x : A) (a : ℕ → A) → j ≢ i → store i x a j ≡ a j
  store-other i j x a ne = let e : (j == i) ≡ false = ground (arith, ne) in rw e refl

  -- memcpy(a, b, n)
  abbrev pub memcpy : ℕ → (ℕ → A) → (ℕ → A) → ℕ → A
  memcpy n a b = λ j. if ltb j n then b j else a j

  -- memmove(a + to, a + from, n)
  abbrev pub memmove : ℕ → ℕ → ℕ → (ℕ → A) → ℕ → A
  memmove to from n a = λ j. if leb to j && ltb j (to + n) then a (from + (j - to)) else a j

-- while (test(i)) i++, for at most `fuel` turns
unfoldable pub advance : ℕ → (ℕ → Bool) → ℕ → ℕ
advance zero test i = i
advance (suc fuel) test i = let rest = advance fuel test (suc i) in if test i then rest else i

-- The loop passes only positions that satisfy the test, and stops at one that does not unless it
-- has run out of turns.
pub advance_lem :
    (fuel : ℕ) (test : ℕ → Bool) (i : ℕ)
    → (i ≤ advance fuel test i)
      × (advance fuel test i ≤ i + fuel)
      × ((j : ℕ) → i ≤ j → j < advance fuel test i → test j ≡ true)
      × ((advance fuel test i ≡ i + fuel)
          ⊎ ((advance fuel test i < i + fuel) × (test (advance fuel test i) ≡ false)))
unfolding advance
advance_lem zero test i = (omega arith, omega arith, λ j p q. ground arith, inl (omega arith))
advance_lem (suc fuel) test i = elim (Bool-cases (test i)) [
  | inl e ↦
      let (a, b, c, d) = advance_lem fuel test (suc i) in
      rw e (
        omega (arith, a),
        omega (arith, b),
        λ j p q. elim (Bool-cases (j == i)) [
          | inl f ↦ ground (arith, e)
          | inr f ↦ c j (ground arith) q
        ],
        elim d [ inl f ↦ inl (omega (arith, f)) | inr (u, f) ↦ inr (omega (arith, u), f) ],
      )
  | inr e ↦ rw e (omega arith, omega arith, λ j p q. ground arith, inr (omega arith, e))
]

-- Opening a place at `at` for `x`, in front of `num - at` elements: below it nothing moves, and
-- what follows stands one place further.
module _ {ℓ} {A : Type ℓ} (at num : ℕ) (x : A) (a : ℕ → A) (le : at ≤ num) where
  abbrev pub opened : ℕ → A
  opened = store at x (memmove (at + 1) at (num - at) a)

  pub opened-below : (j : ℕ) → j < at → opened j ≡ a j
  opened-below j h =
      let e : (j == at) ≡ false = ground arith in
      let f : leb (at + 1) j ≡ false = ground arith in rw (e, f) refl

  pub opened-at : opened at ≡ x
  opened-at = rw (==_refl at) refl

  pub opened-above : (j : ℕ) → at ≤ j → j < num → opened (j + 1) ≡ a j
  opened-above j h k =
      let e : (j + 1 == at) ≡ false = ground arith in
      let f : leb (at + 1) (j + 1) ≡ true = ground arith in
      let g : ltb (j + 1) (at + 1 + (num - at)) ≡ true = ground arith in
      let i : at + (j + 1 - (at + 1)) ≡ j = omega arith in rw (e, f, g) (ap a i)

  -- Every place of the longer array is one of the three.
  pub opened-cases :
      (j : ℕ)
      → j < num + 1
      → ((j < at) × (opened j ≡ a j))
        ⊎ ((j ≡ at) × (opened j ≡ x))
        ⊎ ((i : ℕ) × (at ≤ i) × (i < num) × (j ≡ i + 1) × (opened j ≡ a i))
  opened-cases j h = elim (Bool-cases (ltb j at)) [
    | inl e ↦ inl (ground arith, opened-below j (ground arith))
    | inr e ↦ elim (Bool-cases (j == at)) [
      | inl f ↦
          let g : j ≡ at = ground arith in
          inr (inl (g, subst (λ t. opened t ≡ x) (sym g) opened-at))
      | inr f ↦
          let g : j ≡ (j - 1) + 1 = ground arith in
          let u : at ≤ j - 1 = ground arith in
          let v : j - 1 < num = ground arith in
          inr (
            inr (
              j - 1,
              u,
              v,
              g,
              subst (λ t. opened t ≡ a (j - 1)) (sym g) (opened-above (j - 1) u v),
            ))
    ]
  ]
