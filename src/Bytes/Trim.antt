-- ===== src/Bytes/Trim.antt =====
-- Trimming a text by a test on bytes.
use pgvictoria.Prelude.{
  All-append, ℕ, ◌≡◌, refl, sym, subst, Bool, true, false, List, [], ◌∷◌, ◌++◌, reverse,
  reverse-append, reverse-reverse, append-nil, All,
}
use pgvictoria.Bytes.{Bytes, drop_while, drop_end}

-- Every byte passes the test, or the first one does not.
abbrev pub AllPass : (ℕ → Bool) → Bytes → Type 0
AllPass p = All (λ c. p c ≡ true)

abbrev pub FirstFails : (ℕ → Bool) → Bytes → Type 0
FirstFails p [] = Unit
FirstFails p (c ∷ s) = p c ≡ false

-- Neither the first byte nor the last one passes the test.
abbrev pub IsTrimmed : (ℕ → Bool) → Bytes → Type 0
IsTrimmed p s = FirstFails p s × FirstFails p (reverse s)

pub All-reverse {ℓ κ} : {A : Type ℓ} (P : A → Type κ) (xs : List A) → All P xs → All P (reverse xs)
All-reverse P [] h = tt
All-reverse P (x ∷ xs) h =
    subst (All P) (sym (reverse-append (x ∷ []) xs))
      (All-append P (reverse xs) (x ∷ []) (All-reverse P xs h.1) (h.0, tt))

module _ (p : ℕ → Bool) where
  pub drop_while-append : (a s : Bytes) → AllPass p a → drop_while p (a ++ s) ≡ drop_while p s
  unfolding drop_while
  drop_while-append [] s h = refl
  drop_while-append (c ∷ a) s h = rw h.0 (drop_while-append a s h.1)

  pub drop_while-id : (s : Bytes) → FirstFails p s → drop_while p s ≡ s
  unfolding drop_while
  drop_while-id [] h = refl
  drop_while-id (c ∷ s) h = rw h

  pub drop_end-append :
      (s q : Bytes) → FirstFails p (reverse s) → AllPass p q → drop_end p (s ++ q) ≡ s
  unfolding drop_end
  drop_end-append s q h k = rw (
    reverse-append,
    drop_while-append (reverse q) (reverse s) (All-reverse _ q k),
    drop_while-id (reverse s) h,
    reverse-reverse,
  )

  pub drop_both :
      (a s q : Bytes)
      → AllPass p a
      → IsTrimmed p s
      → AllPass p q
      → drop_end p (drop_while p (a ++ (s ++ q))) ≡ s
  drop_both a [] q ha hs hq =
      rw (drop_while-append a q ha, ← append-nil q, drop_while-append q [] hq)
        (unfold drop_while drop_end in refl)
  drop_both a (c ∷ s) q ha hs hq =
      rw (drop_while-append a ((c ∷ s) ++ q) ha, drop_while-id ((c ∷ s) ++ q) hs.0)
        (drop_end-append (c ∷ s) q hs.1 hq)
