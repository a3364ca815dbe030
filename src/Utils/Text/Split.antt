-- ===== src/Utils/Text/Split.antt =====
-- What `pgvictoria_split` cuts a text into.
use pgvictoria.Prelude.{
  ℕ, zero, suc, ◌+◌, ◌-◌, ◌^◌, ◌<◌, ◌≤◌, ◌≡◌, ◌≢◌, inl, inr, ◌∙◌, refl, ap, sym, subst, true, false,
  Option, none, some, List, [], ◌∷◌, ◌++◌, ◌==◌, leb, length, All, Bool-cases, arith,
}
use pgvictoria.Bytes.{Bytes}
use pgvictoria.Utils.Text.{
  read_token, strtok, counted, count_objects, fill_results, divided, divide, split,
}

-- A text that is not empty and holds no delimiter.
abbrev pub IsToken : ℕ → Bytes → Type 0
IsToken d t = (t ≢ []) × All (λ c. (c == d) ≡ false) t

-- The text is at its end or at a delimiter.
abbrev pub Stops : ℕ → Bytes → Type 0
Stops d [] = Unit
Stops d (c ∷ s) = (c == d) ≡ true

-- The parts of a text between its delimiters: each goes on to the next delimiter, or to the end.
pub data Parts (d : ℕ) : Bytes → List Bytes → Type 0 where
  finish : Parts d [] []
  skip : {c : ℕ} {s : Bytes} {ts : List Bytes} → (c == d) ≡ true → Parts d s ts → Parts d (c ∷ s) ts
  part :
      {t s : Bytes} {ts : List Bytes}
      → IsToken d t
      → Stops d s
      → Parts d s ts
      → Parts d (t ++ s) (t ∷ ts)

cons-ne-nil : (x : ℕ) (t : Bytes) → x ∷ t ≢ []
cons-ne-nil x t e = cc

module _ (d : ℕ) where
  -- Where a token ends, and how the parts of what is left continue.
  abbrev Ends : Bytes → Bytes × Bytes → Type 0
  Ends s (t, r) =
      (u : Bytes) × ((s ≡ t ++ u)
        × All (λ c. (c == d) ≡ false) t
        × Stops d u
        × (length r ≤ length s)
        × ((ts : List Bytes) → Parts d r ts → Parts d u ts))

  read_token_lem : (s : Bytes) → Ends s (read_token d s)
  unfolding read_token
  read_token_lem [] = ([], (refl, tt, tt, omega arith, λ ts p. p))
  read_token_lem (c ∷ s) = elim (Bool-cases (c == d)) [
    | inl e ↦ rw e (c ∷ s, (refl, tt, e, omega arith, λ ts p. skip e p))
    | inr e ↦
        let (u, (q, a, b, l, f)) = read_token_lem s in
        rw e (u, (ap (λ (x : Bytes). c ∷ x) q, (e, a), b, omega (arith, l), f))
  ]

  -- `strtok` finds nothing in a text of delimiters, and the first part of any other.
  abbrev Found : Bytes → Option (Bytes × Bytes) → Type 0
  Found s none = Parts d s []
  Found s (some (t, r)) =
      (length r < length s) × ((ts : List Bytes) → Parts d r ts → Parts d s (t ∷ ts))

  Found-skip :
      (c : ℕ) (s : Bytes) (o : Option (Bytes × Bytes))
      → (c == d) ≡ true
      → Found s o
      → Found (c ∷ s) o
  Found-skip c s none e h = skip e h
  Found-skip c s (some (t, r)) e (l, f) = (omega (arith, l), λ ts p. skip e (f ts p))

  strtok_lem : (s : Bytes) → Found s (strtok d s)
  unfolding strtok
  strtok_lem [] = finish
  strtok_lem (c ∷ s) = elim (Bool-cases (c == d)) [
    | inl e ↦ rw e (Found-skip c s (strtok d s) e (strtok_lem s))
    | inr e ↦
        let (u, (q, a, b, l, f)) = read_token_lem s in
        rw e (
          omega (arith, l),
          λ ts p.
              subst (λ x. Parts d (c ∷ x) ((c ∷ (read_token d s).0) ∷ ts)) (sym q)
                (part (cons-ne-nil c (read_token d s).0, (e, a)) b (f ts p)),
        )
  ]

  -- The two loops agree with the parts of what is left.
  abbrev Cuts : ℕ → Bytes → Option (Bytes × Bytes) → Type 0
  Cuts fuel s token =
      (ts : List Bytes) × (Parts d s ts
        × (length ts ≤ length s)
        × (fill_results (length ts) d token ≡ some ts)
        × ((n : ℕ)
            → n + length s < 2 ^ 31
            → count_objects fuel d token n ≡ counted (n + length ts)))

  no_part : (fuel : ℕ) (s : Bytes) → Parts d s [] → Cuts (suc fuel) s none
  unfolding fill_results count_objects
  no_part fuel s p = ([], (p, omega arith, refl, λ n h. ap counted (omega arith)))

  part_more :
      (fuel : ℕ) (s t r : Bytes)
      → Found s (some (t, r))
      → Cuts fuel r (strtok d r)
      → Cuts (suc fuel) s (some (t, r))
  unfolding fill_results count_objects
  part_more fuel s t r (l, f) (ts, (p, m, filled, count)) = (
    t ∷ ts,
    (
      f ts p,
      omega (arith, l, m),
      rw filled refl,
      λ n h.
          let small : leb (2 ^ 31 - 1) n ≡ false = ground (arith, h, l) in
          rw small (count (n + 1) (omega (arith, h, l)) ∙ ap counted (omega arith)),
    ),
  )

  next_part :
      (fuel : ℕ) (s : Bytes) (o : Option (Bytes × Bytes))
      → length s < suc fuel
      → ((r : Bytes) → length r < fuel → Cuts fuel r (strtok d r))
      → Found s o
      → Cuts (suc fuel) s o
  next_part fuel s none h more p = no_part fuel s p
  next_part fuel s (some (t, r)) h more q = part_more fuel s t r q (more r (omega (arith, h, q.0)))

  cuts : (fuel : ℕ) (s : Bytes) → length s < fuel → Cuts fuel s (strtok d s)
  cuts zero s h = absurd (omega (arith, h))
  cuts (suc fuel) s h = next_part fuel s (strtok d s) h (cuts fuel) (strtok_lem s)

divide-counted :
    (s : Bytes) (d n : ℕ) (ts : List Bytes)
    → n + 1 < 2 ^ 31
    → fill_results n d (strtok d s) ≡ some ts
    → divide s d (counted (0 + n)) ≡ divided ts n
unfolding divide
divide-counted s d n ts h filled =
    let e : 0 + n ≡ n = omega arith in
    let small : leb (2 ^ 31 - 1) n ≡ false = ground (arith, h) in
    subst (λ m. divide s d (counted m) ≡ divided ts n) (sym e) (rw (small, filled) refl)

-- A text below 2^31 - 1 characters is cut, within as many rounds as it has characters and one, into
-- its parts between the delimiters, each of which is not empty, holds no delimiter and goes on to a
-- delimiter or to the end, and the count is their number.
pub split_lem :
    (s : Bytes) (d : ℕ)
    → length s + 1 < 2 ^ 31
    → (ts : List Bytes) × (Parts d s ts × (split s d ≡ divided ts (length ts)))
unfolding split
split_lem [] d h = ([], (finish, refl))
split_lem (c ∷ s) d h =
    let (ts, (p, m, filled, count)) = cuts d (suc (length (c ∷ s))) (c ∷ s) (omega arith) in
    (
      ts,
      (
        p,
        ap (divide (c ∷ s) d) (count 0 (omega (arith, h)))
            ∙ divide-counted (c ∷ s) d (length ts) ts (omega (arith, h, m)) filled,
      ),
    )
