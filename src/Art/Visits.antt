-- ===== src/Art/Visits.antt =====
-- What `art_node_iterate` of art.c visits.
use pgvictoria.Prelude.{
  ℕ, ◌≡◌, ◌⊎◌, inl, inr, Option, List, [], ◌∷◌, ◌++◌, ◌==◌, if◌then◌else◌, arith, refl, sym, ap,
  subst, ◌∙◌, Bool-cases, fun_ext,
}
use pgvictoria.Bytes.{Bytes}
use pgvictoria.Value.{Value}
use pgvictoria.Art.{Node, null, leaf, inner}
use pgvictoria.Art.Iterate.{places, visit, art_node_iterate}

abbrev pub In : {A : Type 0} → A → List A → Type 0
In a [] = ⊥
In a (x ∷ xs) = (a ≡ x) ⊎ In a xs

module _ {A : Type 0} where
  pub In-left : (a : A) (xs ys : List A) → In a xs → In a (xs ++ ys)
  In-left a [] ys h = absurd h
  In-left a (x ∷ xs) ys (inl e) = inl e
  In-left a (x ∷ xs) ys (inr h) = inr (In-left a xs ys h)

  pub In-right : (a : A) (xs ys : List A) → In a ys → In a (xs ++ ys)
  In-right a [] ys h = h
  In-right a (x ∷ xs) ys h = inr (In-right a xs ys h)

  pub In-append : (a : A) (xs ys : List A) → In a (xs ++ ys) → In a xs ⊎ In a ys
  In-append a [] ys h = inr h
  In-append a (x ∷ xs) ys (inl e) = inl (inl e)
  In-append a (x ∷ xs) ys (inr h) = elim (In-append a xs ys h) [
    | inl u ↦ inl (inr u)
    | inr u ↦ inr u
  ]

  unfoldable pub collect : List ℕ → (ℕ → List A) → List A
  collect [] f = []
  collect (i ∷ is) f = f i ++ collect is f

  pub collect-In :
      (a : A) (is : List ℕ) (f : ℕ → List A)
      → In a (collect is f)
      → (i : ℕ) × (In i is × In a (f i))
  unfolding collect
  collect-In a [] f h = absurd h
  collect-In a (i ∷ is) f h = elim (In-append a (f i) (collect is f) h) [
    | inl u ↦ (i, (inl refl, u))
    | inr u ↦ let (j, (p, q)) = collect-In a is f u in (j, (inr p, q))
  ]

  pub In-collect :
      (a : A) (is : List ℕ) (f : ℕ → List A) (i : ℕ) → In i is → In a (f i) → In a (collect is f)
  unfolding collect
  In-collect a [] f i p h = absurd p
  In-collect a (j ∷ is) f i (inl e) h = In-left a (f j) (collect is f) (subst (λ k. In a (f k)) e h)
  In-collect a (j ∷ is) f i (inr p) h = In-right a (f j) (collect is f) (In-collect a is f i p h)

-- The leaves of a node, from left to right.
unfoldable pub leaves : Node → List (Bytes × Option Value)
unfolding collect
leaves null = []
leaves (leaf key value) = (key, value) ∷ []
leaves (inner h keys children) =
    collect (places h.type h.num_children keys children) (λ i. leaves (children i))

module _ {S : Type 0} where
  abbrev and_on : S × ℕ → (S → S × ℕ) → S × ℕ
  and_on r k = if r.1 == 0 then k r.0 else r

  and_on_assoc :
      (r : S × ℕ) (k l : S → S × ℕ) → and_on (and_on r k) l ≡ and_on r (λ s. and_on (k s) l)
  and_on_assoc r k l = elim (Bool-cases (r.1 == 0)) [ inl e ↦ rw e refl | inr e ↦ rw (e, e) refl ]

  and_on-done : (r : S × ℕ) → and_on r (λ s. (s, 0)) ≡ r
  and_on-done r = elim (Bool-cases (r.1 == 0)) [
    | inl e ↦ let f : 0 ≡ r.1 = ground arith in rw e (ap (λ n. (r.0, n)) f)
    | inr e ↦ rw e refl
  ]

module _ {S : Type 0} (cb : Bytes → Option Value → S → S × ℕ) where
  -- The callback on each pair, up to the first result that is not 0.
  unfoldable pub call_all : List (Bytes × Option Value) → S → S × ℕ
  call_all [] s = (s, 0)
  call_all ((key, value) ∷ rest) s = let more = call_all rest in and_on (cb key value s) more

  call_all-append :
      (xs ys : List (Bytes × Option Value)) (s : S)
      → call_all (xs ++ ys) s ≡ and_on (call_all xs s) (call_all ys)
  unfolding call_all
  call_all-append [] ys s = refl
  call_all-append ((key, value) ∷ xs) ys s =
      ap (λ k. and_on (cb key value s) k) (fun_ext (call_all-append xs ys))
      ∙ sym (and_on_assoc (cb key value s) (call_all xs) (call_all ys))

  visit-call_all :
      (is : List ℕ) (f : ℕ → S → S × ℕ) (g : ℕ → List (Bytes × Option Value)) (s : S)
      → ((i : ℕ) (s : S) → f i s ≡ call_all (g i) s)
      → visit is f s ≡ call_all (collect is g) s
  unfolding visit collect call_all
  visit-call_all [] f g s h = refl
  visit-call_all (i ∷ is) f g s h =
      ap (λ r. and_on r (visit is f)) (h i s)
      ∙ ap (λ k. and_on (call_all (g i) s) k) (fun_ext (λ s'. visit-call_all is f g s' h))
      ∙ sym (call_all-append (g i) (collect is g) s)

  -- Whatever the callback does, iterating over a node calls it on the leaves from left to right, up
  -- to the first call whose result is not 0.
  pub art_node_iterate_lem : (n : Node) (s : S) → art_node_iterate n cb s ≡ call_all (leaves n) s
  unfolding art_node_iterate leaves call_all
  art_node_iterate_lem null s = refl
  art_node_iterate_lem (leaf key value) s = sym (and_on-done (cb key value s))
  art_node_iterate_lem (inner h keys children) s =
      visit-call_all (places h.type h.num_children keys children)
        (λ i. art_node_iterate (children i) cb) (λ i. leaves (children i)) s
        (λ i. art_node_iterate_lem (children i))
