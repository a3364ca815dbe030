-- ===== src/Art/Adding.antt =====
-- Adding a child to a node of art.c that keeps its keys in order, in a place that is opened for it.
use pgvictoria.Prelude.{
  ℕ, ◌+◌, ◌-◌, ◌%◌, ◌^◌, ◌≤◌, ◌<◌, ◌≡◌, ◌≢◌, false, Option, none, some, inl, inr, ltb, arith, refl,
  sym, ap, subst, ◌∙◌, Bool-cases,
}
use pgvictoria.Art.{NodeType, node4, node16, Node, Inner, is_null, find_index}
use pgvictoria.Art.Arrays.{
  store, memmove, opened, opened-below, opened-at, opened-above, opened-cases,
}
use pgvictoria.Art.Index.{IsSorted, IsLast, find_index_lem, sorted_le}
use pgvictoria.Art.Nodes.{after, insert_sorted, count_child}
use pgvictoria.Art.Changes.{Puts, PlaceOf, get_child-moved}
use pgvictoria.Art.Layout.{node_of, Sorted, get_child-Place}

-- Where a key goes that is not there: behind the smaller ones, in front of the larger ones.
abbrev Splits : ℕ → ℕ → (ℕ → ℕ) → ℕ → Type 0
Splits at num keys c =
    (at ≤ num) × ((i : ℕ) → i < at → keys i < c) × ((i : ℕ) → at ≤ i → i < num → c < keys i)

after-Splits :
    (num c : ℕ) (keys : ℕ → ℕ) (o : Option ℕ)
    → IsSorted num keys
    → ((i : ℕ) → i < num → keys i ≢ c)
    → IsLast num c keys o
    → Splits (after o) num keys c
unfolding after
after-Splits num c keys none s h l = (omega arith, λ i p. omega arith, λ i p q. l i q)
after-Splits num c keys (some k) s h (a, b, d) =
    (omega arith, λ i p. ground (arith, h i, sorted_le s i k), λ i p q. d i (omega arith) q)

module _ (at num c : ℕ) (x : Node) (keys : ℕ → ℕ) (children : ℕ → Node) (sp : Splits at num keys c)
    (s : IsSorted num keys) where
  abbrev keys' : ℕ → ℕ
  keys' = opened at num c keys sp.0

  abbrev children' : ℕ → Node
  children' = opened at num x children sp.0

  keys'-IsSorted : IsSorted (num + 1) keys'
  keys'-IsSorted i j h k = elim (opened-cases at num c keys sp.0 j k) [
    | inl (a, e) ↦
        omega (arith, e, opened-below at num c keys sp.0 i (omega arith), s i j h (omega arith))
    | inr (inl (a, e)) ↦
        omega (arith, e, opened-below at num c keys sp.0 i (omega arith), sp.1 i (omega arith))
    | inr (inr (j', a, b, g, e)) ↦ elim (opened-cases at num c keys sp.0 i (omega arith)) [
      | inl (u, f) ↦ omega (arith, e, f, s i j' (omega arith) b)
      | inr (inl (u, f)) ↦ omega (arith, e, f, sp.2 j' a b)
      | inr (inr (i', u, v, w, f)) ↦ omega (arith, e, f, s i' j' (omega arith) b)
    ]
  ]

  module _ (key : c < 256) (set : is_null x ≡ false) where
    opened-Sorted :
        (room : ℕ)
        → num < room
        → Sorted room num keys children
        → Sorted room (num + 1) keys' children'
    opened-Sorted room lt (a, b, d, e) = (
      omega arith,
      keys'-IsSorted,
      λ i p. elim (opened-cases at num c keys sp.0 i p) [
        | inl (u, f) ↦ omega (arith, f, d i (omega (arith, sp.0)))
        | inr (inl (u, f)) ↦ omega (arith, f)
        | inr (inr (i', u, v, w, f)) ↦ omega (arith, f, d i' v)
      ],
      λ i p. elim (opened-cases at num x children sp.0 i p) [
        | inl (u, f) ↦ ap is_null f ∙ e i (omega (arith, sp.0))
        | inr (inl (u, f)) ↦ ap is_null f ∙ set
        | inr (inr (i', u, v, w, f)) ↦ ap is_null f ∙ e i' v
      ],
    )

  opened-kept :
      (c' i : ℕ)
      → i < num
      → keys i ≡ c'
      → (i' : ℕ) × ((i' < num + 1) × (keys' i' ≡ c')) × (children' i' ≡ children i)
  opened-kept c' i p e = elim (Bool-cases (ltb i at)) [
    | inl f ↦
        let q : i < at = ground arith in
        (
          i,
          (omega arith, opened-below at num c keys sp.0 i q ∙ e),
          opened-below at num x children sp.0 i q,
        )
    | inr f ↦
        let q : at ≤ i = ground arith in
        (
          i + 1,
          (omega arith, opened-above at num c keys sp.0 i q p ∙ e),
          opened-above at num x children sp.0 i q p,
        )
  ]

  opened-only :
      (c' i' : ℕ) → c' ≢ c → i' < num + 1 → keys' i' ≡ c' → (i : ℕ) × ((i < num) × (keys i ≡ c'))
  opened-only c' i' ne p e = elim (opened-cases at num c keys sp.0 i' p) [
    | inl (u, f) ↦ (i', (omega (arith, sp.0), sym f ∙ e))
    | inr (inl (u, f)) ↦ absurd (ne (sym e ∙ f))
    | inr (inr (i, u, v, w, f)) ↦ (i, (v, sym f ∙ e))
  ]

pub sorted-after :
    (num c : ℕ) (keys : ℕ → ℕ)
    → IsSorted num keys
    → ((i : ℕ) → i < num → keys i ≢ c)
    → Splits (after (find_index c keys num)) num keys c
sorted-after num c keys s h = after-Splits num c keys _ s h (find_index_lem num c keys s)

count_up : (k : ℕ) → k < 48 → (k + 1) % 2 ^ 8 ≡ k + 1
count_up k h = omega arith

-- The branch of the two ordered layouts that has room puts the child under its byte.
module _ (num len : ℕ) (prefix keys : ℕ → ℕ) (children : ℕ → Node) (c : ℕ) (x : Node)
    (key : c < 256) (set : is_null x ≡ false) where
  abbrev result : NodeType → ℕ → Inner
  result t k =
      let at = after (find_index c keys num) in
      node_of t k len prefix (store at c (memmove (at + 1) at (num - at) keys))
        (store at x (memmove (at + 1) at (num - at) children))

  pub insert_sorted-node4 :
      num < 4
      → Sorted 4 num keys children
      → ((i : ℕ) → PlaceOf (node_of node4 num len prefix keys children) c i → ⊥)
      → Puts
          (node_of node4 num len prefix keys children)
          c
          x
          (insert_sorted (node_of node4 num len prefix keys children) c x)
  unfolding insert_sorted count_child
  insert_sorted-node4 lt l free =
      let n = node_of node4 num len prefix keys children in
      let sp = sorted-after num c keys l.1 (λ i p e. free i (p, e)) in
      let l' = opened-Sorted _ num c x keys children sp l.1 key set 4 lt l in
      subst (λ k. Puts n c x (result node4 k)) (sym (count_up num (omega (arith, lt))))
        (
          l',
          (refl, λ i a b. refl),
          get_child-Place (result node4 (num + 1)) c l' _
                (omega (arith, sp.0), opened-at _ num c keys sp.0)
              ∙ opened-at _ num x children sp.0,
          λ c' lt' ne.
              get_child-moved n (result node4 (num + 1)) c' l l'
                (λ i (p, e). opened-kept _ num c x keys children sp l.1 c' i p e)
                (λ i' (p, e). opened-only _ num c x keys children sp l.1 c' i' ne p e),
        )

  pub insert_sorted-node16 :
      num < 16
      → Sorted 16 num keys children
      → ((i : ℕ) → PlaceOf (node_of node16 num len prefix keys children) c i → ⊥)
      → Puts
          (node_of node16 num len prefix keys children)
          c
          x
          (insert_sorted (node_of node16 num len prefix keys children) c x)
  unfolding insert_sorted count_child
  insert_sorted-node16 lt l free =
      let n = node_of node16 num len prefix keys children in
      let sp = sorted-after num c keys l.1 (λ i p e. free i (p, e)) in
      let l' = opened-Sorted _ num c x keys children sp l.1 key set 16 lt l in
      subst (λ k. Puts n c x (result node16 k)) (sym (count_up num (omega (arith, lt))))
        (
          l',
          (refl, λ i a b. refl),
          get_child-Place (result node16 (num + 1)) c l' _
                (omega (arith, sp.0), opened-at _ num c keys sp.0)
              ∙ opened-at _ num x children sp.0,
          λ c' lt' ne.
              get_child-moved n (result node16 (num + 1)) c' l l'
                (λ i (p, e). opened-kept _ num c x keys children sp l.1 c' i p e)
                (λ i' (p, e). opened-only _ num c x keys children sp l.1 c' i' ne p e),
        )
