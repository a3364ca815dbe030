-- ===== src/Art/Layout.antt =====
-- How the arrays of a node of art.c are laid out, and which child a byte leads to.
use pgvictoria.Prelude.{
  ℕ, zero, suc, ◌+◌, ◌-◌, ◌≤◌, ◌<◌, ◌≡◌, ◌≢◌, ◌⊎◌, false, Option, none, some, inl, inr, ◌==◌,
  if◌then◌else◌, arith, refl, sym, ap, subst, ◌∙◌, Bool-cases, Option-cases, some_inj, ==_refl,
}
use pgvictoria.Art.{
  NodeType, node4, node16, node48, node256, Node, null, Inner, is_null, find_index, exact,
  child_slot, child_at, get_child,
}
use pgvictoria.Art.Index.{IsSorted, IsLast, find_index_lem}

-- A node from its fields.
abbrev pub node_of : NodeType → ℕ → ℕ → (ℕ → ℕ) → (ℕ → ℕ) → (ℕ → Node) → Inner
node_of type num len prefix keys children = record {
  header = record { type = type; num_children = num; prefix_len = len; prefix = prefix };
  keys = keys;
  children = children;
}

-- The number of children among the first `k` places.
unfoldable pub count : ℕ → (ℕ → Node) → ℕ
count zero children = 0
count (suc k) children = (if is_null (children k) then 0 else 1) + count k children

-- Keys in order, beside as many children.
abbrev pub Sorted : ℕ → ℕ → (ℕ → ℕ) → (ℕ → Node) → Type 0
Sorted room num keys children =
    (num ≤ room)
    × IsSorted num keys
    × ((i : ℕ) → i < num → keys i < 256)
    × ((i : ℕ) → i < num → is_null (children i) ≡ false)

-- A table from bytes to places, each used once, and the number of places in use.
abbrev pub Indexed : ℕ → (ℕ → ℕ) → (ℕ → Node) → Type 0
Indexed num keys children =
    ((c : ℕ) → c < 256 → keys c ≢ 0 → (keys c ≤ 48) × (is_null (children (keys c - 1)) ≡ false))
    × ((c d : ℕ) → c < 256 → d < 256 → keys c ≢ 0 → keys c ≡ keys d → c ≡ d)
    × (count 48 children ≡ num)

abbrev pub Layout : NodeType → ℕ → (ℕ → ℕ) → (ℕ → Node) → Type 0
Layout node4 num keys children = Sorted 4 num keys children
Layout node16 num keys children = Sorted 16 num keys children
Layout node48 num keys children = Indexed num keys children
Layout node256 num keys children = Unit

abbrev pub IsLaidOut : Inner → Type 0
IsLaidOut n = Layout n.header.type n.header.num_children n.keys n.children

exact-hit :
    (n ch : ℕ) (keys : ℕ → ℕ) (i : ℕ) (o : Option ℕ)
    → IsSorted n keys
    → IsLast n ch keys o
    → i < n
    → keys i ≡ ch
    → exact ch keys o ≡ some i
unfolding exact
exact-hit n ch keys i none s l p e = ground (arith, l i p)
exact-hit n ch keys i (some j) s (a, b, c) p e =
    let f : i ≡ j = ground (arith, s i j, c i) in
    subst (λ k. exact ch keys (some k) ≡ some i) f (rw (e, ==_refl ch) refl)

-- The place of a key that is there.
slot-hit :
    (n ch : ℕ) (keys : ℕ → ℕ) (i : ℕ)
    → IsSorted n keys
    → i < n
    → keys i ≡ ch
    → exact ch keys (find_index ch keys n) ≡ some i
slot-hit n ch keys i s = exact-hit n ch keys i _ s (find_index_lem n ch keys s)

exact-some :
    (n ch : ℕ) (keys : ℕ → ℕ) (i : ℕ) (o : Option ℕ)
    → IsLast n ch keys o
    → exact ch keys o ≡ some i
    → (i < n) × (keys i ≡ ch)
unfolding exact
exact-some n ch keys i none l e = cc
exact-some n ch keys i (some j) (a, b, c) e = elim (Bool-cases (keys j == ch)) [
  | inl f ↦
      let g : j ≡ i = some_inj (subst (λ t. (if t then some j else none) ≡ some i) f e) in
      subst (λ k. (k < n) × (keys k ≡ ch)) g (a, ground arith)
  | inr f ↦ absurd (let g = subst (λ t. (if t then some j else none) ≡ some i) f e in cc)
]

slot-some :
    (n ch : ℕ) (keys : ℕ → ℕ) (i : ℕ)
    → IsSorted n keys
    → exact ch keys (find_index ch keys n) ≡ some i
    → (i < n) × (keys i ≡ ch)
slot-some n ch keys i s = exact-some n ch keys i _ (find_index_lem n ch keys s)

-- The place of a byte, in the terms of the layout.
abbrev pub Place : NodeType → ℕ → (ℕ → ℕ) → ℕ → ℕ → Type 0
Place node4 num keys c i = (i < num) × (keys i ≡ c)
Place node16 num keys c i = (i < num) × (keys i ≡ c)
Place node48 num keys c i = keys c ≡ suc i
Place node256 num keys c i = c ≡ i

pub child_slot→Place :
    (t : NodeType) (num len : ℕ) (prefix keys : ℕ → ℕ) (children : ℕ → Node) (c i : ℕ)
    → Layout t num keys children
    → child_slot (node_of t num len prefix keys children).header keys c ≡ some i
    → Place t num keys c i
unfolding child_slot
child_slot→Place node4 num len prefix keys children c i l e = slot-some num c keys i l.1 e
child_slot→Place node16 num len prefix keys children c i l e = slot-some num c keys i l.1 e
child_slot→Place node48 num len prefix keys children c i l e = elim (Bool-cases (keys c == 0)) [
  | inl f ↦ absurd (let g = subst (λ t. (if t then none else some (keys c - 1)) ≡ some i) f e in cc)
  | inr f ↦
      let g : keys c - 1 ≡ i =
        some_inj (subst (λ t. (if t then none else some (keys c - 1)) ≡ some i) f e) in
      ground (arith, g)
]
child_slot→Place node256 num len prefix keys children c i l e = some_inj e

pub Place→child_slot :
    (t : NodeType) (num len : ℕ) (prefix keys : ℕ → ℕ) (children : ℕ → Node) (c i : ℕ)
    → Layout t num keys children
    → Place t num keys c i
    → child_slot (node_of t num len prefix keys children).header keys c ≡ some i
unfolding child_slot
Place→child_slot node4 num len prefix keys children c i l (p, e) = slot-hit num c keys i l.1 p e
Place→child_slot node16 num len prefix keys children c i l (p, e) = slot-hit num c keys i l.1 p e
Place→child_slot node48 num len prefix keys children c i l e =
    let z : (keys c == 0) ≡ false = ground (arith, e) in
    let w : keys c - 1 ≡ i = omega (arith, e) in rw z (ap some w)
Place→child_slot node256 num len prefix keys children c i l e = ap some e

module _ (n : Inner) (c : ℕ) where
  pub get_child-some :
      (i : ℕ) → child_slot n.header n.keys c ≡ some i → get_child n c ≡ n.children i
  unfolding get_child child_at
  get_child-some i e = ap (child_at n.children) e

  pub get_child-none : child_slot n.header n.keys c ≡ none → get_child n c ≡ null
  unfolding get_child child_at
  get_child-none e = ap (child_at n.children) e

  -- A byte leads to the child at its place.
  pub get_child-Place :
      IsLaidOut n
      → (i : ℕ) → Place n.header.type n.header.num_children n.keys c i
      → get_child n c ≡ n.children i
  get_child-Place l i p = get_child-some i (Place→child_slot _ _ _ _ _ _ c i l p)

  -- A byte that has no place leads nowhere.
  pub get_child-no_Place :
      IsLaidOut n
      → ((i : ℕ) → Place n.header.type n.header.num_children n.keys c i → ⊥)
      → get_child n c ≡ null
  get_child-no_Place l h = elim (Option-cases (child_slot n.header n.keys c)) [
    | inl e ↦ get_child-none e
    | inr (i, e) ↦ absurd (h i (child_slot→Place _ _ _ _ _ _ c i l e))
  ]

  pub Place-cases :
      IsLaidOut n
      → ((i : ℕ) × Place n.header.type n.header.num_children n.keys c i)
        ⊎ ((i : ℕ) → Place n.header.type n.header.num_children n.keys c i → ⊥)
  Place-cases l = elim (Option-cases (child_slot n.header n.keys c)) [
    | inl e ↦
        inr
          (λ i p. let q = Place→child_slot _ _ _ _ _ _ c i l p in absurd (let r = sym e ∙ q in cc))
    | inr (i, e) ↦ inl (i, child_slot→Place _ _ _ _ _ _ c i l e)
  ]
