-- ===== src/Art/Finding.antt =====
-- The search of art.c against what a tree holds.
use pgvictoria.Prelude.{
  ℕ, ◌+◌, ◌≤◌, ◌<◌, ◌≡◌, Bool, true, false, inl, inr, Option, some, none, ltb, leb, if◌then◌else◌,
  arith, refl, sym, ap, ap₂, subst, ◌∙◌, Bool-cases, Option-cases, length, ==_iff, ==_refl,
  &&_split, some_inj,
}
use pgvictoria.Bytes.{Bytes}
use pgvictoria.Bytes.Laws.{str_eq→eq, str_eq_refl}
use pgvictoria.Value.{Value}
use pgvictoria.Art.{Node, null, leaf, inner, Inner, to_node, child_slot, max_prefix_len}
use pgvictoria.Art.Nodes.{min32}
use pgvictoria.Art.Layout.{get_child-none, get_child-some}
use pgvictoria.Art.Search.{byte, leaf_match, search_from}
use pgvictoria.Art.Holding.{
  IsTree, Holds, here, Holds-null, Holds-leaf, Holds-inner, Holds-child, IsTree-key,
  IsTree→IsRooted, IsRooted-key,
}
use pgvictoria.Art.Prefix.{partial, min32_le}

pub leaf_match_refl : (key : Bytes) → leaf_match key key ≡ true
unfolding leaf_match
leaf_match_refl key = rw (==_refl (length key), str_eq_refl key)

pub leaf_match→eq : (k key : Bytes) → leaf_match k key ≡ true → k ≡ key
unfolding leaf_match
leaf_match→eq k key h = str_eq→eq k key (&&_split _ _ h).1

module _ {A : Type 0} (v : A) where
  on_true :
      (b : Bool) (x : Option A)
      → (elim b as (λ _. Option A) [ false ↦ none | true ↦ x ]) ≡ some v
      → (b ≡ true) × (x ≡ some v)
  on_true true x h = (refl, h)
  on_true false x h = cc

  on_false :
      (b : Bool) (x : Option A)
      → (elim b as (λ _. Option A) [ true ↦ none | false ↦ x ]) ≡ some v
      → (b ≡ false) × (x ≡ some v)
  on_false false x h = (refl, h)
  on_false true x h = cc

  on_some :
      (o : Option ℕ) (f : ℕ → Option A)
      → (elim o as (λ _. Option A) [ none ↦ none | some i ↦ f i ]) ≡ some v
      → (i : ℕ) × ((o ≡ some i) × (f i ≡ some v))
  on_some none f h = cc
  on_some (some i) f h = (i, (refl, h))

found :
    {A : Type 0} (b b' : Bool) (o : Option ℕ) (f : ℕ → Option A) (i : ℕ)
    → b ≡ true
    → b' ≡ false
    → o ≡ some i
    → (elim b as (λ _. Option A) [
      | false ↦ none
      | true ↦ elim b' as (λ _. Option A) [
        | true ↦ none
        | false ↦ elim o as (λ _. Option A) [ none ↦ none | some i ↦ f i ]
      ]
    ])
      ≡ f i
found false b' o f i p q r = cc
found true true o f i p q r = cc
found true false none f i p q r = cc
found true false (some j) f i p q r = ap f (some_inj r)

-- What is found is in the tree, however the tree is formed.
pub search_from-Holds :
    (n : Node) (depth : ℕ) (key : Bytes) (v : Value)
    → ((i : ℕ) → byte key i < 256)
    → search_from n depth key ≡ some v
    → Holds key (some v) n
unfolding search_from to_node
search_from-Holds null depth key v b h = cc
search_from-Holds (leaf k o) depth key v b h = elim (Bool-cases (leaf_match k key)) [
  | inl e ↦
      let f = leaf_match→eq k key e in
      let g : o ≡ some v = subst (λ t. (if t then o else none) ≡ some v) e h in here (ap₂ leaf f g)
  | inr e ↦ absurd (let g = subst (λ t. (if t then o else none) ≡ some v) e h in cc)
]
search_from-Holds (inner hd keys children) depth key v b h =
    let n : Inner = record { header = hd; keys = keys; children = children } in
    let at = depth + hd.prefix_len in
    let (_, h1) = on_true v _ _ h in
    let (_, h2) = on_false v _ _ h1 in
    let (i, (e, h3)) = on_some v _ (λ i. search_from (children i) (at + 1) key) h2 in
    Holds-child n (byte key at) (b at) (
      subst (Holds key (some v)) (sym (get_child-some n (byte key at) i e))
        (search_from-Holds (children i) (at + 1) key v b h3))

whole :
    (len p : ℕ)
    → len ≤ max_prefix_len
    → len ≤ p
    → (len < max_prefix_len → len < p → ⊥)
    → len ≡ min32 p max_prefix_len
whole len p a b h =
    let (x, y, z) = min32_le p max_prefix_len in
    elim (Bool-cases (ltb len max_prefix_len)) [
      | inl e ↦ elim (Bool-cases (ltb len p)) [
        | inl f ↦ absurd (h (ground arith) (ground arith))
        | inr f ↦ ground (arith, x, y, z)
      ]
      | inr e ↦ ground (arith, x, y, z)
    ]

-- What a tree holds is found.
pub Holds-search_from :
    (n : Node) (depth : ℕ) (path : ℕ → ℕ) (key : Bytes) (value : Option Value)
    → IsTree depth path n
    → Holds key value n
    → search_from n depth key ≡ value
unfolding search_from to_node
Holds-search_from null depth path key value t h = absurd (Holds-null h refl)
Holds-search_from (leaf k o) depth path key value t h =
    let (e, f) = Holds-leaf h in
    subst (λ k'. (if leaf_match k' key then o else none) ≡ value) e
      (rw (leaf_match_refl key) (sym f))
Holds-search_from (inner hd keys children) depth path key value t h =
    let n : Inner = record { header = hd; keys = keys; children = children } in
    let at = depth + hd.prefix_len in
    let (path', r) = IsTree→IsRooted depth path n t in
    let (c, (lt, h')) = Holds-inner n h in
    let (isk, long, ag, next) = IsRooted-key n depth path path' c r lt h' in
    let (_, le, start) = IsTree-key (to_node n) depth path t h in
    let (a, b, d, same, leaves) =
      partial n depth path path' r key isk le (λ i p. ag i (omega (arith, p))) in
    let e1 =
      (==_iff _ _).1 (whole _ hd.prefix_len a b (λ p q. leaves p q (ag _ (omega (arith, q))))) in
    let e2 : leb (length key) at ≡ false = ground (arith, long) in
    elim (Option-cases (child_slot hd keys c)) [
      | inl e ↦ absurd (Holds-null h' (get_child-none n c e))
      | inr (i, e) ↦
          let g = get_child-some n c i e in
          found _ _ _ (λ i. search_from (children i) (at + 1) key) i e1 e2
            (ap (child_slot hd keys) next ∙ e)
          ∙ Holds-search_from (children i) _ _ key value (subst (IsTree _ _) g (r.4 c lt))
              (subst (Holds key value) g h')
    ]
