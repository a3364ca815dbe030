-- ===== src/Art/Minimum.antt =====
-- The way of `node_get_minimum` of art.c down to a leaf.
use pgvictoria.Prelude.{
  ℕ, suc, ◌-◌, ◌<◌, ◌≡◌, false, inl, inr, Option, some, ◌==◌, arith, refl, sym, ap, subst, ◌∙◌,
  true≢false,
}
use pgvictoria.Bytes.{Bytes}
use pgvictoria.Value.{Value}
use pgvictoria.Art.{
  NodeType, node4, node16, node48, node256, Node, null, leaf, inner, Inner, to_node, is_null,
  get_child,
}
use pgvictoria.Art.Arrays.{advance, advance_lem}
use pgvictoria.Art.Nodes.{minimum_index, node_get_minimum}
use pgvictoria.Art.Layout.{node_of, Layout, Place-cases, get_child-Place, get_child-no_Place}
use pgvictoria.Art.Holding.{IsTree, Holds, here, IsTree→IsRooted, Holds-child}

null-IsNull : (x : Node) → x ≡ null → is_null x ≡ false → ⊥
unfolding is_null
null-IsNull x e h = true≢false (sym (ap is_null e) ∙ h)

-- The place that is looked up first holds a child of the node.
first-child :
    (t : NodeType) (num len : ℕ) (prefix keys : ℕ → ℕ) (children : ℕ → Node) (c : ℕ)
    → Layout t num keys children
    → c < 256
    → is_null (get_child (node_of t num len prefix keys children) c) ≡ false
    → (d : ℕ) × ((d < 256)
        × (get_child (node_of t num len prefix keys children) d
            ≡ children (minimum_index t keys children))
        × (is_null (children (minimum_index t keys children)) ≡ false))
unfolding minimum_index
first-child node4 num len prefix keys children c l lt h =
    let n = node_of node4 num len prefix keys children in
    elim (Place-cases n c l) [
      | inl (i, p) ↦
          let q : 0 < num = omega (arith, p.0) in
          (keys 0, (l.2 0 q, get_child-Place n (keys 0) l 0 (q, refl), l.3 0 q))
      | inr f ↦ absurd (null-IsNull _ (get_child-no_Place n c l f) h)
    ]
first-child node16 num len prefix keys children c l lt h =
    let n = node_of node16 num len prefix keys children in
    elim (Place-cases n c l) [
      | inl (i, p) ↦
          let q : 0 < num = omega (arith, p.0) in
          (keys 0, (l.2 0 q, get_child-Place n (keys 0) l 0 (q, refl), l.3 0 q))
      | inr f ↦ absurd (null-IsNull _ (get_child-no_Place n c l f) h)
    ]
first-child node48 num len prefix keys children c l lt h =
    let n = node_of node48 num len prefix keys children in
    let (a, b, d, e) = advance_lem 256 (λ i. keys i == 0) 0 in
    let idx = advance 256 (λ i. keys i == 0) 0 in
    elim (Place-cases n c l) [
      | inr f ↦ absurd (null-IsNull _ (get_child-no_Place n c l f) h)
      | inl (i, p) ↦ elim e [
        | inl u ↦ absurd (ground (arith, d c (omega arith) (omega (arith, u, lt)), p))
        | inr (u, v) ↦
            let w : keys idx ≡ suc (keys idx - 1) = ground (arith, v) in
            let q : idx < 256 = omega (arith, u) in
            (idx, (q, get_child-Place n idx l _ w, (l.0 idx q (λ z. omega (arith, w, z))).1))
      ]
    ]
first-child node256 num len prefix keys children c l lt h =
    let n = node_of node256 num len prefix keys children in
    let (a, b, d, e) = advance_lem 256 (λ i. is_null (children i)) 0 in
    let idx = advance 256 (λ i. is_null (children i)) 0 in
    elim e [
      | inl u ↦ absurd (
          true≢false (
            sym (d c (omega arith) (omega (arith, u, lt)))
            ∙ subst (λ x. is_null x ≡ false) (get_child-Place n c l c refl) h))
      | inr (u, v) ↦ (idx, (omega (arith, u), get_child-Place n idx l idx refl, v))
    ]

-- In a tree that is not NULL, `node_get_minimum` comes to a leaf, which is one of the tree.
pub node_get_minimum_lem :
    (n : Node) (depth : ℕ) (path : ℕ → ℕ)
    → IsTree depth path n
    → is_null n ≡ false
    → (key : Bytes) × (value : Option Value) × ((node_get_minimum n ≡ some (key, value))
        × Holds key value n)
unfolding node_get_minimum is_null to_node
node_get_minimum_lem null depth path t h = absurd (true≢false h)
node_get_minimum_lem (leaf key value) depth path t h = (key, value, (refl, here refl))
node_get_minimum_lem (inner hd keys children) depth path t h =
    let n : Inner = record { header = hd; keys = keys; children = children } in
    let (path', (a, b, l, (c, lt, e), f)) = IsTree→IsRooted depth path n t in
    let (d, (ltd, g, set)) = first-child hd.type _ _ _ keys children c l lt e in
    let (key, value, (u, v)) =
      node_get_minimum_lem (children (minimum_index hd.type keys children)) _ _
        (subst (IsTree _ _) g (f d ltd)) set in
    (key, value, (u, Holds-child n d ltd (subst (Holds key value) (sym g) v)))
