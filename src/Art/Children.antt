-- ===== src/Art/Children.antt =====
-- `node_add_child` of art.c on each of the four layouts.
use pgvictoria.Prelude.{
  ℕ, suc, ◌-◌, ◌<◌, ◌≡◌, ◌≢◌, false, inl, inr, ltb, ◌==◌, arith, refl, sym, ap, subst, ◌∙◌,
  Bool-cases, true≢false,
}
use pgvictoria.Art.{
  NodeType, node4, node16, node48, node256, Node, null, Inner, is_null, get_child, child_slot,
  child_at,
}
use pgvictoria.Art.Arrays.{store-same, store-other}
use pgvictoria.Art.Nodes.{
  node_add_child, node4_add_child, node16_add_child, node48_add_child, node256_add_child, expand4,
  expand16, expand48, create_art_node, copy_header,
}
use pgvictoria.Art.Changes.{Puts, PlaceOf, Expands-Puts}
use pgvictoria.Art.Layout.{node_of, Layout, IsLaidOut, Sorted, Indexed, get_child-Place}
use pgvictoria.Art.Adding.{insert_sorted-node4, insert_sorted-node16}
use pgvictoria.Art.Indexing.{insert_indexed-node48}
use pgvictoria.Art.Expanding.{expand4_lem, expand16_lem, expand48_lem}

null-free : (x y : Node) → x ≡ y → is_null y ≡ false → x ≢ null
unfolding is_null
null-free x y e h z = true≢false (sym (ap is_null (sym e ∙ z)) ∙ h)

-- A byte that leads nowhere has no place, except in a node256.
module _ (num len : ℕ) (prefix keys : ℕ → ℕ) (children : ℕ → Node) (c : ℕ) (key : c < 256) where
  free-node4 :
      Sorted 4 num keys children
      → get_child (node_of node4 num len prefix keys children) c ≡ null
      → (i : ℕ) → PlaceOf (node_of node4 num len prefix keys children) c i
      → ⊥
  free-node4 l e i p =
      null-free _ _ (get_child-Place (node_of node4 num len prefix keys children) c l i p)
        (l.3 i p.0) e

  free-node16 :
      Sorted 16 num keys children
      → get_child (node_of node16 num len prefix keys children) c ≡ null
      → (i : ℕ) → PlaceOf (node_of node16 num len prefix keys children) c i
      → ⊥
  free-node16 l e i p =
      null-free _ _ (get_child-Place (node_of node16 num len prefix keys children) c l i p)
        (l.3 i p.0) e

  free-node48 :
      Indexed num keys children
      → get_child (node_of node48 num len prefix keys children) c ≡ null
      → keys c ≡ 0
  free-node48 l e = elim (Bool-cases (keys c == 0)) [
    | inl f ↦ ground arith
    | inr f ↦
        let g : keys c ≡ suc (keys c - 1) = ground arith in
        absurd (
          null-free _ _
            (get_child-Place (node_of node48 num len prefix keys children) c l (keys c - 1) g)
            ((l.0 c key (λ z. ground (arith, z, f))).1) e)
  ]

-- A node whose type is known is one of the four forms.
module _ (c : ℕ) (x : Node) (key : c < 256) (set : is_null x ≡ false) where
  pub node256_add_child_lem :
      (num len : ℕ) (prefix keys : ℕ → ℕ) (children : ℕ → Node)
      → Puts
          (node_of node256 num len prefix keys children)
          c
          x
          (node256_add_child (node_of node256 num len prefix keys children) c x)
  unfolding node256_add_child get_child child_at child_slot
  node256_add_child_lem num len prefix keys children = (
    tt,
    (refl, λ i p q. refl),
    store-same c x children,
    λ c' lt ne. store-other c c' x children ne,
  )

  node48_add_child_lem :
      (num len : ℕ) (prefix keys : ℕ → ℕ) (children : ℕ → Node)
      → Indexed num keys children
      → get_child (node_of node48 num len prefix keys children) c ≡ null
      → Puts
          (node_of node48 num len prefix keys children)
          c
          x
          (node48_add_child (node_of node48 num len prefix keys children) c x)
  unfolding node48_add_child expand48 create_art_node copy_header
  node48_add_child_lem num len prefix keys children l free = elim (Bool-cases (ltb num 48)) [
    | inl e ↦ rw e (
        insert_indexed-node48 num len prefix keys children c x key set (ground arith) l
          (free-node48 num len prefix keys children c key l free))
    | inr e ↦
        let n = node_of node48 num len prefix keys children in
        let m = expand48 n in
        let put = node256_add_child_lem num len m.header.prefix m.keys m.children in
        rw e (Expands-Puts n m _ c x (expand48_lem num len prefix keys children) put)
  ]

  full16 :
      (len : ℕ) (prefix keys : ℕ → ℕ) (children : ℕ → Node)
      → Sorted 16 16 keys children
      → get_child (node_of node16 16 len prefix keys children) c ≡ null
      → Puts
          (node_of node16 16 len prefix keys children)
          c
          x
          (node48_add_child (expand16 (node_of node16 16 len prefix keys children)) c x)
  unfolding expand16 create_art_node copy_header
  full16 len prefix keys children l free =
      let n = node_of node16 16 len prefix keys children in
      let m = expand16 n in
      let grown = expand16_lem len prefix keys children l in
      let put =
        node48_add_child_lem 16 len m.header.prefix m.keys m.children grown.0
          (grown.2 c key ∙ free) in
      Expands-Puts n m _ c x grown put

  node16_add_child_lem :
      (num len : ℕ) (prefix keys : ℕ → ℕ) (children : ℕ → Node)
      → Sorted 16 num keys children
      → get_child (node_of node16 num len prefix keys children) c ≡ null
      → Puts
          (node_of node16 num len prefix keys children)
          c
          x
          (node16_add_child (node_of node16 num len prefix keys children) c x)
  unfolding node16_add_child
  node16_add_child_lem num len prefix keys children l free = elim (Bool-cases (ltb num 16)) [
    | inl e ↦ rw e (
        insert_sorted-node16 num len prefix keys children c x key set (ground arith) l
          (free-node16 num len prefix keys children c key l free))
    | inr e ↦
        let f : num ≡ 16 = ground (arith, l.0) in
        let full =
          subst
            (λ k.
              Sorted 16 k keys children
              → get_child (node_of node16 k len prefix keys children) c ≡ null
              → Puts (node_of node16 k len prefix keys children) c x
                  (node48_add_child (expand16 (node_of node16 k len prefix keys children)) c x))
            (sym f) (full16 len prefix keys children) l free in
        rw e full
  ]

  node4_add_child_lem :
      (num len : ℕ) (prefix keys : ℕ → ℕ) (children : ℕ → Node)
      → Sorted 4 num keys children
      → get_child (node_of node4 num len prefix keys children) c ≡ null
      → Puts
          (node_of node4 num len prefix keys children)
          c
          x
          (node4_add_child (node_of node4 num len prefix keys children) c x)
  unfolding node4_add_child expand4 create_art_node copy_header
  node4_add_child_lem num len prefix keys children l free = elim (Bool-cases (ltb num 4)) [
    | inl e ↦ rw e (
        insert_sorted-node4 num len prefix keys children c x key set (ground arith) l
          (free-node4 num len prefix keys children c key l free))
    | inr e ↦
        let n = node_of node4 num len prefix keys children in
        let m = expand4 n in
        let grown = expand4_lem num len prefix keys children l in
        let put =
          node16_add_child_lem num len m.header.prefix m.keys m.children grown.0
            (grown.2 c key ∙ free) in
        rw e (Expands-Puts n m _ c x grown put)
  ]

  by_type :
      (t : NodeType) (num len : ℕ) (prefix keys : ℕ → ℕ) (children : ℕ → Node)
      → Layout t num keys children
      → get_child (node_of t num len prefix keys children) c ≡ null
      → Puts
          (node_of t num len prefix keys children)
          c
          x
          (node_add_child (node_of t num len prefix keys children) c x)
  unfolding node_add_child
  by_type node4 num len prefix keys children l free =
      node4_add_child_lem num len prefix keys children l free
  by_type node16 num len prefix keys children l free =
      node16_add_child_lem num len prefix keys children l free
  by_type node48 num len prefix keys children l free =
      node48_add_child_lem num len prefix keys children l free
  by_type node256 num len prefix keys children l free =
      node256_add_child_lem num len prefix keys children

  -- On a node whose arrays are laid out as its type says, and for a byte that leads to no child,
  -- `node_add_child` leaves a node with the same prefix whose arrays are laid out as its own type
  -- says, expanded or not; the byte leads to the new child, which is not NULL, and every other
  -- byte to the child that it led to before.
  pub node_add_child_lem :
      (n : Inner) → IsLaidOut n → get_child n c ≡ null → Puts n c x (node_add_child n c x)
  node_add_child_lem n = by_type _ _ _ _ _ _
