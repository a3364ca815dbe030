-- ===== src/Art/Inserting.antt =====
-- `art_node_insert` of art.c against what the tree holds.
use pgvictoria.Prelude.{
  ℕ, ◌+◌, ◌-◌, ◌<◌, ◌≡◌, true, false, inl, inr, Option, some, ◌==◌, if◌then◌else◌, arith, refl, sym,
  ap, subst, ◌∙◌, Bool-cases, true≢false,
}
use pgvictoria.Bytes.{Bytes}
use pgvictoria.Value.{Value}
use pgvictoria.Art.{
  NodeType, node4, node16, node48, node256, Node, Inner, to_node, is_null, get_child, child_slot,
}
use pgvictoria.Art.Arrays.{store}
use pgvictoria.Art.Nodes.{count_child, node256_add_child}
use pgvictoria.Art.Layout.{node_of, Layout, IsLaidOut, child_slot→Place}
use pgvictoria.Art.Changes.{Puts}
use pgvictoria.Art.Children.{node256_add_child_lem}
use pgvictoria.Art.Replacing.{replace_lem}
use pgvictoria.Art.Holding.{IsTree, IsRooted, IsRooted→IsTree, Holds, Holds-inner, Holds-child}
use pgvictoria.Art.Splitting.{Gains}

-- A change of the child under one byte that gains a key makes the node gain it.
pub Puts-Gains :
    (n n' : Inner) (depth : ℕ) (path path' : ℕ → ℕ) (c : ℕ) (x : Node) (key : Bytes)
    (value : Option Value)
    → c < 256
    → IsRooted depth path n path'
    → Puts n c x n'
    → Gains
        (depth + n.header.prefix_len + 1)
        (store (depth + n.header.prefix_len) c path')
        key
        value
        (get_child n c)
        x
    → Gains depth path key value (to_node n) (to_node n')
unfolding to_node is_null
Puts-Gains n n' depth path path' c x key value lt r (l', (p, q), e, f) (tx, hx, kx, set) =
    let at = depth + n.header.prefix_len in
    let below : (d : ℕ) → d < 256 → IsTree (at + 1) (store at d path') (get_child n' d) = λ d ltd.
      elim (Bool-cases (d == c)) [
        | inl u ↦
            let v : c ≡ d = ground arith in
            subst (λ k. IsTree (at + 1) (store at k path') (get_child n' k)) v
              (subst (IsTree (at + 1) (store at c path')) (sym e) tx)
        | inr u ↦
            subst (IsTree (at + 1) (store at d path')) (sym (f d ltd (λ z. ground (arith, z, u))))
              (r.4 d ltd)
      ] in
    (
      IsRooted→IsTree depth path n' path' (
        r.0,
        λ i u v. q i u (omega (arith, p, v)) ∙ r.1 i u (omega (arith, p, v)),
        l',
        (c, lt, ap is_null e ∙ set),
        subst
            (λ k.
              (d : ℕ)
              → d < 256
              → IsTree (depth + k + 1) (store (depth + k) d path') (get_child n' d))
            (sym p) below,
      ),
      Holds-child n' c lt (subst (Holds key value) (sym e) hx),
      λ k o nk. (
        λ h.
            let (d, (ltd, h')) = Holds-inner n h in
            elim (Bool-cases (d == c)) [
              | inl u ↦
                  let v : d ≡ c = ground arith in
                  Holds-child n' c lt (
                    subst (Holds k o) (sym e)
                      ((kx k o nk).0 (subst (λ t. Holds k o (get_child n t)) v h')))
              | inr u ↦
                  Holds-child n' d ltd
                    (subst (Holds k o) (sym (f d ltd (λ z. ground (arith, z, u)))) h')
            ],
        λ h.
            let (d, (ltd, h')) = Holds-inner n' h in
            elim (Bool-cases (d == c)) [
              | inl u ↦
                  let v : d ≡ c = ground arith in
                  Holds-child n c lt (
                    (kx k o nk).1
                      (subst (Holds k o) e (subst (λ t. Holds k o (get_child n' t)) v h')))
              | inr u ↦
                  Holds-child n d ltd (subst (Holds k o) (f d ltd (λ z. ground (arith, z, u))) h')
            ],
      ),
      refl,
    )

-- The place that `node_get_child` gave is empty only in a node256.
module _ (c : ℕ) (x : Node) (key : c < 256) (set : is_null x ≡ false) where
  into_empty :
      (t : NodeType) (num len : ℕ) (prefix keys : ℕ → ℕ) (children : ℕ → Node) (i : ℕ)
      → Layout t num keys children
      → child_slot (node_of t num len prefix keys children).header keys c ≡ some i
      → is_null (children i) ≡ true
      → let n = node_of t num len prefix keys children in
        Puts n c x
          (record { header = count_child n.header; keys = keys; children = store i x children })
  unfolding node256_add_child
  into_empty node4 num len prefix keys children i l e h =
      let p = child_slot→Place node4 num len prefix keys children c i l e in
      absurd (true≢false (sym h ∙ l.3 i p.0))
  into_empty node16 num len prefix keys children i l e h =
      let p = child_slot→Place node16 num len prefix keys children c i l e in
      absurd (true≢false (sym h ∙ l.3 i p.0))
  into_empty node48 num len prefix keys children i l e h =
      let p = child_slot→Place node48 num len prefix keys children c i l e in
      let q = (l.0 c key (λ z. omega (arith, p, z))).1 in
      let w : keys c - 1 ≡ i = omega (arith, p) in
      absurd (true≢false (sym h ∙ subst (λ k. is_null (children k) ≡ false) w q))
  into_empty node256 num len prefix keys children i l e h =
      let n = node_of node256 num len prefix keys children in
      let p = child_slot→Place node256 num len prefix keys children c i l e in
      subst
        (λ k.
          Puts n c x
            (record { header = count_child n.header; keys = keys; children = store k x children }))
        p (node256_add_child_lem c x key set num len prefix keys children)

  -- What the recursive call leaves is put under the byte.
  pub place_child :
      (n : Inner) (i : ℕ)
      → IsLaidOut n
      → child_slot n.header n.keys c ≡ some i
      → Puts n c x (record {
        header = if is_null (n.children i) then count_child n.header else n.header;
        keys = n.keys;
        children = store i x n.children;
      })
  place_child n i l e = elim (Bool-cases (is_null (n.children i))) [
    | inl h ↦
        subst
          (λ b. Puts n c x (record {
            header = if b then count_child n.header else n.header;
            keys = n.keys;
            children = store i x n.children;
          }))
          (sym h) (into_empty n.header.type _ _ _ n.keys n.children i l e h)
    | inr h ↦
        subst
          (λ b. Puts n c x (record {
            header = if b then count_child n.header else n.header;
            keys = n.keys;
            children = store i x n.children;
          }))
          (sym h) (replace_lem c x key set n i l h (child_slot→Place _ _ _ _ _ _ c i l e))
  ]
