-- ===== src/Art/Insertion.antt =====
-- The whole of `art_node_insert` of art.c, by recursion on the tree.
use pgvictoria.Prelude.{
  ℕ, ◌+◌, ◌≤◌, ◌<◌, ◌≡◌, true, false, inl, inr, Option, some, none, ltb, arith, refl, sym, subst,
  ◌∙◌, length,
}
use pgvictoria.Bytes.{Bytes}
use pgvictoria.Value.{Value}
use pgvictoria.Art.{Node, null, leaf, inner, Inner, to_node, is_null, get_child, child_slot}
use pgvictoria.Art.Arrays.{store}
use pgvictoria.Art.Nodes.{node_add_child}
use pgvictoria.Art.Layout.{get_child-none, get_child-some}
use pgvictoria.Art.Children.{node_add_child_lem}
use pgvictoria.Art.Search.{byte, check_prefix}
use pgvictoria.Art.Insert.{Inserted, art_node_insert, fresh_node, in_child, set_child, split_node}
use pgvictoria.Art.Holding.{
  IsKey, Agree, Agree-store, IsTree, IsRooted, IsTree→IsRooted, IsRooted-key, Holds, Holds-null,
  Holds-inner, Holds-child,
}
use pgvictoria.Art.Prefix.{check_prefix_lem, IsDiff, goes_on, joined}
use pgvictoria.Art.Splitting.{Gains}
use pgvictoria.Art.Shortening.{split_node_lem}
use pgvictoria.Art.Inserting.{Puts-Gains, place_child}
use pgvictoria.Art.Telling.{Inserts, branches, known, fresh_node-Inserts, null-Gains, at_leaf}

module _ (key : Bytes) (isKey : IsKey key) (v : Value) where
  module _ (n : Inner) (depth : ℕ) (path path' : ℕ → ℕ) (r : IsRooted depth path n path')
      (le : depth ≤ length key) (agree : Agree depth (byte key) path) where
    -- The key is told apart from all that the node holds by a byte of its prefix.
    at_split :
        (diff : ℕ)
        → diff < n.header.prefix_len
        → IsDiff n depth path path' r key isKey diff
        → Inserts depth path key v (to_node n) (fresh_node (split_node n diff depth key (some v)))
    at_split diff lt d =
        let (m, (e, g)) =
          split_node_lem n depth path path' r key isKey le agree (some v) diff lt d in
        subst (λ t. Inserts depth path key v (to_node n) (fresh_node t)) (sym e)
          (fresh_node-Inserts depth path key v (to_node n) m g (λ o h.
            let (c, (ltc, h')) = Holds-inner n h in
            let (isk, long, ag, next) = IsRooted-key n depth path path' c r ltc h' in
            d.1 lt (ag (depth + diff) (omega (arith, lt)))))

    -- What the node holds under the key stands below its next byte.
    below_next :
        (o : Option Value)
        → Holds key o (to_node n)
        → Holds key o (get_child n (byte key (depth + n.header.prefix_len)))
    below_next o h =
        let (c, (ltc, h')) = Holds-inner n h in
        let (isk, long, ag, next) = IsRooted-key n depth path path' c r ltc h' in
        subst (λ t. Holds key o (get_child n t)) (sym next) h'

    follows :
        (diff : ℕ)
        → n.header.prefix_len ≤ diff
        → IsDiff n depth path path' r key isKey diff
        → Agree (depth + n.header.prefix_len) (byte key) path'
    follows diff ge d =
        joined n depth path path' r key isKey le (λ i p. agree i p ∙ sym (r.0 i p))
          n.header.prefix_len (λ j p. d.0 j (omega (arith, p, ge)) p)

    module _ (ag : Agree (depth + n.header.prefix_len) (byte key) path') where
      abbrev next : ℕ
      next = byte key (depth + n.header.prefix_len)

      abbrev path_next : ℕ → ℕ
      path_next = store (depth + n.header.prefix_len) next path'

      le_next : depth + n.header.prefix_len + 1 ≤ length key
      le_next = omega (arith, goes_on n depth path path' r key isKey _ (omega arith) ag)

      ag_next : Agree (depth + n.header.prefix_len + 1) (byte key) path_next
      ag_next = Agree-store _ next path' (byte key) ag refl

      -- No child stands under the byte.
      at_free :
          child_slot n.header n.keys next ≡ none
          → Inserts depth path key v
              (to_node n)
              (fresh_node (some (node_add_child n next (leaf key (some v)))))
      unfolding is_null
      at_free e =
          let x = leaf key (some v) in
          let lt = isKey.4 (depth + n.header.prefix_len) in
          let free = get_child-none n next e in
          let put = node_add_child_lem next x lt refl n r.2 free in
          let g = null-Gains key isKey v _ path_next le_next ag_next in
          fresh_node-Inserts depth path key v (to_node n) _
            (Puts-Gains n _ depth path path' next x key (some v) lt r put (
              subst (λ y. Gains (depth + n.header.prefix_len + 1) path_next key (some v) y x)
                (sym free) g))
            (λ o h. Holds-null (below_next o h) free)

      -- The call goes on in the child.
      at_child :
          (i : ℕ)
          → child_slot n.header n.keys next ≡ some i
          → (o : Option Inserted)
          → Inserts (depth + n.header.prefix_len + 1) path_next key v (n.children i) o
          → Inserts depth path key v (to_node n) (in_child n i o)
      unfolding in_child set_child to_node
      at_child i e o (s, (f, g, t)) =
          let lt = isKey.4 (depth + n.header.prefix_len) in
          let child = get_child-some n next i e in
          let put = place_child next s.node lt g.3 n i r.2 e in
          subst (λ o'. Inserts depth path key v (to_node n) (in_child n i o')) (sym f)
            (
              set_child n i s,
              (
                refl,
                Puts-Gains n _ depth path path' next s.node key (some v) lt r put (
                    subst
                      (λ y. Gains (depth + n.header.prefix_len + 1) path_next key (some v) y s.node)
                      (sym child) g),
                elim t [
                  | inl (a, b, c) ↦
                      inl (a, b, λ o' h. c o' (subst (Holds key o') child (below_next o' h)))
                  | inr (a, b) ↦
                      inr (a, Holds-child n next lt (subst (Holds key s.old_val) (sym child) b))
                ],
              ),
            )

  -- The call follows no NULL; the tree that it leaves is a tree again, holds the value under the
  -- key and under every other key what it held; it says that the key is new exactly where the tree
  -- did not hold it, and returns the value that it held otherwise.
  pub art_node_insert_lem :
      (n : Node) (depth : ℕ) (path : ℕ → ℕ)
      → IsTree depth path n
      → depth ≤ length key
      → Agree depth (byte key) path
      → Inserts depth path key v n (art_node_insert n depth key (some v))
  unfolding art_node_insert to_node
  art_node_insert_lem null depth path t le ag = (
    record { node = leaf key (some v); old_val = none; is_new = true },
    (refl, null-Gains key isKey v depth path le ag, inl (refl, refl, λ o h. Holds-null h refl)),
  )
  art_node_insert_lem (leaf k o) depth path t le ag = at_leaf key isKey v k o depth path t le ag
  art_node_insert_lem (inner hd keys children) depth path t le ag =
      let n : Inner = record { header = hd; keys = keys; children = children } in
      let (path', r) = IsTree→IsRooted depth path n t in
      let start : Agree depth (byte key) path' = λ i p. ag i p ∙ sym (r.0 i p) in
      let (diff, (e, d)) = check_prefix_lem n depth path path' r key isKey le start in
      let at = depth + hd.prefix_len in
      let split = fresh_node (split_node n diff depth key (some v)) in
      let added = fresh_node (some (node_add_child n (byte key at) (leaf key (some v)))) in
      let down : ℕ → Option Inserted =
        λ i. in_child n i (art_node_insert (children i) (at + 1) key (some v)) in
      let whole =
        branches (Inserts depth path key v (to_node n)) (ltb diff hd.prefix_len)
          (child_slot hd keys (byte key at)) split added down
          (λ f. at_split n depth path path' r le ag diff (ground arith) d)
          (λ f g.
            at_free n depth path path' r le ag
              (follows n depth path path' r le ag diff (ground arith) d) g)
          (λ f i g.
            let ag' = follows n depth path path' r le ag diff (ground arith) d in
            at_child n depth path path' r le ag ag' i g _ (
              art_node_insert_lem (children i) (at + 1) (store at (byte key at) path')
                (subst (IsTree _ _) (get_child-some n (byte key at) i g)
                  (r.4 (byte key at) (isKey.4 at)))
                (le_next n depth path path' r le ag ag')
                (ag_next n depth path path' r le ag ag'))) in
      known (Inserts depth path key v (to_node n)) (check_prefix n key depth) diff
        (λ k. elim (ltb k hd.prefix_len) as (λ _. Option Inserted) [
          | true ↦ fresh_node (split_node n k depth key (some v))
          | false ↦ elim (child_slot hd keys (byte key at)) as (λ _. Option Inserted) [
            | none ↦ added
            | some i ↦ down i
          ]
        ])
        e whole
