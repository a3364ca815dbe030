-- ===== src/Art/Insert.antt =====
-- `art_node_insert` of art.c: the node that it leaves in the place of the one it was called on.
use pgvictoria.Prelude.{
  ℕ, zero, suc, ◌+◌, ◌-◌, Bool, true, false, Option, none, some, ltb, leb, ◌==◌, if◌then◌else◌,
  length,
}
use pgvictoria.Bytes.{Bytes}
use pgvictoria.Value.{Value}
use pgvictoria.Art.{
  node4, Node, null, leaf, inner, Inner, to_node, is_null, max_prefix_len, child_slot,
}
use pgvictoria.Art.Arrays.{store, memcpy, memmove}
use pgvictoria.Art.Nodes.{min32, create_art_node, count_child, node_add_child, node_get_minimum}
use pgvictoria.Art.Search.{byte, check_prefix, leaf_match}

-- What is written through `node_ref`, the value that is returned, and what is written to `new`.
pub record Inserted : Type 0 where
  pub node : Node
  pub old_val : Option Value
  pub is_new : Bool

-- The loop that finds where two keys diverge and keeps the bytes before as the prefix: `idx` and
-- the prefix that it ends with.
unfoldable pub diverge : ℕ → Bytes → Bytes → ℕ → ℕ → (ℕ → ℕ) → ℕ × (ℕ → ℕ)
diverge zero key leaf_key depth idx prefix = (idx, prefix)
diverge (suc fuel) key leaf_key depth idx prefix =
    let prefix' =
      if ltb (idx - depth) max_prefix_len
      then store (idx - depth) (byte key idx) prefix
      else prefix in
    let rest = diverge fuel key leaf_key depth (idx + 1) prefix' in
    if byte key idx == byte leaf_key idx then rest else (idx, prefix)

-- The fresh node4 with a prefix, and two children.
unfoldable pub fork : ℕ → (ℕ → ℕ) → ℕ → Node → ℕ → Node → Inner
unfolding create_art_node node_add_child
fork prefix_len prefix ch child ch' child' =
    let fresh = create_art_node node4 in
    let new_node = record fresh {
      header = record fresh.header { prefix_len = prefix_len; prefix = prefix };
    } in
    node_add_child (node_add_child new_node ch child) ch' child'

-- Expanding a leaf of another key to an inner node with two leaves.
unfoldable pub split_leaf : Bytes → Option Value → ℕ → Bytes → Option Value → Inner
unfolding diverge fork min32
split_leaf leaf_key old depth key value =
    let (idx, prefix) =
      diverge (min32 (length key) (length leaf_key) - depth) key leaf_key depth depth (λ i. 0) in
    fork (idx - depth) prefix (byte key idx) (leaf key value) (byte leaf_key idx)
      (leaf leaf_key old)

-- The node that is moved down below the byte at `diff_len` of its prefix, with the prefix that is
-- then left.
unfoldable pub shorten : Inner → ℕ → (ℕ → ℕ) → Inner
shorten n diff_len prefix = record n {
  header = record n.header { prefix_len = n.header.prefix_len - (diff_len + 1); prefix = prefix };
}

-- Splitting a node whose prefix the key leaves at `diff_len`; `none` where NULL is followed.
unfoldable pub split_node : Inner → ℕ → ℕ → Bytes → Option Value → Option Inner
unfolding fork shorten min32 to_node
split_node n diff_len depth key value =
    let h = n.header in
    let prefix = memcpy (min32 max_prefix_len diff_len) (λ i. 0) h.prefix in
    let at = byte key (depth + diff_len) in
    let left = h.prefix_len - (diff_len + 1) in
    if leb h.prefix_len max_prefix_len
    then some (
        fork diff_len prefix at (leaf key value) (h.prefix diff_len)
          (to_node (shorten n diff_len (memmove 0 (diff_len + 1) left h.prefix))))
    else elim (node_get_minimum (to_node n)) [
      | none ↦ none
      | some (min_key, _) ↦ some (
          fork diff_len prefix at (leaf key value) (byte min_key (depth + diff_len)) (
            to_node (
              shorten n diff_len (
                memcpy (min32 max_prefix_len left) h.prefix
                  (λ i. byte min_key (depth + diff_len + 1 + i))))))
    ]

-- The value pointer of a leaf after `pgvictoria_value_create`, which leaves it where it fails.
unfoldable pub replace_value : Option Value → Option Value → Option Value
replace_value old none = old
replace_value old (some v) = some v

unfoldable pub set_child : Inner → ℕ → Inserted → Inserted
unfolding to_node is_null count_child
set_child n i r =
    let h = if is_null (n.children i) then count_child n.header else n.header in
    record r { node = inner h n.keys (store i r.node n.children) }

unfoldable pub fresh_node : Option Inner → Option Inserted
unfolding to_node
fresh_node none = none
fresh_node (some n) = some (record { node = to_node n; old_val = none; is_new = true })

unfoldable pub in_child : Inner → ℕ → Option Inserted → Option Inserted
in_child n i none = none
in_child n i (some r) = some (set_child n i r)

-- `value` is what the call of `pgvictoria_value_create` makes; `none` as the result is a NULL that
-- is followed. The `uint32_t`s of the source, which are depth, idx, diff_len and prefix_len, are
-- at most the length of a key, of the new one or of one below the node: they fit where it does.
unfoldable pub art_node_insert : Node → ℕ → Bytes → Option Value → Option Inserted
art_node_insert null depth key value =
    some (record { node = leaf key value; old_val = none; is_new = true })
art_node_insert (leaf leaf_key old) depth key value =
    if leaf_match leaf_key key
    then some
        (record { node = leaf leaf_key (replace_value old value); old_val = old; is_new = false })
    else fresh_node (some (split_leaf leaf_key old depth key value))
art_node_insert (inner h keys children) depth key value =
    let n : Inner = record { header = h; keys = keys; children = children } in
    elim (check_prefix n key depth) [
      | none ↦ none
      | some diff_len ↦ elim (ltb diff_len h.prefix_len) [
        | true ↦ fresh_node (split_node n diff_len depth key value)
        | false ↦ elim (child_slot h keys (byte key (depth + h.prefix_len))) [
          | none ↦
              fresh_node
                (some (node_add_child n (byte key (depth + h.prefix_len)) (leaf key value)))
          | some i ↦
              in_child n i (art_node_insert (children i) (depth + h.prefix_len + 1) key value)
        ]
      ]
    ]
