-- ===== src/Art/Removing.antt =====
-- The deletion of art.c: a child is taken from each of the four layouts of a node, which then
-- shrinks, or is merged with the one child that is left.
use pgvictoria.Prelude.{
  ℕ, zero, suc, ◌+◌, ◌-◌, ◌%◌, ◌^◌, true, false, Option, none, some, ltb, leb, ◌==◌, if◌then◌else◌,
  length,
}
use pgvictoria.Bytes.{Bytes}
use pgvictoria.Value.{Value}
use pgvictoria.Art.{
  node4, node16, node48, node256, Header, Node, null, leaf, inner, Inner, to_node, is_null,
  max_prefix_len, find_index, child_slot,
}
use pgvictoria.Art.Arrays.{store, memcpy, memmove}
use pgvictoria.Art.Nodes.{min32, create_art_node, copy_header}
use pgvictoria.Art.Tree.{Art, with_end, Outcome, refused}
use pgvictoria.Art.Search.{byte, check_prefix_partial, leaf_match}

-- `num_children--` on a uint8_t
unfoldable pub uncount_child : Header → Header
uncount_child h = record h { num_children = (h.num_children + 255) % 2 ^ 8 }

-- The two calls of memmove that close the place `idx`.
unfoldable pub remove_sorted : Inner → ℕ → Inner
unfolding uncount_child
remove_sorted n idx =
    let moved = n.header.num_children - (idx + 1) in
    record {
      header = uncount_child n.header;
      keys = memmove idx (idx + 1) moved n.keys;
      children = memmove idx (idx + 1) moved n.children;
    }

-- The loop that appends the child's prefix to what is known of the merged one.
unfoldable pub append_prefix : ℕ → ℕ → ℕ → Header → (ℕ → ℕ) → ℕ → ℕ
append_prefix zero i len child prefix = prefix
append_prefix (suc fuel) i len child prefix =
    let rest = append_prefix fuel (i + 1) len child (store (len + i) (child.prefix i) prefix) in
    if ltb (len + i) max_prefix_len then if ltb i child.prefix_len then rest else prefix else prefix

-- The prefix bytes of the node, the byte that leads to its only child, and those of the child.
unfoldable pub merged_prefix : Inner → Header → ℕ → ℕ
unfolding append_prefix
merged_prefix n child =
    let len = n.header.prefix_len in
    if ltb len max_prefix_len
    then append_prefix max_prefix_len 0 (len + 1) child (store len (n.keys 0) n.header.prefix)
    else append_prefix max_prefix_len 0 len child n.header.prefix

-- What takes the place of a node4 with one child; NULL is not followed, as the child is there.
unfoldable pub merge : Inner → Node → Node
unfolding merged_prefix min32
merge n null = null
merge n (leaf key value) = leaf key value
merge n (inner h keys children) =
    let len = n.header.prefix_len + 1 + h.prefix_len in
    inner
      (record h {
        prefix_len = len;
        prefix = memcpy (min32 len max_prefix_len) h.prefix (merged_prefix n h);
      })
      keys children

unfoldable pub node4_remove_child : Inner → ℕ → Node
unfolding remove_sorted merge to_node
node4_remove_child n idx =
    let m = remove_sorted n idx in
    if m.header.num_children == 1 then merge m (m.children 0) else to_node m

unfoldable pub node16_remove_child : Inner → ℕ → Node
unfolding remove_sorted create_art_node copy_header to_node
node16_remove_child n idx =
    let m = remove_sorted n idx in
    let num = m.header.num_children in
    let fresh = create_art_node node4 in
    let new_node : Inner = record {
      header = copy_header fresh.header m.header;
      keys = memcpy num fresh.keys m.keys;
      children = memcpy num fresh.children m.children;
    } in
    if leb num 3 then to_node new_node else to_node m

-- The loop of `node48_remove_child` up to `i`: the keys, the children and `cnt`.
unfoldable pub gather :
    ℕ → (ℕ → ℕ) → (ℕ → Node) → (ℕ → ℕ) × ((ℕ → Node) × ℕ) → (ℕ → ℕ) × ((ℕ → Node) × ℕ)
gather zero keys children out = out
gather (suc i) keys children out =
    let (keys', (children', cnt)) = gather i keys children out in
    if keys i == 0
    then (keys', (children', cnt))
    else (store cnt i keys', (store cnt (children (keys i - 1)) children', cnt + 1))

unfoldable pub node48_remove_child : Inner → ℕ → Node
unfolding uncount_child create_art_node copy_header gather to_node
node48_remove_child n ch =
    let m : Inner = record {
      header = uncount_child n.header;
      keys = store ch 0 n.keys;
      children = store (n.keys ch - 1) null n.children;
    } in
    let fresh = create_art_node node16 in
    let (keys, (children, cnt)) = gather 256 m.keys m.children (fresh.keys, (fresh.children, 0)) in
    let new_node : Inner = record {
      header = copy_header fresh.header m.header;
      keys = keys;
      children = children;
    } in
    if leb m.header.num_children 12 then to_node new_node else to_node m

-- The loop of `node256_remove_child` up to `i`.
unfoldable pub tabulate : ℕ → (ℕ → Node) → (ℕ → ℕ) × ((ℕ → Node) × ℕ) → (ℕ → ℕ) × ((ℕ → Node) × ℕ)
unfolding is_null
tabulate zero children out = out
tabulate (suc i) children out =
    let (keys', (children', cnt)) = tabulate i children out in
    if is_null (children i)
    then (keys', (children', cnt))
    else (store i (cnt + 1) keys', (store cnt (children i) children', cnt + 1))

-- The first loop of the source counts what is not used and is left out.
unfoldable pub node256_remove_child : Inner → ℕ → Node
unfolding uncount_child create_art_node copy_header tabulate to_node
node256_remove_child n ch =
    let m : Inner = record n {
      header = uncount_child n.header;
      children = store ch null n.children;
    } in
    let fresh = create_art_node node48 in
    let (keys, (children, cnt)) = tabulate 256 m.children (fresh.keys, (fresh.children, 0)) in
    let new_node : Inner = record {
      header = copy_header fresh.header m.header;
      keys = keys;
      children = children;
    } in
    if leb m.header.num_children 37 then to_node new_node else to_node m

-- `none` where `find_index` returns -1, with which the arrays would be moved.
unfoldable pub at_index : (ℕ → Node) → Option ℕ → Option Node
at_index f none = none
at_index f (some idx) = some (f idx)

unfoldable pub node_remove_child : Inner → ℕ → Option Node
unfolding node4_remove_child node16_remove_child node48_remove_child node256_remove_child at_index
    find_index
node_remove_child n ch = elim n.header.type [
  | node4 ↦ at_index (node4_remove_child n) (find_index ch n.keys n.header.num_children)
  | node16 ↦ at_index (node16_remove_child n) (find_index ch n.keys n.header.num_children)
  | node48 ↦ some (node48_remove_child n ch)
  | node256 ↦ some (node256_remove_child n ch)
]

-- What is written through `node_ref`, and the leaf that is returned.
pub record Deleted : Type 0 where
  pub node : Node
  pub found : Option (Bytes × Option Value)

unfoldable pub kept : Node → Option Deleted
kept n = some (record { node = n; found = none })

unfoldable pub without : Bytes → Option Value → Option Node → Option Deleted
without key value none = none
without key value (some n) = some (record { node = n; found = some (key, value) })

unfoldable pub delete_in : Inner → ℕ → Option Deleted → Option Deleted
delete_in n i none = none
delete_in n i (some r) =
    some (record r { node = inner n.header n.keys (store i r.node n.children) })

-- What the call does with the child at the place `i`; `rest` is the recursive call on it.
unfoldable pub delete_child : Inner → ℕ → ℕ → Bytes → Option Deleted → Node → Option Deleted
unfolding leaf_match node_remove_child kept without delete_in to_node
delete_child n i ch key rest (leaf leaf_key value) =
    if leaf_match leaf_key key
    then without leaf_key value (node_remove_child n ch)
    else kept (to_node n)
delete_child n i ch key rest _ = delete_in n i rest

unfoldable pub art_node_delete : Node → ℕ → Bytes → Option Deleted
unfolding check_prefix_partial leaf_match min32 kept delete_child
art_node_delete null depth key = kept null
art_node_delete (leaf leaf_key value) depth key =
    if leaf_match leaf_key key
    then some (record { node = null; found = some (leaf_key, value) })
    else kept (leaf leaf_key value)
art_node_delete (inner h keys children) depth key =
    let n : Inner = record { header = h; keys = keys; children = children } in
    let at = depth + h.prefix_len in
    elim (check_prefix_partial h key depth == min32 max_prefix_len h.prefix_len) [
      | false ↦ kept (inner h keys children)
      | true ↦ elim (leb (length key) at) [
        | true ↦ kept (inner h keys children)
        | false ↦ elim (child_slot h keys (byte key at)) [
          | none ↦ kept (inner h keys children)
          | some i ↦
              delete_child n i (byte key at) key (art_node_delete (children i) (at + 1) key)
                (children i)
        ]
      ]
    ]

unfoldable pub forget : Art → Option Deleted → Option Outcome
forget t none = none
forget t (some r) = elim r.found [
  | none ↦
      some (record { tree = record { root = r.node; size = t.size }; status = 0; destroyed = none })
  | some (key, value) ↦ some (record {
    tree = record { root = r.node; size = (t.size + (2 ^ 64 - 1)) % 2 ^ 64 };
    status = 0;
    destroyed = value;
  })
]

-- pgvictoria_art_delete
unfoldable pub delete : Art → Option Bytes → Option Outcome
unfolding art_node_delete forget refused
delete t none = some (refused t)
delete t (some key) = forget t (art_node_delete t.root 0 (with_end key))
