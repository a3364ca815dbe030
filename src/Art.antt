-- ===== src/Art.antt =====
-- libpgvictoria/art.c: the adaptive radix tree, a map from texts to tagged values. A key is handed
-- on with the 0 that ends it. A node is a value of the model and an array a function of the index,
-- so the node that a function writes through `node_ref` is its result; the memory that
-- `create_art_node` clears is an array of 0 or NULL. `malloc` succeeds.
mod Arrays
mod Index
mod Nodes
mod Layout
mod Changes
mod Adding
mod Indexing
mod Expanding
mod Children
mod Replacing
mod Insert
mod Search
mod Holding
mod Minimum
mod Prefix
mod Finding
mod Forking
mod Splitting
mod Shortening
mod Inserting
mod Telling
mod Insertion
mod Tree
mod Laws
mod History
mod Removing
mod Iterate
mod Visits
mod Leaves
mod Iteration
mod Matching
mod Prefixed
mod Completion
mod Tests
use pgvictoria.Prelude.{
  ℕ, zero, suc, ◌+◌, ◌-◌, ◌/◌, Bool, true, false, Option, none, some, ◌⊎◌, inl, inr, ltb, leb, ◌==◌,
  if◌then◌else◌,
}
use pgvictoria.Bytes.{Bytes}
use pgvictoria.Value.{Value}

-- MAX_PREFIX_LEN
abbrev pub max_prefix_len : ℕ
max_prefix_len = 10

-- enum art_node_type
pub data NodeType : Type 0 where
  node4 node16 node48 node256 : NodeType

-- struct art_node
pub record Header : Type 0 where
  pub type : NodeType
  pub num_children : ℕ
  pub prefix_len : ℕ
  pub prefix : ℕ → ℕ

-- NULL, a pointer with the leaf bit set, or one of the four nodes.
pub data Node : Type 0 where
  null : Node
  leaf : Bytes → Option Value → Node
  inner : Header → (ℕ → ℕ) → (ℕ → Node) → Node

-- struct art_node4, art_node16, art_node48 and art_node256; the last has no `keys`.
pub record Inner : Type 0 where
  pub header : Header
  pub keys : ℕ → ℕ
  pub children : ℕ → Node

unfoldable pub to_node : Inner → Node
to_node n = inner n.header n.keys n.children

unfoldable pub is_null : Node → Bool
is_null null = true
is_null _ = false

-- One turn of the loop of `find_index`: the new `left` and `right`.
narrow : ℕ → (ℕ → ℕ) → ℕ → ℕ → ℕ × ℕ
narrow ch keys left right =
    let mid = (left + right) / 2 in if ltb (keys mid) ch then (mid, right) else (left, mid)

-- The loop: the `mid` that it returns, or the `left` and `right` that it ends with.
find_loop : ℕ → ℕ → (ℕ → ℕ) → ℕ → ℕ → ℕ ⊎ (ℕ × ℕ)
unfolding narrow
find_loop zero ch keys left right = inr (left, right)
find_loop (suc fuel) ch keys left right =
    let (left', right') = narrow ch keys left right in
    let rest = find_loop fuel ch keys left' right' in
    if ltb (left + 1) right
    then if keys ((left + right) / 2) == ch then inl ((left + right) / 2) else rest
    else inr (left, right)

pick : ℕ → (ℕ → ℕ) → ℕ ⊎ (ℕ × ℕ) → Option ℕ
pick ch keys (inl mid) = some mid
pick ch keys (inr (left, right)) =
    if leb (keys right) ch then some right else if leb (keys left) ch then some left else none

-- `none` is the result -1.
unfoldable pub find_index : ℕ → (ℕ → ℕ) → ℕ → Option ℕ
unfolding find_loop pick
find_index ch keys length =
    if length == 0 then none else pick ch keys (find_loop length ch keys 0 (length - 1))

exact : ℕ → (ℕ → ℕ) → Option ℕ → Option ℕ
exact ch keys none = none
exact ch keys (some idx) = if keys idx == ch then some idx else none

-- `node_get_child`, as the index in `children` that the pointer it returns points to.
unfoldable pub child_slot : Header → (ℕ → ℕ) → ℕ → Option ℕ
unfolding find_index exact
child_slot h keys ch = elim h.type [
  | node4 ↦ exact ch keys (find_index ch keys h.num_children)
  | node16 ↦ exact ch keys (find_index ch keys h.num_children)
  | node48 ↦ if keys ch == 0 then none else some (keys ch - 1)
  | node256 ↦ some ch
]

unfoldable pub child_at : (ℕ → Node) → Option ℕ → Node
child_at children none = null
child_at children (some idx) = children idx

-- The child that `node_get_child` leads to, or NULL.
unfoldable pub get_child : Inner → ℕ → Node
get_child n ch = child_at n.children (child_slot n.header n.keys ch)
