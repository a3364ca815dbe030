-- ===== src/Art/Nodes.antt =====
-- The nodes of art.c: how they are created, and how a child is added to each of the four layouts.
use pgvictoria.Prelude.{
  ℕ, zero, suc, ◌+◌, ◌-◌, ◌%◌, ◌^◌, not, Option, none, some, ltb, leb, ◌==◌, if◌then◌else◌,
}
use pgvictoria.Bytes.{Bytes}
use pgvictoria.Value.{Value}
use pgvictoria.Art.{
  NodeType, node4, node16, node48, node256, Header, Node, null, leaf, inner, Inner, is_null,
  find_index, max_prefix_len,
}
use pgvictoria.Art.Arrays.{store, memcpy, memmove, advance}

-- min
unfoldable pub min32 : ℕ → ℕ → ℕ
min32 a b = if leb b a then b else a

-- create_art_node, and the four wrappers of it
unfoldable pub create_art_node : NodeType → Inner
create_art_node type = record {
  header = record { type = type; num_children = 0; prefix_len = 0; prefix = λ i. 0 };
  keys = λ i. 0;
  children = λ i. null;
}

-- copy_header, where the destination is as it was created
unfoldable pub copy_header : Header → Header → Header
unfolding min32
copy_header dest src = record dest {
  num_children = src.num_children;
  prefix_len = src.prefix_len;
  prefix = memcpy (min32 max_prefix_len src.prefix_len) dest.prefix src.prefix;
}

-- `num_children++` on a uint8_t
unfoldable pub count_child : Header → Header
count_child h = record h { num_children = (h.num_children + 1) % 2 ^ 8 }

-- idx + 1, for an `idx` that may be -1
unfoldable pub after : Option ℕ → ℕ
after none = 0
after (some idx) = idx + 1

-- The branch of `node4_add_child` and `node16_add_child` that has room.
unfoldable pub insert_sorted : Inner → ℕ → Node → Inner
unfolding find_index after count_child
insert_sorted n ch child =
    let at = after (find_index ch n.keys n.header.num_children) in
    let moved = n.header.num_children - at in
    record {
      header = count_child n.header;
      keys = store at ch (memmove (at + 1) at moved n.keys);
      children = store at child (memmove (at + 1) at moved n.children);
    }

unfoldable pub node256_add_child : Inner → ℕ → Node → Inner
unfolding count_child
node256_add_child n ch child = record n {
  header = count_child n.header;
  children = store ch child n.children;
}

-- The loop of `node48_add_child` that spreads the children over a node256, up to `i`.
unfoldable pub spread : ℕ → (ℕ → ℕ) → (ℕ → Node) → (ℕ → Node) → ℕ → Node
spread zero keys children out = out
spread (suc i) keys children out =
    let rest = spread i keys children out in
    if keys i == 0 then rest else store i (children (keys i - 1)) rest

-- The node256 that replaces a full node48.
unfoldable pub expand48 : Inner → Inner
unfolding create_art_node copy_header spread
expand48 n =
    let fresh = create_art_node node256 in
    record fresh {
      header = copy_header fresh.header n.header;
      children = spread 256 n.keys n.children fresh.children;
    }

-- The first position without a child; the array has 48.
unfoldable pub free_slot : (ℕ → Node) → ℕ
unfolding is_null
free_slot children = advance 48 (λ pos. not (is_null (children pos))) 0

-- The branch of `node48_add_child` that has room.
unfoldable pub insert_indexed : Inner → ℕ → Node → Inner
unfolding free_slot count_child
insert_indexed n ch child =
    let pos = free_slot n.children in
    record {
      header = count_child n.header;
      keys = store ch (pos + 1) n.keys;
      children = store pos child n.children;
    }

unfoldable pub node48_add_child : Inner → ℕ → Node → Inner
unfolding insert_indexed expand48 node256_add_child
node48_add_child n ch child =
    if ltb n.header.num_children 48
    then insert_indexed n ch child
    else node256_add_child (expand48 n) ch child

-- The loop of `node16_add_child` that writes the index of each key, up to `i`.
unfoldable pub index_keys : ℕ → (ℕ → ℕ) → (ℕ → ℕ) → ℕ → ℕ
index_keys zero keys out = out
index_keys (suc i) keys out = store (keys i) (i + 1) (index_keys i keys out)

-- The node48 that replaces a full node16.
unfoldable pub expand16 : Inner → Inner
unfolding create_art_node copy_header index_keys
expand16 n =
    let fresh = create_art_node node48 in
    record {
      header = copy_header fresh.header n.header;
      keys = index_keys n.header.num_children n.keys fresh.keys;
      children = memcpy n.header.num_children fresh.children n.children;
    }

unfoldable pub node16_add_child : Inner → ℕ → Node → Inner
unfolding insert_sorted expand16 node48_add_child
node16_add_child n ch child =
    if ltb n.header.num_children 16
    then insert_sorted n ch child
    else node48_add_child (expand16 n) ch child

-- The node16 that replaces a full node4.
unfoldable pub expand4 : Inner → Inner
unfolding create_art_node copy_header
expand4 n =
    let fresh = create_art_node node16 in
    record {
      header = copy_header fresh.header n.header;
      keys = memcpy n.header.num_children fresh.keys n.keys;
      children = memcpy n.header.num_children fresh.children n.children;
    }

unfoldable pub node4_add_child : Inner → ℕ → Node → Inner
unfolding insert_sorted expand4 node16_add_child
node4_add_child n ch child =
    if ltb n.header.num_children 4
    then insert_sorted n ch child
    else node16_add_child (expand4 n) ch child

unfoldable pub node_add_child : Inner → ℕ → Node → Inner
unfolding node4_add_child node16_add_child node48_add_child node256_add_child
node_add_child n ch child = elim n.header.type [
  | node4 ↦ node4_add_child n ch child
  | node16 ↦ node16_add_child n ch child
  | node48 ↦ node48_add_child n ch child
  | node256 ↦ node256_add_child n ch child
]

-- Where `node_get_minimum` goes down from a node.
unfoldable pub minimum_index : NodeType → (ℕ → ℕ) → (ℕ → Node) → ℕ
unfolding is_null
minimum_index node4 keys children = 0
minimum_index node16 keys children = 0
minimum_index node48 keys children = keys (advance 256 (λ idx. keys idx == 0) 0) - 1
minimum_index node256 keys children = advance 256 (λ idx. is_null (children idx)) 0

-- The key and the value of the leaf that it reaches.
unfoldable pub node_get_minimum : Node → Option (Bytes × Option Value)
unfolding minimum_index
node_get_minimum null = none
node_get_minimum (leaf key value) = some (key, value)
node_get_minimum (inner h keys children) =
    node_get_minimum (children (minimum_index h.type keys children))
