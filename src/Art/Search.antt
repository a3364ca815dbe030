-- ===== src/Art/Search.antt =====
-- The walk of art.c from a node down to the leaf of a key.
use pgvictoria.Prelude.{
  ℕ, ◌+◌, ◌-◌, Bool, true, false, ◌&&◌, Option, none, some, ltb, leb, ◌==◌, if◌then◌else◌, length,
  get_or,
}
use pgvictoria.Bytes.{Bytes, str_eq}
use pgvictoria.Value.{Value}
use pgvictoria.Art.{Header, Node, null, leaf, inner, Inner, to_node, max_prefix_len, child_slot}
use pgvictoria.Art.Arrays.{advance}
use pgvictoria.Art.Nodes.{min32, node_get_minimum}

-- key[i]
abbrev pub byte : Bytes → ℕ → ℕ
byte key i = get_or key i 0

-- `check_prefix_partial`, which is called with a `depth` of at most the key's length.
unfoldable pub check_prefix_partial : Header → Bytes → ℕ → ℕ
unfolding min32
check_prefix_partial h key depth =
    advance (min32 (min32 h.prefix_len max_prefix_len) (length key - depth))
      (λ len. byte key (depth + len) == h.prefix len) 0

-- The second loop of `check_prefix`, on the key of the smallest leaf.
unfoldable pub compare_leaf : Bytes → Bytes → ℕ → ℕ → ℕ
unfolding min32
compare_leaf leaf_key key depth len =
    advance (min32 (length leaf_key) (length key) - depth - len)
      (λ i. byte leaf_key (depth + i) == byte key (depth + i)) len

-- `check_prefix`; `none` where it follows NULL, as the node has no leaf.
unfoldable pub check_prefix : Inner → Bytes → ℕ → Option ℕ
unfolding to_node
check_prefix n key depth =
    let len = check_prefix_partial n.header key depth in
    if ltb len max_prefix_len then some len else elim (node_get_minimum (to_node n)) [
      | none ↦ none
      | some (leaf_key, value) ↦ some (compare_leaf leaf_key key depth len)
    ]

unfoldable pub leaf_match : Bytes → Bytes → Bool
unfolding str_eq
leaf_match leaf_key key = (length leaf_key == length key) && str_eq leaf_key key

-- The loop of `art_search` from a node that is reached at `depth`.
unfoldable pub search_from : Node → ℕ → Bytes → Option Value
search_from null depth key = none
search_from (leaf leaf_key value) depth key = if leaf_match leaf_key key then value else none
search_from (inner h keys children) depth key =
    elim (check_prefix_partial h key depth == min32 h.prefix_len max_prefix_len) [
      | false ↦ none
      | true ↦ elim (leb (length key) (depth + h.prefix_len)) [
        | true ↦ none
        | false ↦ elim (child_slot h keys (byte key (depth + h.prefix_len))) [
          | none ↦ none
          | some i ↦ search_from (children i) (depth + h.prefix_len + 1) key
        ]
      ]
    ]
