-- ===== src/Art/Iterate.antt =====
-- `art_node_iterate` of art.c and the search by prefix that is built on it.
use pgvictoria.Prelude.{
  ℕ, zero, suc, ◌+◌, ◌-◌, ◌%◌, ◌^◌, ℤ, pos, negsuc, Bool, true, false, ◌&&◌, ◌||◌, Option, none,
  some, List, [], ◌∷◌, ◌++◌, length, take, ltb, leb, ◌==◌, if◌then◌else◌,
}
use pgvictoria.Bytes.{Bytes, str_eq}
use pgvictoria.Value.{Value}
use pgvictoria.Art.{
  NodeType, node4, node16, node48, node256, Node, null, leaf, inner, is_null, max_prefix_len,
  child_slot,
}
use pgvictoria.Art.Nodes.{min32, node_get_minimum}
use pgvictoria.Art.Search.{byte, check_prefix_partial}
use pgvictoria.Art.Tree.{Art}

-- The places in the order in which the loops over the children come to them, up to `i`.
unfoldable pub first_places : ℕ → List ℕ
first_places zero = []
first_places (suc i) = first_places i ++ i ∷ []

unfoldable pub indexed_places : ℕ → (ℕ → ℕ) → List ℕ
indexed_places zero keys = []
indexed_places (suc i) keys =
    let rest = indexed_places i keys in if keys i == 0 then rest else rest ++ (keys i - 1) ∷ []

unfoldable pub used_places : ℕ → (ℕ → Node) → List ℕ
unfolding is_null
used_places zero children = []
used_places (suc i) children =
    let rest = used_places i children in if is_null (children i) then rest else rest ++ i ∷ []

unfoldable pub places : NodeType → ℕ → (ℕ → ℕ) → (ℕ → Node) → List ℕ
unfolding first_places indexed_places used_places
places node4 num keys children = first_places num
places node16 num keys children = first_places num
places node48 num keys children = indexed_places 256 keys
places node256 num keys children = used_places 256 children

module _ {S : Type 0} where
  -- The loop over the children, which ends with the first result that is not 0.
  unfoldable pub visit : List ℕ → (ℕ → S → S × ℕ) → S → S × ℕ
  visit [] f s = (s, 0)
  visit (i ∷ is) f s = let (s', res) = f i s in if res == 0 then visit is f s' else (s', res)

  -- The callback's state, and the result.
  unfoldable pub art_node_iterate : Node → (Bytes → Option Value → S → S × ℕ) → S → S × ℕ
  unfolding places visit
  art_node_iterate null cb s = (s, 0)
  art_node_iterate (leaf key value) cb s = cb key value s
  art_node_iterate (inner h keys children) cb s =
      visit (places h.type h.num_children keys children) (λ i. art_node_iterate (children i) cb) s

-- The C string at the start of a key.
unfoldable pub before_end : Bytes → Bytes
before_end [] = []
before_end (c ∷ key) = if c == 0 then [] else c ∷ before_end key

-- `prefix_search_cb`, whose state is what was appended to `matches`.
unfoldable pub prefix_search_cb : ℕ → Bytes → Option Value → List Bytes → List Bytes × ℕ
unfolding before_end
prefix_search_cb max_matches key value matches =
    if leb max_matches (length matches) then (matches, 1) else (matches ++ before_end key ∷ [], 0)

-- strncmp(key, prefix, strlen(prefix)) == 0, behind the test of the lengths
unfoldable pub has_prefix : Bytes → Bytes → Bool
unfolding str_eq
has_prefix prefix key = leb (length prefix) (length key) && str_eq (take (length prefix) key) prefix

-- The whole subtree, if its smallest key has the prefix.
unfoldable pub iterate_below : ℕ → Bytes → Node → List Bytes → List Bytes
unfolding node_get_minimum has_prefix art_node_iterate prefix_search_cb
iterate_below max_matches prefix node matches = elim (node_get_minimum node) [
  | none ↦ matches
  | some (min_key, value) ↦
      if has_prefix prefix min_key
      then (art_node_iterate node (prefix_search_cb max_matches) matches).0
      else matches
]

-- The loop of `pgvictoria_art_prefix_search`.
unfoldable pub prefix_search_from : ℕ → Node → ℕ → Bytes → List Bytes → List Bytes
unfolding has_prefix prefix_search_cb check_prefix_partial min32 iterate_below
prefix_search_from max_matches null depth prefix matches = matches
prefix_search_from max_matches (leaf key value) depth prefix matches =
    if has_prefix prefix key then (prefix_search_cb max_matches key value matches).0 else matches
prefix_search_from max_matches (inner h keys children) depth prefix matches =
    let cpl = check_prefix_partial h prefix depth in
    let at = depth + h.prefix_len in
    elim (ltb cpl (min32 h.prefix_len max_prefix_len) && ltb (depth + cpl) (length prefix)) [
      | true ↦ matches
      | false ↦ elim (leb (length prefix) at) [
        | true ↦ iterate_below max_matches prefix (inner h keys children) matches
        | false ↦ elim (child_slot h keys (byte prefix at)) [
          | none ↦ matches
          | some i ↦ prefix_search_from max_matches (children i) (at + 1) prefix matches
        ]
      ]
    ]

-- The result -1; `max_matches + 1` leaving `int`; or the matches, whose number is the result.
pub data Matched : Type 0 where
  refused : Matched
  overflow : Matched
  matched : List Bytes → Matched

-- What the search does once there is room for `max_matches` matches; `key_len` is a `uint32_t`.
unfoldable pub find_matches : Node → Option Bytes → ℕ → List Bytes
unfolding prefix_search_from art_node_iterate prefix_search_cb
find_matches root none max_matches = (art_node_iterate root (prefix_search_cb max_matches) []).0
find_matches root (some []) max_matches =
    (art_node_iterate root (prefix_search_cb max_matches) []).0
find_matches root (some (c ∷ key)) max_matches =
    prefix_search_from max_matches root 0 (take (length (c ∷ key) % 2 ^ 32) (c ∷ key)) []

-- `pgvictoria_art_prefix_search` on a tree and a place for the matches that are not NULL.
unfoldable pub prefix_search : Art → Option Bytes → ℤ → Matched
unfolding is_null find_matches
prefix_search t prefix (negsuc n) = refused
prefix_search t prefix (pos n) =
    if is_null t.root || n == 0
    then refused
    else if leb (2 ^ 31 - 1) n
    then overflow
    else matched (find_matches t.root prefix n)
