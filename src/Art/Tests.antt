-- ===== src/Art/Tests.antt =====
-- Runs of the tree of art.c on concrete nodes and texts.
use pgvictoria.Prelude.{
  ℕ, suc, zero, ◌+◌, ◌≡◌, ◌↔◌, Option, some, none, List, [], ◌∷◌, refl, arith, ap, length, pos,
}
use pgvictoria.Bytes.{Bytes, text}
use pgvictoria.Value.{Value, int32, string, create, given, noop_destroy, int32_to_string}
use pgvictoria.Art.{node4, leaf, Inner, to_node, is_null, find_index}
use pgvictoria.Art.Arrays.{store}
use pgvictoria.Art.Index.{IsLast, find_index_lem}
use pgvictoria.Art.Nodes.{node_add_child, node_get_minimum}
use pgvictoria.Art.Layout.{node_of, IsLaidOut, get_child-no_Place}
use pgvictoria.Art.Changes.{Puts}
use pgvictoria.Art.Children.{node_add_child_lem}
use pgvictoria.Art.Search.{byte, check_prefix}
use pgvictoria.Art.Insert.{fork}
use pgvictoria.Art.Holding.{IsTree, IsRooted, IsTree→IsRooted, Agree, Holds, Holds-leaf}
use pgvictoria.Art.Forking.{fork-IsTree}
use pgvictoria.Art.Prefix.{IsDiff, check_prefix_lem}
use pgvictoria.Art.Minimum.{node_get_minimum_lem}
use pgvictoria.Art.Tree.{Art, art_create, art_search, insert, with_end}
use pgvictoria.Art.Laws.{IsText, Fits, Models, Represents, Stores, insert_lem, with_end-IsKey}
use pgvictoria.Art.Iterate.{art_node_iterate, matched, prefix_search}
use pgvictoria.Art.Visits.{In, leaves, call_all}
use pgvictoria.Art.Completion.{Begins, prefix_search-Represents}
use pgvictoria.Art.Iteration.{iterate-Models}
use pgvictoria.Art.History.{Entry, insert_all, put_all, art_create-Represents, search-insert_all}

abbrev ordered : ℕ → ℕ
ordered i = i + i + 3

find_index_example : IsLast 3 6 ordered (find_index 6 ordered 3)
find_index_example = find_index_lem 3 6 ordered (λ i j p q. omega (arith, p))

-- A node4 without room, of which a node16 is made.
abbrev full : Inner
full = node_of node4 4 0 (λ i. 0) ordered (λ i. leaf [] none)

full-IsLaidOut : IsLaidOut full
unfolding is_null
full-IsLaidOut = (omega arith, λ i j p q. omega (arith, p), λ i p. omega (arith, p), λ i p. refl)

node_add_child_example : Puts full 8 (leaf [] none) (node_add_child full 8 (leaf [] none))
unfolding is_null
node_add_child_example =
    node_add_child_lem 8 (leaf [] none) (omega arith) refl full full-IsLaidOut
      (get_child-no_Place full 8 full-IsLaidOut (λ i p. omega (arith, p.1)))

-- The texts ab and ac below the byte a.
abbrev pair : Inner
pair = fork 1 (λ i. 97) 98 (leaf (with_end (text "ab")) none) 99 (leaf (with_end (text "ac")) none)

below_a : (c : ℕ) → Agree 2 (byte (97 ∷ c ∷ 0 ∷ [])) (store 1 c (λ i. 97))
below_a c zero p = refl
below_a c (suc zero) p = refl
below_a c (suc (suc i)) p = absurd (omega (arith, p))

pair-IsTree : IsTree 0 (λ i. 97) (to_node pair)
unfolding IsTree is_null
pair-IsTree =
    fork-IsTree 1 (λ i. 97) 98 99 (leaf (with_end (text "ab")) none)
      (leaf (with_end (text "ac")) none) (omega arith) (omega arith) refl refl
      (λ e. omega (arith, e)) 0 (λ i. 97) (λ i. 97) (λ i p. refl) (λ i p q. refl)
      (
        with_end-IsKey (text "ab") ((omega arith, omega arith), ((omega arith, omega arith), tt))
            (omega arith),
        omega arith,
        below_a 98,
      )
      (
        with_end-IsKey (text "ac") ((omega arith, omega arith), ((omega arith, omega arith), tt))
            (omega arith),
        omega arith,
        below_a 99,
      )

pair_rooted : (path' : ℕ → ℕ) × IsRooted 0 (λ i. 97) pair path'
pair_rooted = IsTree→IsRooted 0 (λ i. 97) pair pair-IsTree

ad : IsText (text "ad")
ad = ((omega arith, omega arith), ((omega arith, omega arith), tt))

check_prefix_example :
    (diff : ℕ) × ((check_prefix pair (with_end (text "ad")) 0 ≡ some diff)
      × IsDiff pair 0
          (λ i. 97)
          pair_rooted.0
          pair_rooted.1
          (with_end (text "ad"))
          (with_end-IsKey (text "ad") ad (omega arith))
          diff)
check_prefix_example =
    check_prefix_lem pair 0 (λ i. 97) pair_rooted.0 pair_rooted.1 (with_end (text "ad"))
      (with_end-IsKey (text "ad") ad (omega arith)) (omega arith) (λ i p. absurd (omega (arith, p)))

node_get_minimum_example :
    (key : Bytes) × (value : Option Value) × ((node_get_minimum (to_node pair) ≡ some (key, value))
      × Holds key value (to_node pair))
unfolding to_node is_null
node_get_minimum_example = node_get_minimum_lem (to_node pair) 0 (λ i. 97) pair-IsTree refl

insert_example :
    Stores art_create
      (λ k. none)
      (text "ad")
      (create int32 7)
      (insert art_create (some (text "ad")) 7 int32)
insert_example =
    insert_lem art_create (λ k. none) (text "ad") 7 int32 art_create-Represents ad (omega arith)
      (λ e. cc)

abbrev entries : List Entry
entries = (text "ad", (1, int32)) ∷ (text "a", (2, string)) ∷ (text "ad", (3, int32)) ∷ []

search-insert_all_example :
    (t : Art) × ((insert_all art_create entries ≡ some t)
      × ((k : Bytes) → IsText k → Fits k → art_search t k ≡ put_all (λ k. none) entries k))
search-insert_all_example = search-insert_all entries (
  (ad, omega arith, λ e. cc),
  ((((omega arith, omega arith), tt), omega arith, λ e. cc), ((ad, omega arith, λ e. cc), tt)),
)

-- A callback that counts, and stops the iteration at the second leaf.
abbrev second : Bytes → Option Value → ℕ → ℕ × ℕ
second key value n = (n + 1, n)

abbrev seven : Value
seven = record {
  type = int32;
  stored = given 7;
  destroy_data = noop_destroy;
  to_string = int32_to_string;
}

-- The tree whose only leaf is that of the text ad.
abbrev one_leaf : Art
one_leaf = record { root = leaf (with_end (text "ad")) (some seven); size = 1 }

one_leaf-Models : Models one_leaf (art_search one_leaf)
unfolding IsTree
one_leaf-Models = (
  (with_end-IsKey (text "ad") ad (omega arith), omega arith, λ i p. absurd (omega (arith, p))),
  λ k h. absurd (let e = (Holds-leaf h).1 in cc),
  λ k isText. refl,
)

one_leaf-Represents : Represents one_leaf (art_search one_leaf)
unfolding IsTree
one_leaf-Represents = (
  one_leaf-Models.0,
  one_leaf-Models.1,
  λ k isText fits. refl,
  λ k o h. let e = ap length (Holds-leaf h).0 in omega (arith, e),
)

iterate_example :
    (art_node_iterate one_leaf.root second 0 ≡ call_all second (leaves one_leaf.root) 0)
    × ((k : Bytes) (v : Value)
        → IsText k
        → In (with_end k, some v) (leaves one_leaf.root) ↔ (art_search one_leaf k ≡ some v))
iterate_example = iterate-Models ℕ second 0 one_leaf (art_search one_leaf) one_leaf-Models

prefix_search_example :
    (ms : List Bytes) × ((prefix_search one_leaf (some (text "a")) (pos 5) ≡ matched ms)
      × ((k : Bytes)
          → IsText k
          → Fits k
          → In k ms ↔ (Begins (text "a") k × ((v : Value) × (art_search one_leaf k ≡ some v)))))
unfolding is_null leaves
prefix_search_example =
    prefix_search-Represents one_leaf (art_search one_leaf) 97 [] 5 one_leaf-Represents refl
      ((omega arith, omega arith), tt) (omega arith) (omega arith) (omega arith) (omega arith)
