-- ===== src/Art/Tree.antt =====
-- The tree of art.c as its callers see it. The tree is not NULL; a key that may be NULL is an
-- `Option`; `none` as the result of an insertion is a NULL that is followed.
use pgvictoria.Prelude.{
  ℕ, ◌+◌, ◌%◌, ◌^◌, Bool, true, false, Option, none, some, [], ◌∷◌, ◌++◌, if◌then◌else◌, length,
  take,
}
use pgvictoria.Bytes.{Bytes}
use pgvictoria.Value.{
  Value, ValueType, type_none, ref, ValueConfig, Stored, given, create, create_with_config, type_of,
}
use pgvictoria.Art.{Node, null}
use pgvictoria.Art.Search.{search_from}
use pgvictoria.Art.Insert.{Inserted, art_node_insert}

-- struct art
pub record Art : Type 0 where
  pub root : Node
  pub size : ℕ

unfoldable pub art_create : Art
art_create = record { root = null; size = 0 }

-- A C string in memory.
abbrev pub ended : Bytes → Bytes
ended key = key ++ 0 ∷ []

-- The bytes of a key that `art_search` and `art_node_insert` are given: strlen(key) + 1 is passed as
-- a `uint32_t`.
abbrev pub with_end : Bytes → Bytes
with_end key = take ((length key + 1) % 2 ^ 32) (ended key)

-- `art_search`. Its `depth` is a `uint32_t`; on the way to a leaf it is at most the length of a key
-- below, and fits where these lengths do.
unfoldable pub art_search : Art → Bytes → Option Value
unfolding search_from
art_search t key = search_from t.root 0 (with_end key)

-- `pgvictoria_art_search`: 0 where there is no value.
unfoldable pub search : Art → Option Bytes → Stored
unfolding art_search
search t none = given 0
search t (some key) = elim (art_search t key) [ none ↦ given 0 | some v ↦ v.stored ]

-- `pgvictoria_art_search_typed`: the data, and what is written to `type`; `none` where nothing is.
unfoldable pub search_typed : Art → Option Bytes → Stored × Option ValueType
unfolding search art_search type_of
search_typed t none = (given 0, none)
search_typed t (some key) = (search t (some key), some (type_of (art_search t key)))

abbrev pub is_found : Option Value → Bool
is_found none = false
is_found (some v) = true

unfoldable pub contains_key : Art → Option Bytes → Bool
contains_key t none = false
contains_key t (some key) = is_found (art_search t key)

-- The tree, the status, and the value that `pgvictoria_value_destroy` is called with.
pub record Outcome : Type 0 where
  pub tree : Art
  pub status : ℕ
  pub destroyed : Option Value

unfoldable pub refused : Art → Outcome
refused t = record { tree = t; status = 1; destroyed = none }

unfoldable pub conclude : Art → Option Inserted → Option Outcome
conclude t none = none
conclude t (some r) = some (record {
  tree = record { root = r.node; size = if r.is_new then (t.size + 1) % 2 ^ 64 else t.size };
  status = 0;
  destroyed = r.old_val;
})

-- What both insertions do with the value that is made.
unfoldable pub insert_value : Art → Bytes → Option Value → Option Outcome
unfolding art_node_insert conclude
insert_value t key value = conclude t (art_node_insert t.root 0 (with_end key) value)

-- pgvictoria_art_insert
unfoldable pub insert : Art → Option Bytes → ℕ → ValueType → Option Outcome
unfolding insert_value create refused
insert t none value type = some (refused t)
insert t (some key) value type_none = some (refused t)
insert t (some key) value type = insert_value t key (create type value)

-- `pgvictoria_art_insert_with_config`; without a configuration the value is a reference.
unfoldable pub insert_with_config : Art → Option Bytes → ℕ → Option ValueConfig → Option Outcome
unfolding insert_value create create_with_config refused
insert_with_config t none value config = some (refused t)
insert_with_config t (some key) value (some c) =
    insert_value t key (create_with_config value (some c))
insert_with_config t (some key) value none = insert_value t key (create ref value)

-- `pgvictoria_art_clear`, less the destruction of the values.
unfoldable pub clear : Art → Art
clear t = record { root = null; size = 0 }
