-- ===== src/Art/History.antt =====
-- Sequences of insertions into a tree of art.c.
use pgvictoria.Prelude.{ℕ, ◌≡◌, ◌≢◌, Option, some, none, List, [], ◌∷◌, All, refl, sym, subst}
use pgvictoria.Bytes.{Bytes}
use pgvictoria.Value.{ValueType, type_none, create}
use pgvictoria.Art.Tree.{Art, art_create, art_search, insert}
use pgvictoria.Art.Search.{search_from}
use pgvictoria.Art.Holding.{IsTree, Holds-null}
use pgvictoria.Art.Laws.{IsText, Fits, Map, put, Represents, insert_lem}

-- The arguments of one call: the key, the value and its type.
abbrev pub Entry : Type 0
Entry = Bytes × (ℕ × ValueType)

abbrev pub IsEntry : Entry → Type 0
IsEntry (key, (value, type)) = IsText key × Fits key × (type ≢ type_none)

unfoldable pub insert_all : Art → List Entry → Option Art
unfolding insert
insert_all t [] = some t
insert_all t ((key, (value, type)) ∷ entries) = elim (insert t (some key) value type) [
  | none ↦ none
  | some r ↦ insert_all r.tree entries
]

-- The same on a map: a later entry takes the place of an earlier one.
unfoldable pub put_all : Map → List Entry → Map
put_all f [] = f
put_all f ((key, (value, type)) ∷ entries) = put_all (put key (create type value) f) entries

pub art_create-Represents : Represents art_create (λ k. none)
unfolding art_create art_search IsTree search_from
art_create-Represents =
    (tt, λ k h. Holds-null h refl, λ k h fits. refl, λ k o h. absurd (Holds-null h refl))

-- The insertions of any sequence of entries into a tree that represents a map follow no NULL, and
-- leave a tree that represents the map with all of them put.
insert_all-Represents :
    (t : Art) (f : Map) (entries : List Entry)
    → Represents t f
    → All IsEntry entries
    → (t' : Art) × ((insert_all t entries ≡ some t') × Represents t' (put_all f entries))
unfolding insert_all put_all
insert_all-Represents t f [] md h = (t, (refl, md))
insert_all-Represents t f ((key, (value, type)) ∷ entries) md ((isText, fits, ne), h) =
    let (r, (e, md', status, old, size)) = insert_lem t f key value type md isText fits ne in
    let (t', (e', md'')) = insert_all-Represents r.tree _ entries md' h in
    (
      t',
      (
        subst
            (λ o.
              (elim o as (λ _. Option Art) [ none ↦ none | some r ↦ insert_all r.tree entries ])
              ≡ some t')
            (sym e) e',
        md'',
      ),
    )

-- After the insertions of any sequence of texts, each below 2^32 bytes with its 0, with values whose
-- types are not none, into a new tree, which follow no NULL, a search for any such text finds the
-- value that was created for its last entry, and nothing where it has no entry.
pub search-insert_all :
    (entries : List Entry)
    → All IsEntry entries
    → (t : Art) × ((insert_all art_create entries ≡ some t)
        × ((k : Bytes) → IsText k → Fits k → art_search t k ≡ put_all (λ k. none) entries k))
search-insert_all entries h =
    let (t, (e, md)) =
      insert_all-Represents art_create (λ k. none) entries art_create-Represents h in
    (t, (e, md.2))
