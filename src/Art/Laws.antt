-- ===== src/Art/Laws.antt =====
-- The tree of art.c as a map from texts to values.
use pgvictoria.Prelude.{
  ℕ, zero, suc, ◌+◌, ◌%◌, ◌^◌, ◌<◌, ◌≡◌, ◌≢◌, true, false, inl, inr, Option, some, none,
  if◌then◌else◌, [], ◌∷◌, All, arith, refl, sym, ap, subst, ◌∙◌, Bool-cases, Option-cases, length,
  length-append, take,
}
use mathlib.Core.List.{append_cancel_right}
use pgvictoria.Bytes.{Bytes, str_eq}
use pgvictoria.Bytes.Laws.{str_eq→eq, str_eq_refl}
use pgvictoria.Value.{Value, ValueType, type_none, create}
use pgvictoria.Art.{Node}
use pgvictoria.Art.Search.{byte, search_from}
use pgvictoria.Art.Insert.{Inserted}
use pgvictoria.Art.Tree.{
  Art, ended, with_end, art_search, is_found, contains_key, Outcome, conclude, insert_value, insert,
}
use pgvictoria.Art.Holding.{IsKey, IsTree, Holds}
use pgvictoria.Art.Finding.{search_from-Holds, Holds-search_from}
use pgvictoria.Art.Telling.{Tells}
use pgvictoria.Art.Insertion.{art_node_insert_lem}
use pgvictoria.Art.Splitting.{Keeps}

-- A C string: no byte is 0.
abbrev pub IsText : Bytes → Type 0
IsText key = All (λ c. (0 < c) × (c < 256)) key

ended-byte : (key : Bytes) → IsText key → (i : ℕ) → byte (ended key) i < 256
ended-byte [] h zero = omega arith
ended-byte [] h (suc i) = omega arith
ended-byte (c ∷ key) h zero = h.0.1
ended-byte (c ∷ key) h (suc i) = ended-byte key h.1 i

take-byte : (key : Bytes) (n i : ℕ) → ((j : ℕ) → byte key j < 256) → byte (take n key) i < 256
take-byte key zero i h = omega arith
take-byte [] (suc n) i h = omega arith
take-byte (c ∷ key) (suc n) zero h = h 0
take-byte (c ∷ key) (suc n) (suc i) h = take-byte key n i (λ j. h (suc j))

pub end-byte : (key : Bytes) → IsText key → (i : ℕ) → byte (with_end key) i < 256
end-byte key h i = take-byte (ended key) ((length key + 1) % 2 ^ 32) i (ended-byte key h)

end-nonzero : (key : Bytes) → IsText key → (i : ℕ) → i < length key → byte (ended key) i ≢ 0
end-nonzero [] h i lt = absurd (omega (arith, lt))
end-nonzero (c ∷ key) h zero lt = λ e. omega (arith, e, h.0.0)
end-nonzero (c ∷ key) h (suc i) lt = end-nonzero key h.1 i (omega (arith, lt))

end-zero : (key : Bytes) → byte (ended key) (length key) ≡ 0
end-zero [] = refl
end-zero (c ∷ key) = end-zero key

-- strlen(key) + 1 fits in a uint32_t.
abbrev pub Fits : Bytes → Type 0
Fits key = length key + 1 < 2 ^ 32

pub take-all : (s : Bytes) → take (length s) s ≡ s
take-all [] = refl
take-all (c ∷ s) = ap (λ (t : Bytes). c ∷ t) (take-all s)

pub with_end-ended : (key : Bytes) → Fits key → with_end key ≡ ended key
with_end-ended key h =
    let e : (length key + 1) % 2 ^ 32 ≡ length (ended key) =
      omega (arith, h, length-append key (0 ∷ [])) in
    ap (λ (n : ℕ). take n (ended key)) e ∙ take-all (ended key)

pub length-with_end : (key : Bytes) → Fits key → length (with_end key) ≡ length key + 1
length-with_end key h = ap length (with_end-ended key h) ∙ length-append key (0 ∷ [])

pub with_end-IsKey : (key : Bytes) → IsText key → Fits key → IsKey (with_end key)
with_end-IsKey key h fits =
    subst IsKey (sym (with_end-ended key fits))
      (length key, length-append key (0 ∷ []), end-zero key, end-nonzero key h, ended-byte key h)

with_end_inj : (a b : Bytes) → Fits a → Fits b → with_end a ≡ with_end b → a ≡ b
with_end_inj a b fa fb e =
    append_cancel_right a b (0 ∷ []) (sym (with_end-ended a fa) ∙ e ∙ with_end-ended b fb)

-- A map from texts to values, and the one with a value put under a key.
abbrev pub Map : Type 0
Map = Bytes → Option Value

abbrev pub put : Bytes → Option Value → Map → Map
put key value f k = if str_eq k key then value else f k

-- The tree is formed as the insertions form it, no value in it is NULL, and a text is found in it
-- as in the map.
abbrev pub Models : Art → Map → Type 0
Models t f =
    IsTree 0 (λ i. 0) t.root
    × ((k : Bytes) → Holds k none t.root → ⊥)
    × ((k : Bytes) → IsText k → art_search t k ≡ f k)

-- The same of the texts whose length fits, in a tree whose keys have lengths that fit.
abbrev pub Represents : Art → Map → Type 0
Represents t f =
    IsTree 0 (λ i. 0) t.root
    × ((k : Bytes) → Holds k none t.root → ⊥)
    × ((k : Bytes) → IsText k → Fits k → art_search t k ≡ f k)
    × ((k : Bytes) (o : Option Value) → Holds k o t.root → length k < 2 ^ 32)

-- Trees that hold the same under a key are searched alike.
same_search :
    (n m : Node) (key : Bytes)
    → IsKey key
    → IsTree 0 (λ i. 0) n
    → IsTree 0 (λ i. 0) m
    → ((o : Option Value) → (Holds key o n → Holds key o m) × (Holds key o m → Holds key o n))
    → search_from m 0 key ≡ search_from n 0 key
same_search n m key isKey tn tm h = elim (Option-cases (search_from n 0 key)) [
  | inr (v, e) ↦
      Holds-search_from m 0 (λ i. 0) key (some v) tm
        ((h (some v)).0 (search_from-Holds n 0 key v isKey.4 e))
      ∙ sym e
  | inl e ↦ elim (Option-cases (search_from m 0 key)) [
    | inl f ↦ f ∙ sym e
    | inr (v, f) ↦
        f
        ∙ sym (
            Holds-search_from n 0 (λ i. 0) key (some v) tn
              ((h (some v)).1 (search_from-Holds m 0 key v isKey.4 f)))
  ]
]

contains_key-none :
    (t : Art) (key : Bytes) → art_search t key ≡ none → contains_key t (some key) ≡ false
unfolding contains_key
contains_key-none t key e = ap is_found e

contains_key-some :
    (t : Art) (key : Bytes) (v : Value)
    → art_search t key ≡ some v
    → contains_key t (some key) ≡ true
unfolding contains_key
contains_key-some t key v e = ap is_found e

abbrev pub Stores : Art → Map → Bytes → Option Value → Option Outcome → Type 0
Stores t f key value o =
    (r : Outcome) × ((o ≡ some r)
      × Represents r.tree (put key value f)
      × (r.status ≡ 0)
      × (r.destroyed ≡ f key)
      × (r.tree.size ≡ (if contains_key t (some key) then t.size else (t.size + 1) % 2 ^ 64)))

module _ (t : Art) (f : Map) (key : Bytes) (v : Value) (md : Represents t f) (isText : IsText key)
    (fits : Fits key) where
  -- What the insertion leaves represents the map with the value put under the key.
  put-Represents :
      (r : Inserted)
      → IsTree 0 (λ i. 0) r.node
      → Holds (with_end key) (some v) r.node
      → Keeps (with_end key) t.root r.node
      → (size : ℕ) → Represents (record { root = r.node; size = size }) (put key (some v) f)
  unfolding art_search
  put-Represents r tree there keeps size = (
    tree,
    λ k h. elim (Bool-cases (str_eq k (with_end key))) [
      | inl e ↦
          let g = Holds-search_from r.node 0 (λ i. 0) (with_end key) (some v) tree there in
          let h' = subst (λ q. Holds q none r.node) (str_eq→eq k (with_end key) e) h in
          let g' = Holds-search_from r.node 0 (λ i. 0) (with_end key) none tree h' in
          absurd (let z = sym g' ∙ g in cc)
      | inr e ↦ md.1 k (
          (keeps k none (λ z. absurd (let w = sym (str_eq_refl k) ∙ ap (str_eq k) z ∙ e in cc))).1
            h)
    ],
    λ k tk fk. elim (Bool-cases (str_eq k key)) [
      | inl e ↦ rw e (
          subst (λ q. search_from r.node 0 (with_end q) ≡ some v) (sym (str_eq→eq k key e))
            (Holds-search_from r.node 0 (λ i. 0) (with_end key) (some v) tree there))
      | inr e ↦ rw e (
          same_search t.root r.node (with_end k) (with_end-IsKey k tk fk) md.0 tree (λ o.
            keeps (with_end k) o (λ z.
              let w = with_end_inj k key fk fits z in
              let u = sym (str_eq_refl k) ∙ ap (str_eq k) w ∙ e in cc))
          ∙ md.2 k tk fk)
    ],
    λ k o h. elim (Bool-cases (str_eq k (with_end key))) [
      | inl e ↦
          let l = ap length (str_eq→eq k (with_end key) e) ∙ length-with_end key fits in
          omega (arith, l, fits)
      | inr e ↦
          md.3 k o (
            (keeps k o (λ z. absurd (let w = sym (str_eq_refl k) ∙ ap (str_eq k) z ∙ e in cc))).1 h)
    ],
  )

  -- What the insertion says of the key before.
  told :
      (r : Inserted)
      → Tells (with_end key) t.root r
      → (r.old_val ≡ f key)
        × ((if r.is_new then (t.size + 1) % 2 ^ 64 else t.size)
            ≡ (if contains_key t (some key) then t.size else (t.size + 1) % 2 ^ 64))
  unfolding art_search
  told r (inl (a, b, c)) =
      let e : art_search t key ≡ none = elim (Option-cases (art_search t key)) [
        | inl e ↦ e
        | inr (u, e) ↦
            absurd
              (c (some u) (search_from-Holds t.root 0 (with_end key) u (end-byte key isText) e))
      ] in
      (b ∙ sym e ∙ md.2 key isText fits, rw (a, contains_key-none t key e) refl)
  told r (inr (a, b)) =
      let e : art_search t key ≡ r.old_val =
        Holds-search_from t.root 0 (λ i. 0) (with_end key) r.old_val md.0 b in
      elim (Option-cases r.old_val) [
        | inl g ↦ absurd (md.1 (with_end key) (subst (λ o. Holds (with_end key) o t.root) g b))
        | inr (u, g) ↦
            (sym e ∙ md.2 key isText fits, rw (a, contains_key-some t key u (e ∙ g)) refl)
      ]

  conclude_lem :
      (r : Inserted)
      → IsTree 0 (λ i. 0) r.node
      → Holds (with_end key) (some v) r.node
      → Keeps (with_end key) t.root r.node
      → Tells (with_end key) t.root r
      → Stores t f key (some v) (conclude t (some r))
  unfolding conclude
  conclude_lem r tree there keeps tells =
      let size = if r.is_new then (t.size + 1) % 2 ^ 64 else t.size in
      let (old, count) = told r tells in
      (
        record { tree = record { root = r.node; size = size }; status = 0; destroyed = r.old_val },
        (refl, put-Represents r tree there keeps size, refl, old, count),
      )

  insert_value_lem : Stores t f key (some v) (insert_value t key (some v))
  unfolding insert_value
  insert_value_lem =
      let isKey = with_end-IsKey key isText fits in
      let (r, (e, (tree, there, keeps, set), tells)) =
        art_node_insert_lem (with_end key) isKey v t.root 0 (λ i. 0) md.0 (omega arith)
          (λ i p. absurd (omega (arith, p))) in
      subst (λ o. Stores t f key (some v) (conclude t o)) (sym e)
        (conclude_lem r tree there keeps tells)

pub create-some :
    (type : ValueType) (d : ℕ) → type ≢ type_none → (v : Value) × (create type d ≡ some v)
unfolding create
create-some type_none d h = absurd (h refl)
create-some _ d h = (_, refl)

insert-value :
    (t : Art) (key : Bytes) (d : ℕ) (type : ValueType)
    → type ≢ type_none
    → insert t (some key) d type ≡ insert_value t key (create type d)
unfolding insert
insert-value t key d type_none h = absurd (h refl)
insert-value t key d _ h = refl

-- In a tree that represents a map on the texts whose length with the 0 is below 2^32, and whose keys
-- are below 2^32 bytes, inserting such a text with a value whose type is not none follows no NULL
-- and returns 0; the tree that is left represents the map with the created value put under the text,
-- its keys again below 2^32 bytes, the value that is destroyed is the one that the map had there, and
-- the size is counted up, as a uint64_t, exactly where the tree did not contain the text.
pub insert_lem :
    (t : Art) (f : Map) (key : Bytes) (d : ℕ) (type : ValueType)
    → Represents t f
    → IsText key
    → Fits key
    → type ≢ type_none
    → Stores t f key (create type d) (insert t (some key) d type)
insert_lem t f key d type md isText fits h =
    let (v, e) = create-some type d h in
    subst (Stores t f key (create type d)) (sym (insert-value t key d type h)) (
      subst (λ o. Stores t f key o (insert_value t key o)) (sym e)
        (insert_value_lem t f key v md isText fits))
