-- ===== src/Deque/Search.antt =====
-- Walking along a deque: `deque_next` and `deque_find`.
use pgvictoria.Prelude.{
  All-split, ℕ, zero, suc, ◌<◌, Bool, true, false, Option, none, some, List, [], ◌∷◌, ◌++◌, ◌==◌,
  if◌then◌else◌, arith, ◌≡◌, refl, All, map, length, Bool-cases, inl, inr, ==_refl,
}
use pgvictoria.Bytes.{Bytes}
use pgvictoria.Value.{Value}
use pgvictoria.Utils.Text.{compare_string}
use pgvictoria.Deque.{
  Ptr, null, Store, Run, ok, read, get_next, get_tag, get_value, deque_next, find_loop, deque_find,
  deque_get, deque_exists, Cmd, pure, ◌>>=◌,
}
use pgvictoria.Deque.Links.{Linked, Apart}
use pgvictoria.Deque.Spec.{find_item, is_found}
use pgvictoria.Deque.Shape.{item, IsDeque, end-Apart}

-- From the node `a` on the nodes `ns` follow, and then the end.
pub record Follows (st : Store) (a : Ptr) (ns : List Ptr) : Type 0 where
  pub linked : Linked st.next st.prev (a ∷ (ns ++ st.end ∷ []))
  pub alive : All (λ b. st.live b ≡ true) (a ∷ ns)
  pub not_null : All (λ b. (b == null) ≡ false) (a ∷ ns)
  pub apart : Apart st.end ns

pub Follows-tail :
    (st : Store) (a b : Ptr) (ns : List Ptr) → Follows st a (b ∷ ns) → Follows st b ns
Follows-tail st a b ns f = record {
  linked = f.linked.2;
  alive = f.alive.1;
  not_null = f.not_null.1;
  apart = f.apart.1;
}

pub IsDeque-Follows : (st : Store) (nodes : List Ptr) → IsDeque st nodes → Follows st st.start nodes
IsDeque-Follows st nodes d = record {
  linked = d.row.linked;
  alive = (All-split (λ b. st.live b ≡ true) (st.start ∷ nodes) (st.end ∷ []) d.row.alive).0;
  not_null =
      (All-split (λ b. (b == null) ≡ false) (st.start ∷ nodes) (st.end ∷ []) d.row.not_null).0;
  apart = (end-Apart st nodes d).1;
}

abbrev pub head_of : List Ptr → Option Ptr
head_of [] = none
head_of (b ∷ ns) = some b

pub deque_next_lem :
    (st : Store) (a : Ptr) (ns : List Ptr)
    → Follows st a ns
    → (st.size == 0) ≡ false
    → deque_next a st ≡ ok (head_of ns) st
unfolding deque_next get_next read
deque_next_lem st a [] f z = rw (z, f.not_null.0, f.alive.0, f.linked.0, ==_refl st.end)
deque_next_lem st a (b ∷ ns) f z = rw (z, f.not_null.0, f.alive.0, f.linked.0, f.apart.0.0)

-- The first node with the tag.
find_node : Store → Bytes → List Ptr → Option Ptr
find_node st t [] = none
find_node st t (b ∷ ns) = if compare_string (some t) (st.tag b) then some b else find_node st t ns

find_loop_lem :
    (st : Store) (t : Bytes) (fuel : ℕ) (a : Ptr) (ns : List Ptr)
    → Follows st a ns
    → (st.size == 0) ≡ false
    → length ns < fuel
    → find_loop fuel t (head_of ns) st ≡ ok (find_node st t ns) st
unfolding find_loop get_tag read find_node
find_loop_lem st t zero a ns f z h = absurd (omega arith)
find_loop_lem st t (suc fuel) a [] f z h = refl
find_loop_lem st t (suc fuel) a (b ∷ ns) f z h =
    elim (Bool-cases (compare_string (some t) (st.tag b))) [
      | inl e ↦ rw (f.alive.1.0, e)
      | inr e ↦
          let g = Follows-tail st a b ns f in
          rw (f.alive.1.0, e, deque_next_lem st b ns g z)
            (find_loop_lem st t fuel b ns g z (omega arith))
    ]

-- What is done with the node that was found.
with_value : Option Ptr → Cmd (Option (Option Value))
with_value found = elim found [ none ↦ pure none | some n ↦ (do v ← get_value n; pure (some v)) ]

with_value_lem :
    (st : Store) (c : ℕ) (t : Bytes) (ns : List Ptr)
    → All (λ b. st.live b ≡ true) ns
    → with_value (find_node st (c ∷ t) ns) st ≡ ok (find_item (some (c ∷ t)) (map (item st) ns)) st
unfolding with_value find_node find_item get_value read
with_value_lem st c t [] h = refl
with_value_lem st c t (b ∷ ns) (h, k) =
    elim (Bool-cases (compare_string (some (c ∷ t)) (st.tag b))) [
      | inl e ↦ rw (e, h)
      | inr e ↦ rw e (with_value_lem st c t ns k)
    ]

is_found-find_node :
    (st : Store) (c : ℕ) (t : Bytes) (ns : List Ptr)
    → elim (find_node st (c ∷ t) ns) [ none ↦ false | some n ↦ true ]
      ≡ is_found (find_item (some (c ∷ t)) (map (item st) ns))
unfolding find_node find_item is_found
is_found-find_node st c t [] = refl
is_found-find_node st c t (b ∷ ns) = elim (Bool-cases (compare_string (some (c ∷ t)) (st.tag b))) [
  | inl e ↦ rw e
  | inr e ↦ rw e (is_found-find_node st c t ns)
]

deque_find_lem :
    (st : Store) (nodes : List Ptr) (c : ℕ) (t : Bytes)
    → IsDeque st nodes
    → deque_find (some (c ∷ t)) st ≡ ok (find_node st (c ∷ t) nodes) st
unfolding deque_find
deque_find_lem st [] c t d =
    let z : (st.size == 0) ≡ true = ground (arith, d.size) in rw z (unfold find_node in refl)
deque_find_lem st (b ∷ ns) c t d =
    let z : (st.size == 0) ≡ false = ground (arith, d.size) in
    let f = IsDeque-Follows st (b ∷ ns) d in
    rw (z, deque_next_lem st st.start (b ∷ ns) f z)
      (find_loop_lem st (c ∷ t) (suc st.size) st.start (b ∷ ns) f z (omega (arith, d.size)))

module _ (st : Store) (nodes : List Ptr) (d : IsDeque st nodes) where
  pub deque_get_lem :
      (t : Option Bytes) → deque_get t st ≡ ok (find_item t (map (item st) nodes)) st
  unfolding deque_get with_value
  deque_get_lem none = unfold deque_find find_item in refl
  deque_get_lem (some []) = unfold deque_find find_item in refl
  deque_get_lem (some (c ∷ t)) =
      rw (deque_find_lem st nodes c t d)
        (with_value_lem st c t nodes (IsDeque-Follows st nodes d).alive.1)

  pub deque_exists_lem :
      (t : Option Bytes) → deque_exists t st ≡ ok (is_found (find_item t (map (item st) nodes))) st
  unfolding deque_exists is_found
  deque_exists_lem none = unfold deque_find find_item in refl
  deque_exists_lem (some []) = unfold deque_find find_item in refl
  deque_exists_lem (some (c ∷ t)) =
      rw (deque_find_lem st nodes c t d, ← is_found-find_node st c t nodes)
        (answer (find_node st (c ∷ t) nodes))
    where
      answer :
          (f : Option Ptr)
          → ◌≡◌ {A = Run Bool}
              ((elim f as (λ _. Cmd Bool) [ none ↦ pure false | some n ↦ pure true ]) st)
              (ok (elim f [ none ↦ false | some n ↦ true ]) st)
      answer none = refl
      answer (some n) = refl
