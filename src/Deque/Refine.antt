-- ===== src/Deque/Refine.antt =====
-- deque.c against the specification on lists: each operation, and runs of operations.
use pgvictoria.Prelude.{
  ℕ, suc, ◌+◌, ◌^◌, ◌<◌, true, false, Option, none, some, List, [], ◌∷◌, ◌++◌, ◌==◌, arith, ◌≡◌,
  refl, sym, ap, subst, map, length, inl, inr, ◌⊎◌,
}
use pgvictoria.Bytes.{Bytes}
use pgvictoria.Value.{Value, ValueType, ValueConfig, create, create_with_config}
use pgvictoria.Utils.Append.{append}
use pgvictoria.Deque.{
  Ptr, null, Store, Run, ok, Cmd, pure, ◌>>=◌, ◌>>◌, add, add_with_config, deque_link, poll,
  poll_last, peek, peek_last, deque_get, deque_exists, deque_size, deque_empty, remove, remove_loop,
  clear,
}
use pgvictoria.Deque.Shape.{Item, item, IsDeque, Holds, Returns}
use pgvictoria.Deque.Ends.{poll-cons, peek-cons, poll_last-snoc, peek_last-snoc, deque_link-snoc}
use pgvictoria.Deque.Search.{deque_get_lem, deque_exists_lem}
use pgvictoria.Deque.Remove.{remove_loop_lem, Returns-cong}
use pgvictoria.Deque.Spec.{
  Op, add_value, add_config, take_first, take_last, see_first, see_last, look_up, is_there,
  drop_tag, drop_all, count_all, ask_empty, done, taken, found, truth, number, run, spec,
  first_item, other_items, last_item, init_items, kept, dropped,
}

-- What `malloc` returns for an addition is not in use and not NULL, and one item more can be counted;
-- the items that a removal by tag counts in an `int` are fewer than 2^31.
abbrev pub Allocates : Store → List Item → Op → Type 0
Allocates st xs (add_value n t d type) =
    (st.live n ≡ false) × ((n == null) ≡ false) × (length xs + 1 < 2 ^ 32)
Allocates st xs (add_config n t d c) =
    (st.live n ≡ false) × ((n == null) ≡ false) × (length xs + 1 < 2 ^ 32)
Allocates st xs (drop_tag (some t)) = length (dropped (some t) false xs) < 2 ^ 31
Allocates st xs op = Unit

-- The specification of one operation, as a statement on a run of it.
abbrev pub Meets : Store → List Item → Op → Type 0
Meets st xs op = Returns (run op st) (spec op xs).0 (spec op xs).1 ((spec op xs).2 ++ st.destroyed)

Returns-map :
    {A B : Type 0} (f : A → B) (m : Cmd A) (st : Store) (a : A) (xs : List Item)
    (ds : List (Option Value))
    → Returns (m st) a xs ds
    → Returns ((m >>= λ x. pure (f x)) st) (f a) xs ds
Returns-map f m st a xs ds (st', e, h, w) = (st', rw e, h, w)

length-map : (f : Ptr → Item) (nodes : List Ptr) → length (map f nodes) ≡ length nodes
length-map f [] = refl
length-map f (a ∷ nodes) = ap suc (length-map f nodes)

module _ (f : Ptr → Item) (a : Ptr) where
  last_item-snoc : (nodes : List Ptr) → last_item (map f (nodes ++ a ∷ [])) ≡ some (f a)
  unfolding last_item
  last_item-snoc [] = refl
  last_item-snoc (b ∷ []) = refl
  last_item-snoc (b ∷ c ∷ nodes) = last_item-snoc (c ∷ nodes)

  init_items-snoc : (nodes : List Ptr) → init_items (map f (nodes ++ a ∷ [])) ≡ map f nodes
  unfolding init_items
  init_items-snoc [] = refl
  init_items-snoc (b ∷ []) = refl
  init_items-snoc (b ∷ c ∷ nodes) = ap (λ (l : List Item). f b ∷ l) (init_items-snoc (c ∷ nodes))

snoc_cases :
    (nodes : List Ptr) → (nodes ≡ []) ⊎ ((ns : List Ptr) × (a : Ptr) × (nodes ≡ ns ++ a ∷ []))
snoc_cases [] = inl refl
snoc_cases (b ∷ nodes) = elim (snoc_cases nodes) [
  | inl e ↦ inr ([], b, ap (λ (l : List Ptr). b ∷ l) e)
  | inr (ns, a, e) ↦ inr (b ∷ ns, a, ap (λ (l : List Ptr). b ∷ l) e)
]

kept-none : (xs : List Item) → kept none true xs ≡ []
unfolding kept
kept-none [] = refl
kept-none (x ∷ xs) = kept-none xs

-- On an empty deque the four operations at the ends find nothing.
empty_ends :
    (st : Store)
    → (st.size == 0) ≡ true
    → (poll st ≡ ok none st)
      × (poll_last st ≡ ok none st)
      × (peek st ≡ ok none st)
      × (peek_last st ≡ ok none st)
unfolding poll poll_last peek peek_last
empty_ends st z = (rw z, rw z, rw z, rw z)

module _ (st : Store) where
  no_nodes : IsDeque st [] → (st.size == 0) ≡ true
  no_nodes d = ground (arith, d.size)

  stays :
      (nodes : List Ptr)
      → IsDeque st nodes
      → {A : Type 0} (r : Run A) (a : A) → r ≡ ok a st
      → Returns r a (map (item st) nodes) st.destroyed
  stays nodes d r a e = (st, e, (nodes, d, refl), refl)

  firsts :
      (nodes : List Ptr)
      → IsDeque st nodes
      → Meets st (map (item st) nodes) take_first × Meets st (map (item st) nodes) see_first
  unfolding run spec first_item other_items
  firsts [] d = (
    Returns-map taken poll st none [] st.destroyed
        (stays [] d (poll st) none (empty_ends st (no_nodes d)).0),
    Returns-map taken peek st none [] st.destroyed
        (stays [] d (peek st) none (empty_ends st (no_nodes d)).2),
  )
  firsts (a ∷ nodes) d = (
    Returns-map taken poll st _ _ _ (poll-cons st a nodes d),
    Returns-map taken peek st _ _ _ (peek-cons st a nodes d),
  )

  lasts_snoc :
      (ns : List Ptr) (a : Ptr)
      → IsDeque st (ns ++ a ∷ [])
      → Meets st (map (item st) (ns ++ a ∷ [])) take_last
        × Meets st (map (item st) (ns ++ a ∷ [])) see_last
  unfolding run spec
  lasts_snoc ns a d =
      let l = last_item-snoc (item st) a ns in
      let i = init_items-snoc (item st) a ns in
      (
        Returns-cong refl (ap taken (sym l)) (sym i) refl
            (Returns-map taken poll_last st _ _ _ (poll_last-snoc st a ns d)),
        Returns-cong refl (ap taken (sym l)) refl refl
            (Returns-map taken peek_last st _ _ _ (peek_last-snoc st a ns d)),
      )

  lasts_none : IsDeque st [] → Meets st [] take_last × Meets st [] see_last
  unfolding run spec last_item init_items
  lasts_none d = (
    Returns-map taken poll_last st none [] st.destroyed
        (stays [] d (poll_last st) none (empty_ends st (no_nodes d)).1),
    Returns-map taken peek_last st none [] st.destroyed
        (stays [] d (peek_last st) none (empty_ends st (no_nodes d)).3),
  )

  lasts :
      (nodes : List Ptr)
      → IsDeque st nodes
      → Meets st (map (item st) nodes) take_last × Meets st (map (item st) nodes) see_last
  lasts nodes d = elim (snoc_cases nodes) [
    | inl e ↦
        subst (λ ns. Meets st (map (item st) ns) take_last × Meets st (map (item st) ns) see_last)
          (sym e) (lasts_none (subst (IsDeque st) e d))
    | inr (ns, a, e) ↦
        subst (λ ms. Meets st (map (item st) ms) take_last × Meets st (map (item st) ms) see_last)
          (sym e) (lasts_snoc ns a (subst (IsDeque st) e d))
  ]

  module _ (nodes : List Ptr) (d : IsDeque st nodes) where
    linking :
        (n : Ptr) (t : Option Bytes) (v : Option Value)
        → (st.live n ≡ false) × ((n == null) ≡ false) × (length (map (item st) nodes) + 1 < 2 ^ 32)
        → Returns
            ((deque_link n t v >> pure done) st)
            done
            (map (item st) nodes ++ (append none t, v) ∷ [])
            st.destroyed
    linking n t v (dead, nn, room) =
        Returns-map (λ (_ : Unit {0}). done) (deque_link n t v) st tt _ _
          (deque_link-snoc st nodes d n dead nn (omega (arith, room, length-map (item st) nodes)) t
            v)

    adding :
        (n : Ptr) (t : Option Bytes) (w : ℕ) (type : ValueType)
        → Allocates st (map (item st) nodes) (add_value n t w type)
        → Meets st (map (item st) nodes) (add_value n t w type)
    unfolding run spec add
    adding n t w ValueType.type_none h = (st, refl, (nodes, d, refl), refl)
    adding n t w type h = linking n t (create type w) h

    configuring :
        (n : Ptr) (t : Option Bytes) (w : ℕ) (c : Option ValueConfig)
        → Allocates st (map (item st) nodes) (add_config n t w c)
        → Meets st (map (item st) nodes) (add_config n t w c)
    unfolding run spec add_with_config
    configuring n t w none h = linking n t (create ValueType.ref w) h
    configuring n t w (some c) h = linking n t (create_with_config w (some c)) h

    removing :
        (t : Option Bytes)
        → Allocates st (map (item st) nodes) (drop_tag t)
        → Meets st (map (item st) nodes) (drop_tag t)
    unfolding run spec remove
    removing none h = (st, refl, (nodes, d, refl), refl)
    removing (some t) h = Returns-map number (remove (some t)) st _ _ _ (
        Returns-cong refl (omega arith) refl refl (
          remove_loop_lem (some t) false (suc st.size) 0 st [] nodes d (omega (arith, d.size))
            (omega (arith, h))))

    clearing : Meets st (map (item st) nodes) drop_all
    unfolding run spec clear
    clearing =
        Returns-map (λ (_ : Unit {0}). done) clear st tt _ _
          (Returns-map (λ (_ : ℕ). tt) (remove_loop (suc st.size) none true st.start 0) st _ _ _
            (Returns-cong refl refl (kept-none (map (item st) nodes)) refl
              (remove_loop_lem none true (suc st.size) 0 st [] nodes d (omega (arith, d.size)) tt)))

    looking : (t : Option Bytes) → Meets st (map (item st) nodes) (look_up t)
    unfolding run spec
    looking t =
        Returns-map found (deque_get t) st _ _ _
          (stays nodes d (deque_get t st) _ (deque_get_lem st nodes d t))

    asking : (t : Option Bytes) → Meets st (map (item st) nodes) (is_there t)
    unfolding run spec
    asking t =
        Returns-map truth (deque_exists t) st _ _ _
          (stays nodes d (deque_exists t st) _ (deque_exists_lem st nodes d t))

    counting : Meets st (map (item st) nodes) count_all × Meets st (map (item st) nodes) ask_empty
    unfolding run spec deque_size deque_empty
    counting =
        let e : st.size ≡ length (map (item st) nodes) =
          omega (arith, d.size, length-map (item st) nodes) in
        (
          (st, ap (λ (n : ℕ). ok (number n) st) e, (nodes, d, refl), refl),
          (st, ap (λ (n : ℕ). ok (truth (n == 0)) st) e, (nodes, d, refl), refl),
        )

-- Whatever the deque holds, each operation comes back, without a fault and with enough rounds, with
-- the result, the items and the destroyed values that the specification states; for an addition, what
-- `malloc` returns is not in use and not NULL, and there are fewer than 2^32 - 1 items before; for a
-- removal by tag, fewer than 2^31 items have the tag.
pub run_refines :
    (st : Store) (xs : List Item) (op : Op) → Holds st xs → Allocates st xs op → Meets st xs op
run_refines st xs op (nodes, d, e) h =
    subst (λ ys. Meets st ys op) e (go op (subst (λ ys. Allocates st ys op) (sym e) h))
  where
    go : (o : Op) → Allocates st (map (item st) nodes) o → Meets st (map (item st) nodes) o
    go (add_value n t w type) k = adding st nodes d n t w type k
    go (add_config n t w c) k = configuring st nodes d n t w c k
    go take_first k = (firsts st nodes d).0
    go take_last k = (lasts st nodes d).0
    go see_first k = (firsts st nodes d).1
    go see_last k = (lasts st nodes d).1
    go (look_up t) k = looking st nodes d t
    go (is_there t) k = asking st nodes d t
    go (drop_tag t) k = removing st nodes d t k
    go drop_all k = clearing st nodes d
    go count_all k = (counting st nodes d).0
    go ask_empty k = (counting st nodes d).1
