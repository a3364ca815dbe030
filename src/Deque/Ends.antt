-- ===== src/Deque/Ends.antt =====
-- The operations at the two ends of a deque.
use pgvictoria.Prelude.{
  All-middle, All-split, ◌+◌, ◌<◌, ◌%◌, ◌-◌, ◌^◌, true, false, Option, none, some, List, [], ◌∷◌,
  ◌++◌, ◌==◌, arith, ◌≡◌, refl, sym, ap, subst, All, append_assoc, map, length, length-append,
  map-append, ==_refl, ◌∙◌,
}
use pgvictoria.Bytes.{Bytes}
use pgvictoria.Value.{Value}
use pgvictoria.Deque.{
  Ptr, null, put, Store, ok, read, get_next, get_prev, get_tag, get_value, set_next, set_prev, free,
  shrink, grow, poll, poll_last, peek, peek_last, deque_link, deque_node_create,
}
use pgvictoria.Utils.Append.{append}
use pgvictoria.Deque.Links.{Linked-split, Apart, IsOther}
use pgvictoria.Deque.Shape.{
  IsRow, IsRow-unlink, IsRow-link, fresh-Apart, item, IsDeque, Returns, end-Apart, map-item,
}

-- The store in which `x` is taken out from between `p` and `q`.
abbrev pub unlinked : Store → Ptr → Ptr → Ptr → Store
unlinked st p x q = record st {
  live = put x false st.live;
  next = put p q st.next;
  prev = put q p st.prev;
  size = (st.size + (2 ^ 32 - 1)) % 2 ^ 32;
}

poll_lem :
    (st : Store) (a q : Ptr) (zs : List Ptr)
    → IsRow st.live st.next st.prev (st.start ∷ a ∷ q ∷ zs)
    → (a == st.end) ≡ false
    → (st.size == 0) ≡ false
    → poll st ≡ ok (some (item st a)) (unlinked st st.start a q)
unfolding poll get_next get_tag get_value set_next set_prev free shrink read
poll_lem st a q zs r e z =
    let (ls, (la, (lq, _))) = r.alive in
    let (f, _, (g, _, _)) = r.linked in rw (z, ls, f, e, la, g, ls, lq, la, la, la)

peek_lem :
    (st : Store) (a q : Ptr) (zs : List Ptr)
    → IsRow st.live st.next st.prev (st.start ∷ a ∷ q ∷ zs)
    → (a == st.end) ≡ false
    → (st.size == 0) ≡ false
    → peek st ≡ ok (some (item st a)) st
unfolding peek get_next get_tag get_value read
peek_lem st a q zs r e z =
    let (ls, (la, (lq, _))) = r.alive in
    let (f, _, (g, _, _)) = r.linked in rw (z, ls, f, e, la, la)

-- The first node, and the one behind it or the end.
abbrev pub first_rest : Store → List Ptr → Ptr × List Ptr
first_rest st [] = (st.end, [])
first_rest st (b ∷ nodes) = (b, nodes ++ st.end ∷ [])

pub first_rest_lem :
    (st : Store) (nodes : List Ptr)
    → nodes ++ st.end ∷ [] ≡ (first_rest st nodes).0 ∷ (first_rest st nodes).1
first_rest_lem st [] = refl
first_rest_lem st (b ∷ nodes) = refl

module _ (st : Store) (a : Ptr) (nodes : List Ptr) (d : IsDeque st (a ∷ nodes)) where
  first-IsRow :
      IsRow st.live st.next st.prev
        (st.start ∷ a ∷ (first_rest st nodes).0 ∷ (first_rest st nodes).1)
  first-IsRow =
      subst (λ (l : List Ptr). IsRow st.live st.next st.prev (st.start ∷ a ∷ l))
        (first_rest_lem st nodes) d.row

  first_no_end : (a == st.end) ≡ false
  first_no_end = (end-Apart st (a ∷ nodes) d).1.0.0

  sized : (st.size == 0) ≡ false
  sized = ground (arith, d.size)

  -- Polling takes the first item, and the rest stays.
  pub poll-cons : Returns (poll st) (some (item st a)) (map (item st) nodes) st.destroyed
  poll-cons =
      let q = (first_rest st nodes).0 in
      let zs = (first_rest st nodes).1 in
      (
        unlinked st st.start a q,
        poll_lem st a q zs first-IsRow first_no_end sized,
        (
          nodes,
          record {
            row =
                subst
                  (λ (l : List Ptr).
                    IsRow (put a false st.live) (put st.start q st.next) (put q st.start st.prev)
                      (st.start ∷ l))
                  (sym (first_rest_lem st nodes))
                  (IsRow-unlink st.live st.next st.prev [] st.start a q zs first-IsRow);
            size = omega (arith, d.size, d.room);
            room = omega (arith, d.room);
          },
          refl,
        ),
        refl,
      )

  pub peek-cons : Returns (peek st) (some (item st a)) (map (item st) (a ∷ nodes)) st.destroyed
  peek-cons = (
    st,
    peek_lem st a (first_rest st nodes).0 (first_rest st nodes).1 first-IsRow first_no_end sized,
    (a ∷ nodes, d, refl),
    refl,
  )

-- A row of at least one node, cut before its last one.
abbrev pub init_last : Ptr → List Ptr → List Ptr × Ptr
init_last s [] = ([], s)
init_last s (b ∷ nodes) = (s ∷ (init_last b nodes).0, (init_last b nodes).1)

pub init_last_lem :
    (s : Ptr) (nodes rest : List Ptr)
    → s ∷ (nodes ++ rest) ≡ (init_last s nodes).0 ++ (init_last s nodes).1 ∷ rest
init_last_lem s [] rest = refl
init_last_lem s (b ∷ nodes) rest = ap (λ (l : List Ptr). s ∷ l) (init_last_lem b nodes rest)

poll_last_lem :
    (st : Store) (ys : List Ptr) (p a : Ptr)
    → IsRow st.live st.next st.prev (ys ++ p ∷ a ∷ st.end ∷ [])
    → (a == st.start) ≡ false
    → (st.size == 0) ≡ false
    → (poll_last st ≡ ok (some (item st a)) (unlinked st p a st.end))
      × (peek_last st ≡ ok (some (item st a)) st)
unfolding poll_last peek_last get_prev get_tag get_value set_next set_prev free shrink read
poll_last_lem st ys p a r e z =
    let (_, lp, (la, (le, _))) =
      All-middle (λ b. st.live b ≡ true) ys p (a ∷ st.end ∷ []) r.alive in
    let (_, _, g, (_, h, _)) = Linked-split st.next st.prev ys p a (st.end ∷ []) r.linked in
    (rw (z, le, h, e, la, g, le, lp, la, la, la), rw (z, le, h, e, la, la))

module _ (st : Store) (a : Ptr) (nodes : List Ptr) (d : IsDeque st (nodes ++ a ∷ [])) where
  last-IsRow :
      IsRow st.live st.next st.prev
        ((init_last st.start nodes).0 ++ (init_last st.start nodes).1 ∷ a ∷ st.end ∷ [])
  last-IsRow =
      subst (IsRow st.live st.next st.prev)
        (ap (λ (l : List Ptr). st.start ∷ l) (append_assoc nodes (a ∷ []) (st.end ∷ []))
          ∙ init_last_lem st.start nodes (a ∷ st.end ∷ []))
        d.row

  last_no_start : (a == st.start) ≡ false
  last_no_start =
      let (h, _) = All-split (IsOther st.start) (nodes ++ a ∷ []) (st.end ∷ []) d.row.distinct.0 in
      (All-middle (IsOther st.start) nodes a [] h).1.0

  sized_last : (st.size == 0) ≡ false
  sized_last = ground (arith, d.size, length-append nodes (a ∷ []))

  -- Polling the last takes the last item.
  pub poll_last-snoc : Returns (poll_last st) (some (item st a)) (map (item st) nodes) st.destroyed
  poll_last-snoc =
      let ys = (init_last st.start nodes).0 in
      let p = (init_last st.start nodes).1 in
      (
        unlinked st p a st.end,
        (poll_last_lem st ys p a last-IsRow last_no_start sized_last).0,
        (
          nodes,
          record {
            row =
                subst (IsRow (put a false st.live) (put p st.end st.next) (put st.end p st.prev))
                  (sym (init_last_lem st.start nodes (st.end ∷ [])))
                  (IsRow-unlink st.live st.next st.prev ys p a st.end [] last-IsRow);
            size = omega (arith, d.size, d.room, length-append nodes (a ∷ []));
            room = omega (arith, d.room, length-append nodes (a ∷ []));
          },
          refl,
        ),
        refl,
      )

  pub peek_last-snoc :
      Returns (peek_last st) (some (item st a)) (map (item st) (nodes ++ a ∷ [])) st.destroyed
  peek_last-snoc = (
    st,
    (poll_last_lem st (init_last st.start nodes).0 (init_last st.start nodes).1 a last-IsRow
        last_no_start sized_last).1,
    (nodes ++ a ∷ [], d, refl),
    refl,
  )

-- The store in which the new node `n` stands between `p` and the end.
abbrev linked_in : Store → Ptr → Ptr → Option Bytes → Option Value → Store
linked_in st p n t v = record st {
  live = put n true st.live;
  next = put n st.end (put p n (put n null st.next));
  prev = put st.end n (put n p (put n null st.prev));
  tag = put n (append none t) st.tag;
  value = put n v st.value;
  size = (st.size + 1) % 2 ^ 32;
}

module _ (st : Store) (p n : Ptr) (t : Option Bytes) (v : Option Value) where
  others_same :
      (nodes : List Ptr)
      → Apart n nodes
      → All (λ a. item (linked_in st p n t v) a ≡ item st a) nodes
  others_same [] h = tt
  others_same (a ∷ nodes) (h, k) = (rw h.0 refl, others_same nodes k)

deque_link_lem :
    (st : Store) (ys : List Ptr) (p n : Ptr) (t : Option Bytes) (v : Option Value)
    → IsRow st.live st.next st.prev (ys ++ p ∷ st.end ∷ [])
    → st.live n ≡ false
    → deque_link n t v st ≡ ok tt (linked_in st p n t v)
unfolding deque_link deque_node_create grow get_prev set_next set_prev read
deque_link_lem st ys p n t v r dead =
    let (_, lp, (le, _)) = All-middle (λ b. st.live b ≡ true) ys p (st.end ∷ []) r.alive in
    let (_, _, g, _) = Linked-split st.next st.prev ys p st.end [] r.linked in
    let (_, op, (oe, _)) =
      All-middle (IsOther n) ys p (st.end ∷ [])
        (fresh-Apart st.live n (ys ++ p ∷ st.end ∷ []) dead r.alive) in
    rw (oe.0, le, g, op.0, lp, ==_refl n, ==_refl n, oe.0, le)

module _ (st : Store) (nodes : List Ptr) (d : IsDeque st nodes) (n : Ptr) (dead : st.live n ≡ false)
    (not_null : (n == null) ≡ false) (room : length nodes + 1 < 2 ^ 32) (t : Option Bytes)
    (v : Option Value) where
  -- Linking puts the new item behind the others.
  pub deque_link-snoc :
      Returns (deque_link n t v st) tt (map (item st) nodes ++ (append none t, v) ∷ []) st.destroyed
  deque_link-snoc =
      let ys = (init_last st.start nodes).0 in
      let p = (init_last st.start nodes).1 in
      let r =
        subst (IsRow st.live st.next st.prev) (init_last_lem st.start nodes (st.end ∷ [])) d.row in
      let st' = linked_in st p n t v in
      let (fr, _) =
        All-split (IsOther n) nodes (st.end ∷ [])
          (fresh-Apart st.live n (st.start ∷ (nodes ++ st.end ∷ [])) dead d.row.alive).1 in
      (
        st',
        deque_link_lem st ys p n t v r dead,
        (
          nodes ++ n ∷ [],
          record {
            row =
                subst (IsRow st'.live st'.next st'.prev)
                  (sym (init_last_lem st.start nodes (n ∷ st.end ∷ []))
                    ∙ ap (λ (l : List Ptr). st.start ∷ l)
                        (sym (append_assoc nodes (n ∷ []) (st.end ∷ []))))
                  (IsRow-link st.live st.next st.prev ys p n st.end [] dead not_null r);
            size = omega (arith, d.size, room, length-append nodes (n ∷ []));
            room = omega (arith, room, length-append nodes (n ∷ []));
          },
          map-append (item st') nodes (n ∷ [])
              ∙ rw (==_refl n) (rw (map-item st st' nodes (others_same st p n t v nodes fr)) refl),
        ),
        refl,
      )
