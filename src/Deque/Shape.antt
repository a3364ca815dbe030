-- ===== src/Deque/Shape.antt =====
-- The shape that the operations of deque.c keep: a row of live nodes, and linking a node into the row
-- or out of it.
use pgvictoria.Prelude.{
  All-append, All-middle, ◌<◌, ◌^◌, Bool, true, false, Option, List, [], ◌∷◌, ◌++◌, ◌==◌, arith,
  ◌≡◌, refl, ap, All, map, length, ==_refl, ◌≢◌,
}
use pgvictoria.Bytes.{Bytes}
use pgvictoria.Value.{Value}
use pgvictoria.Deque.{Ptr, null, put, Store, Run, ok}
use pgvictoria.Deque.Links.{
  Linked, Apart, IsOther, Distinct, Linked-split, Linked-join, Linked-put_next_last,
  Linked-put_next, Linked-put_prev, Linked-put_prev_first, Distinct-middle, Distinct-insert,
}

-- Distinct live nodes, none of them NULL, each linked to the next.
pub record IsRow (live : Ptr → Bool) (nx pv : Ptr → Ptr) (row : List Ptr) : Type 0 where
  pub linked : Linked nx pv row
  pub distinct : Distinct row
  pub alive : All (λ a. live a ≡ true) row
  pub not_null : All (λ a. (a == null) ≡ false) row

alive-put-false :
    (live : Ptr → Bool) (x : Ptr) (row : List Ptr)
    → Apart x row
    → All (λ a. live a ≡ true) row
    → All (λ a. put x false live a ≡ true) row
alive-put-false live x [] h k = tt
alive-put-false live x (a ∷ row) (h, hs) (k, ks) = (rw h.0 k, alive-put-false live x row hs ks)

alive-put-true :
    (live : Ptr → Bool) (x : Ptr) (row : List Ptr)
    → All (λ a. live a ≡ true) row
    → All (λ a. put x true live a ≡ true) row
alive-put-true live x [] k = tt
alive-put-true live x (a ∷ row) (k, ks) = (ground arith, alive-put-true live x row ks)

-- An address that is not in use is none of the live nodes.
pub fresh-Apart :
    (live : Ptr → Bool) (n : Ptr) (row : List Ptr)
    → live n ≡ false
    → All (λ a. live a ≡ true) row
    → Apart n row
fresh-Apart live n [] h k = tt
fresh-Apart live n (a ∷ row) h (k, ks) =
    let other : a ≢ n = λ e. ground (arith, ap live e) in
    ((ground (arith, other), ground (arith, other)), fresh-Apart live n row h ks)

pub without :
    (P : Ptr → Type 0) (ys : List Ptr) (p x q : Ptr) (zs : List Ptr)
    → All P (ys ++ p ∷ x ∷ q ∷ zs)
    → All P (ys ++ p ∷ q ∷ zs)
without P ys p x q zs h =
    let (u, v, w) = All-middle P ys p (x ∷ q ∷ zs) h in All-append P ys (p ∷ q ∷ zs) u (v, w.1)

-- The middle one of three nodes is taken out and freed.
pub IsRow-unlink :
    (live : Ptr → Bool) (nx pv : Ptr → Ptr) (ys : List Ptr) (p x q : Ptr) (zs : List Ptr)
    → IsRow live nx pv (ys ++ p ∷ x ∷ q ∷ zs)
    → IsRow (put x false live) (put p q nx) (put q p pv) (ys ++ p ∷ q ∷ zs)
IsRow-unlink live nx pv ys p x q zs r =
    let (pl, pr, d) = Distinct-middle ys p (x ∷ q ∷ zs) r.distinct in
    let (xl, xr, e) = Distinct-middle ys x (q ∷ zs) d in
    let (ql, qr, f) = Distinct-middle ys q zs e in
    let (l1, u, v, l2) = Linked-split nx pv ys p x (q ∷ zs) r.linked in
    let px : IsOther x p = (pr.0.1, pr.0.0) in
    let pq : IsOther q p = (pr.1.0.1, pr.1.0.0) in
    record {
      linked =
          Linked-join (put p q nx) (put q p pv) ys p q zs
            (Linked-put_prev (put p q nx) pv (ys ++ p ∷ []) q p
              (All-append (IsOther q) ys (p ∷ []) ql (pq, tt))
              (Linked-put_next_last nx pv ys p q pl l1))
            (ground arith) (ground arith)
            (Linked-put_prev_first (put p q nx) pv zs q p qr
              (Linked-put_next nx pv (q ∷ zs) p q pr.1 l2.2));
      distinct = Distinct-insert ys p (q ∷ zs) pl pr.1 e;
      alive =
          alive-put-false live x (ys ++ p ∷ q ∷ zs)
            (All-append (IsOther x) ys (p ∷ q ∷ zs) xl (px, xr))
            (without (λ a. live a ≡ true) ys p x q zs r.alive);
      not_null = without (λ a. (a == null) ≡ false) ys p x q zs r.not_null;
    }

-- A new node is linked between two that stand side by side: the writes of `deque_link`.
pub IsRow-link :
    (live : Ptr → Bool) (nx pv : Ptr → Ptr) (ys : List Ptr) (p n q : Ptr) (zs : List Ptr)
    → live n ≡ false
    → (n == null) ≡ false
    → IsRow live nx pv (ys ++ p ∷ q ∷ zs)
    → IsRow
        (put n true live)
        (put n q (put p n (put n null nx)))
        (put q n (put n p (put n null pv)))
        (ys ++ p ∷ n ∷ q ∷ zs)
IsRow-link live nx pv ys p n q zs dead nn r =
    let (l1, u, v, l2) = Linked-split nx pv ys p q zs r.linked in
    let (pl, pr, d) = Distinct-middle ys p (q ∷ zs) r.distinct in
    let (ql, qr, f) = Distinct-middle ys q zs d in
    let fr = fresh-Apart live n (ys ++ p ∷ q ∷ zs) dead r.alive in
    let (nl, np, nr) = All-middle (IsOther n) ys p (q ∷ zs) fr in
    let pq : IsOther q p = (pr.0.1, pr.0.0) in
    let (al, ap, ar) = All-middle (λ a. live a ≡ true) ys p (q ∷ zs) r.alive in
    let (zl, zp, zr) = All-middle (λ a. (a == null) ≡ false) ys p (q ∷ zs) r.not_null in
    let ysp = All-append (IsOther n) ys (p ∷ []) nl (np, tt) in
    let nx1 = put n null nx in
    let nx2 = put p n nx1 in
    let nx3 = put n q nx2 in
    let pv1 = put n null pv in
    let pv2 = put n p pv1 in
    let pv3 = put q n pv2 in
    record {
      linked =
          Linked-join nx3 pv3 ys p n (q ∷ zs)
            (Linked-put_prev nx3 pv2 (ys ++ p ∷ []) q n
              (All-append (IsOther q) ys (p ∷ []) ql (pq, tt))
              (Linked-put_prev nx3 pv1 (ys ++ p ∷ []) n p ysp (
                Linked-put_prev nx3 pv (ys ++ p ∷ []) n null ysp (
                  Linked-put_next nx2 pv (ys ++ p ∷ []) n q ysp (
                    Linked-put_next_last nx1 pv ys p n pl
                      (Linked-put_next nx pv (ys ++ p ∷ []) n null ysp l1))))))
            (ground arith) (ground arith)
            (
              ground arith,
              ground arith,
              Linked-put_prev_first nx3 pv2 zs q n qr (
                  Linked-put_prev nx3 pv1 (q ∷ zs) n p nr (
                    Linked-put_prev nx3 pv (q ∷ zs) n null nr (
                      Linked-put_next nx2 pv (q ∷ zs) n q nr (
                        Linked-put_next nx1 pv (q ∷ zs) p n pr
                          (Linked-put_next nx pv (q ∷ zs) n null nr l2))))),
            );
      distinct =
          Distinct-insert ys p (n ∷ q ∷ zs) pl ((np.1, np.0), pr)
            (Distinct-insert ys n (q ∷ zs) nl nr d);
      alive =
          All-append (λ a. put n true live a ≡ true) ys (p ∷ n ∷ q ∷ zs)
            (alive-put-true live n ys al)
            (
              (alive-put-true live n (p ∷ []) (ap, tt)).0,
              (rw (==_refl n) refl, alive-put-true live n (q ∷ zs) ar),
            );
      not_null = All-append (λ a. (a == null) ≡ false) ys (p ∷ n ∷ q ∷ zs) zl (zp, (nn, zr));
    }

-- What a node of the list holds.
abbrev pub Item : Type 0
Item = Option Bytes × Option Value

abbrev pub item : Store → Ptr → Item
item st a = (st.tag a, st.value a)

-- The nodes stand between the two ends; the size is right, and fits.
pub record IsDeque (st : Store) (nodes : List Ptr) : Type 0 where
  pub row : IsRow st.live st.next st.prev (st.start ∷ (nodes ++ st.end ∷ []))
  pub size : st.size ≡ length nodes
  pub room : length nodes < 2 ^ 32

-- The deque holds these items in this order.
abbrev pub Holds : Store → List Item → Type 0
Holds st xs = (nodes : List Ptr) × IsDeque st nodes × (map (item st) nodes ≡ xs)

-- The run comes back with the result `a`, the deque then holds `xs`, and `ds` are the values
-- destroyed so far.
abbrev pub Returns : {A : Type 0} → Run A → A → List Item → List (Option Value) → Type 0
Returns r a xs ds = (st : Store) × (r ≡ ok a st) × Holds st xs × (st.destroyed ≡ ds)

-- Neither end is one of the nodes.
pub end-Apart : (st : Store) (nodes : List Ptr) → IsDeque st nodes → Apart st.end (st.start ∷ nodes)
end-Apart st nodes d = (Distinct-middle (st.start ∷ nodes) st.end [] d.row.distinct).0

pub map-item :
    (st st' : Store) (nodes : List Ptr)
    → All (λ a. item st' a ≡ item st a) nodes
    → map (item st') nodes ≡ map (item st) nodes
map-item st st' [] h = refl
map-item st st' (a ∷ nodes) (h, k) = rw (h, map-item st st' nodes k)
