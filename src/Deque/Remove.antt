-- ===== src/Deque/Remove.antt =====
-- Taking nodes out of the middle of a deque: `pgvictoria_deque_remove` and `pgvictoria_deque_clear`.
use pgvictoria.Prelude.{
  All-middle, All-split, ℕ, zero, suc, ◌+◌, ◌-◌, ◌^◌, ◌<◌, leb, Bool, true, false, ◌||◌, Option,
  List, [], ◌∷◌, ◌++◌, ◌==◌, arith, ◌≡◌, refl, sym, ap, subst, append_assoc, map, map-append,
  length, length-append, Bool-cases, inl, inr, ◌∙◌,
}
use pgvictoria.Bytes.{Bytes}
use pgvictoria.Value.{Value}
use pgvictoria.Utils.Text.{compare_string}
use pgvictoria.Deque.{
  Ptr, null, put, Store, Run, ok, read, get_next, get_prev, get_tag, get_value, set_next, set_prev,
  free, shrink, value_destroy, deque_node_destroy, deque_remove, iterator_remove, deque_next, count,
  remove_loop,
}
use pgvictoria.Deque.Links.{Linked, Linked-split, Apart, IsOther}
use pgvictoria.Deque.Shape.{IsRow, IsRow-unlink, Item, item, IsDeque, Returns, end-Apart}
use pgvictoria.Deque.Ends.{unlinked, first_rest, first_rest_lem, init_last, init_last_lem}
use pgvictoria.Deque.Search.{Follows, head_of, deque_next_lem}
use pgvictoria.Deque.Spec.{kept, dropped}

-- The store behind `deque_remove`.
abbrev removed : Store → Ptr → Ptr → Ptr → Store
removed st p x q = record (unlinked st p x q) { destroyed = st.value x ∷ st.destroyed }

deque_remove_lem :
    (st : Store) (ys : List Ptr) (p x q : Ptr) (zs : List Ptr)
    → IsRow st.live st.next st.prev (ys ++ p ∷ x ∷ q ∷ zs)
    → (x == null || x == st.start || x == st.end) ≡ false
    → iterator_remove x st ≡ ok p (removed st p x q)
unfolding iterator_remove deque_remove deque_node_destroy value_destroy get_prev get_next get_value
    set_next set_prev free shrink read
deque_remove_lem st ys p x q zs r inner =
    let (_, lp, (lx, (lq, _))) = All-middle (λ b. st.live b ≡ true) ys p (x ∷ q ∷ zs) r.alive in
    let (_, _, g, (f, _, _)) = Linked-split st.next st.prev ys p x (q ∷ zs) r.linked in
    rw (inner, inner, lx, g, lx, f, lp, lq, lx, lx)

Linked-drop :
    (nx pv : Ptr → Ptr) (xs : List Ptr) (a : Ptr) (zs : List Ptr)
    → Linked nx pv (xs ++ a ∷ zs)
    → Linked nx pv (a ∷ zs)
Linked-drop nx pv [] a zs l = l
Linked-drop nx pv (x ∷ []) a zs (f, g, l) = l
Linked-drop nx pv (x ∷ y ∷ xs) a zs (f, g, l) = Linked-drop nx pv (y ∷ xs) a zs l

-- The node before `ns`: the last one of `ys`, or the start.
abbrev before : Store → List Ptr → Ptr
before st ys = (init_last st.start ys).1

module _ (st : Store) (ys ns : List Ptr) (d : IsDeque st (ys ++ ns)) where
  cut-IsRow :
      IsRow st.live st.next st.prev
        ((init_last st.start ys).0 ++ before st ys ∷ (ns ++ st.end ∷ []))
  cut-IsRow =
      subst (IsRow st.live st.next st.prev)
        (ap (λ (l : List Ptr). st.start ∷ l) (append_assoc ys ns (st.end ∷ []))
          ∙ init_last_lem st.start ys (ns ++ st.end ∷ []))
        d.row

  before-Follows : Follows st (before st ys) ns
  before-Follows =
      let r = cut-IsRow in
      let front = (init_last st.start ys).0 in
      let (_, la, ln) =
        All-middle (λ b. st.live b ≡ true) front (before st ys) (ns ++ st.end ∷ []) r.alive in
      let (_, za, zn) =
        All-middle (λ b. (b == null) ≡ false) front (before st ys) (ns ++ st.end ∷ []) r.not_null in
      record {
        linked = Linked-drop st.next st.prev front (before st ys) (ns ++ st.end ∷ []) r.linked;
        alive = (la, (All-split (λ b. st.live b ≡ true) ns (st.end ∷ []) ln).0);
        not_null = (za, (All-split (λ b. (b == null) ≡ false) ns (st.end ∷ []) zn).0);
        apart = (All-split (IsOther st.end) (st.start ∷ ys) ns (end-Apart st (ys ++ ns) d)).1;
      }

module _ (st : Store) (ys : List Ptr) (x : Ptr) (ns : List Ptr)
    (d : IsDeque st (ys ++ x ∷ ns)) where
  after : Store
  after = removed st (before st ys) x (first_rest st ns).0

  inner_node : (x == null || x == st.start || x == st.end) ≡ false
  inner_node =
      let f = before-Follows st ys (x ∷ ns) d in
      let (_, s, _) =
        All-middle (IsOther st.start) ys x (ns ++ st.end ∷ [])
          (subst (Apart st.start) (append_assoc ys (x ∷ ns) (st.end ∷ [])) d.row.distinct.0) in
      rw (f.not_null.1.0, s.0, f.apart.0.0)

  remove_here : iterator_remove x st ≡ ok (before st ys) after
  unfolding after
  remove_here =
      deque_remove_lem st (init_last st.start ys).0 (before st ys) x (first_rest st ns).0
        (first_rest st ns).1
        (subst
          (λ (l : List Ptr).
            IsRow st.live st.next st.prev ((init_last st.start ys).0 ++ before st ys ∷ x ∷ l))
          (first_rest_lem st ns) (cut-IsRow st ys (x ∷ ns) d))
        inner_node

  after-IsDeque : IsDeque after (ys ++ ns)
  unfolding after
  after-IsDeque =
      let q = (first_rest st ns).0 in
      let p = before st ys in
      let front = (init_last st.start ys).0 in
      record {
        row =
            subst (IsRow (put x false st.live) (put p q st.next) (put q p st.prev))
              (sym (
                ap (λ (l : List Ptr). st.start ∷ l) (append_assoc ys ns (st.end ∷ []))
                ∙ init_last_lem st.start ys (ns ++ st.end ∷ [])
                ∙ ap (λ (l : List Ptr). front ++ p ∷ l) (first_rest_lem st ns)))
              (IsRow-unlink st.live st.next st.prev front p x q (first_rest st ns).1 (
                subst (λ (l : List Ptr). IsRow st.live st.next st.prev (front ++ p ∷ x ∷ l))
                  (first_rest_lem st ns) (cut-IsRow st ys (x ∷ ns) d)));
        size = omega (arith, d.size, d.room, length-append ys (x ∷ ns), length-append ys ns);
        room = omega (arith, d.room, length-append ys (x ∷ ns), length-append ys ns);
      }

next_any :
    (st : Store) (ys ns : List Ptr)
    → IsDeque st (ys ++ ns)
    → deque_next (before st ys) st ≡ ok (head_of ns) st
next_any st ys ns d = elim (Bool-cases (st.size == 0)) [
  | inl z ↦ none_left ns d z
  | inr z ↦ deque_next_lem st (before st ys) ns (before-Follows st ys ns d) z
]
  where
    none_left :
        (ms : List Ptr)
        → IsDeque st (ys ++ ms)
        → (st.size == 0) ≡ true
        → deque_next (before st ys) st ≡ ok (head_of ms) st
    none_left [] e z = unfold deque_next in rw z
    none_left (x ∷ ms) e z = absurd (ground (arith, e.size, length-append ys (x ∷ ms)))

before-snoc : (s : Ptr) (ys : List Ptr) (x : Ptr) → (init_last s (ys ++ x ∷ [])).1 ≡ x
before-snoc s [] x = refl
before-snoc s (y ∷ ys) x = before-snoc y ys x

pub Returns-cong :
    {A : Type 0} {r r' : Run A} {a a' : A} {xs xs' : List Item} {ds ds' : List (Option Value)}
    → r' ≡ r
    → a ≡ a'
    → xs ≡ xs'
    → ds ≡ ds'
    → Returns r a xs ds
    → Returns r' a' xs' ds'
Returns-cong e f g h (st, u, (nodes, d, v), w) =
    (st, e ∙ u ∙ ap (λ b. ok b st) f, (nodes, d, v ∙ g), w ∙ h)

-- What the loop has counted after as many removals, from `cnt` on, and when that is an `int`.
abbrev pub counted : Bool → ℕ → ℕ → ℕ
counted true cnt removals = cnt
counted false cnt removals = cnt + removals

abbrev pub Countable : Bool → ℕ → ℕ → Type 0
Countable true cnt removals = Unit
Countable false cnt removals = cnt + removals < 2 ^ 31

counted-zero : (all : Bool) (cnt : ℕ) → counted all cnt 0 ≡ cnt
counted-zero true cnt = refl
counted-zero false cnt = omega arith

count_lem :
    (all : Bool) (cnt removals : ℕ) (st : Store)
    → Countable all cnt (removals + 1)
    → (count all cnt st ≡ ok (counted all cnt 1) st)
      × Countable all (counted all cnt 1) removals
      × (counted all (counted all cnt 1) removals ≡ counted all cnt (removals + 1))
unfolding count
count_lem true cnt removals st h = (refl, tt, refl)
count_lem false cnt removals st h =
    let e : leb (2 ^ 31 - 1) cnt ≡ false = ground (arith, h) in
    (rw e refl, omega (arith, h), omega arith)

module _ (t : Option Bytes) (all : Bool) where
  round_drop :
      (fuel : ℕ) (cnt : ℕ) (st : Store) (ys : List Ptr) (x : Ptr) (ns : List Ptr)
      (d : IsDeque st (ys ++ x ∷ ns))
      → (all || compare_string (st.tag x) t) ≡ true
      → count all cnt (after st ys x ns d) ≡ ok (counted all cnt 1) (after st ys x ns d)
      → remove_loop (suc fuel) t all (before st ys) cnt st
        ≡ remove_loop fuel t all (before st ys) (counted all cnt 1) (after st ys x ns d)
  unfolding remove_loop get_tag read
  round_drop fuel cnt st ys x ns d e c =
      let f = before-Follows st ys (x ∷ ns) d in
      rw (next_any st ys (x ∷ ns) d, f.alive.1.0, e, remove_here st ys x ns d, c)

  round_keep :
      (fuel : ℕ) (cnt : ℕ) (st : Store) (ys : List Ptr) (x : Ptr) (ns : List Ptr)
      → IsDeque st (ys ++ x ∷ ns)
      → (all || compare_string (st.tag x) t) ≡ false
      → remove_loop (suc fuel) t all (before st ys) cnt st ≡ remove_loop fuel t all x cnt st
  unfolding remove_loop get_tag read
  round_keep fuel cnt st ys x ns d e =
      let f = before-Follows st ys (x ∷ ns) d in rw (next_any st ys (x ∷ ns) d, f.alive.1.0, e)

  pub remove_loop_lem :
      (fuel cnt : ℕ) (st : Store) (ys ns : List Ptr)
      → IsDeque st (ys ++ ns)
      → length ns < fuel
      → Countable all cnt (length (dropped t all (map (item st) ns)))
      → Returns
          (remove_loop fuel t all (before st ys) cnt st)
          (counted all cnt (length (dropped t all (map (item st) ns))))
          (map (item st) ys ++ kept t all (map (item st) ns))
          (dropped t all (map (item st) ns) ++ st.destroyed)
  unfolding kept dropped after
  remove_loop_lem zero cnt st ys ns d h b = absurd (omega arith)
  remove_loop_lem (suc fuel) cnt st ys [] d h b = (
    st,
    unfold remove_loop in
        rw (next_any st ys [] d) (ap (λ (n : ℕ). ok n st) (sym (counted-zero all cnt))),
    (ys ++ [], d, map-append (item st) ys []),
    refl,
  )
  remove_loop_lem (suc fuel) cnt st ys (x ∷ ns) d h b =
      let ds = dropped t all (map (item st) ns) in
      let more = length-append ds (st.value x ∷ []) in
      elim (Bool-cases (all || compare_string (st.tag x) t)) [
        | inl e ↦
            let same : dropped t all (item st x ∷ map (item st) ns) ≡ ds ++ st.value x ∷ [] =
              rw e refl in
            let b' : Countable all cnt (length ds + 1) =
              subst (Countable all cnt) (ap length same ∙ more) b in
            let (c, left, sum) = count_lem all cnt (length ds) (after st ys x ns d) b' in
            Returns-cong (round_drop fuel cnt st ys x ns d e c)
              (rw e (sum ∙ ap (counted all cnt) (sym more))) (rw e refl)
              (rw e (
                sym
                  (append_assoc (dropped t all (map (item st) ns)) (st.value x ∷ []) st.destroyed)))
              (remove_loop_lem fuel (counted all cnt 1) (after st ys x ns d) ys ns
                (after-IsDeque st ys x ns d) (omega arith) left)
        | inr e ↦
            let same : dropped t all (item st x ∷ map (item st) ns) ≡ ds = rw e refl in
            Returns-cong
              (round_keep fuel cnt st ys x ns d e
                ∙ ap (λ (p : Ptr). remove_loop fuel t all p cnt st)
                    (sym (before-snoc st.start ys x)))
              (rw e refl)
              (rw (e, map-append (item st) ys (x ∷ []))
                (append_assoc (map (item st) ys) (item st x ∷ []) _))
              (rw e refl)
              (remove_loop_lem fuel cnt st (ys ++ x ∷ []) ns
                (subst (IsDeque st) (sym (append_assoc ys (x ∷ []) ns)) d) (omega arith)
                (subst (Countable all cnt) (ap length same) b))
      ]
