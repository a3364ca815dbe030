-- ===== src/Art/Shortening.antt =====
-- A node of art.c whose prefix the key leaves: it is moved below a fork, with what is left of it.
use pgvictoria.Prelude.{
  ℕ, ◌+◌, ◌-◌, ◌≤◌, ◌<◌, ◌≡◌, ◌≢◌, true, ◌&&◌, inl, inr, Option, some, ltb, leb, arith, refl, sym,
  ap, subst, ◌∙◌, Bool-cases, length,
}
use pgvictoria.Bytes.{Bytes}
use pgvictoria.Value.{Value}
use pgvictoria.Art.{leaf, Inner, to_node, is_null, max_prefix_len, get_child, child_slot}
use pgvictoria.Art.Arrays.{store, memcpy, memmove}
use pgvictoria.Art.Nodes.{min32}
use pgvictoria.Art.Expanding.{copied}
use pgvictoria.Art.Search.{byte}
use pgvictoria.Art.Insert.{fork, shorten, split_node}
use pgvictoria.Art.Holding.{
  IsKey, Agree, Agree-store, IsTree, IsRooted, IsRooted→IsTree, Holds, here, Holds-leaf,
  Holds-inner, Holds-child,
}
use pgvictoria.Art.Prefix.{IsDiff, goes_on, joined, smallest}
use pgvictoria.Art.Forking.{fork-Holds, Holds-fork-left, Holds-fork-right, fork-IsTree}
use pgvictoria.Art.Splitting.{Gains}

memmove-front : (from n i : ℕ) (a : ℕ → ℕ) → i < n → memmove 0 from n a i ≡ a (from + i)
memmove-front from n i a lt =
    let e : (leb 0 i && ltb i (0 + n)) ≡ true = ground arith in
    let f : from + (i - 0) ≡ from + i = omega arith in rw e (ap a f)

module _ (n : Inner) (diff : ℕ) (prefix : ℕ → ℕ) where
  shorten-child : (c : ℕ) → get_child (shorten n diff prefix) c ≡ get_child n c
  unfolding shorten get_child child_slot
  shorten-child c = refl

  module _ (key : Bytes) (value : Option Value) where
    Holds-shorten : Holds key value (to_node n) → Holds key value (to_node (shorten n diff prefix))
    Holds-shorten h =
        let (c, (lt, h')) = Holds-inner n h in
        Holds-child (shorten n diff prefix) c lt
          (subst (Holds key value) (sym (shorten-child c)) h')

    shorten-Holds : Holds key value (to_node (shorten n diff prefix)) → Holds key value (to_node n)
    shorten-Holds h =
        let (c, (lt, h')) = Holds-inner (shorten n diff prefix) h in
        Holds-child n c lt (subst (Holds key value) (shorten-child c) h')

-- The node that is moved down is a tree below the byte that it is put under.
shorten-IsTree :
    (n : Inner) (depth : ℕ) (path path' : ℕ → ℕ) (diff b : ℕ) (prefix : ℕ → ℕ)
    → IsRooted depth path n path'
    → diff < n.header.prefix_len
    → path' (depth + diff) ≡ b
    → ((i : ℕ)
        → i < max_prefix_len
        → i < n.header.prefix_len - (diff + 1)
        → prefix i ≡ path' (depth + diff + 1 + i))
    → IsTree (depth + diff + 1) (store (depth + diff) b path') (to_node (shorten n diff prefix))
unfolding shorten
shorten-IsTree n depth path path' diff b prefix (ag, pre, l, (c, ltc, set), f) lt eb pr =
    let m = shorten n diff prefix in
    let e : depth + n.header.prefix_len ≡ depth + diff + 1 + (n.header.prefix_len - (diff + 1)) =
      omega (arith, lt) in
    IsRooted→IsTree (depth + diff + 1) _ m path' (
      Agree-store (depth + diff) b path' path' (λ i p. refl) eb,
      pr,
      l,
      (c, ltc, ap is_null (shorten-child n diff prefix c) ∙ set),
      λ d ltd.
          subst (λ k. IsTree (k + 1) (store k d path') (get_child m d)) e
            (subst (IsTree _ _) (sym (shorten-child n diff prefix d)) (f d ltd)),
    )

module _ (n : Inner) (depth : ℕ) (path path' : ℕ → ℕ) (r : IsRooted depth path n path')
    (key : Bytes) (isKey : IsKey key) (le : depth ≤ length key)
    (agree : Agree depth (byte key) path) (value : Option Value) (diff : ℕ)
    (lt : diff < n.header.prefix_len) (isDiff : IsDiff n depth path path' r key isKey diff) where
  abbrev forked : ℕ → (ℕ → ℕ) → Inner
  forked b prefix =
      fork diff (memcpy (min32 max_prefix_len diff) (λ i. 0) n.header.prefix)
        (byte key (depth + diff)) (leaf key value) b (to_node (shorten n diff prefix))

  split-Gains :
      (b : ℕ) (prefix : ℕ → ℕ)
      → path' (depth + diff) ≡ b
      → ((i : ℕ)
          → i < max_prefix_len
          → i < n.header.prefix_len - (diff + 1)
          → prefix i ≡ path' (depth + diff + 1 + i))
      → Gains depth path key value (to_node n) (to_node (forked b prefix))
  unfolding IsTree is_null to_node
  split-Gains b prefix eb pr =
      let a = byte key (depth + diff) in
      let x = leaf key value in
      let y = to_node (shorten n diff prefix) in
      let pre = memcpy (min32 max_prefix_len diff) (λ i. 0) n.header.prefix in
      let start : Agree depth (byte key) path' = λ i p. agree i p ∙ sym (r.0 i p) in
      let ag : Agree (depth + diff) (byte key) path' =
        joined n depth path path' r key isKey le start diff
          (λ j p. isDiff.0 j p (omega (arith, p, lt))) in
      let (k, v, (e, isk, long, agk)) = smallest n depth path path' r in
      let ltb : b < 256 =
        subst (λ t. t < 256) (agk (depth + diff) (omega (arith, lt)) ∙ eb) (isk.4 (depth + diff)) in
      let lta = isKey.4 (depth + diff) in
      let ne : a ≢ b = λ z. isDiff.1 lt (z ∙ sym eb) in
      (
        fork-IsTree diff pre a b x y lta ltb refl refl ne depth path path' r.0
            (λ i p q. copied diff i (λ j. 0) n.header.prefix p q ∙ r.1 i p (omega (arith, q, lt)))
            (
              isKey,
              omega (
                arith,
                goes_on n depth path path' r key isKey (depth + diff) (omega (arith, lt)) ag,
              ),
              Agree-store (depth + diff) a path' (byte key) ag refl,
            )
            (shorten-IsTree n depth path path' diff b prefix r lt eb pr),
        Holds-fork-left diff pre a b x y lta ltb refl refl ne key value (here refl),
        λ k' o nk. (
          λ h.
              Holds-fork-right diff pre a b x y lta ltb refl refl ne k' o
                (Holds-shorten n diff prefix k' o h),
          λ h. elim (fork-Holds diff pre a b x y lta ltb refl refl ne k' o h) [
            | inl u ↦ absurd (nk (Holds-leaf u).0)
            | inr u ↦ shorten-Holds n diff prefix k' o u
          ],
        ),
        refl,
      )

  -- Splitting the node follows no NULL, and makes a tree that has gained the key.
  pub split_node_lem :
      (m : Inner) × ((split_node n diff depth key value ≡ some m)
        × Gains depth path key value (to_node n) (to_node m))
  unfolding split_node
  split_node_lem =
      let (k, v, (e, isk, long, agk)) = smallest n depth path path' r in
      let left = n.header.prefix_len - (diff + 1) in
      elim (Bool-cases (leb n.header.prefix_len max_prefix_len)) [
        | inl f ↦
            let small : n.header.prefix_len ≤ 10 = ground arith in
            let b = n.header.prefix diff in
            let prefix = memmove 0 (diff + 1) left n.header.prefix in
            rw f (
              forked b prefix,
              (
                refl,
                split-Gains b prefix (sym (r.1 diff (omega (arith, small, lt)) lt)) (λ i p q.
                    let g : depth + (diff + 1 + i) ≡ depth + diff + 1 + i = omega arith in
                    memmove-front (diff + 1) left i n.header.prefix q
                    ∙ r.1 (diff + 1 + i) (omega (arith, q, small)) (omega (arith, q))
                    ∙ ap path' g),
              ),
            )
        | inr f ↦
            let b = byte k (depth + diff) in
            let prefix =
              memcpy (min32 max_prefix_len left) n.header.prefix
                (λ i. byte k (depth + diff + 1 + i)) in
            rw (f, e)
              (
                forked b prefix,
                (
                  refl,
                  split-Gains b prefix (sym (agk (depth + diff) (omega (arith, lt)))) (λ i p q.
                      copied left i n.header.prefix (λ j. byte k (depth + diff + 1 + j)) p q
                      ∙ agk (depth + diff + 1 + i) (omega (arith, q))),
                ),
              )
      ]
