-- ===== src/Art/Prefixed.antt =====
-- The search by prefix of art.c against what the tree holds.
use pgvictoria.Prelude.{
  ℕ, ◌+◌, ◌-◌, ◌≤◌, ◌<◌, ◌≡◌, Bool, true, false, ◌&&◌, inl, inr, Option, some, none, List, [], ◌∷◌,
  ◌==◌, ltb, leb, length, if◌then◌else◌, arith, refl, sym, ap, subst, ◌∙◌, Bool-cases, true≢false,
  &&_split, ==_iff, length-append,
}
use pgvictoria.Bytes.{Bytes}
use pgvictoria.Value.{Value}
use pgvictoria.Art.{
  Node, null, leaf, inner, Inner, to_node, is_null, get_child, child_slot, max_prefix_len,
}
use pgvictoria.Art.Arrays.{store, advance_lem}
use pgvictoria.Art.Nodes.{min32}
use pgvictoria.Art.Layout.{IsLaidOut, get_child-none, get_child-some, child_slot→Place}
use pgvictoria.Art.Search.{byte, check_prefix_partial}
use pgvictoria.Art.Holding.{
  IsTree, IsRooted, IsTree→IsRooted, IsRooted-key, Holds, here, Holds-null, Holds-leaf, Holds-inner,
  Holds-child,
}
use pgvictoria.Art.Prefix.{min32_le}
use pgvictoria.Art.Minimum.{node_get_minimum_lem}
use pgvictoria.Art.Iterate.{
  before_end, prefix_search_cb, has_prefix, iterate_below, prefix_search_from, art_node_iterate,
}
use pgvictoria.Art.Visits.{In, In-left, In-right, In-append, collect, leaves, art_node_iterate_lem}
use pgvictoria.Art.Leaves.{leaves-Holds, Holds-leaves, In-places, is_null-cases}
use pgvictoria.Art.Matching.{
  has_prefix_lem, Agree-has_prefix, names, call_all-names, names-In, In-names, Matches, Finds,
  nothing-Finds,
}

module _ (max : ℕ) (p : Bytes) where
  leaf-Finds :
      (k : Bytes) (o : Option Value) (ms : List Bytes)
      → length ms + 1 ≤ max
      → Finds p (leaf k o) ms (prefix_search_from max (leaf k o) 0 p ms)
  unfolding prefix_search_from prefix_search_cb
  leaf-Finds k o ms h = elim (Bool-cases (has_prefix p k)) [
    | inl e ↦
        let f : leb max (length ms) ≡ false = ground (arith, h) in
        rw (e, f)
          (λ x. (
            λ u. elim (In-append x ms (before_end k ∷ []) u) [
              | inl v ↦ inl v
              | inr (inl g) ↦ inr (k, o, (here refl, e, g))
              | inr (inr g) ↦ absurd g
            ],
            λ u. elim u [
              | inl v ↦ In-left x ms (before_end k ∷ []) v
              | inr (k', o', (hd, hp, g)) ↦
                  In-right x ms (before_end k ∷ []) (inl (g ∙ ap before_end (Holds-leaf hd).0))
            ],
          ))
    | inr e ↦ rw e (
        nothing-Finds p (leaf k o) ms (λ x m.
          let (k', o', (hd, hp, g)) = m in
          true≢false (sym hp ∙ ap (has_prefix p) (Holds-leaf hd).0 ∙ e)))
  ]

  -- Where the prefix ends above what the keys differ in, all have it or none.
  alike :
      (n : Inner) (depth : ℕ) (path : ℕ → ℕ) (k k' : Bytes) (o o' : Option Value)
      → IsTree depth path (to_node n)
      → length p ≤ depth + n.header.prefix_len
      → Holds k o (to_node n)
      → Holds k' o' (to_node n)
      → has_prefix p k ≡ true
      → has_prefix p k' ≡ true
  alike n depth path k k' o o' t le h h' q =
      let (path', r) = IsTree→IsRooted depth path n t in
      let (c, (lt, u)) = Holds-inner n h in
      let (c', (lt', u')) = Holds-inner n h' in
      let (_, long, ag, _) = IsRooted-key n depth path path' c r lt u in
      let (_, long', ag', _) = IsRooted-key n depth path path' c' r lt' u' in
      let (a, b) = has_prefix_lem p k q in
      Agree-has_prefix p k' (omega (arith, long', le))
        (λ i s. ag' i (omega (arith, s, le)) ∙ sym (ag i (omega (arith, s, le))) ∙ b i s)

  -- An iteration over a tree all of whose keys have the prefix appends the text of each.
  all-Finds :
      (n : Node) (depth : ℕ) (path : ℕ → ℕ) (ms : List Bytes)
      → IsTree depth path n
      → length ms + length (leaves n) ≤ max
      → ((k : Bytes) (o : Option Value) → Holds k o n → has_prefix p k ≡ true)
      → Finds p n ms (art_node_iterate n (prefix_search_cb max) ms).0
  all-Finds n depth path ms t room every =
      let all =
        ap (λ q. q.0)
          (art_node_iterate_lem (prefix_search_cb max) n ms
            ∙ call_all-names max (leaves n) ms room) in
      subst (Finds p n ms) (sym all) (λ x. (
        λ u. elim (In-append x ms (names (leaves n)) u) [
          | inl v ↦ inl v
          | inr v ↦
              let (k, o, (w, g)) = names-In x (leaves n) v in
              let h = leaves-Holds k o n depth path t w in inr (k, o, (h, every k o h, g))
        ],
        λ u. elim u [
          | inl v ↦ In-left x ms (names (leaves n)) v
          | inr (k, o, (h, hp, g)) ↦ In-right x ms (names (leaves n)) (
              subst (λ y. In y (names (leaves n))) (sym g)
                (In-names k o (leaves n) (Holds-leaves k o n depth path t h)))
        ],
      ))

  below-Finds :
      (n : Inner) (depth : ℕ) (path : ℕ → ℕ) (ms : List Bytes)
      → IsTree depth path (to_node n)
      → length ms + length (leaves (to_node n)) ≤ max
      → length p ≤ depth + n.header.prefix_len
      → Finds p (to_node n) ms (iterate_below max p (to_node n) ms)
  unfolding iterate_below is_null to_node
  below-Finds n depth path ms t room le =
      let (mk, mo, (e, hm)) = node_get_minimum_lem (to_node n) depth path t refl in
      subst
        (λ o. Finds p (to_node n) ms (elim o as (λ _. List Bytes) [
          | none ↦ ms
          | some (min_key, value) ↦
              if has_prefix p min_key
              then (art_node_iterate (to_node n) (prefix_search_cb max) ms).0
              else ms
        ]))
        (sym e)
        (elim (Bool-cases (has_prefix p mk)) [
          | inl f ↦ rw f (
              all-Finds (to_node n) depth path ms t room
                (λ k o h. alike n depth path mk k mo o t le hm h f))
          | inr f ↦ rw f (
              nothing-Finds p (to_node n) ms (λ x m.
                let (k, o, (h, hp, g)) = m in
                true≢false (sym (alike n depth path k mk o mo t le h hm hp) ∙ f)))
        ])

length-collect :
    (i : ℕ) (is : List ℕ) (f : ℕ → List (Bytes × Option Value))
    → In i is
    → length (f i) ≤ length (collect is f)
unfolding collect
length-collect i [] f h = absurd h
length-collect i (j ∷ is) f (inl e) =
    let g = length-append (f j) (collect is f) in
    let w = ap (λ k. length (f k)) e in omega (arith, g, w)
length-collect i (j ∷ is) f (inr h) =
    let g = length-append (f j) (collect is f) in omega (arith, g, length-collect i is f h)

-- The branches of the loop on an inner node.
branches :
    (G : List Bytes → Type 0) (a b : Bool) (slot : Option ℕ) (ms r : List Bytes)
    (f : ℕ → List Bytes)
    → (a ≡ true → G ms)
    → (b ≡ true → G r)
    → (b ≡ false → slot ≡ none → G ms)
    → (b ≡ false → (i : ℕ) → slot ≡ some i → G (f i))
    → G (elim a as (λ _. List Bytes) [
      | true ↦ ms
      | false ↦ elim b as (λ _. List Bytes) [
        | true ↦ r
        | false ↦ elim slot as (λ _. List Bytes) [ none ↦ ms | some i ↦ f i ]
      ]
    ])
branches G true b slot ms r f x y z w = x refl
branches G false true slot ms r f x y z w = y refl
branches G false false none ms r f x y z w = z refl refl
branches G false false (some i) ms r f x y z w = w refl i refl

module _ (p : Bytes) (n : Inner) (depth : ℕ) (path path' : ℕ → ℕ)
    (r : IsRooted depth path n path') where
  -- A byte of the stored prefix that differs excludes all keys of the node.
  excluded :
      (cpl : ℕ)
      → cpl ≡ check_prefix_partial n.header p depth
      → cpl < min32 n.header.prefix_len max_prefix_len
      → depth + cpl < length p
      → (x : Bytes) → Matches p (to_node n) x
      → ⊥
  unfolding check_prefix_partial
  excluded cpl e lt short x (k, o, (h, hp, g)) =
      let (c, (ltc, h')) = Holds-inner n h in
      let (_, long, ag, _) = IsRooted-key n depth path path' c r ltc h' in
      let (_, same) = has_prefix_lem p k hp in
      let hd = n.header in
      let test : ℕ → Bool = λ len. byte p (depth + len) == hd.prefix len in
      let bound = min32 (min32 hd.prefix_len max_prefix_len) (length p - depth) in
      let (_, _, _, d) = advance_lem bound test 0 in
      let (x1, y1, z1) = min32_le hd.prefix_len max_prefix_len in
      let (x2, y2, z2) = min32_le (min32 hd.prefix_len max_prefix_len) (length p - depth) in
      elim d [
        | inl f ↦ omega (arith, f, e, z2, lt, short)
        | inr (u, f) ↦
            let v : byte p (depth + cpl) ≡ hd.prefix cpl =
              sym (same (depth + cpl) short)
              ∙ ag (depth + cpl) (omega (arith, lt, x1))
              ∙ sym (r.1 cpl (omega (arith, lt, y1)) (omega (arith, lt, x1))) in
            true≢false (sym ((==_iff _ _).1 v) ∙ ap test e ∙ f)
      ]

  -- The keys that have a longer prefix stand below its next byte.
  next_byte :
      (k : Bytes) (o : Option Value)
      → depth + n.header.prefix_len < length p
      → Holds k o (to_node n)
      → has_prefix p k ≡ true
      → Holds k o (get_child n (byte p (depth + n.header.prefix_len)))
  next_byte k o lt h hp =
      let (c, (ltc, h')) = Holds-inner n h in
      let (_, long, ag, next) = IsRooted-key n depth path path' c r ltc h' in
      let (_, same) = has_prefix_lem p k hp in
      subst (λ b. Holds k o (get_child n b)) (sym next ∙ same _ lt) h'

module _ (max : ℕ) (p : Bytes) (bytes : (i : ℕ) → byte p i < 256) where
  -- The child that the next byte of the prefix leads to has all the keys that match.
  child-Finds :
      (n : Inner) (depth : ℕ) (path path' : ℕ → ℕ) (i : ℕ) (ms r : List Bytes)
      → IsRooted depth path n path'
      → depth + n.header.prefix_len < length p
      → child_slot n.header n.keys (byte p (depth + n.header.prefix_len)) ≡ some i
      → Finds p (n.children i) ms r
      → Finds p (to_node n) ms r
  child-Finds n depth path path' i ms r rt lt e h x =
      let at = depth + n.header.prefix_len in
      let g = get_child-some n (byte p at) i e in
      (
        λ u. elim ((h x).0 u) [
          | inl v ↦ inl v
          | inr (k, o, (hd, hp, q)) ↦
              inr
                (k, o, (Holds-child n (byte p at) (bytes at) (subst (Holds k o) (sym g) hd), hp, q))
        ],
        λ u. elim u [
          | inl v ↦ (h x).1 (inl v)
          | inr (k, o, (hd, hp, q)) ↦ (h x).1 (
              inr (
                k,
                o,
                (subst (Holds k o) g (next_byte p n depth path path' rt k o lt hd hp), hp, q),
              ))
        ],
      )

  child_room :
      (n : Inner) (c i : ℕ) (ms : List Bytes)
      → IsLaidOut n
      → c < 256
      → child_slot n.header n.keys c ≡ some i
      → length ms + length (leaves (to_node n)) ≤ max
      → length ms + length (leaves (n.children i)) ≤ max
  unfolding leaves to_node
  child_room n c i ms l lt e room = elim (is_null-cases (n.children i)) [
    | inl z ↦
        let w : length (leaves (n.children i)) ≡ 0 = ap (λ m. length (leaves m)) z in
        omega (arith, room, w)
    | inr set ↦
        let p =
          In-places n.header.type n.header.num_children n.keys n.children c i lt
            (child_slot→Place _ _ _ _ _ _ c i l e) set in
        let w = length-collect i _ (λ j. leaves (n.children j)) p in omega (arith, room, w)
  ]

  leaf_room :
      (k : Bytes) (o : Option Value) (ms : List Bytes)
      → length ms + length (leaves (leaf k o)) ≤ max
      → length ms + 1 ≤ max
  unfolding leaves
  leaf_room k o ms h = h

  pub prefix_search_from_lem :
      (n : Node) (depth : ℕ) (path : ℕ → ℕ) (ms : List Bytes)
      → IsTree depth path n
      → length ms + length (leaves n) ≤ max
      → Finds p n ms (prefix_search_from max n depth p ms)
  unfolding prefix_search_from to_node
  prefix_search_from_lem null depth path ms t room =
      nothing-Finds p null ms (λ x m. let (k, o, (h, hp, g)) = m in Holds-null h refl)
  prefix_search_from_lem (leaf k o) depth path ms t room =
      leaf-Finds max p k o ms (leaf_room k o ms room)
  prefix_search_from_lem (inner hd keys children) depth path ms t room =
      let n : Inner = record { header = hd; keys = keys; children = children } in
      let (path', r) = IsTree→IsRooted depth path n t in
      let at = depth + hd.prefix_len in
      let cpl = check_prefix_partial hd p depth in
      branches (Finds p (to_node n) ms)
        (ltb cpl (min32 hd.prefix_len max_prefix_len) && ltb (depth + cpl) (length p))
        (leb (length p) at) (child_slot hd keys (byte p at)) ms (iterate_below max p (to_node n) ms)
        (λ i. prefix_search_from max (children i) (at + 1) p ms)
        (λ e.
          let (a, b) =
            &&_split (ltb cpl (min32 hd.prefix_len max_prefix_len)) (ltb (depth + cpl) (length p))
              e in
          nothing-Finds p (to_node n) ms
            (excluded p n depth path path' r cpl refl (ground arith) (ground arith)))
        (λ e. below-Finds max p n depth path ms t room (ground arith))
        (λ e f. nothing-Finds p (to_node n) ms (λ x m.
          let (k, o, (h, hp, g)) = m in
          Holds-null (next_byte p n depth path path' r k o (ground arith) h hp)
            (get_child-none n (byte p at) f)))
        (λ e i f.
          child-Finds n depth path path' i ms (prefix_search_from max (children i) (at + 1) p ms) r
            (ground arith) f
            (prefix_search_from_lem (children i) (at + 1) (store at (byte p at) path') ms
              (subst (IsTree _ _) (get_child-some n (byte p at) i f) (r.4 (byte p at) (bytes at)))
              (child_room n (byte p at) i ms r.2 (bytes at) f room)))
