-- ===== src/Art/Expanding.antt =====
-- Replacing a full node of art.c by one of the next size.
use pgvictoria.Prelude.{
  ℕ, zero, suc, ◌+◌, ◌-◌, ◌≤◌, ◌<◌, ◌≡◌, ◌≢◌, ◌⊎◌, true, false, inl, inr, leb, ltb, ◌==◌,
  if◌then◌else◌, arith, refl, sym, ap, subst, ◌∙◌, Bool-cases,
}
use pgvictoria.Art.{
  node4, node16, node48, Node, null, is_null, get_child, child_slot, child_at, max_prefix_len,
}
use pgvictoria.Art.Arrays.{store, store-same, store-other, memcpy}
use pgvictoria.Art.Index.{IsSorted}
use pgvictoria.Art.Nodes.{
  index_keys, spread, expand4, expand16, expand48, min32, create_art_node, copy_header,
}
use pgvictoria.Art.Changes.{Expands, get_child-moved}
use pgvictoria.Art.Layout.{node_of, Sorted, Indexed}
use pgvictoria.Art.Indexing.{count-first}

module _ {ℓ} {A : Type ℓ} (n : ℕ) (a b : ℕ → A) where
  memcpy-below : (j : ℕ) → j < n → memcpy n a b j ≡ b j
  memcpy-below j h = let e : ltb j n ≡ true = ground arith in rw e refl

  memcpy-above : (j : ℕ) → n ≤ j → memcpy n a b j ≡ a j
  memcpy-above j h = let e : ltb j n ≡ false = ground arith in rw e refl

pub copied :
    (len i : ℕ) (a b : ℕ → ℕ)
    → i < max_prefix_len
    → i < len
    → memcpy (min32 max_prefix_len len) a b i ≡ b i
unfolding min32
copied len i a b p q =
    memcpy-below _ a b i (elim (Bool-cases (leb len 10)) [ inl e ↦ rw e q | inr e ↦ rw e p ])

-- A node4 with four children becomes a node16 with the same.
pub expand4_lem :
    (num len : ℕ) (prefix keys : ℕ → ℕ) (children : ℕ → Node)
    → Sorted 4 num keys children
    → Expands
        (node_of node4 num len prefix keys children)
        (expand4 (node_of node4 num len prefix keys children))
unfolding expand4 create_art_node copy_header
expand4_lem num len prefix keys children (a, b, c, d) =
    let n = node_of node4 num len prefix keys children in
    let keys' : ℕ → ℕ = memcpy num (λ i. 0) keys in
    let children' : ℕ → Node = memcpy num (λ i. null) children in
    let k : (i : ℕ) → i < num → keys' i ≡ keys i = memcpy-below num (λ i. 0) keys in
    let h : (i : ℕ) → i < num → children' i ≡ children i = memcpy-below num (λ i. null) children in
    let l' : Sorted 16 num keys' children' = (
      omega (arith, a),
      λ i j p q. omega (arith, k i (omega arith), k j q, b i j p q),
      λ i p. omega (arith, k i p, c i p),
      λ i p. ap is_null (h i p) ∙ d i p,
    ) in
    (
      l',
      (refl, λ i p q. copied len i (λ j. 0) prefix p q),
      λ c' lt.
          get_child-moved n (node_of node16 num len _ keys' children') c' (a, b, c, d) l'
            (λ i (p, e). (i, (p, k i p ∙ e), h i p)) (λ i (p, e). (i, (p, sym (k i p) ∙ e))),
    )

-- The table that the keys of a node16 are turned into.
index_keys-hit :
    (m : ℕ) (keys out : ℕ → ℕ) (i : ℕ)
    → IsSorted m keys
    → i < m
    → index_keys m keys out (keys i) ≡ suc i
unfolding index_keys
index_keys-hit zero keys out i s p = absurd (omega (arith, p))
index_keys-hit (suc m) keys out i s p = elim (Bool-cases (i == m)) [
  | inl e ↦
      let f : i ≡ m = ground arith in
      ap (λ k. store (keys m) (m + 1) (index_keys m keys out) (keys k)) f
      ∙ store-same (keys m) (m + 1) (index_keys m keys out)
      ∙ omega (arith, f)
  | inr e ↦
      let q : i < m = ground arith in
      store-other (keys m) (keys i) (m + 1) (index_keys m keys out)
        (λ g. omega (arith, g, s i m q (omega arith)))
      ∙ index_keys-hit m keys out i (λ u v a b. s u v a (omega (arith, b))) q
]

index_keys-miss :
    (m : ℕ) (keys out : ℕ → ℕ) (c : ℕ)
    → ((i : ℕ) → i < m → keys i ≢ c)
    → index_keys m keys out c ≡ out c
unfolding index_keys
index_keys-miss zero keys out c h = refl
index_keys-miss (suc m) keys out c h =
    store-other (keys m) c (m + 1) (index_keys m keys out) (λ e. h m (omega arith) (sym e))
    ∙ index_keys-miss m keys out c (λ i p. h i (omega (arith, p)))

key-cases :
    (m : ℕ) (keys : ℕ → ℕ) (c : ℕ)
    → ((i : ℕ) × ((i < m) × (keys i ≡ c))) ⊎ ((i : ℕ) → i < m → keys i ≢ c)
key-cases zero keys c = inr (λ i p. absurd (omega (arith, p)))
key-cases (suc m) keys c = elim (Bool-cases (keys m == c)) [
  | inl e ↦ inl (m, (omega arith, ground arith))
  | inr e ↦ elim (key-cases m keys c) [
    | inl (i, (p, f)) ↦ inl (i, (omega (arith, p), f))
    | inr h ↦ inr (λ i p f. elim (Bool-cases (i == m)) [
      | inl g ↦ let k : i ≡ m = ground arith in ground (arith, e, sym (ap keys k) ∙ f)
      | inr g ↦ h i (ground arith) f
    ])
  ]
]

-- The node48 that a full node16 is turned into.
module _ (keys : ℕ → ℕ) (children : ℕ → Node) (l : Sorted 16 16 keys children) where
  abbrev table : ℕ → ℕ
  table = index_keys 16 keys (λ i. 0)

  abbrev copies : ℕ → Node
  copies = memcpy 16 (λ i. null) children

  copies-set : (i : ℕ) → i < 16 → is_null (copies i) ≡ false
  copies-set i p = ap is_null (memcpy-below 16 (λ i. null) children i p) ∙ l.3 i p

  table-hit : (c i : ℕ) → i < 16 → keys i ≡ c → table c ≡ suc i
  table-hit c i p e = ap table (sym e) ∙ index_keys-hit 16 keys (λ i. 0) i l.1 p

  table-some : (c : ℕ) → table c ≢ 0 → (i : ℕ) × ((i < 16) × (keys i ≡ c))
  table-some c ne = elim (key-cases 16 keys c) [
    | inl r ↦ r
    | inr h ↦ absurd (ne (index_keys-miss 16 keys (λ i. 0) c h))
  ]

  table-Indexed : Indexed 16 table copies
  unfolding is_null
  table-Indexed = (
    λ c lt ne.
        let (i, (p, e)) = table-some c ne in
        let f = table-hit c i p e in
        let g : table c - 1 ≡ i = omega (arith, f) in
        (omega (arith, f, p), ap (λ k. is_null (copies k)) g ∙ copies-set i p),
    λ c d ltc ltd ne eq.
        let (i, (p, e)) = table-some c ne in
        let (j, (q, f)) = table-some d (λ z. ne (eq ∙ z)) in
        let g : i ≡ j = omega (arith, table-hit c i p e, table-hit d j q f, eq) in
        sym e ∙ ap keys g ∙ f,
    count-first 48 16 copies copies-set
        (λ j p. ap is_null (memcpy-above 16 (λ i. null) children j p)) (omega arith),
  )

-- A node16 with sixteen children becomes a node48 with the same.
pub expand16_lem :
    (len : ℕ) (prefix keys : ℕ → ℕ) (children : ℕ → Node)
    → Sorted 16 16 keys children
    → Expands
        (node_of node16 16 len prefix keys children)
        (expand16 (node_of node16 16 len prefix keys children))
unfolding expand16 create_art_node copy_header
expand16_lem len prefix keys children l =
    let n = node_of node16 16 len prefix keys children in
    let l' = table-Indexed keys children l in
    let n' =
      node_of node48 16 len (memcpy (min32 max_prefix_len len) (λ i. 0) prefix)
        (index_keys 16 keys (λ i. 0)) (memcpy 16 (λ i. null) children) in
    (
      l',
      (refl, λ i p q. copied len i (λ j. 0) prefix p q),
      λ c lt.
          get_child-moved n n' c l l'
            (λ i (p, e).
              (i, table-hit keys children l c i p e, memcpy-below 16 (λ j. null) children i p))
            (λ i e. table-some keys children l c (λ z. omega (arith, e, z))),
    )

spread-beyond :
    (k : ℕ) (keys : ℕ → ℕ) (children out : ℕ → Node) (c : ℕ)
    → k ≤ c
    → spread k keys children out c ≡ out c
unfolding spread
spread-beyond zero keys children out c le = refl
spread-beyond (suc k) keys children out c le =
    let rest = spread-beyond k keys children out c (omega (arith, le)) in
    elim (Bool-cases (keys k == 0)) [
      | inl e ↦ rw e rest
      | inr e ↦ rw e (
          store-other k c (children (keys k - 1)) (spread k keys children out)
            (λ f. omega (arith, f, le))
          ∙ rest)
    ]

spread_lem :
    (k : ℕ) (keys : ℕ → ℕ) (children out : ℕ → Node) (c : ℕ)
    → c < k
    → spread k keys children out c ≡ (if keys c == 0 then out c else children (keys c - 1))
unfolding spread
spread_lem zero keys children out c lt = absurd (omega (arith, lt))
spread_lem (suc k) keys children out c lt = elim (Bool-cases (c == k)) [
  | inl f ↦
      let g : k ≡ c = ground arith in
      subst
        (λ t.
          spread (suc t) keys children out c
          ≡ (if keys c == 0 then out c else children (keys c - 1)))
        (sym g)
        (elim (Bool-cases (keys c == 0)) [
          | inl e ↦ rw e (spread-beyond c keys children out c (omega arith))
          | inr e ↦ rw e (store-same c (children (keys c - 1)) (spread c keys children out))
        ])
  | inr f ↦
      let rest = spread_lem k keys children out c (ground arith) in
      elim (Bool-cases (keys k == 0)) [
        | inl e ↦ rw e rest
        | inr e ↦ rw e (
            store-other k c (children (keys k - 1)) (spread k keys children out)
              (λ g. ground (arith, f, g))
            ∙ rest)
      ]
]

-- A node48 becomes a node256 with the same children.
pub expand48_lem :
    (num len : ℕ) (prefix keys : ℕ → ℕ) (children : ℕ → Node)
    → Expands
        (node_of node48 num len prefix keys children)
        (expand48 (node_of node48 num len prefix keys children))
unfolding expand48 create_art_node copy_header get_child child_at child_slot
expand48_lem num len prefix keys children = (
  tt,
  (refl, λ i p q. copied len i (λ j. 0) prefix p q),
  λ c lt.
      spread_lem 256 keys children (λ i. null) c lt
      ∙ (elim (Bool-cases (keys c == 0)) [ inl e ↦ rw e refl | inr e ↦ rw e refl ]),
)
