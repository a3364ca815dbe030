-- ===== src/Art/Splitting.antt =====
-- Where `art_node_insert` of art.c parts two keys: at a leaf of another key, and inside the prefix
-- of a node.
use pgvictoria.Prelude.{
  ℕ, zero, suc, ◌+◌, ◌-◌, ◌≤◌, ◌<◌, ◌≡◌, ◌≢◌, ◌⊎◌, true, false, inl, inr, Option, ◌==◌, ltb,
  if◌then◌else◌, arith, refl, sym, ap, subst, ◌∙◌, Bool-cases, length,
}
use pgvictoria.Bytes.{Bytes}
use pgvictoria.Value.{Value}
use pgvictoria.Art.{Node, leaf, to_node, is_null, max_prefix_len}
use pgvictoria.Art.Arrays.{store, store-same, store-other}
use pgvictoria.Art.Nodes.{min32}
use pgvictoria.Art.Search.{byte}
use pgvictoria.Art.Insert.{diverge, split_leaf}
use pgvictoria.Art.Holding.{IsKey, Agree, IsTree, Holds, here, Holds-leaf, Agree-store}
use pgvictoria.Art.Prefix.{same_key, min32_le}
use pgvictoria.Art.Forking.{fork-Holds, Holds-fork-left, Holds-fork-right, fork-IsTree}

-- The two nodes hold the same under every other key.
abbrev pub Keeps : Bytes → Node → Node → Type 0
Keeps key n m =
    (k : Bytes) (o : Option Value)
    → k ≢ key
    → (Holds k o n → Holds k o m) × (Holds k o m → Holds k o n)

-- The node `m` is a tree that holds the value under the key, and under the others what `n` holds.
abbrev pub Gains : ℕ → (ℕ → ℕ) → Bytes → Option Value → Node → Node → Type 0
Gains depth path key value n m =
    IsTree depth path m × Holds key value m × Keeps key n m × (is_null m ≡ false)

module _ (key leaf_key : Bytes) (depth : ℕ) where
  abbrev Filled : ℕ → (ℕ → ℕ) → Type 0
  Filled idx prefix =
      (j : ℕ) → j < max_prefix_len → depth + j < idx → prefix j ≡ byte key (depth + j)

  Filled-next :
      (idx : ℕ) (prefix : ℕ → ℕ)
      → depth ≤ idx
      → Filled idx prefix
      → Filled (idx + 1) (
          if ltb (idx - depth) max_prefix_len
          then store (idx - depth) (byte key idx) prefix
          else prefix)
  Filled-next idx prefix le f j p q = elim (Bool-cases (j == idx - depth)) [
    | inl e ↦
        let g : idx - depth ≡ j = ground arith in
        let h : idx ≡ depth + j = omega (arith, g, le) in
        let t : ltb (idx - depth) max_prefix_len ≡ true = ground (arith, g) in
        rw t (
          ap (store (idx - depth) (byte key idx) prefix) (sym g)
          ∙ store-same (idx - depth) (byte key idx) prefix
          ∙ ap (byte key) h)
    | inr e ↦ elim (Bool-cases (ltb (idx - depth) max_prefix_len)) [
      | inl t ↦ rw t (
          store-other (idx - depth) j (byte key idx) prefix (λ z. ground (arith, z, e))
          ∙ f j p (ground arith))
      | inr t ↦ rw t (f j p (ground arith))
    ]
  ]

  diverge_lem :
      (fuel idx : ℕ) (prefix : ℕ → ℕ)
      → depth ≤ idx
      → Filled idx prefix
      → let r = diverge fuel key leaf_key depth idx prefix in
        (idx ≤ r.0)
        × ((i : ℕ) → idx ≤ i → i < r.0 → byte key i ≡ byte leaf_key i)
        × ((r.0 ≡ idx + fuel) ⊎ ((r.0 < idx + fuel) × (byte key r.0 ≢ byte leaf_key r.0)))
        × Filled r.0 r.1
  unfolding diverge
  diverge_lem zero idx prefix le f =
      (omega arith, λ i p q. absurd (omega (arith, p, q)), inl (omega arith), f)
  diverge_lem (suc fuel) idx prefix le f = elim (Bool-cases (byte key idx == byte leaf_key idx)) [
    | inr e ↦ rw e (
      omega arith,
      λ i p q. absurd (omega (arith, p, q)),
      inr (omega arith, λ z. ground (arith, z, e)),
      f,
    )
    | inl e ↦
        let (a, b, c, d) =
          diverge_lem fuel (idx + 1) _ (omega (arith, le)) (Filled-next idx prefix le f) in
        rw e (
          omega (arith, a),
          λ i p q. elim (Bool-cases (i == idx)) [
            | inl g ↦
                let h : idx ≡ i = ground arith in
                subst (λ t. byte key t ≡ byte leaf_key t) h (ground arith)
            | inr g ↦ b i (ground arith) q
          ],
          elim c [ inl u ↦ inl (omega (arith, u)) | inr (u, v) ↦ inr (omega (arith, u), v) ],
          d,
        )
  ]

-- A leaf of another key is split where the two keys part.
pub split_leaf_lem :
    (leaf_key key : Bytes) (old value : Option Value) (depth : ℕ) (path : ℕ → ℕ)
    → leaf_key ≢ key
    → IsTree depth path (leaf leaf_key old)
    → IsKey key
    → depth ≤ length key
    → Agree depth (byte key) path
    → Gains depth path key value
        (leaf leaf_key old)
        (to_node (split_leaf leaf_key old depth key value))
unfolding split_leaf IsTree is_null to_node
split_leaf_lem leaf_key key old value depth path ne (isk', le', ag') isk le ag =
    let fuel = min32 (length key) (length leaf_key) - depth in
    let r = diverge fuel key leaf_key depth depth (λ i. 0) in
    let (a, b, c, d) =
      diverge_lem key leaf_key depth fuel depth (λ i. 0) (omega arith)
        (λ j p q. absurd (omega (arith, q))) in
    let (x, y, z) = min32_le (length key) (length leaf_key) in
    let both : (i : ℕ) → i < r.0 → byte key i ≡ byte leaf_key i = λ i p.
      elim (Bool-cases (ltb i depth)) [
        | inl e ↦ ag i (ground arith) ∙ sym (ag' i (ground arith))
        | inr e ↦ b i (ground arith) p
      ] in
    let (lt, differ) : (r.0 < depth + fuel) × (byte key r.0 ≢ byte leaf_key r.0) = elim c [
      | inr w ↦ w
      | inl e ↦ absurd (elim z [
        | inl u ↦
            ne (sym (same_key key leaf_key isk isk' (λ i p. both i (omega (arith, p, e, u, le)))))
        | inr u ↦
            ne (same_key leaf_key key isk' isk (λ i p. sym (both i (omega (arith, p, e, u, le')))))
      ])
    ] in
    let len = r.0 - depth in
    let at : depth + len ≡ r.0 = omega (arith, a) in
    let ka = byte key r.0 in
    let kb = byte leaf_key r.0 in
    let kla : ka < 256 = isk.4 r.0 in
    let klb : kb < 256 = isk'.4 r.0 in
    let x' = leaf key value in
    let y' = leaf leaf_key old in
    (
      fork-IsTree len r.1 ka kb x' y' kla klb refl refl differ depth path (byte key) ag
          (λ i p q. d i p (omega (arith, q, at)))
          (
            isk,
            omega (arith, at, lt, x, y),
            Agree-store (depth + len) ka (byte key) (byte key) (λ i p. refl) (ap (byte key) at),
          )
          (
            isk',
            omega (arith, at, lt, x, y),
            Agree-store (depth + len) kb (byte key) (byte leaf_key)
                (λ i p. sym (both i (omega (arith, p, at)))) (ap (byte leaf_key) at),
          ),
      Holds-fork-left len r.1 ka kb x' y' kla klb refl refl differ key value (here refl),
      λ k o nk. (
        λ h. Holds-fork-right len r.1 ka kb x' y' kla klb refl refl differ k o h,
        λ h. elim (fork-Holds len r.1 ka kb x' y' kla klb refl refl differ k o h) [
          | inl u ↦ absurd (nk (Holds-leaf u).0)
          | inr u ↦ u
        ],
      ),
      refl,
    )
