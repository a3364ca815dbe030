-- ===== src/Art/Prefix.antt =====
-- The prefix that `check_prefix` of art.c compares, part of which only the leaves hold.
use pgvictoria.Prelude.{
  ℕ, suc, ◌+◌, ◌-◌, ◌≤◌, ◌<◌, ◌≡◌, ◌≢◌, ◌⊎◌, Bool, inl, inr, Option, some, ◌==◌, ltb, leb, [], ◌∷◌,
  arith, refl, sym, ap₂, subst, ◌∙◌, Bool-cases, length, ==_iff, true≢false,
}
use pgvictoria.Bytes.{Bytes}
use pgvictoria.Value.{Value}
use pgvictoria.Art.{Inner, to_node, is_null, max_prefix_len}
use pgvictoria.Art.Arrays.{advance, advance_lem}
use pgvictoria.Art.Nodes.{min32, node_get_minimum}
use pgvictoria.Art.Search.{byte, check_prefix_partial, compare_leaf, check_prefix}
use pgvictoria.Art.Holding.{IsKey, Agree, IsRooted, Holds-inner, IsRooted-key, IsRooted→IsTree}
use pgvictoria.Art.Minimum.{node_get_minimum_lem}

-- A key that begins with another is not longer: the 0 ends it.
pub prefix_free :
    (k k' : Bytes) → IsKey k → IsKey k' → Agree (length k) (byte k) (byte k') → length k' ≤ length k
prefix_free k k' (m, a, b, c, d) (m', a', b', c', d') ag = elim (Bool-cases (ltb m m')) [
  | inl e ↦ absurd (c' m (ground arith) (sym (ag m (omega (arith, a))) ∙ b))
  | inr e ↦ ground (arith, a, a')
]

equal_bytes : (k k' : Bytes) → length k ≡ length k' → Agree (length k) (byte k) (byte k') → k ≡ k'
equal_bytes [] [] e h = refl
equal_bytes [] (y ∷ ys) e h = absurd (omega (arith, e))
equal_bytes (x ∷ xs) [] e h = absurd (omega (arith, e))
equal_bytes (x ∷ xs) (y ∷ ys) e h =
    ap₂ ◌∷◌ (h 0 (omega arith))
      (equal_bytes xs ys (omega (arith, e)) (λ i p. h (suc i) (omega (arith, p))))

-- Keys that agree up to the end of one of them are the same.
pub same_key : (k k' : Bytes) → IsKey k → IsKey k' → Agree (length k) (byte k) (byte k') → k ≡ k'
same_key k k' h h' ag =
    let le = prefix_free k k' h h' ag in
    let ge = prefix_free k' k h' h (λ i p. sym (ag i (omega (arith, p, le)))) in
    equal_bytes k k' (omega (arith, le, ge)) ag

pub min32_le : (a b : ℕ) → (min32 a b ≤ a) × (min32 a b ≤ b) × ((min32 a b ≡ a) ⊎ (min32 a b ≡ b))
unfolding min32
min32_le a b = elim (Bool-cases (leb b a)) [
  | inl e ↦ rw e (ground arith, omega arith, inr refl)
  | inr e ↦ rw e (omega arith, ground arith, inl refl)
]

module _ (n : Inner) (depth : ℕ) (path path' : ℕ → ℕ) (r : IsRooted depth path n path') where
  -- The leaf that stands for what is below the node.
  pub smallest :
      (k : Bytes) × (value : Option Value) × ((node_get_minimum (to_node n) ≡ some (k, value))
        × IsKey k
        × (depth + n.header.prefix_len + 1 ≤ length k)
        × Agree (depth + n.header.prefix_len) (byte k) path')
  unfolding to_node is_null
  smallest =
      let (k, value, (e, h)) =
        node_get_minimum_lem (to_node n) depth path (IsRooted→IsTree depth path n path' r) refl in
      let (c, (lt, h')) = Holds-inner n h in
      let (a, b, d, f) = IsRooted-key n depth path path' c r lt h' in (k, value, (e, a, b, d))

  module _ (key : Bytes) (isKey : IsKey key) where
    -- A key that follows the path into the prefix has not come to its end there.
    pub goes_on :
        (at : ℕ) → at ≤ depth + n.header.prefix_len → Agree at (byte key) path' → at < length key
    goes_on at le ag =
        let (k, value, (e, a, b, d)) = smallest in
        elim (Bool-cases (ltb at (length key))) [
          | inl f ↦ ground arith
          | inr f ↦ absurd (
              let g : length key ≤ at = ground arith in
              omega (
                arith,
                prefix_free key k isKey a
                    (λ i p. ag i (omega (arith, p, g)) ∙ sym (d i (omega (arith, p, g, le)))),
                b,
                g,
                le,
              ))
        ]

    -- The result is where the key leaves the prefix, if it does.
    abbrev pub IsDiff : ℕ → Type 0
    IsDiff diff =
        ((j : ℕ) → j < diff → j < n.header.prefix_len → byte key (depth + j) ≡ path' (depth + j))
        × (diff < n.header.prefix_len → byte key (depth + diff) ≢ path' (depth + diff))

    module _ (le : depth ≤ length key) (agree : Agree depth (byte key) path') where
      pub joined :
          (diff : ℕ)
          → ((j : ℕ) → j < diff → byte key (depth + j) ≡ path' (depth + j))
          → Agree (depth + diff) (byte key) path'
      joined diff h i p = elim (Bool-cases (ltb i depth)) [
        | inl e ↦ agree i (ground arith)
        | inr e ↦
            let f : depth + (i - depth) ≡ i = ground arith in
            subst (λ t. byte key t ≡ path' t) f (h (i - depth) (ground arith))
      ]

      -- What the first loop shows.
      pub partial :
          let len = check_prefix_partial n.header key depth in
          (len ≤ max_prefix_len)
          × (len ≤ n.header.prefix_len)
          × (depth + len ≤ length key)
          × ((j : ℕ) → j < len → byte key (depth + j) ≡ path' (depth + j))
          × (len < max_prefix_len
              → len < n.header.prefix_len
              → byte key (depth + len) ≢ path' (depth + len))
      unfolding check_prefix_partial
      partial =
          let h = n.header in
          let test : ℕ → Bool = λ len. byte key (depth + len) == h.prefix len in
          let bound = min32 (min32 h.prefix_len max_prefix_len) (length key - depth) in
          let len = advance bound test 0 in
          let (a, b, c, d) = advance_lem bound test 0 in
          let (x1, y1, z1) = min32_le h.prefix_len max_prefix_len in
          let (x2, y2, z2) = min32_le (min32 h.prefix_len max_prefix_len) (length key - depth) in
          let same : (j : ℕ) → j < len → byte key (depth + j) ≡ path' (depth + j) = λ j p.
            let t = c j (omega arith) p in
            let u : byte key (depth + j) ≡ h.prefix j = (==_iff _ _).0 t in
            u ∙ r.1 j (omega (arith, p, b, x2, y1)) (omega (arith, p, b, x2, x1)) in
          (
            omega (arith, b, x2, y1),
            omega (arith, b, x2, x1),
            omega (arith, b, y2, le),
            same,
            λ p q e. elim d [
              | inl f ↦
                  let g : depth + len ≡ length key = omega (arith, f, z1, z2, p, q, le) in
                  omega (arith, goes_on (depth + len) (omega (arith, q)) (joined len same), g)
              | inr (u, f) ↦
                  let g : byte key (depth + len) ≡ h.prefix len = e ∙ sym (r.1 len p q) in
                  true≢false (sym ((==_iff _ _).1 g) ∙ f)
            ],
          )

      -- What the second loop shows.
      rest :
          (k : Bytes) (len : ℕ)
          → depth + n.header.prefix_len + 1 ≤ length k
          → Agree (depth + n.header.prefix_len) (byte k) path'
          → depth + len ≤ length key
          → ((j : ℕ) → j < len → byte key (depth + j) ≡ path' (depth + j))
          → len ≤ n.header.prefix_len
          → IsDiff (compare_leaf k key depth len)
      unfolding compare_leaf
      rest k len lk ak kl same small =
          let h = n.header in
          let test : ℕ → Bool = λ i. byte k (depth + i) == byte key (depth + i) in
          let bound = min32 (length k) (length key) - depth - len in
          let diff = advance bound test len in
          let (a, b, c, d) = advance_lem bound test len in
          let (x1, y1, z1) = min32_le (length k) (length key) in
          let same' : (j : ℕ)
              → j < diff
              → j < h.prefix_len
              → byte key (depth + j) ≡ path' (depth + j) =
            λ j p q. elim (Bool-cases (ltb j len)) [
              | inl e ↦ same j (ground arith)
              | inr e ↦
                  let u : byte k (depth + j) ≡ byte key (depth + j) =
                    (==_iff _ _).0 (c j (ground arith) p) in
                  sym u ∙ ak (depth + j) (omega (arith, q))
            ] in
          (
            same',
            λ p e. elim d [
              | inl f ↦
                  let g : length key ≤ depth + diff = omega (arith, f, z1, p, lk, kl) in
                  let ag = joined diff (λ j q. same' j q (omega (arith, p, q))) in
                  omega (arith, goes_on (depth + diff) (omega (arith, p)) ag, g)
              | inr (u, f) ↦
                  let g : byte k (depth + diff) ≡ byte key (depth + diff) =
                    ak (depth + diff) (omega (arith, p)) ∙ sym e in
                  true≢false (sym ((==_iff _ _).1 g) ∙ f)
            ],
          )

      -- At a node of a tree, for a key that is a text with its 0, that is at least `depth` bytes
      -- long and whose first `depth` bytes are those that lead to the node, `check_prefix` follows
      -- no NULL; its result is where the key leaves the node's whole prefix, or is not below the
      -- prefix's length where it does not, also where the node stores the prefix only in part.
      pub check_prefix_lem : (diff : ℕ) × ((check_prefix n key depth ≡ some diff) × IsDiff diff)
      unfolding check_prefix to_node
      check_prefix_lem =
          let len = check_prefix_partial n.header key depth in
          let (a, b, c, same, leaves) = partial in
          let (k, value, (e, isk, lk, ak)) = smallest in
          elim (Bool-cases (ltb len max_prefix_len)) [
            | inl f ↦ rw f (len, (refl, ((λ j p q. same j p), leaves (ground arith))))
            | inr f ↦ rw (f, e) (compare_leaf k key depth len, (refl, rest k len lk ak c same b))
          ]
