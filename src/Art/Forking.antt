-- ===== src/Art/Forking.antt =====
-- The node4 with two children that `art_node_insert` of art.c makes.
use pgvictoria.Prelude.{
  ℕ, ◌+◌, ◌<◌, ◌≡◌, ◌≢◌, ◌⊎◌, false, inl, inr, Option, ◌==◌, arith, sym, ap, subst, ◌∙◌, Bool-cases,
}
use pgvictoria.Bytes.{Bytes}
use pgvictoria.Value.{Value}
use pgvictoria.Art.{node4, Node, null, Inner, to_node, is_null, max_prefix_len, get_child}
use pgvictoria.Art.Arrays.{store}
use pgvictoria.Art.Nodes.{create_art_node, node_add_child}
use pgvictoria.Art.Changes.{SamePrefix}
use pgvictoria.Art.Layout.{node_of, Sorted, IsLaidOut, get_child-no_Place}
use pgvictoria.Art.Children.{node_add_child_lem}
use pgvictoria.Art.Insert.{fork}
use pgvictoria.Art.Holding.{
  Agree, IsTree, IsRooted→IsTree, Holds, Holds-null, Holds-inner, Holds-child,
}

abbrev bare : ℕ → (ℕ → ℕ) → Inner
bare len prefix = node_of node4 0 len prefix (λ i. 0) (λ i. null)

bare-Sorted : Sorted 4 0 (λ i. 0) (λ i. null)
bare-Sorted = (
  omega arith,
  λ i j p q. absurd (omega (arith, q)),
  λ i p. absurd (omega (arith, p)),
  λ i p. absurd (omega (arith, p)),
)

bare-child : (len : ℕ) (prefix : ℕ → ℕ) (c : ℕ) → get_child (bare len prefix) c ≡ null
bare-child len prefix c =
    get_child-no_Place (bare len prefix) c bare-Sorted (λ i p. absurd (omega (arith, p.0)))

null-set : (x : Node) → x ≡ null → is_null x ≡ false → ⊥
unfolding is_null
null-set x e h = let f = sym (ap is_null e) ∙ h in cc

module _ (len : ℕ) (prefix : ℕ → ℕ) (a b : ℕ) (x y : Node) (lta : a < 256) (ltb : b < 256)
    (setx : is_null x ≡ false) (sety : is_null y ≡ false) (ne : a ≢ b) where
  -- The two bytes lead to the two children, and no other byte leads to one.
  fork_lem :
      let n = fork len prefix a x b y in
      IsLaidOut n
      × SamePrefix (bare len prefix) n
      × (get_child n a ≡ x)
      × (get_child n b ≡ y)
      × ((c : ℕ) → c < 256 → c ≢ a → c ≢ b → get_child n c ≡ null)
  unfolding fork create_art_node
  fork_lem =
      let (l, (p, q), e, f) =
        node_add_child_lem a x lta setx (bare len prefix) bare-Sorted (bare-child len prefix a) in
      let (l', (p', q'), e', f') =
        node_add_child_lem b y ltb sety (node_add_child (bare len prefix) a x) l
          (f b ltb (λ z. ne (sym z)) ∙ bare-child len prefix b) in
      (
        l',
        (p' ∙ p, λ i u v. q' i u (omega (arith, p, v)) ∙ q i u v),
        f' a lta ne ∙ e,
        e',
        λ c lt na nb. f' c lt nb ∙ f c lt na ∙ bare-child len prefix c,
      )

  pub fork-Holds :
      (key : Bytes) (value : Option Value)
      → Holds key value (to_node (fork len prefix a x b y))
      → Holds key value x ⊎ Holds key value y
  fork-Holds key value h =
      let n = fork len prefix a x b y in
      let (l, p, e, f, g) = fork_lem in
      let (c, (lt, h')) = Holds-inner n h in
      elim (Bool-cases (c == a)) [
        | inl u ↦
            let v : c ≡ a = ground arith in
            inl (subst (Holds key value) (ap (get_child n) v ∙ e) h')
        | inr u ↦ elim (Bool-cases (c == b)) [
          | inl w ↦
              let v : c ≡ b = ground arith in
              inr (subst (Holds key value) (ap (get_child n) v ∙ f) h')
          | inr w ↦
              absurd
                (Holds-null h' (g c lt (λ z. ground (arith, z, u)) (λ z. ground (arith, z, w))))
        ]
      ]

  pub Holds-fork-left :
      (key : Bytes) (value : Option Value)
      → Holds key value x
      → Holds key value (to_node (fork len prefix a x b y))
  Holds-fork-left key value h =
      let (l, p, e, f, g) = fork_lem in Holds-child _ a lta (subst (Holds key value) (sym e) h)

  pub Holds-fork-right :
      (key : Bytes) (value : Option Value)
      → Holds key value y
      → Holds key value (to_node (fork len prefix a x b y))
  Holds-fork-right key value h =
      let (l, p, e, f, g) = fork_lem in Holds-child _ b ltb (subst (Holds key value) (sym f) h)

  -- Two trees below the fork make one above it.
  pub fork-IsTree :
      (depth : ℕ) (path path' : ℕ → ℕ)
      → Agree depth path' path
      → ((i : ℕ) → i < max_prefix_len → i < len → prefix i ≡ path' (depth + i))
      → IsTree (depth + len + 1) (store (depth + len) a path') x
      → IsTree (depth + len + 1) (store (depth + len) b path') y
      → IsTree depth path (to_node (fork len prefix a x b y))
  unfolding IsTree is_null
  fork-IsTree depth path path' ag pre tx ty =
      let n = fork len prefix a x b y in
      let (l, (p, q), e, f, g) = fork_lem in
      let below : (c : ℕ)
          → c < 256
          → IsTree (depth + len + 1) (store (depth + len) c path') (get_child n c) =
        λ c lt. elim (Bool-cases (c == a)) [
          | inl u ↦
              let v : a ≡ c = ground arith in
              subst (λ k. IsTree (depth + len + 1) (store (depth + len) k path') (get_child n k)) v
                (subst (IsTree _ _) (sym e) tx)
          | inr u ↦ elim (Bool-cases (c == b)) [
            | inl w ↦
                let v : b ≡ c = ground arith in
                subst (λ k. IsTree (depth + len + 1) (store (depth + len) k path') (get_child n k))
                  v (subst (IsTree _ _) (sym f) ty)
            | inr w ↦
                let v = g c lt (λ z. ground (arith, z, u)) (λ z. ground (arith, z, w)) in
                subst (IsTree (depth + len + 1) (store (depth + len) c path')) (sym v) tt
          ]
        ] in
      IsRooted→IsTree depth path n path' (
        ag,
        λ i u v. q i u (omega (arith, p, v)) ∙ pre i u (omega (arith, p, v)),
        l,
        (a, lta, ap is_null e ∙ setx),
        subst
            (λ k.
              (c : ℕ)
              → c < 256
              → IsTree (depth + k + 1) (store (depth + k) c path') (get_child n c))
            (sym p) below,
      )
