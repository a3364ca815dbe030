-- ===== src/Art/Replacing.antt =====
-- A child of a node of art.c that is written in the place of another.
use pgvictoria.Prelude.{
  ℕ, ◌+◌, ◌<◌, ◌≡◌, false, inl, inr, if◌then◌else◌, ◌==◌, arith, refl, sym, subst, ◌∙◌, Bool-cases,
}
use pgvictoria.Art.{NodeType, node4, node16, node48, node256, Node, Inner, is_null}
use pgvictoria.Art.Arrays.{store, store-same, store-other}
use pgvictoria.Art.Changes.{Puts, PlaceOf, get_child-moved}
use pgvictoria.Art.Layout.{node_of, Layout, IsLaidOut, count, Place, get_child-Place}
use pgvictoria.Art.Indexing.{count-store}

module _ (c : ℕ) (x : Node) (key : c < 256) (set : is_null x ≡ false) where
  store-set :
      (i j : ℕ) (children : ℕ → Node)
      → is_null (children j) ≡ false
      → is_null (store i x children j) ≡ false
  store-set i j children h = elim (Bool-cases (j == i)) [ inl e ↦ rw e set | inr e ↦ rw e h ]

  -- Writing `x` at the place of `c`, where no other byte has that place.
  replaced :
      (n : Inner) (i : ℕ)
      → IsLaidOut n
      → IsLaidOut (record n { children = store i x n.children })
      → PlaceOf n c i
      → ((c' : ℕ) → c' < 256 → PlaceOf n c' i → c' ≡ c)
      → Puts n c x (record n { children = store i x n.children })
  replaced n i l l' p unique =
      let n' : Inner = record n { children = store i x n.children } in
      (
        l',
        (refl, λ j a b. refl),
        get_child-Place n' c l' i p ∙ store-same i x n.children,
        λ c' lt ne.
            get_child-moved n n' c' l l'
              (λ j q. (
                j,
                q,
                store-other i j x n.children
                    (λ e. ne (unique c' lt (subst (λ k. PlaceOf n c' k) e q))),
              ))
              (λ j q. (j, q)),
      )

  by_type :
      (t : NodeType) (num len : ℕ) (prefix keys : ℕ → ℕ) (children : ℕ → Node) (i : ℕ)
      → Layout t num keys children
      → is_null (children i) ≡ false
      → Place t num keys c i
      → Puts
          (node_of t num len prefix keys children)
          c
          x
          (node_of t num len prefix keys (store i x children))
  by_type node4 num len prefix keys children i l old p =
      replaced (node_of node4 num len prefix keys children) i l
        (l.0, l.1, l.2, λ j q. store-set i j children (l.3 j q)) p (λ c' lt q. sym q.1 ∙ p.1)
  by_type node16 num len prefix keys children i l old p =
      replaced (node_of node16 num len prefix keys children) i l
        (l.0, l.1, l.2, λ j q. store-set i j children (l.3 j q)) p (λ c' lt q. sym q.1 ∙ p.1)
  by_type node48 num len prefix keys children i l old p =
      let at = (l.0 c key (λ z. omega (arith, p, z))).0 in
      let r = count-store 48 i x children (omega (arith, p, at)) set in
      let s =
        subst (λ b. count 48 (store i x children) ≡ count 48 children + (if b then 1 else 0)) old
          r in
      replaced (node_of node48 num len prefix keys children) i l
        (
          λ d lt ne. let (u, v) = l.0 d lt ne in (u, store-set i _ children v),
          l.1,
          omega (arith, s, l.2),
        )
        p (λ c' lt q. l.1 c' c lt key (λ z. omega (arith, q, z)) (q ∙ sym p))
  by_type node256 num len prefix keys children i l old p =
      replaced (node_of node256 num len prefix keys children) i tt tt p (λ c' lt q. q ∙ sym p)

  -- Writing a child in the place of one that is there changes that child alone.
  pub replace_lem :
      (n : Inner) (i : ℕ)
      → IsLaidOut n
      → is_null (n.children i) ≡ false
      → PlaceOf n c i
      → Puts n c x (record n { children = store i x n.children })
  replace_lem n i = by_type _ _ _ _ _ _ i
