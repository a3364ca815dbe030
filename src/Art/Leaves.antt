-- ===== src/Art/Leaves.antt =====
-- The places that an iteration over a tree of art.c comes to, and the leaves below them.
use pgvictoria.Prelude.{
  ℕ, zero, suc, ◌-◌, ◌<◌, ◌≡◌, ◌⊎◌, false, inl, inr, Option, [], ◌∷◌, ◌++◌, ◌==◌, if◌then◌else◌,
  arith, refl, sym, ap, ap₂, subst, ◌∙◌, Bool-cases, Option-cases,
}
use pgvictoria.Bytes.{Bytes}
use pgvictoria.Value.{Value}
use pgvictoria.Art.{
  NodeType, node4, node16, node48, node256, Node, null, leaf, inner, Inner, to_node, is_null,
  child_slot,
}
use pgvictoria.Art.Layout.{
  Layout, Place, child_slot→Place, get_child-Place, get_child-some, get_child-none,
}
use pgvictoria.Art.Holding.{
  IsTree, IsTree→IsRooted, Holds, here, Holds-null, Holds-leaf, Holds-inner, Holds-child,
}
use pgvictoria.Art.Iterate.{first_places, indexed_places, used_places, places}
use pgvictoria.Art.Visits.{In, In-left, In-right, In-append, collect-In, In-collect, leaves}

first_places-In : (n i : ℕ) → In i (first_places n) → i < n
unfolding first_places
first_places-In zero i h = absurd h
first_places-In (suc n) i h = elim (In-append i (first_places n) (n ∷ []) h) [
  | inl u ↦ omega (arith, first_places-In n i u)
  | inr (inl e) ↦ omega (arith, e)
  | inr (inr u) ↦ absurd u
]

In-first_places : (n i : ℕ) → i < n → In i (first_places n)
unfolding first_places
In-first_places zero i lt = absurd (omega (arith, lt))
In-first_places (suc n) i lt = elim (Bool-cases (i == n)) [
  | inl e ↦ In-right i (first_places n) (n ∷ []) (inl (ground arith))
  | inr e ↦ In-left i (first_places n) (n ∷ []) (In-first_places n i (ground arith))
]

indexed_places-In :
    (n : ℕ) (keys : ℕ → ℕ) (i : ℕ)
    → In i (indexed_places n keys)
    → (c : ℕ) × ((c < n) × (keys c ≡ suc i))
unfolding indexed_places
indexed_places-In zero keys i h = absurd h
indexed_places-In (suc n) keys i h = elim (Bool-cases (keys n == 0)) [
  | inl e ↦
      let h' =
        subst
          (λ b.
            In i (if b then indexed_places n keys else indexed_places n keys ++ (keys n - 1) ∷ []))
          e h in
      let (c, (lt, f)) = indexed_places-In n keys i h' in (c, (omega (arith, lt), f))
  | inr e ↦
      let h' =
        subst
          (λ b.
            In i (if b then indexed_places n keys else indexed_places n keys ++ (keys n - 1) ∷ []))
          e h in
      elim (In-append i (indexed_places n keys) ((keys n - 1) ∷ []) h') [
        | inl u ↦ let (c, (lt, f)) = indexed_places-In n keys i u in (c, (omega (arith, lt), f))
        | inr (inl f) ↦ (n, (omega arith, ground (arith, e, f)))
        | inr (inr u) ↦ absurd u
      ]
]

In-indexed_places :
    (n : ℕ) (keys : ℕ → ℕ) (i c : ℕ) → c < n → keys c ≡ suc i → In i (indexed_places n keys)
unfolding indexed_places
In-indexed_places zero keys i c lt f = absurd (omega (arith, lt))
In-indexed_places (suc n) keys i c lt f = elim (Bool-cases (c == n)) [
  | inl g ↦
      let k : c ≡ n = ground arith in
      let w : keys n ≡ suc i = ap keys (sym k) ∙ f in
      let z : (keys n == 0) ≡ false = ground (arith, w) in
      rw z (In-right i (indexed_places n keys) ((keys n - 1) ∷ []) (inl (omega (arith, w))))
  | inr g ↦
      let u = In-indexed_places n keys i c (ground arith) f in
      elim (Bool-cases (keys n == 0)) [
        | inl e ↦ rw e u
        | inr e ↦ rw e (In-left i (indexed_places n keys) ((keys n - 1) ∷ []) u)
      ]
]

used_places-In : (n : ℕ) (children : ℕ → Node) (i : ℕ) → In i (used_places n children) → i < n
unfolding used_places
used_places-In zero children i h = absurd h
used_places-In (suc n) children i h = elim (Bool-cases (is_null (children n))) [
  | inl e ↦
      let h' =
        subst (λ b. In i (if b then used_places n children else used_places n children ++ n ∷ [])) e
          h in
      omega (arith, used_places-In n children i h')
  | inr e ↦
      let h' =
        subst (λ b. In i (if b then used_places n children else used_places n children ++ n ∷ [])) e
          h in
      elim (In-append i (used_places n children) (n ∷ []) h') [
        | inl u ↦ omega (arith, used_places-In n children i u)
        | inr (inl f) ↦ omega (arith, f)
        | inr (inr u) ↦ absurd u
      ]
]

In-used_places :
    (n : ℕ) (children : ℕ → Node) (i : ℕ)
    → i < n
    → is_null (children i) ≡ false
    → In i (used_places n children)
unfolding used_places
In-used_places zero children i lt set = absurd (omega (arith, lt))
In-used_places (suc n) children i lt set = elim (Bool-cases (i == n)) [
  | inl g ↦
      let k : i ≡ n = ground arith in
      let z : is_null (children n) ≡ false = subst (λ t. is_null (children t) ≡ false) k set in
      rw z (In-right i (used_places n children) (n ∷ []) (inl k))
  | inr g ↦
      let u = In-used_places n children i (ground arith) set in
      elim (Bool-cases (is_null (children n))) [
        | inl e ↦ rw e u
        | inr e ↦ rw e (In-left i (used_places n children) (n ∷ []) u)
      ]
]

-- The places are those of the bytes that lead to a child.
places-In :
    (t : NodeType) (num len : ℕ) (prefix keys : ℕ → ℕ) (children : ℕ → Node) (i : ℕ)
    → Layout t num keys children
    → In i (places t num keys children)
    → (c : ℕ) × ((c < 256) × Place t num keys c i)
unfolding places
places-In node4 num len prefix keys children i l h =
    let p = first_places-In num i h in (keys i, (l.2 i p, (p, refl)))
places-In node16 num len prefix keys children i l h =
    let p = first_places-In num i h in (keys i, (l.2 i p, (p, refl)))
places-In node48 num len prefix keys children i l h = indexed_places-In 256 keys i h
places-In node256 num len prefix keys children i l h = (i, (used_places-In 256 children i h, refl))

pub In-places :
    (t : NodeType) (num : ℕ) (keys : ℕ → ℕ) (children : ℕ → Node) (c i : ℕ)
    → c < 256
    → Place t num keys c i
    → is_null (children i) ≡ false
    → In i (places t num keys children)
unfolding places
In-places node4 num keys children c i lt p set = In-first_places num i p.0
In-places node16 num keys children c i lt p set = In-first_places num i p.0
In-places node48 num keys children c i lt p set = In-indexed_places 256 keys i c lt p
In-places node256 num keys children c i lt p set =
    In-used_places 256 children i (omega (arith, lt, p)) set

pub is_null-cases : (x : Node) → (x ≡ null) ⊎ (is_null x ≡ false)
unfolding is_null
is_null-cases null = inl refl
is_null-cases (leaf key value) = inr refl
is_null-cases (inner h keys children) = inr refl

module _ (key : Bytes) (value : Option Value) where
  pub leaves-Holds :
      (n : Node) (depth : ℕ) (path : ℕ → ℕ)
      → IsTree depth path n
      → In (key, value) (leaves n)
      → Holds key value n
  unfolding leaves to_node
  leaves-Holds null depth path t h = absurd h
  leaves-Holds (leaf k o) depth path t (inl e) = here (ap (λ p. leaf p.0 p.1) (sym e))
  leaves-Holds (leaf k o) depth path t (inr h) = absurd h
  leaves-Holds (inner hd keys children) depth path t h =
      let n : Inner = record { header = hd; keys = keys; children = children } in
      let (path', r) = IsTree→IsRooted depth path n t in
      let (i, (p, q)) =
        collect-In (key, value) (places hd.type hd.num_children keys children)
          (λ i. leaves (children i)) h in
      let (c, (lt, pl)) =
        places-In hd.type hd.num_children hd.prefix_len hd.prefix keys children i r.2 p in
      let g = get_child-Place n c r.2 i pl in
      Holds-child n c lt (
        subst (Holds key value) (sym g)
          (leaves-Holds (children i) _ _ (subst (IsTree _ _) g (r.4 c lt)) q))

  pub Holds-leaves :
      (n : Node) (depth : ℕ) (path : ℕ → ℕ)
      → IsTree depth path n
      → Holds key value n
      → In (key, value) (leaves n)
  unfolding leaves to_node
  Holds-leaves null depth path t h = absurd (Holds-null h refl)
  Holds-leaves (leaf k o) depth path t h =
      let (e, f) = Holds-leaf h in inl (ap₂ (λ a b. (a, b)) e f)
  Holds-leaves (inner hd keys children) depth path t h =
      let n : Inner = record { header = hd; keys = keys; children = children } in
      let (path', r) = IsTree→IsRooted depth path n t in
      let (c, (lt, h')) = Holds-inner n h in
      elim (Option-cases (child_slot hd keys c)) [
        | inl e ↦ absurd (Holds-null h' (get_child-none n c e))
        | inr (i, e) ↦
            let g = get_child-some n c i e in
            let h'' = subst (Holds key value) g h' in
            elim (is_null-cases (children i)) [
              | inl z ↦ absurd (Holds-null h'' z)
              | inr set ↦
                  In-collect (key, value) (places hd.type hd.num_children keys children)
                    (λ i. leaves (children i)) i
                    (In-places hd.type hd.num_children keys children c i lt
                      (child_slot→Place _ _ _ _ _ _ c i r.2 e) set)
                    (Holds-leaves (children i) _ _ (subst (IsTree _ _) g (r.4 c lt)) h'')
            ]
      ]
