-- ===== src/Art/Holding.antt =====
-- What a tree of art.c holds, and what makes it a tree: leaves are keyed by texts with the 0 that
-- ends them, and all that stand below a node share the bytes that lead there.
use pgvictoria.Prelude.{
  ℕ, ◌+◌, ◌≤◌, ◌<◌, ◌≡◌, ◌≢◌, false, inl, inr, Option, none, some, arith, refl, sym, ap, subst, ◌∙◌,
  length, ◌==◌, Bool-cases, Bool, true, true≢false,
}
use pgvictoria.Bytes.{Bytes}
use pgvictoria.Value.{Value}
use pgvictoria.Art.{
  Node, null, leaf, inner, Inner, to_node, is_null, max_prefix_len, child_slot, child_at, get_child,
}
use pgvictoria.Art.Arrays.{store, store-same, store-other}
use pgvictoria.Art.Layout.{Layout, IsLaidOut}
use pgvictoria.Art.Search.{byte}

-- A key: bytes that are not 0, and a 0.
abbrev pub IsKey : Bytes → Type 0
IsKey key =
    (m : ℕ) × (length key ≡ m + 1)
    × (byte key m ≡ 0)
    × ((i : ℕ) → i < m → byte key i ≢ 0)
    × ((i : ℕ) → byte key i < 256)

-- The first `depth` bytes are the same.
abbrev pub Agree : ℕ → (ℕ → ℕ) → (ℕ → ℕ) → Type 0
Agree depth a b = (i : ℕ) → i < depth → a i ≡ b i

-- One byte more than what agrees.
pub Agree-store :
    (at c : ℕ) (path a : ℕ → ℕ) → Agree at a path → a at ≡ c → Agree (at + 1) a (store at c path)
Agree-store at c path a h e i p = elim (Bool-cases (i == at)) [
  | inl f ↦
      let g : at ≡ i = ground arith in
      subst (λ k. a k ≡ store at c path k) g (e ∙ sym (store-same at c path))
  | inr f ↦ h i (ground arith) ∙ sym (store-other at i c path (λ z. ground (arith, z, f)))
]

-- The node that a byte leads to from any node.
unfoldable pub below : Node → ℕ → Node
below null c = null
below (leaf key value) c = null
below (inner h keys children) c = child_at children (child_slot h keys c)

-- There is a leaf with this key and this value.
pub data Holds (key : Bytes) (value : Option Value) : Node → Type 0 where
  here : {n : Node} → n ≡ leaf key value → Holds key value n
  under : {n : Node} (c : ℕ) → c < 256 → Holds key value (below n c) → Holds key value n

-- A tree below `depth` bytes, which are the first bytes of `path`.
unfoldable pub IsTree : ℕ → (ℕ → ℕ) → Node → Type 0
IsTree depth path null = Unit
IsTree depth path (leaf key value) = IsKey key × (depth ≤ length key) × Agree depth (byte key) path
IsTree depth path (inner h keys children) =
    (path' : ℕ → ℕ) × (Agree depth path' path
      × ((i : ℕ) → i < max_prefix_len → i < h.prefix_len → h.prefix i ≡ path' (depth + i))
      × Layout h.type h.num_children keys children
      × ((c : ℕ) × (c < 256) × (is_null (child_at children (child_slot h keys c)) ≡ false))
      × ((c : ℕ) → c < 256 → (elim (child_slot h keys c) [
        | none ↦ Unit
        | some i ↦
            IsTree (depth + h.prefix_len + 1) (store (depth + h.prefix_len) c path') (children i)
      ])))

key_of : Bytes → Node → Bytes
key_of k (leaf key value) = key
key_of k _ = k

value_of : Option Value → Node → Option Value
value_of v (leaf key value) = value
value_of v _ = v

is_leaf : Node → Bool
is_leaf (leaf key value) = true
is_leaf _ = false

-- The same of a node as a record.
abbrev pub IsRooted : ℕ → (ℕ → ℕ) → Inner → (ℕ → ℕ) → Type 0
IsRooted depth path n path' =
    Agree depth path' path
    × ((i : ℕ)
        → i < max_prefix_len
        → i < n.header.prefix_len
        → n.header.prefix i ≡ path' (depth + i))
    × IsLaidOut n
    × ((c : ℕ) × (c < 256) × (is_null (get_child n c) ≡ false))
    × ((c : ℕ)
        → c < 256
        → IsTree (depth + n.header.prefix_len + 1) (store (depth + n.header.prefix_len) c path')
            (get_child n c))

module _ (depth : ℕ) (path : ℕ → ℕ) (children : ℕ → Node) where
  slot→child :
      (o : Option ℕ)
      → (elim o as (λ x. Type 0) [ none ↦ Unit | some i ↦ IsTree depth path (children i) ])
      → IsTree depth path (child_at children o)
  unfolding IsTree child_at
  slot→child none t = tt
  slot→child (some i) t = t

  child→slot :
      (o : Option ℕ)
      → IsTree depth path (child_at children o)
      → (elim o as (λ x. Type 0) [ none ↦ Unit | some i ↦ IsTree depth path (children i) ])
  unfolding child_at
  child→slot none t = tt
  child→slot (some i) t = t

pub IsTree→IsRooted :
    (depth : ℕ) (path : ℕ → ℕ) (n : Inner)
    → IsTree depth path (to_node n)
    → (path' : ℕ → ℕ) × IsRooted depth path n path'
unfolding IsTree to_node get_child
IsTree→IsRooted depth path n (path', (a, b, l, e, f)) =
    (path', (a, b, l, e, λ c lt. slot→child _ _ n.children (child_slot n.header n.keys c) (f c lt)))

pub IsRooted→IsTree :
    (depth : ℕ) (path : ℕ → ℕ) (n : Inner) (path' : ℕ → ℕ)
    → IsRooted depth path n path'
    → IsTree depth path (to_node n)
unfolding IsTree to_node get_child
IsRooted→IsTree depth path n path' (a, b, l, e, f) =
    (path', (a, b, l, e, λ c lt. child→slot _ _ n.children (child_slot n.header n.keys c) (f c lt)))

pub Holds-null : {key : Bytes} {value : Option Value} {n : Node} → Holds key value n → n ≢ null
unfolding below is_null
Holds-null (here e) f = true≢false (sym (ap is_null (sym e ∙ f)))
Holds-null (under c lt h) f = Holds-null h (ap (λ m. below m c) f)

-- A leaf holds its own key and value.
pub Holds-leaf :
    {key k : Bytes} {value v : Option Value} → Holds key value (leaf k v) → (key ≡ k) × (value ≡ v)
unfolding below key_of value_of
Holds-leaf {key} {k} {value} {v} (here e) = (sym (ap (key_of k) e), sym (ap (value_of v) e))
Holds-leaf (under c lt h) = absurd (Holds-null h refl)

module _ {key : Bytes} {value : Option Value} where
  -- What a node holds stands below one of its bytes.
  pub Holds-inner :
      (n : Inner)
      → Holds key value (to_node n)
      → (c : ℕ) × ((c < 256) × Holds key value (get_child n c))
  unfolding below to_node get_child is_leaf
  Holds-inner n (here e) = absurd (true≢false (sym (ap is_leaf e)))
  Holds-inner n (under c lt h) = (c, (lt, h))

  pub Holds-child :
      (n : Inner) (c : ℕ) → c < 256 → Holds key value (get_child n c) → Holds key value (to_node n)
  unfolding below to_node get_child
  Holds-child n c lt h = under c lt h

  -- The key of what a tree holds is a key, and begins with the path.
  pub IsTree-key :
      (n : Node) (depth : ℕ) (path : ℕ → ℕ)
      → IsTree depth path n
      → Holds key value n
      → IsKey key × (depth ≤ length key) × Agree depth (byte key) path
  unfolding IsTree below to_node get_child
  IsTree-key n depth path t (here e) = subst (IsTree depth path) e t
  IsTree-key null depth path t (under c lt h) = absurd (Holds-null h refl)
  IsTree-key (leaf k v) depth path t (under c lt h) = absurd (Holds-null h refl)
  IsTree-key (inner hd ks ch) depth path t (under c lt h) =
      let n : Inner = record { header = hd; keys = ks; children = ch } in
      let (path', (a, b, l, e, f)) = IsTree→IsRooted depth path n t in
      let (k, le, ag) = IsTree-key (get_child n c) _ _ (f c lt) h in
      (
        k,
        omega (arith, le),
        λ i p.
            ag i (omega (arith, p))
            ∙ store-other (depth + hd.prefix_len) i c path' (λ q. omega (arith, q, p))
            ∙ a i p,
      )

  -- Below a node, the bytes of its whole prefix are shared, and the next one leads to the child.
  pub IsRooted-key :
      (n : Inner) (depth : ℕ) (path path' : ℕ → ℕ) (c : ℕ)
      → IsRooted depth path n path'
      → c < 256
      → Holds key value (get_child n c)
      → IsKey key
        × (depth + n.header.prefix_len + 1 ≤ length key)
        × Agree (depth + n.header.prefix_len) (byte key) path'
        × (byte key (depth + n.header.prefix_len) ≡ c)
  IsRooted-key n depth path path' c (a, b, l, e, f) lt h =
      let (k, le, ag) = IsTree-key (get_child n c) _ _ (f c lt) h in
      let at = depth + n.header.prefix_len in
      (
        k,
        le,
        λ i p. ag i (omega (arith, p)) ∙ store-other at i c path' (λ q. omega (arith, q, p)),
        ag at (omega arith) ∙ store-same at c path',
      )
