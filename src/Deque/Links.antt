-- ===== src/Deque/Links.antt =====
-- Rows of nodes that are linked in both directions, and what a write to a link leaves of them.
use pgvictoria.Prelude.{
  All-append, All-middle, All-split, false, List, [], ◌∷◌, ◌++◌, ◌==◌, arith, ◌≡◌, All,
}
use pgvictoria.Deque.{Ptr, put}

-- Each node of the row and the one behind it point at each other.
abbrev pub Linked : (Ptr → Ptr) → (Ptr → Ptr) → List Ptr → Type 0
Linked nx pv [] = Unit
Linked nx pv (a ∷ []) = Unit
Linked nx pv (a ∷ b ∷ ws) = (nx a ≡ b) × (pv b ≡ a) × Linked nx pv (b ∷ ws)

abbrev pub IsOther : Ptr → Ptr → Type 0
IsOther p a = ((a == p) ≡ false) × ((p == a) ≡ false)

-- `p` is none of the nodes.
abbrev pub Apart : Ptr → List Ptr → Type 0
Apart p = All (IsOther p)

abbrev pub Distinct : List Ptr → Type 0
Distinct [] = Unit
Distinct (a ∷ ws) = Apart a ws × Distinct ws

module _ (nx pv : Ptr → Ptr) where
  pub Linked-split :
      (ws : List Ptr) (a b : Ptr) (bs : List Ptr)
      → Linked nx pv (ws ++ a ∷ b ∷ bs)
      → Linked nx pv (ws ++ a ∷ []) × (nx a ≡ b) × (pv b ≡ a) × Linked nx pv (b ∷ bs)
  Linked-split [] a b bs (f, g, l) = (tt, f, g, l)
  Linked-split (x ∷ []) a b bs (f, g, l) =
      let (m, u, v, w) = Linked-split [] a b bs l in ((f, g, m), u, v, w)
  Linked-split (x ∷ y ∷ ws) a b bs (f, g, l) =
      let (m, u, v, w) = Linked-split (y ∷ ws) a b bs l in ((f, g, m), u, v, w)

  pub Linked-join :
      (ws : List Ptr) (a b : Ptr) (bs : List Ptr)
      → Linked nx pv (ws ++ a ∷ [])
      → nx a ≡ b
      → pv b ≡ a
      → Linked nx pv (b ∷ bs)
      → Linked nx pv (ws ++ a ∷ b ∷ bs)
  Linked-join [] a b bs m u v w = (u, v, w)
  Linked-join (x ∷ []) a b bs (f, g, m) u v w = (f, g, Linked-join [] a b bs m u v w)
  Linked-join (x ∷ y ∷ ws) a b bs (f, g, m) u v w = (f, g, Linked-join (y ∷ ws) a b bs m u v w)

  -- A write to the link forward of the last node.
  pub Linked-put_next_last :
      (ws : List Ptr) (p v : Ptr)
      → Apart p ws
      → Linked nx pv (ws ++ p ∷ [])
      → Linked (put p v nx) pv (ws ++ p ∷ [])
  Linked-put_next_last [] p v h l = tt
  Linked-put_next_last (x ∷ []) p v h l = ground arith
  Linked-put_next_last (x ∷ y ∷ ws) p v (h, k) (f, g, l) =
      (rw h.0 f, g, Linked-put_next_last (y ∷ ws) p v k l)

  pub Linked-put_next :
      (ws : List Ptr) (p v : Ptr) → Apart p ws → Linked nx pv ws → Linked (put p v nx) pv ws
  Linked-put_next [] p v h l = tt
  Linked-put_next (x ∷ []) p v h l = tt
  Linked-put_next (x ∷ y ∷ ws) p v (h, k) (f, g, l) =
      (rw h.0 f, g, Linked-put_next (y ∷ ws) p v k l)

  pub Linked-put_prev :
      (ws : List Ptr) (p v : Ptr) → Apart p ws → Linked nx pv ws → Linked nx (put p v pv) ws
  Linked-put_prev [] p v h l = tt
  Linked-put_prev (x ∷ []) p v h l = tt
  Linked-put_prev (x ∷ y ∷ ws) p v (h, k) (f, g, l) =
      (f, rw k.0.0 g, Linked-put_prev (y ∷ ws) p v k l)

  -- A write to the link back of the first node.
  pub Linked-put_prev_first :
      (ws : List Ptr) (p v : Ptr)
      → Apart p ws
      → Linked nx pv (p ∷ ws)
      → Linked nx (put p v pv) (p ∷ ws)
  Linked-put_prev_first [] p v h l = tt
  Linked-put_prev_first (x ∷ ws) p v h (f, g, l) = (f, rw h.0.0 g, Linked-put_prev (x ∷ ws) p v h l)

pub Distinct-middle :
    (xs : List Ptr) (a : Ptr) (ys : List Ptr)
    → Distinct (xs ++ a ∷ ys)
    → Apart a xs × Apart a ys × Distinct (xs ++ ys)
Distinct-middle [] a ys (h, d) = (tt, h, d)
Distinct-middle (x ∷ xs) a ys (h, d) =
    let (u, v, w) = Distinct-middle xs a ys d in
    let (i, j, k) = All-middle (IsOther x) xs a ys h in
    (((j.1, j.0), u), v, (All-append (IsOther x) xs ys i k, w))

pub Distinct-insert :
    (xs : List Ptr) (a : Ptr) (ys : List Ptr)
    → Apart a xs
    → Apart a ys
    → Distinct (xs ++ ys)
    → Distinct (xs ++ a ∷ ys)
Distinct-insert [] a ys u v w = (v, w)
Distinct-insert (x ∷ xs) a ys (n, u) v (h, w) =
    let (i, k) = All-split (IsOther x) xs ys h in
    (All-append (IsOther x) xs (a ∷ ys) i ((n.1, n.0), k), Distinct-insert xs a ys u v w)
