-- ===== src/Art/Indexing.antt =====
-- The table of a node48 of art.c: a child that is put in a free place, and the table that
-- replaces the keys of a full node16.
use pgvictoria.Prelude.{
  ℕ, zero, suc, ◌+◌, ◌-◌, ◌%◌, ◌^◌, ◌≤◌, ◌<◌, ◌≡◌, ◌≢◌, Bool, true, false, not, inl, inr, leb, ◌==◌,
  if◌then◌else◌, arith, refl, sym, ap, subst, ◌∙◌, Bool-cases, ==_refl, true≢false,
}
use pgvictoria.Art.{node48, Node, Inner, is_null}
use pgvictoria.Art.Arrays.{store, store-same, store-other, advance_lem}
use pgvictoria.Art.Nodes.{insert_indexed, count_child, free_slot}
use pgvictoria.Art.Changes.{Puts, get_child-moved}
use pgvictoria.Art.Layout.{node_of, Indexed, count, get_child-Place}

pub count-full :
    (k : ℕ) (children : ℕ → Node)
    → ((j : ℕ) → j < k → is_null (children j) ≡ false)
    → count k children ≡ k
unfolding count
count-full zero children h = refl
count-full (suc k) children h =
    rw (h k (omega arith)) (omega (arith, count-full k children (λ j p. h j (omega arith))))

-- The children that are there come first.
pub count-first :
    (k m : ℕ) (children : ℕ → Node)
    → ((j : ℕ) → j < m → is_null (children j) ≡ false)
    → ((j : ℕ) → m ≤ j → is_null (children j) ≡ true)
    → m ≤ k
    → count k children ≡ m
unfolding count
count-first zero m children h g le = omega arith
count-first (suc k) m children h g le = elim (Bool-cases (leb m k)) [
  | inl e ↦ rw (g k (ground arith)) (omega (arith, count-first k m children h g (ground arith)))
  | inr e ↦
      let f : m ≡ suc k = ground arith in
      count-full (suc k) children (λ j p. h j (omega arith)) ∙ sym f
]

count-store-above :
    (k i : ℕ) (x : Node) (children : ℕ → Node)
    → k ≤ i
    → count k (store i x children) ≡ count k children
unfolding count
count-store-above zero i x children h = refl
count-store-above (suc k) i x children h =
    let e : (k == i) ≡ false = ground arith in
    let r = count-store-above k i x children (omega arith) in rw e (omega (arith, r))

pub count-store :
    (k i : ℕ) (x : Node) (children : ℕ → Node)
    → i < k
    → is_null x ≡ false
    → count k (store i x children) ≡ count k children + (if is_null (children i) then 1 else 0)
unfolding count
count-store zero i x children lt set = absurd (omega (arith, lt))
count-store (suc k) i x children lt set = elim (Bool-cases (k == i)) [
  | inl e ↦
      let f : i ≡ k = ground arith in
      subst
        (λ t.
          count (suc k) (store t x children)
          ≡ count (suc k) children + (if is_null (children t) then 1 else 0))
        (sym f)
        (let r = count-store-above k k x children (omega arith) in
          rw (==_refl k, set) (ground (arith, r)))
  | inr e ↦ let r = count-store k i x children (ground arith) set in rw e (omega (arith, r))
]

not-true : (b : Bool) → not b ≡ true → b ≡ false
not-true b h = ground arith

not-false : (b : Bool) → not b ≡ false → b ≡ true
not-false b h = ground arith

-- The search for a free place ends at one, where there is one.
pub free_slot_lem :
    (children : ℕ → Node)
    → count 48 children < 48
    → (free_slot children < 48) × (is_null (children (free_slot children)) ≡ true)
unfolding free_slot
free_slot_lem children h =
    let (a, b, c, d) = advance_lem 48 (λ pos. not (is_null (children pos))) 0 in
    elim d [
      | inl e ↦ absurd (
          let f =
            count-full 48 children (λ j p. not-true _ (c j (omega arith) (omega (arith, e)))) in
          omega (arith, f, h))
      | inr (u, e) ↦ (omega (arith, u), not-false _ e)
    ]

-- A child that is put in the free place `pos`, under a byte that had none.
module _ (num c pos : ℕ) (x : Node) (keys : ℕ → ℕ) (children : ℕ → Node) (key : c < 256)
    (set : is_null x ≡ false) (lt : pos < 48) (empty : is_null (children pos) ≡ true)
    (free : keys c ≡ 0) (l : Indexed num keys children) where
  abbrev keys' : ℕ → ℕ
  keys' = store c (pos + 1) keys

  abbrev children' : ℕ → Node
  children' = store pos x children

  stays : (d : ℕ) → d < 256 → keys d ≢ 0 → children' (keys d - 1) ≡ children (keys d - 1)
  stays d p ne =
      store-other pos (keys d - 1) x children
        (λ e. true≢false (sym empty ∙ subst (λ k. is_null (children k) ≡ false) e (l.0 d p ne).1))

  put-used :
      (d : ℕ) → d < 256 → keys' d ≢ 0 → (keys' d ≤ 48) × (is_null (children' (keys' d - 1)) ≡ false)
  put-used d p ne = elim (Bool-cases (d == c)) [
    | inl e ↦
        let f : d ≡ c = ground arith in
        let g : keys' d ≡ pos + 1 = ap keys' f ∙ store-same c (pos + 1) keys in
        let h : keys' d - 1 ≡ pos = omega (arith, g) in
        (
          omega (arith, g, lt),
          ap (λ k. is_null (children' k)) h ∙ ap is_null (store-same pos x children) ∙ set,
        )
    | inr e ↦
        let f : keys' d ≡ keys d = store-other c d (pos + 1) keys (λ g. ground (arith, g, e)) in
        let (u, v) = l.0 d p (λ z. ne (f ∙ z)) in
        (
          omega (arith, f, u),
          ap (λ k. is_null (children' (k - 1))) f ∙ ap is_null (stays d p (λ z. ne (f ∙ z))) ∙ v,
        )
  ]

  put-kept : (d : ℕ) → d ≢ c → keys' d ≡ keys d
  put-kept d ne = store-other c d (pos + 1) keys ne

  put-fresh : (d : ℕ) → d < 256 → d ≢ c → keys' c ≢ keys' d
  put-fresh d p ne e =
      let g : keys d ≡ pos + 1 = sym (put-kept d ne) ∙ sym e ∙ store-same c (pos + 1) keys in
      let h : keys d - 1 ≡ pos = omega (arith, g) in
      true≢false (
        sym empty
        ∙ subst (λ k. is_null (children k) ≡ false) h (l.0 d p (λ z. omega (arith, g, z))).1)

  put-injective : (d e : ℕ) → d < 256 → e < 256 → keys' d ≢ 0 → keys' d ≡ keys' e → d ≡ e
  put-injective d e p q ne eq = elim (Bool-cases (d == c)) [
    | inl f ↦ elim (Bool-cases (e == c)) [
      | inl g ↦ ground arith
      | inr g ↦
          let h : d ≡ c = ground arith in
          absurd (put-fresh e q (λ z. ground (arith, z, g)) (sym (ap keys' h) ∙ eq))
    ]
    | inr f ↦ elim (Bool-cases (e == c)) [
      | inl g ↦
          let h : e ≡ c = ground arith in
          absurd (put-fresh d p (λ z. ground (arith, z, f)) (sym (ap keys' h) ∙ sym eq))
      | inr g ↦
          let u = put-kept d (λ z. ground (arith, z, f)) in
          let v = put-kept e (λ z. ground (arith, z, g)) in
          l.1 d e p q (λ z. ne (u ∙ z)) (sym u ∙ eq ∙ v)
    ]
  ]

  put-Indexed : Indexed (num + 1) keys' children'
  put-Indexed =
      let r = count-store 48 pos x children lt set in
      let s = subst (λ b. count 48 children' ≡ count 48 children + (if b then 1 else 0)) empty r in
      (put-used, put-injective, omega (arith, s, l.2))

-- The branch of `node48_add_child` that has room puts the child under its byte.
pub insert_indexed-node48 :
    (num len : ℕ) (prefix keys : ℕ → ℕ) (children : ℕ → Node) (c : ℕ) (x : Node)
    → c < 256
    → is_null x ≡ false
    → num < 48
    → Indexed num keys children
    → keys c ≡ 0
    → Puts
        (node_of node48 num len prefix keys children)
        c
        x
        (insert_indexed (node_of node48 num len prefix keys children) c x)
unfolding insert_indexed count_child
insert_indexed-node48 num len prefix keys children c x key set lt l free =
    let n = node_of node48 num len prefix keys children in
    let pos = free_slot children in
    let (p, q) = free_slot_lem children (omega (arith, l.2, lt)) in
    let result : ℕ → Inner =
      λ k. node_of node48 k len prefix (store c (pos + 1) keys) (store pos x children) in
    let l' = put-Indexed num c pos x keys children key set p q free l in
    let e : (num + 1) % 2 ^ 8 ≡ num + 1 = omega (arith, lt) in
    subst (λ k. Puts n c x (result k)) (sym e)
      (
        l',
        (refl, λ i a b. refl),
        get_child-Place (result (num + 1)) c l' pos (ground (arith, store-same c (pos + 1) keys))
            ∙ store-same pos x children,
        λ c' lt' ne.
            get_child-moved n (result (num + 1)) c' l l'
              (λ i e. (
                i,
                store-other c c' (pos + 1) keys ne ∙ e,
                (let w : keys c' - 1 ≡ i = omega (arith, e) in
                    subst (λ k. store pos x children k ≡ children k) w
                      (stays num c pos x keys children key set p q free l c' lt'
                        (λ z. omega (arith, z, e)))),
              ))
              (λ i' e. (i', sym (store-other c c' (pos + 1) keys ne) ∙ e)),
      )
