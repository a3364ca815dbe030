-- ===== src/Art/Telling.antt =====
-- What `art_node_insert` of art.c says of the key, and what it does where it comes to no inner node.
use pgvictoria.Prelude.{
  ℕ, ◌≤◌, ◌≡◌, ◌≢◌, ◌⊎◌, Bool, true, false, inl, inr, Option, some, none, refl, sym, ap, subst, ◌∙◌,
  Bool-cases, length, true≢false, some_inj,
}
use pgvictoria.Bytes.{Bytes}
use pgvictoria.Value.{Value}
use pgvictoria.Art.{Node, null, leaf, Inner, to_node, is_null}
use pgvictoria.Art.Search.{byte, leaf_match}
use pgvictoria.Art.Insert.{Inserted, art_node_insert, fresh_node, replace_value, split_leaf}
use pgvictoria.Art.Holding.{IsKey, Agree, IsTree, Holds, here, Holds-null, Holds-leaf}
use pgvictoria.Art.Finding.{leaf_match→eq, leaf_match_refl}
use pgvictoria.Art.Splitting.{Gains, split_leaf_lem}

-- What the call says of the key before: it was new, or its value is returned.
abbrev pub Tells : Bytes → Node → Inserted → Type 0
Tells key n r =
    ((r.is_new ≡ true) × (r.old_val ≡ none) × ((o : Option Value) → Holds key o n → ⊥))
    ⊎ ((r.is_new ≡ false) × Holds key r.old_val n)

abbrev pub Inserts : ℕ → (ℕ → ℕ) → Bytes → Value → Node → Option Inserted → Type 0
Inserts depth path key v n o =
    (r : Inserted) × ((o ≡ some r) × Gains depth path key (some v) n r.node × Tells key n r)

-- The branches of the call on an inner node, where `diff` is known.
pub branches :
    (G : Option Inserted → Type 0) (t : Bool) (slot : Option ℕ) (a b : Option Inserted)
    (c : ℕ → Option Inserted)
    → (t ≡ true → G a)
    → (t ≡ false → slot ≡ none → G b)
    → (t ≡ false → (i : ℕ) → slot ≡ some i → G (c i))
    → G (elim t as (λ _. Option Inserted) [
      | true ↦ a
      | false ↦ elim slot as (λ _. Option Inserted) [ none ↦ b | some i ↦ c i ]
    ])
branches G true slot a b c x y z = x refl
branches G false none a b c x y z = y refl refl
branches G false (some i) a b c x y z = z refl i refl

pub known :
    (G : Option Inserted → Type 0) (o : Option ℕ) (diff : ℕ) (f : ℕ → Option Inserted)
    → o ≡ some diff
    → G (f diff)
    → G (elim o as (λ _. Option Inserted) [ none ↦ none | some d ↦ f d ])
known G none diff f e g = cc
known G (some d) diff f e g = subst (λ k. G (f k)) (sym (some_inj e)) g

-- A tree that has gained a key that it did not hold.
pub fresh_node-Inserts :
    (depth : ℕ) (path : ℕ → ℕ) (key : Bytes) (v : Value) (n : Node) (m : Inner)
    → Gains depth path key (some v) n (to_node m)
    → ((o : Option Value) → Holds key o n → ⊥)
    → Inserts depth path key v n (fresh_node (some m))
unfolding fresh_node
fresh_node-Inserts depth path key v n m g h =
    (record { node = to_node m; old_val = none; is_new = true }, (refl, g, inl (refl, refl, h)))

module _ (key : Bytes) (isKey : IsKey key) (v : Value) where
  pub null-Gains :
      (depth : ℕ) (path : ℕ → ℕ)
      → depth ≤ length key
      → Agree depth (byte key) path
      → Gains depth path key (some v) null (leaf key (some v))
  unfolding IsTree is_null
  null-Gains depth path le ag = (
    (isKey, le, ag),
    here refl,
    λ k o nk. (λ h. absurd (Holds-null h refl), λ h. absurd (nk (Holds-leaf h).0)),
    refl,
  )

  pub at_leaf :
      (k : Bytes) (o : Option Value) (depth : ℕ) (path : ℕ → ℕ)
      → IsTree depth path (leaf k o)
      → depth ≤ length key
      → Agree depth (byte key) path
      → Inserts depth path key v (leaf k o) (art_node_insert (leaf k o) depth key (some v))
  unfolding IsTree is_null art_node_insert replace_value
  at_leaf k o depth path t le ag = elim (Bool-cases (leaf_match k key)) [
    | inl e ↦
        let f = leaf_match→eq k key e in
        rw e (
          record { node = leaf k (some v); old_val = o; is_new = false },
          (
            refl,
            (
              t,
              here (ap (λ k'. leaf k' (some v)) f),
              λ k' o' nk. (
                λ h. absurd (nk ((Holds-leaf h).0 ∙ f)),
                λ h. absurd (nk ((Holds-leaf h).0 ∙ f)),
              ),
              refl,
            ),
            inr (refl, here (ap (λ k'. leaf k' o) f)),
          ),
        )
    | inr e ↦
        let ne : k ≢ key = λ f.
          true≢false
            (sym (subst (λ k'. leaf_match k' key ≡ true) (sym f) (leaf_match_refl key)) ∙ e) in
        rw e (
          fresh_node-Inserts depth path key v (leaf k o) (split_leaf k o depth key (some v))
            (split_leaf_lem k key o (some v) depth path ne t isKey le ag)
            (λ o' h. ne (sym (Holds-leaf h).0)))
  ]
