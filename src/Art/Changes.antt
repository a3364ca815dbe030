-- ===== src/Art/Changes.antt =====
-- What a change to one node of art.c keeps: its prefix, its layout and its other children.
use pgvictoria.Prelude.{ℕ, ◌<◌, ◌≡◌, ◌≢◌, inl, inr, arith, sym, ◌∙◌}
use pgvictoria.Art.{Node, Inner, get_child, max_prefix_len}
use pgvictoria.Art.Layout.{IsLaidOut, get_child-Place, get_child-no_Place, Place-cases, Place}

-- The prefix is as long, and its stored bytes are the same.
abbrev pub SamePrefix : Inner → Inner → Type 0
SamePrefix n n' =
    (n'.header.prefix_len ≡ n.header.prefix_len)
    × ((i : ℕ)
        → i < max_prefix_len
        → i < n.header.prefix_len
        → n'.header.prefix i ≡ n.header.prefix i)

-- The same children under the same bytes.
abbrev pub Expands : Inner → Inner → Type 0
Expands n n' = IsLaidOut n' × SamePrefix n n' × ((c : ℕ) → c < 256 → get_child n' c ≡ get_child n c)

-- The byte `c` leads to `x`, and every other byte where it led before.
abbrev pub Puts : Inner → ℕ → Node → Inner → Type 0
Puts n c x n' =
    IsLaidOut n'
    × SamePrefix n n'
    × (get_child n' c ≡ x)
    × ((c' : ℕ) → c' < 256 → c' ≢ c → get_child n' c' ≡ get_child n c')

abbrev pub PlaceOf : Inner → ℕ → ℕ → Type 0
PlaceOf n c i = Place n.header.type n.header.num_children n.keys c i

pub get_child-moved :
    (n n' : Inner) (c : ℕ)
    → IsLaidOut n
    → IsLaidOut n'
    → ((i : ℕ) → PlaceOf n c i → (i' : ℕ) × PlaceOf n' c i' × (n'.children i' ≡ n.children i))
    → ((i' : ℕ) → PlaceOf n' c i' → (i : ℕ) × PlaceOf n c i)
    → get_child n' c ≡ get_child n c
get_child-moved n n' c l l' f g = elim (Place-cases n c l) [
  | inl (i, p) ↦
      let (i', p', e) = f i p in get_child-Place n' c l' i' p' ∙ e ∙ sym (get_child-Place n c l i p)
  | inr h ↦
      get_child-no_Place n' c l' (λ i' p'. let (i, p) = g i' p' in h i p)
      ∙ sym (get_child-no_Place n c l h)
]

pub Expands-Puts : (n m n' : Inner) (c : ℕ) (x : Node) → Expands n m → Puts m c x n' → Puts n c x n'
Expands-Puts n m n' c x (l, (p, q), f) (l', (p', q'), e, g) = (
  l',
  (p' ∙ p, λ i a b. q' i a (omega (arith, p, b)) ∙ q i a b),
  e,
  λ c' lt ne. g c' lt ne ∙ f c' lt,
)
