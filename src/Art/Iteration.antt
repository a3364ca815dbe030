-- ===== src/Art/Iteration.antt =====
-- Iterating over a tree of art.c against the map that it models.
use pgvictoria.Prelude.{ℕ, ◌≡◌, ◌↔◌, Option, some, sym, ◌∙◌}
use pgvictoria.Bytes.{Bytes}
use pgvictoria.Value.{Value}
use pgvictoria.Art.Tree.{Art, with_end, art_search}
use pgvictoria.Art.Finding.{search_from-Holds, Holds-search_from}
use pgvictoria.Art.Iterate.{art_node_iterate}
use pgvictoria.Art.Visits.{In, leaves, call_all, art_node_iterate_lem}
use pgvictoria.Art.Leaves.{leaves-Holds, Holds-leaves}
use pgvictoria.Art.Laws.{IsText, Map, Models, end-byte}

-- In a tree that models a map, an iteration with any callback from any state calls it on the tree's
-- leaves in their order, up to the first call whose result is not 0, and a text stands among the
-- leaves with a value exactly where the map has that value under it.
pub iterate-Models :
    (S : Type 0) (cb : Bytes → Option Value → S → S × ℕ) (s : S) (t : Art) (f : Map)
    → Models t f
    → (art_node_iterate t.root cb s ≡ call_all cb (leaves t.root) s)
      × ((k : Bytes) (v : Value)
          → IsText k
          → In (with_end k, some v) (leaves t.root) ↔ (f k ≡ some v))
unfolding art_search
iterate-Models S cb s t f md = (
  art_node_iterate_lem cb t.root s,
  λ k v isText. (
    λ h.
        sym (md.2 k isText)
        ∙ Holds-search_from t.root 0 (λ i. 0) (with_end k) (some v) md.0
            (leaves-Holds (with_end k) (some v) t.root 0 (λ i. 0) md.0 h),
    λ e.
        Holds-leaves (with_end k) (some v) t.root 0 (λ i. 0) md.0
          (search_from-Holds t.root 0 (with_end k) v (end-byte k isText) (md.2 k isText ∙ e)),
  ),
)
