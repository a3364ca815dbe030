-- ===== src/Art/Completion.antt =====
-- `pgvictoria_art_prefix_search` of art.c against the map that the tree models.
use pgvictoria.Prelude.{
  ℕ, zero, suc, ◌+◌, ◌%◌, ◌^◌, pos, take, ◌≤◌, ◌<◌, ◌≡◌, ◌↔◌, true, false, inl, inr, some, List, [],
  ◌∷◌, ◌++◌, ◌==◌, leb, ◌-◌, length, arith, refl, sym, ap, ap₂, subst, ◌∙◌, Option-cases,
  length-append,
}
use pgvictoria.Bytes.{Bytes}
use pgvictoria.Value.{Value}
use pgvictoria.Art.{is_null}
use pgvictoria.Art.Search.{byte}
use pgvictoria.Art.Tree.{Art, ended, with_end, art_search}
use pgvictoria.Art.Holding.{IsKey, Agree, Holds, IsTree-key}
use pgvictoria.Art.Finding.{search_from-Holds, Holds-search_from}
use pgvictoria.Art.Iterate.{
  before_end, has_prefix, prefix_search_from, find_matches, matched, prefix_search,
}
use pgvictoria.Art.Visits.{In, leaves}
use pgvictoria.Art.Matching.{has_prefix_lem, Agree-has_prefix}
use pgvictoria.Art.Prefixed.{prefix_search_from_lem}
use pgvictoria.Art.Laws.{IsText, Fits, Map, Represents, end-byte, with_end-ended, take-all}

-- The text is the prefix and more.
abbrev pub Begins : Bytes → Bytes → Type 0
Begins p k = (rest : Bytes) × (k ≡ p ++ rest)

Agree-Begins : (p k : Bytes) → IsText p → Agree (length p) (byte (ended k)) (byte p) → Begins p k
Agree-Begins [] k t h = (k, refl)
Agree-Begins (c ∷ p) [] t h = absurd (let e = h 0 (omega arith) in omega (arith, e, t.0.0))
Agree-Begins (c ∷ p) (d ∷ k) t h =
    let (rest, e) = Agree-Begins p k t.1 (λ i q. h (suc i) (omega (arith, q))) in
    (rest, ap₂ ◌∷◌ (h 0 (omega arith)) e)

Begins-Agree : (p rest : Bytes) → Agree (length p) (byte (ended (p ++ rest))) (byte p)
Begins-Agree [] rest i q = absurd (omega (arith, q))
Begins-Agree (c ∷ p) rest zero q = refl
Begins-Agree (c ∷ p) rest (suc i) q = Begins-Agree p rest i (omega (arith, q))

Begins-has_prefix : (p k : Bytes) → Begins p k → has_prefix p (ended k) ≡ true
Begins-has_prefix p k (rest, e) =
    let u = length-append p rest in
    let v = length-append (p ++ rest) (0 ∷ []) in
    subst (λ x. has_prefix p (ended x) ≡ true) (sym e)
      (Agree-has_prefix p (ended (p ++ rest)) (omega (arith, u, v)) (Begins-Agree p rest))

before_end-ended : (k : Bytes) → IsText k → before_end (ended k) ≡ k
unfolding before_end
before_end-ended [] t = refl
before_end-ended (c ∷ k) t =
    let e : (c == 0) ≡ false = ground (arith, t.0.0) in
    rw e (ap (λ x. c ∷ x) (before_end-ended k t.1))

length-zero : (k : Bytes) → length k ≡ 0 → k ≡ []
length-zero [] e = refl
length-zero (c ∷ k) e = absurd (omega (arith, e))

ended-before_end : (k : Bytes) → IsKey k → ended (before_end k) ≡ k
unfolding before_end
ended-before_end [] (m, a, b, c, d) = absurd (omega (arith, a))
ended-before_end (x ∷ k) (zero, a, b, c, d) =
    let e : (x == 0) ≡ true = ground (arith, b) in
    rw e (ap₂ ◌∷◌ (sym b) (sym (length-zero k (omega (arith, a)))))
ended-before_end (x ∷ k) (suc m, a, b, c, d) =
    let e : (x == 0) ≡ false = ground (arith, c 0 (omega arith)) in
    rw e (
      ap (λ y. x ∷ y)
        (ended-before_end k
          (m, omega (arith, a), b, λ i q. c (suc i) (omega (arith, q)), λ i. d (suc i))))

text-byte : (p : Bytes) → IsText p → (i : ℕ) → byte p i < 256
text-byte [] t i = omega arith
text-byte (c ∷ p) t zero = t.0.1
text-byte (c ∷ p) t (suc i) = text-byte p t.1 i

-- In a tree that is not empty, whose keys are below 2^32 bytes, and that represents a map on the
-- texts below 2^32 bytes with their 0, and for a prefix that is not empty and below 2^32 bytes and
-- room for as many matches as the tree has leaves, below the largest int, the search by prefix
-- succeeds, and such a text is among the matches exactly where it begins with that prefix and the
-- map has a value under it.
pub prefix_search-Represents :
    (t : Art) (f : Map) (c : ℕ) (p : Bytes) (max : ℕ)
    → Represents t f
    → is_null t.root ≡ false
    → IsText (c ∷ p)
    → length (c ∷ p) < 2 ^ 32
    → 0 < max
    → max + 1 < 2 ^ 31
    → length (leaves t.root) ≤ max
    → (ms : List Bytes) × ((prefix_search t (some (c ∷ p)) (pos max) ≡ matched ms)
        × ((k : Bytes)
            → IsText k
            → Fits k
            → In k ms ↔ (Begins (c ∷ p) k × ((v : Value) × (f k ≡ some v)))))
unfolding prefix_search find_matches art_search
prefix_search-Represents t f c p max md set tp short some_room int_room room =
    let prefix = c ∷ p in
    let ms = prefix_search_from max t.root 0 prefix [] in
    let bytes : (i : ℕ) → byte prefix i < 256 = text-byte prefix tp in
    let finds =
      prefix_search_from_lem max prefix bytes t.root 0 (λ i. 0) [] md.0 (omega (arith, room)) in
    let e : (max == 0) ≡ false = ground arith in
    let i : leb (2 ^ 31 - 1) max ≡ false = ground arith in
    let whole : take (length prefix % 2 ^ 32) prefix ≡ prefix =
      let n : length prefix % 2 ^ 32 ≡ length prefix = omega (arith, short) in
      ap (λ (m : ℕ). take m prefix) n ∙ take-all prefix in
    (
      ms,
      (
        rw (set, e, i) (ap (λ (q : Bytes). matched (prefix_search_from max t.root 0 q [])) whole),
        λ k tk fk. (
          λ u. elim ((finds k).0 u) [
            | inl v ↦ absurd v
            | inr (key, o, (h, hp, g)) ↦
                let (isKey, _, _) = IsTree-key t.root 0 (λ i. 0) md.0 h in
                let w : with_end k ≡ key =
                  with_end-ended k fk ∙ ap ended g ∙ ended-before_end key isKey in
                let h' = subst (λ q. Holds q o t.root) (sym w) h in
                let found =
                  sym (md.2 k tk fk) ∙ Holds-search_from t.root 0 (λ i. 0) (with_end k) o md.0 h' in
                elim (Option-cases o) [
                  | inl z ↦
                      absurd (md.1 (with_end k) (subst (λ q. Holds (with_end k) q t.root) z h'))
                  | inr (v, z) ↦ (
                    Agree-Begins prefix k tp (
                        subst (λ q. Agree (length prefix) (byte q) (byte prefix))
                          (with_end-ended k fk)
                          (has_prefix_lem prefix (with_end k) (ap (has_prefix prefix) w ∙ hp)).1),
                    (v, found ∙ z),
                  )
                ]
          ],
          λ (b, (v, z)). (finds k).1 (
              inr (
                with_end k,
                some v,
                (
                  search_from-Holds t.root 0 (with_end k) v (end-byte k tk) (md.2 k tk fk ∙ z),
                  ap (has_prefix prefix) (with_end-ended k fk) ∙ Begins-has_prefix prefix k b,
                  sym (ap before_end (with_end-ended k fk) ∙ before_end-ended k tk),
                ),
              )),
        ),
      ),
    )
