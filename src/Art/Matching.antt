-- ===== src/Art/Matching.antt =====
-- The keys that begin with a prefix, and the texts of them that an iteration of art.c appends.
use pgvictoria.Prelude.{
  ℕ, zero, suc, ◌+◌, ◌≤◌, ◌≡◌, ◌⊎◌, ◌↔◌, true, false, inl, inr, Option, List, [], ◌∷◌, ◌++◌, ◌==◌,
  leb, length, take, arith, refl, sym, ap, ◌∙◌, &&_split, ==_iff, length-append, append-nil,
  append_assoc,
}
use pgvictoria.Bytes.{Bytes, str_eq}
use pgvictoria.Value.{Value}
use pgvictoria.Art.{Node}
use pgvictoria.Art.Search.{byte}
use pgvictoria.Art.Holding.{Agree, Holds}
use pgvictoria.Art.Iterate.{before_end, prefix_search_cb, has_prefix}
use pgvictoria.Art.Visits.{In, call_all}

Agree-cons :
    (c d : ℕ) (p k : Bytes)
    → d ≡ c
    → Agree (length p) (byte k) (byte p)
    → Agree (suc (length p)) (byte (d ∷ k)) (byte (c ∷ p))
Agree-cons c d p k e v zero q = e
Agree-cons c d p k e v (suc i) q = v i (omega (arith, q))

take-Agree :
    (p k : Bytes)
    → str_eq (take (length p) k) p ≡ true
    → (length p ≤ length k) × Agree (length p) (byte k) (byte p)
unfolding str_eq
take-Agree [] k h = (omega arith, λ i q. absurd (omega (arith, q)))
take-Agree (c ∷ p) [] h = cc
take-Agree (c ∷ p) (d ∷ k) h =
    let (a, b) = &&_split (d == c) _ h in
    let (u, v) = take-Agree p k b in
    let e : d ≡ c = (==_iff d c).0 a in (omega (arith, u), Agree-cons c d p k e v)

Agree-take :
    (p k : Bytes)
    → length p ≤ length k
    → Agree (length p) (byte k) (byte p)
    → str_eq (take (length p) k) p ≡ true
unfolding str_eq
Agree-take [] k h a = refl
Agree-take (c ∷ p) [] h a = absurd (omega (arith, h))
Agree-take (c ∷ p) (d ∷ k) h a =
    let e : (d == c) ≡ true = (==_iff d c).1 (a 0 (omega arith)) in
    rw e (Agree-take p k (omega (arith, h)) (λ i q. a (suc i) (omega (arith, q))))

-- The key has at least the bytes of the prefix, and they are the same.
pub has_prefix_lem :
    (p k : Bytes)
    → has_prefix p k ≡ true
    → (length p ≤ length k) × Agree (length p) (byte k) (byte p)
unfolding has_prefix
has_prefix_lem p k h = take-Agree p k (&&_split _ _ h).1

pub Agree-has_prefix :
    (p k : Bytes) → length p ≤ length k → Agree (length p) (byte k) (byte p) → has_prefix p k ≡ true
unfolding has_prefix
Agree-has_prefix p k h a =
    let e : leb (length p) (length k) ≡ true = ground arith in rw (e, Agree-take p k h a) refl

abbrev pub names : List (Bytes × Option Value) → List Bytes
names [] = []
names ((key, value) ∷ rest) = before_end key ∷ names rest

-- Where there is room for all, each name is appended.
pub call_all-names :
    (max : ℕ) (ls : List (Bytes × Option Value)) (ms : List Bytes)
    → length ms + length ls ≤ max
    → call_all (prefix_search_cb max) ls ms ≡ (ms ++ names ls, 0)
unfolding call_all prefix_search_cb
call_all-names max [] ms h = ap (λ x. (x, 0)) (sym (append-nil ms))
call_all-names max ((key, value) ∷ ls) ms h =
    let e : leb max (length ms) ≡ false = ground (arith, h) in
    let f = length-append ms (before_end key ∷ []) in
    rw e (
      call_all-names max ls (ms ++ before_end key ∷ []) (omega (arith, h, f))
      ∙ ap (λ x. (x, 0)) (append_assoc ms (before_end key ∷ []) (names ls)))

pub names-In :
    (x : Bytes) (ls : List (Bytes × Option Value))
    → In x (names ls)
    → (k : Bytes) × (o : Option Value) × (In (k, o) ls × (x ≡ before_end k))
names-In x [] h = absurd h
names-In x ((key, value) ∷ ls) (inl e) = (key, value, (inl refl, e))
names-In x ((key, value) ∷ ls) (inr h) = let (k, o, (p, q)) = names-In x ls h in (k, o, (inr p, q))

pub In-names :
    (k : Bytes) (o : Option Value) (ls : List (Bytes × Option Value))
    → In (k, o) ls
    → In (before_end k) (names ls)
In-names k o [] h = absurd h
In-names k o ((key, value) ∷ ls) (inl e) = inl (ap (λ p. before_end p.0) e)
In-names k o ((key, value) ∷ ls) (inr h) = inr (In-names k o ls h)

-- A key of the node has the prefix, and `x` is its text.
abbrev pub Matches : Bytes → Node → Bytes → Type 0
Matches p n x =
    (k : Bytes) × (o : Option Value) × (Holds k o n × (has_prefix p k ≡ true) × (x ≡ before_end k))

-- What was matched before, and the texts of the node's keys that have the prefix.
abbrev pub Finds : Bytes → Node → List Bytes → List Bytes → Type 0
Finds p n ms r = (x : Bytes) → In x r ↔ (In x ms ⊎ Matches p n x)

pub nothing-Finds :
    (p : Bytes) (n : Node) (ms : List Bytes) → ((x : Bytes) → Matches p n x → ⊥) → Finds p n ms ms
nothing-Finds p n ms h x = (λ u. inl u, λ u. elim u [ inl v ↦ v | inr v ↦ absurd (h x v) ])
