-- ===== src/Json/Total.antt =====
-- The rounds of the parser of json.c, and the length of what it leaves of a text.
use pgvictoria.Prelude.{
  ℕ, zero, suc, ◌≤◌, ◌<◌, ◌≡◌, refl, Bool, true, false, not, ◌&&◌, ◌||◌, Option, none, some, [],
  ◌∷◌, ◌==◌, ltb, ℤ, length, arith, Bool-cases, inl, inr, ◌⊎◌,
}
use pgvictoria.Bytes.{Bytes, text, str_eq, is_space, is_digit, drop_while, has}
use pgvictoria.Json.{
  Json, entry, string, bool, double, int64, Parse, ok, refused, out_of_fuel, ◌>>=◌, given, quoted,
  is_number_char, is_small_letter, value_start, take_while, word_value, nonempty, behind_first,
  number_value, fill_value, read_key, items, elements, parse_string, json_parse_string,
}
use pgvictoria.Json.Shorter.{
  Below, Below-bind, if-Below, nonempty-bind, behind_first-Below, length-drop_while,
  length-drop_while_first, quoted-Below, read_key-Below,
}

-- A reader of a single value that does not run out of rounds.
abbrev pub Ends : Parse Json → Type 0
Ends m = (m ≡ refused) ⊎ ((v : Json) × (m ≡ ok v))

Ends-bind :
    (k : ℕ) (m : Parse Json) (s : Bytes) → Ends m → length s < k → Below k (m >>= (λ v. ok (v, s)))
Ends-bind k m s (inl e) h = rw e tt
Ends-bind k m s (inr (v, e)) h = rw e h

word_value-Ends : (w : Bytes) → Ends (word_value w)
unfolding word_value
word_value-Ends w = elim (Bool-cases (str_eq w (text "null"))) [
  | inl e ↦ inr (string none, rw e refl)
  | inr e ↦ elim (Bool-cases (str_eq w (text "true"))) [
    | inl f ↦ inr (bool true, rw (e, f) refl)
    | inr f ↦ elim (Bool-cases (str_eq w (text "false"))) [
      | inl g ↦ inr (bool false, rw (e, f, g) refl)
      | inr g ↦ inl (rw (e, f, g) refl)
    ]
  ]
]

module _ (scan_double : Bytes → Bool) (scan_int : Bytes → Option ℤ) where
  scanned-Ends : (n : Option ℤ) → Ends (given n >>= (λ i. ok (int64 i)))
  scanned-Ends none = inl refl
  scanned-Ends (some i) = inr (_, refl)

  number_value-Ends : (w : Bytes) → Ends (number_value scan_double scan_int w)
  unfolding number_value
  number_value-Ends w = elim (Bool-cases (has b'.' w)) [
    | inl e ↦ elim (Bool-cases (scan_double w)) [
      | inl f ↦ inr (double w, rw (e, f) refl)
      | inr f ↦ inl (rw (e, f) refl)
    ]
    | inr e ↦ rw e (scanned-Ends (scan_int w))
  ]

  module _ (nested : Bytes → Parse (Json × Bytes)) (bound : ℕ)
      (inner : (t : Bytes) → length t ≤ bound → Below (length t) (nested t)) where
    fill_value-Below :
        (s : Bytes) → length s ≤ bound → Below (length s) (fill_value scan_double scan_int nested s)
    unfolding fill_value
    fill_value-Below [] h = tt
    fill_value-Below (c ∷ s) h =
        let n = suc (length s) in
        if-Below n (c == b'"') _ _
          (λ e.
            Below-bind (suc (length s)) n (quoted (suc (length s)) s) _
              (quoted-Below (suc (length s)) s (omega arith))
              (λ v r b.
                Below-bind (length r) n (behind_first r) _ (behind_first-Below r)
                  (λ q t b'. omega (arith, b, b'))))
          (λ e.
            if-Below n (c == b'-' || c == b'+' || is_digit c) _ _
              (λ f. Ends-bind n _ _ (number_value-Ends (take_while is_number_char (c ∷ s))) (
                length-drop_while_first is_number_char c s
                  (unfold is_number_char in ground (arith, f))))
              (λ f.
                if-Below n (c == b'{' || c == b'[') _ _ (λ g. inner (c ∷ s) h)
                  (λ g.
                    if-Below n (c == b'n' || c == b't' || c == b'f') _ _
                      (λ i. Ends-bind n _ _ (word_value-Ends (take_while is_small_letter (c ∷ s))) (
                        length-drop_while_first is_small_letter c s
                          (unfold is_small_letter in ground (arith, i))))
                      (λ i. tt))))

    next_item :
        (rounds k : ℕ) (t : Bytes)
        → length t ≤ bound
        → length t ≤ rounds
        → length t < k
        → ((w : Bytes)
            → length w < rounds
            → length w ≤ bound
            → Below (suc (length w)) (items scan_double scan_int nested rounds false w))
        → Below k (do
          (key, u) ← read_key t
          (v, w) ← fill_value scan_double scan_int nested u
          (es, rest) ← items scan_double scan_int nested rounds false w
          ok (entry (some key) v es, rest))
    next_item rounds k t h r b ih =
        Below-bind (length t) k (read_key t) _ (read_key-Below t) (λ key u b1.
          Below-bind (length u) k (fill_value scan_double scan_int nested u) _
            (fill_value-Below u (omega (arith, h, b1)))
            (λ v w b2.
              Below-bind (suc (length w)) k (items scan_double scan_int nested rounds false w) _
                (ih w (omega (arith, r, b1, b2)) (omega (arith, h, b1, b2)))
                (λ es rest b3. omega (arith, b, b1, b2, b3))))

    items-Below :
        (rounds : ℕ) (first : Bool) (s : Bytes)
        → length s ≤ bound
        → length s < rounds
        → Below (suc (length s)) (items scan_double scan_int nested rounds first s)
    unfolding items
    items-Below zero first s h r = absurd (omega arith)
    items-Below (suc rounds) first [] h r = omega arith
    items-Below (suc rounds) first (x ∷ s) h r =
        let n = suc (suc (length s)) in
        let trimmed = drop_while is_space (x ∷ s) in
        let short = length-drop_while is_space (x ∷ s) in
        let ih = λ (w : Bytes) (b : length w < rounds) (b' : length w ≤ bound).
          items-Below rounds false w b' b in
        Below-bind (length trimmed) n (behind_first trimmed) _ (behind_first-Below trimmed)
          (λ c t b.
            if-Below n (c == b',') _ _
              (λ e.
                next_item rounds n t (omega (arith, h, short, b)) (omega (arith, r, short, b))
                  (omega (arith, short, b)) ih)
              (λ e.
                if-Below n (c == b'}') _ _ (λ f. omega (arith, short, b))
                  (λ f.
                    if-Below n (c == b'"' && first) _ _
                      (λ g.
                        next_item rounds n (c ∷ t) (omega (arith, h, short, b))
                          (omega (arith, r, short, b)) (omega (arith, short, b)) ih)
                      (λ g. tt))))

    next_element :
        (rounds k : ℕ) (t : Bytes)
        → length t ≤ bound
        → length t ≤ rounds
        → length t < k
        → ((w : Bytes)
            → length w < rounds
            → length w ≤ bound
            → Below (suc (length w)) (elements scan_double scan_int nested rounds false w))
        → Below k (do
          u ← nonempty (drop_while (λ d. not (value_start d)) t)
          (v, w) ← fill_value scan_double scan_int nested u
          (es, rest) ← elements scan_double scan_int nested rounds false w
          ok (entry none v es, rest))
    next_element rounds k t h r b ih =
        let u = drop_while (λ d. not (value_start d)) t in
        let b1 = length-drop_while (λ d. not (value_start d)) t in
        nonempty-bind k u _ (
          Below-bind (length u) k (fill_value scan_double scan_int nested u) _
            (fill_value-Below u (omega (arith, h, b1)))
            (λ v w b2.
              Below-bind (suc (length w)) k (elements scan_double scan_int nested rounds false w) _
                (ih w (omega (arith, r, b1, b2)) (omega (arith, h, b1, b2)))
                (λ es rest b3. omega (arith, b, b1, b2, b3))))

    elements-Below :
        (rounds : ℕ) (first : Bool) (s : Bytes)
        → length s ≤ bound
        → length s < rounds
        → Below (suc (length s)) (elements scan_double scan_int nested rounds first s)
    unfolding elements
    elements-Below zero first s h r = absurd (omega arith)
    elements-Below (suc rounds) first [] h r = omega arith
    elements-Below (suc rounds) first (x ∷ s) h r =
        let n = suc (suc (length s)) in
        let trimmed = drop_while is_space (x ∷ s) in
        let short = length-drop_while is_space (x ∷ s) in
        let ih = λ (w : Bytes) (b : length w < rounds) (b' : length w ≤ bound).
          elements-Below rounds false w b' b in
        Below-bind (length trimmed) n (behind_first trimmed) _ (behind_first-Below trimmed)
          (λ c t b.
            if-Below n (c == b',') _ _
              (λ e.
                next_element rounds n t (omega (arith, h, short, b)) (omega (arith, r, short, b))
                  (omega (arith, short, b)) ih)
              (λ e.
                if-Below n (c == b']') _ _ (λ f. omega (arith, short, b))
                  (λ f.
                    if-Below n (value_start c && first) _ _
                      (λ g.
                        next_element rounds n (c ∷ t) (omega (arith, h, short, b))
                          (omega (arith, r, short, b)) (omega (arith, short, b)) ih)
                      (λ g. tt))))

  parse_string-Below :
      (fuel : ℕ) (s : Bytes)
      → length s < fuel
      → Below (length s) (parse_string scan_double scan_int fuel s)
  unfolding parse_string
  parse_string-Below zero s h = absurd (omega arith)
  parse_string-Below (suc fuel) [] h = tt
  parse_string-Below (suc fuel) (c ∷ s) h =
      let n = suc (length s) in
      let nested = parse_string scan_double scan_int fuel in
      let inner =
        λ (t : Bytes) (b : length t ≤ length s). parse_string-Below fuel t (omega (arith, h, b)) in
      if-Below n (c == b'{') _ _
        (λ e.
          Below-bind n n (items scan_double scan_int nested n true s) _
            (items-Below nested (length s) inner n true s (omega arith) (omega arith))
            (λ es r b. b))
        (λ e.
          if-Below n (c == b'[') _ _
            (λ f.
              Below-bind n n (elements scan_double scan_int nested n true s) _
                (elements-Below nested (length s) inner n true s (omega arith) (omega arith))
                (λ es r b. b))
            (λ f. tt))

  answer-Ends : (n : ℕ) (m : Parse (Json × Bytes)) → Below n m → Ends (m >>= (λ r. ok r.0))
  answer-Ends n (ok (v, s)) h = inr (v, refl)
  answer-Ends n refused h = inl refl
  answer-Ends n out_of_fuel h = absurd (ground (arith, h))

  -- The parser comes back on every text, with a value or with its status 1: the objects inside each
  -- other are never more than the text is long, nor are the rounds of a loop.
  pub json_parse_string-Ends : (s : Option Bytes) → Ends (json_parse_string scan_double scan_int s)
  unfolding json_parse_string
  json_parse_string-Ends none = inl refl
  json_parse_string-Ends (some s) = elim (Bool-cases (ltb (length s) 2)) [
    | inl e ↦ inl (rw e refl)
    | inr e ↦ rw e (
        answer-Ends (length s) (parse_string scan_double scan_int (suc (length s)) s)
          (parse_string-Below (suc (length s)) s (omega arith)))
  ]
