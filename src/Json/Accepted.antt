-- ===== src/Json/Accepted.antt =====
-- The parser of json.c on the texts of the grammar.
use pgvictoria.Prelude.{
  ℕ, zero, suc, ◌≤◌, ◌<◌, ◌≡◌, ◌∙◌, refl, sym, ap, subst, Bool, true, false, Option, none, some, [],
  ◌∷◌, ◌++◌, ℤ, length, length-append, append_assoc, append-nil, ltb, arith,
}
use pgvictoria.Bytes.{Bytes, str_eq, is_space, is_digit, drop_while}
use pgvictoria.Utils.Text.{escape}
use pgvictoria.Json.{
  Json, Entries, object, entry, Parse, ok, is_small_letter, word_value, fill_value, items, elements,
  parse_string, json_parse_string,
}
use pgvictoria.Json.Printed.{quoted-escape_rounds, length-le_escape}
use pgvictoria.Json.Grammar.{
  quote, Shows, null, quotes, yes, no, braces, brackets, Members, close, member, more, Elements,
  stop, element, others, Begins, Begins-length, Shows-Begins, Stops, Members-Stops, Elements-Stops,
  read_key_lem, word_read,
}

module _ (scan_double : Bytes → Bool) (scan_int : Bytes → Option ℤ) where
  module _ (nested : Bytes → Parse (Json × Bytes)) (rounds : ℕ) where
    fill : Bytes → Parse (Json × Bytes)
    fill = fill_value scan_double scan_int nested

    next_items : ℕ → Bool → Bytes → Parse (Entries × Bytes)
    next_items = items scan_double scan_int nested

    next_elements : ℕ → Bool → Bytes → Parse (Entries × Bytes)
    next_elements = elements scan_double scan_int nested

    -- A member, with no comma before it and with one.
    member_step :
        (c : ℕ) (k t u rest : Bytes) (v : Json) (es : Entries)
        → Begins t
        → fill (t ++ (u ++ rest)) ≡ ok (v, u ++ rest)
        → next_items rounds false (u ++ rest) ≡ ok (es, rest)
        → (next_items (suc rounds) true ((quote (c ∷ k) ++ b':' ∷ (t ++ u)) ++ rest)
            ≡ ok (entry (some (c ∷ k)) v es, rest))
          × (next_items (suc rounds) false (b',' ∷ ((quote (c ∷ k) ++ b':' ∷ (t ++ u)) ++ rest))
              ≡ ok (entry (some (c ∷ k)) v es, rest))
    unfolding fill next_items items drop_while is_space
    member_step c k t u rest v es b f i =
        let whole : (quote (c ∷ k) ++ b':' ∷ (t ++ u)) ++ rest
            ≡ quote (c ∷ k) ++ b':' ∷ (t ++ (u ++ rest)) =
          append_assoc (quote (c ∷ k)) (b':' ∷ (t ++ u)) rest
          ∙ ap (λ (l : Bytes). quote (c ∷ k) ++ b':' ∷ l) (append_assoc t u rest) in
        let key = read_key_lem c k t (u ++ rest) b in
        (
          subst
              (λ (x : Bytes).
                items scan_double scan_int nested (suc rounds) true x
                ≡ ok (entry (some (c ∷ k)) v es, rest))
              (sym whole) (rw (key, f, i) refl),
          subst
              (λ (x : Bytes).
                items scan_double scan_int nested (suc rounds) false (b',' ∷ x)
                ≡ ok (entry (some (c ∷ k)) v es, rest))
              (sym whole) (rw (key, f, i) refl),
        )

    element_step :
        (t u rest : Bytes) (v : Json) (es : Entries)
        → Begins t
        → fill (t ++ (u ++ rest)) ≡ ok (v, u ++ rest)
        → next_elements rounds false (u ++ rest) ≡ ok (es, rest)
        → (next_elements (suc rounds) true ((t ++ u) ++ rest) ≡ ok (entry none v es, rest))
          × (next_elements (suc rounds) false (b',' ∷ ((t ++ u) ++ rest))
              ≡ ok (entry none v es, rest))
    unfolding fill next_elements elements drop_while
    element_step t u rest v es (d, r, e, sp, vs, co, br, cl) f i =
        let whole : (t ++ u) ++ rest ≡ d ∷ (r ++ (u ++ rest)) =
          append_assoc t u rest ∙ ap (λ (l : Bytes). l ++ (u ++ rest)) e in
        let g : fill_value scan_double scan_int nested (d ∷ (r ++ (u ++ rest)))
            ≡ ok (v, u ++ rest) =
          subst
            (λ (l : Bytes).
              fill_value scan_double scan_int nested (l ++ (u ++ rest)) ≡ ok (v, u ++ rest))
            e f in
        (
          subst
              (λ (x : Bytes).
                elements scan_double scan_int nested (suc rounds) true x
                ≡ ok (entry none v es, rest))
              (sym whole) (rw (sp, co, br, vs, g, i) refl),
          subst
              (λ (x : Bytes).
                elements scan_double scan_int nested (suc rounds) false (b',' ∷ x)
                ≡ ok (entry none v es, rest))
              (sym whole) (rw (vs, g, i) refl),
        )

  mutual
    unfolding fill next_items next_elements fill_value items elements parse_string word_value str_eq
        is_small_letter is_digit drop_while is_space

    fill_value_lem :
        (fuel : ℕ) {v : Json} {t : Bytes} (rest : Bytes)
        → Shows v t
        → Stops rest
        → length t ≤ fuel
        → fill_value scan_double scan_int (parse_string scan_double scan_int fuel) (t ++ rest)
          ≡ ok (v, rest)
    fill_value_lem fuel rest null k h =
        rw ((word_read [] rest tt k).0, (word_read [] rest tt k).1) refl
    fill_value_lem fuel rest yes k h =
        rw ((word_read [] rest tt k).0, (word_read [] rest tt k).1) refl
    fill_value_lem fuel rest no k h =
        rw ((word_read [] rest tt k).0, (word_read [] rest tt k).1) refl
    fill_value_lem fuel rest (quotes s) k h =
        let same : (escape s ++ b'"' ∷ []) ++ rest ≡ escape s ++ b'"' ∷ rest =
          append_assoc (escape s) (b'"' ∷ []) rest in
        let enough : length s < suc (length (escape s ++ b'"' ∷ rest)) =
          omega (arith, length-append (escape s) (b'"' ∷ rest), length-le_escape s) in
        rw (same, quoted-escape_rounds s rest _ enough) refl
    fill_value_lem zero rest (braces m) k h = absurd (omega arith)
    fill_value_lem (suc fuel) {t = c ∷ t} rest (braces m) k h =
        rw
          (items_lem fuel (suc (length (t ++ rest))) true rest m (omega arith)
            (omega (arith, length-append t rest)))
          refl
    fill_value_lem zero rest (brackets m) k h = absurd (omega arith)
    fill_value_lem (suc fuel) {t = c ∷ t} rest (brackets m) k h =
        rw
          (elements_lem fuel (suc (length (t ++ rest))) true rest m (omega arith)
            (omega (arith, length-append t rest)))
          refl

    items_lem :
        (fuel rounds : ℕ) (first : Bool) {es : Entries} {t : Bytes} (rest : Bytes)
        → Members first es t
        → length t ≤ fuel
        → length t < rounds
        → items scan_double scan_int
            (parse_string scan_double scan_int fuel)
            rounds
            first
            (t ++ rest)
          ≡ ok (es, rest)
    items_lem fuel zero first rest m h k = absurd (omega arith)
    items_lem fuel (suc rounds) first rest close h k = refl
    items_lem fuel (suc rounds) _ rest (member c k {v = v} {es = es} {t = t} {u = u} sv mu) h b =
        let l1 = length-append (quote (c ∷ k)) (b':' ∷ (t ++ u)) in
        let l2 = length-append t u in
        (member_step (parse_string scan_double scan_int fuel) rounds c k t u rest v es
          (Shows-Begins sv)
          (fill_value_lem fuel (u ++ rest) sv (Members-Stops rest mu) (omega (arith, h, l1, l2)))
          (items_lem fuel rounds false rest mu (omega (arith, h, l1, l2))
            (omega (arith, b, l1, l2)))).0
    items_lem fuel (suc rounds) _ rest (more close w) h b = elim w [ ]
    items_lem fuel (suc rounds) _ rest (more (member c k {v = v} {es = es} {t = t} {u = u} sv mu) w)
          h b =
        let l1 = length-append (quote (c ∷ k)) (b':' ∷ (t ++ u)) in
        let l2 = length-append t u in
        (member_step (parse_string scan_double scan_int fuel) rounds c k t u rest v es
          (Shows-Begins sv)
          (fill_value_lem fuel (u ++ rest) sv (Members-Stops rest mu) (omega (arith, h, l1, l2)))
          (items_lem fuel rounds false rest mu (omega (arith, h, l1, l2))
            (omega (arith, b, l1, l2)))).1

    elements_lem :
        (fuel rounds : ℕ) (first : Bool) {es : Entries} {t : Bytes} (rest : Bytes)
        → Elements first es t
        → length t ≤ fuel
        → length t < rounds
        → elements scan_double scan_int
            (parse_string scan_double scan_int fuel)
            rounds
            first
            (t ++ rest)
          ≡ ok (es, rest)
    elements_lem fuel zero first rest m h k = absurd (omega arith)
    elements_lem fuel (suc rounds) first rest stop h k = refl
    elements_lem fuel (suc rounds) _ rest (element {v = v} {es = es} {t = t} {u = u} sv mu) h b =
        let l = length-append t u in
        let some_t = Begins-length t (Shows-Begins sv) in
        (element_step (parse_string scan_double scan_int fuel) rounds t u rest v es
          (Shows-Begins sv)
          (fill_value_lem fuel (u ++ rest) sv (Elements-Stops rest mu) (omega (arith, h, l)))
          (elements_lem fuel rounds false rest mu (omega (arith, h, l))
            (omega (arith, b, l, some_t)))).0
    elements_lem fuel (suc rounds) _ rest (others stop w) h b = elim w [ ]
    elements_lem fuel (suc rounds) _ rest
          (others (element {v = v} {es = es} {t = t} {u = u} sv mu) w) h b =
        let l = length-append t u in
        (element_step (parse_string scan_double scan_int fuel) rounds t u rest v es
          (Shows-Begins sv)
          (fill_value_lem fuel (u ++ rest) sv (Elements-Stops rest mu) (omega (arith, h, l)))
          (elements_lem fuel rounds false rest mu (omega (arith, h, l)) (omega (arith, b, l)))).1

  Members-length : {first : Bool} {es : Entries} {t : Bytes} → Members first es t → 0 < length t
  Members-length close = omega arith
  Members-length (member c k {t = t} {u = u} sv mu) =
      omega (arith, length-append (quote (c ∷ k)) (b':' ∷ (t ++ u)))
  Members-length (more m h) = omega arith

  Elements-length : {first : Bool} {es : Entries} {t : Bytes} → Elements first es t → 0 < length t
  Elements-length stop = omega arith
  Elements-length (element {t = t} {u = u} sv mu) =
      omega (arith, Begins-length t (Shows-Begins sv), length-append t u)
  Elements-length (others m h) = omega arith

  -- The parser accepts each text of the grammar of compact JSON, whose values are texts, truth values,
  -- null, and objects and arrays of them, and gives the object that it stands for.
  pub json_parse_string_lem :
      {es : Entries} {t : Bytes}
      → Shows (object es) t
      → json_parse_string scan_double scan_int (some t) ≡ ok (object es)
  unfolding json_parse_string fill_value is_digit
  json_parse_string_lem {es} (braces {t = u} m) =
      let long : ltb (length (b'{' ∷ u)) 2 ≡ false = ground (arith, Members-length m) in
      let parsed : parse_string scan_double scan_int (suc (length (b'{' ∷ u))) (b'{' ∷ u)
          ≡ ok (object es, []) =
        subst
          (λ (x : Bytes).
            parse_string scan_double scan_int (suc (length (b'{' ∷ u))) (b'{' ∷ x)
            ≡ ok (object es, []))
          (append-nil u)
          (fill_value_lem (suc (length (b'{' ∷ u))) [] (braces m) tt (omega arith)) in
      rw (long, parsed) refl
  json_parse_string_lem {es} (brackets {t = u} m) =
      let long : ltb (length (b'[' ∷ u)) 2 ≡ false = ground (arith, Elements-length m) in
      let parsed : parse_string scan_double scan_int (suc (length (b'[' ∷ u))) (b'[' ∷ u)
          ≡ ok (object es, []) =
        subst
          (λ (x : Bytes).
            parse_string scan_double scan_int (suc (length (b'[' ∷ u))) (b'[' ∷ x)
            ≡ ok (object es, []))
          (append-nil u)
          (fill_value_lem (suc (length (b'[' ∷ u))) [] (brackets m) tt (omega arith)) in
      rw (long, parsed) refl
