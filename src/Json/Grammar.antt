-- ===== src/Json/Grammar.antt =====
-- A grammar of compact JSON with texts, truth values and null, and how its texts begin and end.
use pgvictoria.Prelude.{
  All, ℕ, suc, ◌<◌, ◌≡◌, refl, ap, Bool, true, false, Option, none, some, [], ◌∷◌, ◌++◌, ◌==◌,
  length, length-append, append_assoc, arith,
}
use pgvictoria.Bytes.{Bytes, text, is_space, is_digit, drop_while}
use pgvictoria.Utils.Text.{escape}
use pgvictoria.Json.{
  Json, Entries, string, bool, object, end, entry, ok, is_small_letter, value_start, take_while,
  read_key,
}
use pgvictoria.Json.Printed.{quoted-escape_rounds, length-le_escape}

abbrev pub quote : Bytes → Bytes
quote s = b'"' ∷ (escape s ++ b'"' ∷ [])

-- What stands for a value; the rest of an object or of an array, the first entry with no comma
-- before it.
mutual
  pub data Shows : Json → Bytes → Type 0 where
    null : Shows (string none) (text "null")
    quotes : (s : Bytes) → Shows (string (some s)) (quote s)
    yes : Shows (bool true) (text "true")
    no : Shows (bool false) (text "false")
    braces : {es : Entries} {t : Bytes} → Members true es t → Shows (object es) (b'{' ∷ t)
    brackets : {es : Entries} {t : Bytes} → Elements true es t → Shows (object es) (b'[' ∷ t)

  pub data Members : Bool → Entries → Bytes → Type 0 where
    close : {first : Bool} → Members first end (b'}' ∷ [])
    member :
        (c : ℕ) (k : Bytes) {v : Json} {es : Entries} {t u : Bytes}
        → Shows v t
        → Members false es u
        → Members true (entry (some (c ∷ k)) v es) (quote (c ∷ k) ++ b':' ∷ (t ++ u))
    more : {es : Entries} {t : Bytes} → Members true es t → Has es → Members false es (b',' ∷ t)

  pub data Elements : Bool → Entries → Bytes → Type 0 where
    stop : {first : Bool} → Elements first end (b']' ∷ [])
    element :
        {v : Json} {es : Entries} {t u : Bytes}
        → Shows v t
        → Elements false es u
        → Elements true (entry none v es) (t ++ u)
    others : {es : Entries} {t : Bytes} → Elements true es t → Has es → Elements false es (b',' ∷ t)

  pub data Has : Entries → Type 0 where
    has_entry : {k : Option Bytes} {v : Json} {es : Entries} → Has (entry k v es)

-- How the text of a value begins.
abbrev pub Begins : Bytes → Type 0
Begins t =
    (c : ℕ) × (r : Bytes) × (t ≡ c ∷ r)
    × (is_space c ≡ false)
    × (value_start c ≡ true)
    × ((c == b',') ≡ false)
    × ((c == b']') ≡ false)
    × ((c == b':') ≡ false)

pub Shows-Begins : {v : Json} {t : Bytes} → Shows v t → Begins t
unfolding is_space value_start is_digit
Shows-Begins null = (_, _, refl, refl, refl, refl, refl, refl)
Shows-Begins (quotes s) = (_, _, refl, refl, refl, refl, refl, refl)
Shows-Begins yes = (_, _, refl, refl, refl, refl, refl, refl)
Shows-Begins no = (_, _, refl, refl, refl, refl, refl, refl)
Shows-Begins (braces m) = (_, _, refl, refl, refl, refl, refl, refl)
Shows-Begins (brackets m) = (_, _, refl, refl, refl, refl, refl, refl)

pub Begins-length : (t : Bytes) → Begins t → 0 < length t
Begins-length t (c, r, e, _, _, _, _, _) = omega (arith, ap (length {A = ℕ}) e)

-- No letter follows.
abbrev pub Stops : Bytes → Type 0
Stops [] = Unit
Stops (c ∷ s) = is_small_letter c ≡ false

pub Members-Stops :
    {es : Entries} {u : Bytes} (rest : Bytes) → Members false es u → Stops (u ++ rest)
unfolding is_small_letter
Members-Stops rest close = refl
Members-Stops rest (more m h) = refl

pub Elements-Stops :
    {es : Entries} {u : Bytes} (rest : Bytes) → Elements false es u → Stops (u ++ rest)
unfolding is_small_letter
Elements-Stops rest stop = refl
Elements-Stops rest (others m h) = refl

-- What follows the colon is the value.
pub read_key_lem :
    (c : ℕ) (k t rest : Bytes)
    → Begins t
    → read_key (quote (c ∷ k) ++ b':' ∷ (t ++ rest)) ≡ ok (c ∷ k, t ++ rest)
unfolding read_key drop_while is_space
read_key_lem c k t rest (d, r, e, sp, vs, co, br, cl) =
    let same : (escape (c ∷ k) ++ b'"' ∷ []) ++ b':' ∷ (t ++ rest)
        ≡ escape (c ∷ k) ++ b'"' ∷ b':' ∷ (t ++ rest) =
      append_assoc (escape (c ∷ k)) (b'"' ∷ []) (b':' ∷ (t ++ rest)) in
    let enough : length (c ∷ k) < suc (length (escape (c ∷ k) ++ b'"' ∷ b':' ∷ (t ++ rest))) =
      omega (
        arith,
        length-append (escape (c ∷ k)) (b'"' ∷ b':' ∷ (t ++ rest)),
        length-le_escape (c ∷ k),
      ) in
    rw (same, quoted-escape_rounds (c ∷ k) (b':' ∷ (t ++ rest)) _ enough, e, cl, sp) refl

pub word_read :
    (w rest : Bytes)
    → All (λ c. is_small_letter c ≡ true) w
    → Stops rest
    → (take_while is_small_letter (w ++ rest) ≡ w) × (drop_while is_small_letter (w ++ rest) ≡ rest)
unfolding take_while drop_while
word_read [] [] h k = (refl, refl)
word_read [] (c ∷ rest) h k = (rw k refl, rw k refl)
word_read (c ∷ w) rest (h, hs) k =
    let (u, v) = word_read w rest hs k in (rw (h, u) refl, rw (h, v) refl)
