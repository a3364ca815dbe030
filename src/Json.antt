-- ===== src/Json.antt =====
-- The parser of json.c. What is left of the text stands for the text and the index; `sscanf` of the
-- C library is a parameter. An object is the list of the calls of `json_add`, in their order: a key
-- and a value each, and no key in an array.
mod Printed
mod Grammar
mod Accepted
mod Shorter
mod Total
mod Tests
use pgvictoria.Prelude.{
  ℕ, zero, suc, Bool, true, false, not, ◌&&◌, ◌||◌, Option, none, some, List, [], ◌∷◌, ◌++◌, ◌==◌,
  leb, ltb, if◌then◌else◌, ℤ, length,
}
use pgvictoria.Bytes.{Bytes, text, str_eq, is_space, is_digit, drop_while, has}
use pgvictoria.Utils.Text.{handle_escape_char}

mutual
  pub data Json : Type 0 where
    string : Option Bytes → Json
    int64 : ℤ → Json
    double : Bytes → Json
    bool : Bool → Json
    object : Entries → Json

  pub data Entries : Type 0 where
    end : Entries
    entry : Option Bytes → Json → Entries → Entries

-- The status 1 is `refused`.
pub data Parse (A : Type 0) : Type 0 where
  ok : A → Parse A
  refused : Parse A
  out_of_fuel : Parse A

module _ {A B : Type 0} where
  infixl 5 ◌>>=◌
  abbrev pub ◌>>=◌ : Parse A → (A → Parse B) → Parse B
  ok a >>= k = k a
  refused >>= k = refused
  out_of_fuel >>= k = out_of_fuel

abbrev pub given : {A : Type 0} → Option A → Parse A
given none = refused
given (some a) = ok a

-- The characters up to the next quote, and the text from the quote on.
unfoldable pub quoted : ℕ → Bytes → Parse (Bytes × Bytes)
unfolding handle_escape_char
quoted zero s = out_of_fuel
quoted (suc fuel) [] = refused
quoted (suc fuel) (c ∷ s) =
    let escaped = (do
      (d, r) ← given (handle_escape_char s)
      (v, t) ← quoted fuel r
      ok (d ∷ v, t)) in
    let plain = (do (v, t) ← quoted fuel s; ok (c ∷ v, t)) in
    if c == b'"' then ok ([], c ∷ s) else if c == b'\\' then escaped else plain

unfoldable pub is_number_char : ℕ → Bool
is_number_char c = is_digit c || c == b'.' || c == b'-' || c == b'+'

unfoldable pub is_small_letter : ℕ → Bool
is_small_letter c = leb b'a' c && leb c b'z'

unfoldable pub value_start : ℕ → Bool
value_start c =
    is_digit c
    || c == b'-'
    || c == b'+'
    || c == b'['
    || c == b'{'
    || c == b'"'
    || c == b'n'
    || c == b't'
    || c == b'f'

unfoldable pub take_while : (ℕ → Bool) → Bytes → Bytes
take_while p [] = []
take_while p (c ∷ s) = let more = c ∷ take_while p s in if p c then more else []

unfoldable pub word_value : Bytes → Parse Json
unfolding str_eq
word_value w =
    if str_eq w (text "null")
    then ok (string none)
    else if str_eq w (text "true")
    then ok (bool true)
    else if str_eq w (text "false")
    then ok (bool false)
    else refused

abbrev pub nonempty : Bytes → Parse Bytes
nonempty [] = refused
nonempty (c ∷ s) = ok (c ∷ s)

abbrev pub behind_first : Bytes → Parse (ℕ × Bytes)
behind_first [] = refused
behind_first (c ∷ s) = ok (c, s)

-- The key behind the next quote, and what follows the colon.
unfoldable pub read_key : Bytes → Parse (Bytes × Bytes)
unfolding quoted drop_while is_space
read_key s = do
  (q, r) ← behind_first (drop_while (λ c. not (c == b'"')) s)
  (k, t) ← quoted (suc (length r)) r
  u ← nonempty t
  key ← nonempty k
  (colon, v) ← behind_first (drop_while (λ c. c == b'"' || is_space c) u)
  w ← nonempty (drop_while (λ c. c == b':' || is_space c) (colon ∷ v))
  if colon == b':' then ok (key, w) else refused

-- `sscanf` with %lf, of which only the success is seen, and with PRId64
module _ (scan_double : Bytes → Bool) (scan_int : Bytes → Option ℤ) where
  unfoldable pub number_value : Bytes → Parse Json
  unfolding has
  number_value w =
      if has b'.' w
      then (if scan_double w then ok (double w) else refused)
      else do n ← given (scan_int w); ok (int64 n)

  -- `nested` is `parse_string` on the objects and arrays inside.
  module _ (nested : Bytes → Parse (Json × Bytes)) where
    unfoldable pub fill_value : Bytes → Parse (Json × Bytes)
    unfolding quoted is_digit is_number_char is_small_letter take_while drop_while word_value
        number_value
    fill_value [] = refused
    fill_value (c ∷ s) =
        let quote = (do
          (v, r) ← quoted (suc (length s)) s
          (q, t) ← behind_first r
          ok (string (some v), t)) in
        let number = (do
          v ← number_value (take_while is_number_char (c ∷ s))
          ok (v, drop_while is_number_char (c ∷ s))) in
        let word = (do
          v ← word_value (take_while is_small_letter (c ∷ s))
          ok (v, drop_while is_small_letter (c ∷ s))) in
        let inside = nested (c ∷ s) in
        if c == b'"'
        then quote
        else if c == b'-' || c == b'+' || is_digit c
        then number
        else if c == b'{' || c == b'['
        then inside
        else if c == b'n' || c == b't' || c == b'f'
        then word
        else refused

    -- The loop over an object; `first` while no entry is added.
    unfoldable pub items : ℕ → Bool → Bytes → Parse (Entries × Bytes)
    unfolding drop_while is_space
    items zero first s = out_of_fuel
    items (suc fuel) first [] = ok (end, [])
    items (suc fuel) first (x ∷ s) = do
      (c, r) ← behind_first (drop_while is_space (x ∷ s))
      let next : Bytes → Parse (Entries × Bytes) = λ t. (do
        (k, u) ← read_key t
        (v, w) ← fill_value u
        (es, rest) ← items fuel false w
        ok (entry (some k) v es, rest))
      let here = next (c ∷ r)
      let behind = next r
      if c == b','
          then behind
          else if c == b'}'
          then ok (end, r)
          else if c == b'"' && first
          then here
          else refused

    -- The loop over an array.
    unfoldable pub elements : ℕ → Bool → Bytes → Parse (Entries × Bytes)
    unfolding drop_while is_space
    elements zero first s = out_of_fuel
    elements (suc fuel) first [] = ok (end, [])
    elements (suc fuel) first (x ∷ s) = do
      (c, r) ← behind_first (drop_while is_space (x ∷ s))
      let next : Bytes → Parse (Entries × Bytes) = λ t. (do
        u ← nonempty (drop_while (λ d. not (value_start d)) t)
        (v, w) ← fill_value u
        (es, rest) ← elements fuel false w
        ok (entry none v es, rest))
      let here = next (c ∷ r)
      let behind = next r
      if c == b','
          then behind
          else if c == b']'
          then ok (end, r)
          else if value_start c && first
          then here
          else refused

  -- So many objects inside each other at most.
  unfoldable pub parse_string : ℕ → Bytes → Parse (Json × Bytes)
  unfolding items elements
  parse_string zero s = out_of_fuel
  parse_string (suc fuel) [] = refused
  parse_string (suc fuel) (c ∷ s) =
      let item = (do
        (es, r) ← items (parse_string fuel) (suc (length s)) true s
        ok (object es, r)) in
      let array = (do
        (es, r) ← elements (parse_string fuel) (suc (length s)) true s
        ok (object es, r)) in
      if c == b'{' then item else if c == b'[' then array else refused

  unfoldable pub json_parse_string : Option Bytes → Parse Json
  unfolding parse_string
  json_parse_string none = refused
  json_parse_string (some s) =
      let parsed = (do (v, rest) ← parse_string (suc (length s)) s; ok v) in
      if ltb (length s) 2 then refused else parsed
