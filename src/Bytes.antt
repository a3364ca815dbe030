-- ===== src/Bytes.antt =====
-- C strings and byte buffers. A `char*` that is not NULL is the list of its bytes before the
-- terminating 0, so `strlen` is `length`; a pointer that may be NULL is an `Option` of it. The
-- character classes are those of the C locale, in which no byte above 127 is a letter or a space.
pub mod Laws
pub mod Trim
use Prim.Native.Char.{code}
use Prim.Native.String
use Prim.Native.String.{String}
use pgvictoria.Prelude.{
  ℕ, zero, suc, ◌+◌, Bool, true, false, ◌&&◌, ◌||◌, List, [], ◌∷◌, map, reverse, Option, none, some,
  leb, ltb, ◌==◌, if◌then◌else◌,
}

abbrev pub Bytes : Type 0
Bytes = List ℕ

-- The bytes of an ASCII literal.
abbrev pub text : String → Bytes
text String.[] = []
text (String.◌∷◌ c s) = code c ∷ text s

-- strcmp(a, b) == 0
unfoldable pub str_eq : Bytes → Bytes → Bool
str_eq [] [] = true
str_eq [] (y ∷ ys) = false
str_eq (x ∷ xs) [] = false
str_eq (x ∷ xs) (y ∷ ys) = (x == y) && str_eq xs ys

-- strcmp(a, b) <= 0, with the bytes compared as unsigned
unfoldable pub str_le : Bytes → Bytes → Bool
str_le [] ys = true
str_le (x ∷ xs) [] = false
str_le (x ∷ xs) (y ∷ ys) = if ltb x y then true else if x == y then str_le xs ys else false

-- isspace
unfoldable pub is_space : ℕ → Bool
is_space c = c == 32 || (leb 9 c && leb c 13)

-- isdigit
unfoldable pub is_digit : ℕ → Bool
is_digit c = leb b'0' c && leb c b'9'

abbrev is_upper : ℕ → Bool
is_upper c = leb b'A' c && leb c b'Z'

-- isalpha
unfoldable pub is_alpha : ℕ → Bool
is_alpha c = is_upper c || (leb b'a' c && leb c b'z')

-- tolower
unfoldable pub to_lower : ℕ → ℕ
to_lower c = if is_upper c then c + 32 else c

-- strcasecmp(a, b) == 0
unfoldable pub case_eq : Bytes → Bytes → Bool
unfolding to_lower str_eq
case_eq a b = str_eq (map to_lower a) (map to_lower b)

-- strchr(s, c) != NULL, for a `c` that is not 0
unfoldable pub has : ℕ → Bytes → Bool
has c [] = false
has c (x ∷ xs) = (x == c) || has c xs

-- The loops that pass over a run of bytes at the start of a text, or at its end.
unfoldable pub drop_while : (ℕ → Bool) → Bytes → Bytes
drop_while p [] = []
drop_while p (c ∷ s) = if p c then drop_while p s else c ∷ s

unfoldable pub drop_end : (ℕ → Bool) → Bytes → Bytes
unfolding drop_while
drop_end p s = reverse (drop_while p (reverse s))
