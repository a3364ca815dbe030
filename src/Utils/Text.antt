-- ===== src/Utils/Text.antt =====
-- The text functions of utils.c, and `handle_escape_char` of json.c, which undoes one of them.
-- `none` is a NULL result, or, where the comment says so, a run that does not come back.
pub mod Ends
pub mod Escape
pub mod Split
use pgvictoria.Prelude.{
  ℕ, zero, suc, ◌+◌, ◌-◌, ◌^◌, Bool, true, false, not, ◌&&◌, ◌||◌, Option, none, some, List, [],
  ◌∷◌, ◌++◌, ltb, leb, ◌==◌, if◌then◌else◌, length, take, drop,
}
use pgvictoria.Bytes.{Bytes, text, str_eq, has}
use pgvictoria.Utils.Append.{or_empty, append, append_char}

unfoldable pub compare_string : Option Bytes → Option Bytes → Bool
compare_string none none = true
compare_string none (some t) = false
compare_string (some s) none = false
compare_string (some s) (some t) = str_eq s t

-- strncmp(prefix, str, strlen(prefix)) == 0
unfoldable pub starts : Bytes → Bytes → Bool
starts str prefix = str_eq prefix (take (length prefix) str)

unfoldable pub starts_with : Option Bytes → Bytes → Bool
unfolding starts
starts_with none prefix = false
starts_with (some str) prefix = starts str prefix

unfoldable pub ends : Bytes → Bytes → Bool
ends str suffix =
    leb (length suffix) (length str) && str_eq (drop (length str - length suffix) str) suffix

unfoldable pub ends_with : Option Bytes → Option Bytes → Bool
unfolding ends
ends_with none suffix = false
ends_with (some str) none = false
ends_with (some str) (some suffix) = ends str suffix

-- strstr(str, s) != NULL
unfoldable pub contains : Bytes → Bytes → Bool
unfolding starts
contains [] s = starts [] s
contains (c ∷ str) s = starts (c ∷ str) s || contains str s

unfoldable pub is_substring : Option Bytes → Option Bytes → Bool
unfolding contains
is_substring none b = false
is_substring (some a) none = false
is_substring (some []) (some b) = false
is_substring (some (c ∷ a)) (some b) = contains b (c ∷ a)

-- The `while` loop of `pgvictoria_remove_prefix`, over what `idx` has not passed: a round at two
-- different characters changes nothing. `none` is a loop that did not end within the fuel.
unfoldable pub remove_prefix_loop : ℕ → Bytes → Bytes → Option Bytes
remove_prefix_loop fuel [] prefix = some []
remove_prefix_loop fuel (x ∷ s) [] = some (x ∷ s)
remove_prefix_loop zero (x ∷ s) (y ∷ prefix) = none
remove_prefix_loop (suc fuel) (x ∷ s) (y ∷ prefix) = elim (x == y) [
  | true ↦ remove_prefix_loop fuel s prefix
  | false ↦ remove_prefix_loop fuel (x ∷ s) (y ∷ prefix)
]

-- A loop that did not end within the fuel; a `strlen`, or the `len` of the result with its 0, that
-- an `int` does not hold; or the result.
pub data Removal : Type 0 where
  no_end : Removal
  too_long : Removal
  removed : Bytes → Removal

unfoldable pub removal : Option Bytes → Removal
removal none = no_end
removal (some res) = removed res

-- For texts that are not NULL: `strlen` has read both before the code asks.
unfoldable pub remove_prefix : ℕ → Bytes → Bytes → Removal
unfolding remove_prefix_loop removal
remove_prefix fuel orig prefix =
    if leb (2 ^ 31 - 1) (length orig) || leb (2 ^ 31) (length prefix)
    then too_long
    else removal (remove_prefix_loop fuel orig prefix)

unfoldable pub remove_suffix : Option Bytes → Option Bytes → Option Bytes
unfolding ends append
remove_suffix none suffix = none
remove_suffix (some orig) none = append none (some orig)
remove_suffix (some orig) (some suffix) =
    if ends orig suffix
    then some (take (length orig - length suffix) orig)
    else append none (some orig)

-- The text before the last `c`, if there is one: strrchr(s, c).
unfoldable pub before_last : ℕ → Bytes → Option Bytes
unfolding has
before_last c [] = none
before_last c (x ∷ s) = elim (before_last c s) [
  | some t ↦ some (x ∷ t)
  | none ↦ if x == c then some [] else none
]

-- `none` is the status 1.
unfoldable pub strip_extension : Bytes → Option Bytes
unfolding before_last append
strip_extension s = elim (before_last b'.' s) [ some r ↦ some r | none ↦ append none (some s) ]

unfoldable pub get_parent_dir : Option Bytes → Option Bytes
unfolding before_last
get_parent_dir none = none
get_parent_dir (some path) = elim (before_last b'/' path) [
  | none ↦ some (text ".")
  | some [] ↦ some (text "/")
  | some (c ∷ d) ↦ some (c ∷ d)
]

unfoldable pub remove_whitespace_loop : Bytes → Option Bytes → Option Bytes
unfolding append_char
remove_whitespace_loop [] result = result
remove_whitespace_loop (c ∷ s) result =
    remove_whitespace_loop s
      (if c == b' ' || c == b'\t' || c == b'\r' || c == b'\n' then result else append_char result c)

unfoldable pub remove_whitespace : Option Bytes → Option Bytes
unfolding remove_whitespace_loop
remove_whitespace none = none
remove_whitespace (some []) = some []
remove_whitespace (some (c ∷ s)) = remove_whitespace_loop (c ∷ s) none

-- The first loop of `pgvictoria_escape_string`, which measures the buffer. Its `len` and `idx` are
-- `int`s, into which the length that it measures has to fit.
unfoldable pub escaped_length : Bytes → ℕ
escaped_length [] = 0
escaped_length (c ∷ s) =
    (if c == b'"' || c == b'\\' || c == b'\n' || c == b'\t' || c == b'\r' then 2 else 1)
    + escaped_length s

-- The second loop, which fills it.
unfoldable pub escape : Bytes → Bytes
escape [] = []
escape (c ∷ s) =
    (if c == b'\\' || c == b'"'
      then b'\\' ∷ c ∷ []
      else if c == b'\n'
      then b'\\' ∷ b'n' ∷ []
      else if c == b'\t'
      then b'\\' ∷ b't' ∷ []
      else if c == b'\r'
      then b'\\' ∷ b'r' ∷ []
      else c ∷ [])
    ++ escape s

unfoldable pub escape_string : Option Bytes → Option Bytes
unfolding escape
escape_string none = none
escape_string (some s) = some (escape s)

-- `handle_escape_char`, on the text behind the backslash: the character and what follows; `none` is
-- its status 1.
unfoldable pub handle_escape_char : Bytes → Option (ℕ × Bytes)
handle_escape_char [] = none
handle_escape_char (c ∷ s) =
    if c == b'"' || c == b'\\'
    then some (c, s)
    else if c == b'n'
    then some (b'\n', s)
    else if c == b't'
    then some (b'\t', s)
    else if c == b'r'
    then some (b'\r', s)
    else none

unfoldable pub is_number_loop : ℕ → Bytes → Bool
is_number_loop base [] = true
is_number_loop base (c ∷ s) =
    let rest = is_number_loop base s in
    if leb 48 c && leb c 57
    then rest
    else if c == b'\r' || c == b'\n'
    then rest
    else if base == 16
    then (if (leb 65 c && leb c 70) || (leb 97 c && leb c 102) then rest else false)
    else false

unfoldable pub is_number : Option Bytes → ℕ → Bool
unfolding is_number_loop
is_number none base = false
is_number (some []) base = false
is_number (some (c ∷ s)) base =
    if not (base == 10) && not (base == 16) then false else is_number_loop base (c ∷ s)

-- A token of `strtok` up to its delimiter, which is stepped over, and what is left of the text.
unfoldable pub read_token : ℕ → Bytes → Bytes × Bytes
read_token delimiter [] = ([], [])
read_token delimiter (c ∷ s) =
    let (token, rest) = read_token delimiter s in
    if c == delimiter then ([], s) else (c ∷ token, rest)

-- `strtok` with one delimiter on what is left of its text; `none` is NULL.
unfoldable pub strtok : ℕ → Bytes → Option (Bytes × Bytes)
unfolding read_token
strtok delimiter [] = none
strtok delimiter (c ∷ s) =
    let next = strtok delimiter s in
    let (token, rest) = read_token delimiter s in
    if c == delimiter then next else some (c ∷ token, rest)

-- `num_objects` behind the first loop, or that it leaves `int`.
pub data Count : Type 0 where
  out_of_fuel : Count
  overflow : Count
  counted : ℕ → Count

unfoldable pub count_objects : ℕ → ℕ → Option (Bytes × Bytes) → ℕ → Count
unfolding strtok
count_objects zero delimiter token num_objects = out_of_fuel
count_objects (suc fuel) delimiter none num_objects = counted num_objects
count_objects (suc fuel) delimiter (some (token, rest)) num_objects =
    let more = count_objects fuel delimiter (strtok delimiter rest) (num_objects + 1) in
    if leb (2 ^ 31 - 1) num_objects then overflow else more

-- The second loop, over `num_objects` places; `none` where a token is NULL.
unfoldable pub fill_results : ℕ → ℕ → Option (Bytes × Bytes) → Option (List Bytes)
unfolding strtok
fill_results zero delimiter token = some []
fill_results (suc i) delimiter none = none
fill_results (suc i) delimiter (some (token, rest)) =
    elim (fill_results i delimiter (strtok delimiter rest)) [
      | none ↦ none
      | some results ↦ some (token ∷ results)
    ]

-- The entries of `results` before its NULL, and `count`; or no result.
pub data Division : Type 0 where
  no_end : Division
  too_many : Division
  null_token : Division
  divided : List Bytes → ℕ → Division

-- What is done with `num_objects`, of which one more is the size of `results`.
unfoldable pub divide : Bytes → ℕ → Count → Division
unfolding fill_results strtok
divide string delimiter out_of_fuel = no_end
divide string delimiter overflow = too_many
divide string delimiter (counted num_objects) =
    if leb (2 ^ 31 - 1) num_objects
    then too_many
    else elim (fill_results num_objects delimiter (strtok delimiter string)) [
      | none ↦ null_token
      | some results ↦ divided results num_objects
    ]

-- `pgvictoria_split`, for pointers that are not NULL and where every allocation succeeds.
unfoldable pub split : Bytes → ℕ → Division
unfolding count_objects divide strtok
split [] delimiter = divided [] 0
split (c ∷ s) delimiter =
    divide (c ∷ s) delimiter
      (count_objects (suc (length (c ∷ s))) delimiter (strtok delimiter (c ∷ s)) 0)

-- `pgvictoria_merge_string_arrays`: the lists less their NULL entries, one behind the other.
unfoldable pub merge_string_arrays : List (List Bytes) → List Bytes
merge_string_arrays [] = []
merge_string_arrays (l ∷ ls) = l ++ merge_string_arrays ls
