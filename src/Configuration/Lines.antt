-- ===== src/Configuration/Lines.antt =====
-- Cutting a line of a configuration file up: `remove_leading_whitespace_and_comments` and
-- `extract_key_value` of configuration.c.
pub mod Trimmed
pub mod Pairs
use pgvictoria.Prelude.{
  ℕ, zero, suc, ◌+◌, ◌-◌, Bool, true, false, not, ◌&&◌, ◌||◌, Option, none, some, List, [], ◌∷◌,
  ◌++◌, ltb, leb, ◌==◌, if◌then◌else◌, length, take,
}
use pgvictoria.Bytes.{Bytes, is_space, has, drop_while, drop_end}
use pgvictoria.Utils.Append.{append_char}
use pgvictoria.Configuration.Units.{misc_length}

-- The variables of the second loop of `remove_leading_whitespace_and_comments`: the index into `s`,
-- the last index of a character that is no space, and the buffer `result`, NULL before its first
-- character.
pub record Copy : Type 0 where
  pub index : ℕ
  pub last : Option ℕ
  pub result : Option Bytes

unfoldable pub copy_round : Copy → ℕ → Copy
unfolding append_char
copy_round st c = record {
  index = st.index + 1;
  last = if is_space c then st.last else some st.index;
  result = append_char st.result c;
}

unfoldable pub copy_loop : Copy → Bytes → Copy
unfolding copy_round
copy_loop st [] = st
copy_loop st (c ∷ s) =
    let rest = copy_loop (copy_round st c) s in if c == b';' || c == b'#' then st else rest

-- `trimmed_line`, or a store behind the end of `result`.
pub data Trimming : Type 0 where
  trimmed : Option Bytes → Trimming
  overrun : Trimming

-- result[last + 1] = 0: the buffer holds its text and the 0 behind it.
unfoldable pub terminate : Option ℕ → Option Bytes → Trimming
terminate none result = trimmed result
terminate (some last) none = overrun
terminate (some last) (some r) =
    if ltb (length r) (last + 1) then overrun else trimmed (some (take (last + 1) r))

unfoldable pub remove_leading_whitespace_and_comments : Bytes → Trimming
unfolding copy_loop terminate drop_while
remove_leading_whitespace_and_comments s =
    let t = drop_while is_space s in
    let st = copy_loop (record { index = length s - length t; last = none; result = none }) t in
    terminate st.last st.result

-- What `extract_key_value` leaves in `*key` and `*value`: nothing without an equals sign;
-- `undefined` where it stores past the end of `left` or `right`, or leaves them without their 0.
pub data KeyValue : Type 0 where
  absent undefined : KeyValue
  pair : Bytes → Bytes → KeyValue

-- The text before the first equals sign, and the text from it on.
unfoldable pub split_equal : Bytes → Option (Bytes × Bytes)
split_equal [] = none
split_equal (c ∷ s) = elim (c == b'=') [
  | true ↦ some ([], c ∷ s)
  | false ↦ elim (split_equal s) [ none ↦ none | some (a, b) ↦ some (c ∷ a, b) ]
]

unfoldable pub is_blank_or_quote : ℕ → Bool
is_blank_or_quote c = c == b'\t' || c == b' ' || c == b'"' || c == b'\''

unfoldable pub is_right_skip : ℕ → Bool
unfolding is_blank_or_quote
is_right_skip c = c == b'=' || is_blank_or_quote c

unfoldable pub is_right_end : ℕ → Bool
unfolding is_blank_or_quote
is_right_end c = is_blank_or_quote c || c == b'\r'

-- The loop over the text from the equals sign on. `line_end` says whether the first newline of the
-- line stands in it, and `start_right` whether a character was kept before.
unfoldable pub right_loop : Bool → Bool → Bytes → Bytes
right_loop line_end start_right [] = []
right_loop line_end start_right (c ∷ s) =
    let kept = if c == b'#' then [] else c ∷ right_loop line_end true s in
    let more =
      if start_right then kept else if is_right_skip c then right_loop line_end false s else kept in
    if line_end && c == b'\n' then [] else more

-- The two trailing trims, and the stores past the end of either buffer.
unfoldable pub pair_of : Bytes → Bytes → KeyValue
pair_of left right =
    if leb misc_length (length left) || leb misc_length (length right)
    then undefined
    else pair (drop_end is_blank_or_quote left) (drop_end is_right_end right)

unfoldable pub extract_key_value : Bytes → KeyValue
unfolding split_equal is_blank_or_quote is_right_end right_loop is_right_skip pair_of has drop_while
    drop_end
extract_key_value str = elim (split_equal str) [
  | none ↦ absent
  | some (before, equal) ↦
      pair_of (drop_while is_blank_or_quote before)
        (right_loop (not (has b'\n' before)) false equal)
]
