-- ===== src/Utils/Append.antt =====
-- The growing texts of utils.c: `pgvictoria_append` and its versions for characters and numbers,
-- where `realloc` succeeds.
pub mod Decimal
pub mod Numbers
use pgvictoria.Prelude.{
  ℕ, zero, suc, ◌+◌, ◌-◌, ◌*◌, ◌/◌, ◌%◌, ◌^◌, Bool, true, false, Option, none, some, List, [], ◌∷◌,
  ◌++◌, ltb, leb, ◌==◌, if◌then◌else◌, ℤ, pos, negsuc, take,
}
use pgvictoria.Bytes.{Bytes, text}

abbrev pub or_empty : Option Bytes → Bytes
or_empty none = []
or_empty (some s) = s

-- A text that is NULL or empty leaves `orig` as it is, NULL included.
unfoldable pub append : Option Bytes → Option Bytes → Option Bytes
append orig none = orig
append orig (some []) = orig
append orig (some (c ∷ s)) = some (or_empty orig ++ c ∷ s)

-- For a `c` that is not 0.
unfoldable pub append_char : Option Bytes → ℕ → Option Bytes
unfolding append
append_char orig c = append orig (some (c ∷ []))

unfoldable pub append_bool : Option Bytes → Bool → Option Bytes
unfolding append
append_bool orig b = if b then append orig (some (text "1")) else append orig (some (text "0"))

-- The decimal numeral that printf writes, on fuel.
unfoldable pub numeral_loop : ℕ → ℕ → Bytes
numeral_loop zero n = []
numeral_loop (suc fuel) n =
    let high = numeral_loop fuel (n / 10) in
    if ltb n 10 then (b'0' + n) ∷ [] else high ++ (b'0' + n % 10) ∷ []

-- %lu
unfoldable pub numeral : ℕ → Bytes
unfolding numeral_loop
numeral n = numeral_loop (suc n) n

-- %d
unfoldable pub signed_numeral : ℤ → Bytes
unfolding numeral
signed_numeral (pos n) = numeral n
signed_numeral (negsuc n) = b'-' ∷ numeral (n + 1)

-- snprintf(number, 11, "%d", i) keeps ten characters.
unfoldable pub append_int : Option Bytes → ℤ → Option Bytes
unfolding signed_numeral append
append_int orig i = append orig (some (take 10 (signed_numeral i)))

-- snprintf(number, 20, "%lu", l) keeps nineteen.
unfoldable pub append_ulong : Option Bytes → ℕ → Option Bytes
unfolding numeral append
append_ulong orig l = append orig (some (take 19 (numeral l)))

-- The loop of `pgvictoria_indent`, and the tag behind it.
unfoldable pub indent_loop : ℕ → Option Bytes → Option Bytes
unfolding append
indent_loop zero str = str
indent_loop (suc n) str = indent_loop n (append str (some (text " ")))

unfoldable pub indent : Option Bytes → Option Bytes → ℕ → Option Bytes
unfolding indent_loop append
indent str tag n = append (indent_loop n str) tag
