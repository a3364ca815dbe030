-- ===== src/Guc.antt =====
-- libpgvictoria/guc.c: whether a setting differs from its baseline. A `char*` that may be NULL is
-- an `Option Bytes`; what is written through `modified` is the Boolean that a result carries.
pub mod Laws
mod Tests
use pgvictoria.Prelude.{
  ℕ, zero, suc, ◌+◌, ◌-◌, Bool, true, false, not, ◌&&◌, ◌||◌, Option, none, some, List, [], ◌∷◌,
  ◌++◌, ltb, leb, ◌==◌, if◌then◌else◌, length, get_or, reverse,
}
use pgvictoria.Bytes.{Bytes, text, str_eq, case_eq, has, is_space, to_lower, drop_while, drop_end}
use pgvictoria.Utils.Append.{or_empty, append_char}
use pgvictoria.Value.{ValueType, string, string_ref}

-- GUC_STRIP_NONE and GUC_STRIP_LOCALE
abbrev pub strip_none : Option Bytes
strip_none = none

abbrev pub strip_locale : Option Bytes
strip_locale = some (text "-")

-- The first loop of `guc_normalize`: what is left of the value from `start` on.
unfoldable pub trim_start : Bytes → Bytes
trim_start = drop_while is_space

-- The second loop, which lowers `end` while the byte before it is a space and `end > start`: on the
-- reversed text it is the first loop.
unfoldable pub trim_end : Bytes → Bytes
trim_end = drop_end is_space

-- strip != NULL && strchr(strip, c) != NULL
unfoldable pub stripped : Option Bytes → ℕ → Bool
stripped none c = false
stripped (some s) c = has c s

-- The third loop, over `value[start .. end)`; a NULL `result` is read as the empty text, with `or_empty`.
unfoldable pub copy : Option Bytes → Bool → Bytes → Option Bytes → Option Bytes
unfolding append_char stripped
copy strip fold_case [] result = result
copy strip fold_case (c ∷ s) result =
    copy strip fold_case s (
      if stripped strip c then result else append_char result (if fold_case then to_lower c else c))

unfoldable pub guc_normalize : Option Bytes → Option Bytes → Bool → Option Bytes
unfolding trim_start trim_end copy
guc_normalize none strip fold_case = none
guc_normalize (some value) strip fold_case = copy strip fold_case (trim_end (trim_start value)) none

unfoldable pub guc_equal : Bytes → Bytes → Option Bytes → Bool → Bool
guc_equal baseline current strip fold_case =
    str_eq (or_empty (guc_normalize (some baseline) strip fold_case))
      (or_empty (guc_normalize (some current) strip fold_case))

-- A comparator writes `*modified` and returns 0.
unfoldable pub compare_locale : Bytes → Bytes → ℕ × Bool
compare_locale baseline current = (0, not (guc_equal baseline current strip_locale true))

unfoldable pub compare_lc_messages : Bytes → Bytes → ℕ × Bool
unfolding compare_locale
compare_lc_messages baseline current = compare_locale baseline current

unfoldable pub compare_lc_monetary : Bytes → Bytes → ℕ × Bool
unfolding compare_locale
compare_lc_monetary baseline current = compare_locale baseline current

unfoldable pub compare_lc_numeric : Bytes → Bytes → ℕ × Bool
unfolding compare_locale
compare_lc_numeric baseline current = compare_locale baseline current

unfoldable pub compare_lc_time : Bytes → Bytes → ℕ × Bool
unfolding compare_locale
compare_lc_time baseline current = compare_locale baseline current

pub record GucComparator : Type 0 where
  pub name : Bytes
  pub compare : Bytes → Bytes → ℕ × Bool

-- The table without its NULL entry, which only ends the search.
abbrev pub special_gucs : List GucComparator
special_gucs =
    record { name = text "lc_messages"; compare = compare_lc_messages }
    ∷ record { name = text "lc_monetary"; compare = compare_lc_monetary }
    ∷ record { name = text "lc_numeric"; compare = compare_lc_numeric }
    ∷ record { name = text "lc_time"; compare = compare_lc_time }
    ∷ []

-- The loop over `special_gucs`.
unfoldable pub find_special : Bytes → List GucComparator → Option GucComparator
find_special guc_name [] = none
find_special guc_name (g ∷ gs) =
    if case_eq guc_name g.name then some g else find_special guc_name gs

is_string : ValueType → Bool
is_string string = true
is_string string_ref = true
is_string _ = false

unfoldable pub default_compare : ValueType → Bytes → Bytes → ℕ × Bool
unfolding is_string
default_compare type baseline current =
    if is_string type
    then (0, not (guc_equal baseline current strip_none true))
    else (0, not (str_eq baseline current))

lookup_special : Option Bytes → Option GucComparator
unfolding find_special
lookup_special none = none
lookup_special (some guc_name) = find_special guc_name special_gucs

-- `pgvictoria_check_guc` with a `modified` that is not NULL: the status and what is written.
unfoldable pub check_guc : Option Bytes → ValueType → Option Bytes → Option Bytes → ℕ × Bool
unfolding lookup_special default_compare
check_guc guc_name type baseline_val current_val =
    let baseline = or_empty baseline_val in
    let current = or_empty current_val in
    elim (lookup_special guc_name) [
      | none ↦ default_compare type baseline current
      | some g ↦ g.compare baseline current
    ]
