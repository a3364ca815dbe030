-- ===== src/Configuration/Levels/Laws.antt =====
-- The words of configuration.c in either case, and the level of a `debug` with a number behind it.
use pgvictoria.Prelude.{
  ℕ, ◌<◌, ◌^◌, ◌%◌, true, some, [], ◌∷◌, leb, if◌then◌else◌, pos, signed, map, arith, ◌≡◌, refl,
  ◌∙◌,
}
use pgvictoria.Bytes.{Bytes, text, case_eq, to_lower}
use pgvictoria.Bytes.Laws.{to_lower_idem}
use pgvictoria.Configuration.Numbers.{as_int}
use pgvictoria.Configuration.Numbers.Digits.{AllDigit, decimal, as_int-decimal}
use pgvictoria.Configuration.Levels.{
  as_logging_type, as_logging_mode, as_hugepage, as_logging_level, case_prefix, debug_level,
  level_debug1, level_debug5,
}

map-to_lower : (s : Bytes) → map to_lower (map to_lower s) ≡ map to_lower s
map-to_lower [] = refl
map-to_lower (c ∷ s) = rw (to_lower_idem c, map-to_lower s)

case_eq-to_lower : (s t : Bytes) → case_eq (map to_lower s) t ≡ case_eq s t
unfolding case_eq
case_eq-to_lower s t = rw (map-to_lower s)

-- The logging type, the logging mode and the huge page setting do not depend on the case of letters.
words_ignore_case :
    (s : Bytes)
    → (as_logging_type (map to_lower s) ≡ as_logging_type s)
      × (as_logging_mode (map to_lower s) ≡ as_logging_mode s)
      × (as_hugepage (map to_lower s) ≡ as_hugepage s)
unfolding as_logging_type as_logging_mode as_hugepage
words_ignore_case s = (
  rw (
    case_eq-to_lower s (text "console"),
    case_eq-to_lower s (text "file"),
    case_eq-to_lower s (text "syslog"),
  ),
  rw (
    case_eq-to_lower s (text "a"),
    case_eq-to_lower s (text "append"),
    case_eq-to_lower s (text "c"),
    case_eq-to_lower s (text "create"),
  ),
  rw (
    case_eq-to_lower s (text "off"),
    case_eq-to_lower s (text "try"),
    case_eq-to_lower s (text "on"),
  ),
)

small_signed : (n : ℕ) → n < 2 ^ 31 → signed 32 (n % 2 ^ 32) ≡ pos n
small_signed n h = ground arith

as_int-small :
    (x : ℕ) (ds : Bytes)
    → AllDigit (x ∷ ds)
    → decimal 0 (x ∷ ds) < 2 ^ 31
    → as_int (x ∷ ds) ≡ some (pos (decimal 0 (x ∷ ds)))
as_int-small x ds h b = as_int-decimal x ds h ∙ ground arith

-- The word `debug`, in letters of either case, and digits for a number below 2^31: the level is
-- DEBUG1 if that number is at most 1, else the one level of DEBUG2 to DEBUG5.
as_logging_level-debug :
    (d e b u g x : ℕ) (ds : Bytes)
    → case_eq (d ∷ e ∷ b ∷ u ∷ g ∷ []) (text "debug") ≡ true
    → AllDigit (x ∷ ds)
    → decimal 0 (x ∷ ds) < 2 ^ 31
    → as_logging_level (d ∷ e ∷ b ∷ u ∷ g ∷ x ∷ ds)
      ≡ (if leb (decimal 0 (x ∷ ds)) 1 then level_debug1 else level_debug5)
unfolding as_logging_level case_prefix debug_level
as_logging_level-debug d e b u g x ds w h n = rw (w, as_int-small x ds h n) (ground arith)
