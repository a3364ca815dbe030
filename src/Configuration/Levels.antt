-- ===== src/Configuration/Levels.antt =====
-- The settings of configuration.c that are words: what each spelling stands for.
pub mod Laws
use pgvictoria.Prelude.{
  ℕ, ◌+◌, ◌-◌, Bool, true, false, not, ◌&&◌, ◌||◌, Option, none, some, List, [], ◌∷◌, ltb, leb,
  ◌==◌, if◌then◌else◌, ℤ, pos, negsuc, length, take, drop, map,
}
use pgvictoria.Bytes.{Bytes, text, str_eq, case_eq, to_lower}
use pgvictoria.Configuration.Numbers.{as_int}
use pgvictoria.Configuration.Units.{is_empty_string, misc_length}

-- logging.h: PGVICTORIA_LOGGING_TYPE_*, _LEVEL_* and _MODE_*
abbrev pub type_console : ℕ
type_console = 0

abbrev pub type_file : ℕ
type_file = 1

abbrev pub type_syslog : ℕ
type_syslog = 2

-- DEBUG2 to DEBUG5 are the one level 1.
abbrev pub level_debug5 : ℕ
level_debug5 = 1

abbrev pub level_debug1 : ℕ
level_debug1 = 2

abbrev pub level_info : ℕ
level_info = 3

abbrev pub level_warn : ℕ
level_warn = 4

abbrev pub level_error : ℕ
level_error = 5

abbrev pub level_fatal : ℕ
level_fatal = 6

abbrev pub mode_create : ℕ
mode_create = 0

abbrev pub mode_append : ℕ
mode_append = 1

unfoldable pub as_logging_type : Bytes → ℕ
as_logging_type str =
    if case_eq str (text "console")
    then type_console
    else if case_eq str (text "file")
    then type_file
    else if case_eq str (text "syslog")
    then type_syslog
    else 0

-- strncasecmp(str, prefix, strlen(prefix)) == 0
unfoldable pub case_prefix : Bytes → Bytes → Bool
case_prefix str prefix = case_eq (take (length prefix) str) prefix

-- a <= b, of an `int` and a constant that is not negative
abbrev int_leb : ℤ → ℕ → Bool
int_leb (pos n) k = leb n k
int_leb (negsuc n) k = true

-- `debug_level`, which is 1 if nothing, or no number, follows the word
unfoldable pub debug_level : Bytes → ℤ
debug_level str =
    if ltb 5 (length str) then (elim (as_int (drop 5 str)) [ none ↦ pos 1 | some i ↦ i ]) else pos 1

unfoldable pub level_of_word : Bytes → ℕ
level_of_word str =
    if case_eq str (text "info")
    then level_info
    else if case_eq str (text "warn")
    then level_warn
    else if case_eq str (text "error")
    then level_error
    else if case_eq str (text "fatal")
    then level_fatal
    else level_info

-- Levels 2, 3, 4 and 5 and above have a branch each, with the same constant.
unfoldable pub as_logging_level : Bytes → ℕ
unfolding case_prefix debug_level level_of_word
as_logging_level str =
    if case_prefix str (text "debug")
    then (if int_leb (debug_level str) 1 then level_debug1 else level_debug5)
    else level_of_word str

unfoldable pub as_logging_mode : Bytes → ℕ
as_logging_mode str =
    if case_eq str (text "a") || case_eq str (text "append")
    then mode_append
    else if case_eq str (text "c") || case_eq str (text "create")
    then mode_create
    else mode_append

-- HUGEPAGE_OFF, HUGEPAGE_TRY and HUGEPAGE_ON are 0, 1 and 2.
unfoldable pub as_hugepage : Bytes → ℕ
as_hugepage str =
    if case_eq str (text "off")
    then 0
    else if case_eq str (text "try")
    then 1
    else if case_eq str (text "on")
    then 2
    else 0

-- strncmp(a, b, MISC_LENGTH) == 0
unfoldable pub same_start : Bytes → Bytes → Bool
same_start a b = str_eq (take misc_length a) (take misc_length b)

text_of : Option Bytes → Bytes
text_of none = []
text_of (some s) = s

-- UPDATE_PROCESS_TITLE_NEVER, _STRICT, _MINIMAL and _VERBOSE are 0 to 3.
unfoldable pub as_update_process_title : Option Bytes → ℕ → ℕ
unfolding same_start text_of
as_update_process_title str default_policy =
    let s = text_of str in
    if is_empty_string str
    then default_policy
    else if same_start s (text "never") || same_start s (text "off")
    then 0
    else if same_start s (text "strict")
    then 1
    else if same_start s (text "minimal")
    then 2
    else if same_start s (text "verbose") || same_start s (text "full")
    then 3
    else default_policy
