-- ===== src/Cmd/Equals.antt =====
-- The joined form `--option=value` in the last loop of `cmd_parse`, which compares the whole text
-- behind the dashes with the names of the options.
use pgvictoria.Prelude.{
  ℕ, suc, Bool, true, false, none, List, [], ◌∷◌, Bool-cases, arith, ◌≡◌, refl, ap, inl, inr,
  &&_split, All,
}
use pgvictoria.Bytes.{Bytes, str_eq}
use pgvictoria.Bytes.Laws.{str_eq_iff}
use pgvictoria.Cmd.{
  CliOption, is_dash, is_joined, has_equals, name_of, option_text, is_long, find_option, parse_loop,
  parsed,
}

-- Neither name of the option has an equals sign.
unfoldable pub PlainNames : CliOption → Type 0
PlainNames o = (has_equals o.short_name ≡ false) × (has_equals o.long_name ≡ false)

name_of-plain : (o : CliOption) (long : Bool) → PlainNames o → has_equals (name_of long o) ≡ false
unfolding PlainNames
name_of-plain o true h = h.1
name_of-plain o false h = h.0

find_option-equals :
    (options : List CliOption) (long : Bool) (s : Bytes)
    → All PlainNames options
    → has_equals s ≡ true
    → find_option options long s ≡ none
unfolding find_option
find_option-equals [] long s h e = refl
find_option-equals (o ∷ os) long s (p, h) e = elim (Bool-cases (str_eq s (name_of long o))) [
  | inl q ↦
      let same = ap has_equals ((str_eq_iff s (name_of long o)).0 q) in
      let plain = name_of-plain o long p in ground arith
  | inr q ↦ rw (q) (find_option-equals os long s h e)
]

-- Where no option has an equals sign in a name, an argument with a dash and an equals sign ends the
-- last loop, without a result and not consumed: no value is taken from behind an equals sign.
pub parse_loop_joined :
    (options : List CliOption) (room : ℕ) (a : Bytes) (args : List Bytes)
    → All PlainNames options
    → is_joined options a ≡ true
    → parse_loop options (suc room) (a ∷ args) ≡ parsed [] 0
unfolding is_joined parse_loop
parse_loop_joined options room a [] h j =
    let (d, e) = &&_split (is_dash a) (has_equals (option_text a)) j in
    rw (parse_loop, d, find_option-equals options (is_long a) (option_text a) h e)
parse_loop_joined options room a (b ∷ args) h j =
    let (d, e) = &&_split (is_dash a) (has_equals (option_text a)) j in
    rw (parse_loop, d, find_option-equals options (is_long a) (option_text a) h e)
