-- ===== src/Cmd.antt =====
-- libpgvictoria/cmd.c: the options of a command line. An argument is the list of its bytes, and an
-- array of arguments the list of those behind `argv[0]`.
mod Sorted
mod Equals
mod Items
mod RoundTrip
mod Tests
use pgvictoria.Prelude.{
  ℕ, zero, suc, ◌+◌, ◌-◌, Bool, true, false, not, ◌&&◌, ◌||◌, Option, none, some, List, [], ◌∷◌,
  ◌++◌, ltb, leb, ◌==◌, if◌then◌else◌, length, drop, get_elem?,
}
use pgvictoria.Bytes.{Bytes, str_eq, has}

-- cli_option
pub record CliOption : Type 0 where
  pub short_name : Bytes
  pub long_name : Bytes
  pub requires_arg : Bool

-- cli_result
pub record CliResult : Type 0 where
  pub option_name : Bytes
  pub argument : Option Bytes

-- arg[0] == '-'
unfoldable pub is_dash : Bytes → Bool
is_dash [] = false
is_dash (c ∷ s) = c == b'-'

-- arg[1] == '-'
unfoldable pub is_long : Bytes → Bool
unfolding is_dash
is_long [] = false
is_long (c ∷ s) = is_dash s

-- arg + (is_long_option ? 2 : 1)
unfoldable pub option_text : Bytes → Bytes
unfolding is_long
option_text arg = if is_long arg then drop 2 arg else drop 1 arg

unfoldable pub has_equals : Bytes → Bool
unfolding has
has_equals s = has b'=' s

abbrev pub name_of : Bool → CliOption → Bytes
name_of long o = if long then o.long_name else o.short_name

-- The first option of that name.
unfoldable pub find_option : List CliOption → Bool → Bytes → Option CliOption
find_option [] long name = none
find_option (o ∷ os) long name =
    if str_eq name (name_of long o) then some o else find_option os long name

requires : Option CliOption → Bool
requires none = false
requires (some o) = o.requires_arg

unfoldable pub option_requires_arg : List CliOption → Bool → Bytes → Bool
unfolding find_option requires
option_requires_arg options long name = requires (find_option options long name)

-- The tests that the three passes make on one argument.
module _ (options : List CliOption) where
  -- A dash, no equals sign, and an option that takes an argument.
  unfoldable pub waits : Bytes → Bool
  unfolding is_dash option_text has_equals option_requires_arg
  waits arg =
      is_dash arg
      && not (has_equals (option_text arg))
      && option_requires_arg options (is_long arg) (option_text arg)

  unfoldable pub is_flag : Bytes → Bool
  unfolding is_dash option_text has_equals option_requires_arg
  is_flag arg =
      is_dash arg
      && not (has_equals (option_text arg))
      && not (option_requires_arg options (is_long arg) (option_text arg))

  unfoldable pub is_joined : Bytes → Bool
  unfolding is_dash option_text has_equals
  is_joined arg = is_dash arg && has_equals (option_text arg)

  -- First pass: collect flag options.
  unfoldable pub flag_pass : List Bytes → List Bytes
  unfolding is_flag
  flag_pass [] = []
  flag_pass (a ∷ args) = if is_flag a then a ∷ flag_pass args else flag_pass args

  -- Second pass: collect options with arguments.
  unfoldable pub argument_pass : List Bytes → List Bytes
  unfolding waits is_joined
  argument_pass [] = []
  argument_pass (a ∷ []) = if is_joined a || waits a then a ∷ [] else []
  argument_pass (a ∷ b ∷ args) = elim (is_joined a) [
    | true ↦ a ∷ argument_pass (b ∷ args)
    | false ↦ elim (waits a) [
      | false ↦ argument_pass (b ∷ args)
      | true ↦ elim (is_dash b) [
        | true ↦ a ∷ argument_pass (b ∷ args)
        | false ↦ a ∷ b ∷ argument_pass args
      ]
    ]
  ]

  -- The argument before this one waits for it; there is none before the first.
  unfoldable pub previous_waits : Option Bytes → Bool
  unfolding waits
  previous_waits none = false
  previous_waits (some p) = waits p

  -- Third pass: collect non-option arguments.
  unfoldable pub other_pass : Option Bytes → List Bytes → List Bytes
  unfolding is_dash previous_waits
  other_pass previous [] = []
  other_pass previous (a ∷ args) =
      let rest = other_pass (some a) args in
      if is_dash a then rest else if previous_waits previous then rest else a ∷ rest

  unfoldable pub sort_argv : List Bytes → List Bytes
  unfolding flag_pass argument_pass other_pass
  sort_argv args = flag_pass args ++ (argument_pass args ++ other_pass none args)

-- strchr(option_text, '=') and its position
unfoldable pub find_equals : Bytes → Option (ℕ × Bytes)
find_equals [] = none
find_equals (c ∷ s) = elim (c == b'=') [
  | true ↦ some (0, s)
  | false ↦ elim (find_equals s) [ none ↦ none | some (n, t) ↦ some (suc n, t) ]
]

-- The part of an argument behind its equals sign, where the code takes that.
joined_value : Bool → Option (ℕ × Bytes) → Option Bytes
joined_value long none = none
joined_value long (some (n, v)) = if long || n == 1 then some v else none

pub data Outcome : Type 0 where
  failed : Outcome
  -- the results, and how many arguments behind `argv[0]` are consumed
  parsed : List CliResult → ℕ → Outcome

prepend : CliResult → ℕ → Outcome → Outcome
prepend r n failed = failed
prepend r n (parsed rs m) = parsed (r ∷ rs) (n + m)

-- The last loop, with room for so many results.
unfoldable pub parse_loop : List CliOption → ℕ → List Bytes → Outcome
unfolding is_dash is_long option_text find_option find_equals joined_value prepend
parse_loop options zero args = parsed [] 0
parse_loop options (suc room) [] = parsed [] 0
parse_loop options (suc room) (a ∷ []) =
    let long = is_long a in
    let one = parse_loop options room [] in
    if is_dash a
    then elim (find_option options long (option_text a)) [
      | none ↦ parsed [] 0
      | some o ↦
          if o.requires_arg
          then elim (joined_value long (find_equals (option_text a))) [
            | some v ↦ prepend (record { option_name = name_of long o; argument = some v }) 1 one
            | none ↦ failed
          ]
          else prepend (record { option_name = name_of long o; argument = none }) 1 one
    ]
    else parsed [] 0
parse_loop options (suc room) (a ∷ b ∷ args) =
    let long = is_long a in
    let one = parse_loop options room (b ∷ args) in
    let two = parse_loop options room args in
    if is_dash a
    then elim (find_option options long (option_text a)) [
      | none ↦ parsed [] 0
      | some o ↦
          if o.requires_arg
          then elim (joined_value long (find_equals (option_text a))) [
            | some v ↦ prepend (record { option_name = name_of long o; argument = some v }) 1 one
            | none ↦
                if is_dash b
                then failed
                else prepend (record { option_name = name_of long o; argument = some b }) 2 two
          ]
          else prepend (record { option_name = name_of long o; argument = none }) 1 one
    ]
    else parsed [] 0

-- What `cmd_parse` returns: -1, or the results with `optind` and the file name.
pub data CmdResult : Type 0 where
  error : CmdResult
  results : List CliResult → ℕ → Option Bytes → CmdResult

finish : Bool → List Bytes → Outcome → CmdResult
finish use_last args failed = error
finish use_last args (parsed rs n) =
    results rs (n + 1) (if use_last && length args - n == 1 then get_elem? args n else none)

-- `cmd_parse` on the arguments behind `argv[0]`, where `malloc` succeeds.
unfoldable pub cmd_parse : List Bytes → List CliOption → ℕ → Bool → CmdResult
unfolding sort_argv parse_loop finish
cmd_parse args options num_results use_last_arg_as_filename =
    let sorted = sort_argv options args in
    finish use_last_arg_as_filename sorted (parse_loop options num_results sorted)
