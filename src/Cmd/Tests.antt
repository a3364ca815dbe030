-- ===== src/Cmd/Tests.antt =====
-- Runs of cmd.c with the options of a small program.
use pgvictoria.Prelude.{◌≡◌, refl, true, false, some, none, List, [], ◌∷◌, arith}
use mathlib.Core.List.{Perm}
use pgvictoria.Bytes.{Bytes, text, str_eq, has}
use pgvictoria.Cmd.{
  CliOption, is_dash, is_long, option_text, has_equals, is_joined, sort_argv, parse_loop, parsed,
  cmd_parse, results,
}
use pgvictoria.Cmd.Items.{Item, flag, valued, word}
use pgvictoria.Cmd.Sorted.{sort_argv-Perm}
use pgvictoria.Cmd.Equals.{PlainNames, parse_loop_joined}

-- -c, --config FILE and -h, --help
abbrev options : List CliOption
options =
    record { short_name = text "c"; long_name = text "config"; requires_arg = true }
    ∷ record { short_name = text "h"; long_name = text "help"; requires_arg = false }
    ∷ []

abbrev arguments : List Bytes
arguments = text "ping" ∷ text "--config" ∷ text "a.conf" ∷ text "-h" ∷ []

sort_argv_example : Perm (sort_argv options arguments) arguments
sort_argv_example = sort_argv-Perm options arguments

-- The words are `-h --config a.conf ping` once they are sorted.
run_arguments :
    cmd_parse arguments options 8 false
    ≡ results
        (record { option_name = text "h"; argument = none }
          ∷ record { option_name = text "config"; argument = some (text "a.conf") }
          ∷ [])
        4
        none
unfolding cmd_parse str_eq
run_arguments = refl

parse_loop_joined_example : parse_loop options 8 (text "--config=a.conf" ∷ []) ≡ parsed [] 0
unfolding PlainNames has_equals has is_joined is_dash option_text is_long
parse_loop_joined_example =
    parse_loop_joined options 7 (text "--config=a.conf") [] (ground arith) refl

-- `ping --config a.conf -h`, as items
abbrev items : List Item
items =
    word (text "ping")
    ∷ valued true (record { short_name = text "c"; long_name = text "config"; requires_arg = true })
        (text "a.conf")
    ∷ flag false (record { short_name = text "h"; long_name = text "help"; requires_arg = false })
    ∷ []
