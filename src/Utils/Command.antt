-- ===== src/Utils/Command.antt =====
-- `parse_command` of utils.c: which command of a table a command line names, and its arguments. A
-- command keeps the fields that the parsing reads; the warnings that it prints are left out.
pub mod Lookup
use pgvictoria.Prelude.{
  ℕ, Bool, true, false, ◌&&◌, Option, none, some, List, [], ◌∷◌, ltb, leb, if◌then◌else◌, length,
  take,
}
use pgvictoria.Bytes.{Bytes, str_eq}

-- struct pgvictoria_command. Behind the counts that are listed the array holds zeros.
pub record Command : Type 0 where
  pub command : Bytes
  pub subcommand : Bytes
  pub accepted_argument_count : List ℕ
  pub default_argument : Option Bytes

-- strncmp(a, b, MISC_LENGTH) == 0
unfoldable pub same_word : Bytes → Bytes → Bool
same_word a b = str_eq (take 128 a) (take 128 b)

-- EMPTY_STR
unfoldable pub is_empty : Bytes → Bool
is_empty [] = true
is_empty (c ∷ s) = false

unfoldable pub names_subcommand : Option Bytes → Command → Bool
unfolding same_word
names_subcommand none c = false
names_subcommand (some s) c = same_word s c.subcommand

-- What the loop over the table leaves: `command_match`, `default_command_match` and `command_index`.
pub record Match : Type 0 where
  pub command_match : Bool
  pub default_command_match : Option Command
  pub command_index : Option Command

unfoldable pub match_loop : Bytes → Option Bytes → Bool → Option Command → List Command → Match
unfolding same_word is_empty names_subcommand
match_loop command subcommand matched default [] = record {
  command_match = matched;
  default_command_match = default;
  command_index = none;
}
match_loop command subcommand matched default (c ∷ table) =
    let next =
      match_loop command subcommand true (if is_empty c.subcommand then some c else default)
        table in
    let skip = match_loop command subcommand matched default table in
    if same_word command c.command
    then (if names_subcommand subcommand c
        then record {
          command_match = true;
          default_command_match = default;
          command_index = some c;
        }
        else next)
    else skip

pub data Parsing : Type 0 where
  no_command unknown_command no_subcommand too_few too_many : Parsing
  -- the command, and the arguments with its default where there is none
  parsed : Command → List Bytes → Option Bytes → Parsing

-- Some count in the array, zeros included, is at least the number of arguments.
unfoldable pub accepts : List ℕ → ℕ → Bool
accepts [] n = leb n 0
accepts (a ∷ counts) n = let rest = accepts counts n in if leb n a then true else rest

first_count : List ℕ → ℕ
first_count [] = 0
first_count (a ∷ counts) = a

first_argument : Command → List Bytes → Option Bytes
first_argument c [] = c.default_argument
first_argument c (a ∷ args) = some a

-- The checks on the number of arguments, and what is stored. `args` was cleared before.
unfoldable pub parse_arguments : Command → List Bytes → Parsing
unfolding accepts first_count first_argument
parse_arguments c args =
    if ltb (length args) (first_count c.accepted_argument_count)
    then too_few
    else if accepts c.accepted_argument_count (length args)
    then parsed c args (first_argument c args)
    else too_many

-- What follows the loop; `rest` stands behind the command, `args` behind the subcommand.
unfoldable pub choose : Match → List Bytes → List Bytes → Parsing
unfolding parse_arguments
choose m rest args =
    if m.command_match
    then (elim m.command_index [
      | some c ↦ parse_arguments c args
      | none ↦ elim m.default_command_match [
        | none ↦ no_subcommand
        | some c ↦ parse_arguments c rest
      ]
    ])
    else unknown_command

-- On the arguments from `offset` on.
unfoldable pub parse_command : List Bytes → List Command → Parsing
unfolding match_loop choose
parse_command [] table = no_command
parse_command (command ∷ []) table = choose (match_loop command none false none table) [] []
parse_command (command ∷ subcommand ∷ args) table =
    choose (match_loop command (some subcommand) false none table) (subcommand ∷ args) args
