-- ===== src/Utils/Command/Lookup.antt =====
-- Which command of its table `parse_command` settles on.
use pgvictoria.Prelude.{
  Bool, true, false, ◌&&◌, Option, none, some, List, [], ◌∷◌, ◌++◌, if◌then◌else◌, ◌≡◌, refl, ap,
  All, arith, Bool-cases, inl, inr, &&_split,
}
use pgvictoria.Bytes.{Bytes}
use pgvictoria.Utils.Command.{
  Command, same_word, is_empty, names_subcommand, Match, match_loop, choose, parse_arguments,
  parse_command,
}

-- Command and subcommand are those of the entry.
abbrev pub hits : Bytes → Bytes → Command → Bool
hits command subcommand c = same_word command c.command && same_word subcommand c.subcommand

-- The command is that of the entry, which has no subcommand.
abbrev pub stands_alone : Bytes → Command → Bool
stands_alone command c = same_word command c.command && is_empty c.subcommand

match_loop-hit :
    (command subcommand : Bytes) (matched : Bool) (default : Option Command)
    (before after : List Command) (c : Command)
    → All (λ d. hits command subcommand d ≡ false) before
    → hits command subcommand c ≡ true
    → ((match_loop command (some subcommand) matched default (before ++ c ∷ after)).command_match
        ≡ true)
      × ((match_loop command (some subcommand) matched default (before ++ c ∷ after)).command_index
          ≡ some c)
unfolding match_loop names_subcommand
match_loop-hit command subcommand matched default [] after c n h =
    let (p, q) = &&_split (same_word command c.command) (same_word subcommand c.subcommand) h in
    (rw (p, q), rw (p, q))
match_loop-hit command subcommand matched default (d ∷ before) after c (m, n) h =
    elim (Bool-cases (same_word command d.command)) [
      | inl p ↦
          let q : same_word subcommand d.subcommand ≡ false = ground arith in
          rw (p, q)
            (match_loop-hit command subcommand true
              (if is_empty d.subcommand then some d else default) before after c n h)
      | inr p ↦ rw p (match_loop-hit command subcommand matched default before after c n h)
    ]

-- Without a hit the loop keeps the last entry that stands alone.
match_loop-rest :
    (command subcommand : Bytes) (matched : Bool) (default : Option Command) (table : List Command)
    → All (λ d. hits command subcommand d ≡ false) table
    → All (λ d. stands_alone command d ≡ false) table
    → (matched ≡ true)
    → match_loop command (some subcommand) matched default table
      ≡ record { command_match = true; default_command_match = default; command_index = none }
unfolding match_loop names_subcommand
match_loop-rest command subcommand matched default [] n k e = rw e
match_loop-rest command subcommand matched default (d ∷ table) (m, n) (j, k) e =
    elim (Bool-cases (same_word command d.command)) [
      | inl p ↦
          let q : same_word subcommand d.subcommand ≡ false = ground arith in
          let z : is_empty d.subcommand ≡ false = ground arith in
          rw (p, q, z) (match_loop-rest command subcommand true default table n k refl)
      | inr p ↦ rw p (match_loop-rest command subcommand matched default table n k e)
    ]

match_loop-alone :
    (command subcommand : Bytes) (matched : Bool) (default : Option Command)
    (before after : List Command) (c : Command)
    → All (λ d. hits command subcommand d ≡ false) (before ++ c ∷ after)
    → stands_alone command c ≡ true
    → All (λ d. stands_alone command d ≡ false) after
    → match_loop command (some subcommand) matched default (before ++ c ∷ after)
      ≡ record { command_match = true; default_command_match = some c; command_index = none }
unfolding match_loop names_subcommand
match_loop-alone command subcommand matched default [] after c (m, n) h k =
    let (p, z) = &&_split (same_word command c.command) (is_empty c.subcommand) h in
    let q : same_word subcommand c.subcommand ≡ false = ground arith in
    rw (p, q, z) (match_loop-rest command subcommand true (some c) after n k refl)
match_loop-alone command subcommand matched default (d ∷ before) after c (m, n) h k =
    elim (Bool-cases (same_word command d.command)) [
      | inl p ↦
          let q : same_word subcommand d.subcommand ≡ false = ground arith in
          rw (p, q)
            (match_loop-alone command subcommand true
              (if is_empty d.subcommand then some d else default) before after c n h k)
      | inr p ↦ rw p (match_loop-alone command subcommand matched default before after c n h k)
    ]

-- The first entry whose command and subcommand are the first two words takes the words behind them.
parse_command-hit :
    (command subcommand : Bytes) (args : List Bytes) (before after : List Command) (c : Command)
    → All (λ d. hits command subcommand d ≡ false) before
    → hits command subcommand c ≡ true
    → parse_command (command ∷ subcommand ∷ args) (before ++ c ∷ after) ≡ parse_arguments c args
unfolding parse_command choose
parse_command-hit command subcommand args before after c n h =
    let (m, i) = match_loop-hit command subcommand false none before after c n h in rw (m, i)

-- If the first two words are those of no entry, the last entry that has the first word as its command
-- and no subcommand takes all words behind the first.
parse_command-alone :
    (command subcommand : Bytes) (args : List Bytes) (before after : List Command) (c : Command)
    → All (λ d. hits command subcommand d ≡ false) (before ++ c ∷ after)
    → stands_alone command c ≡ true
    → All (λ d. stands_alone command d ≡ false) after
    → parse_command (command ∷ subcommand ∷ args) (before ++ c ∷ after)
      ≡ parse_arguments c (subcommand ∷ args)
unfolding parse_command choose
parse_command-alone command subcommand args before after c n h k =
    ap (λ (m : Match). choose m (subcommand ∷ args) args)
      (match_loop-alone command subcommand false none before after c n h k)
