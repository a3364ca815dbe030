-- ===== src/Utils/Tests.antt =====
-- Runs of the helpers of utils.c.
use pgvictoria.Prelude.{
  refl, ◌/◌, ◌^◌, ◌≡◌, false, some, none, [], ◌∷◌, ◌++◌, arith, pos, negsuc, ltb, if◌then◌else◌,
  drop, List, length,
}
use pgvictoria.Bytes.{Bytes, text}
use pgvictoria.Configuration.Numbers.{as_int}
use pgvictoria.Utils.Wire.{
  read_uint16, read_uint32, read_uint64, read_int16, read_int32, read_int64, write_uint16,
  write_uint32, write_uint64, write_int16, write_int32, write_int64,
}
use pgvictoria.Utils.Wire.Network.{network}
use pgvictoria.Utils.Wire.Integers.{read-write_unsigned, read-write_signed}
use pgvictoria.Utils.Append.{append_ulong, append_int, or_empty, numeral}
use pgvictoria.Utils.Append.Numbers.{append_ulong_lem, append_int-as_int, kept}
use pgvictoria.Utils.Text.{
  no_end, remove_prefix, read_token, strtok, count_objects, fill_results, divided, divide, split,
}
use pgvictoria.Utils.Text.Ends.{remove_prefix_stays, Agree}
use pgvictoria.Utils.Command.{Command}
use pgvictoria.Utils.Text.Split.{split_lem, Parts}

-- a buffer of eight bytes
abbrev buffer : Bytes
buffer = 9 ∷ 9 ∷ 9 ∷ 9 ∷ 9 ∷ 9 ∷ 9 ∷ 9 ∷ []

read-write_unsigned_example :
    ((write_uint16 false 258 buffer ≡ network 2 258 ++ drop 2 buffer)
      × (read_uint16 false (write_uint16 false 258 buffer) ≡ 258))
    × ((write_uint32 false 7 buffer ≡ network 4 7 ++ drop 4 buffer)
        × (read_uint32 false (write_uint32 false 7 buffer) ≡ 7))
    × ((write_uint64 false 8 buffer ≡ network 8 8 ++ drop 8 buffer)
        × (read_uint64 false (write_uint64 false 8 buffer) ≡ 8))
read-write_unsigned_example =
    read-write_unsigned false 258 7 8 buffer (ground arith) (ground arith) (ground arith)

read-write_signed_example :
    (read_int16 false (write_int16 false (negsuc 0) buffer) ≡ negsuc 0)
    × (read_int32 false (write_int32 false (pos 5) buffer) ≡ pos 5)
    × (read_int64 false (write_int64 false (negsuc 8) buffer) ≡ negsuc 8)
read-write_signed_example =
    read-write_signed false (negsuc 0) (pos 5) (negsuc 8) buffer (ground arith) (ground arith)
      (ground arith)

append_ulong_example :
    append_ulong (some (text "n=")) 42
    ≡ some (text "n=" ++ numeral (if ltb 42 (10 ^ 19) then 42 else 42 / 10))
append_ulong_example = append_ulong_lem (some (text "n=")) 42 (ground arith)

append_int-as_int_example :
    (t : Bytes) × (append_int none (negsuc 41) ≡ some (or_empty none ++ t))
    × (as_int t ≡ some (kept (negsuc 41)))
append_int-as_int_example = append_int-as_int none (negsuc 41) (ground arith)

unlike : ¬ Agree (text "abc") (text "b")
unlike h = ground arith

remove_prefix_stays_example : remove_prefix 100 (text "abc") (text "b") ≡ no_end
remove_prefix_stays_example =
    remove_prefix_stays (text "abc") (text "b") 100 (omega arith) (omega arith) unlike

split_example :
    (ts : List Bytes) × (Parts b',' (text "a,,b") ts
      × (split (text "a,,b") b',' ≡ divided ts (length ts)))
split_example = split_lem (text "a,,b") b',' (omega arith)

-- The parts of the text are its two letters.
split_letters : split (text "a,,b") b',' ≡ divided ((b'a' ∷ []) ∷ (b'b' ∷ []) ∷ []) 2
unfolding split divide count_objects fill_results strtok read_token
split_letters = refl

abbrev status : Command
status = record {
  command = text "status";
  subcommand = [];
  accepted_argument_count = 0 ∷ 1 ∷ [];
  default_argument = none;
}

abbrev status_details : Command
status_details = record {
  command = text "status";
  subcommand = text "details";
  accepted_argument_count = 0 ∷ [];
  default_argument = none;
}
