-- ===== src/Configuration/Tests.antt =====
-- Runs of the readers of configuration.c.
use pgvictoria.Prelude.{
  ◌^◌, ◌%◌, ◌≡◌, refl, some, none, [], ◌++◌, arith, pos, signed, leb, ltb, if◌then◌else◌, take,
}
use pgvictoria.Bytes.{text, to_lower, is_space, is_digit, is_alpha}
use pgvictoria.Configuration.Numbers.{as_int}
use pgvictoria.Configuration.Numbers.Digits.{decimal, as_int-decimal}
use pgvictoria.Configuration.Units.{
  as_seconds, as_bytes, is_empty_string, scan, second_round, byte_round,
}
use pgvictoria.Configuration.Units.Scanning.{scaled, Accepted}
use pgvictoria.Configuration.Units.Seconds.{
  as_seconds_unit, as_seconds_sound, seconds_in, IsSecondFactor,
}
use pgvictoria.Configuration.Units.Sizes.{as_bytes_unit, as_bytes_sound, bytes_in, IsByteFactor}
use pgvictoria.Configuration.Lines.{
  remove_leading_whitespace_and_comments, extract_key_value, is_blank_or_quote, is_right_skip,
  is_right_end, overrun, trimmed, pair,
}
use pgvictoria.Configuration.Lines.Trimmed.{remove_leading_whitespace_and_comments_lem}
use pgvictoria.Configuration.Lines.Pairs.{extract_key_value_lem}

-- 2^31, which is no `int`, is read as -2^31.
as_int-decimal_example :
    as_int (text "2147483648")
    ≡ (if leb (2 ^ 63) 2147483648 then none else some (signed 32 (2147483648 % 2 ^ 32)))
unfolding decimal is_digit
as_int-decimal_example = as_int-decimal b'2' (text "147483648") (ground arith)

as_seconds_unit_example :
    (as_seconds (some (text "90")) (pos 5) ≡ scaled 90 1)
    × (as_seconds (some (text "90m")) (pos 5) ≡ scaled 90 60)
unfolding decimal is_digit is_alpha seconds_in to_lower
as_seconds_unit_example =
    as_seconds_unit b'9' (text "0") (ground arith) (ground arith) (ground arith) (pos 5) b'm' refl

as_seconds_sound_example : Accepted IsSecondFactor (text "2h") (pos 7200)
unfolding is_empty_string as_seconds scan second_round is_digit is_alpha as_int is_space
as_seconds_sound_example = as_seconds_sound (text "2h") (pos 5) (pos 7200) refl refl

as_bytes_unit_example :
    (as_bytes (some (text "4")) (pos 5) ≡ scaled 4 1)
    × (as_bytes (some (text "4k")) (pos 5) ≡ scaled 4 1024)
unfolding decimal is_digit is_alpha bytes_in to_lower
as_bytes_unit_example =
    as_bytes_unit b'4' [] (ground arith) (ground arith) (ground arith) (pos 5) b'k' refl

as_bytes_sound_example : Accepted IsByteFactor (text "4k") (pos 4096)
unfolding is_empty_string as_bytes scan byte_round is_digit is_alpha as_int is_space
as_bytes_sound_example = as_bytes_sound (text "4k") (pos 5) (pos 4096) refl refl

-- Two spaces before the text and one behind it: the 0 is stored behind the buffer.
remove_leading_whitespace_and_comments_example :
    remove_leading_whitespace_and_comments (text "  port = 1 # the port")
    ≡ (if ltb 1 2 then overrun else trimmed (some (text "port = 1" ++ take 2 (text " "))))
unfolding is_space
remove_leading_whitespace_and_comments_example =
    remove_leading_whitespace_and_comments_lem (text "  ") (text " ") (text "# the port") b'p'
      (text "ort = 1") (ground arith) (ground arith) (ground arith) (ground arith) refl

extract_key_value_example :
    extract_key_value (text "host = 'db' # main") ≡ pair (text "host") (text "db")
unfolding is_blank_or_quote is_right_skip is_right_end is_space
extract_key_value_example =
    extract_key_value_lem [] (text "host") (text " ") (text " '") (text "db") (text "' ")
      (text "# main") (ground arith) (ground arith) (ground arith) (ground arith) (ground arith)
      (ground arith) (ground arith) (ground arith) (ground arith) (ground arith) (ground arith)
      (ground arith) (ground arith) refl
