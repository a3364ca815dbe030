-- ===== src/Json/Tests.antt =====
-- The parser of json.c on one text, with a scanner that refuses all numbers.
use pgvictoria.Prelude.{
  Bool, true, false, Option, some, none, [], ◌∷◌, ◌++◌, ◌≡◌, ℤ, suc, length, arith,
}
use pgvictoria.Bytes.{Bytes, text}
use pgvictoria.Utils.Text.{escaped_length, escape}
use pgvictoria.Json.{Json, string, bool, object, end, entry, ok, quoted, json_parse_string}
use pgvictoria.Json.Printed.{quoted-escape}
use pgvictoria.Json.Accepted.{json_parse_string_lem}
use pgvictoria.Json.Total.{Ends, json_parse_string-Ends}
use pgvictoria.Json.Grammar.{
  Shows, braces, brackets, member, more, close, element, others, stop, has_entry, null, quotes, yes,
}

abbrev no_double : Bytes → Bool
no_double w = false

abbrev no_int : Bytes → Option ℤ
no_int w = none

abbrev value : Json
value = object (
    entry (some (text "a"))
      (object (entry none (string none) (entry none (string (some (text "b"))) end)))
      (entry (some (text "c")) (bool true) end))

value_shown : Shows value (text "{\"a\":[null,\"b\"],\"c\":true}")
unfolding escape
value_shown = braces (
    member b'a' [] (brackets (element null (others (element (quotes (text "b")) stop) has_entry)))
      (more (member b'c' [] yes close) has_entry))

json_parse_string_lem_example :
    json_parse_string no_double no_int (some (text "{\"a\":[null,\"b\"],\"c\":true}")) ≡ ok value
json_parse_string_lem_example = json_parse_string_lem no_double no_int value_shown

json_parse_string-Ends_example : Ends (json_parse_string no_double no_int (some (text "{\"a\":[1")))
json_parse_string-Ends_example = json_parse_string-Ends no_double no_int (some (text "{\"a\":[1"))

-- The three characters a, quote and line feed.
abbrev plain : Bytes
plain = b'a' ∷ b'"' ∷ b'\n' ∷ []

quoted-escape_example :
    (length (escape plain) ≡ escaped_length plain)
    × (quoted (suc (length (escape plain ++ b'"' ∷ text ",1]"))) (escape plain ++ b'"' ∷ text ",1]")
        ≡ ok (plain, b'"' ∷ text ",1]"))
unfolding escaped_length
quoted-escape_example = quoted-escape plain (text ",1]") (omega arith)
