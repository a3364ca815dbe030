-- ===== src/Message/Tests.antt =====
-- A response to a query, and an error, as a server sends them.
use pgvictoria.Prelude.{
  ◌≡◌, refl, true, false, some, none, List, [], ◌∷◌, ◌++◌, length, All, arith, map, pos, ℕ,
}
use pgvictoria.Bytes.{Bytes, text, str_eq}
use pgvictoria.Utils.Wire.{le_bytes}
use pgvictoria.Utils.Wire.Network.{network}
use pgvictoria.Message.{
  ok, out_of_fuel, extract_message, extract_message_from_data, has_message, has_loop,
}
use pgvictoria.Message.Frames.{Frame, frame_bytes, frames_bytes, message_of}
use pgvictoria.Message.Walk.{
  IsSmall, minus_one, extract_message_lem, messages_found, has_message_stays,
}
use pgvictoria.Message.Errors.{error_response, extract_error_fields, extract_error_fields_lem}
use pgvictoria.Message.Requests.{
  create_auth_password_response, create_query_message, create_read_replication_slot_message,
  create_identify_system_message, create_startup_message, extract_username_database, is_keyword,
}
use pgvictoria.Message.Requests.Framed.{texted, requests_framed}
use pgvictoria.Message.Requests.Startup.{extract-create_startup}
use pgvictoria.Message.Response.{Tuple, read_response}
use pgvictoria.Message.Response.Encoded.{
  Column, IsColumn, row_description, data_row, command_complete,
}
use pgvictoria.Message.Response.Table.{read_response-table, read_response-error}

abbrev ready : Frame
ready = record { kind = b'Z'; payload = text "I" }

abbrev completed : Frame
completed = command_complete (text "SELECT 1")

abbrev failure : List (ℕ × Bytes)
failure = (b'S', text "ERROR") ∷ (b'C', text "42601") ∷ (b'M', text "syntax error") ∷ []

abbrev columns : List Column
columns =
    record { name = text "name"; attributes = text "123456789012345678" }
    ∷ record { name = text "setting"; attributes = text "123456789012345678" }
    ∷ []

abbrev rows : List Tuple
rows = (some (text "port") ∷ some (text "5432") ∷ []) ∷ (some (text "a") ∷ none ∷ []) ∷ []

answer_size : length (frames_bytes (completed ∷ ready ∷ [])) ≡ 20
unfolding frame_bytes network le_bytes
answer_size = refl

extract_message_example :
    extract_message false b'Z' (record { kind = 0; data' = frames_bytes (completed ∷ ready ∷ []) })
    ≡ ok (some (message_of ready))
extract_message_example =
    extract_message_lem false b'Z' (completed ∷ ready ∷ []) (ground arith) 0
      (omega (arith, answer_size))

messages_found_example :
    (extract_message_from_data false b'C'
        (frames_bytes (completed ∷ ready ∷ []))
        (length (frames_bytes (completed ∷ ready ∷ [])))
      ≡ ok (some (message_of completed)))
    × (has_message false b'C'
          (frames_bytes (completed ∷ ready ∷ []))
          (length (frames_bytes (completed ∷ ready ∷ [])))
        ≡ ok true)
messages_found_example =
    messages_found false b'C' (completed ∷ ready ∷ []) (ground arith) (omega (arith, answer_size))

has_message_stays_example : has_loop false 100 b'Z' 5 (b'C' ∷ minus_one ++ []) 0 ≡ out_of_fuel
has_message_stays_example = has_message_stays false b'Z' b'C' [] refl 100

extract_error_fields_example :
    extract_error_fields b'M' (message_of (error_response failure))
    ≡ ok (some (text "syntax error"))
extract_error_fields_example = extract_error_fields_lem b'M' failure (ground arith)

two_columns-IsColumn :
    IsColumn (record { name = text "name"; attributes = text "123456789012345678" })
    × IsColumn (record { name = text "setting"; attributes = text "123456789012345678" })
two_columns-IsColumn = (
  record { text = ground arith; not_empty = refl; short = ground arith; attributes = refl },
  record { text = ground arith; not_empty = refl; short = ground arith; attributes = refl },
)

abbrev table : List Frame
table = row_description columns ∷ map data_row rows ++ completed ∷ ready ∷ []

table_size : length (frames_bytes table) ≡ 115
unfolding frame_bytes network le_bytes
table_size = refl

table-IsSmall : All IsSmall table
unfolding network le_bytes
table-IsSmall = ground arith

read_response-table_example :
    read_response false (frames_bytes table) (length (frames_bytes table))
    ≡ ok (
        some (record {
          names = text "name" ∷ text "setting" ∷ [];
          number_of_columns = pos 2;
          is_command_complete = false;
          tuples = rows;
        }))
read_response-table_example =
    read_response-table false columns rows (completed ∷ ready ∷ [])
      (two_columns-IsColumn.0, (two_columns-IsColumn.1, tt)) (ground arith) (ground arith) refl refl
      table-IsSmall (omega (arith, table_size))

failure_size : length (frames_bytes (error_response failure ∷ ready ∷ [])) ≡ 40
unfolding frame_bytes network le_bytes
failure_size = refl

read_response-error_example :
    read_response false
      (frames_bytes (error_response failure ∷ ready ∷ []))
      (length (frames_bytes (error_response failure ∷ ready ∷ [])))
    ≡ ok none
read_response-error_example =
    read_response-error false (error_response failure ∷ ready ∷ []) (ground arith)
      (omega (arith, failure_size)) refl

requests_framed_example :
    (create_auth_password_response false (text "secret") ≡ message_of (texted b'p' (text "secret")))
    × (create_query_message false (text "SELECT 1;")
        ≡ ok (message_of (texted b'Q' (text "SELECT 1;"))))
    × (create_read_replication_slot_message false (text "s1")
        ≡ message_of (texted b'Q' ((text "READ_REPLICATION_SLOT " ++ text "s1") ++ text ";")))
    × (create_identify_system_message false ≡ message_of (texted b'Q' (text "IDENTIFY_SYSTEM;")))
requests_framed_example =
    requests_framed false (text "secret") (text "SELECT 1;") (text "s1") (ground arith)
      (ground arith) (ground arith)

extract-create_startup_example :
    extract_username_database (create_startup_message false (text "repl") (text "db1") true)
    ≡ ok (record {
      username = some (text "repl");
      database = some (text "db1");
      appname = some (text "pgvictoria");
    })
unfolding is_keyword str_eq
extract-create_startup_example =
    extract-create_startup false (text "repl") (text "db1") true (ground arith) (ground arith)
      (ground arith) (ground arith) refl refl
