-- ===== src/Value/Tests.antt =====
-- Runs of value.c.
use pgvictoria.Prelude.{◌≢◌, arith}
use pgvictoria.Value.{string, type_none}

string_is_no_none : string ≢ type_none
string_is_no_none e = ground arith
