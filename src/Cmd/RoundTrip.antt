-- ===== src/Cmd/RoundTrip.antt =====
-- `cmd_parse` of cmd.c on command lines that are written out of items.
use pgvictoria.Bytes.{Bytes}
