-- ===== src/Guc/Tests.antt =====
-- Runs of guc.c.
use pgvictoria.Prelude.{some, arith}
use pgvictoria.Bytes.{text, to_lower}
use pgvictoria.Value.{int32}
use pgvictoria.Guc.Laws.{IsLocaleName, IsStringType}

-- A name that is no locale setting.
work_mem : ¬ IsLocaleName (some (text "work_mem"))
unfolding to_lower
work_mem h = ground arith

no_string : ¬ IsStringType int32
no_string h = ground arith
