-- ===== src/Utils/Text/Escape.antt =====
-- The two loops of `pgvictoria_escape_string`.
use pgvictoria.Prelude.{◌≡◌, refl, [], ◌∷◌, length, arith}
use pgvictoria.Bytes.{Bytes}
use pgvictoria.Utils.Text.{escaped_length, escape}

-- The buffer that `pgvictoria_escape_string` measures is filled exactly.
pub length-escape : (s : Bytes) → length (escape s) ≡ escaped_length s
unfolding escape escaped_length
length-escape [] = refl
length-escape (c ∷ s) = ground (arith, length-escape s)
