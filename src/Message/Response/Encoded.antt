-- ===== src/Message/Response/Encoded.antt =====
-- The messages of a response as the server writes them: descriptions of columns, rows, and the text
-- of a completed command.
use pgvictoria.Prelude.{
  ℕ, ◌^◌, ◌<◌, ◌≡◌, ◌∙◌, sym, ap, Bool, false, ltb, none, some, List, [], ◌∷◌, ◌++◌, ◌==◌, pos,
  length, take, take-append, drop, length-append, arith,
}
use pgvictoria.Bytes.{Bytes}
use pgvictoria.Utils.Wire.Network.{network, length-network, ntoh-network}
use pgvictoria.Message.{ok}
use pgvictoria.Message.Frames.{Frame, NoZero}
use pgvictoria.Message.Response.{Tuple, int16_at, misc_length}

-- A column: its name, and 18 bytes for its table, type and format.
pub record Column : Type 0 where
  pub name : Bytes
  pub attributes : Bytes

pub record IsColumn (c : Column) : Type 0 where
  pub text : NoZero c.name
  pub not_empty : (length c.name == 0) ≡ false
  pub short : length c.name < misc_length
  pub attributes : length c.attributes ≡ 18

abbrev pub columns_bytes : List Column → Bytes
columns_bytes [] = []
columns_bytes (c ∷ cs) = c.name ++ 0 ∷ (c.attributes ++ columns_bytes cs)

abbrev pub row_description : List Column → Frame
row_description cs = record { kind = b'T'; payload = network 2 (length cs) ++ columns_bytes cs }

-- A value, with NULL as the length -1.
abbrev pub values_bytes : Tuple → Bytes
values_bytes [] = []
values_bytes (none ∷ vs) = network 4 4294967295 ++ values_bytes vs
values_bytes (some v ∷ vs) = network 4 (length v) ++ (v ++ values_bytes vs)

abbrev pub data_row : Tuple → Frame
data_row vs = record { kind = b'D'; payload = network 2 (length vs) ++ values_bytes vs }

abbrev pub command_complete : Bytes → Frame
command_complete s = record { kind = b'C'; payload = s ++ 0 ∷ [] }

pub int16_at-network :
    (big : Bool) (v : ℕ) (s t : Bytes) (offset : ℕ)
    → drop offset s ≡ network 2 v ++ t
    → v < 2 ^ 15
    → int16_at big s offset ≡ ok (pos v)
unfolding int16_at
int16_at-network big v s t offset e h =
    let l = length-append (network 2 v) t in
    let enough : ltb (length (network 2 v ++ t)) 2 ≡ false =
      ground (arith, l, length-network 2 v) in
    let cut : take 2 (network 2 v ++ t) ≡ network 2 v =
      ap (λ (k : ℕ). take k (network 2 v ++ t)) (sym (length-network 2 v))
      ∙ take-append (network 2 v) t in
    rw (e, enough, cut, ntoh-network big 2 v (omega (arith, h))) (ground arith)
