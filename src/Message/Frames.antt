-- ===== src/Message/Frames.antt =====
-- The frames of messages, and what the readers give at the beginning of one.
use pgvictoria.Prelude.{
  ℕ, ◌+◌, ◌%◌, ◌^◌, ◌<◌, ◌≡◌, ◌∙◌, refl, sym, ap, Bool, true, false, List, [], ◌∷◌, ◌++◌, ◌==◌, ltb,
  leb, pos, length, take, drop, length-append, append_assoc, All, drop-append, take-append,
  drop_add, arith,
}
use pgvictoria.Bytes.{Bytes}
use pgvictoria.Utils.Wire.{read_int32}
use pgvictoria.Utils.Wire.Network.{network, length-network, ntoh-network}
use pgvictoria.Message.{
  Message, ok, c_string, byte_at, advance_size, int32_at, copy_at, extract_message_offset,
}

-- A message as it is sent: its kind, the length of what follows the kind, and its payload.
pub record Frame : Type 0 where
  pub kind : ℕ
  pub payload : Bytes

unfoldable pub frame_bytes : Frame → Bytes
frame_bytes f = f.kind ∷ network 4 (4 + length f.payload) ++ f.payload

abbrev pub frames_bytes : List Frame → Bytes
frames_bytes [] = []
frames_bytes (f ∷ fs) = frame_bytes f ++ frames_bytes fs

abbrev pub message_of : Frame → Message
message_of f = record { kind = f.kind; data' = frame_bytes f }

pub length-frame_bytes : (f : Frame) → length (frame_bytes f) ≡ 5 + length f.payload
unfolding frame_bytes
length-frame_bytes f = omega (
  arith,
  length-append (network 4 (4 + length f.payload)) f.payload,
  length-network 4 (4 + length f.payload),
)

-- Behind the first part of what is left.
pub drop_behind :
    (s a b : Bytes) (offset : ℕ) → drop offset s ≡ a ++ b → drop (offset + length a) s ≡ b
drop_behind s a b offset e = drop_add offset (length a) s ∙ ap (drop (length a)) e ∙ drop-append a b

abbrev pub NoZero : Bytes → Type 0
NoZero = All (λ c. (c == 0) ≡ false)

pub c_string-text : (s rest : Bytes) → NoZero s → c_string (s ++ 0 ∷ rest) ≡ ok s
unfolding c_string
c_string-text [] rest h = refl
c_string-text (c ∷ s) rest (h, hs) = rw (h, c_string-text s rest hs) refl

pub drop-network : (n v : ℕ) (t : Bytes) → drop n (network n v ++ t) ≡ t
drop-network n v t =
    ap (λ (k : ℕ). drop k (network n v ++ t)) (sym (length-network n v))
    ∙ drop-append (network n v) t

pub read_int32-network :
    (big : Bool) (v : ℕ) (s : Bytes) → v < 2 ^ 31 → read_int32 big (network 4 v ++ s) ≡ pos v
unfolding read_int32
read_int32-network big v s h =
    let e : take 4 (network 4 v ++ s) ≡ network 4 v =
      ap (λ (k : ℕ). take k (network 4 v ++ s)) (sym (length-network 4 v))
      ∙ take-append (network 4 v) s in
    rw (e, ntoh-network big 4 v (omega (arith, h))) (ground arith)

module _ (big : Bool) (s : Bytes) (offset : ℕ) (f : Frame) (rest : Bytes)
    (e : drop offset s ≡ frame_bytes f ++ rest) where
  pub byte_at_frame : byte_at s offset ≡ ok f.kind
  unfolding byte_at frame_bytes
  byte_at_frame = rw e refl

  behind_kind : drop (offset + 1) s ≡ network 4 (4 + length f.payload) ++ (f.payload ++ rest)
  unfolding frame_bytes
  behind_kind =
      drop_add offset 1 s
      ∙ ap (drop 1) e
      ∙ append_assoc (network 4 (4 + length f.payload)) f.payload rest

  module _ (small : 5 + length f.payload < 2 ^ 31) where
    pub int32_at_frame : int32_at big s (offset + 1) ≡ ok (pos (4 + length f.payload))
    unfolding int32_at
    int32_at_frame =
        let l = length-append (network 4 (4 + length f.payload)) (f.payload ++ rest) in
        let enough : ltb (length (network 4 (4 + length f.payload) ++ (f.payload ++ rest))) 4
            ≡ false =
          ground (arith, l, length-network 4 (4 + length f.payload)) in
        rw
          (
            behind_kind,
            enough,
            read_int32-network big (4 + length f.payload) (f.payload ++ rest)
                (omega (arith, small)),
          )
          refl

    pub copy_at_frame : copy_at s offset (pos (4 + length f.payload)) ≡ ok (message_of f)
    unfolding copy_at
    copy_at_frame =
        let l = length-append (frame_bytes f) rest in
        let lf = length-frame_bytes f in
        let fits : ltb (4 + length f.payload + 1) (2 ^ 31) ≡ true = ground (arith, small) in
        let there : leb (4 + length f.payload + 1) (length (frame_bytes f ++ rest)) ≡ true =
          ground (arith, l, lf) in
        let cut : take (4 + length f.payload + 1) (frame_bytes f ++ rest) ≡ frame_bytes f =
          ap (λ (k : ℕ). take k (frame_bytes f ++ rest)) (omega (arith, lf))
          ∙ take-append (frame_bytes f) rest in
        rw (byte_at_frame, e, fits, there, cut) refl

    pub behind_frame : drop (offset + length (frame_bytes f)) s ≡ rest
    behind_frame = drop_behind s (frame_bytes f) rest offset e

    -- `pgvictoria_extract_message_offset` copies the frame at which the offset stands and returns the
    -- offset behind it.
    pub extract_message_offset_lem :
        offset + length (frame_bytes f) < 2 ^ 64
        → extract_message_offset big offset s ≡ ok (offset + length (frame_bytes f), message_of f)
    unfolding extract_message_offset advance_size
    extract_message_offset_lem h =
        let lf = length-frame_bytes f in
        let next : (offset + 1 + (4 + length f.payload) % 2 ^ 64) % 2 ^ 64
            ≡ offset + length (frame_bytes f) =
          omega (arith, lf, h) in
        rw (int32_at_frame, copy_at_frame, next) refl
