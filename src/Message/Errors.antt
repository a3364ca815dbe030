-- ===== src/Message/Errors.antt =====
-- The fields of an error, in utils.c.
use pgvictoria.Prelude.{
  ℕ, zero, suc, ◌+◌, ◌<◌, ◌≡◌, ◌∙◌, refl, ap, true, false, ltb, Option, none, some, List, [], ◌∷◌,
  ◌++◌, ◌==◌, if◌then◌else◌, length, drop, drop_add, drop-append, length-drop, length-append, All,
  arith,
}
use pgvictoria.Bytes.{Bytes}
use pgvictoria.Message.{Message, Result, ok, out_of_fuel, ◌>>=◌, byte_at, string_at}
use pgvictoria.Message.Frames.{
  Frame, frame_bytes, message_of, length-frame_bytes, NoZero, c_string-text, drop-network,
}

unfoldable pub fields_loop : ℕ → ℕ → Bytes → ℕ → Result (Option Bytes)
unfolding byte_at string_at
fields_loop zero type s offset = out_of_fuel
fields_loop (suc fuel) type s offset =
    let field = (do
      t ← byte_at s offset
      let text = (do
        v ← string_at s (offset + 1)
        let rest = fields_loop fuel type s (offset + 1 + (length v + 1))
        if type == t then ok (some v) else rest)
      if t == 0 then ok none else text) in
    if ltb offset (length s) then field else ok none

-- `none` is the status 1. One round for each byte, and one more.
unfoldable pub extract_error_fields : ℕ → Message → Result (Option Bytes)
unfolding fields_loop
extract_error_fields type msg =
    let found = fields_loop (suc (length msg.data')) type msg.data' 5 in
    if msg.kind == b'E' then found else ok none

-- The fields of an error: a type and a text each, and a 0 behind the last one.
abbrev pub fields_bytes : List (ℕ × Bytes) → Bytes
fields_bytes [] = 0 ∷ []
fields_bytes ((t, v) ∷ fs) = t ∷ (v ++ 0 ∷ fields_bytes fs)

abbrev pub error_response : List (ℕ × Bytes) → Frame
error_response fs = record { kind = b'E'; payload = fields_bytes fs }

abbrev pub IsField : ℕ × Bytes → Type 0
IsField (t, v) = ((t == 0) ≡ false) × NoZero v

abbrev pub first_field : ℕ → List (ℕ × Bytes) → Option Bytes
first_field type [] = none
first_field type ((t, v) ∷ fs) = if type == t then some v else first_field type fs

length-fields_bytes : (fs : List (ℕ × Bytes)) → length fs < length (fields_bytes fs)
length-fields_bytes [] = omega arith
length-fields_bytes ((t, v) ∷ fs) =
    omega (arith, length-append v (0 ∷ fields_bytes fs), length-fields_bytes fs)

inside :
    (s : Bytes) (offset c : ℕ) (t : Bytes) → drop offset s ≡ c ∷ t → ltb offset (length s) ≡ true
inside s offset c t e = ground (arith, length-drop offset s, ap (length {A = ℕ}) e)

fields_loop_lem :
    (fuel type : ℕ) (s : Bytes) (offset : ℕ) (fs : List (ℕ × Bytes))
    → All IsField fs
    → drop offset s ≡ fields_bytes fs
    → length fs < fuel
    → fields_loop fuel type s offset ≡ ok (first_field type fs)
unfolding fields_loop
fields_loop_lem zero type s offset fs h e enough = absurd (omega arith)
fields_loop_lem (suc fuel) type s offset [] h e enough = rw (inside s offset 0 [] e, e) refl
fields_loop_lem (suc fuel) type s offset ((t, v) ∷ fs) ((nz, text), hs) e enough =
    let behind : drop (offset + 1) s ≡ v ++ 0 ∷ fields_bytes fs =
      drop_add offset 1 s ∙ ap (drop 1) e in
    let next : drop (offset + 1 + (length v + 1)) s ≡ fields_bytes fs =
      drop_add (offset + 1) (length v + 1) s
      ∙ ap (drop (length v + 1)) behind
      ∙ drop_add (length v) 1 (v ++ 0 ∷ fields_bytes fs)
      ∙ ap (drop 1) (drop-append v (0 ∷ fields_bytes fs)) in
    let rest = fields_loop_lem fuel type s (offset + 1 + (length v + 1)) fs hs next (omega arith) in
    rw
      (
        inside s offset t (v ++ 0 ∷ fields_bytes fs) e,
        e,
        nz,
        behind,
        c_string-text v (fields_bytes fs) text,
        rest,
      )
      (ground arith)

-- From an error as the server sends it, whose fields have a type that is not 0 and a text with no 0, `pgvictoria_extract_error_fields` gets the text of the first
-- field of the wanted type, and nothing where there is none.
pub extract_error_fields_lem :
    (type : ℕ) (fs : List (ℕ × Bytes))
    → All IsField fs
    → extract_error_fields type (message_of (error_response fs)) ≡ ok (first_field type fs)
unfolding extract_error_fields frame_bytes
extract_error_fields_lem type fs h =
    fields_loop_lem (suc (length (frame_bytes (error_response fs)))) type
      (frame_bytes (error_response fs)) 5 fs h
      (drop-network 4 (4 + length (fields_bytes fs)) (fields_bytes fs))
      (omega (arith, length-frame_bytes (error_response fs), length-fields_bytes fs))
