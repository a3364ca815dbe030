-- ===== src/Message/Response/Tuples.antt =====
-- The values of a row, and the walk that keeps the rows of a response.
use pgvictoria.Prelude.{
  ℕ, ◌+◌, ◌-◌, ◌^◌, ◌<◌, ◌≡◌, ◌∙◌, refl, sym, ap, Bool, true, false, ltb, leb, Option, none, some,
  [], ◌∷◌, ◌++◌, pos, negsuc, length, take, drop, drop_add, take-append, length-append,
  append_assoc, append-nil, All, arith, map,
}
use pgvictoria.Bytes.{Bytes}
use pgvictoria.Utils.Wire.{read_int32}
use pgvictoria.Utils.Wire.Network.{network, length-network, ntoh-network}
use pgvictoria.Message.{ok, int32_at}
use pgvictoria.Message.Frames.{
  frame_bytes, message_of, drop-network, drop_behind, read_int32-network,
}
use pgvictoria.Message.Response.{
  Tuple, copy_value, value_at, d_loop, create_D_tuple, create_C_tuple,
}
use pgvictoria.Message.Response.Encoded.{values_bytes, data_row, command_complete}

-- What the code keeps of a value: the empty text is kept as NULL.
abbrev pub seen : Option Bytes → Option Bytes
seen none = none
seen (some []) = none
seen (some (c ∷ s)) = some (c ∷ s)

abbrev pub IsValue : Option Bytes → Type 0
IsValue none = Unit
IsValue (some v) = length v < 2 ^ 31

module _ (big : Bool) where
  four_bytes : (v : ℕ) (t : Bytes) → ltb (length (network 4 v ++ t)) 4 ≡ false
  four_bytes v t = ground (arith, length-append (network 4 v) t, length-network 4 v)

  int32_at-network :
      (v : ℕ) (s t : Bytes) (offset : ℕ)
      → drop offset s ≡ network 4 v ++ t
      → v < 2 ^ 31
      → int32_at big s offset ≡ ok (pos v)
  unfolding int32_at
  int32_at-network v s t offset e h = rw (e, four_bytes v t, read_int32-network big v t h) refl

  int32_at-minus :
      (s t : Bytes) (offset : ℕ)
      → drop offset s ≡ network 4 4294967295 ++ t
      → int32_at big s offset ≡ ok (negsuc 0)
  unfolding int32_at read_int32
  int32_at-minus s t offset e =
      let cut : take 4 (network 4 4294967295 ++ t) ≡ network 4 4294967295 =
        ap (λ (k : ℕ). take k (network 4 4294967295 ++ t)) (sym (length-network 4 4294967295))
        ∙ take-append (network 4 4294967295) t in
      rw (e, four_bytes 4294967295 t, cut, ntoh-network big 4 4294967295 (omega arith)) refl

  copy_value-append :
      (s v t : Bytes) (offset : ℕ) → drop offset s ≡ v ++ t → copy_value s offset (length v) ≡ ok v
  copy_value-append s v t offset e =
      let there : leb (length v) (length (v ++ t)) ≡ true = ground (arith, length-append v t) in
      rw (e, there, take-append v t) refl

  value_at_lem :
      (v : Option Bytes) (vs : Tuple) (s rest : Bytes) (offset : ℕ)
      → IsValue v
      → drop offset s ≡ values_bytes (v ∷ vs) ++ rest
      → (next : ℕ) × (value_at big s offset ≡ ok (seen v, next))
        × (drop next s ≡ values_bytes vs ++ rest)
  unfolding value_at
  value_at_lem none vs s rest offset h e =
      let e' = e ∙ append_assoc (network 4 4294967295) (values_bytes vs) rest in
      (
        offset + 4,
        rw (int32_at-minus s (values_bytes vs ++ rest) offset e') refl,
        drop_add offset 4 s ∙ ap (drop 4) e' ∙ drop-network 4 4294967295 (values_bytes vs ++ rest),
      )
  value_at_lem (some []) vs s rest offset h e =
      let e' = e ∙ append_assoc (network 4 0) (values_bytes vs) rest in
      (
        offset + 4,
        rw (int32_at-network 0 s (values_bytes vs ++ rest) offset e' (omega arith)) refl,
        drop_add offset 4 s ∙ ap (drop 4) e' ∙ drop-network 4 0 (values_bytes vs ++ rest),
      )
  value_at_lem (some (c ∷ v)) vs s rest offset h e =
      let n = length (c ∷ v) in
      let e' =
        e
        ∙ append_assoc (network 4 n) ((c ∷ v) ++ values_bytes vs) rest
        ∙ ap (λ (l : Bytes). network 4 n ++ l) (append_assoc (c ∷ v) (values_bytes vs) rest) in
      let behind =
        drop_add offset 4 s
        ∙ ap (drop 4) e'
        ∙ drop-network 4 n ((c ∷ v) ++ (values_bytes vs ++ rest)) in
      (
        offset + 4 + n,
        rw
            (
              int32_at-network n s ((c ∷ v) ++ (values_bytes vs ++ rest)) offset e' h,
              copy_value-append s (c ∷ v) (values_bytes vs ++ rest) (offset + 4) behind,
            )
            refl,
        drop_behind s (c ∷ v) (values_bytes vs ++ rest) (offset + 4) behind,
      )

  d_loop_lem :
      (vs : Tuple) (s rest : Bytes) (offset : ℕ)
      → All IsValue vs
      → drop offset s ≡ values_bytes vs ++ rest
      → d_loop big (length vs) s offset ≡ ok (map seen vs)
  unfolding d_loop
  d_loop_lem [] s rest offset h e = refl
  d_loop_lem (v ∷ vs) s rest offset (h, hs) e =
      let (next, f, g) = value_at_lem v vs s rest offset h e in
      rw (f, d_loop_lem vs s rest next hs g) refl

  -- The values of a row that has as many of them as there are columns.
  pub create_D_tuple_lem :
      (vs : Tuple)
      → All IsValue vs
      → create_D_tuple big (pos (length vs)) (message_of (data_row vs)) ≡ ok (map seen vs)
  unfolding create_D_tuple frame_bytes
  create_D_tuple_lem vs h = d_loop_lem vs (frame_bytes (data_row vs)) [] 7 h (
      drop_add 5 2 (frame_bytes (data_row vs))
      ∙ ap (drop 2) (
          drop-network 4 (4 + length (network 2 (length vs) ++ values_bytes vs))
            (network 2 (length vs) ++ values_bytes vs))
      ∙ drop-network 2 (length vs) (values_bytes vs)
      ∙ sym (append-nil (values_bytes vs)))

  -- The text of a completed command.
  pub create_C_tuple_lem :
      (c : ℕ) (s : Bytes)
      → length s < 2 ^ 30
      → create_C_tuple big (message_of (command_complete (c ∷ s))) ≡ ok (some (c ∷ s) ∷ [])
  unfolding create_C_tuple frame_bytes
  create_C_tuple_lem c s h =
      let p = (c ∷ s) ++ 0 ∷ [] in
      let l : length p ≡ length s + 2 = omega (arith, length-append s (0 ∷ [])) in
      let data' = frame_bytes (command_complete (c ∷ s)) in
      let word = int32_at-network (4 + length p) data' p 1 refl (omega (arith, l, h)) in
      let long : ltb 5 (4 + length p) ≡ true = ground (arith, l) in
      let n : 4 + length p - 5 ≡ length (c ∷ s) = omega (arith, l) in
      let copied = copy_value-append data' (c ∷ s) (0 ∷ []) 5 (drop-network 4 (4 + length p) p) in
      rw (word, long, n, copied) refl
