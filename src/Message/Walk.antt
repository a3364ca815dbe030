-- ===== src/Message/Walk.antt =====
-- The loops of utils.c and message.c that walk over a row of messages.
use pgvictoria.Prelude.{
  ℕ, zero, suc, ◌+◌, ◌%◌, ◌^◌, ◌≤◌, ◌<◌, ◌≡◌, refl, Bool, true, false, Option, none, some, List, [],
  ◌∷◌, ◌++◌, ◌==◌, ltb, ◌||◌, if◌then◌else◌, ℤ, pos, negsuc, length, drop, length-append, All,
  arith, Bool-cases, inl, inr,
}
use pgvictoria.Bytes.{Bytes}
use pgvictoria.Utils.Wire.{read_int32, ntoh, from_memory, to_memory, from_le, le_bytes}
use pgvictoria.Message.{
  Message, Result, ok, out_of_fuel, advance_int, advance_size, int32_at, log_other, extract_loop,
  extract_message, extract_message_from_data, has_loop, has_message,
}
use pgvictoria.Message.Frames.{
  Frame, frame_bytes, frames_bytes, message_of, length-frame_bytes, byte_at_frame, int32_at_frame,
  copy_at_frame, behind_frame, extract_message_offset_lem,
}

-- The length of the frame is an `int`.
abbrev pub IsSmall : Frame → Type 0
IsSmall f = 5 + length f.payload < 2 ^ 31

-- The first message of a kind.
abbrev pub first_of : ℕ → List Frame → Option Message
first_of type [] = none
first_of type (f ∷ fs) = if f.kind == type then some (message_of f) else first_of type fs

abbrev pub is_sent : ℕ → List Frame → Bool
is_sent type [] = false
is_sent type (f ∷ fs) = f.kind == type || is_sent type fs

length-frames_bytes : (fs : List Frame) → length fs ≤ length (frames_bytes fs)
length-frames_bytes [] = omega arith
length-frames_bytes (f ∷ fs) = omega (
  arith,
  length-append (frame_bytes f) (frames_bytes fs),
  length-frame_bytes f,
  length-frames_bytes fs,
)

-- Past a frame, in an `int` and in a `size_t`.
abbrev Advances : (ℕ → ℤ → Result ℕ) → ℕ → Type 0
Advances advance limit =
    (offset k : ℕ) → offset + 1 + k < limit → advance offset (pos k) ≡ ok (offset + 1 + k)

advance_int-Advances : Advances advance_int (2 ^ 31)
unfolding advance_int
advance_int-Advances offset k h =
    let e : ltb (offset + 1 + k) (2 ^ 31) ≡ true = ground (arith, h) in rw e refl

advance_size-Advances : Advances advance_size (2 ^ 64)
unfolding advance_size
advance_size-Advances offset k h =
    let e : (offset + 1 + k % 2 ^ 64) % 2 ^ 64 ≡ offset + 1 + k = omega (arith, h) in rw e refl

module _ (big : Bool) (s : Bytes) where
  module _ (offset : ℕ) (f : Frame) (fs : List Frame)
      (e : drop offset s ≡ frame_bytes f ++ frames_bytes fs)
      (total : offset + length (frame_bytes f ++ frames_bytes fs) ≡ length s)
      (small : IsSmall f) where
    inside : ltb offset (length s) ≡ true
    inside =
        ground (arith, total, length-append (frame_bytes f) (frames_bytes fs), length-frame_bytes f)

    next_total : offset + 1 + (4 + length f.payload) + length (frames_bytes fs) ≡ length s
    next_total =
        omega (arith, total, length-append (frame_bytes f) (frames_bytes fs), length-frame_bytes f)

    next_rest : drop (offset + 1 + (4 + length f.payload)) s ≡ frames_bytes fs
    next_rest =
        let at : offset + 1 + (4 + length f.payload) ≡ offset + length (frame_bytes f) =
          omega (arith, length-frame_bytes f) in
        rw at (behind_frame big s offset f (frames_bytes fs) e small)

    log_other_lem : length s < 2 ^ 64 → (type : ℕ) → log_other big type offset s ≡ ok tt
    unfolding log_other
    log_other_lem h type =
        let bound : offset + length (frame_bytes f) < 2 ^ 64 =
          omega (arith, total, length-append (frame_bytes f) (frames_bytes fs), h) in
        rw (extract_message_offset_lem big s offset f (frames_bytes fs) e small bound)
          (ground arith)

  module _ (advance : ℕ → ℤ → Result ℕ) (limit : ℕ) (law : Advances advance limit)
      (bound : length s < limit) (size_t : length s < 2 ^ 64) where
    extract_loop_lem :
        (fuel type offset : ℕ) (fs : List Frame)
        → drop offset s ≡ frames_bytes fs
        → offset + length (frames_bytes fs) ≡ length s
        → length fs < fuel
        → All IsSmall fs
        → extract_loop big advance fuel type (length s) s offset ≡ ok (first_of type fs)
    unfolding extract_loop
    extract_loop_lem zero type offset fs e total enough small = absurd (omega arith)
    extract_loop_lem (suc fuel) type offset [] e total enough small =
        let past : ltb offset (length s) ≡ false = ground (arith, total) in rw past refl
    extract_loop_lem (suc fuel) type offset (f ∷ fs) e total enough (sm, sms) =
        let k = byte_at_frame big s offset f (frames_bytes fs) e in
        let i = int32_at_frame big s offset f (frames_bytes fs) e sm in
        let c = copy_at_frame big s offset f (frames_bytes fs) e sm in
        let t = next_total offset f fs e total sm in
        let step = law offset (4 + length f.payload) (omega (arith, t, bound)) in
        let rest =
          extract_loop_lem fuel type (offset + 1 + (4 + length f.payload)) fs
            (next_rest offset f fs e total sm) t (omega arith) sms in
        elim (Bool-cases (f.kind == type)) [
          | inl same ↦ rw (inside offset f fs e total sm, k, same, i, c) refl
          | inr other ↦
              rw
                (
                  inside offset f fs e total sm,
                  k,
                  other,
                  log_other_lem offset f fs e total sm size_t type,
                  i,
                  step,
                )
                rest
        ]

  module _ (size_t : length s < 2 ^ 64) where
    has_loop_lem :
        (fuel type offset : ℕ) (fs : List Frame)
        → drop offset s ≡ frames_bytes fs
        → offset + length (frames_bytes fs) ≡ length s
        → length fs < fuel
        → All IsSmall fs
        → has_loop big fuel type (length s) s offset ≡ ok (is_sent type fs)
    unfolding has_loop
    has_loop_lem zero type offset fs e total enough small = absurd (omega arith)
    has_loop_lem (suc fuel) type offset [] e total enough small =
        let past : ltb offset (length s) ≡ false = ground (arith, total) in rw past refl
    has_loop_lem (suc fuel) type offset (f ∷ fs) e total enough (sm, sms) =
        let k = byte_at_frame big s offset f (frames_bytes fs) e in
        let i = int32_at_frame big s offset f (frames_bytes fs) e sm in
        let t = next_total offset f fs e total sm in
        let bound : offset + length (frame_bytes f) < 2 ^ 64 =
          omega (arith, total, length-append (frame_bytes f) (frames_bytes fs), size_t) in
        let copied = extract_message_offset_lem big s offset f (frames_bytes fs) e sm bound in
        let step : (offset + 1 + (4 + length f.payload) % 2 ^ 64) % 2 ^ 64
            ≡ offset + 1 + (4 + length f.payload) =
          omega (arith, t, size_t) in
        let rest =
          has_loop_lem fuel type (offset + 1 + (4 + length f.payload)) fs
            (next_rest offset f fs e total sm) t (omega arith) sms in
        elim (Bool-cases (f.kind == type)) [
          | inl same ↦ rw (inside offset f fs e total sm, k, same, copied) (ground arith)
          | inr other ↦ rw (inside offset f fs e total sm, k, other, i, step) rest
        ]

pub enough_rounds : (fs : List Frame) → length fs < suc (length (frames_bytes fs))
enough_rounds fs = omega (arith, length-frames_bytes fs)

module _ (big : Bool) (type : ℕ) (fs : List Frame) (small : All IsSmall fs) where
  -- From a row of messages whose bytes are fewer than 2^31 in all, `pgvictoria_extract_message` copies the
  -- first one of the wanted kind; where there is none it says so.
  pub extract_message_lem :
      (kind : ℕ)
      → length (frames_bytes fs) < 2 ^ 31
      → extract_message big type (record { kind = kind; data' = frames_bytes fs })
        ≡ ok (first_of type fs)
  unfolding extract_message
  extract_message_lem kind h =
      extract_loop_lem big (frames_bytes fs) advance_int (2 ^ 31) advance_int-Advances h
        (omega (arith, h)) (suc (length (frames_bytes fs))) type 0 fs refl (omega arith)
        (enough_rounds fs) small

  -- In a buffer of fewer than 2^64 bytes that holds a row of messages, each shorter than 2^31 bytes,
  -- `pgvictoria_extract_message_from_data` copies the first message of the wanted kind, if there is
  -- one, and `pgvictoria_has_message` tells whether there is one.
  pub messages_found :
      length (frames_bytes fs) < 2 ^ 64
      → (extract_message_from_data big type (frames_bytes fs) (length (frames_bytes fs))
          ≡ ok (first_of type fs))
        × (has_message big type (frames_bytes fs) (length (frames_bytes fs)) ≡ ok (is_sent type fs))
  unfolding extract_message_from_data has_message
  messages_found h = (
    extract_loop_lem big (frames_bytes fs) advance_size (2 ^ 64) advance_size-Advances h h
        (suc (length (frames_bytes fs))) type 0 fs refl (omega arith) (enough_rounds fs) small,
    has_loop_lem big (frames_bytes fs) h (suc (length (frames_bytes fs))) type 0 fs refl
        (omega arith) (enough_rounds fs) small,
  )

-- The length word -1, in network order.
abbrev pub minus_one : Bytes
minus_one = 255 ∷ 255 ∷ 255 ∷ 255 ∷ []

minus_one_at :
    (big : Bool) (t : ℕ) (rest : Bytes) → int32_at big (t ∷ minus_one ++ rest) 1 ≡ ok (negsuc 0)
unfolding int32_at read_int32 ntoh from_memory to_memory from_le le_bytes
minus_one_at true t rest =
    let e : ltb (length (minus_one ++ rest)) 4 ≡ false = ground arith in rw e refl
minus_one_at false t rest =
    let e : ltb (length (minus_one ++ rest)) 4 ≡ false = ground arith in rw e refl

-- A message at the front whose length word is -1 and that is not of the wanted kind is never passed: after any
-- number of rounds `pgvictoria_has_message` is still at it.
pub has_message_stays :
    (big : Bool) (type t : ℕ) (rest : Bytes)
    → (t == type) ≡ false
    → (fuel : ℕ) → has_loop big fuel type (5 + length rest) (t ∷ minus_one ++ rest) 0 ≡ out_of_fuel
unfolding has_loop
has_message_stays big type t rest other zero = refl
has_message_stays big type t rest other (suc fuel) =
    let inside : ltb 0 (5 + length rest) ≡ true = ground arith in
    let word : int32_at big (t ∷ minus_one ++ rest) 1 ≡ ok (negsuc 0) = minus_one_at big t rest in
    let stay : advance_size 0 (negsuc 0) ≡ ok 0 = unfold advance_size in refl in
    rw (inside, other, word) (has_message_stays big type t rest other fuel)
