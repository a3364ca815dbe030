-- ===== src/Message.antt =====
-- Messages of the protocol between client and server: their framing, in utils.c and message.c. The
-- bytes behind a pointer are a list, a `char` is its byte, and the length of a message is the number
-- of the bytes of its data. A read outside those bytes is undefined. `big` is the byte order of the
-- machine.
mod Frames
mod Walk
mod Response
mod Errors
mod Requests
mod Tests
use pgvictoria.Prelude.{
  ℕ, zero, suc, ◌+◌, ◌-◌, ◌%◌, ◌^◌, Bool, true, false, Option, none, some, List, [], ◌∷◌, ◌++◌,
  ◌==◌, ltb, leb, ◌&&◌, if◌then◌else◌, ℤ, pos, negsuc, bits, length, take, drop, get_or,
}
use pgvictoria.Bytes.{Bytes}
use pgvictoria.Utils.Wire.{read_int32}

-- struct message
pub record Message : Type 0 where
  pub kind : ℕ
  pub data' : Bytes

-- What a run of the code gives.
pub data Result (A : Type 0) : Type 0 where
  ok : A → Result A
  undefined : Result A
  out_of_fuel : Result A

module _ {A B : Type 0} where
  infixl 5 ◌>>=◌ ◌>>◌
  abbrev pub ◌>>=◌ : Result A → (A → Result B) → Result B
  ok a >>= k = k a
  undefined >>= k = undefined
  out_of_fuel >>= k = out_of_fuel

  abbrev pub ◌>>◌ : Result A → Result B → Result B
  m >> n = m >>= λ _. n

abbrev head_or_undefined : Bytes → Result ℕ
head_or_undefined [] = undefined
head_or_undefined (c ∷ s) = ok c

unfoldable pub byte_at : Bytes → ℕ → Result ℕ
byte_at s offset = head_or_undefined (drop offset s)

unfoldable pub c_string : Bytes → Result Bytes
c_string [] = undefined
c_string (c ∷ s) = let more = (do r ← c_string s; ok (c ∷ r)) in if c == 0 then ok [] else more

-- The 0-terminated text at an offset.
unfoldable pub string_at : Bytes → ℕ → Result Bytes
unfolding c_string
string_at s offset = c_string (drop offset s)

-- Where the next message begins: `offset += 1; offset += n`, in an `int` and in a `size_t`.
unfoldable pub advance_int : ℕ → ℤ → Result ℕ
advance_int offset (pos n) =
    if ltb (offset + 1 + n) (2 ^ 31) then ok (offset + 1 + n) else undefined
advance_int offset (negsuc n) = if leb n offset then ok (offset - n) else undefined

unfoldable pub advance_size : ℕ → ℤ → Result ℕ
advance_size offset n = ok ((offset + 1 + bits 64 n) % 2 ^ 64)

-- The memcpy of `1 + m_length` bytes at `offset`; a copy of no byte, or of a negative number of
-- them, counts as undefined.
unfoldable pub copy_at : Bytes → ℕ → ℤ → Result Message
unfolding byte_at
copy_at s offset (negsuc n) = undefined
copy_at s offset (pos n) = do
  t ← byte_at s offset
  if ltb (n + 1) (2 ^ 31) && leb (n + 1) (length (drop offset s))
      then ok (record { kind = t; data' = take (n + 1) (drop offset s) })
      else undefined

module _ (big : Bool) where
  unfoldable pub int32_at : Bytes → ℕ → Result ℤ
  unfolding read_int32
  int32_at s offset =
      if ltb (length (drop offset s)) 4 then undefined else ok (read_int32 big (drop offset s))

  -- The message at `offset`, with the offset behind it, in a `size_t`.
  unfoldable pub extract_message_offset : ℕ → Bytes → Result (ℕ × Message)
  unfolding int32_at copy_at advance_size
  extract_message_offset offset s = do
    n ← int32_at s (offset + 1)
    m ← copy_at s offset n
    next ← advance_size offset n
    ok (next, m)

  -- Where notices are wanted, each other message is copied for the log.
  unfoldable pub log_other : ℕ → ℕ → Bytes → Result (Unit {0})
  unfolding extract_message_offset
  log_other type offset s = if type == b'N' then extract_message_offset offset s >> ok tt else ok tt

  -- The loop over the messages: the first one of the wanted type.
  unfoldable pub extract_loop : (ℕ → ℤ → Result ℕ) → ℕ → ℕ → ℕ → Bytes → ℕ → Result (Option Message)
  unfolding byte_at int32_at copy_at log_other
  extract_loop advance zero type size s offset = out_of_fuel
  extract_loop advance (suc fuel) type size s offset =
      let here = (do n ← int32_at s (offset + 1); m ← copy_at s offset n; ok (some m)) in
      let there = (do
        log_other type offset s
        n ← int32_at s (offset + 1)
        next ← advance offset n
        extract_loop advance fuel type size s next) in
      let found = (do t ← byte_at s offset; if t == type then here else there) in
      if ltb offset size then found else ok none

  -- One round for each byte, and one more.
  unfoldable pub extract_message : ℕ → Message → Result (Option Message)
  unfolding extract_loop advance_int
  extract_message type msg =
      extract_loop advance_int (suc (length msg.data')) type (length msg.data') msg.data' 0

  unfoldable pub extract_message_from_data : ℕ → Bytes → ℕ → Result (Option Message)
  unfolding extract_loop advance_size
  extract_message_from_data type s size = extract_loop advance_size (suc size) type size s 0

  -- The loop of `pgvictoria_has_message`, which copies an error that it finds for the log.
  unfoldable pub has_loop : ℕ → ℕ → ℕ → Bytes → ℕ → Result Bool
  unfolding byte_at int32_at extract_message_offset advance_size
  has_loop zero type size s offset = out_of_fuel
  has_loop (suc fuel) type size s offset =
      let here = if type == b'E' then extract_message_offset offset s >> ok true else ok true in
      let there = (do
        n ← int32_at s (offset + 1)
        next ← advance_size offset n
        has_loop fuel type size s next) in
      let found = (do t ← byte_at s offset; if t == type then here else there) in
      if ltb offset size then found else ok false

  unfoldable pub has_message : ℕ → Bytes → ℕ → Result Bool
  unfolding has_loop
  has_message type s size = has_loop (suc size) type size s 0
