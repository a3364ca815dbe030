-- ===== src/Utils/Wire.antt =====
-- The readers and writers of integers in network byte order of utils.c. `data` is the list of the
-- bytes that it points to. The machine's byte order is the Boolean `big`, which is what
-- `pgvictoria_bigendian` returns; nothing depends on it in the end.
pub mod Network
pub mod Integers
use pgvictoria.Prelude.{
  ℕ, zero, suc, ◌+◌, ◌-◌, ◌*◌, ◌/◌, ◌%◌, ◌^◌, Bool, true, false, not, List, [], ◌∷◌, ◌++◌, ltb, leb,
  ◌==◌, if◌then◌else◌, ℤ, pos, negsuc, signed, bits, length, take, drop, get_or, reverse,
}
use pgvictoria.Bytes.{Bytes}

-- The n bytes of a word, the least significant one first.
unfoldable pub le_bytes : ℕ → ℕ → Bytes
le_bytes zero v = []
le_bytes (suc n) v = v % 256 ∷ le_bytes n (v / 256)

unfoldable pub from_le : Bytes → ℕ
from_le [] = 0
from_le (b ∷ s) = b + 256 * from_le s

-- A word of n bytes in memory, and back.
unfoldable pub to_memory : Bool → ℕ → ℕ → Bytes
unfolding le_bytes
to_memory big n v = if big then reverse (le_bytes n v) else le_bytes n v

unfoldable pub from_memory : Bool → Bytes → ℕ
unfolding from_le
from_memory big s = if big then from_le (reverse s) else from_le s

-- htons, htonl, ntohs and ntohl: the word whose bytes in memory are those of `v` in network order.
unfoldable pub hton : Bool → ℕ → ℕ → ℕ
unfolding from_memory le_bytes
hton big n v = from_memory big (reverse (le_bytes n v))

unfoldable pub ntoh : Bool → ℕ → ℕ → ℕ
unfolding to_memory from_le
ntoh big n v = from_le (reverse (to_memory big n v))

-- memcpy(data, src, n), for an `src` of n bytes
unfoldable pub store : Bytes → Bytes → Bytes
store src data' = src ++ drop (length src) data'

module _ (big : Bool) where
  -- pgvictoria_read_uint16, pgvictoria_read_uint32
  unfoldable pub read_uint16 : Bytes → ℕ
  unfolding from_memory ntoh
  read_uint16 s = ntoh big 2 (from_memory big (take 2 s))

  unfoldable pub read_uint32 : Bytes → ℕ
  unfolding from_memory ntoh
  read_uint32 s = ntoh big 4 (from_memory big (take 4 s))

  -- The signed readers return the same bits.
  unfoldable pub read_int16 : Bytes → ℤ
  unfolding from_memory ntoh
  read_int16 s = signed 16 (ntoh big 2 (from_memory big (take 2 s)))

  unfoldable pub read_int32 : Bytes → ℤ
  unfolding from_memory ntoh
  read_int32 s = signed 32 (ntoh big 4 (from_memory big (take 4 s)))

  -- The bytes shifted into place: no two of them share a bit, so `|` is `+`. On a big-endian machine
  -- the value is copied as it stands.
  unfoldable pub read_uint64 : Bytes → ℕ
  unfolding from_memory
  read_uint64 s =
      if big
      then from_memory true (take 8 s)
      else get_or s 0 0 * 2 ^ 56
        + get_or s 1 0 * 2 ^ 48
        + get_or s 2 0 * 2 ^ 40
        + get_or s 3 0 * 2 ^ 32
        + get_or s 4 0 * 2 ^ 24
        + get_or s 5 0 * 2 ^ 16
        + get_or s 6 0 * 2 ^ 8
        + get_or s 7 0

  unfoldable pub read_int64 : Bytes → ℤ
  unfolding read_uint64
  read_int64 s = signed 64 (read_uint64 s)

  unfoldable pub write_uint16 : ℕ → Bytes → Bytes
  unfolding hton to_memory store
  write_uint16 i = store (to_memory big 2 (hton big 2 i))

  unfoldable pub write_uint32 : ℕ → Bytes → Bytes
  unfolding hton to_memory store
  write_uint32 i = store (to_memory big 4 (hton big 4 i))

  unfoldable pub write_int16 : ℤ → Bytes → Bytes
  unfolding hton to_memory store
  write_int16 i = store (to_memory big 2 (hton big 2 (bits 16 i)))

  unfoldable pub write_int32 : ℤ → Bytes → Bytes
  unfolding hton to_memory store
  write_int32 i = store (to_memory big 4 (hton big 4 (bits 32 i)))

  -- out[7 - k] = ptr[k] on a little-endian machine, a copy on a big-endian one
  unfoldable pub write_uint64 : ℕ → Bytes → Bytes
  unfolding to_memory store
  write_uint64 i = if big then store (to_memory true 8 i) else store (reverse (to_memory false 8 i))

  unfoldable pub write_int64 : ℤ → Bytes → Bytes
  unfolding write_uint64
  write_int64 i = write_uint64 (bits 64 i)

-- pgvictoria_get_aligned_size, in a `size_t`
unfoldable pub get_aligned_size : ℕ → ℕ
get_aligned_size size =
    let blocks = if size % 512 == 0 then size / 512 else size / 512 + 1 in blocks * 512 % 2 ^ 64
