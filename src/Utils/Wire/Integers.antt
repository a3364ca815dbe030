-- ===== src/Utils/Wire/Integers.antt =====
-- The readers and writers of integers together, and the rounding of sizes.
use pgvictoria.Prelude.{
  ℕ, ◌+◌, ◌-◌, ◌%◌, ◌^◌, ◌≤◌, ◌<◌, ◌≡◌, ◌∙◌, refl, ap, Bool, true, false, ◌++◌, ℤ, pos, negsuc,
  signed, bits, drop, reverse-reverse, arith,
}
use pgvictoria.Bytes.{Bytes}
use pgvictoria.Utils.Wire.{
  le_bytes, to_memory, from_memory, store, read_uint16, read_uint32, read_int16, read_int32,
  read_uint64, read_int64, write_uint16, write_uint32, write_int16, write_int32, write_uint64,
  write_int64, get_aligned_size,
}
use pgvictoria.Utils.Wire.Network.{
  network, length-network, hton-network, ntoh-network, take-network, from_le-le_bytes,
}

-- `pgvictoria_get_aligned_size` returns the least multiple of 512 that is not below its argument,
-- unless that passes the range of `size_t`.
get_aligned_size_lem :
    (size : ℕ)
    → size ≤ 2 ^ 64 - 512
    → (get_aligned_size size % 512 ≡ 0)
      × (size ≤ get_aligned_size size)
      × (get_aligned_size size < size + 512)
unfolding get_aligned_size
get_aligned_size_lem size h = ground arith

pub store-network :
    (n v : ℕ) (data' : Bytes) → store (network n v) data' ≡ network n v ++ drop n data'
unfolding store
store-network n v data' = ap (λ (k : ℕ). network n v ++ drop k data') (length-network n v)

write16 :
    (big : Bool) (v : ℕ) (data' : Bytes) → write_uint16 big v data' ≡ store (network 2 v) data'
unfolding write_uint16
write16 big v data' = ap (λ (s : Bytes). store s data') (hton-network big 2 v)

pub write32 :
    (big : Bool) (v : ℕ) (data' : Bytes) → write_uint32 big v data' ≡ store (network 4 v) data'
unfolding write_uint32
write32 big v data' = ap (λ (s : Bytes). store s data') (hton-network big 4 v)

write64 :
    (big : Bool) (v : ℕ) (data' : Bytes) → write_uint64 big v data' ≡ store (network 8 v) data'
unfolding write_uint64 network to_memory
write64 true v data' = refl
write64 false v data' = refl

read64_little :
    (v : ℕ) (data' : Bytes) → v < 2 ^ 64 → read_uint64 false (store (network 8 v) data') ≡ v
unfolding read_uint64 store network le_bytes
read64_little v data' h = omega arith

read64 :
    (big : Bool) (v : ℕ) (data' : Bytes)
    → v < 2 ^ 64
    → read_uint64 big (store (network 8 v) data') ≡ v
read64 true v data' h =
    unfold read_uint64 in
    rw (take-network 8 v data')
      (unfold from_memory network in rw reverse-reverse (from_le-le_bytes 8 v h))
read64 false v data' h = read64_little v data' h

-- On a machine of either byte order the 16-bit, 32-bit and 64-bit unsigned writers put the value at
-- the front of the buffer in network order and leave the bytes behind it alone, and the reader of
-- the same width gets the value back.
pub read-write_unsigned :
    (big : Bool) (a b c : ℕ) (data' : Bytes)
    → a < 2 ^ 16
    → b < 2 ^ 32
    → c < 2 ^ 64
    → ((write_uint16 big a data' ≡ network 2 a ++ drop 2 data')
        × (read_uint16 big (write_uint16 big a data') ≡ a))
      × ((write_uint32 big b data' ≡ network 4 b ++ drop 4 data')
          × (read_uint32 big (write_uint32 big b data') ≡ b))
      × ((write_uint64 big c data' ≡ network 8 c ++ drop 8 data')
          × (read_uint64 big (write_uint64 big c data') ≡ c))
read-write_unsigned big a b c data' ha hb hc = (
  (
    write16 big a data' ∙ store-network 2 a data',
    unfold read_uint16 in
        rw (write16 big a data', take-network 2 a data') (ntoh-network big 2 a ha),
  ),
  (
    write32 big b data' ∙ store-network 4 b data',
    unfold read_uint32 in
        rw (write32 big b data', take-network 4 b data') (ntoh-network big 4 b hb),
  ),
  (write64 big c data' ∙ store-network 8 c data', rw (write64 big c data') (read64 big c data' hc)),
)

-- An integer of w bits.
abbrev pub InRange : ℕ → ℤ → Type 0
InRange w (pos n) = n < 2 ^ (w - 1)
InRange w (negsuc n) = n < 2 ^ (w - 1)

signed-bits16 : (a : ℤ) → InRange 16 a → (signed 16 (bits 16 a) ≡ a) × (bits 16 a < 2 ^ 16)
signed-bits16 (pos n) h = (ground arith, omega arith)
signed-bits16 (negsuc n) h = (ground arith, omega arith)

signed-bits32 : (a : ℤ) → InRange 32 a → (signed 32 (bits 32 a) ≡ a) × (bits 32 a < 2 ^ 32)
signed-bits32 (pos n) h = (ground arith, omega arith)
signed-bits32 (negsuc n) h = (ground arith, omega arith)

signed-bits64 : (a : ℤ) → InRange 64 a → (signed 64 (bits 64 a) ≡ a) × (bits 64 a < 2 ^ 64)
signed-bits64 (pos n) h = (ground arith, omega arith)
signed-bits64 (negsuc n) h = (ground arith, omega arith)

signed_back : (w : ℕ) {n m : ℕ} {a : ℤ} → n ≡ m → signed w m ≡ a → signed w n ≡ a
signed_back w e h = ap (signed w) e ∙ h

-- The signed writers and readers of each width are inverse on the integers of that width.
pub read-write_signed :
    (big : Bool) (a b c : ℤ) (data' : Bytes)
    → InRange 16 a
    → InRange 32 b
    → InRange 64 c
    → (read_int16 big (write_int16 big a data') ≡ a)
      × (read_int32 big (write_int32 big b data') ≡ b)
      × (read_int64 big (write_int64 big c data') ≡ c)
read-write_signed big a b c data' ha hb hc =
    let sa = signed-bits16 a ha in
    let sb = signed-bits32 b hb in
    let sc = signed-bits64 c hc in
    let u = read-write_unsigned big (bits 16 a) (bits 32 b) (bits 64 c) data' sa.1 sb.1 sc.1 in
    (
      (unfold read_int16 write_int16 read_uint16 write_uint16 in signed_back 16 u.0.1 sa.0),
      (unfold read_int32 write_int32 read_uint32 write_uint32 in signed_back 32 u.1.1 sb.0),
      (unfold read_int64 write_int64 read_uint64 write_uint64 in signed_back 64 u.2.1 sc.0),
    )
