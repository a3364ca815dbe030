-- ===== src/Utils/Wire/Network.antt =====
-- Words in memory in either byte order, and in network order.
use pgvictoria.Prelude.{
  ℕ, zero, suc, ◌+◌, ◌*◌, ◌/◌, ◌%◌, ◌^◌, ◌<◌, ◌≡◌, ◌∙◌, refl, sym, ap, Bool, true, false, List, [],
  ◌∷◌, ◌++◌, length, take, drop, reverse, reverse-reverse, arith, length-append, reverse-append,
  All,
}
use native.Mathlib.Nat.{pow-suc}
use pgvictoria.Bytes.{Bytes}
use pgvictoria.Bytes.Trim.{All-reverse}
use pgvictoria.Utils.Wire.{le_bytes, from_le, to_memory, from_memory, hton, ntoh, store}

abbrev IsByte : ℕ → Type 0
IsByte b = b < 256

pub from_le-le_bytes : (n v : ℕ) → v < 256 ^ n → from_le (le_bytes n v) ≡ v
unfolding from_le le_bytes
from_le-le_bytes zero v h = omega arith
from_le-le_bytes (suc n) v h =
    let h' : v < 256 ^ n * 256 = rw pow-suc at h in
    omega (arith, from_le-le_bytes n (v / 256) (omega arith))

le_bytes-from_le : (s : Bytes) → All IsByte s → le_bytes (length s) (from_le s) ≡ s
unfolding from_le le_bytes
le_bytes-from_le [] h = refl
le_bytes-from_le (b ∷ s) h =
    let q : (b + 256 * from_le s) / 256 ≡ from_le s = omega (arith, h.0) in
    let r : (b + 256 * from_le s) % 256 ≡ b = omega (arith, h.0) in
    rw (q, r) (ap (λ (t : Bytes). b ∷ t) (le_bytes-from_le s h.1))

pub length-le_bytes : (n v : ℕ) → length (le_bytes n v) ≡ n
unfolding le_bytes
length-le_bytes zero v = refl
length-le_bytes (suc n) v = ap suc (length-le_bytes n (v / 256))

le_bytes-IsByte : (n v : ℕ) → All IsByte (le_bytes n v)
unfolding le_bytes
le_bytes-IsByte zero v = tt
le_bytes-IsByte (suc n) v = (omega arith, le_bytes-IsByte n (v / 256))

length-reverse {ℓ} : {A : Type ℓ} (s : List A) → length (reverse s) ≡ length s
length-reverse [] = refl
length-reverse (x ∷ s) =
    ap length (reverse-append (x ∷ []) s)
    ∙ omega (arith, length-append (reverse s) (x ∷ []), length-reverse s)

-- A word in network order.
unfoldable pub network : ℕ → ℕ → Bytes
network n v = reverse (le_bytes n v)

pub length-network : (n v : ℕ) → length (network n v) ≡ n
unfolding network
length-network n v = length-reverse (le_bytes n v) ∙ length-le_bytes n v

pub network-IsByte : (n v : ℕ) → All IsByte (network n v)
unfolding network
network-IsByte n v = All-reverse IsByte (le_bytes n v) (le_bytes-IsByte n v)

-- Bytes to a word and back.
pub to_memory-from_memory :
    (big : Bool) (n : ℕ) (s : Bytes)
    → All IsByte s
    → length s ≡ n
    → to_memory big n (from_memory big s) ≡ s
unfolding to_memory from_memory
to_memory-from_memory true n s h e =
    rw (← e, ← length-reverse s, le_bytes-from_le (reverse s) (All-reverse IsByte s h))
      (reverse-reverse s)
to_memory-from_memory false n s h e = rw (← e) (le_bytes-from_le s h)

pub hton-network : (big : Bool) (n v : ℕ) → to_memory big n (hton big n v) ≡ network n v
unfolding hton network
hton-network big n v =
    to_memory-from_memory big n (network n v) (network-IsByte n v) (length-network n v)

pub ntoh-network :
    (big : Bool) (n v : ℕ) → v < 256 ^ n → ntoh big n (from_memory big (network n v)) ≡ v
unfolding ntoh
ntoh-network big n v h =
    rw (to_memory-from_memory big n (network n v) (network-IsByte n v) (length-network n v))
      (unfold network in rw reverse-reverse (from_le-le_bytes n v h))

take-store : (src data' : Bytes) → take (length src) (store src data') ≡ src
unfolding store
take-store src data' = go src (drop (length src) data')
  where
    go : (s t : Bytes) → take (length s) (s ++ t) ≡ s
    go [] t = refl
    go (x ∷ s) t = ap (λ (r : Bytes). x ∷ r) (go s t)

pub take-network : (n v : ℕ) (data' : Bytes) → take n (store (network n v) data') ≡ network n v
take-network n v data' =
    ap (λ (k : ℕ). take k (store (network n v) data')) (sym (length-network n v))
    ∙ take-store (network n v) data'
