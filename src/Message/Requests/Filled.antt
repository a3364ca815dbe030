-- ===== src/Message/Requests/Filled.antt =====
-- Buffers of zeros that are filled from the front.
use pgvictoria.Prelude.{
  ℕ, zero, suc, ◌+◌, ◌-◌, ◌%◌, ◌^◌, ◌<◌, ◌≡◌, ◌∙◌, refl, sym, ap, Bool, [], ◌∷◌, ◌++◌, pos, length,
  drop, take-append, drop-append, append_assoc, arith,
}
use pgvictoria.Bytes.{Bytes}
use pgvictoria.Utils.Wire.{store, write_int32, write_uint32}
use pgvictoria.Utils.Wire.Network.{network}
use pgvictoria.Utils.Wire.Integers.{write32, store-network}
use pgvictoria.Message.Requests.{zeros, at, write_byte, write_string, write_head}

pub drop-zeros : (k n : ℕ) → drop k (zeros (k + n)) ≡ zeros n
unfolding zeros
drop-zeros zero n = let e : 0 + n ≡ n = omega arith in rw e refl
drop-zeros (suc k) n = let e : suc k + n ≡ suc (k + n) = omega arith in rw e (drop-zeros k n)

pub at-append :
    (pre t : Bytes) (f : Bytes → Bytes) (offset : ℕ)
    → offset ≡ length pre
    → at offset f (pre ++ t) ≡ pre ++ f t
unfolding at
at-append pre t f offset e = rw (e, take-append pre t, drop-append pre t) refl

-- A text behind what is filled already.
pub fill :
    (pre s : Bytes) (n m offset : ℕ)
    → offset ≡ length pre
    → m ≡ length s + n
    → at offset (write_string s) (pre ++ zeros m) ≡ (pre ++ s) ++ zeros n
unfolding write_string store
fill pre s n m offset e h =
    at-append pre (zeros m) (write_string s) offset e
    ∙ ap (λ (k : ℕ). pre ++ (s ++ drop (length s) (zeros k))) h
    ∙ ap (λ (t : Bytes). pre ++ (s ++ t)) (drop-zeros (length s) n)
    ∙ sym (append_assoc pre s (zeros n))

-- A text, and the 0 that ends it, which is there already.
pub fill_text :
    (pre s : Bytes) (n m offset : ℕ)
    → offset ≡ length pre
    → m ≡ length s + 1 + n
    → at offset (write_string s) (pre ++ zeros m) ≡ ((pre ++ s) ++ 0 ∷ []) ++ zeros n
unfolding zeros
fill_text pre s n m offset e h =
    fill pre s (suc n) m offset e (omega (arith, h))
    ∙ sym (append_assoc (pre ++ s) (0 ∷ []) (zeros n))

pub write_int32-network :
    (big : Bool) (v : ℕ) (s : Bytes)
    → v < 2 ^ 31
    → write_int32 big (pos v) s ≡ network 4 v ++ drop 4 s
unfolding write_int32 write_uint32
write_int32-network big v s h =
    let e : v % 2 ^ 32 ≡ v = omega (arith, h) in rw e (write32 big v s ∙ store-network 4 v s)

pub at_cong : (offset : ℕ) (f : Bytes → Bytes) {s t : Bytes} → s ≡ t → at offset f s ≡ at offset f t
at_cong offset f e = ap (at offset f) e

kind_written :
    (kind n size : ℕ) → size ≡ 5 + n → write_byte kind (zeros size) ≡ (kind ∷ []) ++ zeros (4 + n)
unfolding write_byte store
kind_written kind n size e =
    let h : size ≡ 1 + (4 + n) = omega (arith, e) in
    ap (λ (k : ℕ). kind ∷ drop 1 (zeros k)) h ∙ ap (λ (t : Bytes). kind ∷ t) (drop-zeros 1 (4 + n))

pub write_head_lem :
    (big : Bool) (kind n size : ℕ)
    → size ≡ 5 + n
    → size < 2 ^ 31
    → write_head big kind size ≡ (kind ∷ network 4 (4 + n)) ++ zeros n
unfolding write_head
write_head_lem big kind n size e h =
    let word : size - 1 ≡ 4 + n = omega (arith, e) in
    at_cong 1 (write_int32 big (pos (size - 1))) (kind_written kind n size e)
    ∙ at-append (kind ∷ []) (zeros (4 + n)) (write_int32 big (pos (size - 1))) 1 refl
    ∙ ap (λ (k : ℕ). kind ∷ write_int32 big (pos k) (zeros (4 + n))) word
    ∙ ap (λ (t : Bytes). kind ∷ t)
        (write_int32-network big (4 + n) (zeros (4 + n)) (omega (arith, e, h))
          ∙ ap (λ (t : Bytes). network 4 (4 + n) ++ t) (drop-zeros 4 n))
