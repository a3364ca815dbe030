-- ===== src/Message/Requests/Startup.antt =====
-- The startup message, written and read again.
use pgvictoria.Prelude.{
  ℕ, ◌+◌, ◌-◌, ◌^◌, ◌<◌, ◌≡◌, ◌∙◌, refl, sym, ap, Bool, true, false, none, some, List, [], ◌∷◌,
  ◌++◌, pos, length, take, drop, take-append, drop-append, length-append, append_assoc, append-nil,
  All, arith,
}
use pgvictoria.Bytes.{Bytes, text, str_eq}
use pgvictoria.Utils.Wire.{write_int32}
use pgvictoria.Utils.Wire.Network.{network, length-network}
use pgvictoria.Message.{ok}
use pgvictoria.Message.Frames.{NoZero}
use pgvictoria.Message.Requests.{
  zeros, at, write_string, create_startup_message, cut_texts, Names, set_name, is_keyword,
  names_loop, or_username, extract_username_database,
}
use pgvictoria.Message.Requests.Filled.{
  drop-zeros, at_cong, at-append, fill_text, write_int32-network,
}

-- Texts with a 0 behind each.
abbrev pub texts_bytes : List Bytes → Bytes
texts_bytes [] = []
texts_bytes (t ∷ ts) = t ++ 0 ∷ texts_bytes ts

abbrev total : List Bytes → ℕ
total [] = 0
total (t ∷ ts) = length t + 1 + total ts

length-texts_bytes : (ts : List Bytes) → length (texts_bytes ts) ≡ total ts
length-texts_bytes [] = refl
length-texts_bytes (t ∷ ts) =
    omega (arith, length-append t (0 ∷ texts_bytes ts), length-texts_bytes ts)

texts_bytes-snoc :
    (ts : List Bytes) (t : Bytes) → texts_bytes (ts ++ t ∷ []) ≡ (texts_bytes ts ++ t) ++ 0 ∷ []
texts_bytes-snoc [] t = refl
texts_bytes-snoc (s ∷ ts) t =
    ap (λ (r : Bytes). s ++ 0 ∷ r)
      (texts_bytes-snoc ts t ∙ append_assoc (texts_bytes ts) t (0 ∷ []))
    ∙ sym (append_assoc s (0 ∷ texts_bytes ts) (t ++ 0 ∷ []))
    ∙ sym (append_assoc (s ++ 0 ∷ texts_bytes ts) t (0 ∷ []))

-- One text more behind those that are written.
next_text :
    (head : Bytes) (ts : List Bytes) (t : Bytes) (n m offset : ℕ) (data' : Bytes)
    → data' ≡ (head ++ texts_bytes ts) ++ zeros m
    → offset ≡ length head + total ts
    → m ≡ length t + 1 + n
    → at offset (write_string t) data' ≡ (head ++ texts_bytes (ts ++ t ∷ [])) ++ zeros n
next_text head ts t n m offset data' d e h =
    at_cong offset (write_string t) d
    ∙ fill_text (head ++ texts_bytes ts) t n m offset
        (omega (arith, e, length-append head (texts_bytes ts), length-texts_bytes ts)) h
    ∙ ap (λ (r : Bytes). (r ++ 0 ∷ []) ++ zeros n) (append_assoc head (texts_bytes ts) t)
    ∙ ap (λ (r : Bytes). r ++ zeros n) (append_assoc head (texts_bytes ts ++ t) (0 ∷ []))
    ∙ ap (λ (r : Bytes). (head ++ r) ++ zeros n) (sym (texts_bytes-snoc ts t))

abbrev head_of : ℕ → Bytes
head_of size = network 4 size ++ network 4 196608

length-head_of : (size : ℕ) → length (head_of size) ≡ 8
length-head_of size = omega (
  arith,
  length-append (network 4 size) (network 4 196608),
  length-network 4 size,
  length-network 4 196608,
)

head_written :
    (big : Bool) (n size : ℕ)
    → size ≡ 8 + n
    → size < 2 ^ 31
    → at 4 (write_int32 big (pos 196608)) (write_int32 big (pos size) (zeros size))
      ≡ head_of size ++ zeros n
head_written big n size e h =
    let first =
      write_int32-network big size (zeros size) h
      ∙ ap (λ (k : ℕ). network 4 size ++ drop 4 (zeros k)) (omega (arith, e))
      ∙ ap (λ (r : Bytes). network 4 size ++ r) (drop-zeros 4 (4 + n)) in
    at_cong 4 (write_int32 big (pos 196608)) first
    ∙ at-append (network 4 size) (zeros (4 + n)) (write_int32 big (pos 196608)) 4
        (sym (length-network 4 size))
    ∙ ap (λ (r : Bytes). network 4 size ++ r)
        (write_int32-network big 196608 (zeros (4 + n)) (omega arith)
          ∙ ap (λ (r : Bytes). network 4 196608 ++ r) (drop-zeros 4 n))
    ∙ sym (append_assoc (network 4 size) (network 4 196608) (zeros n))

-- The parameters of a startup message.
abbrev pub parameters : Bytes → Bytes → Bool → List Bytes
parameters u d false =
    text "user" ∷ u ∷ text "database" ∷ d ∷ text "application_name" ∷ text "pgvictoria" ∷ []
parameters u d true =
    text "user"
    ∷ u
    ∷ text "database"
    ∷ d
    ∷ text "application_name"
    ∷ text "pgvictoria"
    ∷ text "replication"
    ∷ text "1"
    ∷ []

module _ (big : Bool) (u d : Bytes) (hu : length u < 2 ^ 30) (hd : length d < 2 ^ 29) where
  module _ (size n : ℕ) (e : size ≡ 8 + (length u + length d + 44 + n)) (fits : size < 2 ^ 31) where
    six_texts :
        at (13 + length u + 1 + 9 + length d + 1 + 17) (write_string (text "pgvictoria")) (
          at (13 + length u + 1 + 9 + length d + 1) (write_string (text "application_name")) (
            at (13 + length u + 1 + 9) (write_string d) (
              at (13 + length u + 1) (write_string (text "database")) (
                at 13 (write_string u) (
                  at 8 (write_string (text "user")) (
                    at 4
                      (write_int32 big (pos 196608))
                      (write_int32 big (pos size) (zeros size))))))))
        ≡ (head_of size ++ texts_bytes (parameters u d false)) ++ zeros n
    six_texts =
        let h = length-head_of size in
        let d0 =
          head_written big (length u + length d + 44 + n) size e fits
          ∙ ap (λ (r : Bytes). r ++ zeros (length u + length d + 44 + n))
              (sym (append-nil (head_of size))) in
        let d1 =
          next_text (head_of size) [] (text "user") (length u + length d + 39 + n)
            (length u + length d + 44 + n) 8 _ d0 (omega (arith, h)) (omega arith) in
        let d2 =
          next_text (head_of size) (text "user" ∷ []) u (length d + 38 + n)
            (length u + length d + 39 + n) 13 _ d1 (omega (arith, h)) (omega arith) in
        let d3 =
          next_text (head_of size) (text "user" ∷ u ∷ []) (text "database") (length d + 29 + n)
            (length d + 38 + n) (13 + length u + 1) _ d2 (omega (arith, h)) (omega arith) in
        let d4 =
          next_text (head_of size) (text "user" ∷ u ∷ text "database" ∷ []) d (28 + n)
            (length d + 29 + n) (13 + length u + 1 + 9) _ d3 (omega (arith, h)) (omega arith) in
        let d5 =
          next_text (head_of size) (text "user" ∷ u ∷ text "database" ∷ d ∷ [])
            (text "application_name") (11 + n) (28 + n) (13 + length u + 1 + 9 + length d + 1) _ d4
            (omega (arith, h)) (omega arith) in
        next_text (head_of size)
          (text "user" ∷ u ∷ text "database" ∷ d ∷ text "application_name" ∷ []) (text "pgvictoria")
          n (11 + n) (13 + length u + 1 + 9 + length d + 1 + 17) _ d5 (omega (arith, h))
          (omega arith)

  startup_size : Bool → ℕ
  startup_size false = 53 + length u + length d
  startup_size true = 67 + length u + length d

  startup_bytes :
      (replication : Bool)
      → (create_startup_message big u d replication).data'
        ≡ (head_of (startup_size replication) ++ texts_bytes (parameters u d replication))
          ++ zeros 1
  unfolding create_startup_message startup_size
  startup_bytes false =
      let size = 4 + 4 + 4 + 1 + length u + 1 + 8 + 1 + length d + 1 + 17 + 11 + 1 in
      let same : size ≡ 53 + length u + length d = omega arith in
      six_texts size 1 (omega arith) (omega (arith, hu, hd))
      ∙ ap (λ (k : ℕ). (head_of k ++ texts_bytes (parameters u d false)) ++ zeros 1) same
  startup_bytes true =
      let size = 4 + 4 + 4 + 1 + length u + 1 + 8 + 1 + length d + 1 + 17 + 11 + 1 + 14 in
      let same : size ≡ 67 + length u + length d = omega arith in
      let h = length-head_of size in
      let off = 13 + length u + 1 + 9 + length d + 1 + 17 + 11 in
      let d6 = six_texts size 15 (omega arith) (omega (arith, hu, hd)) in
      let d7 =
        next_text (head_of size) (parameters u d false) (text "replication") 3 15 off _ d6
          (omega (arith, h)) (omega arith) in
      next_text (head_of size) (parameters u d false ++ text "replication" ∷ []) (text "1") 1 3
        (off + 12) _ d7 (omega (arith, h)) (omega arith)
      ∙ ap (λ (k : ℕ). (head_of k ++ texts_bytes (parameters u d true)) ++ zeros 1) same

cut_texts-text :
    (word t s : Bytes) → NoZero t → cut_texts word (t ++ 0 ∷ s) ≡ (word ++ t) ∷ cut_texts [] s
unfolding cut_texts
cut_texts-text word [] s h = rw (append-nil word) refl
cut_texts-text word (c ∷ t) s (h, hs) =
    rw (h, cut_texts-text (word ++ c ∷ []) t s hs, append_assoc word (c ∷ []) t) refl

cut_texts-texts_bytes : (ts : List Bytes) → All NoZero ts → cut_texts [] (texts_bytes ts) ≡ ts
cut_texts-texts_bytes [] h = unfold cut_texts in refl
cut_texts-texts_bytes (t ∷ ts) (h, hs) =
    cut_texts-text [] t (texts_bytes ts) h
    ∙ ap (λ (r : List Bytes). t ∷ r) (cut_texts-texts_bytes ts hs)

set_name-other : (k v : Bytes) (n : Names) → is_keyword k ≡ false → set_name k v n ≡ n
unfolding set_name is_keyword
set_name-other k v n h = ground (arith, h)

parameters-NoZero :
    (u d : Bytes)
    → NoZero u
    → NoZero d
    → (replication : Bool) → All NoZero (parameters u d replication)
parameters-NoZero u d zu zd false =
    (ground arith, (zu, (ground arith, (zd, (ground arith, (ground arith, tt))))))
parameters-NoZero u d zu zd true = (
  ground arith,
  (zu, (ground arith, (zd, (ground arith, (ground arith, (ground arith, (ground arith, tt))))))),
)

-- Between the head and the last byte stand the texts.
read_texts :
    (head : Bytes) (ts : List Bytes) (data' : Bytes)
    → length head ≡ 8
    → data' ≡ (head ++ texts_bytes ts) ++ zeros 1
    → All NoZero ts
    → cut_texts [] (take (length data' - 1 - 8) (drop 8 data')) ≡ ts
read_texts head ts data' l e h =
    let e' = e ∙ append_assoc head (texts_bytes ts) (zeros 1) in
    let behind : drop 8 data' ≡ texts_bytes ts ++ zeros 1 =
      ap (drop 8) e'
      ∙ ap (λ (k : ℕ). drop k (head ++ (texts_bytes ts ++ zeros 1))) (sym l)
      ∙ drop-append head (texts_bytes ts ++ zeros 1) in
    let one : length (zeros 1) ≡ 1 = unfold zeros in refl in
    let count : length data' - 1 - 8 ≡ length (texts_bytes ts) = omega (
      arith,
      ap (length {A = ℕ}) e',
      length-append head (texts_bytes ts ++ zeros 1),
      length-append (texts_bytes ts) (zeros 1),
      l,
      one,
    ) in
    rw (behind, count, take-append (texts_bytes ts) (zeros 1)) (cut_texts-texts_bytes ts h)

abbrev unnamed : Names
unnamed = record { username = none; database = none; appname = none }

abbrev named : Bytes → Bytes → Names
named u d = record { username = some u; database = some d; appname = some (text "pgvictoria") }

module _ (u d : Bytes) (ku : is_keyword u ≡ false) (kd : is_keyword d ≡ false) where
  user_kept :
      set_name u (text "database") (record unnamed { username = some u })
      ≡ record unnamed { username = some u }
  user_kept = set_name-other u (text "database") (record unnamed { username = some u }) ku

  database_kept :
      set_name d (text "application_name") (record unnamed { username = some u; database = some d })
      ≡ record unnamed { username = some u; database = some d }
  database_kept =
      set_name-other d (text "application_name")
        (record unnamed { username = some u; database = some d }) kd

  names_found :
      (replication : Bool) → names_loop unnamed (parameters u d replication) ≡ ok (named u d)
  unfolding names_loop set_name is_keyword str_eq
  names_found false = rw (user_kept, database_kept) refl
  names_found true = rw (user_kept, database_kept) refl

-- A user and a database whose names are shorter than 2^30 and 2^29 bytes, hold no 0 and are none of
-- the keywords: from the startup message that is written for them, with or without replication, both names are read again, and the name of
-- the application.
pub extract-create_startup :
    (big : Bool) (u d : Bytes) (replication : Bool)
    → length u < 2 ^ 30
    → length d < 2 ^ 29
    → NoZero u
    → NoZero d
    → is_keyword u ≡ false
    → is_keyword d ≡ false
    → extract_username_database (create_startup_message big u d replication)
      ≡ ok (record { username = some u; database = some d; appname = some (text "pgvictoria") })
unfolding extract_username_database
extract-create_startup big u d replication hu hd zu zd ku kd =
    let texts =
      read_texts (head_of (startup_size big u d hu hd replication)) (parameters u d replication)
        (create_startup_message big u d replication).data'
        (length-head_of (startup_size big u d hu hd replication))
        (startup_bytes big u d hu hd replication) (parameters-NoZero u d zu zd replication) in
    rw (texts, names_found u d ku kd replication) (unfold or_username in refl)
