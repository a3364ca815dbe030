-- ===== src/Utf8/Tests.antt =====
-- Runs of utf8.c on short texts.
use pgvictoria.Prelude.{ℕ, ◌≡◌, ◌↔◌, refl, true, false, some, List, [], ◌∷◌, arith, All}
use pgvictoria.Bytes.{Bytes}
use pgvictoria.Utf8.{valid, valid_loop, next_sequence, sequence_length, sequence_valid, char_length}
use pgvictoria.Utf8.Spec.{IsScalar, encode, encode_all}
use pgvictoria.Utf8.Scan.{valid_iff}
use pgvictoria.Utf8.Count.{char_length-encode_all}

-- é, then €
abbrev accents : Bytes
accents = 0xC3 ∷ 0xA9 ∷ 0xE2 ∷ 0x82 ∷ 0xAC ∷ []

-- a slash in two bytes, which is overlong
abbrev overlong : Bytes
overlong = 0xC0 ∷ 0xAF ∷ []

abbrev scalars : List ℕ
scalars = 0xE9 ∷ 0x20AC ∷ 0x1F600 ∷ []

overlong_refused : valid overlong ≡ some false
unfolding valid valid_loop next_sequence sequence_length sequence_valid
overlong_refused = refl

valid_iff_example :
    (valid accents ≡ some true) ↔ ((cs : List ℕ) × All IsScalar cs × (encode_all cs ≡ accents))
valid_iff_example = valid_iff accents (ground arith)

char_length-encode_all_example : char_length (encode_all scalars) ≡ some 3
char_length-encode_all_example =
    char_length-encode_all scalars (ground arith) (unfold encode_all encode in ground arith)
