-- ===== src/Value/Refs.antt =====
-- References: which values own what they hold.
use pgvictoria.Prelude.{
  some_inj, sym, ◌∙◌, ap, ℕ, ◌≡◌, ◌≢◌, refl, Option, none, some, true, false, List, [], ◌∷◌,
}
use pgvictoria.Bytes.{Bytes, str_eq}
use pgvictoria.Value.{
  ValueType, type_none, given, noop_destroy, create, to_ref, to_string_of, type_to_string, fill,
  store_of,
}

-- A value of the reference type of any type but ValueNone is created, prints as the type itself
-- does, stores the very word that it is given and destroys nothing; referring twice is referring once.
create-to_ref :
    (t : ValueType) (d : ℕ)
    → t ≢ type_none
    → (create (to_ref t) d
        ≡ some (record {
          type = to_ref t;
          stored = given d;
          destroy_data = noop_destroy;
          to_string = to_string_of t;
        }))
      × (to_ref (to_ref t) ≡ to_ref t)
unfolding create to_ref
create-to_ref type_none d h = absurd (h refl)
create-to_ref _ d h = unfold fill store_of to_string_of in (refl, refl)

parse_type : Bytes → List ValueType → Option ValueType
parse_type s [] = none
parse_type s (t ∷ ts) = elim (str_eq s (type_to_string t)) [
  | true ↦ some t
  | false ↦ parse_type s ts
]

abbrev all_types : List ValueType
all_types =
    type_none ∷ ValueType.int8 ∷ ValueType.uint8 ∷ ValueType.int16 ∷ ValueType.uint16
    ∷ ValueType.int32 ∷ ValueType.uint32 ∷ ValueType.int64 ∷ ValueType.uint64 ∷ ValueType.char
    ∷ ValueType.bool ∷ ValueType.string ∷ ValueType.string_ref ∷ ValueType.float ∷ ValueType.double
    ∷ ValueType.base64 ∷ ValueType.base64_ref ∷ ValueType.json ∷ ValueType.json_ref
    ∷ ValueType.deque ∷ ValueType.deque_ref ∷ ValueType.art ∷ ValueType.art_ref ∷ ValueType.ref
    ∷ ValueType.mem ∷ []

parse_type_lem : (t : ValueType) → parse_type (type_to_string t) all_types ≡ some t
unfolding parse_type type_to_string str_eq
parse_type_lem type_none = refl
parse_type_lem _ = refl

-- No two value types have the same name.
type_to_string-injective : (a b : ValueType) → type_to_string a ≡ type_to_string b → a ≡ b
type_to_string-injective a b h =
    some_inj
      (sym (parse_type_lem a) ∙ ap (λ (s : Bytes). parse_type s all_types) h ∙ parse_type_lem b)
