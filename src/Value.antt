-- ===== src/Value.antt =====
-- libpgvictoria/value.c and include/value.h: the tagged values that deques, trees and JSON objects
-- hold, which callbacks a value is given by its type, and the type of a reference to it.
mod Refs
mod Tests
use pgvictoria.Prelude.{ℕ, Option, none, some, Bool, true, false}
use pgvictoria.Bytes.{Bytes, text}

-- enum value_type
pub data ValueType : Type 0 where
  type_none int8 uint8 int16 uint16 int32 uint32 int64 uint64 char bool : ValueType
  string string_ref float double base64 base64_ref json json_ref : ValueType
  deque deque_ref art art_ref ref mem : ValueType

-- The `to_string` callbacks; `custom` is one that a `value_config` brings.
pub data ToStringCb : Type 0 where
  noop_to_string int8_to_string uint8_to_string int16_to_string uint16_to_string : ToStringCb
  int32_to_string uint32_to_string int64_to_string uint64_to_string : ToStringCb
  float_to_string double_to_string string_to_string bool_to_string char_to_string : ToStringCb
  deque_to_string art_to_string json_to_string mem_to_string : ToStringCb
  custom_to_string : ℕ → ToStringCb

-- The `destroy_data` callbacks.
pub data DestroyCb : Type 0 where
  noop_destroy free_destroy art_destroy deque_destroy json_destroy : DestroyCb
  custom_destroy : ℕ → DestroyCb

-- What `data` holds: the word that was given, or a fresh copy of the text that it points to.
pub data Stored : Type 0 where
  given : ℕ → Stored
  copy_of : ℕ → Stored

pub record Value : Type 0 where
  pub type : ValueType
  pub stored : Stored
  pub destroy_data : DestroyCb
  pub to_string : ToStringCb

-- The first switch of `pgvictoria_value_create`.
unfoldable pub to_string_of : ValueType → ToStringCb
to_string_of int8 = int8_to_string
to_string_of uint8 = uint8_to_string
to_string_of int16 = int16_to_string
to_string_of uint16 = uint16_to_string
to_string_of int32 = int32_to_string
to_string_of uint32 = uint32_to_string
to_string_of int64 = int64_to_string
to_string_of uint64 = uint64_to_string
to_string_of float = float_to_string
to_string_of double = double_to_string
to_string_of bool = bool_to_string
to_string_of char = char_to_string
to_string_of string = string_to_string
to_string_of base64 = string_to_string
to_string_of string_ref = string_to_string
to_string_of base64_ref = string_to_string
to_string_of json = json_to_string
to_string_of json_ref = json_to_string
to_string_of deque = deque_to_string
to_string_of deque_ref = deque_to_string
to_string_of art = art_to_string
to_string_of art_ref = art_to_string
to_string_of mem = mem_to_string
to_string_of ref = mem_to_string
to_string_of type_none = noop_to_string

-- The second switch: what is stored, and how it is destroyed.
unfoldable pub store_of : ValueType → ℕ → Stored × DestroyCb
store_of string d = (copy_of d, free_destroy)
store_of base64 d = (copy_of d, free_destroy)
store_of mem d = (given d, free_destroy)
store_of json d = (given d, json_destroy)
store_of deque d = (given d, deque_destroy)
store_of art d = (given d, art_destroy)
store_of _ d = (given d, noop_destroy)

fill : ValueType → ℕ → Value
unfolding to_string_of store_of
fill type d =
    let (stored, destroy) = store_of type d in
    record { type = type; stored = stored; destroy_data = destroy; to_string = to_string_of type }

-- `pgvictoria_value_create`, where `malloc` succeeds; `none` is its status 1.
unfoldable pub create : ValueType → ℕ → Option Value
unfolding fill
create type_none d = none
create type d = some (fill type d)

-- struct value_config; NULL is `none`
pub record ValueConfig : Type 0 where
  pub destroy_data : Option ℕ
  pub to_string : Option ℕ

override_destroy : Option ℕ → Value → Value
override_destroy none v = v
override_destroy (some f) v = record v { destroy_data = custom_destroy f }

override_to_string : Option ℕ → Value → Value
override_to_string none v = v
override_to_string (some f) v = record v { to_string = custom_to_string f }

override : Option ValueConfig → Value → Value
unfolding override_destroy override_to_string
override none v = v
override (some c) v = override_to_string c.to_string (override_destroy c.destroy_data v)

unfoldable pub create_with_config : ℕ → Option ValueConfig → Option Value
unfolding create override
create_with_config d config = elim (create ref d) [
  | none ↦ none
  | some v ↦ some (override config v)
]

-- pgvictoria_value_type, of a pointer that may be NULL
unfoldable pub type_of : Option Value → ValueType
type_of none = type_none
type_of (some v) = v.type

-- pgvictoria_value_to_ref
unfoldable pub to_ref : ValueType → ValueType
to_ref string = string_ref
to_ref base64 = base64_ref
to_ref json = json_ref
to_ref deque = deque_ref
to_ref art = art_ref
to_ref mem = ref
to_ref type = type

-- pgvictoria_value_type_to_string
unfoldable pub type_to_string : ValueType → Bytes
type_to_string type_none = text "none"
type_to_string int8 = text "int8"
type_to_string uint8 = text "uint8"
type_to_string int16 = text "int16"
type_to_string uint16 = text "uint16"
type_to_string int32 = text "int32"
type_to_string uint32 = text "uint32"
type_to_string int64 = text "int64"
type_to_string uint64 = text "uint64"
type_to_string char = text "char"
type_to_string bool = text "bool"
type_to_string string = text "string"
type_to_string string_ref = text "string_ref"
type_to_string float = text "float"
type_to_string double = text "double"
type_to_string base64 = text "base64"
type_to_string base64_ref = text "base64_ref"
type_to_string json = text "json"
type_to_string json_ref = text "json_ref"
type_to_string deque = text "deque"
type_to_string deque_ref = text "deque_ref"
type_to_string art = text "art"
type_to_string art_ref = text "art_ref"
type_to_string ref = text "ref"
type_to_string mem = text "mem"
