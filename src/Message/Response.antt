-- ===== src/Message/Response.antt =====
-- The response to a query, in message.c: what `pgvictoria_query_execute` makes of the bytes that it
-- has read. A tuple is the list of its values.
pub mod Encoded
mod Names
mod Tuples
pub mod Table
use pgvictoria.Prelude.{
  ℕ, zero, suc, ◌+◌, ◌-◌, Bool, true, false, Option, none, some, List, [], ◌∷◌, ◌==◌, ltb, leb,
  if◌then◌else◌, ℤ, pos, negsuc, length, take, drop,
}
use pgvictoria.Bytes.{Bytes}
use pgvictoria.Utils.Append.{append}
use pgvictoria.Utils.Wire.{read_int16}
use pgvictoria.Message.{
  Message, Result, ok, undefined, out_of_fuel, ◌>>=◌, ◌>>◌, string_at, int32_at,
  extract_message_offset, extract_message_from_data, has_message,
}

abbrev pub max_number_of_columns : ℕ
max_number_of_columns = 8

abbrev pub misc_length : ℕ
misc_length = 128

abbrev pub Tuple : Type 0
Tuple = List (Option Bytes)

-- struct query_response
pub record QueryResponse : Type 0 where
  pub names : List Bytes
  pub number_of_columns : ℤ
  pub is_command_complete : Bool
  pub tuples : List Tuple

-- The offset of a column of a RowDescription, so many columns behind the one at `offset`.
unfoldable pub column_offset : ℕ → Bytes → ℕ → Result ℕ
unfolding string_at
column_offset zero s offset = ok offset
column_offset (suc n) s offset = do
  tmp ← string_at s offset
  column_offset n s (offset + (length tmp + 1) + 4 + 2 + 4 + 2 + 4 + 2)

unfoldable pub below_cols : ℕ → ℤ → Bool
below_cols i (pos n) = ltb i n
below_cols i (negsuc n) = false

abbrev pub copy_value : Bytes → ℕ → ℕ → Result Bytes
copy_value s offset n =
    if leb n (length (drop offset s)) then ok (take n (drop offset s)) else undefined

-- A name has its place in an array of 8 texts of 128 bytes; one that leaves no room for its 0 counts
-- as undefined.
unfoldable pub store_name : ℕ → Bytes → Result (Unit {0})
store_name i name =
    if ltb i max_number_of_columns
    then (if ltb (length name) misc_length then ok tt else undefined)
    else undefined

count : ℤ → ℕ
count (pos n) = n
count (negsuc n) = 0

module _ (big : Bool) where
  unfoldable pub int16_at : Bytes → ℕ → Result ℤ
  unfolding read_int16
  int16_at s offset =
      if ltb (length (drop offset s)) 2 then undefined else ok (read_int16 big (drop offset s))

  unfoldable pub get_number_of_columns : Message → Result ℤ
  unfolding int16_at
  get_number_of_columns msg = if msg.kind == b'T' then int16_at msg.data' 5 else ok (pos 0)

  -- `none` is the status 1. The name is NULL where it is empty.
  unfoldable pub get_column_name : Message → ℕ → Result (Option (Option Bytes))
  unfolding int16_at below_cols column_offset string_at append
  get_column_name msg index =
      let name = (do
        offset ← column_offset index msg.data' 7
        tmp ← string_at msg.data' offset
        ok (some (append none (some tmp)))) in
      let described = (do
        cols ← int16_at msg.data' 5
        if below_cols index cols then name else ok none) in
      if msg.kind == b'T' then described else ok none

  -- The names of so many columns from the i-th on; `none` where one of them is refused.
  unfoldable pub names_loop : ℕ → ℕ → Message → Result (Option (List Bytes))
  unfolding get_column_name store_name
  names_loop zero i msg = ok (some [])
  names_loop (suc n) i msg = do
    name ← get_column_name msg i
    elim name [
      | none ↦ ok none
      | some none ↦ undefined
      | some (some c) ↦ do
        store_name i c
        rest ← names_loop n (i + 1) msg
        elim rest [ none ↦ ok none | some cs ↦ ok (some (c ∷ cs)) ]
    ]

  -- The value whose length stands at the offset, with the offset behind it.
  unfoldable pub value_at : Bytes → ℕ → Result (Option Bytes × ℕ)
  unfolding int32_at
  value_at s offset = do
    n ← int32_at big s offset
    elim n [
      | pos zero ↦ ok (none, offset + 4)
      | pos (suc k) ↦ do v ← copy_value s (offset + 4) (suc k); ok (some v, offset + 4 + suc k)
      | negsuc k ↦ ok (none, offset + 4)
    ]

  unfoldable pub d_loop : ℕ → Bytes → ℕ → Result Tuple
  unfolding value_at
  d_loop zero s offset = ok []
  d_loop (suc n) s offset = do (v, next) ← value_at s offset; vs ← d_loop n s next; ok (v ∷ vs)

  -- A negative number of columns is no column.
  unfoldable pub create_D_tuple : ℤ → Message → Result Tuple
  unfolding d_loop
  create_D_tuple (pos n) msg = d_loop n msg.data' 7
  create_D_tuple (negsuc n) msg = ok []

  -- The word counts itself and the 0 behind the text.
  unfoldable pub create_C_tuple : Message → Result Tuple
  unfolding int32_at
  create_C_tuple msg = do
    n ← int32_at big msg.data' 1
    elim n [
      | pos k ↦ do
        let copied = (do v ← copy_value msg.data' 5 (k - 5); ok (some v ∷ []))
        if ltb 5 k then copied else ok (none ∷ [])
      | negsuc k ↦ ok (none ∷ [])
    ]

  -- The walk over all messages, which keeps those of kind D.
  unfoldable pub tuples_loop : ℕ → ℤ → ℕ → Bytes → ℕ → Result (List Tuple)
  unfolding extract_message_offset create_D_tuple
  tuples_loop zero cols size s offset = out_of_fuel
  tuples_loop (suc fuel) cols size s offset =
      let step = (do
        (next, msg) ← extract_message_offset big offset s
        let rest = tuples_loop fuel cols size s next
        let row = (do t ← create_D_tuple cols msg; ts ← rest; ok (t ∷ ts))
        if msg.kind == b'D' then row else rest) in
      if ltb offset size then step else ok []

  -- The response that is one table, and the one that is the text of a completed command.
  unfoldable pub read_table : Bytes → ℕ → Result (Option QueryResponse)
  unfolding extract_message_from_data get_number_of_columns names_loop tuples_loop count
  read_table s size = do
    found ← extract_message_from_data big b'T' s size
    elim found [
      | none ↦ ok none
      | some rmsg ↦ do
        cols ← get_number_of_columns rmsg
        named ← names_loop (count cols) 0 rmsg
        elim named [
          | none ↦ ok none
          | some names ↦ do
            tuples ← tuples_loop (suc size) cols size s 0
            ok (
                some (record {
                  names = names;
                  number_of_columns = cols;
                  is_command_complete = false;
                  tuples = tuples;
                }))
        ]
    ]

  unfoldable pub read_command : Bytes → ℕ → Result (Option QueryResponse)
  unfolding extract_message_from_data create_C_tuple
  read_command s size = do
    found ← extract_message_from_data big b'C' s size
    elim found [
      | none ↦ ok none
      | some rmsg ↦ do
        t ← create_C_tuple rmsg
        ok (
            some (record {
              names = [];
              number_of_columns = pos 1;
              is_command_complete = true;
              tuples = t ∷ [];
            }))
    ]

  -- `pgvictoria_query_execute` from where the bytes have been read; `none` is its error.
  unfoldable pub read_response : Bytes → ℕ → Result (Option QueryResponse)
  unfolding has_message read_table read_command
  read_response s size = do
    failed ← has_message big b'E' s size
    if failed then ok none else do
      described ← has_message big b'T' s size
      if described then read_table s size else do
        completed ← has_message big b'C' s size
        if completed then read_command s size else ok none
