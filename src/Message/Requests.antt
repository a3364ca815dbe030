-- ===== src/Message/Requests.antt =====
-- The messages that the program writes, in message.c: a buffer of zeros, into which the parts are
-- copied one after the other.
mod Filled
pub mod Framed
pub mod Startup
use pgvictoria.Prelude.{
  ℕ, zero, suc, ◌+◌, ◌-◌, Bool, true, false, Option, none, some, List, [], ◌∷◌, ◌++◌, ◌==◌, ltb,
  ◌||◌, if◌then◌else◌, ℤ, pos, length, take, drop,
}
use pgvictoria.Bytes.{Bytes, text, str_eq}
use pgvictoria.Utils.Wire.{store, write_int32, write_int64}
use pgvictoria.Message.{Message, Result, ok, undefined, ◌>>=◌}

unfoldable pub zeros : ℕ → Bytes
zeros zero = []
zeros (suc n) = 0 ∷ zeros n

-- A write at `data + offset`.
unfoldable pub at : ℕ → (Bytes → Bytes) → Bytes → Bytes
at offset f s = take offset s ++ f (drop offset s)

unfoldable pub write_byte : ℕ → Bytes → Bytes
unfolding store
write_byte b = store (b ∷ [])

unfoldable pub write_string : Bytes → Bytes → Bytes
unfolding store
write_string s = store s

module _ (big : Bool) where
  -- The kind, and the length of a message of so many bytes.
  unfoldable pub write_head : ℕ → ℕ → Bytes
  unfolding zeros at write_byte write_int32
  write_head kind size = at 1 (write_int32 big (pos (size - 1))) (write_byte kind (zeros size))

  unfoldable pub create_auth_password_response : Bytes → Message
  unfolding write_head at write_string
  create_auth_password_response password =
      let size = 6 + length password in
      record { kind = b'p'; data' = at 5 (write_string password) (write_head b'p' size) }

  -- The query is copied to a buffer of 1024 bytes first.
  unfoldable pub create_query_message : Bytes → Result Message
  unfolding write_head at write_string
  create_query_message query =
      let size = 1 + 4 + length query + 1 in
      if ltb (length query) 1024
      then ok (record { kind = b'Q'; data' = at 5 (write_string query) (write_head b'Q' size) })
      else undefined

  unfoldable pub create_identify_system_message : Message
  unfolding write_head at write_string
  create_identify_system_message = record {
    kind = b'Q';
    data' = at 5 (write_string (text "IDENTIFY_SYSTEM;")) (write_head b'Q' (1 + 4 + 17));
  }

  unfoldable pub create_read_replication_slot_message : Bytes → Message
  unfolding write_head at write_string
  create_read_replication_slot_message slot =
      let size = 1 + 4 + 22 + length slot + 1 + 1 in
      let slotted =
        at (5 + 22) (write_string slot)
          (at 5 (write_string (text "READ_REPLICATION_SLOT ")) (write_head b'Q' size)) in
      record { kind = b'Q'; data' = at (5 + 22 + length slot) (write_string (text ";")) slotted }

  -- The argument is the time since the year 2000.
  unfoldable pub create_standby_status_update_message : ℤ → ℤ → ℤ → ℤ → Message
  unfolding write_head at write_byte write_int64
  create_standby_status_update_message received flushed applied now =
      let size = 1 + 4 + 1 + 8 + 8 + 8 + 8 + 1 in
      let s = at (1 + 4) (write_byte b'r') (write_head b'd' size) in
      let s' = at (1 + 4 + 1) (write_int64 big received) s in
      let s'' = at (1 + 4 + 1 + 8) (write_int64 big flushed) s' in
      let s''' = at (1 + 4 + 1 + 8 + 8) (write_int64 big applied) s'' in
      let t = at (1 + 4 + 1 + 8 + 8 + 8) (write_int64 big now) s''' in
      record { kind = b'd'; data' = at (1 + 4 + 1 + 8 + 8 + 8 + 8) (write_byte 0) t }

  unfoldable pub create_ssl_message : Message
  unfolding zeros at write_int32
  create_ssl_message = record {
    kind = 0;
    data' = at 4 (write_int32 big (pos 80877103)) (write_int32 big (pos 8) (zeros 8));
  }

  unfoldable pub create_startup_message : Bytes → Bytes → Bool → Message
  unfolding zeros at write_int32 write_string
  create_startup_message username database replication =
      let us = length username in
      let ds = length database in
      let size = 4 + 4 + 4 + 1 + us + 1 + 8 + 1 + ds + 1 + 17 + 11 + 1 in
      let size' = if replication then size + 14 else size in
      let a = at 4 (write_int32 big (pos 196608)) (write_int32 big (pos size') (zeros size')) in
      let b = at 13 (write_string username) (at 8 (write_string (text "user")) a) in
      let c = at (13 + us + 1) (write_string (text "database")) b in
      let d = at (13 + us + 1 + 9) (write_string database) c in
      let e = at (13 + us + 1 + 9 + ds + 1) (write_string (text "application_name")) d in
      let f = at (13 + us + 1 + 9 + ds + 1 + 17) (write_string (text "pgvictoria")) e in
      let g = at (13 + us + 1 + 9 + ds + 1 + 17 + 11) (write_string (text "replication")) f in
      let h = at (13 + us + 1 + 9 + ds + 1 + 17 + 11 + 12) (write_string (text "1")) g in
      record { kind = 0; data' = if replication then h else f }

-- The texts that a 0 ends; what is behind the last 0 is left out.
unfoldable pub cut_texts : Bytes → Bytes → List Bytes
cut_texts word [] = []
cut_texts word (c ∷ s) =
    let ended = word ∷ cut_texts [] s in
    let longer = cut_texts (word ++ c ∷ []) s in if c == 0 then ended else longer

pub record Names : Type 0 where
  pub username : Option Bytes
  pub database : Option Bytes
  pub appname : Option Bytes

unfoldable pub set_name : Bytes → Bytes → Names → Names
unfolding str_eq
set_name k v n =
    if str_eq k (text "user")
    then record n { username = some v }
    else if str_eq k (text "database")
    then record n { database = some v }
    else if str_eq k (text "application_name")
    then record n { appname = some v }
    else n

unfoldable pub is_keyword : Bytes → Bool
unfolding str_eq
is_keyword k =
    str_eq k (text "user") || str_eq k (text "database") || str_eq k (text "application_name")

-- The loop over all texts; behind the last one there is nothing to read.
unfoldable pub names_loop : Names → List Bytes → Result Names
unfolding set_name is_keyword
names_loop n [] = ok n
names_loop n (k ∷ []) = if is_keyword k then undefined else ok n
names_loop n (k ∷ v ∷ ts) = names_loop (set_name k v n) (v ∷ ts)

unfoldable pub or_username : Names → Names
or_username n = elim n.database [ some d ↦ n | none ↦ record n { database = n.username } ]

unfoldable pub extract_username_database : Message → Result Names
unfolding cut_texts names_loop or_username
extract_username_database msg = do
  n ←
      names_loop (record { username = none; database = none; appname = none })
        (cut_texts [] (take (length msg.data' - 1 - 8) (drop 8 msg.data')))
  ok (or_username n)
