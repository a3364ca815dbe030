-- ===== src/Message/Requests/Framed.antt =====
-- The messages that the program writes, as frames.
use pgvictoria.Prelude.{
  ℕ, ◌+◌, ◌^◌, ◌<◌, ◌≡◌, ◌∙◌, refl, sym, ap, Bool, true, ltb, [], ◌∷◌, ◌++◌, length, length-append,
  append_assoc, append-nil, arith,
}
use pgvictoria.Bytes.{Bytes, text}
use pgvictoria.Utils.Wire.Network.{network, length-network}
use pgvictoria.Message.{ok}
use pgvictoria.Message.Frames.{Frame, frame_bytes, message_of}
use pgvictoria.Message.Requests.{
  zeros, at, write_string, write_head, create_auth_password_response, create_query_message,
  create_identify_system_message, create_read_replication_slot_message,
}
use pgvictoria.Message.Requests.Filled.{at_cong, fill, fill_text, write_head_lem}

-- The kind and the text, and the 0 behind it.
abbrev pub texted : ℕ → Bytes → Frame
texted kind s = record { kind = kind; payload = s ++ 0 ∷ [] }

module _ (big : Bool) where
  filled_frame :
      (kind size : ℕ) (s : Bytes)
      → size ≡ 6 + length s
      → size < 2 ^ 31
      → at 5 (write_string s) (write_head big kind size) ≡ frame_bytes (texted kind s)
  unfolding frame_bytes zeros
  filled_frame kind size s e h =
      let l = length-append s (0 ∷ []) in
      let n = length s + 1 in
      let head = kind ∷ network 4 (4 + n) in
      at_cong 5 (write_string s) (write_head_lem big kind n size (omega (arith, e)) h)
      ∙ fill_text head s 0 n 5 (omega (arith, length-network 4 (4 + n))) (omega arith)
      ∙ append-nil ((head ++ s) ++ 0 ∷ [])
      ∙ append_assoc head s (0 ∷ [])
      ∙ ap (λ (k : ℕ). kind ∷ network 4 (4 + k) ++ (s ++ 0 ∷ [])) (sym l)

  slot_frame :
      (slot : Bytes)
      → length slot < 2 ^ 30
      → create_read_replication_slot_message big slot
        ≡ message_of (texted b'Q' ((text "READ_REPLICATION_SLOT " ++ slot) ++ text ";"))
  unfolding create_read_replication_slot_message frame_bytes zeros
  slot_frame slot h =
      let r = text "READ_REPLICATION_SLOT " in
      let n = length slot + 24 in
      let size = 1 + 4 + 22 + length slot + 1 + 1 in
      let head = b'Q' ∷ network 4 (4 + n) in
      let lh = length-network 4 (4 + n) in
      let l1 = length-append head r in
      let l2 = length-append (head ++ r) slot in
      let count : length ((r ++ slot) ++ text ";" ++ 0 ∷ []) ≡ n = omega (
        arith,
        length-append ((r ++ slot) ++ text ";") (0 ∷ []),
        length-append (r ++ slot) (text ";"),
        length-append r slot,
      ) in
      let data' =
        at_cong (5 + 22 + length slot) (write_string (text ";")) (
          at_cong (5 + 22) (write_string slot) (
            at_cong 5 (write_string r)
              (write_head_lem big b'Q' n size (omega arith) (omega (arith, h)))
            ∙ fill head r (length slot + 2) n 5 (omega (arith, lh)) (omega arith))
          ∙ fill (head ++ r) slot 2 (length slot + 2) (5 + 22) (omega (arith, lh, l1))
              (omega arith))
        ∙ fill_text ((head ++ r) ++ slot) (text ";") 0 2 (5 + 22 + length slot)
            (omega (arith, lh, l1, l2)) (omega arith)
        ∙ append-nil ((((head ++ r) ++ slot) ++ text ";") ++ 0 ∷ [])
        ∙ ap (λ (t : Bytes). (t ++ text ";") ++ 0 ∷ []) (append_assoc head r slot)
        ∙ ap (λ (t : Bytes). t ++ 0 ∷ []) (append_assoc head (r ++ slot) (text ";"))
        ∙ append_assoc head ((r ++ slot) ++ text ";") (0 ∷ [])
        ∙ ap (λ (k : ℕ). b'Q' ∷ network 4 (4 + k) ++ ((r ++ slot) ++ text ";" ++ 0 ∷ []))
            (sym count) in
      ap (λ (t : Bytes). record { kind = b'Q'; data' = t }) data'

  -- The messages with a password, a query, a slot and the question for the system are frames of
  -- their kind, which hold the text and a 0 behind it: for a query of fewer than 1024 bytes, and a
  -- password and the name of a slot of fewer than 2^30 bytes.
  pub requests_framed :
      (password query slot : Bytes)
      → length password < 2 ^ 30
      → length query < 1024
      → length slot < 2 ^ 30
      → (create_auth_password_response big password ≡ message_of (texted b'p' password))
        × (create_query_message big query ≡ ok (message_of (texted b'Q' query)))
        × (create_read_replication_slot_message big slot
            ≡ message_of (texted b'Q' ((text "READ_REPLICATION_SLOT " ++ slot) ++ text ";")))
        × (create_identify_system_message big ≡ message_of (texted b'Q' (text "IDENTIFY_SYSTEM;")))
  unfolding create_auth_password_response create_query_message create_identify_system_message
  requests_framed password query slot hp hq hs =
      let short : ltb (length query) 1024 ≡ true = ground (arith, hq) in
      (
        ap (λ (t : Bytes). record { kind = b'p'; data' = t })
            (filled_frame b'p' (6 + length password) password refl (omega (arith, hp))),
        rw short (
            ap (λ (t : Bytes). ok (record { kind = b'Q'; data' = t }))
              (filled_frame b'Q' (1 + 4 + length query + 1) query (omega arith)
                (omega (arith, hq)))),
        slot_frame slot hs,
        ap (λ (t : Bytes). record { kind = b'Q'; data' = t })
            (filled_frame b'Q' 22 (text "IDENTIFY_SYSTEM;") refl (omega arith)),
      )
