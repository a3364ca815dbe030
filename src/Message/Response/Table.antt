-- ===== src/Message/Response/Table.antt =====
-- Whole responses to a query: a table, a completed command, an error.
use pgvictoria.Prelude.{
  ℕ, zero, suc, ◌+◌, ◌^◌, ◌<◌, ◌≤◌, ◌≡◌, refl, ap, subst, Bool, true, false, ltb, none, some, List,
  [], ◌∷◌, ◌++◌, ◌==◌, if◌then◌else◌, ℤ, pos, length, drop, length-append, All, arith, map,
  Bool-cases, inl, inr,
}
use pgvictoria.Bytes.{Bytes}
use pgvictoria.Message.{Result, ok, ◌>>=◌}
use pgvictoria.Message.Frames.{
  Frame, frame_bytes, frames_bytes, message_of, length-frame_bytes, behind_frame,
  extract_message_offset_lem,
}
use pgvictoria.Message.Walk.{IsSmall, is_sent, enough_rounds, messages_found}
use pgvictoria.Message.Response.{
  Tuple, max_number_of_columns, create_D_tuple, tuples_loop, read_table, read_command,
  read_response, count,
}
use pgvictoria.Message.Response.Encoded.{
  Column, IsColumn, row_description, data_row, command_complete,
}
use pgvictoria.Message.Response.Names.{get_number_of_columns_lem, names_lem}
use pgvictoria.Message.Response.Tuples.{seen, IsValue, create_D_tuple_lem, create_C_tuple_lem}

-- The rows among the messages, with what the code makes of them.
data Row : ℤ → Frame → Type 0 where
  kept : {cols : ℤ} (vs : Tuple) → All IsValue vs → pos (length vs) ≡ cols → Row cols (data_row vs)
  passed : {cols : ℤ} (f : Frame) → (f.kind == b'D') ≡ false → Row cols f

abbrev tuple_of : {cols : ℤ} {f : Frame} → Row cols f → List Tuple → List Tuple
tuple_of (kept vs h e) ts = map seen vs ∷ ts
tuple_of (passed f h) ts = ts

abbrev tuples_of : (cols : ℤ) (fs : List Frame) → All (Row cols) fs → List Tuple
tuples_of cols [] tt = []
tuples_of cols (f ∷ fs) (r, rs) = tuple_of r (tuples_of cols fs rs)

module _ (big : Bool) (cols : ℤ) (s : Bytes) (size_t : length s < 2 ^ 64) where
  one_round :
      (f : Frame) (r : Row cols f) (more : Result (List Tuple)) (ts : List Tuple)
      → more ≡ ok ts
      → (if f.kind == b'D'
          then create_D_tuple big cols (message_of f) >>= (λ t. more >>= (λ us. ok (t ∷ us)))
          else more)
        ≡ ok (tuple_of r ts)
  one_round f (kept vs h e) more ts m =
      let made =
        subst (λ (c : ℤ). create_D_tuple big c (message_of (data_row vs)) ≡ ok (map seen vs)) e
          (create_D_tuple_lem big vs h) in
      rw (made, m) refl
  one_round f (passed g other) more ts m = rw (other, m) refl

  tuples_loop_lem :
      (fuel offset : ℕ) (fs : List Frame) (rows : All (Row cols) fs)
      → drop offset s ≡ frames_bytes fs
      → offset + length (frames_bytes fs) ≡ length s
      → length fs < fuel
      → All IsSmall fs
      → tuples_loop big fuel cols (length s) s offset ≡ ok (tuples_of cols fs rows)
  unfolding tuples_loop
  tuples_loop_lem zero offset fs rows e total enough small = absurd (omega arith)
  tuples_loop_lem (suc fuel) offset [] rows e total enough small =
      let past : ltb offset (length s) ≡ false = ground (arith, total) in rw past refl
  tuples_loop_lem (suc fuel) offset (f ∷ fs) (r, rs) e total enough (sm, sms) =
      let l = length-append (frame_bytes f) (frames_bytes fs) in
      let lf = length-frame_bytes f in
      let inside : ltb offset (length s) ≡ true = ground (arith, total, l, lf) in
      let bound : offset + length (frame_bytes f) < 2 ^ 64 = omega (arith, total, l, size_t) in
      let copied = extract_message_offset_lem big s offset f (frames_bytes fs) e sm bound in
      let rest =
        tuples_loop_lem fuel (offset + length (frame_bytes f)) fs rs
          (behind_frame big s offset f (frames_bytes fs) e sm) (omega (arith, total, l))
          (omega arith) sms in
      rw (inside, copied) (one_round f r _ (tuples_of cols fs rs) rest)

-- A row has a value for each column.
abbrev pub IsRow : ℕ → Tuple → Type 0
IsRow n vs = (length vs ≡ n) × All IsValue vs

rows_found :
    (n : ℕ) (rows : List Tuple) (rest : List Frame)
    → All (IsRow n) rows
    → is_sent b'D' rest ≡ false
    → (found : All (Row (pos n)) (map data_row rows ++ rest)) × (tuples_of
          (pos n)
          (map data_row rows ++ rest)
          found
        ≡ map (map seen) rows)
rows_found n [] [] h none_left = (tt, refl)
rows_found n [] (f ∷ rest) h none_left = elim (Bool-cases (f.kind == b'D')) [
  | inl same ↦ absurd (ground (arith, none_left, same))
  | inr other ↦
      let (found, e) = rows_found n [] rest tt (ground (arith, none_left, other)) in
      ((passed f other, found), e)
]
rows_found n (vs ∷ rows) rest ((l, h), hs) none_left =
    let (found, e) = rows_found n rows rest hs none_left in
    ((kept vs h (ap pos l), found), ap (λ (ts : List Tuple). map seen vs ∷ ts) e)

not_sent-rows :
    (type : ℕ) (rows : List Tuple) (rest : List Frame)
    → (b'D' == type) ≡ false
    → is_sent type rest ≡ false
    → is_sent type (map data_row rows ++ rest) ≡ false
not_sent-rows type [] rest h k = k
not_sent-rows type (vs ∷ rows) rest h k = rw h (not_sent-rows type rows rest h k)

module _ (big : Bool) where
  -- The response is a description of at most 8 columns, with names of 1 to 127 bytes, rows with a value
  -- for each column, and other messages behind them, none of them a row or an error; each message is
  -- shorter than 2^31 bytes, and all are fewer than 2^64 bytes. The query gives the names, and the
  -- values of each row in their order, where an empty value is NULL.
  pub read_response-table :
      (cols : List Column) (rows : List Tuple) (rest : List Frame)
      → All IsColumn cols
      → length cols ≤ max_number_of_columns
      → All (IsRow (length cols)) rows
      → is_sent b'D' rest ≡ false
      → is_sent b'E' rest ≡ false
      → All IsSmall (row_description cols ∷ map data_row rows ++ rest)
      → length (frames_bytes (row_description cols ∷ map data_row rows ++ rest)) < 2 ^ 64
      → read_response big
          (frames_bytes (row_description cols ∷ map data_row rows ++ rest))
          (length (frames_bytes (row_description cols ∷ map data_row rows ++ rest)))
        ≡ ok (
            some (record {
              names = map (λ c. c.name) cols;
              number_of_columns = pos (length cols);
              is_command_complete = false;
              tuples = map (map seen) rows;
            }))
  unfolding read_response read_table count
  read_response-table cols rows rest good few full no_row no_error small size_t =
      let fs = row_description cols ∷ map data_row rows ++ rest in
      let (found, e) = rows_found (length cols) rows rest full no_row in
      let no_e = not_sent-rows b'E' rows rest refl no_error in
      let errors = (messages_found big b'E' fs small size_t).1 in
      let (table, described) = messages_found big b'T' fs small size_t in
      let walked =
        tuples_loop_lem big (pos (length cols)) (frames_bytes fs) size_t
          (suc (length (frames_bytes fs))) 0 fs (passed (row_description cols) refl, found) refl
          (omega arith) (enough_rounds fs) small in
      rw
        (
          errors,
          no_e,
          described,
          table,
          get_number_of_columns_lem big cols good few,
          names_lem big cols good few,
          walked,
          e,
        )
        refl

  -- A response of fewer than 2^64 bytes, each message shorter than 2^31 bytes, with an error among
  -- its messages makes the query fail.
  pub read_response-error :
      (fs : List Frame)
      → All IsSmall fs
      → length (frames_bytes fs) < 2 ^ 64
      → is_sent b'E' fs ≡ true
      → read_response big (frames_bytes fs) (length (frames_bytes fs)) ≡ ok none
  unfolding read_response
  read_response-error fs small size_t sent =
      rw ((messages_found big b'E' fs small size_t).1, sent) refl

  -- A command that is completed with a text of 1 to 2^30 bytes, in front of messages with no error and
  -- no table, each shorter than 2^31 bytes and all together fewer than 2^64: the query gives one value,
  -- the text.
  read_response-command :
      (c : ℕ) (s : Bytes) (rest : List Frame)
      → length s < 2 ^ 30
      → is_sent b'E' rest ≡ false
      → is_sent b'T' rest ≡ false
      → All IsSmall rest
      → length (frames_bytes (command_complete (c ∷ s) ∷ rest)) < 2 ^ 64
      → read_response big
          (frames_bytes (command_complete (c ∷ s) ∷ rest))
          (length (frames_bytes (command_complete (c ∷ s) ∷ rest)))
        ≡ ok (
            some (record {
              names = [];
              number_of_columns = pos 1;
              is_command_complete = true;
              tuples = (some (c ∷ s) ∷ []) ∷ [];
            }))
  unfolding read_response read_command
  read_response-command c s rest h no_error no_table small size_t =
      let fs = command_complete (c ∷ s) ∷ rest in
      let first : IsSmall (command_complete (c ∷ s)) = omega (arith, h, length-append s (0 ∷ [])) in
      let all_small : All IsSmall fs = (first, small) in
      let errors = (messages_found big b'E' fs all_small size_t).1 in
      let tables = (messages_found big b'T' fs all_small size_t).1 in
      let (complete, there) = messages_found big b'C' fs all_small size_t in
      rw (errors, no_error, tables, no_table, there, complete, create_C_tuple_lem big c s h) refl
