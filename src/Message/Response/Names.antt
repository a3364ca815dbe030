-- ===== src/Message/Response/Names.antt =====
-- The names of the columns of a RowDescription.
use pgvictoria.Prelude.{
  ℕ, ◌+◌, ◌≤◌, ◌≡◌, ◌∙◌, refl, sym, ap, Bool, true, false, ltb, none, some, List, [], ◌∷◌, ◌++◌,
  ◌==◌, pos, length, drop, length-append, append_assoc, append-nil, subst, drop_add, All-middle,
  All, arith, map,
}
use pgvictoria.Bytes.{Bytes}
use pgvictoria.Utils.Append.{append}
use pgvictoria.Utils.Wire.Network.{network}
use pgvictoria.Message.{Message, ok, string_at}
use pgvictoria.Message.Frames.{frame_bytes, message_of, drop_behind, c_string-text, drop-network}
use pgvictoria.Message.Response.{
  misc_length, max_number_of_columns, column_offset, below_cols, store_name, int16_at,
  get_number_of_columns, get_column_name, names_loop,
}
use pgvictoria.Message.Response.Encoded.{
  Column, IsColumn, columns_bytes, row_description, int16_at-network,
}

abbrev column_bytes : Column → Bytes
column_bytes c = c.name ++ 0 ∷ c.attributes

length-column_bytes : (c : Column) → IsColumn c → length (column_bytes c) ≡ length c.name + 19
length-column_bytes c h = omega (arith, length-append c.name (0 ∷ c.attributes), h.attributes)

module _ (s rest : Bytes) (offset : ℕ) (c : Column) (cs : List Column) (ok_c : IsColumn c)
    (e : drop offset s ≡ columns_bytes (c ∷ cs) ++ rest) where
  name_here : string_at s offset ≡ ok c.name
  unfolding string_at
  name_here =
      rw (e, append_assoc c.name (0 ∷ (c.attributes ++ columns_bytes cs)) rest)
        (c_string-text c.name _ ok_c.text)

  next_column :
      drop (offset + (length c.name + 1) + 4 + 2 + 4 + 2 + 4 + 2) s ≡ columns_bytes cs ++ rest
  next_column =
      let same : columns_bytes (c ∷ cs) ++ rest ≡ column_bytes c ++ (columns_bytes cs ++ rest) =
        append_assoc c.name (0 ∷ (c.attributes ++ columns_bytes cs)) rest
        ∙ ap (λ (l : Bytes). c.name ++ 0 ∷ l) (append_assoc c.attributes (columns_bytes cs) rest)
        ∙ sym (append_assoc c.name (0 ∷ c.attributes) (columns_bytes cs ++ rest)) in
      let at : offset + (length c.name + 1) + 4 + 2 + 4 + 2 + 4 + 2
          ≡ offset + length (column_bytes c) =
        omega (arith, length-column_bytes c ok_c) in
      rw at (drop_behind s (column_bytes c) (columns_bytes cs ++ rest) offset (e ∙ same))

-- Past the columns `done` the offset stands at the others.
column_offset_lem :
    (s rest : Bytes) (done cs : List Column) (offset : ℕ)
    → All IsColumn done
    → drop offset s ≡ columns_bytes (done ++ cs) ++ rest
    → (next : ℕ) × (column_offset (length done) s offset ≡ ok next)
      × (drop next s ≡ columns_bytes cs ++ rest)
unfolding column_offset
column_offset_lem s rest [] cs offset hs e = (offset, refl, e)
column_offset_lem s rest (c ∷ done) cs offset (h, hs) e =
    let (next, f, g) =
      column_offset_lem s rest done cs (offset + (length c.name + 1) + 4 + 2 + 4 + 2 + 4 + 2) hs
        (next_column s rest offset c (done ++ cs) h e) in
    (next, rw (name_here s rest offset c (done ++ cs) h e) f, g)

append-name : (s : Bytes) → (length s == 0) ≡ false → append none (some s) ≡ some s
unfolding append
append-name [] h = absurd (ground arith)
append-name (c ∷ s) h = refl

module _ (big : Bool) (cols : List Column) (good : All IsColumn cols)
    (few : length cols ≤ max_number_of_columns) where
  abbrev msg : Message
  msg = message_of (row_description cols)

  behind_length : drop 5 msg.data' ≡ network 2 (length cols) ++ columns_bytes cols
  unfolding frame_bytes
  behind_length =
      drop-network 4 (4 + length (network 2 (length cols) ++ columns_bytes cols))
        (network 2 (length cols) ++ columns_bytes cols)

  behind_number : drop 7 msg.data' ≡ columns_bytes cols ++ []
  behind_number =
      drop_add 5 2 msg.data'
      ∙ ap (drop 2) behind_length
      ∙ drop-network 2 (length cols) (columns_bytes cols)
      ∙ sym (append-nil (columns_bytes cols))

  number_here : int16_at big msg.data' 5 ≡ ok (pos (length cols))
  number_here =
      int16_at-network big (length cols) msg.data' (columns_bytes cols) 5 behind_length
        (omega (arith, few))

  pub get_number_of_columns_lem : get_number_of_columns big msg ≡ ok (pos (length cols))
  unfolding get_number_of_columns
  get_number_of_columns_lem = number_here

  get_column_name_lem :
      (done : List Column) (c : Column) (cs : List Column)
      → done ++ c ∷ cs ≡ cols
      → get_column_name big msg (length done) ≡ ok (some (some c.name))
  unfolding get_column_name below_cols
  get_column_name_lem done c cs e =
      let (gd, g, _) = All-middle IsColumn done c cs (subst (All IsColumn) (sym e) good) in
      let (next, f, there) =
        column_offset_lem msg.data' [] done (c ∷ cs) 7 gd
          (behind_number ∙ ap (λ (l : List Column). columns_bytes l ++ []) (sym e)) in
      let inside : ltb (length done) (length cols) ≡ true =
        ground (arith, ap (length {A = Column}) e, length-append done (c ∷ cs)) in
      rw
        (
          number_here,
          inside,
          f,
          name_here msg.data' [] next c cs g there,
          append-name c.name g.not_empty,
        )
        refl

  names_loop_lem :
      (done cs : List Column)
      → done ++ cs ≡ cols
      → names_loop big (length cs) (length done) msg ≡ ok (some (map (λ c. c.name) cs))
  unfolding names_loop store_name
  names_loop_lem done [] e = refl
  names_loop_lem done (c ∷ cs) e =
      let (_, g, _) = All-middle IsColumn done c cs (subst (All IsColumn) (sym e) good) in
      let room : ltb (length done) max_number_of_columns ≡ true =
        ground (arith, few, ap (length {A = Column}) e, length-append done (c ∷ cs)) in
      let fits : ltb (length c.name) misc_length ≡ true = ground (arith, g.short) in
      let one : length (done ++ c ∷ []) ≡ length done + 1 = length-append done (c ∷ []) in
      let rest : names_loop big (length cs) (length done + 1) msg
          ≡ ok (some (map (λ d. d.name) cs)) =
        subst (λ (n : ℕ). names_loop big (length cs) n msg ≡ ok (some (map (λ d. d.name) cs))) one
          (names_loop_lem (done ++ c ∷ []) cs (append_assoc done (c ∷ []) cs ∙ e)) in
      rw (get_column_name_lem done c cs e, room, fits, rest) refl

  -- All names are read, in their order.
  pub names_lem : names_loop big (length cols) 0 msg ≡ ok (some (map (λ c. c.name) cols))
  names_lem = names_loop_lem [] cols refl
