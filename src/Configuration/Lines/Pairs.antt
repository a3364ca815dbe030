-- ===== src/Configuration/Lines/Pairs.antt =====
-- What `extract_key_value` reads from a line `key = value # comment`.
use pgvictoria.Prelude.{
  ℕ, ◌<◌, ◌≡◌, ◌∙◌, refl, ap, ap₂, ◌≤◌, Bool, true, false, not, ◌||◌, none, some, [], ◌∷◌, ◌++◌,
  ◌==◌, length, arith, All, reverse,
}
use pgvictoria.Bytes.{Bytes, has, drop_while, drop_end}
use pgvictoria.Bytes.Trim.{
  AllPass, FirstFails, IsTrimmed, drop_while-append, drop_both, drop_end-append,
}
use pgvictoria.Configuration.Units.{misc_length}
use pgvictoria.Configuration.Lines.{
  pair, split_equal, is_blank_or_quote, is_right_skip, is_right_end, right_loop, pair_of,
  extract_key_value,
}

abbrev pub NoEqual : Bytes → Type 0
NoEqual = All (λ c. (c == b'=') ≡ false)

abbrev pub NoNewline : Bytes → Type 0
NoNewline = All (λ c. (c == b'\n') ≡ false)

abbrev pub NoHash : Bytes → Type 0
NoHash = All (λ c. (c == b'#') ≡ false)

-- The end of the text, the end of the line, or a comment.
abbrev pub Ends : Bytes → Type 0
Ends [] = Unit
Ends (c ∷ s) = (c == b'\n' || c == b'#') ≡ true

split_equal_lem : (a s : Bytes) → NoEqual a → split_equal (a ++ b'=' ∷ s) ≡ some (a, b'=' ∷ s)
unfolding split_equal
split_equal_lem [] s h = refl
split_equal_lem (c ∷ a) s h = rw (h.0, split_equal_lem a s h.1, split_equal)

split_equal-none : (s : Bytes) → NoEqual s → split_equal s ≡ none
unfolding split_equal
split_equal-none [] h = refl
split_equal-none (c ∷ s) h = rw (h.0, split_equal-none s h.1, split_equal)

has_newline : (s : Bytes) → NoNewline s → has b'\n' s ≡ false
unfolding has
has_newline [] h = refl
has_newline (c ∷ s) h = rw (h.0, has_newline s h.1)

-- The part of the loop that keeps characters.
right_loop_kept :
    (s rest : Bytes) → NoNewline s → NoHash s → Ends rest → right_loop true true (s ++ rest) ≡ s
unfolding right_loop
right_loop_kept [] [] h k e = refl
right_loop_kept [] (c ∷ rest) h k e = ground arith
right_loop_kept (c ∷ s) rest h k e =
    rw (h.0, k.0) (ap (λ (r : Bytes). c ∷ r) (right_loop_kept s rest h.1 k.1 e))

skip_no_newline : (c : ℕ) → is_right_skip c ≡ true → (c == b'\n') ≡ false
unfolding is_right_skip
skip_no_newline c h = ground arith

hash_no_skip : (c : ℕ) → (c == b'#') ≡ true → is_right_skip c ≡ false
unfolding is_right_skip
hash_no_skip c h = ground arith

right_loop_skips :
    (r s rest : Bytes)
    → AllPass is_right_skip r
    → FirstFails is_right_skip s
    → NoNewline s
    → NoHash s
    → Ends rest
    → right_loop true false (r ++ (s ++ rest)) ≡ s
unfolding right_loop
right_loop_skips [] [] [] a f h k e = refl
right_loop_skips [] [] (c ∷ rest) a f h k e = ground (arith, hash_no_skip c)
right_loop_skips [] (c ∷ s) rest a f h k e =
    rw (h.0, f, k.0) (ap (λ (r : Bytes). c ∷ r) (right_loop_kept s rest h.1 k.1 e))
right_loop_skips (c ∷ r) s rest a f h k e =
    rw (skip_no_newline c a.0, a.0) (right_loop_skips r s rest a.1 f h k e)

pair_of_lem :
    (left right : Bytes)
    → length left < misc_length
    → length right < misc_length
    → pair_of left right ≡ pair (drop_end is_blank_or_quote left) (drop_end is_right_end right)
unfolding pair_of
pair_of_lem left right ll lr = ground arith

length-drop_while : (p : ℕ → Bool) (s : Bytes) → length (drop_while p s) ≤ length s
unfolding drop_while
length-drop_while p [] = omega arith
length-drop_while p (c ∷ s) = ground (arith, length-drop_while p s)

extract_of :
    (str before equal left right : Bytes)
    → split_equal str ≡ some (before, equal)
    → drop_while is_blank_or_quote before ≡ left
    → right_loop (not (has b'\n' before)) false equal ≡ right
    → length left < misc_length
    → length right < misc_length
    → extract_key_value str ≡ pair (drop_end is_blank_or_quote left) (drop_end is_right_end right)
unfolding extract_key_value
extract_of str before equal left right hs hl hr ll lr =
    rw (hs, extract_key_value) (rw (hl, hr) (pair_of_lem left right ll lr))

equal_skipped : is_right_skip b'=' ≡ true
unfolding is_right_skip
equal_skipped = refl

-- A line `key = value` gives the key and the value, whatever blanks and quotes stand round either of
-- them, with or without a comment or a newline at its end. The key holds no equals sign, the value
-- no hash sign, and neither a newline; the text kept for either before its trailing blanks are cut
-- has fewer than 128 bytes.
pub extract_key_value_lem :
    (p k q r v t rest : Bytes)
    → AllPass is_blank_or_quote p
    → IsTrimmed is_blank_or_quote k
    → AllPass is_blank_or_quote q
    → NoEqual (p ++ (k ++ q))
    → NoNewline (p ++ (k ++ q))
    → length (k ++ q) < misc_length
    → AllPass is_right_skip r
    → FirstFails is_right_skip (v ++ t)
    → FirstFails is_right_end (reverse v)
    → AllPass is_right_end t
    → NoNewline (v ++ t)
    → NoHash (v ++ t)
    → length (v ++ t) < misc_length
    → Ends rest
    → extract_key_value ((p ++ (k ++ q)) ++ b'=' ∷ (r ++ ((v ++ t) ++ rest))) ≡ pair k v
extract_key_value_lem p k q r v t rest hp hk hq ne nn lk hr hv hv' ht nv nh lv he =
    extract_of _ before equal (drop_while is_blank_or_quote before) (v ++ t)
      (split_equal_lem before _ ne) refl right left_room lv
    ∙ ap₂ pair (drop_both is_blank_or_quote p k q hp hk hq)
        (drop_end-append is_right_end v t hv' ht)
  where
    before : Bytes
    before = p ++ (k ++ q)

    equal : Bytes
    equal = b'=' ∷ (r ++ ((v ++ t) ++ rest))

    right : right_loop (not (has b'\n' before)) false equal ≡ v ++ t
    right =
        rw (has_newline before nn)
          (right_loop_skips (b'=' ∷ r) (v ++ t) rest (equal_skipped, hr) hv nv nh he)

    left_room : length (drop_while is_blank_or_quote before) < misc_length
    left_room =
        rw (drop_while-append is_blank_or_quote p (k ++ q) hp)
          (omega (arith, length-drop_while is_blank_or_quote (k ++ q)))
