-- ===== src/Configuration/Lines/Trimmed.antt =====
-- What is left of a line, and when the cut stores behind the buffer.
use pgvictoria.Prelude.{
  All-append, ℕ, suc, ◌+◌, ◌-◌, ◌≡◌, ◌∙◌, refl, ap, subst, Bool, true, false, ◌||◌, Option, none,
  some, [], ◌∷◌, ◌++◌, ltb, ◌==◌, if◌then◌else◌, length, take, arith, All, append_assoc, append-nil,
  length-append, reverse, reverse-append,
}
use pgvictoria.Bytes.{Bytes, is_space, drop_while}
use pgvictoria.Bytes.Trim.{AllPass, FirstFails, IsTrimmed, drop_while-append, drop_while-id}
use pgvictoria.Configuration.Lines.{
  Copy, copy_round, copy_loop, Trimming, trimmed, overrun, terminate,
  remove_leading_whitespace_and_comments,
}

-- No comment starts in the text.
abbrev pub NoComment : Bytes → Type 0
NoComment = All (λ c. (c == b';' || c == b'#') ≡ false)

-- Nothing, or a comment.
abbrev pub CommentOrEnd : Bytes → Type 0
CommentOrEnd [] = Unit
CommentOrEnd (c ∷ s) = (c == b';' || c == b'#') ≡ true

copy_loop-append :
    (st : Copy) (s rest : Bytes)
    → NoComment s
    → copy_loop st (s ++ rest) ≡ copy_loop (copy_loop st s) rest
unfolding copy_loop
copy_loop-append st [] rest h = refl
copy_loop-append st (c ∷ s) rest h = rw h.0 (copy_loop-append (copy_round st c) s rest h.1)

copy_loop-end : (st : Copy) (rest : Bytes) → CommentOrEnd rest → copy_loop st rest ≡ st
unfolding copy_loop
copy_loop-end st [] h = refl
copy_loop-end st (c ∷ s) h = rw h

-- The last character that is no space, among those from index `i` on.
last_from : ℕ → Option ℕ → Bytes → Option ℕ
last_from i o [] = o
last_from i o (c ∷ s) = last_from (i + 1) (if is_space c then o else some i) s

copy_loop_lem :
    (i : ℕ) (o : Option ℕ) (r s : Bytes)
    → NoComment s
    → copy_loop (record { index = i; last = o; result = some r }) s
      ≡ record { index = i + length s; last = last_from i o s; result = some (r ++ s) }
unfolding copy_loop copy_round last_from
copy_loop_lem i o r [] h = ground (arith, append-nil r)
copy_loop_lem i o r (c ∷ s) h = rw h.0 (
    copy_loop_lem (i + 1) (if is_space c then o else some i) (r ++ c ∷ []) s h.1
    ∙ ground (arith, append_assoc r (c ∷ []) s))

last_from-append :
    (i : ℕ) (o : Option ℕ) (s t : Bytes)
    → last_from i o (s ++ t) ≡ last_from (i + length s) (last_from i o s) t
unfolding last_from
last_from-append i o [] t = ap (λ (n : ℕ). last_from n o t) (omega arith)
last_from-append i o (c ∷ s) t =
    last_from-append (i + 1) (if is_space c then o else some i) s t
    ∙ ap (λ (n : ℕ). last_from n (last_from i o (c ∷ s)) t) (omega arith)

last_from-spaces : (i : ℕ) (o : Option ℕ) (s : Bytes) → AllPass is_space s → last_from i o s ≡ o
unfolding last_from
last_from-spaces i o [] h = refl
last_from-spaces i o (c ∷ s) h = rw h.0 (last_from-spaces (i + 1) o s h.1)

FirstFails-prefix : (p : ℕ → Bool) (s t : Bytes) → FirstFails p (s ++ t) → FirstFails p s
FirstFails-prefix p [] t h = tt
FirstFails-prefix p (c ∷ s) t h = h

last_from-core :
    (i : ℕ) (o : Option ℕ) (c : ℕ) (s : Bytes)
    → FirstFails is_space (reverse (c ∷ s))
    → last_from i o (c ∷ s) ≡ some (i + length s)
unfolding last_from
last_from-core i o c [] h = rw h (ap some (omega arith))
last_from-core i o c (d ∷ s) h =
    last_from-core (i + 1) (if is_space c then o else some i) d s (
      FirstFails-prefix is_space (reverse (d ∷ s)) (c ∷ [])
        (subst (FirstFails is_space) (reverse-append (c ∷ []) (d ∷ s)) h))
    ∙ ap some (omega arith)

take-append : (n : ℕ) (s t : Bytes) → take (length s + n) (s ++ t) ≡ s ++ take n t
take-append n [] t = ap (λ (m : ℕ). take m t) (omega arith)
take-append n (c ∷ s) t =
    ap (λ (m : ℕ). take m (c ∷ (s ++ t))) suc-add ∙ ap (λ (r : Bytes). c ∷ r) (take-append n s t)
  where
    suc-add : suc (length s) + n ≡ suc (length s + n)
    suc-add = omega arith

space-NoComment : (s : Bytes) → AllPass is_space s → NoComment s
unfolding is_space
space-NoComment [] h = tt
space-NoComment (c ∷ s) h = (ground arith, space-NoComment s h.1)

copy_loop_start :
    (i c : ℕ) (s rest : Bytes)
    → NoComment (c ∷ s)
    → CommentOrEnd rest
    → copy_loop (record { index = i; last = none; result = none }) ((c ∷ s) ++ rest)
      ≡ record { index = i + 1 + length s; last = last_from i none (c ∷ s); result = some (c ∷ s) }
copy_loop_start i c s rest h k =
    copy_loop-append _ (c ∷ s) rest h
    ∙ copy_loop-end _ rest k
    ∙ (unfold copy_loop copy_round last_from in
        rw h.0 (copy_loop_lem (i + 1) (if is_space c then none else some i) (c ∷ []) s h.1))

terminate_lem :
    (i c : ℕ) (s trail : Bytes)
    → terminate (some (i + length s)) (some ((c ∷ s) ++ trail))
      ≡ (if ltb (length trail) i then overrun else trimmed (some ((c ∷ s) ++ take i trail)))
unfolding terminate
terminate_lem i c s trail =
    let e : i + length s + 1 ≡ length (c ∷ s) + i = omega arith in
    rw (e, take-append i (c ∷ s) trail) (ground (arith, length-append {0} s trail))

remove_lem :
    (s : Bytes) (i : ℕ) (st : Copy)
    → length s - length (drop_while is_space s) ≡ i
    → copy_loop (record { index = i; last = none; result = none }) (drop_while is_space s) ≡ st
    → remove_leading_whitespace_and_comments s ≡ terminate st.last st.result
unfolding remove_leading_whitespace_and_comments
remove_lem s i st h k = ap (λ (n : ℕ). finish n) h ∙ ap (λ (x : Copy). terminate x.last x.result) k
  where
    finish : ℕ → Trimming
    finish n =
        let x =
          copy_loop (record { index = n; last = none; result = none }) (drop_while is_space s) in
        terminate x.last x.result

-- What the line is cut to, with every part of the line named: `lead` spaces, a text that is not
-- empty, ends in no space and holds no comment sign, `trail` spaces, and nothing or a comment. The
-- cut is made `length lead` characters too late: without leading spaces exactly the text is left,
-- with some as many trailing spaces are kept, and if there are fewer the 0 is stored behind the
-- buffer.
pub remove_leading_whitespace_and_comments_lem :
    (lead trail comment : Bytes) (c : ℕ) (s : Bytes)
    → AllPass is_space lead
    → IsTrimmed is_space (c ∷ s)
    → NoComment (c ∷ s)
    → AllPass is_space trail
    → CommentOrEnd comment
    → remove_leading_whitespace_and_comments (lead ++ ((c ∷ s) ++ (trail ++ comment))) ≡ (
        if ltb (length trail) (length lead)
        then overrun
        else trimmed (some ((c ∷ s) ++ take (length lead) trail)))
remove_leading_whitespace_and_comments_lem lead trail comment c s hl ht hc ht' hx =
    rw body (
      rw (last ∙ last_from-core (length lead) none c s ht.1)
        (terminate_lem (length lead) c s trail))
  where
    line : Bytes
    line = lead ++ ((c ∷ s) ++ (trail ++ comment))

    rest : drop_while is_space line ≡ (c ∷ s) ++ (trail ++ comment)
    rest = drop_while-append is_space lead _ hl ∙ drop_while-id is_space _ ht.0

    index : length line - length (drop_while is_space line) ≡ length lead
    index = omega (arith, ap length rest, length-append {0} lead ((c ∷ s) ++ (trail ++ comment)))

    copied :
        copy_loop
          (record { index = length lead; last = none; result = none })
          (drop_while is_space line)
        ≡ record {
          index = length lead + 1 + length (s ++ trail);
          last = last_from (length lead) none ((c ∷ s) ++ trail);
          result = some ((c ∷ s) ++ trail);
        }
    copied =
        rw (rest, ← append_assoc (c ∷ s) trail comment)
          (copy_loop_start (length lead) c (s ++ trail) comment
            (All-append _ (c ∷ s) trail hc (space-NoComment trail ht')) hx)

    body :
        remove_leading_whitespace_and_comments line
        ≡ terminate (last_from (length lead) none ((c ∷ s) ++ trail)) (some ((c ∷ s) ++ trail))
    body = remove_lem line (length lead) _ index copied

    last : last_from (length lead) none ((c ∷ s) ++ trail) ≡ last_from (length lead) none (c ∷ s)
    last =
        last_from-append (length lead) none (c ∷ s) trail
        ∙ last_from-spaces (length lead + length (c ∷ s)) _ trail ht'
