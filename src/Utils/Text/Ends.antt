-- ===== src/Utils/Text/Ends.antt =====
-- The tests and cuts at either end of a text.
use pgvictoria.Prelude.{
  drop-append, take-append, ℕ, zero, suc, ◌+◌, ◌-◌, ◌^◌, ◌<◌, ◌≤◌, ◌≡◌, ◌↔◌, inl, inr, ◌∙◌, refl,
  sym, ap, true, false, leb, none, some, [], ◌∷◌, ◌++◌, ◌==◌, length, take, drop, arith,
  length-append, All, Bool-cases, &&_split, ||_split, ==_iff, ==_refl, take-append-drop, le→leb,
}
use pgvictoria.Bytes.{Bytes, text}
use pgvictoria.Bytes.Laws.{str_eq→eq, str_eq_refl}
use pgvictoria.Utils.Append.{append}
use pgvictoria.Utils.Text.{
  starts, starts_with, strip_extension, ends, ends_with, contains, remove_prefix_loop, removed,
  no_end, removal, remove_prefix, remove_suffix, before_last, get_parent_dir,
}

starts_iff : (str prefix : Bytes) → (starts str prefix ≡ true) ↔ ((r : Bytes) × (str ≡ prefix ++ r))
unfolding starts
starts_iff str prefix = (
  λ h. (
    drop (length prefix) str,
    sym (take-append-drop (length prefix) str)
        ∙ ap (λ (t : Bytes). t ++ drop (length prefix) str) (sym (str_eq→eq _ _ h)),
  ),
  λ r. rw r.1 (rw (take-append prefix r.0) (str_eq_refl prefix)),
)

-- `pgvictoria_starts_with` holds exactly of the texts that are the prefix with something behind it.
starts_with_iff :
    (str prefix : Bytes)
    → (starts_with (some str) prefix ≡ true) ↔ ((r : Bytes) × (str ≡ prefix ++ r))
unfolding starts_with
starts_with_iff str prefix = starts_iff str prefix

ends-append : (r suffix : Bytes) → ends (r ++ suffix) suffix ≡ true
unfolding ends
ends-append r suffix =
    let l = length-append r suffix in
    let e : length (r ++ suffix) - length suffix ≡ length r = omega (arith, l) in
    rw (le→leb (length suffix) (length (r ++ suffix)) (omega (arith, l)), e, drop-append r suffix)
      (str_eq_refl suffix)

ends-split :
    (str suffix : Bytes)
    → ends str suffix ≡ true
    → str ≡ take (length str - length suffix) str ++ suffix
unfolding ends
ends-split str suffix h =
    sym (take-append-drop (length str - length suffix) str)
    ∙ ap (λ (t : Bytes). take (length str - length suffix) str ++ t)
        (str_eq→eq _ _ (&&_split _ _ h).1)

-- `pgvictoria_ends_with` holds exactly of the texts that are the suffix with something before it.
ends_with_iff :
    (str suffix : Bytes)
    → (ends_with (some str) (some suffix) ≡ true) ↔ ((r : Bytes) × (str ≡ r ++ suffix))
unfolding ends_with
ends_with_iff str suffix = (
  λ h. (take (length str - length suffix) str, ends-split str suffix h),
  λ r. rw r.1 (ends-append r.0 suffix),
)

contains-starts : (str s : Bytes) → starts str s ≡ true → contains str s ≡ true
unfolding contains
contains-starts [] s h = h
contains-starts (c ∷ str) s h = rw h

contains-append : (a s b : Bytes) → contains (a ++ (s ++ b)) s ≡ true
contains-append [] s b = contains-starts (s ++ b) s ((starts_iff (s ++ b) s).1 (b, refl))
contains-append (c ∷ a) s b = contains_behind c (a ++ (s ++ b)) s (contains-append a s b)
  where
    contains_behind : (x : ℕ) (t u : Bytes) → contains t u ≡ true → contains (x ∷ t) u ≡ true
    contains_behind x t u h = unfold contains in ground arith

contains-split : (str s : Bytes) → contains str s ≡ true → (a b : Bytes) × (str ≡ a ++ (s ++ b))
unfolding contains
contains-split [] s h = let r = (starts_iff [] s).0 h in ([], r.0, r.1)
contains-split (c ∷ str) s h = elim (||_split _ _ h) [
  | inl e ↦ let r = (starts_iff (c ∷ str) s).0 e in ([], r.0, r.1)
  | inr e ↦ let r = contains-split str s e in (c ∷ r.0, r.1, ap (λ (t : Bytes). c ∷ t) r.2)
]

-- `pgvictoria_contains` holds exactly of the texts in which the other one stands somewhere.
contains_iff : (str s : Bytes) → (contains str s ≡ true) ↔ ((a b : Bytes) × (str ≡ a ++ (s ++ b)))
contains_iff str s = (contains-split str s, λ r. rw r.2 (contains-append r.0 s r.1))

-- `pgvictoria_remove_suffix` takes the suffix off a text that ends in it; a text that does not is
-- copied, and the copy of the empty text is NULL.
remove_suffix_lem :
    (r str suffix : Bytes)
    → ends str suffix ≡ false
    → (remove_suffix (some (r ++ suffix)) (some suffix) ≡ some r)
      × (remove_suffix (some str) (some suffix) ≡ append none (some str))
unfolding remove_suffix
remove_suffix_lem r str suffix h =
    let e : length (r ++ suffix) - length suffix ≡ length r =
      omega (arith, length-append r suffix) in
    (rw (ends-append r suffix, e) (ap some (take-append r suffix)), rw h)

drop-nil : (n : ℕ) → drop {A = ℕ} n [] ≡ []
drop-nil zero = refl
drop-nil (suc n) = refl

-- The two texts agree as far as both go.
abbrev pub Agree : Bytes → Bytes → Type 0
Agree [] t = Unit
Agree (x ∷ s) [] = Unit
Agree (x ∷ s) (y ∷ t) = (x ≡ y) × Agree s t

remove_prefix-Agree :
    (fuel : ℕ) (s t : Bytes)
    → length s ≤ fuel
    → Agree s t
    → remove_prefix_loop fuel s t ≡ some (drop (length t) s)
unfolding remove_prefix_loop
remove_prefix-Agree fuel [] t h a = ap some (sym (drop-nil (length t)))
remove_prefix-Agree zero (x ∷ s) t h a = absurd (omega arith)
remove_prefix-Agree (suc fuel) (x ∷ s) [] h a = refl
remove_prefix-Agree (suc fuel) (x ∷ s) (y ∷ t) h a =
    rw ((==_iff x y).1 a.0, remove_prefix_loop) (remove_prefix-Agree fuel s t (omega arith) a.1)

remove_prefix_stuck : (fuel : ℕ) (s t : Bytes) → ¬ Agree s t → remove_prefix_loop fuel s t ≡ none
unfolding remove_prefix_loop
remove_prefix_stuck fuel [] t n = absurd (n tt)
remove_prefix_stuck fuel (x ∷ s) [] n = absurd (n tt)
remove_prefix_stuck zero (x ∷ s) (y ∷ t) n = refl
remove_prefix_stuck (suc fuel) (x ∷ s) (y ∷ t) n = elim (Bool-cases (x == y)) [
  | inl e ↦ rw (e, remove_prefix_loop) (remove_prefix_stuck fuel s t (λ a. n ((==_iff x y).0 e, a)))
  | inr e ↦ rw (e, remove_prefix_loop) (remove_prefix_stuck fuel (x ∷ s) (y ∷ t) n)
]

remove_prefix-loop :
    (fuel : ℕ) (s prefix : Bytes)
    → length s + 1 < 2 ^ 31
    → length prefix < 2 ^ 31
    → remove_prefix fuel s prefix ≡ removal (remove_prefix_loop fuel s prefix)
unfolding remove_prefix
remove_prefix-loop fuel s prefix hs hp =
    let e : leb (2 ^ 31 - 1) (length s) ≡ false = ground (arith, hs) in
    let f : leb (2 ^ 31) (length prefix) ≡ false = ground (arith, hp) in rw (e, f) refl

-- If text and prefix agree as far as both go, and the text is below 2^31 - 1 characters and the
-- prefix below 2^31, `pgvictoria_remove_prefix` comes back within as many
-- rounds as the text has characters, with the text behind the prefix.
remove_prefix_lem :
    (s prefix : Bytes)
    → length s + 1 < 2 ^ 31
    → length prefix < 2 ^ 31
    → Agree s prefix
    → remove_prefix (length s) s prefix ≡ removed (drop (length prefix) s)
unfolding removal
remove_prefix_lem s prefix hs hp h =
    remove_prefix-loop (length s) s prefix hs hp
    ∙ ap removal (remove_prefix-Agree (length s) s prefix (omega arith) h)

-- If the text is below 2^31 - 1 characters, and the prefix below 2^31, and they differ at a place that both have, the loop of
-- `pgvictoria_remove_prefix` does not end, however many rounds it is given.
pub remove_prefix_stays :
    (s prefix : Bytes) (fuel : ℕ)
    → length s + 1 < 2 ^ 31
    → length prefix < 2 ^ 31
    → ¬ Agree s prefix
    → remove_prefix fuel s prefix ≡ no_end
unfolding removal
remove_prefix_stays s prefix fuel hs hp n =
    remove_prefix-loop fuel s prefix hs hp ∙ ap removal (remove_prefix_stuck fuel s prefix n)

abbrev pub Without : ℕ → Bytes → Type 0
Without c = All (λ x. (x == c) ≡ false)

before_last-none : (c : ℕ) (s : Bytes) → Without c s → before_last c s ≡ none
unfolding before_last
before_last-none c [] h = refl
before_last-none c (x ∷ s) h = rw (before_last-none c s h.1, before_last, h.0)

before_last-append : (c : ℕ) (s t : Bytes) → Without c t → before_last c (s ++ c ∷ t) ≡ some s
unfolding before_last
before_last-append c [] t h = rw (before_last-none c t h, before_last, ==_refl c)
before_last-append c (x ∷ s) t h = rw (before_last-append c s t h, before_last)

-- `pgvictoria_strip_extension` cuts a name at its last dot.
strip_extension_lem :
    (s ext : Bytes) → Without b'.' ext → strip_extension (s ++ b'.' ∷ ext) ≡ some s
unfolding strip_extension
strip_extension_lem s ext h = rw (before_last-append b'.' s ext h, strip_extension)

-- The parent of `dir/name` is `dir`, that of `/name` is `/`, and that of a name without a slash is
-- the current directory.
get_parent_dir_lem :
    (c : ℕ) (dir name : Bytes)
    → Without b'/' name
    → (get_parent_dir (some ((c ∷ dir) ++ b'/' ∷ name)) ≡ some (c ∷ dir))
      × (get_parent_dir (some (b'/' ∷ name)) ≡ some (text "/"))
      × (get_parent_dir (some name) ≡ some (text "."))
unfolding get_parent_dir
get_parent_dir_lem c dir name h = (
  rw (before_last-append b'/' (c ∷ dir) name h, get_parent_dir),
  rw (before_last-append b'/' [] name h, get_parent_dir),
  rw (before_last-none b'/' name h, get_parent_dir),
)
