-- ===== src/Guc/Laws.antt =====
-- When `pgvictoria_check_guc` reports a difference, by the rule that applies to the setting.
use pgvictoria.Prelude.{
  ◌≡◌, ◌↔◌, ◌⊎◌, inl, inr, ◌∙◌, refl, sym, ap, subst, true, false, not, Option, none, some, [], ◌∷◌,
  ◌++◌, map, append-nil, append_assoc, arith, if◌then◌else◌, ◌==◌,
}
use pgvictoria.Bytes.{Bytes, text, str_eq, case_eq, is_space, to_lower}
use pgvictoria.Bytes.Laws.{str_eq→eq, str_eq_refl, str_eq-false}
use pgvictoria.Bytes.Trim.{AllPass, IsTrimmed, drop_both}
use pgvictoria.Utils.Append.{or_empty}
use pgvictoria.Value.{ValueType, string, string_ref}
use pgvictoria.Guc.{
  strip_none, trim_start, trim_end, copy, guc_normalize, guc_equal, default_compare, check_guc,
}

-- A text less its hyphens.
unfoldable pub drop_hyphens : Bytes → Bytes
drop_hyphens [] = []
drop_hyphens (c ∷ s) = if c == b'-' then drop_hyphens s else c ∷ drop_hyphens s

copy_none :
    (s : Bytes) (r : Option Bytes)
    → or_empty (copy strip_none true s r) ≡ or_empty r ++ map to_lower s
unfolding copy
copy_none [] r = sym (append-nil (or_empty r))
copy_none (c ∷ s) r =
    copy_none s (some (or_empty r ++ to_lower c ∷ []))
    ∙ append_assoc (or_empty r) (to_lower c ∷ []) (map to_lower s)

-- A text with spaces round a trimmed core.
abbrev pub Padded : Bytes → Bytes → Type 0
Padded s v =
    (p q : Bytes) × AllPass is_space p
    × AllPass is_space q
    × IsTrimmed is_space s
    × (v ≡ p ++ (s ++ q))

trim-Padded : (s v : Bytes) → Padded s v → trim_end (trim_start v) ≡ s
unfolding trim_start trim_end
trim-Padded s v (p, q, hp, hq, hs, e) = rw e (drop_both is_space p s q hp hs hq)

normalize_none :
    (s v : Bytes) → Padded s v → or_empty (guc_normalize (some v) strip_none true) ≡ map to_lower s
unfolding guc_normalize
normalize_none s v h = rw (trim-Padded s v h) (copy_none s none)

not-str_eq : (a b : Bytes) → (not (str_eq a b) ≡ false) ↔ (a ≡ b)
not-str_eq a b = (
  λ h. str_eq→eq a b (ground arith),
  λ e. ap not (subst (λ x. str_eq a x ≡ true) e (str_eq_refl a)),
)

-- The names with a comparator of their own, in any case.
abbrev pub IsLocaleName : Option Bytes → Type 0
IsLocaleName none = ⊥
IsLocaleName (some n) =
    (map to_lower n ≡ text "lc_messages")
    ⊎ (map to_lower n ≡ text "lc_monetary")
    ⊎ (map to_lower n ≡ text "lc_numeric")
    ⊎ (map to_lower n ≡ text "lc_time")

special_missing :
    (name : Option Bytes) (b c : Bytes) (type : ValueType)
    → ¬ IsLocaleName name
    → check_guc name type (some b) (some c) ≡ default_compare type b c
special_missing none b c type h = unfold check_guc in refl
special_missing (some n) b c type h =
    let e1 = str_eq-false (map to_lower n) (text "lc_messages") (λ e. h (inl e)) in
    let e2 = str_eq-false (map to_lower n) (text "lc_monetary") (λ e. h (inr (inl e))) in
    let e3 = str_eq-false (map to_lower n) (text "lc_numeric") (λ e. h (inr (inr (inl e)))) in
    let e4 = str_eq-false (map to_lower n) (text "lc_time") (λ e. h (inr (inr (inr e)))) in
    unfold check_guc case_eq in rw (e1, e2, e3, e4, check_guc, case_eq)

abbrev pub IsStringType : ValueType → Type 0
IsStringType type = (type ≡ string) ⊎ (type ≡ string_ref)

default_string :
    (type : ValueType) (v w : Bytes)
    → IsStringType type
    → default_compare type v w ≡ (0, not (guc_equal v w strip_none true))
unfolding default_compare
default_string type v w (inl e) = rw e
default_string type v w (inr e) = rw e

-- Any other setting of a string type counts as changed exactly if the values, less the spaces round
-- them, differ in more than the case of letters.
check_guc_string :
    (name : Option Bytes) (type : ValueType) (a b : Bytes) {v w : Bytes}
    → ¬ IsLocaleName name
    → IsStringType type
    → Padded a v
    → Padded b w
    → ((check_guc name type (some v) (some w)).0 ≡ 0)
      × (((check_guc name type (some v) (some w)).1 ≡ false) ↔ (map to_lower a ≡ map to_lower b))
check_guc_string name type a b {v} {w} h t p q =
    rw (special_missing name v w type h, default_string type v w t)
      (unfold guc_equal in rw (normalize_none a v p, normalize_none b w q) (refl, not-str_eq _ _))

default_exact :
    (type : ValueType) (v w : Bytes)
    → ¬ IsStringType type
    → default_compare type v w ≡ (0, not (str_eq v w))
unfolding default_compare
default_exact string v w h = absurd (h (inl refl))
default_exact string_ref v w h = absurd (h (inr refl))
default_exact _ v w h = refl

-- Any other setting counts as changed exactly if the two values are not the same text.
check_guc_exact :
    (name : Option Bytes) (type : ValueType) (v w : Bytes)
    → ¬ IsLocaleName name
    → ¬ IsStringType type
    → ((check_guc name type (some v) (some w)).0 ≡ 0)
      × (((check_guc name type (some v) (some w)).1 ≡ false) ↔ (v ≡ w))
check_guc_exact name type v w h t =
    rw (special_missing name v w type h, default_exact type v w t) (refl, not-str_eq v w)
