-- ===== src/Cmd/Sorted.antt =====
-- `sort_argv` of cmd.c as a reordering of the arguments.
use pgvictoria.Prelude.{
  true, false, Option, none, some, List, [], ◌∷◌, ◌++◌, Bool-cases, arith, ◌≡◌, refl, inl, inr, ◌⊎◌,
}
use mathlib.Core.List.{Perm, perm_middle}
use mathlib.Core.List.Perm
use pgvictoria.Bytes.{Bytes}
use pgvictoria.Cmd.{
  CliOption, is_dash, waits, is_flag, is_joined, flag_pass, argument_pass, previous_waits,
  other_pass, sort_argv,
}

-- `x` may stand in front of the third of three lists, or of all.
middle : (x : Bytes) (p q r : List Bytes) → Perm (p ++ (q ++ (x ∷ r))) (x ∷ (p ++ (q ++ r)))
middle x p q r = Perm.trans (Perm.append_left p (perm_middle q r)) (perm_middle p (q ++ r))

module _ (options : List CliOption) where
  -- What an argument can be.
  kinds :
      (a : Bytes)
      → ((is_dash a ≡ false)
          × (is_flag options a ≡ false)
          × (is_joined options a ≡ false)
          × (waits options a ≡ false))
        ⊎ ((is_dash a ≡ true)
            × (is_flag options a ≡ true)
            × (is_joined options a ≡ false)
            × (waits options a ≡ false))
        ⊎ ((is_dash a ≡ true)
            × (is_flag options a ≡ false)
            × (is_joined options a ≡ true)
            × (waits options a ≡ false))
        ⊎ ((is_dash a ≡ true)
            × (is_flag options a ≡ false)
            × (is_joined options a ≡ false)
            × (waits options a ≡ true))
  unfolding is_flag is_joined waits
  kinds a = ground arith

  pub other_pass-dash :
      (p : Option Bytes) (b : Bytes) (args : List Bytes)
      → is_dash b ≡ true
      → other_pass options p (b ∷ args) ≡ other_pass options (some b) args
  other_pass-dash p b args d = unfold other_pass in rw (d)

  pub other_pass-plain :
      (p : Option Bytes) (b : Bytes) (args : List Bytes)
      → is_dash b ≡ false
      → previous_waits options p ≡ false
      → other_pass options p (b ∷ args) ≡ b ∷ other_pass options (some b) args
  other_pass-plain p b args d w = unfold other_pass in rw (d, w)

  pub flag_pass-keeps :
      (a : Bytes) (args : List Bytes)
      → is_flag options a ≡ true
      → flag_pass options (a ∷ args) ≡ a ∷ flag_pass options args
  flag_pass-keeps a args f = unfold flag_pass in rw (f)

  pub flag_pass-skips :
      (a : Bytes) (args : List Bytes)
      → is_flag options a ≡ false
      → flag_pass options (a ∷ args) ≡ flag_pass options args
  flag_pass-skips a args f = unfold flag_pass in rw (f)

  pub argument_pass-skips :
      (a : Bytes) (args : List Bytes)
      → is_joined options a ≡ false
      → waits options a ≡ false
      → argument_pass options (a ∷ args) ≡ argument_pass options args
  unfolding argument_pass
  argument_pass-skips a [] j v = unfold argument_pass in rw (j, v)
  argument_pass-skips a (b ∷ args) j v = rw (argument_pass, j, v)

  argument_pass-joined :
      (a : Bytes) (args : List Bytes)
      → is_joined options a ≡ true
      → argument_pass options (a ∷ args) ≡ a ∷ argument_pass options args
  unfolding argument_pass
  argument_pass-joined a [] j = unfold argument_pass in rw (j)
  argument_pass-joined a (b ∷ args) j = rw (argument_pass, j)

  pub argument_pass-pair :
      (a b : Bytes) (args : List Bytes)
      → is_joined options a ≡ false
      → waits options a ≡ true
      → is_dash b ≡ false
      → argument_pass options (a ∷ b ∷ args) ≡ a ∷ b ∷ argument_pass options args
  unfolding argument_pass
  argument_pass-pair a b args j v d = rw (argument_pass, j, v, d)

  argument_pass-lone :
      (a b : Bytes) (args : List Bytes)
      → is_joined options a ≡ false
      → waits options a ≡ true
      → is_dash b ≡ true
      → argument_pass options (a ∷ b ∷ args) ≡ a ∷ argument_pass options (b ∷ args)
  unfolding argument_pass
  argument_pass-lone a b args j v d = rw (argument_pass, j, v, d)

  argument_pass-last :
      (a : Bytes)
      → is_joined options a ≡ false
      → waits options a ≡ true
      → argument_pass options (a ∷ []) ≡ a ∷ []
  argument_pass-last a j v = unfold argument_pass in rw (j, v)

  -- Behind an option that waits for it, an argument without a dash is left out.
  pub other_pass-waited :
      (a b : Bytes) (args : List Bytes)
      → waits options a ≡ true
      → is_dash b ≡ false
      → other_pass options (some a) (b ∷ args) ≡ other_pass options (some b) args
  other_pass-waited a b args v d = unfold other_pass previous_waits in rw (d, v)

  pub plain-waits : (b : Bytes) → is_dash b ≡ false → waits options b ≡ false
  plain-waits b d = unfold waits in rw (d)

  pub plain-is_flag : (b : Bytes) → is_dash b ≡ false → is_flag options b ≡ false
  plain-is_flag b d = unfold is_flag in rw (d)

  Sorts : List Bytes → Type 0
  Sorts args =
      (p : Option Bytes)
      → previous_waits options p ≡ false
      → Perm (flag_pass options args ++ (argument_pass options args ++ other_pass options p args))
          args

  -- The same behind an option `a` that waits for an argument.
  SortsBehind : Bytes → List Bytes → Type 0
  SortsBehind a args =
      is_joined options a ≡ false
      → waits options a ≡ true
      → Perm
          (flag_pass options args
            ++ (argument_pass options (a ∷ args) ++ other_pass options (some a) args))
          (a ∷ args)

  Sorts-nil : Sorts []
  unfolding Sorts flag_pass argument_pass other_pass
  Sorts-nil p w = Perm.refl []

  behind_last : (a : Bytes) → SortsBehind a []
  unfolding SortsBehind
  behind_last a j v =
      rw (argument_pass-last a j v) (unfold flag_pass other_pass in Perm.refl (a ∷ []))

  behind :
      (a b : Bytes) (args : List Bytes) → Sorts (b ∷ args) → Sorts args → SortsBehind a (b ∷ args)
  unfolding Sorts SortsBehind
  behind a b args ihb ih j v = elim (Bool-cases (is_dash b)) [
    | inl d ↦
        rw (argument_pass-lone a b args j v d, other_pass-dash (some a) b args d)
          (Perm.trans (perm_middle (flag_pass options (b ∷ args)) _) (
            Perm.cons a
              (rw (other_pass-dash none b args d) at (ihb none (unfold previous_waits in refl)))))
    | inr d ↦
        rw
          (
            argument_pass-pair a b args j v d,
            flag_pass-skips b args (plain-is_flag b d),
            other_pass-waited a b args v d,
          )
          (Perm.trans (perm_middle (flag_pass options args) _) (
            Perm.cons a (
              Perm.trans (perm_middle (flag_pass options args) _)
                (Perm.cons b (ih (some b) (unfold previous_waits in plain-waits b d))))))
  ]

  Sorts-cons : (a : Bytes) (args : List Bytes) → Sorts args → SortsBehind a args → Sorts (a ∷ args)
  unfolding Sorts SortsBehind
  Sorts-cons a args ih w p e = elim (kinds a) [
    | inl (d, f, j, v) ↦
        rw (flag_pass-skips a args f, argument_pass-skips a args j v, other_pass-plain p a args d e)
          (Perm.trans (middle a (flag_pass options args) (argument_pass options args) _)
            (Perm.cons a (ih (some a) (unfold previous_waits in v))))
    | inr k ↦ elim k [
      | inl (d, f, j, v) ↦
          rw (flag_pass-keeps a args f, argument_pass-skips a args j v, other_pass-dash p a args d)
            (Perm.cons a (ih (some a) (unfold previous_waits in v)))
      | inr m ↦ elim m [
        | inl (d, f, j, v) ↦
            rw (flag_pass-skips a args f, argument_pass-joined a args j, other_pass-dash p a args d)
              (Perm.trans (perm_middle (flag_pass options args) _)
                (Perm.cons a (ih (some a) (unfold previous_waits in v))))
        | inr (d, f, j, v) ↦ rw (flag_pass-skips a args f, other_pass-dash p a args d) (w j v)
      ]
    ]
  ]

  sort_pass : (args : List Bytes) → Sorts args
  sort_pass [] = Sorts-nil
  sort_pass (a ∷ []) = Sorts-cons a [] (sort_pass []) (behind_last a)
  sort_pass (a ∷ b ∷ args) =
      Sorts-cons a (b ∷ args) (sort_pass (b ∷ args))
        (behind a b args (sort_pass (b ∷ args)) (sort_pass args))

  -- Reordering loses no argument, adds none and repeats none.
  pub sort_argv-Perm : (args : List Bytes) → Perm (sort_argv options args) args
  unfolding sort_argv Sorts
  sort_argv-Perm args = sort_pass args none (unfold previous_waits in refl)
