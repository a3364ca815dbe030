-- ===== src/Cmd/Items.antt =====
-- Command lines written out of options and words, and the order that `sort_argv` gives them.
use pgvictoria.Prelude.{
  Bool, true, false, Option, none, some, List, [], ◌∷◌, ◌++◌, ◌≡◌, ◌∙◌, refl, ap, All,
}
use pgvictoria.Bytes.{Bytes}
use pgvictoria.Cmd.{
  CliOption, CliResult, is_dash, is_long, option_text, has_equals, name_of, find_option,
  option_requires_arg, waits, is_flag, is_joined, flag_pass, argument_pass, previous_waits,
  other_pass, sort_argv, requires,
}
use pgvictoria.Cmd.Sorted.{
  flag_pass-keeps, flag_pass-skips, argument_pass-skips, argument_pass-pair, other_pass-dash,
  other_pass-plain, other_pass-waited, plain-waits, plain-is_flag,
}

-- A flag, an option with its value, both by the long name or not, or a word.
pub data Item : Type 0 where
  flag : Bool → CliOption → Item
  valued : Bool → CliOption → Bytes → Item
  word : Bytes → Item

-- The name with its dashes.
abbrev pub dashed : Bool → CliOption → Bytes
dashed true o = b'-' ∷ b'-' ∷ o.long_name
dashed false o = b'-' ∷ o.short_name

abbrev pub render : List Item → List Bytes
render [] = []
render (flag l o ∷ items) = dashed l o ∷ render items
render (valued l o v ∷ items) = dashed l o ∷ v ∷ render items
render (word s ∷ items) = s ∷ render items

abbrev pub flag_results : List Item → List CliResult
flag_results [] = []
flag_results (flag l o ∷ items) =
    record { option_name = name_of l o; argument = none } ∷ flag_results items
flag_results (valued l o v ∷ items) = flag_results items
flag_results (word s ∷ items) = flag_results items

abbrev pub valued_results : List Item → List CliResult
valued_results [] = []
valued_results (flag l o ∷ items) = valued_results items
valued_results (valued l o v ∷ items) =
    record { option_name = name_of l o; argument = some v } ∷ valued_results items
valued_results (word s ∷ items) = valued_results items

abbrev pub words : List Item → List Bytes
words [] = []
words (flag l o ∷ items) = words items
words (valued l o v ∷ items) = words items
words (word s ∷ items) = s ∷ words items

-- The word, where it is the only one and is asked for.
abbrev pub only_word : Bool → List Bytes → Option Bytes
only_word true (s ∷ []) = some s
only_word use_last ws = none

-- The flags, and the options with their values behind them.
abbrev pub flags : List Item → List Bytes
flags [] = []
flags (flag l o ∷ items) = dashed l o ∷ flags items
flags (valued l o v ∷ items) = flags items
flags (word s ∷ items) = flags items

abbrev pub pairs : List Item → List Bytes
pairs [] = []
pairs (flag l o ∷ items) = pairs items
pairs (valued l o v ∷ items) = dashed l o ∷ v ∷ pairs items
pairs (word s ∷ items) = pairs items

module _ (options : List CliOption) where
  -- The name finds this very option, has no equals sign, and does not turn a short option into a
  -- long one.
  abbrev pub IsKnown : Bool → CliOption → Type 0
  IsKnown l o =
      (find_option options l (name_of l o) ≡ some o)
      × (has_equals (name_of l o) ≡ false)
      × (is_long (dashed l o) ≡ l)

  abbrev pub IsItem : Item → Type 0
  IsItem (flag l o) = IsKnown l o × (o.requires_arg ≡ false)
  IsItem (valued l o v) = IsKnown l o × (o.requires_arg ≡ true) × (is_dash v ≡ false)
  IsItem (word s) = is_dash s ≡ false

  pub option_text-dashed :
      (l : Bool) (o : CliOption) → is_long (dashed l o) ≡ l → option_text (dashed l o) ≡ name_of l o
  unfolding option_text is_long is_dash
  option_text-dashed true o h = refl
  option_text-dashed false o h = rw (h)

  pub is_dash-dashed : (l : Bool) (o : CliOption) → is_dash (dashed l o) ≡ true
  unfolding is_dash
  is_dash-dashed true o = refl
  is_dash-dashed false o = refl

  flag_kind :
      (l : Bool) (o : CliOption)
      → IsKnown l o
      → o.requires_arg ≡ false
      → (is_flag options (dashed l o) ≡ true)
        × (is_joined options (dashed l o) ≡ false)
        × (waits options (dashed l o) ≡ false)
  unfolding is_flag is_joined waits option_requires_arg requires
  flag_kind l o (f, e, g) r = (
    rw (is_dash-dashed l o, option_text-dashed l o g, e, g, f, r),
    rw (is_dash-dashed l o, option_text-dashed l o g, e),
    rw (is_dash-dashed l o, option_text-dashed l o g, e, g, f, r),
  )

  valued_kind :
      (l : Bool) (o : CliOption)
      → IsKnown l o
      → o.requires_arg ≡ true
      → (is_flag options (dashed l o) ≡ false)
        × (is_joined options (dashed l o) ≡ false)
        × (waits options (dashed l o) ≡ true)
  unfolding is_flag is_joined waits option_requires_arg requires
  valued_kind l o (f, e, g) r = (
    rw (is_dash-dashed l o, option_text-dashed l o g, e, g, f, r),
    rw (is_dash-dashed l o, option_text-dashed l o g, e),
    rw (is_dash-dashed l o, option_text-dashed l o g, e, g, f, r),
  )

  flag_pass-render :
      (items : List Item) → All IsItem items → flag_pass options (render items) ≡ flags items
  flag_pass-render [] h = unfold flag_pass in refl
  flag_pass-render (flag l o ∷ items) ((k, r), h) =
      flag_pass-keeps options (dashed l o) (render items) (flag_kind l o k r).0
      ∙ ap (λ (t : List Bytes). dashed l o ∷ t) (flag_pass-render items h)
  flag_pass-render (valued l o v ∷ items) ((k, r, d), h) =
      flag_pass-skips options (dashed l o) (v ∷ render items) (valued_kind l o k r).0
      ∙ flag_pass-skips options v (render items) (plain-is_flag options v d)
      ∙ flag_pass-render items h
  flag_pass-render (word w ∷ items) (d, h) =
      flag_pass-skips options w (render items) (plain-is_flag options w d)
      ∙ flag_pass-render items h

  plain-is_joined : (w : Bytes) → is_dash w ≡ false → is_joined options w ≡ false
  plain-is_joined w d = unfold is_joined in rw (d)

  argument_pass-render :
      (items : List Item) → All IsItem items → argument_pass options (render items) ≡ pairs items
  argument_pass-render [] h = unfold argument_pass in refl
  argument_pass-render (flag l o ∷ items) ((k, r), h) =
      let q = flag_kind l o k r in
      argument_pass-skips options (dashed l o) (render items) q.1 q.2 ∙ argument_pass-render items h
  argument_pass-render (valued l o v ∷ items) ((k, r, d), h) =
      let q = valued_kind l o k r in
      argument_pass-pair options (dashed l o) v (render items) q.1 q.2 d
      ∙ ap (λ (t : List Bytes). dashed l o ∷ v ∷ t) (argument_pass-render items h)
  argument_pass-render (word w ∷ items) (d, h) =
      argument_pass-skips options w (render items) (plain-is_joined w d) (plain-waits options w d)
      ∙ argument_pass-render items h

  other_pass-render :
      (p : Option Bytes) (items : List Item)
      → All IsItem items
      → previous_waits options p ≡ false
      → other_pass options p (render items) ≡ words items
  other_pass-render p [] h e = unfold other_pass in refl
  other_pass-render p (flag l o ∷ items) ((k, r), h) e =
      other_pass-dash options p (dashed l o) (render items) (is_dash-dashed l o)
      ∙ other_pass-render (some (dashed l o)) items h
          (unfold previous_waits in (flag_kind l o k r).2)
  other_pass-render p (valued l o v ∷ items) ((k, r, d), h) e =
      other_pass-dash options p (dashed l o) (v ∷ render items) (is_dash-dashed l o)
      ∙ other_pass-waited options (dashed l o) v (render items) (valued_kind l o k r).2 d
      ∙ other_pass-render (some v) items h (unfold previous_waits in plain-waits options v d)
  other_pass-render p (word w ∷ items) (d, h) e =
      other_pass-plain options p w (render items) d e
      ∙ ap (λ (t : List Bytes). w ∷ t)
          (other_pass-render (some w) items h (unfold previous_waits in plain-waits options w d))

  pub sort_argv-render :
      (items : List Item)
      → All IsItem items
      → sort_argv options (render items) ≡ flags items ++ (pairs items ++ words items)
  unfolding sort_argv
  sort_argv-render items h = rw (
    flag_pass-render items h,
    argument_pass-render items h,
    other_pass-render none items h (unfold previous_waits in refl),
  )
