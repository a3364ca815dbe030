-- ===== src/Deque/Spec.antt =====
-- What a deque promises, on the list of its items alone: each operation with its result, the items
-- behind it and the values that it destroys, the last one first.
use pgvictoria.Prelude.{
  ℕ, Bool, true, false, ◌||◌, Option, none, some, List, [], ◌∷◌, ◌++◌, ◌==◌, if◌then◌else◌, length,
}
use pgvictoria.Bytes.{Bytes}
use pgvictoria.Value.{Value, ValueType, ValueConfig, type_none, create, create_with_config}
use pgvictoria.Utils.Append.{append}
use pgvictoria.Utils.Text.{compare_string}
use pgvictoria.Deque.{
  Ptr, Cmd, ◌>>=◌, ◌>>◌, pure, Taken, add, add_with_config, poll, poll_last, peek, peek_last,
  deque_get, deque_exists, deque_empty, deque_size, remove, clear,
}
use pgvictoria.Deque.Shape.{Item}

-- An operation; the first argument of an addition is what `malloc` returns.
pub data Op : Type 0 where
  add_value : Ptr → Option Bytes → ℕ → ValueType → Op
  add_config : Ptr → Option Bytes → ℕ → Option ValueConfig → Op
  take_first take_last see_first see_last : Op
  look_up : Option Bytes → Op
  is_there : Option Bytes → Op
  drop_tag : Option Bytes → Op
  drop_all count_all ask_empty : Op

pub data Answer : Type 0 where
  done : Answer
  taken : Taken → Answer
  found : Option (Option Value) → Answer
  truth : Bool → Answer
  number : ℕ → Answer

-- The operation as deque.c runs it.
unfoldable pub run : Op → Cmd Answer
run (add_value n t d type) = do add n t d type; pure done
run (add_config n t d c) = do add_with_config n t d c; pure done
run take_first = do x ← poll; pure (taken x)
run take_last = do x ← poll_last; pure (taken x)
run see_first = do x ← peek; pure (taken x)
run see_last = do x ← peek_last; pure (taken x)
run (look_up t) = do v ← deque_get t; pure (found v)
run (is_there t) = do b ← deque_exists t; pure (truth b)
run (drop_tag t) = do n ← remove t; pure (number n)
run drop_all = do clear; pure done
run count_all = do n ← deque_size; pure (number n)
run ask_empty = do b ← deque_empty; pure (truth b)

unfoldable pub first_item : List Item → Option Item
first_item [] = none
first_item (x ∷ xs) = some x

unfoldable pub other_items : List Item → List Item
other_items [] = []
other_items (x ∷ xs) = xs

unfoldable pub last_item : List Item → Option Item
last_item [] = none
last_item (x ∷ []) = some x
last_item (x ∷ y ∷ xs) = last_item (y ∷ xs)

unfoldable pub init_items : List Item → List Item
init_items [] = []
init_items (x ∷ []) = []
init_items (x ∷ y ∷ xs) = x ∷ init_items (y ∷ xs)

-- The value of the first item with the tag; no tag and the empty tag find nothing.
unfoldable pub find_item : Option Bytes → List Item → Option (Option Value)
find_item none xs = none
find_item (some []) xs = none
find_item (some (c ∷ t)) [] = none
find_item (some (c ∷ t)) ((s, v) ∷ xs) =
    if compare_string (some (c ∷ t)) s then some v else find_item (some (c ∷ t)) xs

unfoldable pub is_found : Option (Option Value) → Bool
is_found none = false
is_found (some v) = true

-- The items without those that are dropped, and the values of those.
unfoldable pub kept : Option Bytes → Bool → List Item → List Item
kept t all [] = []
kept t all ((s, v) ∷ xs) =
    if all || compare_string s t then kept t all xs else (s, v) ∷ kept t all xs

unfoldable pub dropped : Option Bytes → Bool → List Item → List (Option Value)
dropped t all [] = []
dropped t all ((s, v) ∷ xs) =
    if all || compare_string s t then dropped t all xs ++ v ∷ [] else dropped t all xs

added : Option Bytes → Option Value → List Item → Answer × List Item × List (Option Value)
added t v xs = (done, xs ++ (append none t, v) ∷ [], [])

config_value : ℕ → Option ValueConfig → Option Value
config_value d none = create ValueType.ref d
config_value d (some c) = create_with_config d (some c)

unfoldable pub spec : Op → List Item → Answer × List Item × List (Option Value)
unfolding first_item other_items last_item init_items find_item is_found kept dropped added
    config_value
spec (add_value n t d type_none) xs = (done, xs, [])
spec (add_value n t d type) xs = added t (create type d) xs
spec (add_config n t d c) xs = added t (config_value d c) xs
spec take_first xs = (taken (first_item xs), other_items xs, [])
spec take_last xs = (taken (last_item xs), init_items xs, [])
spec see_first xs = (taken (first_item xs), xs, [])
spec see_last xs = (taken (last_item xs), xs, [])
spec (look_up t) xs = (found (find_item t xs), xs, [])
spec (is_there t) xs = (truth (is_found (find_item t xs)), xs, [])
spec (drop_tag none) xs = (number 0, xs, [])
spec (drop_tag (some t)) xs =
    (number (length (dropped (some t) false xs)), kept (some t) false xs, dropped (some t) false xs)
spec drop_all xs = (done, [], dropped none true xs)
spec count_all xs = (number (length xs), xs, [])
spec ask_empty xs = (truth (length xs == 0), xs, [])
