-- ===== src/Deque.antt =====
-- libpgvictoria/deque.c: a doubly linked list of tagged values between two nodes that hold none.
-- The model is one deque that is not NULL, and the memory of its nodes by field. What `malloc`
-- returns is an argument, the locks are left out, and a node that was freed, or NULL, is a fault.
-- `destroyed` lists the values on which `pgvictoria_value_destroy` was called, the last one first.
mod Links
mod Shape
mod Spec
mod Ends
mod Search
mod Remove
mod Refine
mod Runs
mod Tests
use pgvictoria.Prelude.{
  ℕ, zero, suc, ◌+◌, ◌-◌, ◌%◌, ◌^◌, Bool, true, false, not, ◌||◌, leb, Option, none, some, List, [],
  ◌∷◌, ◌==◌, if◌then◌else◌,
}
use pgvictoria.Bytes.{Bytes}
use pgvictoria.Value.{Value, ValueType, Stored, type_none, ValueConfig, create, create_with_config}
use pgvictoria.Utils.Append.{append}
use pgvictoria.Utils.Text.{compare_string}

abbrev pub Ptr : Type 0
Ptr = ℕ

abbrev pub null : Ptr
null = 0

-- struct deque, and the fields of every struct deque_node
pub record Store : Type 0 where
  pub live : Ptr → Bool
  pub next : Ptr → Ptr
  pub prev : Ptr → Ptr
  pub tag : Ptr → Option Bytes
  pub value : Ptr → Option Value
  pub destroyed : List (Option Value)
  pub start : Ptr
  pub end : Ptr
  pub size : ℕ

pub data Run (A : Type 0) : Type 0 where
  ok : A → Store → Run A
  fault : Run A
  out_of_fuel : Run A

abbrev pub Cmd : Type 0 → Type 0
Cmd A = Store → Run A

abbrev pub pure : {A : Type 0} → A → Cmd A
pure a st = ok a st

module _ {A B : Type 0} where
  abbrev pub and_then : Run A → (A → Cmd B) → Run B
  and_then (ok a st) k = k a st
  and_then fault k = fault
  and_then out_of_fuel k = out_of_fuel

  infixl 5 ◌>>=◌ ◌>>◌
  abbrev pub ◌>>=◌ : Cmd A → (A → Cmd B) → Cmd B
  m >>= k = λ st. and_then (m st) k

  abbrev pub ◌>>◌ : Cmd A → Cmd B → Cmd B
  m >> n = m >>= λ _. n

module _ {A : Type 0} where
  abbrev pub put : Ptr → A → (Ptr → A) → Ptr → A
  put p v f a = if a == p then v else f a

  -- A read of a field of the node at `p`.
  unfoldable pub read : (Store → Ptr → A) → Ptr → Cmd A
  read field p st = if st.live p then ok (field st p) st else fault

unfoldable pub get_next : Ptr → Cmd Ptr
unfolding read
get_next p = read (λ st. st.next) p

unfoldable pub get_prev : Ptr → Cmd Ptr
unfolding read
get_prev p = read (λ st. st.prev) p

unfoldable pub get_tag : Ptr → Cmd (Option Bytes)
unfolding read
get_tag p = read (λ st. st.tag) p

unfoldable pub get_value : Ptr → Cmd (Option Value)
unfolding read
get_value p = read (λ st. st.value) p

-- p->next = v and p->prev = v
unfoldable pub set_next : Ptr → Ptr → Cmd (Unit {0})
set_next p v st = if st.live p then ok tt (record st { next = put p v st.next }) else fault

unfoldable pub set_prev : Ptr → Ptr → Cmd (Unit {0})
set_prev p v st = if st.live p then ok tt (record st { prev = put p v st.prev }) else fault

unfoldable pub free : Ptr → Cmd (Unit {0})
free p st = if st.live p then ok tt (record st { live = put p false st.live }) else fault

abbrev pub get : Cmd Store
get st = ok st st

-- `size` is a uint32_t.
unfoldable pub grow : Cmd (Unit {0})
grow st = ok tt (record st { size = (st.size + 1) % 2 ^ 32 })

unfoldable pub shrink : Cmd (Unit {0})
shrink st = ok tt (record st { size = (st.size + (2 ^ 32 - 1)) % 2 ^ 32 })

unfoldable pub value_destroy : Option Value → Cmd (Unit {0})
value_destroy v st = ok tt (record st { destroyed = v ∷ st.destroyed })

-- A node at the address `n`, which `malloc` returned.
unfoldable pub deque_node_create : Ptr → Option Bytes → Option Value → Cmd (Unit {0})
unfolding append
deque_node_create n t v st = ok tt (record st {
  live = put n true st.live;
  next = put n null st.next;
  prev = put n null st.prev;
  tag = put n (append none t) st.tag;
  value = put n v st.value;
})

unfoldable pub deque_node_destroy : Ptr → Cmd (Unit {0})
unfolding get_value value_destroy free
deque_node_destroy p = do v ← get_value p; value_destroy v; free p

-- `deque_offer` behind its test of the type: the node is created and linked before the end.
unfoldable pub deque_link : Ptr → Option Bytes → Option Value → Cmd (Unit {0})
unfolding deque_node_create grow get_prev set_next set_prev
deque_link n t v = do
  deque_node_create n t v
  grow
  st ← get
  last ← get_prev st.end
  set_next last n
  set_prev n last
  set_next n st.end
  set_prev st.end n

-- `pgvictoria_deque_add`, `n` being what `malloc` returns for the node.
unfoldable pub add : Ptr → Option Bytes → ℕ → ValueType → Cmd (Unit {0})
unfolding deque_link create
add n t d type_none = pure tt
add n t d type = deque_link n t (create type d)

unfoldable pub add_with_config : Ptr → Option Bytes → ℕ → Option ValueConfig → Cmd (Unit {0})
unfolding deque_link create create_with_config
add_with_config n t d none = deque_link n t (create ValueType.ref d)
add_with_config n t d (some c) = deque_link n t (create_with_config d (some c))

-- The nodes between which the list begins and ends, at the addresses `s` and `e`.
unfoldable pub deque_create : Ptr → Ptr → Cmd (Unit {0})
unfolding deque_node_create create set_next set_prev
deque_create s e = do
  deque_node_create s none (create ValueType.int32 0)
  deque_node_create e none (create ValueType.int32 0)
  (λ st. ok tt (record st { start = s; end = e; size = 0 }))
  set_next s e
  set_prev e s

unfoldable pub deque_size : Cmd ℕ
deque_size st = ok st.size st

unfoldable pub deque_empty : Cmd Bool
unfolding deque_size
deque_empty = do n ← deque_size; pure (n == 0)

-- The tag, and what `pgvictoria_value_data` gives; `none` is the result 0 with no tag stored.
abbrev pub Taken : Type 0
Taken = Option (Option Bytes × Option Value)

unfoldable pub poll : Cmd Taken
unfolding get_next set_next set_prev shrink get_value get_tag free
poll = do
  st ← get
  if st.size == 0 then pure none else do
    head ← get_next st.start
    if head == st.end then pure none else do
      n ← get_next head
      set_next st.start n
      set_prev n st.start
      shrink
      v ← get_value head
      t ← get_tag head
      free head
      pure (some (t, v))

unfoldable pub poll_last : Cmd Taken
unfolding get_prev set_next set_prev shrink get_value get_tag free
poll_last = do
  st ← get
  if st.size == 0 then pure none else do
    tail ← get_prev st.end
    if tail == st.start then pure none else do
      p ← get_prev tail
      set_prev st.end p
      set_next p st.end
      shrink
      v ← get_value tail
      t ← get_tag tail
      free tail
      pure (some (t, v))

unfoldable pub peek : Cmd Taken
unfolding get_next get_value get_tag
peek = do
  st ← get
  if st.size == 0 then pure none else do
    head ← get_next st.start
    if head == st.end
        then pure none
        else do v ← get_value head; t ← get_tag head; pure (some (t, v))

unfoldable pub peek_last : Cmd Taken
unfolding get_prev get_value get_tag
peek_last = do
  st ← get
  if st.size == 0 then pure none else do
    tail ← get_prev st.end
    if tail == st.start
        then pure none
        else do v ← get_value tail; t ← get_tag tail; pure (some (t, v))

unfoldable pub deque_next : Ptr → Cmd (Option Ptr)
unfolding get_next
deque_next node = do
  st ← get
  if st.size == 0 || node == null
      then pure none
      else do n ← get_next node; if n == st.end then pure none else pure (some n)

-- The loop of `deque_find`, on fuel.
unfoldable pub find_loop : ℕ → Bytes → Option Ptr → Cmd (Option Ptr)
unfolding deque_next get_tag compare_string
find_loop zero t n = λ _. out_of_fuel
find_loop (suc fuel) t none = pure none
find_loop (suc fuel) t (some n) = do
  s ← get_tag n
  if compare_string (some t) s then pure (some n) else do m ← deque_next n; find_loop fuel t m

-- As many rounds as there are nodes, and one more.
unfoldable pub deque_find : Option Bytes → Cmd (Option Ptr)
unfolding deque_next find_loop
deque_find none = pure none
deque_find (some []) = pure none
deque_find (some (c ∷ t)) = do
  st ← get
  if st.size == 0 then pure none else do n ← deque_next st.start; find_loop (suc st.size) (c ∷ t) n

-- `pgvictoria_deque_get`: the value found; `none` is the result 0.
unfoldable pub deque_get : Option Bytes → Cmd (Option (Option Value))
unfolding deque_find get_value
deque_get t = do
  found ← deque_find t
  elim found [ none ↦ pure none | some n ↦ (do v ← get_value n; pure (some v)) ]

unfoldable pub deque_exists : Option Bytes → Cmd Bool
unfolding deque_find
deque_exists t = do found ← deque_find t; elim found [ none ↦ pure false | some n ↦ pure true ]

unfoldable pub deque_remove : Ptr → Cmd Ptr
unfolding get_prev get_next set_next set_prev deque_node_destroy shrink
deque_remove node = do
  st ← get
  if node == null || node == st.start || node == st.end then pure null else do
    p ← get_prev node
    n ← get_next node
    set_next p n
    set_prev n p
    deque_node_destroy node
    shrink
    pure p

-- The node at which the iterator stands behind `pgvictoria_deque_iterator_remove`.
unfoldable pub iterator_remove : Ptr → Cmd Ptr
unfolding deque_remove
iterator_remove cur = do
  st ← get
  if cur == null || cur == st.start || cur == st.end then pure cur else deque_remove cur

-- The `cnt++` of `pgvictoria_deque_remove`, where `cnt` is an `int`, which is a fault where it leaves
-- `int`; `pgvictoria_deque_clear` does not count.
unfoldable pub count : Bool → ℕ → Cmd ℕ
count true cnt = pure cnt
count false cnt = if leb (2 ^ 31 - 1) cnt then (λ _. fault) else pure (cnt + 1)

-- The loops of `pgvictoria_deque_remove` and `pgvictoria_deque_clear` over an iterator, which is its
-- node.
unfoldable pub remove_loop : ℕ → Option Bytes → Bool → Ptr → ℕ → Cmd ℕ
unfolding deque_next get_tag compare_string iterator_remove count
remove_loop zero t all cur cnt = λ _. out_of_fuel
remove_loop (suc fuel) t all cur cnt = do
  m ← deque_next cur
  elim m [
    | none ↦ pure cnt
    | some node ↦ do
      s ← get_tag node
      let hit = (do p ← iterator_remove node; n ← count all cnt; remove_loop fuel t all p n)
      let miss = remove_loop fuel t all node cnt
      if all || compare_string s t then hit else miss
  ]

-- `pgvictoria_deque_remove`
unfoldable pub remove : Option Bytes → Cmd ℕ
unfolding remove_loop
remove none = pure 0
remove (some t) = do st ← get; remove_loop (suc st.size) (some t) false st.start 0

-- `pgvictoria_deque_clear`
unfoldable pub clear : Cmd (Unit {0})
unfolding remove_loop
clear = do st ← get; n ← remove_loop (suc st.size) none true st.start 0; pure tt
