-- ===== src/Deque/Runs.antt =====
-- A deque from its creation on, through any run of operations.
use pgvictoria.Prelude.{
  true, false, none, List, [], ◌∷◌, ◌==◌, arith, ◌≡◌, refl, sym, ap, subst, ◌∙◌, ==_refl,
}
use pgvictoria.Value.{ValueType, create}
use pgvictoria.Utils.Append.{append}
use pgvictoria.Deque.{
  Ptr, null, put, Store, Run, ok, fault, out_of_fuel, deque_create, deque_node_create, set_next,
  set_prev,
}
use pgvictoria.Deque.Shape.{Item, Holds, Returns}
use pgvictoria.Deque.Spec.{Op, Answer, run, spec}
use pgvictoria.Deque.Refine.{Allocates, run_refines}

-- A run of operations with their answers, where every addition has its memory, and every removal by
-- tag removes fewer than 2^31 items.
pub data Runs : Store → List Item → List Op → List Answer → Store → Type 0 where
  stop : {st : Store} {xs : List Item} → Runs st xs [] [] st
  step :
      {st st' st'' : Store} {xs : List Item} {op : Op} {ops : List Op} {a : Answer}
      {answers : List Answer}
      → Allocates st xs op
      → run op st ≡ ok a st'
      → Runs st' (spec op xs).1 ops answers st''
      → Runs st xs (op ∷ ops) (a ∷ answers) st''

-- The answers and the items behind a run, by the specification.
abbrev pub spec_all : List Op → List Item → List Answer × List Item
spec_all [] xs = ([], xs)
spec_all (op ∷ ops) xs = let rest = spec_all ops (spec op xs).1 in ((spec op xs).0 ∷ rest.0, rest.1)

answer_of : Answer → Run Answer → Answer
answer_of b (ok a st) = a
answer_of b fault = b
answer_of b out_of_fuel = b

store_of : {A : Type 0} → Store → Run A → Store
store_of s (ok a st) = st
store_of s fault = s
store_of s out_of_fuel = s

-- A run from a deque that holds `xs`, where every addition has its memory and every removal by tag
-- removes fewer than 2^31 items, gives the answers of the specification, one by one, and leaves a
-- deque that holds the items of the specification.
pub Runs-spec_all :
    {st st' : Store} {xs : List Item} {ops : List Op} {answers : List Answer}
    → Holds st xs
    → Runs st xs ops answers st'
    → (answers ≡ (spec_all ops xs).0) × Holds st' (spec_all ops xs).1
unfolding answer_of store_of
Runs-spec_all h stop = (refl, h)
Runs-spec_all {st} {st'} {xs} h
      (step {st' = mid} {op = op} {a = a} {answers = answers} allocated e rest) =
    let (next, f, held, _) = run_refines st xs op h allocated in
    let same : mid ≡ next = ap (store_of st) (sym e ∙ f) in
    let (u, v) = Runs-spec_all (subst (λ s. Holds s (spec op xs).1) (sym same) held) rest in
    (
      ap (λ (b : Answer). b ∷ answers) (ap (answer_of a) (sym e ∙ f))
          ∙ ap (λ (l : List Answer). (spec op xs).0 ∷ l) u,
      v,
    )

-- The memory behind `deque_create`.
abbrev pub created : Store → Ptr → Ptr → Store
created st s e = record st {
  live = put e true (put s true st.live);
  next = put s e (put e null (put s null st.next));
  prev = put e s (put e null (put s null st.prev));
  tag = put e (append none none) (put s (append none none) st.tag);
  value = put e (create ValueType.int32 0) (put s (create ValueType.int32 0) st.value);
  start = s;
  end = e;
  size = 0;
}

module _ (st : Store) (s e : Ptr) (d : (s == e) ≡ false) (d' : (e == s) ≡ false)
    (zs : (s == null) ≡ false) (ze : (e == null) ≡ false) where
  pub created-Holds : Holds (created st s e) []
  created-Holds = (
    [],
    record {
      row = record {
        linked = ground (arith, ==_refl s, ==_refl e);
        distinct = ground arith;
        alive = ground (arith, ==_refl s, ==_refl e);
        not_null = ground arith;
      };
      size = refl;
      room = omega arith;
    },
    refl,
  )

  -- A new deque is empty, where `malloc` returns two different addresses, neither of them NULL.
  deque_create_lem : Returns (deque_create s e st) tt [] st.destroyed
  unfolding deque_create deque_node_create set_next set_prev
  deque_create_lem = (created st s e, rw (d, ==_refl s, ==_refl e), created-Holds, refl)
