-- ===== src/Deque/Tests.antt =====
-- Runs of deque.c from a new deque whose two nodes are at the addresses 1 and 2.
use pgvictoria.Prelude.{false, none, some, List, [], ◌∷◌, arith, ◌≡◌, refl}
use pgvictoria.Bytes.{text, str_eq}
use pgvictoria.Value.{int32, create}
use pgvictoria.Deque.{
  Store, null, deque_node_create, set_next, set_prev, read, add, deque_link, get_prev, get_next,
  get_tag, get_value, free, value_destroy, deque_node_destroy, peek_last, poll, remove, count,
  remove_loop, iterator_remove, deque_remove, deque_next, shrink, grow,
}
use pgvictoria.Utils.Append.{append}
use pgvictoria.Utils.Text.{compare_string}
use pgvictoria.Deque.Shape.{Holds}
use pgvictoria.Deque.Spec.{
  Op, add_value, see_last, take_first, drop_tag, spec, run, last_item, first_item, other_items,
  kept, dropped,
}
use pgvictoria.Deque.Refine.{Meets, run_refines}
use pgvictoria.Deque.Runs.{Runs, stop, step, spec_all, Runs-spec_all, created, created-Holds}

abbrev memory : Store
memory = record {
  live = λ p. false;
  next = λ p. null;
  prev = λ p. null;
  tag = λ p. none;
  value = λ p. none;
  destroyed = [];
  start = null;
  end = null;
  size = 0;
}

abbrev new_deque : Store
new_deque = created memory 1 2

new_deque-Holds : Holds new_deque []
new_deque-Holds = created-Holds memory 1 2 refl refl refl refl

-- Node 3 takes the tag "a" and the number 7.
abbrev add_a : Op
add_a = add_value 3 (some (text "a")) 7 int32

run_refines_example : Meets new_deque [] add_a
run_refines_example = run_refines new_deque [] add_a new_deque-Holds (refl, refl, omega arith)

-- Two additions, a look at the last item, the first one taken, and the other dropped by its tag.
abbrev operations : List Op
operations =
    add_a
    ∷ add_value 4 (some (text "b")) 8 int32
    ∷ see_last
    ∷ take_first
    ∷ drop_tag (some (text "b"))
    ∷ []

run_operations : (st : Store) × Runs new_deque [] operations (spec_all operations []).0 st
unfolding run spec add deque_link read grow shrink get_prev get_next get_tag get_value set_next
    set_prev free deque_node_create deque_node_destroy value_destroy create append peek_last poll
    remove count remove_loop iterator_remove deque_remove deque_next compare_string str_eq last_item
    first_item other_items kept dropped
run_operations = (
  _,
  step (refl, refl, omega arith) refl
      (step (refl, refl, omega arith) refl
        (step tt refl (step tt refl (step (omega arith) refl stop)))),
)

Runs-spec_all_example :
    ((spec_all operations []).0 ≡ (spec_all operations []).0)
    × Holds run_operations.0 (spec_all operations []).1
Runs-spec_all_example = Runs-spec_all new_deque-Holds run_operations.1
