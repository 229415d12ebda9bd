-- ===== src/Runtime/Closures/Runs.antt =====
-- The theorems on closures at a concrete state: the parent of proto 0 runs, and its child of proto 1 has two
-- upvalues.
use luauc.Prelude.{ℕ, ◌+◌, ◌≡◌, refl, some, [], ◌∷◌, arith, ◌==◌, if◌then◌else◌}
use luauc.Runtime.Closures.{
  nil, closure, plain, holds, refers, opened, LClosure, ProtoShape, State, register, update,
  find_direct_aot_child, new_lclosure, publish_closure, allocate_closure,
}
use luauc.Runtime.Closures.New.{
  valid_source, capture_child, resumed_closure, captured, store_capture, newclosure_capture,
}
use luauc.Runtime.Closures.Access.{get_upvalue, set_upvalue}
use luauc.Runtime.Closures.Capture.{FindsUpvalues, update-same, update-ne}
use luauc.Runtime.Closures.Sequence.{Capturings, capture_from, IsBuilt, capture_from-IsBuilt}
use luauc.Runtime.Closures.Upvalues.{in_call, set_upvalue-get}

-- Every reference gets a new cell.
abbrev new_cell : State → ℕ → State × ℕ
new_cell s slot = (
  record s { cells = update s.cells s.next_cell (opened slot); next_cell = s.next_cell + 1 },
  s.next_cell,
)

new_cell-FindsUpvalues : FindsUpvalues new_cell
new_cell-FindsUpvalues = record {
  cells_only = λ s slot. refl;
  grows = λ s slot. omega arith;
  is_allocated = λ s slot. omega arith;
  is_open = λ s slot. update-same s.cells s.next_cell (opened slot);
  kept = λ s slot cell at_slot l e.
      rw (update-ne s.cells s.next_cell cell (opened slot) (λ q. absurd (omega arith))) e;
}

abbrev some_protos : ℕ → ProtoShape
some_protos id =
    if id == 0
    then record { function_id = some 4; nups = 0; maxstacksize = 8; p = some 1 ∷ []; k = [] }
    else record { function_id = some 5; nups = 2; maxstacksize = 3; p = []; k = [] }

abbrev an_lclosure : ℕ → LClosure
an_lclosure proto = record {
  proto = proto;
  env = 0;
  nupvalues = 2;
  stacksize = 8;
  uprefs = λ i. refers 0;
  preload = 0;
}

abbrev a_state : State
a_state = record {
  stack = λ s. plain s;
  base = 10;
  top = 18;
  closures = λ a. an_lclosure a;
  next = 2;
  cells = λ c. opened 12;
  next_cell = 1;
  active = 0;
}

-- Register 3 by value and register 4 by reference, into register 5.
abbrev two_captures : Capturings
two_captures = record {
  destination = 5;
  child_proto_id = 5;
  kind = λ i. i;
  source = λ i. i + 3;
  check_gc = λ i. 0;
}

abbrev allocated : State
allocated = record a_state {
  stack = update a_state.stack 15 (closure 2);
  closures = update a_state.closures 2 (record {
    proto = 1;
    env = 0;
    nupvalues = 2;
    stacksize = 3;
    uprefs = λ i. holds nil;
    preload = 0;
  });
  next = 3;
}

built : State
unfolding store_capture captured
built =
    store_capture new_cell
      (store_capture new_cell allocated 2 2 (record {
        destination = 5;
        child_proto_id = 5;
        capture_index = 0;
        capture_kind = 0;
        source_index = 3;
        check_gc = 0;
      }))
      2 2
      (record {
        destination = 5;
        child_proto_id = 5;
        capture_index = 1;
        capture_kind = 1;
        source_index = 4;
        check_gc = 0;
      })

a_child : find_direct_aot_child some_protos (some 1 ∷ []) 5 ≡ some 1
unfolding find_direct_aot_child
a_child = refl

built-captured : capture_from new_cell some_protos two_captures 2 0 a_state ≡ some built
unfolding capture_from newclosure_capture capture_child find_direct_aot_child valid_source
    allocate_closure publish_closure new_lclosure resumed_closure store_capture captured built
built-captured = refl

capture_from-IsBuilt_example :
    IsBuilt new_cell some_protos two_captures new_cell-FindsUpvalues 1 (omega arith) a_state built
capture_from-IsBuilt_example =
    capture_from-IsBuilt new_cell some_protos two_captures new_cell-FindsUpvalues 1 (omega arith)
      a_state built (λ e. cc) (λ e. cc) a_child built-captured

-- Closure 0, of a proto with upvalues, writes register 1 to its upvalue; closure 1 reads its own.
abbrev writing : State
writing = record a_state { active = 1 }

abbrev was_written : State
was_written = record writing { stack = update a_state.stack 12 (plain 11) }

was_written-set : set_upvalue some_protos writing 0 1 ≡ some was_written
unfolding set_upvalue
was_written-set = refl

abbrev was_read : State
was_read = record was_written {
  stack = update was_written.stack 32 (plain 11);
  active = 2;
  base = 30;
}

was_read-got : get_upvalue some_protos (in_call was_written 2 30) 2 1 ≡ some was_read
unfolding get_upvalue
was_read-got = refl

set_upvalue-get_example : register was_read 2 ≡ register writing 1
set_upvalue-get_example =
    set_upvalue-get some_protos writing was_written was_read 0 1 2 30 2 1 0 refl refl
      was_written-set was_read-got
