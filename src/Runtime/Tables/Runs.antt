-- ===== src/Runtime/Tables/Runs.antt =====
-- The theorems on table helpers at a concrete machine: register 0 holds the table at place 0, with an array
-- part of two elements.
use luauc.Prelude.{
  ℕ, ◌+◌, ◌-◌, ◌≤◌, ◌<◌, ◌≡◌, ◌⊎◌, refl, true, false, none, some, List, [], ◌∷◌, arith, ◌==◌,
  length, get_or, set, replicate, ◌++◌, if◌then◌else◌, length-append, length-replicate,
  get_or-append_left,
}
use luauc.Prelude.Words.{uint32_max, pos}
use luauc.Runtime.Registers.{Thread, Shape, copy_loop, vararg_count, get_varargs_multret}
use luauc.Runtime.Registers.Varargs.{IsPrepared}
use luauc.Runtime.Tables.{
  TValue, nil, number, table, other, LuaTable, LuaState, ActiveProto, ActiveFrame, Vm, register,
  write_register, write_table, active_aot_value_operand, active_aot_table,
}
use luauc.Runtime.Tables.Keyed.{table_set, checked_insert_append, table_insert_append}
use luauc.Runtime.Tables.Array.{table_array_set, table_array_get, array_set}
use luauc.Runtime.Tables.SetList.{
  set_list_loop, set_list_table, set_list_into, set_list_fixed, set_list,
}
use luauc.Runtime.Tables.Access.{table_array_set_answer, table_array_set-get}
use luauc.Runtime.Tables.Numeric.{SetsNumbers, table_set-settable, table_insert_append-checked}
use luauc.Runtime.Tables.Lists.{GrowsArrays, HasList, list_count, set_list-HasList}
use luauc.Runtime.Tables.Extras.{state_of, set_list_varargs}

abbrev a_proto : ActiveProto
a_proto = record {
  maxstacksize = 8;
  sizek = 0;
  has_k = false;
  k = λ i. nil;
  constant_count = 0;
  kinds = λ i. 0;
}

abbrev a_frame : ActiveFrame
a_frame = record { native = true; proto = some a_proto }

abbrev a_machine : LuaState
a_machine = record {
  stack = λ s. if s == 10 then table 0 else (if s == 11 then number 1 else number 7);
  base = 10;
  top = 18;
  ci_top = 18;
  heap = λ a. record {
    metatable = false;
    readonly = false;
    array = number 3 ∷ number 4 ∷ [];
    hash = [];
  };
}

-- A machine whose numbers are their own bits, and whose tables have an array part only.
abbrev grown : List TValue → ℕ → List TValue
grown array n = array ++ replicate (n - length array) nil

abbrev stored : LuaTable → ℕ → TValue → LuaTable
stored t n value = record t { array = set t.array (n - 1) value }

abbrev a_vm : Vm
a_vm = record {
  getn = λ t. length t.array;
  setnum = stored;
  get = λ t key. nil;
  resizearray = λ t n. record t { array = grown t.array n };
  clone = λ m t. (m, 0);
  settable = λ m target key value. elim target [
    | nil ↦ none
    | number bits ↦ none
    | other id ↦ none
    | table address ↦ elim key [
      | nil ↦ none
      | table a ↦ none
      | other id ↦ none
      | number bits ↦ some (write_table m address (stored (m.heap address) bits value))
    ]
  ];
  gettable = λ m target key destination. none;
  do_len = λ m destination source. none;
  num2int = λ bits. pos bits;
  cast_num = λ z. elim z [ pos n ↦ n | _ ↦ 0 ];
  numeq = λ a b. a == b;
}

a_vm-SetsNumbers : SetsNumbers a_vm
a_vm-SetsNumbers = record { plain = λ m address bits index value q w n e f v. ground (arith, e) }

a_vm-GrowsArrays : GrowsArrays a_vm
a_vm-GrowsArrays = record {
  size = λ t n l. omega (
    arith,
    length-append t.array (replicate (n - length t.array) nil),
    length-replicate (n - length t.array) nil,
  );
  kept = λ t n j l i. get_or-append_left t.array (replicate (n - length t.array) nil) j nil i;
}

after_set : LuaState
after_set = write_table a_machine 0 (record (a_machine.heap 0) { array = number 3 ∷ number 7 ∷ [] })

after_set-written : table_array_set a_frame a_machine 0 2 3 ≡ some (true, after_set)
unfolding table_array_set after_set
after_set-written = refl

table_array_set_answer_example :
    ((true ≡ true) × (array_set a_frame a_machine 0 3 2 ≡ some after_set))
    ⊎ ((true ≡ false) × (after_set ≡ a_machine))
table_array_set_answer_example =
    table_array_set_answer a_frame a_machine 0 2 3 true after_set after_set-written

table_array_set-get_example :
    table_array_get a_frame after_set 5 0 2
    ≡ some (true, write_register after_set 5 (register a_machine 3))
table_array_set-get_example =
    table_array_set-get a_frame a_machine 0 2 3 a_proto after_set 5 refl (omega arith) (omega arith)
      after_set-written

one_operand : active_aot_value_operand a_proto a_machine false 1 ≡ some (number 1)
unfolding active_aot_value_operand
one_operand = refl

table_set-settable_example :
    table_set a_vm a_frame a_machine 0 false 1 2
    ≡ a_vm.settable a_machine (register a_machine 0) (number 1) (register a_machine 2)
table_set-settable_example =
    table_set-settable a_vm a_vm-SetsNumbers a_frame a_proto a_machine 0 false 1 (number 1) 2 refl
      (omega arith) (omega arith) (omega arith) (omega arith) one_operand

table_insert_append-checked_example :
    table_insert_append a_vm a_frame a_machine 0 2
    ≡ checked_insert_append a_vm a_frame a_machine 0 2
table_insert_append-checked_example =
    table_insert_append-checked a_vm a_frame a_proto a_machine 0 2 refl (omega arith) (omega arith)

two_listed : LuaState
two_listed = write_table a_machine 0 (record (a_machine.heap 0) {
  array = set_list_loop 2 a_machine.stack 12 0 (number 3 ∷ number 4 ∷ []);
})

two_listed-written : set_list a_vm a_frame a_machine 0 2 2 1 2 ≡ some two_listed
unfolding set_list set_list_fixed set_list_into set_list_table active_aot_table two_listed
two_listed-written = refl

set_list-HasList_example : HasList a_machine two_listed 0 2 1 (list_count a_machine 2 2)
set_list-HasList_example =
    set_list-HasList a_vm a_vm-GrowsArrays a_frame a_machine two_listed 0 2 2 1 2 two_listed-written

-- A variadic frame of eight registers with ten extra arguments.
abbrev a_shape : Shape
a_shape = record { maxstacksize = 8; numparams = 0; is_vararg = true; stacksize = 8 }

abbrev a_call : Thread TValue (Unit {0})
a_call = record {
  stack = λ s. if s == 21 then table 0 else number s;
  base = 11;
  top = 21;
  stack_last = 90;
  func = 10;
  ci_base = 11;
  ci_top = 21;
  aotstate = 7;
  upvalues = tt;
}

abbrev prepared_call : Thread TValue (Unit {0})
prepared_call = record a_call { base = 21; top = 29; ci_base = 21; ci_top = 29 }

prepared_call-IsPrepared : IsPrepared nil a_shape 10 a_call prepared_call
prepared_call-IsPrepared = record {
  same_func = refl;
  new_base = refl;
  frame_top = refl;
  parameters = λ i l. absurd (omega arith);
  extras = λ i l. refl;
}

abbrev extras_copied : Thread TValue (Unit {0})
extras_copied = record prepared_call { stack = copy_loop 10 22 11 prepared_call.stack; top = 32 }

extras_copied-got : get_varargs_multret (λ slots. true) a_shape prepared_call 1 ≡ some extras_copied
unfolding get_varargs_multret vararg_count
extras_copied-got = refl

extras_copied-table : register (state_of extras_copied a_machine.heap) 0 ≡ table 0
unfolding copy_loop
extras_copied-table = refl

set_list_varargs_example :
    ((10 ≤ 8 - 1)
      × ((m' : LuaState) × (set_list a_vm a_frame
              (state_of extras_copied a_machine.heap)
              0
              1
              uint32_max
              1
              uint32_max
            ≡ some m')
          × ((i : ℕ)
              → i < 10
              → get_or (m'.heap 0).array i nil
                ≡ a_call.stack (a_call.func + 1 + a_shape.numparams + i))))
    ⊎ ((8 - 1 < 10)
        × (set_list a_vm a_frame (state_of extras_copied a_machine.heap) 0 1 uint32_max 1 uint32_max
            ≡ none))
set_list_varargs_example =
    set_list_varargs a_vm (λ slots. true) a_shape a_frame a_proto a_machine.heap 10 1 0 0 uint32_max
      a_call prepared_call extras_copied a_vm-GrowsArrays refl prepared_call-IsPrepared
      extras_copied-got (omega arith) (omega arith) extras_copied-table
