-- ===== src/Runtime/Tables/Keyed.antt =====
-- The append, and get and set by a key, of runtime/src/call_frame.cpp.
use luauc.Prelude.{
  ℕ, ◌+◌, ◌-◌, ◌%◌, ◌^◌, Bool, true, not, ◌&&◌, ◌||◌, Option, none, some, leb, ◌==◌, if◌then◌else◌,
}
use luauc.Prelude.Words.{int_max, pos, negsuc}
use luauc.Runtime.Tables.{
  TValue, LuaState, ActiveFrame, Vm, checked, given, register, write_register, write_table,
  active_aot_register, published, table_of, number_of, is_nil, active_aot_value_operand,
  active_aot_plain_table, number,
}

-- The writes of `tryLiveInsertAppend`, or `none` when the length is that of the longest table.
unfoldable pub append_to : Vm → LuaState → ℕ → ℕ → Option LuaState
append_to vm m address source =
    let old = m.heap address in
    if vm.getn old == int_max
    then none
    else some (write_table m address (vm.setnum old (vm.getn old + 1) (register m source)))

unfoldable pub try_live_insert_append : Vm → ActiveFrame → LuaState → ℕ → ℕ → Option LuaState
try_live_insert_append vm frame m index source =
    if not frame.native || leb m.top m.base
    then none
    else if leb ((m.top - m.base) % 2 ^ 32) index || leb ((m.top - m.base) % 2 ^ 32) source
    then none
    else given (table_of (register m index)) (λ address.
      if (m.heap address).metatable || (m.heap address).readonly
      then none
      else append_to vm m address source)

-- The writes of `luauc_runtime_v1_table_insert_append` itself, which raises at that length.
unfoldable pub append_checked : Vm → LuaState → ℕ → ℕ → Option LuaState
append_checked vm m address source =
    let old = m.heap address in
    if vm.getn old == int_max
    then none
    else some (write_table m address (vm.setnum old (vm.getn old + 1) (register m source)))

-- What follows when the live path has failed.
unfoldable pub checked_insert_append : Vm → ActiveFrame → LuaState → ℕ → ℕ → Option LuaState
checked_insert_append vm frame m index source = given frame.proto (λ proto.
    given (active_aot_plain_table proto m index true) (λ address.
      checked (active_aot_register proto source)
        (checked (published m index && published m source) (append_checked vm m address source))))

unfoldable pub table_insert_append : Vm → ActiveFrame → LuaState → ℕ → ℕ → Option LuaState
table_insert_append vm frame m index source =
    elim (try_live_insert_append vm frame m index source) [
      | some after ↦ some after
      | none ↦ checked_insert_append vm frame m index source
    ]

unfoldable pub exact_positive_number_key : Vm → ℕ → Option ℕ
exact_positive_number_key vm key = elim (vm.num2int key) [
  | negsuc n ↦ none
  | pos converted ↦
      if converted == 0 || not (vm.numeq (vm.cast_num (pos converted)) key)
      then none
      else some converted
]

unfoldable pub publish_plain_numeric_set : Vm → LuaState → TValue → ℕ → ℕ → Option LuaState
publish_plain_numeric_set vm m target key source = given (table_of target) (λ address.
    let old = m.heap address in
    if old.metatable || old.readonly
    then none
    else given (exact_positive_number_key vm key) (λ index.
      if is_nil (register m source)
      then none
      else some (write_table m address (vm.setnum old index (register m source)))))

unfoldable pub try_live_register_numeric_set :
    Vm → ActiveFrame → LuaState → ℕ → ℕ → ℕ → Option LuaState
try_live_register_numeric_set vm frame m index key source =
    let live = (m.top - m.base) % 2 ^ 32 in
    if not frame.native || leb m.top m.base
    then none
    else if leb live index || leb live key || leb live source
    then none
    else given (number_of (register m key))
        (λ bits. publish_plain_numeric_set vm m (register m index) bits source)

-- The numeric path for a key that is a number, and `luaV_settable` when that path does not apply.
unfoldable pub set_by_key : Vm → LuaState → TValue → TValue → ℕ → Option LuaState
set_by_key vm m target key source =
    elim (given (number_of key) (λ bits. publish_plain_numeric_set vm m target bits source)) [
      | some after ↦ some after
      | none ↦ vm.settable m target key (register m source)
    ]

unfoldable pub checked_table_set : Vm → ActiveFrame → LuaState → ℕ → Bool → ℕ → ℕ → Option LuaState
checked_table_set vm frame m index is_constant key source = given frame.proto (λ proto.
    checked (active_aot_register proto index) (
      given (active_aot_value_operand proto m is_constant key) (λ key_value.
        checked (active_aot_register proto source) (
          checked (published m index && published m source)
            (set_by_key vm m (register m index) key_value source)))))

unfoldable pub table_set : Vm → ActiveFrame → LuaState → ℕ → Bool → ℕ → ℕ → Option LuaState
table_set vm frame m index is_constant key source =
    elim (if is_constant then none else try_live_register_numeric_set vm frame m index key source) [
      | some after ↦ some after
      | none ↦ checked_table_set vm frame m index is_constant key source
    ]

unfoldable pub table_set_number : Vm → ActiveFrame → LuaState → ℕ → ℕ → ℕ → Option LuaState
table_set_number vm frame m index key source = given frame.proto (λ proto.
    checked (active_aot_register proto index && active_aot_register proto source) (
      checked (published m index && published m source)
        (set_by_key vm m (register m index) (number key) source)))

unfoldable pub table_get : Vm → ActiveFrame → LuaState → ℕ → ℕ → Bool → ℕ → Option LuaState
table_get vm frame m destination index is_constant key = given frame.proto (λ proto.
    checked (active_aot_register proto destination && active_aot_register proto index) (
      given (active_aot_value_operand proto m is_constant key) (λ key_value.
        checked (published m destination && published m index) (elim (table_of (register m index)) [
          | none ↦ vm.gettable m (register m index) key_value destination
          | some address ↦
              if (m.heap address).metatable
              then vm.gettable m (register m index) key_value destination
              else some (write_register m destination (vm.get (m.heap address) key_value))
        ]))))

unfoldable pub table_get_number : Vm → ActiveFrame → LuaState → ℕ → ℕ → ℕ → Option LuaState
table_get_number vm frame m destination index key = given frame.proto (λ proto.
    checked (active_aot_register proto destination && active_aot_register proto index) (
      checked (published m destination && published m index)
        (vm.gettable m (register m index) (number key) destination)))
