-- ===== src/Runtime/Tables/SetList.antt =====
-- `luauc_runtime_v1_set_list` of runtime/src/call_frame.cpp.
use luauc.Prelude.{
  ℕ, zero, suc, ◌+◌, ◌-◌, ◌%◌, ◌^◌, false, not, ◌||◌, Option, none, some, List, ltb, leb, ◌==◌,
  if◌then◌else◌, length, set,
}
use luauc.Prelude.Words.{int_max, uint32_max}
use luauc.Runtime.Tables.{
  TValue, LuaTable, LuaState, ActiveProto, ActiveFrame, Vm, given, write_table, active_aot_table,
}

-- The writes of SETLIST: `count` values from slot `source` on, to the array from `position` on.
unfoldable pub set_list_loop : ℕ → (ℕ → TValue) → ℕ → ℕ → List TValue → List TValue
set_list_loop zero stack source position array = array
set_list_loop (suc count) stack source position array =
    set_list_loop count stack (source + 1) (position + 1) (set array position (stack source))

-- The array part that the writes find: grown when the size is not known, otherwise of the known size.
unfoldable pub set_list_table : Vm → LuaTable → ℕ → ℕ → Option LuaTable
set_list_table vm old known_size last =
    if known_size == uint32_max
    then some (if ltb (length old.array) last then vm.resizearray old last else old)
    else if ltb int_max known_size || not (length old.array == known_size) || ltb known_size last
    then none
    else some old

unfoldable pub set_list_into : Vm → ActiveProto → LuaState → ℕ → ℕ → ℕ → ℕ → ℕ → Option LuaState
set_list_into vm proto m index source count start known_size =
    given (active_aot_table proto m index false) (λ address.
      if ltb int_max (start + count - 1)
      then none
      else given (set_list_table vm (m.heap address) known_size (start + count - 1)) (λ sized.
        some (
          write_table m address (record sized {
            array = set_list_loop count m.stack (m.base + source) (start - 1) sized.array;
          }))))

-- `count` values, in a frame of which all are below the top.
unfoldable pub set_list_fixed : Vm → ActiveProto → LuaState → ℕ → ℕ → ℕ → ℕ → ℕ → Option LuaState
set_list_fixed vm proto m index source count start known_size =
    given (active_aot_table proto m index false) (λ address.
      if leb proto.maxstacksize source
        || start == 0
        || count == 0
        || ltb (proto.maxstacksize - source) count
        || ltb m.top (m.base + source + count)
      then none
      else set_list_into vm proto m index source count start known_size)

-- Every value from the source to the top, which then returns to that of the call.
unfoldable pub set_list_multret : Vm → ActiveProto → LuaState → ℕ → ℕ → ℕ → Option LuaState
set_list_multret vm proto m index source start =
    if ltb m.top (m.base + source)
    then none
    else (let count = (m.top - (m.base + source)) % 2 ^ 32 in
        let m' = record m { top = m.ci_top } in
        given (active_aot_table proto m' index false) (λ address.
          if leb proto.maxstacksize source || start == 0 || ltb (proto.maxstacksize - source) count
          then none
          else if count == 0
          then some m'
          else set_list_into vm proto m' index source count start uint32_max))

-- `count` is the unsigned word; the word of -1 asks for all values.
unfoldable pub set_list : Vm → ActiveFrame → LuaState → ℕ → ℕ → ℕ → ℕ → ℕ → Option LuaState
set_list vm frame m index source count start known_size = given frame.proto (λ proto.
    if count == uint32_max
    then set_list_multret vm proto m index source start
    else set_list_fixed vm proto m index source count start known_size)
