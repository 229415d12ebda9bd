-- ===== src/Runtime/Tables/Names.antt =====
-- The helpers of runtime/src/call_frame.cpp that take a constant or a name: the table template, the load of a
-- constant, get and set by a string key, and the global variables. A name is pushed above the top of the
-- stack while the virtual machine works on it.
use luauc.Prelude.{
  ℕ, ◌+◌, Bool, true, not, ◌&&◌, Option, none, some, List, ltb, ◌==◌, if◌then◌else◌, length,
}
use luauc.Runtime.Tables.{
  TValue, table, other, LuaState, ActiveFrame, Vm, checked, given, register, write_register,
  active_aot_register, published, table_of, active_aot_value_operand,
}

-- The strings of the virtual machine: the limit of their size, `luaS_newlstr`, and which of the other values
-- are strings.
pub record StringPool : Type 0 where
  pub max_string : ℕ
  pub newlstr : List ℕ → ℕ
  pub is_string : ℕ → Bool

-- `luauc_runtime_v1_dup_table`
unfoldable pub dup_table : Vm → ActiveFrame → LuaState → ℕ → ℕ → Option LuaState
dup_table vm frame m destination constant_id = given frame.proto (λ proto.
    checked
      (active_aot_register proto destination
        && published m destination
        && ltb constant_id proto.sizek)
      (given (table_of (proto.k constant_id)) (λ prototype.
        if (m.heap prototype).metatable
        then none
        else (let (m', clone) = vm.clone m (m.heap prototype) in
            some (write_register m' destination (table clone))))))

-- `luauc_runtime_v1_load_constant`
unfoldable pub load_constant : ActiveFrame → LuaState → ℕ → ℕ → Option LuaState
load_constant frame m destination constant_id = given frame.proto (λ proto.
    checked
      (active_aot_register proto destination
        && published m destination
        && proto.sizek == proto.constant_count
        && (if proto.has_k then not (proto.sizek == 0) else proto.sizek == 0)
        && ltb constant_id proto.sizek)
      (some (write_register m destination (proto.k constant_id))))

-- A null pointer to the bytes of a key is `none`.
unfoldable pub active_aot_string_key : StringPool → Option (List ℕ) → Option ℕ
active_aot_string_key pool none = none
active_aot_string_key pool (some bytes) =
    if ltb pool.max_string (length bytes) then none else some (pool.newlstr bytes)

abbrev pub push_key : LuaState → ℕ → LuaState
push_key m key = record m {
  stack = λ slot. if slot == m.top then other key else m.stack slot;
  top = m.top + 1;
}

-- The work of the virtual machine with the key above the top, which then is as before; `room` tells whether
-- the stack can grow by one slot.
unfoldable pub with_key :
    StringPool
    → Bool
    → LuaState
    → Option (List ℕ)
    → (LuaState → TValue → Option LuaState)
    → Option LuaState
with_key pool room m bytes next =
    if not room
    then none
    else given (active_aot_string_key pool bytes)
        (λ key. given (next (push_key m key) (other key)) (λ m'. some (record m' { top = m.top })))

-- `luauc_runtime_v1_table_set_string`
unfoldable pub table_set_string :
    Vm → StringPool → Bool → ActiveFrame → LuaState → ℕ → ℕ → Option (List ℕ) → Option LuaState
table_set_string vm pool room frame m index source bytes = given frame.proto (λ proto.
    checked (active_aot_register proto index && active_aot_register proto source) (
      checked (published m index && published m source) (
        with_key pool room m bytes
          (λ m' key. vm.settable m' (register m' index) key (register m' source)))))

-- `luauc_runtime_v1_table_get_string`
unfoldable pub table_get_string :
    Vm → StringPool → Bool → ActiveFrame → LuaState → ℕ → ℕ → Option (List ℕ) → Option LuaState
table_get_string vm pool room frame m destination index bytes = given frame.proto (λ proto.
    checked (active_aot_register proto destination && active_aot_register proto index) (
      checked (published m destination && published m index) (
        with_key pool room m bytes (λ m' key. vm.gettable m' (register m' index) key destination))))

-- `luauc_runtime_v1_get_global`; `environment` is the place of the closure's environment, if it has one.
unfoldable pub get_global :
    Vm
    → StringPool
    → Bool
    → ActiveFrame
    → Option ℕ
    → LuaState
    → ℕ
    → Option (List ℕ)
    → Option LuaState
get_global vm pool room frame environment m destination bytes = given frame.proto (λ proto.
    checked (active_aot_register proto destination && published m destination) (
      given environment (λ address.
        with_key pool room m bytes (λ m' key. vm.gettable m' (table address) key destination))))

-- `luauc_runtime_v1_set_global`
unfoldable pub set_global :
    Vm
    → StringPool
    → Bool
    → ActiveFrame
    → Option ℕ
    → LuaState
    → ℕ
    → Option (List ℕ)
    → Option LuaState
set_global vm pool room frame environment m source bytes = given frame.proto (λ proto.
    checked (active_aot_register proto source && published m source) (
      given environment (λ address.
        with_key pool room m bytes
          (λ m' key. vm.settable m' (table address) key (register m' source)))))

abbrev pub string_of : StringPool → TValue → Option ℕ
string_of pool (other id) = if pool.is_string id then some id else none
string_of pool _ = none

-- `luauc_runtime_v1_get_global_constant`; the index of a constant has 31 bits.
unfoldable pub get_global_constant :
    Vm → StringPool → ActiveFrame → Option ℕ → LuaState → ℕ → ℕ → Option LuaState
get_global_constant vm pool frame environment m destination key_constant =
    given frame.proto (λ proto.
      checked
        (active_aot_register proto destination
          && published m destination
          && not (ltb 0x7fff_ffff key_constant))
        (given (given (active_aot_value_operand proto m true key_constant) (string_of pool)) (λ key.
          given environment (λ address.
            if (m.heap address).metatable
            then vm.gettable m (table address) (other key) destination
            else some (write_register m destination (vm.get (m.heap address) (other key)))))))
