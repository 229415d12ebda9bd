-- ===== src/Runtime/Tables.antt =====
-- The table helpers of runtime/src/call_frame.cpp: array access, numeric and generic get and set,
-- `table.insert` at the end, SETLIST, and the values that the constants give. Tables live in a heap, so two
-- registers may share one. What the virtual machine does (its hash part, its growth, its metamethods) is a
-- parameter; the collector's barriers and the caches of slots and metamethods have no counterpart.
mod Access
mod Numeric
mod Lists
mod Extras
mod Runs
mod Globals
pub mod Names
pub mod SetList
pub mod Array
pub mod Keyed
use luauc.Prelude.{
  ℕ, zero, suc, ◌+◌, ◌-◌, ◌%◌, ◌^◌, Bool, true, false, not, ◌&&◌, ◌||◌, Option, none, some, List,
  [], ◌∷◌, arith, ltb, leb, ◌==◌, if◌then◌else◌, length, get_or, set,
}
use luauc.Prelude.Words.{int_max, uint32_max, ℤ, pos, negsuc}
use luauc.Runtime.Metadata.{materializable_scalar_constant_kind}

-- A number is seen by the bits of its double, a table by its place in the heap, another value by its
-- identity.
pub data TValue : Type 0 where
  nil : TValue
  number : ℕ → TValue
  table : ℕ → TValue
  other : ℕ → TValue

pub record LuaTable : Type 0 where
  pub metatable : Bool
  pub readonly : Bool
  pub array : List TValue
  pub hash : List (TValue × TValue)

pub record LuaState : Type 0 where
  pub stack : ℕ → TValue
  pub base : ℕ
  pub top : ℕ
  pub ci_top : ℕ
  pub heap : ℕ → LuaTable

-- What is read of the proto that `activeAotFrameProto` gives: `k` is its array of constants, if it has
-- one, and `kinds` and `constant_count` are those of its metadata.
pub record ActiveProto : Type 0 where
  pub maxstacksize : ℕ
  pub sizek : ℕ
  pub has_k : Bool
  pub k : ℕ → TValue
  pub constant_count : ℕ
  pub kinds : ℕ → ℕ

-- The current call: whether it is a native Luau frame, and the proto, unless `activeAotFrameProto` fails.
pub record ActiveFrame : Type 0 where
  pub native : Bool
  pub proto : Option ActiveProto

-- The virtual machine and the arithmetic of the host: `luaH_getn`, `luaH_setnum` with the write to the slot
-- that it gives, `luaH_get`, `luaH_resizearray`, `luaH_clone`, `luaV_settable`, `luaV_gettable`, the length operation
-- of `luauc_runtime_v1_do_len`, and the conversions between doubles and integers.
pub record Vm : Type 0 where
  pub getn : LuaTable → ℕ
  pub setnum : LuaTable → ℕ → TValue → LuaTable
  pub get : LuaTable → TValue → TValue
  pub resizearray : LuaTable → ℕ → LuaTable
  pub clone : LuaState → LuaTable → LuaState × ℕ
  pub settable : LuaState → TValue → TValue → TValue → Option LuaState
  pub gettable : LuaState → TValue → TValue → ℕ → Option LuaState
  pub do_len : LuaState → ℕ → ℕ → Option LuaState
  pub num2int : ℕ → ℤ
  pub cast_num : ℤ → ℕ
  pub numeq : ℕ → ℕ → Bool

abbrev pub checked : {A : Type 0} → Bool → Option A → Option A
checked c next = if c then next else none

abbrev pub given : {A B : Type 0} → Option A → (A → Option B) → Option B
given none next = none
given (some a) next = next a

abbrev pub register : LuaState → ℕ → TValue
register m index = m.stack (m.base + index)

abbrev pub write_register : LuaState → ℕ → TValue → LuaState
write_register m index value = record m {
  stack = λ slot. if slot == m.base + index then value else m.stack slot;
}

abbrev pub write_table : LuaState → ℕ → LuaTable → LuaState
write_table m address new = record m { heap = λ a. if a == address then new else m.heap a }

-- A register that the compiled frame has.
abbrev pub active_aot_register : ActiveProto → ℕ → Bool
active_aot_register proto index = ltb index proto.maxstacksize

-- A register below the top of the stack.
abbrev pub published : LuaState → ℕ → Bool
published m index = ltb (m.base + index) m.top

abbrev pub table_of : TValue → Option ℕ
table_of (table address) = some address
table_of _ = none

abbrev pub number_of : TValue → Option ℕ
number_of (number bits) = some bits
number_of _ = none

abbrev pub is_nil : TValue → Bool
is_nil nil = true
is_nil _ = false

-- The operand that is a register, or a constant of a scalar kind; `is_constant` is the flag of the
-- encoded operand, and `index` the rest of it.
unfoldable pub active_aot_value_operand : ActiveProto → LuaState → Bool → ℕ → Option TValue
active_aot_value_operand proto m false index =
    checked (active_aot_register proto index && published m index) (some (register m index))
active_aot_value_operand proto m true index =
    checked
      (proto.sizek == proto.constant_count
        && (if proto.has_k then not (proto.sizek == 0) else proto.sizek == 0)
        && ltb index proto.sizek)
      (checked (materializable_scalar_constant_kind (proto.kinds index)) (some (proto.k index)))

unfoldable pub active_aot_table : ActiveProto → LuaState → ℕ → Bool → Option ℕ
active_aot_table proto m index write = checked (active_aot_register proto index) (
    given (table_of (register m index))
      (λ address. if write && (m.heap address).readonly then none else some address))

unfoldable pub active_aot_plain_table : ActiveProto → LuaState → ℕ → Bool → Option ℕ
active_aot_plain_table proto m index write =
    given (active_aot_table proto m index write)
      (λ address. if (m.heap address).metatable then none else some address)
