-- ===== src/Runtime/Tables/Globals.antt =====
-- A global variable that has been set is read by its name.
use luauc.Prelude.{
  ℕ, ◌+◌, ◌<◌, ◌≤◌, ◌≡◌, ap, ◌∙◌, Bool, true, false, Option, some, List, arith, Option-cases, inl,
  inr,
}
use luauc.Runtime.Tables.{
  TValue, table, other, LuaTable, LuaState, ActiveProto, ActiveFrame, Vm, register, write_register,
  write_table, active_aot_value_operand,
}
use luauc.Runtime.Tables.Names.{
  StringPool, active_aot_string_key, push_key, with_key, set_global, get_global_constant,
}

-- `luaV_settable` with a string key on a table without a metatable that may be written stores the value where
-- `luaH_get` finds it; `put` is the table that it leaves.
pub record StoresNames (vm : Vm) (put : LuaTable → ℕ → TValue → LuaTable) : Type 0 where
  pub stores :
      (m : LuaState) (address key : ℕ) (value : TValue)
      → (m.heap address).metatable ≡ false
      → (m.heap address).readonly ≡ false
      → vm.settable m (table address) (other key) value
        ≡ some (write_table m address (put (m.heap address) key value))
  pub plain : (t : LuaTable) (key : ℕ) (value : TValue) → (put t key value).metatable ≡ t.metatable
  pub found :
      (t : LuaTable) (key : ℕ) (value : TValue) → vm.get (put t key value) (other key) ≡ value

module _ (vm : Vm) (put : LuaTable → ℕ → TValue → LuaTable) (law : StoresNames vm put)
    (pool : StringPool) where
  -- The state that a set of a global leaves.
  pushed_register :
      (m : LuaState) (key source : ℕ)
      → m.base + source < m.top
      → register (push_key m key) source ≡ register m source
  pushed_register m key source l = ground arith

  after_set :
      (room : Bool) (frame : ActiveFrame) (m m' : LuaState) (address source key : ℕ)
      (bytes : Option (List ℕ))
      → (m.heap address).metatable ≡ false
      → (m.heap address).readonly ≡ false
      → active_aot_string_key pool bytes ≡ some key
      → set_global vm pool room frame (some address) m source bytes ≡ some m'
      → m'
        ≡ record (write_table
            (push_key m key)
            address
            (put (m.heap address) key (register m source))) { top = m.top }
  unfolding set_global with_key
  after_set room frame m m' address source key bytes p w k h = elim (Option-cases frame.proto) [
    | inl n ↦ absurd (ground (arith, n))
    | inr (proto, e) ↦
        let live : m.base + source < m.top = ground (arith, e) in
        let value = pushed_register m key source live in
        let stored =
          law.stores (push_key m key) address key (register (push_key m key) source) p w in
        let written = λ (v : TValue).
          record (write_table (push_key m key) address (put (m.heap address) key v)) {
            top = m.top;
          } in
        let raw : m' ≡ written (register (push_key m key) source) = ground (arith, e, k, stored) in
        raw ∙ ap written value
  ]

  environment_of :
      (m m' : LuaState) (address source key : ℕ)
      → m'
        ≡ record (write_table
            (push_key m key)
            address
            (put (m.heap address) key (register m source))) { top = m.top }
      → m'.heap address ≡ put (m.heap address) key (register m source)
  environment_of m m' address source key e = ap (λ (s : LuaState). s.heap address) e ∙ ground arith

  -- In a plain environment that may be written, a global that was set by its name is read by a constant of the same
  -- name: the destination has the value, and nothing else has changed since.
  pub set_global-get :
      (room : Bool) (frame : ActiveFrame) (proto : ActiveProto) (m m' : LuaState)
      (address source key destination : ℕ) (key_constant : ℕ) (bytes : Option (List ℕ))
      → (m.heap address).metatable ≡ false
      → (m.heap address).readonly ≡ false
      → active_aot_string_key pool bytes ≡ some key
      → pool.is_string key ≡ true
      → frame.proto ≡ some proto
      → set_global vm pool room frame (some address) m source bytes ≡ some m'
      → destination < proto.maxstacksize
      → m'.base + destination < m'.top
      → key_constant ≤ 0x7fff_ffff
      → active_aot_value_operand proto m' true key_constant ≡ some (other key)
      → get_global_constant vm pool frame (some address) m' destination key_constant
        ≡ some (write_register m' destination (register m source))
  unfolding get_global_constant
  set_global-get room frame proto m m' address source key destination key_constant bytes p w k is e
        h inside live small operand =
      let env =
        environment_of m m' address source key
          (after_set room frame m m' address source key bytes p w k h) in
      let plain : (m'.heap address).metatable ≡ false =
        ap (λ (t : LuaTable). t.metatable) env
        ∙ law.plain (m.heap address) key (register m source)
        ∙ p in
      let value : vm.get (m'.heap address) (other key) ≡ register m source =
        ap (λ (t : LuaTable). vm.get t (other key)) env
        ∙ law.found (m.heap address) key (register m source) in
      ground (arith, e, operand, is, plain, value)
