-- ===== src/Runtime/Tables/Numeric.antt =====
-- The fast paths of the table helpers against the general ones: a numeric write and an append give what the
-- checked path and the virtual machine give.
use luauc.Prelude.{
  ℕ, ◌+◌, ◌<◌, ◌≡◌, ◌≢◌, ◌⊎◌, inl, inr, refl, ◌∙◌, Bool, true, false, some, arith, Option-cases,
}
use luauc.Prelude.Words.{ℤ, pos, negsuc}
use luauc.Runtime.Tables.{
  TValue, nil, table, number, other, LuaState, ActiveProto, ActiveFrame, Vm, register, write_table,
  active_aot_table, active_aot_plain_table, active_aot_value_operand, table_of, number_of, is_nil,
}
use luauc.Runtime.Tables.Keyed.{
  try_live_insert_append, append_to, append_checked, checked_insert_append, table_insert_append,
  exact_positive_number_key, publish_plain_numeric_set, try_live_register_numeric_set, set_by_key,
  checked_table_set, table_set,
}
use luauc.Runtime.Tables.Access.{table_of-some}

-- `luaV_settable` on a table without a metatable that may be written, with a number key that is exactly a
-- positive integer and a value that is not nil, is `luaH_setnum` with the write to its slot.
pub record SetsNumbers (vm : Vm) : Type 0 where
  pub plain :
      (m : LuaState) (address bits index : ℕ) (value : TValue)
      → (m.heap address).metatable ≡ false
      → (m.heap address).readonly ≡ false
      → index ≢ 0
      → vm.num2int bits ≡ pos index
      → vm.numeq (vm.cast_num (pos index)) bits ≡ true
      → value ≢ nil
      → vm.settable m (table address) (number bits) value
        ≡ some (write_table m address (vm.setnum (m.heap address) index value))

ℤ-cases : (z : ℤ) → ((n : ℕ) × (z ≡ pos n)) ⊎ ((n : ℕ) × (z ≡ negsuc n))
ℤ-cases (pos n) = inl (n, refl)
ℤ-cases (negsuc n) = inr (n, refl)

number_of-some : (v : TValue) (bits : ℕ) → number_of v ≡ some bits → v ≡ number bits
number_of-some (number b) bits h = ground (arith, h)
number_of-some nil bits h = cc
number_of-some (table address) bits h = cc
number_of-some (other id) bits h = cc

is_nil-ne : (v : TValue) → is_nil v ≡ false → v ≢ nil
is_nil-ne v h e = ground (arith, h, e)

module _ (vm : Vm) (law : SetsNumbers vm) where
  exact_key :
      (bits index : ℕ)
      → exact_positive_number_key vm bits ≡ some index
      → (index ≢ 0)
        × (vm.num2int bits ≡ pos index)
        × (vm.numeq (vm.cast_num (pos index)) bits ≡ true)
  unfolding exact_positive_number_key
  exact_key bits index h = elim (ℤ-cases (vm.num2int bits)) [
    | inl (n, e) ↦
        let same : n ≡ index = ground (arith, e) in
        (ground (arith, e), rw (e, same), ground (arith, e))
    | inr (n, e) ↦ absurd (ground (arith, e))
  ]

  publish-settable :
      (m after : LuaState) (target : TValue) (bits source : ℕ)
      → publish_plain_numeric_set vm m target bits source ≡ some after
      → vm.settable m target (number bits) (register m source) ≡ some after
  unfolding publish_plain_numeric_set
  publish-settable m after target bits source h = elim (Option-cases (table_of target)) [
    | inl n ↦ absurd (ground (arith, n))
    | inr (address, t) ↦ elim (Option-cases (exact_positive_number_key vm bits)) [
      | inl n ↦ absurd (ground (arith, t, n))
      | inr (index, e) ↦
          let (positive, converted, exact) = exact_key bits index e in
          rw (table_of-some target address t) (
            law.plain m address bits index (register m source) (ground (arith, t, e))
              (ground (arith, t, e)) positive converted exact
              (is_nil-ne (register m source) (ground (arith, t, e)))
            ∙ ground (arith, t, e))
    ]
  ]

  set_by_key-settable :
      (m : LuaState) (target key : TValue) (source : ℕ)
      → set_by_key vm m target key source ≡ vm.settable m target key (register m source)
  unfolding set_by_key
  set_by_key-settable m target key source = elim (Option-cases (number_of key)) [
    | inl n ↦ ground (arith, n)
    | inr (bits, b) ↦ elim (Option-cases (publish_plain_numeric_set vm m target bits source)) [
      | inl n ↦ ground (arith, b, n)
      | inr (after, e) ↦
          rw (number_of-some key bits b)
            (ground (arith, e, publish-settable m after target bits source e))
    ]
  ]

  live_set-settable :
      (frame : ActiveFrame) (m after : LuaState) (index key source : ℕ)
      → try_live_register_numeric_set vm frame m index key source ≡ some after
      → vm.settable m (register m index) (register m key) (register m source) ≡ some after
  unfolding try_live_register_numeric_set
  live_set-settable frame m after index key source h =
      elim (Option-cases (number_of (register m key))) [
        | inl n ↦ absurd (ground (arith, n))
        | inr (bits, b) ↦
            rw (number_of-some (register m key) bits b)
              (publish-settable m after (register m index) bits source (ground (arith, b)))
      ]

  register_operand :
      (proto : ActiveProto) (m : LuaState) (key : ℕ) (value : TValue)
      → active_aot_value_operand proto m false key ≡ some value
      → register m key ≡ value
  unfolding active_aot_value_operand
  register_operand proto m key value h = ground arith

  checked_set-settable :
      (frame : ActiveFrame) (proto : ActiveProto) (m : LuaState) (index : ℕ) (is_constant : Bool)
      (key : ℕ) (value : TValue) (source : ℕ)
      → frame.proto ≡ some proto
      → index < proto.maxstacksize
      → source < proto.maxstacksize
      → m.base + index < m.top
      → m.base + source < m.top
      → active_aot_value_operand proto m is_constant key ≡ some value
      → checked_table_set vm frame m index is_constant key source
        ≡ vm.settable m (register m index) value (register m source)
  unfolding checked_table_set
  checked_set-settable frame proto m index is_constant key value source p i s li ls o =
      ground (arith, p, o, set_by_key-settable m (register m index) value source)

  -- A generic table set of registers and an operand that the checks accept is the virtual machine's
  -- assignment of that value to that key, whichever of the fast paths the code takes.
  pub table_set-settable :
      (frame : ActiveFrame) (proto : ActiveProto) (m : LuaState) (index : ℕ) (is_constant : Bool)
      (key : ℕ) (value : TValue) (source : ℕ)
      → frame.proto ≡ some proto
      → index < proto.maxstacksize
      → source < proto.maxstacksize
      → m.base + index < m.top
      → m.base + source < m.top
      → active_aot_value_operand proto m is_constant key ≡ some value
      → table_set vm frame m index is_constant key source
        ≡ vm.settable m (register m index) value (register m source)
  unfolding table_set
  table_set-settable frame proto m index true key value source p i s li ls o =
      checked_set-settable frame proto m index true key value source p i s li ls o
  table_set-settable frame proto m index false key value source p i s li ls o =
      elim (Option-cases (try_live_register_numeric_set vm frame m index key source)) [
        | inl n ↦ ground (
          arith,
          n,
          checked_set-settable frame proto m index false key value source p i s li ls o,
        )
        | inr (after, e) ↦ ground (
          arith,
          e,
          live_set-settable frame m after index key source e,
          register_operand proto m key value o,
        )
      ]

module _ (vm : Vm) (frame : ActiveFrame) (proto : ActiveProto) (m : LuaState)
    (index source : ℕ) where
  live_append :
      (after : LuaState)
      → frame.proto ≡ some proto
      → index < proto.maxstacksize
      → source < proto.maxstacksize
      → try_live_insert_append vm frame m index source ≡ some after
      → checked_insert_append vm frame m index source ≡ some after
  unfolding try_live_insert_append checked_insert_append append_to append_checked
      active_aot_plain_table active_aot_table
  live_append after p i s h = elim (Option-cases (table_of (register m index))) [
    | inl n ↦ absurd (ground (arith, n))
    | inr (address, t) ↦ ground (arith, p, i, s, t)
  ]

  -- The live path of the append never does what the checked path would not: in a frame that the checks
  -- accept and for registers of it, the helper is its checked path.
  pub table_insert_append-checked :
      frame.proto ≡ some proto
      → index < proto.maxstacksize
      → source < proto.maxstacksize
      → table_insert_append vm frame m index source ≡ checked_insert_append vm frame m index source
  unfolding table_insert_append
  table_insert_append-checked p i s =
      elim (Option-cases (try_live_insert_append vm frame m index source)) [
        | inl n ↦ ground (arith, n)
        | inr (after, e) ↦ ground (arith, e, live_append after p i s e)
      ]
