-- ===== src/Runtime/Tables/Access.antt =====
-- The direct access to the array part of a table: what its answer means, and that a value set is got.
use luauc.Prelude.{
  ℕ, ◌+◌, ◌-◌, ◌≤◌, ◌<◌, ◌≡◌, ◌⊎◌, inl, inr, refl, Bool, true, false, some, arith, length, set,
  length-set, get_or-set_self, Option-cases,
}
use luauc.Runtime.Tables.{
  TValue, nil, table, number, other, LuaState, ActiveProto, ActiveFrame, register, write_register,
  write_table, active_aot_table, table_of,
}
use luauc.Runtime.Tables.Array.{table_array_set, table_array_get, array_set}

pub table_of-some : (v : TValue) (address : ℕ) → table_of v ≡ some address → v ≡ table address
table_of-some (table a) address h = ground (arith, h)
table_of-some nil address h = cc
table_of-some (number bits) address h = cc
table_of-some (other id) address h = cc

module _ (frame : ActiveFrame) (m : LuaState) (index one_based source : ℕ) where
  -- What an accepted direct write has seen and done.
  record IsWritten (m' : LuaState) : Type 0 where
    pub proto : ActiveProto
    pub address : ℕ
    pub active : frame.proto ≡ some proto
    pub table_in_frame : index < proto.maxstacksize
    pub source_in_frame : source < proto.maxstacksize
    pub live : m.base + index < m.top
    pub is_table : register m index ≡ table address
    pub plain : (m.heap address).metatable ≡ false
    pub writable : (m.heap address).readonly ≡ false
    pub inside : 0 < one_based
    pub in_array : one_based ≤ length (m.heap address).array
    pub after :
        m'
        ≡ write_table m address (record (m.heap address) {
          array = set (m.heap address).array (one_based - 1) (register m source);
        })

  table_array_set-IsWritten :
      (m' : LuaState)
      → table_array_set frame m index one_based source ≡ some (true, m')
      → IsWritten m'
  unfolding table_array_set
  table_array_set-IsWritten m' h = elim (Option-cases frame.proto) [
    | inl n ↦ absurd (ground (arith, n))
    | inr (proto, p) ↦ elim (Option-cases (table_of (register m index))) [
      | inl n ↦ absurd (ground (arith, p, n))
      | inr (address, t) ↦ record {
        proto = proto;
        address = address;
        active = p;
        table_in_frame = ground (arith, p, t);
        source_in_frame = ground (arith, p, t);
        live = ground (arith, p, t);
        is_table = table_of-some (register m index) address t;
        plain = ground (arith, p, t);
        writable = ground (arith, p, t);
        inside = ground (arith, p, t);
        in_array = ground (arith, p, t);
        after = ground (arith, p, t);
      }
    ]
  ]

  unchanged :
      (m' : LuaState) → table_array_set frame m index one_based source ≡ some (false, m') → m' ≡ m
  unfolding table_array_set
  unchanged m' h = elim (Option-cases frame.proto) [
    | inl n ↦ absurd (ground (arith, n))
    | inr (proto, p) ↦ elim (Option-cases (table_of (register m index))) [
      | inl n ↦ ground (arith, p, n)
      | inr (address, t) ↦ ground (arith, p, t)
    ]
  ]

  written-array_set :
      (m' : LuaState) → IsWritten m' → array_set frame m index source one_based ≡ some m'
  unfolding array_set active_aot_table
  written-array_set m' w = ground (
    arith, w.active, w.table_in_frame, w.source_in_frame, w.is_table, w.writable, w.inside,
    w.in_array, w.after,
  )

  -- A direct write that answers 0 has changed nothing, so that the caller can take the general path; one
  -- that answers 1 did what the checked array write of the same register to the same position does.
  pub table_array_set_answer :
      (answer : Bool) (m' : LuaState)
      → table_array_set frame m index one_based source ≡ some (answer, m')
      → ((answer ≡ true) × (array_set frame m index source one_based ≡ some m'))
        ⊎ ((answer ≡ false) × (m' ≡ m))
  table_array_set_answer true m' h =
      inl (refl, written-array_set m' (table_array_set-IsWritten m' h))
  table_array_set_answer false m' h = inr (refl, unchanged m' h)

  written-array_get :
      (proto : ActiveProto) (m' : LuaState) (destination : ℕ)
      → frame.proto ≡ some proto
      → destination < proto.maxstacksize
      → m.base + destination < m.top
      → IsWritten m'
      → table_array_get frame m' destination index one_based
        ≡ some (true, write_register m' destination (register m source))
  unfolding table_array_get
  written-array_get proto m' destination p inside live w =
      let stored =
        get_or-set_self (m.heap w.address).array (one_based - 1) (register m source) nil
          (omega (arith, w.in_array, w.inside)) in
      let size = length-set (m.heap w.address).array (one_based - 1) (register m source) in
      let same : w.proto ≡ proto = ground (arith, w.active, p) in
      rw (w.after, p, w.is_table)
        (ground
          (arith, w.table_in_frame, w.live, w.plain, w.inside, w.in_array, stored, size, same))

  -- What a direct write has stored at a position, a direct read of that position then gives, also where the
  -- value is the table itself.
  pub table_array_set-get :
      (proto : ActiveProto) (m' : LuaState) (destination : ℕ)
      → frame.proto ≡ some proto
      → destination < proto.maxstacksize
      → m.base + destination < m.top
      → table_array_set frame m index one_based source ≡ some (true, m')
      → table_array_get frame m' destination index one_based
        ≡ some (true, write_register m' destination (register m source))
  table_array_set-get proto m' destination p inside live h =
      written-array_get proto m' destination p inside live (table_array_set-IsWritten m' h)
