-- ===== src/Runtime/Tables/Extras.antt =====
-- The table constructor `{...}` of a variadic function: GETVARARGS copies the extra arguments behind the
-- registers, and SETLIST stores them in the array part.
use luauc.Prelude.{
  ℕ, ◌+◌, ◌-◌, ◌%◌, ◌^◌, ◌≤◌, ◌<◌, ◌≡◌, ◌≢◌, ◌⊎◌, inl, inr, sym, ap, ◌∙◌, none, some, arith, leb,
  get_or, Bool, false, Option-cases, Bool-cases,
}
use luauc.Prelude.Words.{int_max, uint32_max}
use luauc.Runtime.Registers.{Thread, Shape, vararg_count, get_varargs_multret}
use luauc.Runtime.Registers.Varargs.{IsPrepared, vararg_count-extra, get_varargs_multret_all}
use luauc.Runtime.Tables.{
  TValue, nil, table, LuaTable, LuaState, ActiveProto, ActiveFrame, Vm, register, active_aot_table,
}
use luauc.Runtime.Tables.SetList.{set_list_table, set_list_into, set_list_multret, set_list}
use luauc.Runtime.Tables.Lists.{GrowsArrays, HasList, list_count, set_list-HasList}

module _ (vm : Vm) (frame : ActiveFrame) (proto : ActiveProto) (p : frame.proto ≡ some proto) where
  -- The number of values that SETLIST finds below the top.
  counted :
      (m : LuaState) (destination extra : ℕ)
      → m.top ≡ m.base + destination + extra
      → extra ≤ int_max
      → (m.top - (m.base + destination)) % 2 ^ 32 ≡ extra
  counted m destination extra top small = omega (arith, top)

  refused :
      (m : LuaState) (index destination known_size extra : ℕ)
      → m.top ≡ m.base + destination + extra
      → extra ≤ int_max
      → proto.maxstacksize - destination < extra
      → set_list vm frame m index destination uint32_max 1 known_size ≡ none
  unfolding set_list set_list_multret
  refused m index destination known_size extra top small many =
      elim (Option-cases (active_aot_table proto (record m { top = m.ci_top }) index false)) [
        | inl n ↦ ground (arith, p, n)
        | inr (address, t) ↦ ground (arith, p, t, counted m destination extra top small)
      ]

  into-ne-none :
      (m : LuaState) (index destination extra address : ℕ)
      → extra ≤ int_max
      → active_aot_table proto m index false ≡ some address
      → set_list_into vm proto m index destination extra 1 uint32_max ≢ none
  unfolding set_list_into set_list_table
  into-ne-none m index destination extra address small t h = ground (arith, t)

  read_table :
      (m : LuaState) (index address : ℕ)
      → index < proto.maxstacksize
      → register m index ≡ table address
      → active_aot_table proto (record m { top = m.ci_top }) index false ≡ some address
  unfolding active_aot_table
  read_table m index address i t = ground (arith, t)

  accepted :
      (m : LuaState) (index destination known_size extra address : ℕ)
      → m.top ≡ m.base + destination + extra
      → extra ≤ int_max
      → extra ≤ proto.maxstacksize - destination
      → index < proto.maxstacksize
      → destination < proto.maxstacksize
      → register m index ≡ table address
      → set_list vm frame m index destination uint32_max 1 known_size ≢ none
  unfolding set_list set_list_multret
  accepted m index destination known_size extra address top small few i d t h =
      let found = read_table m index address i t in
      ground (
        arith,
        p,
        found,
        counted m destination extra top small,
        into-ne-none (record m { top = m.ci_top }) index destination extra address small found,
      )

  listed_value :
      (m m' : LuaState) (index destination extra address i : ℕ)
      → m.top ≡ m.base + destination + extra
      → extra ≤ int_max
      → i < extra
      → HasList m m' index destination 1 (list_count m destination uint32_max)
      → register m index ≡ table address
      → get_or (m'.heap address).array i nil ≡ register m (destination + i)
  listed_value m m' index destination extra address i top small l listed t =
      let same : listed.address ≡ address = ground (arith, listed.is_table, t) in
      ap (λ (a : ℕ). get_or (m'.heap a).array i nil) (sym same)
      ∙ ap (λ (j : ℕ). get_or (m'.heap listed.address).array j nil) (omega arith)
      ∙ listed.written i (omega (arith, counted m destination extra top small))

-- The thread of a variadic call as the table helpers see it.
abbrev pub state_of : {U : Type 0} → Thread TValue U → (ℕ → LuaTable) → LuaState
state_of thread heap = record {
  stack = thread.stack;
  base = thread.base;
  top = thread.top;
  ci_top = thread.ci_top;
  heap = heap;
}

copied :
    {U : Type 0} (grows : ℕ → Bool) (shape : Shape) (extra destination : ℕ)
    (call prepared after : Thread TValue U)
    → IsPrepared nil shape extra call prepared
    → get_varargs_multret grows shape prepared destination ≡ some after
    → (after.base ≡ prepared.base) × (extra ≤ int_max)
unfolding get_varargs_multret
copied grows shape extra destination call prepared after q h =
    elim (Option-cases (vararg_count shape prepared)) [
      | inl n ↦ absurd (ground (arith, n))
      | inr (count, e) ↦
          let same = vararg_count-extra nil shape extra count call prepared q e in
          (ground (arith, e), ground (arith, e, same))
    ]

-- In a prepared frame of a variadic function, a new table that is filled with all extra arguments has each of
-- them, in order, if the registers of the compiled frame from the first one copied on are as many; if there
-- are more extra arguments, the table constructor is refused, although the copy of the arguments was not.
pub set_list_varargs :
    {U : Type 0} (vm : Vm) (grows : ℕ → Bool) (shape : Shape) (frame : ActiveFrame)
    (proto : ActiveProto) (heap : ℕ → LuaTable) (extra destination index address known_size : ℕ)
    (call prepared after : Thread TValue U)
    → GrowsArrays vm
    → frame.proto ≡ some proto
    → IsPrepared nil shape extra call prepared
    → get_varargs_multret grows shape prepared destination ≡ some after
    → index < proto.maxstacksize
    → destination < proto.maxstacksize
    → register (state_of after heap) index ≡ table address
    → ((extra ≤ proto.maxstacksize - destination)
        × ((m' : LuaState) × (set_list vm frame
                (state_of after heap)
                index
                destination
                uint32_max
                1
                known_size
              ≡ some m')
            × ((i : ℕ)
                → i < extra
                → get_or (m'.heap address).array i nil
                  ≡ call.stack (call.func + 1 + shape.numparams + i))))
      ⊎ ((proto.maxstacksize - destination < extra)
          × (set_list vm frame (state_of after heap) index destination uint32_max 1 known_size
              ≡ none))
set_list_varargs vm grows shape frame proto heap extra destination index address known_size call
      prepared after law p q h i d t =
    let m = state_of after heap in
    let (base, small) = copied grows shape extra destination call prepared after q h in
    let (top, values) =
      get_varargs_multret_all nil shape grows extra destination call prepared after q h in
    let end : m.top ≡ m.base + destination + extra = omega (arith, base, top) in
    elim (Bool-cases (leb extra (proto.maxstacksize - destination))) [
      | inr many ↦ inr (
        ground (arith, many),
        refused vm frame proto p m index destination known_size extra end small
            (ground (arith, many)),
      )
      | inl few ↦
          elim (Option-cases (set_list vm frame m index destination uint32_max 1 known_size)) [
            | inl n ↦ absurd (
                accepted vm frame proto p m index destination known_size extra address end small
                  (ground (arith, few)) i d t n)
            | inr (m', e) ↦
                let listed =
                  set_list-HasList vm law frame m m' index destination uint32_max 1 known_size e in
                inl (
                  ground (arith, few),
                  (
                    m',
                    e,
                    λ i l.
                        listed_value vm frame proto p m m' index destination extra address i end
                          small l listed t
                        ∙ ap after.stack (omega (arith, base))
                        ∙ values i l,
                  ),
                )
          ]
    ]
