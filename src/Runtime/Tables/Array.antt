-- ===== src/Runtime/Tables/Array.antt =====
-- The helpers on the array part of a table, of runtime/src/call_frame.cpp.
use luauc.Prelude.{
  ℕ, ◌-◌, Bool, true, false, ◌&&◌, ◌||◌, Option, none, some, ltb, ◌==◌, if◌then◌else◌, length,
  get_or, set,
}
use luauc.Runtime.Tables.{
  LuaState, ActiveFrame, Vm, checked, given, register, write_register, write_table,
  active_aot_register, published, table_of, active_aot_table, nil, number,
}

-- The answer is 1 with the write, or 0 with the machine as it was.
unfoldable pub table_array_set : ActiveFrame → LuaState → ℕ → ℕ → ℕ → Option (Bool × LuaState)
table_array_set frame m index one_based source = given frame.proto (λ proto.
    checked (active_aot_register proto index && active_aot_register proto source) (
      checked (published m index && published m source) (elim (table_of (register m index)) [
        | none ↦ some (false, m)
        | some address ↦
            let old = m.heap address in
            if old.metatable || old.readonly || one_based == 0 || ltb (length old.array) one_based
            then some (false, m)
            else some (
              true,
              write_table m address
                  (record old { array = set old.array (one_based - 1) (register m source) }),
            )
      ])))

unfoldable pub table_array_get : ActiveFrame → LuaState → ℕ → ℕ → ℕ → Option (Bool × LuaState)
table_array_get frame m destination index one_based = given frame.proto (λ proto.
    checked (active_aot_register proto destination && active_aot_register proto index) (
      checked (published m destination && published m index) (elim (table_of (register m index)) [
        | none ↦ some (false, m)
        | some address ↦
            let old = m.heap address in
            if old.metatable || one_based == 0 || ltb (length old.array) one_based
            then some (false, m)
            else some (true, write_register m destination (get_or old.array (one_based - 1) nil))
      ])))

unfoldable pub array_set : ActiveFrame → LuaState → ℕ → ℕ → ℕ → Option LuaState
array_set frame m index source position = given frame.proto (λ proto.
    given (active_aot_table proto m index true) (λ address.
      let old = m.heap address in
      checked (active_aot_register proto source) (
        if position == 0 || ltb (length old.array) position
        then none
        else some (
            write_table m address
              (record old { array = set old.array (position - 1) (register m source) })))))

unfoldable pub array_get : ActiveFrame → LuaState → ℕ → ℕ → ℕ → Option LuaState
array_get frame m destination index position = given frame.proto (λ proto.
    given (active_aot_table proto m index false) (λ address.
      let old = m.heap address in
      checked (active_aot_register proto destination) (
        if position == 0 || ltb (length old.array) position
        then none
        else some (write_register m destination (get_or old.array (position - 1) nil)))))

unfoldable pub table_len : Vm → (ℕ → ℕ) → ActiveFrame → LuaState → ℕ → ℕ → Option LuaState
table_len vm double frame m destination index = given frame.proto (λ proto.
    checked (active_aot_register proto index) (elim (table_of (register m index)) [
      | none ↦ vm.do_len m destination index
      | some address ↦
          if (m.heap address).metatable
          then vm.do_len m destination index
          else checked (active_aot_register proto destination)
              (some (write_register m destination (number (double (vm.getn (m.heap address))))))
    ]))
