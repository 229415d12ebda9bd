-- ===== src/Runtime/Fastcall.antt =====
-- `luauc_runtime_v1_fastcall` of runtime/src/call_frame.cpp: the checks of a call of a builtin function and
-- the place of its arguments. The table of builtins is the virtual machine's, and a parameter.
mod Arguments
mod Runs
use luauc.Prelude.{
  ℕ, zero, suc, ◌+◌, ◌-◌, ◌%◌, ◌^◌, Bool, true, false, not, ◌&&◌, ◌||◌, Option, none, some, arith,
  ltb, leb, ◌==◌, if◌then◌else◌,
}
use luauc.Prelude.Words.{int_max, uint32_max, ℤ, pos, negsuc}
use luauc.Runtime.Tables.{
  TValue, LuaState, ActiveProto, active_aot_register, active_aot_value_operand, published, checked,
  given,
}

-- `AOT_FASTCALL_NO_OPERAND`
abbrev pub no_operand : ℕ
no_operand = uint32_max

abbrev pub is_operand : ℕ → Bool
is_operand encoded = not (encoded == no_operand)

abbrev pub is_constant : ℕ → Bool
is_constant encoded = leb (2 ^ 31) encoded

-- The second and further arguments: none, from a slot on, or one constant.
pub data Additional : Type 0 where
  nothing : Additional
  slots : ℕ → Additional
  constant : TValue → Additional

-- The arguments of a builtin function; `destination` and `source` are slots.
pub record FastCall : Type 0 where
  pub destination : ℕ
  pub source : ℕ
  pub result_count : ℤ
  pub additional : Additional
  pub count : ℕ

-- The words of the compiled call.
pub record Operands : Type 0 where
  pub builtin_id : ℕ
  pub destination_register : ℕ
  pub source_register : ℕ
  pub argument_two : ℕ
  pub argument_three : ℕ
  pub result_count : ℤ
  pub parameter_count : ℤ

abbrev pub is_multret : ℤ → Bool
is_multret (negsuc zero) = true
is_multret _ = false

unfoldable pub valid_result_count : ActiveProto → LuaState → ℕ → ℤ → Bool
valid_result_count proto m destination (pos n) =
    not (ltb (proto.maxstacksize - destination) n || ltb m.top (m.base + destination + n))
valid_result_count proto m destination (negsuc zero) = true
valid_result_count proto m destination (negsuc (suc n)) = false

unfoldable pub actual_parameter_count : LuaState → ℕ → ℤ → Option ℕ
actual_parameter_count m destination (pos n) = some n
actual_parameter_count m destination (negsuc zero) =
    if ltb m.top (m.base + destination + 1) || ltb int_max (m.top - (m.base + destination + 1))
    then none
    else some (m.top - (m.base + destination + 1))
actual_parameter_count m destination (negsuc (suc n)) = none

abbrev pub contiguous_stack_arguments : Operands → ℕ → Bool
contiguous_stack_arguments call count =
    not (is_multret call.parameter_count)
    && not (is_operand call.argument_three)
    && is_operand call.argument_two
    && ltb 2 count

abbrev pub encoded_parameter_count : Operands → ℕ
encoded_parameter_count call =
    if is_operand call.argument_three then 3 else (if is_operand call.argument_two then 2 else 1)

-- The checks of the layout, for a call with arguments.
unfoldable pub valid_argument_layout : ActiveProto → LuaState → Operands → ℕ → Bool
valid_argument_layout proto m call count =
    (not (is_multret call.parameter_count)
      || (call.source_register == call.destination_register + 1
          && call.argument_two == call.destination_register + 2
          && not (is_operand call.argument_three)))
    && (not (is_operand call.argument_three) || is_operand call.argument_two)
    && (is_multret call.parameter_count
        || contiguous_stack_arguments call count
        || count == encoded_parameter_count call)
    && (not (is_multret call.parameter_count)
        || not (
            ltb (proto.maxstacksize - call.source_register) count
            || ltb m.top (m.base + call.source_register + count)))

abbrev pub operand : ActiveProto → LuaState → ℕ → Option TValue
operand proto m encoded = active_aot_value_operand proto m (is_constant encoded) (encoded % 2 ^ 31)

abbrev pub push_two : LuaState → TValue → TValue → LuaState
push_two m second third = record m {
  stack = λ s. if s == m.top then second else (if s == m.top + 1 then third else m.stack s);
}

-- The argument of a register stays in its slot.
unfoldable pub one_argument : LuaState → ℕ → TValue → Additional
one_argument m encoded value =
    if is_constant encoded then constant value else slots (m.base + encoded)

-- The operands of FASTCALL3 are copied above the top.
unfoldable pub two_arguments :
    ActiveProto → LuaState → Operands → TValue → Option (LuaState × Additional)
two_arguments proto m call second =
    if is_constant call.argument_two || is_constant call.argument_three
    then none
    else given (operand proto m call.argument_three)
        (λ third. some (push_two m second third, slots m.top))

unfoldable pub additional_arguments :
    ActiveProto → LuaState → Operands → ℕ → Option (LuaState × Additional)
additional_arguments proto m call count =
    if contiguous_stack_arguments call count
    then (if is_constant call.argument_two
          || not (call.argument_two == call.source_register + 1)
          || leb proto.maxstacksize call.source_register
          || ltb (proto.maxstacksize - call.source_register) count
          || ltb m.top (m.base + call.source_register + count)
        then none
        else some (m, slots (m.base + call.source_register + 1)))
    else if is_multret call.parameter_count
    then some (m, slots (m.base + call.destination_register + 2))
    else if is_operand call.argument_two
    then given (operand proto m call.argument_two) (λ second.
      if is_operand call.argument_three
      then two_arguments proto m call second
      else some (m, one_argument m call.argument_two second))
    else some (m, nothing)

-- What the helper does: raise, answer -1 so that the caller takes the general path, or call the builtin.
pub data Plan : Type 0 where
  refused : Plan
  declined : Plan
  planned : LuaState → FastCall → Plan

abbrev pub plan_call : LuaState → Operands → ℕ → Option (LuaState × Additional) → Plan
plan_call m call count none = refused
plan_call m call count (some (m', additional)) = planned m' (record {
  destination = m.base + call.destination_register;
  source = m.base + call.source_register;
  result_count = call.result_count;
  additional = additional;
  count = count;
})

unfoldable pub plan_arguments : Bool → Bool → ActiveProto → LuaState → Operands → ℕ → Plan
plan_arguments safe_env has_builtin proto m call count =
    if count == 0
    then declined
    else if not (valid_argument_layout proto m call count)
    then refused
    else if not safe_env
    then declined
    else if not has_builtin
    then refused
    else plan_call m call count (additional_arguments proto m call count)

-- `safe_env` tells whether the closure has an environment that is safe.
unfoldable pub plan_fastcall : Bool → Bool → ActiveProto → LuaState → Operands → Plan
plan_fastcall safe_env has_builtin proto m call =
    if not (
      active_aot_register proto call.destination_register
      && active_aot_register proto call.source_register
      && published m call.destination_register
      && published m call.source_register
      && ltb call.builtin_id 256
      && valid_result_count proto m call.destination_register call.result_count)
    then refused
    else (elim (actual_parameter_count m call.destination_register call.parameter_count) [
      | none ↦ refused
      | some count ↦ plan_arguments safe_env has_builtin proto m call count
    ])

abbrev pub is_some : {A : Type 0} → Option A → Bool
is_some none = false
is_some (some a) = true

-- The builtin's answer; after FASTCALL3 the top is where it was.
unfoldable pub fastcall :
    (ℕ → Option (LuaState → FastCall → LuaState × ℤ))
    → Bool
    → ActiveProto
    → LuaState
    → Operands
    → Option (LuaState × ℤ)
fastcall luau_f_table safe_env proto m call =
    elim (plan_fastcall safe_env (is_some (luau_f_table call.builtin_id)) proto m call) [
      | refused ↦ none
      | declined ↦ some (m, negsuc 0)
      | planned m' arguments ↦ given (luau_f_table call.builtin_id) (λ fast_function.
          let (after, produced) = fast_function m' arguments in
          some (
            (if is_operand call.argument_three then record after { top = m.top } else after),
            produced,
          ))
    ]
