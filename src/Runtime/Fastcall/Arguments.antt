-- ===== src/Runtime/Fastcall/Arguments.antt =====
-- The arguments that a builtin function finds are those of the compiled call, and all of them are
-- live.
use luauc.Prelude.{
  ℕ, zero, suc, ◌+◌, ◌%◌, ◌^◌, ◌≤◌, ◌<◌, ◌≡◌, ◌≢◌, inl, inr, refl, ap, Bool, true, false, not, ◌||◌,
  Option, none, some, arith, ◌==◌, if◌then◌else◌, Option-cases, Bool-cases,
}
use luauc.Prelude.Words.{ℤ, pos, negsuc}
use luauc.Runtime.Tables.{TValue, LuaState, ActiveProto, register, active_aot_value_operand}
use luauc.Runtime.Fastcall.{
  no_operand, is_operand, is_constant, Additional, nothing, slots, constant, FastCall, Operands,
  is_multret, valid_result_count, actual_parameter_count, contiguous_stack_arguments,
  encoded_parameter_count, valid_argument_layout, operand, push_two, one_argument, two_arguments,
  additional_arguments, planned, plan_call, plan_arguments, plan_fastcall,
}

-- The argument at place `i` behind the first one, as the builtin finds it.
abbrev pub found : LuaState → Additional → ℕ → Option TValue
found m nothing i = none
found m (slots s) i = some (m.stack (s + i))
found m (constant value) i = if i == 0 then some value else none

-- The argument at place `i` behind the first one as the words of the call name it: in an open call
-- and in one with consecutive registers it is the live register `i` behind that of argument two,
-- which is the register after the first argument's; in any other call it is operand two or operand
-- three.
pub data IsArgument (proto : ActiveProto) (m : LuaState) (call : Operands) (count : ℕ)
    : ℕ → TValue → Type 0 where
  open_call :
      (i : ℕ)
      → call.parameter_count ≡ negsuc 0
      → call.source_register ≡ call.destination_register + 1
      → call.argument_two ≡ call.destination_register + 2
      → call.argument_three ≡ no_operand
      → m.base + (call.argument_two + i) < m.top
      → IsArgument proto m call count i (register m (call.argument_two + i))
  consecutive :
      (i : ℕ)
      → call.parameter_count ≢ negsuc 0
      → call.argument_three ≡ no_operand
      → call.argument_two ≢ no_operand
      → 2 < count
      → is_constant call.argument_two ≡ false
      → call.argument_two ≡ call.source_register + 1
      → m.base + (call.argument_two + i) < m.top
      → IsArgument proto m call count i (register m (call.argument_two + i))
  operand_two :
      {value : TValue}
      → call.parameter_count ≢ negsuc 0
      → call.argument_two ≢ no_operand
      → operand proto m call.argument_two ≡ some value
      → IsArgument proto m call count 0 value
  operand_three :
      {value : TValue}
      → call.parameter_count ≢ negsuc 0
      → call.argument_three ≢ no_operand
      → operand proto m call.argument_three ≡ some value
      → IsArgument proto m call count 1 value

-- Each of the arguments behind the first is found.
abbrev pub AreFound : ActiveProto → LuaState → Operands → ℕ → LuaState → Additional → Type 0
AreFound proto m call count m' additional =
    (i : ℕ)
    → i + 1 < count
    → (value : TValue) × (found m' additional i ≡ some value)
      × IsArgument proto m call count i value

open_count : (n : ℤ) → is_multret n ≡ true → n ≡ negsuc 0
open_count (pos k) h = cc
open_count (negsuc zero) h = refl
open_count (negsuc (suc k)) h = cc

not_open : (n : ℤ) → is_multret n ≡ false → n ≢ negsuc 0
not_open n h e = ground (arith, h, e)

operand_given : (encoded : ℕ) → is_operand encoded ≡ true → encoded ≢ no_operand
operand_given encoded h e = ground (arith, h, e)

module _ (proto : ActiveProto) (m : LuaState) (call : Operands) (count : ℕ) where
  register-operand :
      (encoded : ℕ) (value : TValue)
      → is_constant encoded ≡ false
      → operand proto m encoded ≡ some value
      → register m encoded ≡ value
  unfolding active_aot_value_operand
  register-operand encoded value c h =
      let small : encoded % 2 ^ 31 ≡ encoded = ground (arith, c) in ground (arith, c, small)

  one_argument-found :
      (encoded : ℕ) (value : TValue)
      → operand proto m encoded ≡ some value
      → found m (one_argument m encoded value) 0 ≡ some value
  unfolding one_argument
  one_argument-found encoded value h = elim (Bool-cases (is_constant encoded)) [
    | inl c ↦ ground (arith, c)
    | inr c ↦ ground (arith, c, register-operand encoded value c h)
  ]

  second_at :
      (i : ℕ) (value : TValue)
      → i ≡ 0
      → call.parameter_count ≢ negsuc 0
      → call.argument_two ≢ no_operand
      → operand proto m call.argument_two ≡ some value
      → IsArgument proto m call count i value
  second_at i value e r two o = rw e (operand_two r two o)

  third_at :
      (i : ℕ) (value : TValue)
      → i ≡ 1
      → call.parameter_count ≢ negsuc 0
      → call.argument_three ≢ no_operand
      → operand proto m call.argument_three ≡ some value
      → IsArgument proto m call count i value
  third_at i value e r three o = rw e (operand_three r three o)

  two_arguments-AreFound :
      (second : TValue) (m' : LuaState) (additional : Additional)
      → count ≡ 3
      → call.parameter_count ≢ negsuc 0
      → call.argument_two ≢ no_operand
      → call.argument_three ≢ no_operand
      → operand proto m call.argument_two ≡ some second
      → two_arguments proto m call second ≡ some (m', additional)
      → AreFound proto m call count m' additional
  unfolding two_arguments
  two_arguments-AreFound second m' additional count_three r has_two has_three o h i l =
      elim (Option-cases (operand proto m call.argument_three)) [
        | inl n ↦ absurd (ground (arith, n))
        | inr (third, t) ↦
            let state : m' ≡ push_two m second third = ground (arith, t) in
            let place : additional ≡ slots m.top = ground (arith, t) in
            rw (state, place)
              (elim (Bool-cases (i == 0)) [
                | inl e ↦
                    (second, ground (arith, e), second_at i second (ground (arith, e)) r has_two o)
                | inr e ↦
                    let last : i ≡ 1 = ground (arith, e, l, count_three) in
                    (third, ground (arith, last), third_at i third last r has_three t)
              ])
      ]

  slots-AreFound :
      (s : ℕ)
      → s ≡ m.base + call.argument_two
      → m.base + call.argument_two + count ≤ m.top + 1
      → ((i : ℕ)
          → m.base + (call.argument_two + i) < m.top
          → IsArgument proto m call count i (register m (call.argument_two + i)))
      → AreFound proto m call count m (slots s)
  slots-AreFound s e live by_mode i l = (
    register m (call.argument_two + i),
    ap (λ t. some (m.stack t)) (omega (arith, e)),
    by_mode i (omega (arith, live)),
  )

  fixed-AreFound :
      (m' : LuaState) (additional : Additional)
      → contiguous_stack_arguments call count ≡ false
      → is_multret call.parameter_count ≡ false
      → count ≡ encoded_parameter_count call
      → (not (is_operand call.argument_three) || is_operand call.argument_two) ≡ true
      → additional_arguments proto m call count ≡ some (m', additional)
      → AreFound proto m call count m' additional
  unfolding additional_arguments
  fixed-AreFound m' additional c r same sparse h =
      let fixed : call.parameter_count ≢ negsuc 0 = not_open call.parameter_count r in
      elim (Bool-cases (is_operand call.argument_two)) [
        | inr none_two ↦ λ i l. absurd (ground (arith, none_two, same, sparse, l))
        | inl two ↦ elim (Option-cases (operand proto m call.argument_two)) [
          | inl n ↦ absurd (ground (arith, c, r, two, n))
          | inr (second, o) ↦ elim (Bool-cases (is_operand call.argument_three)) [
            | inl three ↦
                two_arguments-AreFound second m' additional (ground (arith, three, same)) fixed
                  (operand_given call.argument_two two) (operand_given call.argument_three three) o
                  (ground (arith, c, r, two, o, three))
            | inr none_three ↦
                let state : m' ≡ m = ground (arith, c, r, two, o, none_three) in
                let place : additional ≡ one_argument m call.argument_two second =
                  ground (arith, c, r, two, o, none_three) in
                rw (state, place)
                  (λ i l.
                    let first : i ≡ 0 = ground (arith, none_three, two, same, l) in
                    (
                      second,
                      rw first (one_argument-found call.argument_two second o),
                      second_at i second first fixed (operand_given call.argument_two two) o,
                    ))
          ]
        ]
      ]

  additional-AreFound :
      (m' : LuaState) (additional : Additional)
      → valid_argument_layout proto m call count ≡ true
      → additional_arguments proto m call count ≡ some (m', additional)
      → AreFound proto m call count m' additional
  unfolding additional_arguments valid_argument_layout
  additional-AreFound m' additional v h =
      elim (Bool-cases (contiguous_stack_arguments call count)) [
        | inl c ↦
            let state : m' ≡ m = ground (arith, c) in
            let place : additional ≡ slots (m.base + call.source_register + 1) =
              ground (arith, c) in
            rw (state, place)
              (slots-AreFound _ (ground (arith, c)) (ground (arith, c)) (λ i l.
                consecutive i (not_open call.parameter_count (ground (arith, c)))
                  (ground (arith, c)) (operand_given call.argument_two (ground (arith, c)))
                  (ground (arith, c)) (ground (arith, c)) (ground (arith, c)) l))
        | inr c ↦ elim (Bool-cases (is_multret call.parameter_count)) [
          | inl r ↦
              let state : m' ≡ m = ground (arith, c, r) in
              let place : additional ≡ slots (m.base + call.destination_register + 2) =
                ground (arith, c, r) in
              rw (state, place)
                (slots-AreFound _ (ground (arith, c, r)) (ground (arith, c, r)) (λ i l.
                  open_call i (open_count call.parameter_count r) (ground (arith, c, r))
                    (ground (arith, c, r)) (ground (arith, c, r)) l))
          | inr r ↦ fixed-AreFound m' additional c r (ground (arith, c, r)) (ground (arith, c, r)) h
        ]
      ]

  planned_by :
      (m' : LuaState) (arguments : FastCall) (places : Option (LuaState × Additional))
      → plan_call m call count places ≡ planned m' arguments
      → (places ≡ some (m', arguments.additional))
        × (arguments.destination ≡ m.base + call.destination_register)
        × (arguments.source ≡ m.base + call.source_register)
        × (arguments.count ≡ count)
  planned_by m' arguments none h = cc
  planned_by m' arguments (some (m'', additional)) h =
      (ground arith, ground arith, ground arith, ground arith)

fitting :
    (proto : ActiveProto) (m : LuaState) (destination : ℕ) (result_count : ℤ)
    → valid_result_count proto m destination result_count ≡ true
    → (n : ℕ) → result_count ≡ pos n
    → m.base + destination + n ≤ m.top
unfolding valid_result_count
fitting proto m destination (pos k) h n e = ground (arith, h, e)
fitting proto m destination (negsuc k) h n e = cc

-- What a builtin function is called with: its destination and first argument are live registers,
-- its fixed results fit below the top, and every other argument is found as the call has it.
pub record IsLive (proto : ActiveProto) (m : LuaState) (call : Operands) (m' : LuaState)
    (arguments : FastCall) : Type 0 where
  pub destination :
      (arguments.destination ≡ m.base + call.destination_register) × (arguments.destination < m.top)
  pub source : (arguments.source ≡ m.base + call.source_register) × (arguments.source < m.top)
  pub called : 0 < arguments.count
  pub results : (n : ℕ) → call.result_count ≡ pos n → m.base + call.destination_register + n ≤ m.top
  pub additional : AreFound proto m call arguments.count m' arguments.additional

-- A builtin function is only called with live arguments: the helper raises or declines the call
-- unless the destination and the first argument are live registers, fixed results fit below the
-- top, and each further argument is found where the builtin looks for it, with the value that the
-- words of the call name. In an open call that is the live register so many behind argument two,
-- which is the register two behind the destination; in a fixed call of more than two arguments
-- without operand three, the live register so many behind argument two, which is the register after
-- the first argument's; in any other call, operand two or operand three.
pub plan_fastcall-IsLive :
    (safe_env has_builtin : Bool) (proto : ActiveProto) (m : LuaState) (call : Operands)
    (m' : LuaState) (arguments : FastCall)
    → plan_fastcall safe_env has_builtin proto m call ≡ planned m' arguments
    → IsLive proto m call m' arguments
unfolding plan_fastcall plan_arguments
plan_fastcall-IsLive safe_env has_builtin proto m call m' arguments h =
    elim (Option-cases (actual_parameter_count m call.destination_register call.parameter_count)) [
      | inl n ↦ absurd (ground (arith, n))
      | inr (count, e) ↦
          let plan : plan_call m call count (additional_arguments proto m call count)
              ≡ planned m' arguments =
            ground (arith, e) in
          let (places, d, s, c) = planned_by proto m call count m' arguments _ plan in
          record {
            destination = (d, ground (arith, e, d));
            source = (s, ground (arith, e, s));
            called = ground (arith, e, c);
            results =
                fitting proto m call.destination_register call.result_count (ground (arith, e));
            additional = rw c (
                additional-AreFound proto m call count m' arguments.additional (ground (arith, e))
                  places);
          }
    ]
