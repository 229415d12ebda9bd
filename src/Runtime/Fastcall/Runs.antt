-- ===== src/Runtime/Fastcall/Runs.antt =====
-- A call of a builtin function with three arguments at a concrete state.
use luauc.Prelude.{◌≡◌, refl, true, false, []}
use luauc.Prelude.Words.{pos}
use luauc.Runtime.Tables.{number, nil, LuaState, ActiveProto, active_aot_value_operand}
use luauc.Runtime.Fastcall.{
  slots, FastCall, Operands, valid_result_count, actual_parameter_count, valid_argument_layout,
  push_two, two_arguments, additional_arguments, planned, plan_arguments, plan_fastcall,
}
use luauc.Runtime.Fastcall.Arguments.{IsLive, plan_fastcall-IsLive}

abbrev a_proto : ActiveProto
a_proto = record {
  maxstacksize = 8;
  sizek = 0;
  has_k = false;
  k = λ i. nil;
  constant_count = 0;
  kinds = λ i. 0;
}

abbrev a_state : LuaState
a_state = record {
  stack = λ s. number s;
  base = 10;
  top = 18;
  ci_top = 18;
  heap = λ a. record { metatable = false; readonly = false; array = []; hash = [] };
}

-- The second and third argument are the registers 5 and 4.
abbrev a_call : Operands
a_call = record {
  builtin_id = 7;
  destination_register = 1;
  source_register = 2;
  argument_two = 5;
  argument_three = 4;
  result_count = pos 1;
  parameter_count = pos 3;
}

abbrev some_arguments : FastCall
some_arguments = record {
  destination = 11;
  source = 12;
  result_count = pos 1;
  additional = slots 18;
  count = 3;
}

a_call-planned :
    plan_fastcall true true a_proto a_state a_call
    ≡ planned (push_two a_state (number 15) (number 14)) some_arguments
unfolding plan_fastcall plan_arguments valid_result_count actual_parameter_count
    valid_argument_layout additional_arguments two_arguments active_aot_value_operand
a_call-planned = refl

plan_fastcall-IsLive_example :
    IsLive a_proto a_state a_call (push_two a_state (number 15) (number 14)) some_arguments
plan_fastcall-IsLive_example =
    plan_fastcall-IsLive true true a_proto a_state a_call (push_two a_state (number 15) (number 14))
      some_arguments a_call-planned
