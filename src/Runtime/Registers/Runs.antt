-- ===== src/Runtime/Registers/Runs.antt =====
-- The theorems on registers at a concrete call: one fixed and two extra arguments.
use luauc.Prelude.{ℕ, ◌*◌, ◌≡◌, refl, true, false, some, arith, ◌==◌, if◌then◌else◌}
use luauc.Prelude.Words.{negsuc}
use luauc.Runtime.Frames.{aot_continuation_id}
use luauc.Runtime.Registers.{
  Thread, Shape, copy_loop, nil_loop, actual_result_count, return_results, prep_varargs,
  vararg_count, get_varargs_fixed, valid_entry,
}
use luauc.Runtime.Registers.Returns.{HasResults, IsCount, return_results-HasResults}
use luauc.Runtime.Registers.Varargs.{
  IsCall, IsPrepared, HasExtras, prep_varargs-IsPrepared, get_varargs_fixed-HasExtras,
}

abbrev a_shape : Shape
a_shape = record { maxstacksize = 5; numparams = 1; is_vararg = true; stacksize = 5 }

-- The function in slot 10, and its arguments in the slots 11 to 13.
abbrev a_call : Thread ℕ (Unit {0})
a_call = record {
  stack = λ s. s * 100;
  base = 11;
  top = 14;
  stack_last = 50;
  func = 10;
  ci_base = 11;
  ci_top = 20;
  aotstate = 7;
  upvalues = tt;
}

a_call-fresh : aot_continuation_id 7 ≡ 0
unfolding aot_continuation_id
a_call-fresh = refl

a_call-accepted : valid_entry a_shape true a_call ≡ true
unfolding valid_entry aot_continuation_id
a_call-accepted = refl

prep_varargs-IsPrepared_example :
    (extra : ℕ) × (prepared : Thread ℕ (Unit {0})) × (prep_varargs 0
        (λ slots. true)
        a_shape
        a_call
        1
      ≡ some prepared)
    × IsCall 0 a_shape extra a_call
    × IsPrepared 0 a_shape extra a_call prepared
prep_varargs-IsPrepared_example =
    prep_varargs-IsPrepared 0 a_shape (λ slots. true) a_call a_call-accepted a_call-fresh refl refl

abbrev prepared_call : Thread ℕ (Unit {0})
prepared_call = record a_call {
  stack = λ s. if s == 14 then 1100 else (if s == 11 then 0 else s * 100);
  base = 14;
  top = 19;
  ci_base = 14;
  ci_top = 19;
}

prepared_call-IsPrepared : IsPrepared 0 a_shape 2 a_call prepared_call
prepared_call-IsPrepared = record {
  same_func = refl;
  new_base = refl;
  frame_top = refl;
  parameters = λ i l. ground arith;
  extras = λ i l. ground arith;
}

three_extras : Thread ℕ (Unit {0})
three_extras = record prepared_call {
  stack = nil_loop 0 1 18 (copy_loop 2 16 12 prepared_call.stack);
}

three_extras-copied : get_varargs_fixed 0 a_shape prepared_call 2 3 ≡ some three_extras
unfolding get_varargs_fixed vararg_count three_extras
three_extras-copied = refl

get_varargs_fixed-HasExtras_example : HasExtras 0 a_shape 2 2 3 a_call prepared_call three_extras
get_varargs_fixed-HasExtras_example =
    get_varargs_fixed-HasExtras 0 a_shape 2 2 3 a_call prepared_call three_extras
      prepared_call-IsPrepared three_extras-copied

-- All registers from the second one on are returned.
two_results : Thread ℕ (Unit {0})
two_results = record a_call { stack = copy_loop 2 11 12 a_call.stack; top = 13 }

two_results-returned :
    return_results (λ u slot. false) (λ stack u slot. u) a_shape a_call 1 (negsuc 0)
    ≡ some two_results
unfolding return_results actual_result_count two_results
two_results-returned = refl

return_results-HasResults_example :
    (actual : ℕ) × IsCount a_call 1 (negsuc 0) actual × HasResults 1 actual a_call two_results
return_results-HasResults_example =
    return_results-HasResults (λ u slot. false) (λ stack u slot. u) a_shape a_call 1 (negsuc 0)
      two_results two_results-returned
