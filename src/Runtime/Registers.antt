-- ===== src/Runtime/Registers.antt =====
-- The helpers of runtime/src/call_frame.cpp that move values between stack slots: returns, the relocation
-- of a variadic frame, and the copies of its extra arguments. The stack is a function from slots to
-- values; where the virtual machine moves the stack, slots stay what they are. Closing upvalues and
-- growing the stack are the virtual machine's, and parameters.
pub mod Copies
pub mod Varargs
pub mod Returns
mod Runs
use luauc.Prelude.{
  ℕ, zero, suc, ◌+◌, ◌-◌, Bool, true, false, not, ◌&&◌, ◌||◌, Option, none, some, arith, ltb, leb,
  ◌==◌, if◌then◌else◌,
}
use luauc.Prelude.Words.{int_max, uint32_max, ℤ, pos, negsuc}
use luauc.Runtime.Frames.{aot_continuation_id}

-- The thread and its current call: `base` is `L->base`, `func`, `ci_base` and `ci_top` are those of the
-- call, and `upvalues` is the virtual machine's list of open upvalues.
pub record Thread (V U : Type 0) : Type 0 where
  pub stack : ℕ → V
  pub base : ℕ
  pub top : ℕ
  pub stack_last : ℕ
  pub func : ℕ
  pub ci_base : ℕ
  pub ci_top : ℕ
  pub aotstate : ℕ
  pub upvalues : U

-- What the helpers read of the closure and its proto.
pub record Shape : Type 0 where
  pub maxstacksize : ℕ
  pub numparams : ℕ
  pub is_vararg : Bool
  pub stacksize : ℕ

module _ {V : Type 0} where
  abbrev pub assign_slot : (ℕ → V) → ℕ → V → ℕ → V
  assign_slot stack slot value s = if s == slot then value else stack s

  -- `for (index = 0; index < rounds; ++index) stack[to + index] = stack[from + index];`
  unfoldable pub copy_loop : ℕ → ℕ → ℕ → (ℕ → V) → ℕ → V
  copy_loop zero to from stack = stack
  copy_loop (suc rounds) to from stack =
      copy_loop rounds (to + 1) (from + 1) (assign_slot stack to (stack from))

  unfoldable pub nil_loop : V → ℕ → ℕ → (ℕ → V) → ℕ → V
  nil_loop nil zero to stack = stack
  nil_loop nil (suc rounds) to stack = nil_loop nil rounds (to + 1) (assign_slot stack to nil)

  -- The loop of PREPVARARGS, which moves a parameter and clears its old slot.
  unfoldable pub move_loop : V → ℕ → ℕ → ℕ → (ℕ → V) → ℕ → V
  move_loop nil zero to from stack = stack
  move_loop nil (suc rounds) to from stack =
      move_loop nil rounds (to + 1) (from + 1)
        (assign_slot (assign_slot stack to (stack from)) from nil)

module _ {V U : Type 0} where
  -- The number of results, or an error.
  unfoldable pub actual_result_count : Shape → Thread V U → ℕ → ℤ → Option ℕ
  actual_result_count shape thread source (pos count) =
      if ltb (shape.maxstacksize - source) count then none else some count
  actual_result_count shape thread source (negsuc zero) =
      if ltb thread.top (thread.base + source)
        || ltb uint32_max (thread.top - (thread.base + source))
      then none
      else some (thread.top - (thread.base + source))
  actual_result_count shape thread source (negsuc (suc n)) = none

  abbrev pub with_count : Option ℕ → (ℕ → Option (Thread V U)) → Option (Thread V U)
  with_count none next = none
  with_count (some count) next = next count

  -- `luauc_runtime_v1_return`; `none` is a raised error. `open_from` tells whether an upvalue is open at
  -- a slot or above it, and `close` closes those.
  unfoldable pub return_results :
      (U → ℕ → Bool) → ((ℕ → V) → U → ℕ → U) → Shape → Thread V U → ℕ → ℤ → Option (Thread V U)
  return_results open_from close shape thread source count =
      if ltb shape.maxstacksize source
      then none
      else with_count (actual_result_count shape thread source count) (λ actual.
        some (record thread {
          upvalues =
              if open_from thread.upvalues thread.base
              then close thread.stack thread.upvalues thread.base
              else thread.upvalues;
          stack = copy_loop actual thread.base (thread.base + source) thread.stack;
          top = thread.base + actual;
        }))

  -- `luauc_runtime_v1_prep_varargs`; `grows` tells whether the stack can grow by so many slots.
  unfoldable pub prep_varargs : V → (ℕ → Bool) → Shape → Thread V U → ℕ → Option (Thread V U)
  prep_varargs nil grows shape thread fixed_count =
      if not shape.is_vararg
        || not (fixed_count == shape.numparams)
        || not (thread.ci_base == thread.func + 1)
        || ltb thread.top (thread.ci_base + fixed_count)
      then none
      else if not (grows (shape.stacksize + fixed_count))
      then none
      else some (record thread {
        stack = move_loop nil fixed_count thread.top thread.ci_base thread.stack;
        ci_base = thread.top;
        ci_top = thread.top + shape.stacksize;
        base = thread.top;
        top = thread.top + shape.stacksize;
      })

  unfoldable pub vararg_count : Shape → Thread V U → Option ℕ
  vararg_count shape thread =
      if ltb thread.base (thread.func + shape.numparams + 1)
        || ltb uint32_max (thread.base - (thread.func + shape.numparams + 1))
      then none
      else some (thread.base - (thread.func + shape.numparams + 1))

  -- `luauc_runtime_v1_get_varargs_fixed`
  unfoldable pub get_varargs_fixed : V → Shape → Thread V U → ℕ → ℕ → Option (Thread V U)
  get_varargs_fixed nil shape thread destination wanted =
      if not shape.is_vararg
        || ltb shape.maxstacksize destination
        || ltb (shape.maxstacksize - destination) wanted
      then none
      else with_count (vararg_count shape thread) (λ count.
        let copied = if ltb count wanted then count else wanted in
        some (record thread {
          stack =
              nil_loop nil (wanted - copied) (thread.base + destination + copied)
                (copy_loop copied (thread.base + destination) (thread.base - count) thread.stack);
        }))

  -- `luauc_runtime_v1_get_varargs_multret`
  unfoldable pub get_varargs_multret : (ℕ → Bool) → Shape → Thread V U → ℕ → Option (Thread V U)
  get_varargs_multret grows shape thread destination =
      if not shape.is_vararg || ltb shape.maxstacksize destination
      then none
      else with_count (vararg_count shape thread) (λ count.
        if ltb int_max count || not (grows count)
        then none
        else some (record thread {
          stack = copy_loop count (thread.base + destination) (thread.base - count) thread.stack;
          top = thread.base + destination + count;
        }))

  -- `validateActiveAotEntry` behind the checks of the frame; `expected` says that the frame has the
  -- metadata of the entry.
  unfoldable pub valid_entry : Shape → Bool → Thread V U → Bool
  valid_entry shape expected thread =
      if not expected
        || not (thread.base == thread.ci_base)
        || ltb thread.ci_top thread.ci_base
        || ltb thread.stack_last thread.ci_top
      then false
      else if not (aot_continuation_id thread.aotstate == 0)
      then not (ltb thread.top thread.ci_base || ltb thread.stack_last thread.top)
      else if not shape.is_vararg
      then thread.top == thread.ci_top
      else thread.ci_base == thread.func + 1
        && not (ltb thread.top (thread.ci_base + shape.numparams) || ltb thread.ci_top thread.top)
