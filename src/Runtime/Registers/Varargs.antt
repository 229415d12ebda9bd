-- ===== src/Runtime/Registers/Varargs.antt =====
-- A variadic call: the entry check, the relocation of the frame, and the copies of the extra arguments.
use luauc.Prelude.{
  ℕ, ◌+◌, ◌-◌, ◌≤◌, ◌<◌, ◌≡◌, inl, inr, refl, ap, ◌∙◌, Bool, true, some, arith, ltb, if◌then◌else◌,
  Option-cases,
}
use luauc.Runtime.Frames.{aot_continuation_id}
use luauc.Runtime.Registers.{
  Thread, Shape, copy_loop, nil_loop, move_loop, prep_varargs, vararg_count, get_varargs_fixed,
  get_varargs_multret, valid_entry,
}
use luauc.Runtime.Registers.Copies.{
  copy_loop-at, nil_loop-at, nil_loop-outside, move_loop-at, move_loop-outside,
}

module _ {V U : Type 0} (nil : V) (shape : Shape) where
  -- A call with `extra` arguments behind the fixed ones, which stand right behind the function.
  pub record IsCall (extra : ℕ) (thread : Thread V U) : Type 0 where
    pub fixed : thread.ci_base ≡ thread.func + 1
    pub arguments : thread.top ≡ thread.ci_base + shape.numparams + extra

  -- The relocated frame: the fixed arguments at the new base, the extra ones right below it, in order.
  pub record IsPrepared (extra : ℕ) (call prepared : Thread V U) : Type 0 where
    pub same_func : prepared.func ≡ call.func
    pub new_base : prepared.base ≡ call.func + 1 + shape.numparams + extra
    pub frame_top : prepared.top ≡ prepared.base + shape.stacksize
    pub parameters :
        (i : ℕ)
        → i < shape.numparams
        → prepared.stack (prepared.base + i) ≡ call.stack (call.func + 1 + i)
    pub extras :
        (i : ℕ)
        → i < extra
        → prepared.stack (call.func + 1 + shape.numparams + i)
          ≡ call.stack (call.func + 1 + shape.numparams + i)

  prepared_thread : Thread V U → Thread V U
  prepared_thread thread = record thread {
    stack = move_loop nil shape.numparams thread.top thread.ci_base thread.stack;
    ci_base = thread.top;
    ci_top = thread.top + shape.stacksize;
    base = thread.top;
    top = thread.top + shape.stacksize;
  }

  prepared_thread-IsPrepared :
      (thread : Thread V U) (extra : ℕ)
      → IsCall extra thread
      → IsPrepared extra thread (prepared_thread thread)
  unfolding prepared_thread
  prepared_thread-IsPrepared thread extra c = record {
    same_func = refl;
    new_base = omega (arith, c.fixed, c.arguments);
    frame_top = refl;
    parameters = λ i l.
        (move_loop-at nil shape.numparams thread.top thread.ci_base thread.stack (thread.top + i)
          (thread.func + 1 + i) i l (omega (arith, c.arguments)) refl (omega (arith, c.fixed))).0;
    extras = λ i l.
        move_loop-outside nil shape.numparams thread.top thread.ci_base thread.stack _
          (inl (omega (arith, c.fixed, c.arguments))) (inr (omega (arith, c.fixed)));
  }

  -- A fresh variadic frame that the entry check accepts is always prepared, if the stack can grow. The
  -- new frame has the fixed arguments as its first registers and the extra ones, in order, below its base.
  pub prep_varargs-IsPrepared :
      (grows : ℕ → Bool) (thread : Thread V U)
      → valid_entry shape true thread ≡ true
      → aot_continuation_id thread.aotstate ≡ 0
      → shape.is_vararg ≡ true
      → grows (shape.stacksize + shape.numparams) ≡ true
      → (extra : ℕ) × (prepared : Thread V U) × (prep_varargs nil grows shape thread shape.numparams
          ≡ some prepared)
        × IsCall extra thread
        × IsPrepared extra thread prepared
  unfolding valid_entry
  prep_varargs-IsPrepared grows thread valid fresh variadic room =
      let fixed : thread.ci_base ≡ thread.func + 1 = ground (arith, fresh, variadic) in
      let enough : thread.ci_base + shape.numparams ≤ thread.top =
        ground (arith, fresh, variadic) in
      let call : IsCall (thread.top - (thread.ci_base + shape.numparams)) thread = record {
        fixed = fixed;
        arguments = omega arith;
      } in
      (
        thread.top - (thread.ci_base + shape.numparams),
        prepared_thread thread,
        unfold prep_varargs prepared_thread in ground (arith, fixed, enough, room, variadic),
        call,
        prepared_thread-IsPrepared thread _ call,
      )

  pub vararg_count-extra :
      (extra count : ℕ) (call prepared : Thread V U)
      → IsPrepared extra call prepared
      → vararg_count shape prepared ≡ some count
      → count ≡ extra
  unfolding vararg_count
  vararg_count-extra extra count call prepared p h = ground (arith, p.same_func, p.new_base)

  got :
      (thread : Thread V U) (destination wanted : ℕ) (after : Thread V U)
      → get_varargs_fixed nil shape thread destination wanted ≡ some after
      → (count : ℕ) × (vararg_count shape thread ≡ some count)
        × (after.stack
            ≡ nil_loop nil
                (wanted - (if ltb count wanted then count else wanted))
                (thread.base + destination + (if ltb count wanted then count else wanted))
                (copy_loop
                  (if ltb count wanted then count else wanted)
                  (thread.base + destination)
                  (thread.base - count)
                  thread.stack))
  unfolding get_varargs_fixed
  got thread destination wanted after h = elim (Option-cases (vararg_count shape thread)) [
    | inl n ↦ absurd (ground (arith, n))
    | inr (count, e) ↦ (count, e, ground (arith, e))
  ]

  -- The slots behind the destination after the copy of the extra arguments.
  pub record HasExtras (extra destination wanted : ℕ) (call prepared after : Thread V U)
      : Type 0 where
    pub present :
        (i : ℕ)
        → i < wanted
        → i < extra
        → after.stack (prepared.base + destination + i)
          ≡ call.stack (call.func + 1 + shape.numparams + i)
    pub missing :
        (i : ℕ) → i < wanted → extra ≤ i → after.stack (prepared.base + destination + i) ≡ nil

  -- In a prepared frame, a fixed number of extra arguments is copied as the call passed them, in order,
  -- with nil for those that it did not pass.
  pub get_varargs_fixed-HasExtras :
      (extra destination wanted : ℕ) (call prepared after : Thread V U)
      → IsPrepared extra call prepared
      → get_varargs_fixed nil shape prepared destination wanted ≡ some after
      → HasExtras extra destination wanted call prepared after
  get_varargs_fixed-HasExtras extra destination wanted call prepared after p h =
      let (count, e, stack) = got prepared destination wanted after h in
      let same = vararg_count-extra extra count call prepared p e in
      let copied = if ltb count wanted then count else wanted in
      let few : copied ≤ count = ground arith in
      let fits : copied ≤ wanted = ground arith in
      let slot = λ (i : ℕ). ap (λ (f : ℕ → V). f (prepared.base + destination + i)) stack in
      record {
        present = λ i l m.
            let inside : i < copied = ground (arith, same, l, m) in
            slot i
            ∙ nil_loop-outside nil (wanted - copied) (prepared.base + destination + copied) _ _
                (inl (omega arith))
            ∙ copy_loop-at copied (prepared.base + destination) (prepared.base - count)
                prepared.stack _ (call.func + 1 + shape.numparams + i) i inside
                (inr (omega (arith, p.new_base, same))) refl (omega (arith, p.new_base, same))
            ∙ p.extras i m;
        missing = λ i l m.
            let exact : copied ≡ extra = ground (arith, same, l, m) in
            slot i
            ∙ nil_loop-at nil (wanted - copied) (prepared.base + destination + copied) _ _
                (i - extra) (omega (arith, exact)) (omega (arith, exact));
      }

  -- In a prepared frame, the copy of all extra arguments has each of them, in order, and the top is right
  -- behind the last one.
  pub get_varargs_multret_all :
      (grows : ℕ → Bool) (extra destination : ℕ) (call prepared after : Thread V U)
      → IsPrepared extra call prepared
      → get_varargs_multret grows shape prepared destination ≡ some after
      → (after.top ≡ prepared.base + destination + extra)
        × ((i : ℕ)
            → i < extra
            → after.stack (prepared.base + destination + i)
              ≡ call.stack (call.func + 1 + shape.numparams + i))
  unfolding get_varargs_multret
  get_varargs_multret_all grows extra destination call prepared after p h =
      elim (Option-cases (vararg_count shape prepared)) [
        | inl n ↦ absurd (ground (arith, n))
        | inr (count, e) ↦
            let same = vararg_count-extra extra count call prepared p e in
            let top : after.top ≡ prepared.base + destination + count = ground (arith, e) in
            let stack : after.stack
                ≡ copy_loop count (prepared.base + destination) (prepared.base - count)
                    prepared.stack =
              ground (arith, e) in
            (
              omega (arith, top, same),
              λ i l.
                  ap (λ (f : ℕ → V). f (prepared.base + destination + i)) stack
                  ∙ copy_loop-at count (prepared.base + destination) (prepared.base - count)
                      prepared.stack _ (call.func + 1 + shape.numparams + i) i (omega (arith, same))
                      (inr (omega (arith, p.new_base, same))) refl (omega (arith, p.new_base, same))
                  ∙ p.extras i l,
            )
      ]
