-- ===== src/Runtime/Registers/Returns.antt =====
-- What a compiled return leaves on the stack.
use luauc.Prelude.{
  ℕ, zero, suc, ◌+◌, ◌≤◌, ◌<◌, ◌≡◌, ◌⊎◌, inl, inr, refl, ap, ◌∙◌, Bool, some, arith, Option-cases,
}
use luauc.Prelude.Words.{ℤ, pos, negsuc}
use luauc.Runtime.Registers.{Thread, Shape, copy_loop, actual_result_count, return_results}
use luauc.Runtime.Registers.Copies.{copy_loop-at, copy_loop-outside}

module _ {V U : Type 0} where
  -- `count` results from the register on stand at the base, the top is behind them, and the slots below
  -- the base and behind the results are as before.
  pub record HasResults (source count : ℕ) (before after : Thread V U) : Type 0 where
    pub same_base : after.base ≡ before.base
    pub top_behind : after.top ≡ before.base + count
    pub results :
        (i : ℕ)
        → i < count
        → after.stack (before.base + i) ≡ before.stack (before.base + source + i)
    pub rest :
        (s : ℕ) → (s < before.base) ⊎ (before.base + count ≤ s) → after.stack s ≡ before.stack s

  -- The number of results that a return asks for: the given one, or that of all registers from the source
  -- to the top.
  abbrev pub IsCount : Thread V U → ℕ → ℤ → ℕ → Type 0
  IsCount thread source (pos n) count = count ≡ n
  IsCount thread source (negsuc n) count = (n ≡ 0) × (thread.base + source + count ≡ thread.top)

  actual_result_count-IsCount :
      (shape : Shape) (thread : Thread V U) (source : ℕ) (count : ℤ) (actual : ℕ)
      → actual_result_count shape thread source count ≡ some actual
      → IsCount thread source count actual
  unfolding actual_result_count
  actual_result_count-IsCount shape thread source (pos n) actual h = ground arith
  actual_result_count-IsCount shape thread source (negsuc zero) actual h = (refl, ground arith)
  actual_result_count-IsCount shape thread source (negsuc (suc n)) actual h = cc

  returned :
      (open_from : U → ℕ → Bool) (close : (ℕ → V) → U → ℕ → U) (shape : Shape) (thread : Thread V U)
      (source : ℕ) (count : ℤ) (after : Thread V U)
      → return_results open_from close shape thread source count ≡ some after
      → (actual : ℕ) × (actual_result_count shape thread source count ≡ some actual)
        × (after.stack ≡ copy_loop actual thread.base (thread.base + source) thread.stack)
        × (after.base ≡ thread.base)
        × (after.top ≡ thread.base + actual)
  unfolding return_results
  returned open_from close shape thread source count after h =
      elim (Option-cases (actual_result_count shape thread source count)) [
        | inl n ↦ absurd (ground (arith, n))
        | inr (actual, e) ↦ (actual, e, ground (arith, e), ground (arith, e), ground (arith, e))
      ]

  -- A return that does not fail leaves its results, as many as it was asked for, at the base of the
  -- frame, in order and also where the two ranges overlap, with the top right behind them.
  pub return_results-HasResults :
      (open_from : U → ℕ → Bool) (close : (ℕ → V) → U → ℕ → U) (shape : Shape) (thread : Thread V U)
      (source : ℕ) (count : ℤ) (after : Thread V U)
      → return_results open_from close shape thread source count ≡ some after
      → (actual : ℕ) × IsCount thread source count actual × HasResults source actual thread after
  return_results-HasResults open_from close shape thread source count after h =
      let (actual, e, stack, base, top) =
        returned open_from close shape thread source count after h in
      (
        actual,
        actual_result_count-IsCount shape thread source count actual e,
        record {
          same_base = base;
          top_behind = top;
          results = λ i l.
              ap (λ (f : ℕ → V). f (thread.base + i)) stack
              ∙ copy_loop-at actual thread.base (thread.base + source) thread.stack
                  (thread.base + i) (thread.base + source + i) i l (inl (omega arith)) refl refl;
          rest = λ s l.
              ap (λ (f : ℕ → V). f s) stack
              ∙ copy_loop-outside actual thread.base (thread.base + source) thread.stack s l;
        },
      )
