-- ===== src/Runtime/Registers/Copies.antt =====
-- What the copying loops do to each slot.
use luauc.Prelude.{ℕ, zero, suc, ◌+◌, ◌≤◌, ◌<◌, ◌≡◌, ◌≢◌, ◌⊎◌, inl, inr, refl, ap, ◌∙◌, arith}
use luauc.Runtime.Registers.{assign_slot, copy_loop, nil_loop, move_loop}

module _ {V : Type 0} where
  pub assign_slot-other :
      (stack : ℕ → V) (slot s : ℕ) (value : V) → s ≢ slot → assign_slot stack slot value s ≡ stack s
  assign_slot-other stack slot s value h = ground arith

  pub assign_slot-same :
      (stack : ℕ → V) (slot s : ℕ) (value : V) → s ≡ slot → assign_slot stack slot value s ≡ value
  assign_slot-same stack slot s value h = ground arith

  pub copy_loop-outside :
      (rounds to from : ℕ) (stack : ℕ → V) (s : ℕ)
      → (s < to) ⊎ (to + rounds ≤ s)
      → copy_loop rounds to from stack s ≡ stack s
  unfolding copy_loop
  copy_loop-outside zero to from stack s h = refl
  copy_loop-outside (suc rounds) to from stack s (inl l) =
      copy_loop-outside rounds (to + 1) (from + 1) _ s (inl (omega arith))
      ∙ assign_slot-other stack to s _ (λ e. absurd (omega arith))
  copy_loop-outside (suc rounds) to from stack s (inr l) =
      copy_loop-outside rounds (to + 1) (from + 1) _ s (inr (omega arith))
      ∙ assign_slot-other stack to s _ (λ e. absurd (omega arith))

  -- The loop may overlap its source downwards.
  pub copy_loop-at :
      (rounds to from : ℕ) (stack : ℕ → V) (s t : ℕ) (i : ℕ)
      → i < rounds
      → (to ≤ from) ⊎ (from + rounds ≤ to)
      → s ≡ to + i
      → t ≡ from + i
      → copy_loop rounds to from stack s ≡ stack t
  unfolding copy_loop
  copy_loop-at zero to from stack s t i l h e f = absurd (omega arith)
  copy_loop-at (suc rounds) to from stack s t zero l h e f =
      copy_loop-outside rounds (to + 1) (from + 1) _ s (inl (omega arith))
      ∙ assign_slot-same stack to s _ (omega arith)
      ∙ ap stack (omega arith)
  copy_loop-at (suc rounds) to from stack s t (suc i) l (inl h) e f =
      copy_loop-at rounds (to + 1) (from + 1) _ s t i (omega arith) (inl (omega arith))
        (omega arith) (omega arith)
      ∙ assign_slot-other stack to t _ (λ q. absurd (omega arith))
  copy_loop-at (suc rounds) to from stack s t (suc i) l (inr h) e f =
      copy_loop-at rounds (to + 1) (from + 1) _ s t i (omega arith) (inr (omega arith))
        (omega arith) (omega arith)
      ∙ assign_slot-other stack to t _ (λ q. absurd (omega arith))

  pub nil_loop-outside :
      (nil : V) (rounds to : ℕ) (stack : ℕ → V) (s : ℕ)
      → (s < to) ⊎ (to + rounds ≤ s)
      → nil_loop nil rounds to stack s ≡ stack s
  unfolding nil_loop
  nil_loop-outside nil zero to stack s h = refl
  nil_loop-outside nil (suc rounds) to stack s (inl l) =
      nil_loop-outside nil rounds (to + 1) _ s (inl (omega arith))
      ∙ assign_slot-other stack to s _ (λ e. absurd (omega arith))
  nil_loop-outside nil (suc rounds) to stack s (inr l) =
      nil_loop-outside nil rounds (to + 1) _ s (inr (omega arith))
      ∙ assign_slot-other stack to s _ (λ e. absurd (omega arith))

  pub nil_loop-at :
      (nil : V) (rounds to : ℕ) (stack : ℕ → V) (s i : ℕ)
      → i < rounds
      → s ≡ to + i
      → nil_loop nil rounds to stack s ≡ nil
  unfolding nil_loop
  nil_loop-at nil zero to stack s i l e = absurd (omega arith)
  nil_loop-at nil (suc rounds) to stack s zero l e =
      nil_loop-outside nil rounds (to + 1) _ s (inl (omega arith))
      ∙ assign_slot-same stack to s _ (omega arith)
  nil_loop-at nil (suc rounds) to stack s (suc i) l e =
      nil_loop-at nil rounds (to + 1) _ s i (omega arith) (omega arith)

  pub move_loop-outside :
      (nil : V) (rounds to from : ℕ) (stack : ℕ → V) (s : ℕ)
      → (s < to) ⊎ (to + rounds ≤ s)
      → (s < from) ⊎ (from + rounds ≤ s)
      → move_loop nil rounds to from stack s ≡ stack s
  unfolding move_loop
  move_loop-outside nil zero to from stack s h g = refl
  move_loop-outside nil (suc rounds) to from stack s h g =
      move_loop-outside nil rounds (to + 1) (from + 1) _ s (later to h) (later from g)
      ∙ assign_slot-other (assign_slot stack to (stack from)) from s nil (apart from g)
      ∙ assign_slot-other stack to s (stack from) (apart to h)
    where
      later : (a : ℕ) → (s < a) ⊎ (a + suc rounds ≤ s) → (s < a + 1) ⊎ (a + 1 + rounds ≤ s)
      later a (inl l) = inl (omega arith)
      later a (inr l) = inr (omega arith)

      apart : (a : ℕ) → (s < a) ⊎ (a + suc rounds ≤ s) → s ≢ a
      apart a (inl l) e = absurd (omega arith)
      apart a (inr l) e = absurd (omega arith)

  -- A move to slots behind the source.
  pub move_loop-at :
      (nil : V) (rounds to from : ℕ) (stack : ℕ → V) (s t i : ℕ)
      → i < rounds
      → from + rounds ≤ to
      → s ≡ to + i
      → t ≡ from + i
      → (move_loop nil rounds to from stack s ≡ stack t)
        × (move_loop nil rounds to from stack t ≡ nil)
  unfolding move_loop
  move_loop-at nil zero to from stack s t i l h e f = absurd (omega arith)
  move_loop-at nil (suc rounds) to from stack s t zero l h e f = (
    move_loop-outside nil rounds (to + 1) (from + 1) _ s (inl (omega arith)) (inr (omega arith))
        ∙ assign_slot-other (assign_slot stack to (stack from)) from s nil
            (λ q. absurd (omega arith))
        ∙ assign_slot-same stack to s (stack from) (omega arith)
        ∙ ap stack (omega arith),
    move_loop-outside nil rounds (to + 1) (from + 1) _ t (inl (omega arith)) (inl (omega arith))
        ∙ assign_slot-same (assign_slot stack to (stack from)) from t nil (omega arith),
  )
  move_loop-at nil (suc rounds) to from stack s t (suc i) l h e f =
      let (moved, cleared) =
        move_loop-at nil rounds (to + 1) (from + 1)
          (assign_slot (assign_slot stack to (stack from)) from nil) s t i (omega arith)
          (omega arith) (omega arith) (omega arith) in
      (
        moved
            ∙ assign_slot-other (assign_slot stack to (stack from)) from t nil
                (λ q. absurd (omega arith))
            ∙ assign_slot-other stack to t (stack from) (λ q. absurd (omega arith)),
        cleared,
      )
