-- ===== src/Runtime/Closures/Capture.antt =====
-- What one capture of a NEWCLOSURE stores, and what it leaves alone.
use luauc.Prelude.{
  ℕ, ◌+◌, ◌%◌, ◌^◌, ◌<◌, ◌≤◌, ◌≡◌, ◌≢◌, ◌⊎◌, inl, inr, refl, sym, ap, ◌∙◌, true, arith, ◌==◌,
  if◌then◌else◌, Bool-cases,
}
use luauc.Runtime.Closures.{
  Held, UpRef, refers, holds, opened, LClosure, ProtoShape, State, register, active_closure, update,
}
use luauc.Runtime.Closures.New.{
  Capturing, by_value, by_reference, by_upvalue, valid_source, captured, store_capture,
}

module _ {A : Type 0} where
  pub update-same : (f : ℕ → A) (i : ℕ) (new : A) → update f i new i ≡ new
  update-same f i new = ground arith

  pub update-ne : (f : ℕ → A) (i j : ℕ) (new : A) → j ≢ i → update f i new j ≡ f j
  update-ne f i j new n = ground (arith, n)

-- `luaF_findupval`: a cell that is open at the slot; every cell that is open stays so, and nothing else
-- changes.
pub record FindsUpvalues (find_upval : State → ℕ → State × ℕ) : Type 0 where
  pub cells_only :
      (s : State) (slot : ℕ)
      → (find_upval s slot).0 ≡ record s {
        cells = (find_upval s slot).0.cells;
        next_cell = (find_upval s slot).0.next_cell;
      }
  pub grows : (s : State) (slot : ℕ) → s.next_cell ≤ (find_upval s slot).0.next_cell
  pub is_allocated :
      (s : State) (slot : ℕ) → (find_upval s slot).1 < (find_upval s slot).0.next_cell
  pub is_open :
      (s : State) (slot : ℕ) → (find_upval s slot).0.cells (find_upval s slot).1 ≡ opened slot
  pub kept :
      (s : State) (slot cell at_slot : ℕ)
      → cell < s.next_cell
      → s.cells cell ≡ opened at_slot
      → (find_upval s slot).0.cells cell ≡ opened at_slot

-- An entry is the value of the register, refers to a cell that is open at the register, or is the entry of
-- the active closure.
abbrev pub IsCaptured : State → ℕ → ℕ → UpRef → Type 0
IsCaptured s kind source upref =
    ((kind ≡ by_value) × (upref ≡ holds (register s source)))
    ⊎ ((kind ≡ by_reference)
        × (cell : ℕ) × (upref ≡ refers cell)
        × (cell < s.next_cell)
        × (s.cells cell ≡ opened (s.base + source)))
    ⊎ ((kind ≡ by_upvalue) × (upref ≡ (active_closure s).uprefs source))

-- From `s` to `s'` only the closure at `place` and cells have changed, and open cells are open still.
pub record Keeps (place : ℕ) (s s' : State) : Type 0 where
  pub stack : s'.stack ≡ s.stack
  pub base : s'.base ≡ s.base
  pub active : s'.active ≡ s.active
  pub others : (a : ℕ) → a ≢ place → s'.closures a ≡ s.closures a
  pub next_cell : s.next_cell ≤ s'.next_cell
  pub cells :
      (cell slot : ℕ)
      → cell < s.next_cell
      → s.cells cell ≡ opened slot
      → s'.cells cell ≡ opened slot

pub Keeps-refl : (place : ℕ) (s : State) → Keeps place s s
Keeps-refl place s = record {
  stack = refl;
  base = refl;
  active = refl;
  others = λ a n. refl;
  next_cell = omega arith;
  cells = λ cell slot a e. e;
}

pub Keeps-trans : (place : ℕ) (s t u : State) → Keeps place s t → Keeps place t u → Keeps place s u
Keeps-trans place s t u k l = record {
  stack = l.stack ∙ k.stack;
  base = l.base ∙ k.base;
  active = l.active ∙ k.active;
  others = λ a n. l.others a n ∙ k.others a n;
  next_cell = omega (arith, k.next_cell, l.next_cell);
  cells = λ cell slot a e. l.cells cell slot (omega (arith, k.next_cell)) (k.cells cell slot a e);
}

pub Keeps-register :
    (place : ℕ) (s s' : State) (index : ℕ) → Keeps place s s' → register s' index ≡ register s index
Keeps-register place s s' index k =
    ap (λ (f : ℕ → Held). f (s'.base + index)) k.stack ∙ ap (λ (b : ℕ). s.stack (b + index)) k.base

-- An entry stays captured when only another closure changes.
pub Keeps-IsCaptured :
    (place : ℕ) (s s' : State) (kind source : ℕ) (upref : UpRef)
    → Keeps place s s'
    → s.active ≢ place
    → IsCaptured s kind source upref
    → IsCaptured s' kind source upref
Keeps-IsCaptured place s s' kind source upref k apart (inl (e, v)) =
    inl (e, v ∙ ap holds (sym (Keeps-register place s s' source k)))
Keeps-IsCaptured place s s' kind source upref k apart (inr (inl (e, cell, r, l, o))) = inr (
    inl (
      e,
      cell,
      r,
      omega (arith, l, k.next_cell),
      k.cells cell (s.base + source) l o ∙ ap (λ (b : ℕ). opened (b + source)) (sym k.base),
    ))
Keeps-IsCaptured place s s' kind source upref k apart (inr (inr (e, v))) = inr (
    inr (
      e,
      v
          ∙ sym (
              ap (λ (a : ℕ). (s'.closures a).uprefs source) k.active
              ∙ ap (λ (c : LClosure). c.uprefs source) (k.others s.active apart)),
    ))

module _ (find_upval : State → ℕ → State × ℕ) (finds : FindsUpvalues find_upval)
    (protos : ℕ → ProtoShape) where
  found-Keeps : (s : State) (slot place : ℕ) → Keeps place s (find_upval s slot).0
  found-Keeps s slot place = record {
    stack = ap (λ (t : State). t.stack) (finds.cells_only s slot);
    base = ap (λ (t : State). t.base) (finds.cells_only s slot);
    active = ap (λ (t : State). t.active) (finds.cells_only s slot);
    others = λ a n. ap (λ (t : State). t.closures a) (finds.cells_only s slot);
    next_cell = finds.grows s slot;
    cells = finds.kept s slot;
  }

  -- The state in which the captured value is read, and the value.
  captured-Keeps :
      (s : State) (c : Capturing) (place : ℕ) → Keeps place s (captured find_upval s c).0
  unfolding captured
  captured-Keeps s c place = elim (Bool-cases (c.capture_kind == by_value)) [
    | inl v ↦ rw v (Keeps-refl place s)
    | inr v ↦ elim (Bool-cases (c.capture_kind == by_reference)) [
      | inl r ↦ rw (v, r) (found-Keeps s (s.base + c.source_index) place)
      | inr r ↦ rw (v, r) (Keeps-refl place s)
    ]
  ]

  captured-IsCaptured :
      (s s₀ : State) (c : Capturing)
      → valid_source protos s₀ true c ≡ true
      → IsCaptured
          (captured find_upval s c).0
          c.capture_kind
          c.source_index
          (captured find_upval s c).1
  unfolding captured valid_source
  captured-IsCaptured s s₀ c v = elim (Bool-cases (c.capture_kind == by_value)) [
    | inl e ↦ rw e (inl (ground (arith, e), refl))
    | inr e ↦ elim (Bool-cases (c.capture_kind == by_reference)) [
      | inl r ↦
          let slot = s.base + c.source_index in
          rw (e, r)
            (inr (
              inl (
                ground (arith, r),
                (find_upval s slot).1,
                refl,
                finds.is_allocated s slot,
                finds.is_open s slot
                    ∙ ap (λ (t : State). opened (t.base + c.source_index))
                        (sym (finds.cells_only s slot)),
              )))
      | inr r ↦ rw (e, r) (inr (inr (ground (arith, v, e, r), refl)))
    ]
  ]

  captured-closures :
      (s : State) (c : Capturing) (a : ℕ) → (captured find_upval s c).0.closures a ≡ s.closures a
  unfolding captured
  captured-closures s c a = elim (Bool-cases (c.capture_kind == by_value)) [
    | inl v ↦ rw v refl
    | inr v ↦ elim (Bool-cases (c.capture_kind == by_reference)) [
      | inl r ↦
          rw (v, r)
            (ap (λ (t : State). t.closures a) (finds.cells_only s (s.base + c.source_index)))
      | inr r ↦ rw (v, r) refl
    ]
  ]

  -- The closure after the capture.
  stored_closure : State → ℕ → ℕ → Capturing → LClosure
  stored_closure s place nups c =
      let ncl = s.closures place in
      record ncl {
        uprefs = update ncl.uprefs c.capture_index (captured find_upval s c).1;
        preload = if c.capture_index + 1 == nups then 0 else (c.capture_index + 1) % 2 ^ 8;
      }

  store_capture-at :
      (s : State) (place nups : ℕ) (c : Capturing)
      → (store_capture find_upval s place nups c).closures place ≡ stored_closure s place nups c
  unfolding store_capture stored_closure
  store_capture-at s place nups c =
      update-same (captured find_upval s c).0.closures place _
      ∙ ap
          (λ (ncl : LClosure). record ncl {
            uprefs = update ncl.uprefs c.capture_index (captured find_upval s c).1;
            preload = if c.capture_index + 1 == nups then 0 else (c.capture_index + 1) % 2 ^ 8;
          })
          (captured-closures s c place)

  -- The last step of a capture writes the closure.
  written-Keeps :
      (s : State) (place nups : ℕ) (c : Capturing)
      → Keeps place (captured find_upval s c).0 (store_capture find_upval s place nups c)
  unfolding store_capture
  written-Keeps s place nups c = record {
    stack = refl;
    base = refl;
    active = refl;
    others = λ a n. update-ne (captured find_upval s c).0.closures place a _ n;
    next_cell = omega arith;
    cells = λ cell slot a e. e;
  }

  pub store_capture-Keeps :
      (s : State) (place nups : ℕ) (c : Capturing)
      → Keeps place s (store_capture find_upval s place nups c)
  store_capture-Keeps s place nups c =
      Keeps-trans place s (captured find_upval s c).0 _ (captured-Keeps s c place)
        (written-Keeps s place nups c)

  -- The closure has its new entry, as captured, and the entries that it had.
  pub store_capture-entries :
      (s s₀ : State) (place nups : ℕ) (c : Capturing)
      → valid_source protos s₀ true c ≡ true
      → s.active ≢ place
      → IsCaptured
          (store_capture find_upval s place nups c)
          c.capture_kind
          c.source_index
          (((store_capture find_upval s place nups c).closures place).uprefs c.capture_index)
  unfolding stored_closure
  store_capture-entries s s₀ place nups c v apart =
      let entry =
        ap (λ (ncl : LClosure). ncl.uprefs c.capture_index) (store_capture-at s place nups c)
        ∙ update-same (s.closures place).uprefs c.capture_index _ in
      let active = (captured-Keeps s c place).active in
      rw entry (
        Keeps-IsCaptured place (captured find_upval s c).0 (store_capture find_upval s place nups c)
          c.capture_kind c.source_index (captured find_upval s c).1 (written-Keeps s place nups c)
          (λ e. apart (sym active ∙ e)) (captured-IsCaptured s s₀ c v))

  pub store_capture-earlier :
      (s : State) (place nups j : ℕ) (c : Capturing)
      → j ≢ c.capture_index
      → ((store_capture find_upval s place nups c).closures place).uprefs j
        ≡ (s.closures place).uprefs j
  unfolding stored_closure
  store_capture-earlier s place nups j c n =
      ap (λ (ncl : LClosure). ncl.uprefs j) (store_capture-at s place nups c)
      ∙ update-ne (s.closures place).uprefs c.capture_index j _ n

  pub store_capture-shape :
      (s : State) (place nups : ℕ) (c : Capturing)
      → let ncl = (store_capture find_upval s place nups c).closures place in
        (ncl.proto ≡ (s.closures place).proto)
        × (ncl.preload ≡ (if c.capture_index + 1 == nups then 0 else (c.capture_index + 1) % 2 ^ 8))
  unfolding stored_closure
  store_capture-shape s place nups c = (
    ap (λ (ncl : LClosure). ncl.proto) (store_capture-at s place nups c),
    ap (λ (ncl : LClosure). ncl.preload) (store_capture-at s place nups c),
  )
