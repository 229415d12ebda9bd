-- ===== src/Runtime/Closures/Upvalues.antt =====
-- Upvalues that are captured by reference are shared.
use luauc.Prelude.{ℕ, ◌+◌, ◌≡◌, refl, ap, ◌∙◌, some, arith}
use luauc.Runtime.Closures.{
  Held, UpRef, refers, Cell, opened, closed, LClosure, ProtoShape, State, register, active_closure,
  update,
}
use luauc.Runtime.Closures.Access.{
  cell_value, upref_value, write_cell, write_upref, get_upvalue, set_upvalue,
}

cell_value-written :
    (s : State) (cell : ℕ) (value : Held) (c : Cell)
    → s.cells cell ≡ c
    → cell_value (write_cell s cell value c) ((write_cell s cell value c).cells cell) ≡ value
cell_value-written s cell value (opened slot) e = rw e (ground arith)
cell_value-written s cell value (closed old) e = ground arith

write_cell-closures :
    (s : State) (cell : ℕ) (value : Held) (c : Cell)
    → (write_cell s cell value c).closures ≡ s.closures
write_cell-closures s cell value (opened slot) = refl
write_cell-closures s cell value (closed old) = refl

updated : (stack : ℕ → Held) (slot : ℕ) (value : Held) → update stack slot value slot ≡ value
updated stack slot value = ground arith

-- The state of another call, whose closure and base are given.
abbrev pub in_call : State → ℕ → ℕ → State
in_call s other base = record s { active = other; base = base }

cell_value-in_call :
    (s : State) (other base : ℕ) (c : Cell) → cell_value (in_call s other base) c ≡ cell_value s c
cell_value-in_call s other base (opened slot) = refl
cell_value-in_call s other base (closed value) = refl

write_upref_cell :
    (s : State) (value : Held) (upref : UpRef) (cell : ℕ) (s' : State)
    → upref ≡ refers cell
    → write_upref s value upref ≡ some s'
    → s' ≡ write_cell s cell value (s.cells cell)
write_upref_cell s value upref cell s' e h = ground (arith, e)

written :
    (protos : ℕ → ProtoShape) (s s' : State) (index source cell : ℕ)
    → (active_closure s).uprefs index ≡ refers cell
    → set_upvalue protos s index source ≡ some s'
    → s' ≡ write_cell s cell (register s source) (s.cells cell)
unfolding set_upvalue
written protos s s' index source cell e h =
    write_upref_cell s (register s source) ((active_closure s).uprefs index) cell s' e
      (ground arith)

read :
    (protos : ℕ → ProtoShape) (s s' : State) (destination index cell : ℕ)
    → (active_closure s).uprefs index ≡ refers cell
    → get_upvalue protos s destination index ≡ some s'
    → register s' destination ≡ cell_value s (s.cells cell)
unfolding get_upvalue
read protos s s' destination index cell e h =
    let value = upref_value s ((active_closure s).uprefs index) in
    let after : s' ≡ record s { stack = update s.stack (s.base + destination) value } =
      ground arith in
    ap (λ (t : State). register t destination) after
    ∙ updated s.stack (s.base + destination) value
    ∙ ap (upref_value s) e

-- What a closure writes to an upvalue that it has by reference, every closure with a reference to the same
-- cell then reads from its own upvalue, in whichever call it runs and whether the cell is open or closed.
pub set_upvalue-get :
    (protos : ℕ → ProtoShape) (s s' seen : State)
    (index source other base destination index' cell : ℕ)
    → (active_closure s).uprefs index ≡ refers cell
    → (s.closures other).uprefs index' ≡ refers cell
    → set_upvalue protos s index source ≡ some s'
    → get_upvalue protos (in_call s' other base) destination index' ≡ some seen
    → register seen destination ≡ register s source
set_upvalue-get protos s s' seen index source other base destination index' cell e f h g =
    let w = written protos s s' index source cell e h in
    let same : (s'.closures other).uprefs index' ≡ refers cell =
      ap (λ (t : State). (t.closures other).uprefs index') w
      ∙ ap (λ (f : ℕ → LClosure). (f other).uprefs index')
          (write_cell-closures s cell (register s source) (s.cells cell))
      ∙ f in
    read protos (in_call s' other base) seen destination index' cell same g
    ∙ cell_value-in_call s' other base (s'.cells cell)
    ∙ ap (λ (t : State). cell_value t (t.cells cell)) w
    ∙ cell_value-written s cell (register s source) (s.cells cell) refl
