-- ===== src/Runtime/Closures.antt =====
-- The closure helpers of runtime/src/call_frame.cpp: NEWCLOSURE and DUPCLOSURE with their captures, one call
-- for each, and the access to upvalues. Closures and upvalue cells live in heaps, functions from places to
-- contents. `luaF_findupval`, `luaF_close` and `luaO_rawequalObj` are the virtual machine's, and parameters;
-- the collector has no counterpart.
pub mod Capture
pub mod Sequence
pub mod Upvalues
mod Runs
pub mod Access
pub mod Duplicate
pub mod New
use luauc.Prelude.{
  ℕ, zero, suc, ◌+◌, ◌-◌, ◌%◌, ◌^◌, Bool, true, false, not, ◌&&◌, ◌||◌, Option, none, some, List,
  [], ◌∷◌, arith, ltb, leb, ◌==◌, if◌then◌else◌,
}
use luauc.Runtime.Tables.{checked, given}

-- A value of a register: a closure of Luau code by its place, or another value.
pub data Held : Type 0 where
  nil : Held
  closure : ℕ → Held
  plain : ℕ → Held

-- An entry of a closure's upvalues: a value, or a reference to a cell.
pub data UpRef : Type 0 where
  holds : Held → UpRef
  refers : ℕ → UpRef

-- A cell points to a stack slot while it is open, and then has its own value.
pub data Cell : Type 0 where
  opened : ℕ → Cell
  closed : Held → Cell

pub record LClosure : Type 0 where
  pub proto : ℕ
  pub env : ℕ
  pub nupvalues : ℕ
  pub stacksize : ℕ
  pub uprefs : ℕ → UpRef
  pub preload : ℕ

-- What is read of a proto; `function_id` is that of its metadata, if it has any.
pub record ProtoShape : Type 0 where
  pub function_id : Option ℕ
  pub nups : ℕ
  pub maxstacksize : ℕ
  pub p : List (Option ℕ)
  pub k : List Held

-- The thread; `active` is the place of the closure that runs. Closures from `next` on, and cells from
-- `next_cell` on, are not allocated.
pub record State : Type 0 where
  pub stack : ℕ → Held
  pub base : ℕ
  pub top : ℕ
  pub closures : ℕ → LClosure
  pub next : ℕ
  pub cells : ℕ → Cell
  pub next_cell : ℕ
  pub active : ℕ

abbrev pub register : State → ℕ → Held
register s index = s.stack (s.base + index)

abbrev pub active_closure : State → LClosure
active_closure s = s.closures s.active

-- `index` and what it is to hold.
abbrev pub update : {A : Type 0} → (ℕ → A) → ℕ → A → ℕ → A
update f index new = λ i. if i == index then new else f i

-- The child of a proto with that function id.
unfoldable pub find_direct_aot_child : (ℕ → ProtoShape) → List (Option ℕ) → ℕ → Option ℕ
find_direct_aot_child protos [] child_proto_id = none
find_direct_aot_child protos (candidate ∷ rest) child_proto_id =
    let later = find_direct_aot_child protos rest child_proto_id in
    elim candidate [
      | none ↦ later
      | some child ↦ elim (protos child).function_id [
        | none ↦ later
        | some id ↦ if id == child_proto_id then some child else later
      ]
    ]

-- The closure among the constants that has that proto.
unfoldable pub find_aot_closure_template : (ℕ → LClosure) → List Held → ℕ → Option ℕ
find_aot_closure_template closures [] child = none
find_aot_closure_template closures (constant ∷ rest) child =
    let later = find_aot_closure_template closures rest child in
    elim constant [
      | nil ↦ later
      | plain value ↦ later
      | closure place ↦ if (closures place).proto == child then some place else later
    ]

-- `luaF_newLclosure` with the environment of the active closure.
unfoldable pub new_lclosure : (ℕ → ProtoShape) → State → ℕ → LClosure
new_lclosure protos s child = record {
  proto = child;
  env = (active_closure s).env;
  nupvalues = (protos child).nups;
  stacksize = (protos child).maxstacksize;
  uprefs = λ i. holds nil;
  preload = 0;
}

-- A closure in a register, which the live part of the stack then has.
unfoldable pub publish_closure : State → ℕ → ℕ → State
publish_closure s destination place = record s {
  stack = update s.stack (s.base + destination) (closure place);
  top = if leb s.top (s.base + destination) then s.base + destination + 1 else s.top;
}

-- A new closure in a register, at the place `next`.
unfoldable pub allocate_closure : (ℕ → ProtoShape) → State → ℕ → ℕ → State
allocate_closure protos s child destination =
    publish_closure
      (record s {
        closures = update s.closures s.next (new_lclosure protos s child);
        next = s.next + 1;
      })
      destination s.next

abbrev pub write_closure : State → ℕ → LClosure → State
write_closure s place new = record s { closures = update s.closures place new }
