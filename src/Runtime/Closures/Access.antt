-- ===== src/Runtime/Closures/Access.antt =====
-- The access to upvalues, of runtime/src/call_frame.cpp.
use luauc.Prelude.{ℕ, ◌+◌, Bool, ◌||◌, Option, none, some, leb, if◌then◌else◌}
use luauc.Runtime.Closures.{
  Held, UpRef, Cell, ProtoShape, State, register, active_closure, update, holds, refers, opened,
  closed,
}

-- What a cell points to.
abbrev pub cell_value : State → Cell → Held
cell_value s (opened slot) = s.stack slot
cell_value s (closed value) = value

abbrev pub upref_value : State → UpRef → Held
upref_value s (holds value) = value
upref_value s (refers cell) = cell_value s (s.cells cell)

-- `luauc_runtime_v1_get_upvalue`
unfoldable pub get_upvalue : (ℕ → ProtoShape) → State → ℕ → ℕ → Option State
get_upvalue protos s destination index =
    if leb (protos (active_closure s).proto).maxstacksize destination
      || leb (protos (active_closure s).proto).nups index
      || leb (active_closure s).nupvalues index
    then none
    else some (record s {
      stack =
          update s.stack (s.base + destination) (upref_value s ((active_closure s).uprefs index));
    })

abbrev pub write_cell : State → ℕ → Held → Cell → State
write_cell s cell value (opened slot) = record s { stack = update s.stack slot value }
write_cell s cell value (closed old) = record s { cells = update s.cells cell (closed value) }

abbrev pub write_upref : State → Held → UpRef → Option State
write_upref s value (holds old) = none
write_upref s value (refers cell) = some (write_cell s cell value (s.cells cell))

-- `luauc_runtime_v1_set_upvalue`
unfoldable pub set_upvalue : (ℕ → ProtoShape) → State → ℕ → ℕ → Option State
set_upvalue protos s index source =
    if leb (protos (active_closure s).proto).maxstacksize source
      || leb (protos (active_closure s).proto).nups index
      || leb (active_closure s).nupvalues index
    then none
    else write_upref s (register s source) ((active_closure s).uprefs index)

-- `luauc_runtime_v1_close_upvalues`
unfoldable pub close_upvalues :
    (State → ℕ → Bool) → (State → ℕ → State) → (ℕ → ProtoShape) → State → ℕ → Option State
close_upvalues open_from close protos s first =
    if leb (protos (active_closure s).proto).maxstacksize first
    then none
    else some (if open_from s (s.base + first) then close s (s.base + first) else s)
