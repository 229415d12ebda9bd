-- ===== src/Runtime/Closures/New.antt =====
-- NEWCLOSURE and its captures, and the checks that DUPCLOSURE shares, of runtime/src/call_frame.cpp.
use luauc.Prelude.{
  ℕ, ◌+◌, ◌%◌, ◌^◌, Bool, true, false, not, ◌&&◌, ◌||◌, Option, none, some, ltb, leb, ◌==◌,
  if◌then◌else◌,
}
use luauc.Runtime.Tables.{checked, given}
use luauc.Runtime.Closures.{
  Held, UpRef, ProtoShape, State, register, active_closure, update, find_direct_aot_child,
  allocate_closure, write_closure, closure, holds, refers,
}

-- The words of a capture.
pub record Capturing : Type 0 where
  pub destination : ℕ
  pub child_proto_id : ℕ
  pub capture_index : ℕ
  pub capture_kind : ℕ
  pub source_index : ℕ
  pub check_gc : ℕ

-- `LUAUC_AOT_CAPTURE_V1_VAL`, `_REF` and `_UPVAL`.
abbrev pub by_value : ℕ
by_value = 0

abbrev pub by_reference : ℕ
by_reference = 1

abbrev pub by_upvalue : ℕ
by_upvalue = 2

unfoldable pub valid_source : (ℕ → ProtoShape) → State → Bool → Capturing → Bool
valid_source protos s references c =
    if c.capture_kind == by_value || (references && c.capture_kind == by_reference)
    then ltb c.source_index (protos (active_closure s).proto).maxstacksize
    else if c.capture_kind == by_upvalue
    then ltb c.source_index (protos (active_closure s).proto).nups
      && ltb c.source_index (active_closure s).nupvalues
    else false

-- The child of a capture that the checks accept.
unfoldable pub capture_child : (ℕ → ProtoShape) → State → Bool → Capturing → Option ℕ
capture_child protos s references c =
    checked (ltb c.destination (protos (active_closure s).proto).maxstacksize && leb c.check_gc 1) (
      given (find_direct_aot_child protos (protos (active_closure s).proto).p c.child_proto_id)
        (λ child.
          checked
            (not ((protos child).nups == 0)
              && ltb c.capture_index (protos child).nups
              && (c.check_gc == 0 || c.capture_index + 1 == (protos child).nups)
              && valid_source protos s references c)
            (some child)))

abbrev pub closure_of : Held → Option ℕ
closure_of (closure place) = some place
closure_of _ = none

-- The closure that an earlier capture of a NEWCLOSURE has published.
unfoldable pub resumed_closure : (ℕ → ProtoShape) → State → ℕ → Capturing → Option ℕ
resumed_closure protos s child c = checked (ltb (s.base + c.destination) s.top) (
    given (closure_of (register s c.destination)) (λ place.
      let ncl = s.closures place in
      if not (ncl.proto == child)
        || not (ncl.nupvalues == (protos child).nups)
        || not (ncl.stacksize == (protos child).maxstacksize)
        || not (ncl.env == (active_closure s).env)
        || not (ncl.preload == c.capture_index)
      then none
      else some place))

-- What the capture stores; a reference may make a cell.
unfoldable pub captured : (State → ℕ → State × ℕ) → State → Capturing → State × UpRef
captured find_upval s c =
    if c.capture_kind == by_value
    then (s, holds (register s c.source_index))
    else if c.capture_kind == by_reference
    then (let (s', cell) = find_upval s (s.base + c.source_index) in (s', refers cell))
    else (s, (active_closure s).uprefs c.source_index)

unfoldable pub store_capture : (State → ℕ → State × ℕ) → State → ℕ → ℕ → Capturing → State
store_capture find_upval s place nups c =
    let (s', upref) = captured find_upval s c in
    let ncl = s'.closures place in
    write_closure s' place (record ncl {
      uprefs = update ncl.uprefs c.capture_index upref;
      preload = if c.capture_index + 1 == nups then 0 else (c.capture_index + 1) % 2 ^ 8;
    })

-- `luauc_runtime_v1_newclosure_capture`
unfoldable pub newclosure_capture :
    (State → ℕ → State × ℕ) → (ℕ → ProtoShape) → State → Capturing → Option State
newclosure_capture find_upval protos s c = given (capture_child protos s true c) (λ child.
    if c.capture_index == 0
    then some (
        store_capture find_upval (allocate_closure protos s child c.destination) s.next
          (protos child).nups c)
    else given (resumed_closure protos s child c)
        (λ place. some (store_capture find_upval s place (protos child).nups c)))

-- `luauc_runtime_v1_newclosure_empty`
unfoldable pub newclosure_empty : (ℕ → ProtoShape) → State → ℕ → ℕ → ℕ → Option State
newclosure_empty protos s destination child_proto_id check_gc =
    checked (ltb destination (protos (active_closure s).proto).maxstacksize && leb check_gc 1) (
      given (find_direct_aot_child protos (protos (active_closure s).proto).p child_proto_id)
        (λ child.
          if not ((protos child).nups == 0)
          then none
          else some (allocate_closure protos s child destination)))
