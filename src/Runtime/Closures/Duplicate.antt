-- ===== src/Runtime/Closures/Duplicate.antt =====
-- DUPCLOSURE and its captures, of runtime/src/call_frame.cpp.
use luauc.Prelude.{
  ℕ, ◌+◌, Bool, false, not, ◌&&◌, ◌||◌, Option, none, some, ltb, ◌==◌, if◌then◌else◌,
}
use luauc.Runtime.Tables.{checked, given}
use luauc.Runtime.Closures.{
  UpRef, ProtoShape, State, register, active_closure, update, find_direct_aot_child,
  find_aot_closure_template, publish_closure, allocate_closure, write_closure, holds,
}
use luauc.Runtime.Closures.New.{Capturing, by_value, capture_child, closure_of}

-- The template when it has the environment of the active closure, and else a new closure.
unfoldable pub share_template : (ℕ → ProtoShape) → State → ℕ → ℕ → ℕ → State × ℕ
share_template protos s child template destination =
    if (s.closures template).env == (active_closure s).env
    then (publish_closure s destination template, template)
    else (allocate_closure protos s child destination, s.next)

-- `luauc_runtime_v1_dupclosure`
unfoldable pub dupclosure : (ℕ → ProtoShape) → State → ℕ → ℕ → Option State
dupclosure protos s destination child_proto_id =
    checked (ltb destination (protos (active_closure s).proto).maxstacksize) (
      given (find_direct_aot_child protos (protos (active_closure s).proto).p child_proto_id)
        (λ child.
          if not ((protos child).nups == 0)
          then none
          else given
              (find_aot_closure_template s.closures (protos (active_closure s).proto).k child)
              (λ template.
                let (s', place) = share_template protos s child template destination in
                let ncl = s'.closures place in
                some (write_closure s' place (record ncl { preload = 0 })))))

-- The closure that the captures before this one have published, or the one to begin with.
unfoldable pub duplicate_of : (ℕ → ProtoShape) → State → ℕ → ℕ → Capturing → Option (State × ℕ)
duplicate_of protos s child template c =
    if c.capture_index == 0
    then some (share_template protos s child template c.destination)
    else checked (ltb (s.base + c.destination) s.top) (
        given (closure_of (register s c.destination)) (λ place.
          if not ((s.closures place).proto == child)
            || not ((s.closures place).nupvalues == (protos child).nups)
          then none
          else some (s, place)))

unfoldable pub copy_prior : ℕ → (ℕ → UpRef) → (ℕ → UpRef) → ℕ → UpRef
copy_prior count from to = λ i. if ltb i count then from i else to i

-- What the pointer to the captured value gives; it is read again once a new closure is published.
unfoldable pub source_upref : State → Capturing → UpRef
source_upref s c =
    if c.capture_kind == by_value
    then holds (register s c.source_index)
    else (active_closure s).uprefs c.source_index

-- The capture: kept by a template that has it already, put into a new closure in place of a template that
-- has another value, or stored.
unfoldable pub duplicate_capture :
    (UpRef → UpRef → Bool) → (ℕ → ProtoShape) → State → ℕ → ℕ → ℕ → Capturing → State × ℕ
duplicate_capture rawequal protos s child template place c =
    let ncl = s.closures place in
    if place == template && rawequal (ncl.uprefs c.capture_index) (source_upref s c)
    then (s, place)
    else if place == template && ncl.preload == 0
    then (let s' = allocate_closure protos s child c.destination in
        let fresh = s'.closures s.next in
        (
          write_closure s' s.next (record fresh {
            uprefs =
                update (copy_prior c.capture_index ncl.uprefs fresh.uprefs) c.capture_index
                  (source_upref s' c);
          }),
          s.next,
        ))
    else (
      write_closure s place
          (record ncl { uprefs = update ncl.uprefs c.capture_index (source_upref s c) }),
      place,
    )

-- `luauc_runtime_v1_dupclosure_capture`
unfoldable pub dupclosure_capture :
    (UpRef → UpRef → Bool) → (ℕ → ProtoShape) → State → Capturing → Option State
dupclosure_capture rawequal protos s c = given (capture_child protos s false c) (λ child.
    given (find_aot_closure_template s.closures (protos (active_closure s).proto).k child)
      (λ template. given (duplicate_of protos s child template c) (λ begun.
        let (s', place) = begun in
        let (s'', place') = duplicate_capture rawequal protos s' child template place c in
        let ncl = s''.closures place' in
        some (
          if c.capture_index + 1 == (protos child).nups
          then write_closure s'' place' (record ncl { preload = 0 })
          else s''))))
