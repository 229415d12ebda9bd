-- ===== src/Runtime/Modules/Running.antt =====
-- The run of a module's code: its requires, and `luauc_runtime_v1_enter` at its end, which
-- completes the record of the entry when the code is the entry's.
use luauc.Prelude.{ℕ, zero, suc, Bool, Option, none, some, ◌==◌}
use luauc.Runtime.Modules.{
  Message, no_completion_room, invalid_completion, Registry, loaded, raised, stuck, Completion,
  returned, error, suspended, unfinished, Body, execute,
}
use luauc.Runtime.Entry.{
  Published, EntryError, module_failure, no_room, invalid_state, unsupported_value, no_continuation,
  invalid_status, Entered, finished, stopped, complete_entry, modules_of,
}
use luauc.Runtime.Entry

-- The text of an error of the completion. The last three come from other statuses of the compiled
-- function, for which `Body` has its own ends.
unfoldable pub entry_message : EntryError → Option Message
entry_message (module_failure (raised message)) = some message
entry_message (module_failure (loaded slot)) = none
entry_message (module_failure stuck) = none
entry_message no_room = some no_completion_room
entry_message (invalid_state id) = some (invalid_completion id)
entry_message unsupported_value = none
entry_message no_continuation = none
entry_message (invalid_status status) = none

-- The end of the code of module `id`. Each root is the proto of one module, and that of `entry` has
-- the mark; `room` tells whether the stack can grow.
unfoldable pub enter : Bool → ℕ → Registry → ℕ → Completion → Registry × Completion
enter room entry registry id (returned results) =
    let (published, entered) =
      complete_entry (id == entry) room
        (some (record { modules = registry; entry_id = entry; has_root = λ i. i == id })) results in
    (
      modules_of published,
      elim entered [
        | finished ↦ returned results
        | Entry.suspended ↦ suspended
        | stopped e ↦ error (entry_message e)
      ],
    )
enter room entry registry id (error message) = (registry, error message)
enter room entry registry id suspended = (registry, suspended)
enter room entry registry id unfinished = (registry, unfinished)

-- Module code, nested as deep as `fuel`; `code` gives the body of each module.
unfoldable pub run_module : Bool → ℕ → (ℕ → Body) → ℕ → Registry → ℕ → Registry × Completion
run_module room entry code zero registry id = (registry, unfinished)
run_module room entry code (suc fuel) registry id =
    let (registry', completion) = execute (run_module room entry code fuel) (code id) registry in
    enter room entry registry' id completion
