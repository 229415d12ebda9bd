-- ===== src/Runtime/Entry.antt =====
-- `luauc_runtime_v1_enter` of runtime/src/call_frame.cpp behind the checks of the frame, with
-- `pushEntryModuleRecord`: the entry module of a program runs outside static require, and its record is
-- completed when it ends.
pub mod Completion
mod Runs
use luauc.Prelude.{
  ℕ, zero, suc, Bool, true, false, not, ◌&&◌, ◌||◌, Option, none, some, List, [], ◌∷◌,
  if◌then◌else◌, get_elem?,
}
use luauc.Runtime.Modules.{
  Status, initialized, initializing, uninitialized, failed, Message, Slot, nil, value, Registry,
  Outcome, raised, record_at, ModuleRecord, set_module_record_status, set_module_record_value,
  raise_cached_module_failure, is_failed, is_initializing,
}

-- What the compiled function of the frame returned: `OK`, with the results that it left on the stack, or
-- another status.
pub data EntryStatus : Type 0 where
  ok : List ℕ → EntryStatus
  unsupported : EntryStatus
  yielded : EntryStatus
  unknown : ℕ → EntryStatus

pub data EntryError : Type 0 where
  module_failure : Outcome → EntryError
  no_room : EntryError
  invalid_state : ℕ → EntryError
  unsupported_value : EntryError
  no_continuation : EntryError
  invalid_status : ℕ → EntryError

pub data Entered : Type 0 where
  finished : Entered
  suspended : Entered
  stopped : EntryError → Entered

-- The published registry with its entry id; `has_root` tells whether the root closure of a record is one of
-- the running proto.
pub record Published : Type 0 where
  pub modules : Registry
  pub entry_id : ℕ
  pub has_root : ℕ → Bool

-- The entry id, if the running proto is that of the entry's root.
unfoldable pub push_entry_module_record : Option Published → Option ℕ
push_entry_module_record none = none
push_entry_module_record (some published) = elim (get_elem? published.modules published.entry_id) [
  | none ↦ none
  | some r ↦ if published.has_root published.entry_id then some published.entry_id else none
]

-- One result is the module's value; no result or several are dropped.
unfoldable pub entry_value : List ℕ → Slot
entry_value (result ∷ []) = value result
entry_value _ = nil

unfoldable pub complete_record : Registry → ℕ → List ℕ → Registry × Entered
complete_record registry id results =
    if is_failed (record_at registry id).status
    then (let failure = raise_cached_module_failure registry id true in
        (failure.0, stopped (module_failure failure.1)))
    else if not (is_initializing (record_at registry id).status)
    then (registry, stopped (invalid_state id))
    else (
      set_module_record_status (set_module_record_value registry id (entry_value results)) id
          initialized,
      finished,
    )

abbrev pub with_modules : Option Published → Registry × Entered → Option Published × Entered
with_modules none (registry, entered) = (none, entered)
with_modules (some published) (registry, entered) =
    (some (record published { modules = registry }), entered)

abbrev pub modules_of : Option Published → Registry
modules_of none = []
modules_of (some published) = published.modules

-- The completion of a frame whose function returned `OK`; `marked` is the flag of the entry's proto, and
-- `room` tells whether the stack can grow.
unfoldable pub complete_entry : Bool → Bool → Option Published → List ℕ → Option Published × Entered
complete_entry marked room published results =
    if not marked
    then (published, finished)
    else if not room
    then (published, stopped no_room)
    else (elim (push_entry_module_record published) [
      | none ↦ (published, finished)
      | some id ↦ with_modules published (complete_record (modules_of published) id results)
    ])

-- `resumable` is the answer of `validAotSuspension`.
unfoldable pub finish_entry :
    Bool → Bool → Bool → Option Published → EntryStatus → Option Published × Entered
finish_entry marked room resumable published (ok results) =
    complete_entry marked room published results
finish_entry marked room resumable published unsupported = (published, stopped unsupported_value)
finish_entry marked room resumable published yielded =
    (published, if resumable then suspended else stopped no_continuation)
finish_entry marked room resumable published (unknown status) =
    (published, stopped (invalid_status status))
