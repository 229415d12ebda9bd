-- ===== src/Runtime/Modules.antt =====
-- Static require of runtime/src/call_frame.cpp: the module registry, `pushModuleRecord`,
-- `raiseCachedModuleFailure`, `cacheAndRaiseModuleFailure` and `luauc_runtime_v1_require_static`.
-- The code of a module is seen by what it does to the registry: a tree of requires, each with what the
-- code does next on each outcome (an outcome that is an error reaches it through `pcall`).
pub mod Records
pub mod Once
pub mod Running
pub mod Ranked
pub mod Cycles
mod Runs
use luauc.Prelude.{
  ℕ, zero, suc, ◌+◌, ◌≡◌, Bool, true, false, not, ◌&&◌, ◌||◌, Option, none, some, List, [], ◌∷◌,
  arith, ltb, leb, ◌==◌, if◌then◌else◌, get_elem?, get_or, set, replicate,
}

-- `ModuleInitializationState`. A record holds no other number, so the error for one has no counterpart.
pub data Status : Type 0 where
  uninitialized initializing initialized failed : Status

pub data Message : Type 0 where
  unknown_error unknown_module_error cycle yielded not_single no_thread_stack : Message
  own : ℕ → Message
  init_failed : ℕ → Message → Message
  outside_frame no_stack no_completion_room : Message
  rejected no_root bad_metadata changed_state invalid_completion : ℕ → Message

-- The third slot of a record: nil, what the module returned, or the text of a failure.
pub data Slot : Type 0 where
  nil : Slot
  value : ℕ → Slot
  text : Message → Slot

-- The first slot: no closure of Luau code, one whose metadata is not valid, or a compiled root.
pub data Root : Type 0 where
  no_closure invalid compiled : Root

pub record ModuleRecord : Type 0 where
  pub root : Root
  pub status : Status
  pub slot : Slot

abbrev pub Registry : Type 0
Registry = List ModuleRecord

-- What a require gives its caller. `stuck` is no outcome of the code: the fuel ran out.
pub data Outcome : Type 0 where
  loaded : Slot → Outcome
  raised : Message → Outcome
  stuck : Outcome

-- How the thread of a module's code ends: with its results, with an error that may have no text, or
-- with a yield.
pub data Completion : Type 0 where
  returned : List ℕ → Completion
  error : Option Message → Completion
  suspended : Completion
  unfinished : Completion

-- The frame that requires: its destination and size, and whether its stack and that of the module's
-- thread can grow.
pub record Frame : Type 0 where
  pub destination : ℕ
  pub max_stack_size : ℕ
  pub room : Bool
  pub thread_room : Bool

pub data Body : Type 0 where
  done : Completion → Body
  require : Frame → ℕ → (Outcome → Body) → Body

abbrev pub no_record : ModuleRecord
no_record = record { root = no_closure; status = uninitialized; slot = nil }

abbrev pub record_at : Registry → ℕ → ModuleRecord
record_at registry id = get_or registry id no_record

unfoldable pub set_module_record_status : Registry → ℕ → Status → Registry
set_module_record_status registry id status =
    let old = record_at registry id in set registry id (record old { status = status })

unfoldable pub set_module_record_value : Registry → ℕ → Slot → Registry
set_module_record_value registry id slot =
    let old = record_at registry id in set registry id (record old { slot = slot })

-- `lua_tostring` of the cached failure
unfoldable pub message_of : Slot → Message
message_of (text message) = message
message_of _ = unknown_error

unfoldable pub raise_cached_module_failure : Registry → ℕ → Bool → Registry × Outcome
raise_cached_module_failure registry id reset_for_retry = (
  (if reset_for_retry then set_module_record_status registry id uninitialized else registry),
  raised (init_failed id (message_of (record_at registry id).slot)),
)

unfoldable pub cache_and_raise_module_failure : Registry → ℕ → Message → Bool → Registry × Outcome
cache_and_raise_module_failure registry id message preserve_active_failure =
    raise_cached_module_failure
      (set_module_record_status (set_module_record_value registry id (text message)) id
        (if preserve_active_failure then failed else uninitialized))
      id false

-- The text of a module thread that did not end with one result.
unfoldable pub failure_text : Completion → Message
failure_text suspended = yielded
failure_text (error (some message)) = message
failure_text (error none) = unknown_module_error
failure_text _ = not_single

abbrev pub is_failed : Status → Bool
is_failed failed = true
is_failed _ = false

abbrev pub is_initializing : Status → Bool
is_initializing initializing = true
is_initializing _ = false

-- The module's thread ended without one result.
unfoldable pub fail_module : Registry → ℕ → Completion → Registry × Outcome
fail_module registry id completion =
    if is_failed (record_at registry id).status
    then raise_cached_module_failure registry id true
    else cache_and_raise_module_failure registry id (failure_text completion) false

-- The module's thread returned one result.
unfoldable pub publish_module : Registry → ℕ → ℕ → Registry × Outcome
publish_module registry id result =
    if is_failed (record_at registry id).status
    then raise_cached_module_failure registry id true
    else if not (is_initializing (record_at registry id).status)
    then (registry, raised (changed_state id))
    else (
      set_module_record_status (set_module_record_value registry id (value result)) id initialized,
      loaded (value result),
    )

unfoldable pub finish_module : ℕ → Registry × Completion → Registry × Outcome
finish_module id (registry, returned (result ∷ [])) = publish_module registry id result
finish_module id (registry, unfinished) = (registry, stuck)
finish_module id (registry, completion) = fail_module registry id completion

-- The record once the initializer is about to run.
unfoldable pub begin_module : Registry → ℕ → Registry
begin_module registry id =
    set_module_record_status (set_module_record_value registry id nil) id initializing

-- The initializer of a record that is not initialized; `run` executes the code of a module.
unfoldable pub initialize_module :
    (Registry → ℕ → Registry × Completion) → Frame → Registry → ℕ → Registry × Outcome
initialize_module run frame registry id = elim (record_at registry id).root [
  | no_closure ↦ (registry, raised (no_root id))
  | invalid ↦ (registry, raised (bad_metadata id))
  | compiled ↦
      if not frame.thread_room
      then cache_and_raise_module_failure (begin_module registry id) id no_thread_stack false
      else finish_module id (run (begin_module registry id) id)
]

unfoldable pub require_record :
    (Registry → ℕ → Registry × Completion) → Frame → Registry → ℕ → Registry × Outcome
require_record run frame registry id = elim (record_at registry id).status [
  | initialized ↦ (registry, loaded (record_at registry id).slot)
  | failed ↦ raise_cached_module_failure registry id true
  | initializing ↦ cache_and_raise_module_failure registry id cycle true
  | uninitialized ↦ initialize_module run frame registry id
]

-- `pushModuleRecord`, for a registry that is published and holds its records.
abbrev pub push_module_record : Registry → ℕ → Option ModuleRecord
push_module_record registry id = get_elem? registry id

unfoldable pub require_static :
    (Registry → ℕ → Registry × Completion) → Frame → Registry → ℕ → Registry × Outcome
require_static run frame registry id =
    if leb frame.max_stack_size frame.destination
    then (registry, raised outside_frame)
    else if not frame.room
    then (registry, raised no_stack)
    else (elim (push_module_record registry id) [
      | none ↦ (registry, raised (rejected id))
      | some r ↦ require_record run frame registry id
    ])

-- A require that does not come back leaves its caller unfinished.
pub execute : (Registry → ℕ → Registry × Completion) → Body → Registry → Registry × Completion
execute run (done completion) registry = (registry, completion)
execute run (require frame id next) registry =
    let (registry', outcome) = require_static run frame registry id in
    elim outcome [
      | stuck ↦ (registry', unfinished)
      | loaded slot ↦ execute run (next (loaded slot)) registry'
      | raised message ↦ execute run (next (raised message)) registry'
    ]

-- The registry that `publishModuleRegistry` leaves: every root compiled, the entry active.
pub publish_records : ℕ → ℕ → ℕ → Registry
publish_records zero id entry = []
publish_records (suc rounds) id entry =
    record {
      root = compiled;
      status = if id == entry then initializing else uninitialized;
      slot = nil;
    }
    ∷ publish_records rounds (id + 1) entry
