-- ===== src/Runtime/Modules/Cycles.antt =====
-- A require of a module whose initializer is running, and what repeated requires make of it.
use luauc.Prelude.{ℕ, ◌<◌, ◌≡◌, ap, ◌∙◌, true, arith, length, get_elem?-inside}
use luauc.Runtime.Modules.{
  initializing, uninitialized, failed, compiled, text, Message, cycle, init_failed, message_of,
  Registry, raised, Completion, Frame, no_record, record_at, raise_cached_module_failure,
  cache_and_raise_module_failure, finish_module, begin_module, initialize_module, require_record,
  require_static, set_module_record_status, ModuleRecord,
}
use luauc.Runtime.Modules.Records.{
  stored, length-stored, record_at-stored, record_at-set_status, length-set_status,
}
use luauc.Runtime.Modules.Once.{CanRequire, known_by_status}

module _ (run : Registry → ℕ → Registry × Completion) (frame : Frame) (can : CanRequire frame) where
  reaches_record :
      (registry : Registry) (id : ℕ)
      → id < length registry
      → require_static run frame registry id ≡ require_record run frame registry id
  unfolding require_static
  reaches_record registry id l =
      rw (get_elem?-inside registry id no_record l) (ground (arith, can.inside, can.has_room))

  -- While a module is being initialized, a require of it fails as a cycle and leaves it failed.
  pub require_active :
      (registry : Registry) (id : ℕ)
      → (record_at registry id).status ≡ initializing
      → require_static run frame registry id
        ≡ (stored registry id (text cycle) failed, raised (init_failed id cycle))
  require_active registry id active =
      let l = known_by_status registry id initializing active (λ q. cc) in
      reaches_record registry id l ∙ go l
    where
      go :
          id < length registry
          → require_record run frame registry id
            ≡ (stored registry id (text cycle) failed, raised (init_failed id cycle))
      go l =
          unfold require_record cache_and_raise_module_failure raise_cached_module_failure stored
            message_of in
          ground (arith, active, record_at-stored registry id (text cycle) failed l)

  -- A require of a failed module repeats the cached failure and frees the module for another attempt.
  pub require_failed :
      (registry : Registry) (id : ℕ) (message : Message)
      → (record_at registry id).status ≡ failed
      → (record_at registry id).slot ≡ text message
      → require_static run frame registry id
        ≡ (set_module_record_status registry id uninitialized, raised (init_failed id message))
  unfolding require_record raise_cached_module_failure message_of
  require_failed registry id message bad cached =
      let l = known_by_status registry id failed bad (λ q. cc) in
      reaches_record registry id l ∙ ground (arith, bad, cached)

module _ (registry : Registry) (id : ℕ)
    (active : (record_at registry id).status ≡ initializing) where
  -- The registry after two requires of an active module whose errors were caught.
  twice_required : Registry
  twice_required =
      set_module_record_status (stored registry id (text cycle) failed) id uninitialized

  pub failed_record :
      record_at (stored registry id (text cycle) failed) id
      ≡ record { root = (record_at registry id).root; status = failed; slot = text cycle }
  failed_record =
      record_at-stored registry id (text cycle) failed
        (known_by_status registry id initializing active (λ q. cc))

  pub known_failed : id < length (stored registry id (text cycle) failed)
  known_failed = omega (
    arith,
    length-stored registry id (text cycle) failed,
    known_by_status registry id initializing active (λ q. cc),
  )

  freed_record :
      record_at twice_required id
      ≡ record { root = (record_at registry id).root; status = uninitialized; slot = text cycle }
  unfolding twice_required
  freed_record =
      record_at-set_status (stored registry id (text cycle) failed) id uninitialized known_failed
      ∙ ap (λ (r : ModuleRecord). record { root = r.root; status = uninitialized; slot = r.slot })
          failed_record

  known_freed : id < length twice_required
  unfolding twice_required
  known_freed = omega (
    arith,
    length-set_status (stored registry id (text cycle) failed) id uninitialized,
    known_failed,
  )

-- The cycle guard holds for two requires only. If code reached from a running initializer requires that
-- module, whose root is compiled, three times
-- from a frame that can require, catching the errors, the first two requires fail with the cycle error, and the
-- third runs the initializer again, inside its own run.
pub require_reenters :
    (run : Registry → ℕ → Registry × Completion) (frame : Frame) (registry : Registry) (id : ℕ)
    → CanRequire frame
    → frame.thread_room ≡ true
    → (record_at registry id).status ≡ initializing
    → (record_at registry id).root ≡ compiled
    → (second third : Registry) × (require_static run frame registry id
        ≡ (second, raised (init_failed id cycle)))
      × (require_static run frame second id ≡ (third, raised (init_failed id cycle)))
      × (require_static run frame third id ≡ finish_module id (run (begin_module third id) id))
unfolding twice_required require_record initialize_module
require_reenters run frame registry id can room active root = (
  stored registry id (text cycle) failed,
  twice_required registry id active,
  require_active run frame can registry id active,
  require_failed run frame can (stored registry id (text cycle) failed) id cycle
      (ap (λ (r : ModuleRecord). r.status) (failed_record registry id active))
      (ap (λ (r : ModuleRecord). r.slot) (failed_record registry id active)),
  reaches_record run frame can (twice_required registry id active) id
        (known_freed registry id active)
      ∙ ground (arith, freed_record registry id active, room, root),
)
