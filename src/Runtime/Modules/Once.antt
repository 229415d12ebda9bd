-- ===== src/Runtime/Modules/Once.antt =====
-- A module that has loaded is loaded once: requiring it again runs nothing.
use luauc.Prelude.{
  ℕ, ◌<◌, ◌≡◌, ◌≢◌, ◌⊎◌, inl, inr, refl, ap, sym, ◌∙◌, true, false, [], ◌∷◌, arith, ltb, Bool-cases,
  length, get_elem?-inside, get_or-outside,
}
use luauc.Runtime.Modules.{
  Status, initialized, initializing, uninitialized, Slot, value, Registry, loaded, Completion,
  returned, error, suspended, unfinished, Frame, no_record, record_at, ModuleRecord,
  raise_cached_module_failure, cache_and_raise_module_failure, fail_module, publish_module,
  finish_module, begin_module, initialize_module, require_record, require_static,
}
use luauc.Runtime.Modules.Records.{stored, length-stored, record_at-stored}

-- A frame from which a require reaches the registry.
pub record CanRequire (frame : Frame) : Type 0 where
  pub inside : frame.destination < frame.max_stack_size
  pub has_room : frame.room ≡ true

-- Record `id` is there, and holds `slot` as the module's value.
pub record Holds (registry : Registry) (id : ℕ) (slot : Slot) : Type 0 where
  pub known : id < length registry
  pub ready : (record_at registry id).status ≡ initialized
  pub held : (record_at registry id).slot ≡ slot

module _ (registry : Registry) (id : ℕ) where
  -- A record that is not there is read as one that is not initialized.
  pub known_by_status :
      (s : Status) → (record_at registry id).status ≡ s → s ≢ uninitialized → id < length registry
  known_by_status s e other = inside (Bool-cases (ltb id (length registry)))
    where
      inside :
          (ltb id (length registry) ≡ true) ⊎ (ltb id (length registry) ≡ false)
          → id < length registry
      inside (inl l) = ground arith
      inside (inr l) = absurd (
          other (
            sym e
            ∙ ap (λ (r : ModuleRecord). r.status)
                (get_or-outside registry id no_record (ground arith))))

  pub stored-Holds :
      (slot : Slot) → id < length registry → Holds (stored registry id slot initialized) id slot
  stored-Holds slot l =
      let r = record_at-stored registry id slot initialized l in
      record {
        known = omega (arith, length-stored registry id slot initialized);
        ready = ap (λ (r : ModuleRecord). r.status) r;
        held = ap (λ (r : ModuleRecord). r.slot) r;
      }

  published :
      (result : ℕ) (registry' : Registry) (slot : Slot)
      → publish_module registry id result ≡ (registry', loaded slot)
      → ((record_at registry id).status ≡ initializing)
        × (registry' ≡ stored registry id (value result) initialized)
        × (slot ≡ value result)
  unfolding publish_module raise_cached_module_failure stored
  published result registry' slot h = (ground arith, ground arith, ground arith)

  publish_module-Holds :
      (result : ℕ) (registry' : Registry) (slot : Slot)
      → publish_module registry id result ≡ (registry', loaded slot)
      → Holds registry' id slot
  publish_module-Holds result registry' slot h =
      let (active, e, s) = published result registry' slot h in
      rw (e, s) (stored-Holds (value result) (known_by_status initializing active (λ q. cc)))

  fail_module-ne-loaded :
      (completion : Completion) (registry' : Registry) (slot : Slot)
      → fail_module registry id completion ≢ (registry', loaded slot)
  unfolding fail_module cache_and_raise_module_failure raise_cached_module_failure
  fail_module-ne-loaded completion registry' slot = ground arith

finish_module-Holds :
    (id : ℕ) (ended : Registry × Completion) (registry' : Registry) (slot : Slot)
    → finish_module id ended ≡ (registry', loaded slot)
    → Holds registry' id slot
unfolding finish_module
finish_module-Holds id (registry, returned []) registry' slot h =
    absurd (fail_module-ne-loaded registry id _ _ _ h)
finish_module-Holds id (registry, returned (result ∷ [])) registry' slot h =
    publish_module-Holds registry id result registry' slot h
finish_module-Holds id (registry, returned (a ∷ b ∷ more)) registry' slot h =
    absurd (fail_module-ne-loaded registry id _ _ _ h)
finish_module-Holds id (registry, error e) registry' slot h =
    absurd (fail_module-ne-loaded registry id _ _ _ h)
finish_module-Holds id (registry, suspended) registry' slot h =
    absurd (fail_module-ne-loaded registry id _ _ _ h)
finish_module-Holds id (registry, unfinished) registry' slot h = cc

module _ (run : Registry → ℕ → Registry × Completion) (frame : Frame) (registry : Registry)
    (id : ℕ) where
  require_record-cases :
      (registry' : Registry) (slot : Slot)
      → require_record run frame registry id ≡ (registry', loaded slot)
      → (((record_at registry id).status ≡ initialized)
          × (registry' ≡ registry)
          × (slot ≡ (record_at registry id).slot))
        ⊎ (finish_module id (run (begin_module registry id) id) ≡ (registry', loaded slot))
  unfolding require_record initialize_module cache_and_raise_module_failure
      raise_cached_module_failure
  require_record-cases registry' slot h = ground arith

  require_static-record :
      (registry' : Registry) (slot : Slot)
      → require_static run frame registry id ≡ (registry', loaded slot)
      → require_record run frame registry id ≡ (registry', loaded slot)
  unfolding require_static
  require_static-record registry' slot h = ground arith

  pub require_static-Holds :
      (registry' : Registry) (slot : Slot)
      → require_static run frame registry id ≡ (registry', loaded slot)
      → Holds registry' id slot
  require_static-Holds registry' slot h =
      elim (require_record-cases registry' slot (require_static-record registry' slot h)) [
        | inr e ↦ finish_module-Holds id (run (begin_module registry id) id) registry' slot e
        | inl (ready, same, held) ↦
            rw (same, held)
              (record {
                known = known_by_status registry id initialized ready (λ q. cc);
                ready = ready;
                held = refl;
              })
      ]

  -- A record that holds a value gives it, and neither runs code nor changes the registry.
  pub Holds-require_static :
      (slot : Slot)
      → CanRequire frame
      → Holds registry id slot
      → require_static run frame registry id ≡ (registry, loaded slot)
  unfolding require_static require_record
  Holds-require_static slot f h =
      rw (get_elem?-inside registry id no_record h.known)
        (ground (arith, f.inside, f.has_room, h.ready, h.held))

-- A require of a module directly after one that loaded it, on the registry that the first one left
-- and from any frame that can require, gives the same value, leaves that registry as it is and runs
-- no code, whatever running code would do. Nothing is said of a require after other code has run in
-- between.
pub require_static_twice :
    (run run' : Registry → ℕ → Registry × Completion) (frame frame' : Frame)
    (registry registry' : Registry) (id : ℕ) (slot : Slot)
    → CanRequire frame'
    → require_static run frame registry id ≡ (registry', loaded slot)
    → require_static run' frame' registry' id ≡ (registry', loaded slot)
require_static_twice run run' frame frame' registry registry' id slot f h =
    Holds-require_static run' frame' registry' id slot f
      (require_static-Holds run frame registry id registry' slot h)
