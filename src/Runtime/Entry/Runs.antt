-- ===== src/Runtime/Entry/Runs.antt =====
-- The completion of the entry module at a concrete package.
use luauc.Prelude.{ℕ, ◌≡◌, refl, true, some, [], ◌∷◌, ◌==◌, arith}
use luauc.Runtime.Modules.{
  initializing, uninitialized, compiled, nil, cycle, init_failed, Registry, loaded, raised,
  returned, Completion, Frame, record_at, require_static,
}
use luauc.Runtime.Modules.Once.{CanRequire}
use luauc.Runtime.Entry.{Published, finished, stopped, module_failure, entry_value, complete_entry}
use luauc.Runtime.Entry.Completion.{IsRunning, complete_entry_required, complete_entry_cycle}

abbrev a_frame : Frame
a_frame = record { destination = 0; max_stack_size = 2; room = true; thread_room = true }

a_frame-CanRequire : CanRequire a_frame
a_frame-CanRequire = record { inside = omega arith; has_room = refl }

-- Two modules, of which the second is the running entry.
abbrev a_published : Published
a_published = record {
  modules =
      record { root = compiled; status = uninitialized; slot = nil }
      ∷ record { root = compiled; status = initializing; slot = nil }
      ∷ [];
  entry_id = 1;
  has_root = λ id. id == 1;
}

a_published-IsRunning : IsRunning a_published
a_published-IsRunning = record { root = refl; active = refl }

abbrev nothing_run : Registry → ℕ → Registry × Completion
nothing_run registry id = (registry, returned [])

complete_entry_required_example :
    (modules : Registry) × (complete_entry true true (some a_published) (7 ∷ [])
      ≡ (some (record a_published { modules = modules }), finished))
    × (require_static nothing_run a_frame modules 1 ≡ (modules, loaded (entry_value (7 ∷ []))))
complete_entry_required_example =
    complete_entry_required a_published (7 ∷ []) a_frame nothing_run a_published-IsRunning
      a_frame-CanRequire

complete_entry_cycle_example :
    (second third : Registry) × (require_static nothing_run a_frame a_published.modules 1
      ≡ (second, raised (init_failed 1 cycle)))
    × (complete_entry true true (some (record a_published { modules = second })) [] ≡ (
      some (record a_published { modules = third }),
      stopped (module_failure (raised (init_failed 1 cycle))),
    ))
    × ((record_at third 1).status ≡ uninitialized)
complete_entry_cycle_example =
    complete_entry_cycle a_published [] a_frame nothing_run a_published-IsRunning a_frame-CanRequire
