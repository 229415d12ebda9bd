-- ===== src/Runtime/Modules/Runs.antt =====
-- The theorems on static require at concrete packages.
use luauc.Prelude.{ℕ, zero, suc, ◌≡◌, ◌≢◌, refl, true, [], ◌∷◌, arith}
use luauc.Runtime.Modules.{
  initialized, initializing, uninitialized, compiled, nil, value, cycle, init_failed, Registry,
  loaded, raised, returned, unfinished, Frame, Body, done, require, set_module_record_status,
  set_module_record_value, publish_module, finish_module, begin_module, initialize_module,
  require_record, require_static, execute,
}
use luauc.Runtime.Modules.Running.{enter, run_module}
use luauc.Runtime.Entry.{complete_entry}
use luauc.Runtime.Modules.Once.{CanRequire, require_static_twice}
use luauc.Runtime.Modules.Ranked.{IsBelow, Keeps, run_module-Keeps, loaded_stays}
use luauc.Runtime.Modules.Cycles.{require_reenters}

abbrev a_frame : Frame
a_frame = record { destination = 0; max_stack_size = 2; room = true; thread_room = true }

a_frame-CanRequire : CanRequire a_frame
a_frame-CanRequire = record { inside = omega arith; has_room = refl }

-- Module 0 returns 5; every other module requires module 0 first.
abbrev a_package : ℕ → Body
a_package zero = done (returned (5 ∷ []))
a_package (suc id) = require a_frame 0 (λ outcome. done (returned (6 ∷ [])))

-- Module 0 is the entry and requires module 1, which requires module 2.
abbrev ranked_package : ℕ → Body
ranked_package zero = require a_frame 1 (λ outcome. done (returned []))
ranked_package (suc zero) = require a_frame 2 (λ outcome. done (returned (6 ∷ [])))
ranked_package (suc (suc id)) = done (returned (5 ∷ []))

abbrev a_ranking : ℕ → ℕ
a_ranking zero = 2
a_ranking (suc zero) = 1
a_ranking (suc (suc id)) = 0

a_ranking-IsBelow : (i : ℕ) → IsBelow a_ranking (a_ranking i) (ranked_package i)
a_ranking-IsBelow zero = (omega arith, λ outcome e. cc)
a_ranking-IsBelow (suc zero) = (omega arith, λ outcome e. cc)
a_ranking-IsBelow (suc (suc i)) = λ e. cc

-- The entry is running.
abbrev ranked_registry : Registry
ranked_registry =
    record { root = compiled; status = initializing; slot = nil }
    ∷ record { root = compiled; status = uninitialized; slot = nil }
    ∷ record { root = compiled; status = uninitialized; slot = nil }
    ∷ []

abbrev ranked_loaded : Registry
ranked_loaded =
    record { root = compiled; status = initializing; slot = nil }
    ∷ record { root = compiled; status = initialized; slot = value 6 }
    ∷ record { root = compiled; status = initialized; slot = value 5 }
    ∷ []

ranked_require :
    require_static (run_module true 0 ranked_package 3) a_frame ranked_registry 1
    ≡ (ranked_loaded, loaded (value 6))
unfolding require_static require_record initialize_module begin_module finish_module publish_module
    set_module_record_status set_module_record_value run_module execute enter complete_entry
ranked_require = refl

-- Two modules, of which the second is running.
abbrev a_registry : Registry
a_registry =
    record { root = compiled; status = uninitialized; slot = nil }
    ∷ record { root = compiled; status = initializing; slot = nil }
    ∷ []

abbrev loaded_registry : Registry
loaded_registry =
    record { root = compiled; status = initialized; slot = value 5 }
    ∷ record { root = compiled; status = initializing; slot = nil }
    ∷ []

first_require :
    require_static (run_module true 1 a_package 2) a_frame a_registry 0
    ≡ (loaded_registry, loaded (value 5))
unfolding require_static require_record initialize_module begin_module finish_module publish_module
    set_module_record_status set_module_record_value run_module execute enter complete_entry
first_require = refl

require_static_twice_example :
    require_static (run_module true 1 a_package 0) a_frame loaded_registry 0
    ≡ (loaded_registry, loaded (value 5))
require_static_twice_example =
    require_static_twice (run_module true 1 a_package 2) (run_module true 1 a_package 0) a_frame
      a_frame a_registry loaded_registry 0 (value 5) a_frame-CanRequire first_require

require_reenters_example :
    (second third : Registry) × (require_static (run_module true 1 a_package 2) a_frame a_registry 1
      ≡ (second, raised (init_failed 1 cycle)))
    × (require_static (run_module true 1 a_package 2) a_frame second 1
        ≡ (third, raised (init_failed 1 cycle)))
    × (require_static (run_module true 1 a_package 2) a_frame third 1
        ≡ finish_module 1 (run_module true 1 a_package 2 (begin_module third 1) 1))
require_reenters_example =
    require_reenters (run_module true 1 a_package 2) a_frame a_registry 1 a_frame-CanRequire refl
      refl refl

run_module-Keeps_example :
    Keeps a_ranking 1 ranked_registry (run_module true 0 ranked_package 2 ranked_registry 1).0
    × ((run_module true 0 ranked_package 2 ranked_registry 1).1 ≢ unfinished)
run_module-Keeps_example =
    run_module-Keeps true 0 a_ranking ranked_package 2 ranked_registry 1 a_ranking-IsBelow
      (omega arith) (omega arith) (λ e. absurd (omega (arith, e)))

loaded_stays_example :
    require_static
      (run_module true 0 ranked_package 3)
      a_frame
      (execute (run_module true 0 ranked_package 3) (ranked_package 0) ranked_loaded).0
      1
    ≡ (
      (execute (run_module true 0 ranked_package 3) (ranked_package 0) ranked_loaded).0,
      loaded (value 6),
    )
loaded_stays_example =
    loaded_stays true 0 a_ranking ranked_package 3 2 a_frame a_frame ranked_registry ranked_loaded 1
      (value 6) (ranked_package 0) a_ranking-IsBelow (a_ranking-IsBelow 0) (omega arith)
      (omega arith) a_frame-CanRequire ranked_require
