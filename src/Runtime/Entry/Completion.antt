-- ===== src/Runtime/Entry/Completion.antt =====
-- The entry module once it has ended, and an entry that was required while it ran.
use luauc.Prelude.{ℕ, ◌<◌, ◌≡◌, ap, true, some, List, arith, length, get_elem?-inside}
use luauc.Runtime.Modules.{
  initialized, initializing, uninitialized, failed, text, Message, cycle, init_failed, Registry,
  loaded, raised, Frame, Completion, no_record, record_at, ModuleRecord, set_module_record_status,
  raise_cached_module_failure, message_of, require_static,
}
use luauc.Runtime.Modules.Records.{stored, record_at-set_status}
use luauc.Runtime.Modules.Once.{CanRequire, known_by_status, stored-Holds, Holds-require_static}
use luauc.Runtime.Modules.Cycles.{require_active, failed_record, known_failed}
use luauc.Runtime.Entry.{
  Published, finished, stopped, module_failure, push_entry_module_record, entry_value,
  complete_record, complete_entry, with_modules,
}

-- The running proto is the entry's, and the entry is being initialized.
pub record IsRunning (published : Published) : Type 0 where
  pub root : published.has_root published.entry_id ≡ true
  pub active : (record_at published.modules published.entry_id).status ≡ initializing

entry_pushed :
    (published : Published)
    → published.has_root published.entry_id ≡ true
    → published.entry_id < length published.modules
    → push_entry_module_record (some published) ≡ some published.entry_id
unfolding push_entry_module_record
entry_pushed published root known =
    rw
      (
        push_entry_module_record,
        get_elem?-inside published.modules published.entry_id no_record known,
      )
      (ground (arith, root))

-- When the entry has ended, a require of it from any module gives its one result, or nil if it returned
-- none or several, and neither runs code nor changes the registry.
pub complete_entry_required :
    (published : Published) (results : List ℕ) (frame : Frame)
    (run : Registry → ℕ → Registry × Completion)
    → IsRunning published
    → CanRequire frame
    → (modules : Registry) × (complete_entry true true (some published) results
        ≡ (some (record published { modules = modules }), finished))
      × (require_static run frame modules published.entry_id
          ≡ (modules, loaded (entry_value results)))
complete_entry_required published results frame run running can =
    let id = published.entry_id in
    let known = known_by_status published.modules id initializing running.active (λ q. cc) in
    let after = stored published.modules id (entry_value results) initialized in
    (
      after,
      unfold complete_entry in
          rw (entry_pushed published running.root known)
            (unfold complete_record stored in ground (arith, running.active)),
      Holds-require_static run frame after id (entry_value results) can
          (stored-Holds published.modules id (entry_value results) known),
    )

-- The entry ends after its record has been marked failed.
complete_record_failed :
    (registry : Registry) (id : ℕ) (message : Message) (results : List ℕ)
    → (record_at registry id).status ≡ failed
    → (record_at registry id).slot ≡ text message
    → complete_record registry id results ≡ (
      set_module_record_status registry id uninitialized,
      stopped (module_failure (raised (init_failed id message))),
    )
unfolding complete_record raise_cached_module_failure message_of
complete_record_failed registry id message results bad cached = ground (arith, bad, cached)

-- If a module requires the entry while it runs, the require fails with the cycle error, and the entry's own
-- end then raises that error too, although its code returned, and frees the record for another attempt.
pub complete_entry_cycle :
    (published : Published) (results : List ℕ) (frame : Frame)
    (run : Registry → ℕ → Registry × Completion)
    → IsRunning published
    → CanRequire frame
    → (second third : Registry) × (require_static run frame published.modules published.entry_id
        ≡ (second, raised (init_failed published.entry_id cycle)))
      × (complete_entry true true (some (record published { modules = second })) results ≡ (
        some (record published { modules = third }),
        stopped (module_failure (raised (init_failed published.entry_id cycle))),
      ))
      × ((record_at third published.entry_id).status ≡ uninitialized)
complete_entry_cycle published results frame run running can =
    let id = published.entry_id in
    let second = stored published.modules id (text cycle) failed in
    let seen = failed_record published.modules id running.active in
    let known = known_failed published.modules id running.active in
    (
      second,
      set_module_record_status second id uninitialized,
      require_active run frame can published.modules id running.active,
      unfold complete_entry in
          rw (entry_pushed (record published { modules = second }) running.root known) (
            ap (with_modules (some published)) (
              complete_record_failed second id cycle results
                (ap (λ (r : ModuleRecord). r.status) seen)
                (ap (λ (r : ModuleRecord). r.slot) seen))),
      ap (λ (r : ModuleRecord). r.status) (record_at-set_status second id uninitialized known),
    )
