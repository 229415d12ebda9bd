-- ===== src/Runtime/Modules/Ranked.antt =====
-- Packages whose requires have no cycle: the code of a module requires modules of lower rank only.
use luauc.Prelude.{
  ℕ, zero, suc, ◌≤◌, ◌<◌, ◌≡◌, ◌≢◌, ◌⊎◌, inl, inr, refl, ap, ◌∙◌, Bool, false, ◌==◌, [], ◌∷◌, arith,
  leb, Bool-cases, Option-cases, get_elem?, length, get_elem?-lt,
}
use luauc.Runtime.Modules.{
  Status, initialized, initializing, uninitialized, failed, Root, no_closure, invalid, compiled,
  Slot, nil, value, text, cycle, no_thread_stack, Registry, Outcome, loaded, raised, stuck,
  Completion, returned, error, suspended, unfinished, Frame, Body, done, require, record_at,
  ModuleRecord, raise_cached_module_failure, cache_and_raise_module_failure, fail_module,
  publish_module, finish_module, begin_module, initialize_module, require_record, require_static,
  execute, is_failed, is_initializing, set_module_record_status, failure_text,
}
use luauc.Runtime.Modules.Running.{enter, run_module}
use luauc.Runtime.Entry.{complete_entry}
use luauc.Runtime.Modules.Records.{
  stored, length-stored, record_at-stored, record_at-stored_ne, record_at-set_status_ne,
  length-set_status,
}
use luauc.Runtime.Modules.Once.{CanRequire, require_static-Holds, Holds-require_static}

-- Code that requires only modules of rank below `n`, and comes to an end. A rank is any number
-- given to each module id; the ids themselves need not be in the order of the requires.
abbrev pub IsBelow : (ℕ → ℕ) → ℕ → Body → Type 0
IsBelow rank n (done completion) = completion ≢ unfinished
IsBelow rank n (require frame id next) =
    (rank id < n) × ((outcome : Outcome) → IsBelow rank n (next outcome))

-- What such code leaves of the registry: every record of rank `n` or more, and every module that is
-- initialized.
pub record Keeps (rank : ℕ → ℕ) (n : ℕ) (before after : Registry) : Type 0 where
  pub same_length : length after ≡ length before
  pub above : (i : ℕ) → n ≤ rank i → record_at after i ≡ record_at before i
  pub settled :
      (i : ℕ) → (record_at before i).status ≡ initialized → record_at after i ≡ record_at before i

Keeps-refl : (rank : ℕ → ℕ) (n : ℕ) (registry : Registry) → Keeps rank n registry registry
Keeps-refl rank n registry = record {
  same_length = refl;
  above = λ i l. refl;
  settled = λ i h. refl;
}

Keeps-trans :
    {rank : ℕ → ℕ} {n : ℕ} {a b c : Registry}
    → Keeps rank n a b
    → Keeps rank n b c
    → Keeps rank n a c
Keeps-trans p q = record {
  same_length = q.same_length ∙ p.same_length;
  above = λ i l. q.above i l ∙ p.above i l;
  settled =
      λ i h. q.settled i (ap (λ (r : ModuleRecord). r.status) (p.settled i h) ∙ h) ∙ p.settled i h;
}

Keeps-widen :
    {rank : ℕ → ℕ} (m n : ℕ) {a b : Registry} → m ≤ n → Keeps rank m a b → Keeps rank n a b
Keeps-widen m n l k = record {
  same_length = k.same_length;
  above = λ i h. k.above i (omega arith);
  settled = k.settled;
}

-- Writes to a record below `n` that is not initialized.
module _ (rank : ℕ → ℕ) (n id : ℕ) (registry : Registry) (below : rank id < n)
    (open' : (record_at registry id).status ≢ initialized) where
  other : (i : ℕ) → (n ≤ rank i) ⊎ ((record_at registry i).status ≡ initialized) → id ≢ i
  other i (inl l) e = absurd (omega (arith, ap rank e))
  other i (inr h) e = open' (ap (λ (j : ℕ). (record_at registry j).status) e ∙ h)

  stored-Keeps :
      (slot : Slot) (status : Status) → Keeps rank n registry (stored registry id slot status)
  stored-Keeps slot status = record {
    same_length = length-stored registry id slot status;
    above = λ i l. record_at-stored_ne registry id slot status i (other i (inl l));
    settled = λ i h. record_at-stored_ne registry id slot status i (other i (inr h));
  }

  set_status-Keeps :
      (status : Status) → Keeps rank n registry (set_module_record_status registry id status)
  set_status-Keeps status = record {
    same_length = length-set_status registry id status;
    above = λ i l. record_at-set_status_ne registry id status i (other i (inl l));
    settled = λ i h. record_at-set_status_ne registry id status i (other i (inr h));
  }

  fail_module-Keeps :
      (completion : Completion)
      → Keeps rank n registry (fail_module registry id completion).0
        × ((fail_module registry id completion).1 ≢ stuck)
  unfolding fail_module cache_and_raise_module_failure raise_cached_module_failure
  fail_module-Keeps completion = elim (Bool-cases (is_failed (record_at registry id).status)) [
    | inl e ↦ rw e (set_status-Keeps uninitialized, λ q. cc)
    | inr e ↦
        rw e (unfold stored in stored-Keeps (text (failure_text completion)) uninitialized, λ q. cc)
  ]

  publish_module-Keeps :
      (result : ℕ)
      → Keeps rank n registry (publish_module registry id result).0
        × ((publish_module registry id result).1 ≢ stuck)
  unfolding publish_module raise_cached_module_failure
  publish_module-Keeps result = elim (Bool-cases (is_failed (record_at registry id).status)) [
    | inl e ↦ rw e (set_status-Keeps uninitialized, λ q. cc)
    | inr e ↦ elim (Bool-cases (is_initializing (record_at registry id).status)) [
      | inl a ↦ rw (e, a) (unfold stored in stored-Keeps (value result) initialized, λ q. cc)
      | inr a ↦ rw (e, a) (Keeps-refl rank n registry, λ q. cc)
    ]
  ]

  finish_module-Keeps :
      (completion : Completion)
      → completion ≢ unfinished
      → Keeps rank n registry (finish_module id (registry, completion)).0
        × ((finish_module id (registry, completion)).1 ≢ stuck)
  unfolding finish_module
  finish_module-Keeps (returned []) h = fail_module-Keeps (returned [])
  finish_module-Keeps (returned (a ∷ [])) h = publish_module-Keeps a
  finish_module-Keeps (returned (a ∷ b ∷ more)) h = fail_module-Keeps (returned (a ∷ b ∷ more))
  finish_module-Keeps (error e) h = fail_module-Keeps (error e)
  finish_module-Keeps suspended h = fail_module-Keeps suspended
  finish_module-Keeps unfinished h = absurd (h refl)

module _ (run : Registry → ℕ → Registry × Completion) (rank : ℕ → ℕ) (n : ℕ)
    (runs : (registry : Registry) (id : ℕ)
      → rank id < n
      → Keeps rank (rank id) registry (run registry id).0
        × ((run registry id).1 ≢ unfinished)) where
  begun-Keeps :
      (registry : Registry) (id : ℕ)
      → rank id < n
      → id < length registry
      → (record_at registry id).status ≡ uninitialized
      → Keeps rank n registry (finish_module id (run (begin_module registry id) id)).0
        × ((finish_module id (run (begin_module registry id) id)).1 ≢ stuck)
  unfolding begin_module
  begun-Keeps registry id below l fresh =
      let begun = stored registry id nil initializing in
      let (kept, ended) = runs begun id below in
      let active : (record_at (run begun id).0 id).status ≡ initializing =
        ap (λ (r : ModuleRecord). r.status)
          (kept.above id (omega arith) ∙ record_at-stored registry id nil initializing l) in
      let (finished, out) =
        finish_module-Keeps rank n id (run begun id).0 below (λ q. cc) (run begun id).1 ended in
      unfold stored in
      (
        Keeps-trans (stored-Keeps rank n id registry below (λ q. cc) nil initializing)
            (Keeps-trans (Keeps-widen (rank id) n (omega arith) kept) finished),
        out,
      )

  no_room-Keeps :
      (registry : Registry) (id : ℕ)
      → rank id < n
      → id < length registry
      → (record_at registry id).status ≡ uninitialized
      → Keeps rank n registry
          (cache_and_raise_module_failure (begin_module registry id) id no_thread_stack false).0
        × ((cache_and_raise_module_failure (begin_module registry id) id no_thread_stack false).1
            ≢ stuck)
  unfolding begin_module cache_and_raise_module_failure raise_cached_module_failure
  no_room-Keeps registry id below l fresh =
      let begun = stored registry id nil initializing in
      let active : (record_at begun id).status ≡ initializing =
        ap (λ (r : ModuleRecord). r.status) (record_at-stored registry id nil initializing l) in
      unfold stored in
      (
        Keeps-trans (stored-Keeps rank n id registry below (λ q. cc) nil initializing)
            (stored-Keeps rank n id begun below (λ q. cc) (text no_thread_stack) uninitialized),
        λ q. cc,
      )

  initialize_module-Keeps :
      (frame : Frame) (registry : Registry) (id : ℕ)
      → rank id < n
      → id < length registry
      → (record_at registry id).status ≡ uninitialized
      → Keeps rank n registry (initialize_module run frame registry id).0
        × ((initialize_module run frame registry id).1 ≢ stuck)
  unfolding initialize_module
  initialize_module-Keeps frame registry id below l fresh =
      by_root (record_at registry id).root refl
    where
      by_root :
          (r : Root)
          → (record_at registry id).root ≡ r
          → Keeps rank n registry (initialize_module run frame registry id).0
            × ((initialize_module run frame registry id).1 ≢ stuck)
      by_root no_closure e = rw (e, initialize_module) (Keeps-refl rank n registry, λ q. cc)
      by_root invalid e = rw (e, initialize_module) (Keeps-refl rank n registry, λ q. cc)
      by_root compiled e = elim (Bool-cases frame.thread_room) [
        | inl r ↦ rw (e, initialize_module) (rw r (begun-Keeps registry id below l fresh))
        | inr r ↦ rw (e, initialize_module) (rw r (no_room-Keeps registry id below l fresh))
      ]

  require_record-Keeps :
      (frame : Frame) (registry : Registry) (id : ℕ)
      → rank id < n
      → id < length registry
      → Keeps rank n registry (require_record run frame registry id).0
        × ((require_record run frame registry id).1 ≢ stuck)
  unfolding require_record
  require_record-Keeps frame registry id below l = by_status (record_at registry id).status refl
    where
      by_status :
          (s : Status)
          → (record_at registry id).status ≡ s
          → Keeps rank n registry (require_record run frame registry id).0
            × ((require_record run frame registry id).1 ≢ stuck)
      by_status initialized e = rw (e, require_record) (Keeps-refl rank n registry, λ q. cc)
      by_status uninitialized e =
          rw (e, require_record) (initialize_module-Keeps frame registry id below l e)
      by_status failed e =
          rw (e, require_record)
            (unfold raise_cached_module_failure in
              (set_status-Keeps rank n id registry below (λ q. cc) uninitialized, λ q. cc))
      by_status initializing e =
          rw (e, require_record)
            (unfold cache_and_raise_module_failure raise_cached_module_failure stored in
              (stored-Keeps rank n id registry below (λ q. cc) (text cycle) failed, λ q. cc))

  require_static-Keeps :
      (frame : Frame) (registry : Registry) (id : ℕ)
      → rank id < n
      → Keeps rank n registry (require_static run frame registry id).0
        × ((require_static run frame registry id).1 ≢ stuck)
  unfolding require_static
  require_static-Keeps frame registry id below =
      elim (Bool-cases (leb frame.max_stack_size frame.destination)) [
        | inl e ↦ rw e (Keeps-refl rank n registry, λ q. cc)
        | inr e ↦ elim (Bool-cases frame.room) [
          | inr r ↦ rw (e, r) (Keeps-refl rank n registry, λ q. cc)
          | inl r ↦ elim (Option-cases (get_elem? registry id)) [
            | inl g ↦ rw (e, r, g) (Keeps-refl rank n registry, λ q. cc)
            | inr (record', g) ↦
                rw (e, r, g)
                  (require_record-Keeps frame registry id below (get_elem?-lt registry id g))
          ]
        ]
      ]

  execute-Keeps :
      (body : Body) (registry : Registry)
      → IsBelow rank n body
      → Keeps rank n registry (execute run body registry).0
        × ((execute run body registry).1 ≢ unfinished)
  unfolding execute
  execute-Keeps (done completion) registry h = (Keeps-refl rank n registry, h)
  execute-Keeps (require frame id next) registry (below, rest) =
      let (kept, out) = require_static-Keeps frame registry id below in
      go kept out (λ outcome registry'. execute-Keeps (next outcome) registry' (rest outcome))
        (require_static run frame registry id).1 refl
    where
      go :
          Keeps rank n registry (require_static run frame registry id).0
          → ((require_static run frame registry id).1 ≢ stuck)
          → ((outcome : Outcome) (registry' : Registry)
              → Keeps rank n registry' (execute run (next outcome) registry').0
                × ((execute run (next outcome) registry').1 ≢ unfinished))
          → (outcome : Outcome) → (require_static run frame registry id).1 ≡ outcome
          → Keeps rank n registry (execute run (require frame id next) registry).0
            × ((execute run (require frame id next) registry).1 ≢ unfinished)
      go kept out ih (loaded slot) e =
          let (k, u) = ih (loaded slot) (require_static run frame registry id).0 in
          rw (e, execute) (Keeps-trans kept k, u)
      go kept out ih (raised message) e =
          let (k, u) = ih (raised message) (require_static run frame registry id).0 in
          rw (e, execute) (Keeps-trans kept k, u)
      go kept out ih stuck e = absurd (out e)

module _ (room : Bool) (entry : ℕ) where
  enter_other :
      (registry : Registry) (id : ℕ) (completion : Completion)
      → id ≢ entry
      → enter room entry registry id completion ≡ (registry, completion)
  unfolding enter complete_entry
  enter_other registry id (returned results) other =
      let e : (id == entry) ≡ false = ground (arith, other) in rw e refl
  enter_other registry id (error message) other = refl
  enter_other registry id suspended other = refl
  enter_other registry id unfinished other = refl

  -- Where a package has no cycle, that is where each module has a rank, whatever its id, and the
  -- code of every module requires only modules of lower rank and comes to an end, running a module
  -- other than the entry, of no higher rank than the entry, ends: it needs no more nested runs than
  -- its rank. It leaves the records of every module of its own rank or a higher one as they are,
  -- and every module that was initialized before stays so, with its value.
  pub run_module-Keeps :
      (rank : ℕ → ℕ) (code : ℕ → Body) (fuel : ℕ) (registry : Registry) (id : ℕ)
      → ((i : ℕ) → IsBelow rank (rank i) (code i))
      → rank id < fuel
      → rank id ≤ rank entry
      → id ≢ entry
      → Keeps rank (rank id) registry (run_module room entry code fuel registry id).0
        × ((run_module room entry code fuel registry id).1 ≢ unfinished)
  unfolding run_module
  run_module-Keeps rank code zero registry id ranked l m other = absurd (omega arith)
  run_module-Keeps rank code (suc fuel) registry id ranked l m other =
      let run = run_module room entry code fuel in
      rw
        (enter_other (execute run (code id) registry).0 id (execute run (code id) registry).1 other)
        (execute-Keeps run rank (rank id)
          (λ registry' i below.
            run_module-Keeps rank code fuel registry' i ranked (omega arith) (omega arith)
              (λ e. absurd (omega (arith, ap rank e))))
          (code id) registry (ranked id))

  -- Where each module has a rank, whatever its id, and the code of every module requires only
  -- modules of lower rank and comes to an end, a value that a require gave stays the module's
  -- value: after any more code that requires only modules of rank below a bound, which is within
  -- the fuel and not above the entry's rank, has run, a require of the module, from a frame that
  -- can require, gives it again and changes nothing. The entry's own code is such code.
  pub loaded_stays :
      (rank : ℕ → ℕ) (code : ℕ → Body) (fuel n : ℕ) (frame frame' : Frame)
      (registry registry' : Registry) (id : ℕ) (slot : Slot) (body : Body)
      → ((i : ℕ) → IsBelow rank (rank i) (code i))
      → IsBelow rank n body
      → n ≤ fuel
      → n ≤ rank entry
      → CanRequire frame'
      → require_static (run_module room entry code fuel) frame registry id
        ≡ (registry', loaded slot)
      → require_static
          (run_module room entry code fuel)
          frame'
          (execute (run_module room entry code fuel) body registry').0
          id
        ≡ ((execute (run_module room entry code fuel) body registry').0, loaded slot)
  loaded_stays rank code fuel n frame frame' registry registry' id slot body ranked below enough top
        can h =
      let run = run_module room entry code fuel in
      let holds = require_static-Holds run frame registry id registry' slot h in
      let (kept, _) =
        execute-Keeps run rank n
          (λ r i l.
            run_module-Keeps rank code fuel r i ranked (omega arith) (omega arith)
              (λ e. absurd (omega (arith, ap rank e))))
          body registry' below in
      let same = kept.settled id holds.ready in
      Holds-require_static run frame' (execute run body registry').0 id slot can (record {
        known = omega (arith, kept.same_length, holds.known);
        ready = ap (λ (r : ModuleRecord). r.status) same ∙ holds.ready;
        held = ap (λ (r : ModuleRecord). r.slot) same ∙ holds.held;
      })
