-- ===== src/Frontend/Liveness/Run.antt =====
-- `Analysis::run` and the two entry points in frontend/package_liveness.h. Luau's parser and the order
-- of its visitor are parameters.
use luauc.Prelude.{
  ℕ, zero, suc, ◌+◌, ◌-◌, Bool, true, false, ◌||◌, Option, none, some, List, [], ◌∷◌, ◌++◌, map,
  ltb, leb, if◌then◌else◌, get_or, length, String,
}
use luauc.Frontend.Liveness.Syntax.{Function, a_function, Stat}
use luauc.Frontend.Liveness.State.{
  Value, unknown_value, no_value, Analysis, M, ◌>>◌, skip, object_at, merge_local, merge_locals,
  merge_varargs, escape, activate,
}
use luauc.Frontend.Liveness.Exec.{statement}
use luauc.Frontend.Liveness.Collect.{Visit, collect}
use luauc.Frontend.Liveness.Rewrite.{rewrite_sources}

-- A name and the bytes of a source.
pub record Source : Type 0 where
  pub name : String
  pub source : List ℕ

abbrev pub size_limit : ℕ
size_limit = 8388608

abbrev pub iteration_limit : ℕ
iteration_limit = 256

abbrev pub no_analysis : Analysis
no_analysis = record {
  objects = [];
  identities = [];
  locals = λ local. no_value;
  initializers = [];
  assigned = [];
  module_names = [];
  module_returns = [];
  module_gotos = [];
  changed = false;
  disabled = false;
  current_module = 0;
  current_function = none;
  operations = 0;
}

unfoldable pub sizes_fit : List Source → ℕ → Bool
sizes_fit [] total = true
sizes_fit (s ∷ sources) total =
    let rest = sizes_fit sources (total + length s.source) in
    if ltb (size_limit - total) (length s.source) then false else rest

unfoldable pub escape_fields : List (String × Value) → M (Unit {0})
escape_fields [] = skip
escape_fields ((key, value) ∷ rest) = escape value >> escape_fields rest

unfoldable pub merge_self : Option ℕ → M (Unit {0})
merge_self none = skip
merge_self (some self) = merge_local self unknown_value

-- An escaped function may be called with anything and its results go anywhere; so may an escaped
-- table's fields.
unfoldable pub spread_escape : ℕ → Option Function → M (Unit {0})
spread_escape identity (some (a_function self params vararg native location body)) s =
    (activate identity
        >> (merge_self self
            >> (merge_locals params unknown_value
                >> (merge_varargs identity unknown_value
                    >> (λ s'. escape (object_at s' identity).returns s')))))
      s
spread_escape identity none s =
    (escape_fields (object_at s identity).fields
        >> (λ s'. escape (object_at s' identity).unknown_fields s'))
      s

unfoldable pub run_body : ℕ → Option Function → M (Unit {0})
run_body identity none s = (tt, s)
run_body identity (some (a_function self params vararg native location body)) s =
    statement body (record s {
      current_function = some identity;
      current_module = (object_at s identity).module';
    })

unfoldable pub object_step : ℕ → M (Unit {0})
object_step identity s =
    let object = object_at s identity in
    let spread = (if object.escaped then spread_escape identity object.function s else (tt, s)).1 in
    if (object_at spread identity).active
    then run_body identity (object_at spread identity).function spread
    else (tt, spread)

unfoldable pub object_steps : ℕ → ℕ → M (Unit {0})
object_steps zero identity = skip
object_steps (suc count) identity = object_step identity >> object_steps count (suc identity)

pub module_steps : List Stat → ℕ → M (Unit {0})
module_steps [] index s = (tt, record s { current_module = index })
module_steps (root ∷ roots) index s =
    (statement root >> module_steps roots (suc index)) (record s { current_module = index })

-- One iteration of the loop.
unfoldable pub iteration : List Stat → ℕ → Analysis → Analysis
iteration roots entry s =
    let walked = (module_steps roots 0 (record s { changed = false; current_function = none })).1 in
    let returned = (escape (get_or walked.module_returns entry no_value) walked).1 in
    (object_steps (length returned.objects) 0 returned).1

-- The loop ends with a state to rewrite from, or without one: the pass is disabled or out of iterations.
unfoldable pub iterate : ℕ → List Stat → ℕ → Analysis → Option Analysis
iterate zero roots entry s = none
iterate (suc fuel) roots entry s =
    let next = iteration roots entry s in
    let rest = iterate fuel roots entry next in
    if next.disabled then none else (if next.changed then rest else some next)

unfoldable pub finish_run : (ℕ → Bool) → List Source → Option Analysis → List (Option (List ℕ))
finish_run allocated sources none = map (λ source. none) sources
finish_run allocated sources (some s) =
    rewrite_sources allocated (map (λ source. source.source) sources) s

module _ (parse : ℕ → List ℕ → Option Stat) (visits : Stat → List Visit)
    (allocated : ℕ → Bool) where
  -- The state that a parsed module adds to.
  abbrev add_module : ℕ → Source → Stat → Analysis → Analysis
  add_module index source root s = collect index (visits root) (record s {
    module_names = s.module_names ++ ((source.name, index) ∷ []);
    module_returns = s.module_returns ++ (no_value ∷ []);
    module_gotos = s.module_gotos ++ (false ∷ []);
  })

  unfoldable pub parse_modules : List Source → ℕ → Option (List Stat)
  parse_modules [] index = some []
  parse_modules (source ∷ sources) index =
      with_root (parse index source.source) (parse_modules sources (suc index))
    where
      with_root : Option Stat → Option (List Stat) → Option (List Stat)
      with_root (some root) (some roots) = some (root ∷ roots)
      with_root (some root) none = none
      with_root none roots = none

  unfoldable pub add_modules : List Source → List Stat → ℕ → Analysis → Analysis
  add_modules (source ∷ sources) (root ∷ roots) index s =
      add_modules sources roots (suc index) (add_module index source root s)
  add_modules (source ∷ sources) [] index s = s
  add_modules [] roots index s = s

  unfoldable pub analyse : List Source → ℕ → Option (List Stat) → Option Analysis
  analyse sources entry none = none
  analyse sources entry (some roots) =
      iterate iteration_limit roots entry (add_modules sources roots 0 no_analysis)

  -- The rewritten text of each source that has one.
  unfoldable pub prune_package : List Source → ℕ → List (Option (List ℕ))
  prune_package sources entry =
      if leb (length sources) entry || (if sizes_fit sources 0 then false else true)
      then finish_run allocated sources none
      else finish_run allocated sources (analyse sources entry (parse_modules sources 0))

-- `luauc_frontend_free_pruned`
unfoldable pub free_pruned : List (Option (List ℕ)) → List (Option (List ℕ))
free_pruned [] = []
free_pruned (r ∷ rest) = none ∷ free_pruned rest
