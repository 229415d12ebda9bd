-- ===== src/Frontend/Liveness/Collect.antt =====
-- `Collector` in frontend/package_liveness.h: what the analysis notes at each node that Luau's visitor
-- hands it. The order of the visit is the visitor's, so the nodes come as a list.
use luauc.Prelude.{
  ℕ, Bool, true, false, ◌||◌, Option, none, some, List, [], ◌∷◌, ◌++◌, ◌==◌, if◌then◌else◌, set,
  length, String, str_eq,
}
use luauc.Frontend.Liveness.Syntax.{
  Expr, local_ref, Exprs, none_left, then_expr, Function, a_function, LocalVar,
}
use luauc.Frontend.Liveness.State.{Declaration, no_object, Analysis, object_at, lookup_node}
use luauc.Frontend.Liveness.Eval.{reflects}

pub data Visit : Type 0 where
  visit_table : ℕ → Visit
  visit_function : ℕ → Function → Visit
  visit_function_stat : Expr → ℕ → Function → Declaration → Visit
  visit_local_function : ℕ → Function → Declaration → Visit
  visit_local : List LocalVar → Exprs → Visit
  visit_assign : Exprs → Visit
  visit_compound_assign : Expr → Visit
  visit_goto : Visit
  visit_global : String → Visit
  visit_type_function : Visit

unfoldable pub is_known : ℕ → List (ℕ × ℕ) → Bool
is_known node [] = false
is_known node ((n, identity) ∷ rest) = n == node || is_known node rest

unfoldable pub add : ℕ → ℕ → Option Function → Analysis → Analysis
add module' node function s = if is_known node s.identities then s else record s {
  identities = (node, length s.objects) ∷ s.identities;
  objects = s.objects ++ (record no_object { function = function; module' = module' } ∷ []);
}

unfoldable pub has_native : Function → Bool
has_native (a_function self params vararg native location body) = native

unfoldable pub note_assigned : Expr → Analysis → Analysis
note_assigned (local_ref local) s = record s { assigned = local ∷ s.assigned }
note_assigned _ s = s

unfoldable pub note_all_assigned : Exprs → Analysis → Analysis
note_all_assigned none_left s = s
note_all_assigned (then_expr target rest) s = note_all_assigned rest (note_assigned target s)

unfoldable pub declare : ℕ → Declaration → Analysis → Analysis
declare node declaration s =
    let identity = lookup_node node s.identities in
    record s {
      objects =
          set s.objects identity (record (object_at s identity) { declaration = some declaration });
    }

unfoldable pub set_initializer : ℕ → Expr → List (ℕ × Expr) → List (ℕ × Expr)
set_initializer local value [] = (local, value) ∷ []
set_initializer local value ((l, v) ∷ rest) =
    if l == local then (l, value) ∷ rest else (l, v) ∷ set_initializer local value rest

unfoldable pub note_initializers : List LocalVar → Exprs → Analysis → Analysis
note_initializers [] values s = s
note_initializers (var ∷ vars) none_left s = s
note_initializers (var ∷ vars) (then_expr value values) s =
    note_initializers vars values
      (record s { initializers = set_initializer var.local value s.initializers })

unfoldable pub visit : ℕ → Visit → Analysis → Analysis
visit module' (visit_table node) s = add module' node none s
visit module' (visit_function node f) s =
    let added = add module' node (some f) s in
    record added { disabled = added.disabled || has_native f }
visit module' (visit_function_stat name node f declaration) s =
    declare node declaration (add module' node (some f) (note_assigned name s))
visit module' (visit_local_function node f declaration) s =
    declare node declaration (add module' node (some f) s)
visit module' (visit_local vars values) s = note_initializers vars values s
visit module' (visit_assign targets) s = note_all_assigned targets s
visit module' (visit_compound_assign target) s = note_assigned target s
visit module' visit_goto s = record s { module_gotos = set s.module_gotos module' true }
visit module' (visit_global name) s = record s {
  disabled = s.disabled || (reflects name || str_eq name "_G");
}
visit module' visit_type_function s = s

unfoldable pub collect : ℕ → List Visit → Analysis → Analysis
collect module' [] s = s
collect module' (v ∷ rest) s = collect module' rest (visit module' v s)
