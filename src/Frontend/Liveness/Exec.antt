-- ===== src/Frontend/Liveness/Exec.antt =====
-- `assign` and `statement` of `Analysis` in frontend/package_liveness.h.
use luauc.Prelude.{ℕ, Bool, Option, none, some, List, [], ◌∷◌, if◌then◌else◌}
use luauc.Frontend.Liveness.Syntax.{
  Expr, local_ref, index_name, index_expr, Exprs, none_left, then_expr, Stat, block, local_stat,
  local_function, function_stat, assignment, compound_assignment, return_stat, expr_stat, if_stat,
  if_else_stat, while_stat, repeat_stat, for_stat, for_step_stat, for_in_stat, inert_stat,
  other_stat, Stats, no_stats, then_stat, LocalVar,
}
use luauc.Frontend.Liveness.State.{
  Value, unknown_value, no_value, M, ◌>>=◌, ◌>>◌, skip, disable, merge_local, merge_locals,
  merge_returns, merge_module_returns, identity_of, observe, escape, store, store_unknown,
}
use luauc.Frontend.Liveness.Eval.{
  guarded, constant_key, key_store, is_multiple, back, eval, eval_all,
}

unfoldable pub assign : Expr → Value → M (Unit {0})
assign (local_ref local) value = merge_local local value
assign (index_name base key) value = eval base >>= (λ target. store target key value)
assign (index_expr base index) value = eval base >>= (λ target.
    key_store (constant_key index) target value
      ((eval index >>= escape) >> store_unknown target value))
assign _ value = disable >> escape value

-- The value for a place past the last value of a list.
unfoldable pub missing_value : List Value → Bool → Value
missing_value values multiple = if multiple then back values else no_value

unfoldable pub declare_locals : List LocalVar → List Value → Value → M (Unit {0})
declare_locals [] values missing = skip
declare_locals (var ∷ vars) (value ∷ values) missing =
    merge_local var.local value
    >> ((if var.is_exported then escape value else skip) >> declare_locals vars values missing)
declare_locals (var ∷ vars) [] missing =
    merge_local var.local missing
    >> ((if var.is_exported then escape missing else skip) >> declare_locals vars [] missing)

unfoldable pub assign_all : Exprs → List Value → Value → M (Unit {0})
assign_all none_left values missing = skip
assign_all (then_expr target rest) (value ∷ values) missing =
    assign target value >> assign_all rest values missing
assign_all (then_expr target rest) [] missing = assign target missing >> assign_all rest [] missing

-- A returned value goes to the function in hand, or to the module.
unfoldable pub return_to : Value → Option ℕ → M (Unit {0})
return_to value (some identity) s = merge_returns identity value s
return_to value none s = merge_module_returns s.current_module value s

abbrev pub merge_returned : Value → M (Unit {0})
merge_returned value s = return_to value s.current_function s

unfoldable pub return_all : Exprs → M (Unit {0})
return_all none_left = skip
return_all (then_expr e rest) = (eval e >>= merge_returned) >> return_all rest

unfoldable pub escape_each : Exprs → M (Unit {0})
escape_each none_left = skip
escape_each (then_expr e rest) = (eval e >>= escape) >> escape_each rest

abbrev pub observing : Expr → M (Unit {0})
observing e = eval e >>= observe

unfoldable mutual
  pub statement : Stat → M (Unit {0})
  statement (block body) = guarded tt (statements body)
  statement (local_stat vars values) =
      guarded tt
        (eval_all values >>= (λ vs. declare_locals vars vs (missing_value vs (is_multiple values))))
  statement (local_function location name local node f) =
      guarded tt (identity_of node >>= merge_local local)
  statement (function_stat location name_location target node f) =
      guarded tt (identity_of node >>= assign target)
  statement (assignment targets values) =
      guarded tt
        (eval_all values >>= (λ vs. assign_all targets vs (missing_value vs (is_multiple values))))
  statement (compound_assignment target value) =
      guarded tt (observing target >> (observing value >> assign target unknown_value))
  statement (return_stat values) = guarded tt (return_all values)
  statement (expr_stat e) = guarded tt (observing e)
  statement (if_stat condition body) = guarded tt (observing condition >> statement body)
  statement (if_else_stat condition body otherwise) =
      guarded tt (observing condition >> (statement body >> statement otherwise))
  statement (while_stat condition body) = guarded tt (observing condition >> statement body)
  statement (repeat_stat condition body) = guarded tt (statement body >> observing condition)
  statement (for_stat first last body) =
      guarded tt (observing first >> (observing last >> statement body))
  statement (for_step_stat first last step body) =
      guarded tt (observing first >> (observing last >> (observing step >> statement body)))
  statement (for_in_stat vars values body) =
      guarded tt (escape_each values >> (merge_locals vars unknown_value >> statement body))
  statement inert_stat = guarded tt skip
  statement other_stat = guarded tt disable

  pub statements : Stats → M (Unit {0})
  statements no_stats = skip
  statements (then_stat node rest) = statement node >> statements rest
