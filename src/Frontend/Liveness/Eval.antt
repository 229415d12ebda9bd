-- ===== src/Frontend/Liveness/Eval.antt =====
-- `eval`, `call`, `assign` and `statement` of `Analysis` in frontend/package_liveness.h.
use luauc.Prelude.{
  ℕ, ◌+◌, Bool, true, false, ◌&&◌, ◌||◌, Option, none, some, List, [], ◌∷◌, ◌++◌, ltb,
  if◌then◌else◌, get_or, String, str_eq,
}
use luauc.Frontend.Liveness.Syntax.{
  Expr, absent, local_ref, global, function, table, index_name, index_expr, call, group,
  type_assertion, instantiate, and_or, binary, length_of, unary, if_else, interpolated, varargs,
  constant_string, constant, other, Exprs, none_left, then_expr, Items, no_items, keyed, positional,
  Function, a_function,
}
use luauc.Frontend.Liveness.State.{
  Value, unknown_value, no_value, Analysis, M, ◌>>=◌, ◌>>◌, pure, skip, unite, object_at, disable,
  merge_local, merge_varargs, identity_of, observe, escape, escape_values, activate, field, store,
  store_unknown,
}

abbrev pub operation_limit : ℕ
operation_limit = 20000000

-- The checks that `eval` and `statement` start with.
unfoldable pub guarded : {A : Type 0} → A → M A → M A
guarded stopped run s =
    let counted = record s { operations = s.operations + 1 } in
    if s.disabled
    then (stopped, s)
    else (if ltb operation_limit counted.operations
        then (stopped, record counted { disabled = true })
        else run counted)

-- The result where the pass gives up.
unfoldable pub give_up : M Value
give_up s = (unknown_value, record s { disabled = true })

unfoldable pub constant_key : Expr → Option String
constant_key (constant_string key) = some key
constant_key _ = none

unfoldable pub is_open_ended : Expr → Bool
is_open_ended (call _ _ _) = true
is_open_ended varargs = true
is_open_ended _ = false

-- The test on the last of the arguments, or of the values: it may give more than one.
unfoldable pub is_multiple : Exprs → Bool
is_multiple none_left = false
is_multiple (then_expr e none_left) = is_open_ended e
is_multiple (then_expr e (then_expr e' rest)) = is_multiple (then_expr e' rest)

unfoldable pub reflects : String → Bool
reflects name = str_eq name "getfenv" || str_eq name "setfenv" || str_eq name "loadstring"

abbrev pub back : List Value → Value
back [] = no_value
back (v ∷ []) = v
back (v ∷ w ∷ vs) = back (w ∷ vs)

-- The parameters take the arguments from the first on, then the last one where it may give more.
unfoldable pub bind_params : List ℕ → List Value → Bool → Value → M (Unit {0})
bind_params [] args multiple last = skip
bind_params (p ∷ ps) (a ∷ more) multiple last = merge_local p a >> bind_params ps more multiple last
bind_params (p ∷ ps) [] multiple last =
    (if multiple then merge_local p last else skip) >> bind_params ps [] multiple last

unfoldable pub drop_params : List ℕ → List Value → List Value
drop_params [] args = args
drop_params (p ∷ ps) [] = []
drop_params (p ∷ ps) (a ∷ more) = drop_params ps more

unfoldable pub self_and_params : Option ℕ → List ℕ → List ℕ
self_and_params none params = params
self_and_params (some self) params = self ∷ params

unfoldable pub bind_self : Option ℕ → List Value → M (Unit {0})
bind_self (some self) (a ∷ more) = merge_local self a
bind_self (some self) [] = skip
bind_self none args = skip

unfoldable pub after_self : Option ℕ → List Value → List Value
after_self (some self) (a ∷ more) = more
after_self (some self) [] = []
after_self none args = args

unfoldable pub merge_rest : ℕ → List Value → M (Unit {0})
merge_rest identity [] = skip
merge_rest identity (v ∷ vs) = merge_varargs identity v >> merge_rest identity vs

-- The arguments flow into the parameters of the function.
unfoldable pub pass_arguments : ℕ → Function → List Value → Bool → M (Unit {0})
pass_arguments identity (a_function self params vararg native location body) args multiple = do
  bind_self self args
  bind_params params (after_self self args) multiple (back args)
  if vararg then merge_rest identity (drop_params params (after_self self args)) else skip
  if vararg && multiple then merge_varargs identity (back args) else skip

-- What a call does with one of the objects that its function may be.
unfoldable pub call_target : ℕ → Option Function → List Value → Bool → Value → M Value
call_target identity none args multiple result = do
  escape (record { unknown = false; objects = identity ∷ [] })
  escape_values args
  pure (record result { unknown = true })
call_target identity (some f) args multiple result = do
  activate identity
  pass_arguments identity f args multiple
  λ s. ((unite result (object_at s identity).returns).0, s)

unfoldable pub call_targets : List ℕ → List Value → Bool → Value → M Value
call_targets [] args multiple result s = (result, s)
call_targets (identity ∷ rest) args multiple result s =
    (call_target identity (object_at s identity).function args multiple result
        >>= call_targets rest args multiple)
      s

-- The call of a value with the arguments' values.
unfoldable pub call_value : Value → List Value → Bool → M Value
call_value f args multiple = do
  if f.unknown then escape_values args else skip
  call_targets f.objects args multiple (record { unknown = f.unknown; objects = [] })

unfoldable pub find_name : String → List (String × ℕ) → Option ℕ
find_name name [] = none
find_name name ((n, index) ∷ rest) = if str_eq n name then some index else find_name name rest

unfoldable pub returns_of : Option ℕ → Analysis → Value
returns_of none s = unknown_value
returns_of (some index) s = get_or s.module_returns index no_value

-- A call of the global `require`.
unfoldable pub call_require : Exprs → M Value
call_require (then_expr (constant_string name) none_left) s =
    (returns_of (find_name name s.module_names) s, s)
call_require _ s = give_up s

-- The global that is called, where it is one that `call` tests for.
pub data Special : Type 0 where
  requires : Special
  gives_access : Special
  ordinary : Special

unfoldable pub special : Expr → Special
special (global name) =
    if str_eq name "require" then requires else (if reflects name then gives_access else ordinary)
special _ = ordinary

unfoldable pub unite_fields : List (String × Value) → Value → Value
unite_fields [] result = result
unite_fields ((key, value) ∷ rest) result = unite_fields rest (unite result value).0

-- The union of all fields of some objects, for an index that is not a constant.
unfoldable pub all_fields : List ℕ → Value → M Value
all_fields [] result s = (result, s)
all_fields (identity ∷ rest) result s =
    let object = object_at s identity in
    all_fields rest (unite (unite_fields object.fields result) object.unknown_fields).0 s

unfoldable pub current_varargs : Option ℕ → Analysis → Value
current_varargs none s = unknown_value
current_varargs (some identity) s = (object_at s identity).varargs

unfoldable pub key_field : Option String → Value → M Value → M Value
key_field (some key) base otherwise = field base key
key_field none base otherwise = otherwise

unfoldable pub key_store : Option String → Value → Value → M (Unit {0}) → M (Unit {0})
key_store (some key) base value otherwise = store base key value
key_store none base value otherwise = otherwise

unfoldable pub dispatch : Special → Exprs → M Value → M Value
dispatch requires args ordinary_call = call_require args
dispatch gives_access args ordinary_call = disable >> ordinary_call
dispatch ordinary args ordinary_call = ordinary_call

-- The arguments are evaluated after the receiver, where there is one.
unfoldable pub call_with : Value → Option (List Value) → M (List Value) → Bool → M Value
call_with f none args multiple = pure unknown_value
call_with f (some first) args multiple =
    args >>= (λ values. call_value f (first ++ values) multiple)

unfoldable mutual
  pub eval : Expr → M Value
  eval absent = give_up
  eval (local_ref local) = guarded unknown_value (λ s. (s.locals local, s))
  eval (global name) =
      guarded unknown_value
        ((if str_eq name "require" || reflects name then disable else skip) >> pure unknown_value)
  eval (function node f) = guarded unknown_value (identity_of node)
  eval (table node items) =
      guarded unknown_value
        (identity_of node >>= (λ result. eval_items items result >> pure result))
  eval (index_name base key) = guarded unknown_value (eval base >>= (λ value. field value key))
  eval (index_expr base index) = guarded unknown_value (
      eval base >>= (λ value.
        key_field (constant_key index) value
          (escape value >> (eval index >>= escape) >> all_fields value.objects unknown_value)))
  eval (call f args self) = guarded unknown_value (
      dispatch (special f) args (
        eval f >>= (λ value.
          (if self then eval_receiver f else pure (some []))
          >>= (λ first. call_with value first (eval_all args) (is_multiple args)))))
  eval (group e) = guarded unknown_value (eval e)
  eval (type_assertion e) = guarded unknown_value (eval e)
  eval (instantiate e) = guarded unknown_value (eval e)
  eval (and_or left right) =
      guarded unknown_value (eval left >>= (λ l. eval right >>= (λ r. pure (unite l r).0)))
  eval (binary left right) =
      guarded unknown_value
        (eval left >>= (λ l. eval right >>= (λ r. observe l >> observe r >> pure unknown_value)))
  eval (length_of e) = guarded unknown_value ((eval e >>= escape) >> pure unknown_value)
  eval (unary e) = guarded unknown_value ((eval e >>= observe) >> pure unknown_value)
  eval (if_else condition first second) = guarded unknown_value (
      (eval condition >>= observe)
      >> (eval first >>= (λ a. eval second >>= (λ b. pure (unite a b).0))))
  eval (interpolated parts) = guarded unknown_value (escape_parts parts >> pure no_value)
  eval varargs = guarded unknown_value (λ s. (current_varargs s.current_function s, s))
  eval (constant_string text) = guarded unknown_value (pure no_value)
  eval constant = guarded unknown_value (pure no_value)
  eval other = guarded unknown_value give_up

  -- A call with `self` evaluates the receiver once more, as the first argument.
  eval_receiver : Expr → M (Option (List Value))
  eval_receiver (index_name base key) = eval base >>= (λ receiver. pure (some (receiver ∷ [])))
  eval_receiver _ = disable >> pure none

  pub eval_all : Exprs → M (List Value)
  eval_all none_left = pure []
  eval_all (then_expr e rest) = eval e >>= (λ v. eval_all rest >>= (λ vs. pure (v ∷ vs)))

  escape_parts : Exprs → M (Unit {0})
  escape_parts none_left = skip
  escape_parts (then_expr e rest) = (eval e >>= escape) >> escape_parts rest

  -- The items of a table constructor are stored in the table's object.
  eval_items : Items → Value → M (Unit {0})
  eval_items no_items result = skip
  eval_items (positional value rest) result =
      (eval value >>= store_unknown result) >> eval_items rest result
  eval_items (keyed key value rest) result =
      (eval value >>= (λ v.
        key_store (constant_key key) result v ((eval key >>= escape) >> store_unknown result v)))
      >> eval_items rest result
