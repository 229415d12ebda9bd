-- ===== src/Frontend/Liveness/Syntax.antt =====
-- The view of Luau's syntax tree that frontend/package_liveness.h takes: one constructor for each node
-- kind that its code tests for, with the fields it reads. A node pointer is a number where the code
-- uses it as a key, and any other kind of node is `other`.
use luauc.Prelude.{ℕ, Bool, Option, List, String}

-- `Position` and `Location`
pub record Position : Type 0 where
  pub line : ℕ
  pub column : ℕ

pub record Location : Type 0 where
  pub begin : Position
  pub end : Position

-- A local that a statement declares: its key and whether it is exported.
pub record LocalVar : Type 0 where
  pub local : ℕ
  pub is_exported : Bool

mutual
  pub data Expr : Type 0 where
    absent : Expr
    local_ref : ℕ → Expr
    global : String → Expr
    function : ℕ → Function → Expr
    table : ℕ → Items → Expr
    index_name : Expr → String → Expr
    index_expr : Expr → Expr → Expr
    call : Expr → Exprs → Bool → Expr
    group : Expr → Expr
    type_assertion : Expr → Expr
    instantiate : Expr → Expr
    and_or : Expr → Expr → Expr
    binary : Expr → Expr → Expr
    length_of : Expr → Expr
    unary : Expr → Expr
    if_else : Expr → Expr → Expr → Expr
    interpolated : Exprs → Expr
    varargs : Expr
    constant_string : String → Expr
    constant : Expr
    other : Expr

  pub data Exprs : Type 0 where
    none_left : Exprs
    then_expr : Expr → Exprs → Exprs

  -- The items of a table constructor, with a key or without one.
  pub data Items : Type 0 where
    no_items : Items
    keyed : Expr → Expr → Items → Items
    positional : Expr → Items → Items

  -- `self`, the parameters, whether there are varargs, the native attribute, the place and the body.
  pub data Function : Type 0 where
    a_function : Option ℕ → List ℕ → Bool → Bool → Location → Stat → Function

  pub data Stat : Type 0 where
    block : Stats → Stat
    local_stat : List LocalVar → Exprs → Stat
    local_function : Location → List ℕ → ℕ → ℕ → Function → Stat
    function_stat : Location → Location → Expr → ℕ → Function → Stat
    assignment : Exprs → Exprs → Stat
    compound_assignment : Expr → Expr → Stat
    return_stat : Exprs → Stat
    expr_stat : Expr → Stat
    if_stat : Expr → Stat → Stat
    if_else_stat : Expr → Stat → Stat → Stat
    while_stat : Expr → Stat → Stat
    repeat_stat : Expr → Stat → Stat
    for_stat : Expr → Expr → Stat → Stat
    for_step_stat : Expr → Expr → Expr → Stat → Stat
    for_in_stat : List ℕ → Exprs → Stat → Stat
    inert_stat : Stat
    other_stat : Stat

  pub data Stats : Type 0 where
    no_stats : Stats
    then_stat : Stat → Stats → Stats
