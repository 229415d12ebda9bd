-- ===== src/Frontend/Liveness/State.antt =====
-- The state of the analysis and its elementary operations: `unite`, `merge`, `identity`, `observe`,
-- `escape`, `field`, `store`, `storeUnknown` of `Analysis` in frontend/package_liveness.h. A method is a
-- function from the state to its result and the new state.
use luauc.Prelude.{
  ℕ, Bool, true, false, not, ◌&&◌, ◌||◌, Option, none, some, List, [], ◌∷◌, ◌++◌, ◌==◌,
  if◌then◌else◌, get_or, set, String, str_eq,
}
use luauc.Frontend.Liveness.Syntax.{Expr, Function, Location}

pub record Value : Type 0 where
  pub unknown : Bool
  pub objects : List ℕ

abbrev pub unknown_value : Value
unknown_value = record { unknown = true; objects = [] }

abbrev pub no_value : Value
no_value = record { unknown = false; objects = [] }

-- The statement that declares a function: its place, with the bytes of a local function's name, or the
-- place of the name and the name of another.
pub data Declaration : Type 0 where
  local_declaration : Location → List ℕ → Declaration
  function_declaration : Location → Location → Expr → Declaration

pub record Object : Type 0 where
  pub function : Option Function
  pub declaration : Option Declaration
  pub module' : ℕ
  pub active : Bool
  pub observed : Bool
  pub escaped : Bool
  pub fields : List (String × Value)
  pub reads : List String
  pub unknown_fields : Value
  pub returns : Value
  pub varargs : Value

abbrev pub no_object : Object
no_object = record {
  function = none;
  declaration = none;
  module' = 0;
  active = false;
  observed = false;
  escaped = false;
  fields = [];
  reads = [];
  unknown_fields = no_value;
  returns = no_value;
  varargs = no_value;
}

-- The maps are association lists, or functions with the value that a map gives for a new key.
pub record Analysis : Type 0 where
  pub objects : List Object
  pub identities : List (ℕ × ℕ)
  pub locals : ℕ → Value
  pub initializers : List (ℕ × Expr)
  pub assigned : List ℕ
  pub module_names : List (String × ℕ)
  pub module_returns : List Value
  pub module_gotos : List Bool
  pub changed : Bool
  pub disabled : Bool
  pub current_module : ℕ
  pub current_function : Option ℕ
  pub operations : ℕ

abbrev pub M : Type 0 → Type 0
M A = Analysis → A × Analysis

infixl 5 ◌>>=◌ ◌>>◌
abbrev pub ◌>>=◌ : {A B : Type 0} → M A → (A → M B) → M B
◌>>=◌ m f s = f (m s).0 (m s).1

abbrev pub ◌>>◌ : {B : Type 0} → M (Unit {0}) → M B → M B
◌>>◌ m k s = k (m s).1

abbrev pub pure : {A : Type 0} → A → M A
pure a s = (a, s)

abbrev pub skip : M (Unit {0})
skip s = (tt, s)

unfoldable pub member : ℕ → List ℕ → Bool
member a [] = false
member a (x ∷ xs) = a == x || member a xs

-- The loop of `unite` over the source's objects, with the flag of a change.
unfoldable pub unite_objects : List ℕ → List ℕ → Bool → List ℕ × Bool
unite_objects target [] change = (target, change)
unite_objects target (identity ∷ source) change =
    let found = member identity target in
    unite_objects (if found then target else target ++ (identity ∷ [])) source
      (if found then change else true)

-- The new target, and whether it has changed.
unfoldable pub unite : Value → Value → Value × Bool
unite target source =
    let gained = source.unknown && not target.unknown in
    let (objects, change) = unite_objects target.objects source.objects gained in
    (record { unknown = target.unknown || gained; objects = objects }, change)

abbrev pub object_at : Analysis → ℕ → Object
object_at s identity = get_or s.objects identity no_object

unfoldable pub put_object : ℕ → Object → M (Unit {0})
put_object identity object s = (tt, record s { objects = set s.objects identity object })

unfoldable pub disable : M (Unit {0})
disable s = (tt, record s { disabled = true })

-- `merge(locals[local], value)`
unfoldable pub merge_local : ℕ → Value → M (Unit {0})
unfolding unite
merge_local local value s =
    let (united, change) = unite (s.locals local) value in
    (
      tt,
      record s {
        locals = λ other. if other == local then united else s.locals other;
        changed = s.changed || change;
      },
    )

unfoldable pub merge_locals : List ℕ → Value → M (Unit {0})
merge_locals [] value = skip
merge_locals (local ∷ rest) value = merge_local local value >> merge_locals rest value

-- `merge` into the returns, the varargs or the unknown fields of an object.
unfoldable pub merge_returns : ℕ → Value → M (Unit {0})
merge_returns identity value s =
    let object = object_at s identity in
    let (united, change) = unite object.returns value in
    (
      tt,
      record s {
        objects = set s.objects identity (record object { returns = united });
        changed = s.changed || change;
      },
    )

unfoldable pub merge_varargs : ℕ → Value → M (Unit {0})
merge_varargs identity value s =
    let object = object_at s identity in
    let (united, change) = unite object.varargs value in
    (
      tt,
      record s {
        objects = set s.objects identity (record object { varargs = united });
        changed = s.changed || change;
      },
    )

unfoldable pub merge_unknown_fields : ℕ → Value → M (Unit {0})
merge_unknown_fields identity value s =
    let object = object_at s identity in
    let (united, change) = unite object.unknown_fields value in
    (
      tt,
      record s {
        objects = set s.objects identity (record object { unknown_fields = united });
        changed = s.changed || change;
      },
    )

unfoldable pub merge_module_returns : ℕ → Value → M (Unit {0})
merge_module_returns module' value s =
    let (united, change) = unite (get_or s.module_returns module' no_value) value in
    (
      tt,
      record s {
        module_returns = set s.module_returns module' united;
        changed = s.changed || change;
      },
    )

-- `fields[key]`, which is made with no value where it is missing.
unfoldable pub field_value : String → List (String × Value) → Value
field_value key [] = no_value
field_value key ((k, v) ∷ rest) = if str_eq k key then v else field_value key rest

unfoldable pub set_field : String → Value → List (String × Value) → List (String × Value)
set_field key value [] = (key, value) ∷ []
set_field key value ((k, v) ∷ rest) =
    if str_eq k key then (k, value) ∷ rest else (k, v) ∷ set_field key value rest

unfoldable pub merge_field : ℕ → String → Value → M (Unit {0})
merge_field identity key value s =
    let object = object_at s identity in
    let (united, change) = unite (field_value key object.fields) value in
    (
      tt,
      record s {
        objects =
            set s.objects identity (record object { fields = set_field key united object.fields });
        changed = s.changed || change;
      },
    )

unfoldable pub lookup_node : ℕ → List (ℕ × ℕ) → ℕ
lookup_node node [] = 0
lookup_node node ((n, identity) ∷ rest) = if n == node then identity else lookup_node node rest

-- `identity(expression)`: every node that is asked for has been collected.
unfoldable pub identity_of : ℕ → M Value
identity_of node s = (record { unknown = false; objects = lookup_node node s.identities ∷ [] }, s)

unfoldable pub observe_one : ℕ → M (Unit {0})
observe_one identity s =
    let object = object_at s identity in
    if object.observed then (tt, s) else (
      tt,
      record s {
        objects = set s.objects identity (record object { observed = true });
        changed = true;
      },
    )

unfoldable pub observe_all : List ℕ → M (Unit {0})
observe_all [] = skip
observe_all (identity ∷ rest) = observe_one identity >> observe_all rest

unfoldable pub observe : Value → M (Unit {0})
observe value = observe_all value.objects

unfoldable pub escape_one : ℕ → M (Unit {0})
escape_one identity s =
    let object = object_at s identity in
    if object.escaped then (tt, s) else (
      tt,
      record s {
        objects = set s.objects identity (record object { escaped = true });
        changed = true;
      },
    )

unfoldable pub escape_all : List ℕ → M (Unit {0})
escape_all [] = skip
escape_all (identity ∷ rest) = escape_one identity >> escape_all rest

unfoldable pub escape : Value → M (Unit {0})
escape value = escape_all value.objects

unfoldable pub escape_values : List Value → M (Unit {0})
escape_values [] = skip
escape_values (value ∷ rest) = escape value >> escape_values rest

unfoldable pub activate : ℕ → M (Unit {0})
activate identity s =
    let object = object_at s identity in
    if object.active then (tt, s) else (
      tt,
      record s {
        objects = set s.objects identity (record object { active = true });
        changed = true;
      },
    )

abbrev pub is_some {ℓ} : {A : Type ℓ} → Option A → Bool
is_some none = false
is_some (some a) = true

-- What a read of `key` takes from one object, which notes the read.
unfoldable pub read_field : ℕ → String → Value → M Value
read_field identity key result s =
    let object = object_at s identity in
    let held = record result { unknown = result.unknown || object.escaped } in
    let noted = record object { reads = key ∷ object.reads } in
    if is_some object.function
    then (record held { unknown = true }, record s { objects = set s.objects identity noted })
    else (
      (unite (unite held (field_value key object.fields)).0 object.unknown_fields).0,
      record s {
        objects =
            set s.objects identity (record noted {
              fields = set_field key (field_value key object.fields) object.fields;
            });
      },
    )

unfoldable pub read_fields : List ℕ → String → Value → M Value
read_fields [] key result = pure result
read_fields (identity ∷ rest) key result = read_field identity key result >>= read_fields rest key

unfoldable pub field : Value → String → M Value
field base key = do
  result ← read_fields base.objects key (record { unknown = base.unknown; objects = [] })
  observe result
  pure result

unfoldable pub store_one : ℕ → String → Value → M (Unit {0})
store_one identity key value s =
    (if is_some (object_at s identity).function
        then escape value
        else merge_field identity key value)
      s

unfoldable pub store_all : List ℕ → String → Value → M (Unit {0})
store_all [] key value = skip
store_all (identity ∷ rest) key value = store_one identity key value >> store_all rest key value

unfoldable pub store : Value → String → Value → M (Unit {0})
store base key value = do
  if base.unknown then escape value else skip
  store_all base.objects key value

unfoldable pub store_unknown_one : ℕ → Value → M (Unit {0})
store_unknown_one identity value s =
    (if is_some (object_at s identity).function
        then escape value
        else merge_unknown_fields identity value)
      s

unfoldable pub store_unknown_all : List ℕ → Value → M (Unit {0})
store_unknown_all [] value = skip
store_unknown_all (identity ∷ rest) value =
    store_unknown_one identity value >> store_unknown_all rest value

unfoldable pub store_unknown : Value → Value → M (Unit {0})
store_unknown base value = do
  if base.unknown then escape value else skip
  store_unknown_all base.objects value
