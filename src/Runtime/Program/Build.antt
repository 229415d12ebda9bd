-- ===== src/Runtime/Program/Build.antt =====
-- `luauc_runtime_v1_push_program` behind the validation, with `materializeAotImportConstants`,
-- `findDirectAotChild` and `materializeAotClosureConstants` of runtime/src/call_frame.cpp. The
-- look-up of an import is the virtual machine's, and a parameter.
use luauc.Prelude.{
  ℕ, zero, suc, ◌+◌, Bool, false, not, ◌&&◌, ◌||◌, Option, none, some, List, [], ◌∷◌, ◌++◌, ltb,
  ◌==◌, if◌then◌else◌, get_or,
}
use luauc.Prelude.Words.{int_max, uint32_max}
use luauc.Runtime.Metadata.Kind
use luauc.Runtime.Metadata.{ProtoMetadata, constant_at, aot_import_aux}
use luauc.Runtime.Program.{
  ProgramMetadata, SourceName, PushError, no_owning_module, unpublished_source, child_limit,
  not_direct_child, unbalanced_import, Naming, named, nameless, proto_at, used_modules,
  child_counts, child_arrays, name_protos, valid_program,
}

-- What the call finds in the virtual machine: another owner of the proto destructor, whether the
-- stack can grow by so many slots, whether a module registry is there already, whether the global
-- environment is safe, and whether the protected look-up for a constant of a proto leaves one value
-- more on the stack.
pub record Machine : Type 0 where
  pub foreign_destroy : Bool
  pub stack_room : ℕ → Bool
  pub published : Bool
  pub safe_env : Bool
  pub balanced : ℕ → ℕ → Bool

-- The import constants of one proto in order, by the rounds that are left: the error of the first
-- look-up that leaves an unbalanced stack. A constant without an encoding is passed over.
unfoldable pub import_loop : Machine → ℕ → ProtoMetadata → ℕ → ℕ → Option PushError
import_loop machine proto metadata zero id = none
import_loop machine proto metadata (suc rounds) id =
    let constant = constant_at metadata id in
    let rest = import_loop machine proto metadata rounds (id + 1) in
    if not (constant.kind == Kind.import)
    then rest
    else if aot_import_aux metadata constant == uint32_max
    then rest
    else if machine.safe_env && not (machine.balanced proto id)
    then some (unbalanced_import id)
    else rest

-- What of `initializeAotProto` can raise, for each proto; a failed allocation apart, nothing else
-- in it does.
unfoldable pub initialize_loop : Machine → ProgramMetadata → ℕ → ℕ → Option PushError
initialize_loop machine program zero id = none
initialize_loop machine program (suc rounds) id =
    let metadata = proto_at program id in
    let rest = initialize_loop machine program rounds (id + 1) in
    elim (import_loop machine id metadata metadata.constant_count 0) [
      | none ↦ rest
      | some error ↦ some error
    ]

-- The protos that the naming loop comes to initialize: those before one without a name.
unfoldable pub initialized_before : ProgramMetadata → Naming → ℕ
initialized_before program (nameless (no_owning_module id)) = id
initialized_before program _ = program.proto_count

-- The closure that is made for a constant of a proto; `preload` is 0 or 1.
pub record ClosureTemplate : Type 0 where
  pub parent : ℕ
  pub constant : ℕ
  pub child : ℕ
  pub preload : ℕ

pub data Templates : Type 0 where
  made : List ClosureTemplate → Templates
  childless : PushError → Templates

abbrev pub made_first : ClosureTemplate → Templates → Templates
made_first template (made templates) = made (template ∷ templates)
made_first template (childless error) = childless error

abbrev pub made_before : List ClosureTemplate → Templates → Templates
made_before templates (made rest) = made (templates ++ rest)
made_before templates (childless error) = childless error

-- The first proto in the array of children that has the function id; an empty slot is passed over.
unfoldable pub find_child : ProgramMetadata → List (Option ℕ) → ℕ → Option ℕ
find_child program [] child_proto_id = none
find_child program (none ∷ children) child_proto_id = find_child program children child_proto_id
find_child program (some candidate ∷ children) child_proto_id =
    let rest = find_child program children child_proto_id in
    if (proto_at program candidate).function_id == child_proto_id then some candidate else rest

abbrev pub preload_of : ProgramMetadata → ℕ → ℕ
preload_of program child = if (proto_at program child).nups == 0 then 0 else 1

-- The closure constants of one proto, by the rounds that are left.
unfoldable pub closure_loop : ProgramMetadata → List (Option ℕ) → ℕ → ℕ → ℕ → Templates
closure_loop program children parent zero id = made []
closure_loop program children parent (suc rounds) id =
    let constant = constant_at (proto_at program parent) id in
    let rest = closure_loop program children parent rounds (id + 1) in
    if not (constant.kind == Kind.closure)
    then rest
    else (elim (find_child program children constant.payload0) [
      | none ↦ childless (not_direct_child constant.payload0)
      | some child ↦
          made_first
            (record {
              parent = parent;
              constant = id;
              child = child;
              preload = preload_of program child;
            })
            rest
    ])

-- `materializeAotClosureConstants` for each proto.
unfoldable pub materialize_loop : ProgramMetadata → List (List (Option ℕ)) → ℕ → ℕ → Templates
materialize_loop program children zero parent = made []
materialize_loop program children (suc rounds) parent =
    let rest = materialize_loop program children rounds (parent + 1) in
    elim (closure_loop program (get_or children parent []) parent
      (proto_at program parent).constant_count 0) [
        | childless error ↦ childless error
        | made templates ↦ made_before templates rest
      ]

pub data Push : Type 0 where
  internal_error : Push
  raised : PushError → Push
  pushed : List SourceName → List (List (Option ℕ)) → List ClosureTemplate → Push

unfoldable pub any_above : ℕ → List ℕ → Bool
any_above limit [] = false
any_above limit (count ∷ counts) = ltb limit count || any_above limit counts

-- The arrays of children and the closure constants, once the protos have their names.
unfoldable pub link_protos : ProgramMetadata → List SourceName → Push
link_protos program names =
    if any_above int_max (child_counts program)
    then raised child_limit
    else (elim (materialize_loop program (child_arrays program) program.proto_count 0) [
      | childless error ↦ raised error
      | made templates ↦ pushed names (child_arrays program) templates
    ])

-- The forest, once validation has passed.
unfoldable pub build_program : Machine → ProgramMetadata → Push
build_program machine program =
    let naming = name_protos program in
    elim (initialize_loop machine program (initialized_before program naming) 0) [
      | some error ↦ raised error
      | none ↦ elim naming [
        | nameless error ↦ raised error
        | named names seen ↦
            if not (seen == used_modules program)
            then raised unpublished_source
            else link_protos program names
      ]
    ]

unfoldable pub push_program : ℕ → Machine → Option (List ℕ) → ProgramMetadata → Push
push_program max_string machine source program =
    let modules = used_modules program in
    if not (valid_program max_string source program)
    then internal_error
    else if machine.foreign_destroy
    then internal_error
    else if not (machine.stack_room (if modules == 0 then 1 else modules + 8))
    then internal_error
    else if not (modules == 0) && machine.published
    then internal_error
    else build_program machine program
