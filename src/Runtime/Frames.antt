-- ===== src/Runtime/Frames.antt =====
-- Native call frames of runtime/src/call_frame.cpp: the line and the continuation id that share the word
-- `aotstate`, the checks of a suspended thread, the remembered validation of a proto, and the coverage
-- counters. A thread's frames stand in a list, the current one first, down to the base frame, which is
-- not in it.
pub mod State
pub mod Active
mod Runs
use Prim.Native.Nat.{bit_and, bit_or}
use luauc.Prelude.{
  ℕ, zero, suc, ◌+◌, ◌-◌, ◌*◌, ◌/◌, ◌%◌, ◌^◌, ◌≡◌, Bool, true, false, not, ◌&&◌, ◌||◌, Option, none,
  some, List, [], ◌∷◌, arith, ltb, leb, ◌==◌, if◌then◌else◌, length, get_or, set,
}
use luauc.Runtime.Metadata.{ProtoMetadata, valid_aot_proto}

-- The parts of a Luau proto that are read here; `validated` is the flag that the runtime sets.
pub record Proto : Type 0 where
  pub execdata : Option ProtoMetadata
  pub has_code : Bool
  pub has_codeentry : Bool
  pub sizecode : ℕ
  pub has_source : Bool
  pub maxstacksize : ℕ
  pub numparams : ℕ
  pub nups : ℕ
  pub is_vararg : ℕ
  pub validated : Bool
  pub hits : Option (List ℕ)

pub record Closure : Type 0 where
  pub proto : Option Proto
  pub nupvalues : ℕ
  pub stacksize : ℕ

-- What `ci->func` holds; a C function may have a continuation.
pub data Callee : Type 0 where
  no_function : Callee
  c_function : Bool → Callee
  lua_function : Closure → Callee

pub record CallInfo : Type 0 where
  pub func : Callee
  pub native : Bool
  pub returns : Bool
  pub handles : Bool
  pub opyield : Bool
  pub aotstate : ℕ

-- `aotstate >> SHIFT & CONTINUATION_MASK`
unfoldable pub aot_continuation_id : ℕ → ℕ
aot_continuation_id aotstate = bit_and (aotstate / 2 ^ 20) 0xfff

-- The line of the error messages: `aotstate & LINE_MASK`.
unfoldable pub aot_line : ℕ → ℕ
aot_line aotstate = bit_and aotstate 0x000f_ffff

abbrev pub is_lua : Callee → Bool
is_lua (lua_function closure) = true
is_lua _ = false

unfoldable pub valid_native_suspension_frame : CallInfo → Bool
valid_native_suspension_frame ci =
    is_lua ci.func && ci.native && not (aot_continuation_id ci.aotstate == 0)

-- The first Luau frame decides.
unfoldable pub first_lua_frame : List CallInfo → Bool
first_lua_frame [] = false
first_lua_frame (ci ∷ rest) =
    let further = first_lua_frame rest in
    if is_lua ci.func then valid_native_suspension_frame ci else further

abbrev pub is_c : Callee → Bool
is_c (c_function has_cont) = true
is_c _ = false

-- `validCallSuspension`, for a thread that has yielded.
unfoldable pub valid_call_suspension : List CallInfo → Bool
valid_call_suspension [] = false
valid_call_suspension (ci ∷ rest) = if is_c ci.func then first_lua_frame rest else false

unfoldable pub fits_metadata : ℕ → Closure → Proto → Option ProtoMetadata → Bool
fits_metadata max_string closure proto none = false
fits_metadata max_string closure proto (some metadata) = not (
    proto.has_code
    || proto.has_codeentry
    || not (proto.sizecode == 0)
    || not proto.has_source
    || not (valid_aot_proto max_string (some metadata))
    || not (closure.nupvalues == metadata.nups)
    || not (closure.stacksize == metadata.max_stack_size)
    || not (proto.maxstacksize == metadata.max_stack_size)
    || not (proto.numparams == metadata.num_params)
    || not (proto.nups == metadata.nups)
    || not (proto.is_vararg == metadata.is_vararg))

unfoldable pub valid_child : ℕ → Callee → Bool
valid_child max_string (lua_function closure) = child_of closure.proto
  where
    child_of : Option Proto → Bool
    child_of none = false
    child_of (some proto) = fits_metadata max_string closure proto proto.execdata
valid_child max_string _ = false

-- C frames with a continuation down to the nearest Luau frame.
unfoldable pub continues_to_lua : List CallInfo → Bool
continues_to_lua [] = false
continues_to_lua (ci ∷ rest) =
    let further = continues_to_lua rest in
    elim ci.func [
      | no_function ↦ false
      | lua_function closure ↦ valid_native_suspension_frame ci
      | c_function has_cont ↦ if has_cont then further else false
    ]

abbrev pub is_continued : Callee → Bool
is_continued (c_function has_cont) = has_cont
is_continued _ = false

-- `validScheduledReentrySuspension`, for a thread with that status; `at_base` says that the stack base of
-- the thread is that of the child.
unfoldable pub valid_scheduled_reentry_suspension : ℕ → Bool → List CallInfo → Bool
valid_scheduled_reentry_suspension max_string at_base [] = false
valid_scheduled_reentry_suspension max_string at_base (child ∷ []) = false
valid_scheduled_reentry_suspension max_string at_base (child ∷ protected ∷ rest) =
    is_lua child.func
    && child.native
    && child.returns
    && child.aotstate == 0
    && at_base
    && valid_child max_string child.func
    && is_continued protected.func
    && protected.handles
    && continues_to_lua rest

-- `validAotSuspension`: whether the thread has yielded, whether its status is that of a scheduled child,
-- and whether the bases agree.
unfoldable pub valid_aot_suspension : ℕ → Bool → Bool → Bool → List CallInfo → Bool
valid_aot_suspension max_string yielded scheduled at_base [] = false
valid_aot_suspension max_string yielded scheduled at_base (ci ∷ rest) =
    yielded
    && (valid_native_suspension_frame ci
        || valid_call_suspension (ci ∷ rest)
        || (scheduled && valid_scheduled_reentry_suspension max_string at_base (ci ∷ rest)))

-- The answer of `rememberValidAotProto`, and the proto with its flag.
unfoldable pub remember_valid_aot_proto : ℕ → Option Proto → Bool × Option Proto
remember_valid_aot_proto max_string none = (false, none)
remember_valid_aot_proto max_string (some proto) =
    if proto.validated
    then (true, some proto)
    else (if valid_aot_proto max_string proto.execdata
        then (true, some (record proto { validated = true }))
        else (false, some proto))

pub data FrameError : Type 0 where
  inactive invalid_metadata rejected : FrameError

-- An error, or the result with the new frame.
pub data Reply : Type 0 where
  raised : FrameError → Reply
  done : ℕ → CallInfo → Reply

-- The frame after its proto has been validated.
unfoldable pub validated_frame : ℕ → CallInfo → Option CallInfo
validated_frame max_string ci = elim ci.func [
  | no_function ↦ none
  | c_function has_cont ↦ none
  | lua_function closure ↦
      let (valid, proto) = remember_valid_aot_proto max_string closure.proto in
      if valid
      then some (record ci { func = lua_function (record closure { proto = proto }) })
      else none
]

unfoldable pub in_frame : ℕ → CallInfo → (CallInfo → Reply) → Reply
in_frame max_string ci next =
    if not (is_lua ci.func) || not ci.native
    then raised inactive
    else (elim (validated_frame max_string ci) [
      | none ↦ raised invalid_metadata
      | some valid ↦ next valid
    ])

unfoldable pub set_location : ℕ → CallInfo → ℕ → Reply
set_location max_string ci line = in_frame max_string ci (λ valid.
    if ltb 0x000f_ffff line
    then raised rejected
    else done 0 (record valid { aotstate = bit_or (bit_and valid.aotstate 0xfff0_0000) line }))

unfoldable pub exchange_continuation : ℕ → CallInfo → ℕ → Reply
exchange_continuation max_string ci next = in_frame max_string ci (λ valid.
    if ltb 0xfff next
    then raised rejected
    else done (aot_continuation_id valid.aotstate)
        (record valid { aotstate = bit_or (aot_line valid.aotstate) (next * 2 ^ 20 % 2 ^ 32) }))

abbrev pub coverage_max_hits : ℕ
coverage_max_hits = 0x007f_ffff

-- The counters after a hit of a site of the active proto; `none` is the error.
unfoldable pub coverage_hit : ProtoMetadata → Option (List ℕ) → ℕ → Option (List ℕ)
coverage_hit metadata none site_id = none
coverage_hit metadata (some hits) site_id =
    if leb metadata.coverage_site_count site_id
    then none
    else some (
        set hits site_id
          (let old = get_or hits site_id 0 in if ltb old coverage_max_hits then old + 1 else old))
