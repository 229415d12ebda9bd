-- ===== src/Runtime/Frames/Active.antt =====
-- `activeAotFrameProto`, `luauc_runtime_v1_finish_yielded_op` and `luauc_runtime_v1_interrupt` of
-- runtime/src/call_frame.cpp. The current frame is the first of the list, and the base frame is not in it.
use luauc.Prelude.{
  ℕ, ◌≡◌, inl, inr, refl, sym, ap, ◌∙◌, Bool, true, false, not, ◌||◌, Option, none, some, List, [],
  ◌∷◌, arith, ◌==◌, if◌then◌else◌, Bool-cases, Option-cases,
}
use luauc.Runtime.Metadata.{ProtoMetadata, valid_aot_proto}
use luauc.Runtime.Frames.{
  Proto, Closure, Callee, no_function, c_function, lua_function, CallInfo, is_lua,
  aot_continuation_id, remember_valid_aot_proto, validated_frame, raised, done, set_location,
}

-- The frame's proto, closure and metadata agree.
unfoldable pub consistent_metadata : Closure → Proto → ProtoMetadata → Bool
consistent_metadata closure proto metadata = not (
    not (proto.maxstacksize == metadata.max_stack_size)
    || not (proto.numparams == metadata.num_params)
    || not (proto.nups == metadata.nups)
    || not (proto.is_vararg == metadata.is_vararg)
    || not (closure.stacksize == proto.maxstacksize)
    || not (closure.nupvalues == metadata.nups))

abbrev pub consistent_proto : Closure → Proto → Option ProtoMetadata → Bool
consistent_proto closure proto none = false
consistent_proto closure proto (some metadata) = consistent_metadata closure proto metadata

abbrev pub consistent_closure : Closure → Option Proto → Bool
consistent_closure closure none = false
consistent_closure closure (some proto) = consistent_proto closure proto proto.execdata

abbrev pub consistent_callee : Callee → Bool
consistent_callee (lua_function closure) = consistent_closure closure closure.proto
consistent_callee _ = false

-- The current frame, with its proto remembered as valid, or an error.
unfoldable pub active_aot_frame_proto : ℕ → List CallInfo → Option CallInfo
active_aot_frame_proto max_string [] = none
active_aot_frame_proto max_string (ci ∷ rest) =
    if not (is_lua ci.func) || not ci.native then none else (elim (validated_frame max_string ci) [
      | none ↦ none
      | some valid ↦ if consistent_callee valid.func then some valid else none
    ])

unfoldable pub finish_yielded_op : ℕ → List CallInfo → Option CallInfo
finish_yielded_op max_string frames = elim (active_aot_frame_proto max_string frames) [
  | none ↦ none
  | some ci ↦
      if not ci.opyield
      then none
      else if aot_continuation_id ci.aotstate == 0
      then none
      else some (record ci { opyield = false })
]

-- What an interrupt answers; `no_frame` is its internal error.
pub data Interrupted : Type 0 where
  no_frame went_on yielded : Interrupted
  failed : Interrupted

-- `interrupt` is the callback of the host, if there is one: whether the thread goes on.
unfoldable pub interrupt : ℕ → Option (CallInfo → Bool) → List CallInfo → ℕ → Interrupted
interrupt max_string callback [] line = no_frame
interrupt max_string callback (ci ∷ rest) line =
    if not (is_lua ci.func) then no_frame else (elim (set_location max_string ci line) [
      | raised e ↦ failed
      | done answer located ↦ elim callback [
        | none ↦ went_on
        | some goes_on ↦ if goes_on located then went_on else yielded
      ]
    ])

-- A frame that the check has accepted has metadata of which the closure and the proto have the sizes.
pub record IsActive (ci : CallInfo) : Type 0 where
  pub closure : Closure
  pub proto : Proto
  pub metadata : ProtoMetadata
  pub calls : ci.func ≡ lua_function closure
  pub has_proto : closure.proto ≡ some proto
  pub has_metadata : proto.execdata ≡ some metadata
  pub is_validated : proto.validated ≡ true
  pub stack_size : closure.stacksize ≡ metadata.max_stack_size
  pub upvalues : closure.nupvalues ≡ metadata.nups

module _ (max_string : ℕ) where
  remembered :
      (p q : Option Proto)
      → remember_valid_aot_proto max_string p ≡ (true, q)
      → (proto : Proto) × (q ≡ some proto) × (proto.validated ≡ true)
  unfolding remember_valid_aot_proto
  remembered none q h = cc
  remembered (some proto) q h = elim (Bool-cases proto.validated) [
    | inl v ↦ (proto, ground (arith, v), v)
    | inr v ↦ elim (Bool-cases (valid_aot_proto max_string proto.execdata)) [
      | inl w ↦ (record proto { validated = true }, ground (arith, v, w), refl)
      | inr w ↦ absurd (ground (arith, v, w))
    ]
  ]

  -- What `validated_frame` gives for each callee.
  validated :
      (ci valid : CallInfo) (callee : Callee)
      → ci.func ≡ callee
      → validated_frame max_string ci ≡ some valid
      → (closure : Closure) × (proto : Proto) × (valid.func ≡ lua_function closure)
        × (closure.proto ≡ some proto)
        × (proto.validated ≡ true)
        × (valid.native ≡ ci.native)
  unfolding validated_frame
  validated ci valid no_function e h = absurd (ground (arith, e))
  validated ci valid (c_function has_cont) e h = absurd (ground (arith, e))
  validated ci valid (lua_function closure) e h =
      let answer = remember_valid_aot_proto max_string closure.proto in
      elim (Bool-cases answer.0) [
        | inr w ↦ absurd (ground (arith, e, w))
        | inl w ↦
            let after : record ci { func = lua_function (record closure { proto = answer.1 }) }
                ≡ valid =
              ground (arith, e, w) in
            let pair : answer ≡ (true, answer.1) = ap (λ (b : Bool). (b, answer.1)) w in
            let (proto, p, v) = remembered closure.proto answer.1 pair in
            (
              record closure { proto = answer.1 },
              proto,
              ap (λ (c : CallInfo). c.func) (sym after),
              p,
              v,
              ap (λ (c : CallInfo). c.native) (sym after),
            )
      ]

  consistent :
      (valid : CallInfo) (closure : Closure) (proto : Proto)
      → valid.func ≡ lua_function closure
      → closure.proto ≡ some proto
      → proto.validated ≡ true
      → consistent_callee valid.func ≡ true
      → IsActive valid
  unfolding consistent_metadata
  consistent valid closure proto f p v c = elim (Option-cases proto.execdata) [
    | inl n ↦ absurd (ground (arith, f, p, n, c))
    | inr (metadata, m) ↦ record {
      closure = closure;
      proto = proto;
      metadata = metadata;
      calls = f;
      has_proto = p;
      has_metadata = m;
      is_validated = v;
      stack_size = ground (arith, f, p, m, c);
      upvalues = ground (arith, f, p, m, c);
    }
  ]

  accepted :
      (ci valid : CallInfo) (rest : List CallInfo)
      → active_aot_frame_proto max_string (ci ∷ rest) ≡ some valid
      → (ci.native ≡ true)
        × (validated_frame max_string ci ≡ some valid)
        × (consistent_callee valid.func ≡ true)
  unfolding active_aot_frame_proto
  accepted ci valid rest h = elim (Option-cases (validated_frame max_string ci)) [
    | inl n ↦ absurd (ground (arith, n))
    | inr (found, e) ↦ elim (Bool-cases (consistent_callee found.func)) [
      | inr w ↦ absurd (ground (arith, e, w))
      | inl w ↦
          let same : found ≡ valid = ground (arith, e, w) in
          (ground (arith, e), rw (← same) e, rw (← same) w)
    ]
  ]

  validated_again :
      (valid : CallInfo) (closure : Closure) (proto : Proto)
      → valid.func ≡ lua_function closure
      → closure.proto ≡ some proto
      → proto.validated ≡ true
      → validated_frame max_string valid
        ≡ some (record valid { func = lua_function (record closure { proto = some proto }) })
  unfolding validated_frame remember_valid_aot_proto
  validated_again valid closure proto f p v = rw (f, p, v) refl

  again :
      (valid : CallInfo) (closure : Closure) (proto : Proto) (rest : List CallInfo)
      → valid.func ≡ lua_function closure
      → closure.proto ≡ some proto
      → proto.validated ≡ true
      → valid.native ≡ true
      → consistent_callee valid.func ≡ true
      → active_aot_frame_proto max_string (valid ∷ rest) ≡ some valid
  unfolding active_aot_frame_proto
  again valid closure proto rest f p v n c =
      let whole : record closure { proto = some proto } ≡ closure =
        ap (λ (q : Option Proto). record closure { proto = q }) (sym p) in
      let same : record valid { func = lua_function (record closure { proto = some proto }) }
          ≡ valid =
        ap (λ (k : Closure). record valid { func = lua_function k }) whole
        ∙ ap (λ (k : Callee). record valid { func = k }) (sym f) in
      let found = validated_again valid closure proto f p v ∙ ap (λ (k : CallInfo). some k) same in
      ground (arith, found, f, n, c)

  -- A frame that the check accepts has validated metadata that agrees with its closure, and is accepted again as
  -- it then is: a second check finds nothing to change.
  pub active_aot_frame_proto-IsActive :
      (ci valid : CallInfo) (rest : List CallInfo)
      → active_aot_frame_proto max_string (ci ∷ rest) ≡ some valid
      → IsActive valid × (active_aot_frame_proto max_string (valid ∷ rest) ≡ some valid)
  active_aot_frame_proto-IsActive ci valid rest h =
      let (native, found, agrees) = accepted ci valid rest h in
      let (closure, proto, f, p, v, n) = validated ci valid ci.func refl found in
      (
        consistent valid closure proto f p v agrees,
        again valid closure proto rest f p v (n ∙ native) agrees,
      )
