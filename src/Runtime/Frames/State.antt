-- ===== src/Runtime/Frames/State.antt =====
-- The line and the continuation id of a frame do not disturb each other.
use Prim.Native.Nat.{bit_and, bit_or}
use luauc.Prelude.{
  ℕ, ◌+◌, ◌*◌, ◌/◌, ◌%◌, ◌^◌, ◌<◌, ◌≡◌, inl, inr, refl, sym, ap, ◌∙◌, not, ◌||◌, some, arith, ltb,
  if◌then◌else◌, Bool-cases, Option-cases,
}
use luauc.Prelude.Bits.{bit_and-ones, bit_or-shifted, bit_or-shifted_right, bit_and-field}
use luauc.Runtime.Frames.{
  CallInfo, Callee, no_function, c_function, lua_function, aot_continuation_id, aot_line, is_lua,
  validated_frame, Reply, raised, rejected, done, in_frame, set_location, exchange_continuation,
}

line_part : (a : ℕ) → aot_line a ≡ a % 2 ^ 20
unfolding aot_line
line_part a = bit_and-ones 20 a

id_part : (a : ℕ) → aot_continuation_id a ≡ a / 2 ^ 20 % 2 ^ 12
unfolding aot_continuation_id
id_part a = bit_and-ones 12 (a / 2 ^ 20)

-- The word of a line and an id.
with_id :
    (a next : ℕ)
    → next < 2 ^ 12
    → bit_or (aot_line a) (next * 2 ^ 20 % 2 ^ 32) ≡ next * 2 ^ 20 + a % 2 ^ 20
with_id a next h =
    let narrow : next * 2 ^ 20 % 2 ^ 32 ≡ next * 2 ^ 20 = omega arith in
    rw (line_part a, narrow) (bit_or-shifted_right 20 next (a % 2 ^ 20) (omega arith))

with_line :
    (a line : ℕ)
    → line < 2 ^ 20
    → bit_or (bit_and a 0xfff0_0000) line ≡ a / 2 ^ 20 % 2 ^ 12 * 2 ^ 20 + line
with_line a line h =
    let split : a / 2 ^ 20 * 2 ^ 20 + a % 2 ^ 20 ≡ a = omega arith in
    let high : bit_and a 0xfff0_0000 ≡ a / 2 ^ 20 % 2 ^ 12 * 2 ^ 20 =
      ap (λ (t : ℕ). bit_and t 0xfff0_0000) (sym split)
      ∙ bit_and-field 20 (a / 2 ^ 20) 0xfff (a % 2 ^ 20) (omega arith)
      ∙ ap (λ (t : ℕ). t * 2 ^ 20) (bit_and-ones 12 (a / 2 ^ 20)) in
    rw high (bit_or-shifted 20 (a / 2 ^ 20 % 2 ^ 12) line h)

-- A validated frame has the word of the frame.
validated_frame-aotstate :
    (max_string : ℕ) (ci valid : CallInfo)
    → validated_frame max_string ci ≡ some valid
    → valid.aotstate ≡ ci.aotstate
unfolding validated_frame
validated_frame-aotstate max_string ci valid h = go ci.func refl
  where
    go : (f : Callee) → ci.func ≡ f → valid.aotstate ≡ ci.aotstate
    go no_function e = absurd (cc (rw e at h))
    go (c_function has_cont) e = absurd (cc (rw e at h))
    go (lua_function closure) e = let g = rw e at h in ground arith

-- What a step in a frame gives comes from the validated frame.
in_frame-done :
    (max_string : ℕ) (ci : CallInfo) (next : CallInfo → Reply) (result : ℕ) (after : CallInfo)
    → in_frame max_string ci next ≡ done result after
    → (valid : CallInfo) × (valid.aotstate ≡ ci.aotstate) × (next valid ≡ done result after)
unfolding in_frame
in_frame-done max_string ci next result after h =
    elim (Bool-cases (not (is_lua ci.func) || not ci.native)) [
      | inl e ↦ absurd (cc (rw e at h))
      | inr e ↦ elim (Option-cases (validated_frame max_string ci)) [
        | inl n ↦ absurd (cc (rw (e, n) at h))
        | inr (valid, v) ↦ (valid, validated_frame-aotstate max_string ci valid v, rw (e, v) at h)
      ]
    ]

exchanged :
    (next : ℕ) (valid : CallInfo) (previous : ℕ) (after : CallInfo)
    → (if ltb 0xfff next
        then raised rejected
        else done
            (aot_continuation_id valid.aotstate)
            (record valid { aotstate = bit_or (aot_line valid.aotstate) (next * 2 ^ 20 % 2 ^ 32) }))
      ≡ done previous after
    → (next < 2 ^ 12)
      × (previous ≡ aot_continuation_id valid.aotstate)
      × (after.aotstate ≡ bit_or (aot_line valid.aotstate) (next * 2 ^ 20 % 2 ^ 32))
exchanged next valid previous after h = (ground arith, ground arith, ground arith)

-- Where a continuation exchange succeeds, it gives the id that the frame had, the frame then has the new
-- id, and its line is as before.
pub exchange_continuation_lem :
    (max_string : ℕ) (ci : CallInfo) (next previous : ℕ) (after : CallInfo)
    → exchange_continuation max_string ci next ≡ done previous after
    → (previous ≡ aot_continuation_id ci.aotstate)
      × (aot_continuation_id after.aotstate ≡ next)
      × (aot_line after.aotstate ≡ aot_line ci.aotstate)
unfolding exchange_continuation
exchange_continuation_lem max_string ci next previous after h =
    let (valid, same, e) = in_frame-done max_string ci _ previous after h in
    let (narrow, p, word) = exchanged next valid previous after e in
    let packed = word ∙ with_id valid.aotstate next narrow in
    (
      p ∙ ap aot_continuation_id same,
      id_part after.aotstate ∙ omega (arith, packed),
      line_part after.aotstate ∙ omega (arith, packed, same) ∙ sym (line_part ci.aotstate),
    )

located :
    (line : ℕ) (valid : CallInfo) (result : ℕ) (after : CallInfo)
    → (if ltb 0x000f_ffff line
        then raised rejected
        else done 0 (record valid { aotstate = bit_or (bit_and valid.aotstate 0xfff0_0000) line }))
      ≡ done result after
    → (line < 2 ^ 20) × (after.aotstate ≡ bit_or (bit_and valid.aotstate 0xfff0_0000) line)
located line valid result after h = (ground arith, ground arith)

-- Where a location update succeeds, the frame has that line, and its continuation id is as before.
pub set_location_lem :
    (max_string : ℕ) (ci : CallInfo) (line result : ℕ) (after : CallInfo)
    → set_location max_string ci line ≡ done result after
    → (aot_line after.aotstate ≡ line)
      × (aot_continuation_id after.aotstate ≡ aot_continuation_id ci.aotstate)
unfolding set_location
set_location_lem max_string ci line result after h =
    let (valid, same, e) = in_frame-done max_string ci _ result after h in
    let (narrow, word) = located line valid result after e in
    let packed = word ∙ with_line valid.aotstate line narrow in
    (
      line_part after.aotstate ∙ omega (arith, packed),
      id_part after.aotstate ∙ omega (arith, packed, same) ∙ sym (id_part ci.aotstate),
    )
