-- ===== src/Runtime/Strings.antt =====
-- The string fast paths of runtime/src/call_frame.cpp: `luauc_runtime_v1_slice_string`, `_sub_string`,
-- `_find_string`, `_match_string` and `simpleFindClass`. A text is the list of its bytes. `isspace` of the
-- C library is a parameter.
pub mod Sub
pub mod Match
mod Runs
pub mod Calls
pub mod Search
use luauc.Prelude.{
  ℕ, zero, suc, ◌+◌, ◌-◌, ◌≡◌, Bool, true, false, not, ◌&&◌, ◌||◌, Option, none, some, List, [],
  ◌∷◌, ◌++◌, arith, ltb, leb, ◌==◌, if◌then◌else◌, length, take, drop, get_or,
}
use luauc.Prelude.Words.{int_max, ℤ, pos, negsuc}

-- A number is seen by its value if it is finite and whole and lies in the range of `int`.
pub data Value : Type 0 where
  nil : Value
  boolean : Bool → Value
  number : Option ℤ → Value
  string : List ℕ → Value
  other : Value

-- The frame of the call: the size of its proto, whether the closure's environment is safe, the number of
-- live registers (`L->top`) and of all registers (`ci->top`), and the registers from `L->base` on.
pub record Frame : Type 0 where
  pub max_stack_size : ℕ
  pub safe_env : Bool
  pub live : ℕ
  pub ci_top : ℕ
  pub registers : ℕ → Value

-- Status 0, an error that is raised, or status 1 with the new frame.
pub data Reply : Type 0 where
  refused : Reply
  raised : Reply
  done : Frame → Reply

abbrev pub write : Frame → ℕ → Value → Frame
write frame register value = record frame {
  registers = λ r. if r == register then value else frame.registers r;
}

abbrev pub text_of : Bool → Value → Option (List ℕ)
text_of true (string text) = some text
text_of _ _ = none

-- The live text in a register.
unfoldable pub live_text : Frame → ℕ → Option (List ℕ)
live_text frame register = text_of (ltb register frame.live) (frame.registers register)

-- The checks of the range; `available` is the length of the text.
unfoldable pub valid_range : ℕ → ℕ → ℕ → Bool
valid_range offset length' available =
    if length' == 0
    then offset == 0
    else not (ltb available offset || ltb (available - offset) length')

unfoldable pub slice_string : Frame → ℕ → ℕ → ℕ → ℕ → Reply
slice_string frame destination source offset length' =
    if leb frame.max_stack_size destination || leb frame.max_stack_size source
    then raised
    else (elim (live_text frame source) [
      | none ↦ raised
      | some text ↦
          if valid_range offset length' (length text)
          then done (record (write frame destination (string (take length' (drop offset text)))) {
            live = frame.ci_top;
          })
          else raised
    ])

-- `start` from 1 on, counted from the end where it is negative.
unfoldable pub first_position : ℤ → ℕ → ℕ
first_position (pos n) size = if ltb n 1 then 1 else n
first_position (negsuc n) size = if ltb (size - n) 1 then 1 else size - n

-- `end` up to the size; 0 stands for every position before the text.
unfoldable pub last_position : ℤ → ℕ → ℕ
last_position (pos n) size = if ltb size n then size else n
last_position (negsuc n) size = size - n

-- The offset and the length of the slice.
unfoldable pub sub_range : ℤ → ℤ → ℕ → ℕ × ℕ
sub_range start end size =
    let from = first_position start size in
    let to = last_position end size in if leb from to then (from - 1, to - from + 1) else (0, 0)

abbrev pub whole : Value → Option ℤ
whole (number n) = n
whole _ = none

-- The registers of a call and its parameters lie in the frame, and the environment is safe.
unfoldable pub has_parameters : Frame → ℕ → ℕ → Bool
has_parameters frame destination parameter_count =
    not (
      leb frame.max_stack_size parameter_count
      || ltb (frame.max_stack_size - parameter_count - 1) destination)
    && frame.safe_env

unfoldable pub sub_text : Frame → ℕ → Option (List ℕ) → Option ℤ → Option ℤ → Reply
sub_text frame destination (some text) (some start) (some end) =
    if leb int_max (length text)
    then refused
    else (let range = sub_range start end (length text) in
        done (record (write frame destination (string (take range.1 (drop range.0 text)))) {
          live = frame.ci_top;
        }))
sub_text frame destination _ _ _ = refused

unfoldable pub sub_string : Frame → ℕ → ℕ → Reply
sub_string frame destination parameter_count =
    if (not (parameter_count == 2) && not (parameter_count == 3))
      || not (has_parameters frame destination parameter_count)
    then refused
    else if leb frame.live (destination + parameter_count)
    then refused
    else sub_text frame destination (live_text frame (destination + 1))
        (whole (frame.registers (destination + 2)))
        (if parameter_count == 3
          then whole (frame.registers (destination + 3))
          else some (negsuc 0))
