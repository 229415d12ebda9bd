-- ===== src/Runtime/Strings/Calls.antt =====
-- `luauc_runtime_v1_find_string` and `_match_string` of runtime/src/call_frame.cpp.
use luauc.Prelude.{
  ℕ, suc, ◌+◌, ◌-◌, Bool, true, false, not, ◌&&◌, ◌||◌, Option, none, some, List, [], ◌∷◌, ltb, leb,
  ◌==◌, if◌then◌else◌, length, drop,
}
use luauc.Prelude.Words.{int_max, ℤ, pos}
use luauc.Runtime.Strings.{
  Value, Frame, Reply, write, live_text, slice_string, first_position, whole, has_parameters, nil,
  string, refused, raised, done,
}
use luauc.Runtime.Strings.Search.{
  FindClass, has_byte, same_text, Search, search_of, starts_with, find_first, head_passes,
  match_length, at_length, publish, is_false, anchored_spaces, non_space, class_search, plain,
}

-- The captures of the four forms of a match: start and end of the first, and the start of the second.
pub record Captures : Type 0 where
  pub start : ℕ
  pub finish : ℕ
  pub second_start : ℕ

unfoldable pub split_at_colon : ℕ → Option ℕ → Option Captures
split_at_colon size none = none
split_at_colon size (some colon) =
    if colon == 0 || colon + 1 == size
    then none
    else some (record { start = 0; finish = colon; second_start = colon + 1 })

abbrev pub and_then : Reply → (Frame → Reply) → Reply
and_then refused next = refused
and_then raised next = raised
and_then (done frame) next = next frame

-- The captures as slices of the text in the register behind the destination.
unfoldable pub publish_captures : Frame → ℕ → ℕ → ℕ → List ℕ → Captures → Reply
publish_captures frame destination form result_count text c =
    let size = c.finish - c.start in
    and_then
      (slice_string frame destination (destination + 1) (if size == 0 then 0 else c.start) size)
      (λ first.
        if result_count == 2
        then if form == 0
          then slice_string first (destination + 1) (destination + 1) c.second_start
              (length text - c.second_start)
          else done (write first (destination + 1) nil)
        else done first)

module _ (is_space : ℕ → Bool) where
  -- The number of leading bytes that are space, or that are not.
  unfoldable pub count_spaces : Bool → List ℕ → ℕ
  count_spaces wanted [] = 0
  count_spaces true (b ∷ text) =
      let rest = count_spaces true text in if is_space b then suc rest else 0
  count_spaces false (b ∷ text) =
      let rest = count_spaces false text in if is_space b then 0 else suc rest

  unfoldable pub in_class : FindClass → ℕ → Bool
  in_class found b =
      (found.spaces && is_space b)
      || (found.non_spaces && not (is_space b))
      || has_byte b found.literals

  -- The place and the length of the match from offset `from` on; `text` is the rest of the text there.
  unfoldable pub search_from : Search → ℕ → List ℕ → Option (ℕ × ℕ)
  search_from anchored_spaces from text = some (from, count_spaces true text)
  search_from non_space from text =
      at_length 1 (find_first (head_passes (λ b. not (is_space b))) from text)
  search_from (class_search found) from text =
      at_length 1 (find_first (head_passes (in_class found)) from text)
  search_from (plain []) from text = some (from, 0)
  search_from (plain (n ∷ needle)) from text =
      at_length (suc (length needle)) (find_first (starts_with (n ∷ needle)) from text)

  unfoldable pub find_text : Search → ℤ → List ℕ → Option (ℕ × ℕ)
  find_text search init text =
      let from = first_position init (length text) in
      if leb from (length text + 1) && leb (match_length search + from) (length text + 1)
      then search_from search (from - 1) (drop (from - 1) text)
      else none

  unfoldable pub find_in :
      Frame → ℕ → ℕ → Option (List ℕ) → Option (List ℕ) → Option ℤ → Bool → Reply
  find_in frame destination result_count (some text) (some needle) (some init) pattern_mode =
      if leb int_max (length text) || ltb int_max (length needle)
      then refused
      else elim (search_of pattern_mode needle) [
        | none ↦ refused
        | some search ↦ done (publish frame destination result_count (find_text search init text))
      ]
  find_in frame destination result_count _ _ _ pattern_mode = refused

  unfoldable pub find_string : Frame → ℕ → ℕ → ℕ → Reply
  find_string frame destination parameter_count result_count =
      if ltb parameter_count 2
        || ltb 4 parameter_count
        || ltb result_count 1
        || ltb 2 result_count
        || not (has_parameters frame destination parameter_count)
      then refused
      else if leb frame.live (destination + parameter_count)
      then refused
      else find_in frame destination result_count (live_text frame (destination + 1))
          (live_text frame (destination + 2))
          (if leb 3 parameter_count
            then whole (frame.registers (destination + 3))
            else some (pos 1))
          (if parameter_count == 4 then is_false (frame.registers (destination + 4)) else true)

  -- The end without the trailing spaces, down to `start`: the length of the text up to its last byte that
  -- is no space.
  unfoldable pub trimmed : List ℕ → ℕ
  trimmed [] = 0
  trimmed (b ∷ text) = let rest = trimmed text in if rest == 0 && is_space b then 0 else suc rest

  unfoldable pub match_captures : ℕ → List ℕ → Option Captures
  match_captures form text =
      let spaces = count_spaces true text in
      let word = count_spaces false (drop spaces text) in
      let leading = count_spaces false text in
      if form == 0
      then split_at_colon (length text) (find_first (head_passes (λ b. b == 58)) 0 text)
      else if form == 1
      then if ltb 0 word
          && count_spaces true (drop (spaces + word) text) == length text - (spaces + word)
        then some (record { start = spaces; finish = spaces + word; second_start = 0 })
        else none
      else if form == 2
      then if leading == 0
        then none
        else some (record { start = 0; finish = leading; second_start = 0 })
      else some (record {
        start = spaces;
        finish = spaces + trimmed (drop spaces text);
        second_start = 0;
      })

  unfoldable pub match_text : Frame → ℕ → ℕ → ℕ → List ℕ → Reply
  match_text frame destination form result_count text =
      if leb int_max (length text) then refused else elim (match_captures form text) [
        | none ↦ done (publish frame destination result_count none)
        | some c ↦ publish_captures frame destination form result_count text c
      ]

  -- `constant` gives the constants of the proto, and none past their end or for one
  -- that is no scalar. Two texts are one object exactly
  -- if they are equal, since the virtual machine interns them.
  unfoldable pub match_source :
      Frame → ℕ → ℕ → ℕ → Option (List ℕ) → Option (List ℕ) → Option Value → Reply
  match_source frame destination form result_count (some text) (some pattern)
        (some (string expected)) =
      if same_text expected pattern
      then match_text frame destination form result_count text
      else refused
  match_source frame destination form result_count (some text) (some pattern) none = raised
  match_source frame destination form result_count _ _ _ = refused

  unfoldable pub match_string : (ℕ → Option Value) → Frame → ℕ → ℕ → ℕ → ℕ → Reply
  match_string constant frame destination form pattern_constant result_count =
      if ltb 3 form
        || ltb result_count 1
        || ltb 2 result_count
        || ltb frame.max_stack_size 3
        || ltb (frame.max_stack_size - 3) destination
        || ltb 0x7fff_ffff pattern_constant
        || not frame.safe_env
      then refused
      else match_source frame destination form result_count (live_text frame (destination + 1))
          (live_text frame (destination + 2)) (constant pattern_constant)
