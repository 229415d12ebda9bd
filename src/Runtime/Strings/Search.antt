-- ===== src/Runtime/Strings/Search.antt =====
-- What a pattern asks for, and the search for it: `simpleFindClass` and the loops of
-- `luauc_runtime_v1_find_string`, of runtime/src/call_frame.cpp.
use luauc.Prelude.{
  ℕ, ◌+◌, ◌-◌, Bool, true, false, not, ◌&&◌, ◌||◌, Option, none, some, List, [], ◌∷◌, ◌++◌, ltb,
  ◌==◌, if◌then◌else◌, length, take, drop, get_or,
}
use luauc.Prelude.Words.{pos}
use luauc.Runtime.Strings.{Value, Frame, write, nil, boolean, number}

pub record FindClass : Type 0 where
  pub spaces : Bool
  pub non_spaces : Bool
  pub literals : List ℕ

-- The loop over the bytes between the brackets; `escape` says that the byte before was `%`.
unfoldable pub class_loop : Bool → List ℕ → FindClass → Option FindClass
class_loop false [] found = some found
class_loop true [] found = none
class_loop true (b ∷ rest) found =
    let with_spaces = class_loop false rest (record found { spaces = true }) in
    let with_non_spaces = class_loop false rest (record found { non_spaces = true }) in
    if b == 115 then with_spaces else (if b == 83 then with_non_spaces else none)
class_loop false (b ∷ rest) found =
    let escaped = class_loop true rest found in
    let literal = class_loop false rest (record found { literals = found.literals ++ (b ∷ []) }) in
    if b == 45 || b == 93
    then none
    else if b == 37
    then escaped
    else if length found.literals == 16
    then none
    else literal

unfoldable pub simple_find_class : List ℕ → Option FindClass
simple_find_class pattern =
    let size = length pattern in
    if ltb size 3
      || not (get_or pattern 0 0 == 91)
      || not (get_or pattern (size - 1) 0 == 93)
      || get_or pattern 1 0 == 94
    then none
    else class_loop false (take (size - 2) (drop 1 pattern))
        (record { spaces = false; non_spaces = false; literals = [] })

-- `^$*+?.([%-`
abbrev pub special_bytes : List ℕ
special_bytes = 94 ∷ 36 ∷ 42 ∷ 43 ∷ 63 ∷ 46 ∷ 40 ∷ 91 ∷ 37 ∷ 45 ∷ []

unfoldable pub has_byte : ℕ → List ℕ → Bool
has_byte b [] = false
has_byte b (c ∷ cs) = b == c || has_byte b cs

unfoldable pub has_special : List ℕ → Bool
has_special [] = false
has_special (b ∷ bs) = has_byte b special_bytes || has_special bs

unfoldable pub same_text : List ℕ → List ℕ → Bool
same_text [] [] = true
same_text [] (b ∷ bs) = false
same_text (a ∷ more) [] = false
same_text (a ∷ more) (b ∷ bs) = a == b && same_text more bs

pub data Search : Type 0 where
  anchored_spaces : Search
  non_space : Search
  class_search : FindClass → Search
  plain : List ℕ → Search

unfoldable pub plain_search : List ℕ → Option FindClass → Option Search
plain_search needle (some found) = some (class_search found)
plain_search needle none = if has_special needle then none else some (plain needle)

-- What the pattern asks for; `none` is a pattern that the fast path leaves alone.
unfoldable pub search_of : Bool → List ℕ → Option Search
search_of false needle = some (plain needle)
search_of true needle =
    if same_text needle (94 ∷ 37 ∷ 115 ∷ 42 ∷ [])
    then some anchored_spaces
    else (if same_text needle (37 ∷ 83 ∷ [])
        then some non_space
        else plain_search needle (simple_find_class needle))

unfoldable pub starts_with : List ℕ → List ℕ → Bool
starts_with [] text = true
starts_with (n ∷ needle) [] = false
starts_with (n ∷ needle) (b ∷ text) = n == b && starts_with needle text

-- The first place from `index` on whose rest of the text passes the test.
unfoldable pub find_first : (List ℕ → Bool) → ℕ → List ℕ → Option ℕ
find_first test index [] = none
find_first test index (b ∷ text) =
    let later = find_first test (index + 1) text in if test (b ∷ text) then some index else later

abbrev pub head_passes : (ℕ → Bool) → List ℕ → Bool
head_passes test [] = false
head_passes test (b ∷ text) = test b

unfoldable pub match_length : Search → ℕ
match_length anchored_spaces = 0
match_length non_space = 1
match_length (class_search found) = 1
match_length (plain needle) = length needle

abbrev pub at_length : ℕ → Option ℕ → Option (ℕ × ℕ)
at_length size none = none
at_length size (some found) = some (found, size)

-- The results: the positions of the first and the last byte, or nil.
unfoldable pub publish : Frame → ℕ → ℕ → Option (ℕ × ℕ) → Frame
publish frame destination result_count none =
    let first = write frame destination nil in
    record (if result_count == 2 then write first (destination + 1) nil else first) {
      live = frame.ci_top;
    }
publish frame destination result_count (some (found, size)) =
    let first = write frame destination (number (some (pos (found + 1)))) in
    record (if result_count == 2
      then write first (destination + 1) (number (some (pos (found + size))))
      else first) { live = frame.ci_top }

abbrev pub is_false : Value → Bool
is_false nil = true
is_false (boolean b) = not b
is_false _ = false
