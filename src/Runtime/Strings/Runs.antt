-- ===== src/Runtime/Strings/Runs.antt =====
-- The theorems on the string fast paths at concrete frames.
use luauc.Prelude.{◌≢◌, refl, true, some, [], ◌∷◌, arith, ◌==◌, if◌then◌else◌}
use luauc.Runtime.Strings.{pos, negsuc, string, Frame, raised, sub_range}
use luauc.Runtime.Strings.Calls.{match_string}
use luauc.Runtime.Strings.Sub.{Selects, sub_range-Selects}
use luauc.Runtime.Strings.Match.{match_string-ne-raised}

-- From the second position to the second one from the end, in a text of five bytes.
sub_range-Selects_example : Selects (pos 2) (negsuc 1) 5 (sub_range (pos 2) (negsuc 1) 5)
sub_range-Selects_example = sub_range-Selects (pos 2) (negsuc 1) 5

-- `k:v` in register 1, and the pattern in register 2 and in constant 0.
abbrev a_frame : Frame
a_frame = record {
  max_stack_size = 3;
  safe_env = true;
  live = 3;
  ci_top = 4;
  registers = λ r. if r == 1 then string (107 ∷ 58 ∷ 118 ∷ []) else string (40 ∷ []);
}

match_string-ne-raised_example :
    match_string (λ b. b == 32) (λ id. some (string (40 ∷ []))) a_frame 0 0 0 2 ≢ raised
match_string-ne-raised_example =
    match_string-ne-raised (λ b. b == 32) (λ id. some (string (40 ∷ []))) a_frame 0 0 0 2
      (string (40 ∷ [])) (omega arith) refl
