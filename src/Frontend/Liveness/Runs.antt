-- ===== src/Frontend/Liveness/Runs.antt =====
-- The theorems on pruning at a concrete package.
use luauc.Prelude.{
  ℕ, zero, suc, ◌≡◌, inr, refl, subst, true, false, none, some, List, [], ◌∷◌, arith, get_or,
}
use luauc.Frontend.Liveness.Syntax.{
  Location, Function, a_function, Stat, block, local_function, no_stats, then_stat,
}
use luauc.Frontend.Liveness.State.{local_declaration, Object, no_object, Analysis}
use luauc.Frontend.Liveness.Collect.{Visit, visit_local_function, visit_function}
use luauc.Frontend.Liveness.Run.{no_analysis, prune_package}
use luauc.Frontend.Liveness.Rewrite.{
  Edit, offset, edit_end, line_start, preserves_lines, is_break, checked_edit, place_and_text,
  edit_at, edit_function, add_edit, edits_of, insert_edit, sort_edits, blank_out, overwrite,
  apply_edits, rewritten_text,
}
use luauc.Frontend.Liveness.Places.{first_line, IsOutside}
use luauc.Frontend.Liveness.Untouched.{IsApart, rewritten_text-keeps}
use luauc.Frontend.Liveness.Lines.{Pruned, prune_package-Pruned}

-- The place of `local function f() end` on the first line, and its function.
abbrev a_place : Location
a_place = record { begin = record { line = 0; column = 0 }; end = record { line = 0; column = 22 } }

abbrev an_unused : Function
an_unused = a_function none [] false false a_place (block no_stats)

abbrev a_root : Stat
a_root = block (then_stat (local_function a_place (102 ∷ []) 1 2 an_unused) no_stats)

abbrev its_visits : List Visit
its_visits =
    visit_local_function 2 an_unused (local_declaration a_place (102 ∷ []))
    ∷ visit_function 2 an_unused
    ∷ []

-- `local function f() end` and a line feed.
abbrev its_bytes : List ℕ
its_bytes =
    108 ∷ 111 ∷ 99 ∷ 97 ∷ 108 ∷ 32 ∷ 102 ∷ 117 ∷ 110 ∷ 99 ∷ 116 ∷ 105 ∷ 111 ∷ 110 ∷ 32 ∷ 102 ∷ 40
    ∷ 41 ∷ 32 ∷ 101 ∷ 110 ∷ 100 ∷ 10 ∷ []

prune_package-Pruned_example : Pruned (its_bytes ∷ []) (
    prune_package
      (λ index source. some a_root)
      (λ root. its_visits)
      (λ index. true)
      (record { name = "main"; source = its_bytes } ∷ [])
      0)
prune_package-Pruned_example =
    prune_package-Pruned (λ index source. some a_root) (λ root. its_visits) (λ index. true)
      (record { name = "main"; source = its_bytes } ∷ []) 0

-- The state in which nothing reaches the function.
abbrev an_object : Object
an_object = record no_object {
  function = some an_unused;
  declaration = some (local_declaration a_place (102 ∷ []));
}

abbrev its_state : Analysis
its_state = record no_analysis { objects = an_object ∷ [] }

abbrev its_edit : Edit
its_edit = record {
  start = 0;
  end = 22;
  text = 108 ∷ 111 ∷ 99 ∷ 97 ∷ 108 ∷ 32 ∷ 102 ∷ 61 ∷ 110 ∷ 105 ∷ 108 ∷ [];
}

its_edit-found : edit_function its_bytes an_object (some an_unused) its_state ≡ some its_edit
unfolding edit_function edit_at checked_edit edit_end offset place_and_text preserves_lines is_break
    line_start
its_edit-found = refl

-- `local f=nil`, blanks, and the line feed.
abbrev new_bytes : List ℕ
new_bytes =
    108 ∷ 111 ∷ 99 ∷ 97 ∷ 108 ∷ 32 ∷ 102 ∷ 61 ∷ 110 ∷ 105 ∷ 108 ∷ 32 ∷ 32 ∷ 32 ∷ 32 ∷ 32 ∷ 32 ∷ 32
    ∷ 32 ∷ 32 ∷ 32 ∷ 32 ∷ 10 ∷ []

its_rewriting :
    rewritten_text true its_bytes (edits_of 0 its_bytes its_state.objects its_state)
    ≡ some new_bytes
unfolding rewritten_text edits_of add_edit sort_edits insert_edit apply_edits blank_out overwrite
    is_break
its_rewriting = rw its_edit-found refl

its_line_feed-IsOutside : IsOutside 22 its_bytes its_state an_object an_unused
its_line_feed-IsOutside = record {
  begin = 0;
  end = 22;
  is_begin = record {
    start = 0;
    starts = first_line;
    reached = λ l. refl;
    clamped = λ l. absurd (omega arith);
  };
  is_end = record {
    start = 0;
    starts = first_line;
    reached = λ l. refl;
    clamped = λ l. absurd (omega arith);
  };
  apart = inr (omega arith, λ (place, name_place, name, d, r) swallowed. cc);
}

its_line_feed-IsApart : IsApart 0 22 its_bytes its_state its_state.objects
its_line_feed-IsApart (suc k) object f g u h = cc
its_line_feed-IsApart zero object f g u h =
    let same : an_object ≡ object = ground arith in
    let its_function : an_unused ≡ f = ground (arith, same) in
    subst (λ o. IsOutside 22 its_bytes its_state o f) same
      (subst (λ g'. IsOutside 22 its_bytes its_state an_object g') its_function
        its_line_feed-IsOutside)

rewritten_text-keeps_example : get_or new_bytes 22 0 ≡ get_or its_bytes 22 0
rewritten_text-keeps_example =
    rewritten_text-keeps true 0 22 its_bytes new_bytes its_state its_line_feed-IsApart its_rewriting
