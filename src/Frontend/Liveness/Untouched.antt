-- ===== src/Frontend/Liveness/Untouched.antt =====
-- Pruning touches no byte outside the places of functions that nothing reaches.
use luauc.Prelude.{
  ℕ, zero, suc, ◌+◌, ◌-◌, ◌≤◌, ◌<◌, ◌≡◌, ◌⊎◌, inl, inr, refl, sym, ◌∙◌, Bool, true, false, Option,
  none, some, List, [], ◌∷◌, arith, ltb, ◌==◌, length, All, get_or, get_elem?, Bool-cases,
}
use luauc.Frontend.Liveness.Syntax.{Function}
use luauc.Frontend.Liveness.State.{Object, Analysis}
use luauc.Frontend.Liveness.Places.{IsOutside, function_edit-outside}
use luauc.Frontend.Liveness.Lines.{edit_function-IsChecked}
use luauc.Frontend.Liveness.Rewrite.{
  Edit, edit_function, add_edit, edits_of, precedes, insert_edit, sort_edits, blank_out, overwrite,
  apply_edits, rewritten_text,
}

-- Byte `j` is outside the place of an edit whose text fits.
record Avoids (j : ℕ) (edit : Edit) : Type 0 where
  outside : (j < edit.start) ⊎ (edit.end ≤ j)
  short : length edit.text ≤ edit.end - edit.start
  placed : edit.start < edit.end

blank_out-outside :
    (bs : List ℕ) (start count j : ℕ)
    → (j < start) ⊎ (start + count ≤ j)
    → get_or (blank_out bs start count) j 0 ≡ get_or bs j 0
unfolding blank_out
blank_out-outside [] start count j h = refl
blank_out-outside (b ∷ bs) (suc start) count zero h = refl
blank_out-outside (b ∷ bs) (suc start) count (suc j) (inl l) =
    blank_out-outside bs start count j (inl (omega arith))
blank_out-outside (b ∷ bs) (suc start) count (suc j) (inr l) =
    blank_out-outside bs start count j (inr (omega arith))
blank_out-outside (b ∷ bs) zero (suc count) zero (inl l) = absurd (omega arith)
blank_out-outside (b ∷ bs) zero (suc count) zero (inr l) = absurd (omega arith)
blank_out-outside (b ∷ bs) zero (suc count) (suc j) (inl l) = absurd (omega arith)
blank_out-outside (b ∷ bs) zero (suc count) (suc j) (inr l) =
    blank_out-outside bs zero count j (inr (omega arith))
blank_out-outside (b ∷ bs) zero zero j h = refl

overwrite-outside :
    (bs : List ℕ) (start : ℕ) (text : List ℕ) (j : ℕ)
    → (j < start) ⊎ (start + length text ≤ j)
    → get_or (overwrite bs start text) j 0 ≡ get_or bs j 0
unfolding overwrite
overwrite-outside [] start text j h = refl
overwrite-outside (b ∷ bs) (suc start) text zero h = refl
overwrite-outside (b ∷ bs) (suc start) text (suc j) (inl l) =
    overwrite-outside bs start text j (inl (omega arith))
overwrite-outside (b ∷ bs) (suc start) text (suc j) (inr l) =
    overwrite-outside bs start text j (inr (omega arith))
overwrite-outside (b ∷ bs) zero (t ∷ text) zero (inl l) = absurd (omega arith)
overwrite-outside (b ∷ bs) zero (t ∷ text) zero (inr l) = absurd (omega arith)
overwrite-outside (b ∷ bs) zero (t ∷ text) (suc j) (inl l) = absurd (omega arith)
overwrite-outside (b ∷ bs) zero (t ∷ text) (suc j) (inr l) =
    overwrite-outside bs zero text j (inr (omega arith))
overwrite-outside (b ∷ bs) zero [] j h = refl

edited :
    (rewritten : List ℕ) (edit : Edit) (j : ℕ)
    → Avoids j edit
    → get_or
        (overwrite (blank_out rewritten edit.start (edit.end - edit.start)) edit.start edit.text)
        j
        0
      ≡ get_or rewritten j 0
edited rewritten edit j a = elim (a.outside) [
  | inl l ↦
      overwrite-outside _ edit.start edit.text j (inl l)
      ∙ blank_out-outside rewritten edit.start (edit.end - edit.start) j (inl l)
  | inr l ↦
      overwrite-outside _ edit.start edit.text j (inr (omega (arith, a.short, a.placed)))
      ∙ blank_out-outside rewritten edit.start (edit.end - edit.start) j
          (inr (omega (arith, a.placed)))
]

apply_edits-outside :
    (edits : List Edit) (end : ℕ) (rewritten : List ℕ) (j : ℕ)
    → All (Avoids j) edits
    → get_or (apply_edits edits end rewritten) j 0 ≡ get_or rewritten j 0
unfolding apply_edits
apply_edits-outside [] end rewritten j c = refl
apply_edits-outside (edit ∷ rest) end rewritten j (c, cs) = elim (Bool-cases (ltb edit.start end)) [
  | inl e ↦ rw e (apply_edits-outside rest end rewritten j cs)
  | inr e ↦ rw e (apply_edits-outside rest edit.end _ j cs ∙ edited rewritten edit j c)
]

insert_edit-outside :
    (j : ℕ) (edit : Edit) (edits : List Edit)
    → Avoids j edit
    → All (Avoids j) edits
    → All (Avoids j) (insert_edit edit edits)
unfolding insert_edit
insert_edit-outside j edit [] c cs = (c, tt)
insert_edit-outside j edit (e ∷ es) c (d, ds) = elim (Bool-cases (precedes e edit)) [
  | inl p ↦ rw p (d, insert_edit-outside j edit es c ds)
  | inr p ↦ rw p (c, (d, ds))
]

sort_edits-outside :
    (j : ℕ) (edits : List Edit) → All (Avoids j) edits → All (Avoids j) (sort_edits edits)
unfolding sort_edits
sort_edits-outside j [] c = tt
sort_edits-outside j (e ∷ es) (c, cs) =
    insert_edit-outside j e (sort_edits es) c (sort_edits-outside j es cs)

-- A function of module `index` that the analysis has found no way to.
pub record IsUnreached (index : ℕ) (object : Object) : Type 0 where
  pub here : object.module' ≡ index
  pub inactive : object.active ≡ false
  pub unobserved : object.observed ≡ false
  pub kept_in : object.escaped ≡ false

-- Byte `j` is outside the place of each such function among the objects.
abbrev pub IsApart : ℕ → ℕ → List ℕ → Analysis → List Object → Type 0
IsApart index j source s objects =
    (k : ℕ) (object : Object) (f : Function)
    → get_elem? objects k ≡ some object
    → IsUnreached index object
    → object.function ≡ some f
    → IsOutside j source s object f

unreached :
    (index : ℕ) (source : List ℕ) (object : Object) (f : Option Function) (s : Analysis)
    (edit : Edit)
    → object.module' ≡ index
    → edit_function source object f s ≡ some edit
    → IsUnreached index object
unfolding edit_function
unreached index source object none s edit here h = cc
unreached index source object (some f) s edit here h = record {
  here = here;
  inactive = ground arith;
  unobserved = ground arith;
  kept_in = ground arith;
}

added-outside :
    (source : List ℕ) (j : ℕ) (found : Option Edit) (edits : List Edit)
    → ((edit : Edit) → found ≡ some edit → Avoids j edit)
    → All (Avoids j) edits
    → All (Avoids j) (add_edit found edits)
unfolding add_edit
added-outside source j none edits h c = c
added-outside source j (some edit) edits h c = (h edit refl, c)

edits_of-outside :
    (index j : ℕ) (source : List ℕ) (objects : List Object) (s : Analysis)
    → IsApart index j source s objects
    → All (Avoids j) (edits_of index source objects s)
unfolding edits_of
edits_of-outside index j source [] s apart = tt
edits_of-outside index j source (object ∷ objects) s apart =
    let rest = edits_of-outside index j source objects s (λ k o f g u h. apart (suc k) o f g u h) in
    elim (Bool-cases (object.module' == index)) [
      | inr e ↦ rw e rest
      | inl e ↦ rw e (
          added-outside source j (edit_function source object object.function s) _
            (λ edit h.
              let c = edit_function-IsChecked source object object.function s edit h in
              record {
                outside =
                    function_edit-outside j source s object object.function edit
                      (λ f g.
                        apart 0 object f refl
                          (unreached index source object object.function s edit (ground arith) h) g)
                      h;
                short = c.short;
                placed = c.placed;
              })
            rest)
    ]

-- A byte of a rewritten source is the byte of the source unless it lies in the place, in lines and
-- columns, of the declaration of a function of that module which is neither active nor observed nor
-- escaped, or of the function itself where it has no declaration. The only other bytes that may
-- change are, behind a function statement that goes as a whole since nothing reads its field, the
-- semicolon that follows and the blanks before it.
pub rewritten_text-keeps :
    (allocated : Bool) (index j : ℕ) (source new : List ℕ) (s : Analysis)
    → IsApart index j source s s.objects
    → rewritten_text allocated source (edits_of index source s.objects s) ≡ some new
    → get_or new j 0 ≡ get_or source j 0
unfolding rewritten_text
rewritten_text-keeps allocated index j source new s apart h =
    go allocated (edits_of index source s.objects s)
      (edits_of-outside index j source s.objects s apart) h
  where
    go :
        (allocated : Bool) (edits : List Edit)
        → All (Avoids j) edits
        → rewritten_text allocated source edits ≡ some new
        → get_or new j 0 ≡ get_or source j 0
    go allocated [] c e = cc
    go false (x ∷ xs) c e = cc
    go true (x ∷ xs) c e =
        let same : apply_edits (sort_edits (x ∷ xs)) 0 source ≡ new = ground arith in
        rw (sym same)
          (apply_edits-outside (sort_edits (x ∷ xs)) 0 source j (sort_edits-outside j (x ∷ xs) c))
