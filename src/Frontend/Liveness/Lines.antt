-- ===== src/Frontend/Liveness/Lines.antt =====
-- Pruning moves no line: a rewritten source has the length of the source, and a line break exactly
-- where the source has one.
use luauc.Prelude.{
  ℕ, zero, suc, ◌-◌, ◌≤◌, ◌<◌, ◌≡◌, inl, inr, refl, sym, ◌∙◌, subst, Bool, true, false, ◌||◌,
  Option, none, some, List, [], ◌∷◌, map, arith, ltb, leb, ◌==◌, if◌then◌else◌, length, drop, All,
  Bool-cases,
}
use luauc.Frontend.Liveness.Syntax.{Location, Stat, Function}
use luauc.Frontend.Liveness.State.{Object, Analysis}
use luauc.Frontend.Liveness.Collect.{Visit}
use luauc.Frontend.Liveness.Rewrite.{
  Edit, is_break, preserves_lines, checked_edit, edit_at, edit_function, place_and_text, add_edit,
  edits_of, precedes, insert_edit, sort_edits, blank_out, overwrite, apply_edits, rewritten_text,
  rewrite_from, rewrite_sources,
}
use luauc.Frontend.Liveness.Run.{
  Source, finish_run, analyse, sizes_fit, parse_modules, prune_package,
}

-- A line break as itself, and any other byte as 0.
unfoldable pub break_of : ℕ → ℕ
break_of b = if is_break b then b else 0

pub data SameLines : List ℕ → List ℕ → Type 0 where
  no_bytes : SameLines [] []
  next_byte :
      {a b : ℕ} {before after : List ℕ}
      → break_of a ≡ break_of b
      → SameLines before after
      → SameLines (a ∷ before) (b ∷ after)

-- The results for some sources: none, or a text with the same lines.
pub data Pruned : List (List ℕ) → List (Option (List ℕ)) → Type 0 where
  no_sources : Pruned [] []
  kept :
      {s : List ℕ} {ss : List (List ℕ)} {rs : List (Option (List ℕ))}
      → Pruned ss rs
      → Pruned (s ∷ ss) (none ∷ rs)
  replaced :
      {s new : List ℕ} {ss : List (List ℕ)} {rs : List (Option (List ℕ))}
      → SameLines s new
      → Pruned ss rs
      → Pruned (s ∷ ss) (some new ∷ rs)

pub SameLines-refl : (bs : List ℕ) → SameLines bs bs
SameLines-refl [] = no_bytes
SameLines-refl (b ∷ bs) = next_byte refl (SameLines-refl bs)

pub SameLines-trans : {a b c : List ℕ} → SameLines a b → SameLines b c → SameLines a c
SameLines-trans no_bytes no_bytes = no_bytes
SameLines-trans (next_byte e p) (next_byte f q) = next_byte (e ∙ f) (SameLines-trans p q)

blanked : (b : ℕ) → break_of b ≡ break_of (if is_break b then b else 32)
unfolding is_break break_of
blanked b = ground arith

covered : (b t : ℕ) → is_break b ≡ false → is_break t ≡ false → break_of b ≡ break_of t
unfolding break_of
covered b t h g = rw (h, g) refl

pub blank_out-SameLines : (bs : List ℕ) (start count : ℕ) → SameLines bs (blank_out bs start count)
unfolding blank_out
blank_out-SameLines [] start count = no_bytes
blank_out-SameLines (b ∷ bs) (suc start) count = next_byte refl (blank_out-SameLines bs start count)
blank_out-SameLines (b ∷ bs) zero (suc count) =
    next_byte (blanked b) (blank_out-SameLines bs zero count)
blank_out-SameLines (b ∷ bs) zero zero = SameLines-refl (b ∷ bs)

preserves_lines-head :
    (b t : ℕ) (bs text : List ℕ)
    → preserves_lines (b ∷ bs) (t ∷ text) ≡ true
    → (is_break b ≡ false) × (is_break t ≡ false) × (preserves_lines bs text ≡ true)
unfolding preserves_lines
preserves_lines-head b t bs text h = (ground arith, ground arith, ground arith)

pub overwrite-SameLines :
    (bs : List ℕ) (start : ℕ) (text : List ℕ)
    → preserves_lines (drop start bs) text ≡ true
    → SameLines bs (overwrite bs start text)
unfolding overwrite
overwrite-SameLines [] start text h = no_bytes
overwrite-SameLines (b ∷ bs) (suc start) text h =
    next_byte refl (overwrite-SameLines bs start text h)
overwrite-SameLines (b ∷ bs) zero (t ∷ text) h =
    let (e, f, rest) = preserves_lines-head b t bs text h in
    next_byte (covered b t e f) (overwrite-SameLines bs zero text rest)
overwrite-SameLines (b ∷ bs) zero [] h = SameLines-refl (b ∷ bs)

same_break : (a b : ℕ) → break_of a ≡ break_of b → is_break a ≡ is_break b
unfolding break_of is_break
same_break a b h = ground arith

-- Whether an edit touches a line break depends on the line breaks only.
pub preserves_lines-SameLines :
    {before after : List ℕ}
    → SameLines before after
    → (start : ℕ) (text : List ℕ)
    → preserves_lines (drop start before) text ≡ preserves_lines (drop start after) text
unfolding preserves_lines
preserves_lines-SameLines no_bytes start text = refl
preserves_lines-SameLines (next_byte e p) (suc start) text = preserves_lines-SameLines p start text
preserves_lines-SameLines (next_byte e p) zero [] = refl
preserves_lines-SameLines (next_byte {a} {b} e p) zero (t ∷ text) =
    rw (same_break a b e, preserves_lines-SameLines p zero text) refl

-- The edit's text sizes_fit in its place and touches no line break.
pub record IsChecked (source : List ℕ) (edit : Edit) : Type 0 where
  pub placed : edit.start < edit.end
  pub short : length edit.text ≤ edit.end - edit.start
  pub preserving : preserves_lines (drop edit.start source) edit.text ≡ true

checked_edit-accepted :
    (source : List ℕ) (edit found : Edit)
    → checked_edit source edit ≡ some found
    → (edit ≡ found)
      × (edit.start < edit.end)
      × (length edit.text ≤ edit.end - edit.start)
      × (preserves_lines (drop edit.start source) edit.text ≡ true)
unfolding checked_edit
checked_edit-accepted source edit found h = (ground arith, ground arith, ground arith, ground arith)

pub checked_edit-IsChecked :
    (source : List ℕ) (edit found : Edit)
    → checked_edit source edit ≡ some found
    → IsChecked source found
checked_edit-IsChecked source edit found h =
    let (e, l, s, p) = checked_edit-accepted source edit found h in
    subst (λ (x : Edit). IsChecked source x) e (record { placed = l; short = s; preserving = p })

pub apply_edits-SameLines :
    (edits : List Edit) (end : ℕ) (source rewritten : List ℕ)
    → All (IsChecked source) edits
    → SameLines source rewritten
    → SameLines source (apply_edits edits end rewritten)
unfolding apply_edits
apply_edits-SameLines [] end source rewritten c p = p
apply_edits-SameLines (edit ∷ rest) end source rewritten (c, cs) p =
    elim (Bool-cases (ltb edit.start end)) [
      | inl e ↦ rw e (apply_edits-SameLines rest end source rewritten cs p)
      | inr e ↦ rw e (
          let blanked = blank_out-SameLines rewritten edit.start (edit.end - edit.start) in
          apply_edits-SameLines rest edit.end source _ cs (
            SameLines-trans p (
              SameLines-trans blanked (
                overwrite-SameLines _ edit.start edit.text (
                  sym (preserves_lines-SameLines (SameLines-trans p blanked) edit.start edit.text)
                  ∙ c.preserving)))))
    ]

edit_at-IsChecked :
    (source : List ℕ) (place : Location) (text : List ℕ) (edit : Edit)
    → edit_at source place text ≡ some edit
    → IsChecked source edit
unfolding edit_at
edit_at-IsChecked source place text edit h = checked_edit-IsChecked source _ edit h

pub edit_function-IsChecked :
    (source : List ℕ) (object : Object) (f : Option Function) (s : Analysis) (edit : Edit)
    → edit_function source object f s ≡ some edit
    → IsChecked source edit
unfolding edit_function
edit_function-IsChecked source object none s edit h = cc
edit_function-IsChecked source object (some f) s edit h =
    let found = place_and_text source object f object.declaration s in
    edit_at-IsChecked source found.0 found.1 edit (ground arith)

add_edit-IsChecked :
    (source : List ℕ) (found : Option Edit) (edits : List Edit)
    → ((edit : Edit) → found ≡ some edit → IsChecked source edit)
    → All (IsChecked source) edits
    → All (IsChecked source) (add_edit found edits)
unfolding add_edit
add_edit-IsChecked source none edits h c = c
add_edit-IsChecked source (some edit) edits h c = (h edit refl, c)

edits_of-IsChecked :
    (index : ℕ) (source : List ℕ) (objects : List Object) (s : Analysis)
    → All (IsChecked source) (edits_of index source objects s)
unfolding edits_of
edits_of-IsChecked index source [] s = tt
edits_of-IsChecked index source (object ∷ objects) s = elim (Bool-cases (object.module' == index)) [
  | inl e ↦ rw e (
      add_edit-IsChecked source (edit_function source object object.function s) _
        (edit_function-IsChecked source object object.function s)
        (edits_of-IsChecked index source objects s))
  | inr e ↦ rw e (edits_of-IsChecked index source objects s)
]

insert_edit-All :
    (source : List ℕ) (edit : Edit) (edits : List Edit)
    → IsChecked source edit
    → All (IsChecked source) edits
    → All (IsChecked source) (insert_edit edit edits)
unfolding insert_edit
insert_edit-All source edit [] c cs = (c, tt)
insert_edit-All source edit (e ∷ es) c (d, ds) = elim (Bool-cases (precedes e edit)) [
  | inl p ↦ rw p (d, insert_edit-All source edit es c ds)
  | inr p ↦ rw p (c, (d, ds))
]

sort_edits-All :
    (source : List ℕ) (edits : List Edit)
    → All (IsChecked source) edits
    → All (IsChecked source) (sort_edits edits)
unfolding sort_edits
sort_edits-All source [] c = tt
sort_edits-All source (e ∷ es) (c, cs) =
    insert_edit-All source e (sort_edits es) c (sort_edits-All source es cs)

rewritten_text-Pruned :
    (allocated : Bool) (source : List ℕ) (edits : List Edit) {ss : List (List ℕ)}
    {rs : List (Option (List ℕ))}
    → All (IsChecked source) edits
    → Pruned ss rs
    → Pruned (source ∷ ss) (rewritten_text allocated source edits ∷ rs)
unfolding rewritten_text
rewritten_text-Pruned allocated source [] c p = kept p
rewritten_text-Pruned true source (e ∷ es) c p =
    replaced
      (apply_edits-SameLines (sort_edits (e ∷ es)) 0 source source
        (sort_edits-All source (e ∷ es) c) (SameLines-refl source))
      p
rewritten_text-Pruned false source (e ∷ es) c p = kept p

rewrite_from-Pruned :
    (allocated : ℕ → Bool) (index : ℕ) (sources : List (List ℕ)) (s : Analysis)
    → Pruned sources (rewrite_from allocated index sources s)
unfolding rewrite_from
rewrite_from-Pruned allocated index [] s = no_sources
rewrite_from-Pruned allocated index (source ∷ sources) s =
    rewritten_text-Pruned (allocated index) source (edits_of index source s.objects s)
      (edits_of-IsChecked index source s.objects s)
      (rewrite_from-Pruned allocated (suc index) sources s)

finish_run-Pruned :
    (allocated : ℕ → Bool) (sources : List Source) (found : Option Analysis)
    → Pruned (map (λ (s : Source). s.source) sources) (finish_run allocated sources found)
unfolding finish_run rewrite_sources
finish_run-Pruned allocated [] none = no_sources
finish_run-Pruned allocated (s ∷ ss) none = kept (finish_run-Pruned allocated ss none)
finish_run-Pruned allocated sources (some s) =
    rewrite_from-Pruned allocated 0 (map (λ (s : Source). s.source) sources) s

-- Whatever the parser, the visit and the allocator give, pruning a package leaves each source without a
-- rewritten text, or with one of its length that has a line feed or carriage return exactly where the
-- source has the same one.
pub prune_package-Pruned :
    (parse : ℕ → List ℕ → Option Stat) (visits : Stat → List Visit) (allocated : ℕ → Bool)
    (sources : List Source) (entry : ℕ)
    → Pruned
        (map (λ (s : Source). s.source) sources)
        (prune_package parse visits allocated sources entry)
unfolding prune_package
prune_package-Pruned parse visits allocated sources entry =
    elim (Bool-cases
      (leb (length sources) entry || (if sizes_fit sources 0 then false else true))) [
        | inl e ↦ rw e (finish_run-Pruned allocated sources none)
        | inr e ↦ rw e (
            finish_run-Pruned allocated sources (
              analyse parse visits allocated sources entry
                (parse_modules parse visits allocated sources 0)))
      ]
