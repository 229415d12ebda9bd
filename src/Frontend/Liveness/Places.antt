-- ===== src/Frontend/Liveness/Places.antt =====
-- Where `rewrite` of frontend/package_liveness.h may write for one function: its own place in lines
-- and columns, and what stands behind a statement that goes as a whole.
use luauc.Prelude.{
  ℕ, zero, suc, ◌+◌, ◌-◌, ◌≤◌, ◌<◌, ◌≡◌, ◌≢◌, ◌⊎◌, inl, inr, refl, ap, sym, ◌∙◌, subst, Bool, true,
  ◌||◌, Option, none, some, List, [], ◌∷◌, ◌++◌, arith, ltb, ◌==◌, length, drop, get_or, Bool-cases,
  get_or-outside,
}
use luauc.Frontend.Liveness.Syntax.{Position, Location, Expr, Function, a_function}
use luauc.Frontend.Liveness.State.{
  Declaration, local_declaration, function_declaration, Object, Analysis,
}
use luauc.Frontend.Liveness.Rewrite.{
  Edit, line_start, offset, removable_field, function_place, place_and_text, name_text, skip_blanks,
  edit_end, checked_edit, edit_at, edit_function,
}

-- The place of a function in the source: that of its declaration, where it has one.
abbrev pub declared_place : Option Declaration → Location → Location
declared_place none place = place
declared_place (some (local_declaration place name)) own = place
declared_place (some (function_declaration place name_place name)) own = place

abbrev pub own_place : Object → Function → Location
own_place object (a_function self params vararg native location body) =
    declared_place object.declaration location

-- A blank of the source, which is a space, a tab or a line break.
abbrev pub IsBlank : ℕ → Type 0
IsBlank byte = (byte ≡ 32) ⊎ (byte ≡ 9) ⊎ (byte ≡ 13) ⊎ (byte ≡ 10)

-- Byte `j` is the semicolon behind a place that ends at `end`, or one of the blanks before it: only
-- blanks stand between.
pub record IsSwallowed (source : List ℕ) (end j : ℕ) : Type 0 where
  pub semicolon : ℕ
  pub behind : end ≤ j
  pub before : j ≤ semicolon
  pub inside : semicolon < length source
  pub is_semicolon : get_or source semicolon 0 ≡ 59
  pub blanks : (i : ℕ) → end ≤ i → i < semicolon → IsBlank (get_or source i 0)

-- The object is declared by a statement that assigns a field which nothing reads: the whole
-- statement goes.
abbrev pub IsRemoved : Object → Analysis → Type 0
IsRemoved object s =
    (place : Location) × (name_place : Location) × (name : Expr) × (object.declaration
      ≡ some (function_declaration place name_place name))
    × (removable_field name object.module' s ≡ true)

-- Line `n` of a text starts at that offset: behind its first `n` line feeds, or at the end where it
-- has fewer.
pub data StartsAt : List ℕ → ℕ → ℕ → Type 0 where
  first_line : {bs : List ℕ} → StartsAt bs 0 0
  no_line : {n : ℕ} → StartsAt [] (suc n) 0
  same_line :
      {b n o : ℕ} {bs : List ℕ} → b ≢ 10 → StartsAt bs (suc n) o → StartsAt (b ∷ bs) (suc n) (suc o)
  next_line : {n o : ℕ} {bs : List ℕ} → StartsAt bs n o → StartsAt (10 ∷ bs) (suc n) (suc o)

-- The position is at that offset: so many columns behind the start of its line, or at the end of
-- the text if that is nearer.
pub record IsOffset (source : List ℕ) (position : Position) (o : ℕ) : Type 0 where
  pub start : ℕ
  pub starts : StartsAt source position.line start
  pub reached : start + position.column ≤ length source → o ≡ start + position.column
  pub clamped : length source < start + position.column → o ≡ length source

-- Byte `j` lies before the place of the function, or behind it. Behind a statement that goes as a
-- whole it is not the semicolon of that statement, nor a blank before it.
pub record IsOutside (j : ℕ) (source : List ℕ) (s : Analysis) (object : Object) (f : Function)
    : Type 0 where
  pub begin : ℕ
  pub end : ℕ
  pub is_begin : IsOffset source (own_place object f).begin begin
  pub is_end : IsOffset source (own_place object f).end end
  pub apart : (j < begin) ⊎ ((end ≤ j) × (IsRemoved object s → ¬ IsSwallowed source end j))

line_start-StartsAt :
    {bs : List ℕ} {n o : ℕ} → StartsAt bs n o → (cursor : ℕ) → line_start bs n cursor ≡ cursor + o
unfolding line_start
line_start-StartsAt {bs = []} first_line cursor = omega arith
line_start-StartsAt {bs = b ∷ bs} first_line cursor = omega arith
line_start-StartsAt no_line cursor = omega arith
line_start-StartsAt (same_line ne rest) cursor =
    ground (arith, ne, line_start-StartsAt rest (suc cursor))
line_start-StartsAt (next_line rest) cursor = ground (arith, line_start-StartsAt rest (suc cursor))

offset-IsOffset :
    (source : List ℕ) (position : Position) (o : ℕ)
    → IsOffset source position o
    → offset source position ≡ o
unfolding offset
offset-IsOffset source position o at =
    let start = line_start-StartsAt at.starts 0 in
    elim (Bool-cases (ltb (length source) (at.start + position.column))) [
      | inl c ↦ ground (arith, start, at.clamped (ground (arith, c)), c)
      | inr c ↦ ground (arith, start, at.reached (ground (arith, c)), c)
    ]

get_or-drop : (bs : List ℕ) (end i : ℕ) → get_or (drop end bs) i 0 ≡ get_or bs (end + i) 0
get_or-drop bs zero i = ground arith
get_or-drop [] (suc end) i = refl
get_or-drop (b ∷ bs) (suc end) i = ground (arith, get_or-drop bs end i)

byte-IsBlank : (b : ℕ) → (b == 32 || b == 9 || b == 13 || b == 10) ≡ true → IsBlank b
byte-IsBlank b e = elim (Bool-cases (b == 32)) [
  | inl p ↦ inl (ground arith)
  | inr p ↦ elim (Bool-cases (b == 9)) [
    | inl q ↦ inr (inl (ground arith))
    | inr q ↦ elim (Bool-cases (b == 13)) [
      | inl t ↦ inr (inr (inl (ground arith)))
      | inr t ↦ inr (inr (inr (ground arith)))
    ]
  ]
]

first-IsBlank :
    (b : ℕ) (bs : List ℕ) (passed : ℕ)
    → IsBlank b
    → ((i : ℕ) → i < passed → IsBlank (get_or bs i 0))
    → (i : ℕ) → i < suc passed
    → IsBlank (get_or (b ∷ bs) i 0)
first-IsBlank b bs passed e rest zero l = e
first-IsBlank b bs passed e rest (suc i) l = rest i (omega arith)

byte_at-IsBlank :
    (source : List ℕ) (end i passed : ℕ)
    → end ≤ i
    → ((k : ℕ) → k < passed → IsBlank (get_or (drop end source) k 0))
    → i < end + passed
    → IsBlank (get_or source i 0)
byte_at-IsBlank source end i passed l rest m =
    let place : end + (i - end) ≡ i = omega arith in
    subst IsBlank (get_or-drop source end (i - end) ∙ ap (λ k. get_or source k 0) place)
      (rest (i - end) (omega arith))

-- What the loop over the blanks passes, and where it stops.
record Stops (bs : List ℕ) (next : ℕ) (result : Bool × ℕ) : Type 0 where
  passed : ℕ
  stop : result.1 ≡ next + passed
  blanks : (i : ℕ) → i < passed → IsBlank (get_or bs i 0)
  found : result.0 ≡ true → get_or bs passed 0 ≡ 59

skip_blanks-Stops : (bs : List ℕ) (next : ℕ) → Stops bs next (skip_blanks bs next)
unfolding skip_blanks
skip_blanks-Stops [] next = record {
  passed = 0;
  stop = omega arith;
  blanks = λ i l. absurd (omega arith);
  found = λ q. cc;
}
skip_blanks-Stops (b ∷ bs) next =
    let rest = skip_blanks-Stops bs (suc next) in
    elim (Bool-cases (b == 32 || b == 9 || b == 13 || b == 10)) [
      | inr e ↦ rw e (record {
        passed = 0;
        stop = omega arith;
        blanks = λ i l. absurd (omega arith);
        found = λ q. ground arith;
      })
      | inl e ↦ rw e (record {
        passed = suc rest.passed;
        stop = omega (arith, rest.stop);
        blanks = first-IsBlank b bs rest.passed (byte-IsBlank b e) rest.blanks;
        found = rest.found;
      })
    ]

filled : (xs ys : List ℕ) (a : ℕ) → (xs ++ (a ∷ ys)) ≢ []
filled [] ys a e = cc
filled (x ∷ xs) ys a e = cc

name_text-filled : (source : List ℕ) (place : Location) → name_text source place ≢ []
unfolding name_text
name_text-filled source place = filled _ _ _

-- The place of an edit is that of the function, and only a removed statement has no text.
its_place :
    (source : List ℕ) (s : Analysis) (object : Object) (f : Function)
    (declaration : Option Declaration)
    → object.declaration ≡ declaration
    → (own_place object f ≡ (place_and_text source object f declaration s).0)
      × ((place_and_text source object f declaration s).1 ≡ [] → IsRemoved object s)
unfolding place_and_text function_place
its_place source s object (a_function self params vararg native place body) none d =
    (ap (λ x. declared_place x place) d, λ e. cc)
its_place source s object (a_function self params vararg native place body)
      (some (local_declaration at name)) d =
    (ap (λ x. declared_place x place) d, λ e. cc)
its_place source s object (a_function self params vararg native place body)
      (some (function_declaration at name_place name)) d =
    (
      ap (λ x. declared_place x place) d,
      λ e. elim (Bool-cases (removable_field name object.module' s)) [
        | inl r ↦ (at, name_place, name, d, r)
        | inr r ↦ absurd (name_text-filled source name_place (ground (arith, r)))
      ],
    )

module _ (j : ℕ) (source : List ℕ) where
  filled_end : (end a : ℕ) (xs ys : List ℕ) → edit_end source end (xs ++ (a ∷ ys)) ≡ end
  unfolding edit_end
  filled_end end a [] ys = refl
  filled_end end a (x ∷ xs) ys = refl

  empty_end : (end : ℕ) → end ≤ j → ¬ IsSwallowed source end j → edit_end source end [] ≤ j
  unfolding edit_end
  empty_end end l apart =
      let next = (skip_blanks (drop end source) end).1 in
      let stops = skip_blanks-Stops (drop end source) end in
      elim (Bool-cases (skip_blanks (drop end source) end).0) [
        | inr e ↦ rw e l
        | inl e ↦ elim (Bool-cases (ltb next j)) [
          | inl before ↦ rw e (ground arith)
          | inr not_before ↦ absurd (
              apart (
                let semicolon : get_or source next 0 ≡ 59 =
                  ap (λ k. get_or source k 0) stops.stop
                  ∙ sym (get_or-drop source end stops.passed)
                  ∙ stops.found e in
                record {
                  semicolon = next;
                  behind = l;
                  before = ground arith;
                  inside = elim (Bool-cases (ltb next (length source))) [
                    | inl a ↦ ground arith
                    | inr a ↦ absurd (ground (arith, get_or-outside source next 0 (ground arith)))
                  ];
                  is_semicolon = semicolon;
                  blanks = λ i a b.
                      byte_at-IsBlank source end i (next - end) a
                        (λ k m. stops.blanks k (omega (arith, stops.stop))) (omega arith);
                }))
        ]
      ]

  -- An edit begins at its place, and ends with it or, for a removed statement, with the semicolon.
  edit_at-outside :
      (at : Location) (text : List ℕ) (removed : Type 0) (edit : Edit)
      → (text ≡ [] → removed)
      → edit_at source at text ≡ some edit
      → (j < offset source at.begin)
        ⊎ ((offset source at.end ≤ j) × (removed → ¬ IsSwallowed source (offset source at.end) j))
      → (j < edit.start) ⊎ (edit.end ≤ j)
  unfolding edit_at checked_edit
  edit_at-outside at text removed edit whole h (inl l) =
      let start : edit.start ≡ offset source at.begin = ground arith in inl (omega (arith, start))
  edit_at-outside at [] removed edit whole h (inr (l, apart)) =
      let end : edit.end ≡ edit_end source (offset source at.end) [] = ground arith in
      inr (omega (arith, end, empty_end (offset source at.end) l (apart (whole refl))))
  edit_at-outside at (b ∷ text) removed edit whole h (inr (l, apart)) =
      let end : edit.end ≡ edit_end source (offset source at.end) (b ∷ text) = ground arith in
      inr (omega (arith, end, filled_end (offset source at.end) b [] text))

  edit_function-outside :
      (s : Analysis) (object : Object) (f : Function) (edit : Edit)
      → edit_function source object (some f) s ≡ some edit
      → IsOutside j source s object f
      → (j < edit.start) ⊎ (edit.end ≤ j)
  unfolding edit_function
  edit_function-outside s object (a_function self params vararg native place body) edit h out =
      let f = a_function self params vararg native place body in
      let (same, whole) = its_place source s object f object.declaration refl in
      edit_at-outside (own_place object f) (place_and_text source object f object.declaration s).1
        (IsRemoved object s) edit whole (rw same (ground arith))
        (rw
          (
            offset-IsOffset source (own_place object f).begin out.begin out.is_begin,
            offset-IsOffset source (own_place object f).end out.end out.is_end,
          )
          out.apart)

  pub function_edit-outside :
      (s : Analysis) (object : Object) (f : Option Function) (edit : Edit)
      → ((g : Function) → f ≡ some g → IsOutside j source s object g)
      → edit_function source object f s ≡ some edit
      → (j < edit.start) ⊎ (edit.end ≤ j)
  unfolding edit_function
  function_edit-outside s object none edit out h = cc
  function_edit-outside s object (some f) edit out h =
      edit_function-outside s object f edit h (out f refl)
