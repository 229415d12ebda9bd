-- ===== src/Frontend/Liveness/Rewrite.antt =====
-- `offset`, `removableField` and `rewrite` of `Analysis` in frontend/package_liveness.h: the functions
-- that stayed out of reach are blanked out of the sources.
use luauc.Prelude.{
  ℕ, zero, suc, ◌+◌, ◌-◌, Bool, true, false, not, ◌&&◌, ◌||◌, Option, none, some, List, [], ◌∷◌,
  ◌++◌, ltb, leb, ◌==◌, if◌then◌else◌, get_or, length, drop, take, String, str_eq,
}
use luauc.Frontend.Liveness.Syntax.{
  Position, Location, Expr, local_ref, table, index_name, Function, a_function,
}
use luauc.Frontend.Liveness.State.{
  Declaration, local_declaration, function_declaration, Object, Analysis, object_at, lookup_node,
  member,
}

-- The offset of the first byte of a line: the bytes up to the line's number of line feeds.
unfoldable pub line_start : List ℕ → ℕ → ℕ → ℕ
line_start [] lines cursor = cursor
line_start (b ∷ bs) zero cursor = cursor
line_start (b ∷ bs) (suc lines) cursor =
    line_start bs (if b == 10 then lines else suc lines) (suc cursor)

unfoldable pub offset : List ℕ → Position → ℕ
offset source position =
    let reached = line_start source position.line 0 + position.column in
    if ltb reached (length source) then reached else length source

unfoldable pub mem_string : String → List String → Bool
mem_string key [] = false
mem_string key (k ∷ ks) = str_eq k key || mem_string key ks

unfoldable pub find_initializer : ℕ → List (ℕ × Expr) → Option Expr
find_initializer local [] = none
find_initializer local ((l, v) ∷ rest) = if l == local then some v else find_initializer local rest

unfoldable pub unread : String → Object → Bool
unread key object = not object.escaped && not (mem_string key object.reads)

unfoldable pub with_initializer : Option Expr → (Expr → Bool) → Bool
with_initializer none test = false
with_initializer (some value) test = test value

-- The loop from the base of the field through initializers that nothing assigns over.
unfoldable pub removable_base : ℕ → String → Expr → Analysis → Bool
removable_base zero key base s = false
removable_base (suc depth) key (table node items) s =
    unread key (object_at s (lookup_node node s.identities))
removable_base (suc depth) key (local_ref local) s =
    not (member local s.assigned)
    && with_initializer (find_initializer local s.initializers)
        (λ value. removable_base depth key value s)
removable_base (suc depth) key _ s = false

unfoldable pub removable_name : Expr → Analysis → Bool
removable_name (index_name base key) s = removable_base (suc (length s.initializers)) key base s
removable_name _ s = false

unfoldable pub removable_field : Expr → ℕ → Analysis → Bool
removable_field name module' s = not (get_or s.module_gotos module' false) && removable_name name s

pub record Edit : Type 0 where
  pub start : ℕ
  pub end : ℕ
  pub text : List ℕ

-- `nil`, `local ` and `=nil`
abbrev pub nil_text : List ℕ
nil_text = 110 ∷ 105 ∷ 108 ∷ []

abbrev pub local_text : List ℕ
local_text = 108 ∷ 111 ∷ 99 ∷ 97 ∷ 108 ∷ 32 ∷ []

abbrev pub is_nil_text : List ℕ
is_nil_text = 61 ∷ nil_text

-- `std::replace` of `:` by `.`
unfoldable pub dotted : List ℕ → List ℕ
dotted [] = []
dotted (b ∷ bs) = (if b == 58 then 46 else b) ∷ dotted bs

unfoldable pub function_place : Function → Location
function_place (a_function self params vararg native location body) = location

unfoldable pub name_text : List ℕ → Location → List ℕ
name_text source place =
    let start = offset source place.begin in
    dotted (take (offset source place.end - start) (drop start source)) ++ is_nil_text

-- The place of a function that is out of reach, and the text that takes it.
unfoldable pub place_and_text :
    List ℕ → Object → Function → Option Declaration → Analysis → Location × List ℕ
place_and_text source object f none s = (function_place f, nil_text)
place_and_text source object f (some (local_declaration place name)) s =
    (place, local_text ++ (name ++ is_nil_text))
place_and_text source object f (some (function_declaration place name_place name)) s =
    (place, if removable_field name object.module' s then [] else name_text source name_place)

-- After an emptied statement, a semicolon behind blanks goes with it.
unfoldable pub skip_blanks : List ℕ → ℕ → Bool × ℕ
skip_blanks [] next = (false, next)
skip_blanks (b ∷ bs) next =
    let rest = skip_blanks bs (suc next) in
    if b == 32 || b == 9 || b == 13 || b == 10 then rest else (b == 59, next)

unfoldable pub edit_end : List ℕ → ℕ → List ℕ → ℕ
edit_end source end (b ∷ text) = end
edit_end source end [] =
    let (semicolon, next) = skip_blanks (drop end source) end in if semicolon then next + 1 else end

unfoldable pub is_break : ℕ → Bool
is_break b = b == 10 || b == 13

unfoldable pub preserves_lines : List ℕ → List ℕ → Bool
preserves_lines source [] = true
preserves_lines [] (t ∷ text) = false
preserves_lines (b ∷ source) (t ∷ text) =
    not (is_break b || is_break t) && preserves_lines source text

-- The edit is kept if its text fits in its place and no line break is touched by it.
unfoldable pub checked_edit : List ℕ → Edit → Option Edit
checked_edit source edit =
    if leb edit.end edit.start || ltb (edit.end - edit.start) (length edit.text)
    then none
    else (if preserves_lines (drop edit.start source) edit.text then some edit else none)

unfoldable pub edit_at : List ℕ → Location → List ℕ → Option Edit
edit_at source place text = checked_edit source (record {
  start = offset source place.begin;
  end = edit_end source (offset source place.end) text;
  text = text;
})

unfoldable pub edit_function : List ℕ → Object → Option Function → Analysis → Option Edit
edit_function source object none s = none
edit_function source object (some f) s =
    let found = place_and_text source object f object.declaration s in
    if object.active || object.observed || object.escaped
    then none
    else edit_at source found.0 found.1

unfoldable pub add_edit : Option Edit → List Edit → List Edit
add_edit none edits = edits
add_edit (some edit) edits = edit ∷ edits

-- The edits of one module, in the order of the objects.
unfoldable pub edits_of : ℕ → List ℕ → List Object → Analysis → List Edit
edits_of index source [] s = []
edits_of index source (object ∷ objects) s =
    let rest = edits_of index source objects s in
    if object.module' == index
    then add_edit (edit_function source object object.function s) rest
    else rest

unfoldable pub precedes : Edit → Edit → Bool
precedes left right =
    if left.start == right.start then ltb right.end left.end else ltb left.start right.start

unfoldable pub insert_edit : Edit → List Edit → List Edit
insert_edit edit [] = edit ∷ []
insert_edit edit (e ∷ es) =
    let rest = insert_edit edit es in if precedes e edit then e ∷ rest else edit ∷ e ∷ es

unfoldable pub sort_edits : List Edit → List Edit
sort_edits [] = []
sort_edits (e ∷ es) = insert_edit e (sort_edits es)

-- All bytes of a place but its line breaks become blanks.
unfoldable pub blank_out : List ℕ → ℕ → ℕ → List ℕ
blank_out [] start count = []
blank_out (b ∷ bs) (suc start) count = b ∷ blank_out bs start count
blank_out (b ∷ bs) zero (suc count) = (if is_break b then b else 32) ∷ blank_out bs zero count
blank_out (b ∷ bs) zero zero = b ∷ bs

-- `memcpy` of a text to a place.
unfoldable pub overwrite : List ℕ → ℕ → List ℕ → List ℕ
overwrite [] start text = []
overwrite (b ∷ bs) (suc start) text = b ∷ overwrite bs start text
overwrite (b ∷ bs) zero (t ∷ text) = t ∷ overwrite bs zero text
overwrite (b ∷ bs) zero [] = b ∷ bs

unfoldable pub apply_edits : List Edit → ℕ → List ℕ → List ℕ
apply_edits [] end rewritten = rewritten
apply_edits (edit ∷ rest) end rewritten =
    if ltb edit.start end
    then apply_edits rest end rewritten
    else apply_edits rest edit.end
        (overwrite (blank_out rewritten edit.start (edit.end - edit.start)) edit.start edit.text)

-- No edits leave a source without a rewritten text, as does a failed allocation.
unfoldable pub rewritten_text : Bool → List ℕ → List Edit → Option (List ℕ)
rewritten_text allocated source [] = none
rewritten_text allocated source (e ∷ es) =
    if allocated then some (apply_edits (sort_edits (e ∷ es)) 0 source) else none

unfoldable pub rewrite_from : (ℕ → Bool) → ℕ → List (List ℕ) → Analysis → List (Option (List ℕ))
rewrite_from allocated index [] s = []
rewrite_from allocated index (source ∷ sources) s =
    rewritten_text (allocated index) source (edits_of index source s.objects s)
    ∷ rewrite_from allocated (suc index) sources s

unfoldable pub rewrite_sources : (ℕ → Bool) → List (List ℕ) → Analysis → List (Option (List ℕ))
rewrite_sources allocated sources s = rewrite_from allocated 0 sources s
