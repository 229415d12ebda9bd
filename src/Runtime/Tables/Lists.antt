-- ===== src/Runtime/Tables/Lists.antt =====
-- SETLIST: what it writes to the array part, and the table constructor that holds the extra arguments of a
-- variadic function.
use luauc.Prelude.{
  ℕ, zero, suc, ◌+◌, ◌-◌, ◌%◌, ◌^◌, ◌≤◌, ◌<◌, ◌≡◌, ◌≢◌, ◌⊎◌, inl, inr, refl, sym, ap, ◌∙◌, true,
  false, some, List, arith, ltb, ◌==◌, if◌then◌else◌, length, get_or, set, length-set, get_or-set,
  Option-cases, Bool-cases,
}
use luauc.Prelude.Words.{uint32_max}
use luauc.Runtime.Tables.{
  TValue, nil, table, LuaTable, LuaState, ActiveProto, ActiveFrame, Vm, register, write_table,
  active_aot_table, table_of,
}
use luauc.Runtime.Tables.SetList.{
  set_list_loop, set_list_table, set_list_into, set_list_fixed, set_list_multret, set_list,
}
use luauc.Runtime.Tables.Access.{table_of-some}

-- `luaH_resizearray` to a larger size: the array part has that size, and its elements stay.
pub record GrowsArrays (vm : Vm) : Type 0 where
  pub size : (t : LuaTable) (n : ℕ) → length t.array < n → length (vm.resizearray t n).array ≡ n
  pub kept :
      (t : LuaTable) (n j : ℕ)
      → length t.array < n
      → j < length t.array
      → get_or (vm.resizearray t n).array j nil ≡ get_or t.array j nil

length-set_list_loop :
    (count : ℕ) (stack : ℕ → TValue) (source position : ℕ) (array : List TValue)
    → length (set_list_loop count stack source position array) ≡ length array
unfolding set_list_loop
length-set_list_loop zero stack source position array = refl
length-set_list_loop (suc count) stack source position array =
    length-set_list_loop count stack (source + 1) (position + 1) _
    ∙ length-set array position (stack source)

set_list_loop-outside :
    (count : ℕ) (stack : ℕ → TValue) (source position j : ℕ) (array : List TValue)
    → (j < position) ⊎ (position + count ≤ j)
    → get_or (set_list_loop count stack source position array) j nil ≡ get_or array j nil
unfolding set_list_loop
set_list_loop-outside zero stack source position j array o = refl
set_list_loop-outside (suc count) stack source position j array o =
    set_list_loop-outside count stack (source + 1) (position + 1) j _ (ground (arith, o))
    ∙ ground (arith, o, get_or-set array position j (stack source) nil)

set_list_loop-at :
    (count : ℕ) (stack : ℕ → TValue) (source position i j s : ℕ) (array : List TValue)
    → i < count
    → position + count ≤ length array
    → j ≡ position + i
    → s ≡ source + i
    → get_or (set_list_loop count stack source position array) j nil ≡ stack s
unfolding set_list_loop
set_list_loop-at zero stack source position i j s array l fits a b = absurd (omega arith)
set_list_loop-at (suc count) stack source position zero j s array l fits a b =
    set_list_loop-outside count stack (source + 1) (position + 1) j _ (inl (omega (arith, a)))
    ∙ ground (arith, a, b, fits, get_or-set array position j (stack source) nil)
set_list_loop-at (suc count) stack source position (suc i) j s array l fits a b =
    set_list_loop-at count stack (source + 1) (position + 1) i j s
      (set array position (stack source)) (omega arith)
      (omega (arith, fits, length-set array position (stack source))) (omega (arith, a))
      (omega (arith, b))

write_table-same :
    (m : LuaState) (address : ℕ) (new : LuaTable) → (write_table m address new).heap address ≡ new
write_table-same m address new = ground arith

-- The number of values that a SETLIST copies.
abbrev pub list_count : LuaState → ℕ → ℕ → ℕ
list_count m source count =
    if count == uint32_max then (m.top - (m.base + source)) % 2 ^ 32 else count

-- The table in a register has `count` values from the register `source` on, from position `start` on, and
-- its other elements and every other table are as before.
pub record HasList (m m' : LuaState) (index source start count : ℕ) : Type 0 where
  pub address : ℕ
  pub is_table : register m index ≡ table address
  pub written :
      (i : ℕ)
      → i < count
      → get_or (m'.heap address).array (start - 1 + i) nil ≡ register m (source + i)
  pub others :
      (j : ℕ)
      → j < length (m.heap address).array
      → (j + 1 < start) ⊎ (start + count ≤ j + 1)
      → get_or (m'.heap address).array j nil ≡ get_or (m.heap address).array j nil
  pub apart : (a : ℕ) → a ≢ address → m'.heap a ≡ m.heap a
  pub stack_kept : m'.stack ≡ m.stack
  pub base_kept : m'.base ≡ m.base

HasList-top :
    (m m' : LuaState) (top index source start count : ℕ)
    → HasList (record m { top = top }) m' index source start count
    → HasList m m' index source start count
HasList-top m m' top index source start count h = record {
  address = h.address;
  is_table = h.is_table;
  written = h.written;
  others = h.others;
  apart = h.apart;
  stack_kept = h.stack_kept;
  base_kept = h.base_kept;
}

nothing_listed :
    (m : LuaState) (top index source start count address : ℕ)
    → register m index ≡ table address
    → count ≡ 0
    → HasList m (record m { top = top }) index source start count
nothing_listed m top index source start count address t zero_count = record {
  address = address;
  is_table = t;
  written = λ i l. absurd (omega (arith, zero_count));
  others = λ j l o. refl;
  apart = λ a n. refl;
  stack_kept = refl;
  base_kept = refl;
}

list_count-every :
    (m : LuaState) (source count : ℕ)
    → (count == uint32_max) ≡ true
    → list_count m source count ≡ (m.top - (m.base + source)) % 2 ^ 32
list_count-every m source count e = ground (arith, e)

list_count-fixed :
    (m : LuaState) (source count : ℕ)
    → (count == uint32_max) ≡ false
    → list_count m source count ≡ count
list_count-fixed m source count e = ground (arith, e)

module _ (vm : Vm) (grows : GrowsArrays vm) where
  -- The array part is large enough for the last write, and has its elements.
  sized :
      (old new : LuaTable) (known_size last : ℕ)
      → set_list_table vm old known_size last ≡ some new
      → (last ≤ length new.array)
        × ((j : ℕ) → j < length old.array → get_or new.array j nil ≡ get_or old.array j nil)
  unfolding set_list_table
  sized old new known_size last h = elim (Bool-cases (ltb (length old.array) last)) [
    | inl l ↦ elim (Bool-cases (known_size == uint32_max)) [
      | inl u ↦
          let same : vm.resizearray old last ≡ new = ground (arith, l, u) in
          (
            omega (
              arith,
              ap (λ (t : LuaTable). length t.array) same,
              grows.size old last (ground arith),
            ),
            λ j inside.
                ap (λ (t : LuaTable). get_or t.array j nil) (sym same)
                ∙ grows.kept old last j (ground arith) inside,
          )
      | inr u ↦ absurd (ground (arith, l, u))
    ]
    | inr l ↦ (ground (arith, l), λ j inside. ground (arith, l))
  ]

  set_list_into-HasList :
      (proto : ActiveProto) (m m' : LuaState) (index source count start known_size : ℕ)
      → start ≢ 0
      → set_list_into vm proto m index source count start known_size ≡ some m'
      → HasList m m' index source start count
  unfolding set_list_into active_aot_table
  set_list_into-HasList proto m m' index source count start known_size positive h =
      elim (Option-cases (table_of (register m index))) [
        | inl n ↦ absurd (ground (arith, n))
        | inr (address, t) ↦
            elim (Option-cases
              (set_list_table vm (m.heap address) known_size (start + count - 1))) [
                | inl n ↦ absurd (ground (arith, t, n))
                | inr (new, e) ↦
                    let (fits, same) =
                      sized (m.heap address) new known_size (start + count - 1) e in
                    let after : m'
                        ≡ write_table m address (record new {
                          array =
                              set_list_loop count m.stack (m.base + source) (start - 1) new.array;
                        }) =
                      ground (arith, t, e) in
                    rw after (record {
                      address = address;
                      is_table = table_of-some (register m index) address t;
                      written = λ i l.
                          ap (λ (t : LuaTable). get_or t.array (start - 1 + i) nil)
                            (write_table-same m address _)
                          ∙ set_list_loop-at count m.stack (m.base + source) (start - 1) i
                              (start - 1 + i) (m.base + (source + i)) new.array l
                              (omega (arith, fits, positive)) refl (omega arith);
                      others = λ j inside o.
                          ap (λ (t : LuaTable). get_or t.array j nil) (write_table-same m address _)
                          ∙ set_list_loop-outside count m.stack (m.base + source) (start - 1) j
                              new.array (ground (arith, o, positive))
                          ∙ same j inside;
                      apart = λ a n. ground (arith, n);
                      stack_kept = refl;
                      base_kept = refl;
                    })
              ]
      ]

  set_list_fixed-HasList :
      (proto : ActiveProto) (m m' : LuaState) (index source count start known_size : ℕ)
      → set_list_fixed vm proto m index source count start known_size ≡ some m'
      → HasList m m' index source start count
  unfolding set_list_fixed
  set_list_fixed-HasList proto m m' index source count start known_size h =
      elim (Option-cases (active_aot_table proto m index false)) [
        | inl n ↦ absurd (ground (arith, n))
        | inr (address, t) ↦
            set_list_into-HasList proto m m' index source count start known_size (ground (arith, t))
              (ground (arith, t))
      ]

  set_list_multret-HasList :
      (proto : ActiveProto) (m m' : LuaState) (index source start : ℕ)
      → set_list_multret vm proto m index source start ≡ some m'
      → HasList m m' index source start ((m.top - (m.base + source)) % 2 ^ 32)
  unfolding set_list_multret active_aot_table
  set_list_multret-HasList proto m m' index source start h =
      let count = (m.top - (m.base + source)) % 2 ^ 32 in
      elim (Option-cases (table_of (register m index))) [
        | inl n ↦ absurd (ground (arith, n))
        | inr (address, t) ↦ elim (Bool-cases (count == 0)) [
          | inl none_left ↦
              let after : m' ≡ record m { top = m.ci_top } = ground (arith, t, none_left) in
              rw after (
                nothing_listed m m.ci_top index source start count address
                  (table_of-some (register m index) address t) (ground (arith, none_left)))
          | inr some_left ↦ HasList-top m m' m.ci_top index source start count (
              set_list_into-HasList proto (record m { top = m.ci_top }) m' index source count start
                uint32_max (ground (arith, t, some_left)) (ground (arith, t, some_left)))
        ]
      ]

  -- A SETLIST that is not refused has stored its values, in order, from the start position on: as many as
  -- it was asked for, or every one up to the top. It changes no other element and no other table.
  pub set_list-HasList :
      (frame : ActiveFrame) (m m' : LuaState) (index source count start known_size : ℕ)
      → set_list vm frame m index source count start known_size ≡ some m'
      → HasList m m' index source start (list_count m source count)
  unfolding set_list
  set_list-HasList frame m m' index source count start known_size h =
      elim (Option-cases frame.proto) [
        | inl n ↦ absurd (ground (arith, n))
        | inr (proto, p) ↦ elim (Bool-cases (count == uint32_max)) [
          | inl every ↦
              rw (list_count-every m source count every)
                (set_list_multret-HasList proto m m' index source start (ground (arith, p, every)))
          | inr fixed ↦ rw (list_count-fixed m source count fixed) (
              set_list_fixed-HasList proto m m' index source count start known_size
                (ground (arith, p, fixed)))
        ]
      ]
