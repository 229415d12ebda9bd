-- ===== src/Runtime/Program/Children.antt =====
-- The arrays of children hold each proto once, under its parent, in the order of the ids, and the
-- forest is well founded.
use luauc.Prelude.{
  ℕ, zero, suc, ◌+◌, ◌≤◌, ◌<◌, ◌≡◌, ◌≢◌, inl, inr, refl, ap, sym, ◌∙◌, true, false, Option, none,
  some, List, [], ◌∷◌, ◌++◌, arith, ◌==◌, if◌then◌else◌, Bool-cases, length, get_or, set, replicate,
  map, get_or-set, length-set, length-replicate, length-append,
}
use mathlib.Core.List.{append-nil, append_assoc}
use luauc.Prelude.Words.{no_id}
use luauc.Runtime.Program.{
  ProgramMetadata, proto_at, is_root, count_loop, fill_loop, child_counts, allocate_loop,
  child_arrays, valid_program,
}
use luauc.Runtime.Program.Validation.{few_protos, parent_of}

abbrev pub parent_id : ProgramMetadata → ℕ → ℕ
parent_id program id = (proto_at program id).parent_id

-- The protos from `id` on, `rounds` of them, whose parent is `parent`, in order.
unfoldable pub children_from : ProgramMetadata → ℕ → ℕ → ℕ → List ℕ
children_from program zero id parent = []
children_from program (suc rounds) id parent =
    let rest = children_from program rounds (id + 1) parent in
    if parent_id program id == parent then id ∷ rest else rest

module _ (program : ProgramMetadata) (parent : ℕ) (real : parent ≢ no_id) where
  count_loop-children :
      (rounds id : ℕ) (counts : List ℕ)
      → parent < length counts
      → get_or (count_loop program rounds id counts) parent 0
        ≡ get_or counts parent 0 + length (children_from program rounds id parent)
  unfolding count_loop children_from
  count_loop-children zero id counts l = omega arith
  count_loop-children (suc rounds) id counts l =
      let p = parent_id program id in
      ground (
        arith,
        count_loop-children rounds (id + 1) (set counts p (get_or counts p 0 + 1)),
        count_loop-children rounds (id + 1) counts,
        get_or-set counts p parent (get_or counts p 0 + 1) 0,
        length-set counts p (get_or counts p 0 + 1),
      )

-- `array[slot++] = id` for each id.
write_from : List (Option ℕ) → ℕ → List ℕ → List (Option ℕ)
write_from array slot [] = array
write_from array slot (id ∷ ids) = write_from (set array slot (some id)) (slot + 1) ids

module _ (program : ProgramMetadata) (parent : ℕ) (real : parent ≢ no_id) where
  fill_loop-children :
      (rounds id : ℕ) (counts : List ℕ) (children : List (List (Option ℕ)))
      → parent < length counts
      → parent < length children
      → get_or (fill_loop program rounds id counts children) parent []
        ≡ write_from
            (get_or children parent [])
            (get_or counts parent 0)
            (children_from program rounds id parent)
  unfolding fill_loop children_from write_from
  fill_loop-children zero id counts children l m = refl
  fill_loop-children (suc rounds) id counts children l m =
      let p = parent_id program id in
      let slot = get_or counts p 0 in
      let written = set (get_or children p []) slot (some id) in
      elim (Bool-cases (p == no_id)) [
        | inl e ↦
            let other : (p == parent) ≡ false = ground arith in
            rw (e, other) (fill_loop-children rounds (id + 1) counts children l m)
        | inr e ↦
            let next =
              fill_loop-children rounds (id + 1) (set counts p (slot + 1)) (set children p written)
                (omega (arith, length-set counts p (slot + 1)))
                (omega (arith, length-set children p written)) in
            rw e (
              next
              ∙ ground (
                arith,
                get_or-set children p parent written [],
                get_or-set counts p parent (slot + 1) 0,
                l,
                m,
              ))
      ]

set-at_end :
    (done : List ℕ) (id : ℕ) (rest : List (Option ℕ))
    → set (map some done ++ (none ∷ rest)) (length done) (some id)
      ≡ map some (done ++ (id ∷ [])) ++ rest
set-at_end [] id rest = refl
set-at_end (d ∷ done) id rest = ap (λ t. some d ∷ t) (set-at_end done id rest)

write_from-fresh :
    (done ids : List ℕ)
    → write_from (map some done ++ replicate (length ids) none) (length done) ids
      ≡ map some (done ++ ids)
unfolding write_from
write_from-fresh done [] = rw (append-nil (map some done), append-nil done) refl
write_from-fresh done (id ∷ ids) =
    let size : length done + 1 ≡ length (done ++ (id ∷ [])) = sym (length-append done (id ∷ [])) in
    rw (set-at_end done id (replicate (length ids) none), size)
      (write_from-fresh (done ++ (id ∷ [])) ids ∙ ap (map some) (append_assoc done (id ∷ []) ids))

length-count_loop :
    (program : ProgramMetadata) (rounds id : ℕ) (counts : List ℕ)
    → length (count_loop program rounds id counts) ≡ length counts
unfolding count_loop
length-count_loop program zero id counts = refl
length-count_loop program (suc rounds) id counts =
    let p = parent_id program id in
    ground (
      arith,
      length-count_loop program rounds (id + 1) counts,
      length-count_loop program rounds (id + 1) (set counts p (get_or counts p 0 + 1)),
      length-set counts p (get_or counts p 0 + 1),
    )

get_or-allocate_loop :
    (counts : List ℕ) (i : ℕ)
    → i < length counts
    → (get_or (allocate_loop counts).0 i [] ≡ replicate (get_or counts i 0) none)
      × (get_or (allocate_loop counts).1 i 0 ≡ 0)
unfolding allocate_loop
get_or-allocate_loop [] i l = absurd (omega arith)
get_or-allocate_loop (c ∷ counts) zero l = (refl, refl)
get_or-allocate_loop (c ∷ counts) (suc i) l = get_or-allocate_loop counts i (omega arith)

length-allocate_loop :
    (counts : List ℕ)
    → (length (allocate_loop counts).0 ≡ length counts)
      × (length (allocate_loop counts).1 ≡ length counts)
unfolding allocate_loop
length-allocate_loop [] = (refl, refl)
length-allocate_loop (c ∷ counts) = let (a, b) = length-allocate_loop counts in (ap suc a, ap suc b)

get_or-replicate : (n i : ℕ) → get_or (replicate n (zero)) i 0 ≡ 0
get_or-replicate zero i = refl
get_or-replicate (suc n) zero = refl
get_or-replicate (suc n) (suc i) = get_or-replicate n i

pub children_from-few :
    (program : ProgramMetadata) (rounds id parent : ℕ)
    → length (children_from program rounds id parent) ≤ rounds
unfolding children_from
children_from-few program zero id parent = omega arith
children_from-few program (suc rounds) id parent =
    ground (arith, children_from-few program rounds (id + 1) parent)

module _ (max_string : ℕ) (caller : Option (List ℕ)) (program : ProgramMetadata)
    (valid : valid_program max_string caller program ≡ true) where
  real_parent : (parent : ℕ) → parent < program.proto_count → parent ≢ no_id
  real_parent parent l e = absurd (omega (arith, few_protos max_string caller program valid))

  pub count-children :
      (parent : ℕ)
      → parent < program.proto_count
      → get_or (child_counts program) parent 0
        ≡ length (children_from program program.proto_count 0 parent)
  unfolding child_counts
  count-children parent l =
      let n = program.proto_count in
      omega (
        arith,
        count_loop-children program parent (real_parent parent l) n 0 (replicate n 0)
            (omega (arith, length-replicate n (zero))),
        get_or-replicate n parent,
      )

  pub length-child_counts : length (child_counts program) ≡ program.proto_count
  unfolding child_counts
  length-child_counts =
      length-count_loop program program.proto_count 0 (replicate program.proto_count 0)
      ∙ length-replicate program.proto_count 0

  -- In a valid program the array of children of a proto holds the protos that name it as their
  -- parent, all of them, each once and in the order of their ids, and no slot of it stays
  -- unwritten.
  pub child_arrays-children_from :
      (parent : ℕ)
      → parent < program.proto_count
      → get_or (child_arrays program) parent []
        ≡ map some (children_from program program.proto_count 0 parent)
  unfolding child_arrays
  child_arrays-children_from parent l =
      let n = program.proto_count in
      let counts = child_counts program in
      let inside : parent < length counts = omega (arith, length-child_counts) in
      let (blank, cleared) = get_or-allocate_loop counts parent inside in
      let (same, same') = length-allocate_loop counts in
      fill_loop-children program parent (real_parent parent l) n 0 (allocate_loop counts).1
        (allocate_loop counts).0 (omega (arith, same')) (omega (arith, same))
      ∙ rw (blank, cleared, count-children parent l)
          (write_from-fresh [] (children_from program n 0 parent))

-- A proto from which the chain of parents ends at a root.
pub data Descends (program : ProgramMetadata) : ℕ → Type 0 where
  root : {id : ℕ} → is_root program id ≡ true → Descends program id
  child :
      {id : ℕ} (parent : ℕ)
      → parent_id program id ≡ parent
      → parent < id
      → Descends program parent
      → Descends program id

Descends-below :
    (max_string : ℕ) (caller : Option (List ℕ)) (program : ProgramMetadata)
    → valid_program max_string caller program ≡ true
    → (fuel id : ℕ) → id < fuel
    → id < program.proto_count
    → Descends program id
Descends-below max_string caller program valid zero id f l = absurd (omega arith)
Descends-below max_string caller program valid (suc fuel) id f l =
    elim (parent_of max_string caller program valid id l) [
      | inl (r, _) ↦ root r
      | inr (_, below) ↦ child (parent_id program id) refl below (
          Descends-below max_string caller program valid fuel (parent_id program id) (omega arith)
            (omega arith))
    ]

-- In a valid program the chain of parents of every proto falls from id to id and ends at a root.
pub valid_program-Descends :
    (max_string : ℕ) (caller : Option (List ℕ)) (program : ProgramMetadata) (id : ℕ)
    → valid_program max_string caller program ≡ true
    → id < program.proto_count
    → Descends program id
valid_program-Descends max_string caller program id valid l =
    Descends-below max_string caller program valid (suc id) id (omega arith) l
