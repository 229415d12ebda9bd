-- ===== src/Runtime/Program/Templates.antt =====
-- `materializeAotClosureConstants` for the protos of a program whose arrays of children are right:
-- the closures that it makes, and the error of the first constant that names no direct child.
use luauc.Prelude.{
  ℕ, zero, suc, ◌+◌, ◌≤◌, ◌<◌, ◌≡◌, ◌≢◌, inl, inr, refl, ap, sym, ◌∙◌, subst, true, false, Option,
  none, some, List, [], ◌∷◌, ◌++◌, map, arith, ◌==◌, if◌then◌else◌, Bool-cases, Option-cases,
  get_or,
}
use luauc.Runtime.Metadata.Kind
use luauc.Runtime.Metadata.{VmConstant, constant_at}
use luauc.Runtime.Program.{ProgramMetadata, not_direct_child, proto_at}
use luauc.Runtime.Program.Build.{
  ClosureTemplate, Templates, made, childless, made_first, made_before, find_child, preload_of,
  closure_loop, materialize_loop,
}
use luauc.Runtime.Program.Children.{parent_id, children_from}

abbrev pub constant_of : ProgramMetadata → ℕ → ℕ → VmConstant
constant_of program parent id = constant_at (proto_at program parent) id

-- Constant `id` of the proto is a closure.
pub record IsClosure (program : ProgramMetadata) (parent id : ℕ) : Type 0 where
  pub inside : id < (proto_at program parent).constant_count
  pub is_closure : (constant_of program parent id).kind ≡ Kind.closure

-- The proto is one of the program, with that parent.
pub record IsChild (program : ProgramMetadata) (parent child : ℕ) : Type 0 where
  pub known : child < program.proto_count
  pub of_parent : parent_id program child ≡ parent

-- Some closure constant of a proto names `child`, which is no child of that proto.
pub record IsBlamed (program : ProgramMetadata) (child : ℕ) : Type 0 where
  pub parent : ℕ
  pub constant : ℕ
  pub known : parent < program.proto_count
  pub its_closure : IsClosure program parent constant
  pub names : (constant_of program parent constant).payload0 ≡ child
  pub stranger : ¬ IsChild program parent child

-- The closures for the constants of one proto from `id` on: each closure constant's is that of the
-- proto it names.
pub closures_from : ProgramMetadata → ℕ → ℕ → ℕ → List ClosureTemplate
closures_from program parent zero id = []
closures_from program parent (suc rounds) id =
    let rest = closures_from program parent rounds (id + 1) in
    let child = (constant_of program parent id).payload0 in
    if (constant_of program parent id).kind == Kind.closure
    then record {
      parent = parent;
      constant = id;
      child = child;
      preload = preload_of program child;
    }
      ∷ rest
    else rest

pub all_closures : ProgramMetadata → ℕ → ℕ → List ClosureTemplate
all_closures program zero parent = []
all_closures program (suc rounds) parent =
    closures_from program parent (proto_at program parent).constant_count 0
    ++ all_closures program rounds (parent + 1)

module _ (program : ProgramMetadata)
    (ids : (id : ℕ) → id < program.proto_count → (proto_at program id).function_id ≡ id) where
  find_child-some :
      (parent rounds id c found : ℕ)
      → id + rounds ≤ program.proto_count
      → find_child program (map some (children_from program rounds id parent)) c ≡ some found
      → (found ≡ c) × IsChild program parent c
  unfolding find_child children_from
  find_child-some parent zero id c found l h = cc
  find_child-some parent (suc rounds) id c found l h =
      let rest = find_child-some parent rounds (id + 1) c found (omega arith) in
      elim (Bool-cases (parent_id program id == parent)) [
        | inr e ↦ rest (ground (arith, e))
        | inl e ↦ elim (Bool-cases ((proto_at program id).function_id == c)) [
          | inr n ↦ rest (ground (arith, e, n))
          | inl s ↦
              let same : id ≡ c = ground (arith, s, ids id (omega arith)) in
              let first : id ≡ found = ground (arith, e, s) in
              (
                omega (arith, same, first),
                record { known = omega (arith, same); of_parent = rw (← same) (ground (arith, e)) },
              )
        ]
      ]

  find_child-none :
      (parent rounds id c : ℕ)
      → id + rounds ≤ program.proto_count
      → find_child program (map some (children_from program rounds id parent)) c ≡ none
      → id ≤ c
      → c < id + rounds
      → parent_id program c ≢ parent
  unfolding find_child children_from
  find_child-none parent zero id c l h a b p = absurd (omega arith)
  find_child-none parent (suc rounds) id c l h a b p =
      let rest = find_child-none parent rounds (id + 1) c (omega arith) in
      elim (Bool-cases (id == c)) [
        | inl s ↦
            let same : id ≡ c = ground arith in
            ground (arith, ids id (omega arith), ap (parent_id program) same)
        | inr s ↦ rest (ground (arith, ids id (omega arith))) (ground arith) (omega arith) p
      ]

  -- What the loop over the constants of a proto gives: every closure constant from `id` on names a
  -- child, or the first that does not is the error.
  abbrev Checked : ℕ → ℕ → ℕ → Templates → Type 0
  Checked parent rounds id (made templates) =
      (templates ≡ closures_from program parent rounds id)
      × ((k : ℕ)
          → id ≤ k
          → k < id + rounds
          → (constant_of program parent k).kind ≡ Kind.closure
          → IsChild program parent (constant_of program parent k).payload0)
  Checked parent rounds id (childless error) =
      (k : ℕ) × (id ≤ k)
      × (k < id + rounds)
      × ((constant_of program parent k).kind ≡ Kind.closure)
      × (error ≡ not_direct_child (constant_of program parent k).payload0)
      × ¬ IsChild program parent (constant_of program parent k).payload0

  -- A further constant in front, which is no closure or one that names a child.
  passed_over :
      (parent rounds id : ℕ) (r : Templates)
      → ((constant_of program parent id).kind == Kind.closure) ≡ false
      → Checked parent rounds (id + 1) r
      → Checked parent (suc rounds) id r
  unfolding closures_from
  passed_over parent rounds id (made templates) n (e, each) = (
    rw n e,
    λ k a b h. elim (Bool-cases (k == id)) [
      | inl s ↦
          let same : k ≡ id = ground arith in
          absurd (ground (arith, ap (λ i. (constant_of program parent i).kind) same))
      | inr s ↦ each k (ground arith) (omega arith) h
    ],
  )
  passed_over parent rounds id (childless error) n (k, a, b, h, e, m) =
      (k, omega arith, omega arith, h, e, m)

  named_child :
      (parent rounds id : ℕ) (r : Templates)
      → ((constant_of program parent id).kind == Kind.closure) ≡ true
      → IsChild program parent (constant_of program parent id).payload0
      → Checked parent rounds (id + 1) r
      → Checked parent (suc rounds) id (
          made_first
            (record {
              parent = parent;
              constant = id;
              child = (constant_of program parent id).payload0;
              preload = preload_of program (constant_of program parent id).payload0;
            })
            r)
  unfolding closures_from
  named_child parent rounds id (made templates) n c (e, each) = (
    rw (n, e) refl,
    λ k a b h. elim (Bool-cases (k == id)) [
      | inl s ↦
          let same : id ≡ k = ground arith in
          subst (λ i. IsChild program parent (constant_of program parent i).payload0) same c
      | inr s ↦ each k (ground arith) (omega arith) h
    ],
  )
  named_child parent rounds id (childless error) n c (k, a, b, h, e, m) =
      (k, omega arith, omega arith, h, e, m)

  module _ (parent : ℕ) (children : List (Option ℕ))
      (exactly : children ≡ map some (children_from program program.proto_count 0 parent)) where
    closure_loop-Checked :
        (rounds id : ℕ) → Checked parent rounds id (closure_loop program children parent rounds id)
    unfolding closure_loop
    closure_loop-Checked zero id = unfold closures_from in (refl, λ k a b. absurd (omega arith))
    closure_loop-Checked (suc rounds) id =
        let rest = closure_loop-Checked rounds (id + 1) in
        let c = (constant_of program parent id).payload0 in
        elim (Bool-cases ((constant_of program parent id).kind == Kind.closure)) [
          | inr n ↦ rw n (passed_over parent rounds id _ n rest)
          | inl n ↦ elim (Option-cases (find_child program children c)) [
            | inl f ↦
                rw (n, f)
                  ((
                    id,
                    omega arith,
                    omega arith,
                    ground arith,
                    refl,
                    λ is.
                        find_child-none parent program.proto_count 0 c (omega arith)
                          (ap (λ t. find_child program t c) (sym exactly) ∙ f) (omega arith)
                          (omega (arith, is.known)) is.of_parent,
                  ))
            | inr (child, f) ↦
                let (same, is) =
                  find_child-some parent program.proto_count 0 c child (omega arith)
                    (ap (λ t. find_child program t c) (sym exactly) ∙ f) in
                rw (n, f, same) (named_child parent rounds id _ n is rest)
          ]
        ]

  -- What the loop over the protos gives.
  abbrev pub CheckedAll : ℕ → ℕ → Templates → Type 0
  CheckedAll rounds parent (made templates) =
      (templates ≡ all_closures program rounds parent)
      × ((p k : ℕ)
          → parent ≤ p
          → p < parent + rounds
          → IsClosure program p k
          → IsChild program p (constant_of program p k).payload0)
  CheckedAll rounds parent (childless error) =
      (child : ℕ) × (error ≡ not_direct_child child) × IsBlamed program child

  one_proto :
      (rounds parent : ℕ) (first rest : Templates)
      → parent < program.proto_count
      → Checked parent (proto_at program parent).constant_count 0 first
      → CheckedAll rounds (parent + 1) rest
      → CheckedAll (suc rounds) parent (elim first [
        | childless error ↦ childless error
        | made templates ↦ made_before templates rest
      ])
  unfolding all_closures
  one_proto rounds parent (childless error) rest l (k, a, b, h, e, m) more = (
    (constant_of program parent k).payload0,
    e,
    record {
      parent = parent;
      constant = k;
      known = l;
      its_closure = record { inside = omega arith; is_closure = h };
      names = refl;
      stranger = m;
    },
  )
  one_proto rounds parent (made templates) (childless error) l (e, each) more = more
  one_proto rounds parent (made templates) (made others) l (e, each) (e', each') = (
    rw (e, e') refl,
    λ p k a b c. elim (Bool-cases (p == parent)) [
      | inl s ↦
          let same : parent ≡ p = ground arith in
          subst (λ q. IsClosure program q k → IsChild program q (constant_of program q k).payload0)
            same (λ d. each k (omega arith) (omega (arith, d.inside)) d.is_closure) c
      | inr s ↦ each' p k (ground arith) (omega arith) c
    ],
  )

  module _ (children : List (List (Option ℕ)))
      (exactly : (parent : ℕ)
        → parent < program.proto_count
        → get_or children parent []
          ≡ map some (children_from program program.proto_count 0 parent)) where
    pub materialize_loop-CheckedAll :
        (rounds parent : ℕ)
        → parent + rounds ≤ program.proto_count
        → CheckedAll rounds parent (materialize_loop program children rounds parent)
    unfolding materialize_loop
    materialize_loop-CheckedAll zero parent l =
        unfold all_closures in (refl, λ p k a b. absurd (omega arith))
    materialize_loop-CheckedAll (suc rounds) parent l =
        one_proto rounds parent
          (closure_loop program (get_or children parent []) parent
            (proto_at program parent).constant_count 0)
          (materialize_loop program children rounds (parent + 1)) (omega arith)
          (closure_loop-Checked parent (get_or children parent []) (exactly parent (omega arith))
            (proto_at program parent).constant_count 0)
          (materialize_loop-CheckedAll rounds (parent + 1) (omega arith))
