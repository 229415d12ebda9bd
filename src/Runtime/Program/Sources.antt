-- ===== src/Runtime/Program/Sources.antt =====
-- Every proto of a valid program gets the source name of its module.
use luauc.Prelude.{
  ℕ, zero, suc, ◌+◌, ◌≤◌, ◌<◌, ◌≡◌, ◌⊎◌, inl, inr, refl, ap, true, false, Option, none, some, List,
  [], ◌∷◌, arith, ltb, ◌==◌, Bool-cases, length,
}
use native.Mathlib.Numerals.{add-one}
use luauc.Runtime.Program.{
  ProgramMetadata, SourceName, given, of_module, Naming, named, module_root, used_modules,
  starts_module, name_loop, name_protos, valid_program,
}
use luauc.Runtime.Program.Validation.{HasRoots, valid_program-HasRoots}

-- `name` is that of the last module whose root is not behind proto `id`.
pub record Owns (program : ProgramMetadata) (id : ℕ) (name : SourceName) : Type 0 where
  pub owner : ℕ
  pub is_name : name ≡ of_module owner
  pub known : owner < used_modules program
  pub starts : module_root program owner ≤ id
  pub ends : suc owner < used_modules program → id < module_root program (suc owner)

abbrev pub OwnsAll : ProgramMetadata → ℕ → List SourceName → Type 0
OwnsAll program id [] = Unit
OwnsAll program id (name ∷ names) = Owns program id name × OwnsAll program (id + 1) names

-- The loop at proto `id`, with `seen` modules behind it.
record IsAt (program : ProgramMetadata) (id seen : ℕ) (name : Option SourceName) : Type 0 where
  seen_known : seen ≤ used_modules program
  passed : (k : ℕ) → k < seen → module_root program k < id
  ahead : seen < used_modules program → id ≤ module_root program seen
  current : 0 < seen → (k : ℕ) × (seen ≡ suc k) × (name ≡ some (of_module k))

-- The loop from `id` on names every proto that is left and sees every module.
pub record Finishes (program : ProgramMetadata) (rounds id : ℕ) (result : Naming) : Type 0 where
  pub names : List SourceName
  pub all_named : result ≡ named names (used_modules program)
  pub owned : OwnsAll program id names
  pub each : length names ≡ rounds

module _ (program : ProgramMetadata) (some_modules : 0 < used_modules program)
    (roots : HasRoots program) where
  start_step :
      (id seen : ℕ) (name : Option SourceName)
      → IsAt program id seen name
      → starts_module program seen id ≡ true
      → IsAt program (id + 1) (seen + 1) (some (of_module seen)) × Owns program id (of_module seen)
  unfolding starts_module
  start_step id seen name at h =
      let here : module_root program seen ≡ id = ground arith in
      let inside : seen < used_modules program = ground arith in
      (
        record {
          seen_known = omega arith;
          passed = λ k l. elim (Bool-cases (k == seen)) [
            | inl e ↦
                let same : k ≡ seen = ground arith in omega (arith, ap (module_root program) same)
            | inr e ↦ let before : k < seen = ground arith in omega (arith, at.passed k before)
          ];
          ahead = λ l.
              omega
                (arith, roots.rising seen (omega arith), ap (module_root program) (add-one seen));
          current = λ _. (seen, omega arith, refl);
        },
        record {
          owner = seen;
          is_name = refl;
          known = inside;
          starts = omega arith;
          ends = λ l. omega (arith, roots.rising seen l);
        },
      )

  -- At a proto that starts no module, an earlier module has given the name.
  keep_step :
      (id seen : ℕ) (name : Option SourceName)
      → IsAt program id seen name
      → starts_module program seen id ≡ false
      → IsAt program (id + 1) seen name
        × ((k : ℕ) × (name ≡ some (of_module k)) × Owns program id (of_module k))
  unfolding starts_module
  keep_step id seen name at h =
      let later : seen < used_modules program → id + 1 ≤ module_root program seen =
        λ l. let p = at.ahead l in ground arith in
      (
        record {
          seen_known = at.seen_known;
          passed = λ k l. omega (arith, at.passed k l);
          ahead = later;
          current = at.current;
        },
        owned (at.current (begun (Bool-cases (ltb 0 seen)))),
      )
    where
      begun : (ltb 0 seen ≡ true) ⊎ (ltb 0 seen ≡ false) → 0 < seen
      begun (inl e) = ground arith
      begun (inr e) =
          let none_seen : seen ≡ 0 = ground arith in
          let p = at.ahead (omega arith) in
          absurd (ground (arith, ap (module_root program) none_seen, roots.first))

      owned :
          (k : ℕ) × (seen ≡ suc k) × (name ≡ some (of_module k))
          → (k : ℕ) × (name ≡ some (of_module k)) × Owns program id (of_module k)
      owned (k, e, n) = (
        k,
        n,
        record {
          owner = k;
          is_name = refl;
          known = omega (arith, at.seen_known);
          starts = omega (arith, at.passed k (omega arith));
          ends = λ l. let p = at.ahead (omega arith) in ground (arith, ap (module_root program) e);
        },
      )

  name_loop-Finishes :
      (rounds id seen : ℕ) (name : Option SourceName)
      → id + rounds ≡ program.proto_count
      → IsAt program id seen name
      → Finishes program rounds id (name_loop program rounds id seen name)
  unfolding name_loop
  name_loop-Finishes zero id seen name e at = record {
    names = [];
    all_named = ap (named []) (finished (Bool-cases (ltb seen (used_modules program))));
    owned = tt;
    each = refl;
  }
    where
      finished :
          (ltb seen (used_modules program) ≡ true) ⊎ (ltb seen (used_modules program) ≡ false)
          → seen ≡ used_modules program
      finished (inl l) =
          let inside : seen < used_modules program = ground arith in
          absurd (omega (arith, at.ahead inside, roots.below seen inside))
      finished (inr l) = let p = at.seen_known in ground arith
  name_loop-Finishes (suc rounds) id seen name e at =
      elim (Bool-cases (starts_module program seen id)) [
        | inl h ↦
            let (next, owned) = start_step id seen name at h in
            let rest =
              name_loop-Finishes rounds (id + 1) (seen + 1) (some (of_module seen)) (omega arith)
                next in
            rw (h, rest.all_named)
              (record {
                names = of_module seen ∷ rest.names;
                all_named = refl;
                owned = (owned, rest.owned);
                each = ap suc rest.each;
              })
        | inr h ↦
            let (next, (k, n, owned)) = keep_step id seen name at h in
            let rest = name_loop-Finishes rounds (id + 1) seen name (omega arith) next in
            rw (h, n, rest.all_named)
              (record {
                names = of_module k ∷ rest.names;
                all_named = refl;
                owned = (owned, rest.owned);
                each = ap suc rest.each;
              })
      ]

  start-IsAt : IsAt program 0 0 none
  start-IsAt = record {
    seen_known = omega arith;
    passed = λ k l. absurd (omega arith);
    ahead = λ l. omega arith;
    current = λ l. absurd (omega arith);
  }

-- In a valid program with modules every proto gets the name of exactly one module, namely of the last
-- one whose root does not stand behind it, and at the end every module has been seen.
pub name_protos-Finishes :
    (max_string : ℕ) (caller : Option (List ℕ)) (program : ProgramMetadata)
    → valid_program max_string caller program ≡ true
    → 0 < used_modules program
    → Finishes program program.proto_count 0 (name_protos program)
unfolding name_protos
name_protos-Finishes max_string caller program valid some_modules =
    let some : (used_modules program == 0) ≡ false = ground arith in
    rw some (
      name_loop-Finishes program some_modules
        (valid_program-HasRoots max_string caller program valid some_modules) program.proto_count 0
        0 none (omega arith)
        (start-IsAt program some_modules
          (valid_program-HasRoots max_string caller program valid some_modules)))

-- A program without a module table has one chunk, whose name every proto gets.
given_loop :
    (program : ProgramMetadata) (rounds id : ℕ)
    → used_modules program ≡ 0
    → (names : List SourceName) × (name_loop program rounds id 0 (some given) ≡ named names 0)
unfolding name_loop starts_module
given_loop program zero id none_used = ([], refl)
given_loop program (suc rounds) id none_used =
    let (names, e) = given_loop program rounds (id + 1) none_used in
    (given ∷ names, rw (none_used, e) refl)

-- Naming the protos of a valid program never fails, and sees every module.
pub name_protos_named :
    (max_string : ℕ) (caller : Option (List ℕ)) (program : ProgramMetadata)
    → valid_program max_string caller program ≡ true
    → (names : List SourceName) × (name_protos program ≡ named names (used_modules program))
name_protos_named max_string caller program valid = elim (Bool-cases (used_modules program == 0)) [
  | inl e ↦
      let none_used : used_modules program ≡ 0 = ground arith in
      let (names, p) = given_loop program program.proto_count 0 none_used in
      (names, unfold name_protos in rw (none_used) p)
  | inr e ↦
      let f = name_protos-Finishes max_string caller program valid (ground arith) in
      (f.names, f.all_named)
]
