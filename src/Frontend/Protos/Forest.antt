-- ===== src/Frontend/Protos/Forest.antt =====
-- The list of protos is a forest in which parents come first, and it is closed under children.
use luauc.Prelude.{
  ℕ, zero, suc, ◌+◌, ◌%◌, ◌^◌, ◌≤◌, ◌<◌, ◌≡◌, ◌≢◌, ◌⊎◌, inl, inr, refl, sym, ap, ◌∙◌, subst, Option,
  none, some, List, [], ◌∷◌, ◌++◌, arith, leb, ◌==◌, length, get_elem?, Bool-cases, Option-cases,
  length-append, get_elem?-snoc, get_elem?-lt, get_elem?-append_left, get_elem?-append_end,
}
use luauc.Prelude.Words.{no_id}
use luauc.Frontend.Protos.{
  ProtoRef, proto_id, Collecting, collected, refused, stuck, collect_each, collect_protos,
  max_protos,
}

pub Collecting-cases :
    (r : Collecting)
    → ((output : List ProtoRef) × (r ≡ collected output)) ⊎ ((r ≡ refused) ⊎ (r ≡ stuck))
Collecting-cases (collected output) = inl (output, refl)
Collecting-cases refused = inr (inl refl)
Collecting-cases stuck = inr (inr refl)

get_elem?-none : (output : List ProtoRef) (i : ℕ) → get_elem? output i ≡ none → length output ≤ i
get_elem?-none [] i h = omega arith
get_elem?-none (r ∷ output) zero h = cc
get_elem?-none (r ∷ output) (suc i) h = omega (arith, get_elem?-none output i h)

-- The list has an entry for the proto.
abbrev pub Has : List ProtoRef → ℕ → Type 0
Has output proto =
    (i : ℕ) × (ref : ProtoRef) × (get_elem? output i ≡ some ref) × (ref.proto ≡ proto)

proto_id-some :
    (start : ℕ) (output : List ProtoRef) (proto i : ℕ)
    → proto_id start output proto ≡ some i
    → Has output proto
unfolding proto_id
proto_id-some start [] proto i h = cc
proto_id-some start (ref ∷ refs) proto i h = elim (Bool-cases (ref.proto == proto)) [
  | inl e ↦ (0, ref, refl, ground arith)
  | inr e ↦
      let (k, r, g, p) = proto_id-some (start + 1) refs proto i (rw e at h) in (suc k, r, g, p)
]

proto_id-none :
    (start : ℕ) (output : List ProtoRef) (proto i : ℕ) (ref : ProtoRef)
    → proto_id start output proto ≡ none
    → get_elem? output i ≡ some ref
    → ref.proto ≢ proto
unfolding proto_id
proto_id-none start [] proto i ref h g = cc
proto_id-none start (r ∷ refs) proto zero ref h g =
    let same : r ≡ ref = ground arith in rw (sym same) (λ e. ground (arith, e))
proto_id-none start (r ∷ refs) proto (suc i) ref h g = elim (Bool-cases (r.proto == proto)) [
  | inl e ↦ absurd (cc (rw e at h))
  | inr e ↦ proto_id-none (start + 1) refs proto i ref (rw e at h) g
]

module _ (children : ℕ → List (Option ℕ)) where
  abbrev pub IsChild : ℕ → ℕ → Type 0
  IsChild proto child = (k : ℕ) × (get_elem? (children proto) k ≡ some (some child))

  -- The entry at the given parent is that of a parent of the proto; the first entry has none.
  abbrev pub IsParent : List ProtoRef → ℕ → ℕ → ℕ → Type 0
  IsParent output index proto parent =
      ((index ≡ 0) × (parent ≡ no_id))
      ⊎ ((parent < index)
          × (ref : ProtoRef) × (get_elem? output parent ≡ some ref)
          × IsChild ref.proto proto)

  -- Each proto has one entry, and each entry but the first one has a parent before it.
  pub record IsForest (output : List ProtoRef) : Type 0 where
    pub distinct :
        (i j : ℕ) (a b : ProtoRef)
        → get_elem? output i ≡ some a
        → get_elem? output j ≡ some b
        → a.proto ≡ b.proto
        → i ≡ j
    pub parents :
        (i : ℕ) (a : ProtoRef) → get_elem? output i ≡ some a → IsParent output i a.proto a.parent

  -- What a walk does to a list: it appends to it, keeps the forest and the limit, and from `before` on
  -- leaves no child of an entry out.
  record Walked (before after : List ProtoRef) : Type 0 where
    keeps : (i : ℕ) (a : ProtoRef) → get_elem? before i ≡ some a → get_elem? after i ≡ some a
    longer : length before ≤ length after
    forest : IsForest after
    covers :
        (i : ℕ) (a : ProtoRef) (child : ℕ)
        → length before ≤ i
        → get_elem? after i ≡ some a
        → IsChild a.proto child
        → Has after child

  Has-keeps :
      {before after : List ProtoRef} (proto : ℕ)
      → Walked before after
      → Has before proto
      → Has after proto
  Has-keeps proto w (i, a, g, e) = (i, a, w.keeps i a g, e)

  Walked-refl : (output : List ProtoRef) → IsForest output → Walked output output
  Walked-refl output f = record {
    keeps = λ i a g. g;
    longer = omega arith;
    forest = f;
    covers = λ i a child l g c. absurd (omega (arith, get_elem?-lt output i g));
  }

  Walked-trans :
      {before middle after : List ProtoRef}
      → Walked before middle
      → Walked middle after
      → Walked before after
  Walked-trans {before} {middle} {after} v w = record {
    keeps = λ i a g. w.keeps i a (v.keeps i a g);
    longer = omega (arith, v.longer, w.longer);
    forest = w.forest;
    covers = λ i a child l g c. elim (Option-cases (get_elem? middle i)) [
      | inl n ↦ w.covers i a child (get_elem?-none middle i n) g c
      | inr (b, m) ↦
          let kept = w.keeps i b m in
          let same : b ≡ a = ground arith in Has-keeps child w (v.covers i b child l m (rw same c))
    ];
  }

  -- A new entry at the end.
  module _ (output : List ProtoRef) (proto parent : ℕ) (f : IsForest output)
      (fresh : (i : ℕ) (a : ProtoRef) → get_elem? output i ≡ some a → a.proto ≢ proto)
      (p : IsParent output (length output) proto parent) where
    abbrev entry : ProtoRef
    entry = record { proto = proto; parent = parent }

    abbrev pushed : List ProtoRef
    pushed = output ++ (entry ∷ [])

    pushed-keeps :
        (i : ℕ) (a : ProtoRef) → get_elem? output i ≡ some a → get_elem? pushed i ≡ some a
    pushed-keeps i a g = get_elem?-append_left output (entry ∷ []) i (get_elem?-lt output i g) ∙ g

    IsParent-pushed : (i q r : ℕ) → IsParent output i q r → IsParent pushed i q r
    IsParent-pushed i q r (inl e) = inl e
    IsParent-pushed i q r (inr (l, a, g, c)) = inr (l, a, pushed-keeps r a g, c)

    pushed-IsForest : IsForest pushed
    pushed-IsForest = record {
      distinct = λ i j a b g h e. elim (get_elem?-snoc output entry i g) [
        | inl (l, u) ↦ elim (get_elem?-snoc output entry j h) [
          | inl (m, v) ↦ f.distinct i j a b u v e
          | inr (m, v) ↦ absurd (fresh i a u (e ∙ ap (λ (x : ProtoRef). x.proto) v))
        ]
        | inr (l, u) ↦ elim (get_elem?-snoc output entry j h) [
          | inl (m, v) ↦ absurd (fresh j b v (sym e ∙ ap (λ (x : ProtoRef). x.proto) u))
          | inr (m, v) ↦ l ∙ sym m
        ]
      ];
      parents = λ i a g. elim (get_elem?-snoc output entry i g) [
        | inl (l, u) ↦ IsParent-pushed i a.proto a.parent (f.parents i a u)
        | inr (l, u) ↦ rw (l, u) (IsParent-pushed (length output) proto parent p)
      ];
    }

  -- What a walk to one proto guarantees, if it gives a list.
  abbrev Walks : (Option ℕ → List ProtoRef → Collecting) → ℕ → ℕ → Type 0
  Walks collect current proto =
      (output : List ProtoRef) (child : ℕ) (after : List ProtoRef)
      → IsForest output
      → (ref : ProtoRef) × (get_elem? output current ≡ some ref) × (ref.proto ≡ proto)
      → IsChild proto child
      → collect (some child) output ≡ collected after
      → Walked output after × Has after child

  cons-Has :
      (child : ℕ) (rest : List (Option ℕ)) (after : List ProtoRef)
      → Has after child
      → ((k c : ℕ) → get_elem? rest k ≡ some (some c) → Has after c)
      → (k c : ℕ) → get_elem? (some child ∷ rest) k ≡ some (some c)
      → Has after c
  cons-Has child rest after has all zero c g =
      let same : child ≡ c = ground arith in subst (λ (x : ℕ). Has after x) same has
  cons-Has child rest after has all (suc k) c g = all k c g

  collect_each-Walked :
      (collect : Option ℕ → List ProtoRef → Collecting) (current proto : ℕ)
      → ((output : List ProtoRef) → collect none output ≡ refused)
      → Walks collect current proto
      → (rest : List (Option ℕ)) (output after : List ProtoRef) → IsForest output
      → (ref : ProtoRef) × (get_elem? output current ≡ some ref) × (ref.proto ≡ proto)
      → ((k child : ℕ) → get_elem? rest k ≡ some (some child) → IsChild proto child)
      → collect_each collect rest output ≡ collected after
      → Walked output after
        × ((k child : ℕ) → get_elem? rest k ≡ some (some child) → Has after child)
  unfolding collect_each
  collect_each-Walked collect current proto null walks [] output after f here sound h =
      let same : output ≡ after = ground arith in
      rw (sym same) (Walked-refl output f, λ k child g. cc)
  collect_each-Walked collect current proto null walks (none ∷ rest) output after f here sound h =
      absurd (cc (rw (null output) at h))
  collect_each-Walked collect current proto null walks (some child ∷ rest) output after f here sound
        h =
      elim (Collecting-cases (collect (some child) output)) [
        | inr (inl e) ↦ absurd (cc (rw e at h))
        | inr (inr e) ↦ absurd (cc (rw e at h))
        | inl (middle, e) ↦
            let (w, has) = walks output child middle f here (sound 0 child refl) e in
            let (ref, g, p) = here in
            let (v, all) =
              collect_each-Walked collect current proto null walks rest middle after w.forest
                (ref, w.keeps current ref g, p) (λ k c q. sound (suc k) c q) (rw e at h) in
            (Walked-trans w v, cons-Has child rest after (Has-keeps child v has) all)
      ]

  -- From the list with the new entry on, whose children are all in the result.
  pushed-Walked :
      (output after : List ProtoRef) (proto parent : ℕ)
      → Walked (output ++ (record { proto = proto; parent = parent } ∷ [])) after
      → ((k child : ℕ) → get_elem? (children proto) k ≡ some (some child) → Has after child)
      → Walked output after × Has after proto
  pushed-Walked output after proto parent w all =
      let new : ProtoRef = record { proto = proto; parent = parent } in
      let size = length-append output (new ∷ []) in
      let last = w.keeps (length output) new (get_elem?-append_end output new []) in
      (
        record {
          keeps = λ i a g.
              w.keeps i a (get_elem?-append_left output (new ∷ []) i (get_elem?-lt output i g) ∙ g);
          longer = omega (arith, size, w.longer);
          forest = w.forest;
          covers = λ i a child l g c. elim (Bool-cases (i == length output)) [
            | inl e ↦
                let here : i ≡ length output = ground arith in
                let found : get_elem? after (length output) ≡ some a =
                  subst (λ (x : ℕ). get_elem? after x ≡ some a) here g in
                let same : new ≡ a = ground arith in
                let (k, q) = subst (λ (x : ProtoRef). IsChild x.proto child) (sym same) c in
                all k child q
            | inr e ↦ w.covers i a child (ground (arith, size)) g c
          ];
        },
        (length output, new, last, refl),
      )

  collect_protos-Walked :
      (fuel proto parent : ℕ) (output after : List ProtoRef)
      → IsForest output
      → IsParent output (length output) proto parent
      → collect_protos children fuel (some proto) parent output ≡ collected after
      → Walked output after × Has after proto
  unfolding collect_protos
  collect_protos-Walked zero proto parent output after f p h = cc
  collect_protos-Walked (suc fuel) proto parent output after f p h =
      elim (Option-cases (proto_id 0 output proto)) [
        | inr (i, e) ↦
            let same : output ≡ after = cc (rw (e, collect_protos) at h) in
            rw (sym same) (Walked-refl output f, proto_id-some 0 output proto i e)
        | inl e ↦ elim (Bool-cases (leb max_protos (length output))) [
          | inl l ↦ absurd (cc (rw (e, l, collect_protos) at h))
          | inr l ↦
              let new : ProtoRef = record { proto = proto; parent = parent } in
              let narrow : length output % 2 ^ 32 ≡ length output = ground arith in
              let looped = rw (e, l, narrow, collect_protos) at h in
              let (w, all) =
                collect_each-Walked (λ child. collect_protos children fuel child (length output))
                  (length output) proto (λ out. refl)
                  (λ out child out' forest (ref, g, q) c step.
                    collect_protos-Walked fuel child (length output) out out' forest
                      (inr (get_elem?-lt out (length output) g, ref, g, rw q c)) step)
                  (children proto) (output ++ (new ∷ [])) after
                  (pushed-IsForest output proto parent f
                    (λ i a g. proto_id-none 0 output proto i a e g) p)
                  (new, get_elem?-append_end output new [], refl) (λ k child g. (k, g)) looped in
              pushed-Walked output after proto parent w all
        ]
      ]

  -- A walk from a root gives each proto that it reaches exactly one entry, behind the entry of a proto
  -- that has it as a child, to which its parent number leads; only the root has no parent. The list has
  -- the root, and every child of an entry.
  pub collect_protos-IsForest :
      (fuel root : ℕ) (after : List ProtoRef)
      → collect_protos children fuel (some root) no_id [] ≡ collected after
      → IsForest after
        × Has after root
        × ((i : ℕ) (a : ProtoRef) (child : ℕ)
            → get_elem? after i ≡ some a
            → IsChild a.proto child
            → Has after child)
  collect_protos-IsForest fuel root after h =
      let none_yet : IsForest [] = record {
        distinct = λ i j a b g h e. cc;
        parents = λ i a g. cc;
      } in
      let (w, has) = collect_protos-Walked fuel root no_id [] after none_yet (inl (refl, refl)) h in
      (w.forest, has, λ i a child g c. w.covers i a child (omega arith) g c)
