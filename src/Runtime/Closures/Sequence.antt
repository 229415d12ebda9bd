-- ===== src/Runtime/Closures/Sequence.antt =====
-- The captures of a NEWCLOSURE, one helper call for each, build one closure with every upvalue.
use luauc.Prelude.{
  ℕ, zero, suc, ◌+◌, ◌<◌, ◌≤◌, ◌≡◌, ◌≢◌, inl, inr, refl, sym, ap, ◌∙◌, true, Option, some, arith,
  ◌==◌, if◌then◌else◌, Option-cases, Bool-cases,
}
use luauc.Runtime.Tables.{given}
use luauc.Runtime.Closures.{
  Held, nil, plain, closure, LClosure, ProtoShape, State, register, active_closure,
  find_direct_aot_child, new_lclosure, publish_closure, allocate_closure,
}
use luauc.Runtime.Closures.New.{
  Capturing, valid_source, capture_child, closure_of, resumed_closure, store_capture,
  newclosure_capture,
}
use luauc.Runtime.Closures.Capture.{
  FindsUpvalues, IsCaptured, Keeps, Keeps-refl, Keeps-trans, Keeps-register, Keeps-IsCaptured,
  store_capture-Keeps, store_capture-entries, store_capture-earlier, store_capture-shape,
  update-same, update-ne,
}

-- The captures of one closure: `kind` and `source` of each upvalue.
pub record Capturings : Type 0 where
  pub destination : ℕ
  pub child_proto_id : ℕ
  pub kind : ℕ → ℕ
  pub source : ℕ → ℕ
  pub check_gc : ℕ → ℕ

abbrev pub capturing : Capturings → ℕ → Capturing
capturing cs i = record {
  destination = cs.destination;
  child_proto_id = cs.child_proto_id;
  capture_index = i;
  capture_kind = cs.kind i;
  source_index = cs.source i;
  check_gc = cs.check_gc i;
}

closure_of-some : (v : Held) (place : ℕ) → closure_of v ≡ some place → v ≡ closure place
closure_of-some (closure p) place h = ground (arith, h)
closure_of-some nil place h = cc
closure_of-some (plain value) place h = cc

module _ (find_upval : State → ℕ → State × ℕ) (protos : ℕ → ProtoShape) (cs : Capturings) where
  -- `rounds` captures from upvalue `i` on.
  unfoldable pub capture_from : ℕ → ℕ → State → Option State
  capture_from zero i s = some s
  capture_from (suc rounds) i s =
      given (newclosure_capture find_upval protos s (capturing cs i))
        (λ s'. capture_from rounds (i + 1) s')

  -- The closure at `place` after the captures below `i`.
  pub record IsPartial (child place : ℕ) (s : State) (i : ℕ) : Type 0 where
    pub held : register s cs.destination ≡ closure place
    pub apart : s.active ≢ place
    pub proto : (s.closures place).proto ≡ child
    pub preload : (s.closures place).preload ≡ (if i == (protos child).nups then 0 else i)
    pub entries :
        (j : ℕ) → j < i → IsCaptured s (cs.kind j) (cs.source j) ((s.closures place).uprefs j)

  child_of :
      (s : State) (i child : ℕ)
      → capture_child protos s true (capturing cs i) ≡ some child
      → (find_direct_aot_child protos (protos (active_closure s).proto).p cs.child_proto_id
          ≡ some child)
        × (i < (protos child).nups)
        × (valid_source protos s true (capturing cs i) ≡ true)
  unfolding capture_child
  child_of s i child h =
      elim (Option-cases
        (find_direct_aot_child protos (protos (active_closure s).proto).p cs.child_proto_id)) [
          | inl n ↦ absurd (ground (arith, n))
          | inr (c, e) ↦
              let same : c ≡ child = ground (arith, e) in
              (e ∙ ap (λ (x : ℕ). some x) same, ground (arith, e, same), ground (arith, e))
        ]

  module _ (finds : FindsUpvalues find_upval) (child : ℕ) (small : (protos child).nups ≤ 255) where
    -- The capture that is stored in a closure makes it partial by one more.
    stored-IsPartial :
        (s s₀ : State) (place i : ℕ)
        → register s cs.destination ≡ closure place
        → s.active ≢ place
        → (s.closures place).proto ≡ child
        → i < (protos child).nups
        → valid_source protos s₀ true (capturing cs i) ≡ true
        → ((j : ℕ) → j < i → IsCaptured s (cs.kind j) (cs.source j) ((s.closures place).uprefs j))
        → IsPartial child place
            (store_capture find_upval s place (protos child).nups (capturing cs i))
            (i + 1)
    stored-IsPartial s s₀ place i held apart proto l v entries =
        let c = capturing cs i in
        let after = store_capture find_upval s place (protos child).nups c in
        let keeps = store_capture-Keeps find_upval finds protos s place (protos child).nups c in
        let shape = store_capture-shape find_upval finds protos s place (protos child).nups c in
        record {
          held = Keeps-register place s after cs.destination keeps ∙ held;
          apart = λ e. apart (sym keeps.active ∙ e);
          proto = shape.0 ∙ proto;
          preload = shape.1 ∙ ground (arith, l, small);
          entries = λ j m. elim (Bool-cases (j == i)) [
            | inl e ↦
                let same : j ≡ i = ground (arith, e) in
                rw same (
                  store_capture-entries find_upval finds protos s s₀ place (protos child).nups c v
                    apart)
            | inr e ↦
                rw
                  (store_capture-earlier find_upval finds protos s place (protos child).nups j c
                    (ground (arith, e)))
                  (Keeps-IsCaptured place s after (cs.kind j) (cs.source j)
                    ((s.closures place).uprefs j) keeps apart (entries j (ground (arith, e, m))))
          ];
        }

    -- What the state is when the first capture is stored, and when a later one is.
    first_stored :
        (s s' : State)
        → find_direct_aot_child protos (protos (active_closure s).proto).p cs.child_proto_id
          ≡ some child
        → newclosure_capture find_upval protos s (capturing cs 0) ≡ some s'
        → (0 < (protos child).nups)
          × (valid_source protos s true (capturing cs 0) ≡ true)
          × (s'
              ≡ store_capture find_upval
                  (allocate_closure protos s child cs.destination)
                  s.next
                  (protos child).nups
                  (capturing cs 0))
    unfolding newclosure_capture
    first_stored s s' e h = elim (Option-cases (capture_child protos s true (capturing cs 0))) [
      | inl n ↦ absurd (ground (arith, n))
      | inr (child', a) ↦
          let (found, inside, valid) = child_of s 0 child' a in
          let same : child' ≡ child = ground (arith, found, e) in
          (rw (← same) inside, valid, rw (← same) (ground (arith, a)))
    ]

    next_stored :
        (s s' : State) (place i : ℕ)
        → IsPartial child place s i
        → i ≢ 0
        → newclosure_capture find_upval protos s (capturing cs i) ≡ some s'
        → (i < (protos child).nups)
          × (valid_source protos s true (capturing cs i) ≡ true)
          × (s' ≡ store_capture find_upval s place (protos child).nups (capturing cs i))
    unfolding newclosure_capture resumed_closure
    next_stored s s' place i p positive h =
        elim (Option-cases (capture_child protos s true (capturing cs i))) [
          | inl n ↦ absurd (ground (arith, n))
          | inr (child', a) ↦ elim (Option-cases (closure_of (register s cs.destination))) [
            | inl n ↦ absurd (ground (arith, a, n, positive))
            | inr (place', r) ↦
                let (found, inside, valid) = child_of s i child' a in
                let at : place' ≡ place = ground (arith, r, p.held) in
                let shape : (s.closures place').proto ≡ child' = ground (arith, a, r, positive) in
                let same : child' ≡ child =
                  sym shape ∙ ap (λ (q : ℕ). (s.closures q).proto) at ∙ p.proto in
                (rw (← same) inside, valid, rw (← same, ← at) (ground (arith, a, r, positive)))
          ]
        ]

    -- The state with the new closure.
    fresh_parts :
        (s : State)
        → (register (allocate_closure protos s child cs.destination) cs.destination
            ≡ closure s.next)
          × ((allocate_closure protos s child cs.destination).active ≡ s.active)
          × (((allocate_closure protos s child cs.destination).closures s.next).proto ≡ child)
          × ((a : ℕ)
              → a ≢ s.next
              → (allocate_closure protos s child cs.destination).closures a ≡ s.closures a)
          × ((slot : ℕ)
              → slot ≢ s.base + cs.destination
              → (allocate_closure protos s child cs.destination).stack slot ≡ s.stack slot)
    unfolding allocate_closure publish_closure new_lclosure
    fresh_parts s = (
      update-same s.stack (s.base + cs.destination) (closure s.next),
      refl,
      ap (λ (ncl : LClosure). ncl.proto) (update-same s.closures s.next _),
      λ a n. update-ne s.closures s.next a _ n,
      λ slot n. update-ne s.stack (s.base + cs.destination) slot (closure s.next) n,
    )

    first_capture :
        (s s' : State)
        → s.active ≢ s.next
        → find_direct_aot_child protos (protos (active_closure s).proto).p cs.child_proto_id
          ≡ some child
        → newclosure_capture find_upval protos s (capturing cs 0) ≡ some s'
        → IsPartial child s.next s' 1
          × Keeps s.next (allocate_closure protos s child cs.destination) s'
    first_capture s s' apart e h =
        let (inside, valid, stored) = first_stored s s' e h in
        let fresh = allocate_closure protos s child cs.destination in
        let apart' : fresh.active ≢ s.next = λ q. apart (sym (fresh_parts s).1 ∙ q) in
        rw stored (
          stored-IsPartial fresh s s.next 0 (fresh_parts s).0 apart' (fresh_parts s).2 inside valid
              (λ j l. absurd (omega arith)),
          store_capture-Keeps find_upval finds protos fresh s.next (protos child).nups
              (capturing cs 0),
        )

    next_capture :
        (s s' : State) (place i : ℕ)
        → IsPartial child place s i
        → i ≢ 0
        → newclosure_capture find_upval protos s (capturing cs i) ≡ some s'
        → IsPartial child place s' (i + 1) × Keeps place s s'
    next_capture s s' place i p positive h =
        let (inside, valid, stored) = next_stored s s' place i p positive h in
        rw stored (
          stored-IsPartial s s place i p.held p.apart p.proto inside valid p.entries,
          store_capture-Keeps find_upval finds protos s place (protos child).nups (capturing cs i),
        )

    later_captures :
        (rounds i place : ℕ) (s s' : State)
        → IsPartial child place s i
        → i ≢ 0
        → capture_from rounds i s ≡ some s'
        → IsPartial child place s' (i + rounds) × Keeps place s s'
    unfolding capture_from
    later_captures zero i place s s' p positive h =
        let same : s ≡ s' = ground arith in
        let sum : i ≡ i + zero = omega arith in rw (← same) (rw (← sum) p, Keeps-refl place s)
    later_captures (suc rounds) i place s s' p positive h =
        elim (Option-cases (newclosure_capture find_upval protos s (capturing cs i))) [
          | inl n ↦ absurd (ground (arith, n))
          | inr (t, e) ↦
              let (q, k) = next_capture s t place i p positive e in
              let (r, l) =
                later_captures rounds (i + 1) place t s' q (λ z. absurd (omega arith))
                  (ground (arith, e)) in
              let sum : i + 1 + rounds ≡ i + suc rounds = omega arith in
              (rw (← sum) r, Keeps-trans place s t s' k l)
        ]

    -- The closure that the captures have built, in its register, and what they leave alone.
    pub record IsBuilt (s s' : State) : Type 0 where
      pub held : register s' cs.destination ≡ closure s.next
      pub proto : (s'.closures s.next).proto ≡ child
      pub preload : (s'.closures s.next).preload ≡ 0
      pub entries :
          (i : ℕ)
          → i < (protos child).nups
          → IsCaptured s' (cs.kind i) (cs.source i) ((s'.closures s.next).uprefs i)
      pub others : (a : ℕ) → a ≢ s.next → s'.closures a ≡ s.closures a
      pub slots : (slot : ℕ) → slot ≢ s.base + cs.destination → s'.stack slot ≡ s.stack slot

    all_captures :
        (rounds : ℕ) (s s' : State)
        → suc rounds ≡ (protos child).nups
        → s.active ≢ s.next
        → find_direct_aot_child protos (protos (active_closure s).proto).p cs.child_proto_id
          ≡ some child
        → capture_from (suc rounds) 0 s ≡ some s'
        → IsBuilt s s'
    unfolding capture_from
    all_captures rounds s s' total apart e h =
        elim (Option-cases (newclosure_capture find_upval protos s (capturing cs 0))) [
          | inl n ↦ absurd (ground (arith, n))
          | inr (t, f) ↦
              let (q, k) = first_capture s t apart e f in
              let (r, l) =
                later_captures rounds 1 s.next t s' q (λ z. absurd (omega arith))
                  (ground (arith, f)) in
              let keeps = Keeps-trans s.next _ t s' k l in
              let parts = fresh_parts s in
              let whole : 1 + rounds ≡ (protos child).nups = omega (arith, total) in
              record {
                held = r.held;
                proto = r.proto;
                preload = r.preload ∙ ground (arith, whole);
                entries = λ i m. r.entries i (omega (arith, whole));
                others = λ a n. keeps.others a n ∙ parts.3 a n;
                slots = λ slot n. ap (λ (f : ℕ → Held). f slot) keeps.stack ∙ parts.4 slot n;
              }
        ]

-- When every capture of a NEWCLOSURE with upvalues is accepted, in order, the destination holds one new
-- closure of the child proto whose upvalues are all as captured: the value of a register, a cell that is open
-- at a register, or the upvalue of the closure that runs. No other closure and no other slot has changed.
pub capture_from-IsBuilt :
    (find_upval : State → ℕ → State × ℕ) (protos : ℕ → ProtoShape) (cs : Capturings)
    (finds : FindsUpvalues find_upval) (child : ℕ) (small : (protos child).nups ≤ 255)
    (s s' : State)
    → (protos child).nups ≢ 0
    → s.active ≢ s.next
    → find_direct_aot_child protos (protos (active_closure s).proto).p cs.child_proto_id
      ≡ some child
    → capture_from find_upval protos cs (protos child).nups 0 s ≡ some s'
    → IsBuilt find_upval protos cs finds child small s s'
capture_from-IsBuilt find_upval protos cs finds child small s s' positive apart e h =
    build (protos child).nups refl
  where
    build :
        (count : ℕ)
        → count ≡ (protos child).nups
        → IsBuilt find_upval protos cs finds child small s s'
    build zero q = absurd (positive (sym q))
    build (suc rounds) q =
        all_captures find_upval protos cs finds child small rounds s s' q apart e
          (ap (λ (n : ℕ). capture_from find_upval protos cs n 0 s) q ∙ h)
