-- ===== src/Frontend/Protos/Ends.antt =====
-- The walk over the protos ends.
use luauc.Prelude.{
  ℕ, zero, suc, ◌+◌, ◌%◌, ◌^◌, ◌≤◌, ◌<◌, ◌≡◌, ◌≢◌, inl, inr, Option, none, some, List, [], ◌∷◌,
  ◌++◌, arith, leb, length, Bool-cases, Option-cases, length-append,
}
use luauc.Frontend.Protos.{
  ProtoRef, proto_id, Collecting, collected, stuck, collect_each, collect_protos, max_protos,
}
use luauc.Frontend.Protos.Forest.{Collecting-cases}

module _ (children : ℕ → List (Option ℕ)) where
  abbrev Grows : (Option ℕ → List ProtoRef → Collecting) → Type 0
  Grows collect =
      (child : Option ℕ) (output after : List ProtoRef)
      → collect child output ≡ collected after
      → length output ≤ length after

  collect_each-longer :
      (collect : Option ℕ → List ProtoRef → Collecting)
      → Grows collect
      → (rest : List (Option ℕ)) (output after : List ProtoRef)
      → collect_each collect rest output ≡ collected after
      → length output ≤ length after
  unfolding collect_each
  collect_each-longer collect grows [] output after h =
      let same : output ≡ after = ground arith in rw same (omega arith)
  collect_each-longer collect grows (child ∷ rest) output after h =
      elim (Collecting-cases (collect child output)) [
        | inr (inl e) ↦ absurd (cc (rw e at h))
        | inr (inr e) ↦ absurd (cc (rw e at h))
        | inl (middle, e) ↦ omega (
          arith,
          grows child output middle e,
          collect_each-longer collect grows rest middle after (rw e at h),
        )
      ]

  collect_protos-longer :
      (fuel : ℕ) (proto : Option ℕ) (parent : ℕ) (output after : List ProtoRef)
      → collect_protos children fuel proto parent output ≡ collected after
      → length output ≤ length after
  unfolding collect_protos
  collect_protos-longer fuel none parent output after h = cc
  collect_protos-longer zero (some proto) parent output after h = cc
  collect_protos-longer (suc fuel) (some proto) parent output after h =
      elim (Option-cases (proto_id 0 output proto)) [
        | inr (i, e) ↦
            let same : output ≡ after = cc (rw (e, collect_protos) at h) in rw same (omega arith)
        | inl e ↦ elim (Bool-cases (leb max_protos (length output))) [
          | inl l ↦ absurd (cc (rw (e, l, collect_protos) at h))
          | inr l ↦
              let new : ProtoRef = record { proto = proto; parent = parent } in
              omega (
                arith,
                length-append output (new ∷ []),
                collect_each-longer
                    (λ child. collect_protos children fuel child (length output % 2 ^ 32))
                    (λ child out out' step.
                      collect_protos-longer fuel child (length output % 2 ^ 32) out out' step)
                    (children proto) (output ++ (new ∷ [])) after (rw (e, l, collect_protos) at h),
              )
        ]
      ]

  collect_each-ne-stuck :
      (collect : Option ℕ → List ProtoRef → Collecting) (size : ℕ)
      → Grows collect
      → ((child : Option ℕ) (output : List ProtoRef)
          → size ≤ length output
          → collect child output ≢ stuck)
      → (rest : List (Option ℕ)) (output : List ProtoRef) → size ≤ length output
      → collect_each collect rest output ≢ stuck
  unfolding collect_each
  collect_each-ne-stuck collect size grows ends [] output l = λ q. cc
  collect_each-ne-stuck collect size grows ends (child ∷ rest) output l =
      elim (Collecting-cases (collect child output)) [
        | inr (inl e) ↦ rw e (λ q. cc)
        | inr (inr e) ↦ absurd (ends child output l e)
        | inl (middle, e) ↦ rw e (
            collect_each-ne-stuck collect size grows ends rest middle
              (omega (arith, grows child output middle e)))
      ]

  -- The walk ends on every graph of protos, also on one with cycles: its depth stays within the limit on
  -- their number.
  pub collect_protos-ne-stuck :
      (fuel : ℕ) (proto : Option ℕ) (parent : ℕ) (output : List ProtoRef)
      → 0 < fuel
      → max_protos < fuel + length output
      → collect_protos children fuel proto parent output ≢ stuck
  unfolding collect_protos
  collect_protos-ne-stuck fuel none parent output some_fuel l = λ q. cc
  collect_protos-ne-stuck zero (some proto) parent output some_fuel l = absurd (omega arith)
  collect_protos-ne-stuck (suc fuel) (some proto) parent output some_fuel l =
      elim (Option-cases (proto_id 0 output proto)) [
        | inr (i, e) ↦ rw (e, collect_protos) (λ q. cc)
        | inl e ↦ elim (Bool-cases (leb max_protos (length output))) [
          | inl m ↦ rw (e, m, collect_protos) (λ q. cc)
          | inr m ↦
              let new : ProtoRef = record { proto = proto; parent = parent } in
              let size = length-append output (new ∷ []) in
              rw (e, m, collect_protos)
                (collect_each-ne-stuck
                  (λ child. collect_protos children fuel child (length output % 2 ^ 32))
                  (length output + 1)
                  (λ child out out' step.
                    collect_protos-longer fuel child (length output % 2 ^ 32) out out' step)
                  (λ child out k.
                    collect_protos-ne-stuck fuel child (length output % 2 ^ 32) out (ground arith)
                      (omega arith))
                  (children proto) (output ++ (new ∷ [])) (omega (arith, size)))
        ]
      ]
