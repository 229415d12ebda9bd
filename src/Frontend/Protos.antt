-- ===== src/Frontend/Protos.antt =====
-- `protoId` and `collectProtos` of frontend/frontend_adapter.cpp: the protos that a root reaches are
-- numbered in the order of a depth-first walk. A `Proto *` is a number, or `none` when it is null, and
-- `children` gives the array `p` of a proto.
pub mod Forest
pub mod Ends
mod Runs
use luauc.Prelude.{
  ℕ, zero, suc, ◌+◌, ◌-◌, ◌%◌, ◌^◌, Bool, true, false, Option, none, some, List, [], ◌∷◌, ◌++◌,
  arith, leb, ◌==◌, if◌then◌else◌, length,
}
use luauc.Prelude.Words.{no_id}

abbrev pub max_protos : ℕ
max_protos = 4096

pub record ProtoRef : Type 0 where
  pub proto : ℕ
  pub parent : ℕ

-- The index of the first entry for a proto, counted from `index`.
unfoldable pub proto_id : ℕ → List ProtoRef → ℕ → Option ℕ
proto_id index [] wanted = none
proto_id index (ref ∷ refs) wanted =
    let later = proto_id (index + 1) refs wanted in
    if ref.proto == wanted then some index else later

-- `true` with the new list, or `false`. `stuck` is no result of the code: the fuel ran out.
pub data Collecting : Type 0 where
  collected : List ProtoRef → Collecting
  refused : Collecting
  stuck : Collecting

abbrev pub then_collect : Collecting → (List ProtoRef → Collecting) → Collecting
then_collect (collected output) next = next output
then_collect refused next = refused
then_collect stuck next = stuck

-- The loop over the children.
unfoldable pub collect_each :
    (Option ℕ → List ProtoRef → Collecting) → List (Option ℕ) → List ProtoRef → Collecting
collect_each collect [] output = collected output
collect_each collect (child ∷ rest) output =
    then_collect (collect child output) (collect_each collect rest)

unfoldable pub collect_protos :
    (ℕ → List (Option ℕ)) → ℕ → Option ℕ → ℕ → List ProtoRef → Collecting
collect_protos children fuel none parent output = refused
collect_protos children zero (some proto) parent output = stuck
collect_protos children (suc fuel) (some proto) parent output = elim (proto_id 0 output proto) [
  | some existing ↦ collected output
  | none ↦
      if leb max_protos (length output)
      then refused
      else collect_each (λ child. collect_protos children fuel child (length output % 2 ^ 32))
          (children proto) (output ++ (record { proto = proto; parent = parent } ∷ []))
]
