-- ===== src/Frontend/Protos/Runs.antt =====
-- The theorems on collected protos at a concrete graph: proto 7 has the children 8 and 9, and 8 has 9 too.
use luauc.Prelude.{
  ℕ, ◌≡◌, ◌≢◌, refl, Option, some, List, [], ◌∷◌, arith, get_elem?, ◌==◌, if◌then◌else◌,
}
use luauc.Prelude.Words.{no_id}
use luauc.Frontend.Protos.{ProtoRef, proto_id, collected, stuck, collect_each, collect_protos}
use luauc.Frontend.Protos.Forest.{Has, IsChild, IsForest, collect_protos-IsForest}
use luauc.Frontend.Protos.Ends.{collect_protos-ne-stuck}

abbrev a_graph : ℕ → List (Option ℕ)
a_graph proto =
    if proto == 7 then some 8 ∷ some 9 ∷ [] else (if proto == 8 then some 9 ∷ [] else [])

abbrev its_protos : List ProtoRef
its_protos =
    record { proto = 7; parent = no_id }
    ∷ record { proto = 8; parent = 0 }
    ∷ record { proto = 9; parent = 1 }
    ∷ []

its_protos-collected : collect_protos a_graph 5 (some 7) no_id [] ≡ collected its_protos
unfolding collect_protos collect_each proto_id
its_protos-collected = refl

collect_protos-IsForest_example :
    IsForest a_graph its_protos
    × Has its_protos 7
    × ((i : ℕ) (a : ProtoRef) (child : ℕ)
        → get_elem? its_protos i ≡ some a
        → IsChild a_graph a.proto child
        → Has its_protos child)
collect_protos-IsForest_example =
    collect_protos-IsForest a_graph 5 7 its_protos its_protos-collected

-- A graph in which each proto is its own child.
collect_protos-ne-stuck_example :
    collect_protos (λ proto. some proto ∷ []) 4097 (some 7) no_id [] ≢ stuck
collect_protos-ne-stuck_example =
    collect_protos-ne-stuck (λ proto. some proto ∷ []) 4097 (some 7) no_id [] (omega arith)
      (omega arith)
