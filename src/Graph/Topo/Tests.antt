-- ===== src/Graph/Topo/Tests.antt =====
-- A diamond with a shortcut, and a graph with a cycle behind an entry.
use gocel.Prelude.{
  arith, ℕ, ◌≡◌, refl, some, List, [], ◌∷◌, lookup, insert, string_eq, Result, ok, err, String,
}
use gocel.Prelude.Int.{◌-ℤ◌}
use gocel.Graph.Builder.{
  Graph, adds_chain, adds_edge, new, add_chain_node, add_labeled_edge, build, build_step, cycle,
  GraphError, NodeId,
}
use gocel.Graph.Builder.Indexes.{Inv}
use gocel.Graph.Builder.Building.{build-new-Inv}
use gocel.Graph.Topo.{topo_sort, compile, CompiledGraph}
use gocel.Graph.Topo.Order.{SortSpec, IsOrder}
use gocel.Graph.Topo.Correct.{topo_sort_correct}
use gocel.Graph.Topo.Acyclic.{acyclic_sorts}
use gocel.Graph.Topo.Compiling.{compile_correct, CompileSpec}

abbrev diamond : Graph ℕ
diamond =
    build
      (adds_chain "d" (4 ∷ []) []
        ∷ adds_chain "a" (1 ∷ []) []
        ∷ adds_chain "b" (2 ∷ []) []
        ∷ adds_chain "c" (3 ∷ []) []
        ∷ adds_edge "a" "b" ""
        ∷ adds_edge "a" "c" ""
        ∷ adds_edge "b" "d" ""
        ∷ adds_edge "c" "d" ""
        ∷ adds_edge "a" "d" ""
        ∷ [])
      (new "diamond")

abbrev looped : Graph ℕ
looped =
    build
      (adds_chain "a" (1 ∷ []) []
        ∷ adds_chain "b" (2 ∷ []) []
        ∷ adds_chain "c" (3 ∷ []) []
        ∷ adds_edge "a" "b" ""
        ∷ adds_edge "b" "c" ""
        ∷ adds_edge "c" "b" ""
        ∷ [])
      (new "looped")

abbrev diamond_order : List String
diamond_order = "a" ∷ "b" ∷ "c" ∷ "d" ∷ []

diamond-Inv : Inv diamond
diamond-Inv = build-new-Inv "diamond" _

looped-Inv : Inv looped
looped-Inv = build-new-Inv "looped" _

topo_sort_correct_example :
    (r : Result GraphError (List NodeId)) × (topo_sort looped ≡ some r) × SortSpec looped r
topo_sort_correct_example = topo_sort_correct looped looped-Inv

compile_correct_example :
    (g' : Graph ℕ) × (r : Result GraphError (CompiledGraph ℕ)) × (compile looped ≡ some (g', r))
    × Inv g'
    × (g'.nodes ≡ looped.nodes)
    × (g'.edges ≡ looped.edges)
    × CompileSpec g' r
compile_correct_example = compile_correct looped looped-Inv

diamond_sorted : topo_sort diamond ≡ some (ok diamond_order)
unfolding build build_step new add_chain_node add_labeled_edge lookup insert topo_sort ◌-ℤ◌
diamond_sorted = refl

looped_refused : topo_sort looped ≡ some (err (cycle ("b" ∷ "c" ∷ [])))
unfolding build build_step new add_chain_node add_labeled_edge lookup insert topo_sort ◌-ℤ◌
looped_refused = refl

diamond_order-IsOrder : IsOrder diamond diamond_order
unfolding build build_step new add_chain_node add_labeled_edge lookup insert
diamond_order-IsOrder = ((λ v. ground arith), (refl, (refl, (refl, (refl, tt)))))

acyclic_sorts_example :
    (found : List NodeId) × (topo_sort diamond ≡ some (ok found)) × IsOrder diamond found
acyclic_sorts_example = acyclic_sorts diamond diamond-Inv diamond_order diamond_order-IsOrder
