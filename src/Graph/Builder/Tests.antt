-- ===== src/Graph/Builder/Tests.antt =====
-- A diamond of four nodes, with some refused calls.
use gocel.Prelude.{ℕ, ◌≡◌, refl, some, List, [], ◌∷◌, lookup, insert, string_eq, length}
use gocel.Graph.Builder.{
  BuildCall, adds_agent, adds_chain, adds_condition, adds_passthrough, adds_edge, new, build,
  build_step, add_agent_node, add_chain_node, add_condition_node, add_passthrough_node,
  add_labeled_edge, rebuild_indexes,
}
use gocel.Graph.Builder.Indexes.{Inv, Indexed, rebuild_indexes-Indexed}
use gocel.Graph.Builder.Building.{build-new-Inv}

abbrev diamond : List (BuildCall ℕ)
diamond =
    adds_agent "a" 1 []
    ∷ adds_chain "b" (2 ∷ 3 ∷ []) []
    ∷ adds_chain "x" [] []
    ∷ adds_condition "c" (some 4) []
    ∷ adds_agent "a" 5 []
    ∷ adds_passthrough "d" (some 6) []
    ∷ adds_edge "a" "b" ""
    ∷ adds_edge "a" "b" ""
    ∷ adds_edge "a" "x" ""
    ∷ adds_edge "a" "c" ""
    ∷ adds_edge "b" "d" ""
    ∷ adds_edge "c" "d" "yes"
    ∷ []

diamond_edges : length (build diamond (new "g")).edges ≡ 4
unfolding build build_step new add_agent_node add_chain_node add_condition_node add_passthrough_node
    add_labeled_edge lookup insert
diamond_edges = refl

build-new-Inv_example : Inv (build diamond (new "g"))
build-new-Inv_example = build-new-Inv "g" diamond

rebuild_indexes-Indexed_example : Indexed (rebuild_indexes (build diamond (new "g")))
rebuild_indexes-Indexed_example = rebuild_indexes-Indexed (build diamond (new "g"))
