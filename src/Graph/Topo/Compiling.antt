-- ===== src/Graph/Topo/Compiling.antt =====
-- What `Compile` in graph/graph.go answers.
use gocel.Prelude.{
  ◌≡◌, refl, sym, ap, ◌∙◌, ◌⊎◌, inl, inr, subst, some, List, [], ◌∷◌, Result, ok, err, Bool-cases,
}
use gocel.Graph.Builder.{
  NodeId, Graph, GraphNode, GraphError, rebuild_indexes, no_nodes, cycle, node_exists, no_agents,
  nil_function, no_source, no_target,
}
use gocel.Graph.Builder.Indexes.{Inv}
use gocel.Graph.Builder.Building.{rebuild_indexes-Inv, rebuild_indexes-same}
use gocel.Graph.Topo.{CompiledGraph, in_degrees, compile, refreshed, compile_sorted, compiled}
use gocel.Graph.Topo.Order.{IsOrder, IsCyclic, SortSpec}
use gocel.Graph.Topo.Correct.{topo_sort_correct}

module _ {Work : Type 0} where
  -- A compiled graph agrees with its well-formed graph.
  pub record IsCompiled (cg : CompiledGraph Work) : Type 0 where
    pub well_formed : Inv cg.graph
    pub out : cg.out_edges ≡ cg.graph.out_edges
    pub into : cg.in_edges ≡ cg.graph.in_edges
    pub degree : cg.in_degree ≡ in_degrees cg.graph.in_edges

  abbrev pub CompileSpec : Graph Work → Result GraphError (CompiledGraph Work) → Type 0
  CompileSpec g (ok cg) = IsCompiled cg × IsOrder g cg.topo_order × (cg.graph ≡ g)
  CompileSpec g (err no_nodes) = g.nodes ≡ []
  CompileSpec g (err (cycle rest)) = IsCyclic g rest
  CompileSpec g (err (node_exists id)) = ⊥
  CompileSpec g (err (no_agents id)) = ⊥
  CompileSpec g (err (nil_function id)) = ⊥
  CompileSpec g (err (no_source id)) = ⊥
  CompileSpec g (err (no_target id)) = ⊥

  -- Either the indexes are rebuilt, or the graph is left alone.
  refreshed-cases : (g : Graph Work) → (refreshed g ≡ g) ⊎ (refreshed g ≡ rebuild_indexes g)
  unfolding refreshed
  refreshed-cases g = elim (Bool-cases g.dirty) [
    | inr clean ↦ inl (cc clean)
    | inl dirty ↦ inr (cc dirty)
  ]

  refreshed-Inv : (g : Graph Work) → Inv g → Inv (refreshed g)
  refreshed-Inv g inv = elim (refreshed-cases g) [
    | inl kept ↦ subst Inv (sym kept) inv
    | inr rebuilt ↦ subst Inv (sym rebuilt) (rebuild_indexes-Inv g inv)
  ]

  compiled-CompileSpec :
      (g : Graph Work) (r : Result GraphError (List NodeId))
      → Inv g
      → SortSpec g r
      → CompileSpec g (compiled g r)
  unfolding compiled
  compiled-CompileSpec g (ok order) inv spec =
      (record { well_formed = inv; out = refl; into = refl; degree = refl }, spec, refl)
  compiled-CompileSpec g (err (cycle rest)) inv spec = spec
  compiled-CompileSpec g (err (node_exists id)) inv spec = absurd spec
  compiled-CompileSpec g (err (no_agents id)) inv spec = absurd spec
  compiled-CompileSpec g (err (nil_function id)) inv spec = absurd spec
  compiled-CompileSpec g (err (no_source id)) inv spec = absurd spec
  compiled-CompileSpec g (err (no_target id)) inv spec = absurd spec
  compiled-CompileSpec g (err no_nodes) inv spec = absurd spec

  refreshed-same :
      (g : Graph Work) → ((refreshed g).nodes ≡ g.nodes) × ((refreshed g).edges ≡ g.edges)
  refreshed-same g = elim (refreshed-cases g) [
    | inl kept ↦ (ap (λ h. h.nodes) kept, ap (λ h. h.edges) kept)
    | inr rebuilt ↦
        let (nodes, edges) = rebuild_indexes-same g in
        (ap (λ h. h.nodes) rebuilt ∙ nodes, ap (λ h. h.edges) rebuilt ∙ edges)
  ]

  nodes_cases :
      (nodes : List (NodeId × GraphNode Work))
      → (nodes ≡ [])
        ⊎ ((n : NodeId × GraphNode Work) × (ns : List (NodeId × GraphNode Work)) × (nodes ≡ n ∷ ns))
  nodes_cases [] = inl refl
  nodes_cases (n ∷ ns) = inr (n, ns, refl)

  -- On a well-formed graph `Compile` ends, and leaves a well-formed graph with the same nodes and
  -- edges. It answers a compiled graph in a topological order, or that the graph has no node, or
  -- nodes each of which is entered by an edge from one of them.
  pub compile_correct :
      (g : Graph Work)
      → Inv g
      → (g' : Graph Work) × (r : Result GraphError (CompiledGraph Work)) × (compile g
          ≡ some (g', r))
        × Inv g'
        × (g'.nodes ≡ g.nodes)
        × (g'.edges ≡ g.edges)
        × CompileSpec g' r
  unfolding compile compile_sorted
  compile_correct g inv = elim (nodes_cases g.nodes) [
    | inl empty ↦ (g, err no_nodes, cc empty, inv, refl, refl, empty)
    | inr (n, ns, some_nodes) ↦
        let g' = refreshed g in
        let inv' = refreshed-Inv g inv in
        let (same_nodes, same_edges) = refreshed-same g in
        let (r, done, spec) = topo_sort_correct g' inv' in
        (
          g',
          compiled g' r,
          cc (some_nodes, done),
          inv',
          same_nodes,
          same_edges,
          compiled-CompileSpec g' r inv' spec,
        )
  ]
