-- ===== src/Graph/Topo/Acyclic.antt =====
-- The sort of graph/graph.go on graphs that have a topological order.
use gocel.Prelude.{
  ◌≡◌, refl, inl, inr, some, true, false, List, [], ◌∷◌, ◌++◌, arith, string_eq, contains,
  contains-count, contains-append, Result, ok, err, Bool-cases,
}
use gocel.Graph.Builder.{
  NodeId, Graph, GraphError, cycle, node_exists, no_agents, nil_function, no_source, no_target,
  no_nodes,
}
use gocel.Graph.Builder.Indexes.{Inv}
use gocel.Graph.Topo.{topo_sort}
use gocel.Graph.Topo.Relax.{pending}
use gocel.Graph.Topo.Kahn.{IsTopological}
use gocel.Graph.Topo.Order.{edge-early, edge-target, count-keys, IsOrder, IsCyclic, SortSpec}
use gocel.Graph.Topo.Correct.{topo_sort_correct}

module _ {Work : Type 0} where
  module _ (g : Graph Work) (inv : Inv g) where
    not_cyclic_first :
        (before : List NodeId) (u : NodeId) (rest : List NodeId)
        → IsCyclic g rest
        → pending g.edges before u ≡ 0
        → ((v : NodeId) → contains v before ≡ true → contains v rest ≡ false)
        → contains u rest ≡ false
    not_cyclic_first before u rest c p h = elim (Bool-cases (contains u rest)) [
      | inr out ↦ out
      | inl hit ↦
          let (e, is_edge, target, from) = c.1 u hit in
          let early = edge-early g.edges before e (rw target p) is_edge in cc (h e.from early, from)
    ]

    -- A node of a topological order is not among nodes that are each entered from one of them.
    not_cyclic :
        (before after rest : List NodeId)
        → IsCyclic g rest
        → IsTopological g.edges before after
        → ((v : NodeId) → contains v before ≡ true → contains v rest ≡ false)
        → (v : NodeId) → contains v after ≡ true
        → contains v rest ≡ false
    not_cyclic before [] rest c t h v m = ground arith
    not_cyclic before (u ∷ after) rest c t h v m =
        let first = not_cyclic_first before u rest c t.0 h in
        ground (
          arith,
          string_eq.beq_iff u v,
          first,
          not_cyclic (before ++ u ∷ []) after rest c t.1
              (λ w n.
                ground
                  (arith, contains-append w before (u ∷ []), string_eq.beq_iff u w, first, h w))
              v,
        )

    refute_cycle : (order rest : List NodeId) → IsOrder g order → ¬ IsCyclic g rest
    refute_cycle order [] o c = c.0 refl
    refute_cycle order (x ∷ rest) o c =
        let (e, is_edge, target, _) = c.1 x (ground (arith, string_eq.beq_iff x x)) in
        let node = count-keys e.to g.nodes (edge-target g.nodes g.edges e inv.joined is_edge) in
        ground (
          arith,
          node,
          target,
          o.0 x,
          contains-count x order,
          string_eq.beq_iff x x,
          not_cyclic [] order (x ∷ rest) c o.1 (λ w n. ground arith) x,
        )

    settle :
        (order : List NodeId)
        → IsOrder g order
        → (r : Result GraphError (List NodeId)) → topo_sort g ≡ some r
        → SortSpec g r
        → (found : List NodeId) × (topo_sort g ≡ some (ok found)) × IsOrder g found
    settle order o (ok found) e spec = (found, e, spec)
    settle order o (err (cycle rest)) e spec = absurd (refute_cycle order rest o spec)
    settle order o (err (node_exists id)) e spec = absurd spec
    settle order o (err (no_agents id)) e spec = absurd spec
    settle order o (err (nil_function id)) e spec = absurd spec
    settle order o (err (no_source id)) e spec = absurd spec
    settle order o (err (no_target id)) e spec = absurd spec
    settle order o (err no_nodes) e spec = absurd spec

    -- A well-formed graph that has a topological order at all is sorted, and never refused.
    pub acyclic_sorts :
        (order : List NodeId)
        → IsOrder g order
        → (found : List NodeId) × (topo_sort g ≡ some (ok found)) × IsOrder g found
    acyclic_sorts order o = let (r, e, spec) = topo_sort_correct g inv in settle order o r e spec
