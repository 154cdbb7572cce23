-- ===== src/Graph/Topo/Correct.antt =====
-- The answer of the topological sort of graph/graph.go on a well-formed graph.
use gocel.Prelude.{
  ◌≤◌, ◌<◌, ◌≡◌, sym, ap, ◌∙◌, inl, inr, some, true, List, [], arith, length, filter, if◌then◌else◌,
  string_eq, count, count-filter, contains, contains-count, keys, total, total-count, total-full,
  total-ones, nat_beq, ltb, Result, Bool-cases, nat_beq_iff,
}
use gocel.Prelude.Int.{pos, beq_ℤ, ltb_ℤ}
use gocel.Graph.Builder.{NodeId, Edge, Graph, GraphError, edges_at, has_edge}
use gocel.Graph.Builder.Indexes.{Inv}
use gocel.Graph.Topo.{Degrees, in_degrees, check_order, checked, topo_sort}
use gocel.Graph.Topo.Relax.{into, pending}
use gocel.Graph.Topo.Kahn.{LoopInv, kahn-total}
use gocel.Graph.Topo.Order.{
  length-entering, pending-edge, into-node, edge-node, count-keys, IsOrder, SortSpec,
}

module _ {Work : Type 0} where
  module _ (g : Graph Work) (inv : Inv g) where
    targets : (v : NodeId) → 0 < into v g.edges → 0 < count v (keys g.nodes)
    targets v h = count-keys v g.nodes (into-node g.nodes g.edges v inv.joined h)

    abbrev FinalInv : Degrees → List NodeId → Type 0
    FinalInv degree order =
        LoopInv g.edges (keys g.nodes) (λ id. edges_at id g.out_edges) inv.indexed.out inv.keys_once
          targets degree [] order

    start-LoopInv :
        LoopInv g.edges
          (keys g.nodes)
          (λ id. edges_at id g.out_edges)
          inv.indexed.out
          inv.keys_once
          targets
          (in_degrees g.in_edges)
          (filter (λ id. beq_ℤ (in_degrees g.in_edges id) (pos 0)) (keys g.nodes))
          []
    start-LoopInv =
        let d : (v : NodeId) → in_degrees g.in_edges v ≡ pos (pending g.edges [] v) =
          λ v. ap pos (ap length (inv.indexed.into v) ∙ length-entering v g.edges) in
        record {
          degrees = d;
          ready = λ v. ground (
            arith,
            d v,
            count-filter (λ id. beq_ℤ (in_degrees g.in_edges id) (pos 0)) v (keys g.nodes),
          );
          topological = tt;
        }

    at_most_once :
        (degree : Degrees) (order : List NodeId)
        → FinalInv degree order
        → (w : NodeId) → count w order ≤ 1
    at_most_once degree order v w = ground (arith, v.ready w, inv.keys_once w)

    total_order :
        (degree : Degrees) (order : List NodeId)
        → FinalInv degree order
        → total (λ w. count w order) (keys g.nodes) ≡ length order
    total_order degree order v =
        total-count order (keys g.nodes) inv.keys_once (λ w h. ground (arith, v.ready w))

    abbrev remaining : Degrees → List NodeId
    remaining degree = filter (λ id. ltb_ℤ (pos 0) (degree id)) (keys g.nodes)

    -- A node with an edge from outside the order is reported.
    count-remaining :
        (degree : Degrees) (order : List NodeId)
        → FinalInv degree order
        → (w : NodeId)
        → count w (remaining degree)
          ≡ (if ltb 0 (pending g.edges order w) then count w (keys g.nodes) else 0)
    count-remaining degree order v w =
        ground (arith, v.degrees w, count-filter (λ id. ltb_ℤ (pos 0) (degree id)) w (keys g.nodes))

    complete_order :
        (degree : Degrees) (order : List NodeId)
        → FinalInv degree order
        → length order ≡ length (keys g.nodes)
        → IsOrder g order
    complete_order degree order v full = (
      λ x. ground (
        arith,
        v.ready x,
        inv.keys_once x,
        total-full (λ w. count w order) (keys g.nodes) x (at_most_once degree order v)
            (omega (arith, total_order degree order v, full)),
      ),
      v.topological,
    )

    none_remaining :
        (degree : Degrees) (order : List NodeId)
        → FinalInv degree order
        → remaining degree ≡ []
        → length order ≡ length (keys g.nodes)
    none_remaining degree order v empty =
        sym (total_order degree order v)
        ∙ total-ones (λ w. count w order) (keys g.nodes)
            (λ w h. ground (
              arith,
              v.ready w,
              inv.keys_once w,
              count-remaining degree order v w,
              ap (λ (xs : List NodeId). count w xs) empty,
            ))

    remaining-edge :
        (degree : Degrees) (order : List NodeId)
        → FinalInv degree order
        → (w : NodeId) → contains w (remaining degree) ≡ true
        → (e : Edge) × (has_edge e g.edges ≡ true)
          × (e.to ≡ w)
          × (contains e.from (remaining degree) ≡ true)
    remaining-edge degree order v w m =
        let (e, is_edge, target, late) =
          pending-edge g.edges order w (
            ground
              (arith, contains-count w (remaining degree), count-remaining degree order v w)) in
        let source = count-keys e.from g.nodes (edge-node g.nodes g.edges e inv.joined is_edge) in
        (
          e,
          is_edge,
          target,
          ground (
            arith,
            source,
            late,
            v.ready e.from,
            contains-count e.from order,
            contains-count e.from (remaining degree),
            count-remaining degree order v e.from,
          ),
        )

    check_order-SortSpec :
        (degree : Degrees) (order : List NodeId)
        → FinalInv degree order
        → SortSpec g (check_order (keys g.nodes) (order, degree))
    unfolding check_order
    check_order-SortSpec degree order v =
        elim (Bool-cases (nat_beq (length order) (length (keys g.nodes)))) [
          | inl full ↦ rw full (
              complete_order degree order v
                ((nat_beq_iff (length order) (length (keys g.nodes))).0 full))
          | inr short ↦ rw short (
            (λ e. ground (arith, short, none_remaining degree order v e)),
            remaining-edge degree order v,
          )
        ]

    -- On a well-formed graph the sort ends within its fuel. It answers an order of the nodes, each
    -- once and after all nodes from which an edge enters it, or it reports nodes each of which is
    -- entered by an edge from one of them; whatever order Go ranges over the nodes in.
    pub topo_sort_correct :
        (r : Result GraphError (List NodeId)) × (topo_sort g ≡ some r) × SortSpec g r
    unfolding topo_sort checked
    topo_sort_correct =
        let (order, degree, done, v) =
          kahn-total g.edges (keys g.nodes) (λ id. edges_at id g.out_edges) inv.indexed.out
            inv.keys_once targets (length (keys g.nodes)) (in_degrees g.in_edges)
            (filter (λ id. beq_ℤ (in_degrees g.in_edges id) (pos 0)) (keys g.nodes)) []
            (omega arith) start-LoopInv in
        (check_order (keys g.nodes) (order, degree), rw done, check_order-SortSpec degree order v)
