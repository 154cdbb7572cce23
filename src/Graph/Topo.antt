-- ===== src/Graph/Topo.antt =====
-- graph/graph.go: `Compile` and the topological sort (Kahn's algorithm). The in-degrees are a
-- function from ids, 0 where Go's map has no key. The order in which Go ranges over the nodes is
-- the order of the list `g.nodes`, which is arbitrary. The loop takes fuel, `none` if it runs out:
-- as much as there are nodes, since each turn takes one node for good (Topo/Kahn).
pub mod Relax
pub mod Kahn
pub mod Order
pub mod Correct
pub mod Acyclic
pub mod Compiling
mod Tests
use gocel.Prelude.{
  ℕ, zero, suc, ◌+◌, ◌≡◌, String, Option, none, some, Bool, true, false, List, [], ◌∷◌, ◌++◌,
  length, filter, if◌then◌else◌, ◌==◌, string_eq, nat_eq, keys, nat_beq, Result, ok, err,
}
use gocel.Prelude.Int.{ℤ, pos, ◌-ℤ◌, ltb_ℤ, beq_ℤ}
use gocel.Graph.Builder.{
  NodeId, Edge, EdgeIndex, Graph, GraphError, edges_at, rebuild_indexes, no_nodes, cycle,
}

abbrev pub Degrees : Type 0
Degrees = NodeId → ℤ

abbrev pub decrement : NodeId → Degrees → Degrees
decrement id degree j = if id == j then degree j -ℤ pos 1 else degree j

abbrev pub in_degrees : EdgeIndex → Degrees
in_degrees into id = pos (length (edges_at id into))

-- The loop over the edges that leave a node.
pub relax : List Edge → Degrees → List NodeId → Degrees × List NodeId
relax [] degree queue = (degree, queue)
relax (e ∷ es) degree queue =
    let degree' = decrement e.to degree in
    relax es degree' (if beq_ℤ (degree' e.to) (pos 0) then queue ++ e.to ∷ [] else queue)

-- `out_of id` are the edges that leave a node.
pub kahn :
    (NodeId → List Edge) → ℕ → Degrees → List NodeId → List NodeId → Option (List NodeId × Degrees)
unfolding relax
kahn out_of fuel degree [] order = some (order, degree)
kahn out_of zero degree (id ∷ queue) order = none
kahn out_of (suc fuel) degree (id ∷ queue) order =
    let (degree', queue') = relax (out_of id) degree queue in
    kahn out_of fuel degree' queue' (order ++ id ∷ [])

-- The test after the loop.
check_order : List NodeId → List NodeId × Degrees → Result GraphError (List NodeId)
check_order ids (order, degree) =
    if nat_beq (length order) (length ids)
    then ok order
    else err (cycle (filter (λ id. ltb_ℤ (pos 0) (degree id)) ids))

checked : List NodeId → Option (List NodeId × Degrees) → Option (Result GraphError (List NodeId))
unfolding check_order
checked ids none = none
checked ids (some r) = some (check_order ids r)

pub record CompiledGraph (Work : Type 0) : Type 0 where
  pub graph : Graph Work
  pub topo_order : List NodeId
  pub in_degree : Degrees
  pub out_edges : EdgeIndex
  pub in_edges : EdgeIndex

module _ {Work : Type 0} where
  pub topo_sort : Graph Work → Option (Result GraphError (List NodeId))
  unfolding kahn checked
  topo_sort g =
      let ids = keys g.nodes in
      let degree = in_degrees g.in_edges in
      checked ids (
        kahn (λ id. edges_at id g.out_edges) (length ids) degree
          (filter (λ id. beq_ℤ (degree id) (pos 0)) ids) [])

  compiled : Graph Work → Result GraphError (List NodeId) → Result GraphError (CompiledGraph Work)
  compiled g (err e) = err e
  compiled g (ok order) = ok (record {
    graph = g;
    topo_order = order;
    in_degree = in_degrees g.in_edges;
    out_edges = g.out_edges;
    in_edges = g.in_edges;
  })

  refreshed : Graph Work → Graph Work
  refreshed g = if g.dirty then rebuild_indexes g else g

  compile_sorted :
      Graph Work
      → Option (Result GraphError (List NodeId))
      → Option (Graph Work × Result GraphError (CompiledGraph Work))
  unfolding compiled
  compile_sorted g none = none
  compile_sorted g (some r) = some (g, compiled g r)

  -- `Compile`, with the graph as it leaves it.
  pub compile : Graph Work → Option (Graph Work × Result GraphError (CompiledGraph Work))
  unfolding compile_sorted refreshed topo_sort
  compile g = elim g.nodes [
    | [] ↦ some (g, err no_nodes)
    | n ∷ ns ↦ compile_sorted (refreshed g) (topo_sort (refreshed g))
  ]
