-- ===== src/Graph/Topo/Order.antt =====
-- Topological orders, cycles, and what the edges of a well-formed graph of graph/graph.go join.
use gocel.Prelude.{
  ◌<◌, ◌≡◌, refl, ◌≢◌, inl, inr, true, false, List, [], ◌∷◌, arith, length, ◌==◌, string_eq, count,
  contains, contains-count, contains-keys, keys, has_key, Result, ok, err, Bool-cases,
}
use gocel.Graph.Builder.{
  NodeId, Edge, Graph, GraphNode, GraphError, has_edge, same_edge, cycle, node_exists, no_agents,
  nil_function, no_source, no_target, no_nodes,
}
use gocel.Graph.Builder.Indexes.{Joined, entering}
use gocel.Graph.Topo.Relax.{into, pending}
use gocel.Graph.Topo.Kahn.{IsTopological}

pub length-entering : (v : NodeId) (es : List Edge) → length (entering v es) ≡ pending es [] v
length-entering v [] = refl
length-entering v (e ∷ es) = ground (arith, length-entering v es)

same_edge_self : (e : Edge) → same_edge e e ≡ true
unfolding same_edge
same_edge_self e = ground (
  arith,
  string_eq.beq_iff e.from e.from,
  string_eq.beq_iff e.to e.to,
  string_eq.beq_iff e.label e.label,
)

-- An edge into `v` from outside `done`.
abbrev pub LateEdge : List Edge → List NodeId → NodeId → Type 0
LateEdge es done v =
    (e : Edge) × (has_edge e es ≡ true) × (e.to ≡ v) × (contains e.from done ≡ false)

LateEdge-cons :
    (d : Edge) (es : List Edge) (done : List NodeId) (v : NodeId)
    → LateEdge es done v
    → LateEdge (d ∷ es) done v
unfolding has_edge
LateEdge-cons d es done v (e, m, t, f) = (e, ground arith, t, f)

pub pending-edge :
    (es : List Edge) (done : List NodeId) (v : NodeId) → 0 < pending es done v → LateEdge es done v
unfolding has_edge
pending-edge [] done v h = absurd (omega arith)
pending-edge (e ∷ es) done v h = elim (Bool-cases (e.to == v)) [
  | inr miss ↦ LateEdge-cons e es done v (pending-edge es done v (ground arith))
  | inl hit ↦ elim (Bool-cases (contains e.from done)) [
    | inl old ↦ LateEdge-cons e es done v (pending-edge es done v (ground arith))
    | inr new ↦ (e, ground (arith, same_edge_self e), (string_eq.beq_iff e.to v).0 hit, new)
  ]
]

-- If no edge enters `v` from outside `done`, each edge into it comes from inside.
pub edge-early :
    (es : List Edge) (done : List NodeId) (e : Edge)
    → pending es done e.to ≡ 0
    → has_edge e es ≡ true
    → contains e.from done ≡ true
unfolding has_edge same_edge
edge-early [] done e h m = ground arith
edge-early (d ∷ es) done e h m =
    ground
      (arith, string_eq.beq_iff d.from e.from, string_eq.beq_iff d.to e.to, edge-early es done e)

module _ {Work : Type 0} where
  pub into-node :
      (nodes : List (NodeId × GraphNode Work)) (es : List Edge) (v : NodeId)
      → Joined nodes es
      → 0 < into v es
      → has_key v nodes ≡ true
  into-node nodes [] v j h = absurd (omega arith)
  into-node nodes (e ∷ es) v j h =
      ground (arith, string_eq.beq_iff e.to v, j.1, into-node nodes es v j.2)

  pub edge-node :
      (nodes : List (NodeId × GraphNode Work)) (es : List Edge) (e : Edge)
      → Joined nodes es
      → has_edge e es ≡ true
      → has_key e.from nodes ≡ true
  unfolding has_edge same_edge
  edge-node nodes [] e j h = ground arith
  edge-node nodes (d ∷ es) e j h =
      ground (arith, string_eq.beq_iff d.from e.from, j.0, edge-node nodes es e j.2)

  pub edge-target :
      (nodes : List (NodeId × GraphNode Work)) (es : List Edge) (e : Edge)
      → Joined nodes es
      → has_edge e es ≡ true
      → has_key e.to nodes ≡ true
  unfolding has_edge same_edge
  edge-target nodes [] e j h = ground arith
  edge-target nodes (d ∷ es) e j h =
      ground (arith, string_eq.beq_iff d.to e.to, j.1, edge-target nodes es e j.2)

  pub count-keys :
      (v : NodeId) (nodes : List (NodeId × GraphNode Work))
      → has_key v nodes ≡ true
      → 0 < count v (keys nodes)
  count-keys v nodes h = ground (arith, contains-keys v nodes, contains-count v (keys nodes))

  -- A list with each node once, and before each node all nodes from which an edge enters it.
  abbrev pub IsOrder : Graph Work → List NodeId → Type 0
  IsOrder g order =
      ((v : NodeId) → count v order ≡ count v (keys g.nodes)) × IsTopological g.edges [] order

  -- Some nodes, each entered by an edge from one of them.
  abbrev pub IsCyclic : Graph Work → List NodeId → Type 0
  IsCyclic g remaining =
      (remaining ≢ [])
      × ((v : NodeId)
          → contains v remaining ≡ true
          → (e : Edge) × (has_edge e g.edges ≡ true)
            × (e.to ≡ v)
            × (contains e.from remaining ≡ true))

  abbrev pub SortSpec : Graph Work → Result GraphError (List NodeId) → Type 0
  SortSpec g (ok order) = IsOrder g order
  SortSpec g (err (cycle remaining)) = IsCyclic g remaining
  SortSpec g (err (node_exists id)) = ⊥
  SortSpec g (err (no_agents id)) = ⊥
  SortSpec g (err (nil_function id)) = ⊥
  SortSpec g (err (no_source id)) = ⊥
  SortSpec g (err (no_target id)) = ⊥
  SortSpec g (err no_nodes) = ⊥
