-- ===== src/Graph/Builder/Building.antt =====
-- Sequences of builder calls of graph/graph.go, and well-formed graphs.
use gocel.Prelude.{
  ◌≡◌, refl, string_eq, inr, inl, Result, String, Option, none, some, List, [], ◌∷◌, has_key,
  Bool-cases, err, if◌then◌else◌,
}
use gocel.Graph.Builder.{
  rebuild_indexes, NodeId, Edge, NodeKind, NodeOption, Graph, GraphError, BuildCall, adds_agent,
  adds_chain, adds_parallel, adds_condition, adds_passthrough, adds_edge, kept, new, require_agents,
  require_fn, add_agent_node, add_chain_node, add_parallel_node, add_condition_node,
  add_passthrough_node, add_labeled_edge, has_edge, build_step, build, agent_kind, chain_kind,
  parallel_kind, condition_kind, passthrough_kind, node_exists,
}
use gocel.Graph.Builder.Indexes.{
  rebuild_indexes-Indexed, Inv, new-Inv, store_node-Inv, append_edge, append_edge-Inv,
}

module _ {Work : Type 0} where
  require_agents-Inv :
      (id : NodeId) (kind : NodeKind) (agents : List Work) (opts : List NodeOption) (g : Graph Work)
      → Inv g
      → Inv (kept g (require_agents id kind agents opts g))
  unfolding require_agents
  require_agents-Inv id kind [] opts g v = v
  require_agents-Inv id kind (a ∷ agents) opts g v = store_node-Inv id kind (a ∷ agents) opts g v

  require_fn-Inv :
      (id : NodeId) (kind : NodeKind) (fn : Option Work) (opts : List NodeOption) (g : Graph Work)
      → Inv g
      → Inv (kept g (require_fn id kind fn opts g))
  unfolding require_fn
  require_fn-Inv id kind none opts g v = v
  require_fn-Inv id kind (some fn) opts g v = store_node-Inv id kind (fn ∷ []) opts g v

  add_labeled_edge-Inv :
      (from to : NodeId) (label : String) (g : Graph Work)
      → Inv g
      → Inv (kept g (add_labeled_edge from to label g))
  unfolding add_labeled_edge append_edge
  add_labeled_edge-Inv from to label g v =
      let e : Edge = record { from = from; to = to; label = label } in
      elim (Bool-cases (has_key from g.nodes)) [
        | inr f ↦ rw f v
        | inl f ↦ elim (Bool-cases (has_key to g.nodes)) [
          | inr t ↦ rw (f, t) v
          | inl t ↦ elim (Bool-cases (has_edge e g.edges)) [
            | inl old ↦ rw (f, t, old) v
            | inr fresh ↦ rw (f, t, fresh) (append_edge-Inv e g f t fresh v)
          ]
        ]
      ]

  -- A node is only stored under an id that is not taken.
  unless_taken :
      (id : NodeId) (g : Graph Work) (r : Result GraphError (Graph Work))
      → Inv g
      → Inv (kept g r)
      → Inv (kept g (if has_key id g.nodes then err (node_exists id) else r))
  unless_taken id g r v w = elim (Bool-cases (has_key id g.nodes)) [
    | inl taken ↦ rw taken v
    | inr free ↦ rw free w
  ]

  build_step-Inv : (c : BuildCall Work) (g : Graph Work) → Inv g → Inv (build_step c g)
  unfolding build_step add_agent_node add_chain_node add_parallel_node add_condition_node
      add_passthrough_node
  build_step-Inv (adds_agent id agent opts) g v =
      unless_taken id g _ v (store_node-Inv id agent_kind (agent ∷ []) opts g v)
  build_step-Inv (adds_chain id agents opts) g v =
      unless_taken id g _ v (require_agents-Inv id chain_kind agents opts g v)
  build_step-Inv (adds_parallel id agents opts) g v =
      unless_taken id g _ v (require_agents-Inv id parallel_kind agents opts g v)
  build_step-Inv (adds_condition id fn opts) g v =
      unless_taken id g _ v (require_fn-Inv id condition_kind fn opts g v)
  build_step-Inv (adds_passthrough id fn opts) g v =
      unless_taken id g _ v (require_fn-Inv id passthrough_kind fn opts g v)
  build_step-Inv (adds_edge from to label) g v = add_labeled_edge-Inv from to label g v

  build-Inv : (cs : List (BuildCall Work)) (g : Graph Work) → Inv g → Inv (build cs g)
  unfolding build
  build-Inv [] g v = v
  build-Inv (c ∷ cs) g v = build-Inv cs (build_step c g) (build_step-Inv c g v)

  -- Whatever calls build a graph, failed ones included: each edge joins two of its nodes, no edge
  -- is there twice, and each index holds, for each node, the edges of the edge list that leave or
  -- enter the node, in the order of the list.
  pub build-new-Inv : (name : String) (cs : List (BuildCall Work)) → Inv (build cs (new name))
  build-new-Inv name cs = build-Inv cs (new name) (new-Inv name)

module _ {Work : Type 0} where
  pub rebuild_indexes-same :
      (g : Graph Work)
      → ((rebuild_indexes g).nodes ≡ g.nodes) × ((rebuild_indexes g).edges ≡ g.edges)
  unfolding rebuild_indexes
  rebuild_indexes-same g = (refl, refl)

  pub rebuild_indexes-Inv : (g : Graph Work) → Inv g → Inv (rebuild_indexes g)
  unfolding rebuild_indexes
  rebuild_indexes-Inv g inv = record {
    joined = inv.joined;
    distinct = inv.distinct;
    indexed = rebuild_indexes-Indexed g;
    keys_once = inv.keys_once;
  }
