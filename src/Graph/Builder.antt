-- ===== src/Graph/Builder.antt =====
-- graph/graph.go, the builder: nodes, edges and their indexes. What a node runs (agents, condition
-- and transform functions) is data of an abstract type `Work`; Go's nil function is `none`.
-- `g.mu` makes each method one step.
pub mod Indexes
pub mod Building
mod Tests
use gocel.Prelude.{
  ℕ, ◌+◌, ◌≡◌, String, Option, none, some, Bool, true, false, ◌&&◌, List, [], ◌∷◌, ◌++◌, map,
  if◌then◌else◌, ◌==◌, string_eq, lookup, insert, keys, has_key, Result, ok, err,
}
use gocel.Prelude.Int.{ℤ, pos}

abbrev pub NodeId : Type 0
NodeId = String

pub record Edge : Type 0 where
  pub from : NodeId
  pub to : NodeId
  pub label : String

pub data NodeKind : Type 0 where
  agent_kind chain_kind parallel_kind condition_kind passthrough_kind : NodeKind

-- `String`. The data type has no other value.
pub kind_name : NodeKind → String
kind_name agent_kind = "agent"
kind_name chain_kind = "chain"
kind_name parallel_kind = "parallel"
kind_name condition_kind = "condition"
kind_name passthrough_kind = "passthrough"

pub record GraphNode (Work : Type 0) : Type 0 where
  pub id : NodeId
  pub kind : NodeKind
  pub work : List Work
  pub max_retries : ℤ
  pub timeout : ℤ
  pub retry_delay : ℤ
  pub description : String

-- The options of graph/node.go; their closures set one field.
pub data NodeOption : Type 0 where
  with_description : String → NodeOption
  with_node_timeout with_node_max_retries with_node_retry_delay : ℤ → NodeOption

pub data GraphError : Type 0 where
  node_exists no_agents nil_function : NodeId → GraphError
  no_source no_target : NodeId → GraphError
  no_nodes : GraphError
  cycle : List NodeId → GraphError

abbrev pub EdgeIndex : Type 0
EdgeIndex = List (NodeId × List Edge)

pub record Graph (Work : Type 0) : Type 0 where
  pub name : String
  pub nodes : List (NodeId × GraphNode Work)
  pub edges : List Edge
  pub out_edges : EdgeIndex
  pub in_edges : EdgeIndex
  pub dirty : Bool

-- What `index[id]` reads: no edge for a missing key.
abbrev pub edges_at : NodeId → EdgeIndex → List Edge
edges_at id index = elim (lookup id index) [ none ↦ [] | some es ↦ es ]

abbrev pub add_edge_to : NodeId → Edge → EdgeIndex → EdgeIndex
add_edge_to id e index = insert id (edges_at id index ++ e ∷ []) index

unfoldable pub same_edge : Edge → Edge → Bool
same_edge d e = d.from == e.from && (d.to == e.to && d.label == e.label)

unfoldable pub has_edge : Edge → List Edge → Bool
unfolding same_edge
has_edge e [] = false
has_edge e (d ∷ ds) = if same_edge d e then true else has_edge e ds

pub index_edges : List Edge → EdgeIndex × EdgeIndex → EdgeIndex × EdgeIndex
index_edges [] index = index
index_edges (e ∷ es) (out, into) =
    index_edges es (add_edge_to e.from e out, add_edge_to e.to e into)

pub empty_index : List NodeId → EdgeIndex
empty_index = map (λ id. (id, []))

module _ {Work : Type 0} where
  unfoldable pub new : String → Graph Work
  new name = record {
    name = name;
    nodes = [];
    edges = [];
    out_edges = [];
    in_edges = [];
    dirty = false;
  }

  pub apply_option : NodeOption → GraphNode Work → GraphNode Work
  apply_option (with_description desc) n = record n { description = desc }
  apply_option (with_node_timeout d) n = record n { timeout = d }
  apply_option (with_node_max_retries count) n = record n { max_retries = count }
  apply_option (with_node_retry_delay d) n = record n { retry_delay = d }

  pub apply_options : List NodeOption → GraphNode Work → GraphNode Work
  unfolding apply_option
  apply_options [] n = n
  apply_options (o ∷ os) n = apply_options os (apply_option o n)

  pub fresh_node : NodeId → NodeKind → List Work → GraphNode Work
  fresh_node id kind work = record {
    id = id;
    kind = kind;
    work = work;
    max_retries = pos 0;
    timeout = pos 0;
    retry_delay = pos 0;
    description = "";
  }

  pub store_node : NodeId → NodeKind → List Work → List NodeOption → Graph Work → Graph Work
  unfolding apply_options fresh_node
  store_node id kind work opts g = record g {
    nodes = insert id (apply_options opts (fresh_node id kind work)) g.nodes;
    dirty = true;
  }

  pub add_agent_node : NodeId → Work → List NodeOption → Graph Work → Result GraphError (Graph Work)
  unfolding store_node
  add_agent_node id agent opts g =
      if has_key id g.nodes
      then err (node_exists id)
      else ok (store_node id agent_kind (agent ∷ []) opts g)

  require_agents :
      NodeId → NodeKind → List Work → List NodeOption → Graph Work → Result GraphError (Graph Work)
  unfolding store_node
  require_agents id kind [] opts g = err (no_agents id)
  require_agents id kind (a ∷ agents) opts g = ok (store_node id kind (a ∷ agents) opts g)

  unfoldable pub add_chain_node :
      NodeId → List Work → List NodeOption → Graph Work → Result GraphError (Graph Work)
  unfolding require_agents
  add_chain_node id agents opts g =
      if has_key id g.nodes
      then err (node_exists id)
      else require_agents id chain_kind agents opts g

  pub add_parallel_node :
      NodeId → List Work → List NodeOption → Graph Work → Result GraphError (Graph Work)
  unfolding require_agents
  add_parallel_node id agents opts g =
      if has_key id g.nodes
      then err (node_exists id)
      else require_agents id parallel_kind agents opts g

  pub require_fn :
      NodeId
      → NodeKind
      → Option Work
      → List NodeOption
      → Graph Work
      → Result GraphError (Graph Work)
  unfolding store_node
  require_fn id kind none opts g = err (nil_function id)
  require_fn id kind (some fn) opts g = ok (store_node id kind (fn ∷ []) opts g)

  unfoldable pub add_condition_node :
      NodeId → Option Work → List NodeOption → Graph Work → Result GraphError (Graph Work)
  unfolding require_fn
  add_condition_node id fn opts g =
      if has_key id g.nodes then err (node_exists id) else require_fn id condition_kind fn opts g

  pub add_passthrough_node :
      NodeId → Option Work → List NodeOption → Graph Work → Result GraphError (Graph Work)
  unfolding require_fn
  add_passthrough_node id fn opts g =
      if has_key id g.nodes then err (node_exists id) else require_fn id passthrough_kind fn opts g

  unfoldable pub add_labeled_edge :
      NodeId → NodeId → String → Graph Work → Result GraphError (Graph Work)
  unfolding has_edge
  add_labeled_edge from to label g =
      let e : Edge = record { from = from; to = to; label = label } in
      if has_key from g.nodes
      then (if has_key to g.nodes
          then (if has_edge e g.edges
              then ok g
              else ok (record g {
                edges = g.edges ++ e ∷ [];
                out_edges = add_edge_to from e g.out_edges;
                in_edges = add_edge_to to e g.in_edges;
                dirty = true;
              }))
          else err (no_target to))
      else err (no_source from)

  pub add_edge : NodeId → NodeId → Graph Work → Result GraphError (Graph Work)
  unfolding add_labeled_edge
  add_edge from to g = add_labeled_edge from to "" g

  pub rebuild_indexes : Graph Work → Graph Work
  unfolding index_edges empty_index
  rebuild_indexes g =
      let start = empty_index (keys g.nodes) in
      let index = index_edges g.edges (start, start) in
      record g { out_edges = index.0; in_edges = index.1; dirty = false }

-- The calls that build a graph. One that fails changes nothing.
pub data BuildCall (Work : Type 0) : Type 0 where
  adds_agent : NodeId → Work → List NodeOption → BuildCall Work
  adds_chain adds_parallel : NodeId → List Work → List NodeOption → BuildCall Work
  adds_condition adds_passthrough : NodeId → Option Work → List NodeOption → BuildCall Work
  adds_edge : NodeId → NodeId → String → BuildCall Work

abbrev kept : {Work : Type 0} → Graph Work → Result GraphError (Graph Work) → Graph Work
kept g (ok g') = g'
kept g (err e) = g

module _ {Work : Type 0} where
  unfoldable pub build_step : BuildCall Work → Graph Work → Graph Work
  build_step (adds_agent id agent opts) g = kept g (add_agent_node id agent opts g)
  build_step (adds_chain id agents opts) g = kept g (add_chain_node id agents opts g)
  build_step (adds_parallel id agents opts) g = kept g (add_parallel_node id agents opts g)
  build_step (adds_condition id fn opts) g = kept g (add_condition_node id fn opts g)
  build_step (adds_passthrough id fn opts) g = kept g (add_passthrough_node id fn opts g)
  build_step (adds_edge from to label) g = kept g (add_labeled_edge from to label g)

  unfoldable pub build : List (BuildCall Work) → Graph Work → Graph Work
  build [] g = g
  build (c ∷ cs) g = build cs (build_step c g)
