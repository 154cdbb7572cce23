-- ===== src/Graph/Scheduler.antt =====
-- graph/graph.go: the scheduler of one run of a compiled graph. Its counters are functions from ids,
-- 0 where Go's map has no key. A goroutine that is started is a pair in `dispatched`, oldest first:
-- the node, and the state it is given. `stateMu` makes `complete` one step. `skip` and `tryStart`
-- call each other; the model takes fuel for the depth, `none` if it runs out:
-- `skip` marks one more node before it goes deeper (Scheduler/Termination).
pub mod Flow
pub mod Conservation
pub mod Termination
pub mod Waiting
pub mod Started
pub mod Lowering
pub mod Once
pub mod Runs
pub mod Running
pub mod Liveness
pub mod Draining
mod Tests
use gocel.Prelude.{
  ◌-◌, ℕ, zero, suc, ◌+◌, ◌≡◌, String, Option, none, some, Bool, true, false, ◌&&◌, ◌||◌, not, List,
  [], ◌∷◌, ◌++◌, length, if◌then◌else◌, ◌==◌, string_eq, nat_eq, lookup, insert, contains, nat_beq,
}
use gocel.Prelude.Int.{ℤ, pos, ◌+ℤ◌, ◌-ℤ◌, ltb_ℤ, beq_ℤ}
use gocel.Graph.State.{GraphState, get, fork, merge_from}
use gocel.Graph.Builder.{
  NodeId, Edge, EdgeIndex, Graph, GraphNode, NodeKind, condition_kind, edges_at,
}
use gocel.Graph.Topo.{CompiledGraph}

abbrev pub Counters : Type 0
Counters = NodeId → ℤ

abbrev pub bump : NodeId → ℤ → Counters → Counters
bump id by counter j = if id == j then counter j +ℤ by else counter j

abbrev pub lower : NodeId → Counters → Counters
lower id counter j = if id == j then counter j -ℤ pos 1 else counter j

pub record Scheduler (V : Type 0) : Type 0 where
  pub running : ℕ
  pub node_states : List (NodeId × GraphState V)
  pub remaining : Counters
  pub cond_pending : Counters
  pub cond_passed : Counters
  pub skipped : List NodeId
  pub dispatched : List (NodeId × Option (GraphState V))

abbrev pub is_condition_kind : NodeKind → Bool
is_condition_kind condition_kind = true
is_condition_kind _ = false

abbrev kind_is_condition : {Work : Type 0} → Option (GraphNode Work) → Bool
kind_is_condition none = false
kind_is_condition (some n) = is_condition_kind n.kind

some_label : List Edge → Bool
some_label [] = false
some_label (e ∷ es) = if e.label == "" then some_label es else true

module _ {Work : Type 0} where
  abbrev pub is_condition : CompiledGraph Work → NodeId → Bool
  is_condition cg id = kind_is_condition (lookup id cg.graph.nodes)

  -- How many of the edges come from condition nodes.
  pub cond_count : CompiledGraph Work → List Edge → ℕ
  cond_count cg [] = 0
  cond_count cg (e ∷ es) = (if is_condition cg e.from then 1 else 0) + cond_count cg es

  pub cond_in_count : CompiledGraph Work → NodeId → ℕ
  unfolding cond_count
  cond_in_count cg id = cond_count cg (edges_at id cg.in_edges)

  pub has_labeled_out : CompiledGraph Work → NodeId → Bool
  unfolding some_label
  has_labeled_out cg id = some_label (edges_at id cg.out_edges)

  abbrev pub branches : CompiledGraph Work → NodeId → Bool
  branches cg id = elim (lookup id cg.graph.nodes) [
    | none ↦ false
    | some n ↦ is_condition_kind n.kind || has_labeled_out cg id
  ]

module _ {V : Type 0} where
  -- The loop over the predecessors of a join node. `now` is the time of the merges.
  -- The merged state is a new fork, which nothing else writes to; each state is read at one moment.
  merge_states :
      ℕ → List (NodeId × GraphState V) → Option (GraphState V) → List Edge → Option (GraphState V)
  merge_states now states merged [] = merged
  merge_states now states merged (p ∷ preds) =
      merge_states now states
        (elim (lookup p.from states) [
          | none ↦ merged
          | some s ↦ elim merged [
            | none ↦ some (fork s)
            | some m ↦ some (merge_from now (λ _ gs. gs) s s m).0
          ]
        ])
        preds

  predecessor_state : ℕ → List (NodeId × GraphState V) → List Edge → Option (GraphState V)
  unfolding merge_states
  predecessor_state now states [] = none
  predecessor_state now states (p ∷ []) = lookup p.from states
  predecessor_state now states (p ∷ q ∷ preds) = merge_states now states none (p ∷ q ∷ preds)

module _ {Work V : Type 0} (cg : CompiledGraph Work) where
  pub collect_predecessor_state : ℕ → NodeId → List (NodeId × GraphState V) → Option (GraphState V)
  unfolding predecessor_state
  collect_predecessor_state now id states = predecessor_state now states (edges_at id cg.in_edges)

  pub new_scheduler : Scheduler V
  new_scheduler = record {
    running = 0;
    node_states = [];
    remaining = λ id. pos (length (edges_at id cg.in_edges)) -ℤ pos (cond_in_count cg id);
    cond_pending = λ id. pos (cond_in_count cg id);
    cond_passed = λ id. pos 0;
    skipped = [];
    dispatched = [];
  }

  pub dispatch : NodeId → Option (GraphState V) → Scheduler V → Scheduler V
  dispatch id parent s = record s {
    running = s.running + 1;
    dispatched = s.dispatched ++ (id, parent) ∷ [];
  }

  -- The loop of `startEntries` over the topological order.
  start_each : GraphState V → List NodeId → Scheduler V → Scheduler V
  unfolding dispatch
  start_each initial [] s = s
  start_each initial (id ∷ ids) s = start_each initial ids (
      if beq_ℤ (cg.in_degree id) (pos 0)
      then dispatch id (some initial) (record s { node_states = insert id initial s.node_states })
      else s)

  pub start_entries : GraphState V → Scheduler V → Scheduler V
  unfolding start_each
  start_entries initial s = start_each initial cg.topo_order s

  abbrev pub waits : NodeId → Scheduler V → Bool
  waits id s = ltb_ℤ (pos 0) (s.remaining id) || ltb_ℤ (pos 0) (s.cond_pending id)

  -- Every predecessor is a condition node, and none chose this one.
  abbrev pub unreachable : NodeId → Scheduler V → Bool
  unreachable id s =
      let n = length (edges_at id cg.in_edges) in
      beq_ℤ (s.cond_passed id) (pos 0) && (nat_beq n (cond_in_count cg id) && not (nat_beq n 0))

  -- One edge of a skipped node: it counts as unchosen if the node is a condition node.
  pub pass_edge : Bool → Edge → Scheduler V → Scheduler V
  pass_edge true e s = record s { cond_pending = lower e.to s.cond_pending }
  pass_edge false e s = record s { remaining = lower e.to s.remaining }

  -- The loop of `skip` over the out-edges, with `tryStart` as `attempt`.
  pub flow_edges :
      (NodeId → Scheduler V → Option (Scheduler V))
      → Bool
      → List Edge
      → Scheduler V
      → Option (Scheduler V)
  unfolding pass_edge
  flow_edges attempt cond [] s = some s
  flow_edges attempt cond (e ∷ es) s = elim (attempt e.to (pass_edge cond e s)) [
    | none ↦ none
    | some s' ↦ flow_edges attempt cond es s'
  ]

  pub skip :
      (NodeId → Scheduler V → Option (Scheduler V)) → NodeId → Scheduler V → Option (Scheduler V)
  unfolding flow_edges
  skip attempt id s =
      if contains id s.skipped
      then some s
      else if waits id s
      then some s
      else flow_edges attempt (is_condition cg id) (edges_at id cg.out_edges)
          (record s { skipped = id ∷ s.skipped })

  pub try_start : ℕ → ℕ → NodeId → Scheduler V → Option (Scheduler V)
  unfolding skip dispatch
  try_start now zero id s = none
  try_start now (suc fuel) id s =
      let skips = skip (try_start now fuel) id s in
      if contains id s.skipped
      then some s
      else if waits id s
      then some s
      else if unreachable id s
      then skips
      else some (dispatch id (collect_predecessor_state now id s.node_states) s)

  -- The label that a finished branching node recorded, "" if it is no string.
  chosen_branch : (V → Option String) → Option (GraphState V) → String
  chosen_branch as_string none = ""
  chosen_branch as_string (some st) = elim (get "branch" st) [
    | none ↦ ""
    | some none ↦ ""
    | some (some v) ↦ elim (as_string v) [ none ↦ "" | some label ↦ label ]
  ]

  -- One edge of a finished node.
  pub finish_edge : Bool → String → Edge → Scheduler V → Scheduler V
  finish_edge false chosen e s = record s { remaining = lower e.to s.remaining }
  finish_edge true chosen e s =
      if e.label == chosen
      then record s {
        cond_passed = bump e.to (pos 1) s.cond_passed;
        cond_pending = lower e.to s.cond_pending;
      }
      else record s { cond_pending = lower e.to s.cond_pending }

  pub finish_edges : ℕ → ℕ → Bool → String → List Edge → Scheduler V → Option (Scheduler V)
  unfolding finish_edge
  finish_edges now fuel cond chosen [] s = some s
  finish_edges now fuel cond chosen (e ∷ es) s =
      elim (try_start now fuel e.to (finish_edge cond chosen e s)) [
        | none ↦ none
        | some s' ↦ finish_edges now fuel cond chosen es s'
      ]

  pub complete : (V → Option String) → ℕ → ℕ → NodeId → Scheduler V → Option (Scheduler V)
  unfolding finish_edges chosen_branch
  complete as_string now fuel id s =
      let chosen =
        if branches cg id then chosen_branch as_string (lookup id s.node_states) else "" in
      finish_edges now fuel (branches cg id) chosen (edges_at id cg.out_edges) s

  -- What `runLoop` does with the result of a node that did not fail.
  pub node_finished :
      (V → Option String) → ℕ → ℕ → NodeId → GraphState V → Scheduler V → Option (Scheduler V)
  unfolding complete
  node_finished as_string now fuel id state s =
      complete as_string now fuel id
        (record s { running = s.running - 1; node_states = insert id state s.node_states })

  -- The run loop, for the results that it receives, in their order.
  pub run_results :
      (V → Option String)
      → ℕ
      → ℕ
      → List (NodeId × GraphState V)
      → Scheduler V
      → Option (Scheduler V)
  unfolding node_finished
  run_results as_string now fuel [] s = some s
  run_results as_string now fuel ((id, state) ∷ rest) s =
      elim (node_finished as_string now fuel id state s) [
        | none ↦ none
        | some s' ↦ run_results as_string now fuel rest s'
      ]

module _ {V : Type 0} where
  abbrev pub ids_of : List (NodeId × GraphState V) → List NodeId
  ids_of [] = []
  ids_of ((id, _) ∷ rest) = id ∷ ids_of rest
