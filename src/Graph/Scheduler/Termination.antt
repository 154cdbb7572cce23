-- ===== src/Graph/Scheduler/Termination.antt =====
-- The recursion of `tryStart` and `skip` in graph/graph.go: the nodes that are not skipped get fewer.
use gocel.Prelude.{
  ℕ, zero, suc, ◌+◌, ◌≤◌, ◌<◌, ◌≡◌, refl, ap, inl, inr, Option, some, Bool, true, false, List, [],
  ◌∷◌, arith, if◌then◌else◌, string_eq, contains, Bool-cases, String, length, keys, insert, ◌-◌,
  count, total, total-drop, total-le,
}
use gocel.Prelude.Int.{pos, ◌+ℤ◌}
use gocel.Graph.State.{GraphState}
use gocel.Graph.Builder.{NodeId, Edge, edges_at}
use gocel.Graph.Topo.{CompiledGraph}
use gocel.Graph.Topo.Compiling.{IsCompiled}
use gocel.Graph.Topo.Relax.{into, pending}
use gocel.Graph.Topo.Order.{length-entering, into-node, count-keys}
use gocel.Graph.Scheduler.{
  Scheduler, is_condition, dispatch, try_start, skip, flow_edges, pass_edge, waits, unreachable,
  finish_edge, finish_edges, complete, node_finished, branches, run_results, ids_of,
  collect_predecessor_state, new_scheduler, start_entries,
}
use gocel.Graph.Scheduler.Waiting.{pass_edge-skipped, finish_edge-skipped}
use gocel.Graph.Scheduler.Flow.{flow}
use gocel.Graph.Scheduler.Conservation.{run_results-conserves}

abbrev alive : List NodeId → NodeId → ℕ
alive skipped w = if contains w skipped then 0 else 1

module _ {Work V : Type 0} (cg : CompiledGraph Work) (ids : List NodeId)
    (within : (id : NodeId) → 0 < length (edges_at id cg.in_edges) → 0 < count id ids) where
  -- How many nodes are not skipped.
  abbrev unskipped : Scheduler V → ℕ
  unskipped s = total (alive s.skipped) ids

  abbrev Answers : Option (Scheduler V) → Scheduler V → Type 0
  Answers o s = (t : Scheduler V) × (o ≡ some t) × (unskipped t ≤ unskipped s)

  -- A function on schedulers that ends where fewer than `fuel` nodes are not skipped.
  abbrev Total : ℕ → (NodeId → Scheduler V → Option (Scheduler V)) → Type 0
  Total fuel attempt =
      (id : NodeId) (s : Scheduler V) → unskipped s < fuel → Answers (attempt id s) s

  flow_edges-Total :
      (fuel : ℕ) (attempt : NodeId → Scheduler V → Option (Scheduler V)) (cond : Bool)
      (es : List Edge) (s : Scheduler V)
      → Total fuel attempt
      → unskipped s < fuel
      → Answers (flow_edges cg attempt cond es s) s
  unfolding flow_edges
  flow_edges-Total fuel attempt cond [] s all h = (s, refl, omega arith)
  flow_edges-Total fuel attempt cond (e ∷ es) s all h =
      let same = ap (λ l. total (alive l) ids) (pass_edge-skipped cg cond e s) in
      let (u, found, less) = all e.to (pass_edge cg cond e s) (omega (arith, same)) in
      let (t, rest, fewer) = flow_edges-Total fuel attempt cond es u all (omega (arith, same)) in
      (t, cc (found, rest), omega (arith, same))

  -- A node that no chosen edge enters is entered by some edge.
  unreachable-within :
      (id : NodeId) (s : Scheduler V) → unreachable cg id s ≡ true → 0 < count id ids
  unreachable-within id s h = within id (ground arith)

  mark-less :
      (id : NodeId) (s : Scheduler V)
      → contains id s.skipped ≡ false
      → 0 < count id ids
      → total (alive (id ∷ s.skipped)) ids < unskipped s
  mark-less id s first c =
      total-drop (alive (id ∷ s.skipped)) (alive s.skipped) ids id (λ v. ground arith)
        (ground (arith, string_eq.beq_iff id id)) c

  skip-Total :
      (fuel : ℕ) (attempt : NodeId → Scheduler V → Option (Scheduler V)) (id : NodeId)
      (s : Scheduler V)
      → Total fuel attempt
      → contains id s.skipped ≡ false
      → 0 < count id ids
      → unskipped s < suc fuel
      → Answers (skip cg attempt id s) s
  unfolding skip
  skip-Total fuel attempt id s all first c h = elim (Bool-cases (waits cg id s)) [
    | inl waiting ↦ (s, rw first (rw waiting refl), omega arith)
    | inr free ↦
        let less = mark-less id s first c in
        let (t, found, fewer) =
          flow_edges-Total fuel attempt (is_condition cg id) (edges_at id cg.out_edges)
            (record s { skipped = id ∷ s.skipped }) all (omega (arith, less)) in
        (t, rw first (rw free found), omega (arith, less))
  ]

  try_start-Total : (now fuel : ℕ) → Total fuel (try_start cg now fuel)
  unfolding try_start dispatch
  try_start-Total now zero id s h = absurd (omega arith)
  try_start-Total now (suc fuel) id s h = elim (Bool-cases (contains id s.skipped)) [
    | inl again ↦ (s, rw again refl, omega arith)
    | inr first ↦ elim (Bool-cases (waits cg id s)) [
      | inl waiting ↦ (s, rw first (rw waiting refl), omega arith)
      | inr free ↦ elim (Bool-cases (unreachable cg id s)) [
        | inl hopeless ↦
            let (t, found, fewer) =
              skip-Total fuel (try_start cg now fuel) id s (try_start-Total now fuel) first
                (unreachable-within id s hopeless) h in
            (t, cc (first, free, hopeless, found), fewer)
        | inr ready ↦ (
          dispatch cg id (collect_predecessor_state cg now id s.node_states) s,
          rw first (rw free (rw ready refl)),
          omega arith,
        )
      ]
    ]
  ]

  finish_edges-total :
      (now fuel : ℕ) (cond : Bool) (chosen : String) (es : List Edge) (s : Scheduler V)
      → unskipped s < fuel
      → Answers (finish_edges cg now fuel cond chosen es s) s
  unfolding finish_edges
  finish_edges-total now fuel cond chosen [] s h = (s, refl, omega arith)
  finish_edges-total now fuel cond chosen (e ∷ es) s h =
      let same = ap (λ l. total (alive l) ids) (finish_edge-skipped cg cond chosen e s) in
      let (u, found, less) =
        try_start-Total now fuel e.to (finish_edge cg cond chosen e s) (omega (arith, same)) in
      let (t, rest, fewer) = finish_edges-total now fuel cond chosen es u (omega (arith, same)) in
      (t, cc (found, rest), omega (arith, same))

  complete-total :
      (as_string : V → Option String) (now fuel : ℕ) (id : NodeId) (s : Scheduler V)
      → unskipped s < fuel
      → Answers (complete cg as_string now fuel id s) s
  unfolding complete
  complete-total as_string now fuel id s h =
      finish_edges-total now fuel (branches cg id) _ (edges_at id cg.out_edges) s h

  run_results-total :
      (as_string : V → Option String) (now fuel : ℕ) (results : List (NodeId × GraphState V))
      (s : Scheduler V)
      → unskipped s < fuel
      → Answers (run_results cg as_string now fuel results s) s
  unfolding run_results node_finished
  run_results-total as_string now fuel [] s h = (s, refl, omega arith)
  run_results-total as_string now fuel ((id, state) ∷ rest) s h =
      let (u, found, less) =
        complete-total as_string now fuel id
          (record s { running = s.running - 1; node_states = insert id state s.node_states }) h in
      let (t, last, fewer) = run_results-total as_string now fuel rest u (omega (arith, less)) in
      (t, cc (found, last), omega (arith, less, fewer))

  few : (s : Scheduler V) → unskipped s ≤ length ids
  few s = total-le (alive s.skipped) ids (λ v. ground arith)

pub pending-none : (v : NodeId) (es : List Edge) → pending es [] v ≡ into v es
pending-none v [] = refl
pending-none v (e ∷ es) = ground (arith, pending-none v es)

module _ {Work : Type 0} (cg : CompiledGraph Work) where
  entered-node :
      IsCompiled cg
      → (id : NodeId) → 0 < length (edges_at id cg.in_edges)
      → 0 < count id (keys cg.graph.nodes)
  entered-node c id h =
      let inv = c.well_formed in
      count-keys id cg.graph.nodes (
        into-node cg.graph.nodes cg.graph.edges id inv.joined (
          omega (
            arith,
            h,
            ap (λ ix. length (edges_at id ix)) c.into,
            ap length (inv.indexed.into id),
            length-entering id cg.graph.edges,
            pending-none id cg.graph.edges,
          )))

module _ {Work V : Type 0} (cg : CompiledGraph Work) where
  -- With more fuel than a compiled graph has nodes, the scheduler takes any list of results, and
  -- keeps the edges: what the two counters of a node add up to, and the edges into it from nodes
  -- that finished or were skipped, are all its edges.
  pub run_conserves :
      (as_string : V → Option String) (now fuel : ℕ) (initial : GraphState V)
      (results : List (NodeId × GraphState V))
      → IsCompiled cg
      → length (keys cg.graph.nodes) < fuel
      → (t : Scheduler V) × (run_results cg as_string now fuel results
            (start_entries cg initial (new_scheduler cg))
          ≡ some t)
        × ((n : NodeId)
            → t.remaining n
                +ℤ t.cond_pending n
                +ℤ pos (flow cg (ids_of results) n + flow cg t.skipped n)
              ≡ pos (length (edges_at n cg.in_edges)))
  run_conserves as_string now fuel initial results c h =
      let ids = keys cg.graph.nodes in
      let (t, found, _) =
        run_results-total cg ids (entered-node cg c) as_string now fuel results
          (start_entries cg initial (new_scheduler cg))
          (omega (
            arith,
            few cg ids (entered-node cg c) (start_entries cg initial (new_scheduler cg)),
          )) in
      (t, found, run_results-conserves cg as_string now fuel initial results t found)

  pub node_finished-total :
      (as_string : V → Option String) (now fuel : ℕ) (id : NodeId) (state : GraphState V)
      (s : Scheduler V)
      → IsCompiled cg
      → length (keys cg.graph.nodes) < fuel
      → (t : Scheduler V) × (node_finished cg as_string now fuel id state s ≡ some t)
  unfolding node_finished
  node_finished-total as_string now fuel id state s c h =
      let ids = keys cg.graph.nodes in
      let (t, found, _) =
        complete-total cg ids (entered-node cg c) as_string now fuel id
          (record s { running = s.running - 1; node_states = insert id state s.node_states })
          (omega (arith, few cg ids (entered-node cg c) s)) in
      (t, found)
