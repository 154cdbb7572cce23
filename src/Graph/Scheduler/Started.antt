-- ===== src/Graph/Scheduler/Started.antt =====
-- The predecessors of the nodes that the scheduler of graph/graph.go starts.
use gocel.Prelude.{
  ℕ, ◌+◌, ◌≤◌, ◌≡◌, refl, ap, ◌∙◌, inl, inr, Option, some, true, false, List, [], ◌∷◌, ◌++◌, arith,
  string_eq, contains, Bool-cases, String, length, count, contains-count, insert, keys,
}
use gocel.Prelude.Int.{◌-ℤ◌, pos, pos_part, neg_part, ◌+ℤ◌, beq_ℤ, +ℤ_parts}
use gocel.Graph.State.{GraphState}
use gocel.Graph.Builder.{NodeId, Edge, edges_at, has_edge}
use gocel.Graph.Builder.Indexes.{leaving}
use gocel.Graph.Topo.{CompiledGraph}
use gocel.Graph.Topo.Compiling.{IsCompiled}
use gocel.Graph.Topo.Relax.{into, pending}
use gocel.Graph.Topo.Order.{length-entering, edge-early}
use gocel.Graph.Scheduler.{
  Scheduler, dispatch, cond_in_count, cond_count, waits, run_results, ids_of, new_scheduler,
  start_entries, start_each,
}
use gocel.Graph.Scheduler.Flow.{flow}
use gocel.Graph.Scheduler.Conservation.{run_results-conserves}
use gocel.Graph.Scheduler.Waiting.{Started, dispatch-Started, run_results-Started}

-- One more node is done: the edges that leave it are waited for no more.
pub pending-cons :
    (es : List Edge) (done : List NodeId) (u v : NodeId)
    → contains u done ≡ false
    → pending es (u ∷ done) v + into v (leaving u es) ≡ pending es done v
pending-cons [] done u v h = refl
pending-cons (e ∷ es) done u v h =
    ground
      (arith, pending-cons es done u v h, string_eq.beq_iff u e.from, string_eq.beq_iff e.from u)

module _ {Work : Type 0} where
  pub flow-append :
      (cg : CompiledGraph Work) (xs ys : List NodeId) (n : NodeId)
      → flow cg (xs ++ ys) n ≡ flow cg xs n + flow cg ys n
  flow-append cg [] ys n = omega arith
  flow-append cg (x ∷ xs) ys n = omega (arith, flow-append cg xs ys n)

  pub pending-flow :
      (cg : CompiledGraph Work) (done : List NodeId) (n : NodeId)
      → IsCompiled cg
      → ((id : NodeId) → count id done ≤ 1)
      → pending cg.graph.edges done n + flow cg done n ≡ pending cg.graph.edges [] n
  pending-flow cg [] n c once = omega arith
  pending-flow cg (d ∷ ds) n c once =
      let same : edges_at d cg.out_edges ≡ leaving d cg.graph.edges =
        ap (edges_at d) c.out ∙ c.well_formed.indexed.out d in
      omega (
        arith,
        ap (into n) same,
        pending-cons cg.graph.edges ds d n
            (ground (arith, once d, contains-count d ds, string_eq.beq_iff d d)),
        pending-flow cg ds n c (λ id. ground (arith, once id)),
      )

  pub no_conditions :
      (cg : CompiledGraph Work) (es : List Edge) → length es ≡ 0 → cond_count cg es ≡ 0
  unfolding cond_count
  no_conditions cg [] h = refl
  no_conditions cg (e ∷ es) h = absurd (omega arith)

module _ {Work V : Type 0} (cg : CompiledGraph Work) where
  dispatch-free :
      (id : NodeId) (initial : GraphState V) (s : Scheduler V)
      → ((j : NodeId) → beq_ℤ (cg.in_degree j) (pos 0) ≡ true → waits cg j s ≡ false)
      → (j : NodeId) → beq_ℤ (cg.in_degree j) (pos 0) ≡ true
      → waits cg j (dispatch cg id (some initial) s) ≡ false
  unfolding dispatch
  dispatch-free id initial s free = free

  start_each-Started :
      (initial : GraphState V) (ids : List NodeId) (s : Scheduler V)
      → ((id : NodeId) → beq_ℤ (cg.in_degree id) (pos 0) ≡ true → waits cg id s ≡ false)
      → Started cg s
      → Started cg (start_each cg initial ids s)
  unfolding start_each
  start_each-Started initial [] s free st = st
  start_each-Started initial (id ∷ ids) s free st =
      elim (Bool-cases (beq_ℤ (cg.in_degree id) (pos 0))) [
        | inl entry ↦
            rw (entry, start_each)
              (let s' = record s { node_states = insert id initial s.node_states } in
                start_each-Started initial ids (dispatch cg id (some initial) s')
                  (dispatch-free id initial s' free)
                  (dispatch-Started cg id (some initial) s' (free id entry) st))
        | inr inner ↦ rw (inner, start_each) (start_each-Started initial ids s free st)
      ]

  start-Started :
      (initial : GraphState V)
      → IsCompiled cg
      → Started cg (start_entries cg initial (new_scheduler cg))
  unfolding start_entries new_scheduler cond_in_count ◌-ℤ◌
  start-Started initial c =
      start_each-Started initial cg.topo_order (new_scheduler cg)
        (λ id h. ground (
          arith,
          ap (λ d. d id) c.degree,
          ap (λ ix. length (edges_at id ix)) c.into,
          no_conditions cg (edges_at id cg.in_edges),
        ))
        (λ n m. ground arith)

  -- In a run of a compiled graph, with no node twice among those that finished or were skipped:
  -- each node from which an edge leads to a node that was started has finished or was skipped.
  pub started_resolved :
      (as_string : V → Option String) (now fuel : ℕ) (initial : GraphState V)
      (results : List (NodeId × GraphState V)) (t : Scheduler V) (e : Edge)
      → IsCompiled cg
      → run_results cg as_string now fuel results (start_entries cg initial (new_scheduler cg))
        ≡ some t
      → ((id : NodeId) → count id (ids_of results ++ t.skipped) ≤ 1)
      → has_edge e cg.graph.edges ≡ true
      → contains e.to (keys t.dispatched) ≡ true
      → contains e.from (ids_of results ++ t.skipped) ≡ true
  started_resolved as_string now fuel initial results t e c h once is_edge started =
      let n = e.to in
      let done = ids_of results ++ t.skipped in
      let free =
        run_results-Started cg as_string now fuel results _ t h (start-Started initial c) n
          started in
      let kept = run_results-conserves cg as_string now fuel initial results t h n in
      let all : length (edges_at n cg.in_edges) ≡ pending cg.graph.edges [] n =
        ap (λ ix. length (edges_at n ix)) c.into
        ∙ ap length (c.well_formed.indexed.into n)
        ∙ length-entering n cg.graph.edges in
      edge-early cg.graph.edges done e
        (omega (
          arith,
          free,
          all,
          ap pos_part kept,
          ap neg_part kept,
          +ℤ_parts (t.remaining n) (t.cond_pending n),
          +ℤ_parts (t.remaining n +ℤ t.cond_pending n)
              (pos (flow cg (ids_of results) n + flow cg t.skipped n)),
          pending-flow cg done n c once,
          flow-append cg (ids_of results) t.skipped n,
        ))
        is_edge
