-- ===== src/Graph/Scheduler/Conservation.antt =====
-- The edges that the scheduler of graph/graph.go waits for in the course of a run.
use gocel.Prelude.{
  refl, ℕ, ◌+◌, ◌≡◌, inl, inr, Option, some, Bool, true, false, List, [], ◌∷◌, arith, string_eq,
  Bool-cases, Option-cases, String, length, insert,
}
use gocel.Prelude.Int.{pos, ◌+ℤ◌, beq_ℤ, eq_of_parts, -ℤ_parts, +ℤ_parts}
use gocel.Graph.State.{GraphState}
use gocel.Graph.Builder.{NodeId, Edge, edges_at}
use gocel.Graph.Topo.{CompiledGraph}
use gocel.Graph.Scheduler.{
  branches, Scheduler, dispatch, try_start, cond_in_count, run_results, ids_of, new_scheduler,
  start_entries, start_each, finish_edge, finish_edges, complete, node_finished,
}
use gocel.Graph.Scheduler.Flow.{
  Edges, no_edges, edges, both, flow, Flows, Flows-refl, Flows-trans, Flows-more, Flows-end,
  try_start-Flows,
}

module _ {Work : Type 0} (cg : CompiledGraph Work) where
  -- The edges of the nodes of a list, as `complete` takes them off.
  abbrev pub ran : List NodeId → Edges
  ran [] = no_edges
  ran (id ∷ ids) = both (edges (branches cg id) (edges_at id cg.out_edges)) (ran ids)

  ran-flow : (ids : List NodeId) (n : NodeId) → (ran ids n).0 ≡ flow cg ids n
  ran-flow [] n = refl
  ran-flow (id ∷ ids) n = omega (arith, ran-flow ids n)

module _ {Work V : Type 0} (cg : CompiledGraph Work) where
  pub finish_edge-Flows :
      (cond : Bool) (chosen : String) (e : Edge) (s : Scheduler V)
      → Flows cg s (finish_edge cg cond chosen e s) (edges cond (e ∷ []))
  unfolding finish_edge
  finish_edge-Flows true chosen e s = record {
    moved = λ n. ground (arith, -ℤ_parts (s.cond_pending n) (pos 1));
    cond_moved = λ n. ground (arith, -ℤ_parts (s.cond_pending n) (pos 1));
    remaining_falls = λ n. ground arith;
    pending_falls = λ n. ground (arith, -ℤ_parts (s.cond_pending n) (pos 1));
  }
  finish_edge-Flows false chosen e s = record {
    moved = λ n. ground (arith, -ℤ_parts (s.remaining n) (pos 1));
    cond_moved = λ n. ground (arith, -ℤ_parts (s.remaining n) (pos 1));
    remaining_falls = λ n. ground (arith, -ℤ_parts (s.remaining n) (pos 1));
    pending_falls = λ n. omega arith;
  }

  finish_edges-Flows :
      (now fuel : ℕ) (cond : Bool) (chosen : String) (es : List Edge) (s t : Scheduler V)
      → finish_edges cg now fuel cond chosen es s ≡ some t
      → Flows cg s t (edges cond es)
  unfolding finish_edges
  finish_edges-Flows now fuel cond chosen [] s t h =
      Flows-more cg s t no_edges (edges cond []) (λ n. ground arith)
        (Flows-end cg s s t no_edges h (Flows-refl cg s))
  finish_edges-Flows now fuel cond chosen (e ∷ es) s t h =
      elim (Option-cases (try_start cg now fuel e.to (finish_edge cg cond chosen e s))) [
        | inl stuck ↦ absurd (cc (h, stuck))
        | inr (u, found) ↦
            let rest : finish_edges cg now fuel cond chosen es u ≡ some t = cc (h, found) in
            Flows-more cg s t _ _ (λ n. ground arith)
              (Flows-trans cg s u t _ _
                (Flows-trans cg s (finish_edge cg cond chosen e s) u _ _
                  (finish_edge-Flows cond chosen e s)
                  (try_start-Flows cg now fuel e.to (finish_edge cg cond chosen e s) u found))
                (finish_edges-Flows now fuel cond chosen es u t rest))
      ]

  pub node_finished-Flows :
      (as_string : V → Option String) (now fuel : ℕ) (id : NodeId) (state : GraphState V)
      (s t : Scheduler V)
      → node_finished cg as_string now fuel id state s ≡ some t
      → Flows cg s t (edges (branches cg id) (edges_at id cg.out_edges))
  unfolding node_finished complete
  node_finished-Flows as_string now fuel id state s t h =
      let f = finish_edges-Flows now fuel _ _ (edges_at id cg.out_edges) _ t h in
      record {
        moved = f.moved;
        cond_moved = f.cond_moved;
        remaining_falls = f.remaining_falls;
        pending_falls = f.pending_falls;
      }

  pub run_results-Flows :
      (as_string : V → Option String) (now fuel : ℕ) (results : List (NodeId × GraphState V))
      (s t : Scheduler V)
      → run_results cg as_string now fuel results s ≡ some t
      → Flows cg s t (ran cg (ids_of results))
  unfolding run_results
  run_results-Flows as_string now fuel [] s t h = Flows-end cg s s t _ h (Flows-refl cg s)
  run_results-Flows as_string now fuel ((id, state) ∷ rest) s t h =
      elim (Option-cases (node_finished cg as_string now fuel id state s)) [
        | inl stuck ↦ absurd (cc (h, stuck))
        | inr (u, found) ↦
            let rest' : run_results cg as_string now fuel rest u ≡ some t = cc (h, found) in
            Flows-trans cg s u t _ _ (node_finished-Flows as_string now fuel id state s u found)
              (run_results-Flows as_string now fuel rest u t rest')
      ]

  begin_with :
      (initial : GraphState V) (id : NodeId) (ids : List NodeId) (s : Scheduler V)
      → Flows cg
          (dispatch cg id
            (some initial)
            (record s { node_states = insert id initial s.node_states }))
          (start_each cg initial ids (
            dispatch cg id
              (some initial)
              (record s { node_states = insert id initial s.node_states })))
          no_edges
      → Flows cg s
          (start_each cg initial ids (
            dispatch cg id
              (some initial)
              (record s { node_states = insert id initial s.node_states })))
          no_edges
  unfolding dispatch
  begin_with initial id ids s f = record {
    moved = f.moved;
    cond_moved = f.cond_moved;
    remaining_falls = f.remaining_falls;
    pending_falls = f.pending_falls;
  }

  start_each-Flows :
      (initial : GraphState V) (ids : List NodeId) (s : Scheduler V)
      → Flows cg s (start_each cg initial ids s) no_edges
  unfolding start_each
  start_each-Flows initial [] s = Flows-refl cg s
  start_each-Flows initial (id ∷ ids) s = elim (Bool-cases (beq_ℤ (cg.in_degree id) (pos 0))) [
    | inl entry ↦ rw entry (
        begin_with initial id ids s (
          start_each-Flows initial ids (
            dispatch cg id (some initial)
              (record s { node_states = insert id initial s.node_states }))))
    | inr inner ↦ rw inner (start_each-Flows initial ids s)
  ]

  -- An edge that is not waited for any more comes from a node that finished or was skipped: what
  -- the two counters of a node add up to, and the edges that have come in, are all its edges.
  pub run_results-conserves :
      (as_string : V → Option String) (now fuel : ℕ) (initial : GraphState V)
      (results : List (NodeId × GraphState V)) (t : Scheduler V)
      → run_results cg as_string now fuel results (start_entries cg initial (new_scheduler cg))
        ≡ some t
      → (n : NodeId)
      → t.remaining n +ℤ t.cond_pending n +ℤ pos (flow cg (ids_of results) n + flow cg t.skipped n)
        ≡ pos (length (edges_at n cg.in_edges))
  unfolding start_entries new_scheduler
  run_results-conserves as_string now fuel initial results t h n =
      let f = start_each-Flows initial cg.topo_order (new_scheduler cg) in
      let r =
        run_results-Flows as_string now fuel results (start_entries cg initial (new_scheduler cg)) t
          h in
      let a = f.moved n in
      let b = r.moved n in
      eq_of_parts _ _ (
        omega (
          arith,
          a,
          b,
          +ℤ_parts (t.remaining n) (t.cond_pending n),
          +ℤ_parts (t.remaining n +ℤ t.cond_pending n)
              (pos (flow cg (ids_of results) n + flow cg t.skipped n)),
          ran-flow cg (ids_of results) n,
          -ℤ_parts (pos (length (edges_at n cg.in_edges))) (pos (cond_in_count cg n)),
        ))
