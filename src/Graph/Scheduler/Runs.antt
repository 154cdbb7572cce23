-- ===== src/Graph/Scheduler/Runs.antt =====
-- The runs of a compiled graph in graph/graph.go: `runLoop` receives one result from each goroutine
-- that it has started, in any order.
use gocel.Prelude.{
  ℕ, ◌+◌, ◌-◌, ◌≤◌, ◌<◌, ◌≡◌, refl, ap, sym, ◌∙◌, inl, inr, Option, some, true, List, [], ◌∷◌, ◌++◌,
  arith, string_eq, contains, Bool-cases, String, length, count, count-append, contains-count, keys,
  insert, ◌==◌, if◌then◌else◌,
}
use gocel.Prelude.Int.{pos, pos_part, neg_part, beq_ℤ, ◌-ℤ◌, -ℤ_parts}
use gocel.Graph.State.{GraphState}
use gocel.Graph.Builder.{NodeId, Edge, edges_at, has_edge}
use gocel.Graph.Topo.{CompiledGraph}
use gocel.Graph.Topo.Compiling.{IsCompiled}
use gocel.Graph.Topo.Order.{IsOrder, length-entering, edge-early}
use gocel.Graph.Topo.Relax.{into, pending}
use gocel.Graph.Scheduler.{
  Scheduler, dispatch, node_finished, complete, new_scheduler, start_entries, start_each,
  cond_in_count,
}
use gocel.Graph.Scheduler.Flow.{flow}
use gocel.Graph.Scheduler.Started.{flow-append, pending-flow, no_conditions}
use gocel.Graph.Scheduler.Lowering.{taken, count-keys_snoc}
use gocel.Graph.Scheduler.Once.{Keeps, finish_edges-Keeps}

module _ {Work V : Type 0} (cg : CompiledGraph Work) (as_string : V → Option String) (fuel : ℕ)
    (initial : GraphState V) where
  -- The nodes that have reported, newest first, and the scheduler after them. A result comes from a
  -- goroutine that was started and has not reported; none of them has failed.
  pub data Runs : List NodeId → Scheduler V → Type 0 where
    begins : Runs [] (start_entries cg initial (new_scheduler cg))
    reports :
        {finished : List NodeId} {s t : Scheduler V} (now : ℕ) (id : NodeId) (state : GraphState V)
        → Runs finished s
        → count id finished < count id (keys s.dispatched)
        → node_finished cg as_string now fuel id state s ≡ some t
        → Runs (id ∷ finished) t

module _ {Work V : Type 0} (cg : CompiledGraph Work) where
  -- What `startEntries` changes.
  start_each-taken :
      (initial : GraphState V) (ids : List NodeId) (s : Scheduler V) (n : NodeId)
      → taken n (start_each cg initial ids s)
        ≡ taken n s + (if beq_ℤ (cg.in_degree n) (pos 0) then count n ids else 0)
  unfolding start_each dispatch
  start_each-taken initial [] s n = ground arith
  start_each-taken initial (id ∷ ids) s n = elim (Bool-cases (beq_ℤ (cg.in_degree id) (pos 0))) [
    | inl entry ↦
        let begun =
          dispatch cg id (some initial)
            (record s { node_states = insert id initial s.node_states }) in
        let there : taken n begun ≡ taken n s + (if id == n then 1 else 0) =
          omega (arith, count-keys_snoc n id (some initial) s.dispatched) in
        rw (entry, start_each)
          (ground (arith, start_each-taken initial ids begun n, there, string_eq.beq_iff id n))
    | inr inner ↦
        rw (inner, start_each)
          (ground (arith, start_each-taken initial ids s n, string_eq.beq_iff id n))
  ]

  start_each-same :
      (initial : GraphState V) (ids : List NodeId) (s : Scheduler V)
      → ((start_each cg initial ids s).remaining ≡ s.remaining)
        × ((start_each cg initial ids s).cond_pending ≡ s.cond_pending)
        × ((start_each cg initial ids s).skipped ≡ s.skipped)
  unfolding start_each dispatch
  start_each-same initial [] s = (refl, refl, refl)
  start_each-same initial (id ∷ ids) s = elim (Bool-cases (beq_ℤ (cg.in_degree id) (pos 0))) [
    | inl entry ↦ rw (entry, start_each) (start_each-same initial ids _)
    | inr inner ↦ rw (inner, start_each) (start_each-same initial ids s)
  ]

  module _ (initial : GraphState V) (c : IsCompiled cg)
      (ordered : IsOrder cg.graph cg.topo_order) where
    abbrev pub edges_into : NodeId → ℕ
    edges_into n = length (edges_at n cg.in_edges)

    degree : (n : NodeId) → cg.in_degree n ≡ pos (edges_into n)
    degree n = ap (λ d. d n) c.degree ∙ ap (λ ix. pos (length (edges_at n ix))) (sym c.into)

    entering : (n : NodeId) → edges_into n ≡ pending cg.graph.edges [] n
    entering n =
        ap (λ ix. length (edges_at n ix)) c.into
        ∙ ap length (c.well_formed.indexed.into n)
        ∙ length-entering n cg.graph.edges

    abbrev pub begun : Scheduler V
    begun = start_entries cg initial (new_scheduler cg)

    pub begun-same :
        (n : NodeId)
        → (begun.remaining n ≡ pos (edges_into n) -ℤ pos (cond_in_count cg n))
          × (begun.cond_pending n ≡ pos (cond_in_count cg n))
          × (begun.skipped ≡ [])
    unfolding start_entries new_scheduler
    begun-same n =
        let (r, p, k) = start_each-same initial cg.topo_order (new_scheduler cg) in
        (ap (λ f. f n) r, ap (λ f. f n) p, k)

    begun-taken :
        (n : NodeId)
        → taken n begun ≡ (if beq_ℤ (cg.in_degree n) (pos 0) then count n cg.topo_order else 0)
    unfolding start_entries new_scheduler
    begun-taken n = omega (arith, start_each-taken initial cg.topo_order (new_scheduler cg) n)

    no_entry : (n : NodeId) → edges_into n ≡ 0 → cond_in_count cg n ≡ 0
    unfolding cond_in_count
    no_entry n h = no_conditions cg (edges_at n cg.in_edges) h

    begun-Keeps : Keeps cg c [] (λ n. 0) begun
    begun-Keeps = (
      record {
        balance = λ n.
            let (r, p, k) = begun-same n in
            omega (
              arith,
              ap pos_part r,
              ap neg_part r,
              ap pos_part p,
              ap neg_part p,
              ap (λ x. flow cg x n) k,
              entering n,
              -ℤ_parts (pos (edges_into n)) (pos (cond_in_count cg n)),
            );
        settled = λ n h.
            let (r, p, k) = begun-same n in
            ground (
              arith,
              r,
              p,
              begun-taken n,
              degree n,
              no_entry n,
              -ℤ_parts (pos (edges_into n)) (pos (cond_in_count cg n)),
            );
        once = λ n. ground (arith, begun-taken n, ordered.0 n, c.well_formed.keys_once n);
        ours = λ n. omega arith;
      },
      λ n node free out.
          let (r, p, k) = begun-same n in
          ground (
            arith,
            r,
            p,
            begun-taken n,
            degree n,
            ordered.0 n,
            -ℤ_parts (pos (edges_into n)) (pos (cond_in_count cg n)),
          ),
    )

    report-Keeps :
        (finished : List NodeId) (id : NodeId) (state : GraphState V) (s : Scheduler V)
        → Keeps cg c finished (λ n. 0) s
        → count id finished < count id (keys s.dispatched)
        → Keeps cg c
            (id ∷ finished)
            (λ n. into n (edges_at id cg.out_edges) + 0)
            (record s { running = s.running - 1; node_states = insert id state s.node_states })
    report-Keeps finished id state s (v, w) new = (
      record {
        balance = λ n. omega (arith, v.balance n);
        settled = v.settled;
        once = v.once;
        ours = λ n. ground (arith, v.ours n, string_eq.beq_iff id n);
      },
      w,
    )

    pub Runs-Keeps :
        {as_string : V → Option String} {fuel : ℕ} {finished : List NodeId} {s : Scheduler V}
        → Runs cg as_string fuel initial finished s
        → Keeps cg c finished (λ n. 0) s
    unfolding node_finished complete
    Runs-Keeps begins = begun-Keeps
    Runs-Keeps (reports now id state r new done) =
        finish_edges-Keeps cg c _ now _ (λ n. 0) _ _ (edges_at id cg.out_edges) _ _
          (report-Keeps _ id state _ (Runs-Keeps r) new) done

    -- In a run of a compiled graph over its topological order each node is started at most once,
    -- and not if it is skipped.
    pub taken_once :
        {as_string : V → Option String} {fuel : ℕ} {finished : List NodeId} {s : Scheduler V}
        → Runs cg as_string fuel initial finished s
        → (n : NodeId) → count n (keys s.dispatched) + count n s.skipped ≤ 1
    taken_once r n = (Runs-Keeps r).0.once n

    -- In a run of a compiled graph over its topological order, when a node has been started, each
    -- node with an edge to it has reported or was skipped.
    pub started_after :
        {as_string : V → Option String} {fuel : ℕ} {finished : List NodeId} {s : Scheduler V}
        (e : Edge)
        → Runs cg as_string fuel initial finished s
        → has_edge e cg.graph.edges ≡ true
        → contains e.to (keys s.dispatched) ≡ true
        → contains e.from (finished ++ s.skipped) ≡ true
    started_after {finished = finished} {s} e r is_edge started =
        let v = (Runs-Keeps r).0 in
        let n = e.to in
        edge-early cg.graph.edges (finished ++ s.skipped) e
          (omega (
            arith,
            v.balance n,
            v.settled n (ground (arith, contains-count n (keys s.dispatched))),
            flow-append cg finished s.skipped n,
            pending-flow cg (finished ++ s.skipped) n c
                (λ id. omega (arith, count-append id finished s.skipped, v.once id, v.ours id)),
          ))
          is_edge
