-- ===== src/Graph/Scheduler/Liveness.antt =====
-- Runs of graph/graph.go that have come to rest: every goroutine that was started has reported.
use gocel.Prelude.{
  ℕ, ◌+◌, ◌≤◌, ◌<◌, ◌≡◌, refl, ap, ◌∙◌, inl, inr, Option, true, false, List, [], ◌∷◌, ◌++◌, arith,
  string_eq, contains, contains-append, Bool-cases, Option-cases, String, length, count,
  count-append, contains-count, keys, lookup, filter, ◌==◌, if◌then◌else◌,
}
use gocel.Prelude.Int.{pos_part, neg_part}
use gocel.Graph.State.{GraphState}
use gocel.Graph.Builder.{NodeId, Edge, edges_at}
use gocel.Graph.Builder.Indexes.{leaving, entering}
use gocel.Graph.Topo.{CompiledGraph}
use gocel.Graph.Topo.Compiling.{IsCompiled}
use gocel.Graph.Topo.Kahn.{IsTopological}
use gocel.Graph.Topo.Order.{IsOrder}
use gocel.Graph.Topo.Relax.{into, pending}
use gocel.Graph.Scheduler.{
  Scheduler, waits, cond_count, cond_in_count, has_labeled_out, is_condition, branches,
}
use gocel.Graph.Scheduler.Flow.{cond_flow}
use gocel.Graph.Scheduler.Conservation.{ran, node_finished-Flows}
use gocel.Graph.Scheduler.Started.{flow-append, pending-flow, pending-cons}
use gocel.Graph.Scheduler.Running.{all_reported}
use gocel.Graph.Scheduler.Termination.{node_finished-total}
use gocel.Graph.Scheduler.Runs.{Runs, begins, reports, begun-same, Runs-Keeps}

pending_mono :
    (es : List Edge) (before done : List NodeId) (v : NodeId)
    → ((w : NodeId) → contains w before ≡ true → contains w done ≡ true)
    → pending es done v ≤ pending es before v
pending_mono [] before done v h = omega arith
pending_mono (e ∷ es) before done v h = ground (arith, h e.from, pending_mono es before done v h)

module _ {Work : Type 0} (cg : CompiledGraph Work) where
  -- Only condition nodes have labelled edges out.
  abbrev pub Routed : Type 0
  Routed = (id : NodeId) → has_labeled_out cg id ≡ true → is_condition cg id ≡ true

  branches_routed : Routed → (id : NodeId) → branches cg id ≡ is_condition cg id
  branches_routed routed id = elim (Option-cases (lookup id cg.graph.nodes)) [
    | inl absent ↦ cc absent
    | inr (n, found) ↦ elim (Bool-cases (has_labeled_out cg id)) [
      | inl split ↦ ground (arith, found, split, routed id split)
      | inr plain ↦ ground (arith, found, plain)
    ]
  ]

  ran-cond_flow : Routed → (ids : List NodeId) (n : NodeId) → (ran cg ids n).1 ≡ cond_flow cg ids n
  ran-cond_flow routed [] n = refl
  ran-cond_flow routed (id ∷ ids) n =
      ground (arith, branches_routed routed id, ran-cond_flow routed ids n)

  -- The edges that leave condition nodes.
  abbrev gated : List Edge → List Edge
  gated = filter (λ e. is_condition cg e.from)

  into-gated :
      (es : List Edge) (d v : NodeId)
      → into v (leaving d (gated es)) ≡ (if is_condition cg d then into v (leaving d es) else 0)
  into-gated [] d v = ground arith
  into-gated (e ∷ es) d v = ground (arith, into-gated es d v, string_eq.beq_iff e.from d)

  cond_count-entering :
      (es : List Edge) (v : NodeId) → cond_count cg (entering v es) ≡ pending (gated es) [] v
  unfolding cond_count
  cond_count-entering [] v = refl
  cond_count-entering (e ∷ es) v = ground (arith, cond_count-entering es v)

  pending-gated :
      (es : List Edge) (done : List NodeId) (v : NodeId)
      → pending (gated es) done v ≤ pending es done v
  pending-gated [] done v = omega arith
  pending-gated (e ∷ es) done v = ground (arith, pending-gated es done v)

  gated-flow :
      (done : List NodeId) (n : NodeId)
      → IsCompiled cg
      → ((id : NodeId) → count id done ≤ 1)
      → pending (gated cg.graph.edges) done n + cond_flow cg done n
        ≡ pending (gated cg.graph.edges) [] n
  gated-flow [] n c once = omega arith
  gated-flow (d ∷ ds) n c once =
      let same : edges_at d cg.out_edges ≡ leaving d cg.graph.edges =
        ap (edges_at d) c.out ∙ c.well_formed.indexed.out d in
      ground (
        arith,
        ap (into n) same,
        into-gated cg.graph.edges d n,
        pending-cons (gated cg.graph.edges) ds d n
            (ground (arith, once d, contains-count d ds, string_eq.beq_iff d d)),
        gated-flow ds n c (λ id. ground (arith, once id)),
      )

  cond_flow-append :
      (xs ys : List NodeId) (n : NodeId)
      → cond_flow cg (xs ++ ys) n ≡ cond_flow cg xs n + cond_flow cg ys n
  cond_flow-append [] ys n = omega arith
  cond_flow-append (x ∷ xs) ys n = omega (arith, cond_flow-append xs ys n)

module _ {Work V : Type 0} (cg : CompiledGraph Work) (initial : GraphState V) (c : IsCompiled cg)
    (ordered : IsOrder cg.graph cg.topo_order) where
  gate : (n : NodeId) → cond_in_count cg n ≡ pending (gated cg cg.graph.edges) [] n
  unfolding cond_in_count
  gate n =
      ap (λ ix. cond_count cg (edges_at n ix)) c.into
      ∙ ap (cond_count cg) (c.well_formed.indexed.into n)
      ∙ cond_count-entering cg cg.graph.edges n

  -- What `cond_pending` waits for: the edges from condition nodes that have not come in.
  cond_balance :
      {as_string : V → Option String} {fuel : ℕ} {finished : List NodeId} {s : Scheduler V}
      → Runs cg as_string fuel initial finished s
      → (n : NodeId)
      → pos_part (s.cond_pending n) + (ran cg finished n).1 + cond_flow cg s.skipped n
        ≡ neg_part (s.cond_pending n) + cond_in_count cg n
  cond_balance begins n =
      let (r, p, k) = begun-same cg initial c ordered n in
      omega (arith, ap pos_part p, ap neg_part p, ap (λ x. cond_flow cg x n) k)
  cond_balance (reports {s = s} {t = t} now id state r new done) n =
      omega
        (arith, (node_finished-Flows cg _ now _ id state s t done).cond_moved n, cond_balance r n)

  -- A node whose predecessors are all resolved waits for nothing.
  resolved-free :
      {as_string : V → Option String} {fuel : ℕ} {finished : List NodeId} {s : Scheduler V}
      → Routed cg
      → Runs cg as_string fuel initial finished s
      → (n : NodeId) → pending cg.graph.edges (finished ++ s.skipped) n ≡ 0
      → waits cg n s ≡ false
  resolved-free {finished = finished} {s} routed r n none_left =
      let v = (Runs-Keeps cg initial c ordered r).0 in
      let done = finished ++ s.skipped in
      let once : (id : NodeId) → count id done ≤ 1 =
        λ id. omega (arith, count-append id finished s.skipped, v.once id, v.ours id) in
      ground (
        arith,
        v.balance n,
        flow-append cg finished s.skipped n,
        pending-flow cg done n c once,
        cond_balance r n,
        gate n,
        ran-cond_flow cg routed finished n,
        cond_flow-append cg finished s.skipped n,
        gated-flow cg done n c once,
        pending-gated cg cg.graph.edges done n,
      )

  -- A run of a compiled graph over its topological order goes on: whichever goroutine has not
  -- reported yet, and whatever state it returns, the scheduler can take its result, with more
  -- fuel than nodes.
  pub run_continues :
      {as_string : V → Option String} {fuel : ℕ} {finished : List NodeId} {s : Scheduler V}
      (now : ℕ) (id : NodeId) (state : GraphState V)
      → Runs cg as_string fuel initial finished s
      → length (keys cg.graph.nodes) < fuel
      → count id finished < count id (keys s.dispatched)
      → (t : Scheduler V) × Runs cg as_string fuel initial (id ∷ finished) t
  run_continues {as_string = as_string} {fuel} {s = s} now id state r room waiting =
      let (t, found) = node_finished-total cg as_string now fuel id state s c room in
      (t, reports now id state r waiting found)

  module _ {as_string : V → Option String} {fuel : ℕ} {finished : List NodeId} {s : Scheduler V}
      (routed : Routed cg) (r : Runs cg as_string fuel initial finished s)
      (quiet : (n : NodeId) → count n (keys s.dispatched) ≤ count n finished) where
    abbrev resolved : NodeId → ℕ
    resolved n = count n (finished ++ s.skipped)

    -- Along the order: once the predecessors of a node are resolved, so is the node.
    resolve :
        (before vs : List NodeId)
        → IsTopological cg.graph.edges before vs
        → ((v : NodeId) → contains v before ≡ true → contains v (finished ++ s.skipped) ≡ true)
        → ((v : NodeId) → 0 < count v vs → 0 < count v (keys cg.graph.nodes))
        → (v : NodeId) → 0 < count v vs
        → 0 < resolved v
    resolve before [] t early nodes v m = absurd (omega arith)
    resolve before (w ∷ vs) (h, t) early nodes v m =
        let free =
          resolved-free routed r w
            (ground (arith, pending_mono cg.graph.edges before (finished ++ s.skipped) w early)) in
        let hit : 0 < resolved w = ground (
          arith,
          (Runs-Keeps cg initial c ordered r).1 w (nodes w (ground (arith, string_eq.beq_iff w w)))
              free refl,
          quiet w,
          count-append w finished s.skipped,
        ) in
        elim (Bool-cases (w == v)) [
          | inl same ↦ ground (arith, string_eq.beq_iff w v)
          | inr other ↦
              resolve (before ++ w ∷ []) vs t
                (λ u here. ground (
                  arith,
                  contains-append u before (w ∷ []),
                  early u,
                  string_eq.beq_iff w u,
                  contains-count u (finished ++ s.skipped),
                ))
                (λ u here. nodes u (ground arith)) v (ground arith)
        ]

  -- In a run of a compiled graph over its topological order, in which only condition nodes have
  -- labelled edges out: when no goroutine runs any more, each node of the graph was started or
  -- skipped, exactly once.
  pub run_resolves :
      {as_string : V → Option String} {fuel : ℕ} {finished : List NodeId} {s : Scheduler V}
      → Routed cg
      → Runs cg as_string fuel initial finished s
      → s.running ≡ 0
      → (n : NodeId) → contains n (keys cg.graph.nodes) ≡ true
      → count n (keys s.dispatched) + count n s.skipped ≡ 1
  run_resolves {finished = finished} {s} routed r quiet n node =
      let v = (Runs-Keeps cg initial c ordered r).0 in
      let reported = all_reported cg initial c ordered r quiet in
      let all =
        resolve routed r reported [] cg.topo_order ordered.1 (λ u here. ground arith)
          (λ u here. omega (arith, ordered.0 u)) n
          (ground (arith, ordered.0 n, contains-count n (keys cg.graph.nodes))) in
      omega (arith, all, count-append n finished s.skipped, v.once n, v.ours n)
