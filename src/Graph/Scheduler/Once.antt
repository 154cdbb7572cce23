-- ===== src/Graph/Scheduler/Once.antt =====
-- What the scheduler of graph/graph.go keeps through each call of `tryStart`: the edges that were
-- taken off, the nodes that were started or skipped, and the nodes that wait.
use gocel.Prelude.{
  ℕ, zero, suc, ◌+◌, ◌≤◌, ◌<◌, ◌≡◌, ap, inl, inr, Option, some, Bool, true, false, List, [], ◌∷◌,
  ◌++◌, arith, string_eq, contains, Bool-cases, Option-cases, String, count, count-append,
  contains-count, keys, some_inj, subst, ◌==◌,
}
use gocel.Graph.State.{GraphState}
use gocel.Graph.Builder.{NodeId, Edge, edges_at}
use gocel.Graph.Topo.{CompiledGraph}
use gocel.Graph.Topo.Compiling.{IsCompiled}
use gocel.Graph.Topo.Relax.{into, pending}
use gocel.Graph.Scheduler.{
  Scheduler, dispatch, waits, unreachable, pass_edge, flow_edges, skip, try_start, is_condition,
  collect_predecessor_state, finish_edge, finish_edges,
}
use gocel.Graph.Scheduler.Flow.{flow}
use gocel.Graph.Scheduler.Started.{flow-append, pending-flow}
use gocel.Graph.Scheduler.Lowering.{
  taken, nobody, Balanced, Caught, Lowers, pass_edge-Lowers, finish_edge-Lowers, count-keys_snoc,
}

module _ {Work V : Type 0} (cg : CompiledGraph Work) where
  module _ (c : IsCompiled cg) (finished : List NodeId) where
    -- No more edges have come in than there are.
    bounded :
        (owed : NodeId → ℕ) (s : Scheduler V) (n : NodeId)
        → Balanced cg finished owed s
        → flow cg finished n + flow cg s.skipped n ≤ pending cg.graph.edges [] n
    bounded owed s n v = omega (
      arith,
      flow-append cg finished s.skipped n,
      pending-flow cg (finished ++ s.skipped) n c
          (λ id. omega (arith, count-append id finished s.skipped, v.once id, v.ours id)),
    )

    -- A node to which an edge is still owed was not started or skipped.
    fresh :
        (owed : NodeId → ℕ) (s : Scheduler V) (n : NodeId)
        → Balanced cg finished owed s
        → 0 < owed n
        → taken n s ≡ 0
    fresh owed s n v h = ground (arith, bounded owed s n v, v.balance n, v.settled n)

    lower-Balanced :
        (owed : NodeId → ℕ) (e : Edge) (s t : Scheduler V)
        → Lowers cg e s t
        → Balanced cg finished (λ n. into n (e ∷ []) + owed n) s
        → Balanced cg finished owed t
    lower-Balanced owed e s t l v = record {
      balance =
          λ n. omega (arith, l.flows.moved n, ap (λ x. flow cg x n) l.same_skipped, v.balance n);
      settled = λ n h.
          let was = v.settled n (
            omega
              (arith, h, ap (λ x. count n (keys x)) l.same_started, ap (count n) l.same_skipped)) in
          (
            omega (arith, was.0, l.flows.remaining_falls n),
            omega (arith, was.1, l.flows.pending_falls n),
          );
      once = λ n.
          omega (
            arith,
            v.once n,
            ap (λ x. count n (keys x)) l.same_started,
            ap (count n) l.same_skipped,
          );
      ours = λ n. omega (arith, v.ours n, ap (λ x. count n (keys x)) l.same_started);
    }

    lower-fresh :
        (owed : NodeId → ℕ) (e : Edge) (s t : Scheduler V)
        → Lowers cg e s t
        → Balanced cg finished (λ n. into n (e ∷ []) + owed n) s
        → taken e.to t ≡ 0
    lower-fresh owed e s t l v = omega (
      arith,
      fresh (λ n. into n (e ∷ []) + owed n) s e.to v (ground (arith, string_eq.beq_iff e.to e.to)),
      ap (λ x. count e.to (keys x)) l.same_started,
      ap (count e.to) l.same_skipped,
    )

    lower-Caught :
        (e : Edge) (s t : Scheduler V)
        → Lowers cg e s t
        → Caught cg nobody s
        → Caught cg (λ n. e.to == n) t
    lower-Caught e s t l v n node free other = ground (
      arith,
      v n node,
      l.same_remaining n other,
      l.same_pending n other,
      ap (λ x. count n (keys x)) l.same_started,
      ap (count n) l.same_skipped,
    )

    -- Both invariants, between two steps.
    abbrev pub Keeps : (NodeId → ℕ) → Scheduler V → Type 0
    Keeps owed s = Balanced cg finished owed s × Caught cg nobody s

    -- A function that keeps the invariants, and catches the node that it is called for.
    abbrev pub Catches : (NodeId → Scheduler V → Option (Scheduler V)) → Type 0
    Catches attempt =
        (owed : NodeId → ℕ) (id : NodeId) (s t : Scheduler V)
        → Balanced cg finished owed s
        → Caught cg (λ n. id == n) s
        → taken id s ≡ 0
        → attempt id s ≡ some t
        → Keeps owed t

    -- One edge is taken off, and its target tried.
    pub lower-Keeps :
        (attempt : NodeId → Scheduler V → Option (Scheduler V)) (owed : NodeId → ℕ) (e : Edge)
        (s s' t : Scheduler V)
        → Catches attempt
        → Lowers cg e s s'
        → Keeps (λ n. into n (e ∷ []) + owed n) s
        → attempt e.to s' ≡ some t
        → Keeps owed t
    lower-Keeps attempt owed e s s' t all l (v, w) h =
        all owed e.to s' t (lower-Balanced owed e s s' l v) (lower-Caught e s s' l w)
          (lower-fresh owed e s s' l v) h

    owed-Keeps :
        (a b : NodeId → ℕ) (s : Scheduler V) → ((n : NodeId) → a n ≡ b n) → Keeps a s → Keeps b s
    owed-Keeps a b s same (v, w) = (
      record {
        balance = λ n. omega (arith, v.balance n, same n);
        settled = v.settled;
        once = v.once;
        ours = v.ours;
      },
      w,
    )

    end-Keeps :
        (owed : NodeId → ℕ) (s t : Scheduler V) → some s ≡ some t → Keeps owed s → Keeps owed t
    end-Keeps owed s t e = subst (Keeps owed) (some_inj.0 e)

    flow_edges-Keeps :
        (attempt : NodeId → Scheduler V → Option (Scheduler V)) (owed : NodeId → ℕ) (cond : Bool)
        (es : List Edge) (s t : Scheduler V)
        → Catches attempt
        → Keeps (λ n. into n es + owed n) s
        → flow_edges cg attempt cond es s ≡ some t
        → Keeps owed t
    unfolding flow_edges
    flow_edges-Keeps attempt owed cond [] s t all v h =
        end-Keeps owed s t h (owed-Keeps (λ n. 0 + owed n) owed s (λ n. omega arith) v)
    flow_edges-Keeps attempt owed cond (e ∷ es) s t all v h =
        elim (Option-cases (attempt e.to (pass_edge cg cond e s))) [
          | inl stuck ↦ absurd (cc (h, stuck))
          | inr (u, found) ↦
              flow_edges-Keeps attempt owed cond es u t all
                (lower-Keeps attempt (λ n. into n es + owed n) e s (pass_edge cg cond e s) u all
                  (pass_edge-Lowers cg cond e s) (owed-Keeps _ _ s (λ n. omega arith) v) found)
                (cc (h, found))
        ]

    mark-Keeps :
        (owed : NodeId → ℕ) (id : NodeId) (s : Scheduler V)
        → Balanced cg finished owed s
        → Caught cg (λ n. id == n) s
        → taken id s ≡ 0
        → waits cg id s ≡ false
        → Keeps
            (λ n. into n (edges_at id cg.out_edges) + owed n)
            (record s { skipped = id ∷ s.skipped })
    mark-Keeps owed id s v w new free = (
      record {
        balance = λ n. omega (arith, v.balance n);
        settled = λ n h. ground (arith, v.settled n, string_eq.beq_iff id n);
        once = λ n. ground (arith, v.once n, string_eq.beq_iff id n);
        ours = v.ours;
      },
      λ n node ready out. ground (arith, w n node, string_eq.beq_iff id n),
    )

    dispatch-Keeps :
        (owed : NodeId → ℕ) (id : NodeId) (parent : Option (GraphState V)) (s : Scheduler V)
        → Balanced cg finished owed s
        → Caught cg (λ n. id == n) s
        → taken id s ≡ 0
        → waits cg id s ≡ false
        → Keeps owed (dispatch cg id parent s)
    unfolding dispatch
    dispatch-Keeps owed id parent s v w new free = (
      record {
        balance = λ n. omega (arith, v.balance n);
        settled = λ n h.
            ground (
              arith,
              v.settled n,
              string_eq.beq_iff id n,
              count-keys_snoc n id parent s.dispatched,
            );
        once = λ n.
            ground
              (arith, v.once n, string_eq.beq_iff id n, count-keys_snoc n id parent s.dispatched);
        ours = λ n. ground (arith, v.ours n, count-keys_snoc n id parent s.dispatched);
      },
      λ n node ready out.
          ground
            (arith, w n node, string_eq.beq_iff id n, count-keys_snoc n id parent s.dispatched),
    )

    -- A node that waits needs no catching.
    waits-Keeps :
        (owed : NodeId → ℕ) (id : NodeId) (s : Scheduler V)
        → Balanced cg finished owed s
        → Caught cg (λ n. id == n) s
        → waits cg id s ≡ true
        → Keeps owed s
    waits-Keeps owed id s v w busy = (
      v,
      λ n node ready out. elim (Bool-cases (id == n)) [
        | inl same ↦ absurd (cc (ready, busy, (string_eq.beq_iff id n).0 same))
        | inr other ↦ w n node ready other
      ],
    )

    pub try_start-Catches : (now fuel : ℕ) → Catches (try_start cg now fuel)
    unfolding try_start skip
    try_start-Catches now zero owed id s t v w new h = absurd (cc h)
    try_start-Catches now (suc fuel) owed id s t v w new h =
        let first : contains id s.skipped ≡ false = ground (arith, contains-count id s.skipped) in
        elim (Bool-cases (waits cg id s)) [
          | inl busy ↦ end-Keeps owed s t (cc (h, first, busy)) (waits-Keeps owed id s v w busy)
          | inr free ↦ elim (Bool-cases (unreachable cg id s)) [
            | inl hopeless ↦
                flow_edges-Keeps (try_start cg now fuel) owed (is_condition cg id)
                  (edges_at id cg.out_edges) (record s { skipped = id ∷ s.skipped }) t
                  (try_start-Catches now fuel) (mark-Keeps owed id s v w new free)
                  (cc (h, first, free, hopeless))
            | inr ready ↦
                let parent = collect_predecessor_state cg now id s.node_states in
                end-Keeps owed (dispatch cg id parent s) t (cc (h, first, free, ready))
                  (dispatch-Keeps owed id parent s v w new free)
          ]
        ]

    pub finish_edges-Keeps :
        (now fuel : ℕ) (owed : NodeId → ℕ) (cond : Bool) (chosen : String) (es : List Edge)
        (s t : Scheduler V)
        → Keeps (λ n. into n es + owed n) s
        → finish_edges cg now fuel cond chosen es s ≡ some t
        → Keeps owed t
    unfolding finish_edges
    finish_edges-Keeps now fuel owed cond chosen [] s t v h =
        end-Keeps owed s t h (owed-Keeps (λ n. 0 + owed n) owed s (λ n. omega arith) v)
    finish_edges-Keeps now fuel owed cond chosen (e ∷ es) s t v h =
        elim (Option-cases (try_start cg now fuel e.to (finish_edge cg cond chosen e s))) [
          | inl stuck ↦ absurd (cc (h, stuck))
          | inr (u, found) ↦
              finish_edges-Keeps now fuel owed cond chosen es u t
                (lower-Keeps (try_start cg now fuel) (λ n. into n es + owed n) e s
                  (finish_edge cg cond chosen e s) u (try_start-Catches now fuel)
                  (finish_edge-Lowers cg cond chosen e s) (owed-Keeps _ _ s (λ n. omega arith) v)
                  found)
                (cc (h, found))
        ]
