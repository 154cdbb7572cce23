-- ===== src/Graph/Scheduler/Flow.antt =====
-- What a call of `tryStart` in graph/graph.go takes off the counters of the nodes.
use gocel.Prelude.{
  ap, if◌then◌else◌, subst, ℕ, zero, suc, ◌+◌, ◌≡◌, inl, inr, Option, some, Bool, true, false, List,
  [], ◌∷◌, arith, string_eq, contains, Bool-cases, Option-cases, some_inj,
}
use gocel.Prelude.Int.{pos, pos_part, neg_part, ◌≤ℤ◌, -ℤ_parts}
use gocel.Graph.State.{GraphState}
use gocel.Graph.Builder.{NodeId, Edge, edges_at}
use gocel.Graph.Topo.{CompiledGraph}
use gocel.Graph.Topo.Relax.{into}
use gocel.Graph.Scheduler.{
  Scheduler, is_condition, dispatch, waits, unreachable, pass_edge, flow_edges, skip, try_start,
  collect_predecessor_state,
}

module _ {Work : Type 0} (cg : CompiledGraph Work) where
  -- How many edges lead from the nodes of a list to `n`.
  abbrev pub flow : List NodeId → NodeId → ℕ
  flow [] n = 0
  flow (d ∷ ds) n = into n (edges_at d cg.out_edges) + flow ds n

  -- How many of them leave condition nodes.
  abbrev pub cond_flow : List NodeId → NodeId → ℕ
  cond_flow [] n = 0
  cond_flow (d ∷ ds) n =
      (if is_condition cg d then into n (edges_at d cg.out_edges) else 0) + cond_flow ds n

-- Edges into each node: all of them, and those that `cond_pending` counts.
abbrev pub Edges : Type 0
Edges = NodeId → ℕ × ℕ

abbrev pub no_edges : Edges
no_edges n = (0, 0)

abbrev pub edges : Bool → List Edge → Edges
edges cond es n = (into n es, if cond then into n es else 0)

abbrev pub both : Edges → Edges → Edges
both a b n = ((a n).0 + (b n).0, (a n).1 + (b n).1)

module _ {Work V : Type 0} (cg : CompiledGraph Work) where
  -- `t` comes from `s` by taking `more` edges into each node off the counters, beside those of the
  -- nodes that are newly skipped.
  pub record Flows (s t : Scheduler V) (more : Edges) : Type 0 where
    pub moved :
        (n : NodeId)
        → pos_part (t.remaining n)
            + pos_part (t.cond_pending n)
            + neg_part (s.remaining n)
            + neg_part (s.cond_pending n)
            + (more n).0
            + flow cg t.skipped n
          ≡ pos_part (s.remaining n)
            + pos_part (s.cond_pending n)
            + neg_part (t.remaining n)
            + neg_part (t.cond_pending n)
            + flow cg s.skipped n
    pub cond_moved :
        (n : NodeId)
        → pos_part (t.cond_pending n)
            + neg_part (s.cond_pending n)
            + (more n).1
            + cond_flow cg t.skipped n
          ≡ pos_part (s.cond_pending n) + neg_part (t.cond_pending n) + cond_flow cg s.skipped n
    pub remaining_falls : (n : NodeId) → t.remaining n ≤ℤ s.remaining n
    pub pending_falls : (n : NodeId) → t.cond_pending n ≤ℤ s.cond_pending n

  pub Flows-refl : (s : Scheduler V) → Flows s s no_edges
  Flows-refl s = record {
    moved = λ n. omega arith;
    cond_moved = λ n. omega arith;
    remaining_falls = λ n. omega arith;
    pending_falls = λ n. omega arith;
  }

  pub Flows-trans :
      (s t u : Scheduler V) (a b : Edges) → Flows s t a → Flows t u b → Flows s u (both a b)
  Flows-trans s t u a b f g = record {
    moved = λ n. omega (arith, f.moved n, g.moved n);
    cond_moved = λ n. omega (arith, f.cond_moved n, g.cond_moved n);
    remaining_falls = λ n. omega (arith, f.remaining_falls n, g.remaining_falls n);
    pending_falls = λ n. omega (arith, f.pending_falls n, g.pending_falls n);
  }

  pub pass_edge-Flows :
      (cond : Bool) (e : Edge) (s : Scheduler V)
      → Flows s (pass_edge cg cond e s) (edges cond (e ∷ []))
  unfolding pass_edge
  pass_edge-Flows true e s = record {
    moved = λ n. ground (arith, -ℤ_parts (s.cond_pending n) (pos 1));
    cond_moved = λ n. ground (arith, -ℤ_parts (s.cond_pending n) (pos 1));
    remaining_falls = λ n. omega arith;
    pending_falls = λ n. ground (arith, -ℤ_parts (s.cond_pending n) (pos 1));
  }
  pass_edge-Flows false e s = record {
    moved = λ n. ground (arith, -ℤ_parts (s.remaining n) (pos 1));
    cond_moved = λ n. ground (arith, -ℤ_parts (s.remaining n) (pos 1));
    remaining_falls = λ n. ground (arith, -ℤ_parts (s.remaining n) (pos 1));
    pending_falls = λ n. omega arith;
  }

  -- A function on schedulers that moves nothing but the edges of nodes that it skips.
  abbrev pub Neutral : (NodeId → Scheduler V → Option (Scheduler V)) → Type 0
  Neutral attempt = (id : NodeId) (s t : Scheduler V) → attempt id s ≡ some t → Flows s t no_edges

  pub Flows-more :
      (s t : Scheduler V) (a b : Edges) → ((n : NodeId) → a n ≡ b n) → Flows s t a → Flows s t b
  Flows-more s t a b same f = record {
    moved = λ n. omega (arith, f.moved n, ap (λ p. p.0) (same n));
    cond_moved = λ n. omega (arith, f.cond_moved n, ap (λ p. p.1) (same n));
    remaining_falls = f.remaining_falls;
    pending_falls = f.pending_falls;
  }

  pub Flows-end : (s t u : Scheduler V) (a : Edges) → some t ≡ some u → Flows s t a → Flows s u a
  Flows-end s t u a e = subst (λ r. Flows s r a) (some_inj.0 e)

  flow_edges-Flows :
      (attempt : NodeId → Scheduler V → Option (Scheduler V)) (cond : Bool) (es : List Edge)
      (s t : Scheduler V)
      → Neutral attempt
      → flow_edges cg attempt cond es s ≡ some t
      → Flows s t (edges cond es)
  unfolding flow_edges
  flow_edges-Flows attempt cond [] s t neutral h =
      Flows-more s t no_edges (edges cond []) (λ n. ground arith)
        (Flows-end s s t no_edges h (Flows-refl s))
  flow_edges-Flows attempt cond (e ∷ es) s t neutral h =
      elim (Option-cases (attempt e.to (pass_edge cg cond e s))) [
        | inl stuck ↦ absurd (cc (h, stuck))
        | inr (u, found) ↦
            let rest : flow_edges cg attempt cond es u ≡ some t = cc (h, found) in
            Flows-more s t _ _ (λ n. ground arith)
              (Flows-trans s u t _ _
                (Flows-trans s (pass_edge cg cond e s) u _ _ (pass_edge-Flows cond e s)
                  (neutral e.to (pass_edge cg cond e s) u found))
                (flow_edges-Flows attempt cond es u t neutral rest))
      ]

  -- A node is marked as skipped before its edges are taken off the counters.
  mark-Flows :
      (id : NodeId) (s t : Scheduler V)
      → Flows
          (record s { skipped = id ∷ s.skipped })
          t
          (edges (is_condition cg id) (edges_at id cg.out_edges))
      → Flows s t no_edges
  mark-Flows id s t f = record {
    moved = λ n. omega (arith, f.moved n);
    cond_moved = λ n. omega (arith, f.cond_moved n);
    remaining_falls = f.remaining_falls;
    pending_falls = f.pending_falls;
  }

  skip-Flows :
      (attempt : NodeId → Scheduler V → Option (Scheduler V)) (id : NodeId) (s t : Scheduler V)
      → Neutral attempt
      → skip cg attempt id s ≡ some t
      → Flows s t no_edges
  unfolding skip
  skip-Flows attempt id s t neutral h = elim (Bool-cases (contains id s.skipped)) [
    | inl again ↦ Flows-end s s t _ (cc (h, again)) (Flows-refl s)
    | inr first ↦ elim (Bool-cases (waits cg id s)) [
      | inl waiting ↦ Flows-end s s t _ (cc (h, first, waiting)) (Flows-refl s)
      | inr free ↦ mark-Flows id s t (
          flow_edges-Flows attempt (is_condition cg id) (edges_at id cg.out_edges)
            (record s { skipped = id ∷ s.skipped }) t neutral (cc (h, first, free)))
    ]
  ]

  pub dispatch-Flows :
      (id : NodeId) (parent : Option (GraphState V)) (s : Scheduler V)
      → Flows s (dispatch cg id parent s) no_edges
  unfolding dispatch
  dispatch-Flows id parent s = record {
    moved = λ n. omega arith;
    cond_moved = λ n. omega arith;
    remaining_falls = λ n. omega arith;
    pending_falls = λ n. omega arith;
  }

  pub try_start-Flows : (now fuel : ℕ) → Neutral (try_start cg now fuel)
  unfolding try_start
  try_start-Flows now zero id s t h = absurd (cc h)
  try_start-Flows now (suc fuel) id s t h = elim (Bool-cases (contains id s.skipped)) [
    | inl again ↦ Flows-end s s t _ (cc (h, again)) (Flows-refl s)
    | inr first ↦ elim (Bool-cases (waits cg id s)) [
      | inl waiting ↦ Flows-end s s t _ (cc (h, first, waiting)) (Flows-refl s)
      | inr free ↦ elim (Bool-cases (unreachable cg id s)) [
        | inl hopeless ↦
            skip-Flows (try_start cg now fuel) id s t (try_start-Flows now fuel)
              (cc (h, first, free, hopeless))
        | inr ready ↦
            Flows-end s (dispatch cg id (collect_predecessor_state cg now id s.node_states) s) t _
              (cc (h, first, free, ready)) (dispatch-Flows id _ s)
      ]
    ]
  ]
