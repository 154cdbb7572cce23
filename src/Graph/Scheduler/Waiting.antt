-- ===== src/Graph/Scheduler/Waiting.antt =====
-- What the nodes that the scheduler of graph/graph.go has started wait for.
use gocel.Prelude.{
  ℕ, zero, suc, ◌≡◌, refl, sym, ap, ◌∙◌, inl, inr, Option, some, Bool, true, false, ◌||◌, List, [],
  ◌∷◌, ◌++◌, arith, ◌==◌, string_eq, contains, Bool-cases, Option-cases, String, keys, some_inj,
  subst,
}
use gocel.Prelude.Int.{pos, ◌≤ℤ◌}
use gocel.Graph.State.{GraphState}
use gocel.Graph.Builder.{NodeId, Edge, edges_at}
use gocel.Graph.Topo.{CompiledGraph}
use gocel.Graph.Scheduler.{
  Scheduler, is_condition, dispatch, try_start, skip, flow_edges, pass_edge, waits, unreachable,
  finish_edge, finish_edges, complete, node_finished, run_results, collect_predecessor_state,
}
use gocel.Graph.Scheduler.Flow.{Edges, Flows, pass_edge-Flows}
use gocel.Graph.Scheduler.Conservation.{finish_edge-Flows}

keys-snoc :
    {A : Type 0} (n id : NodeId) (a : A) (xs : List (NodeId × A))
    → contains n (keys (xs ++ (id, a) ∷ [])) ≡ (contains n (keys xs) || id == n)
keys-snoc n id a [] = ground arith
keys-snoc n id a ((k, b) ∷ xs) = ground (arith, keys-snoc n id a xs)

module _ {Work V : Type 0} (cg : CompiledGraph Work) where
  -- The nodes that were started wait for nothing.
  abbrev pub Started : Scheduler V → Type 0
  Started s =
      (n : NodeId)
      → contains n (keys s.dispatched) ≡ true
      → (s.remaining n ≤ℤ pos 0) × (s.cond_pending n ≤ℤ pos 0)

  Flows-Started :
      (s t : Scheduler V) (a : Edges)
      → Flows cg s t a
      → t.dispatched ≡ s.dispatched
      → Started s
      → Started t
  Flows-Started s t a f same st n m =
      let before = st n (ap (λ d. contains n (keys d)) (sym same) ∙ m) in
      (omega (arith, f.remaining_falls n, before.0), omega (arith, f.pending_falls n, before.1))

  pub dispatch-Started :
      (id : NodeId) (parent : Option (GraphState V)) (s : Scheduler V)
      → waits cg id s ≡ false
      → Started s
      → Started (dispatch cg id parent s)
  unfolding dispatch
  dispatch-Started id parent s free st n m = elim (Bool-cases (contains n (keys s.dispatched))) [
    | inl before ↦ st n before
    | inr new ↦ (
      ground (arith, keys-snoc n id parent s.dispatched, string_eq.beq_iff id n),
      ground (arith, keys-snoc n id parent s.dispatched, string_eq.beq_iff id n),
    )
  ]

  abbrev Keeps : (NodeId → Scheduler V → Option (Scheduler V)) → Type 0
  Keeps attempt = (id : NodeId) (s t : Scheduler V) → attempt id s ≡ some t → Started s → Started t

  Started-end : (s t : Scheduler V) → some s ≡ some t → Started s → Started t
  Started-end s t e = subst Started (some_inj.0 e)

  pub pass_edge-skipped :
      (cond : Bool) (e : Edge) (s : Scheduler V) → (pass_edge cg cond e s).skipped ≡ s.skipped
  unfolding pass_edge
  pass_edge-skipped true e s = refl
  pass_edge-skipped false e s = refl

  pub finish_edge-skipped :
      (cond : Bool) (chosen : String) (e : Edge) (s : Scheduler V)
      → (finish_edge cg cond chosen e s).skipped ≡ s.skipped
  unfolding finish_edge
  finish_edge-skipped true chosen e s = ground arith
  finish_edge-skipped false chosen e s = refl

  pub pass_edge-dispatched :
      (cond : Bool) (e : Edge) (s : Scheduler V) → (pass_edge cg cond e s).dispatched ≡ s.dispatched
  unfolding pass_edge
  pass_edge-dispatched true e s = refl
  pass_edge-dispatched false e s = refl

  pass_edge-Started :
      (cond : Bool) (e : Edge) (s : Scheduler V) → Started s → Started (pass_edge cg cond e s)
  pass_edge-Started cond e s =
      Flows-Started s (pass_edge cg cond e s) _ (pass_edge-Flows cg cond e s)
        (pass_edge-dispatched cond e s)

  flow_edges-Started :
      (attempt : NodeId → Scheduler V → Option (Scheduler V)) (cond : Bool) (es : List Edge)
      (s t : Scheduler V)
      → Keeps attempt
      → flow_edges cg attempt cond es s ≡ some t
      → Started s
      → Started t
  unfolding flow_edges
  flow_edges-Started attempt cond [] s t keep h st = Started-end s t h st
  flow_edges-Started attempt cond (e ∷ es) s t keep h st =
      elim (Option-cases (attempt e.to (pass_edge cg cond e s))) [
        | inl stuck ↦ absurd (cc (h, stuck))
        | inr (u, found) ↦
            flow_edges-Started attempt cond es u t keep (cc (h, found))
              (keep e.to (pass_edge cg cond e s) u found (pass_edge-Started cond e s st))
      ]

  skip-Started :
      (attempt : NodeId → Scheduler V → Option (Scheduler V))
      → Keeps attempt
      → Keeps (skip cg attempt)
  unfolding skip
  skip-Started attempt keep id s t h st = elim (Bool-cases (contains id s.skipped)) [
    | inl again ↦ Started-end s t (cc (h, again)) st
    | inr first ↦ elim (Bool-cases (waits cg id s)) [
      | inl waiting ↦ Started-end s t (cc (h, first, waiting)) st
      | inr free ↦
          flow_edges-Started attempt (is_condition cg id) (edges_at id cg.out_edges)
            (record s { skipped = id ∷ s.skipped }) t keep (cc (h, first, free)) st
    ]
  ]

  try_start-Started : (now fuel : ℕ) → Keeps (try_start cg now fuel)
  unfolding try_start
  try_start-Started now zero id s t h st = absurd (cc h)
  try_start-Started now (suc fuel) id s t h st = elim (Bool-cases (contains id s.skipped)) [
    | inl again ↦ Started-end s t (cc (h, again)) st
    | inr first ↦ elim (Bool-cases (waits cg id s)) [
      | inl waiting ↦ Started-end s t (cc (h, first, waiting)) st
      | inr free ↦ elim (Bool-cases (unreachable cg id s)) [
        | inl hopeless ↦
            skip-Started (try_start cg now fuel) (try_start-Started now fuel) id s t
              (cc (h, first, free, hopeless)) st
        | inr ready ↦
            let parent = collect_predecessor_state cg now id s.node_states in
            Started-end (dispatch cg id parent s) t (cc (h, first, free, ready))
              (dispatch-Started id parent s free st)
      ]
    ]
  ]

  pub finish_edge-dispatched :
      (cond : Bool) (chosen : String) (e : Edge) (s : Scheduler V)
      → (finish_edge cg cond chosen e s).dispatched ≡ s.dispatched
  unfolding finish_edge
  finish_edge-dispatched true chosen e s = ground arith
  finish_edge-dispatched false chosen e s = refl

  finish_edges-Started :
      (now fuel : ℕ) (cond : Bool) (chosen : String) (es : List Edge) (s t : Scheduler V)
      → finish_edges cg now fuel cond chosen es s ≡ some t
      → Started s
      → Started t
  unfolding finish_edges
  finish_edges-Started now fuel cond chosen [] s t h st = Started-end s t h st
  finish_edges-Started now fuel cond chosen (e ∷ es) s t h st =
      let s' = finish_edge cg cond chosen e s in
      elim (Option-cases (try_start cg now fuel e.to (finish_edge cg cond chosen e s))) [
        | inl stuck ↦ absurd (cc (h, stuck))
        | inr (u, found) ↦ finish_edges-Started now fuel cond chosen es u t (cc (h, found)) (
            try_start-Started now fuel e.to s' u found (
              Flows-Started s s' _ (finish_edge-Flows cg cond chosen e s)
                (finish_edge-dispatched cond chosen e s) st))
      ]

  node_finished-Started :
      (as_string : V → Option String) (now fuel : ℕ) (id : NodeId) (state : GraphState V)
      (s t : Scheduler V)
      → node_finished cg as_string now fuel id state s ≡ some t
      → Started s
      → Started t
  unfolding node_finished complete
  node_finished-Started as_string now fuel id state s t h st =
      finish_edges-Started now fuel _ _ (edges_at id cg.out_edges) _ t h st

  pub run_results-Started :
      (as_string : V → Option String) (now fuel : ℕ) (results : List (NodeId × GraphState V))
      (s t : Scheduler V)
      → run_results cg as_string now fuel results s ≡ some t
      → Started s
      → Started t
  unfolding run_results
  run_results-Started as_string now fuel [] s t h st = Started-end s t h st
  run_results-Started as_string now fuel ((id, state) ∷ rest) s t h st =
      elim (Option-cases (node_finished cg as_string now fuel id state s)) [
        | inl stuck ↦ absurd (cc (h, stuck))
        | inr (u, found) ↦
            run_results-Started as_string now fuel rest u t (cc (h, found))
              (node_finished-Started as_string now fuel id state s u found st)
      ]
