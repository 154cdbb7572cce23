-- ===== src/Graph/Scheduler/Running.antt =====
-- The counter `running` of graph/graph.go, and the goroutines that were started.
use gocel.Prelude.{
  ℕ, zero, suc, ◌+◌, ◌≤◌, ◌<◌, ◌≡◌, refl, subst, inl, inr, Bool, Option, some, some_inj, true,
  false, List, [], ◌∷◌, arith, Bool-cases, Option-cases, length, length-append, count, erase,
  length-erase, contains, contains-count, keys, string_eq, ◌==◌, if◌then◌else◌, String, insert,
}
use gocel.Prelude.Int.{pos, beq_ℤ}
use gocel.Graph.State.{GraphState}
use gocel.Graph.Builder.{NodeId, Edge, edges_at}
use gocel.Graph.Topo.{CompiledGraph}
use gocel.Graph.Scheduler.{
  Scheduler, dispatch, waits, unreachable, pass_edge, flow_edges, skip, try_start, is_condition,
  collect_predecessor_state, finish_edge, finish_edges, complete, node_finished, new_scheduler,
  start_entries, start_each,
}
use gocel.Graph.Topo.Compiling.{IsCompiled}
use gocel.Graph.Topo.Order.{IsOrder}
use gocel.Graph.Scheduler.Runs.{Runs, begins, reports, Runs-Keeps}

count-erase :
    (x n : NodeId) (xs : List NodeId)
    → contains x xs ≡ true
    → count n (erase x xs) + (if x == n then 1 else 0) ≡ count n xs
count-erase x n [] h = ground arith
count-erase x n (y ∷ ys) h =
    ground (
      arith,
      count-erase x n ys,
      string_eq.beq_iff y x,
      string_eq.beq_iff y n,
      string_eq.beq_iff x n,
    )

-- A list of as many elements, with none more often, has none less often.
pub same_counts :
    (xs ys : List NodeId)
    → ((n : NodeId) → count n xs ≤ count n ys)
    → length ys ≡ length xs
    → (n : NodeId) → count n ys ≤ count n xs
same_counts [] [] h l n = omega arith
same_counts [] (y ∷ ys) h l n = absurd (omega arith)
same_counts (x ∷ xs) ys h l n =
    let here : contains x ys ≡ true =
      ground (arith, h x, contains-count x ys, string_eq.beq_iff x x) in
    let less =
      same_counts xs (erase x ys) (λ k. ground (arith, h k, count-erase x k ys here))
        (omega (arith, length-erase x ys here)) n in
    ground (arith, less, count-erase x n ys here)

length_le : (xs ys : List NodeId) → ((n : NodeId) → count n xs ≤ count n ys) → length xs ≤ length ys
length_le [] ys h = omega arith
length_le (x ∷ xs) ys h =
    let here : contains x ys ≡ true =
      ground (arith, h x, contains-count x ys, string_eq.beq_iff x x) in
    omega (
      arith,
      length_le xs (erase x ys) (λ k. ground (arith, h k, count-erase x k ys here)),
      length-erase x ys here,
    )

length_lt :
    (xs ys : List NodeId) (id : NodeId)
    → ((n : NodeId) → count n xs ≤ count n ys)
    → count id xs < count id ys
    → length xs < length ys
length_lt xs ys id h new =
    let here : contains id ys ≡ true = ground (arith, contains-count id ys) in
    omega (
      arith,
      length_le xs (erase id ys)
          (λ n. ground (arith, h n, count-erase id n ys here, string_eq.beq_iff id n)),
      length-erase id ys here,
    )

length-keys : {A : Type 0} (xs : List (NodeId × A)) → length (keys xs) ≡ length xs
length-keys [] = refl
length-keys (x ∷ xs) = omega (arith, length-keys xs)

module _ {Work V : Type 0} (cg : CompiledGraph Work) where
  -- So many goroutines have reported; the others run.
  Tally : ℕ → Scheduler V → Type 0
  Tally reported s = s.running + reported ≡ length s.dispatched

  dispatch-Tally :
      (reported : ℕ) (id : NodeId) (parent : Option (GraphState V)) (s : Scheduler V)
      → Tally reported s
      → Tally reported (dispatch cg id parent s)
  unfolding Tally dispatch
  dispatch-Tally reported id parent s t =
      omega (arith, t, length-append s.dispatched ((id, parent) ∷ []))

  end-Tally :
      (reported : ℕ) (s t : Scheduler V) → some s ≡ some t → Tally reported s → Tally reported t
  end-Tally reported s t e = subst (Tally reported) (some_inj.0 e)

  pass_edge-Tally :
      (reported : ℕ) (cond : Bool) (e : Edge) (s : Scheduler V)
      → Tally reported s
      → Tally reported (pass_edge cg cond e s)
  unfolding Tally pass_edge
  pass_edge-Tally reported true e s t = t
  pass_edge-Tally reported false e s t = t

  finish_edge-Tally :
      (reported : ℕ) (cond : Bool) (chosen : String) (e : Edge) (s : Scheduler V)
      → Tally reported s
      → Tally reported (finish_edge cg cond chosen e s)
  unfolding Tally finish_edge
  finish_edge-Tally reported true chosen e s t = elim (Bool-cases (e.label == chosen)) [
    | inl hit ↦ rw hit t
    | inr miss ↦ rw miss t
  ]
  finish_edge-Tally reported false chosen e s t = t

  abbrev Tallies : ℕ → (NodeId → Scheduler V → Option (Scheduler V)) → Type 0
  Tallies reported attempt =
      (id : NodeId) (s t : Scheduler V)
      → attempt id s ≡ some t
      → Tally reported s
      → Tally reported t

  flow_edges-Tally :
      (reported : ℕ) (attempt : NodeId → Scheduler V → Option (Scheduler V)) (cond : Bool)
      (es : List Edge) (s t : Scheduler V)
      → Tallies reported attempt
      → flow_edges cg attempt cond es s ≡ some t
      → Tally reported s
      → Tally reported t
  unfolding flow_edges
  flow_edges-Tally reported attempt cond [] s t all h v = end-Tally reported s t h v
  flow_edges-Tally reported attempt cond (e ∷ es) s t all h v =
      elim (Option-cases (attempt e.to (pass_edge cg cond e s))) [
        | inl stuck ↦ absurd (cc (h, stuck))
        | inr (u, found) ↦
            flow_edges-Tally reported attempt cond es u t all (cc (h, found))
              (all e.to (pass_edge cg cond e s) u found (pass_edge-Tally reported cond e s v))
      ]

  skip-Tally :
      (reported : ℕ) (attempt : NodeId → Scheduler V → Option (Scheduler V))
      → Tallies reported attempt
      → Tallies reported (skip cg attempt)
  unfolding skip Tally
  skip-Tally reported attempt all id s t h v = elim (Bool-cases (contains id s.skipped)) [
    | inl again ↦ end-Tally reported s t (cc (h, again)) v
    | inr first ↦ elim (Bool-cases (waits cg id s)) [
      | inl waiting ↦ end-Tally reported s t (cc (h, first, waiting)) v
      | inr free ↦
          flow_edges-Tally reported attempt (is_condition cg id) (edges_at id cg.out_edges)
            (record s { skipped = id ∷ s.skipped }) t all (cc (h, first, free)) v
    ]
  ]

  try_start-Tally : (reported now fuel : ℕ) → Tallies reported (try_start cg now fuel)
  unfolding try_start
  try_start-Tally reported now zero id s t h v = absurd (cc h)
  try_start-Tally reported now (suc fuel) id s t h v = elim (Bool-cases (contains id s.skipped)) [
    | inl again ↦ end-Tally reported s t (cc (h, again)) v
    | inr first ↦ elim (Bool-cases (waits cg id s)) [
      | inl waiting ↦ end-Tally reported s t (cc (h, first, waiting)) v
      | inr free ↦ elim (Bool-cases (unreachable cg id s)) [
        | inl hopeless ↦
            skip-Tally reported (try_start cg now fuel) (try_start-Tally reported now fuel) id s t
              (cc (h, first, free, hopeless)) v
        | inr ready ↦
            let parent = collect_predecessor_state cg now id s.node_states in
            end-Tally reported (dispatch cg id parent s) t (cc (h, first, free, ready))
              (dispatch-Tally reported id parent s v)
      ]
    ]
  ]

  finish_edges-Tally :
      (reported now fuel : ℕ) (cond : Bool) (chosen : String) (es : List Edge) (s t : Scheduler V)
      → finish_edges cg now fuel cond chosen es s ≡ some t
      → Tally reported s
      → Tally reported t
  unfolding finish_edges
  finish_edges-Tally reported now fuel cond chosen [] s t h v = end-Tally reported s t h v
  finish_edges-Tally reported now fuel cond chosen (e ∷ es) s t h v =
      elim (Option-cases (try_start cg now fuel e.to (finish_edge cg cond chosen e s))) [
        | inl stuck ↦ absurd (cc (h, stuck))
        | inr (u, found) ↦ finish_edges-Tally reported now fuel cond chosen es u t (cc (h, found)) (
            try_start-Tally reported now fuel e.to (finish_edge cg cond chosen e s) u found
              (finish_edge-Tally reported cond chosen e s v))
      ]

  node_finished-Tally :
      (reported : ℕ) (as_string : V → Option String) (now fuel : ℕ) (id : NodeId)
      (state : GraphState V) (s t : Scheduler V)
      → node_finished cg as_string now fuel id state s ≡ some t
      → reported < length s.dispatched
      → Tally reported s
      → Tally (suc reported) t
  unfolding node_finished complete Tally
  node_finished-Tally reported as_string now fuel id state s t h more v =
      finish_edges-Tally (suc reported) now fuel _ _ (edges_at id cg.out_edges) _ t h
        (omega (arith, v, more))

  start_each-Tally :
      (initial : GraphState V) (ids : List NodeId) (s : Scheduler V)
      → Tally 0 s
      → Tally 0 (start_each cg initial ids s)
  unfolding start_each Tally
  start_each-Tally initial [] s v = v
  start_each-Tally initial (id ∷ ids) s v = elim (Bool-cases (beq_ℤ (cg.in_degree id) (pos 0))) [
    | inl entry ↦
        rw (entry, start_each)
          (start_each-Tally initial ids _ (
            dispatch-Tally 0 id (some initial)
              (record s { node_states = insert id initial s.node_states }) v))
    | inr inner ↦ rw (inner, start_each) (start_each-Tally initial ids s v)
  ]

  module _ (initial : GraphState V) (c : IsCompiled cg)
      (ordered : IsOrder cg.graph cg.topo_order) where
    Runs-Tally :
        {as_string : V → Option String} {fuel : ℕ} {finished : List NodeId} {s : Scheduler V}
        → Runs cg as_string fuel initial finished s
        → Tally (length finished) s
    unfolding start_entries new_scheduler Tally
    Runs-Tally begins = start_each-Tally initial cg.topo_order (new_scheduler cg) refl
    Runs-Tally (reports {finished = finished} {s = s} {t = t} now id state r new done) =
        node_finished-Tally (length finished) _ now _ id state s t done
          (omega (
            arith,
            length_lt finished (keys s.dispatched) id (Runs-Keeps cg initial c ordered r).0.ours
                new,
            length-keys s.dispatched,
          ))
          (Runs-Tally r)

    -- When none runs, each node that was started has reported.
    pub all_reported :
        {as_string : V → Option String} {fuel : ℕ} {finished : List NodeId} {s : Scheduler V}
        → Runs cg as_string fuel initial finished s
        → s.running ≡ 0
        → (n : NodeId) → count n (keys s.dispatched) ≤ count n finished
    unfolding Tally
    all_reported {finished = finished} {s} r quiet =
        same_counts finished (keys s.dispatched) (Runs-Keeps cg initial c ordered r).0.ours
          (omega (arith, Runs-Tally r, length-keys s.dispatched))
