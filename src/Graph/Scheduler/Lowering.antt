-- ===== src/Graph/Scheduler/Lowering.antt =====
-- The invariants of a run of graph/graph.go, and the steps that take one edge off.
-- taken off, the nodes that were started or skipped, and the nodes that wait.
use gocel.Prelude.{
  ℕ, ◌+◌, ◌≤◌, ◌<◌, ◌≡◌, Bool, true, false, List, [], ◌∷◌, ◌++◌, arith, string_eq, String, count,
  keys, ◌==◌, if◌then◌else◌,
}
use gocel.Prelude.Int.{pos, pos_part, neg_part, ◌≤ℤ◌}
use gocel.Graph.Builder.{NodeId, Edge}
use gocel.Graph.Topo.{CompiledGraph}
use gocel.Graph.Topo.Relax.{pending}
use gocel.Graph.Scheduler.{Scheduler, waits, pass_edge, finish_edge}
use gocel.Graph.Scheduler.Flow.{edges, flow, Flows, pass_edge-Flows}
use gocel.Graph.Scheduler.Conservation.{finish_edge-Flows}
use gocel.Graph.Scheduler.Waiting.{
  pass_edge-dispatched, finish_edge-dispatched, pass_edge-skipped, finish_edge-skipped,
}

pub count-keys_snoc :
    {A : Type 0} (n id : NodeId) (a : A) (xs : List (NodeId × A))
    → count n (keys (xs ++ (id, a) ∷ [])) ≡ count n (keys xs) + (if id == n then 1 else 0)
count-keys_snoc n id a [] = ground arith
count-keys_snoc n id a ((k, b) ∷ xs) = ground (arith, count-keys_snoc n id a xs)

abbrev pub nobody : NodeId → Bool
nobody n = false

module _ {V : Type 0} where
  -- How often a node was started or skipped.
  abbrev pub taken : NodeId → Scheduler V → ℕ
  taken n s = count n (keys s.dispatched) + count n s.skipped

module _ {Work V : Type 0} (cg : CompiledGraph Work) where
  -- `finished` are the nodes whose edges flow or have flown; `owed` counts the edges of those, and of
  -- skipped nodes, that are still to be taken off.
  pub record Balanced (finished : List NodeId) (owed : NodeId → ℕ) (s : Scheduler V) : Type 0 where
    pub balance :
        (n : NodeId)
        → pos_part (s.remaining n)
            + pos_part (s.cond_pending n)
            + flow cg finished n
            + flow cg s.skipped n
          ≡ neg_part (s.remaining n)
            + neg_part (s.cond_pending n)
            + pending cg.graph.edges [] n
            + owed n
    pub settled :
        (n : NodeId) → 0 < taken n s → (s.remaining n ≤ℤ pos 0) × (s.cond_pending n ≤ℤ pos 0)
    pub once : (n : NodeId) → taken n s ≤ 1
    pub ours : (n : NodeId) → count n finished ≤ count n (keys s.dispatched)

  -- Each node that waits for nothing was started or skipped, but for those that `exempt` names.
  abbrev pub Caught : (NodeId → Bool) → Scheduler V → Type 0
  Caught exempt s =
      (n : NodeId)
      → 0 < count n (keys cg.graph.nodes)
      → waits cg n s ≡ false
      → exempt n ≡ false
      → 0 < taken n s

  -- What a step that takes one edge off does.
  pub record Lowers (e : Edge) (s t : Scheduler V) : Type 0 where
    pub cond : Bool
    pub flows : Flows cg s t (edges cond (e ∷ []))
    pub same_skipped : t.skipped ≡ s.skipped
    pub same_started : t.dispatched ≡ s.dispatched
    pub same_remaining : (n : NodeId) → (e.to == n) ≡ false → t.remaining n ≡ s.remaining n
    pub same_pending : (n : NodeId) → (e.to == n) ≡ false → t.cond_pending n ≡ s.cond_pending n

  pass_edge-others :
      (cond : Bool) (e : Edge) (s : Scheduler V) (n : NodeId)
      → (e.to == n) ≡ false
      → ((pass_edge cg cond e s).remaining n ≡ s.remaining n)
        × ((pass_edge cg cond e s).cond_pending n ≡ s.cond_pending n)
  unfolding pass_edge
  pass_edge-others true e s n h = ground arith
  pass_edge-others false e s n h = ground arith

  finish_edge-others :
      (cond : Bool) (chosen : String) (e : Edge) (s : Scheduler V) (n : NodeId)
      → (e.to == n) ≡ false
      → ((finish_edge cg cond chosen e s).remaining n ≡ s.remaining n)
        × ((finish_edge cg cond chosen e s).cond_pending n ≡ s.cond_pending n)
  unfolding finish_edge
  finish_edge-others true chosen e s n h = ground arith
  finish_edge-others false chosen e s n h = ground arith

  pub pass_edge-Lowers :
      (cond : Bool) (e : Edge) (s : Scheduler V) → Lowers e s (pass_edge cg cond e s)
  pass_edge-Lowers cond e s = record {
    cond = cond;
    flows = pass_edge-Flows cg cond e s;
    same_skipped = pass_edge-skipped cg cond e s;
    same_started = pass_edge-dispatched cg cond e s;
    same_remaining = λ n h. (pass_edge-others cond e s n h).0;
    same_pending = λ n h. (pass_edge-others cond e s n h).1;
  }

  pub finish_edge-Lowers :
      (cond : Bool) (chosen : String) (e : Edge) (s : Scheduler V)
      → Lowers e s (finish_edge cg cond chosen e s)
  finish_edge-Lowers cond chosen e s = record {
    cond = cond;
    flows = finish_edge-Flows cg cond chosen e s;
    same_skipped = finish_edge-skipped cg cond chosen e s;
    same_started = finish_edge-dispatched cg cond chosen e s;
    same_remaining = λ n h. (finish_edge-others cond chosen e s n h).0;
    same_pending = λ n h. (finish_edge-others cond chosen e s n h).1;
  }
