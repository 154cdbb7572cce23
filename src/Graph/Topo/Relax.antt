-- ===== src/Graph/Topo/Relax.antt =====
-- What one turn of the topological sort in graph/graph.go does to the in-degrees and the queue.
use gocel.Prelude.{
  contains-append, ℕ, ◌+◌, ◌-◌, ◌≤◌, ◌<◌, ◌≡◌, refl, false, List, [], ◌∷◌, ◌++◌, arith,
  if◌then◌else◌, ◌==◌, string_eq, count, count-append, contains, nat_beq, ltb,
}
use gocel.Prelude.Int.{pos, ◌-ℤ◌, beq_ℤ}
use gocel.Graph.Builder.{NodeId, Edge}
use gocel.Graph.Builder.Indexes.{leaving}
use gocel.Graph.Topo.{Degrees, decrement, relax}

-- How many of the edges enter a node.
abbrev pub into : NodeId → List Edge → ℕ
into v [] = 0
into v (e ∷ es) = (if e.to == v then 1 else 0) + into v es

-- How many edges enter `v` from outside `done`.
abbrev pub pending : List Edge → List NodeId → NodeId → ℕ
pending [] done v = 0
pending (e ∷ es) done v =
    (if e.to == v then (if contains e.from done then 0 else 1) else 0) + pending es done v

abbrev spend : NodeId → (NodeId → ℕ) → NodeId → ℕ
spend id k v = if id == v then k v - 1 else k v

decrement-spend :
    (id : NodeId) (degree : Degrees) (k : NodeId → ℕ)
    → ((v : NodeId) → degree v ≡ pos (k v))
    → 0 < k id
    → (v : NodeId) → decrement id degree v ≡ pos (spend id k v)
unfolding ◌-ℤ◌
decrement-spend id degree k d h v = ground (arith, d v, string_eq.beq_iff id v)

-- With `k v` edges left to each node, `relax` takes off the edges given, and queues a node once
-- if that takes off its last one.
pub relax-count :
    (es : List Edge) (degree : Degrees) (queue : List NodeId) (k : NodeId → ℕ)
    → ((v : NodeId) → degree v ≡ pos (k v))
    → ((v : NodeId) → into v es ≤ k v)
    → (v : NodeId)
    → let (degree', queue') = relax es degree queue in
      (degree' v ≡ pos (k v - into v es))
      × (count v queue'
          ≡ count v queue
            + (if ltb 0 (into v es) then (if nat_beq (into v es) (k v) then 1 else 0) else 0))
unfolding relax
relax-count [] degree queue k d h v = (ground (arith, d v), ground arith)
relax-count (e ∷ es) degree queue k d h v =
    let k' = spend e.to k in
    let d' =
      decrement-spend e.to degree k d (ground (arith, h e.to, string_eq.beq_iff e.to e.to)) in
    let queue' = if beq_ℤ (decrement e.to degree e.to) (pos 0) then queue ++ e.to ∷ [] else queue in
    let rest =
      relax-count es (decrement e.to degree) queue' k' d'
        (λ w. ground (arith, h w, string_eq.beq_iff e.to w)) v in
    ground (
      arith,
      rest,
      d' e.to,
      string_eq.beq_iff e.to v,
      string_eq.beq_iff e.to e.to,
      h v,
      count-append v queue (e.to ∷ []),
    )

-- Processing a node takes off exactly the edges that leave it.
pub pending-snoc :
    (es : List Edge) (done : List NodeId) (u v : NodeId)
    → contains u done ≡ false
    → pending es (done ++ u ∷ []) v + into v (leaving u es) ≡ pending es done v
pending-snoc [] done u v h = refl
pending-snoc (e ∷ es) done u v h = ground (
  arith,
  pending-snoc es done u v h,
  contains-append e.from done (u ∷ []),
  string_eq.beq_iff u e.from,
  string_eq.beq_iff e.from u,
)
