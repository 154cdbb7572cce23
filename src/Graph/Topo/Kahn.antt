-- ===== src/Graph/Topo/Kahn.antt =====
-- The loop of the topological sort in graph/graph.go, its fuel and its invariant.
use mathlib.Core.List.{append_assoc, append-nil}
use gocel.Prelude.{
  subst, ℕ, zero, suc, ◌+◌, ◌≤◌, ◌<◌, ◌≡◌, refl, sym, ap, ◌∙◌, some, false, List, [], ◌∷◌, ◌++◌,
  arith, length, length-append, if◌then◌else◌, string_eq, count, count-append, contains,
  contains-count, total-count, total-le, nat_beq,
}
use gocel.Prelude.Int.{pos}
use gocel.Graph.Builder.{NodeId, Edge}
use gocel.Graph.Builder.Indexes.{leaving}
use gocel.Graph.Topo.{Degrees, relax, kahn}
use gocel.Graph.Topo.Relax.{into, pending, relax-count, pending-snoc}

-- Each node of the second list comes when no edge enters it from outside what comes before.
abbrev pub IsTopological : List Edge → List NodeId → List NodeId → Type 0
IsTopological edges before [] = Unit {0}
IsTopological edges before (v ∷ vs) =
    (pending edges before v ≡ 0) × IsTopological edges (before ++ v ∷ []) vs

IsTopological-snoc :
    (edges : List Edge) (before vs : List NodeId) (v : NodeId)
    → IsTopological edges before vs
    → pending edges (before ++ vs) v ≡ 0
    → IsTopological edges before (vs ++ v ∷ [])
IsTopological-snoc edges before [] v t h =
    (subst (λ (xs : List NodeId). pending edges xs v ≡ 0) (append-nil before) h, tt)
IsTopological-snoc edges before (w ∷ vs) v t h = (
  t.0,
  IsTopological-snoc edges (before ++ w ∷ []) vs v t.1 (
      subst (λ (xs : List NodeId). pending edges xs v ≡ 0) (sym (append_assoc before (w ∷ []) vs))
        h),
)

into-leaving : (u v : NodeId) (es : List Edge) → into v (leaving u es) ≤ into v es
into-leaving u v [] = omega arith
into-leaving u v (e ∷ es) = ground (arith, into-leaving u v es)

module _ (edges : List Edge) (ids : List NodeId) (out_of : NodeId → List Edge)
    (outs : (u : NodeId) → out_of u ≡ leaving u edges) (once : (v : NodeId) → count v ids ≤ 1)
    (targets : (v : NodeId) → 0 < into v edges → 0 < count v ids) where
  -- Between two turns: the in-degrees count the edges from nodes that are not in the order yet, and
  -- the nodes without such edges are in the queue or in the order, once.
  pub record LoopInv (degree : Degrees) (queue order : List NodeId) : Type 0 where
    pub degrees : (v : NodeId) → degree v ≡ pos (pending edges order v)
    pub ready :
        (v : NodeId)
        → count v order + count v queue
          ≡ (if nat_beq (pending edges order v) 0 then count v ids else 0)
    pub topological : IsTopological edges [] order

  turn-LoopInv :
      (degree : Degrees) (u : NodeId) (queue order : List NodeId)
      → LoopInv degree (u ∷ queue) order
      → let (degree', queue') = relax (out_of u) degree queue in
        LoopInv degree' queue' (order ++ u ∷ [])
  turn-LoopInv degree u queue order v =
      let fresh : contains u order ≡ false =
        ground (arith, contains-count u order, v.ready u, once u, string_eq.beq_iff u u) in
      let spent = λ (w : NodeId). pending-snoc edges order u w fresh in
      let out : (w : NodeId) → into w (out_of u) ≡ into w (leaving u edges) =
        λ w. ap (into w) (outs u) in
      let r = λ (w : NodeId).
        relax-count (out_of u) degree queue (pending edges order) v.degrees
          (λ x. omega (arith, spent x, out x)) w in
      record {
        degrees = λ w. (r w).0 ∙ ap pos (omega (arith, spent w, out w));
        ready = λ w. ground (
          arith,
          r w,
          spent w,
          out w,
          v.ready w,
          once w,
          targets w,
          into-leaving u w edges,
          count-append w order (u ∷ []),
        );
        topological =
            IsTopological-snoc edges [] order u v.topological
              (ground (arith, v.ready u, string_eq.beq_iff u u));
      }

  -- Every order that the loop builds has room among the nodes.
  room :
      (degree : Degrees) (u : NodeId) (queue order : List NodeId)
      → LoopInv degree (u ∷ queue) order
      → length order < length ids
  room degree u queue order v =
      let within : (w : NodeId) → count w (order ++ u ∷ []) ≤ count w ids =
        λ w. ground (arith, v.ready w, count-append w order (u ∷ [])) in
      omega (
        arith,
        total-count (order ++ u ∷ []) ids once (λ w h. omega (arith, within w)),
        total-le (λ w. count w (order ++ u ∷ [])) ids (λ w. omega (arith, within w, once w)),
        length-append order (u ∷ []),
      )

  -- With as much fuel as there are nodes left, the loop empties its queue.
  pub kahn-total :
      (fuel : ℕ) (degree : Degrees) (queue order : List NodeId)
      → length ids ≤ fuel + length order
      → LoopInv degree queue order
      → (order' : List NodeId) × (degree' : Degrees) × (kahn out_of fuel degree queue order
          ≡ some (order', degree'))
        × LoopInv degree' [] order'
  unfolding kahn
  kahn-total zero degree [] order h v = (order, degree, refl, v)
  kahn-total (suc fuel) degree [] order h v = (order, degree, refl, v)
  kahn-total zero degree (u ∷ queue) order h v = absurd (omega (arith, room degree u queue order v))
  kahn-total (suc fuel) degree (u ∷ queue) order h v =
      let (degree', queue') = relax (out_of u) degree queue in
      kahn-total fuel degree' queue' (order ++ u ∷ []) (omega (arith, length-append order (u ∷ [])))
        (turn-LoopInv degree u queue order v)
