-- ===== src/Graph/Scheduler/Draining.antt =====
-- `drainResults` of graph/graph.go: what is in the channel is taken, and nothing is waited for.
use gocel.Prelude.{
  ℕ, zero, suc, ◌-◌, ◌≡◌, refl, Option, none, some, List, [], ◌∷◌, length, take, arith, ◌∙◌,
}
use gocel.Graph.State.{GraphState}
use gocel.Graph.Builder.{NodeId}

pub record NodeResult (V E : Type 0) : Type 0 where
  pub id : NodeId
  pub state : Option (GraphState V)
  pub failure : Option E

-- The variables of `runLoop` that it works on.
pub record Drain (V E : Type 0) : Type 0 where
  pub running : ℕ
  pub first_err : Option E
  pub final_state : Option (GraphState V)

-- The first of two that is not nil.
abbrev pub or_else : {A : Type 0} → Option A → Option A → Option A
or_else none later = later
or_else (some a) later = some a

or_else_assoc : {A : Type 0} (a b c : Option A) → or_else (or_else a b) c ≡ or_else a (or_else b c)
or_else_assoc none b c = refl
or_else_assoc (some a) b c = refl

or_else-none : {A : Type 0} (a : Option A) → a ≡ or_else a none
or_else-none none = refl
or_else-none (some a) = refl

module _ {V E : Type 0} where
  pub absorb : NodeResult V E → Drain V E → Drain V E
  absorb res d = record {
    running = d.running - 1;
    first_err = or_else d.first_err res.failure;
    final_state = or_else d.final_state res.state;
  }

  drain_left : ℕ → List (NodeResult V E) → Drain V E → Drain V E
  unfolding absorb
  drain_left left [] d = d
  drain_left zero (res ∷ buffered) d = d
  drain_left (suc left) (res ∷ buffered) d = drain_left left buffered (absorb res d)

  -- `buffered` are the results in the channel, in their order.
  pub drain_results : List (NodeResult V E) → Drain V E → Drain V E
  unfolding drain_left
  drain_results buffered d = drain_left d.running buffered d

  abbrev pub first_failure : List (NodeResult V E) → Option E
  first_failure [] = none
  first_failure (res ∷ rest) = or_else res.failure (first_failure rest)

  drain_left_lem :
      (left : ℕ) (buffered : List (NodeResult V E)) (d : Drain V E)
      → d.running ≡ left
      → ((drain_left left buffered d).running ≡ left - length buffered)
        × ((drain_left left buffered d).first_err
            ≡ or_else d.first_err (first_failure (take left buffered)))
  unfolding drain_left absorb
  drain_left_lem zero [] d h = (omega (arith, h), or_else-none d.first_err)
  drain_left_lem (suc left) [] d h = (omega (arith, h), or_else-none d.first_err)
  drain_left_lem zero (res ∷ buffered) d h = (omega (arith, h), or_else-none d.first_err)
  drain_left_lem (suc left) (res ∷ buffered) d h =
      let (count, found) = drain_left_lem left buffered (absorb res d) (omega (arith, h)) in
      (
        omega (arith, count),
        found ∙ or_else_assoc d.first_err res.failure (first_failure (take left buffered)),
      )

  -- Draining takes as many results as are there and still awaited, and the error it leaves is the one
  -- from before, or else the first among the results that it took.
  pub drain_results_lem :
      (buffered : List (NodeResult V E)) (d : Drain V E)
      → ((drain_results buffered d).running ≡ d.running - length buffered)
        × ((drain_results buffered d).first_err
            ≡ or_else d.first_err (first_failure (take d.running buffered)))
  unfolding drain_results
  drain_results_lem buffered d = drain_left_lem d.running buffered d refl
