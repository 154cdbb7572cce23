-- ===== src/Router.antt =====
-- modelrouter/modelrouter.go: routes to models. S is what handlers share and change: breakers,
-- limiters, the models themselves. `Generate` and `Stream` run the same code, over answers A that
-- are messages or streams. `with_timeout` stands for package context, in milliseconds. Race all, and the
-- switch on the strategy, are left out.
pub mod Choosing
pub mod Trying
mod Tests
use gocel.Prelude.{
  ◌||◌, nat_beq, leb, length, ℕ, zero, suc, ◌+◌, ◌-◌, Bool, true, false, List, [], ◌∷◌, ◌++◌,
  Option, none, some, get_elem?, ltb, if◌then◌else◌, Result, ok, err,
}
use gocel.Prelude.Int.{ℤ, pos, negsuc}
use Prim.Native.Nat.{◌^◌, ◌%◌}

abbrev pub Handler {ℓ} : Type ℓ → Type ℓ → Type ℓ → Type ℓ
Handler S E A = S → Result E A × S

-- `chat` is the model, where it implements ChatModel. A breaker and a limiter are what their
-- middlewares put around a handler.
pub record Route {ℓ} (S : Type ℓ) (E : Type ℓ) (A : Type ℓ) : Type ℓ where
  pub chat : Option (Handler S E A)
  pub weight : ℤ
  pub timeout : ℤ
  pub circuit_breaker : Option (Handler S E A → Handler S E A)
  pub rate_limiter : Option (Handler S E A → Handler S E A)

pub data Failure {ℓ} (E : Type ℓ) : Type ℓ where
  not_chat : Failure E
  model_failed : E → Failure E
  route_failed : ℕ → E → Failure E

pub data RouteError {ℓ} (E : Type ℓ) : Type ℓ where
  no_routes : RouteError E
  single : Failure E → RouteError E
  all_failed : List (Failure E) → RouteError E

-- A weight that is not positive counts as 1.
pub effective : ℤ → ℕ
effective (pos zero) = 1
effective (pos (suc n)) = suc n
effective (negsuc n) = 1

-- `n < w`, where a word n from 2^63 on is a negative int and w is positive.
abbrev pub less_than : ℕ → ℕ → Bool
less_than n w = leb (2 ^ 63) n || ltb n w

module _ {ℓ} {S E A : Type ℓ} where
  -- `kernel.Apply` on middlewares that are not nil.
  pub apply : List (Handler S E A → Handler S E A) → Handler S E A → Handler S E A
  apply [] h = h
  apply (mw ∷ mws) h = mw (apply mws h)

  pub around : Option (Handler S E A → Handler S E A) → Handler S E A → Handler S E A
  around none h = h
  around (some mw) h = mw h

  pub weight_of : Route S E A → ℕ
  unfolding effective
  weight_of route = effective route.weight

  -- The first loop of `pickWeighted`: `total` is an int, a word of 64 bits that wraps around.
  pub total_from : ℕ → List (Route S E A) → ℕ
  unfolding weight_of
  total_from total [] = total
  total_from total (route ∷ routes) = total_from ((total + weight_of route) % 2 ^ 64) routes

  -- The second loop of `pickWeighted`, on the number n.
  pub pick_at : ℕ → List (Route S E A) → Option (Route S E A)
  unfolding weight_of
  pick_at n [] = none
  pick_at n (route ∷ routes) =
      if less_than n (weight_of route) then some route else pick_at (n - weight_of route) routes

  -- `pickWeighted`, with the counter, a word of 64 bits; `none` is the panic of a division by 0.
  pub pick_weighted : ℕ → List (Route S E A) → Option (Result (RouteError E) (Route S E A) × ℕ)
  unfolding pick_at total_from
  pick_weighted counter [] = some (err no_routes, counter)
  pick_weighted counter (first ∷ rest) =
      let next = (counter + 1) % 2 ^ 64 in
      let total = total_from 0 (first ∷ rest) in
      if nat_beq total 0 then none else elim (pick_at (next % total) (first ∷ rest)) [
        | some route ↦ some (ok route, next)
        | none ↦ some (ok first, next)
      ]

  module _ (with_timeout : ℕ → Handler S E A → Handler S E A)
      (mws : List (Handler S E A → Handler S E A)) where
    pub timed : ℤ → Handler S E A → Handler S E A
    timed (pos zero) h = h
    timed (pos (suc n)) h = with_timeout (suc n) h
    timed (negsuc n) h = h

    pub apply_route_protection : Route S E A → Handler S E A → Handler S E A
    unfolding timed around apply
    apply_route_protection route h =
        apply mws (around route.rate_limiter (around route.circuit_breaker (timed route.timeout h)))

    -- The loop of `generatePriority`, from the route with the number i on.
    pub try_routes : ℕ → List (Route S E A) → List (Failure E) → S → Result (RouteError E) A × S
    unfolding apply_route_protection
    try_routes i [] errs s = (err (all_failed errs), s)
    try_routes i (route ∷ routes) errs s = elim route.chat [
      | none ↦ try_routes (suc i) routes (errs ++ not_chat ∷ []) s
      | some h ↦
          let (r, s') = apply_route_protection route h s in
          elim r [
            | ok a ↦ (ok a, s')
            | err e ↦ try_routes (suc i) routes (errs ++ route_failed i e ∷ []) s'
          ]
    ]

    pub generate_priority : List (Route S E A) → S → Result (RouteError E) A × S
    unfolding try_routes
    generate_priority [] s = (err no_routes, s)
    generate_priority (route ∷ routes) s = try_routes 0 (route ∷ routes) [] s

    -- `asChatModel`, and the call of the protected handler.
    pub call_route : Route S E A → S → Result (RouteError E) A × S
    unfolding apply_route_protection
    call_route route s = elim route.chat [
      | none ↦ (err (single not_chat), s)
      | some h ↦
          let (r, s') = apply_route_protection route h s in
          elim r [ ok a ↦ (ok a, s') | err e ↦ (err (single (model_failed e)), s') ]
    ]

    -- An index is below the number of routes, so that `none` does not come up.
    pub generate_round_robin : ℕ → List (Route S E A) → S → Result (RouteError E) A × S × ℕ
    unfolding call_route
    generate_round_robin counter [] s = (err no_routes, s, counter)
    generate_round_robin counter (first ∷ rest) s =
        let next = (counter + 1) % 2 ^ 64 in
        elim (get_elem? (first ∷ rest) (next % length (first ∷ rest))) [
          | none ↦ (err no_routes, s, next)
          | some route ↦ let (r, s') = call_route route s in (r, s', next)
        ]

    -- `none` is a panic.
    pub generate_weighted : ℕ → List (Route S E A) → S → Option (Result (RouteError E) A × S × ℕ)
    unfolding pick_weighted call_route
    generate_weighted counter routes s = elim (pick_weighted counter routes) [
      | none ↦ none
      | some answer ↦
          let (picked, next) = answer in
          elim picked [
            | err e ↦ some (err e, s, next)
            | ok route ↦ let (r, s') = call_route route s in some (r, s', next)
          ]
    ]
