-- ===== src/Router/Choosing.antt =====
-- modelrouter/modelrouter.go: which route `pickWeighted` picks.
use gocel.Prelude.{
  ◌∙◌, false, nat_beq, ap, ℕ, zero, suc, ◌+◌, ◌-◌, ◌≤◌, ◌<◌, ◌≡◌, refl, List, [], ◌∷◌, some,
  get_elem?, take, Bool-cases, inl, inr, arith, ok,
}
use gocel.Prelude.Int.{ℤ, pos, negsuc}
use gocel.Router.{Route, effective, weight_of, total_from, less_than, pick_at, pick_weighted}
use Prim.Native.Nat.{◌^◌, ◌%◌}
use native.Mathlib.Nat.{mod-lt}

effective-positive : (w : ℤ) → 0 < effective w
unfolding effective
effective-positive (pos zero) = omega arith
effective-positive (pos (suc n)) = omega arith
effective-positive (negsuc n) = omega arith

module _ {ℓ} {S E A : Type ℓ} where
  -- The sum of the weights, which may be more than an int holds.
  abbrev pub total_weight : List (Route S E A) → ℕ
  total_weight [] = 0
  total_weight (route ∷ routes) = weight_of route + total_weight routes

  -- The number n falls into the share of the route with the number i.
  abbrev pub Share : List (Route S E A) → ℕ → ℕ → Route S E A → Type ℓ
  Share routes n i route =
      (get_elem? routes i ≡ some route)
      × (total_weight (take i routes) ≤ n)
      × (n < total_weight (take i routes) + weight_of route)

  -- A sum that an int holds does not wrap around.
  total_from-total_weight :
      (total : ℕ) (routes : List (Route S E A))
      → total + total_weight routes < 2 ^ 63
      → total_from total routes ≡ total + total_weight routes
  unfolding total_from
  total_from-total_weight total [] h = omega arith
  total_from-total_weight total (route ∷ routes) h =
      let small : (total + weight_of route) % 2 ^ 64 ≡ total + weight_of route = omega arith in
      ap (λ n. total_from n routes) small
      ∙ total_from-total_weight (total + weight_of route) routes (omega arith)
      ∙ omega arith

  pick_at-Share :
      (n : ℕ) (routes : List (Route S E A))
      → n < total_weight routes
      → total_weight routes < 2 ^ 63
      → (i : ℕ) × (route : Route S E A) × (pick_at n routes ≡ some route) × Share routes n i route
  unfolding pick_at
  pick_at-Share n [] h fits = absurd (omega arith)
  pick_at-Share n (route ∷ routes) h fits = elim (Bool-cases (less_than n (weight_of route))) [
    | inl hit ↦ (0, route, rw (pick_at, hit) refl, (refl, omega arith, ground arith))
    | inr miss ↦
        let past : weight_of route ≤ n = ground arith in
        let (i, found, picked, (there, low, high)) =
          pick_at-Share (n - weight_of route) routes (omega arith) (omega arith) in
        (suc i, found, rw (pick_at, miss) picked, (there, omega arith, omega arith))
  ]

  total_weight-positive :
      (route : Route S E A) (routes : List (Route S E A)) → 0 < total_weight (route ∷ routes)
  unfolding weight_of
  total_weight-positive route routes =
      let one : 0 < effective route.weight = effective-positive route.weight in omega arith

  -- With a route or more, and weights whose sum is below 2^63, pickWeighted does not panic, counts
  -- its counter up by one modulo 2^64, and picks the route into whose share of the sum the counter
  -- falls.
  pub pick_weighted-Share :
      (counter : ℕ) (first : Route S E A) (rest : List (Route S E A))
      → total_weight (first ∷ rest) < 2 ^ 63
      → let routes = first ∷ rest in
        let next = (counter + 1) % 2 ^ 64 in
        (i : ℕ) × (route : Route S E A) × (pick_weighted counter routes ≡ some (ok route, next))
        × Share routes (next % total_weight routes) i route
  unfolding pick_weighted
  pick_weighted-Share counter first rest fits =
      let n = (counter + 1) % 2 ^ 64 in
      let total = total_weight (first ∷ rest) in
      let some_weight : 0 < total = total_weight-positive first rest in
      let sum : total_from 0 (first ∷ rest) ≡ total =
        total_from-total_weight 0 (first ∷ rest) (omega arith) ∙ omega arith in
      let nonzero : nat_beq total 0 ≡ false = ground arith in
      let (i, route, picked, share) =
        pick_at-Share (n % total) (first ∷ rest) (mod-lt n some_weight) fits in
      (i, route, rw (pick_weighted, sum, nonzero, picked) refl, share)
