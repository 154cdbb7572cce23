-- ===== src/Router/Tests.antt =====
-- modelrouter/modelrouter.go on three routes: no chat model, one that fails, one that answers. The
-- state counts the calls of models.
use gocel.Prelude.{arith, ◌<◌, ℕ, suc, ◌≡◌, ◌⊎◌, refl, List, [], ◌∷◌, Option, none, some, ok, err}
use gocel.Prelude.Int.{ℤ, pos}
use gocel.Router.{
  weight_of, Handler, Route, Failure, all_failed, pick_weighted, generate_priority,
  generate_round_robin, generate_weighted,
}
use gocel.Router.Choosing.{Share, total_weight, pick_weighted-Share}
use gocel.Router.Trying.{AllFail, Answered, generate_priority_lem}
use Prim.Native.Nat.{◌^◌, ◌%◌}

abbrev plain : Option (Handler ℕ ℕ ℕ) → ℤ → Route ℕ ℕ ℕ
plain chat weight = record {
  chat = chat;
  weight = weight;
  timeout = pos 0;
  circuit_breaker = none;
  rate_limiter = none;
}

abbrev mute : Route ℕ ℕ ℕ
mute = plain none (pos 0)

abbrev broken : Route ℕ ℕ ℕ
broken = plain (some (λ calls. (err 7, suc calls))) (pos 2)

abbrev good : Route ℕ ℕ ℕ
good = plain (some (λ calls. (ok 42, suc calls))) (pos 3)

abbrev no_timeout : ℕ → Handler ℕ ℕ ℕ → Handler ℕ ℕ ℕ
no_timeout ms h = h

falls_through : generate_priority no_timeout [] (mute ∷ broken ∷ good ∷ []) 0 ≡ (ok 42, 2)
unfolding generate_priority
falls_through = refl

turns : generate_round_robin no_timeout [] 1 (mute ∷ broken ∷ good ∷ []) 0 ≡ (ok 42, 1, 2)
unfolding generate_round_robin
turns = refl

weighs : generate_weighted no_timeout [] 2 (mute ∷ broken ∷ good ∷ []) 0 ≡ some (ok 42, 1, 3)
unfolding generate_weighted
weighs = refl

generate_priority_lem_example :
    ((a : ℕ) × (s' : ℕ) × (generate_priority no_timeout [] (mute ∷ broken ∷ good ∷ []) 0
        ≡ (ok a, s'))
      × Answered no_timeout [] 0 (mute ∷ broken ∷ good ∷ []) 0 a s')
    ⊎ ((errs : List (Failure ℕ)) × (s' : ℕ) × (generate_priority no_timeout []
            (mute ∷ broken ∷ good ∷ [])
            0
          ≡ (err (all_failed errs), s'))
        × AllFail no_timeout [] 0 (mute ∷ broken ∷ good ∷ []) 0 errs s')
generate_priority_lem_example = generate_priority_lem no_timeout [] mute (broken ∷ good ∷ []) 0

six : total_weight (mute ∷ broken ∷ good ∷ []) < 2 ^ 63
unfolding weight_of
six = omega arith

-- Four weights of 2^62 add up to 0.
abbrev heavy : Route ℕ ℕ ℕ
heavy = plain none (pos (2 ^ 62))

divides_by_zero : pick_weighted 0 (heavy ∷ heavy ∷ heavy ∷ heavy ∷ []) ≡ none
unfolding pick_weighted
divides_by_zero = refl

pick_weighted-Share_example :
    (i : ℕ) × (route : Route ℕ ℕ ℕ) × (pick_weighted 2 (mute ∷ broken ∷ good ∷ [])
      ≡ some (ok route, 3))
    × Share (mute ∷ broken ∷ good ∷ []) (3 % total_weight (mute ∷ broken ∷ good ∷ [])) i route
pick_weighted-Share_example = pick_weighted-Share 2 mute (broken ∷ good ∷ []) six
