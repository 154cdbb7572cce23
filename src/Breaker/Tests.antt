-- ===== src/Breaker/Tests.antt =====
-- The breaker on concrete histories.
use gocel.Breaker.Stream.{Received, chunk, broken, end_of_stream}
use gocel.Prelude.{ℕ, ◌≡◌, refl, List, [], ◌∷◌, arith, none, some}
use gocel.Prelude.Int.{pos}
use gocel.Breaker.{
  Breaker, Config, allows, fails, circuit_closed, circuit_open, new, run, step, allow,
  record_failure, circuit_error, reply_ok, generate,
}
use gocel.Breaker.Bounds.{Inv, run-new-Inv}

abbrev small : Config
small = record { max_failures = pos 2; reset_timeout = pos 10; half_open_max_calls = pos 3 }

abbrev fresh : Breaker
fresh = record {
  name = "llm";
  max_fail = pos 2;
  reset_after = pos 10;
  half_open_max = pos 3;
  state = circuit_closed;
  failures = pos 0;
  last_failure = 0;
  half_open_calls = pos 0;
}

new-small : new "llm" (some small) ≡ fresh
unfolding new
new-small = refl

new_bad :
    new "llm" (some (record small { max_failures = pos 0 })) ≡ record fresh { max_fail = pos 5 }
unfolding new
new_bad = refl

abbrev tripped : Breaker
tripped = record fresh { state = circuit_open; failures = pos 2; last_failure = 7 }

trip_by_hand : run (allows 3 ∷ fails 4 ∷ allows 5 ∷ fails 7 ∷ []) fresh ≡ tripped
unfolding run step allow record_failure
trip_by_hand = refl

generate_rejected :
    generate {R = ℕ} {E = ℕ} 8 9 (reply_ok 1) tripped ≡ (tripped, circuit_error "llm")
unfolding generate allow
generate_rejected = refl

run-new-Inv_example : Inv (run (allows 3 ∷ fails 4 ∷ fails 7 ∷ allows 30 ∷ []) (new "llm" none))
run-new-Inv_example = run-new-Inv "llm" none (allows 3 ∷ fails 4 ∷ fails 7 ∷ allows 30 ∷ [])

fresh-Inv : Inv fresh
fresh-Inv = ground arith

abbrev chunks : List (Received ℕ ℕ)
chunks = chunk 1 ∷ broken 7 ∷ end_of_stream ∷ []
