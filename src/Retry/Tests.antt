-- ===== src/Retry/Tests.antt =====
-- A model that is overloaded twice and then answers, and one that never answers.
use gocel.Prelude.{
  ◌⊎◌, ◌+◌, ℕ, zero, suc, ◌≤◌, ◌<◌, ◌≡◌, refl, true, false, String, Option, none, some, [], ◌∷◌,
  arith,
}
use gocel.Prelude.Int.{ℤ, pos}
use gocel.Errors.{Error, nil, rate_limit_error, chain, is_target, find_as}
use gocel.Errors.Kinds.{
  is_retryable_error, is_cancelled, is_model_error, is_rate_limit_error, is_circuit_error,
  is_input_error, is_not_found,
}
use gocel.Retry.{
  Middleware, Outcome, answered, failed, default_middleware, wrap_generate, attempts, delay_for,
  backoff, provider_retry_after, is_retryable, exhausted,
}
use gocel.Retry.Backoff.{delay_for_bounds}
use gocel.Retry.Attempts.{Gives, Within, gave_up, attempts-total, gives_up}

abbrev two_retries : Middleware
two_retries = record default_middleware { max_retries = pos 2 }

abbrev overloaded : Error
overloaded = rate_limit_error "chat" 7 "slow down"

-- A jitter that adds three seconds.
abbrev three_seconds_more : ℕ → ℕ → ℕ
three_seconds_more attempt d = d + 3_000_000_000

delay_for_bounds_example :
    let wait = delay_for three_seconds_more two_retries 60 overloaded in
    let delay = backoff two_retries 60 in
    ((0 < wait) × (wait ≤ two_retries.max_delay))
    ⊎ ((0 < delay)
        × (delay ≤ two_retries.max_delay)
        × (delay ≤ wait + 3_000_000_000)
        × (wait ≤ delay + 3_000_000_000))
unfolding default_middleware
delay_for_bounds_example =
    delay_for_bounds three_seconds_more two_retries 60 3_000_000_000 overloaded (omega arith)
      (omega arith) (omega arith) (λ d h. (omega arith, omega arith))

four_seconds : backoff two_retries 3 ≡ 4_000_000_000
unfolding default_middleware backoff
four_seconds = refl

abbrev recovers : ℕ → Outcome String
recovers zero = failed overloaded
recovers (suc zero) = failed overloaded
recovers (suc (suc k)) = answered "hello"

abbrev down : ℕ → Outcome String
down k = failed overloaded

abbrev patient : ℕ → Option Error
patient k = none

abbrev steady : ℕ → ℕ → ℕ
steady attempt delay = delay

abbrev plain : ℤ → String
plain n = "3"

two_waits :
    wrap_generate plain patient steady recovers two_retries 3
    ≡ some (record {
      outcome = answered "hello";
      calls = 3;
      waits = 7_000_000_000 ∷ 7_000_000_000 ∷ [];
    })
unfolding default_middleware is_retryable is_retryable_error chain is_target find_as is_cancelled
    is_model_error is_rate_limit_error is_circuit_error is_input_error is_not_found wrap_generate
    attempts delay_for provider_retry_after
two_waits = refl

overloaded_retried : is_retryable overloaded ≡ true
unfolding default_middleware is_retryable is_retryable_error chain is_target find_as is_cancelled
    is_model_error is_rate_limit_error is_circuit_error is_input_error is_not_found
overloaded_retried = refl

abbrev Again : ℕ → Type 0
Again i =
    (e : Error) × (recovers i ≡ failed e)
    × (is_retryable e ≡ true)
    × (exhausted two_retries.mode two_retries.max_retries i ≡ false)

first_two : (i : ℕ) → i < 2 → Again i
unfolding default_middleware
first_two zero h = (overloaded, refl, overloaded_retried, refl)
first_two (suc zero) h = (overloaded, refl, overloaded_retried, refl)
first_two (suc (suc k)) h = absurd (omega arith)

attempts-total_example :
    Within 3 2 (attempts plain patient steady down two_retries "retry: " 3 0 nil)
unfolding default_middleware
attempts-total_example =
    attempts-total plain patient steady down two_retries "retry: " 2 3 refl refl (omega arith)

gives_up_example :
    Gives
      (failed (gave_up plain patient steady down two_retries "retry: " overloaded))
      3
      (attempts plain patient steady down two_retries "retry: " 3 0 nil)
unfolding default_middleware
gives_up_example =
    gives_up plain patient steady down two_retries "retry: " 2 3 overloaded refl refl
      (λ i h. (overloaded, refl, overloaded_retried)) (λ i h l. refl) refl overloaded_retried
      (omega arith)
