-- ===== src/Errors/Verdicts.antt =====
-- Which errors of core/kernel are worth another attempt: IsRetryableError over chains of errors.
use gocel.Prelude.{
  arith, ◌≡◌, refl, Bool, true, false, not, ◌&&◌, ◌||◌, String, string_eq, ◌==◌, ℕ, if◌then◌else◌,
}
use gocel.Errors.{
  Error, nil, sentinel, message, wrapped, not_found_error, input_error, step_error, stream_failure,
  protocol_failure, middleware_failure, agent_error, tool_error, model_error, circuit_error,
  rate_limit_error, is_nil, unwrap, chain, is_target, find_as, agent_not_found, tool_not_found,
  model_not_found, session_not_found, checkpoint_not_found, registry_not_found,
}
use gocel.Errors.Making.{
  new_not_found_error, new_model_error, new_circuit_error, new_rate_limit_error,
  resolve_not_found_cause,
}
use gocel.Errors.Kinds.{
  is_cancelled, is_retryable, is_model_error, is_rate_limit_error, is_circuit_error, is_input_error,
  is_not_found, is_not_found_error, is_retryable_error,
}

-- Errors that say nothing of their own about another attempt.
abbrev pub IsPlain : Error → Type 0
IsPlain nil = ⊥
IsPlain (sentinel s) = ⊥
IsPlain (message text) = ⊥
IsPlain (wrapped text cause) = Unit {0}
IsPlain (not_found_error kind key cause) = Unit {0}
IsPlain (input_error field text cause) = ⊥
IsPlain (step_error kind limit actual agent_name cause) = Unit {0}
IsPlain (stream_failure op text cause) = Unit {0}
IsPlain (protocol_failure protocol op text cause) = Unit {0}
IsPlain (middleware_failure name op text cause) = Unit {0}
IsPlain (agent_error code agent step text cause) = Unit {0}
IsPlain (tool_error code tool args text cause) = Unit {0}
IsPlain (model_error code model text retryable cause) = ⊥
IsPlain (circuit_error route text) = ⊥
IsPlain (rate_limit_error route retry_after text) = ⊥

-- An error of package fmt, or of the not-found, step, stream, protocol, middleware, agent or tool
-- type, around a cause is worth another attempt if and only if the cause is.
pub retryable-unwrap :
    (e : Error)
    → IsPlain e
    → is_nil (unwrap e) ≡ false
    → is_retryable_error e ≡ is_retryable_error (unwrap e)
unfolding unwrap chain is_target find_as is_cancelled is_retryable is_model_error
    is_rate_limit_error is_circuit_error is_input_error is_not_found is_retryable_error
retryable-unwrap nil p h = elim p [ ]
retryable-unwrap (sentinel s) p h = elim p [ ]
retryable-unwrap (message text) p h = elim p [ ]
retryable-unwrap (input_error field text cause) p h = elim p [ ]
retryable-unwrap (model_error code model text retryable cause) p h = elim p [ ]
retryable-unwrap (circuit_error route text) p h = elim p [ ]
retryable-unwrap (rate_limit_error route retry_after text) p h = elim p [ ]
retryable-unwrap (wrapped text cause) p h = rw h refl
retryable-unwrap (not_found_error kind key cause) p h = rw h refl
retryable-unwrap (step_error kind limit actual agent_name cause) p h = rw h refl
retryable-unwrap (stream_failure op text cause) p h = rw h refl
retryable-unwrap (protocol_failure protocol op text cause) p h = rw h refl
retryable-unwrap (middleware_failure name op text cause) p h = rw h refl
retryable-unwrap (agent_error code agent step text cause) p h = rw h refl
retryable-unwrap (tool_error code tool args text cause) p h = rw h refl

-- The kinds of resolveNotFoundCause one by one, as the outcomes of its tests.
missing :
    (kind key other : String) (a t m s c r : Bool)
    → let e = not_found_error kind key (
        if a
        then sentinel agent_not_found
        else if t
        then sentinel tool_not_found
        else if m
        then sentinel model_not_found
        else if s
        then sentinel session_not_found
        else if c
        then sentinel checkpoint_not_found
        else if r
        then sentinel registry_not_found
        else message other) in
      let known = a || t || m || s || c || r in
      (is_not_found e ≡ known) × (is_retryable_error e ≡ not known)
unfolding unwrap chain is_target find_as is_cancelled is_retryable is_model_error
    is_rate_limit_error is_circuit_error is_input_error is_not_found is_retryable_error
missing kind key other true t m s c r = (refl, refl)
missing kind key other false true m s c r = (refl, refl)
missing kind key other false false true s c r = (refl, refl)
missing kind key other false false false true c r = (refl, refl)
missing kind key other false false false false true r = (refl, refl)
missing kind key other false false false false false true = (refl, refl)
missing kind key other false false false false false false = (refl, refl)

abbrev pub known_kind : String → Bool
known_kind kind =
    kind == "agent"
    || kind == "tool"
    || kind == "model"
    || kind == "session"
    || kind == "checkpoint"
    || kind == "registry"

-- A not-found error is one by its type, whatever its kind. By its cause it is one if its kind is
-- agent, tool, model, session, checkpoint or registry, and only then is it not retried.
pub new_not_found_error_lem :
    (kind key : String)
    → (is_not_found_error (new_not_found_error kind key) ≡ true)
      × (is_not_found (new_not_found_error kind key) ≡ known_kind kind)
      × (is_retryable_error (new_not_found_error kind key) ≡ not (known_kind kind))
unfolding chain find_as is_not_found_error new_not_found_error resolve_not_found_cause
new_not_found_error_lem kind key =
    let (found, retried) =
      missing kind key _ (kind == "agent") (kind == "tool") (kind == "model") (kind == "session")
        (kind == "checkpoint") (kind == "registry") in
    (refl, found, retried)

-- A model error that is not a cancellation is retried if and only if it was made as retryable; a
-- cancellation, and an error of an open circuit, is never retried; one of a rate limit always is.
pub declared_verdicts :
    (model route text : String) (cause : Error) (retryable : Bool) (seconds : ℕ)
    → (is_retryable_error (new_model_error model cause retryable text)
        ≡ (not (is_cancelled cause) && retryable))
      × (is_retryable_error (new_circuit_error route text) ≡ false)
      × (is_retryable_error (new_rate_limit_error route seconds text) ≡ true)
unfolding unwrap chain is_target find_as is_cancelled is_retryable is_model_error
    is_rate_limit_error is_circuit_error is_input_error is_not_found is_retryable_error
    new_model_error new_circuit_error new_rate_limit_error
declared_verdicts model route text cause retryable seconds = (ground arith, refl, refl)
