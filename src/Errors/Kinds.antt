-- ===== src/Errors/Kinds.antt =====
-- The predicates of core/kernel/errors.go, and IsRetryableError of core/kernel/hooks.go.
use gocel.Prelude.{
  ℕ, Bool, true, false, ◌||◌, String, Option, none, some, string_eq, ◌==◌, if◌then◌else◌,
}
use gocel.Errors.{
  Error, not_found_error, input_error, agent_error, model_error, circuit_error, rate_limit_error,
  agent_not_found, tool_not_found, model_not_found, session_not_found, checkpoint_not_found,
  registry_not_found, canceled, deadline_exceeded, ErrorCode, code_string, is_nil, is_target,
  find_as,
}

abbrev found : {A : Type 0} → Option A → Bool
found none = false
found (some a) = true

-- What the types of errors.go that are looked for are read for.
abbrev pub model_verdict : Error → Option Bool
model_verdict (model_error code model text retryable cause) = some retryable
model_verdict _ = none

abbrev pub not_found_kind : Error → Option String
not_found_kind (not_found_error kind key cause) = some kind
not_found_kind _ = none

abbrev pub input_field : Error → Option String
input_field (input_error field text cause) = some field
input_field _ = none

abbrev pub circuit_route : Error → Option String
circuit_route (circuit_error route text) = some route
circuit_route _ = none

abbrev pub limit_seconds : Error → Option ℕ
limit_seconds (rate_limit_error route retry_after text) = some retry_after
limit_seconds _ = none

abbrev pub agent_code : Error → Option ErrorCode
agent_code (agent_error code agent step text cause) = some code
agent_code _ = none

unfoldable pub is_not_found_error : Error → Bool
unfolding find_as
is_not_found_error e = found (find_as not_found_kind e)

unfoldable pub is_input_error : Error → Bool
unfolding find_as
is_input_error e = found (find_as input_field e)

unfoldable pub is_circuit_error : Error → Bool
unfolding find_as
is_circuit_error e = found (find_as circuit_route e)

unfoldable pub is_rate_limit_error : Error → Bool
unfolding find_as
is_rate_limit_error e = found (find_as limit_seconds e)

unfoldable pub is_model_error : Error → Bool
unfolding find_as
is_model_error e = found (find_as model_verdict e)

unfoldable pub is_error_code : Error → ErrorCode → Bool
unfolding find_as code_string
is_error_code e code = elim (find_as agent_code e) [
  | none ↦ false
  | some c ↦ code_string c == code_string code
]

unfoldable pub is_retryable : Error → Bool
unfolding find_as
is_retryable e = elim (find_as model_verdict e) [ none ↦ false | some retryable ↦ retryable ]

unfoldable pub is_not_found : Error → Bool
unfolding is_target
is_not_found e =
    is_target agent_not_found e
    || is_target tool_not_found e
    || is_target model_not_found e
    || is_target session_not_found e
    || is_target checkpoint_not_found e
    || is_target registry_not_found e

unfoldable pub is_cancelled : Error → Bool
unfolding is_target
is_cancelled e = is_target canceled e || is_target deadline_exceeded e

-- The test for cancellation is written out in hooks.go, as `is_cancelled` has it.
unfoldable pub is_retryable_error : Error → Bool
unfolding is_cancelled is_retryable is_model_error is_rate_limit_error is_circuit_error
    is_input_error is_not_found
is_retryable_error e =
    if is_nil e
    then false
    else if is_cancelled e
    then false
    else if is_retryable e
    then true
    else if is_model_error e
    then false
    else if is_rate_limit_error e
    then true
    else if is_circuit_error e
    then false
    else if is_input_error e || is_not_found e
    then false
    else true
