-- ===== src/Errors.antt =====
-- core/kernel/errors.go: error values and their chains of causes. The type of an error value is
-- a constructor, the error that `Unwrap` returns its last argument. Left out of the structs are
-- `Value` and `Details`, which hold any values, and the texts that `Error` formats.
pub mod Making
pub mod Kinds
pub mod Verdicts
mod Tests
use gocel.Prelude.{
  ℕ, Bool, true, false, ◌||◌, List, [], ◌∷◌, String, Option, none, some, ◌==◌, string_eq, nat_beq,
  if◌then◌else◌,
}
use gocel.Prelude.Int.{ℤ, pos}
use Prim.Native.String.{◌++◌ as append}

-- The error variables of errors.go, and the two of package context.
pub data Sentinel : Type 0 where
  agent_not_found tool_not_found model_not_found session_not_found : Sentinel
  checkpoint_not_found registry_not_found invalid_input nil_model : Sentinel
  max_steps_reached max_cycles_reached stream_error middleware_error : Sentinel
  nil_tools circuit_open rate_limited protocol_error mcp_error : Sentinel
  canceled deadline_exceeded : Sentinel

-- Each variable is one pointer of its own.
abbrev pub address : Sentinel → ℕ
address agent_not_found = 0
address tool_not_found = 1
address model_not_found = 2
address session_not_found = 3
address checkpoint_not_found = 4
address registry_not_found = 5
address invalid_input = 6
address nil_model = 7
address max_steps_reached = 8
address max_cycles_reached = 9
address stream_error = 10
address middleware_error = 11
address nil_tools = 12
address circuit_open = 13
address rate_limited = 14
address protocol_error = 15
address mcp_error = 16
address canceled = 17
address deadline_exceeded = 18

pub data ErrorCode : Type 0 where
  code_agent_error code_tool_error code_model_error code_validation_error : ErrorCode
  code_runtime_error code_protocol_error code_middleware_error code_circuit_open : ErrorCode
  code_rate_limited code_timeout code_not_found code_cancelled : ErrorCode

pub code_string : ErrorCode → String
code_string code_agent_error = "AGENT_ERROR"
code_string code_tool_error = "TOOL_ERROR"
code_string code_model_error = "MODEL_ERROR"
code_string code_validation_error = "VALIDATION_ERROR"
code_string code_runtime_error = "RUNTIME_ERROR"
code_string code_protocol_error = "PROTOCOL_ERROR"
code_string code_middleware_error = "MIDDLEWARE_ERROR"
code_string code_circuit_open = "CIRCUIT_OPEN"
code_string code_rate_limited = "RATE_LIMITED"
code_string code_timeout = "TIMEOUT"
code_string code_not_found = "NOT_FOUND"
code_string code_cancelled = "CANCELLED"

-- `message` is an error of `fmt.Errorf`, `wrapped` one with `%w`.
pub data Error : Type 0 where
  nil : Error
  sentinel : Sentinel → Error
  message : String → Error
  wrapped : (text : String) (cause : Error) → Error
  not_found_error : (kind key : String) (cause : Error) → Error
  input_error : (field message : String) (cause : Error) → Error
  step_error : (kind : String) (limit actual : ℤ) (agent_name : String) (cause : Error) → Error
  stream_failure : (op message : String) (cause : Error) → Error
  protocol_failure : (protocol op message : String) (cause : Error) → Error
  middleware_failure : (middleware op message : String) (cause : Error) → Error
  agent_error :
      (code : ErrorCode) (agent : String) (step : ℤ) (message : String) (cause : Error) → Error
  tool_error : (code : ErrorCode) (tool args message : String) (cause : Error) → Error
  model_error :
      (code : ErrorCode) (model message : String) (retryable : Bool) (cause : Error) → Error
  circuit_error : (route message : String) → Error
  -- The seconds are a 64-bit word, two's complement.
  rate_limit_error : (route : String) (retry_after : ℕ) (message : String) → Error

abbrev pub is_nil : Error → Bool
is_nil nil = true
is_nil e = false

-- The `Unwrap` methods, and that of `fmt.Errorf`.
unfoldable pub unwrap : Error → Error
unwrap nil = nil
unwrap (sentinel s) = nil
unwrap (message text) = nil
unwrap (wrapped text cause) = cause
unwrap (not_found_error kind key cause) = cause
unwrap (input_error field text cause) = cause
unwrap (step_error kind limit actual agent_name cause) = cause
unwrap (stream_failure op text cause) = cause
unwrap (protocol_failure protocol op text cause) = cause
unwrap (middleware_failure name op text cause) = cause
unwrap (agent_error code agent step text cause) = cause
unwrap (tool_error code tool args text cause) = cause
unwrap (model_error code model text retryable cause) = cause
unwrap (circuit_error route text) = sentinel circuit_open
unwrap (rate_limit_error route retry_after text) = sentinel rate_limited

-- The errors that `errors.Is` and `errors.As` look at, in their order.
unfoldable pub chain : Error → List Error
chain nil = []
chain (sentinel s) = sentinel s ∷ []
chain (message text) = message text ∷ []
chain (wrapped text cause) = wrapped text cause ∷ chain cause
chain (not_found_error kind key cause) = not_found_error kind key cause ∷ chain cause
chain (input_error field text cause) = input_error field text cause ∷ chain cause
chain (step_error kind limit actual agent_name cause) =
    step_error kind limit actual agent_name cause ∷ chain cause
chain (stream_failure op text cause) = stream_failure op text cause ∷ chain cause
chain (protocol_failure protocol op text cause) =
    protocol_failure protocol op text cause ∷ chain cause
chain (middleware_failure name op text cause) = middleware_failure name op text cause ∷ chain cause
chain (agent_error code agent step text cause) =
    agent_error code agent step text cause ∷ chain cause
chain (tool_error code tool args text cause) = tool_error code tool args text cause ∷ chain cause
chain (model_error code model text retryable cause) =
    model_error code model text retryable cause ∷ chain cause
chain (circuit_error route text) = circuit_error route text ∷ sentinel circuit_open ∷ []
chain (rate_limit_error route retry_after text) =
    rate_limit_error route retry_after text ∷ sentinel rate_limited ∷ []

abbrev pub is_sentinel : Sentinel → Error → Bool
is_sentinel target (sentinel s) = nat_beq (address s) (address target)
is_sentinel target _ = false

abbrev any : (Error → Bool) → List Error → Bool
any p [] = false
any p (e ∷ es) = p e || any p es

abbrev first : {A : Type 0} → (Error → Option A) → List Error → Option A
first f [] = none
first f (e ∷ es) = elim (f e) [ none ↦ first f es | some a ↦ some a ]

-- `errors.Is`, for a target that is one of the variables.
unfoldable pub is_target : Sentinel → Error → Bool
unfolding chain
is_target target e = any (is_sentinel target) (chain e)

-- `errors.As`, with the type given by what it reads of an error of that type.
unfoldable pub find_as : {A : Type 0} → (Error → Option A) → Error → Option A
unfolding chain
find_as f e = first f (chain e)
