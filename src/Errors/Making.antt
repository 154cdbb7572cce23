-- ===== src/Errors/Making.antt =====
-- The constructors of core/kernel/errors.go. `text` is the formatted message.
use gocel.Prelude.{ℕ, Bool, String, string_eq, ◌==◌, if◌then◌else◌}
use gocel.Prelude.Int.{ℤ, pos}
use Prim.Native.String.{◌++◌ as append}
use gocel.Errors.{
  Error, nil, sentinel, message, not_found_error, input_error, step_error, stream_failure,
  protocol_failure, middleware_failure, agent_error, tool_error, model_error, circuit_error,
  rate_limit_error, agent_not_found, tool_not_found, model_not_found, session_not_found,
  checkpoint_not_found, registry_not_found, invalid_input, max_steps_reached, max_cycles_reached,
  stream_error, middleware_error, protocol_error, mcp_error, ErrorCode, code_tool_error,
  code_model_error,
}

unfoldable pub resolve_not_found_cause : String → Error
resolve_not_found_cause kind =
    if kind == "agent"
    then sentinel agent_not_found
    else if kind == "tool"
    then sentinel tool_not_found
    else if kind == "model"
    then sentinel model_not_found
    else if kind == "session"
    then sentinel session_not_found
    else if kind == "checkpoint"
    then sentinel checkpoint_not_found
    else if kind == "registry"
    then sentinel registry_not_found
    else message (append "unknown not-found kind: " kind)

unfoldable pub new_not_found_error : (kind key : String) → Error
unfolding resolve_not_found_cause
new_not_found_error kind key = not_found_error kind key (resolve_not_found_cause kind)

-- The `cause` of the constructors that put an error of their own for nil.
abbrev cause_or : Error → Error → Error
cause_or fallback nil = fallback
cause_or fallback cause = cause

unfoldable pub new_input_error : (field : String) (cause : Error) (text : String) → Error
new_input_error field cause text = input_error field text (cause_or (sentinel invalid_input) cause)

unfoldable pub new_step_error : (kind : String) (limit actual : ℤ) (agent_name : String) → Error
new_step_error kind limit actual agent_name =
    step_error kind limit actual agent_name
      (sentinel (if kind == "cycle" then max_cycles_reached else max_steps_reached))

unfoldable pub new_stream_error : (op : String) (cause : Error) (text : String) → Error
new_stream_error op cause text = stream_failure op text (cause_or (sentinel stream_error) cause)

unfoldable pub new_protocol_error : (protocol op : String) (cause : Error) (text : String) → Error
new_protocol_error protocol op cause text =
    protocol_failure protocol op text
      (cause_or (sentinel (if protocol == "mcp" then mcp_error else protocol_error)) cause)

unfoldable pub new_middleware_error :
    (middleware op : String) (cause : Error) (text : String) → Error
new_middleware_error middleware op cause text =
    middleware_failure middleware op text (cause_or (sentinel middleware_error) cause)

unfoldable pub new_agent_error :
    (code : ErrorCode) (agent : String) (cause : Error) (text : String) → Error
new_agent_error code agent cause text = agent_error code agent (pos 0) text cause

unfoldable pub new_tool_error : (tool : String) (cause : Error) (text : String) → Error
new_tool_error tool cause text = tool_error code_tool_error tool "" text cause

unfoldable pub new_model_error :
    (model : String) (cause : Error) (retryable : Bool) (text : String) → Error
new_model_error model cause retryable text = model_error code_model_error model text retryable cause

unfoldable pub new_circuit_error : (route text : String) → Error
new_circuit_error route text = circuit_error route text

unfoldable pub new_rate_limit_error : (route : String) (retry_after : ℕ) (text : String) → Error
new_rate_limit_error route retry_after text = rate_limit_error route retry_after text
