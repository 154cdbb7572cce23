-- ===== src/Errors/Tests.antt =====
-- Errors with causes.
use gocel.Prelude.{◌≡◌, refl, true}
use gocel.Errors.{Error, nil, wrapped, code_timeout, find_as, chain, code_string}
use gocel.Errors.Making.{new_rate_limit_error, new_agent_error, new_tool_error}
use gocel.Errors.Kinds.{is_error_code}

abbrev limited : Error
limited = wrapped "turn 3" (new_rate_limit_error "chat" 20 "slow down")

timed_out :
    is_error_code
      (new_tool_error "shell" (new_agent_error code_timeout "a" nil "slow") "t")
      code_timeout
    ≡ true
unfolding is_error_code find_as chain code_string new_agent_error new_tool_error
timed_out = refl
