-- ===== src/Breaker.antt =====
-- middleware/circuitbreaker/circuitbreaker.go, and (with Breaker/Stream)
-- NewCircuitBreakerMiddleware in core/kernel/resilience.go. The clock is an argument of each call,
-- in nanoseconds; Go's `int` counters are unbounded integers. The mutex makes each method one atomic step.
pub mod Bounds
pub mod Tripping
pub mod Probing
pub mod Stream
mod Tests
use gocel.Prelude.{
  ℕ, ◌-◌, Bool, true, false, List, [], ◌∷◌, String, Option, none, some, ltb, if◌then◌else◌,
}
use gocel.Prelude.Int.{ℤ, pos, ◌+ℤ◌, ◌-ℤ◌, ltb_ℤ, leb_ℤ}

pub data CircuitState : Type 0 where
  circuit_closed circuit_open circuit_half_open : CircuitState

-- `String`. The data type has no other value.
pub state_name : CircuitState → String
state_name circuit_closed = "closed"
state_name circuit_open = "open"
state_name circuit_half_open = "half-open"

pub record Config : Type 0 where
  pub max_failures : ℤ
  pub reset_timeout : ℤ
  pub half_open_max_calls : ℤ

pub record Breaker : Type 0 where
  pub name : String
  pub max_fail : ℤ
  pub reset_after : ℤ
  pub half_open_max : ℤ
  pub state : CircuitState
  pub failures : ℤ
  pub last_failure : ℕ
  pub half_open_calls : ℤ

unfoldable pub default_config : Config
default_config = record {
  max_failures = pos 5;
  reset_timeout = pos 30_000_000_000;
  half_open_max_calls = pos 3;
}

or_default : ℤ → ℤ → ℤ
or_default x d = if leb_ℤ x (pos 0) then d else x

config_or_default : Option Config → Config
config_or_default none = default_config
config_or_default (some cfg) = cfg

-- The checks of `New`. They are writes through the pointer, so the caller's Config is left so too.
sanitize : Config → Config
unfolding or_default default_config
sanitize cfg = record {
  max_failures = or_default cfg.max_failures default_config.max_failures;
  reset_timeout = or_default cfg.reset_timeout default_config.reset_timeout;
  half_open_max_calls = or_default cfg.half_open_max_calls default_config.half_open_max_calls;
}

-- `New`. The zero time of `lastFailure` is read only after a failure has set it.
pub new : String → Option Config → Breaker
unfolding sanitize config_or_default default_config
new name given =
    let cfg = sanitize (config_or_default given) in
    record {
      name = name;
      max_fail = cfg.max_failures;
      reset_after = cfg.reset_timeout;
      half_open_max = cfg.half_open_max_calls;
      state = circuit_closed;
      failures = pos 0;
      last_failure = 0;
      half_open_calls = pos 0;
    }

-- `time.Since(lastFailure)` is never negative: Go reads the monotonic clock.
abbrev since : ℕ → ℕ → ℤ
since now last = pos (now - last)

allow_in : CircuitState → ℕ → Breaker → Breaker × Bool
allow_in circuit_closed now cb = (cb, true)
allow_in circuit_open now cb =
    if ltb_ℤ cb.reset_after (since now cb.last_failure)
    then (record cb { state = circuit_half_open; half_open_calls = pos 0 }, true)
    else (cb, false)
allow_in circuit_half_open now cb =
    if ltb_ℤ cb.half_open_calls cb.half_open_max
    then (record cb { half_open_calls = cb.half_open_calls +ℤ pos 1 }, true)
    else (cb, false)

pub allow : ℕ → Breaker → Breaker × Bool
unfolding allow_in ◌+ℤ◌
allow now cb = allow_in cb.state now cb

close_when_drained : Breaker → Breaker
close_when_drained cb =
    if leb_ℤ cb.half_open_calls (pos 0)
    then record cb { state = circuit_closed; failures = pos 0 }
    else cb

success_in : CircuitState → Breaker → Breaker
unfolding close_when_drained
success_in circuit_half_open cb =
    close_when_drained (record cb { half_open_calls = cb.half_open_calls -ℤ pos 1 })
success_in circuit_closed cb = record cb { failures = pos 0 }
success_in circuit_open cb = cb

pub record_success : Breaker → Breaker
unfolding success_in ◌-ℤ◌
record_success cb = success_in cb.state cb

trip_when_full : Breaker → Breaker
trip_when_full cb = if leb_ℤ cb.max_fail cb.failures then record cb { state = circuit_open } else cb

failure_in : CircuitState → Breaker → Breaker
unfolding trip_when_full
failure_in circuit_half_open cb = record cb { state = circuit_open; failures = cb.max_fail }
failure_in circuit_closed cb = trip_when_full (record cb { failures = cb.failures +ℤ pos 1 })
failure_in circuit_open cb = cb

pub record_failure : ℕ → Breaker → Breaker
unfolding failure_in ◌+ℤ◌
record_failure now cb = failure_in cb.state (record cb { last_failure = now })

-- What the protected Generate call returns: its own error, the model's error, or the answer.
pub data Outcome (R E : Type 0) : Type 0 where
  circuit_error : String → Outcome R E
  failed : E → Outcome R E
  answered : R → Outcome R E

-- The reply of the wrapped handler, which the breaker only reads.
pub data Reply (R E : Type 0) : Type 0 where
  reply_err : E → Reply R E
  reply_ok : R → Reply R E

abbrev settle : {R E : Type 0} → Reply R E → ℕ → Breaker → Breaker × Outcome R E
settle (reply_err e) later cb = (record_failure later cb, failed e)
settle (reply_ok r) later cb = (record_success cb, answered r)

-- The wrapped call starts at `now` and answers at `later`.
pub generate : {R E : Type 0} → ℕ → ℕ → Reply R E → Breaker → Breaker × Outcome R E
generate now later reply cb =
    let (cb', admitted) = allow now cb in
    if admitted then settle reply later cb' else (cb', circuit_error cb.name)

-- The calls that a breaker receives, from any number of goroutines, in the order of its mutex.
pub data Call : Type 0 where
  allows : ℕ → Call
  succeeds : Call
  fails : ℕ → Call

pub step : Call → Breaker → Breaker
step (allows now) cb = (allow now cb).0
step succeeds cb = record_success cb
step (fails now) cb = record_failure now cb

pub run : List Call → Breaker → Breaker
run [] cb = cb
run (c ∷ cs) cb = run cs (step c cb)
