-- ===== src/Breaker/Bounds.antt =====
-- The counters of circuitbreaker.go and the configured limits.
use gocel.Prelude.{ℕ, ◌≡◌, List, [], ◌∷◌, Option, none, some, arith, String}
use gocel.Prelude.Int.{pos, negsuc, ◌≤ℤ◌, ◌<ℤ◌}
use gocel.Breaker.{
  Breaker, Config, Call, allows, succeeds, fails, circuit_closed, circuit_open, circuit_half_open,
  new, allow, record_success, record_failure, step, run,
}

-- What every breaker satisfies between two calls.
pub record Inv (cb : Breaker) : Type 0 where
  pub max_fail_pos : pos 0 <ℤ cb.max_fail
  pub reset_after_pos : pos 0 <ℤ cb.reset_after
  pub half_open_max_pos : pos 0 <ℤ cb.half_open_max
  pub failures_nonneg : pos 0 ≤ℤ cb.failures
  pub failures_capped : cb.failures ≤ℤ cb.max_fail
  pub closed_below : cb.state ≡ circuit_closed → cb.failures <ℤ cb.max_fail
  pub open_full : cb.state ≡ circuit_open → cb.failures ≡ cb.max_fail
  pub calls_capped : cb.half_open_calls ≤ℤ cb.half_open_max
  pub calls_floor : negsuc 0 ≤ℤ cb.half_open_calls
  pub half_open_nonneg : cb.state ≡ circuit_half_open → pos 0 ≤ℤ cb.half_open_calls

pub new-Inv : (name : String) (cfg : Option Config) → Inv (new name cfg)
unfolding new
new-Inv name none = ground arith
new-Inv name (some cfg) = ground arith

allow-Inv : (now : ℕ) (cb : Breaker) → Inv cb → Inv (allow now cb).0
unfolding allow
allow-Inv now cb v = ground arith

record_success-Inv : (cb : Breaker) → Inv cb → Inv (record_success cb)
unfolding record_success
record_success-Inv cb v = ground arith

record_failure-Inv : (now : ℕ) (cb : Breaker) → Inv cb → Inv (record_failure now cb)
unfolding record_failure
record_failure-Inv now cb v = ground arith

pub step-Inv : (c : Call) (cb : Breaker) → Inv cb → Inv (step c cb)
unfolding step
step-Inv (allows now) cb v = allow-Inv now cb v
step-Inv succeeds cb v = record_success-Inv cb v
step-Inv (fails now) cb v = record_failure-Inv now cb v

run-Inv : (cs : List Call) (cb : Breaker) → Inv cb → Inv (run cs cb)
unfolding run
run-Inv [] cb v = v
run-Inv (c ∷ cs) cb v = run-Inv cs (step c cb) (step-Inv c cb v)

-- Whatever calls a new breaker receives: its limits are positive, the failures lie between 0 and
-- `maxFail`, below it while the breaker is closed and at it while it is open, and the counted probes
-- lie between -1 and `halfOpenMax`, and not below 0 while it is half-open.
pub run-new-Inv :
    (name : String) (cfg : Option Config) (cs : List Call) → Inv (run cs (new name cfg))
run-new-Inv name cfg cs = run-Inv cs (new name cfg) (new-Inv name cfg)
