-- ===== src/Breaker/Probing.antt =====
-- The half-open state of circuitbreaker.go: how many probes it admits, and what closes it again.
use Prim.Native.Nat.{min, max}
use gocel.Prelude.{
  ℕ, zero, suc, ◌+◌, ◌-◌, ◌≡◌, refl, true, List, [], ◌∷◌, arith, length, ltb, if◌then◌else◌,
}
use gocel.Prelude.Int.{pos, ◌<ℤ◌}
use gocel.Breaker.{
  Breaker, Call, succeeds, circuit_closed, circuit_open, circuit_half_open, allow, record_success,
  since, step, run,
}

-- How many of the calls, made at these times with no outcome reported between them, get through.
pub admitted : List ℕ → Breaker → ℕ
admitted [] cb = 0
admitted (t ∷ ts) cb = (if (allow t cb).1 then 1 else 0) + admitted ts (allow t cb).0

half_open_allow :
    (t : ℕ) (cb : Breaker) (c m : ℕ)
    → cb.state ≡ circuit_half_open
    → cb.half_open_calls ≡ pos c
    → cb.half_open_max ≡ pos m
    → let (cb', passed) = allow t cb in
      (passed ≡ ltb c m)
      × (cb'.state ≡ circuit_half_open)
      × (cb'.half_open_calls ≡ pos (if ltb c m then suc c else c))
      × (cb'.half_open_max ≡ pos m)
unfolding allow
half_open_allow t cb c m s e h = ground arith

half_open_burst :
    (ts : List ℕ) (cb : Breaker) (c m : ℕ)
    → cb.state ≡ circuit_half_open
    → cb.half_open_calls ≡ pos c
    → cb.half_open_max ≡ pos m
    → admitted ts cb ≡ min (length ts) (m - c)
unfolding admitted
half_open_burst [] cb c m s e h = omega arith
half_open_burst (t ∷ ts) cb c m s e h =
    let a = half_open_allow t cb c m s e h in
    let rest = half_open_burst ts (allow t cb).0 (if ltb c m then suc c else c) m a.1 a.2 a.3 in
    ground (arith, a.0, rest)

first_probe :
    (t : ℕ) (cb : Breaker)
    → cb.state ≡ circuit_open
    → cb.reset_after <ℤ since t cb.last_failure
    → allow t cb ≡ (record cb { state = circuit_half_open; half_open_calls = pos 0 }, true)
unfolding allow
first_probe t cb s late = ground arith

-- A burst of calls on an open breaker whose timeout has passed lets through one call more than
-- `halfOpenMax`, if there are so many: the call that turns it half-open is not counted.
pub probe_burst :
    (t : ℕ) (ts : List ℕ) (cb : Breaker) (m : ℕ)
    → cb.state ≡ circuit_open
    → cb.reset_after <ℤ since t cb.last_failure
    → cb.half_open_max ≡ pos m
    → admitted (t ∷ ts) cb ≡ 1 + min (length ts) m
unfolding admitted
probe_burst t ts cb m s late h =
    let p = first_probe t cb s late in
    rw p (
      omega (
        arith,
        half_open_burst ts (record cb { state = circuit_half_open; half_open_calls = pos 0 }) 0 m
            refl refl h,
      ))

abbrev pub successes : ℕ → List Call
successes zero = []
successes (suc n) = succeeds ∷ successes n

closed_stays :
    (n : ℕ) (cb : Breaker)
    → cb.state ≡ circuit_closed
    → (run (successes n) cb).state ≡ circuit_closed
unfolding run step record_success
closed_stays zero cb h = h
closed_stays (suc n) cb h = closed_stays n (record_success cb) (ground arith)

half_open_success :
    (cb : Breaker) (c : ℕ)
    → cb.state ≡ circuit_half_open
    → cb.half_open_calls ≡ pos c
    → let cb' = record_success cb in
      (cb'.state ≡ (if ltb 1 c then circuit_half_open else circuit_closed))
      × (ltb 1 c ≡ true → cb'.half_open_calls ≡ pos (c - 1))
unfolding record_success
half_open_success cb c s e = ground arith

-- A half-open breaker with `c` calls counted stays half-open through fewer than `c` successes, and
-- `max 1 c` of them close it.
pub recovers :
    (n : ℕ) (cb : Breaker) (c : ℕ)
    → cb.state ≡ circuit_half_open
    → cb.half_open_calls ≡ pos c
    → (run (successes n) cb).state ≡ (if ltb n (max 1 c) then circuit_half_open else circuit_closed)
unfolding run step
recovers zero cb c s e = ground arith
recovers (suc n) cb c s e =
    let a = half_open_success cb c s e in
    ground (arith, a, recovers n (record_success cb) (c - 1), closed_stays n (record_success cb))
