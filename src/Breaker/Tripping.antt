-- ===== src/Breaker/Tripping.antt =====
-- When circuitbreaker.go opens, and what it answers while it is open.
use gocel.Prelude.{
  ℕ, ◌≤◌, ◌≡◌, refl, Bool, false, ◌||◌, List, [], ◌∷◌, map, arith, length, if◌then◌else◌,
}
use gocel.Prelude.Int.{pos, ◌+ℤ◌, ◌≤ℤ◌, ltb_ℤ}
use gocel.Breaker.{
  Breaker, Call, allows, succeeds, fails, circuit_closed, circuit_open, allow, record_success,
  record_failure, since, step, run,
}
use gocel.Breaker.Bounds.{Inv, step-Inv}

fails-run_open :
    (ts : List ℕ) (cb : Breaker)
    → cb.state ≡ circuit_open
    → (run (map fails ts) cb).state ≡ circuit_open
unfolding run step record_failure
fails-run_open [] cb h = h
fails-run_open (t ∷ ts) cb h = fails-run_open ts (record_failure t cb) (ground arith)

fail_once :
    (t : ℕ) (cb : Breaker)
    → Inv cb
    → cb.state ≡ circuit_closed
    → ((record_failure t cb).failures ≡ cb.failures +ℤ pos 1)
      × ((record_failure t cb).max_fail ≡ cb.max_fail)
      × ((record_failure t cb).state
          ≡ (if ltb_ℤ (cb.failures +ℤ pos 1) cb.max_fail then circuit_closed else circuit_open))
unfolding record_failure
fail_once t cb v h = ground arith

-- A closed breaker that sees only failures, at any times, is closed while their number and those
-- counted before stay below `maxFail`, and open from then on.
pub trips_at_max_fail :
    (ts : List ℕ) (cb : Breaker)
    → Inv cb
    → cb.state ≡ circuit_closed
    → (run (map fails ts) cb).state ≡ (
        if ltb_ℤ (cb.failures +ℤ pos (length ts)) cb.max_fail then circuit_closed else circuit_open)
unfolding run step ◌+ℤ◌
trips_at_max_fail [] cb v h = ground arith
trips_at_max_fail (t ∷ ts) cb v h = ground (
  arith,
  fail_once t cb v h,
  trips_at_max_fail ts (record_failure t cb) (step-Inv (fails t) cb v),
  fails-run_open ts (record_failure t cb),
)

-- A call at a time at which the breaker that failed at `last` still rejects, or a later failure.
abbrev pub Early : ℕ → Breaker → Call → Type 0
Early last cb (allows now) = since now last ≤ℤ cb.reset_after
Early last cb succeeds = Unit {0}
Early last cb (fails t) = last ≤ t

abbrev pub AllEarly : ℕ → Breaker → List Call → Type 0
AllEarly last cb [] = Unit {0}
AllEarly last cb (c ∷ cs) = Early last cb c × AllEarly last cb cs

admits : Call → Breaker → Bool
admits (allows now) cb = (allow now cb).1
admits succeeds cb = false
admits (fails t) cb = false

-- Whether some call of the history is let through.
pub admits_some : List Call → Breaker → Bool
unfolding admits step
admits_some [] cb = false
admits_some (c ∷ cs) cb = admits c cb || admits_some cs (step c cb)

stays_open :
    (last : ℕ) (c : Call) (cb : Breaker)
    → last ≤ cb.last_failure
    → cb.state ≡ circuit_open
    → Early last cb c
    → (last ≤ (step c cb).last_failure)
      × ((step c cb).state ≡ circuit_open)
      × ((step c cb).reset_after ≡ cb.reset_after)
      × (admits c cb ≡ false)
unfolding step admits allow record_success record_failure
stays_open last (allows now) cb l o e = ground arith
stays_open last succeeds cb l o e = ground arith
stays_open last (fails t) cb l o e = ground arith

Early-step :
    (last : ℕ) (c : Call) (cb cb' : Breaker)
    → cb'.reset_after ≡ cb.reset_after
    → Early last cb c
    → Early last cb' c
Early-step last (allows now) cb cb' h e = rw h e
Early-step last succeeds cb cb' h e = tt
Early-step last (fails t) cb cb' h e = e

AllEarly-step :
    (last : ℕ) (cs : List Call) (cb cb' : Breaker)
    → cb'.reset_after ≡ cb.reset_after
    → AllEarly last cb cs
    → AllEarly last cb' cs
AllEarly-step last [] cb cb' h e = tt
AllEarly-step last (c ∷ cs) cb cb' h e =
    (Early-step last c cb cb' h e.0, AllEarly-step last cs cb cb' h e.1)

stays_open_all :
    (last : ℕ) (cs : List Call) (cb : Breaker)
    → last ≤ cb.last_failure
    → cb.state ≡ circuit_open
    → AllEarly last cb cs
    → ((run cs cb).state ≡ circuit_open) × (admits_some cs cb ≡ false)
unfolding run admits_some
stays_open_all last [] cb l o e = (o, refl)
stays_open_all last (c ∷ cs) cb l o e =
    let s = stays_open last c cb l o e.0 in
    ground (
      arith,
      s,
      stays_open_all last cs (step c cb) s.0 s.1 (AllEarly-step last cs cb (step c cb) s.2 e.1),
    )

-- While no call comes later than `resetAfter` past the failure that opened the breaker, whatever
-- outcomes are reported in between, it stays open and lets no call through.
pub open_rejects :
    (cs : List Call) (cb : Breaker)
    → cb.state ≡ circuit_open
    → AllEarly cb.last_failure cb cs
    → ((run cs cb).state ≡ circuit_open) × (admits_some cs cb ≡ false)
open_rejects cs cb o e = stays_open_all cb.last_failure cs cb (omega arith) o e
