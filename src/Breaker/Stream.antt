-- ===== src/Breaker/Stream.antt =====
-- The Stream half of NewCircuitBreakerMiddleware in core/kernel/resilience.go, with
-- circuitStreamReader. The wrapped stream is read only through what its calls return.
use gocel.Prelude.{
  ℕ, ◌≡◌, ap, Bool, true, false, ◌||◌, List, [], ◌∷◌, Option, none, some, if◌then◌else◌, arith,
}
use gocel.Breaker.{Breaker, Reply, reply_err, reply_ok, allow, record_success, record_failure}

pub record CircuitStream : Type 0 where
  pub failed : Bool

-- What `Recv` of the wrapped stream returns: a chunk, one of the errors that are no failure, or
-- another error.
pub data Received (R E : Type 0) : Type 0 where
  chunk : R → Received R E
  end_of_stream canceled deadline_exceeded : Received R E
  broken : E → Received R E

module _ {R E : Type 0} where
  opened : ℕ → Reply R E → Breaker → Breaker × Option CircuitStream
  opened later (reply_err e) cb = (record_failure later cb, none)
  opened later (reply_ok r) cb = (cb, some (record { failed = false }))

  -- The stream handler; the wrapped one answers at `later`.
  pub open_stream : ℕ → ℕ → Reply R E → Breaker → Breaker × Option CircuitStream
  unfolding opened
  open_stream now later reply cb =
      let (cb', admitted) = allow now cb in if admitted then opened later reply cb' else (cb', none)

  pub recv : Received R E → CircuitStream → CircuitStream
  recv (chunk r) s = s
  recv end_of_stream s = s
  recv canceled s = s
  recv deadline_exceeded s = s
  recv (broken e) s = record s { failed = true }

  pub recv_all : List (Received R E) → CircuitStream → CircuitStream
  recv_all [] s = s
  recv_all (r ∷ rs) s = recv_all rs (recv r s)

  abbrev pub is_broken : Received R E → Bool
  is_broken (broken e) = true
  is_broken _ = false

  abbrev pub some_broken : List (Received R E) → Bool
  some_broken [] = false
  some_broken (r ∷ rs) = is_broken r || some_broken rs

-- `Close`, at the time `now`.
pub close : ℕ → CircuitStream → Breaker → Breaker
close now s cb = if s.failed then record_failure now cb else record_success cb

module _ {R E : Type 0} where
  failed-recv :
      (r : Received R E) (s : CircuitStream) → (recv r s).failed ≡ (s.failed || is_broken r)
  unfolding recv
  failed-recv (chunk r) s = ground arith
  failed-recv end_of_stream s = ground arith
  failed-recv canceled s = ground arith
  failed-recv deadline_exceeded s = ground arith
  failed-recv (broken e) s = ground arith

  failed-recv_all :
      (rs : List (Received R E)) (s : CircuitStream)
      → (recv_all rs s).failed ≡ (s.failed || some_broken rs)
  unfolding recv_all
  failed-recv_all [] s = ground arith
  failed-recv_all (r ∷ rs) s = ground (arith, failed-recv r s, failed-recv_all rs (recv r s))

  -- A new stream that is read and then closed counts as a failure if one of the reads returned an
  -- error other than the end, a cancellation or a deadline, and as a success otherwise.
  pub close-recv_all :
      (now : ℕ) (rs : List (Received R E)) (cb : Breaker)
      → close now (recv_all rs (record { failed = false })) cb
        ≡ (if some_broken rs then record_failure now cb else record_success cb)
  unfolding close
  close-recv_all now rs cb =
      ap (λ b. if b then record_failure now cb else record_success cb)
        (failed-recv_all rs (record { failed = false }))
