-- ===== src/Retry.antt =====
-- middleware/retry/retry.go. A `time.Duration` is a 64-bit word in nanoseconds, two's complement.
-- What the clock, the model and `rand` do are functions of the attempt: `next` is the outcome of the
-- call, `cancelled` the error of the context if that ends the wait before the attempt, and `jittered`
-- what `jitter` makes of a delay (the delay, where `JitterRatio` is 0). `print` is the `%d` of
-- package fmt.
-- The loops have no bound in ModeAlways; the model takes fuel for the attempts, `none` if it runs out.
pub mod Backoff
pub mod Attempts
mod Tests
use gocel.Prelude.{
  ℕ, zero, suc, ◌+◌, ◌-◌, ◌*◌, Bool, true, false, ◌&&◌, ◌||◌, not, List, [], ◌∷◌, String, Option,
  none, some, ltb, leb, nat_beq, if◌then◌else◌,
}
use Prim.Native.Nat.{◌^◌, ◌%◌}
use Prim.Native.String.{◌++◌ as append}
use gocel.Prelude.Int.{ℤ, pos, ◌+ℤ◌, leb_ℤ, ltb_ℤ}
use gocel.Errors.{Error, nil, wrapped, is_nil, find_as}
use gocel.Errors.Kinds.{is_retryable_error, is_cancelled, limit_seconds}

pub data Mode : Type 0 where
  mode_normal mode_always : Mode

pub record Middleware : Type 0 where
  pub max_retries : ℤ
  pub base_delay : ℕ
  pub max_delay : ℕ
  pub mode : Mode

-- Words of 64 bits.
abbrev pub wrap : ℕ → ℕ
wrap n = n % 2 ^ 64

abbrev pub is_positive : ℕ → Bool
is_positive d = ltb 0 d && ltb d (2 ^ 63)

-- The signed order.
abbrev pub less : ℕ → ℕ → Bool
less a b = ltb (wrap (a + 2 ^ 63)) (wrap (b + 2 ^ 63))

abbrev second : ℕ
second = 1_000_000_000

unfoldable pub default_middleware : Middleware
default_middleware = record {
  max_retries = pos 3;
  base_delay = second;
  max_delay = 30 * second;
  mode = mode_normal;
}

-- `New`: what is not positive leaves the default.
pub new : (max_retries : ℤ) (base_delay max_delay : ℕ) → Middleware
unfolding default_middleware
new max_retries base_delay max_delay = record default_middleware {
  max_retries = if ltb_ℤ (pos 0) max_retries then max_retries else default_middleware.max_retries;
  base_delay = if is_positive base_delay then base_delay else default_middleware.base_delay;
  max_delay = if is_positive max_delay then max_delay else default_middleware.max_delay;
}

abbrev pub shift : ℕ → ℕ
shift attempt = if ltb 62 (attempt - 1) then 62 else attempt - 1

unfoldable pub backoff : Middleware → ℕ → ℕ
backoff m zero = 0
backoff m (suc k) =
    let delay = wrap (m.base_delay * 2 ^ shift (suc k)) in
    if less m.max_delay delay || not (is_positive delay) then m.max_delay else delay

-- The wait in nanoseconds, 0 where the provider suggests none.
unfoldable pub provider_retry_after : Error → ℕ
unfolding find_as
provider_retry_after e = elim (find_as limit_seconds e) [
  | none ↦ 0
  | some seconds ↦ if is_positive seconds then wrap (seconds * second) else 0
]

unfoldable pub delay_for : (ℕ → ℕ → ℕ) → Middleware → ℕ → Error → ℕ
unfolding provider_retry_after backoff
delay_for jittered m attempt last_err =
    let wait = provider_retry_after last_err in
    if is_positive wait
    then (if less m.max_delay wait then m.max_delay else wait)
    else jittered attempt (backoff m attempt)

unfoldable pub is_retryable : Error → Bool
is_retryable e = if is_nil e then false else if is_cancelled e then false else is_retryable_error e

pub data Outcome {ℓ} (A : Type ℓ) : Type ℓ where
  answered : A → Outcome A
  failed : Error → Outcome A

-- What a call of the wrapped handler did: its outcome, how often it called `next`, and its waits.
pub record Attempted {ℓ} (A : Type ℓ) : Type ℓ where
  pub outcome : Outcome A
  pub calls : ℕ
  pub waits : List ℕ

abbrev pub stop {ℓ} : {A : Type ℓ} → Outcome A → ℕ → Attempted A
stop outcome calls = record { outcome = outcome; calls = calls; waits = [] }

abbrev pub waited {ℓ} : {A : Type ℓ} → ℕ → Option (Attempted A) → Option (Attempted A)
waited delay none = none
waited delay (some r) = some (record r { waits = delay ∷ r.waits })

abbrev pub exhausted : Mode → ℤ → ℕ → Bool
exhausted mode_normal max_retries attempt = leb_ℤ max_retries (pos attempt)
exhausted mode_always max_retries attempt = false

module _ {ℓ} {A : Type ℓ} (print : ℤ → String) (cancelled : ℕ → Option Error) (jittered : ℕ → ℕ → ℕ)
    (next : ℕ → Outcome A) (m : Middleware) where
  -- What a turn of the loop does with the outcome of its call; `again` is the rest of the loop.
  abbrev pub judge : String → ℕ → Outcome A → (Error → Option (Attempted A)) → Option (Attempted A)
  judge label attempt (answered a) again = some (stop (answered a) (attempt + 1))
  judge label attempt (failed e) again =
      if not (is_retryable e)
      then some (stop (failed e) (attempt + 1))
      else if exhausted m.mode m.max_retries attempt
      then some (
          stop
            (failed
              (wrapped (append label (append (print (m.max_retries +ℤ pos 1)) " attempts")) e))
            (attempt + 1))
      else again e

  -- The wait before an attempt after the first, and then the attempt.
  abbrev pub after_wait : ℕ → Error → Option (Attempted A) → Option (Attempted A)
  after_wait zero last_err rest = rest
  after_wait (suc k) last_err rest = elim (cancelled (suc k)) [
    | some e ↦
        some
          (record (stop (failed e) (suc k)) { waits = delay_for jittered m (suc k) last_err ∷ [] })
    | none ↦ waited (delay_for jittered m (suc k) last_err) rest
  ]

  unfoldable pub attempts : String → ℕ → ℕ → Error → Option (Attempted A)
  unfolding is_retryable delay_for
  attempts label zero attempt last_err = none
  attempts label (suc fuel) attempt last_err =
      after_wait attempt last_err
        (judge label attempt (next attempt) (λ e. attempts label fuel (suc attempt) e))

  -- `WrapGenerate` and `WrapStream`, whose loops differ in the texts of their last errors.
  pub wrap_generate : ℕ → Option (Attempted A)
  unfolding attempts
  wrap_generate fuel = attempts "retry: " fuel 0 nil

  pub wrap_stream : ℕ → Option (Attempted A)
  unfolding attempts
  wrap_stream fuel = attempts "retry stream: " fuel 0 nil
