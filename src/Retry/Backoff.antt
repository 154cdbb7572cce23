-- ===== src/Retry/Backoff.antt =====
-- How long the loops of middleware/retry/retry.go wait.
use gocel.Prelude.{
  ◌⊎◌, ℕ, zero, suc, ◌+◌, ◌*◌, ◌≤◌, ◌<◌, ◌≡◌, arith, if◌then◌else◌, ltb, ap, ◌∙◌, not, ◌||◌,
  Bool-cases, inl, inr,
}
use Prim.Native.Nat.{◌^◌, min}
use gocel.Errors.{Error}
use gocel.Retry.{
  delay_for, provider_retry_after, Middleware, wrap, less, is_positive, shift, backoff,
}

product_pos : (a b : ℕ) → 0 < a → 0 < b → 0 < a * b
product_pos zero b h k = absurd (omega arith)
product_pos (suc a) b h k = omega arith

power_pos : (n : ℕ) → 0 < 2 ^ n
power_pos zero = omega arith
power_pos (suc n) = omega (arith, power_pos n)

wrap_below : (n : ℕ) → wrap n < 2 ^ 64
wrap_below n = omega arith

pub wrap_small : (n : ℕ) → n < 2 ^ 64 → wrap n ≡ n
wrap_small n h = omega arith

-- On words that are not negative, the signed order is that of the numbers.
pub less_plain : (a b : ℕ) → a < 2 ^ 63 → b < 2 ^ 63 → less a b ≡ ltb a b
less_plain a b h k =
    ground (arith, wrap_small (a + 2 ^ 63) (omega arith), wrap_small (b + 2 ^ 63) (omega arith))

-- The choice of the last lines of `backoff`.
abbrev clamp : ℕ → ℕ → ℕ
clamp top d = if less top d || not (is_positive d) then top else d

clamp_bounds : (top d : ℕ) → 0 < top → top < 2 ^ 63 → (0 < clamp top d) × (clamp top d ≤ top)
clamp_bounds top d h k = elim (Bool-cases (is_positive d)) [
  | inl fits ↦ ground (arith, fits, less_plain top d k (ground (arith, fits)))
  | inr out ↦ rw out (ground arith)
]

clamp-min : (top d : ℕ) → top < 2 ^ 63 → 0 < d → d < 2 ^ 63 → clamp top d ≡ min d top
clamp-min top d h k l = ground (arith, less_plain top d h l)

-- With a positive maximum, the delay is positive and within it, even where the product overflows.
backoff_bounds :
    (m : Middleware) (attempt : ℕ)
    → 0 < m.max_delay
    → m.max_delay < 2 ^ 63
    → 0 < attempt
    → (0 < backoff m attempt) × (backoff m attempt ≤ m.max_delay)
unfolding backoff
backoff_bounds m zero pos_max max_fits h = absurd (omega arith)
backoff_bounds m (suc k) pos_max max_fits h =
    clamp_bounds m.max_delay (wrap (m.base_delay * 2 ^ shift (suc k))) pos_max max_fits

-- With a positive base, and where the product does not overflow, the wait is the base times 2 to the
-- number of earlier retries, up to 62, or the maximum if that is less.
pub backoff_exact :
    (m : Middleware) (attempt : ℕ)
    → m.max_delay < 2 ^ 63
    → 0 < attempt
    → 0 < m.base_delay
    → m.base_delay * 2 ^ shift attempt < 2 ^ 63
    → backoff m attempt ≡ min (m.base_delay * 2 ^ shift attempt) m.max_delay
unfolding backoff
backoff_exact m zero max_fits h pos_base fits = absurd (omega arith)
backoff_exact m (suc k) max_fits h pos_base fits =
    let d = m.base_delay * 2 ^ shift (suc k) in
    ap (clamp m.max_delay) (wrap_small d (omega arith))
    ∙ clamp-min m.max_delay d max_fits
        (product_pos m.base_delay (2 ^ shift (suc k)) pos_base (power_pos (shift (suc k)))) fits

-- With a positive maximum, and a jitter that moves a delay within it by at most a given spread,
-- the wait before a further attempt is positive and within the maximum, or it is within the spread
-- of a backoff that is, even where the products overflow.
pub delay_for_bounds :
    (jittered : ℕ → ℕ → ℕ) (m : Middleware) (attempt spread : ℕ) (e : Error)
    → 0 < m.max_delay
    → m.max_delay < 2 ^ 63
    → 0 < attempt
    → ((d : ℕ)
        → d ≤ m.max_delay
        → (d ≤ jittered attempt d + spread) × (jittered attempt d ≤ d + spread))
    → let wait = delay_for jittered m attempt e in
      let delay = backoff m attempt in
      ((0 < wait) × (wait ≤ m.max_delay))
      ⊎ ((0 < delay) × (delay ≤ m.max_delay) × (delay ≤ wait + spread) × (wait ≤ delay + spread))
unfolding delay_for
delay_for_bounds jittered m attempt spread e pos_max max_fits h near =
    let (some_delay, within) = backoff_bounds m attempt pos_max max_fits h in
    let (low, high) = near (backoff m attempt) within in
    elim (Bool-cases (is_positive (provider_retry_after e))) [
      | inr none_given ↦ inr (rw (delay_for, none_given) (some_delay, within, low, high))
      | inl given ↦
          let wait = provider_retry_after e in
          let order : less m.max_delay wait ≡ ltb m.max_delay wait =
            less_plain m.max_delay wait max_fits (ground (arith, given)) in
          inl (rw (delay_for, given, order) (ground (arith, given)))
    ]
