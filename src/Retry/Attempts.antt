-- ===== src/Retry/Attempts.antt =====
-- The loops of middleware/retry/retry.go: when they stop, and with what.
use gocel.Prelude.{
  ℕ, zero, suc, ◌+◌, ◌-◌, ◌≤◌, ◌<◌, ◌≡◌, refl, true, false, arith, String, Option, none, some, [],
  ◌∷◌, length, Bool-cases, Option-cases, inl, inr, subst, leb, nat_beq, nat_beq_iff,
}
use Prim.Native.String.{◌++◌ as append}
use gocel.Prelude.Int.{ℤ, pos, ◌+ℤ◌}
use gocel.Errors.{Error, wrapped, nil}
use gocel.Retry.{
  Middleware, mode_normal, Outcome, answered, failed, Attempted, stop, judge, after_wait, attempts,
  exhausted, is_retryable, delay_for,
}

module _ {ℓ} {A : Type ℓ} where
  -- The call ended with this outcome, after so many calls of `next`.
  abbrev pub Gives : Outcome A → ℕ → Option (Attempted A) → Type ℓ
  Gives outcome calls result =
      (r : Attempted A) × (result ≡ some r) × (r.outcome ≡ outcome) × (r.calls ≡ calls)

  -- No more than so many calls of `next`, and waits.
  abbrev pub Within : ℕ → ℕ → Option (Attempted A) → Type ℓ
  Within calls waits result =
      (r : Attempted A) × (result ≡ some r) × (r.calls ≤ calls) × (length r.waits ≤ waits)

  Within-less :
      (calls few waits : ℕ) (result : Option (Attempted A))
      → few ≤ waits
      → Within calls few result
      → Within calls waits result
  Within-less calls few waits result h (r, found, c, w) = (r, found, c, omega arith)

  -- An outcome that ends the loop whatever is left of the budget.
  abbrev pub Settles : Outcome A → Type 0
  Settles (answered a) = Unit {0}
  Settles (failed e) = is_retryable e ≡ false

module _ {ℓ} {A : Type ℓ} (print : ℤ → String) (cancelled : ℕ → Option Error) (jittered : ℕ → ℕ → ℕ)
    (next : ℕ → Outcome A) (m : Middleware) (label : String) where
  abbrev pub loop : ℕ → ℕ → Error → Option (Attempted A)
  loop = attempts print cancelled jittered next m label

  -- The error of a call whose budget is spent.
  abbrev pub gave_up : Error → Error
  gave_up e = wrapped (append label (append (print (m.max_retries +ℤ pos 1)) " attempts")) e

  -- An attempt that the loop follows with another one.
  abbrev pub Retried : ℕ → Type ℓ
  Retried i =
      (e : Error) × (next i ≡ failed e)
      × (is_retryable e ≡ true)
      × (exhausted m.mode m.max_retries i ≡ false)

  after_wait-Gives :
      (outcome : Outcome A) (calls k : ℕ) (last : Error) (rest : Option (Attempted A))
      → (0 < k → cancelled k ≡ none)
      → Gives outcome calls rest
      → Gives outcome calls (after_wait print cancelled jittered next m k last rest)
  after_wait-Gives outcome calls zero last rest free g = g
  after_wait-Gives outcome calls (suc k) last rest free (r, found, o, c) = (
    record r { waits = delay_for jittered m (suc k) last ∷ r.waits },
    rw (free (omega arith), found, after_wait) refl,
    o,
    c,
  )

  -- The loop comes to attempt `j` if all before it are retried.
  reach :
      (outcome : Outcome A) (calls j fuel k : ℕ) (last : Error)
      → ((i : ℕ) → i < j → Retried i)
      → ((i : ℕ) → 0 < i → i < j → cancelled i ≡ none)
      → ((fuel : ℕ) (e : Error) → Gives outcome calls (loop (suc fuel) j e))
      → k ≤ j
      → j < k + fuel
      → Gives outcome calls (loop fuel k last)
  unfolding attempts
  reach outcome calls j zero k last all free end le lt = absurd (omega arith)
  reach outcome calls j (suc fuel) k last all free end le lt = elim (Bool-cases (nat_beq j k)) [
    | inl here ↦
        subst (λ i. Gives outcome calls (loop (suc fuel) i last)) ((nat_beq_iff j k).0 here)
          (end fuel last)
    | inr before ↦
        let below : k < j = ground (arith, before) in
        let (e, fails, again, more) = all k below in
        after_wait-Gives outcome calls k last _ (λ h. free k h below)
          (rw (fails, again, more)
            (reach outcome calls j fuel (suc k) e all free end (omega arith) (omega arith)))
  ]

  settle :
      (outcome : Outcome A) (j : ℕ) (again : Error → Option (Attempted A))
      → Settles outcome
      → Gives outcome (j + 1) (judge print cancelled jittered next m label j outcome again)
  settle (answered a) j again s = (stop (answered a) (j + 1), refl, refl, refl)
  settle (failed e) j again s = (stop (failed e) (j + 1), rw s refl, refl, refl)

  -- With fuel for attempt j: if the attempts before it all fail in a way that is retried, and no
  -- wait is cancelled, a success or a permanent failure of attempt j is what the call returns,
  -- after j + 1 calls.
  pub first_settled :
      (fuel j : ℕ)
      → ((i : ℕ) → i < j → Retried i)
      → ((i : ℕ) → 0 < i → i ≤ j → cancelled i ≡ none)
      → Settles (next j)
      → j < fuel
      → Gives (next j) (j + 1) (loop fuel 0 nil)
  unfolding attempts
  first_settled fuel j all free settles room =
      reach (next j) (j + 1) j fuel 0 nil all (λ i h l. free i h (omega arith))
        (λ left e.
          after_wait-Gives (next j) (j + 1) j e _ (λ h. free j h (omega arith))
            (settle (next j) j _ settles))
        (omega arith) (omega arith)

  stopped :
      (k : ℕ) (e last : Error) (rest : Option (Attempted A))
      → cancelled (suc k) ≡ some e
      → after_wait print cancelled jittered next m (suc k) last rest
        ≡ some (record (stop (failed e) (suc k)) { waits = delay_for jittered m (suc k) last ∷ [] })
  stopped k e last rest h = rw (h, after_wait) refl

  -- A wait that the context ends is the end of the call, with the context's error: the attempt after
  -- it is not made.
  pub cancelled_stops :
      (fuel j : ℕ) (e : Error)
      → ((i : ℕ) → i < j → Retried i)
      → ((i : ℕ) → 0 < i → i < j → cancelled i ≡ none)
      → 0 < j
      → cancelled j ≡ some e
      → j < fuel
      → Gives (failed e) j (loop fuel 0 nil)
  unfolding attempts
  cancelled_stops fuel zero e all free h stops room = absurd (omega arith)
  cancelled_stops fuel (suc k) e all free h stops room =
      reach (failed e) (suc k) (suc k) fuel 0 nil all free
        (λ left last. (
          record (stop (failed e) (suc k)) { waits = delay_for jittered m (suc k) last ∷ [] },
          stopped k e last _ stops,
          refl,
          refl,
        ))
        (omega arith) (omega arith)

  after_wait-Within :
      (calls waits k : ℕ) (last : Error) (rest : Option (Attempted A))
      → k ≤ calls
      → Within calls (waits - k) rest
      → k ≤ waits
      → Within calls (waits - (k - 1)) (after_wait print cancelled jittered next m k last rest)
  after_wait-Within calls waits zero last rest h w l = w
  after_wait-Within calls waits (suc k) last rest h (r, found, c, few) l =
      elim (Option-cases (cancelled (suc k))) [
        | inr (e, stops) ↦ (_, stopped k e last rest stops, h, omega arith)
        | inl free ↦ (
          record r { waits = delay_for jittered m (suc k) last ∷ r.waits },
          rw (free, found, after_wait) refl,
          c,
          omega (arith, few),
        )
      ]

  exhausted-normal :
      (n k : ℕ)
      → m.mode ≡ mode_normal
      → m.max_retries ≡ pos n
      → exhausted m.mode m.max_retries k ≡ leb n k
  exhausted-normal n k normal budget = rw (normal, budget) (ground arith)

  judge-Within :
      (n k : ℕ) (outcome : Outcome A) (again : Error → Option (Attempted A))
      → m.mode ≡ mode_normal
      → m.max_retries ≡ pos n
      → k ≤ n
      → (k < n → (e : Error) → Within (n + 1) (n - k) (again e))
      → Within (n + 1) (n - k) (judge print cancelled jittered next m label k outcome again)
  judge-Within n k (answered a) again normal budget h more =
      (stop (answered a) (k + 1), refl, omega arith, omega arith)
  judge-Within n k (failed e) again normal budget h more = elim (Bool-cases (is_retryable e)) [
    | inr permanent ↦ (stop (failed e) (k + 1), rw permanent refl, omega arith, omega arith)
    | inl again' ↦ elim (Bool-cases (leb n k)) [
      | inl spent ↦ (
        stop (failed (gave_up e)) (k + 1),
        rw (again', exhausted-normal n k normal budget, spent) refl,
        omega arith,
        omega arith,
      )
      | inr left ↦
          rw (again', exhausted-normal n k normal budget, left) (more (ground (arith, left)) e)
    ]
  ]

  loop-Within :
      (n fuel k : ℕ) (last : Error)
      → m.mode ≡ mode_normal
      → m.max_retries ≡ pos n
      → k ≤ n
      → n < k + fuel
      → Within (n + 1) (n - (k - 1)) (loop fuel k last)
  unfolding attempts
  loop-Within n zero k last normal budget h room = absurd (omega arith)
  loop-Within n (suc fuel) k last normal budget h room =
      after_wait-Within (n + 1) n k last _ (omega arith)
        (judge-Within n k (next k) _ normal budget h (λ l e.
          Within-less (n + 1) (n - (suc k - 1)) (n - k) _ (omega arith)
            (loop-Within n fuel (suc k) e normal budget (omega arith) (omega arith))))
        h

  -- In ModeNormal with a budget of n retries, and more fuel than n, the call returns, after at
  -- most n + 1 calls of the handler and at most n waits.
  pub attempts-total :
      (n fuel : ℕ)
      → m.mode ≡ mode_normal
      → m.max_retries ≡ pos n
      → n < fuel
      → Within (n + 1) n (loop fuel 0 nil)
  attempts-total n fuel normal budget room =
      Within-less (n + 1) (n - (0 - 1)) n _ (omega arith)
        (loop-Within n fuel 0 nil normal budget (omega arith) (omega arith))

  give_up :
      (n : ℕ) (e : Error) (more : Error → Option (Attempted A))
      → m.mode ≡ mode_normal
      → m.max_retries ≡ pos n
      → is_retryable e ≡ true
      → next n ≡ failed e
      → Gives
          (failed (gave_up e))
          (n + 1)
          (judge print cancelled jittered next m label n (next n) more)
  give_up n e more normal budget again fails =
      let spent : leb n n ≡ true = ground arith in
      (
        stop (failed (gave_up e)) (n + 1),
        rw (fails, again, exhausted-normal n n normal budget, spent) refl,
        refl,
        refl,
      )

  -- In ModeNormal with a budget of n retries, and more fuel than n: if the first n + 1 attempts
  -- all fail in a way that could be retried, and no wait is cancelled, the call returns the last
  -- of these errors, wrapped, after n + 1 calls of the handler.
  pub gives_up :
      (n fuel : ℕ) (e : Error)
      → m.mode ≡ mode_normal
      → m.max_retries ≡ pos n
      → ((i : ℕ) → i < n → (e : Error) × (next i ≡ failed e) × (is_retryable e ≡ true))
      → ((i : ℕ) → 0 < i → i ≤ n → cancelled i ≡ none)
      → next n ≡ failed e
      → is_retryable e ≡ true
      → n < fuel
      → Gives (failed (gave_up e)) (n + 1) (loop fuel 0 nil)
  unfolding attempts
  gives_up n fuel e normal budget all free fails again room =
      reach _ (n + 1) n fuel 0 nil
        (λ i h. let (d, f, a) = all i h in (d, f, a, rw (normal, budget) (ground arith)))
        (λ i h l. free i h (omega arith))
        (λ left last.
          after_wait-Gives _ (n + 1) n last _ (λ h. free n h (omega arith))
            (give_up n e _ normal budget again fails))
        (omega arith) (omega arith)
