-- ===== src/Prelude/Results.antt =====
-- A value or an error: Go's `(T, error)`.
use mathlib.Core.Path.{◌≡◌, refl}
use mathlib.Core.Logic.{◌⊎◌, inl, inr}
use mathlib.Core.Bool.{Bool, true, false}
use gocel.Prelude.Tests.{if◌then◌else◌}

pub data Result {ℓ κ} (E : Type ℓ) (A : Type κ) : Type (ℓ ⊔ κ) where
  ok : A → Result E A
  err : E → Result E A

pub Result-cases {ℓ κ} :
    {E : Type ℓ} {A : Type κ} (r : Result E A) → ((a : A) × (r ≡ ok a)) ⊎ ((e : E) × (r ≡ err e))
Result-cases (ok a) = inl (a, refl)
Result-cases (err e) = inr (e, refl)

module _ {ℓ κ} {E : Type ℓ} {A : Type κ} where
  pub guard-eq-ok :
      (b : Bool) (e : E) (y : Result E A) {a : A}
      → (if b then err e else y) ≡ ok a
      → (b ≡ false) × (y ≡ ok a)
  guard-eq-ok true e y h = absurd (cc h)
  guard-eq-ok false e y h = (refl, h)

  pub test-eq-ok :
      (b : Bool) (e : E) (x : A) {a : A} → (if b then ok x else err e) ≡ ok a → (b ≡ true) × (x ≡ a)
  test-eq-ok true e x h = (refl, cc h)
  test-eq-ok false e x h = absurd (cc h)

  pub ok_inj : {a b : A} → (let r : Result E A = ok a in r) ≡ ok b → a ≡ b
  ok_inj h = cc h
