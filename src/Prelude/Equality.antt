-- ===== src/Prelude/Equality.antt =====
-- Equality tests as an interface, with the instances that the program compares by.
use Prim.Native.Nat.{ℕ}
use Prim.Native.String.{String}
use mathlib.Core.Path.{◌≡◌, refl}
use mathlib.Core.Logic.{◌↔◌, ◌≢◌, inl, inr}
use mathlib.Core.Bool.{Bool, true, false}
use text.Mathlib.Text.{◌==◌ as str_eq}
use text.Mathlib.TextEquality.{eq_iff}
use gocel.Prelude.Tests.{nat_beq, nat_beq_iff, Bool-cases}

pub record Comparable {κ} (K : Type κ) : Type κ where
  pub beq : (a b : K) → Bool
  pub beq_iff : (k j : K) → (beq k j ≡ true) ↔ (k ≡ j)

instance abbrev pub string_eq : Comparable String
string_eq = record { beq = str_eq; beq_iff = eq_iff }

instance abbrev pub nat_eq : Comparable ℕ
nat_eq = record { beq_iff = nat_beq_iff; beq = nat_beq }

abbrev pub ◌==◌ {κ} : {K : Type κ} ⦃test : Comparable K⦄ (k j : K) → Bool
◌==◌ ⦃test⦄ k j = test.beq k j

infix 50 ◌==◌
module _ {ℓ} {A : Type ℓ} ⦃e : Comparable A⦄ where
  pub beq_self : (a : A) → (a == a) ≡ true
  beq_self a = (e.beq_iff a a).1 refl

  pub beq_false : (a b : A) → a ≢ b → (a == b) ≡ false
  beq_false a b h = elim (Bool-cases (a == b)) [
    | inl same ↦ absurd (h ((e.beq_iff a b).0 same))
    | inr differ ↦ differ
  ]
