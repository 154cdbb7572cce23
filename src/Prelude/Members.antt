-- ===== src/Prelude/Members.antt =====
-- Membership in a list as a test, and the removal of the first occurrence.
use Prim.Native.Nat.{ℕ, suc, ◌+◌, ◌≤◌, ◌<◌}
use mathlib.Core.Path.{◌≡◌, refl}
use mathlib.Core.Bool.{Bool, true, false, ◌||◌}
use mathlib.Core.List.{List, [], ◌∷◌, ◌++◌}
use native.Mathlib.Omega.{arith}
use gocel.Prelude.Tests.{if◌then◌else◌, ltb}
use gocel.Prelude.Lists.{length, filter}
use gocel.Prelude.Equality.{Comparable, ◌==◌}

module _ {ℓ} {A : Type ℓ} ⦃e : Comparable A⦄ where
  abbrev pub contains : A → List A → Bool
  contains a [] = false
  contains a (x ∷ xs) = x == a || contains a xs

  abbrev pub erase : A → List A → List A
  erase a [] = []
  erase a (x ∷ xs) = if x == a then xs else x ∷ erase a xs

  pub length-erase :
      (a : A) (xs : List A) → contains a xs ≡ true → suc (length (erase a xs)) ≡ length xs
  length-erase a [] h = ground arith
  length-erase a (x ∷ xs) h = ground (arith, length-erase a xs)

  pub contains-append :
      (a : A) (xs ys : List A) → contains a (xs ++ ys) ≡ (contains a xs || contains a ys)
  contains-append a [] ys = refl
  contains-append a (x ∷ xs) ys = ground (arith, contains-append a xs ys)

  pub contains-erase :
      (a b : A) (xs : List A) → contains b (erase a xs) ≡ true → contains b xs ≡ true
  contains-erase a b [] h = h
  contains-erase a b (x ∷ xs) h = ground (arith, contains-erase a b xs)

  abbrev pub count : A → List A → ℕ
  count a [] = 0
  count a (x ∷ xs) = (if x == a then 1 else 0) + count a xs

  pub count-append : (a : A) (xs ys : List A) → count a (xs ++ ys) ≡ count a xs + count a ys
  count-append a [] more = ground arith
  count-append a (first ∷ rest) more = ground (arith, count-append a rest more)

  pub contains-count : (a : A) (xs : List A) → contains a xs ≡ ltb 0 (count a xs)
  contains-count a [] = ground arith
  contains-count a (x ∷ xs) = ground (arith, contains-count a xs)

  -- A sum over a list of indices.
  abbrev pub total : (A → ℕ) → List A → ℕ
  total f [] = 0
  total f (x ∷ xs) = f x + total f xs

  total-zero : (f : A → ℕ) (xs : List A) → ((x : A) → f x ≡ 0) → total f xs ≡ 0
  total-zero f [] h = refl
  total-zero f (x ∷ xs) h = omega (arith, h x, total-zero f xs h)

  total-count_cons :
      (x : A) (xs ids : List A)
      → total (λ v. count v (x ∷ xs)) ids ≡ count x ids + total (λ v. count v xs) ids
  total-count_cons x xs [] = omega arith
  total-count_cons x xs (i ∷ ids) =
      ground (arith, e.beq_iff x i, e.beq_iff i x, total-count_cons x xs ids)

  -- Each index once, and only indices in the list: the counts add up to the length.
  pub total-count :
      (xs ids : List A)
      → ((v : A) → count v ids ≤ 1)
      → ((v : A) → 0 < count v xs → 0 < count v ids)
      → total (λ v. count v xs) ids ≡ length xs
  total-count [] ids once within = total-zero (λ v. 0) ids (λ v. refl)
  total-count (x ∷ xs) ids once within = omega (
    arith,
    total-count_cons x xs ids,
    total-count xs ids once (λ v h. within v (omega arith)),
    once x,
    within x (ground (arith, e.beq_iff x x)),
  )

  pub total-le : (f : A → ℕ) (ids : List A) → ((v : A) → f v ≤ 1) → total f ids ≤ length ids
  total-le f [] h = omega arith
  total-le f (i ∷ ids) h = omega (arith, h i, total-le f ids h)

  -- If they add up to the number of indices, and none is above 1, all are 1.
  pub total-full :
      (f : A → ℕ) (ids : List A) (v : A)
      → ((x : A) → f x ≤ 1)
      → length ids ≤ total f ids
      → 0 < count v ids
      → f v ≡ 1
  total-full f [] v h full c = absurd (omega arith)
  total-full f (i ∷ ids) v h full c =
      ground (arith, e.beq_iff i v, h i, total-le f ids h, total-full f ids v h)

  pub total-ones :
      (f : A → ℕ) (ids : List A) → ((v : A) → 0 < count v ids → f v ≡ 1) → total f ids ≡ length ids
  total-ones f [] h = refl
  total-ones f (i ∷ ids) h =
      omega
        (arith, h i (ground (arith, e.beq_iff i i)), total-ones f ids (λ v c. h v (ground arith)))

  pub count-filter :
      (p : A → Bool) (a : A) (xs : List A) → count a (filter p xs) ≡ (if p a then count a xs else 0)
  count-filter p a [] = ground arith
  count-filter p a (x ∷ xs) = ground (arith, e.beq_iff x a, count-filter p a xs)

  pub total_mono : (f g : A → ℕ) (ids : List A) → ((v : A) → f v ≤ g v) → total f ids ≤ total g ids
  total_mono f g [] h = omega arith
  total_mono f g (i ∷ ids) h = omega (arith, h i, total_mono f g ids h)

  pub total-drop :
      (f g : A → ℕ) (ids : List A) (v : A)
      → ((x : A) → f x ≤ g x)
      → f v < g v
      → 0 < count v ids
      → total f ids < total g ids
  total-drop f g [] v h less c = absurd (omega arith)
  total-drop f g (i ∷ ids) v h less c =
      ground (arith, e.beq_iff i v, h i, total_mono f g ids h, total-drop f g ids v h less)
