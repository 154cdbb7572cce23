-- ===== src/Prelude/Dict.antt =====
-- Go maps as association lists. A missing key reads as `none`; a write keeps one entry for a key.
use Prim.Native.Nat.{◌+◌}
use mathlib.Core.Path.{◌≡◌, refl, ◌∙◌}
use mathlib.Core.Bool.{Bool, true, false}
use mathlib.Core.Option.{Option, none, some}
use mathlib.Core.List.{List, [], ◌∷◌, map}
use native.Mathlib.Omega.{arith}
use gocel.Prelude.Tests.{if◌then◌else◌}
use gocel.Prelude.Members.{contains, count}
use gocel.Prelude.Equality.{Comparable, ◌==◌, beq_self}

abbrev pub keys {ℓ κ} : {K : Type ℓ} {V : Type κ} → List (K × V) → List K
keys = map (λ p. p.0)

module _ {ℓ κ} {K : Type ℓ} {V : Type κ} ⦃e : Comparable K⦄ where
  unfoldable pub insert : K → V → List (K × V) → List (K × V)
  insert key new [] = (key, new) ∷ []
  insert key new ((k, old) ∷ rest) =
      if k == key then (key, new) ∷ rest else (k, old) ∷ insert key new rest

  unfoldable pub lookup : K → List (K × V) → Option V
  lookup key [] = none
  lookup key ((k, value) ∷ rest) = if k == key then some value else lookup key rest

  unfoldable pub remove : K → List (K × V) → List (K × V)
  remove k [] = []
  remove k ((j, w) ∷ m) = if j == k then remove k m else (j, w) ∷ remove k m

  abbrev pub has_key : K → List (K × V) → Bool
  has_key k m = elim (lookup k m) [ none ↦ false | some v ↦ true ]

  pub lookup-insert :
      (k j : K) (v : V) (m : List (K × V))
      → lookup j (insert k v m) ≡ (if k == j then some v else lookup j m)
  unfolding lookup insert
  lookup-insert key other new [] = refl
  lookup-insert key other new ((k, old) ∷ rest) = ground (
    arith,
    lookup-insert key other new rest,
    e.beq_iff k key,
    e.beq_iff k other,
    e.beq_iff key other,
  )

  pub lookup-insert_self : (k : K) (v : V) (m : List (K × V)) → lookup k (insert k v m) ≡ some v
  lookup-insert_self k v m = lookup-insert k k v m ∙ rw (beq_self k)

  pub lookup-remove :
      (k j : K) (m : List (K × V)) → lookup j (remove k m) ≡ (if k == j then none else lookup j m)
  unfolding lookup remove
  lookup-remove k j [] = ground arith
  lookup-remove k j ((i, w) ∷ m) =
      ground (arith, e.beq_iff k j, e.beq_iff i k, e.beq_iff i j, lookup-remove k j m)

  pub contains-keys : (k : K) (m : List (K × V)) → contains k (keys m) ≡ has_key k m
  unfolding lookup
  contains-keys k [] = refl
  contains-keys k ((j, v) ∷ m) = ground (arith, contains-keys k m)

  -- A write of a new key adds one key, any other write none.
  pub count-keys-insert :
      (k j : K) (v : V) (m : List (K × V))
      → count j (keys (insert k v m))
        ≡ (if contains k (keys m) then count j (keys m) else count j (keys m) + count j (k ∷ []))
  unfolding insert
  count-keys-insert k j v [] = ground arith
  count-keys-insert k j v ((i, w) ∷ m) = ground (arith, e.beq_iff i k, count-keys-insert k j v m)
