-- ===== src/Prelude/Lists.antt =====
-- Lists measured and indexed by native numbers, under the library's names.
use Prim.Native.Nat.{ℕ, zero, suc, ◌+◌, ◌-◌, ◌≤◌, min}
use mathlib.Core.Path.{◌≡◌, refl, sym, ap, ◌∙◌}
use mathlib.Core.Bool.{Bool}
use mathlib.Core.Option.{Option, none, some}
use mathlib.Core.List.{List, [], ◌∷◌, ◌++◌}
use native.Mathlib.Omega.{arith}
use gocel.Prelude.Tests.{if◌then◌else◌, nat_beq}

module _ {ℓ} {A : Type ℓ} where
  abbrev pub length : List A → ℕ
  length [] = 0
  length (x ∷ xs) = suc (length xs)

  abbrev pub take : ℕ → List A → List A
  take zero xs = []
  take (suc n) [] = []
  take (suc n) (x ∷ xs) = x ∷ take n xs

  abbrev pub drop : ℕ → List A → List A
  drop zero xs = xs
  drop (suc n) [] = []
  drop (suc n) (x ∷ xs) = drop n xs

  -- The library's `filter` takes a decision; a test is a Boolean here.
  abbrev pub filter : (A → Bool) → List A → List A
  filter p [] = []
  filter p (x ∷ xs) = if p x then x ∷ filter p xs else filter p xs

  pub length-append : (xs ys : List A) → length (xs ++ ys) ≡ length xs + length ys
  length-append [] ys = omega arith
  length-append (x ∷ xs) ys = omega (arith, length-append xs ys)

  pub length-drop : (n : ℕ) (xs : List A) → length (drop n xs) ≡ length xs - n
  length-drop zero xs = omega arith
  length-drop (suc n) [] = omega arith
  length-drop (suc n) (x ∷ xs) = omega (arith, length-drop n xs)

  pub length-take : (n : ℕ) (xs : List A) → length (take n xs) ≡ min n (length xs)
  length-take zero xs = omega arith
  length-take (suc n) [] = omega arith
  length-take (suc n) (x ∷ xs) = omega (arith, length-take n xs)

suc_add : (n m : ℕ) → suc (n + m) ≡ suc n + m
suc_add n m = omega arith

module _ {ℓ} {A : Type ℓ} where
  pub drop-append : (n : ℕ) (xs ys : List A) → n ≤ length xs → drop n (xs ++ ys) ≡ drop n xs ++ ys
  drop-append zero xs ys h = refl
  drop-append (suc n) [] ys h = absurd (omega arith)
  drop-append (suc n) (x ∷ xs) ys h = drop-append n xs ys (omega arith)

  pub drop-all : (n : ℕ) (xs : List A) → length xs ≤ n → drop n xs ≡ []
  drop-all zero [] h = refl
  drop-all zero (x ∷ xs) h = absurd (omega arith)
  drop-all (suc n) [] h = refl
  drop-all (suc n) (x ∷ xs) h = drop-all n xs (omega arith)

  pub drop-drop : (m n : ℕ) (xs : List A) → drop m (drop n xs) ≡ drop (n + m) xs
  drop-drop m zero xs = ap (λ k. drop k xs) (omega arith)
  drop-drop m (suc n) [] = drop-all m [] (omega arith) ∙ sym (drop-all (suc n + m) [] (omega arith))
  drop-drop m (suc n) (x ∷ xs) = drop-drop m n xs ∙ ap (λ k. drop k (x ∷ xs)) (suc_add n m)

-- One element of a list by its index, and the list with that element changed.
module _ {ℓ} {A : Type ℓ} where
  abbrev pub get_elem? : List A → ℕ → Option A
  get_elem? [] n = none
  get_elem? (x ∷ xs) zero = some x
  get_elem? (x ∷ xs) (suc n) = get_elem? xs n

  abbrev pub set_elem : List A → ℕ → A → List A
  set_elem [] n y = []
  set_elem (x ∷ xs) zero y = y ∷ xs
  set_elem (x ∷ xs) (suc n) y = x ∷ set_elem xs n y

  pub get_elem-set_elem :
      (xs : List A) (n k : ℕ) (x y : A)
      → get_elem? xs n ≡ some x
      → get_elem? (set_elem xs n y) k ≡ (if nat_beq n k then some y else get_elem? xs k)
  get_elem-set_elem [] n k x y h = absurd (cc h)
  get_elem-set_elem (a ∷ xs) zero zero x y h = refl
  get_elem-set_elem (a ∷ xs) zero (suc k) x y h = ground arith
  get_elem-set_elem (a ∷ xs) (suc n) zero x y h = ground arith
  get_elem-set_elem (a ∷ xs) (suc n) (suc k) x y h = ground (arith, get_elem-set_elem xs n k x y h)

  pub get_elem-set_elem_self :
      (xs : List A) (n : ℕ) (x y : A)
      → get_elem? xs n ≡ some x
      → get_elem? (set_elem xs n y) n ≡ some y
  get_elem-set_elem_self [] n x y h = absurd (cc h)
  get_elem-set_elem_self (a ∷ xs) zero x y h = refl
  get_elem-set_elem_self (a ∷ xs) (suc n) x y h = get_elem-set_elem_self xs n x y h

  pub set_elem-set_elem :
      (xs : List A) (n : ℕ) (y z : A) → set_elem (set_elem xs n y) n z ≡ set_elem xs n z
  set_elem-set_elem [] n y z = refl
  set_elem-set_elem (a ∷ xs) zero y z = refl
  set_elem-set_elem (a ∷ xs) (suc n) y z = ap (λ l. a ∷ l) (set_elem-set_elem xs n y z)

  pub get_elem-append :
      (xs ys : List A) (n : ℕ) (x : A) → get_elem? xs n ≡ some x → get_elem? (xs ++ ys) n ≡ some x
  get_elem-append [] ys n x h = absurd (cc h)
  get_elem-append (a ∷ xs) ys zero x h = h
  get_elem-append (a ∷ xs) ys (suc n) x h = get_elem-append xs ys n x h

  pub get_elem-snoc : (xs : List A) (x : A) → get_elem? (xs ++ x ∷ []) (length xs) ≡ some x
  get_elem-snoc [] x = refl
  get_elem-snoc (a ∷ xs) x = get_elem-snoc xs x

  pub get_elem-append_one :
      (xs : List A) (x : A) (n : ℕ)
      → get_elem? (xs ++ x ∷ []) n ≡ (if nat_beq (length xs) n then some x else get_elem? xs n)
  get_elem-append_one [] x zero = refl
  get_elem-append_one [] x (suc n) = ground arith
  get_elem-append_one (a ∷ xs) x zero = ground arith
  get_elem-append_one (a ∷ xs) x (suc n) = ground (arith, get_elem-append_one xs x n)

  pub get_elem-length : (xs : List A) → get_elem? xs (length xs) ≡ none
  get_elem-length [] = refl
  get_elem-length (a ∷ xs) = get_elem-length xs
