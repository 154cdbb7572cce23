-- ===== src/Session/Replacing.antt =====
-- core/session/log.go, `applyReplaceScratch`: what a replacement takes off the surface.
use gocel.Prelude.{
  total-full, total-count, count-append, total, subst, inl, Option-cases, ◌||◌, guard-eq-ok,
  drop-drop, length-take, ◌&&◌, ℕ, zero, suc, ◌+◌, ◌≤◌, ◌<◌, ◌≡◌, refl, ap, sym, ◌∙◌, Bool, true,
  false, List, [], ◌∷◌, ◌++◌, map, length, take, drop, count, if◌then◌else◌, inl, inr, guard-eq-ok,
  test-eq-ok, Option-cases, ok, err, arith,
}
use gocel.Prelude.Int.{
  +ℤ_parts, neg_part, pos_part, beq_ℤ_iff, beq_ℤ_iff, ◌+ℤ◌, beq_ℤ, ◌-ℤ◌, ltb_ℤ, leb_ℤ, ℤ, pos,
  int_eq,
}
use gocel.Prelude.Int.{ -ℤ_parts}
use gocel.Session.{off_surface, Node, start_index, count_shadowed, apply_replace_scratch}

abbrev pub seqs {ℓ} : {M : Type ℓ} → List (Node M) → List ℤ
seqs = map (λ n. n.seq)

abbrev pub within : (from to n : ℤ) → Bool
within from to n = leb_ℤ from n && leb_ℤ n to

-- k numbers from f on.
span : ℕ → ℕ → List ℤ
span f zero = []
span f (suc k) = pos f ∷ span (suc f) k

length-span : (f k : ℕ) → length (span f k) ≡ k
unfolding span
length-span f zero = refl
length-span f (suc k) = omega (arith, length-span (suc f) k)

count-span :
    (f k : ℕ) (n : ℤ)
    → count n (span f k) ≡ (if leb_ℤ (pos f) n && ltb_ℤ n (pos (f + k)) then 1 else 0)
unfolding span
count-span f zero n = ground arith
count-span f (suc k) n = ground (arith, count-span (suc f) k n)

-- As many different numbers as a span has, all in the span: each number of the span once.
span-full :
    (xs : List ℤ) (f k : ℕ)
    → length xs ≡ k
    → ((n : ℤ) → count n xs ≤ 1)
    → ((n : ℤ) → 0 < count n xs → 0 < count n (span f k))
    → (n : ℤ) → 0 < count n (span f k)
    → count n xs ≡ 1
span-full xs f k size once inside n h =
    let at_most : (m : ℤ) → count m (span f k) ≤ 1 = λ m. ground (arith, count-span f k m) in
    let counted : total (λ v. count v xs) (span f k) ≡ length xs =
      total-count xs (span f k) at_most inside in
    total-full (λ v. count v xs) (span f k) n once (omega (arith, counted, length-span f k)) h

count-span-within :
    (from to : ℤ) (k : ℕ) (n : ℤ)
    → leb_ℤ from (pos 0) ≡ false
    → ltb_ℤ to from ≡ false
    → pos k ≡ to -ℤ from +ℤ pos 1
    → count n (span (pos_part from) k) ≡ (if within from to n then 1 else 0)
count-span-within from to k n p q size =
    let parts : pos_part (pos k) + 0 ≡ pos_part (to -ℤ from +ℤ pos 1) + 0 =
      ap (λ z. pos_part z + 0) size in
    let negs : 0 ≡ neg_part (to -ℤ from +ℤ pos 1) = ap neg_part size in
    ground (arith, count-span (pos_part from) k n, +ℤ_parts (to -ℤ from) (pos 1), -ℤ_parts to from)

module _ {ℓ} {A : Type ℓ} where
  take-drop : (n : ℕ) (xs : List A) → take n xs ++ drop n xs ≡ xs
  take-drop zero xs = refl
  take-drop (suc n) [] = refl
  take-drop (suc n) (x ∷ xs) = ap (◌∷◌ x) (take-drop n xs)

module _ {ℓ} {M : Type ℓ} where
  pub seqs-append : (xs ys : List (Node M)) → seqs (xs ++ ys) ≡ seqs xs ++ seqs ys
  seqs-append [] ys = refl
  seqs-append (x ∷ xs) ys = ap (◌∷◌ x.seq) (seqs-append xs ys)

  count_shadowed-le : (f t : ℤ) (xs : List (Node M)) → count_shadowed f t xs ≤ length xs
  unfolding count_shadowed
  count_shadowed-le f t [] = omega arith
  count_shadowed-le f t (x ∷ xs) = ground (arith, count_shadowed-le f t xs)

  shadowed-within :
      (f t n : ℤ) (xs : List (Node M))
      → 0 < count n (seqs (take (count_shadowed f t xs) xs))
      → within f t n ≡ true
  unfolding count_shadowed
  shadowed-within f t n [] h = absurd (omega arith)
  shadowed-within f t n (x ∷ xs) h =
      ground (arith, int_eq.beq_iff x.seq n, shadowed-within f t n xs)

  -- What a successful replacement does, position by position.
  pub record Replaced (s s' : List (Node M)) (from to : ℤ) (r : Node M) : Type ℓ where
    pub before : List (Node M)
    pub block : List (Node M)
    pub after : List (Node M)
    pub was : s ≡ before ++ (block ++ after)
    pub becomes : s' ≡ before ++ r ∷ after
    pub positive : leb_ℤ from (pos 0) ≡ false
    pub ordered : ltb_ℤ to from ≡ false
    pub size : pos (length block) ≡ to -ℤ from +ℤ pos 1
    pub inside : (n : ℤ) → 0 < count n (seqs block) → within from to n ≡ true

  length-take_le : (n : ℕ) (xs : List (Node M)) → n ≤ length xs → length (take n xs) ≡ n
  length-take_le n xs h = omega (arith, length-take n xs)

  Replaced-at :
      (s : List (Node M)) (from to : ℤ) (r : Node M) (start : ℕ)
      → leb_ℤ from (pos 0) ≡ false
      → ltb_ℤ to from ≡ false
      → let k = count_shadowed from to (drop start s) in
        beq_ℤ (pos k) (to -ℤ from +ℤ pos 1) ≡ true
        → Replaced s (take start s ++ r ∷ drop (start + k) s) from to r
  Replaced-at s from to r start p q e =
      let k = count_shadowed from to (drop start s) in
      record {
        before = take start s;
        block = take k (drop start s);
        after = drop (start + k) s;
        was =
            sym (take-drop start s)
            ∙ ap (◌++◌ (take start s)) (
                sym (take-drop k (drop start s))
                ∙ ap (◌++◌ (take k (drop start s))) (drop-drop k start s));
        becomes = refl;
        positive = p;
        ordered = q;
        size =
            ap pos (length-take_le k (drop start s) (count_shadowed-le from to (drop start s)))
            ∙ (beq_ℤ_iff _ _).0 e;
        inside = λ n. shadowed-within from to n (drop start s);
      }

  pub replaced_lem :
      (s s' : List (Node M)) (from to : ℤ) (r : Node M)
      → apply_replace_scratch s from to r ≡ ok s'
      → Replaced s s' from to r
  unfolding apply_replace_scratch
  replaced_lem s s' from to r h =
      let (guard, found) = guard-eq-ok (leb_ℤ from (pos 0) || ltb_ℤ to from) _ _ h in
      elim (Option-cases (start_index from s)) [
        | inl missing ↦
            let bad : err (off_surface from) ≡ ok s' = rw missing at found in absurd (cc bad)
        | inr (start, place) ↦
            let (fits, same) = test-eq-ok _ _ _ (rw place at found) in
            subst (λ x. Replaced s x from to r) same
              (Replaced-at s from to r start (ground arith) (ground arith) fits)
      ]

  length-seqs : (xs : List (Node M)) → length (seqs xs) ≡ length xs
  length-seqs [] = refl
  length-seqs (x ∷ xs) = ap suc (length-seqs xs)

  pub count-seqs-append :
      (n : ℤ) (xs ys : List (Node M))
      → count n (seqs (xs ++ ys)) ≡ count n (seqs xs) + count n (seqs ys)
  count-seqs-append n xs ys = ap (count n) (seqs-append xs ys) ∙ count-append n (seqs xs) (seqs ys)

  module _ {s s' : List (Node M)} {from to : ℤ} {r : Node M} (v : Replaced s s' from to r) where
    count-was :
        (n : ℤ)
        → count n (seqs s)
          ≡ count n (seqs v.before) + (count n (seqs v.block) + count n (seqs v.after))
    count-was n =
        ap (λ x. count n (seqs x)) v.was
        ∙ count-seqs-append n v.before (v.block ++ v.after)
        ∙ ap (λ k. count n (seqs v.before) + k) (count-seqs-append n v.block v.after)

    count-becomes :
        (n : ℤ)
        → count n (seqs s')
          ≡ count n (seqs v.before) + (count n (r.seq ∷ []) + count n (seqs v.after))
    count-becomes n =
        ap (λ x. count n (seqs x)) v.becomes
        ∙ count-seqs-append n v.before (r ∷ v.after)
        ∙ omega arith

    module _ (once : (n : ℤ) → count n (seqs s) ≤ 1) where
      count-block : (n : ℤ) → count n (seqs v.block) ≡ (if within from to n then 1 else 0)
      count-block n =
          let k = length v.block in
          let spans : (m : ℤ)
              → count m (span (pos_part from) k) ≡ (if within from to m then 1 else 0) =
            λ m. count-span-within from to k m v.positive v.ordered v.size in
          let single : (m : ℤ) → count m (seqs v.block) ≤ 1 =
            λ m. omega (arith, count-was m, once m) in
          let full : 0 < count n (span (pos_part from) k) → count n (seqs v.block) ≡ 1 =
            span-full (seqs v.block) (pos_part from) k (length-seqs v.block) single
              (λ m h. ground (arith, v.inside m h, spans m)) n in
          ground (arith, full, spans n, v.inside n)

      pub count-was_within : (n : ℤ) → within from to n ≡ true → count n (seqs s) ≡ 1
      count-was_within n h = ground (arith, count-was n, count-block n, once n)

      pub count-replaced :
          (n : ℤ)
          → count n (seqs s')
            ≡ (if within from to n then 0 else count n (seqs s)) + count n (r.seq ∷ [])
      count-replaced n = ground (arith, count-was n, count-block n, once n, count-becomes n)
