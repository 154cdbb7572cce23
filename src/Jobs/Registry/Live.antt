-- ===== src/Jobs/Registry/Live.antt =====
-- The jobs of an owner in a registry of core/jobs/jobs.go whose goroutine is not done, and their count.
use gocel.Prelude.{
  some_inj, subst, ℕ, suc, zero, ◌+◌, ◌-◌, ◌<◌, ◌≡◌, refl, ap, ◌∙◌, Bool, true, false, not, ◌||◌,
  ◌&&◌, List, [], ◌∷◌, ◌++◌, String, some, lookup, lookup-insert, string_eq, ◌==◌, ltb, leb,
  if◌then◌else◌, get_elem?, set_elem, arith, Bool-cases, Option-cases, inl, inr,
}
use gocel.Jobs.Registry.{
  Registry, Entry, Stage, gone, killed, Spec, owned, count_or_zero, at_limit, add_job, drop_one,
}
use gocel.Jobs.Registry.Control.{is_running, is_final, teardown_items}

abbrev pub is_gone : Stage → Bool
is_gone gone = true
is_gone _ = false

pub snd_if :
    {A B : Type 0} (b : Bool) (p q : A × B) (z : B) → p.1 ≡ z → q.1 ≡ z → (if b then p else q).1 ≡ z
snd_if true p q z h k = h
snd_if false p q z h k = k

module _ (owner : String) where
  abbrev pub weight : Entry → ℕ
  weight e = if e.owner == owner then (if is_gone e.stage then 0 else 1) else 0

  -- The jobs of the owner whose goroutine is not done.
  abbrev pub live : List Entry → ℕ
  live [] = 0
  live (e ∷ es) = weight e + live es

  pub live-append : (es : List Entry) (e : Entry) → live (es ++ e ∷ []) ≡ live es + weight e
  live-append [] e = omega arith
  live-append (x ∷ es) e = omega (arith, live-append es e)

  pub live-set_elem :
      (es : List Entry) (n : ℕ) (old new : Entry)
      → get_elem? es n ≡ some old
      → live (set_elem es n new) + weight old ≡ live es + weight new
  live-set_elem [] n old new h = absurd (cc h)
  live-set_elem (e ∷ es) zero old new h = ground (arith, ap (λ x. weight x) (some_inj.0 h))
  live-set_elem (e ∷ es) (suc n) old new h = omega (arith, live-set_elem es n old new h)

  pub live-teardown_items :
      (o : String) (items : List (String × ℕ)) (es : List Entry)
      → live (teardown_items o items es).1 ≡ live es
  unfolding teardown_items
  live-teardown_items o [] es = refl
  live-teardown_items o ((id, address) ∷ items) es = elim (Option-cases (get_elem? es address)) [
    | inl absent ↦ rw (teardown_items, absent) (live-teardown_items o items es)
    | inr (e, found) ↦
        let cut = record e { status = killed; cancelled = e.cancelled || e.armed } in
        let now = if e.owner == o && is_running e.status then cut else e in
        let same : weight now ≡ weight e = ground arith in
        rw (teardown_items, found)
          (ap live (snd_if (e.owner == o && is_final now.status) _ _ _ refl refl)
            ∙ live-teardown_items o items (set_elem es address now)
            ∙ omega (arith, live-set_elem es address e now found, same))
  ]

  module _ (named : (owner == "") ≡ false) where
    pub owned-drop_one :
        (o : String) (per_owner : List (String × ℕ))
        → count_or_zero (lookup owner (drop_one o per_owner)) ≡ (
            if o == owner
            then count_or_zero (lookup owner per_owner) - 1
            else count_or_zero (lookup owner per_owner))
    owned-drop_one o per_owner =
        let n = count_or_zero (lookup o per_owner) in
        let stored = ap count_or_zero (lookup-insert o owner (n - 1) per_owner) in
        elim (Bool-cases (o == owner)) [
          | inl hit ↦
              let here : o ≡ owner = (string_eq.beq_iff o owner).0 hit in
              let told : (o == "") ≡ false = ap (λ s. s == "") here ∙ named in
              let same : n ≡ count_or_zero (lookup owner per_owner) =
                ap (λ s. count_or_zero (lookup s per_owner)) here in
              elim (Bool-cases (ltb 0 n)) [
                | inl some_left ↦ rw (hit, told, some_left) (stored ∙ rw hit (ap (λ k. k - 1) same))
                | inr none_left ↦ rw (hit, told, none_left) (ground (arith, same, none_left))
              ]
          | inr miss ↦ elim (Bool-cases (o == "")) [
            | inl blank ↦ rw (miss, blank) refl
            | inr told ↦ elim (Bool-cases (ltb 0 n)) [
              | inl some_left ↦ rw (miss, told, some_left) (stored ∙ rw miss refl)
              | inr none_left ↦ rw (miss, told, none_left) refl
            ]
          ]
        ]

    pub owned-add_job :
        (id : String) (seq : ℕ) (spec : Spec) (r : Registry)
        → owned owner (add_job id seq spec r)
          ≡ owned owner r + (if spec.owner == owner then 1 else 0)
    unfolding add_job
    owned-add_job id seq spec r =
        let stored =
          ap count_or_zero (lookup-insert spec.owner owner (owned spec.owner r + 1) r.per_owner) in
        elim (Bool-cases (spec.owner == owner)) [
          | inl ours ↦
              let here : spec.owner ≡ owner = (string_eq.beq_iff spec.owner owner).0 ours in
              let told : (spec.owner == "") ≡ false = ap (λ s. s == "") here ∙ named in
              rw (ours, told) (stored ∙ rw ours (ap (λ s. owned s r + 1) here))
          | inr other ↦ elim (Bool-cases (spec.owner == "")) [
            | inl blank ↦ rw (other, blank) (omega arith)
            | inr told ↦ rw (other, told) (stored ∙ rw other (omega arith))
          ]
        ]

    pub room_left :
        (spec : Spec) (r : Registry)
        → (spec.owner == owner) ≡ true
        → at_limit spec r ≡ false
        → owned owner r < r.max_per_owner
    room_left spec r ours room =
        let here : spec.owner ≡ owner = (string_eq.beq_iff spec.owner owner).0 ours in
        let there =
          subst (λ o. (not (o == "") && leb r.max_per_owner (owned o r)) ≡ false) here room in
        ground (arith, there, named)
