-- ===== src/Registry/Telling.antt =====
-- core/registry/registry.go, `Register`: whose observers are told.
use gocel.Prelude.{
  ℕ, zero, suc, ◌<◌, ◌≡◌, refl, ap, sym, ◌∙◌, true, false, List, [], ◌∷◌, String, Option, none,
  some, get_elem?, set_elem, get_elem-set_elem, contains, nat_eq, nat_beq, nat_beq_iff,
  if◌then◌else◌, Bool-cases, Option-cases, inl, inr, subst, arith, some_inj, lookup, insert,
  string_eq, ◌==◌,
}
use gocel.Registry.{
  Registry, World, Entry, walk, ancestry, scope_at, tell_each, tell_added, bubble, register_found,
  register,
}
use gocel.Registry.Links.{Ordered, Below, ancestry-ends, Same, Same-set_elem}

-- No address twice.
abbrev pub Distinct : List ℕ → Type 0
Distinct [] = Unit
Distinct (a ∷ rest) = (contains a rest ≡ false) × Distinct rest

module _ {ℓ} {T : Type ℓ} where
  Below-less :
      (bound : ℕ) (w : World T) (visited : List ℕ) (b : ℕ) (x : Registry T)
      → Below bound w visited
      → contains b visited ≡ true
      → get_elem? w b ≡ some x
      → x.scope < bound
  Below-less bound w [] b x v c found = absurd (cc c)
  Below-less bound w (a ∷ rest) b x (r, there, less, v) c found = elim (Bool-cases (nat_beq a b)) [
    | inl hit ↦
        let same : r ≡ x =
          some_inj.0 (sym there ∙ ap (get_elem? w) ((nat_beq_iff a b).0 hit) ∙ found) in
        omega (arith, ap (λ y. y.scope) same)
    | inr miss ↦ omega (arith, Below-less r.scope w rest b x v (rw miss at c) found)
  ]

  Below-Distinct :
      (w : World T) (a : ℕ) (r : Registry T) (rest : List ℕ)
      → get_elem? w a ≡ some r
      → Below r.scope w rest
      → Distinct (a ∷ rest)
  Below-Distinct w a r [] found v = (refl, tt)
  Below-Distinct w a r (b ∷ rest) found (x, there, less, v) = (
    elim (Bool-cases (contains a (b ∷ rest))) [
      | inl again ↦
          let below : r.scope < r.scope =
            Below-less r.scope w (b ∷ rest) a r (x, there, less, v) again found in
          absurd (omega arith)
      | inr once ↦ once
    ],
    Below-Distinct w b x rest there v,
  )

  tell_each-elsewhere :
      (tell : Registry T → Registry T) (visited : List ℕ) (w : World T) (b : ℕ)
      → contains b visited ≡ false
      → get_elem? (tell_each tell visited w) b ≡ get_elem? w b
  unfolding tell_each
  tell_each-elsewhere tell [] w b c = refl
  tell_each-elsewhere tell (a ∷ rest) w b c = elim (Option-cases (get_elem? w a)) [
    | inl e ↦ rw (tell_each, e) (tell_each-elsewhere tell rest w b (ground arith))
    | inr (r, e) ↦
        let apart : nat_beq a b ≡ false = ground arith in
        let goes : tell_each tell (a ∷ rest) w ≡ tell_each tell rest (set_elem w a (tell r)) =
          rw (tell_each, e) refl in
        ap (λ u. get_elem? u b) goes
        ∙ tell_each-elsewhere tell rest (set_elem w a (tell r)) b (ground arith)
        ∙ get_elem-set_elem w a b r (tell r) e
        ∙ rw apart refl
  ]

  tell_each-at :
      (tell : Registry T → Registry T) (visited : List ℕ) (w : World T) (b : ℕ) (x : Registry T)
      → Distinct visited
      → get_elem? w b ≡ some x
      → get_elem? (tell_each tell visited w) b ≡ some (if contains b visited then tell x else x)
  unfolding tell_each
  tell_each-at tell [] w b x d found = found
  tell_each-at tell (a ∷ rest) w b x (once, d) found = elim (Option-cases (get_elem? w a)) [
    | inl e ↦
        let apart : nat_beq a b ≡ false = elim (Bool-cases (nat_beq a b)) [
          | inl hit ↦
              (let bad : none ≡ some x =
                  sym e ∙ ap (get_elem? w) ((nat_beq_iff a b).0 hit) ∙ found in
                absurd (cc bad))
          | inr miss ↦ miss
        ] in
        rw (tell_each, e, apart) (tell_each-at tell rest w b x d found)
    | inr (r, e) ↦
        let goes : tell_each tell (a ∷ rest) w ≡ tell_each tell rest (set_elem w a (tell r)) =
          rw (tell_each, e) refl in
        ap (λ u. get_elem? u b) goes ∙ elim (Bool-cases (nat_beq a b)) [
          | inl hit ↦
              let here : a ≡ b = (nat_beq_iff a b).0 hit in
              let same : r ≡ x = some_inj.0 (sym e ∙ ap (get_elem? w) here ∙ found) in
              tell_each-elsewhere tell rest (set_elem w a (tell r)) b
                (subst (λ k. contains k rest ≡ false) here once)
              ∙ get_elem-set_elem w a b r (tell r) e
              ∙ rw hit (ap (λ y. some (tell y)) same)
          | inr miss ↦
              let still : get_elem? (set_elem w a (tell r)) b ≡ some x =
                get_elem-set_elem w a b r (tell r) e ∙ rw miss found in
              rw miss (tell_each-at tell rest (set_elem w a (tell r)) b x d still)
        ]
  ]

  -- A walk sees only scopes and parents.
  walk-Same :
      (fuel : ℕ) (w w' : World T) (p : Option ℕ) → Same w w' → walk fuel w' p ≡ walk fuel w p
  unfolding walk
  walk-Same zero w w' none s = refl
  walk-Same (suc fuel) w w' none s = refl
  walk-Same zero w w' (some a) s = refl
  walk-Same (suc fuel) w w' (some a) s = elim (Option-cases (get_elem? w' a)) [
    | inr (r', e) ↦
        let (r, there, scope, parent) = s.back a r' e in
        let up : walk fuel w' r'.parent ≡ walk fuel w r.parent =
          walk-Same fuel w w' r'.parent s ∙ ap (walk fuel w) (sym parent) in
        rw (walk, e, there, up) refl
    | inl e ↦ elim (Option-cases (get_elem? w a)) [
      | inl f ↦ rw (walk, e, f) refl
      | inr (r, f) ↦
          let (r', there, scope) = s.forth a r f in
          let bad : none ≡ some r' = sym e ∙ there in absurd (cc bad)
    ]
  ]

  ancestry-Same :
      (w w' : World T) (a : ℕ) (r r' : Registry T)
      → Same w w'
      → get_elem? w a ≡ some r
      → get_elem? w' a ≡ some r'
      → r.scope ≡ r'.scope
      → ancestry w' a ≡ ancestry w a
  unfolding ancestry scope_at
  ancestry-Same w w' a r r' s found found' scope =
      let there : scope_at w' a ≡ scope_at w a = rw (scope_at, found, found') (sym scope) in
      ap (λ n. walk (suc n) w' (some a)) there ∙ walk-Same (suc (scope_at w a)) w w' (some a) s

  -- The registry at b after the critical section of a.
  abbrev pub updated : ℕ → String → T → ℕ → Registry T → Registry T
  updated a name value b x =
      if nat_beq a b then record x { items = insert name value x.items } else x

  set_elem-updated :
      (w : World T) (a b : ℕ) (r x : Registry T) (name : String) (value : T)
      → get_elem? w a ≡ some r
      → get_elem? w b ≡ some x
      → get_elem? (set_elem w a (record r { items = insert name value r.items })) b
        ≡ some (updated a name value b x)
  set_elem-updated w a b r x name value found there =
      let new : Registry T = record r { items = insert name value r.items } in
      elim (Bool-cases (nat_beq a b)) [
        | inl hit ↦
            let same : r ≡ x =
              some_inj.0 (sym found ∙ ap (get_elem? w) ((nat_beq_iff a b).0 hit) ∙ there) in
            get_elem-set_elem w a b r new found
            ∙ rw hit (
                ap
                  (λ y.
                    some (let z : Registry T = record y { items = insert name value y.items } in z))
                  same)
        | inr miss ↦ get_elem-set_elem w a b r new found ∙ rw miss there
      ]

  -- The registry at b after the name was registered at a: told, if it was visited.
  abbrev pub told_at : ℕ → String → T → Entry T → List ℕ → ℕ → Registry T → Registry T
  told_at a name value e visited b x =
      if contains b visited
      then tell_added e (updated a name value b x)
      else updated a name value b x

  pub register_tells :
      (w : World T) (a : ℕ) (r : Registry T) (name : String) (value : T)
      → Ordered w
      → get_elem? w a ≡ some r
      → (name == "") ≡ false
      → lookup name r.items ≡ none
      → (w' : World T) × (rest : List ℕ) × (register a name value w ≡ some (w', none))
        × (ancestry w a ≡ some (a ∷ rest))
        × Distinct (a ∷ rest)
        × ((b : ℕ) (x : Registry T)
            → get_elem? w b ≡ some x
            → get_elem? w' b
              ≡ some (
                  told_at a name value
                    (record { scope = r.scope; name = name; value = value })
                    (a ∷ rest)
                    b
                    x))
  unfolding register register_found bubble
  register_tells w a r name value v found named free =
      let new : Registry T = record r { items = insert name value r.items } in
      let u : World T = set_elem w a new in
      let e : Entry T = record { scope = r.scope; name = name; value = value } in
      let (rest, goes, below) = ancestry-ends w a r v found in
      let stored : get_elem? u a ≡ some new = get_elem-set_elem w a a r new found ∙ ground arith in
      let same : ancestry u a ≡ some (a ∷ rest) =
        ancestry-Same w u a r new (Same-set_elem w a r new found refl refl) found stored refl
        ∙ goes in
      let distinct : Distinct (a ∷ rest) = Below-Distinct w a r rest found below in
      (
        tell_each (tell_added e) (a ∷ rest) u,
        rest,
        rw (register, named, found, register_found, free, bubble, same) refl,
        goes,
        distinct,
        λ b x there.
            tell_each-at (tell_added e) (a ∷ rest) u b (updated a name value b x) distinct
              (set_elem-updated w a b r x name value found there),
      )
