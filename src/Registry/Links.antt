-- ===== src/Registry/Links.antt =====
-- core/registry/registry.go: the links between registries, and that walks along them end.
use gocel.Prelude.{
  ℕ, zero, suc, ◌<◌, ◌≡◌, refl, ap, sym, ◌∙◌, List, [], ◌∷◌, some, get_elem?, set_elem,
  get_elem-set_elem, nat_eq, nat_beq, nat_beq_iff, Bool-cases, Option-cases, inl, inr, arith,
  some_inj,
}
use gocel.Registry.{Registry, World, walk, ancestry, scope_at}

module _ {ℓ} {T : Type ℓ} where
  -- Every parent exists and has a smaller scope.
  abbrev pub Ordered : World T → Type ℓ
  Ordered w =
      (a b : ℕ) (r : Registry T)
      → get_elem? w a ≡ some r
      → r.parent ≡ some b
      → (p : Registry T) × (get_elem? w b ≡ some p) × (p.scope < r.scope)

  -- The addresses that a walk visits, each a registry with a scope below the bound.
  abbrev pub Below : ℕ → World T → List ℕ → Type ℓ
  Below bound w [] = Unit
  Below bound w (a ∷ rest) =
      ((r : Registry T) × (get_elem? w a ≡ some r) × (r.scope < bound) × Below r.scope w rest)

  pub walk-ends :
      (fuel : ℕ) (w : World T) (a : ℕ) (r : Registry T)
      → Ordered w
      → get_elem? w a ≡ some r
      → r.scope < fuel
      → (rest : List ℕ) × (walk fuel w (some a) ≡ some (a ∷ rest)) × Below r.scope w rest
  unfolding walk
  walk-ends zero w a r v found h = absurd (omega arith)
  walk-ends (suc fuel) w a r v found h = elim (Option-cases r.parent) [
    | inl e ↦ ([], rw (walk, found, e) refl, tt)
    | inr (b, e) ↦
        let (p, there, less) = v a b r found e in
        let (rest, goes, below) = walk-ends fuel w b p v there (omega arith) in
        (b ∷ rest, rw (walk, found, e, goes) refl, (p, there, less, below))
  ]

  pub ancestry-ends :
      (w : World T) (a : ℕ) (r : Registry T)
      → Ordered w
      → get_elem? w a ≡ some r
      → (rest : List ℕ) × (ancestry w a ≡ some (a ∷ rest)) × Below r.scope w rest
  unfolding ancestry scope_at
  ancestry-ends w a r v found =
      let (rest, goes, below) = walk-ends (suc r.scope) w a r v found (omega arith) in
      (rest, rw (ancestry, scope_at, found) goes, below)

  -- The same registries with the same scopes and parents.
  pub record Same (w w' : World T) : Type ℓ where
    pub back :
        (a : ℕ) (r' : Registry T)
        → get_elem? w' a ≡ some r'
        → (r : Registry T) × (get_elem? w a ≡ some r)
          × (r.scope ≡ r'.scope)
          × (r.parent ≡ r'.parent)
    pub forth :
        (a : ℕ) (r : Registry T)
        → get_elem? w a ≡ some r
        → (r' : Registry T) × (get_elem? w' a ≡ some r') × (r.scope ≡ r'.scope)

  pub Same-refl : (w : World T) → Same w w
  Same-refl w = record { back = λ a r h. (r, h, refl, refl); forth = λ a r h. (r, h, refl) }

  pub Same-trans : (u v w : World T) → Same u v → Same v w → Same u w
  Same-trans u v w s t = record {
    back = λ a r h.
        let (x, e, f, g) = t.back a r h in let (y, i, j, k) = s.back a x e in (y, i, j ∙ f, k ∙ g);
    forth =
        λ a r h. let (x, e, f) = s.forth a r h in let (y, i, j) = t.forth a x e in (y, i, f ∙ j);
  }

  pub Same-Ordered : (w w' : World T) → Same w w' → Ordered w → Ordered w'
  Same-Ordered w w' s v a b r' found e =
      let (r, there, scope, parent) = s.back a r' found in
      let (p, up, less) = v a b r there (parent ∙ e) in
      let (p', up', scope') = s.forth b p up in (p', up', omega arith)

  pub Same-set_elem :
      (w : World T) (a : ℕ) (r new : Registry T)
      → get_elem? w a ≡ some r
      → new.scope ≡ r.scope
      → new.parent ≡ r.parent
      → Same w (set_elem w a new)
  Same-set_elem w a r new found scope parent = record {
    back = λ b x h. elim (Bool-cases (nat_beq a b)) [
      | inl hit ↦
          let here : new ≡ x =
            some_inj.0 (sym (get_elem-set_elem w a b r new found ∙ rw hit refl) ∙ h) in
          (
            r,
            ap (get_elem? w) (sym ((nat_beq_iff a b).0 hit)) ∙ found,
            sym scope ∙ ap (λ y. y.scope) here,
            sym parent ∙ ap (λ y. y.parent) here,
          )
      | inr miss ↦ (x, sym (get_elem-set_elem w a b r new found ∙ rw miss refl) ∙ h, refl, refl)
    ];
    forth = λ b x h. elim (Bool-cases (nat_beq a b)) [
      | inl hit ↦
          let same : r ≡ x =
            some_inj.0 (sym found ∙ ap (get_elem? w) ((nat_beq_iff a b).0 hit) ∙ h) in
          (
            new,
            get_elem-set_elem w a b r new found ∙ rw hit refl,
            ap (λ y. y.scope) (sym same) ∙ sym scope,
          )
      | inr miss ↦ (x, get_elem-set_elem w a b r new found ∙ rw miss h, refl)
    ];
  }
