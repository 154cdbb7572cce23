-- ===== src/Registry/Returning.antt =====
-- core/registry/registry.go: every call returns, and keeps the links in order.
use gocel.Prelude.{
  ◌==◌, get_elem-append, ℕ, ◌<◌, ◌≡◌, refl, ap, sym, ◌∙◌, true, false, List, [], ◌∷◌, ◌++◌, String,
  Option, none, some, get_elem?, set_elem, get_elem-set_elem, get_elem-append_one, contains, nat_eq,
  nat_beq, nat_beq_iff, leb, Bool-cases, Option-cases, inl, inr, subst, arith, some_inj, lookup,
  insert, remove, string_eq, length,
}
use gocel.Registry.{
  name_taken, empty_name, nil_parent, Registry, World, Entry, Call, creates, links, registers,
  unregisters, new_registry, tell_each, tell_added, tell_removed, bubble, link_found, link_parent,
  register_found, register, unregister_found, unregister, step, run, parent_bound, invalid_parent,
}
use gocel.Registry.Links.{
  Ordered, ancestry-ends, Same, Same-refl, Same-trans, Same-Ordered, Same-set_elem,
}

module _ {ℓ} {T : Type ℓ} where
  module _ (tell : Registry T → Registry T) (scope : (r : Registry T) → (tell r).scope ≡ r.scope)
      (parent : (r : Registry T) → (tell r).parent ≡ r.parent) where
    tell_each-Same : (visited : List ℕ) (w : World T) → Same w (tell_each tell visited w)
    unfolding tell_each
    tell_each-Same [] w = Same-refl w
    tell_each-Same (a ∷ rest) w = elim (Option-cases (get_elem? w a)) [
      | inl e ↦ rw (tell_each, e) (tell_each-Same rest w)
      | inr (r, e) ↦
          let goes : tell_each tell (a ∷ rest) w ≡ tell_each tell rest (set_elem w a (tell r)) =
            rw (tell_each, e) refl in
          subst (Same w) (sym goes) (
            Same-trans w (set_elem w a (tell r)) _
              (Same-set_elem w a r (tell r) e (scope r) (parent r))
              (tell_each-Same rest (set_elem w a (tell r))))
    ]

    bubble-returns :
        (a : ℕ) (w : World T) (r : Registry T)
        → Ordered w
        → get_elem? w a ≡ some r
        → (w' : World T) × (bubble tell a w ≡ some w') × Same w w'
    unfolding bubble
    bubble-returns a w r v found =
        let (rest, goes, below) = ancestry-ends w a r v found in
        (tell_each tell (a ∷ rest) w, rw (bubble, goes) refl, tell_each-Same (a ∷ rest) w)

  -- The call returns and keeps the order of the links.
  abbrev pub Returns {κ} : {A : Type κ} → Option (World T × A) → Type (ℓ ⊔ κ)
  Returns {A = A} o = (w' : World T) × (a : A) × (o ≡ some (w', a)) × Ordered w'

  register_found-Returns :
      (a : ℕ) (r : Registry T) (name : String) (value : T) (w : World T)
      → Ordered w
      → get_elem? w a ≡ some r
      → Returns (register_found a r name value w)
  unfolding register_found
  register_found-Returns a r name value w v found = elim (Option-cases (lookup name r.items)) [
    | inr (old, e) ↦ (w, some name_taken, rw (register_found, e) refl, v)
    | inl e ↦
        let new : Registry T = record r { items = insert name value r.items } in
        let same : Same w (set_elem w a new) = Same-set_elem w a r new found refl refl in
        let ordered : Ordered (set_elem w a new) = Same-Ordered w _ same v in
        let stored : get_elem? (set_elem w a new) a ≡ some new =
          get_elem-set_elem w a a r new found ∙ ground arith in
        let entry : Entry T = record { scope = r.scope; name = name; value = value } in
        let (w', goes, later) =
          bubble-returns (tell_added entry) (λ x. refl) (λ x. refl) a (set_elem w a new) new ordered
            stored in
        (
          w',
          none,
          rw (register_found, e, goes) refl,
          Same-Ordered (set_elem w a new) w' later ordered,
        )
  ]

  unregister_found-Returns :
      (a : ℕ) (r : Registry T) (name : String) (w : World T)
      → Ordered w
      → get_elem? w a ≡ some r
      → Returns (unregister_found a r name w)
  unfolding unregister_found
  unregister_found-Returns a r name w v found = elim (Option-cases (lookup name r.items)) [
    | inl e ↦ (w, false, rw (unregister_found, e) refl, v)
    | inr (old, e) ↦
        let new : Registry T = record r { items = remove name r.items } in
        let same : Same w (set_elem w a new) = Same-set_elem w a r new found refl refl in
        let ordered : Ordered (set_elem w a new) = Same-Ordered w _ same v in
        let stored : get_elem? (set_elem w a new) a ≡ some new =
          get_elem-set_elem w a a r new found ∙ ground arith in
        let entry : Entry T = record { scope = r.scope; name = name; value = old } in
        let (w', goes, later) =
          bubble-returns (tell_removed entry) (λ x. refl) (λ x. refl) a (set_elem w a new) new
            ordered stored in
        (
          w',
          true,
          rw (unregister_found, e, goes) refl,
          Same-Ordered (set_elem w a new) w' later ordered,
        )
  ]

  set_elem-scope :
      (w : World T) (a b : ℕ) (r new p : Registry T)
      → get_elem? w a ≡ some r
      → new.scope ≡ r.scope
      → get_elem? w b ≡ some p
      → (p' : Registry T) × (get_elem? (set_elem w a new) b ≡ some p') × (p.scope ≡ p'.scope)
  set_elem-scope w a b r new p found scope up = elim (Bool-cases (nat_beq a b)) [
    | inl hit ↦
        let same : r ≡ p =
          some_inj.0 (sym found ∙ ap (get_elem? w) ((nat_beq_iff a b).0 hit) ∙ up) in
        (
          new,
          get_elem-set_elem w a b r new found ∙ rw hit refl,
          ap (λ y. y.scope) (sym same) ∙ sym scope,
        )
    | inr miss ↦ (p, get_elem-set_elem w a b r new found ∙ rw miss up, refl)
  ]

  -- A link to a registry with a smaller scope.
  link-Ordered :
      (w : World T) (a b : ℕ) (r p : Registry T)
      → Ordered w
      → get_elem? w a ≡ some r
      → get_elem? w b ≡ some p
      → p.scope < r.scope
      → Ordered (set_elem w a (record r { parent = some b }))
  link-Ordered w a b r p v found up less c d x h e =
      let new : Registry T = record r { parent = some b } in
      elim (Bool-cases (nat_beq a c)) [
        | inl hit ↦
            let here : new ≡ x =
              some_inj.0 (sym (get_elem-set_elem w a c r new found ∙ rw hit refl) ∙ h) in
            let target : b ≡ d = some_inj.0 (ap (λ y. y.parent) here ∙ e) in
            let (p', there, scope) = set_elem-scope w a b r new p found refl up in
            (
              p',
              ap (get_elem? (set_elem w a new)) (sym target) ∙ there,
              omega (arith, ap (λ y. y.scope) here),
            )
        | inr miss ↦
            let old : get_elem? w c ≡ some x =
              sym (get_elem-set_elem w a c r new found ∙ rw miss refl) ∙ h in
            let (q, there, less') = v c d x old e in
            let (q', stays, scope) = set_elem-scope w a d r new q found refl there in
            (q', stays, omega arith)
      ]

  link_found-Returns :
      (a : ℕ) (r : Registry T) (b : ℕ) (p : Registry T) (w : World T)
      → Ordered w
      → get_elem? w a ≡ some r
      → get_elem? w b ≡ some p
      → Returns (link_found a r b p w)
  unfolding link_found
  link_found-Returns a r b p w v found up = elim (Option-cases r.parent) [
    | inr (q, e) ↦ (w, some parent_bound, rw (link_found, e) refl, v)
    | inl e ↦ elim (Bool-cases (leb r.scope p.scope)) [
      | inl f ↦ (w, some invalid_parent, rw (link_found, e, f) refl, v)
      | inr f ↦
          let (rest, goes, below) = ancestry-ends w b p v up in
          elim (Bool-cases (contains a (b ∷ rest))) [
            | inl g ↦ (w, some invalid_parent, rw (link_found, e, f, goes, g) refl, v)
            | inr g ↦ (
              set_elem w a (record r { parent = some b }),
              none,
              rw (link_found, e, f, goes, g) refl,
              link-Ordered w a b r p v found up (ground arith),
            )
          ]
    ]
  ]

  link_parent-Returns :
      (a : ℕ) (parent : Option ℕ) (w : World T) → Ordered w → Returns (link_parent a parent w)
  unfolding link_parent
  link_parent-Returns a none w v = (w, some nil_parent, refl, v)
  link_parent-Returns a (some b) w v = elim (Option-cases (get_elem? w a)) [
    | inl e ↦ (w, none, rw (link_parent, e) refl, v)
    | inr (r, e) ↦ elim (Option-cases (get_elem? w b)) [
      | inl f ↦ (w, some nil_parent, rw (link_parent, e, f) refl, v)
      | inr (p, f) ↦
          subst Returns
            (let goes : link_found a r b p w ≡ link_parent a (some b) w =
                rw (link_parent, e, f) refl in
              goes)
            (link_found-Returns a r b p w v e f)
    ]
  ]

  register-Returns :
      (a : ℕ) (name : String) (value : T) (w : World T)
      → Ordered w
      → Returns (register a name value w)
  unfolding register
  register-Returns a name value w v = elim (Bool-cases (name == "")) [
    | inl e ↦ (w, some empty_name, rw (register, e) refl, v)
    | inr e ↦ elim (Option-cases (get_elem? w a)) [
      | inl f ↦ (w, none, rw (register, e, f) refl, v)
      | inr (r, f) ↦
          subst Returns
            (let goes : register_found a r name value w ≡ register a name value w =
                rw (register, e, f) refl in
              goes)
            (register_found-Returns a r name value w v f)
    ]
  ]

  unregister-Returns :
      (a : ℕ) (name : String) (w : World T) → Ordered w → Returns (unregister a name w)
  unfolding unregister
  unregister-Returns a name w v = elim (Option-cases (get_elem? w a)) [
    | inl f ↦ (w, false, rw (unregister, f) refl, v)
    | inr (r, f) ↦
        subst Returns
          (let goes : unregister_found a r name w ≡ unregister a name w = rw (unregister, f) refl in
            goes)
          (unregister_found-Returns a r name w v f)
  ]

  -- A new registry has no parent, and its address is new.
  create-Ordered : (w : World T) (scope : ℕ) → Ordered w → Ordered (w ++ new_registry scope ∷ [])
  unfolding new_registry
  create-Ordered w scope v a b r found e = elim (Bool-cases (nat_beq (length w) a)) [
    | inl hit ↦
        let here : new_registry scope ≡ r =
          some_inj.0 (sym (get_elem-append_one w (new_registry scope) a ∙ rw hit refl) ∙ found) in
        let bad : none ≡ some b = ap (λ y. y.parent) here ∙ e in absurd (cc bad)
    | inr miss ↦
        let old : get_elem? w a ≡ some r =
          sym (get_elem-append_one w (new_registry scope) a ∙ rw miss refl) ∙ found in
        let (p, there, less) = v a b r old e in
        (p, get_elem-append w (new_registry scope ∷ []) b p there, less)
  ]

  step-Ordered :
      (c : Call T) (w : World T) → Ordered w → (w' : World T) × (step c w ≡ some w') × Ordered w'
  unfolding step
  step-Ordered (creates scope) w v = (w ++ new_registry scope ∷ [], refl, create-Ordered w scope v)
  step-Ordered (links a parent) w v =
      let (w', fault, goes, ordered) = link_parent-Returns a parent w v in
      (w', rw goes refl, ordered)
  step-Ordered (registers a name value) w v =
      let (w', fault, goes, ordered) = register-Returns a name value w v in
      (w', rw goes refl, ordered)
  step-Ordered (unregisters a name) w v =
      let (w', gone, goes, ordered) = unregister-Returns a name w v in (w', rw goes refl, ordered)

  run-Ordered :
      (calls : List (Call T)) (w : World T)
      → Ordered w
      → (w' : World T) × (run calls w ≡ some w') × Ordered w'
  unfolding run
  run-Ordered [] w v = (w, refl, v)
  run-Ordered (c ∷ calls) w v =
      let (w1, goes, ordered) = step-Ordered c w v in
      let (w2, later, kept) = run-Ordered calls w1 ordered in (w2, rw (run, goes) later, kept)

  -- Any calls that create and link registries, register and unregister, return: no walk along the
  -- parents runs out of fuel. Afterwards every parent exists and has a smaller scope.
  pub calls_return : (calls : List (Call T)) → (w : World T) × (run calls [] ≡ some w) × Ordered w
  calls_return calls = run-Ordered calls [] (λ a b r found e. absurd (cc found))
