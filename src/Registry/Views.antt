-- ===== src/Registry/Views.antt =====
-- core/registry/registry.go, `View`: layers of registries, the innermost first, by their addresses.
-- `sort` stands for sort.Strings, `arrange` for the order by names in which `List` puts its entries.
use gocel.Prelude.{
  ◌||◌, ℕ, ◌≡◌, refl, ap, sym, ◌∙◌, Bool, true, false, List, [], ◌∷◌, map, String, Option, none,
  some, get_elem?, lookup, insert, keys, has_key, string_eq, ◌==◌, contains, contains-keys,
  if◌then◌else◌, Bool-cases, Option-cases, inl, inr, lookup-insert,
}
use gocel.Registry.{World, Entry}

abbrev or_else {κ} : {A : Type κ} → Option A → Option A → Option A
or_else (some x) d = some x
or_else none d = d

or_none {κ} : {A : Type κ} (o : Option A) → o ≡ or_else o none
or_none none = refl
or_none (some x) = refl

or_else_assoc {κ} :
    {A : Type κ} (o p q : Option A) → or_else (or_else o p) q ≡ or_else o (or_else p q)
or_else_assoc none p q = refl
or_else_assoc (some x) p q = refl

either {κ} :
    {A : Type κ} (o : Option A) (b c : Bool) (d : Option A)
    → or_else (or_else o (if b then d else none)) (if c then d else none)
      ≡ or_else o (if b || c then d else none)
either (some x) b c d = refl
either none true true none = refl
either none true true (some x) = refl
either none true false none = refl
either none true false (some x) = refl
either none false c d = refl

module _ {ℓ} {T : Type ℓ} where
  -- `Get` on the registry at an address.
  unfoldable pub get_at : World T → ℕ → String → Option T
  get_at w a name = elim (get_elem? w a) [ none ↦ none | some r ↦ lookup name r.items ]

  pub entry_at : World T → ℕ → String → T → Entry T
  entry_at w a name value = elim (get_elem? w a) [
    | none ↦ record { scope = 0; name = name; value = value }
    | some r ↦ record { scope = r.scope; name = name; value = value }
  ]

  pub resolve : World T → List ℕ → String → Option (Entry T)
  unfolding get_at entry_at
  resolve w [] name = none
  resolve w (a ∷ layers) name = elim (get_at w a name) [
    | some value ↦ some (entry_at w a name value)
    | none ↦ resolve w layers name
  ]

  abbrev pub keys_at : World T → ℕ → List String
  keys_at w a = elim (get_elem? w a) [ none ↦ [] | some r ↦ keys r.items ]

  module _ (sort : List String → List String) where
    unfoldable pub names : World T → ℕ → List String
    names w a = sort (keys_at w a)

  abbrev or_zero : T → Option T → T
  or_zero zero_value (some value) = value
  or_zero zero_value none = zero_value

  -- `zero_value` is Go's zero of the type of values, which `Get` returns beside false.
  module _ (sort : List String → List String) (zero_value : T) where
    see_name : World T → ℕ → String → List (String × Entry T) → List (String × Entry T)
    unfolding get_at entry_at
    see_name w a name seen =
        if has_key name seen
        then seen
        else insert name (entry_at w a name (or_zero zero_value (get_at w a name))) seen

    -- The inner loop of `List`: the names of one layer.
    see_names : World T → ℕ → List String → List (String × Entry T) → List (String × Entry T)
    unfolding see_name
    see_names w a [] seen = seen
    see_names w a (name ∷ more) seen = see_names w a more (see_name w a name seen)

    pub see_layers : World T → List ℕ → List (String × Entry T) → List (String × Entry T)
    unfolding see_names names
    see_layers w [] seen = seen
    see_layers w (a ∷ layers) seen = see_layers w layers (see_names w a (names sort w a) seen)

    pub list_entries :
        (arrange : List (Entry T) → List (Entry T)) → World T → List ℕ → List (Entry T)
    unfolding see_layers
    list_entries arrange w layers = arrange (map (λ p. p.1) (see_layers w layers []))

    -- `Snapshot` writes the entries of the list into a new map.
    snapshot : List (Entry T) → List (String × T) → List (String × T)
    snapshot [] out = out
    snapshot (e ∷ entries) out = snapshot entries (insert e.name e.value out)

    abbrev shown_at : World T → ℕ → String → Entry T
    shown_at w a name = entry_at w a name (or_zero zero_value (get_at w a name))

    see_name-new :
        (w : World T) (a : ℕ) (n : String) (seen : List (String × Entry T))
        → has_key n seen ≡ false
        → see_name w a n seen ≡ insert n (shown_at w a n) seen
    unfolding see_name
    see_name-new w a n seen h = ap (λ b. if b then seen else insert n (shown_at w a n) seen) h

    see_name-old :
        (w : World T) (a : ℕ) (n : String) (seen : List (String × Entry T))
        → has_key n seen ≡ true
        → see_name w a n seen ≡ seen
    unfolding see_name
    see_name-old w a n seen h = ap (λ b. if b then seen else insert n (shown_at w a n) seen) h

    lookup-see_name :
        (w : World T) (a : ℕ) (n : String) (seen : List (String × Entry T)) (name : String)
        → lookup name (see_name w a n seen)
          ≡ or_else (lookup name seen) (if n == name then some (shown_at w a name) else none)
    unfolding see_name
    lookup-see_name w a n seen name = elim (Option-cases (lookup n seen)) [
      | inr (old, e) ↦ elim (Bool-cases (n == name)) [
        | inl hit ↦
            let here : lookup name seen ≡ some old =
              ap (λ k. lookup k seen) (sym ((string_eq.beq_iff n name).0 hit)) ∙ e in
            ap (lookup name) (see_name-old w a n seen (rw (has_key, e) refl)) ∙ rw here refl
        | inr miss ↦
            ap (lookup name) (see_name-old w a n seen (rw (has_key, e) refl))
            ∙ rw miss (or_none (lookup name seen))
      ]
      | inl e ↦ elim (Bool-cases (n == name)) [
        | inl hit ↦
            let same : n ≡ name = (string_eq.beq_iff n name).0 hit in
            let here : lookup name seen ≡ none = ap (λ k. lookup k seen) (sym same) ∙ e in
            ap (lookup name) (see_name-new w a n seen (rw (has_key, e) refl))
            ∙ lookup-insert n name (shown_at w a n) seen
            ∙ rw (here, hit) (ap (λ k. some (shown_at w a k)) same)
        | inr miss ↦
            ap (lookup name) (see_name-new w a n seen (rw (has_key, e) refl))
            ∙ lookup-insert n name (shown_at w a n) seen
            ∙ rw miss (or_none (lookup name seen))
      ]
    ]

    lookup-see_names :
        (w : World T) (a : ℕ) (more : List String) (seen : List (String × Entry T)) (name : String)
        → lookup name (see_names w a more seen)
          ≡ or_else
              (lookup name seen)
              (if contains name more then some (shown_at w a name) else none)
    unfolding see_names
    lookup-see_names w a [] seen name = or_none (lookup name seen)
    lookup-see_names w a (n ∷ more) seen name =
        lookup-see_names w a more (see_name w a n seen) name
        ∙ ap (λ o. or_else o (if contains name more then some (shown_at w a name) else none))
            (lookup-see_name w a n seen name)
        ∙ either (lookup name seen) (n == name) (contains name more) (some (shown_at w a name))

    -- A layer that has the name, or the layers below it.
    layer_resolve :
        (w : World T) (a : ℕ) (layers : List ℕ) (name : String)
        → or_else
            (if contains name (keys_at w a) then some (shown_at w a name) else none)
            (resolve w layers name)
          ≡ resolve w (a ∷ layers) name
    unfolding resolve get_at
    layer_resolve w a layers name = elim (Option-cases (get_elem? w a)) [
      | inl e ↦
          let gone : contains name (keys_at w a) ≡ false = rw (keys_at, e) refl in
          rw (gone, resolve, get_at, e) refl
      | inr (r, e) ↦
          let held : contains name (keys_at w a) ≡ has_key name r.items =
            rw (keys_at, e) (contains-keys name r.items) in
          elim (Option-cases (lookup name r.items)) [
            | inl f ↦
                let none_here : contains name (keys_at w a) ≡ false = held ∙ rw (has_key, f) refl in
                rw (none_here, resolve, get_at, e, f) refl
            | inr (value, f) ↦
                let one_here : contains name (keys_at w a) ≡ true = held ∙ rw (has_key, f) refl in
                rw (one_here, resolve, get_at, e, f) refl
          ]
    ]

    module _
        (sorted : (name : String) (xs : List String)
          → contains name (sort xs) ≡ contains name xs) where
      lookup-see_layers :
          (w : World T) (layers : List ℕ) (seen : List (String × Entry T)) (name : String)
          → lookup name (see_layers w layers seen)
            ≡ or_else (lookup name seen) (resolve w layers name)
      unfolding see_layers resolve names
      lookup-see_layers w [] seen name = or_none (lookup name seen)
      lookup-see_layers w (a ∷ layers) seen name =
          lookup-see_layers w layers (see_names w a (names sort w a) seen) name
          ∙ ap (λ o. or_else o (resolve w layers name))
              (lookup-see_names w a (names sort w a) seen name)
          ∙ or_else_assoc (lookup name seen) _ (resolve w layers name)
          ∙ ap (or_else (lookup name seen)) (
              ap
                (λ b.
                  or_else (if b then some (shown_at w a name) else none) (resolve w layers name))
                (sorted name (keys_at w a))
              ∙ layer_resolve w a layers name)

      -- If sorting keeps the names, the loop of List collects under each name the entry that
      -- Resolve finds, and none where Resolve finds none.
      pub list-resolve :
          (w : World T) (layers : List ℕ) (name : String)
          → lookup name (see_layers w layers []) ≡ resolve w layers name
      unfolding lookup
      list-resolve w layers name = lookup-see_layers w layers [] name
