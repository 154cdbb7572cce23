-- ===== src/Graph/State/Reading.antt =====
-- The typed getters of graph/state.go, and the copies that it hands out.
use gocel.Prelude.{
  ℕ, ◌≡◌, refl, Bool, true, false, String, Option, none, some, List, if◌then◌else◌, ◌==◌, string_eq,
  lookup, lookup-insert, ap, ◌∙◌,
}
use gocel.Graph.State.{GraphState, StateEntry, set_with_source}

-- A type assertion on a value that may be nil.
abbrev asserted : {V A : Type 0} → (V → Option A) → A → Option (Option V) → A
asserted cast default none = default
asserted cast default (some none) = default
asserted cast default (some (some v)) = elim (cast v) [ none ↦ default | some a ↦ a ]

asserted-if :
    {V A : Type 0} (cast : V → Option A) (default : A) (b : Bool) (x y : Option (Option V))
    → asserted cast default (if b then x else y)
      ≡ (if b then asserted cast default x else asserted cast default y)
asserted-if cast default true x y = refl
asserted-if cast default false x y = refl

module _ {V : Type 0} where
  -- `GetString`, `GetInt`, `GetFloat` and `GetBool`, by the type's assertion and its zero value.
  pub get_as : {A : Type 0} → (V → Option A) → A → String → GraphState V → A
  get_as cast default key gs = asserted cast default (lookup key gs.values)

  pub snapshot : GraphState V → List (String × Option V)
  snapshot gs = gs.values

  pub history : GraphState V → List (StateEntry V)
  history gs = gs.history

  -- A typed getter reads what was last written under its key if the value has the type, the zero
  -- value if it has not, and what it read before under every other key.
  pub get_as-set_with_source :
      {A : Type 0} (cast : V → Option A) (zero_value : A) (now : ℕ) (key other source : String)
      (value : Option V) (gs : GraphState V)
      → get_as cast zero_value other (set_with_source now key value source gs).0 ≡ (
          if key == other
          then asserted cast zero_value (some value)
          else get_as cast zero_value other gs)
  unfolding get_as set_with_source
  get_as-set_with_source cast zero_value now key other source value gs =
      ap (asserted cast zero_value) (lookup-insert key other value gs.values)
      ∙ asserted-if cast zero_value (key == other) (some value) (lookup other gs.values)
