-- ===== src/Registry/Feeds.antt =====
-- core/registry/registry.go, `ObserveChanges`: what one subscription keeps, and its two handlers. A
-- feed is the map `visible`, from a name to the index of the layer that wins, and the changes sent.
use gocel.Prelude.{
  ℕ, suc, Bool, true, false, List, [], ◌∷◌, ◌++◌, String, Option, none, some, lookup, insert,
  remove, has_key, string_eq, nat_beq, ltb, drop, if◌then◌else◌,
}
use gocel.Registry.{World, Entry}
use gocel.Registry.Views.{get_at, names}

pub record Change {ℓ} (T : Type ℓ) : Type ℓ where
  pub name : String
  pub value : T
  pub removed : Bool

pub record Feed {ℓ} (T : Type ℓ) : Type ℓ where
  pub visible : List (String × ℕ)
  pub sent : List (Change T)

-- The names of the layer with the index i that no inner layer has.
seed_names : ℕ → List String → List (String × ℕ) → List (String × ℕ)
seed_names i [] visible = visible
seed_names i (name ∷ more) visible =
    seed_names i more (if has_key name visible then visible else insert name i visible)

module _ {ℓ} {T : Type ℓ} where
  -- The loop that fills `visible`, from the layer with the index i on.
  seed_layers :
      (sort : List String → List String)
      → World T
      → ℕ
      → List ℕ
      → List (String × ℕ)
      → List (String × ℕ)
  unfolding seed_names names
  seed_layers sort w i [] visible = visible
  seed_layers sort w i (a ∷ layers) visible =
      seed_layers sort w (suc i) layers (seed_names i (names sort w a) visible)

  wins : String → ℕ → Feed T → Bool
  wins name i f = elim (lookup name f.visible) [ none ↦ true | some cur ↦ ltb i cur ]

  -- The handler that the layer with the index i gets from `Observe`.
  on_registered : ℕ → Entry T → Feed T → Feed T
  unfolding wins
  on_registered i e f =
      if wins e.name i f
      then record {
        visible = insert e.name i f.visible;
        sent = f.sent ++ record { name = e.name; value = e.value; removed = false } ∷ [];
      }
      else f

  -- The loop over the outer layers: the index of the first that has the name.
  next_winner : World T → ℕ → List ℕ → String → Option ℕ
  unfolding get_at
  next_winner w j [] name = none
  next_winner w j (a ∷ outer) name = elim (get_at w a name) [
    | some value ↦ some j
    | none ↦ next_winner w (suc j) outer name
  ]

  -- The name has gone from the layer that won.
  on_winner_gone : World T → List ℕ → ℕ → Entry T → Feed T → Feed T
  unfolding next_winner
  on_winner_gone w layers i e f = elim (next_winner w (suc i) (drop (suc i) layers) e.name) [
    | some j ↦ record f { visible = insert e.name j f.visible }
    | none ↦ record {
      visible = remove e.name f.visible;
      sent = f.sent ++ record { name = e.name; value = e.value; removed = true } ∷ [];
    }
  ]

  -- The handler that the layer with the index i gets from `ObserveRemovals`.
  unfoldable pub on_unregistered : World T → List ℕ → ℕ → Entry T → Feed T → Feed T
  unfolding on_winner_gone
  on_unregistered w layers i e f = elim (lookup e.name f.visible) [
    | none ↦ f
    | some cur ↦ if nat_beq cur i then on_winner_gone w layers i e f else f
  ]
