-- ===== src/Registry.antt =====
-- core/registry/registry.go. The registries are a store, a list by their addresses; a parent is an
-- address. `told` and `told_removed` are what a registry's observers are told, in order; the lists
-- of observers are left out. The receivers are not nil. `none` is a walk along the parents that has
-- run out of fuel, which stands for one that does not end.
mod Feeds
pub mod Links
pub mod Returning
pub mod Telling
pub mod Views
mod Tests
use gocel.Prelude.{
  ℕ, zero, suc, Bool, true, false, List, [], ◌∷◌, ◌++◌, String, Option, none, some, get_elem?,
  set_elem, lookup, insert, remove, contains, string_eq, nat_eq, ◌==◌, leb, if◌then◌else◌,
}

-- `Scope`: 0 is global, 1 host, 2 session.
scope_string : ℕ → String
scope_string zero = "global"
scope_string (suc zero) = "host"
scope_string (suc (suc zero)) = "session"
scope_string (suc (suc (suc n))) = "unknown"

pub record Entry {ℓ} (T : Type ℓ) : Type ℓ where
  pub scope : ℕ
  pub name : String
  pub value : T

pub record Registry {ℓ} (T : Type ℓ) : Type ℓ where
  pub scope : ℕ
  pub parent : Option ℕ
  pub items : List (String × T)
  pub told : List (Entry T)
  pub told_removed : List (Entry T)

pub data RegistryError : Type 0 where
  nil_parent parent_bound invalid_parent empty_name name_taken : RegistryError

abbrev pub World {ℓ} : (T : Type ℓ) → Type ℓ
World T = List (Registry T)

module _ {ℓ} {T : Type ℓ} where
  pub new_registry : ℕ → Registry T
  new_registry scope = record {
    scope = scope;
    parent = none;
    items = [];
    told = [];
    told_removed = [];
  }

  -- The loop `for p := ...; p != nil; p = p.parent`: the addresses that it visits.
  pub walk : ℕ → World T → Option ℕ → Option (List ℕ)
  walk fuel w none = some []
  walk zero w (some a) = none
  walk (suc fuel) w (some a) = elim (get_elem? w a) [
    | none ↦ some []
    | some r ↦ elim (walk fuel w r.parent) [ none ↦ none | some more ↦ some (a ∷ more) ]
  ]

  pub scope_at : World T → ℕ → ℕ
  scope_at w a = elim (get_elem? w a) [ none ↦ 0 | some r ↦ r.scope ]

  -- A registry and its ancestors, with fuel for one step at each scope.
  pub ancestry : World T → ℕ → Option (List ℕ)
  unfolding walk scope_at
  ancestry w a = walk (suc (scope_at w a)) w (some a)

  -- `LinkParent` of r, at the address a, to p, at b.
  pub link_found :
      (a : ℕ) (r : Registry T) (b : ℕ) (p : Registry T)
      → World T
      → Option (World T × Option RegistryError)
  unfolding ancestry
  link_found a r b p w = elim r.parent [
    | some bound ↦ some (w, some parent_bound)
    | none ↦ if leb r.scope p.scope then some (w, some invalid_parent) else elim (ancestry w b) [
      | none ↦ none
      | some visited ↦
          if contains a visited
          then some (w, some invalid_parent)
          else some (set_elem w a (record r { parent = some b }), none)
    ]
  ]

  -- `LinkParent`. An address without a registry is a nil pointer, on which nothing is called.
  pub link_parent : ℕ → Option ℕ → World T → Option (World T × Option RegistryError)
  unfolding link_found
  link_parent a none w = some (w, some nil_parent)
  link_parent a (some b) w = elim (get_elem? w a) [
    | none ↦ some (w, none)
    | some r ↦ elim (get_elem? w b) [
      | none ↦ some (w, some nil_parent)
      | some p ↦ link_found a r b p w
    ]
  ]

  -- The observers of the registries at the addresses, one after the other.
  pub tell_each : (Registry T → Registry T) → List ℕ → World T → World T
  tell_each tell [] w = w
  tell_each tell (a ∷ rest) w = elim (get_elem? w a) [
    | none ↦ tell_each tell rest w
    | some r ↦ tell_each tell rest (set_elem w a (tell r))
  ]

  abbrev pub tell_added : Entry T → Registry T → Registry T
  tell_added e r = record r { told = r.told ++ e ∷ [] }

  abbrev pub tell_removed : Entry T → Registry T → Registry T
  tell_removed e r = record r { told_removed = r.told_removed ++ e ∷ [] }

  -- What the observers are told after the critical section: `bubbleUp` from the registry on.
  pub bubble : (Registry T → Registry T) → ℕ → World T → Option (World T)
  unfolding ancestry tell_each
  bubble tell a w = elim (ancestry w a) [
    | none ↦ none
    | some visited ↦ some (tell_each tell visited w)
  ]

  -- `Register` on the registry r at the address a.
  pub register_found :
      (a : ℕ) (r : Registry T) (name : String) (value : T)
      → World T
      → Option (World T × Option RegistryError)
  unfolding bubble
  register_found a r name value w = elim (lookup name r.items) [
    | some taken ↦ some (w, some name_taken)
    | none ↦
        let e : Entry T = record { scope = r.scope; name = name; value = value } in
        elim (bubble (tell_added e) a
          (set_elem w a (record r { items = insert name value r.items }))) [
            | none ↦ none
            | some w' ↦ some (w', none)
          ]
  ]

  pub register : ℕ → String → T → World T → Option (World T × Option RegistryError)
  unfolding register_found
  register a name value w =
      if name == ""
      then some (w, some empty_name)
      else elim (get_elem? w a) [ none ↦ some (w, none) | some r ↦ register_found a r name value w ]

  pub unregister_found :
      (a : ℕ) (r : Registry T) (name : String) → World T → Option (World T × Bool)
  unfolding bubble
  unregister_found a r name w = elim (lookup name r.items) [
    | none ↦ some (w, false)
    | some value ↦
        let e : Entry T = record { scope = r.scope; name = name; value = value } in
        elim (bubble (tell_removed e) a (set_elem w a (record r { items = remove name r.items }))) [
          | none ↦ none
          | some w' ↦ some (w', true)
        ]
  ]

  pub unregister : ℕ → String → World T → Option (World T × Bool)
  unfolding unregister_found
  unregister a name w = elim (get_elem? w a) [
    | none ↦ some (w, false)
    | some r ↦ unregister_found a r name w
  ]

-- What a process does with registries.
pub data Call {ℓ} (T : Type ℓ) : Type ℓ where
  creates : ℕ → Call T
  links : ℕ → Option ℕ → Call T
  registers : ℕ → String → T → Call T
  unregisters : ℕ → String → Call T

module _ {ℓ} {T : Type ℓ} where
  abbrev first_of {κ} : {A : Type κ} → Option (World T × A) → Option (World T)
  first_of none = none
  first_of (some r) = some r.0

  pub step : Call T → World T → Option (World T)
  unfolding new_registry link_parent register unregister
  step (creates scope) w = some (w ++ new_registry scope ∷ [])
  step (links a parent) w = first_of (link_parent a parent w)
  step (registers a name value) w = first_of (register a name value w)
  step (unregisters a name) w = first_of (unregister a name w)

  pub run : List (Call T) → World T → Option (World T)
  unfolding step
  run [] w = some w
  run (c ∷ calls) w = elim (step c w) [ none ↦ none | some w' ↦ run calls w' ]
