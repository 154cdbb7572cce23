-- ===== src/Registry/Tests.antt =====
-- core/registry/registry.go on a global, a host and a session registry, linked in this order.
use gocel.Prelude.{
  ℕ, ◌≡◌, refl, sym, ◌∙◌, List, [], ◌∷◌, none, some, get_elem?, lookup, string_eq, some_inj, subst,
  insert, remove,
}
use gocel.Registry.{
  Registry, World, Entry, Call, creates, links, registers, run, register, ancestry,
}
use gocel.Registry.Links.{Ordered}
use gocel.Registry.Returning.{calls_return}
use gocel.Registry.Telling.{register_tells, told_at, Distinct}
use gocel.Registry.Views.{get_at, resolve, see_layers, list-resolve}
use gocel.Registry.Feeds.{on_unregistered}

abbrev calls : List (Call ℕ)
calls =
    creates 0
    ∷ creates 1
    ∷ creates 2
    ∷ links 1 (some 0)
    ∷ links 2 (some 1)
    ∷ registers 1 "grep" 7
    ∷ registers 0 "view" 5
    ∷ []

calls_return_example : (w : World ℕ) × (run calls [] ≡ some w) × Ordered w
calls_return_example = calls_return calls

abbrev world : World ℕ
unfolding run
world = elim (run calls []) [ none ↦ [] | some w ↦ w ]

world_runs : run calls [] ≡ some world
unfolding run lookup
world_runs = refl

world-Ordered : Ordered world
world-Ordered =
    let (w, runs, v) = calls_return calls in subst Ordered (some_inj.0 (sym runs ∙ world_runs)) v

abbrev session : Registry ℕ
session = record { scope = 2; parent = some 1; items = []; told = []; told_removed = [] }

session_there : get_elem? world 2 ≡ some session
unfolding run lookup
session_there = refl

register_tells_example :
    (w' : World ℕ) × (rest : List ℕ) × (register 2 "edit" 9 world ≡ some (w', none))
    × (ancestry world 2 ≡ some (2 ∷ rest))
    × Distinct (2 ∷ rest)
    × ((b : ℕ) (x : Registry ℕ)
        → get_elem? world b ≡ some x
        → get_elem? w' b
          ≡ some
              (told_at 2 "edit" 9 (record { scope = 2; name = "edit"; value = 9 }) (2 ∷ rest) b x))
unfolding lookup
register_tells_example =
    register_tells world 2 session "edit" 9 world-Ordered session_there refl refl

list-resolve_example :
    lookup "grep" (see_layers (λ xs. xs) 0 world (2 ∷ 1 ∷ 0 ∷ []) [])
    ≡ resolve world (2 ∷ 1 ∷ 0 ∷ []) "grep"
list-resolve_example = list-resolve (λ xs. xs) 0 (λ name xs. refl) world (2 ∷ 1 ∷ 0 ∷ []) "grep"

-- A view of a session registry over its parent, when both have the name: the layer of the session
-- is told of the removal first, and then, by the bubble, the layer of the parent.
abbrev gone : Entry ℕ
gone = record { scope = 2; name = "grep"; value = 8 }

feed_drops_shadowed :
    (on_unregistered world (2 ∷ 1 ∷ []) 1 gone (
      on_unregistered world
        (2 ∷ 1 ∷ [])
        0
        gone
        (record { visible = insert "grep" 0 []; sent = [] }))).visible
    ≡ []
unfolding on_unregistered insert remove run lookup
feed_drops_shadowed = refl

parent_has : get_at world 1 "grep" ≡ some 7
unfolding get_at run lookup insert
parent_has = refl
