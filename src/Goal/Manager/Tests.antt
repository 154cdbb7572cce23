-- ===== src/Goal/Manager/Tests.antt =====
-- Goals on concrete calls.
use gocel.Prelude.{
  string_eq, lookup, insert, ◌+◌, if◌then◌else◌, ◌==◌, ◌==◌, insert, if◌then◌else◌, lookup, ◌+◌, ℕ,
  ◌≡◌, refl, String, List, [], ◌∷◌, true, ok,
}
use gocel.Prelude.Int.{pos}
use gocel.Goal.{Goal, completes, rounds, mutate, phase_complete, complete_fn, is_blank}
use gocel.Goal.Store.{Items, memory_store, memory_load, memory_save}
use gocel.Goal.Phases.{Edge}
use gocel.Goal.Manager.{alone, update, perform, committed, fresh_goal}
use gocel.Goal.Manager.Revisions.{perform_commits}
use gocel.Goal.Manager.History.{Call, creates, performs, clears, run, AllValid, run-AllValid}

blank_text : is_blank "  " ≡ true
unfolding is_blank
blank_text = refl

abbrev ship : Goal
ship = fresh_goal 5 "g1" "ship it" (pos 2)

abbrev shelf : Items
shelf = ("g1", ship) ∷ []

abbrev done : Goal
done = record ship { phase = phase_complete; revision = 2; updated_at = 9 }

shelf_keyed : (g : Goal) → memory_load "g1" shelf ≡ ok g → g.id ≡ "g1"
unfolding memory_load lookup
shelf_keyed g h = cc

abbrev history : List Call
history = creates 5 "g1" "ship it" (pos 2) ∷ performs 6 "g1" rounds ∷ clears "g0" ∷ []

empty-AllValid : AllValid []
unfolding memory_load lookup
empty-AllValid id g h = cc

run-AllValid_example : AllValid (run history [])
run-AllValid_example = run-AllValid history [] empty-AllValid

finish_ship : perform memory_store 9 alone "g1" completes shelf ≡ (ok done, ("g1", done) ∷ [])
unfolding perform update committed mutate complete_fn memory_load memory_save lookup insert
finish_ship = refl

perform_commits_example :
    (g : Goal) × (memory_load "g1" shelf ≡ ok g)
    × ((cur : Goal) × (memory_load "g1" shelf ≡ ok cur) × (cur.revision ≡ g.revision))
    × Edge completes g.phase phase_complete
    × (2 ≡ g.revision + 1)
    × (◌≡◌ {A = ℕ} 9 9)
    × ((j : String)
        → memory_load j (("g1", done) ∷ []) ≡ (if "g1" == j then ok done else memory_load j shelf))
perform_commits_example =
    perform_commits memory_store 9 alone "g1" completes shelf (("g1", done) ∷ []) done shelf_keyed
      finish_ship

-- Another manager starts a round at each of the two points.
