-- ===== src/Graph/State/Tests.antt =====
-- A state of numbers: two writes, a deletion, a merge.
use gocel.Prelude.{
  Option, List, lookup-insert, ℕ, ◌≡◌, refl, String, none, some, [], ◌∷◌, length, ok, err, lookup,
  insert, remove, string_eq, nat_eq,
}
use gocel.Prelude.Int.{pos, negsuc}
use gocel.Graph.State.{
  GraphState, get, set, set_with_source, delete, merge_from, collect_locked, rollback,
  new_graph_state, watch, rollback_out_of_range,
}
use gocel.Graph.State.Merge.{Leaves, get-merge_from}
use gocel.Graph.State.Rollback.{Write, Change, sets, deletes, written, changed, rollback_restores}

abbrev one : GraphState ℕ
one = (set_with_source 1 "a" (some 7) "n1" new_graph_state).0

abbrev two : GraphState ℕ
two = (set_with_source 2 "b" (some 8) "n2" one).0

get_deleted : get "a" (delete 3 "a" two).0 ≡ none
unfolding get delete set_with_source new_graph_state lookup insert remove
get_deleted = refl

watcher_called :
    (set 4 "a"
      (some 9)
      (watch 5 (some ("a" ∷ [])) 1 (watch 6 none 2 (watch 7 (some ("b" ∷ [])) 3 one)))).1
    ≡ record { fn = 2; changes = record { key = "a"; old_value = some 7; new_value = some 9 } ∷ [] }
      ∷ record {
        fn = 1;
        changes = record { key = "a"; old_value = some 7; new_value = some 9 } ∷ [];
      }
      ∷ []
unfolding set watch set_with_source new_graph_state lookup insert collect_locked
watcher_called = refl

rollback_negative : rollback (negsuc 0) two ≡ err rollback_out_of_range
unfolding rollback
rollback_negative = refl

-- While "b" comes over, others write to "a".
abbrev others : List (String × Option ℕ) → GraphState ℕ → GraphState ℕ
others kvs gs = (set_with_source 4 "a" (some 5) "n3" gs).0

others-Leaves : Leaves "b" others
unfolding get set_with_source
others-Leaves kvs gs = lookup-insert "a" "b" (some 5) gs.values

get-merge_from_example : get "b" (merge_from 3 others two two one).0 ≡ some (some 8)
unfolding get set_with_source new_graph_state lookup insert
get-merge_from_example = get-merge_from 3 others "b" two two one others-Leaves refl

abbrev first_write : Write ℕ
first_write = record { now = 1; key = "a"; value = 7; source = "n1" }

abbrev undone : List (Change ℕ)
undone = sets 2 "b" none "n2" ∷ deletes 3 "a" ∷ []

rollback_restores_example :
    let gs = written (first_write ∷ []) new_graph_state in
    let later = changed undone gs in
    (back : GraphState ℕ) × (rollback (pos (length gs.history)) later ≡ ok back)
    × ((j : String) → get j back ≡ get j gs)
    × (back.history ≡ gs.history)
    × (back.watchers ≡ later.watchers)
rollback_restores_example = rollback_restores (first_write ∷ []) undone

abbrev sample : GraphState ℕ
sample = record { values = ("a", some 1) ∷ []; history = []; watchers = [] }
