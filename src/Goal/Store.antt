-- ===== src/Goal/Store.antt =====
-- The seam `Store` of core/goal/goal.go, and `MemoryStore` of core/goal/store.go, which fills it.
use gocel.Prelude.{
  ◌≡◌, String, List, Option, none, some, arith, if◌then◌else◌, ◌==◌, string_eq, lookup, insert,
  remove, lookup-insert, lookup-remove, ok, err,
}
use gocel.Goal.{Goal, GoalError, GoalResult, err_not_found}

-- What a manager relies on: a saved document is what is loaded next under its id, a deleted one is
-- gone, and other documents stay.
pub record Store : Type 1 where
  pub S : Type 0
  pub load : String → S → GoalResult
  pub save : Goal → S → Option GoalError × S
  pub delete : String → S → Option GoalError × S
  pub load-save :
      (id : String) (g : Goal) (s : S)
      → (save g s).0 ≡ none
      → load id (save g s).1 ≡ (if g.id == id then ok g else load id s)
  pub load-delete :
      (id j : String) (s : S)
      → (delete id s).0 ≡ none
      → load j (delete id s).1 ≡ (if id == j then err err_not_found else load j s)

abbrev pub Items : Type 0
Items = List (String × Goal)

abbrev found : Option Goal → GoalResult
found none = err err_not_found
found (some g) = ok g

unfoldable pub memory_load : String → Items → GoalResult
memory_load id items = found (lookup id items)

unfoldable pub memory_save : Goal → Items → Option GoalError × Items
memory_save g items = (none, insert g.id g items)

unfoldable pub memory_delete : String → Items → Option GoalError × Items
memory_delete id items = (none, remove id items)

pub memory_load-save :
    (id : String) (g : Goal) (s : Items)
    → (memory_save g s).0 ≡ none
    → memory_load id (memory_save g s).1 ≡ (if g.id == id then ok g else memory_load id s)
unfolding memory_load memory_save
memory_load-save id g s h = ground (arith, lookup-insert g.id id g s)

pub memory_load-delete :
    (id j : String) (s : Items)
    → (memory_delete id s).0 ≡ none
    → memory_load j (memory_delete id s).1
      ≡ (if id == j then err err_not_found else memory_load j s)
unfolding memory_load memory_delete
memory_load-delete id j s h = ground (arith, lookup-remove id j s)

-- `MemoryStore` keeps the promise of the seam.
abbrev pub memory_store : Store
memory_store = record {
  S = Items;
  load = memory_load;
  save = memory_save;
  delete = memory_delete;
  load-save = memory_load-save;
  load-delete = memory_load-delete;
}
