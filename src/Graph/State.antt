-- ===== src/Graph/State.antt =====
-- graph/state.go. A value (`any`) is `none` for nil, else `some` of an abstract type `V`. Maps are
-- association lists: what is proved holds for every order of their entries, so for every order in
-- which Go may range over them. Callbacks of watchers are numbers; an operation returns the calls
-- that it makes after its lock is released.
pub mod Merge
pub mod Rollback
pub mod Reading
mod Tests
use gocel.Prelude.{
  ℕ, ◌+◌, ◌≡◌, String, Option, none, some, Bool, true, false, ◌||◌, List, [], ◌∷◌, ◌++◌, map,
  length, take, filter, ltb, if◌then◌else◌, ◌==◌, string_eq, lookup, insert, remove, keys, has_key,
  nat_eq, Result, ok, err, contains,
}
use gocel.Prelude.Int.{ℤ, pos, pos_part, ltb_ℤ}

pub record StateEntry (V : Type 0) : Type 0 where
  pub key : String
  pub old_value : Option V
  pub new_value : Option V
  pub source : String
  pub timestamp : ℕ

pub record StateChange (V : Type 0) : Type 0 where
  pub key : String
  pub old_value : Option V
  pub new_value : Option V

-- `keys` is nil for a watcher of all keys. `ticket` is the identity of the entry.
pub record Watcher : Type 0 where
  pub ticket : ℕ
  pub watched : Option (List String)
  pub fn : ℕ

pub record PendingCall (V : Type 0) : Type 0 where
  pub fn : ℕ
  pub changes : List (StateChange V)

pub record GraphState (V : Type 0) : Type 0 where
  pub values : List (String × Option V)
  pub history : List (StateEntry V)
  pub watchers : List Watcher

pub data StateError : Type 0 where
  rollback_out_of_range : StateError

-- What `m[key]` reads: nil for a missing key.
abbrev pub or_nil : {V : Type 0} → Option (Option V) → Option V
or_nil none = none
or_nil (some v) = v

without_ticket : ℕ → List Watcher → List Watcher
without_ticket ticket [] = []
without_ticket ticket (w ∷ ws) = if w.ticket == ticket then ws else w ∷ without_ticket ticket ws

module _ {V : Type 0} where
  pub new_graph_state : GraphState V
  new_graph_state = record { values = []; history = []; watchers = [] }

  unfoldable pub get : String → GraphState V → Option (Option V)
  get key gs = lookup key gs.values

  pub has : String → GraphState V → Bool
  has key gs = has_key key gs.values

  any_changed : List String → List (StateChange V) → Bool
  any_changed [] changes = false
  any_changed (k ∷ ks) changes = contains k (map (λ c. c.key) changes) || any_changed ks changes

  is_due : Option (List String) → List (StateChange V) → Bool
  unfolding any_changed
  is_due none changes = true
  is_due (some ks) changes = any_changed ks changes

  pub collect_locked : List (StateChange V) → List Watcher → List (PendingCall V)
  unfolding is_due
  collect_locked changes [] = []
  collect_locked changes (w ∷ ws) =
      let rest = collect_locked changes ws in
      if is_due w.watched changes then record { fn = w.fn; changes = changes } ∷ rest else rest

  -- A write: the data, a line of history, and the calls of the watchers.
  abbrev write :
      ℕ
      → String
      → String
      → Option V
      → Option V
      → List (String × Option V)
      → GraphState V
      → GraphState V × List (PendingCall V)
  write now source key old new values gs = (
    record gs {
      values = values;
      history =
          gs.history
          ++ record {
            key = key;
            old_value = old;
            new_value = new;
            source = source;
            timestamp = now;
          }
            ∷ [];
    },
    collect_locked (record { key = key; old_value = old; new_value = new } ∷ []) gs.watchers,
  )

  pub set_with_source :
      ℕ → String → Option V → String → GraphState V → GraphState V × List (PendingCall V)
  set_with_source now key value source gs =
      write now source key (or_nil (lookup key gs.values)) value (insert key value gs.values) gs

  pub set : ℕ → String → Option V → GraphState V → GraphState V × List (PendingCall V)
  unfolding set_with_source
  set now key value gs = set_with_source now key value "" gs

  delete_found : ℕ → String → Option (Option V) → GraphState V → GraphState V × List (PendingCall V)
  delete_found now key none gs = (gs, [])
  delete_found now key (some old) gs = write now "delete" key old none (remove key gs.values) gs

  pub delete : ℕ → String → GraphState V → GraphState V × List (PendingCall V)
  unfolding delete_found
  delete now key gs = delete_found now key (lookup key gs.values) gs

  -- Copies of the maps and slices; the values are shared.
  pub fork : GraphState V → GraphState V
  fork gs = record { values = gs.values; history = gs.history; watchers = gs.watchers }

  -- The keys of `other` that `gs` lacks, with what `other.Get` answers.
  pub missing_keys : List String → GraphState V → GraphState V → List (String × Option V)
  unfolding get
  missing_keys [] other gs = []
  missing_keys (k ∷ ks) other gs =
      let rest = missing_keys ks other gs in
      if has_key k gs.values then rest else (k, or_nil (get k other)) ∷ rest

  -- The loop of `MergeFrom` over the keys that it found missing. Each write is a critical section of
  -- its own: `others` is what others do to the state before the write of the first of these keys.
  pub set_all :
      ℕ
      → (others : List (String × Option V) → GraphState V → GraphState V) → List (String × Option V)
      → GraphState V
      → GraphState V × List (PendingCall V)
  set_all now others [] gs = (gs, [])
  set_all now others ((k, v) ∷ to_set) gs =
      let (gs', calls) = set_with_source now k v "merge" (others ((k, v) ∷ to_set) gs) in
      let (done, later) = set_all now others to_set gs' in (done, calls ++ later)

  -- `gs` is the state when the missing keys are looked for; the other state is `other` when its keys
  -- are read, and `later` when its values are.
  pub merge_from :
      ℕ
      → (others : List (String × Option V) → GraphState V → GraphState V)
      → (other later : GraphState V) → GraphState V
      → GraphState V × List (PendingCall V)
  unfolding missing_keys set_all
  merge_from now others other later gs =
      set_all now others (missing_keys (keys other.values) later gs) gs

  pub history_by_source : String → GraphState V → List (StateEntry V)
  history_by_source source gs = filter (λ entry. entry.source == source) gs.history

  -- One turn of the loop in `Rollback`.
  replay_entry : Option V → Option V → String → List (String × Option V) → List (String × Option V)
  replay_entry (some v) old key values = insert key (some v) values
  replay_entry none (some old) key values = values
  replay_entry none none key values = remove key values

  pub replay : List (StateEntry V) → List (String × Option V) → List (String × Option V)
  unfolding replay_entry
  replay [] values = values
  replay (entry ∷ entries) values =
      replay entries (replay_entry entry.new_value entry.old_value entry.key values)

  pub rollback : ℤ → GraphState V → Result StateError (GraphState V)
  unfolding replay
  rollback version gs =
      if ltb_ℤ version (pos 0) || ltb_ℤ (pos (length gs.history)) version
      then err rollback_out_of_range
      else ok (record gs {
        values = replay (take (pos_part version) gs.history) [];
        history = take (pos_part version) gs.history;
      })

  pub clear : GraphState V → GraphState V
  clear gs = record gs { values = []; history = [] }

  -- `ticket` is the new entry's address.
  pub watch : ℕ → Option (List String) → ℕ → GraphState V → GraphState V
  watch ticket watched fn gs = record gs {
    watchers = gs.watchers ++ record { ticket = ticket; watched = watched; fn = fn } ∷ [];
  }

  -- The function that `Watch` returns.
  pub cancel_watch : ℕ → GraphState V → GraphState V
  unfolding without_ticket
  cancel_watch ticket gs = record gs { watchers = without_ticket ticket gs.watchers }
