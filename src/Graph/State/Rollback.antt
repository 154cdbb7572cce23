-- ===== src/Graph/State/Rollback.antt =====
-- `Rollback` of graph/state.go after other operations.
use gocel.Prelude.{
  sym, length-append, beq_self, ap, ◌≤◌, ℕ, ◌≡◌, refl, ◌∙◌, String, Option, none, some, List, [],
  ◌∷◌, ◌++◌, arith, length, take, string_eq, lookup, remove, lookup-insert, lookup-remove, Result,
  ok,
}
use gocel.Prelude.Int.{pos}
use mathlib.Core.List.{append_assoc, append-nil}
use gocel.Graph.State.{
  GraphState, StateEntry, StateError, get, set_with_source, delete, delete_found, replay_entry,
  replay, rollback, new_graph_state,
}

module _ {V : Type 0} where
  replay-append :
      (xs ys : List (StateEntry V)) (m : List (String × Option V))
      → replay (xs ++ ys) m ≡ replay ys (replay xs m)
  unfolding replay
  replay-append [] ys m = refl
  replay-append (x ∷ xs) ys m = replay-append xs ys (replay_entry x.new_value x.old_value x.key m)

  -- The history explains the data.
  abbrev pub Consistent : GraphState V → Type 0
  Consistent gs = (j : String) → lookup j (replay gs.history []) ≡ get j gs

  -- The new state is explained by its history, after a write of a value that is not nil.
  pub set_with_source-Consistent :
      (now : ℕ) (key source : String) (v : V) (gs : GraphState V)
      → Consistent gs
      → Consistent (set_with_source now key (some v) source gs).0
  unfolding set_with_source get replay
  set_with_source-Consistent now key source v gs c j = rw (replay-append gs.history _ []) (
      lookup-insert key j (some v) (replay gs.history [])
      ∙ ground (arith, c j, lookup-insert key j (some v) gs.values))

  take-length_append : (xs ys : List (StateEntry V)) → take (length xs) (xs ++ ys) ≡ xs
  take-length_append [] ys = refl
  take-length_append (x ∷ xs) ys = rw (take-length_append xs ys)

  take-length : (xs : List (StateEntry V)) → take (length xs) xs ≡ xs
  take-length [] = refl
  take-length (x ∷ xs) = rw (take-length xs)

  abbrev back_to : GraphState V → List (StateEntry V) → Result StateError (GraphState V)
  back_to gs history = ok (record gs { values = replay history []; history = history })

  rollback_to :
      (version : ℕ) (gs : GraphState V)
      → version ≤ length gs.history
      → rollback (pos version) gs ≡ back_to gs (take version gs.history)
  unfolding rollback
  rollback_to version gs h = ground arith

  abbrev deletion : ℕ → String → V → StateEntry V
  deletion now key v = record {
    key = key;
    old_value = some v;
    new_value = none;
    source = "delete";
    timestamp = now;
  }

  delete_present :
      (now : ℕ) (key : String) (v : V) (gs : GraphState V)
      → get key gs ≡ some (some v)
      → (delete now key gs).0 ≡ record gs {
        values = remove key gs.values;
        history = gs.history ++ deletion now key v ∷ [];
      }
  unfolding delete get
  delete_present now key v gs h = rw (h, delete_found)

  Consistent-rollback :
      (gs later : GraphState V) (more : List (StateEntry V))
      → Consistent gs
      → later.history ≡ gs.history ++ more
      → (back : GraphState V) × (rollback (pos (length gs.history)) later ≡ ok back)
        × ((j : String) → get j back ≡ get j gs)
        × (back.history ≡ gs.history)
        × (back.watchers ≡ later.watchers)
  unfolding get
  Consistent-rollback gs later more c h =
      let taken : take (length gs.history) later.history ≡ gs.history =
        rw h (take-length_append gs.history more) in
      (
        record later { values = replay gs.history []; history = gs.history },
        rollback_to (length gs.history) later
              (omega (arith, ap length h, length-append gs.history more))
            ∙ ap (back_to later) taken,
        c,
        refl,
        refl,
      )

  -- After a `Delete` of a key that held a value, a rollback to the present version, which is to
  -- change nothing, brings the key back.
  pub rollback_after_delete :
      (now : ℕ) (key : String) (v : V) (gs : GraphState V)
      → Consistent gs
      → get key gs ≡ some (some v)
      → let gs' = (delete now key gs).0 in
        (get key gs' ≡ none)
        × ((back : GraphState V) × (rollback (pos (length gs'.history)) gs' ≡ ok back)
            × (get key back ≡ some (some v)))
  unfolding get replay
  rollback_after_delete now key v gs c h =
      let entry = deletion now key v in
      let gone = (delete now key gs).0 in
      let e : gone
          ≡ record gs { values = remove key gs.values; history = gs.history ++ entry ∷ [] } =
        delete_present now key v gs h in
      let past : gone.history ≡ gs.history ++ entry ∷ [] = ap (λ (x : GraphState V). x.history) e in
      (
        ap (get key) e ∙ lookup-remove key key gs.values ∙ rw (beq_self key),
        (
          record gone { values = replay gs.history []; history = gs.history ++ entry ∷ [] },
          rollback_to (length gone.history) gone (omega arith)
              ∙ ap (back_to gone) (take-length gone.history ∙ past)
              ∙ ap (λ m. ok (record gone { values = m; history = gs.history ++ entry ∷ [] }))
                  (replay-append gs.history (entry ∷ []) []),
          c key ∙ h,
        ),
      )

-- A `Set` or `SetWithSource` of a value that is not nil.
pub record Write (V : Type 0) : Type 0 where
  pub now : ℕ
  pub key : String
  pub value : V
  pub source : String

-- Any write or deletion; a value may be nil.
pub data Change (V : Type 0) : Type 0 where
  sets : (now : ℕ) (key : String) (value : Option V) (source : String) → Change V
  deletes : (now : ℕ) (key : String) → Change V

module _ {V : Type 0} where
  unfoldable pub written : List (Write V) → GraphState V → GraphState V
  written [] gs = gs
  written (w ∷ ws) gs = written ws (set_with_source w.now w.key (some w.value) w.source gs).0

  unfoldable pub changed : List (Change V) → GraphState V → GraphState V
  changed [] gs = gs
  changed (sets now key value source ∷ cs) gs =
      changed cs (set_with_source now key value source gs).0
  changed (deletes now key ∷ cs) gs = changed cs (delete now key gs).0

  written-Consistent :
      (ws : List (Write V)) (gs : GraphState V) → Consistent gs → Consistent (written ws gs)
  unfolding written
  written-Consistent [] gs c = c
  written-Consistent (w ∷ ws) gs c =
      written-Consistent ws _ (set_with_source-Consistent w.now w.key w.source w.value gs c)

  -- A longer history.
  abbrev Grown : GraphState V → GraphState V → Type 0
  Grown gs later = (more : List (StateEntry V)) × (later.history ≡ gs.history ++ more)

  Grown-trans : (a b c : GraphState V) → Grown a b → Grown b c → Grown a c
  Grown-trans a b c (xs, h) (ys, k) =
      (xs ++ ys, k ∙ ap (λ l. l ++ ys) h ∙ append_assoc a.history xs ys)

  delete_found-Grown :
      (now : ℕ) (key : String) (o : Option (Option V)) (gs : GraphState V)
      → Grown gs (delete_found now key o gs).0
  unfolding delete_found
  delete_found-Grown now key none gs = ([], sym (append-nil gs.history))
  delete_found-Grown now key (some old) gs = (_, refl)

  changed-Grown : (cs : List (Change V)) (gs : GraphState V) → Grown gs (changed cs gs)
  unfolding changed set_with_source delete
  changed-Grown [] gs = ([], sym (append-nil gs.history))
  changed-Grown (sets now key value source ∷ cs) gs =
      let next = (set_with_source now key value source gs).0 in
      Grown-trans gs next (changed cs next) (_, refl) (changed-Grown cs next)
  changed-Grown (deletes now key ∷ cs) gs =
      let next = (delete now key gs).0 in
      Grown-trans gs next (changed cs next) (delete_found-Grown now key (lookup key gs.values) gs)
        (changed-Grown cs next)

  -- After writes of values that are not nil to a new state, and then any writes and deletions,
  -- Rollback to the version after the first writes succeeds, and restores the data and the history
  -- of that version; the watchers stay.
  pub rollback_restores :
      (ws : List (Write V)) (cs : List (Change V))
      → let gs = written ws new_graph_state in
        let later = changed cs gs in
        (back : GraphState V) × (rollback (pos (length gs.history)) later ≡ ok back)
        × ((j : String) → get j back ≡ get j gs)
        × (back.history ≡ gs.history)
        × (back.watchers ≡ later.watchers)
  unfolding new_graph_state get replay lookup
  rollback_restores ws cs =
      let gs = written ws (new_graph_state {V = V}) in
      let (more, h) = changed-Grown cs gs in
      Consistent-rollback gs (changed cs gs) more
        (written-Consistent ws (new_graph_state {V = V}) (λ j. refl)) h
