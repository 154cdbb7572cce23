-- ===== src/Session/Store.antt =====
-- core/session/store.go, `MemoryStore`: saved logs by their ids. A saved list is a copy, which a
-- value is. `sort` stands for sort.Strings. Contexts are not read.
use gocel.Prelude.{
  ◌≡◌, refl, ◌∙◌, Bool, true, not, ◌&&◌, List, [], ◌∷◌, String, none, some, lookup, insert, remove,
  keys, string_eq, lookup-insert, lookup-insert_self, lookup-remove, ◌==◌, Result, ok, err, arith,
}
use gocel.Session.{Event, Call, new_log, run, restore}
use gocel.Session.Restoring.{restores_run}

pub data StoreError : Type 0 where
  not_found : StoreError

abbrev pub Items {ℓ} : (M D : Type ℓ) → Type ℓ
Items M D = List (String × List (Event M D))

module _ {ℓ} {M D : Type ℓ} where
  pub save : String → List (Event M D) → Items M D → Items M D
  save id events items = insert id events items

  pub load : String → Items M D → Result StoreError (List (Event M D))
  load id items = elim (lookup id items) [ none ↦ err not_found | some events ↦ ok events ]

  list : (sort : List String → List String) → Items M D → List String
  list sort items = sort (keys items)

  pub delete : String → Items M D → Items M D
  delete id items = remove id items

pub data StoreCall {ℓ} (M D : Type ℓ) : Type ℓ where
  saves : String → List (Event M D) → StoreCall M D
  deletes : String → StoreCall M D

module _ {ℓ} {M D : Type ℓ} where
  store_step : StoreCall M D → Items M D → Items M D
  unfolding save delete
  store_step (saves id events) items = save id events items
  store_step (deletes id) items = delete id items

  unfoldable pub store_run : List (StoreCall M D) → Items M D → Items M D
  unfolding store_step
  store_run [] items = items
  store_run (c ∷ calls) items = store_run calls (store_step c items)

  -- The calls are on other ids.
  unfoldable pub elsewhere : String → List (StoreCall M D) → Bool
  elsewhere id [] = true
  elsewhere id (saves other events ∷ calls) = not (other == id) && elsewhere id calls
  elsewhere id (deletes other ∷ calls) = not (other == id) && elsewhere id calls

  lookup-store_run :
      (id : String) (calls : List (StoreCall M D)) (items : Items M D)
      → elsewhere id calls ≡ true
      → lookup id (store_run calls items) ≡ lookup id items
  unfolding store_run elsewhere
  lookup-store_run id [] items h = refl
  lookup-store_run id (saves other events ∷ calls) items h = ground (
    arith,
    lookup-store_run id calls (insert other events items),
    lookup-insert other id events items,
  )
  lookup-store_run id (deletes other ∷ calls) items h =
      ground (arith, lookup-store_run id calls (remove other items), lookup-remove other id items)

  -- A log that was saved
  pub stored_restores :
      (id new : String) (calls : List (Call M D)) (later : List (StoreCall M D)) (items : Items M D)
      → elsewhere id later ≡ true
      → let l = run calls (new_log id) in
        (load id (store_run later (save id l.events items)) ≡ ok l.events)
        × (restore l.events (new_log new)
            ≡ (record (new_log new) { seq = l.seq; events = l.events; surface = l.surface }, none))
  unfolding load save
  stored_restores id new calls later items h =
      let l = run calls (new_log id) in
      let kept : lookup id (store_run later (insert id l.events items)) ≡ some l.events =
        lookup-store_run id later (insert id l.events items) h
        ∙ lookup-insert_self id l.events items in
      (rw (save, load, kept) refl, restores_run id new calls)
