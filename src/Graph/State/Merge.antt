-- ===== src/Graph/State/Merge.antt =====
-- What `MergeFrom` of graph/state.go leaves under each key.
use gocel.Prelude.{
  ℕ, ◌≡◌, refl, String, Option, some, not, ◌&&◌, List, [], ◌∷◌, arith, if◌then◌else◌, ◌==◌,
  string_eq, lookup, keys, has_key, contains, lookup-insert,
}
use gocel.Graph.State.{GraphState, or_nil, get, set_with_source, missing_keys, set_all, merge_from}

module _ {V : Type 0} where
  -- Each key goes with the value that `f` gives it.
  abbrev Follows : (String → Option V) → List (String × Option V) → Type 0
  Follows f [] = Unit {0}
  Follows f ((k, v) ∷ kvs) = (v ≡ f k) × Follows f kvs

  contains-keys : (k : String) (m : List (String × Option V)) → contains k (keys m) ≡ has_key k m
  unfolding lookup
  contains-keys k [] = refl
  contains-keys k ((j, v) ∷ m) = ground (arith, contains-keys k m)

  missing_keys-Follows :
      (ks : List String) (other gs : GraphState V)
      → Follows (λ k. or_nil (get k other)) (missing_keys ks other gs)
  unfolding missing_keys
  missing_keys-Follows [] other gs = tt
  missing_keys-Follows (k ∷ ks) other gs = ground (arith, missing_keys-Follows ks other gs)

  has_key-missing_keys :
      (j : String) (ks : List String) (other gs : GraphState V)
      → has_key j (missing_keys ks other gs) ≡ (contains j ks && not (has_key j gs.values))
  unfolding missing_keys lookup
  has_key-missing_keys j [] other gs = refl
  has_key-missing_keys j (k ∷ ks) other gs =
      ground (arith, string_eq.beq_iff k j, has_key-missing_keys j ks other gs)

  pub get-set_with_source :
      (now : ℕ) (j k source : String) (v : Option V) (gs : GraphState V)
      → get j (set_with_source now k v source gs).0 ≡ (if k == j then some v else get j gs)
  unfolding get set_with_source
  get-set_with_source now j k source v gs = lookup-insert k j v gs.values

  -- What others do leaves the value under j.
  abbrev pub Leaves : String → (List (String × Option V) → GraphState V → GraphState V) → Type 0
  Leaves j others =
      (kvs : List (String × Option V)) (gs : GraphState V) → get j (others kvs gs) ≡ get j gs

  get-set_all :
      (now : ℕ) (others : List (String × Option V) → GraphState V → GraphState V) (j : String)
      (f : String → Option V) (kvs : List (String × Option V)) (gs : GraphState V)
      → Leaves j others
      → Follows f kvs
      → get j (set_all now others kvs gs).0 ≡ (if has_key j kvs then some (f j) else get j gs)
  unfolding set_all lookup
  get-set_all now others j f [] gs l h = refl
  get-set_all now others j f ((k, v) ∷ kvs) gs l h =
      let before = others ((k, v) ∷ kvs) gs in
      let gs' = (set_with_source now k v "merge" before).0 in
      ground (
        arith,
        string_eq.beq_iff k j,
        l ((k, v) ∷ kvs) gs,
        get-set_with_source now j k "merge" v before,
        get-set_all now others j f kvs gs' l h.1,
      )

  -- A key that others leave alone in both states while MergeFrom runs keeps its value if the state
  -- has it when the missing keys are looked for, and otherwise comes over with the value that the
  -- other state has, whatever others write to other keys between the critical sections.
  pub get-merge_from :
      (now : ℕ) (others : List (String × Option V) → GraphState V → GraphState V) (j : String)
      (other later gs : GraphState V)
      → Leaves j others
      → get j later ≡ get j other
      → get j (merge_from now others other later gs).0
        ≡ (if has_key j gs.values then get j gs else get j other)
  unfolding merge_from get
  get-merge_from now others j other later gs l same =
      let kvs = missing_keys (keys other.values) later gs in
      ground (
        arith,
        same,
        get-set_all now others j (λ k. or_nil (get k later)) kvs gs l
            (missing_keys-Follows (keys other.values) later gs),
        has_key-missing_keys j (keys other.values) later gs,
        contains-keys j other.values,
      )
