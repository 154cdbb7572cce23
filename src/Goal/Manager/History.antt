-- ===== src/Goal/Manager/History.antt =====
-- The manager of core/goal/goal.go over `MemoryStore`: whole histories of calls.
use gocel.Prelude.{
  ◌&&◌, Bool-cases, ℕ, ◌+◌, ◌≡◌, refl, sym, ◌∙◌, ap, inl, inr, false, String, List, [], ◌∷◌, arith,
  ◌==◌, string_eq, ok, err, Result-cases,
}
use gocel.Prelude.Int.{ltb_ℤ, ℤ, pos}
use gocel.Goal.{
  Goal, GoalError, GoalResult, Op, completes, pauses, resumes, rounds, blocks, mutate,
  err_not_found, is_blank,
}
use gocel.Goal.Store.{
  Items, memory_store, memory_load, memory_save, memory_delete, memory_load-save,
  memory_load-delete,
}
use gocel.Goal.Phases.{IsValid, mutate-IsValid}
use gocel.Goal.Manager.{
  alone, saved, commit, apply, update_loaded, update, perform, fresh_goal, create_if_absent, create,
  clear,
}
use gocel.Goal.Manager.Revisions.{update-ok, mutate_keeps}

pub data Call : Type 0 where
  creates : ℕ → String → String → ℤ → Call
  performs : ℕ → String → Op → Call
  clears : String → Call

pub step : Call → Items → Items
step (creates now new_id objective max_rounds) s =
    (create memory_store now new_id objective max_rounds s).1
step (performs now id op) s = (perform memory_store now alone id op s).1
step (clears id) s = (clear memory_store id s).1

pub run : List Call → Items → Items
run [] s = s
run (c ∷ cs) s = run cs (step c s)

-- Every document is valid, and filed under its own id.
abbrev pub AllValid : Items → Type 0
AllValid s = (id : String) (g : Goal) → memory_load id s ≡ ok g → (g.id ≡ id) × IsValid g

-- A refused method leaves the store as it was.
pub update_refused :
    (now : ℕ) (id : String) (op : Op) (s : Items) (e : GoalError)
    → (update memory_store now alone id (mutate op) s).0 ≡ err e
    → (update memory_store now alone id (mutate op) s).1 ≡ s
unfolding update update_loaded apply commit saved memory_save
update_refused now id op s e h = ground arith

-- With the result as a pair, for the lemmas on `Update`.
pair_up {ℓ} : {A B : Type ℓ} (r : A × B) {a : A} → r.0 ≡ a → r ≡ (a, r.1)
pair_up r h = λ i. (h i, r.1)

AllValid-save :
    (id : String) (s : Items) (g : Goal)
    → AllValid s
    → g.id ≡ id
    → IsValid g
    → AllValid (memory_save g s).1
unfolding memory_save
AllValid-save id s g v same good j x h = elim (Bool-cases (g.id == j)) [
  | inl hit ↦
      let here : memory_load j (memory_save g s).1 ≡ ok g = memory_load-save j g s refl ∙ rw hit in
      let e : x ≡ g = cc in rw e ((string_eq.beq_iff g.id j).0 hit, good)
  | inr miss ↦
      let there : memory_load j (memory_save g s).1 ≡ memory_load j s =
        memory_load-save j g s refl ∙ rw miss in
      v j x (sym there ∙ h)
]

committed-IsValid :
    (now : ℕ) (g : Goal)
    → IsValid g
    → IsValid (record g { revision = g.revision + 1; updated_at = now })
committed-IsValid now g v = ground arith

update-AllValid :
    (now : ℕ) (id : String) (op : Op) (s : Items)
    → AllValid s
    → AllValid (update memory_store now alone id (mutate op) s).1
update-AllValid now id op s v =
    elim (Result-cases (update memory_store now alone id (mutate op) s).0) [
      | inl (g', h) ↦
          let (g, g1, e, m, _, made, _, final) =
            update-ok memory_store now alone id (mutate op) s _ g' (pair_up _ h) in
          let same : g'.id ≡ id =
            ap (λ (x : Goal). x.id) made ∙ (mutate_keeps op g g1 m).0 ∙ (v id g e).0 in
          rw final (
            AllValid-save id s g' v same
              (rw made (committed-IsValid now g1 (mutate-IsValid op g g1 (v id g e).1 m))))
      | inr (e, h) ↦ rw (update_refused now id op s e h) v
    ]

perform-AllValid :
    (now : ℕ) (id : String) (op : Op) (s : Items)
    → AllValid s
    → AllValid (perform memory_store now alone id op s).1
unfolding perform
perform-AllValid now id completes s v = update-AllValid now id completes s v
perform-AllValid now id pauses s v = update-AllValid now id pauses s v
perform-AllValid now id resumes s v = update-AllValid now id resumes s v
perform-AllValid now id rounds s v = update-AllValid now id rounds s v
perform-AllValid now id (blocks reason cfg) s v =
    let done = update-AllValid now id (blocks reason cfg) s v in
    elim (Bool-cases (is_blank reason)) [
      | inl e ↦ rw e v
      | inr e ↦ elim (Bool-cases (cfg.autonomous && ltb_ℤ cfg.min_streak (pos 1))) [
        | inl b ↦ rw (e, b) v
        | inr b ↦ rw (e, b) done
      ]
    ]

create_if_absent-AllValid :
    (g : Goal) (r : GoalResult) (s : Items)
    → AllValid s
    → IsValid g
    → AllValid (create_if_absent memory_store g r s).1
unfolding create_if_absent memory_save saved
create_if_absent-AllValid g (ok old) s v good = v
create_if_absent-AllValid g (err e) s v good = AllValid-save g.id s g v refl good

fresh_goal-IsValid :
    (now : ℕ) (new_id objective : String) (max_rounds : ℤ)
    → ltb_ℤ max_rounds (pos 0) ≡ false
    → IsValid (fresh_goal now new_id objective max_rounds)
fresh_goal-IsValid now new_id objective max_rounds h = ground arith

create-AllValid :
    (now : ℕ) (new_id objective : String) (max_rounds : ℤ) (s : Items)
    → AllValid s
    → AllValid (create memory_store now new_id objective max_rounds s).1
unfolding create
create-AllValid now new_id objective max_rounds s v = elim (Bool-cases (is_blank objective)) [
  | inl e ↦ rw e v
  | inr e ↦ elim (Bool-cases (ltb_ℤ max_rounds (pos 0))) [
    | inl b ↦ rw (e, b) v
    | inr b ↦
        rw (e, b)
          (create_if_absent-AllValid (fresh_goal now new_id objective max_rounds)
            (memory_load new_id s) s v (fresh_goal-IsValid now new_id objective max_rounds b))
  ]
]

clear-AllValid : (id : String) (s : Items) → AllValid s → AllValid (clear memory_store id s).1
unfolding clear memory_delete
clear-AllValid id s v j x h = elim (Bool-cases (id == j)) [
  | inl hit ↦
      let gone : memory_load j (memory_delete id s).1 ≡ err err_not_found =
        memory_load-delete id j s refl ∙ rw hit in
      cc
  | inr miss ↦
      let there : memory_load j (memory_delete id s).1 ≡ memory_load j s =
        memory_load-delete id j s refl ∙ rw miss in
      v j x (sym there ∙ h)
]

step-AllValid : (c : Call) (s : Items) → AllValid s → AllValid (step c s)
unfolding step
step-AllValid (creates now new_id objective max_rounds) s v =
    create-AllValid now new_id objective max_rounds s v
step-AllValid (performs now id op) s v = perform-AllValid now id op s v
step-AllValid (clears id) s v = clear-AllValid id s v

-- A store whose documents are all valid and filed under their own ids stays so through any history
-- of calls of one manager.
pub run-AllValid : (cs : List Call) (s : Items) → AllValid s → AllValid (run cs s)
unfolding run
run-AllValid [] s v = v
run-AllValid (c ∷ cs) s v = run-AllValid cs (step c s) (step-AllValid c s v)
