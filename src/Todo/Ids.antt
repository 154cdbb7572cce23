-- ===== src/Todo/Ids.antt =====
-- tools/todo/todo.go: the ids of the tasks, and what a call does to them.
use gocel.Prelude.{
  [], ◌∷◌, ◌∷◌, Option, ℕ, ◌+◌, ◌≤◌, ◌≡◌, refl, ap, sym, ◌∙◌, true, List, String, none, some,
  lookup, insert, string_eq, ◌==◌, if◌then◌else◌, Option-cases, Bool-cases, inl, inr, lookup-insert,
  subst, arith,
}
use gocel.Prelude.Int.{ℤ}
use gocel.Session.{Log}
use gocel.Todo.{
  Args, Call, runs, others, new_tool, add, set_status, update, run_tool, step, run, Task, Tasks,
  Tool, log_snapshot, valid_status,
}

-- What a call may do to the tasks: nothing, a new task under a new id, or a new status for one.
pub data Change (before after : Tasks) : Type 0 where
  kept : after ≡ before → Change before after
  added :
      (id content : String)
      → lookup id before ≡ none
      → ((other : String)
          → lookup other after ≡ (
              if id == other
              then some (record { id = id; content = content; status = "pending" })
              else lookup other before))
      → Change before after
  restated :
      (id status : String) (task : Task)
      → lookup id before ≡ some task
      → valid_status status ≡ true
      → ((other : String)
          → lookup other after
            ≡ (if id == other then some (record task { status = status }) else lookup other before))
      → Change before after

module _ {M : Type 0} (in_order : List Task → List Task) (trim lower : String → String)
    (print_id : ℕ → String) (sort : List Task → List Task)
    (distinct : (n m : ℕ) → print_id n ≡ print_id m → n ≡ m) where
  -- Every id was printed from a count that has been reached.
  record Numbered (t : Tool M) : Type 0 where
    numbered :
        (id : String) (task : Task)
        → lookup id t.tasks ≡ some task
        → (n : ℕ) × (n ≤ t.next_id) × (print_id n ≡ id)

  tasks-log_snapshot : (now : ℤ) (t : Tool M) → (log_snapshot in_order now t).tasks ≡ t.tasks
  unfolding log_snapshot
  tasks-log_snapshot now t = elim (Option-cases t.log) [
    | inl e ↦ rw (log_snapshot, e) refl
    | inr (log, e) ↦ rw (log_snapshot, e) refl
  ]

  next_id-log_snapshot : (now : ℤ) (t : Tool M) → (log_snapshot in_order now t).next_id ≡ t.next_id
  unfolding log_snapshot
  next_id-log_snapshot now t = elim (Option-cases t.log) [
    | inl e ↦ rw (log_snapshot, e) refl
    | inr (log, e) ↦ rw (log_snapshot, e) refl
  ]

  -- The state after a call: its tasks, and how far the counter went.
  record Moved (t t' : Tool M) : Type 0 where
    change : Change t.tasks t'.tasks
    numbered : Numbered t'

  snapshot-Moved : (now : ℤ) (t t' : Tool M) → Moved t t' → Moved t (log_snapshot in_order now t')
  snapshot-Moved now t t' v = record {
    change = subst (Change t.tasks) (sym (tasks-log_snapshot now t')) v.change;
    numbered = record {
      numbered = λ id task h.
          let (n, below, printed) =
            v.numbered.numbered id task (ap (lookup id) (sym (tasks-log_snapshot now t')) ∙ h) in
          (n, omega (arith, next_id-log_snapshot now t'), printed);
    };
  }

  still-Moved : (t : Tool M) → Numbered t → Moved t t
  still-Moved t v = record { change = kept refl; numbered = v }

  -- The id of the next count is not taken.
  next_free : (t : Tool M) → Numbered t → lookup (print_id (t.next_id + 1)) t.tasks ≡ none
  next_free t v = elim (Option-cases (lookup (print_id (t.next_id + 1)) t.tasks)) [
    | inl free ↦ free
    | inr (task, taken) ↦
        let (n, below, printed) = v.numbered (print_id (t.next_id + 1)) task taken in
        let same : n ≡ t.next_id + 1 = distinct n (t.next_id + 1) printed in absurd (omega arith)
  ]

  added-Moved :
      (t : Tool M) (content : String)
      → Numbered t
      → let id = print_id (t.next_id + 1) in
        Moved t (record t {
          next_id = t.next_id + 1;
          tasks =
              insert id
                (let task : Task = record { id = id; content = content; status = "pending" } in
                  task)
                t.tasks;
        })
  added-Moved t content v =
      let id = print_id (t.next_id + 1) in
      let task : Task = record { id = id; content = content; status = "pending" } in
      record {
        change = added id content (next_free t v) (λ other. lookup-insert id other task t.tasks);
        numbered = record {
          numbered = λ other its h. elim (Bool-cases (id == other)) [
            | inl hit ↦ (t.next_id + 1, omega arith, (string_eq.beq_iff id other).0 hit)
            | inr miss ↦
                let old : lookup other t.tasks ≡ some its =
                  sym (lookup-insert id other task t.tasks ∙ rw miss refl) ∙ h in
                let (n, below, printed) = v.numbered other its old in (n, omega arith, printed)
          ];
        };
      }

  restated-Moved :
      (t : Tool M) (id status : String) (task : Task)
      → Numbered t
      → valid_status status ≡ true
      → lookup id t.tasks ≡ some task
      → Moved t (record t {
        tasks = insert id (let changed : Task = record task { status = status } in changed) t.tasks;
      })
  restated-Moved t id status task v fine found =
      let changed : Task = record task { status = status } in
      record {
        change =
            restated id status task found fine (λ other. lookup-insert id other changed t.tasks);
        numbered = record {
          numbered = λ other its h. elim (Bool-cases (id == other)) [
            | inl hit ↦
                let here : lookup other t.tasks ≡ some task =
                  ap (λ k. lookup k t.tasks) (sym ((string_eq.beq_iff id other).0 hit)) ∙ found in
                v.numbered other task here
            | inr miss ↦
                v.numbered other its
                  (sym (lookup-insert id other changed t.tasks ∙ rw miss refl) ∙ h)
          ];
        };
      }

  set_status-Moved :
      (now : ℤ) (id status : String) (t : Tool M)
      → Numbered t
      → valid_status status ≡ true
      → Moved t (set_status in_order trim lower print_id sort now id status t).0
  unfolding set_status
  set_status-Moved now id status t v fine = elim (Option-cases (lookup id t.tasks)) [
    | inl e ↦ rw (set_status, e) (still-Moved t v)
    | inr (task, e) ↦
        let moved = snapshot-Moved now t _ (restated-Moved t id status task v fine e) in
        let goes : (set_status in_order trim lower print_id sort now id status t).0
            ≡ log_snapshot in_order now
                (record t { tasks = insert id (record task { status = status }) t.tasks }) =
          rw (set_status, e) refl in
        subst (Moved t) (sym goes) moved
  ]

  update-Moved :
      (now : ℤ) (args : Args) (t : Tool M)
      → Numbered t
      → Moved t (update in_order trim lower print_id sort now args t).0
  unfolding update
  update-Moved now args t v = elim (Bool-cases (args.id == "")) [
    | inl e ↦ rw (update, e) (still-Moved t v)
    | inr e ↦ elim (Bool-cases (valid_status (trim (lower args.status)))) [
      | inr f ↦ rw (update, e, f) (still-Moved t v)
      | inl f ↦ rw (update, e, f) (set_status-Moved now args.id (trim (lower args.status)) t v f)
    ]
  ]

  add-Moved :
      (now : ℤ) (args : Args) (t : Tool M)
      → Numbered t
      → Moved t (add in_order trim lower print_id sort now args t).0
  unfolding add
  add-Moved now args t v = elim (Bool-cases (trim args.content == "")) [
    | inl e ↦ rw (add, e) (still-Moved t v)
    | inr e ↦ rw (add, e) (snapshot-Moved now t _ (added-Moved t (trim args.content) v))
  ]

  run_tool-Moved :
      (now : ℤ) (parsed : Option Args) (t : Tool M)
      → Numbered t
      → Moved t (run_tool in_order trim lower print_id sort now parsed t).0
  unfolding run_tool
  run_tool-Moved now none t v = still-Moved t v
  run_tool-Moved now (some args) t v = elim (Bool-cases (args.action == "add")) [
    | inl e ↦ rw (run_tool, e) (add-Moved now args t v)
    | inr e ↦ elim (Bool-cases (args.action == "update")) [
      | inl f ↦ rw (run_tool, e, f) (update-Moved now args t v)
      | inr f ↦ elim (Bool-cases (args.action == "list")) [
        | inl g ↦ rw (run_tool, e, f, g) (still-Moved t v)
        | inr g ↦ rw (run_tool, e, f, g) (still-Moved t v)
      ]
    ]
  ]

  step-Moved :
      (c : Call M) (t : Tool M) → Numbered t → Moved t (step in_order trim lower print_id sort c t)
  unfolding step
  step-Moved (runs now parsed) t v = run_tool-Moved now parsed t v
  step-Moved (others e) t v = elim (Option-cases t.log) [
    | inl f ↦
        let same : step in_order trim lower print_id sort (others e) t ≡ t = simp (step, f) in
        subst (Moved t) (sym same) (still-Moved t v)
    | inr (log, f) ↦
        rw (step, f) (record { change = kept refl; numbered = record { numbered = v.numbered } })
  ]

  run-Numbered :
      (calls : List (Call M)) (t : Tool M)
      → Numbered t
      → Numbered (run in_order trim lower print_id sort calls t)
  unfolding run
  run-Numbered [] t v = v
  run-Numbered (c ∷ calls) t v = run-Numbered calls _ (step-Moved c t v).numbered

  new_tool-Numbered :
      (log : Option (Log M (List Task))) → Numbered (record (new_tool M) { log = log })
  unfolding new_tool lookup
  new_tool-Numbered log = record { numbered = λ id task h. absurd (cc h) }

  -- If distinct counts print as distinct ids, a call of a tool after any calls, or an append to
  -- its log, keeps the tasks, adds a pending task under an id that no task has, or gives one task
  -- a valid status; the other tasks stay.
  pub step-Change :
      (log : Option (Log M (List Task))) (calls : List (Call M)) (c : Call M)
      → let t = run in_order trim lower print_id sort calls (record (new_tool M) { log = log }) in
        Change t.tasks (step in_order trim lower print_id sort c t).tasks
  step-Change log calls c = (step-Moved c _ (run-Numbered calls _ (new_tool-Numbered log))).change
