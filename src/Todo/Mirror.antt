-- ===== src/Todo/Mirror.antt =====
-- tools/todo/todo.go, `logSnapshotLocked`: the list in the log and the list in the tool.
use gocel.Prelude.{
  ℕ, ◌+◌, ◌≡◌, refl, ap, sym, ◌∙◌, true, false, List, [], ◌∷◌, String, Option, none, some, lookup,
  insert, string_eq, ◌==◌, Option-cases, Bool-cases, inl, inr, subst, arith,
}
use gocel.Prelude.Int.{ℤ}
use gocel.Session.{Log, Event, append, new_log}
use gocel.Todo.{
  Task, Tool, Args, Call, runs, others, new_tool, with_log, log_snapshot, add, set_status, update,
  run_tool, step, run, valid_status, values, log_only_event,
}
use gocel.Todo.Shown.{
  last_write, foreign, Shows, append-written, append-foreign, written, written-insert,
}

module _ {M : Type 0} (in_order : List Task → List Task) (trim lower : String → String)
    (print_id : ℕ → String) (sort : List Task → List Task) where
  -- The tool has a log, which shows its list.
  record Mirrored (t : Tool M) : Type 0 where
    log : Log M (List Task)
    attached : t.log ≡ some log
    shows : Shows (written in_order t.tasks) log

  snapshot-Mirrored :
      (now : ℤ) (t t' : Tool M) (id : String) (task : Task)
      → Mirrored t
      → t'.log ≡ t.log
      → t'.tasks ≡ insert id task t.tasks
      → Mirrored (log_snapshot in_order now t')
  unfolding log_snapshot
  snapshot-Mirrored now t t' id task v same wrote =
      let e : Event M (List Task) = log_only_event "todo/write" (in_order (values t'.tasks)) now in
      let goes : log_snapshot in_order now t' ≡ record t' { log = some (append e v.log).0 } =
        (let attached : t'.log ≡ some v.log = same ∙ v.attached in simp (log_snapshot, attached)) in
      let list : written in_order t'.tasks ≡ some (in_order (values t'.tasks)) =
        ap (written in_order) wrote
        ∙ written-insert in_order id task t.tasks
        ∙ ap (λ x. some (in_order (values x))) (sym wrote) in
      subst Mirrored (sym goes) (record {
        log = (append e v.log).0;
        attached = refl;
        shows =
            subst (λ x. Shows x (append e v.log).0) (sym list)
              (append-written (in_order (values t'.tasks)) now (written in_order t.tasks) v.log
                v.shows);
      })

  -- A call leaves the tool as it was, or writes one task and then the list.
  data Wrote (now : ℤ) (t : Tool M) : Tool M → Type 0 where
    idle : Wrote now t t
    wrote :
        (n : ℕ) (id : String) (task : Task)
        → Wrote now t
            (log_snapshot in_order now (record t { next_id = n; tasks = insert id task t.tasks }))

  Wrote-Mirrored : (now : ℤ) (t t' : Tool M) → Wrote now t t' → Mirrored t → Mirrored t'
  Wrote-Mirrored now t _ idle v = v
  Wrote-Mirrored now t _ (wrote n id task) v = snapshot-Mirrored now t _ id task v refl refl

  set_status-Wrote :
      (now : ℤ) (id status : String) (t : Tool M)
      → Wrote now t (set_status in_order trim lower print_id sort now id status t).0
  unfolding set_status
  set_status-Wrote now id status t = elim (Option-cases (lookup id t.tasks)) [
    | inl e ↦ rw (set_status, e) idle
    | inr (task, e) ↦ rw (set_status, e) (wrote t.next_id id (record task { status = status }))
  ]

  update-Wrote :
      (now : ℤ) (args : Args) (t : Tool M)
      → Wrote now t (update in_order trim lower print_id sort now args t).0
  unfolding update
  update-Wrote now args t = elim (Bool-cases (args.id == "")) [
    | inl e ↦ rw (update, e) idle
    | inr e ↦ elim (Bool-cases (valid_status (trim (lower args.status)))) [
      | inr f ↦ rw (update, e, f) idle
      | inl f ↦ rw (update, e, f) (set_status-Wrote now args.id (trim (lower args.status)) t)
    ]
  ]

  add-Wrote :
      (now : ℤ) (args : Args) (t : Tool M)
      → Wrote now t (add in_order trim lower print_id sort now args t).0
  unfolding add
  add-Wrote now args t = elim (Bool-cases (trim args.content == "")) [
    | inl e ↦ rw (add, e) idle
    | inr e ↦ rw (add, e) (wrote (t.next_id + 1) _ _)
  ]

  run_tool-Wrote :
      (now : ℤ) (parsed : Option Args) (t : Tool M)
      → Wrote now t (run_tool in_order trim lower print_id sort now parsed t).0
  unfolding run_tool
  run_tool-Wrote now none t = idle
  run_tool-Wrote now (some args) t = elim (Bool-cases (args.action == "add")) [
    | inl e ↦ rw (run_tool, e) (add-Wrote now args t)
    | inr e ↦ elim (Bool-cases (args.action == "update")) [
      | inl f ↦ rw (run_tool, e, f) (update-Wrote now args t)
      | inr f ↦ elim (Bool-cases (args.action == "list")) [
        | inl g ↦ rw (run_tool, e, f, g) idle
        | inr g ↦ rw (run_tool, e, f, g) idle
      ]
    ]
  ]

  others-Mirrored :
      (e : Event M (List Task)) (t : Tool M)
      → (e.kind == "todo/write") ≡ false
      → Mirrored t
      → Mirrored (step in_order trim lower print_id sort (others e) t)
  unfolding step
  others-Mirrored e t k v =
      let goes : step in_order trim lower print_id sort (others e) t
          ≡ record t { log = some (append e v.log).0 } =
        (let attached : t.log ≡ some v.log = v.attached in simp (step, attached)) in
      subst Mirrored (sym goes) (record {
        log = (append e v.log).0;
        attached = refl;
        shows = append-foreign e (written in_order t.tasks) v.log k v.shows;
      })

  run-Mirrored :
      (calls : List (Call M)) (t : Tool M)
      → foreign calls ≡ true
      → Mirrored t
      → Mirrored (run in_order trim lower print_id sort calls t)
  unfolding run foreign
  run-Mirrored [] t f v = v
  run-Mirrored (runs now parsed ∷ calls) t f v =
      run-Mirrored calls _ f (Wrote-Mirrored now t _ (run_tool-Wrote now parsed t) v)
  run-Mirrored (others e ∷ calls) t f v =
      run-Mirrored calls _ (ground arith) (others-Mirrored e t (ground arith) v)

  -- On a tool with a new log, after any calls, and appends of other events to the log in between,
  -- the last event "todo/write" of the log has all tasks of the tool, and there is none before the
  -- first task.
  pub log_shows_tasks :
      (id : String) (calls : List (Call M))
      → foreign calls ≡ true
      → let t = run in_order trim lower print_id sort calls (with_log (new_log id) (new_tool M)) in
        (log : Log M (List Task)) × (t.log ≡ some log)
        × (last_write log.events ≡ written in_order t.tasks)
  unfolding with_log new_log new_tool last_write
  log_shows_tasks id calls f =
      let start : Mirrored (with_log (new_log id) (new_tool M)) = record {
        log = new_log id;
        attached = refl;
        shows = record { unsealed = refl; shown = refl };
      } in
      let v = run-Mirrored calls (with_log (new_log id) (new_tool M)) f start in
      (v.log, v.attached, v.shows.shown)
