-- ===== src/Todo/Shown.antt =====
-- tools/todo/todo.go, `logSnapshotLocked`: the task list that a session log shows.
use gocel.Prelude.{
  ◌≡◌, refl, ap, sym, ◌∙◌, Bool, true, false, not, ◌&&◌, List, [], ◌∷◌, ◌++◌, String, Option, none,
  some, insert, string_eq, ◌==◌, if◌then◌else◌, Bool-cases, inl, inr, subst,
}
use gocel.Prelude.Int.{ℤ}
use gocel.Session.{Log, Event, append}
use gocel.Session.Invariant.{
  append-log_only, closed-committed, append-cases, committed, numbered_event, events-committed,
}
use gocel.Todo.{Task, Tasks, Call, runs, others, values, log_only_event}

module _ {M : Type 0} where
  -- The list in the last event "todo/write".
  unfoldable pub last_write : List (Event M (List Task)) → Option (List Task)
  last_write [] = none
  last_write (e ∷ events) = elim (last_write events) [
    | some items ↦ some items
    | none ↦ if e.kind == "todo/write" then e.meta else none
  ]

  pub last_write-append_one :
      (events : List (Event M (List Task))) (e : Event M (List Task)) (items : List Task)
      → e.kind ≡ "todo/write"
      → e.meta ≡ some items
      → last_write (events ++ e ∷ []) ≡ some items
  unfolding last_write
  last_write-append_one [] e items k h = rw (k, h) refl
  last_write-append_one (x ∷ events) e items k h =
      rw (last_write-append_one events e items k h) refl

  pub last_write-foreign :
      (events : List (Event M (List Task))) (e : Event M (List Task))
      → (e.kind == "todo/write") ≡ false
      → last_write (events ++ e ∷ []) ≡ last_write events
  unfolding last_write
  last_write-foreign [] e k = rw k refl
  last_write-foreign (x ∷ events) e k = rw (last_write-foreign events e k) refl

  -- The others append other events.
  unfoldable pub foreign : List (Call M) → Bool
  foreign [] = true
  foreign (runs now parsed ∷ calls) = foreign calls
  foreign (others e ∷ calls) = not (e.kind == "todo/write") && foreign calls

  -- An open log, whose last list is the given one.
  pub record Shows (items : Option (List Task)) (log : Log M (List Task)) : Type 0 where
    pub unsealed : log.closed ≡ false
    pub shown : last_write log.events ≡ items

  pub append-written :
      (items : List Task) (now : ℤ) (old : Option (List Task)) (log : Log M (List Task))
      → Shows old log
      → Shows (some items) (append (log_only_event "todo/write" items now) log).0
  append-written items now old log v =
      let e : Event M (List Task) = log_only_event "todo/write" items now in
      let done : (append e log).0 ≡ committed (numbered_event e log) log.surface log =
        append-log_only e log refl refl v.unsealed in
      subst (Shows (some items)) (sym done) (record {
        unsealed = closed-committed (numbered_event e log) log.surface log ∙ v.unsealed;
        shown =
            ap last_write (events-committed (numbered_event e log) log.surface log)
            ∙ last_write-append_one log.events (numbered_event e log) items refl refl;
      })

  pub append-foreign :
      (e : Event M (List Task)) (items : Option (List Task)) (log : Log M (List Task))
      → (e.kind == "todo/write") ≡ false
      → Shows items log
      → Shows items (append e log).0
  append-foreign e items log k v = elim (append-cases e log) [
    | inl (f, same) ↦ subst (λ r. Shows items r.0) (sym same) v
    | inr (s, unsealed, free, fits, done) ↦
        subst (λ r. Shows items r.0) (sym done)
          (record {
            unsealed = closed-committed (numbered_event e log) s log ∙ v.unsealed;
            shown =
                ap last_write (events-committed (numbered_event e log) s log)
                ∙ last_write-foreign log.events (numbered_event e log) k
                ∙ v.shown;
          })
  ]

module _ (in_order : List Task → List Task) where
  -- Nothing before the first task, then the whole list.
  abbrev pub written : Tasks → Option (List Task)
  written [] = none
  written (entry ∷ tasks) = some (in_order (values (entry ∷ tasks)))

  pub written-insert :
      (id : String) (task : Task) (tasks : Tasks)
      → written (insert id task tasks) ≡ some (in_order (values (insert id task tasks)))
  unfolding insert
  written-insert id task [] = refl
  written-insert id task ((key, old) ∷ tasks) = elim (Bool-cases (key == id)) [
    | inl hit ↦ rw (insert, hit) refl
    | inr miss ↦ rw (insert, miss) refl
  ]
