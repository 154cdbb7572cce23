-- ===== src/Todo/Tests.antt =====
-- tools/todo on a list of two tasks, with a log that others write to.
use gocel.Prelude.{
  ℕ, zero, suc, ◌≡◌, refl, ap, true, List, [], ◌∷◌, String, some, lookup, insert, string_eq,
}
use Prim.Native.String.{String}
use gocel.Prelude.Int.{pos}
use gocel.Session.{Log, new_log}
use gocel.Todo.{
  Task, Tool, Call, runs, others, new_tool, with_log, run, step, run_tool, values, log_only_event,
}
use gocel.Todo.Ids.{Change, step-Change}
use gocel.Todo.Shown.{last_write, foreign, written}
use gocel.Todo.Mirror.{log_shows_tasks}

-- A count in strokes, in place of the decimal of package fmt.
abbrev strokes : ℕ → String
strokes zero = ""
strokes (suc n) = String.◌∷◌ "i" (strokes n)

strokes_distinct : (n m : ℕ) → strokes n ≡ strokes m → n ≡ m
strokes_distinct zero zero h = refl
strokes_distinct zero (suc m) h = absurd (cc h)
strokes_distinct (suc n) zero h = absurd (cc h)
strokes_distinct (suc n) (suc m) h = ap suc (strokes_distinct n m (cc h))

abbrev adds : String → Call String
adds content =
    runs (pos 1) (some (record { action = "add"; content = content; id = ""; status = "" }))

abbrev completes : String → Call String
completes id =
    runs (pos 2) (some (record { action = "update"; content = ""; id = id; status = "completed" }))

abbrev calls : List (Call String)
calls =
    adds "read"
    ∷ others (log_only_event "checkpoint" [] (pos 1))
    ∷ adds "write"
    ∷ completes "i"
    ∷ completes "iiii"
    ∷ []

calls_foreign : foreign calls ≡ true
unfolding foreign
calls_foreign = refl

abbrev tool : Tool String
tool =
    run (λ ts. ts) (λ s. s) (λ s. s) strokes (λ ts. ts) calls
      (with_log (new_log "s") (new_tool String))

tasks_of_tool :
    values tool.tasks
    ≡ record { id = "i"; content = "read"; status = "completed" }
      ∷ record { id = "ii"; content = "write"; status = "pending" }
      ∷ []
unfolding run step run_tool with_log new_log new_tool lookup insert
tasks_of_tool = refl

log_shows_tasks_example :
    (log : Log String (List Task)) × (tool.log ≡ some log)
    × (last_write log.events ≡ written (λ ts. ts) tool.tasks)
log_shows_tasks_example =
    log_shows_tasks (λ ts. ts) (λ s. s) (λ s. s) strokes (λ ts. ts) "s" calls calls_foreign

step-Change_example :
    (let t =
        run
          (λ ts. ts)
          (λ s. s)
          (λ s. s)
          strokes
          (λ ts. ts)
          calls
          (record (new_tool String) { log = some (new_log "s") }) in
      Change t.tasks
        (step (λ ts. ts) (λ s. s) (λ s. s) strokes (λ ts. ts) (completes "ii") t).tasks)
step-Change_example =
    step-Change (λ ts. ts) (λ s. s) (λ s. s) strokes (λ ts. ts) strokes_distinct
      (some (new_log "s")) calls (completes "ii")
