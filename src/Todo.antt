-- ===== src/Todo.antt =====
-- tools/todo/todo.go, over the session log of core/session. `print_id` is the `T%d` of package fmt,
-- `trim` and `lower` are of package strings, `in_order` gives the tasks in the order in which Go's
-- map happens to give them, `sort` is the `sort.Slice` by id, and `now` is the time. The counter
-- and the mutex make each action one step; the overflow of the counter at 2^63 is left out. The
-- result of an action is its message with its data, or its error, before it is written as JSON;
-- of a listing, the lines of the tasks and the numbers of the last line.
pub mod Ids
pub mod Shown
pub mod Mirror
mod Tests
use gocel.Prelude.{
  ℕ, suc, ◌+◌, Bool, true, false, not, ◌||◌, List, [], ◌∷◌, map, String, Option, none, some, length,
  lookup, insert, string_eq, ◌==◌, if◌then◌else◌, Result, ok, err,
}
use gocel.Prelude.Int.{ℤ, pos}
use gocel.Session.{Log, Event, log_only, append}
use Prim.Native.String.{◌++◌ as text_append}

pub record Task : Type 0 where
  pub id : String
  pub content : String
  pub status : String

abbrev pub valid_status : String → Bool
valid_status s = s == "pending" || s == "in_progress" || s == "completed"

marker : String → String
marker s =
    if s == "pending"
    then "[ ]"
    else if s == "in_progress"
    then "[>]"
    else if s == "completed"
    then "[x]"
    else "[?]"

abbrev pub Tasks : Type 0
Tasks = List (String × Task)

-- `todoTool`. `M` is the type of the log's messages.
pub record Tool (M : Type 0) : Type 0 where
  pub next_id : ℕ
  pub tasks : Tasks
  pub log : Option (Log M (List Task))

pub data TodoError : Type 0 where
  content_required id_required : TodoError
  invalid_status : (status : String) → TodoError
  task_not_found : (id : String) → TodoError
  invalid_args : TodoError
  unknown_action : (action : String) → TodoError

pub data Reply : Type 0 where
  one : (message id content status : String) → Reply
  no_tasks : Reply
  listing :
      (lines : List String) (tasks : List Task) (total pending in_progress completed : ℕ) → Reply

pub record Args : Type 0 where
  pub action : String
  pub content : String
  pub id : String
  pub status : String

pub data Call (M : Type 0) : Type 0 where
  runs : (now : ℤ) (parsed : Option Args) → Call M
  others : Event M (List Task) → Call M

pub new_tool : (M : Type 0) → Tool M
new_tool M = record { next_id = 0; tasks = []; log = none }

pub with_log : {M : Type 0} → Log M (List Task) → Tool M → Tool M
with_log log t = record t { log = some log }

-- `NewLogOnlyEvent`
abbrev pub log_only_event : {M D : Type 0} → (kind : String) (meta : D) (now : ℤ) → Event M D
log_only_event kind meta now = record {
  seq = pos 0;
  kind = kind;
  surface = log_only;
  source_from = pos 0;
  source_to = pos 0;
  message = none;
  meta = some meta;
  time = now;
}

abbrev pub values : Tasks → List Task
values = map (λ entry. entry.1)

pub count_by_status : List Task → String → ℕ
count_by_status [] s = 0
count_by_status (task ∷ tasks) s =
    if task.status == s then suc (count_by_status tasks s) else count_by_status tasks s

task_line : Task → String
unfolding marker
task_line task = text_append "- " (
    text_append (marker task.status)
      (text_append " **" (text_append task.id (text_append "** " task.content))))

module _ {M : Type 0} (in_order : List Task → List Task) where
  -- `logSnapshotLocked`, which drops the result of `Append`.
  pub log_snapshot : (now : ℤ) → Tool M → Tool M
  log_snapshot now t = elim t.log [
    | none ↦ t
    | some log ↦ record t {
      log = some (append (log_only_event "todo/write" (in_order (values t.tasks)) now) log).0;
    }
  ]

  module _ (trim lower : String → String) (print_id : ℕ → String)
      (sort : List Task → List Task) where
    pub add : (now : ℤ) → Args → Tool M → Tool M × Result TodoError Reply
    unfolding log_snapshot
    add now args t =
        if trim args.content == ""
        then (t, err content_required)
        else (let id = print_id (t.next_id + 1) in
            let task : Task = record { id = id; content = trim args.content; status = "pending" } in
            (
              log_snapshot now
                  (record t { next_id = t.next_id + 1; tasks = insert id task t.tasks }),
              ok (
                  one (text_append "Created task " (text_append id (text_append ": " args.content)))
                    id args.content "pending"),
            ))

    -- `update` from the lookup on.
    pub set_status : (now : ℤ) → (id status : String) → Tool M → Tool M × Result TodoError Reply
    unfolding log_snapshot marker
    set_status now id status t = elim (lookup id t.tasks) [
      | none ↦ (t, err (task_not_found id))
      | some task ↦
          let changed : Task = record task { status = status } in
          (
            log_snapshot now (record t { tasks = insert id changed t.tasks }),
            ok (
                one
                  (text_append "Updated task " (
                    text_append id (
                      text_append " to "
                        (text_append (marker status) (text_append " " task.content)))))
                  task.id task.content status),
          )
    ]

    pub update : (now : ℤ) → Args → Tool M → Tool M × Result TodoError Reply
    unfolding set_status
    update now args t =
        let status = trim (lower args.status) in
        if args.id == ""
        then (t, err id_required)
        else if not (valid_status status)
        then (t, err (invalid_status args.status))
        else set_status now args.id status t

    pub list_tasks : Tool M → Reply
    unfolding count_by_status task_line
    list_tasks t =
        let tasks = sort (in_order (values t.tasks)) in
        elim t.tasks [
          | [] ↦ no_tasks
          | _ ∷ _ ↦
              listing (map task_line tasks) tasks (length tasks) (count_by_status tasks "pending")
                (count_by_status tasks "in_progress") (count_by_status tasks "completed")
        ]

    -- `Run`; `parsed` is what json.Unmarshal makes of the arguments.
    pub run_tool : (now : ℤ) (parsed : Option Args) → Tool M → Tool M × Result TodoError Reply
    unfolding add update list_tasks
    run_tool now none t = (t, err invalid_args)
    run_tool now (some args) t =
        if args.action == "add"
        then add now args t
        else if args.action == "update"
        then update now args t
        else if args.action == "list"
        then (t, ok (list_tasks t))
        else (t, err (unknown_action args.action))

    -- What happens to a tool: a call at a time, or an append to its log by others.
    pub step : Call M → Tool M → Tool M
    unfolding run_tool
    step (runs now parsed) t = (run_tool now parsed t).0
    step (others e) t = elim t.log [
      | none ↦ t
      | some log ↦ record t { log = some (append e log).0 }
    ]

    pub run : List (Call M) → Tool M → Tool M
    unfolding step
    run [] t = t
    run (c ∷ calls) t = run calls (step c t)
