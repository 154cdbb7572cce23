-- ===== src/Jobs/Registry.antt =====
-- core/jobs/jobs.go: `Registry`. Entries are a store, a list by their addresses, since the goroutine
-- of a job keeps its entry when `items` has lost it; `items` maps ids to addresses. The stages of a
-- goroutine are its critical sections, one step each. `settlements` and `changes` record what
-- `fireDone` and `fireChanged` tell the listeners; the lists of listeners are left out, and so is
-- ExitCode, which nothing writes. `print_id` is the `%s-%d` of package fmt. A count is a
-- natural number, where `release` stops at 0.
pub mod Control
pub mod Live
pub mod Counting
pub mod Told
pub mod Settling
pub mod Ids
mod Tests
use gocel.Prelude.{
  ℕ, suc, ◌+◌, ◌-◌, Bool, true, false, not, ◌||◌, ◌&&◌, List, [], ◌∷◌, ◌++◌, String, Option, none,
  some, length, lookup, insert, remove, has_key, string_eq, ◌==◌, ltb, leb, if◌then◌else◌, Result,
  ok, err, get_elem?, set_elem,
}
use gocel.Prelude.Int.{ℤ, pos, pos_part, leb_ℤ}
use gocel.Jobs.{TailStore, new_tail_store, write, read}

pub data Status : Type 0 where
  running stopping completed killed failed : Status

pub data JobError : Type 0 where
  nil_run job_limit job_exists job_not_found : JobError

pub record Spec : Type 0 where
  pub id : String
  pub kind : String
  pub label : String
  pub owner : String
  pub store_cap : ℤ
  pub final_output : Bool
  pub has_run : Bool

-- How far the goroutine of a job is: in `Run`, before `settle`, before `release`, or done.
pub data Stage : Type 0 where
  working returned settled gone : Stage

-- `jobEntry`, with its job, and what the goroutine knows: its stage, and whether its context is
-- cancelled. `armed` is `cancel != nil`.
pub record Entry : Type 0 where
  pub id : String
  pub kind : String
  pub label : String
  pub owner : String
  pub status : Status
  pub output : TailStore
  pub failure : Option String
  pub reported : Bool
  pub final_output : Bool
  pub armed : Bool
  pub cancelled : Bool
  pub stage : Stage

pub record Registry : Type 0 where
  pub seq : ℕ
  pub items : List (String × ℕ)
  pub entries : List Entry
  pub per_owner : List (String × ℕ)
  pub max_per_owner : ℕ
  pub settlements : List (ℕ × Status)
  pub changes : List String

pub new_registry : Registry
new_registry = record {
  seq = 0;
  items = [];
  entries = [];
  per_owner = [];
  max_per_owner = 10;
  settlements = [];
  changes = [];
}

pub set_max_per_owner : ℤ → Registry → Registry
set_max_per_owner n r = record r { max_per_owner = if leb_ℤ n (pos 0) then 10 else pos_part n }

-- Go reads a missing key as 0.
abbrev pub count_or_zero : Option ℕ → ℕ
count_or_zero none = 0
count_or_zero (some n) = n

abbrev pub owned : String → Registry → ℕ
owned owner r = count_or_zero (lookup owner r.per_owner)

abbrev kind_of : Spec → String
kind_of spec = if spec.kind == "" then "job" else spec.kind

abbrev pub at_limit : Spec → Registry → Bool
at_limit spec r = not (spec.owner == "") && leb r.max_per_owner (owned spec.owner r)

-- `Start` from the test of the id to the end of its critical section; `arm` is the rest, which sets
-- `cancel` and starts the goroutine.
pub add_job : String → ℕ → Spec → Registry → Registry
add_job id seq spec r = record r {
  seq = seq;
  items = insert id (length r.entries) r.items;
  entries =
      r.entries
      ++ record {
        id = id;
        kind = kind_of spec;
        label = spec.label;
        owner = spec.owner;
        status = running;
        output = new_tail_store spec.store_cap;
        failure = none;
        reported = false;
        final_output = spec.final_output;
        armed = false;
        cancelled = false;
        stage = working;
      }
        ∷ [];
  per_owner =
      if spec.owner == ""
      then r.per_owner
      else insert spec.owner (owned spec.owner r + 1) r.per_owner;
  changes = spec.owner ∷ r.changes;
}

pub start : (String → ℕ → String) → Spec → Registry → Result JobError Registry
unfolding add_job
start print_id spec r =
    if not spec.has_run
    then err nil_run
    else if at_limit spec r
    then err job_limit
    else if spec.id == ""
    then ok (add_job (print_id (kind_of spec) (r.seq + 1)) (r.seq + 1) spec r)
    else if has_key spec.id r.items
    then err job_exists
    else ok (add_job spec.id r.seq spec r)

-- A change of one entry.
abbrev pub at_entry : ℕ → (Entry → Entry) → Registry → Registry
at_entry address change r = elim (get_elem? r.entries address) [
  | none ↦ r
  | some e ↦ record r { entries = set_elem r.entries address (change e) }
]

pub arm : ℕ → Registry → Registry
arm address = at_entry address (λ e. record e { armed = true })

-- What `Run` returned: its final output, or the text of its error.
pub data Returned : Type 0 where
  done : List ℕ → Returned
  broke : String → Returned

abbrev finish : Returned → Entry → Entry
finish (broke text) e =
    if e.cancelled
    then record e { status = killed }
    else record e { status = failed; failure = some text }
finish (done final) e =
    if e.final_output
    then record e { output = write final (record e.output { buf = [] }); status = completed }
    else record e { status = completed }

abbrev pub is_working : Stage → Bool
is_working working = true
is_working _ = false

abbrev pub is_returned : Stage → Bool
is_returned returned = true
is_returned _ = false

-- Where the goroutine is when `settle` has returned.
abbrev pub past_settle : Stage → Stage
past_settle working = working
past_settle returned = settled
past_settle settled = settled
past_settle gone = gone

abbrev pub is_settled : Stage → Bool
is_settled settled = true
is_settled _ = false

-- `Run` writes to the output, and returns, once the goroutine is started.
pub run_writes : ℕ → List ℕ → Registry → Registry
run_writes address bytes =
    at_entry address
      (λ e. if e.armed && is_working e.stage then record e { output = write bytes e.output } else e)

pub run_returns : ℕ → Returned → Registry → Registry
run_returns address outcome = at_entry address (λ e.
    if e.armed && is_working e.stage then record (finish outcome e) { stage = returned } else e)

-- `settle`. Only the reported bit makes it do its work once, whoever calls it.
pub settle : ℕ → Registry → Registry
settle address r = elim (get_elem? r.entries address) [
  | none ↦ r
  | some e ↦ if e.reported then r else record r {
    entries = set_elem r.entries address (record e { reported = true });
    settlements = (address, e.status) ∷ r.settlements;
    changes = e.owner ∷ r.changes;
  }
]

-- `perOwner[owner]--`, if it is above 0.
abbrev pub drop_one : String → List (String × ℕ) → List (String × ℕ)
drop_one owner per_owner =
    let n = count_or_zero (lookup owner per_owner) in
    if owner == "" then per_owner else if ltb 0 n then insert owner (n - 1) per_owner else per_owner

pub release : ℕ → Registry → Registry
release address r = elim (get_elem? r.entries address) [
  | none ↦ r
  | some e ↦
      if is_settled e.stage
      then record r {
        entries = set_elem r.entries address (record e { stage = gone });
        per_owner = drop_one e.owner r.per_owner;
      }
      else r
]
