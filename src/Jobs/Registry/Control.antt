-- ===== src/Jobs/Registry/Control.antt =====
-- core/jobs/jobs.go: the calls on the jobs of a `Registry`, and what happens to it in any order. The
-- `cancel` that `Kill` and `Teardown` call after their critical section is taken with it.
use gocel.Prelude.{
  ℕ, Bool, true, false, not, ◌||◌, ◌&&◌, List, [], ◌∷◌, String, none, some, lookup, remove,
  string_eq, ◌==◌, if◌then◌else◌, Result, ok, err, get_elem?, set_elem,
}
use gocel.Prelude.Int.{ℤ}
use gocel.Jobs.{read}
use gocel.Jobs.Registry.{
  Registry, Entry, Status, running, stopping, completed, killed, failed, Spec, JobError,
  job_not_found, Returned, start, arm, run_writes, run_returns, settle, release, is_working,
  past_settle, at_entry,
}

abbrev pub is_running : Status → Bool
is_running running = true
is_running _ = false

abbrev pub is_final : Status → Bool
is_final killed = true
is_final completed = true
is_final failed = true
is_final _ = false

unfoldable pub kill : String → Registry → Result JobError Registry
kill id r = elim (lookup id r.items) [
  | none ↦ err job_not_found
  | some address ↦ elim (get_elem? r.entries address) [
    | none ↦ err job_not_found
    | some e ↦
        if is_running e.status
        then ok (record r {
          entries =
              set_elem r.entries address
                (record e { status = stopping; cancelled = e.cancelled || e.armed });
          changes = e.owner ∷ r.changes;
        })
        else ok r
  ]
]

pub status : String → Registry → Result JobError Status
status id r = elim (lookup id r.items) [
  | none ↦ err job_not_found
  | some address ↦ elim (get_elem? r.entries address) [
    | none ↦ err job_not_found
    | some e ↦ ok e.status
  ]
]

pub output : String → ℤ → Registry → Result JobError (List ℕ × ℕ)
output id since r = elim (lookup id r.items) [
  | none ↦ err job_not_found
  | some address ↦ elim (get_elem? r.entries address) [
    | none ↦ err job_not_found
    | some e ↦ ok (read since e.output)
  ]
]

listed : String → List (String × ℕ) → List Entry → List (String × Status)
listed owner [] entries = []
listed owner ((id, address) ∷ items) entries =
    let rest = listed owner items entries in
    elim (get_elem? entries address) [
      | none ↦ rest
      | some e ↦
          if not (owner == "") && not (e.owner == owner) then rest else (e.id, e.status) ∷ rest
    ]

pub list : String → Registry → List (String × Status)
unfolding listed
list owner r = listed owner r.items r.entries

-- The loop of `Teardown`: the entries of the owner that run are killed, those at their end dropped.
unfoldable pub teardown_items :
    String → List (String × ℕ) → List Entry → List (String × ℕ) × List Entry
teardown_items owner [] entries = ([], entries)
teardown_items owner ((id, address) ∷ items) entries = elim (get_elem? entries address) [
  | none ↦ teardown_items owner items entries
  | some e ↦
      let mine = e.owner == owner in
      let cut = record e { status = killed; cancelled = e.cancelled || e.armed } in
      let now = if mine && is_running e.status then cut else e in
      let (rest, after) = teardown_items owner items (set_elem entries address now) in
      if mine && is_final now.status then (rest, after) else ((id, address) ∷ rest, after)
]

unfoldable pub teardown : String → Registry → Registry
unfolding teardown_items
teardown owner r =
    let (kept, after) = teardown_items owner r.items r.entries in
    if owner == "" then r else record r {
      items = kept;
      entries = after;
      per_owner = remove owner r.per_owner;
      changes = owner ∷ r.changes;
    }

-- What happens to a registry, in any order: calls, and the steps of goroutines.
pub data Op : Type 0 where
  starts : Spec → Op
  arms settles releases : ℕ → Op
  writes : ℕ → List ℕ → Op
  returns : ℕ → Returned → Op
  kills tears_down : String → Op

abbrev pub or_same : Registry → Result JobError Registry → Registry
or_same r (ok r') = r'
or_same r (err e) = r

-- The goroutine has come past its call of `settle`.
abbrev pub pass : ℕ → Registry → Registry
pass address = at_entry address (λ e. record e { stage = past_settle e.stage })

-- A call of `settle` for an entry whose `Run` has returned; the goroutine makes one, and here it may
-- be made any number of times, at any time after that.
unfoldable pub settle_step : ℕ → Registry → Registry
settle_step address r = elim (get_elem? r.entries address) [
  | none ↦ r
  | some e ↦ if is_working e.stage then r else pass address (settle address r)
]

unfoldable pub step : (String → ℕ → String) → Op → Registry → Registry
unfolding kill teardown settle_step
step print_id (starts spec) r = or_same r (start print_id spec r)
step print_id (arms address) r = arm address r
step print_id (settles address) r = settle_step address r
step print_id (releases address) r = release address r
step print_id (writes address bytes) r = run_writes address bytes r
step print_id (returns address outcome) r = run_returns address outcome r
step print_id (kills id) r = or_same r (kill id r)
step print_id (tears_down owner) r = teardown owner r

unfoldable pub run : (String → ℕ → String) → List Op → Registry → Registry
unfolding step
run print_id [] r = r
run print_id (op ∷ ops) r = run print_id ops (step print_id op r)
