-- ===== src/Jobs/Registry/Tests.antt =====
-- Two jobs of one owner; one of them is killed.
use gocel.Prelude.{
  ℕ, ◌+◌, ◌≤◌, ◌≡◌, refl, true, false, String, Option, none, some, List, [], ◌∷◌, if◌then◌else◌,
  get_elem?, lookup, insert, err, string_eq,
}
use gocel.Prelude.Int.{pos}
use gocel.Jobs.{new_tail_store, write}
use gocel.Jobs.Registry.{
  Registry, Entry, Spec, completed, killed, gone, job_limit, done, broke, new_registry,
  set_max_per_owner, owned, start, add_job, kind_of, at_limit, settle, release, arm, run_returns,
}
use gocel.Jobs.Registry.Control.{
  Op, starts, arms, settles, releases, returns, kills, step, run, kill,
}
use gocel.Jobs.Registry.Live.{live}
use gocel.Jobs.Registry.Counting.{live_capped}
use gocel.Jobs.Registry.Told.{told, is_late}
use gocel.Jobs.Registry.Settling.{settled_once}

abbrev shell : Spec
shell = record {
  id = "";
  kind = "shell";
  label = "build";
  owner = "ann";
  store_cap = pos 4;
  final_output = true;
  has_run = true;
}

abbrev print : String → ℕ → String
print kind n = "shell-1"

abbrev history : List Op
history =
    starts shell
    ∷ arms 0
    ∷ kills "shell-1"
    ∷ returns 0 (broke "killed")
    ∷ settles 0
    ∷ settles 0
    ∷ releases 0
    ∷ settles 0
    ∷ starts (record shell { id = "b" })
    ∷ arms 1
    ∷ returns 1 (done (7 ∷ 8 ∷ []))
    ∷ settles 1
    ∷ []

abbrev one_each : Registry
one_each = set_max_per_owner (pos 1) new_registry

abbrev ended : Registry
ended = run print history one_each

abbrev entry_or : Entry → Option Entry → Entry
entry_or e none = e
entry_or e (some x) = x

abbrev nobody : Entry
nobody = record {
  id = "";
  kind = "";
  label = "";
  owner = "";
  status = completed;
  output = new_tail_store (pos 1);
  failure = none;
  reported = false;
  final_output = false;
  armed = false;
  cancelled = false;
  stage = gone;
}

abbrev first_entry : Entry
first_entry = entry_or nobody (get_elem? ended.entries 0)

first_there : get_elem? ended.entries 0 ≡ some first_entry
unfolding run step start add_job arm kill run_returns settle release set_max_per_owner new_registry
    insert lookup new_tail_store write
first_there = refl

was_killed : first_entry.status ≡ killed
unfolding run step start add_job arm kill run_returns settle release set_max_per_owner new_registry
    insert lookup new_tail_store write
was_killed = refl

settled_once_example : told 0 ended.settlements ≡ (if is_late first_entry.stage then 1 else 0)
settled_once_example = settled_once print (pos 1) history 0 first_entry first_there

live_capped_example :
    (owned "ann" ended ≡ live "ann" ended.entries)
    × (live "ann" ended.entries ≤ one_each.max_per_owner)
live_capped_example = live_capped "ann" refl print (pos 1) history refl

second_refused : start print shell (run print (starts shell ∷ []) one_each) ≡ err job_limit
unfolding run step start add_job arm kill run_returns settle release set_max_per_owner new_registry
    insert lookup new_tail_store write
second_refused = refl

abbrev taken : Registry
taken = run print (starts (record shell { id = "shell-1" }) ∷ []) new_registry

abbrev taken_entry : Entry
taken_entry = entry_or nobody (get_elem? taken.entries 0)

taken_there : get_elem? taken.entries 0 ≡ some taken_entry
unfolding run step start add_job arm kill run_returns settle release set_max_per_owner new_registry
    insert lookup new_tail_store write
taken_there = refl

taken_room : at_limit shell taken ≡ false
unfolding run step start add_job arm kill run_returns settle release set_max_per_owner new_registry
    insert lookup new_tail_store write
taken_room = refl

taken_listed : lookup (print (kind_of shell) (taken.seq + 1)) taken.items ≡ some 0
unfolding run step start add_job arm kill run_returns settle release set_max_per_owner new_registry
    insert lookup new_tail_store write
taken_listed = refl
