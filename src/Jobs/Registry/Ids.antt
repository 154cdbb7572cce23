-- ===== src/Jobs/Registry/Ids.antt =====
-- The ids that `Start` of core/jobs/jobs.go makes up.
use gocel.Prelude.{
  ℕ, ◌+◌, ◌≡◌, refl, true, false, String, some, lookup, lookup-insert_self, get_elem?,
  get_elem-append, length, ok, ◌==◌, string_eq,
}
use gocel.Jobs.Registry.{Registry, Entry, Spec, kind_of, at_limit, add_job, start}

-- A job without an id, with a function to run and below the limit, whose generated id is that of
-- another job, is started, and takes the place of the other one in the items; the entry of the
-- other job stays as it is.
pub start-overwrites :
    (print_id : String → ℕ → String) (spec : Spec) (r : Registry) (address : ℕ) (e : Entry)
    → spec.has_run ≡ true
    → at_limit spec r ≡ false
    → spec.id ≡ ""
    → lookup (print_id (kind_of spec) (r.seq + 1)) r.items ≡ some address
    → get_elem? r.entries address ≡ some e
    → (after : Registry) × (start print_id spec r ≡ ok after)
      × (lookup (print_id (kind_of spec) (r.seq + 1)) after.items ≡ some (length r.entries))
      × (get_elem? after.entries address ≡ some e)
unfolding start add_job
start-overwrites print_id spec r address e given room unnamed old there =
    let id = print_id (kind_of spec) (r.seq + 1) in
    let blank : (spec.id == "") ≡ true = (string_eq.beq_iff spec.id "").1 unnamed in
    (
      add_job id (r.seq + 1) spec r,
      rw (start, given, room, blank) refl,
      lookup-insert_self id (length r.entries) r.items,
      get_elem-append r.entries _ address e there,
    )
