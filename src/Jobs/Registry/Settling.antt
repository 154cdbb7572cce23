-- ===== src/Jobs/Registry/Settling.antt =====
-- What a registry of core/jobs/jobs.go tells its listeners of the end of a job.
use gocel.Prelude.{
  ℕ, ◌+◌, ◌≡◌, refl, sym, ◌∙◌, subst, ◌||◌, ◌&&◌, List, [], ◌∷◌, String, some, lookup, has_key,
  string_eq, ◌==◌, if◌then◌else◌, get_elem?, set_elem, arith, Bool-cases, Option-cases, inl, inr,
}
use gocel.Prelude.Int.{ℤ}
use gocel.Jobs.Registry.{
  Registry, Entry, Status, killed, Spec, Returned, done, broke, new_registry, set_max_per_owner,
  at_limit, add_job, start, at_entry, arm, run_writes, run_returns, is_working, past_settle,
  is_settled, settle, release,
}
use gocel.Jobs.Registry.Control.{
  is_running, is_final, or_same, kill, settle_step, teardown_items, teardown, Op, starts, arms,
  settles, releases, writes, returns, kills, tears_down, step, run,
}
use gocel.Jobs.Registry.Live.{snd_if}
use gocel.Jobs.Registry.Told.{
  told, is_late, Reported, Fits-at, set_elem-Reported, settle-Reported, append-Reported,
  past_settle-is_late, settle_step-first, settle_step-again,
}

record Told (r : Registry) : Type 0 where
  fits : Reported r.settlements r.entries

at_entry-Told :
    (address : ℕ) (change : Entry → Entry) (r : Registry)
    → ((e : Entry)
        → ((change e).reported ≡ e.reported) × (is_late (change e).stage ≡ is_late e.stage))
    → Told r
    → Told (at_entry address change r)
at_entry-Told address change r same v = elim (Option-cases (get_elem? r.entries address)) [
  | inl absent ↦ rw (at_entry, absent) v
  | inr (e, found) ↦
      rw (at_entry, found)
        (record {
          fits =
              set_elem-Reported r.settlements r.entries address e (change e) found (same e).0
                (same e).1 v.fits;
        })
]

arm-Told : (address : ℕ) (r : Registry) → Told r → Told (arm address r)
unfolding arm
arm-Told address r = at_entry-Told address _ r (λ e. (refl, refl))

run_writes-Told :
    (address : ℕ) (bytes : List ℕ) (r : Registry) → Told r → Told (run_writes address bytes r)
unfolding run_writes
run_writes-Told address bytes r = at_entry-Told address _ r (λ e. (ground arith, ground arith))

run_returns-Told :
    (address : ℕ) (outcome : Returned) (r : Registry)
    → Told r
    → Told (run_returns address outcome r)
unfolding run_returns
run_returns-Told address (done final) r =
    at_entry-Told address _ r (λ e. (ground arith, ground arith))
run_returns-Told address (broke text) r =
    at_entry-Told address _ r (λ e. (ground arith, ground arith))

release-Told : (address : ℕ) (r : Registry) → Told r → Told (release address r)
unfolding release
release-Told address r v = elim (Option-cases (get_elem? r.entries address)) [
  | inl absent ↦ rw (release, absent) v
  | inr (e, found) ↦ elim (Bool-cases (is_settled e.stage)) [
    | inr early ↦ rw (release, found, early) v
    | inl ready ↦
        rw (release, found, ready)
          (record {
            fits =
                set_elem-Reported r.settlements r.entries address e _ found refl
                  (ground (arith, ready)) v.fits;
          })
  ]
]

settle_step-Told : (address : ℕ) (r : Registry) → Told r → Told (settle_step address r)
unfolding settle_step settle
settle_step-Told address r v = elim (Option-cases (get_elem? r.entries address)) [
  | inl absent ↦ rw (settle_step, absent) v
  | inr (e, found) ↦
      let was = Fits-at (told address r.settlements) (some e) _ (sym found) (v.fits address) in
      elim (Bool-cases (is_working e.stage)) [
        | inl early ↦ rw (settle_step, found, early) v
        | inr ready ↦
            let late = past_settle-is_late e.stage ready in
            elim (Bool-cases e.reported) [
              | inl again ↦
                  let same : is_late (past_settle e.stage) ≡ is_late e.stage =
                    late ∙ sym again ∙ was.1 in
                  subst Told (sym (settle_step-again address e r found ready again)) (record {
                    fits =
                        set_elem-Reported r.settlements r.entries address e
                          (record e { stage = past_settle e.stage }) found refl same v.fits;
                  })
              | inr new ↦ subst Told (sym (settle_step-first address e r found ready new)) (record {
                fits = settle-Reported r.settlements r.entries address e _ late found new v.fits;
              })
            ]
      ]
]

add_job-Told :
    (id : String) (seq : ℕ) (spec : Spec) (r : Registry) → Told r → Told (add_job id seq spec r)
unfolding add_job
add_job-Told id seq spec r v = record {
  fits = append-Reported r.settlements r.entries _ refl refl v.fits;
}

start-Told :
    (print_id : String → ℕ → String) (spec : Spec) (r : Registry)
    → Told r
    → Told (or_same r (start print_id spec r))
unfolding start
start-Told print_id spec r v = elim (Bool-cases spec.has_run) [
  | inr idle ↦ rw (start, idle) v
  | inl given ↦ elim (Bool-cases (at_limit spec r)) [
    | inl full ↦ rw (start, given, full) v
    | inr room ↦ elim (Bool-cases (spec.id == "")) [
      | inl fresh ↦ rw (start, given, room, fresh) (add_job-Told _ (r.seq + 1) spec r v)
      | inr chosen ↦ elim (Bool-cases (has_key spec.id r.items)) [
        | inl taken ↦ rw (start, given, room, chosen, taken) v
        | inr new ↦ rw (start, given, room, chosen, new) (add_job-Told spec.id r.seq spec r v)
      ]
    ]
  ]
]

kill-Told : (id : String) (r : Registry) → Told r → Told (or_same r (kill id r))
unfolding kill
kill-Told id r v = elim (Option-cases (lookup id r.items)) [
  | inl unknown ↦ rw (kill, unknown) v
  | inr (address, listed) ↦ elim (Option-cases (get_elem? r.entries address)) [
    | inl absent ↦ rw (kill, listed, absent) v
    | inr (e, found) ↦ elim (Bool-cases (is_running e.status)) [
      | inr ended ↦ rw (kill, listed, found, ended) v
      | inl runs ↦
          rw (kill, listed, found, runs)
            (record {
              fits = set_elem-Reported r.settlements r.entries address e _ found refl refl v.fits;
            })
    ]
  ]
]

teardown_items-Reported :
    (log : List (ℕ × Status)) (o : String) (items : List (String × ℕ)) (entries : List Entry)
    → Reported log entries
    → Reported log (teardown_items o items entries).1
unfolding teardown_items
teardown_items-Reported log o [] entries v = v
teardown_items-Reported log o ((id, address) ∷ items) entries v =
    elim (Option-cases (get_elem? entries address)) [
      | inl absent ↦ rw (teardown_items, absent) (teardown_items-Reported log o items entries v)
      | inr (e, found) ↦
          let cut = record e { status = killed; cancelled = e.cancelled || e.armed } in
          let now = if e.owner == o && is_running e.status then cut else e in
          let same : now.reported ≡ e.reported = ground arith in
          let late : is_late now.stage ≡ is_late e.stage = ground arith in
          rw (teardown_items, found)
            (subst (Reported log)
              (sym (snd_if (e.owner == o && is_final now.status) _ _ _ refl refl))
              (teardown_items-Reported log o items (set_elem entries address now)
                (set_elem-Reported log entries address e now found same late v)))
    ]

teardown-Told : (o : String) (r : Registry) → Told r → Told (teardown o r)
unfolding teardown
teardown-Told o r v = elim (Bool-cases (o == "")) [
  | inl blank ↦ rw (teardown, blank) v
  | inr named ↦
      rw (teardown, named)
        (record { fits = teardown_items-Reported r.settlements o r.items r.entries v.fits })
]

step-Told :
    (print_id : String → ℕ → String) (op : Op) (r : Registry) → Told r → Told (step print_id op r)
unfolding step
step-Told print_id (starts spec) r = start-Told print_id spec r
step-Told print_id (arms address) r = arm-Told address r
step-Told print_id (settles address) r = settle_step-Told address r
step-Told print_id (releases address) r = release-Told address r
step-Told print_id (writes address bytes) r = run_writes-Told address bytes r
step-Told print_id (returns address outcome) r = run_returns-Told address outcome r
step-Told print_id (kills id) r = kill-Told id r
step-Told print_id (tears_down owner) r = teardown-Told owner r

run-Told :
    (print_id : String → ℕ → String) (ops : List Op) (r : Registry)
    → Told r
    → Told (run print_id ops r)
unfolding run
run-Told print_id [] r v = v
run-Told print_id (op ∷ ops) r v = run-Told print_id ops _ (step-Told print_id op r v)

first-Told : (n : ℤ) → Told (set_max_per_owner n new_registry)
unfolding set_max_per_owner new_registry
first-Told n = record { fits = λ address. refl }

-- Whatever happens to a new registry, teardowns and repeated calls of settle included, the
-- listeners are told of the end of a job once if settle was called for it after its Run returned,
-- and not at all otherwise.
pub settled_once :
    (print_id : String → ℕ → String) (n : ℤ) (ops : List Op) (address : ℕ) (e : Entry)
    → let last = run print_id ops (set_max_per_owner n new_registry) in
      get_elem? last.entries address ≡ some e
      → told address last.settlements ≡ (if is_late e.stage then 1 else 0)
settled_once print_id n ops address e found =
    let v = run-Told print_id ops _ (first-Told n) in
    let here = Fits-at _ (some e) _ (sym found) (v.fits address) in here.0 ∙ rw here.1 refl
