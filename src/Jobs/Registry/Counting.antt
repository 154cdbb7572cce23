-- ===== src/Jobs/Registry/Counting.antt =====
-- How many jobs of an owner a registry of core/jobs/jobs.go lets run.
use gocel.Prelude.{
  ℕ, ◌+◌, ◌≤◌, ◌≡◌, refl, ap, sym, ◌∙◌, Bool, true, false, not, ◌&&◌, List, [], ◌∷◌, String, lookup,
  remove, lookup-remove, has_key, string_eq, ◌==◌, if◌then◌else◌, get_elem?, arith, Bool-cases,
  Option-cases, inl, inr,
}
use gocel.Prelude.Int.{ℤ}
use gocel.Jobs.Registry.{
  Registry, Entry, settled, gone, Spec, Returned, done, broke, new_registry, set_max_per_owner,
  owned, count_or_zero, at_limit, add_job, start, at_entry, arm, run_writes, run_returns,
  is_working, past_settle, is_settled, Stage, working, returned, settle, release,
}
use gocel.Jobs.Registry.Control.{
  is_running, or_same, kill, settle_step, teardown, Op, starts, arms, settles, releases, writes,
  returns, kills, tears_down, step, run,
}
use gocel.Jobs.Registry.Live.{
  weight, is_gone, live, live-append, live-set_elem, live-teardown_items, owned-drop_one,
  owned-add_job, room_left,
}

module _ (owner : String) where
  -- The count of the owner is that of its jobs, and within the maximum.
  record Counted (limit : ℕ) (r : Registry) : Type 0 where
    counted : owned owner r ≡ live owner r.entries
    capped : owned owner r ≤ limit
    fixed : r.max_per_owner ≡ limit

  -- A change of one entry that keeps its owner, and whether its goroutine is done.
  at_entry-Counted :
      (limit address : ℕ) (change : Entry → Entry) (r : Registry)
      → ((e : Entry) → weight owner (change e) ≡ weight owner e)
      → Counted limit r
      → Counted limit (at_entry address change r)
  at_entry-Counted limit address change r same v =
      elim (Option-cases (get_elem? r.entries address)) [
        | inl absent ↦ rw (at_entry, absent) v
        | inr (e, found) ↦
            rw (at_entry, found)
              (record {
                counted = omega (
                  arith,
                  v.counted,
                  live-set_elem owner r.entries address e (change e) found,
                  same e,
                );
                capped = v.capped;
                fixed = v.fixed;
              })
      ]

  arm-Counted : (limit address : ℕ) (r : Registry) → Counted limit r → Counted limit (arm address r)
  unfolding arm
  arm-Counted limit address r = at_entry-Counted limit address _ r (λ e. refl)

  run_writes-Counted :
      (limit address : ℕ) (bytes : List ℕ) (r : Registry)
      → Counted limit r
      → Counted limit (run_writes address bytes r)
  unfolding run_writes
  run_writes-Counted limit address bytes r = at_entry-Counted limit address _ r (λ e. ground arith)

  run_returns-Counted :
      (limit address : ℕ) (outcome : Returned) (r : Registry)
      → Counted limit r
      → Counted limit (run_returns address outcome r)
  unfolding run_returns
  run_returns-Counted limit address (done final) r =
      at_entry-Counted limit address _ r (λ e. ground arith)
  run_returns-Counted limit address (broke text) r =
      at_entry-Counted limit address _ r (λ e. ground arith)

  settle-Counted :
      (limit address : ℕ) (r : Registry) → Counted limit r → Counted limit (settle address r)
  unfolding settle
  settle-Counted limit address r v = elim (Option-cases (get_elem? r.entries address)) [
    | inl absent ↦ rw (settle, absent) v
    | inr (e, found) ↦ elim (Bool-cases e.reported) [
      | inl again ↦ rw (settle, found, again) v
      | inr new ↦
          rw (settle, found, new)
            (record {
              counted = omega (
                arith,
                v.counted,
                live-set_elem owner r.entries address e (record e { reported = true }) found,
              );
              capped = v.capped;
              fixed = v.fixed;
            })
    ]
  ]

  past_settle-gone : (s : Stage) → is_gone (past_settle s) ≡ is_gone s
  past_settle-gone working = refl
  past_settle-gone returned = refl
  past_settle-gone settled = refl
  past_settle-gone gone = refl

  settle_step-Counted :
      (limit address : ℕ) (r : Registry) → Counted limit r → Counted limit (settle_step address r)
  unfolding settle_step
  settle_step-Counted limit address r v = elim (Option-cases (get_elem? r.entries address)) [
    | inl absent ↦ rw (settle_step, absent) v
    | inr (e, found) ↦ elim (Bool-cases (is_working e.stage)) [
      | inl early ↦ rw (settle_step, found, early) v
      | inr ready ↦
          rw (settle_step, found, ready)
            (at_entry-Counted limit address _ (settle address r)
              (λ e'. rw (past_settle-gone e'.stage) refl) (settle-Counted limit address r v))
    ]
  ]

  module _ (named : (owner == "") ≡ false) where
    release-Counted :
        (limit address : ℕ) (r : Registry) → Counted limit r → Counted limit (release address r)
    unfolding release
    release-Counted limit address r v = elim (Option-cases (get_elem? r.entries address)) [
      | inl absent ↦ rw (release, absent) v
      | inr (e, found) ↦
          let after = record e { stage = gone } in
          elim (Bool-cases (is_settled e.stage)) [
            | inr early ↦ rw (release, found, early) v
            | inl ready ↦
                rw (release, found, ready)
                  (record {
                    counted = ground (
                      arith,
                      v.counted,
                      ready,
                      owned-drop_one owner named e.owner r.per_owner,
                      live-set_elem owner r.entries address e after found,
                    );
                    capped =
                        ground (arith, v.capped, owned-drop_one owner named e.owner r.per_owner);
                    fixed = v.fixed;
                  })
          ]
    ]

    add_job-Counted :
        (limit : ℕ) (id : String) (seq : ℕ) (spec : Spec) (r : Registry)
        → at_limit spec r ≡ false
        → Counted limit r
        → Counted limit (add_job id seq spec r)
    unfolding add_job
    add_job-Counted limit id seq spec r room v =
        let added : live owner (add_job id seq spec r).entries
            ≡ live owner r.entries + (if spec.owner == owner then 1 else 0) =
          live-append owner r.entries _ in
        let more = owned-add_job owner named id seq spec r in
        record {
          counted = omega (arith, v.counted, more, added);
          capped = elim (Bool-cases (spec.owner == owner)) [
            | inl ours ↦
                omega
                  (arith, more, v.fixed, room_left owner named spec r ours room, rw ours at more)
            | inr other ↦ ground (arith, more, v.capped, other)
          ];
          fixed = v.fixed;
        }

    start-Counted :
        (print_id : String → ℕ → String) (limit : ℕ) (spec : Spec) (r : Registry)
        → Counted limit r
        → Counted limit (or_same r (start print_id spec r))
    unfolding start
    start-Counted print_id limit spec r v = elim (Bool-cases spec.has_run) [
      | inr idle ↦ rw (start, idle) v
      | inl given ↦ elim (Bool-cases (at_limit spec r)) [
        | inl full ↦ rw (start, given, full) v
        | inr room ↦ elim (Bool-cases (spec.id == "")) [
          | inl fresh ↦
              rw (start, given, room, fresh) (add_job-Counted limit _ (r.seq + 1) spec r room v)
          | inr chosen ↦ elim (Bool-cases (has_key spec.id r.items)) [
            | inl taken ↦ rw (start, given, room, chosen, taken) v
            | inr new ↦
                rw (start, given, room, chosen, new)
                  (add_job-Counted limit spec.id r.seq spec r room v)
          ]
        ]
      ]
    ]

  kill-Counted :
      (limit : ℕ) (id : String) (r : Registry)
      → Counted limit r
      → Counted limit (or_same r (kill id r))
  unfolding kill
  kill-Counted limit id r v = elim (Option-cases (lookup id r.items)) [
    | inl unknown ↦ rw (kill, unknown) v
    | inr (address, listed) ↦ elim (Option-cases (get_elem? r.entries address)) [
      | inl absent ↦ rw (kill, listed, absent) v
      | inr (e, found) ↦ elim (Bool-cases (is_running e.status)) [
        | inr ended ↦ rw (kill, listed, found, ended) v
        | inl runs ↦
            rw (kill, listed, found, runs)
              (record {
                counted = omega (arith, v.counted, live-set_elem owner r.entries address e _ found);
                capped = v.capped;
                fixed = v.fixed;
              })
      ]
    ]
  ]

  module _ (named : (owner == "") ≡ false) where
    teardown-Counted :
        (limit : ℕ) (o : String) (r : Registry)
        → (o == owner) ≡ false
        → Counted limit r
        → Counted limit (teardown o r)
    unfolding teardown
    teardown-Counted limit o r other v = elim (Bool-cases (o == "")) [
      | inl blank ↦ rw (teardown, blank) v
      | inr told ↦
          let same : count_or_zero (lookup owner (remove o r.per_owner)) ≡ owned owner r =
            ap count_or_zero (lookup-remove o owner r.per_owner) ∙ rw other refl in
          rw (teardown, told)
            (record {
              counted = same ∙ v.counted ∙ sym (live-teardown_items owner o r.items r.entries);
              capped = omega (arith, same, v.capped);
              fixed = v.fixed;
            })
    ]

    first-Counted :
        (n : ℤ) → let first = set_max_per_owner n new_registry in Counted first.max_per_owner first
    unfolding set_max_per_owner new_registry lookup
    first-Counted n = record { counted = refl; capped = omega arith; fixed = refl }

    -- The owner is never torn down.
    abbrev pub spared : List Op → Bool
    spared [] = true
    spared (tears_down o ∷ ops) = not (o == owner) && spared ops
    spared (_ ∷ ops) = spared ops

    run-Counted :
        (print_id : String → ℕ → String) (limit : ℕ) (ops : List Op) (r : Registry)
        → spared ops ≡ true
        → Counted limit r
        → Counted limit (run print_id ops r)
    unfolding run step
    run-Counted print_id limit [] r h v = v
    run-Counted print_id limit (starts spec ∷ ops) r h v =
        run-Counted print_id limit ops _ h (start-Counted named print_id limit spec r v)
    run-Counted print_id limit (arms address ∷ ops) r h v =
        run-Counted print_id limit ops _ h (arm-Counted limit address r v)
    run-Counted print_id limit (settles address ∷ ops) r h v =
        run-Counted print_id limit ops _ h (settle_step-Counted limit address r v)
    run-Counted print_id limit (releases address ∷ ops) r h v =
        run-Counted print_id limit ops _ h (release-Counted named limit address r v)
    run-Counted print_id limit (writes address bytes ∷ ops) r h v =
        run-Counted print_id limit ops _ h (run_writes-Counted limit address bytes r v)
    run-Counted print_id limit (returns address outcome ∷ ops) r h v =
        run-Counted print_id limit ops _ h (run_returns-Counted limit address outcome r v)
    run-Counted print_id limit (kills id ∷ ops) r h v =
        run-Counted print_id limit ops _ h (kill-Counted limit id r v)
    run-Counted print_id limit (tears_down o ∷ ops) r h v =
        run-Counted print_id limit ops _ (ground (arith, h))
          (teardown-Counted limit o r (ground (arith, h)) v)

    -- In a registry that is given its maximum at the beginning and in which an owner with a name
    -- is never torn down, the count of the owner is the number of its jobs whose goroutine is not
    -- done, and this is never more than the maximum.
    pub live_capped :
        (print_id : String → ℕ → String) (n : ℤ) (ops : List Op)
        → spared ops ≡ true
        → let first = set_max_per_owner n new_registry in
          let last = run print_id ops first in
          (owned owner last ≡ live owner last.entries)
          × (live owner last.entries ≤ first.max_per_owner)
    live_capped print_id n ops h =
        let v = run-Counted print_id _ ops _ h (first-Counted n) in
        (v.counted, omega (arith, v.counted, v.capped))
