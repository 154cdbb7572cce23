-- ===== src/Session/Restoring.antt =====
-- core/session/log.go, `Restore`, and that every call keeps the invariant of a log.
use gocel.Prelude.{
  Option, Result-cases, subst, String, Option-cases, ◌||◌, ◌||◌, nat_beq, not, Bool-cases, ◌⊎◌, ◌≡◌,
  refl, ap, sym, ◌∙◌, true, false, List, [], ◌∷◌, none, some, length, inl, inr, ok, err, arith,
}
use gocel.Prelude.Int.{int_eq}
use gocel.Session.{
  Call, append_call, restore_call, subscribe_call, cancel_call, close_call, step, run, Log, Event,
  Node, LogError, new_log, append, restore, check_seqs, rebuild, subscribe, cancel, close,
}
use gocel.Session.Invariant.{append-cases, Inv, committed-Inv, new_log-Inv}

module _ {ℓ} {M D : Type ℓ} where
  -- An event list that can be restored, with the surface that it makes.
  pub record Restorable (events : List (Event M D)) (s : List (Node M)) : Type ℓ where
    pub numbered : check_seqs 0 events ≡ none
    pub projected : rebuild [] events ≡ ok s

  pub restore-Restorable :
      (events : List (Event M D)) (s : List (Node M)) (l : Log M D)
      → Restorable events s
      → l.closed ≡ false
      → l.events ≡ []
      → l.seq ≡ 0
      → restore events l ≡ (record l { seq = length events; events = events; surface = s }, none)
  unfolding restore
  restore-Restorable events s l v unsealed bare start =
      simp (unsealed, bare, start, v.numbered, v.projected)

  length-eq-zero : (events : List (Event M D)) → length events ≡ 0 → events ≡ []
  length-eq-zero [] h = refl
  length-eq-zero (e ∷ events) h = absurd (omega arith)

  -- `Restore` fails without a change, or has restored all events into an empty log.
  pub restore-cases :
      (events : List (Event M D)) (l : Log M D)
      → ((restore events l).0 ≡ l)
        ⊎ ((s : List (Node M)) × Restorable events s
            × (l.events ≡ [])
            × (restore events l
                ≡ (record l { seq = length events; events = events; surface = s }, none)))
  unfolding restore
  restore-cases events l = elim (Bool-cases l.closed) [
    | inl sealed ↦ inl (simp sealed)
    | inr unsealed ↦
        elim (Bool-cases (not (nat_beq (length l.events) 0) || not (nat_beq l.seq 0))) [
          | inl used ↦ inl (simp (unsealed, used))
          | inr bare ↦ elim (Option-cases (check_seqs 0 events)) [
            | inr (fault, e) ↦ inl (simp (unsealed, bare, e))
            | inl e ↦ elim (Result-cases (rebuild [] events)) [
              | inr (fault, f) ↦ inl (simp (unsealed, bare, e, f))
              | inl (s, f) ↦
                  let none_yet : l.events ≡ [] = length-eq-zero l.events (ground arith) in
                  let fit : Restorable events s = record { numbered = e; projected = f } in
                  inr (
                    s,
                    fit,
                    none_yet,
                    restore-Restorable events s l fit unsealed none_yet (ground arith),
                  )
            ]
          ]
        ]
  ]

  restore-Inv : (events : List (Event M D)) (l : Log M D) → Inv l → Inv (restore events l).0
  restore-Inv events l v = elim (restore-cases events l) [
    | inl same ↦ subst Inv (sym same) v
    | inr (s, fit, bare, done) ↦
        subst (λ r. Inv r.0) (sym done)
          (record { counted = refl; numbered = fit.numbered; projected = fit.projected })
  ]

  append-Inv : (e : Event M D) (l : Log M D) → Inv l → Inv (append e l).0
  append-Inv e l v = elim (append-cases e l) [
    | inl (f, same) ↦ subst (λ r. Inv r.0) (sym same) v
    | inr (s, unsealed, free, fits, done) ↦
        subst (λ r. Inv r.0) (sym done) (committed-Inv e l s v fits)
  ]

  step-Inv : (c : Call M D) (l : Log M D) → Inv l → Inv (step c l)
  unfolding step subscribe cancel close
  step-Inv (append_call e) l v = append-Inv e l v
  step-Inv (restore_call events) l v = restore-Inv events l v
  step-Inv subscribe_call l v = record {
    counted = v.counted;
    numbered = v.numbered;
    projected = v.projected;
  }
  step-Inv (cancel_call id true) l v = v
  step-Inv (cancel_call id false) l v = record {
    counted = v.counted;
    numbered = v.numbered;
    projected = v.projected;
  }
  step-Inv close_call l v = record {
    counted = v.counted;
    numbered = v.numbered;
    projected = v.projected;
  }

  pub run-Inv : (calls : List (Call M D)) (l : Log M D) → Inv l → Inv (run calls l)
  unfolding run
  run-Inv [] l v = v
  run-Inv (c ∷ calls) l v = run-Inv calls (step c l) (step-Inv c l v)

  -- The events of a log after any calls restore a new log, which then has the same number, events
  -- and surface.
  pub restores_run :
      (old new : String) (calls : List (Call M D))
      → let l = run calls (new_log old) in
        restore l.events (new_log new)
        ≡ (record (new_log new) { seq = l.seq; events = l.events; surface = l.surface }, none)
  unfolding new_log
  restores_run old new calls =
      let v : Inv (run calls (new_log old)) = run-Inv calls (new_log old) (new_log-Inv old) in
      restore-Restorable _ _ (new_log new)
        (record { numbered = v.numbered; projected = v.projected }) refl refl refl
      ∙ ap
          (λ n. (
            record (new_log new) {
              seq = n;
              events = (run calls (new_log old)).events;
              surface = (run calls (new_log old)).surface;
            },
            none,
          ))
          (sym v.counted)

  -- The error that a call answers.
  unfoldable pub fault_of : Call M D → Log M D → Option LogError
  fault_of (append_call e) l = elim (append e l).1 [ err fault ↦ some fault | ok committed ↦ none ]
  fault_of (restore_call events) l = (restore events l).1
  fault_of subscribe_call l = none
  fault_of (cancel_call id done) l = none
  fault_of close_call l = none

  -- A call of Append or Restore that answers an error leaves the log as it was, a refused
  -- replacement included.
  pub refused_unchanged :
      (c : Call M D) (l : Log M D) (f : LogError) → fault_of c l ≡ some f → step c l ≡ l
  unfolding fault_of step
  refused_unchanged (append_call e) l f h = elim (append-cases e l) [
    | inl (g, same) ↦ ap (λ r. r.0) same
    | inr (s, unsealed, free, fits, done) ↦
        let bad : none ≡ some f = rw (done, fault_of) at h in absurd (cc bad)
  ]
  refused_unchanged (restore_call events) l f h = elim (restore-cases events l) [
    | inl same ↦ same
    | inr (s, fit, bare, done) ↦
        let bad : none ≡ some f = rw (done, fault_of) at h in absurd (cc bad)
  ]
  refused_unchanged subscribe_call l f h = absurd (cc h)
  refused_unchanged (cancel_call id done) l f h = absurd (cc h)
  refused_unchanged close_call l f h = absurd (cc h)
