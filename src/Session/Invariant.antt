-- ===== src/Session/Invariant.antt =====
-- core/session/log.go: the calls that a log receives, and what they keep.
use gocel.Prelude.{
  map, Bool-cases, Bool-cases, true, false, ◌⊎◌, not, ok_inj, subst, String, ◌-◌, ℕ, ◌+◌, ◌≡◌, refl,
  ap, sym, ◌∙◌, List, [], ◌∷◌, ◌++◌, none, length, take, if◌then◌else◌, inl, inr, ok, err, Result,
  Result-cases, arith, length-append,
}
use gocel.Prelude.Int.{beq_ℤ, pos, int_eq}
use gocel.Session.{
  closed_log, seq_assigned, SurfaceOp, appends, replaces, log_only, other, rebuild_failed,
  apply_replace_scratch, Log, Event, Node, LogError, new_log, append, surfaced, apply_replace,
  notify, check_seqs, rebuild, replay_event, node_of,
}

module _ {ℓ} {M D : Type ℓ} where
  -- The events are numbered from 1, and the surface is what a replay of the events makes.
  pub record Inv (l : Log M D) : Type ℓ where
    pub counted : l.seq ≡ length l.events
    pub numbered : check_seqs 0 l.events ≡ none
    pub projected : rebuild [] l.events ≡ ok l.surface

  pub new_log-Inv : (id : String) → Inv (new_log id)
  unfolding new_log check_seqs rebuild
  new_log-Inv id = record { counted = refl; numbered = refl; projected = refl }

  check_seqs-append_one :
      (i : ℕ) (events : List (Event M D)) (e : Event M D)
      → check_seqs i events ≡ none
      → e.seq ≡ pos (i + length events + 1)
      → check_seqs i (events ++ e ∷ []) ≡ none
  unfolding check_seqs
  check_seqs-append_one i [] e h q = ground (arith)
  check_seqs-append_one i (x ∷ events) e h q =
      ground (arith, check_seqs-append_one (i + 1) events e)

  rebuild-append_one :
      (s : List (Node M)) (events : List (Event M D)) (e : Event M D) {s' s2 : List (Node M)}
      → rebuild s events ≡ ok s'
      → replay_event e.surface e s' ≡ ok s2
      → rebuild s (events ++ e ∷ []) ≡ ok s2
  unfolding rebuild
  rebuild-append_one s [] e {s'} {s2} h q =
      let moved : replay_event e.surface e s ≡ ok s2 =
        subst (λ x. replay_event e.surface e x ≡ ok s2) (sym (ok_inj h)) q in
      rw (moved, rebuild) refl
  rebuild-append_one s (x ∷ events) e {s'} h q = elim (Result-cases (replay_event x.surface x s)) [
    | inl (s1, e1) ↦ rw (e1, rebuild) (rebuild-append_one s1 events e (rw (e1, rebuild) at h) q)
    | inr (f, e1) ↦
        let bad : err (rebuild_failed f) ≡ ok s' = rw (e1, rebuild) at h in absurd (cc bad)
  ]

  -- A commit: the event is numbered and appended, and its replay makes the new surface.
  pub committed : Event M D → List (Node M) → Log M D → Log M D
  unfolding notify
  committed e s l =
      notify e (record l { seq = l.seq + 1; events = l.events ++ e ∷ []; surface = s })

  abbrev pub numbered_event : Event M D → Log M D → Event M D
  numbered_event e l = record e { seq = pos (l.seq + 1) }

  take-append_one :
      (events : List (Event M D)) (e : Event M D) → take (length events) (events ++ e ∷ []) ≡ events
  take-append_one [] e = refl
  take-append_one (x ∷ events) e = ap (◌∷◌ x) (take-append_one events e)

  dropped_last :
      (events : List (Event M D)) (e : Event M D)
      → take (length (events ++ e ∷ []) - 1) (events ++ e ∷ []) ≡ events
  dropped_last events e =
      let size : length (events ++ e ∷ []) - 1 ≡ length events =
        omega (arith, length-append events (e ∷ [])) in
      ap (λ n. take n (events ++ e ∷ [])) size ∙ take-append_one events e

  surfaced_lem :
      (op : SurfaceOp) (e : Event M D) (l : Log M D)
      → surfaced op e (record l { seq = l.seq + 1; events = l.events ++ e ∷ [] })
        ≡ elim (replay_event op e l.surface) as (λ _. Log M D × Result LogError (Event M D)) [
          | err fault ↦ (l, err fault)
          | ok s ↦ (committed e s l, ok e)
        ]
  unfolding surfaced replay_event committed notify
  surfaced_lem appends e l = refl
  surfaced_lem replaces e l =
      elim (Result-cases (apply_replace_scratch l.surface e.source_from e.source_to (node_of e))) [
        | inl (s, q) ↦ rw (q, surfaced, apply_replace) refl
        | inr (f, q) ↦
            rw (q, surfaced, apply_replace)
              (let back : l.seq + 1 - 1 ≡ l.seq = omega arith in
                rw (back, dropped_last l.events e) refl)
      ]
  surfaced_lem log_only e l = refl
  surfaced_lem (other n) e l = refl

  -- The whole of `Append`: a refused event changes nothing, any other is one commit.
  pub append_lem :
      (e : Event M D) (l : Log M D)
      → append e l ≡ (
          if l.closed
          then (l, err closed_log)
          else if not (beq_ℤ e.seq (pos 0))
          then (l, err seq_assigned)
          else (elim (replay_event e.surface (numbered_event e l) l.surface)
              as (λ _. Log M D × Result LogError (Event M D)) [
                | err fault ↦ (l, err fault)
                | ok s ↦ (committed (numbered_event e l) s l, ok (numbered_event e l))
              ]))
  unfolding append
  append_lem e l = rw (surfaced_lem e.surface (numbered_event e l) l) refl

  pub surface-committed :
      (e : Event M D) (s : List (Node M)) (l : Log M D) → (committed e s l).surface ≡ s
  unfolding committed notify
  surface-committed e s l = refl

  pub events-committed :
      (e : Event M D) (s : List (Node M)) (l : Log M D)
      → (committed e s l).events ≡ l.events ++ e ∷ []
  unfolding committed notify
  events-committed e s l = refl

  pub watches-committed :
      (e : Event M D) (s : List (Node M)) (l : Log M D)
      → (committed e s l).watches ≡ map (λ w. (w.0, w.1 ++ e ∷ [])) l.watches
  unfolding committed notify
  watches-committed e s l = refl

  pub next_id-committed :
      (e : Event M D) (s : List (Node M)) (l : Log M D) → (committed e s l).next_id ≡ l.next_id
  unfolding committed notify
  next_id-committed e s l = refl

  pub closed-committed :
      (e : Event M D) (s : List (Node M)) (l : Log M D) → (committed e s l).closed ≡ l.closed
  unfolding committed notify
  closed-committed e s l = refl

  pub committed-Inv :
      (e : Event M D) (l : Log M D) (s : List (Node M))
      → Inv l
      → replay_event e.surface (numbered_event e l) l.surface ≡ ok s
      → Inv (committed (numbered_event e l) s l)
  unfolding committed notify
  committed-Inv e l s v h = record {
    counted = omega (arith, length-append l.events (numbered_event e l ∷ []), v.counted);
    numbered = check_seqs-append_one 0 l.events _ v.numbered (ap pos (omega (arith, v.counted)));
    projected = rebuild-append_one [] l.events _ v.projected h;
  }

  -- An append refuses and changes nothing, or commits.
  pub append-cases :
      (e : Event M D) (l : Log M D)
      → ((f : LogError) × (append e l ≡ (l, err f)))
        ⊎ ((s : List (Node M)) × (l.closed ≡ false)
            × (beq_ℤ e.seq (pos 0) ≡ true)
            × (replay_event e.surface (numbered_event e l) l.surface ≡ ok s)
            × (append e l ≡ (committed (numbered_event e l) s l, ok (numbered_event e l))))
  append-cases e l = elim (Bool-cases l.closed) [
    | inl sealed ↦ inl (closed_log, append_lem e l ∙ simp sealed)
    | inr unsealed ↦ elim (Bool-cases (beq_ℤ e.seq (pos 0))) [
      | inr set ↦ inl (seq_assigned, append_lem e l ∙ simp (unsealed, set))
      | inl free ↦ elim (Result-cases (replay_event e.surface (numbered_event e l) l.surface)) [
        | inr (f, fails) ↦ inl (f, append_lem e l ∙ simp (unsealed, free, fails))
        | inl (s, fits) ↦
            inr (s, unsealed, free, fits, append_lem e l ∙ simp (unsealed, free, fits))
      ]
    ]
  ]

  -- A log-only event on an open log is always committed.
  pub append-log_only :
      (e : Event M D) (l : Log M D)
      → e.surface ≡ log_only
      → e.seq ≡ pos 0
      → l.closed ≡ false
      → (append e l).0 ≡ committed (numbered_event e l) l.surface l
  unfolding replay_event
  append-log_only e l op free unsealed = ap (λ r. r.0) (append_lem e l) ∙ simp (unsealed, free, op)
