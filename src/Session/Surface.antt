-- ===== src/Session/Surface.antt =====
-- core/session/log.go: which events the surface shows.
use gocel.Prelude.{
  Bool-cases, String, ℕ, ◌+◌, ◌≤◌, ◌≡◌, ap, sym, ◌∙◌, List, [], ◌∷◌, none, some, length, count,
  if◌then◌else◌, inl, inr, ok, err, arith, Result-cases, subst, ok_inj,
}
use gocel.Prelude.Int.{beq_ℤ_iff, beq_ℤ, ℤ, pos, int_eq}
use gocel.Session.{
  not_contiguous, Log, Event, Node, SurfaceOp, appends, replaces, log_only, other, new_log, append,
  check_seqs, rebuild, replay_event, node_of, run, Call, rebuild_failed, surface_seq,
}
use gocel.Session.Replacing.{
  seqs, within, count-replaced, count-was_within, replaced_lem, Replaced, count-seqs-append,
}
use gocel.Session.Invariant.{surface-committed, Inv, new_log-Inv, numbered_event, append-cases}
use gocel.Session.Restoring.{run-Inv}

module _ {ℓ} {M : Type ℓ} where
  -- Each number once, and only numbers from 1 to k.
  abbrev pub Fresh : ℕ → List (Node M) → Type 0
  Fresh k s = (n : ℤ) → count n (seqs s) ≤ (if within (pos 1) (pos k) n then 1 else 0)

  Fresh-once : (k : ℕ) (s : List (Node M)) → Fresh k s → (n : ℤ) → count n (seqs s) ≤ 1
  Fresh-once k s f n = ground (arith, f n)

  -- From s to s' the node r took the place of the nodes numbered from..to; each of these numbers
  -- was there once, and the other numbers stay as often as they were.
  abbrev pub Shadowed : (s s' : List (Node M)) (from to : ℤ) (r : Node M) → Type ℓ
  Shadowed s s' from to r =
      Replaced s s' from to r
      × ((n : ℤ) → count n (seqs s) ≡ (if within from to n then 1 else count n (seqs s)))
      × ((n : ℤ)
          → count n (seqs s')
            ≡ (if within from to n then 0 else count n (seqs s)) + count n (r.seq ∷ []))

module _ {ℓ} {M D : Type ℓ} where
  replay_event-Fresh :
      (op : SurfaceOp) (e : Event M D) (k : ℕ) (s : List (Node M)) {s' : List (Node M)}
      → e.seq ≡ pos (k + 1)
      → Fresh k s
      → replay_event op e s ≡ ok s'
      → Fresh (k + 1) s'
  unfolding replay_event
  replay_event-Fresh appends e k s seq f h =
      subst (Fresh (k + 1)) (ok_inj h)
        (λ n. ground (arith, f n, count-seqs-append n s (node_of e ∷ []), int_eq.beq_iff e.seq n))
  replay_event-Fresh replaces e k s {s'} seq f h =
      let v : Replaced s s' e.source_from e.source_to (node_of e) =
        replaced_lem s s' e.source_from e.source_to (node_of e) h in
      λ n. ground (arith, f n, count-replaced v (Fresh-once k s f) n, int_eq.beq_iff e.seq n)
  replay_event-Fresh log_only e k s seq f h =
      subst (Fresh (k + 1)) (ok_inj h) (λ n. ground (arith, f n))
  replay_event-Fresh (other m) e k s seq f h =
      subst (Fresh (k + 1)) (ok_inj h) (λ n. ground (arith, f n))

  check_seqs-cons :
      (k : ℕ) (e : Event M D) (events : List (Event M D))
      → check_seqs k (e ∷ events) ≡ none
      → (e.seq ≡ pos (k + 1)) × (check_seqs (k + 1) events ≡ none)
  unfolding check_seqs
  check_seqs-cons k e events h = elim (Bool-cases (beq_ℤ e.seq (pos (k + 1)))) [
    | inl same ↦ ((beq_ℤ_iff _ _).0 same, rw same at h)
    | inr differ ↦
        let bad : some (not_contiguous k e.seq) ≡ none = rw differ at h in absurd (cc bad)
  ]

  rebuild-Fresh :
      (k : ℕ) (events : List (Event M D)) (s : List (Node M)) {s' : List (Node M)}
      → Fresh k s
      → check_seqs k events ≡ none
      → rebuild s events ≡ ok s'
      → Fresh (k + length events) s'
  unfolding rebuild check_seqs
  rebuild-Fresh k [] s f c h = subst (Fresh (k + 0)) (ok_inj h) (λ n. ground (arith, f n))
  rebuild-Fresh k (e ∷ events) s {s'} f c h = elim (Result-cases (replay_event e.surface e s)) [
    | inr (fault, q) ↦
        let bad : err (rebuild_failed fault) ≡ ok s' = rw (q, rebuild) at h in absurd (cc bad)
    | inl (s1, q) ↦
        let (here, later) = check_seqs-cons k e events c in
        subst (λ m. Fresh m s') (omega arith)
          (rebuild-Fresh (k + 1) events s1 (replay_event-Fresh e.surface e k s here f q) later
            (rw (q, rebuild) at h))
  ]

  Inv-Fresh : (l : Log M D) → Inv l → Fresh l.seq l.surface
  Inv-Fresh l v =
      subst (λ m. Fresh m l.surface) (sym (v.counted ∙ omega arith))
        (rebuild-Fresh 0 l.events [] (λ n. ground arith) v.numbered v.projected)

  -- After any calls of a new log each number is on the surface at most once, and only numbers from
  -- 1 to the last committed one.
  pub surface_once :
      (id : String) (calls : List (Call M D)) (n : ℤ)
      → let l = run calls (new_log id) in
        count n (surface_seq l) ≤ (if within (pos 1) (pos l.seq) n then 1 else 0)
  unfolding surface_seq
  surface_once id calls = Inv-Fresh _ (run-Inv calls (new_log id) (new_log-Inv id))

  replay_event-Shadowed :
      (op : SurfaceOp) (e : Event M D) (k : ℕ) (s s' : List (Node M))
      → op ≡ replaces
      → Fresh k s
      → replay_event op e s ≡ ok s'
      → Shadowed s s' e.source_from e.source_to (node_of e)
  unfolding replay_event
  replay_event-Shadowed appends e k s s' op f h = absurd (cc op)
  replay_event-Shadowed replaces e k s s' op f h =
      let v : Replaced s s' e.source_from e.source_to (node_of e) =
        replaced_lem s s' e.source_from e.source_to (node_of e) h in
      (
        v,
        λ n. ground (arith, count-was_within v (Fresh-once k s f) n),
        λ n. count-replaced v (Fresh-once k s f) n,
      )
  replay_event-Shadowed log_only e k s s' op f h = absurd (cc op)
  replay_event-Shadowed (other m) e k s s' op f h = absurd (cc op)

  -- A replacement that a log accepts, after any calls, takes the place of the nodes with the
  -- numbers of its range, each of which was on the surface once, and leaves the other nodes where
  -- they were.
  pub append-replaces :
      (id : String) (calls : List (Call M D)) (e e' : Event M D)
      → e.surface ≡ replaces
      → let l = run calls (new_log id) in
        (append e l).1 ≡ ok e'
        → Shadowed l.surface (append e l).0.surface e.source_from e.source_to (node_of e')
  append-replaces id calls e e' op done =
      let l = run calls (new_log id) in
      elim (append-cases e l) [
        | inl (f, same) ↦ let bad : err f ≡ ok e' = rw same at done in absurd (cc bad)
        | inr (s, unsealed, free, fits, same) ↦
            let its : numbered_event e l ≡ e' = ok_inj (sym (ap (λ r. r.1) same) ∙ done) in
            let shadowed : Shadowed l.surface s e.source_from e.source_to
                (node_of (numbered_event e l)) =
              replay_event-Shadowed e.surface (numbered_event e l) l.seq l.surface s op
                (Inv-Fresh l (run-Inv calls (new_log id) (new_log-Inv id))) fits in
            let shown : s ≡ (append e l).0.surface =
              sym (ap (λ r. r.0.surface) same ∙ surface-committed (numbered_event e l) s l) in
            subst (λ x. Shadowed l.surface x e.source_from e.source_to (node_of e')) shown
              (subst (λ x. Shadowed l.surface s e.source_from e.source_to (node_of x)) its shadowed)
      ]
