-- ===== src/Jobs/Registry/Told.antt =====
-- What a registry of core/jobs/jobs.go has told its listeners, entry by entry.
use gocel.Prelude.{
  ℕ, ◌+◌, ◌≡◌, refl, ap, sym, ◌∙◌, subst, Bool, true, false, List, [], ◌∷◌, ◌++◌, Option, none,
  some, string_eq, nat_beq, nat_beq_iff, if◌then◌else◌, get_elem?, set_elem, get_elem-set_elem,
  get_elem-set_elem_self, set_elem-set_elem, get_elem-append_one, get_elem-length, arith,
  Bool-cases, inl, inr, length,
}
use gocel.Jobs.Registry.{
  Registry, Entry, Stage, working, returned, settled, gone, Status, is_working, past_settle, settle,
  at_entry,
}
use gocel.Jobs.Registry.Control.{settle_step, pass}

-- How often the listeners were told of the end of a job.
abbrev pub told : ℕ → List (ℕ × Status) → ℕ
told address [] = 0
told address ((a, s) ∷ rest) = (if nat_beq a address then 1 else 0) + told address rest

-- The goroutine is past `settle`.
abbrev pub is_late : Stage → Bool
is_late settled = true
is_late gone = true
is_late _ = false

abbrev pub Fits : ℕ → Option Entry → Type 0
Fits n none = n ≡ 0
Fits n (some e) = (n ≡ (if e.reported then 1 else 0)) × (e.reported ≡ is_late e.stage)

abbrev pub Reported : List (ℕ × Status) → List Entry → Type 0
Reported log entries = (address : ℕ) → Fits (told address log) (get_elem? entries address)

pub Fits-at : (n : ℕ) (o p : Option Entry) → o ≡ p → Fits n p → Fits n o
Fits-at n o p e = subst (Fits n) (sym e)

-- A change of an entry that keeps the bit, and whether the goroutine is past `settle`.
pub set_elem-Reported :
    (log : List (ℕ × Status)) (entries : List Entry) (n : ℕ) (old new : Entry)
    → get_elem? entries n ≡ some old
    → new.reported ≡ old.reported
    → is_late new.stage ≡ is_late old.stage
    → Reported log entries
    → Reported log (set_elem entries n new)
set_elem-Reported log entries n old new found same late v address =
    let here = get_elem-set_elem entries n address old new found in
    elim (Bool-cases (nat_beq n address)) [
      | inl hit ↦
          let put : get_elem? (set_elem entries n new) address ≡ some new = here ∙ rw hit refl in
          let had : get_elem? entries address ≡ some old =
            ap (get_elem? entries) (sym ((nat_beq_iff n address).0 hit)) ∙ found in
          let was = Fits-at (told address log) (some old) _ (sym had) (v address) in
          Fits-at (told address log) _ (some new) put
            (was.0 ∙ rw same refl, same ∙ was.1 ∙ sym late)
      | inr miss ↦
          let kept : get_elem? (set_elem entries n new) address ≡ get_elem? entries address =
            here ∙ rw miss refl in
          Fits-at (told address log) _ _ kept (v address)
    ]

-- An entry that had not been reported is.
pub settle-Reported :
    (log : List (ℕ × Status)) (entries : List Entry) (n : ℕ) (e : Entry) (s : Stage)
    → is_late s ≡ true
    → get_elem? entries n ≡ some e
    → e.reported ≡ false
    → Reported log entries
    → Reported ((n, e.status) ∷ log) (set_elem entries n (record e { reported = true; stage = s }))
settle-Reported log entries n e s past found new v address =
    let after = record e { reported = true; stage = s } in
    let here = get_elem-set_elem entries n address e after found in
    elim (Bool-cases (nat_beq n address)) [
      | inl hit ↦
          let put : get_elem? (set_elem entries n after) address ≡ some after =
            here ∙ rw hit refl in
          let had : get_elem? entries address ≡ some e =
            ap (get_elem? entries) (sym ((nat_beq_iff n address).0 hit)) ∙ found in
          let was = Fits-at (told address log) (some e) _ (sym had) (v address) in
          let unsaid : told address log ≡ 0 = was.0 ∙ rw new refl in
          Fits-at _ _ (some after) put (ground (arith, hit, unsaid), sym past)
      | inr miss ↦
          let kept : get_elem? (set_elem entries n after) address ≡ get_elem? entries address =
            here ∙ rw miss refl in
          let same : told address ((n, e.status) ∷ log) ≡ told address log = ground (arith, miss) in
          Fits-at _ _ _ kept
            (subst (λ k. Fits k (get_elem? entries address)) (sym same) (v address))
    ]

-- A new entry.
pub append-Reported :
    (log : List (ℕ × Status)) (entries : List Entry) (new : Entry)
    → new.reported ≡ false
    → is_late new.stage ≡ false
    → Reported log entries
    → Reported log (entries ++ new ∷ [])
append-Reported log entries new unsaid early v address =
    let here = get_elem-append_one entries new address in
    elim (Bool-cases (nat_beq (length entries) address)) [
      | inl hit ↦
          let put : get_elem? (entries ++ new ∷ []) address ≡ some new = here ∙ rw hit refl in
          let empty : get_elem? entries address ≡ none =
            ap (get_elem? entries) (sym ((nat_beq_iff (length entries) address).0 hit))
            ∙ get_elem-length entries in
          let zero_told = Fits-at (told address log) none _ (sym empty) (v address) in
          Fits-at (told address log) _ (some new) put (rw unsaid zero_told, unsaid ∙ sym early)
      | inr miss ↦
          let kept : get_elem? (entries ++ new ∷ []) address ≡ get_elem? entries address =
            here ∙ rw miss refl in
          Fits-at (told address log) _ _ kept (v address)
    ]

-- Past `settle`, the goroutine is late, unless it is still in `Run`.
pub past_settle-is_late : (s : Stage) → is_working s ≡ false → is_late (past_settle s) ≡ true
past_settle-is_late working h = absurd (cc h)
past_settle-is_late returned h = refl
past_settle-is_late settled h = refl
past_settle-is_late gone h = refl

-- The first call for an entry, which is told.
pub settle_step-first :
    (address : ℕ) (e : Entry) (r : Registry)
    → get_elem? r.entries address ≡ some e
    → is_working e.stage ≡ false
    → e.reported ≡ false
    → settle_step address r ≡ record r {
      entries =
          set_elem r.entries address (record e { reported = true; stage = past_settle e.stage });
      settlements = (address, e.status) ∷ r.settlements;
      changes = e.owner ∷ r.changes;
    }
unfolding settle_step settle
settle_step-first address e r found busy new =
    let put = record e { reported = true } in
    let next = record r {
      entries = set_elem r.entries address put;
      settlements = (address, e.status) ∷ r.settlements;
      changes = e.owner ∷ r.changes;
    } in
    let calls : settle_step address r ≡ pass address (settle address r) =
      rw (settle_step, found, busy) refl in
    let works : settle address r ≡ next = rw (settle, found, new) refl in
    let there = get_elem-set_elem_self r.entries address e put found in
    calls
    ∙ ap (pass address) works
    ∙ rw (at_entry, there)
        (ap (λ es. record next { entries = es })
          (set_elem-set_elem r.entries address put (record put { stage = past_settle e.stage })))

-- A later call, which does nothing.
pub settle_step-again :
    (address : ℕ) (e : Entry) (r : Registry)
    → get_elem? r.entries address ≡ some e
    → is_working e.stage ≡ false
    → e.reported ≡ true
    → settle_step address r
      ≡ record r { entries = set_elem r.entries address (record e { stage = past_settle e.stage }) }
unfolding settle_step settle
settle_step-again address e r found busy again =
    let calls : settle_step address r ≡ pass address (settle address r) =
      rw (settle_step, found, busy) refl in
    let rests : settle address r ≡ r = rw (settle, found, again) refl in
    calls ∙ ap (pass address) rests ∙ rw (at_entry, found) refl
