-- ===== src/Session/Listening.antt =====
-- core/session/log.go, `Subscribe` and the notifications of `Append`: what a listener receives.
use gocel.Prelude.{
  ℕ, ◌+◌, ◌≤◌, ◌<◌, ◌≡◌, refl, ap, sym, ◌∙◌, Bool, true, false, List, [], ◌∷◌, ◌++◌, map, some,
  length, inl, inr, arith, lookup, nat_eq, lookup-insert, lookup-insert_self, lookup-remove, ◌==◌,
  not, ◌&&◌, ◌||◌, subst,
}
use mathlib.Core.List.{append_assoc}
use Prim.Native.Nat.{◌^◌, ◌%◌}
use gocel.Session.{
  Log, Event, subscribe, cancel, close, run, step, Call, append_call, restore_call, subscribe_call,
  cancel_call, close_call,
}
use gocel.Session.Invariant.{
  append-cases, numbered_event, events-committed, watches-committed, next_id-committed,
}

module _ {ℓ} {M D : Type ℓ} where
  -- No restore, and no cancellation of the listener `id`.
  unfoldable pub keeps : ℕ → Call M D → Bool
  keeps id (append_call e) = true
  keeps id (restore_call events) = false
  keeps id subscribe_call = true
  keeps id (cancel_call other done) = done || not (other == id)
  keeps id close_call = true

  unfoldable pub keeps_all : ℕ → List (Call M D) → Bool
  unfolding keeps
  keeps_all id [] = true
  keeps_all id (c ∷ calls) = keeps id c && keeps_all id calls

  -- From l to l' the listener `id` has received what was appended.
  record Received (id : ℕ) (got : List (Event M D)) (l l' : Log M D) : Type ℓ where
    more : List (Event M D)
    appended : l'.events ≡ l.events ++ more
    received : lookup id l'.watches ≡ some (got ++ more)
    known : id ≤ l'.next_id
    ids : l'.next_id ≤ l.next_id + 1

  append_nil : (xs : List (Event M D)) → xs ≡ xs ++ []
  append_nil [] = refl
  append_nil (x ∷ xs) = ap (◌∷◌ x) (append_nil xs)

  lookup-notified :
      (id : ℕ) (e : Event M D) (watches : List (ℕ × List (Event M D))) (got : List (Event M D))
      → lookup id watches ≡ some got
      → lookup id (map (λ w. (w.0, w.1 ++ e ∷ [])) watches) ≡ some (got ++ e ∷ [])
  unfolding lookup
  lookup-notified id e [] got h = absurd (cc h)
  lookup-notified id e ((j, its) ∷ watches) got h = ground (arith, lookup-notified id e watches got)

  unheard :
      (id : ℕ) (got : List (Event M D)) (l l' : Log M D)
      → l'.events ≡ l.events
      → lookup id l'.watches ≡ some got
      → id ≤ l'.next_id
      → l'.next_id ≤ l.next_id + 1
      → Received id got l l'
  unheard id got l l' same heard known ids = record {
    more = [];
    appended = same ∙ append_nil l.events;
    received = heard ∙ ap some (append_nil got);
    known = known;
    ids = ids;
  }

  step-Received :
      (id : ℕ) (got : List (Event M D)) (c : Call M D) (l : Log M D)
      → lookup id l.watches ≡ some got
      → id ≤ l.next_id
      → l.next_id + 1 < 2 ^ 64
      → keeps id c ≡ true
      → Received id got l (step c l)
  unfolding step keeps subscribe cancel close
  step-Received id got (append_call e) l h known room k = elim (append-cases e l) [
    | inl (f, same) ↦
        subst (λ r. Received id got l r.0) (sym same)
          (unheard id got l l refl h known (omega arith))
    | inr (s, unsealed, free, fits, done) ↦
        subst (λ r. Received id got l r.0) (sym done)
          (record {
            more = numbered_event e l ∷ [];
            appended = events-committed (numbered_event e l) s l;
            received =
                ap (lookup id) (watches-committed (numbered_event e l) s l)
                ∙ lookup-notified id (numbered_event e l) l.watches got h;
            known = omega (arith, next_id-committed (numbered_event e l) s l);
            ids = omega (arith, next_id-committed (numbered_event e l) s l);
          })
  ]
  step-Received id got (restore_call events) l h known room k = absurd (cc k)
  step-Received id got subscribe_call l h known room k =
      unheard id got l _ refl
        (lookup-insert ((l.next_id + 1) % 2 ^ 64) id [] l.watches ∙ ground arith) (omega arith)
        (omega arith)
  step-Received id got (cancel_call j true) l h known room k =
      unheard id got l l refl h known (omega arith)
  step-Received id got (cancel_call j false) l h known room k =
      unheard id got l _ refl (lookup-remove j id l.watches ∙ ground arith) known (omega arith)
  step-Received id got close_call l h known room k = unheard id got l _ refl h known (omega arith)

  run-Received :
      (id : ℕ) (got : List (Event M D)) (calls : List (Call M D)) (l : Log M D)
      → lookup id l.watches ≡ some got
      → id ≤ l.next_id
      → l.next_id + length calls < 2 ^ 64
      → keeps_all id calls ≡ true
      → (more : List (Event M D)) × ((run calls l).events ≡ l.events ++ more)
        × (lookup id (run calls l).watches ≡ some (got ++ more))
  unfolding run keeps_all
  run-Received id got [] l h known room k = ([], append_nil l.events, h ∙ ap some (append_nil got))
  run-Received id got (c ∷ calls) l h known room k =
      let first : Received id got l (step c l) =
        step-Received id got c l h known (omega arith) (ground arith) in
      let (more, later, heard) =
        run-Received id (got ++ first.more) calls (step c l) first.received first.known
          (omega (arith, first.ids)) (ground arith) in
      (
        first.more ++ more,
        later ∙ ap (λ x. x ++ more) first.appended ∙ append_assoc l.events first.more more,
        heard ∙ ap some (append_assoc got first.more more),
      )

  -- As long as a listener is not cancelled, nothing is restored, and the ids stay below 2^64, it
  -- has received exactly the events appended since it subscribed, in their order, and the log
  -- still has all earlier ones.
  pub hears_all :
      (calls : List (Call M D)) (l : Log M D)
      → let (l0, id) = subscribe l in
        l.next_id + 1 + length calls < 2 ^ 64
        → keeps_all id calls ≡ true
        → (more : List (Event M D)) × ((run calls l0).events ≡ l.events ++ more)
          × (lookup id (run calls l0).watches ≡ some more)
  unfolding subscribe
  hears_all calls l room k =
      run-Received ((l.next_id + 1) % 2 ^ 64) [] calls (subscribe l).0
        (lookup-insert_self ((l.next_id + 1) % 2 ^ 64) [] l.watches) (omega arith) (omega arith) k
