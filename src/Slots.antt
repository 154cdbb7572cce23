-- ===== src/Slots.antt =====
-- agents/workflow/slots.go: the FIFO semaphore of the workflow engine. `acquire` has two critical
-- sections, `enter` and (when its context is done first) `cancel`; between them other goroutines
-- run. A channel is a number, handed out in the order of `make`. `System` adds what the goroutines
-- hold: `System.closed` are the closed channels whose acquirer has not gone on yet.
pub mod Invariant
mod Tests
use gocel.Prelude.{
  ℕ, zero, suc, ◌+◌, ◌-◌, ◌≡◌, ◌<◌, ◌⊎◌, Bool, true, false, List, [], ◌∷◌, ◌++◌, Option, none, some,
  contains, erase, if◌then◌else◌, ◌==◌, nat_eq,
}
use gocel.Prelude.Int.{ℤ, pos, pos_part, leb_ℤ}

-- `free` is never negative: it is only decremented when it is positive.
pub record SlotQueue : Type 0 where
  pub free : ℕ
  pub waiters : List ℕ

pub new_slot_queue : ℤ → SlotQueue
new_slot_queue n = record { free = if leb_ℤ n (pos 0) then 1 else pos_part n; waiters = [] }

-- `acquire` up to its `select`: true if a slot was free, else channel `ch` waits in the queue.
pub enter : ℕ → SlotQueue → SlotQueue × Bool
enter ch q = elim q.free [
  | zero ↦ (record q { waiters = q.waiters ++ ch ∷ [] }, false)
  | suc n ↦ (record q { free = n }, true)
]

-- The loop over the waiters: the queue without `ch`, if it is there.
pub remove_waiter : ℕ → List ℕ → Option (List ℕ)
remove_waiter ch [] = none
remove_waiter ch (w ∷ ws) =
    if w == ch then some ws else elim (remove_waiter ch ws) [ none ↦ none | some r ↦ some (w ∷ r) ]

-- The branch `<-ctx.Done()` of `acquire`, with its result: whether a slot was taken all the same.
pub cancel : ℕ → SlotQueue → SlotQueue × Bool
unfolding remove_waiter
cancel ch q = elim (remove_waiter ch q.waiters) [
  | none ↦ (q, true)
  | some ws ↦ (record q { waiters = ws }, false)
]

-- The channel that `release` closes, if any.
release_to : List ℕ → SlotQueue → SlotQueue × Option ℕ
release_to [] q = (record q { free = q.free + 1 }, none)
release_to (w ∷ ws) q = (record q { waiters = ws }, some w)

pub release : SlotQueue → SlotQueue × Option ℕ
unfolding release_to
release q = release_to q.waiters q

-- `held` counts the acquirers that returned true and have not released; `grants` logs the closed
-- channels, newest first.
pub record System : Type 0 where
  pub queue : SlotQueue
  pub next_chan : ℕ
  pub closed : List ℕ
  pub held : ℕ
  pub grants : List ℕ

pub start : ℤ → System
start n = record { queue = new_slot_queue n; next_chan = 0; closed = []; held = 0; grants = [] }

pub arrive : System → System
unfolding enter
arrive s =
    let (q, got) = enter s.next_chan s.queue in
    if got
    then record s { queue = q; held = s.held + 1 }
    else record s { queue = q; next_chan = s.next_chan + 1 }

-- The acquirer of `ch` sees its channel closed.
pub resume : ℕ → System → System
resume ch s = record s { closed = erase ch s.closed; held = s.held + 1 }

pub give_up : ℕ → System → System
unfolding cancel
give_up ch s =
    let (q, taken) = cancel ch s.queue in
    if taken
    then record s { queue = q; closed = erase ch s.closed; held = s.held + 1 }
    else record s { queue = q }

close_chan : Option ℕ → System → System
close_chan none s = s
close_chan (some ch) s = record s { closed = ch ∷ s.closed; grants = ch ∷ s.grants }

pub leave : System → System
unfolding release close_chan
leave s =
    let (q, woken) = release s.queue in close_chan woken (record s { queue = q; held = s.held - 1 })

-- One step of the goroutines together. An acquirer can be cancelled while it waits, or after its
-- channel was closed; only a holder releases.
pub data Step (s : System) : System → Type 0 where
  arrives : Step s (arrive s)
  resumes : (ch : ℕ) → contains ch s.closed ≡ true → Step s (resume ch s)
  cancels :
      (ch : ℕ)
      → (contains ch s.queue.waiters ≡ true) ⊎ (contains ch s.closed ≡ true)
      → Step s (give_up ch s)
  leaves : 0 < s.held → Step s (leave s)

pub data Reach (n : ℤ) : System → Type 0 where
  here : Reach n (start n)
  next : {s t : System} → Reach n s → Step s t → Reach n t
