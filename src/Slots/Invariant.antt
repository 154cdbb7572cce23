-- ===== src/Slots/Invariant.antt =====
-- The slots of slots.go in every interleaving of its users.
use gocel.Prelude.{
  ℕ, suc, ◌+◌, ◌≤◌, ◌<◌, ◌≡◌, refl, ◌≢◌, ◌⊎◌, inl, inr, true, List, [], ◌∷◌, ◌++◌, Option, none,
  some, arith, length, contains, length-erase, nat_eq, Option-cases, if◌then◌else◌,
}
use gocel.Prelude.Int.{ℤ, pos, pos_part, leb_ℤ}
use gocel.Slots.{
  System, Step, arrives, resumes, cancels, leaves, Reach, here, next, new_slot_queue, remove_waiter,
  start, arrive, resume, give_up, leave,
}

-- Ascending from `lo`, and below `hi`.
abbrev pub Between : ℕ → List ℕ → ℕ → Type 0
Between lo [] hi = lo ≤ hi
Between lo (x ∷ xs) hi = (lo ≤ x) × Between (suc x) xs hi

abbrev pub after : List ℕ → ℕ
after [] = 0
after (g ∷ gs) = suc g

-- Strictly descending.
abbrev pub Descending : List ℕ → Type 0
Descending [] = Unit {0}
Descending (g ∷ gs) = (after gs ≤ g) × Descending gs

pub record Inv (capacity : ℕ) (s : System) : Type 0 where
  pub conserved : s.queue.free + s.held + length s.closed ≡ capacity
  pub no_idle_slot : (s.queue.free ≡ 0) ⊎ (s.queue.waiters ≡ [])
  pub in_order : Between (after s.grants) s.queue.waiters s.next_chan
  pub grants_in_order : Descending s.grants

Between-snoc : (lo hi : ℕ) (xs : List ℕ) → Between lo xs hi → Between lo (xs ++ hi ∷ []) (hi + 1)
Between-snoc lo hi [] b = omega arith
Between-snoc lo hi (x ∷ xs) b = (b.0, Between-snoc (suc x) hi xs b.1)

Between-weaken : (lo lo' hi : ℕ) (xs : List ℕ) → lo' ≤ lo → Between lo xs hi → Between lo' xs hi
Between-weaken lo lo' hi [] h b = omega arith
Between-weaken lo lo' hi (x ∷ xs) h b = (omega arith, b.1)

-- `remove_waiter` keeps the order, and finds what the list contains.
abbrev BetweenSome : ℕ → Option (List ℕ) → ℕ → Type 0
BetweenSome lo none hi = Unit {0}
BetweenSome lo (some xs) hi = Between lo xs hi

Between-remove :
    (ch lo hi : ℕ) (xs : List ℕ) → Between lo xs hi → BetweenSome lo (remove_waiter ch xs) hi
unfolding remove_waiter
Between-remove ch lo hi [] b = tt
Between-remove ch lo hi (x ∷ xs) b =
    ground (arith, Between-weaken (suc x) lo hi xs, Between-remove ch (suc x) hi xs b.1)

remove_waiter-none : (ch : ℕ) (xs : List ℕ) → contains ch xs ≡ true → remove_waiter ch xs ≢ none
unfolding remove_waiter
remove_waiter-none ch [] h = ground arith
remove_waiter-none ch (x ∷ xs) h = ground (arith, remove_waiter-none ch xs)

-- An empty queue is kept empty.
remove_waiter-nil : (ch : ℕ) (xs : List ℕ) → xs ≡ [] → remove_waiter ch xs ≡ none
unfolding remove_waiter
remove_waiter-nil ch [] h = refl
remove_waiter-nil ch (x ∷ xs) h = cc

arrive-Inv : (n : ℕ) (s : System) → Inv n s → Inv n (arrive s)
unfolding arrive
arrive-Inv n s v = ground (arith, Between-snoc (after s.grants) s.next_chan s.queue.waiters)

resume-Inv : (n ch : ℕ) (s : System) → contains ch s.closed ≡ true → Inv n s → Inv n (resume ch s)
unfolding resume
resume-Inv n ch s h v = ground (arith, length-erase ch s.closed h)

leave-Inv : (n : ℕ) (s : System) → 0 < s.held → Inv n s → Inv n (leave s)
unfolding leave
leave-Inv n s h v = ground arith

give_up-Inv :
    (n ch : ℕ) (s : System)
    → (contains ch s.queue.waiters ≡ true) ⊎ (contains ch s.closed ≡ true)
    → Inv n s
    → Inv n (give_up ch s)
unfolding give_up
give_up-Inv n ch s h v = elim (Option-cases (remove_waiter ch s.queue.waiters)) [
  | inl gone ↦ ground (arith, gone, remove_waiter-none ch s.queue.waiters, length-erase ch s.closed)
  | inr (ws, found) ↦ ground (
    arith,
    found,
    remove_waiter-nil ch s.queue.waiters,
    Between-remove ch (after s.grants) s.next_chan s.queue.waiters v.in_order,
  )
]

pub Step-Inv : {n : ℕ} {s t : System} → Step s t → Inv n s → Inv n t
Step-Inv {n} {s} arrives v = arrive-Inv n s v
Step-Inv {n} {s} (resumes ch h) v = resume-Inv n ch s h v
Step-Inv {n} {s} (cancels ch h) v = give_up-Inv n ch s h v
Step-Inv {n} {s} (leaves h) v = leave-Inv n s h v

-- How many slots `newSlotQueue` makes: at least one.
abbrev pub capacity : ℤ → ℕ
capacity n = if leb_ℤ n (pos 0) then 1 else pos_part n

start-Inv : (n : ℤ) → Inv (capacity n) (start n)
unfolding start new_slot_queue
start-Inv n = ground arith

-- Whatever the goroutines do: the free slots, the held ones and those handed over but not yet
-- taken up add up to the capacity; a slot is free only if nobody waits; the waiters stand in the
-- order of arrival, behind all that were served; and those were served in that order.
pub Reach-Inv : {n : ℤ} {s : System} → Reach n s → Inv (capacity n) s
Reach-Inv {n} here = start-Inv n
Reach-Inv (next r st) = Step-Inv st (Reach-Inv r)

-- In every state that the goroutines can reach there are at most as many holders as slots.
pub held_capped : {n : ℤ} {s : System} → Reach n s → s.held ≤ capacity n
held_capped r = omega (arith, (Reach-Inv r).conserved)
