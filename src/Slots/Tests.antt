-- ===== src/Slots/Tests.antt =====
-- Two slots, four acquirers, one of them cancelled.
use gocel.Prelude.{◌≡◌, refl, inr, [], ◌∷◌, arith}
use gocel.Prelude.Int.{pos}
use gocel.Slots.{
  System, arrives, cancels, leaves, Reach, here, next, start, arrive, give_up, leave,
  new_slot_queue, enter, cancel, release,
}
use gocel.Slots.Invariant.{Inv, Reach-Inv}

abbrev busy : System
busy = arrive (arrive (arrive (arrive (start (pos 2)))))

busy_waiters : busy.queue.waiters ≡ 0 ∷ 1 ∷ []
unfolding arrive start new_slot_queue enter
busy_waiters = refl

abbrev handed : System
handed = leave busy

handed_closed : handed.closed ≡ 0 ∷ []
unfolding arrive start new_slot_queue enter leave release
handed_closed = refl

-- The acquirer of channel 0 is cancelled although its channel is closed: it keeps the slot.
abbrev raced : System
raced = give_up 0 handed

busy-Reach : Reach (pos 2) busy
busy-Reach = next (next (next (next here arrives) arrives) arrives) arrives

raced-Reach : Reach (pos 2) raced
unfolding arrive start new_slot_queue enter leave release
raced-Reach = next (next busy-Reach (leaves (omega arith))) (cancels 0 (inr refl))

raced_held : raced.held ≡ 2
unfolding arrive start new_slot_queue enter leave release give_up cancel
raced_held = refl

Reach-Inv_example : Inv 2 raced
Reach-Inv_example = Reach-Inv raced-Reach
