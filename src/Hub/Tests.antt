-- ===== src/Hub/Tests.antt =====
-- Events that are a stream and a number.
use gocel.Prelude.{
  ◌-◌, length, drop, ℕ, ◌≡◌, refl, String, Option, some, none, List, [], ◌∷◌, filter, string_eq,
  nat_eq, insert, lookup, remove,
}
use gocel.Prelude.Int.{ℤ, pos, ltb_ℤ}
use gocel.Hub.{
  Hub, Op, publishes, subscribes, unsubscribes, receives, forgets, new, run, replay, offer, publish,
  subscribe, unsubscribe, receive, forget, step, retain, deliver_each,
}
use gocel.Hub.Replay.{history, replay_lem}
use gocel.Hub.Channels.{Live}
use gocel.Hub.Safety.{run_safe}

abbrev Event : Type 0
Event = String × ℤ

abbrev stream_of : Event → String
stream_of ev = ev.0

abbrev seq_of : Event → ℤ
seq_of ev = ev.1

abbrev idle : ℕ → ℕ × ℕ
idle address = (0, 0)

abbrev say : String → ℕ → Op stream_of seq_of
say sid n = publishes idle (sid, pos n)

abbrev session : List (Op stream_of seq_of)
session =
    subscribes
    ∷ say "a" 1
    ∷ say "b" 1
    ∷ forgets "b"
    ∷ say "a" 2
    ∷ receives 0
    ∷ say "a" 3
    ∷ say "" 9
    ∷ unsubscribes 0
    ∷ unsubscribes 0
    ∷ []

abbrev at_end : Option (Hub Event) → Hub Event
at_end none = new (pos 2) (pos 2)
at_end (some h) = h

abbrev ended : Hub Event
ended = at_end (run stream_of seq_of session (new (pos 2) (pos 2)))

session_runs : run stream_of seq_of session (new (pos 2) (pos 2)) ≡ some ended
unfolding run step new publish subscribe unsubscribe receive forget retain deliver_each insert
    lookup remove
session_runs = refl

replay_lem_example : replay stream_of seq_of "a" (pos 2) ended ≡ (
    let past = history stream_of seq_of "a" [] session in
    filter (λ ev. ltb_ℤ (pos 2) (seq_of ev)) (drop (length past - 2) past))
replay_lem_example =
    replay_lem stream_of seq_of (pos 2) (pos 2) (pos 2) session "a" ended session_runs refl

third_only : replay stream_of seq_of "a" (pos 2) ended ≡ ("a", pos 3) ∷ []
unfolding run step new publish subscribe unsubscribe receive forget retain deliver_each insert
    lookup remove replay
third_only = refl

run_safe_example :
    (h : Hub Event) × (run stream_of seq_of session (new (pos 2) (pos 2)) ≡ some h)
    × Live h.channels h.subs
run_safe_example = run_safe stream_of seq_of (pos 2) (pos 2) session

abbrev waiting : List ℕ
waiting = 4 ∷ 5 ∷ 6 ∷ []

slow_consumer : offer 3 0 0 7 waiting ≡ 5 ∷ 6 ∷ 7 ∷ []
slow_consumer = refl
