-- ===== src/Session/Tests.antt =====
-- core/session/log.go on concrete logs: a compacted history, restored, refused and listened to.
use gocel.Prelude.{
  arith, nat_eq, lookup, ◌<◌, if◌then◌else◌, length, lookup, ◌≤◌, count, ◌+◌, ◌++◌, ℕ, ◌≡◌, refl,
  List, [], ◌∷◌, String, none, some, ok, true, false,
}
use gocel.Prelude.Int.{int_eq, pos}
use gocel.Session.{
  Event, Log, SurfaceOp, appends, replaces, log_only, Call, append_call, subscribe_call,
  cancel_call, close_call, run, step, new_log, append, restore, subscribe, surface_seq,
  derive_messages, partly_on_surface, node_of,
}
use Prim.Native.Nat.{◌^◌}
use gocel.Session.Replacing.{within}
use gocel.Session.Restoring.{fault_of, restores_run, refused_unchanged}
use gocel.Session.Surface.{Shadowed, surface_once, append-replaces}
use gocel.Session.Listening.{keeps_all, hears_all}

abbrev event : SurfaceOp → ℕ → ℕ → String → Event String ℕ
event op from to text = record {
  seq = pos 0;
  kind = "user/message";
  surface = op;
  source_from = pos from;
  source_to = pos to;
  message = some text;
  meta = none;
  time = pos 0;
}

abbrev said : String → Call String ℕ
said text = append_call (event appends 0 0 text)

-- Three messages, a checkpoint, and a summary of the first two messages.
abbrev compacted : List (Call String ℕ)
compacted =
    said "a"
    ∷ said "b"
    ∷ append_call (event log_only 0 0 "mark")
    ∷ said "c"
    ∷ append_call (event replaces 1 2 "ab")
    ∷ []

abbrev session : Log String ℕ
session = run compacted (new_log "s")

surface_of_session : surface_seq session ≡ pos 5 ∷ pos 4 ∷ []
unfolding surface_seq run step append new_log
surface_of_session = refl

messages_of_session : derive_messages session ≡ "ab" ∷ "c" ∷ []
unfolding derive_messages run step append new_log
messages_of_session = refl

abbrev marked : List (Call String ℕ)
marked = said "a" ∷ said "b" ∷ append_call (event log_only 0 0 "mark") ∷ said "c" ∷ []

-- A range with the checkpoint in it is not on the surface.
gap_refused :
    fault_of (append_call (event replaces 2 4 "bc")) (run marked (new_log "s"))
    ≡ some (partly_on_surface (pos 2) (pos 4) 2 (pos 3))
unfolding fault_of append run step new_log
gap_refused = refl

refused_unchanged_example :
    step (append_call (event replaces 2 4 "bc")) (run marked (new_log "s"))
    ≡ run marked (new_log "s")
refused_unchanged_example =
    refused_unchanged (append_call (event replaces 2 4 "bc")) (run marked (new_log "s"))
      (partly_on_surface (pos 2) (pos 4) 2 (pos 3)) gap_refused

restores_run_example : restore session.events (new_log "t") ≡ (
  record (new_log "t") { seq = session.seq; events = session.events; surface = session.surface },
  none,
)
restores_run_example = restores_run "s" "t" compacted

surface_once_example :
    count (pos 5) (surface_seq session)
    ≤ (if within (pos 1) (pos session.seq) (pos 5) then 1 else 0)
surface_once_example = surface_once "s" compacted (pos 5)

abbrev summary : Event String ℕ
summary = record (event replaces 1 2 "ab") { seq = pos 5 }

summary_committed : (append (event replaces 1 2 "ab") (run marked (new_log "s"))).1 ≡ ok summary
unfolding append run step new_log
summary_committed = refl

append-replaces_example :
    Shadowed
      (run marked (new_log "s")).surface
      (append (event replaces 1 2 "ab") (run marked (new_log "s"))).0.surface
      (pos 1)
      (pos 2)
      (node_of summary)
append-replaces_example =
    append-replaces "s" marked (event replaces 1 2 "ab") summary refl summary_committed

abbrev heard_calls : List (Call String ℕ)
heard_calls = subscribe_call ∷ said "d" ∷ cancel_call 2 false ∷ close_call ∷ said "e" ∷ []

heard_kept : keeps_all (subscribe (run marked (new_log "s"))).1 heard_calls ≡ true
unfolding keeps_all subscribe run step new_log append
heard_kept = refl

room : (run marked (new_log "s")).next_id + 1 + length heard_calls < 2 ^ 64
unfolding run step new_log append
room = omega arith

hears_all_example :
    (let (l0, id) = subscribe (run marked (new_log "s")) in
      (more : List (Event String ℕ)) × ((run heard_calls l0).events
        ≡ (run marked (new_log "s")).events ++ more)
      × (lookup id (run heard_calls l0).watches ≡ some more))
hears_all_example = hears_all heard_calls (run marked (new_log "s")) room heard_kept
