-- ===== src/Session.antt =====
-- core/session/log.go, and the events of core/types/sessionevent.go. The mutex makes each method
-- one step. `D` is the type of the payload in Meta, which the log does not read; times are unix
-- times. A listener is the list of the events that it has received. The numbers of a log count
-- its events, so their overflow at 2^63 events is left out.
pub mod Replacing
pub mod Invariant
pub mod Restoring
pub mod Surface
pub mod Listening
pub mod Store
mod Tests
use gocel.Prelude.{
  ◌&&◌, ℕ, suc, ◌+◌, ◌-◌, Bool, true, false, not, ◌||◌, List, [], ◌∷◌, ◌++◌, map, String, Option,
  none, some, length, take, drop, insert, remove, nat_eq, nat_beq, if◌then◌else◌, Result, ok, err,
}
use gocel.Prelude.Int.{ℤ, pos, ◌+ℤ◌, ◌-ℤ◌, ltb_ℤ, leb_ℤ, beq_ℤ}
use Prim.Native.Nat.{◌^◌, ◌%◌}

pub data SurfaceOp : Type 0 where
  appends replaces log_only : SurfaceOp
  other : ℤ → SurfaceOp

surface_op_string : SurfaceOp → String
surface_op_string appends = "append"
surface_op_string replaces = "replace"
surface_op_string log_only = "log-only"
surface_op_string (other n) = "unknown"

pub record Event {ℓ} (M D : Type ℓ) : Type ℓ where
  pub seq : ℤ
  pub kind : String
  pub surface : SurfaceOp
  pub source_from : ℤ
  pub source_to : ℤ
  pub message : Option M
  pub meta : Option D
  pub time : ℤ

-- `surfaceNode`
pub record Node {ℓ} (M : Type ℓ) : Type ℓ where
  pub seq : ℤ
  pub kind : String
  pub message : Option M

-- The three errors that wrap ErrSurfaceRange come first.
pub data LogError : Type 0 where
  bad_range : (from to : ℤ) → LogError
  off_surface : (from : ℤ) → LogError
  partly_on_surface : (from to : ℤ) (found : ℕ) (want : ℤ) → LogError
  seq_assigned closed_log not_empty : LogError
  not_contiguous : (index : ℕ) (seq : ℤ) → LogError
  rebuild_failed : LogError → LogError

pub record Log {ℓ} (M D : Type ℓ) : Type ℓ where
  pub id : String
  pub closed : Bool
  pub seq : ℕ
  pub events : List (Event M D)
  pub surface : List (Node M)
  pub watches : List (ℕ × List (Event M D))
  pub next_id : ℕ

module _ {ℓ} {M : Type ℓ} where
  pub start_index : ℤ → List (Node M) → Option ℕ
  start_index from [] = none
  start_index from (n ∷ nodes) =
      if beq_ℤ n.seq from
      then some 0
      else elim (start_index from nodes) [ none ↦ none | some i ↦ some (suc i) ]

  -- How many nodes at the front lie in the range.
  pub count_shadowed : (from to : ℤ) → List (Node M) → ℕ
  count_shadowed from to [] = 0
  count_shadowed from to (n ∷ nodes) =
      if leb_ℤ from n.seq && leb_ℤ n.seq to then suc (count_shadowed from to nodes) else 0

  pub apply_replace_scratch :
      List (Node M) → (from to : ℤ) → Node M → Result LogError (List (Node M))
  unfolding start_index count_shadowed ◌+ℤ◌ ◌-ℤ◌
  apply_replace_scratch surface from to replacement =
      if leb_ℤ from (pos 0) || ltb_ℤ to from
      then err (bad_range from to)
      else elim (start_index from surface) [
        | none ↦ err (off_surface from)
        | some start ↦
            let want = to -ℤ from +ℤ pos 1 in
            let shadowed = count_shadowed from to (drop start surface) in
            if beq_ℤ (pos shadowed) want
            then ok (take start surface ++ replacement ∷ drop (start + shadowed) surface)
            else err (partly_on_surface from to shadowed want)
      ]

  messages_of : List (Node M) → List M
  messages_of [] = []
  messages_of (n ∷ nodes) = elim n.message [
    | none ↦ messages_of nodes
    | some m ↦ m ∷ messages_of nodes
  ]

module _ {ℓ} {M D : Type ℓ} where
  unfoldable pub new_log : String → Log M D
  new_log id = record {
    id = id;
    closed = false;
    seq = 0;
    events = [];
    surface = [];
    watches = [];
    next_id = 0;
  }

  abbrev pub node_of : Event M D → Node M
  node_of e = record { seq = e.seq; kind = e.kind; message = e.message }

  pub apply_replace : Event M D → Log M D → Result LogError (Log M D)
  unfolding apply_replace_scratch
  apply_replace e l = elim (apply_replace_scratch l.surface e.source_from e.source_to (node_of e)) [
    | err fault ↦ err fault
    | ok next ↦ ok (record l { surface = next })
  ]

  pub notify : Event M D → Log M D → Log M D
  notify e l = record l { watches = map (λ w. (w.0, w.1 ++ e ∷ [])) l.watches }

  -- The switch on the surface of an event that is committed already.
  pub surfaced : SurfaceOp → Event M D → Log M D → Log M D × Result LogError (Event M D)
  unfolding apply_replace notify
  surfaced appends e l = (notify e (record l { surface = l.surface ++ node_of e ∷ [] }), ok e)
  surfaced replaces e l = elim (apply_replace e l) [
    | err fault ↦
        (record l { seq = l.seq - 1; events = take (length l.events - 1) l.events }, err fault)
    | ok l' ↦ (notify e l', ok e)
  ]
  surfaced log_only e l = (notify e l, ok e)
  surfaced (other n) e l = (notify e l, ok e)

  pub append : Event M D → Log M D → Log M D × Result LogError (Event M D)
  unfolding surfaced
  append e l =
      if l.closed
      then (l, err closed_log)
      else if not (beq_ℤ e.seq (pos 0))
      then (l, err seq_assigned)
      else (let committed = record e { seq = pos (l.seq + 1) } in
          surfaced e.surface committed
            (record l { seq = l.seq + 1; events = l.events ++ committed ∷ [] }))

  -- The first loop of `Restore`: the events from index i on.
  pub check_seqs : ℕ → List (Event M D) → Option LogError
  check_seqs i [] = none
  check_seqs i (e ∷ events) =
      if beq_ℤ e.seq (pos (i + 1)) then check_seqs (i + 1) events else some (not_contiguous i e.seq)

  pub replay_event : SurfaceOp → Event M D → List (Node M) → Result LogError (List (Node M))
  unfolding apply_replace_scratch
  replay_event appends e scratch = ok (scratch ++ node_of e ∷ [])
  replay_event replaces e scratch =
      apply_replace_scratch scratch e.source_from e.source_to (node_of e)
  replay_event log_only e scratch = ok scratch
  replay_event (other n) e scratch = ok scratch

  -- The second loop of `Restore`.
  pub rebuild : List (Node M) → List (Event M D) → Result LogError (List (Node M))
  unfolding replay_event
  rebuild scratch [] = ok scratch
  rebuild scratch (e ∷ events) = elim (replay_event e.surface e scratch) [
    | err fault ↦ err (rebuild_failed fault)
    | ok scratch' ↦ rebuild scratch' events
  ]

  pub restore : List (Event M D) → Log M D → Log M D × Option LogError
  unfolding check_seqs rebuild
  restore events l =
      if l.closed
      then (l, some closed_log)
      else if not (nat_beq (length l.events) 0) || not (nat_beq l.seq 0)
      then (l, some not_empty)
      else elim (check_seqs 0 events) [
        | some fault ↦ (l, some fault)
        | none ↦ elim (rebuild [] events) [
          | err fault ↦ (l, some fault)
          | ok scratch ↦ (
            record l { seq = length events; events = l.events ++ events; surface = scratch },
            none,
          )
        ]
      ]

  pub derive_messages : Log M D → List M
  unfolding messages_of
  derive_messages l = messages_of l.surface

  pub surface_seq : Log M D → List ℤ
  surface_seq l = map (λ n. n.seq) l.surface

  -- The new log, and the id that its cancel function holds.
  pub subscribe : Log M D → Log M D × ℕ
  subscribe l =
      let id = (l.next_id + 1) % 2 ^ 64 in
      (record l { next_id = id; watches = insert id [] l.watches }, id)

  -- The cancel function; `done` is its sync.Once.
  pub cancel : (id : ℕ) (done : Bool) → Log M D → Log M D × Bool
  cancel id done l = if done then (l, true) else (record l { watches = remove id l.watches }, true)

  pub close : Log M D → Log M D
  close l = record l { closed = true }

-- What a process does with a log.
pub data Call {ℓ} (M D : Type ℓ) : Type ℓ where
  append_call : Event M D → Call M D
  restore_call : List (Event M D) → Call M D
  subscribe_call : Call M D
  cancel_call : ℕ → Bool → Call M D
  close_call : Call M D

module _ {ℓ} {M D : Type ℓ} where
  pub step : Call M D → Log M D → Log M D
  unfolding append restore subscribe cancel close
  step (append_call e) l = (append e l).0
  step (restore_call events) l = (restore events l).0
  step subscribe_call l = (subscribe l).0
  step (cancel_call id done) l = (cancel id done l).0
  step close_call l = close l

  pub run : List (Call M D) → Log M D → Log M D
  unfolding step
  run [] l = l
  run (c ∷ calls) l = run calls (step c l)
