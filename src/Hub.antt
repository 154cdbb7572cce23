-- ===== src/Hub.antt =====
-- core/hub/hub.go. The mutex makes each method one step, between steps of the consumers. Channels
-- are a store, a list by their addresses; `subs` maps ids to addresses. `none` is Go's panic on a
-- closed channel. The receiver is not nil: the early returns for a nil hub are left out.
pub mod Replay
pub mod Channels
pub mod Safety
pub mod Delivery
mod Tests
use gocel.Prelude.{
  ℕ, suc, ◌+◌, ◌-◌, Bool, true, false, List, [], ◌∷◌, ◌++◌, String, Option, none, some, length,
  drop, filter, get_elem?, set_elem, lookup, insert, remove, string_eq, nat_eq, ◌==◌, ltb,
  if◌then◌else◌,
}
use Prim.Native.Nat.{◌^◌, ◌%◌}
use gocel.Prelude.Int.{ℤ, pos, pos_part, ltb_ℤ, leb_ℤ}

-- A channel of one subscriber, with what its unsubscribe function holds: the id, and the sync.Once.
pub record Channel {ℓ} (T : Type ℓ) : Type ℓ where
  pub id : ℕ
  pub queue : List T
  pub closed : Bool
  pub released : Bool

pub record Hub {ℓ} (T : Type ℓ) : Type ℓ where
  pub next : ℕ
  pub subs : List (ℕ × ℕ)
  pub channels : List (Channel T)
  pub recent : List (String × List T)
  pub sub_buffer : ℕ
  pub replay_cap : ℕ

abbrev pub bound : ℤ → ℕ
bound n = if leb_ℤ n (pos 0) then 512 else pos_part n

abbrev pub newest {ℓ} : {A : Type ℓ} → ℕ → List A → List A
newest limit xs = if ltb limit (length xs) then drop (length xs - limit) xs else xs

-- Go reads a missing key as an empty slice.
abbrev pub or_empty {ℓ} : {A : Type ℓ} → Option (List A) → List A
or_empty none = []
or_empty (some xs) = xs

-- One event for one channel, after which the queue holds it. `between` and `after` are the events
-- that the consumer takes between the first and the second `select`, and between the last two.
abbrev pub offer {ℓ} : {A : Type ℓ} → ℕ → ℕ → ℕ → A → List A → List A
offer limit between after ev queue =
    if ltb (length queue) limit
    then queue ++ ev ∷ []
    else (let left = drop after (drop 1 (drop between queue)) in
        if ltb (length left) limit then left ++ ev ∷ [] else left)

module _ {ℓ} {T : Type ℓ} where
  -- `New` with the bounds that its options leave.
  pub new : (sub_buffer replay_cap : ℤ) → Hub T
  new sub_buffer replay_cap = record {
    next = 0;
    subs = [];
    channels = [];
    recent = [];
    sub_buffer = bound sub_buffer;
    replay_cap = bound replay_cap;
  }

  -- The loop of `Publish` over the subscribers. `takes` is what each consumer takes meanwhile.
  pub deliver_each :
      (ℕ → ℕ × ℕ) → ℕ → T → List (ℕ × ℕ) → List (Channel T) → Option (List (Channel T))
  deliver_each takes limit ev [] channels = some channels
  deliver_each takes limit ev ((id, address) ∷ subs) channels = elim (get_elem? channels address) [
    | none ↦ none
    | some ch ↦
        let (between, after) = takes address in
        let sent = record ch { queue = offer limit between after ev ch.queue } in
        let rest = deliver_each takes limit ev subs (set_elem channels address sent) in
        if ch.closed then none else rest
  ]

  pub subscribe : Hub T → Hub T
  subscribe h =
      let id = (h.next + 1) % 2 ^ 64 in
      record h {
        next = id;
        channels =
            h.channels ++ record { id = id; queue = []; closed = false; released = false } ∷ [];
        subs = insert id (length h.channels) h.subs;
      }

  -- The function that `Subscribe` returned with the channel at `address`.
  pub unsubscribe : ℕ → Hub T → Option (Hub T)
  unsubscribe address h = elim (get_elem? h.channels address) [
    | none ↦ some h
    | some ch ↦
        if ch.released
        then some h
        else if ch.closed
        then none
        else some (record h {
          subs = remove ch.id h.subs;
          channels = set_elem h.channels address (record ch { closed = true; released = true });
        })
  ]

  -- The consumer takes the oldest event of its channel, if there is one.
  pub receive : ℕ → Hub T → Hub T
  receive address h = elim (get_elem? h.channels address) [
    | none ↦ h
    | some ch ↦ record h {
      channels = set_elem h.channels address (record ch { queue = drop 1 ch.queue });
    }
  ]

  pub forget : String → Hub T → Hub T
  forget sid h = if sid == "" then h else record h { recent = remove sid h.recent }

  pub len : Hub T → ℕ
  len h = length h.subs

-- `Event`: the stream of an event and its number there.
module _ {ℓ} {T : Type ℓ} (stream_id : T → String) (seq : T → ℤ) where
  abbrev pub buffered : String → Hub T → List T
  buffered sid h = or_empty (lookup sid h.recent)

  pub retain : T → Hub T → Hub T
  retain ev h =
      let sid = stream_id ev in
      if sid == "" then h else record h {
        recent = insert sid (newest h.replay_cap (buffered sid h ++ ev ∷ [])) h.recent;
      }

  pub publish : (ℕ → ℕ × ℕ) → T → Hub T → Option (Hub T)
  unfolding retain deliver_each
  publish takes ev h = elim (deliver_each takes h.sub_buffer ev h.subs h.channels) [
    | none ↦ none
    | some channels ↦ some (record (retain ev h) { channels = channels })
  ]

  pub replay : String → ℤ → Hub T → List T
  replay sid after_seq h =
      if sid == "" then [] else filter (λ ev. ltb_ℤ after_seq (seq ev)) (buffered sid h)

  -- What a process does with a hub.
  pub data Op : Type ℓ where
    publishes : (ℕ → ℕ × ℕ) → T → Op
    subscribes : Op
    unsubscribes : ℕ → Op
    receives : ℕ → Op
    forgets : String → Op

  pub step : Op → Hub T → Option (Hub T)
  unfolding publish subscribe unsubscribe receive forget
  step (publishes takes ev) h = publish takes ev h
  step subscribes h = some (subscribe h)
  step (unsubscribes address) h = unsubscribe address h
  step (receives address) h = some (receive address h)
  step (forgets sid) h = some (forget sid h)

  pub run : List Op → Hub T → Option (Hub T)
  unfolding step
  run [] h = some h
  run (op ∷ ops) h = elim (step op h) [ none ↦ none | some h' ↦ run ops h' ]
