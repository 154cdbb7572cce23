-- ===== src/Hub/Safety.antt =====
-- Any use of a hub of core/hub/hub.go: no channel is sent on, or closed, after it was closed.
use gocel.Prelude.{
  ℕ, ◌+◌, ◌≡◌, refl, ◌∙◌, true, false, List, [], ◌∷◌, ◌++◌, String, Option, some, length, get_elem?,
  set_elem, get_elem-snoc, remove, nat_eq, string_eq, ◌==◌, Bool-cases, Option-cases, inl, inr,
  drop,
}
use Prim.Native.Nat.{◌^◌, ◌%◌}
use gocel.Prelude.Int.{ℤ}
use gocel.Hub.{
  Hub, Channel, new, retain, publish, subscribe, unsubscribe, receive, forget, Op, publishes,
  subscribes, unsubscribes, receives, forgets, step, run,
}
use gocel.Hub.Channels.{
  Live, Flagged, set_elem-Live, set_elem-Flagged, deliver_each-Live, insert-Live, append-Live,
  append-Flagged, close-Live,
}

module _ {ℓ} {T : Type ℓ} where
  pub record Inv (h : Hub T) : Type ℓ where
    pub live : Live h.channels h.subs
    pub flagged : Flagged h.channels

  subscribe-Inv : (h : Hub T) → Inv h → Inv (subscribe h)
  unfolding subscribe
  subscribe-Inv h v =
      let id = (h.next + 1) % 2 ^ 64 in
      let ch : Channel T = record { id = id; queue = []; closed = false; released = false } in
      record {
        live =
            insert-Live (h.channels ++ ch ∷ []) id (length h.channels) h.subs
              (ch, get_elem-snoc h.channels ch, refl, refl)
              (append-Live h.channels (ch ∷ []) h.subs v.live);
        flagged = append-Flagged h.channels ch refl v.flagged;
      }

  new-Inv : (sub_buffer replay_cap : ℤ) → Inv (new sub_buffer replay_cap)
  unfolding new
  new-Inv sub_buffer replay_cap = record { live = tt; flagged = λ address ch at. absurd (cc at) }

  Kept : Option (Hub T) → Type ℓ
  Kept result = (h : Hub T) × (result ≡ some h) × Inv h

  unsubscribe-Inv : (address : ℕ) (h : Hub T) → Inv h → Kept (unsubscribe address h)
  unfolding Kept unsubscribe
  unsubscribe-Inv address h v = elim (Option-cases (get_elem? h.channels address)) [
    | inl absent ↦ (h, rw (unsubscribe, absent) refl, v)
    | inr (ch, found) ↦ elim (Bool-cases ch.released) [
      | inl again ↦ (h, rw (unsubscribe, found, again) refl, v)
      | inr first ↦ (
        record h {
          subs = remove ch.id h.subs;
          channels = set_elem h.channels address (record ch { closed = true; released = true });
        },
        rw (unsubscribe, found, first, v.flagged address ch found ∙ first) refl,
        record {
          live = close-Live h.channels address ch h.subs found v.live;
          flagged = set_elem-Flagged h.channels address ch _ found refl v.flagged;
        },
      )
    ]
  ]

  receive-Inv : (address : ℕ) (h : Hub T) → Inv h → Inv (receive address h)
  unfolding receive
  receive-Inv address h v = elim (Option-cases (get_elem? h.channels address)) [
    | inl absent ↦ rw (receive, absent) v
    | inr (ch, found) ↦
        rw (receive, found)
          (record {
            live =
                set_elem-Live h.channels address ch (record ch { queue = drop 1 ch.queue }) h.subs
                  found refl refl v.live;
            flagged =
                set_elem-Flagged h.channels address ch _ found (v.flagged address ch found)
                  v.flagged;
          })
  ]

  forget-Inv : (sid : String) (h : Hub T) → Inv h → Inv (forget sid h)
  unfolding forget
  forget-Inv sid h v = elim (Bool-cases (sid == "")) [
    | inl unnamed ↦ rw (forget, unnamed) v
    | inr named ↦ rw (forget, named) (record { live = v.live; flagged = v.flagged })
  ]

module _ {ℓ} {T : Type ℓ} (stream_id : T → String) (seq : T → ℤ) where
  retain-subs : (ev : T) (h : Hub T) → (retain stream_id seq ev h).subs ≡ h.subs
  unfolding retain
  retain-subs ev h = elim (Bool-cases (stream_id ev == "")) [
    | inl unnamed ↦ rw unnamed refl
    | inr named ↦ rw named refl
  ]

  publish-Inv :
      (takes : ℕ → ℕ × ℕ) (ev : T) (h : Hub T) → Inv h → Kept (publish stream_id seq takes ev h)
  unfolding Kept publish
  publish-Inv takes ev h v =
      let (sent, done, keep, flags) =
        deliver_each-Live takes h.sub_buffer ev h.subs h.channels v.live v.flagged in
      (
        record (retain stream_id seq ev h) { channels = sent },
        rw (publish, done) refl,
        record { live = rw (retain-subs ev h) (keep h.subs v.live); flagged = flags },
      )

  step-Inv : (op : Op stream_id seq) (h : Hub T) → Inv h → Kept (step stream_id seq op h)
  unfolding Kept step
  step-Inv (publishes takes ev) h v = publish-Inv takes ev h v
  step-Inv subscribes h v = (subscribe h, refl, subscribe-Inv h v)
  step-Inv (unsubscribes address) h v = unsubscribe-Inv address h v
  step-Inv (receives address) h v = (receive address h, refl, receive-Inv address h v)
  step-Inv (forgets sid) h v = (forget sid h, refl, forget-Inv sid h v)

  run-Inv : (ops : List (Op stream_id seq)) (h : Hub T) → Inv h → Kept (run stream_id seq ops h)
  unfolding Kept run
  run-Inv [] h v = (h, refl, v)
  run-Inv (op ∷ ops) h v =
      let (u, done, w) = step-Inv op h v in
      let (t, rest, x) = run-Inv ops u w in (t, cc (done, rest), x)

  -- From a new hub, publishing, subscribing, unsubscribing, receiving and forgetting in any order
  -- never panics, and each subscriber that is left has an open channel of its id.
  pub run_safe :
      (sub_buffer replay_cap : ℤ) (ops : List (Op stream_id seq))
      → (h : Hub T) × (run stream_id seq ops (new sub_buffer replay_cap) ≡ some h)
        × Live h.channels h.subs
  unfolding Kept
  run_safe sub_buffer replay_cap ops =
      let (h, done, v) = run-Inv ops (new sub_buffer replay_cap) (new-Inv sub_buffer replay_cap) in
      (h, done, v.live)
