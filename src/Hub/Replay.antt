-- ===== src/Hub/Replay.antt =====
-- What a late subscriber reads of a stream of core/hub/hub.go.
use gocel.Prelude.{
  subst, ℕ, ◌-◌, ◌≡◌, refl, ap, sym, ◌∙◌, true, false, List, [], ◌∷◌, ◌++◌, String, some, some_inj,
  length, length-append, length-drop, drop-append, drop-drop, drop, filter, lookup, remove,
  lookup-insert, lookup-remove, string_eq, nat_eq, ◌==◌, ltb, if◌then◌else◌, arith, Bool-cases,
  Option-cases, inl, inr, get_elem?, set_elem, subst,
}
use gocel.Prelude.Int.{ℤ, ltb_ℤ}
use gocel.Hub.{
  Hub, or_empty, newest, bound, new, buffered, retain, publish, subscribe, unsubscribe, receive,
  forget, replay, Op, publishes, subscribes, unsubscribes, receives, forgets, step, run,
  deliver_each,
}

module _ {ℓ} {A : Type ℓ} where
  none_over : (limit : ℕ) (xs : List A) → ltb limit (length xs) ≡ false → 0 ≡ length xs - limit
  none_over limit xs few = ground (arith, few)

  pub newest-drop : (limit : ℕ) (xs : List A) → newest limit xs ≡ drop (length xs - limit) xs
  newest-drop limit xs = elim (Bool-cases (ltb limit (length xs))) [
    | inl many ↦ rw many refl
    | inr few ↦ rw few (ap (λ n. drop n xs) (none_over limit xs few))
  ]

  pub newest-snoc :
      (limit : ℕ) (xs : List A) (x : A)
      → newest limit (newest limit xs ++ x ∷ []) ≡ newest limit (xs ++ x ∷ [])
  newest-snoc limit xs x =
      let all = xs ++ x ∷ [] in
      let over = length xs - limit in
      let joined : newest limit xs ++ x ∷ [] ≡ drop over all =
        ap (λ l. l ++ x ∷ []) (newest-drop limit xs)
        ∙ sym (drop-append over xs (x ∷ []) (omega arith)) in
      ap (newest limit) joined
      ∙ newest-drop limit (drop over all)
      ∙ drop-drop (length (drop over all) - limit) over all
      ∙ ap (λ n. drop n all) (omega (arith, length-drop over all, length-append xs (x ∷ [])))
      ∙ sym (newest-drop limit all)

module _ {ℓ} {T : Type ℓ} (stream_id : T → String) (seq : T → ℤ) where
  -- The events of a stream that were published since it was last forgotten, after `past`.
  pub history : String → List T → List (Op stream_id seq) → List T
  history sid past [] = past
  history sid past (publishes takes ev ∷ ops) =
      history sid (if stream_id ev == sid then past ++ ev ∷ [] else past) ops
  history sid past (forgets s ∷ ops) = history sid (if s == sid then [] else past) ops
  history sid past (subscribes ∷ ops) = history sid past ops
  history sid past (unsubscribes address ∷ ops) = history sid past ops
  history sid past (receives address ∷ ops) = history sid past ops

  -- The buffer of a stream holds the newest of the events `past`.
  abbrev Kept : String → List T → ℕ → Hub T → Type ℓ
  Kept sid past limit h =
      (h.replay_cap ≡ limit) × (buffered stream_id seq sid h ≡ newest limit past)

  nothing : (limit : ℕ) → [] ≡ newest {A = T} limit []
  nothing limit = ground arith

  start :
      (sub_buffer replay_cap : ℤ) (sid : String)
      → Kept sid [] (bound replay_cap) (new sub_buffer replay_cap)
  unfolding new lookup
  start sub_buffer replay_cap sid = (refl, nothing (bound replay_cap))

  module _ (sid : String) (named : (sid == "") ≡ false) (limit : ℕ) where
    end-Kept :
        (past : List T) (h h' : Hub T)
        → some h ≡ some h'
        → Kept sid past limit h
        → Kept sid past limit h'
    end-Kept past h h' e = subst (Kept sid past limit) (some_inj.0 e)

    retain-Kept :
        (ev : T) (past : List T) (h : Hub T)
        → Kept sid past limit h
        → Kept sid
            (if stream_id ev == sid then past ++ ev ∷ [] else past)
            limit
            (retain stream_id seq ev h)
    unfolding retain
    retain-Kept ev past h (same, kept) =
        let new_buf = newest h.replay_cap (buffered stream_id seq (stream_id ev) h ++ ev ∷ []) in
        let stored = ap or_empty (lookup-insert (stream_id ev) sid new_buf h.recent) in
        elim (Bool-cases (stream_id ev == sid)) [
          | inl ours ↦
              let here : stream_id ev ≡ sid = (string_eq.beq_iff (stream_id ev) sid).0 ours in
              let there : (stream_id ev == "") ≡ false = ap (λ s. s == "") here ∙ named in
              let now : new_buf ≡ newest limit (past ++ ev ∷ []) =
                rw (here, kept, same) (newest-snoc limit past ev) in
              rw (ours, there) (same, stored ∙ rw ours now)
          | inr other ↦ elim (Bool-cases (stream_id ev == "")) [
            | inl blank ↦ rw (other, blank) (same, kept)
            | inr told ↦ rw (other, told) (same, stored ∙ rw other kept)
          ]
        ]

    forget-Kept :
        (s : String) (past : List T) (h : Hub T)
        → Kept sid past limit h
        → Kept sid (if s == sid then [] else past) limit (forget s h)
    unfolding forget
    forget-Kept s past h (same, kept) =
        let left = ap or_empty (lookup-remove s sid h.recent) in
        elim (Bool-cases (s == sid)) [
          | inl ours ↦
              let here : s ≡ sid = (string_eq.beq_iff s sid).0 ours in
              let there : (s == "") ≡ false = ap (λ t. t == "") here ∙ named in
              rw (ours, there) (same, left ∙ rw ours (nothing limit))
          | inr other ↦ elim (Bool-cases (s == "")) [
            | inl blank ↦ rw (other, blank) (same, kept)
            | inr told ↦ rw (other, told) (same, left ∙ rw other kept)
          ]
        ]

    publish-Kept :
        (takes : ℕ → ℕ × ℕ) (ev : T) (past : List T) (h h' : Hub T)
        → publish stream_id seq takes ev h ≡ some h'
        → Kept sid past limit h
        → Kept sid (if stream_id ev == sid then past ++ ev ∷ [] else past) limit h'
    unfolding publish
    publish-Kept takes ev past h h' done kept =
        elim (Option-cases (deliver_each takes h.sub_buffer ev h.subs h.channels)) [
          | inl panics ↦ absurd (cc (done, panics))
          | inr (channels, sent) ↦
              let same : some (record (retain stream_id seq ev h) { channels = channels })
                  ≡ some h' =
                cc (done, sent) in
              subst (Kept sid _ limit) (some_inj.0 same) (retain-Kept ev past h kept)
        ]

    subscribe-Kept :
        (past : List T) (h : Hub T) → Kept sid past limit h → Kept sid past limit (subscribe h)
    unfolding subscribe
    subscribe-Kept past h kept = kept

    unsubscribe-Kept :
        (address : ℕ) (past : List T) (h h' : Hub T)
        → unsubscribe address h ≡ some h'
        → Kept sid past limit h
        → Kept sid past limit h'
    unfolding unsubscribe
    unsubscribe-Kept address past h h' done kept =
        elim (Option-cases (get_elem? h.channels address)) [
          | inl absent ↦ end-Kept past h h' (cc (done, absent)) kept
          | inr (ch, found) ↦ elim (Bool-cases ch.released) [
            | inl again ↦ end-Kept past h h' (cc (done, found, again)) kept
            | inr first ↦ elim (Bool-cases ch.closed) [
              | inl panics ↦ absurd (cc (done, found, first, panics))
              | inr usable ↦
                  end-Kept past
                    (record h {
                      subs = remove ch.id h.subs;
                      channels =
                          set_elem h.channels address
                            (record ch { closed = true; released = true });
                    })
                    h' (cc (done, found, first, usable)) kept
            ]
          ]
        ]

    receive-Kept :
        (address : ℕ) (past : List T) (h : Hub T)
        → Kept sid past limit h
        → Kept sid past limit (receive address h)
    unfolding receive
    receive-Kept address past h kept = elim (Option-cases (get_elem? h.channels address)) [
      | inl absent ↦ rw (absent, receive) kept
      | inr (ch, found) ↦ rw (found, receive) kept
    ]

    run-Kept :
        (ops : List (Op stream_id seq)) (past : List T) (h h' : Hub T)
        → run stream_id seq ops h ≡ some h'
        → Kept sid past limit h
        → Kept sid (history sid past ops) limit h'
    unfolding run step history
    run-Kept [] past h h' done kept = end-Kept past h h' done kept
    run-Kept (publishes takes ev ∷ ops) past h h' done kept =
        elim (Option-cases (publish stream_id seq takes ev h)) [
          | inl panics ↦ absurd (cc (done, panics))
          | inr (u, sent) ↦
              run-Kept ops _ u h' (cc (done, sent)) (publish-Kept takes ev past h u sent kept)
        ]
    run-Kept (subscribes ∷ ops) past h h' done kept =
        run-Kept ops past (subscribe h) h' done (subscribe-Kept past h kept)
    run-Kept (unsubscribes address ∷ ops) past h h' done kept =
        elim (Option-cases (unsubscribe address h)) [
          | inl panics ↦ absurd (cc (done, panics))
          | inr (u, gone) ↦
              run-Kept ops past u h' (cc (done, gone)) (unsubscribe-Kept address past h u gone kept)
        ]
    run-Kept (receives address ∷ ops) past h h' done kept =
        run-Kept ops past (receive address h) h' done (receive-Kept address past h kept)
    run-Kept (forgets s ∷ ops) past h h' done kept =
        run-Kept ops _ (forget s h) h' done (forget-Kept s past h kept)

  -- After any run of a new hub, Replay of a stream with a name returns, of its events since it
  -- was last forgotten, the last ones within the bound, and of these the ones with a number above
  -- the one given, in the order of publication.
  pub replay_lem :
      (sub_buffer replay_cap after_seq : ℤ) (ops : List (Op stream_id seq)) (sid : String)
      (h : Hub T)
      → run stream_id seq ops (new sub_buffer replay_cap) ≡ some h
      → (sid == "") ≡ false
      → replay stream_id seq sid after_seq h ≡ (
          let past = history sid [] ops in
          filter (λ ev. ltb_ℤ after_seq (seq ev)) (drop (length past - bound replay_cap) past))
  unfolding replay
  replay_lem sub_buffer replay_cap after_seq ops sid h ran named =
      let (_, kept) =
        run-Kept sid named (bound replay_cap) ops [] _ h ran (start sub_buffer replay_cap sid) in
      let past = history sid [] ops in
      rw named
        (ap (filter (λ ev. ltb_ℤ after_seq (seq ev))) (kept ∙ newest-drop (bound replay_cap) past))
