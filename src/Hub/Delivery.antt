-- ===== src/Hub/Delivery.antt =====
-- What `Publish` of core/hub/hub.go leaves in the queue of one subscriber.
use gocel.Prelude.{
  ℕ, ◌+◌, ◌-◌, ◌≤◌, ◌<◌, ◌≡◌, refl, ap, sym, ◌∙◌, true, false, List, [], ◌∷◌, ◌++◌, length,
  length-append, length-drop, drop, drop-append, drop-drop, ltb, arith, Bool-cases, inl, inr,
}
use gocel.Hub.{newest, offer}
use gocel.Hub.Replay.{newest-drop}

module _ {ℓ} {A : Type ℓ} where
  -- The queue with the new event, if no more were dropped or taken than `Publish` and the consumer do.
  abbrev pub Queued : (limit gone : ℕ) (ev : A) (queue after : List A) → Type ℓ
  Queued limit gone ev queue after =
      (n : ℕ) × (n ≤ gone) × (after ≡ drop n queue ++ ev ∷ []) × (length after ≤ limit)

  -- For a queue within a capacity above 0: whatever the consumer takes meanwhile, the new event
  -- is the last of the queue, the queue stays within its capacity, and before the event the queue
  -- lost, from its front, no more events than the consumer could take and one.
  pub offer_lem :
      (limit between after : ℕ) (ev : A) (queue : List A)
      → 0 < limit
      → length queue ≤ limit
      → Queued limit (between + after + 1) ev queue (offer limit between after ev queue)
  offer_lem limit between after ev queue h l =
      let left : drop after (drop 1 (drop between queue)) ≡ drop (between + 1 + after) queue =
        ap (drop after) (drop-drop 1 between queue) ∙ drop-drop after (between + 1) queue in
      let short : (n : ℕ) → length queue < limit + n → length (drop n queue ++ ev ∷ []) ≤ limit =
        λ n m. omega (arith, length-append (drop n queue) (ev ∷ []), length-drop n queue) in
      elim (Bool-cases (ltb (length queue) limit)) [
        | inl room ↦ (0, omega arith, rw room refl, rw room (short 0 (ground (arith, room))))
        | inr full ↦
            let less : ltb (length (drop after (drop 1 (drop between queue)))) limit ≡ true =
              ground (arith, ap length left, length-drop (between + 1 + after) queue) in
            (
              between + 1 + after,
              omega arith,
              rw (full, less) (ap (λ l. l ++ ev ∷ []) left),
              rw (full, less) (rw left (short (between + 1 + after) (omega arith))),
            )
      ]

  none_over :
      (limit : ℕ) (queue : List A) (ev : A)
      → ltb (length queue) limit ≡ true
      → 0 ≡ length (queue ++ ev ∷ []) - limit
  none_over limit queue ev room = ground (arith, room, length-append queue (ev ∷ []))

  one_over :
      (limit : ℕ) (queue : List A) (ev : A)
      → ltb (length queue) limit ≡ false
      → length queue ≤ limit
      → length (queue ++ ev ∷ []) - limit ≡ 1
  one_over limit queue ev full l = ground (arith, full, length-append queue (ev ∷ []))

  -- If the consumer takes nothing, the queue is the newest of its events and the new one, as many as
  -- it has room for.
  pub offer-newest :
      (limit : ℕ) (ev : A) (queue : List A)
      → 0 < limit
      → length queue ≤ limit
      → offer limit 0 0 ev queue ≡ newest limit (queue ++ ev ∷ [])
  offer-newest limit ev queue h l = elim (Bool-cases (ltb (length queue) limit)) [
    | inl room ↦
        rw room (ap (λ n. drop n (queue ++ ev ∷ [])) (none_over limit queue ev room))
        ∙ sym (newest-drop limit (queue ++ ev ∷ []))
    | inr full ↦
        let less : ltb (length (drop 1 queue)) limit ≡ true = ground (arith, length-drop 1 queue) in
        rw (full, less)
          (sym (drop-append 1 queue (ev ∷ []) (ground (arith, full)))
            ∙ ap (λ n. drop n (queue ++ ev ∷ [])) (sym (one_over limit queue ev full l))
            ∙ sym (newest-drop limit (queue ++ ev ∷ [])))
  ]
