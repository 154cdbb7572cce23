-- ===== src/Hub/Channels.antt =====
-- The channels of core/hub/hub.go: which are open, and that they stay so while events are sent.
use gocel.Prelude.{
  ℕ, suc, zero, ◌≡◌, refl, ap, sym, ◌∙◌, true, false, List, [], ◌∷◌, ◌++◌, none, some, some_inj,
  get_elem?, set_elem, get_elem-set_elem, get_elem-append, insert, remove, nat_eq, string_eq, Bool,
  ◌==◌, nat_beq, nat_beq_iff, if◌then◌else◌, arith, Bool-cases, inl, inr, subst,
}
use gocel.Hub.{Channel, offer, deliver_each}

if_false {ℓ} : {A : Type ℓ} (b : Bool) (x y : A) → b ≡ false → (if b then x else y) ≡ y
if_false b x y h = rw h refl

module _ {ℓ} {T : Type ℓ} where
  -- The channel at an address, with its id, not closed.
  abbrev pub Ready : List (Channel T) → ℕ → ℕ → Type ℓ
  Ready channels id address =
      (ch : Channel T) × (get_elem? channels address ≡ some ch) × (ch.id ≡ id) × (ch.closed ≡ false)

  abbrev pub Live : List (Channel T) → List (ℕ × ℕ) → Type ℓ
  Live channels [] = Unit
  Live channels ((id, address) ∷ subs) = Ready channels id address × Live channels subs

  -- A channel is closed exactly by its unsubscribe function.
  abbrev pub Flagged : List (Channel T) → Type ℓ
  Flagged channels =
      (address : ℕ) (ch : Channel T)
      → get_elem? channels address ≡ some ch
      → ch.closed ≡ ch.released

  set_elem-Ready :
      (channels : List (Channel T)) (n : ℕ) (old ch : Channel T) (id address : ℕ)
      → get_elem? channels n ≡ some old
      → ch.id ≡ old.id
      → ch.closed ≡ old.closed
      → Ready channels id address
      → Ready (set_elem channels n ch) id address
  set_elem-Ready channels n old ch id address found same_id same_closed (c, at, its_id, usable) =
      elim (Bool-cases (nat_beq n address)) [
        | inl hit ↦
            let here : some c ≡ some old =
              sym at ∙ ap (get_elem? channels) (sym ((nat_beq_iff n address).0 hit)) ∙ found in
            let same : c ≡ old = some_inj.0 here in
            (
              ch,
              get_elem-set_elem channels n address old ch found ∙ rw hit refl,
              same_id ∙ ap (λ x. x.id) (sym same) ∙ its_id,
              same_closed ∙ ap (λ x. x.closed) (sym same) ∙ usable,
            )
        | inr miss ↦
            (c, get_elem-set_elem channels n address old ch found ∙ rw miss at, its_id, usable)
      ]

  pub set_elem-Live :
      (channels : List (Channel T)) (n : ℕ) (old ch : Channel T) (subs : List (ℕ × ℕ))
      → get_elem? channels n ≡ some old
      → ch.id ≡ old.id
      → ch.closed ≡ old.closed
      → Live channels subs
      → Live (set_elem channels n ch) subs
  set_elem-Live channels n old ch [] found same_id same_closed v = v
  set_elem-Live channels n old ch ((id, address) ∷ subs) found same_id same_closed (r, v) = (
    set_elem-Ready channels n old ch id address found same_id same_closed r,
    set_elem-Live channels n old ch subs found same_id same_closed v,
  )

  pub set_elem-Flagged :
      (channels : List (Channel T)) (n : ℕ) (old ch : Channel T)
      → get_elem? channels n ≡ some old
      → ch.closed ≡ ch.released
      → Flagged channels
      → Flagged (set_elem channels n ch)
  set_elem-Flagged channels n old ch found flags v address c at =
      elim (Bool-cases (nat_beq n address)) [
        | inl hit ↦
            let stored : get_elem? (set_elem channels n ch) address ≡ some ch =
              get_elem-set_elem channels n address old ch found ∙ rw hit refl in
            let same : ch ≡ c = some_inj.0 (sym stored ∙ at) in
            subst (λ x. x.closed ≡ x.released) same flags
        | inr miss ↦
            v address c
              (sym (get_elem-set_elem channels n address old ch found ∙ rw miss refl) ∙ at)
      ]

  deliver_each-cons :
      (takes : ℕ → ℕ × ℕ) (limit : ℕ) (ev : T) (id address : ℕ) (subs : List (ℕ × ℕ))
      (channels : List (Channel T)) (ch : Channel T)
      → get_elem? channels address ≡ some ch
      → ch.closed ≡ false
      → let (between, after) = takes address in
        deliver_each takes limit ev ((id, address) ∷ subs) channels
        ≡ deliver_each takes limit ev subs (
            set_elem channels address (record ch { queue = offer limit between after ev ch.queue }))
  unfolding deliver_each
  deliver_each-cons takes limit ev id address subs channels ch found usable =
      rw (deliver_each, found) (if_false ch.closed none _ usable)

  pub deliver_each-Live :
      (takes : ℕ → ℕ × ℕ) (limit : ℕ) (ev : T) (subs : List (ℕ × ℕ)) (channels : List (Channel T))
      → Live channels subs
      → Flagged channels
      → (sent : List (Channel T)) × (deliver_each takes limit ev subs channels ≡ some sent)
        × ((all : List (ℕ × ℕ)) → Live channels all → Live sent all)
        × Flagged sent
  unfolding deliver_each
  deliver_each-Live takes limit ev [] channels v w = (channels, refl, λ all live. live, w)
  deliver_each-Live takes limit ev ((id, address) ∷ subs) channels ((ch, found, its_id, usable), v)
        w =
      let (between, after) = takes address in
      let sent_to = record ch { queue = offer limit between after ev ch.queue } in
      let (sent, done, keep, flags) =
        deliver_each-Live takes limit ev subs (set_elem channels address sent_to)
          (set_elem-Live channels address ch sent_to subs found refl refl v)
          (set_elem-Flagged channels address ch sent_to found (w address ch found) w) in
      (
        sent,
        deliver_each-cons takes limit ev id address subs channels ch found usable ∙ done,
        λ all live. keep all (set_elem-Live channels address ch sent_to all found refl refl live),
        flags,
      )

  pub insert-Live :
      (channels : List (Channel T)) (id address : ℕ) (subs : List (ℕ × ℕ))
      → Ready channels id address
      → Live channels subs
      → Live channels (insert id address subs)
  unfolding insert
  insert-Live channels id address [] r v = (r, tt)
  insert-Live channels id address ((j, a) ∷ subs) r (q, v) = elim (Bool-cases (j == id)) [
    | inl same ↦ rw same (r, v)
    | inr other ↦ rw other (q, insert-Live channels id address subs r v)
  ]

  pub append-Live :
      (channels more : List (Channel T)) (subs : List (ℕ × ℕ))
      → Live channels subs
      → Live (channels ++ more) subs
  append-Live channels more [] v = v
  append-Live channels more ((id, address) ∷ subs) ((ch, found, its_id, usable), v) = (
    (ch, get_elem-append channels more address ch found, its_id, usable),
    append-Live channels more subs v,
  )

  pub append-Flagged :
      (channels : List (Channel T)) (ch : Channel T)
      → ch.closed ≡ ch.released
      → Flagged channels
      → Flagged (channels ++ ch ∷ [])
  append-Flagged [] ch flags v zero c at = subst (λ x. x.closed ≡ x.released) (some_inj.0 at) flags
  append-Flagged [] ch flags v (suc n) c at = absurd (cc at)
  append-Flagged (x ∷ channels) ch flags v zero c at = v zero c at
  append-Flagged (x ∷ channels) ch flags v (suc n) c at =
      append-Flagged channels ch flags (λ k. v (suc k)) n c at

  -- Closing a channel takes its id out of `subs`, so the channels that are left stay open.
  pub close-Live :
      (channels : List (Channel T)) (n : ℕ) (ch : Channel T) (subs : List (ℕ × ℕ))
      → get_elem? channels n ≡ some ch
      → Live channels subs
      → Live
          (set_elem channels n (record ch { closed = true; released = true }))
          (remove ch.id subs)
  unfolding remove
  close-Live channels n ch [] found v = v
  close-Live channels n ch ((id, address) ∷ subs) found ((c, at, its_id, usable), v) =
      elim (Bool-cases (id == ch.id)) [
        | inl same ↦ rw same (close-Live channels n ch subs found v)
        | inr other ↦ elim (Bool-cases (nat_beq n address)) [
          | inl hit ↦
              let here : some c ≡ some ch =
                sym at ∙ ap (get_elem? channels) (sym ((nat_beq_iff n address).0 hit)) ∙ found in
              absurd (ground (arith, other, its_id, ap (λ x. x.id) (some_inj.0 here)))
          | inr miss ↦ rw other (
            (c, get_elem-set_elem channels n address ch _ found ∙ rw miss at, its_id, usable),
            close-Live channels n ch subs found v,
          )
        ]
      ]
