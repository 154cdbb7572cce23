-- ===== src/Permission/Containing.antt =====
-- module/permission/permission.go: what has been checked when a call is allowed.
use gocel.Prelude.{
  ◌∙◌, ap, sym, subst, ◌≡◌, refl, Bool, true, false, not, List, [], ◌∷◌, ◌++◌, String, Option, none,
  some, inl, inr, Option-cases, Result-cases, Bool-cases, ◌&&◌, ◌⊎◌, string_eq, nat_eq,
}
use gocel.Permission.{
  Fault, Module, CallInfo, Request, Act, Verdict, Policy, Decision, Containment, Answer, asked,
  allowed, refused, fits, settled, blocked, decide, answered, feedback_of, contained_by, contain,
  contain_paths, check_file, should_ask, has_effect, effect_write, after_containment,
  delegated_rest, session_rest, policy_decision, on_tool_call, auto, ask, allowed_once, deny, other,
  request_for, or_fallback, session_decision, fault_text,
}
use gocel.Permission.Needs.{
  is_delegated, because, requested, requested-session, requested-delegated, Approved, Passes,
  AllFit, Within, in_force, check_file-Fit, policy_decision-answers,
}

module _ (info : CallInfo) (asker : Request → Answer) (req : Request) (reason : String) where
  answered-Approved :
      (d : Decision) (error cancelled : Option Fault)
      → asker (because reason req) ≡ record { decision = d; error = error; cancelled = cancelled }
      → let (act, verdict) =
          answered info reason (record { decision = d; error = error; cancelled = cancelled }) in
        verdict ≡ allowed → Approved (some asker) info req (asked (because reason req) ∷ act ∷ [])
  unfolding answered
  answered-Approved d (some fault) cancelled f h = absurd (cc h)
  answered-Approved d none (some fault) f h = absurd (cc h)
  answered-Approved auto none none f h = (asker, reason, refl, rw f (refl, refl, inl refl), refl)
  answered-Approved allowed_once none none f h =
      (asker, reason, refl, rw f (refl, refl, inr refl), refl)
  answered-Approved ask none none f h = absurd (cc h)
  answered-Approved deny none none f h = absurd (cc h)
  answered-Approved (other n) none none f h = absurd (cc h)

module _ (m : Module) (info : CallInfo) where
  decide-Approved :
      (req : Request) (reason : String)
      → (decide m info req reason).1 ≡ allowed
      → Approved m.asker info req (decide m info req reason).0
  unfolding decide
  decide-Approved req reason = elim (Option-cases m.asker) [
    | inl e ↦ rw (e, decide) (λ h. absurd (cc h))
    | inr (asker, e) ↦
        let asking : Request = because reason req in
        elim (Option-cases (feedback_of (asker asking))) [
          | inr (text, f) ↦ rw (e, decide, f) (λ h. absurd (cc h))
          | inl f ↦
              rw (e, decide, f)
                (answered-Approved info asker req reason (asker asking).decision
                  (asker asking).error (asker asking).cancelled refl)
        ]
  ]

  -- P, if the containment left the call open; the host's consent, if it settled it.
  Cleared : Request → Type 0 → Bool → List Act × Containment → Type 0
  Cleared req P delegated (acts, fits) = P × (acts ≡ [])
  Cleared req P delegated (acts, settled) = (delegated ≡ false) × Approved m.asker info req acts
  Cleared req P delegated (acts, blocked why) = Unit {0}

  Cleared-map :
      {P Q : Type 0} (req : Request) (delegated : Bool) (c : List Act × Containment)
      → (P → Q)
      → Cleared req P delegated c
      → Cleared req Q delegated c
  unfolding Cleared
  Cleared-map req delegated (acts, fits) f (h, quiet) = (f h, quiet)
  Cleared-map req delegated (acts, settled) f h = h
  Cleared-map req delegated (acts, blocked why) f h = h

  settles-Cleared :
      (req : Request) (P : Type 0) (acts : List Act) (verdict : Verdict)
      → (verdict ≡ allowed → Approved m.asker info req acts)
      → Cleared req P false (acts, contained_by verdict)
  unfolding Cleared contained_by
  settles-Cleared req P acts allowed h = (refl, h refl)
  settles-Cleared req P acts (refused why) h = tt

  host-Cleared :
      (P : Type 0) (req : Request) (delegated asks : Bool) (reason : String)
      → (not delegated && asks) ≡ true
      → Cleared req P delegated
          (let (acts, verdict) = decide m info req reason in (acts, contained_by verdict))
  host-Cleared P req false asks reason h = settles-Cleared req P _ _ (decide-Approved req reason)
  host-Cleared P req true asks reason h = absurd (cc h)

  contain_paths-Cleared :
      (req : Request) (delegated : Bool) (paths : List String)
      → Cleared req (AllFit m paths) delegated (contain_paths m info req (not delegated) paths)
  unfolding contain_paths Cleared
  contain_paths-Cleared req delegated [] = (tt, refl)
  contain_paths-Cleared req delegated (path ∷ paths) = elim (Option-cases (check_file m path)) [
    | inl e ↦
        let rest : List Act × Containment = contain_paths m info req (not delegated) paths in
        let skips : contain_paths m info req (not delegated) (path ∷ paths) ≡ rest =
          rw (contain_paths, e) refl in
        subst (Cleared req (AllFit m (path ∷ paths)) delegated) (sym skips) (
          Cleared-map {P = AllFit m paths} {Q = AllFit m (path ∷ paths)} req delegated rest
            (λ h. (check_file-Fit m path e, h)) (contain_paths-Cleared req delegated paths))
    | inr (fault, e) ↦ elim (Bool-cases (not delegated && should_ask m req)) [
      | inl asks ↦
          rw (contain_paths, e, asks)
            (host-Cleared _ req delegated (should_ask m req) (fault_text fault) asks)
      | inr hard ↦ rw (contain_paths, e, hard) tt
    ]
  ]

  contain-Cleared :
      (req : Request) (delegated : Bool)
      → Cleared req (Within m info req.effects) delegated (contain m info req (not delegated))
  unfolding contain Cleared has_effect
  contain-Cleared req delegated = elim (Bool-cases (has_effect req.effects effect_write)) [
    | inr reads ↦ rw (contain, reads) (inl refl, refl)
    | inl writes ↦ elim (Result-cases (m.paths info.name info.args)) [
      | inl (paths, e) ↦
          let checked : List Act × Containment = contain_paths m info req (not delegated) paths in
          let checks : contain m info req (not delegated) ≡ checked =
            rw (contain, writes, e) refl in
          subst (Cleared req (Within m info req.effects) delegated) (sym checks) (
            Cleared-map {P = AllFit m paths} {Q = Within m info req.effects} req delegated checked
              (λ h. inr (paths, e, h)) (contain_paths-Cleared req delegated paths))
      | inr (fault, e) ↦ rw (contain, writes, e) tt
    ]
  ]

  -- The host's consent, which a delegated call does not ask for, or containment and a policy.
  abbrev pub Sound : Bool → Option Policy → Request → List Act → Type 0
  Sound delegated policy req acts =
      ((delegated ≡ false) × Approved m.asker info req acts)
      ⊎ (Within m info req.effects × Passes policy req)

  abbrev Rested : Bool → Option Policy → Request → List Act × Verdict → Type 0
  Rested delegated policy req rest =
      rest.1 ≡ allowed
      → ((delegated ≡ false) × Approved m.asker info req rest.0) ⊎ Passes policy req

  after_containment-Sound :
      (delegated : Bool) (policy : Option Policy) (req : Request) (c : List Act × Containment)
      (rest : List Act × Verdict)
      → Cleared req (Within m info req.effects) delegated c
      → Rested delegated policy req rest
      → (after_containment c rest).1 ≡ allowed
      → Sound delegated policy req (after_containment c rest).0
  unfolding after_containment Cleared
  after_containment-Sound delegated policy req (acts, fits) rest (within, quiet) r h = elim (r h) [
    | inl (own, consent) ↦
        inl (own, subst (λ x. Approved m.asker info req (x ++ rest.0)) (sym quiet) consent)
    | inr passes ↦ inr (within, passes)
  ]
  after_containment-Sound delegated policy req (acts, settled) rest c r h = inl c
  after_containment-Sound delegated policy req (acts, blocked why) rest c r h = absurd (cc h)

  delegated_rest-Rested :
      (policy : Policy) (req : Request) (d : Decision)
      → policy_decision policy req ≡ d
      → Rested true (some policy) req (delegated_rest info d)
  unfolding delegated_rest
  delegated_rest-Rested policy req auto e h =
      inr (policy, refl, inl (policy_decision-answers policy req auto e (λ k. absurd (cc k))))
  delegated_rest-Rested policy req allowed_once e h =
      inr
        (policy, refl, inr (policy_decision-answers policy req allowed_once e (λ k. absurd (cc k))))
  delegated_rest-Rested policy req ask e h = absurd (cc h)
  delegated_rest-Rested policy req deny e h = absurd (cc h)
  delegated_rest-Rested policy req (other n) e h = absurd (cc h)

  session_decision-Rested :
      (policy : Policy) (req : Request) (d : Decision)
      → policy_decision policy req ≡ d
      → Rested false (some policy) req (session_decision m info req d)
  unfolding session_decision
  session_decision-Rested policy req auto e h =
      inr (policy, refl, inl (policy_decision-answers policy req auto e (λ k. absurd (cc k))))
  session_decision-Rested policy req allowed_once e h =
      inr
        (policy, refl, inr (policy_decision-answers policy req allowed_once e (λ k. absurd (cc k))))
  session_decision-Rested policy req ask e h = inl (refl, decide-Approved req _ h)
  session_decision-Rested policy req deny e h = absurd (cc h)
  session_decision-Rested policy req (other n) e h = absurd (cc h)

  session_rest-Rested : (req : Request) → Rested false m.approval req (session_rest m info req)
  unfolding session_rest
  session_rest-Rested req = elim (Option-cases m.approval) [
    | inl e ↦ rw (session_rest, e) (λ h. inl (refl, decide-Approved req _ h))
    | inr (policy, e) ↦
        rw (session_rest, e) (session_decision-Rested policy req (policy_decision policy req) refl)
  ]

-- An allowed call is not delegated, and the host, asked once about this very call, consented; or
-- the policy in force answers that it passes and, where its effects have a write, its paths are
-- found and each is empty or passes the file policy. A call that is not delegated and names no
-- effects counts as one that writes and executes.
pub allowed-Sound :
    (m : Module) (delegated : Option Policy) (info : CallInfo)
    → (on_tool_call m delegated info).1 ≡ allowed
    → Sound m info
        (is_delegated delegated)
        (in_force m delegated)
        (requested delegated info)
        (on_tool_call m delegated info).0
unfolding on_tool_call
allowed-Sound m none info h =
    let req = request_for info (or_fallback info.effects) in
    subst (λ r. Sound m info false m.approval r (on_tool_call m none info).0)
      (requested-session info)
      (after_containment-Sound m info false m.approval req (contain m info req true)
        (session_rest m info req) (contain-Cleared m info req false)
        (session_rest-Rested m info req) h)
allowed-Sound m (some policy) info h =
    let req = request_for info info.effects in
    subst (λ r. Sound m info true (some policy) r (on_tool_call m (some policy) info).0)
      (requested-delegated policy info)
      (after_containment-Sound m info true (some policy) req (contain m info req false)
        (delegated_rest info (policy_decision policy req)) (contain-Cleared m info req true)
        (delegated_rest-Rested m info policy req (policy_decision policy req) refl) h)

-- unchecked
pub delegated_unchecked :
    (m : Module) (policy : Policy) (info : CallInfo)
    → info.effects ≡ []
    → policy_decision policy (request_for info []) ≡ auto
    → on_tool_call m (some policy) info ≡ ([], allowed)
unfolding on_tool_call contain after_containment delegated_rest
delegated_unchecked m policy info e p =
    ap
      (λ effects.
        after_containment (contain m info (request_for info effects) false)
          (delegated_rest info (policy_decision policy (request_for info effects))))
      e
    ∙ rw p refl
