-- ===== src/Permission/Audit.antt =====
-- module/permission/permission.go: what a call asks and reports, and how that fits its verdict.
use gocel.Prelude.{
  ◌≡◌, refl, sym, ◌∙◌, subst, Bool, true, false, not, List, [], ◌∷◌, String, Option, none, some,
  inl, inr, Option-cases, Result-cases, Bool-cases, ◌&&◌,
}
use gocel.Permission.{
  request_for, or_fallback, fault_text, session_decision, Fault, Module, CallInfo, Request, Act,
  Verdict, Policy, Decision, Refusal, Containment, asked, allowed, refused, fits, fire, decide,
  answered, feedback_of, contained_by, contain, contain_paths, check_file, should_ask, has_effect,
  effect_write, after_containment, delegated_rest, session_rest, policy_decision, on_tool_call,
  auto, ask, allowed_once, deny, other, Answer,
}
use gocel.Permission.Needs.{
  is_delegated, Consents, because, requested, requested-session, requested-delegated,
}

-- What a call did, with its verdict: nothing and allowed; one denial reported and refused; nobody to
-- ask; or the host asked once about the call, with a report and a verdict that follow its answer.
-- `delegated` calls do not ask.
pub data Audited (host : Option (Request → Answer)) (info : CallInfo) (req : Request)
    : (delegated : Bool) → List Act × Verdict → Type 0 where
  silent : (delegated : Bool) → Audited host info req delegated ([], allowed)
  denies :
      (delegated : Bool) (reason : String) (why : Refusal)
      → Audited host info req delegated (fire info "policy_deny" reason ∷ [], refused why)
  unanswered :
      (reason : String) (why : Refusal)
      → host ≡ none
      → Audited host info req false (fire info "rejected" reason ∷ [], refused why)
  grants :
      (asker : Request → Answer) (reason : String)
      → host ≡ some asker
      → Consents (asker (because reason req))
      → Audited host info req false
          (asked (because reason req) ∷ fire info "approved" reason ∷ [], allowed)
  rejects :
      (asker : Request → Answer) (reason reported : String) (why : Refusal)
      → host ≡ some asker
      → ¬ Consents (asker (because reason req))
      → Audited host info req false
          (asked (because reason req) ∷ fire info "rejected" reported ∷ [], refused why)

data Contained (host : Option (Request → Answer)) (info : CallInfo) (req : Request)
    : (delegated : Bool) → List Act × Containment → Type 0 where
  opened : (delegated : Bool) → Contained host info req delegated ([], fits)
  closes :
      (delegated : Bool) (acts : List Act) (verdict : Verdict)
      → Audited host info req delegated (acts, verdict)
      → Contained host info req delegated (acts, contained_by verdict)

-- A denial that says why is no consent.
feedback-refuses : (a : Answer) (text : String) → feedback_of a ≡ some text → ¬ Consents a
unfolding feedback_of
feedback-refuses a text h (clean, there, which) =
    let quiet : feedback_of a ≡ none = rw (feedback_of, clean) refl in
    let bad : none ≡ some text = sym quiet ∙ h in absurd (cc bad)

module _ (info : CallInfo) (req : Request) (asker : Request → Answer) (reason : String) where
  -- What comes of an answer to this request.
  abbrev Follows : Answer → Type 0
  Follows a =
      asker (because reason req) ≡ a
      → Audited (some asker) info req false (
          let (act, verdict) = answered info reason a in
          (asked (because reason req) ∷ act ∷ [], verdict))

  refusal :
      (a : Answer)
      → asker (because reason req) ≡ a
      → ¬ Consents a
      → ¬ Consents (asker (because reason req))
  refusal a f against c = against (subst Consents f c)

  decision-Follows :
      (d : Decision) → Follows (record { decision = d; error = none; cancelled = none })
  unfolding answered
  decision-Follows auto f = grants asker reason refl (subst Consents (sym f) (refl, refl, inl refl))
  decision-Follows allowed_once f =
      grants asker reason refl (subst Consents (sym f) (refl, refl, inr refl))
  decision-Follows ask f = rejects asker reason _ _ refl (refusal _ f no_consent)
    where
      no_consent : ¬ Consents (record { decision = ask; error = none; cancelled = none })
      no_consent (e, c, inl x) = absurd (cc x)
      no_consent (e, c, inr x) = absurd (cc x)
  decision-Follows deny f = rejects asker reason _ _ refl (refusal _ f no_consent)
    where
      no_consent : ¬ Consents (record { decision = deny; error = none; cancelled = none })
      no_consent (e, c, inl x) = absurd (cc x)
      no_consent (e, c, inr x) = absurd (cc x)
  decision-Follows (other n) f = rejects asker reason _ _ refl (refusal _ f no_consent)
    where
      no_consent : ¬ Consents (record { decision = other n; error = none; cancelled = none })
      no_consent (e, c, inl x) = absurd (cc x)
      no_consent (e, c, inr x) = absurd (cc x)

  answered-Follows :
      (d : Decision) (error cancelled : Option Fault)
      → Follows (record { decision = d; error = error; cancelled = cancelled })
  unfolding answered
  answered-Follows d (some fault) cancelled f =
      rejects asker reason _ _ refl (refusal _ f (λ (e, k, which). absurd (cc e)))
  answered-Follows d none (some fault) f =
      rejects asker reason _ _ refl (refusal _ f (λ (e, k, which). absurd (cc k)))
  answered-Follows d none none f = decision-Follows d f

module _ (m : Module) (info : CallInfo) (req : Request) where
  decide-Audited : (reason : String) → Audited m.asker info req false (decide m info req reason)
  unfolding decide
  decide-Audited reason = elim (Option-cases m.asker) [
    | inl e ↦ rw (e, decide) (unanswered _ _ refl)
    | inr (asker, e) ↦
        let a = asker (because reason req) in
        elim (Option-cases (feedback_of a)) [
          | inr (text, f) ↦
              rw (e, decide, f) (rejects asker reason _ _ refl (feedback-refuses a text f))
          | inl f ↦
              rw (e, decide, f)
                (answered-Follows info req asker reason a.decision a.error a.cancelled refl)
        ]
  ]

  -- Only a call that is not delegated is escalated.
  host_settles :
      (delegated asks : Bool) (reason : String)
      → (not delegated && asks) ≡ true
      → Contained m.asker info req delegated
          (let (acts, verdict) = decide m info req reason in (acts, contained_by verdict))
  host_settles false asks reason h = closes false _ _ (decide-Audited reason)
  host_settles true asks reason h = absurd (cc h)

  contain_paths-Contained :
      (delegated : Bool) (paths : List String)
      → Contained m.asker info req delegated (contain_paths m info req (not delegated) paths)
  unfolding contain_paths
  contain_paths-Contained delegated [] = opened delegated
  contain_paths-Contained delegated (path ∷ paths) = elim (Option-cases (check_file m path)) [
    | inl e ↦ rw (contain_paths, e) (contain_paths-Contained delegated paths)
    | inr (fault, e) ↦ elim (Bool-cases (not delegated && should_ask m req)) [
      | inl asks ↦
          rw (contain_paths, e, asks)
            (host_settles delegated (should_ask m req) (fault_text fault) asks)
      | inr hard ↦ rw (contain_paths, e, hard) (closes delegated _ _ (denies delegated _ _))
    ]
  ]

  contain-Contained :
      (delegated : Bool) → Contained m.asker info req delegated (contain m info req (not delegated))
  unfolding contain
  contain-Contained delegated = elim (Bool-cases (has_effect req.effects effect_write)) [
    | inr reads ↦ rw (contain, reads) (opened delegated)
    | inl writes ↦ elim (Result-cases (m.paths info.name info.args)) [
      | inl (paths, e) ↦ rw (contain, writes, e) (contain_paths-Contained delegated paths)
      | inr (fault, e) ↦ rw (contain, writes, e) (closes delegated _ _ (denies delegated _ _))
    ]
  ]

  after_containment-Audited :
      (delegated : Bool) (c : List Act × Containment) (rest : List Act × Verdict)
      → Contained m.asker info req delegated c
      → Audited m.asker info req delegated rest
      → Audited m.asker info req delegated (after_containment c rest)
  unfolding after_containment contained_by
  after_containment-Audited delegated _ rest (opened _) r = r
  after_containment-Audited delegated _ rest (closes _ acts allowed a) r = a
  after_containment-Audited delegated _ rest (closes _ acts (refused why) a) r = a

  delegated_rest-Audited : (d : Decision) → Audited m.asker info req true (delegated_rest info d)
  unfolding delegated_rest
  delegated_rest-Audited auto = silent true
  delegated_rest-Audited allowed_once = silent true
  delegated_rest-Audited ask = denies true _ _
  delegated_rest-Audited deny = denies true _ _
  delegated_rest-Audited (other n) = denies true _ _

  session_decision-Audited :
      (d : Decision) → Audited m.asker info req false (session_decision m info req d)
  unfolding session_decision
  session_decision-Audited auto = silent false
  session_decision-Audited allowed_once = silent false
  session_decision-Audited ask = decide-Audited _
  session_decision-Audited deny = denies false _ _
  session_decision-Audited (other n) = denies false _ _

  session_rest-Audited : Audited m.asker info req false (session_rest m info req)
  unfolding session_rest
  session_rest-Audited = elim (Option-cases m.approval) [
    | inl e ↦ rw (session_rest, e) (decide-Audited _)
    | inr (policy, e) ↦ rw (session_rest, e) (session_decision-Audited (policy_decision policy req))
  ]

pub audited :
    (m : Module) (delegated : Option Policy) (info : CallInfo)
    → Audited m.asker info
        (requested delegated info)
        (is_delegated delegated)
        (on_tool_call m delegated info)
unfolding on_tool_call
audited m none info =
    let req = request_for info (or_fallback info.effects) in
    subst (λ r. Audited m.asker info r false (on_tool_call m none info)) (requested-session info)
      (after_containment-Audited m info req false (contain m info req true)
        (session_rest m info req) (contain-Contained m info req false)
        (session_rest-Audited m info req))
audited m (some policy) info =
    let req = request_for info info.effects in
    subst (λ r. Audited m.asker info r true (on_tool_call m (some policy) info))
      (requested-delegated policy info)
      (after_containment-Audited m info req true (contain m info req false)
        (delegated_rest info (policy_decision policy req)) (contain-Contained m info req true)
        (delegated_rest-Audited m info req (policy_decision policy req)))
