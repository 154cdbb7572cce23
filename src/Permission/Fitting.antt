-- ===== src/Permission/Fitting.antt =====
-- module/permission/permission.go: calls that are allowed without the host.
use gocel.Prelude.{
  nat_eq, string_eq, contains, ok, ℕ, ◌≢◌, ◌==◌, some_inj, ◌⊎◌, Bool-cases, ◌≡◌, refl, ◌∙◌, Bool,
  true, false, List, [], ◌∷◌, String, Option, none, some, inl, inr, ap, subst, sym,
}
use gocel.Permission.{
  Module, CallInfo, Request, Act, Verdict, Policy, Decision, Containment, allowed, fits, contain,
  contain_paths, after_containment, delegated_rest, session_rest, session_decision, policy_decision,
  on_tool_call, check_file, request_for, or_fallback, auto, allowed_once, has_effect, effect_write,
}
use gocel.Permission.Needs.{
  declared, requested, requested-session, requested-delegated, Fit, AllFit, FilesFit, Within,
  Passes, in_force,
}

module _ (m : Module) (info : CallInfo) where
  Fit-check_file : (path : String) → Fit m path → check_file m path ≡ none
  unfolding check_file
  Fit-check_file path (inl blank) =
      let hit : (path == "") ≡ true = (string_eq.beq_iff path "").1 blank in
      rw (check_file, hit) refl
  Fit-check_file path (inr (check, e, lets)) = elim (Bool-cases (path == "")) [
    | inl blank ↦ rw (check_file, blank) refl
    | inr named ↦ rw (check_file, named, e) lets
  ]

  AllFit-contain_paths :
      (req : Request) (escalate : Bool) (paths : List String)
      → AllFit m paths
      → contain_paths m info req escalate paths ≡ ([], fits)
  unfolding contain_paths
  AllFit-contain_paths req escalate [] h = refl
  AllFit-contain_paths req escalate (path ∷ paths) (e, h) =
      rw (contain_paths, Fit-check_file path e) (AllFit-contain_paths req escalate paths h)

  Within-contain :
      (req : Request) (escalate : Bool)
      → Within m info req.effects
      → contain m info req escalate ≡ ([], fits)
  unfolding contain has_effect
  Within-contain req escalate (inl reads) = rw (contain, reads) refl
  Within-contain req escalate (inr (paths, e, h)) =
      elim (Bool-cases (has_effect req.effects effect_write)) [
        | inl writes ↦ rw (contain, writes, e) (AllFit-contain_paths req escalate paths h)
        | inr reads ↦ rw (contain, reads) refl
      ]

  delegated_passes :
      (d : Decision) → (d ≡ auto) ⊎ (d ≡ allowed_once) → delegated_rest info d ≡ ([], allowed)
  unfolding delegated_rest
  delegated_passes d (inl e) = rw e refl
  delegated_passes d (inr e) = rw e refl

  session_passes :
      (req : Request) (d : Decision)
      → (d ≡ auto) ⊎ (d ≡ allowed_once)
      → session_decision m info req d ≡ ([], allowed)
  unfolding session_decision
  session_passes req d (inl e) = rw e refl
  session_passes req d (inr e) = rw e refl

  -- The decision that a policy's answer stands for.
  passing_decision :
      (p : Policy) (req : Request)
      → (p req ≡ ok auto) ⊎ (p req ≡ ok allowed_once)
      → (policy_decision p req ≡ auto) ⊎ (policy_decision p req ≡ allowed_once)
  unfolding policy_decision
  passing_decision p req (inl e) = inl (rw (policy_decision, e) refl)
  passing_decision p req (inr e) = inr (rw (policy_decision, e) refl)

  session_rest-Passes :
      (req : Request) → Passes m.approval req → session_rest m info req ≡ ([], allowed)
  unfolding session_rest
  session_rest-Passes req (policy, e, h) =
      let chosen : session_rest m info req
          ≡ session_decision m info req (policy_decision policy req) =
        rw (session_rest, e) refl in
      chosen ∙ session_passes req (policy_decision policy req) (passing_decision policy req h)

  after_both :
      (c : List Act × Containment) (rest : List Act × Verdict)
      → c ≡ ([], fits)
      → rest ≡ ([], allowed)
      → after_containment c rest ≡ ([], allowed)
  unfolding after_containment
  after_both c rest e f = ap (λ x. after_containment x rest) e ∙ f

  own_passes :
      {p q : Policy} (req : Request)
      → some p ≡ some q
      → (q req ≡ ok auto) ⊎ (q req ≡ ok allowed_once)
      → (policy_decision p req ≡ auto) ⊎ (policy_decision p req ≡ allowed_once)
  own_passes {p} {q} req e h =
      passing_decision p req
        (subst (λ x. (x req ≡ ok auto) ⊎ (x req ≡ ok allowed_once)) (sym (some_inj.0 e)) h)

  -- A call that declares its effects, none of them a write, or whose paths all fit.
  abbrev pub Harmless : Type 0
  Harmless = ((info.effects ≢ []) × (contains effect_write info.effects ≡ false)) ⊎ FilesFit m info

  Harmless-Within :
      (delegated : Option Policy) → Harmless → Within m info (requested delegated info).effects
  Harmless-Within delegated (inr fit) = inr fit
  Harmless-Within (some policy) (inl (named, reads)) = inl reads
  Harmless-Within none (inl (named, reads)) =
      inl (ap (contains effect_write) (declared_named info.effects named) ∙ reads)
    where
      declared_named : (effects : List ℕ) → effects ≢ [] → declared effects ≡ effects
      declared_named [] h = absurd (h refl)
      declared_named (effect ∷ effects) h = refl

  -- A call that names its effects, none of them a write, or whose paths are found and are all
  -- empty or pass the file policy, and for which the policy in force answers that it passes, is
  -- allowed without asking or reporting anything.
  pub Harmless-allowed :
      (delegated : Option Policy)
      → Harmless
      → Passes (in_force m delegated) (requested delegated info)
      → on_tool_call m delegated info ≡ ([], allowed)
  unfolding on_tool_call
  Harmless-allowed none w p =
      let req = request_for info (or_fallback info.effects) in
      let within =
        subst (λ r. Within m info r.effects) (sym (requested-session info))
          (Harmless-Within none w) in
      let passes = subst (Passes m.approval) (sym (requested-session info)) p in
      after_both (contain m info req true) (session_rest m info req)
        (Within-contain req true within) (session_rest-Passes req passes)
  Harmless-allowed (some policy) w (other, e, h) =
      let req = request_for info info.effects in
      let same = sym (requested-delegated policy info) in
      let within = subst (λ r. Within m info r.effects) same (Harmless-Within (some policy) w) in
      let passes = subst (λ r. (other r ≡ ok auto) ⊎ (other r ≡ ok allowed_once)) same h in
      after_both (contain m info req false) (delegated_rest info (policy_decision policy req))
        (Within-contain req false within)
        (delegated_passes (policy_decision policy req) (own_passes req e passes))
