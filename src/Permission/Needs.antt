-- ===== src/Permission/Needs.antt =====
-- module/permission/permission.go: what a call needs to be allowed, in terms of the host's answer, of
-- the file policy and of the approval policy alone.
use gocel.Prelude.{
  ◌≡◌, ℕ, refl, ap, sym, ◌∙◌, ◌⊎◌, Bool, true, false, List, [], ◌∷◌, String, Option, none, some,
  inl, inr, Option-cases, Result-cases, Bool-cases, ok, contains, string_eq, ◌==◌, nat_eq,
}
use gocel.Permission.{
  request_for, or_fallback, Fault, Module, CallInfo, Request, Act, Policy, Decision, asked, fire,
  check_file, policy_decision, policy_denial, read_only, effect_write, effect_exec, auto,
  allowed_once, deny, Answer,
}

-- The host let this one call through.
abbrev pub Consents : Answer → Type 0
Consents a =
    (a.error ≡ none) × (a.cancelled ≡ none) × ((a.decision ≡ auto) ⊎ (a.decision ≡ allowed_once))

-- The effects of a call of the session: a call that declares none may write and execute.
abbrev pub declared : List ℕ → List ℕ
declared [] = effect_write ∷ effect_exec ∷ []
declared (effect ∷ effects) = effect ∷ effects

-- What is decided about a call.
abbrev pub requested : Option Policy → CallInfo → Request
requested none info = record {
  tool_name = info.name;
  effects = declared info.effects;
  args = info.args;
  reason = "";
}
requested (some policy) info = record {
  tool_name = info.name;
  effects = info.effects;
  args = info.args;
  reason = "";
}

or_fallback-declared : (effects : List ℕ) → or_fallback effects ≡ declared effects
unfolding or_fallback
or_fallback-declared [] = refl
or_fallback-declared (effect ∷ effects) = refl

pub requested-session :
    (info : CallInfo) → request_for info (or_fallback info.effects) ≡ requested none info
unfolding request_for
requested-session info = ap (request_for info) (or_fallback-declared info.effects)

pub requested-delegated :
    (policy : Policy) (info : CallInfo)
    → request_for info info.effects ≡ requested (some policy) info
unfolding request_for
requested-delegated policy info = refl

abbrev pub because : String → Request → Request
because reason req = record req { reason = reason }

abbrev pub is_delegated : Option Policy → Bool
is_delegated none = false
is_delegated (some policy) = true

-- The policy in force.
abbrev pub in_force : Module → Option Policy → Option Policy
in_force m none = m.approval
in_force m (some policy) = some policy

-- The host was asked about this call, once, and consented.
abbrev pub Approved : Option (Request → Answer) → CallInfo → Request → List Act → Type 0
Approved host info req acts =
    (asker : Request → Answer) × (reason : String) × (host ≡ some asker)
    × Consents (asker (because reason req))
    × (acts ≡ asked (because reason req) ∷ fire info "approved" reason ∷ [])

-- A policy that answers, and lets the call through without asking.
abbrev pub Passes : Option Policy → Request → Type 0
Passes policy req =
    (p : Policy) × (policy ≡ some p) × ((p req ≡ ok auto) ⊎ (p req ≡ ok allowed_once))

-- A path that is empty, or that the file policy lets pass.
abbrev pub Fit : Module → String → Type 0
Fit m path =
    (path ≡ "") ⊎ ((check : String → Option Fault) × (m.file ≡ some check) × (check path ≡ none))

abbrev pub AllFit : Module → List String → Type 0
AllFit m [] = Unit {0}
AllFit m (path ∷ paths) = Fit m path × AllFit m paths

-- The arguments of the call have paths, and every path fits.
abbrev pub FilesFit : Module → CallInfo → Type 0
FilesFit m info = (paths : List String) × (m.paths info.name info.args ≡ ok paths) × AllFit m paths

abbrev pub Within : Module → CallInfo → List ℕ → Type 0
Within m info effects = (contains effect_write effects ≡ false) ⊎ FilesFit m info

pub check_file-Fit : (m : Module) (path : String) → check_file m path ≡ none → Fit m path
unfolding check_file
check_file-Fit m path h = elim (Bool-cases (path == "")) [
  | inl blank ↦ inl ((string_eq.beq_iff path "").0 blank)
  | inr named ↦ elim (Option-cases m.file) [
    | inl e ↦ absurd (no_policy named e h)
    | inr (check, e) ↦ inr (check, e, sym (checks named e) ∙ h)
  ]
]
  where
    no_policy : (path == "") ≡ false → m.file ≡ none → check_file m path ≡ none → ⊥
    no_policy named e k =
        let denied : check_file m path
            ≡ some (policy_denial "write" path read_only "no file policy configured") =
          rw (check_file, named, e) refl in
        let bad = sym k ∙ denied in absurd (cc bad)

    checks :
        {check : String → Option Fault}
        → (path == "") ≡ false
        → m.file ≡ some check
        → check_file m path ≡ check path
    checks named e = rw (check_file, named, e) refl

pub policy_decision-answers :
    (p : Policy) (req : Request) (d : Decision)
    → policy_decision p req ≡ d
    → ¬ (d ≡ deny)
    → p req ≡ ok d
unfolding policy_decision
policy_decision-answers p req d h lets = elim (Result-cases (p req)) [
  | inl (d', e) ↦
      let same : policy_decision p req ≡ d' = rw (policy_decision, e) refl in
      e ∙ ap (λ x. ok x) (sym same ∙ h)
  | inr (fault, e) ↦
      let denied : policy_decision p req ≡ deny = rw (policy_decision, e) refl in
      absurd (lets (sym h ∙ denied))
]
