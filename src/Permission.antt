-- ===== src/Permission.antt =====
-- module/permission/permission.go, with the decisions of core/kernel/permission.go. One call of the
-- hook is a function: its verdict, and the list of what it asked the host and reported, in order.
-- A file policy and an approval policy are functions, as is the host's asker, whose answer holds
-- the context's error after it. The runtime has a FireDecision, whose error the code drops.
pub mod Audit
pub mod Containing
pub mod Fitting
pub mod Needs
pub mod Paths
pub mod Presets
mod Tests
use gocel.Prelude.{
  ℕ, Bool, true, false, ◌&&◌, List, [], ◌∷◌, ◌++◌, String, Option, none, some, nat_eq, string_eq,
  contains, ◌==◌, if◌then◌else◌, Result, ok, err,
}
use gocel.Prelude.Int.{ℤ}
use Prim.Native.String.{◌++◌ as text_append}

pub data Decision : Type 0 where
  auto ask allowed_once deny : Decision
  other : ℤ → Decision

decision_string : Decision → String
decision_string auto = "auto"
decision_string ask = "ask"
decision_string allowed_once = "allowed-once"
decision_string deny = "deny"
decision_string (other n) = "unknown"

pub data Mode : Type 0 where
  read_only workspace_write danger_full_access : Mode
  other_mode : ℤ → Mode

unfoldable pub mode_string : Mode → String
mode_string read_only = "read-only"
mode_string workspace_write = "workspace-write"
mode_string danger_full_access = "danger-full-access"
mode_string (other_mode n) = "unknown"

-- Errors as far as the module looks into them.
pub data Fault : Type 0 where
  denied_error : (feedback : String) → Fault
  policy_denial : (op path : String) (mode : Mode) (reason : String) → Fault
  wrapped : (text : String) → Fault → Fault
  plain : (text : String) → Fault

unfoldable pub fault_text : Fault → String
unfolding mode_string
fault_text (denied_error feedback) = feedback
fault_text (policy_denial op path mode reason) = text_append "policy denial: " (
    text_append op (
      text_append " " (
        text_append path
          (text_append " at " (text_append (mode_string mode) (text_append ": " reason))))))
fault_text (wrapped text fault) = text
fault_text (plain text) = text

-- `IsDeniedError`
unfoldable pub denied_feedback : Fault → Option String
denied_feedback (denied_error feedback) = some feedback
denied_feedback (policy_denial op path mode reason) = none
denied_feedback (wrapped text fault) = denied_feedback fault
denied_feedback (plain text) = none

-- `ToolEffect`: one bit for each effect.
abbrev pub effect_write : ℕ
effect_write = 2

abbrev pub effect_exec : ℕ
effect_exec = 4

pub record CallInfo : Type 0 where
  pub invocation_id : String
  pub agent_name : String
  pub step_index : ℤ
  pub name : String
  pub args : String
  pub effects : List ℕ

pub record Request : Type 0 where
  pub tool_name : String
  pub effects : List ℕ
  pub args : String
  pub reason : String

pub record DecisionInfo : Type 0 where
  pub invocation_id : String
  pub agent_name : String
  pub step_index : ℤ
  pub tool : String
  pub args : String
  pub decision : String
  pub reason : String

abbrev pub Policy : Type 0
Policy = Request → Result Fault Decision

-- What the asker returned, and the context's error afterwards.
pub record Answer : Type 0 where
  pub decision : Decision
  pub error : Option Fault
  pub cancelled : Option Fault

pub record Module : Type 0 where
  pub file : Option (String → Option Fault)
  pub approval : Option Policy
  pub asker : Option (Request → Answer)
  pub paths : String → String → Result Fault (List String)

pub data Refusal : Type 0 where
  delegated_asks delegated_denied policy_denied unknown_decision : (tool : String) → Refusal
  contained : Fault → Refusal
  no_answerer host_rejected : (tool : String) → Refusal
  host_feedback : (tool feedback : String) → Refusal
  ask_failed : (tool : String) → Fault → Refusal

-- What a call does to the outside.
pub data Act : Type 0 where
  asked : Request → Act
  fired : DecisionInfo → Act

pub data Verdict : Type 0 where
  allowed : Verdict
  refused : Refusal → Verdict

-- The two results of `contain`: not settled, settled without an error, and settled with one.
pub data Containment : Type 0 where
  fits settled : Containment
  blocked : Refusal → Containment

pub fire : CallInfo → (decision reason : String) → Act
fire info decision reason = fired (record {
  invocation_id = info.invocation_id;
  agent_name = info.agent_name;
  step_index = info.step_index;
  tool = info.name;
  args = info.args;
  decision = decision;
  reason = reason;
})

unfoldable pub has_effect : List ℕ → ℕ → Bool
has_effect effects want = contains want effects

pub check_file : Module → String → Option Fault
check_file m path = if path == "" then none else elim m.file [
  | none ↦ some (policy_denial "write" path read_only "no file policy configured")
  | some check ↦ check path
]

pub should_ask : Module → Request → Bool
should_ask m req = elim m.approval [
  | none ↦ false
  | some policy ↦ elim (policy req) [ ok ask ↦ true | _ ↦ false ]
]

-- The answer of the host, after IsDeniedError has not applied.
answered : CallInfo → (reason : String) → Answer → Act × Verdict
unfolding fire
answered info reason a = elim a.error [
  | some fault ↦ (
    fire info "rejected" "approval channel error or cancellation",
    refused (ask_failed info.name fault),
  )
  | none ↦ elim a.cancelled [
    | some fault ↦ (
      fire info "rejected" "approval channel error or cancellation",
      refused (ask_failed info.name fault),
    )
    | none ↦ elim a.decision [
      | allowed_once ↦ (fire info "approved" reason, allowed)
      | auto ↦ (fire info "approved" reason, allowed)
      | _ ↦ (fire info "rejected" reason, refused (host_rejected info.name))
    ]
  ]
]

-- The feedback of a denial that says why.
feedback_of : Answer → Option String
unfolding denied_feedback
feedback_of a = elim a.error [
  | none ↦ none
  | some fault ↦ elim a.decision [ deny ↦ denied_feedback fault | _ ↦ none ]
]

pub decide : Module → CallInfo → Request → (reason : String) → List Act × Verdict
unfolding answered feedback_of fire
decide m info req reason = elim m.asker [
  | none ↦
      (fire info "rejected" "no approval answerer configured" ∷ [], refused (no_answerer info.name))
  | some asker ↦
      let asking = record req { reason = reason } in
      let a = asker asking in
      elim (feedback_of a) [
        | some text ↦
            (asked asking ∷ fire info "rejected" text ∷ [], refused (host_feedback info.name text))
        | none ↦ let (act, verdict) = answered info reason a in (asked asking ∷ act ∷ [], verdict)
      ]
]

contained_by : Verdict → Containment
contained_by allowed = settled
contained_by (refused refusal) = blocked refusal

-- The loop of `contain` over the paths.
pub contain_paths :
    Module → CallInfo → Request → (escalate : Bool) → List String → List Act × Containment
unfolding check_file should_ask decide contained_by fire fault_text
contain_paths m info req escalate [] = ([], fits)
contain_paths m info req escalate (path ∷ paths) = elim (check_file m path) [
  | none ↦ contain_paths m info req escalate paths
  | some fault ↦
      if escalate && should_ask m req
      then (let (acts, verdict) = decide m info req (fault_text fault) in
          (acts, contained_by verdict))
      else (fire info "policy_deny" (fault_text fault) ∷ [], blocked (contained fault))
]

pub contain : Module → CallInfo → Request → (escalate : Bool) → List Act × Containment
unfolding contain_paths has_effect fire fault_text
contain m info req escalate =
    if has_effect req.effects effect_write
    then elim (m.paths info.name info.args) [
      | err fault ↦ (
        fire info "policy_deny" (text_append "unparseable arguments: " (fault_text fault)) ∷ [],
        blocked (contained fault),
      )
      | ok paths ↦ contain_paths m info req escalate paths
    ]
    else ([], fits)

-- An error of the policy counts as a denial.
pub policy_decision : Policy → Request → Decision
policy_decision policy req = elim (policy req) [ ok decision ↦ decision | err fault ↦ deny ]

-- The rest of a delegated call, after containment.
delegated_rest : CallInfo → Decision → List Act × Verdict
unfolding fire
delegated_rest info decision = elim decision [
  | auto ↦ ([], allowed)
  | allowed_once ↦ ([], allowed)
  | ask ↦ (
    fire info "policy_deny" "delegated approval policy asks but no answerer watches a child" ∷ [],
    refused (delegated_asks info.name),
  )
  | _ ↦ (
    fire info "policy_deny" "delegated approval policy denied the call" ∷ [],
    refused (delegated_denied info.name),
  )
]

-- The switch on the decision of the session's own policy.
session_decision : Module → CallInfo → Request → Decision → List Act × Verdict
unfolding decide fire
session_decision m info req decision = elim decision [
  | auto ↦ ([], allowed)
  | allowed_once ↦ ([], allowed)
  | deny ↦ (
    fire info "policy_deny" "approval policy denied the call" ∷ [],
    refused (policy_denied info.name),
  )
  | ask ↦ decide m info req "the approval policy asks the host"
  | other n ↦ (
    fire info "policy_deny" "unknown approval decision" ∷ [],
    refused (unknown_decision info.name),
  )
]

-- The rest of a call of the session itself, after containment.
session_rest : Module → CallInfo → Request → List Act × Verdict
unfolding decide policy_decision session_decision
session_rest m info req = elim m.approval [
  | none ↦ decide m info req "no approval policy configured"
  | some policy ↦ session_decision m info req (policy_decision policy req)
]

-- Containment first; it has settled the call, or the rest decides.
after_containment : List Act × Containment → List Act × Verdict → List Act × Verdict
after_containment (acts, fits) rest = (acts ++ rest.0, rest.1)
after_containment (acts, settled) rest = (acts, allowed)
after_containment (acts, blocked refusal) rest = (acts, refused refusal)

pub or_fallback : List ℕ → List ℕ
or_fallback [] = effect_write ∷ effect_exec ∷ []
or_fallback (effect ∷ effects) = effect ∷ effects

pub request_for : CallInfo → List ℕ → Request
request_for info effects = record {
  tool_name = info.name;
  effects = effects;
  args = info.args;
  reason = "";
}

-- The hook on a tool call. `delegated` is the policy that the context holds.
pub on_tool_call : Module → (delegated : Option Policy) → CallInfo → List Act × Verdict
unfolding contain delegated_rest session_rest policy_decision after_containment or_fallback
    request_for
on_tool_call m (some policy) info =
    let req = request_for info info.effects in
    after_containment (contain m info req false) (delegated_rest info (policy_decision policy req))
on_tool_call m none info =
    let req = request_for info (or_fallback info.effects) in
    after_containment (contain m info req true) (session_rest m info req)
