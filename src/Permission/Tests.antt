-- ===== src/Permission/Tests.antt =====
-- module/permission on a session whose file policy keeps /etc out, with a host that says yes.
use gocel.Prelude.{
  ℕ, ◌≡◌, refl, ◌↔◌, true, false, List, [], ◌∷◌, String, Option, none, some, inl, inr, ok,
  string_eq, ◌==◌, contains, if◌then◌else◌,
}
use gocel.Prelude.Int.{pos}
use gocel.Permission.{
  Module, CallInfo, Request, Answer, Policy, Fault, policy_denial, workspace_write, allowed,
  refused, on_tool_call, auto, policy_decision, request_for, contained,
}
use gocel.Permission.Audit.{Audited, audited}
use gocel.Permission.Containing.{Sound, allowed-Sound, delegated_unchecked}
use gocel.Permission.Needs.{requested, Passes}
use gocel.Permission.Fitting.{Harmless, Harmless-allowed}
use gocel.Permission.Presets.{ask_policy, auto_policy}
use gocel.Permission.Paths.{
  Json, obj, arr, text, field, end, cons, nil, collect_paths, Under, collect_paths_lem,
}

abbrev keep_out : String → Option Fault
keep_out path =
    if path == "/etc/passwd"
    then some (policy_denial "write" path workspace_write "outside the workspace")
    else none

abbrev yes_man : Request → Answer
yes_man req = record { decision = auto; error = none; cancelled = none }

abbrev session : Policy → Module
session policy = record {
  file = some keep_out;
  approval = some policy;
  asker = some yes_man;
  paths = λ name args. ok (args ∷ []);
}

abbrev call : String → List ℕ → CallInfo
call path effects = record {
  invocation_id = "i";
  agent_name = "a";
  step_index = pos 0;
  name = "write_file";
  args = path;
  effects = effects;
}

-- The host's consent to a write outside of the workspace.
escalated : (on_tool_call (session ask_policy) none (call "/etc/passwd" (2 ∷ []))).1 ≡ allowed
unfolding on_tool_call
escalated = refl

-- A policy that does not ask is a hard block.
hard_block :
    (on_tool_call (session auto_policy) none (call "/etc/passwd" [])).1
    ≡ refused
        (contained (policy_denial "write" "/etc/passwd" workspace_write "outside the workspace"))
unfolding on_tool_call
hard_block = refl

audited_example :
    Audited
      (some yes_man)
      (call "/etc/passwd" (2 ∷ []))
      (requested none (call "/etc/passwd" (2 ∷ [])))
      false
      (on_tool_call (session ask_policy) none (call "/etc/passwd" (2 ∷ [])))
audited_example = audited (session ask_policy) none (call "/etc/passwd" (2 ∷ []))

allowed-Sound_example :
    Sound
      (session ask_policy)
      (call "/etc/passwd" (2 ∷ []))
      false
      (some ask_policy)
      (requested none (call "/etc/passwd" (2 ∷ [])))
      (on_tool_call (session ask_policy) none (call "/etc/passwd" (2 ∷ []))).0
allowed-Sound_example =
    allowed-Sound (session ask_policy) none (call "/etc/passwd" (2 ∷ [])) escalated

decided : policy_decision auto_policy (request_for (call "/etc/passwd" []) []) ≡ auto
unfolding policy_decision
decided = refl

delegated_unchecked_example :
    on_tool_call (session ask_policy) (some auto_policy) (call "/etc/passwd" []) ≡ ([], allowed)
delegated_unchecked_example =
    delegated_unchecked (session ask_policy) auto_policy (call "/etc/passwd" []) refl decided

in_tier : Harmless (session auto_policy) (call "notes" [])
in_tier = inr ("notes" ∷ [], refl, (inr (keep_out, refl, refl), tt))

auto-Passes : Passes (some auto_policy) (requested none (call "notes" []))
auto-Passes = (auto_policy, refl, inl refl)

Harmless-allowed_example : on_tool_call (session auto_policy) none (call "notes" []) ≡ ([], allowed)
Harmless-allowed_example =
    Harmless-allowed (session auto_policy) (call "notes" []) none in_tier auto-Passes

abbrev nested : Json
nested = obj (field "edits" (arr (cons (obj (field "file_path" (text "b.go") end)) nil)) end)

collect_paths_lem_example :
    (contains "b.go" (collect_paths (λ k. k) nested) ≡ true) ↔ Under (λ k. k) nested "b.go"
collect_paths_lem_example = collect_paths_lem (λ k. k) nested "b.go"

collected : collect_paths (λ k. k) nested ≡ "b.go" ∷ []
unfolding collect_paths
collected = refl
