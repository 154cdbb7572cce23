-- ===== src/Permission/Presets.antt =====
-- module/permission/presets.go and `DefaultApprovalFor` of core/kernel/permission.go: a preset sets
-- the mode of the file policy and selects an approval policy.
use gocel.Prelude.{
  inl, inr, ◌⊎◌, Result-cases, inr, Result-cases, inl, ◌⊎◌, ◌≡◌, refl, List, [], ◌∷◌, String,
  Option, none, some, string_eq, ◌==◌, if◌then◌else◌, Result, ok, err,
}
use gocel.Permission.{
  Policy, Decision, auto, ask, allowed_once, deny, other, Mode, read_only, workspace_write,
  danger_full_access, other_mode,
}

pub default_approval_for : Mode → Decision
default_approval_for read_only = ask
default_approval_for workspace_write = ask
default_approval_for danger_full_access = auto
default_approval_for (other_mode n) = deny

pub record Preset : Type 0 where
  pub name : String
  pub description : String
  pub mode : Mode
  pub approval : String

abbrev pub default_presets : List Preset
default_presets =
    record {
      name = "workspace-write";
      description = "Writes confined to the workspace; risky calls ask the user";
      mode = workspace_write;
      approval = "ask";
    }
    ∷ record {
      name = "danger-full-access";
      description = "Full access; approval never asks (CI / unattended)";
      mode = danger_full_access;
      approval = "never";
    }
    ∷ []

find_preset : List Preset → String → Option Preset
find_preset [] name = none
find_preset (p ∷ table) name = if p.name == name then some p else find_preset table name

-- The policies NeverApprovalPolicy, askApprovalPolicy and autoApprovalPolicy.
abbrev pub never_policy : Policy
never_policy req = ok deny

abbrev pub ask_policy : Policy
ask_policy req = ok ask

abbrev pub auto_policy : Policy
auto_policy req = ok auto

pub data PresetError : Type 0 where
  nil_file_policy policy_not_settable unknown_approval : PresetError

-- A file policy that is absent, without a SetMode, or with the mode that SetMode sets.
pub data FilePolicy : Type 0 where
  absent fixed : FilePolicy
  settable : Mode → FilePolicy

pub tier_policy : Decision → Policy
tier_policy auto = auto_policy
tier_policy deny = never_policy
tier_policy ask = ask_policy
tier_policy allowed_once = ask_policy
tier_policy (other n) = ask_policy

pub resolve_approval : Preset → Result PresetError Policy
unfolding tier_policy default_approval_for
resolve_approval p =
    if p.approval == "ask"
    then ok ask_policy
    else if p.approval == "never"
    then ok auto_policy
    else if p.approval == ""
    then ok (tier_policy (default_approval_for p.mode))
    else err unknown_approval

pub apply : Preset → FilePolicy → FilePolicy × Result PresetError Policy
unfolding resolve_approval
apply p absent = (absent, err nil_file_policy)
apply p fixed = (fixed, err policy_not_settable)
apply p (settable mode) = elim (resolve_approval p) [
  | err fault ↦ (settable mode, err fault)
  | ok policy ↦ (settable p.mode, ok policy)
]

-- apply
pub apply_lem :
    (p : Preset) (file : FilePolicy)
    → ((f : PresetError) × (apply p file ≡ (file, err f)))
      ⊎ ((policy : Policy) × (mode : Mode) × (file ≡ settable mode)
          × (resolve_approval p ≡ ok policy)
          × (apply p file ≡ (settable p.mode, ok policy)))
unfolding apply
apply_lem p absent = inl (nil_file_policy, refl)
apply_lem p fixed = inl (policy_not_settable, refl)
apply_lem p (settable mode) = elim (Result-cases (resolve_approval p)) [
  | inl (policy, e) ↦ inr (policy, mode, refl, e, rw (apply, e) refl)
  | inr (f, e) ↦ inl (f, rw (apply, e) refl)
]
