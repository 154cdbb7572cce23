-- ===== src/Repeats.antt =====
-- module/repeattool/repeattool.go. `normalize` is `normalizeArgs`, which parses and prints JSON, and
-- `render` the text of a reminder, which is never empty, so that `none` is Go's empty string. The
-- names of agents are given with the calls.
pub mod Streaks
mod Tests
use gocel.Prelude.{
  ℕ, zero, suc, ◌+◌, Bool, true, false, List, [], ◌∷◌, ◌++◌, String, Option, none, some, lookup,
  insert, remove, string_eq, ◌==◌, if◌then◌else◌,
}
use Prim.Native.String.{◌++◌ as append}
use gocel.Prelude.Int.{ℤ, pos, beq_ℤ}

pub record Chain : Type 0 where
  pub key : String
  pub name : String
  pub args : String
  pub count : ℕ
  pub reminded : ℤ

pub record Module : Type 0 where
  pub chains : List (String × Chain)
  pub thresholds : List ℤ
  pub pending : List (String × String)

pub record Call : Type 0 where
  pub agent : String
  pub name : String
  pub args : String

-- `New` with the thresholds that its options leave.
pub new : List ℤ → Module
new thresholds = record { chains = []; thresholds = thresholds; pending = [] }

abbrev pub default_thresholds : List ℤ
default_thresholds = pos 3 ∷ pos 5 ∷ pos 8 ∷ []

-- The first threshold that the count is equal to.
abbrev pub crossed : ℕ → List ℤ → Option ℤ
crossed count [] = none
crossed count (th ∷ rest) = if beq_ℤ (pos count) th then some th else crossed count rest

module _ (normalize : String → String) (render : String → String → ℤ → String) where
  abbrev pub key_of : String → String → String
  key_of name args = append name (append "\0" (normalize args))

  -- The chain of the agent, with a new one if it has none.
  abbrev chain_or : String → Call → Option Chain → Chain
  chain_or key call (some c) = c
  chain_or key call none = record {
    key = key;
    name = call.name;
    args = call.args;
    count = 0;
    reminded = pos 0;
  }

  abbrev put : Call → Chain → Module → Module
  put call c m = record m { chains = insert call.agent c m.chains }

  -- The end of `observe`, for a call of the chain.
  abbrev remind : Call → Chain → Module → Option String × Module
  remind call c m = elim (crossed c.count m.thresholds) [
    | none ↦ (none, put call c m)
    | some th ↦ (some (render c.name c.args th), put call (record c { reminded = th }) m)
  ]

  -- The rest of `observe`, with the chain of the agent.
  abbrev observe_in : Call → Chain → Module → Option String × Module
  observe_in call c m =
      let key = key_of call.name call.args in
      if c.key == key then remind call (record c { count = c.count + 1 }) m else (
        none,
        put call
            (record { key = key; name = call.name; args = call.args; count = 1; reminded = pos 0 })
            m,
      )

  pub observe : Call → Module → Option String × Module
  observe call m =
      observe_in call (chain_or (key_of call.name call.args) call (lookup call.agent m.chains)) m

  -- The hooks of `Register`, with the nil checks of the first.
  pub on_tool_result : Option Call → Module → Module
  unfolding observe
  on_tool_result none m = m
  on_tool_result (some call) m =
      let (reminder, m') = observe call m in
      if call.name == "" then m else elim reminder [
        | none ↦ m'
        | some text ↦ record m' { pending = insert call.agent text m'.pending }
      ]

  pub on_messages_built :
      {Message : Type 0} (system : String → Message) (agent : String)
      → List Message
      → Module
      → List Message × Module
  on_messages_built system agent msgs m = elim (lookup agent m.pending) [
    | none ↦ (msgs, m)
    | some text ↦ (msgs ++ system text ∷ [], record m { pending = remove agent m.pending })
  ]

  pub observe_all : List Call → Module → Module
  unfolding observe
  observe_all [] m = m
  observe_all (call ∷ past) m = (observe call (observe_all past m)).1
